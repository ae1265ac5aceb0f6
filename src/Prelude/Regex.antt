-- ===== src/Prelude/Regex.antt =====
-- Regular expressions on UTF-16 code units, matched by derivatives: what `re.test(text)` asks.
use Prim.Native.Nat.{ℕ, zero, suc, ◌+◌, ◌-◌, ◌/◌, ◌%◌}
use Prim.Native.Char.{code}
use Prim.Native.String.{String}
use mathlib.Core.Bool.{Bool, true, false, not, ◌&&◌, ◌||◌}
use mathlib.Core.List.{List, [], ◌∷◌}
use atlas_cli.Prelude.Tests.{leb, includes, ℕ_eq, nat_eq, if◌then◌else◌}

-- The code units of a text.
abbrev pub units : String → List ℕ
units String.[] = []
units (String.◌∷◌ c s) =
    let rest = units s in
    let n = code c in
    if leb 0x10000 n
    then (0xd800 + (n - 0x10000) / 0x400) ∷ (0xdc00 + (n - 0x10000) % 0x400) ∷ rest
    else n ∷ rest

pub data Re : Type 0 where
  never empty : Re
  one : (ℕ → Bool) → Re
  seq alt : Re → Re → Re
  star : Re → Re

abbrev pub nullable : Re → Bool
nullable never = false
nullable empty = true
nullable (one p) = false
nullable (seq r s) = nullable r && nullable s
nullable (alt r s) = nullable r || nullable s
nullable (star r) = true

-- What is left to match after the unit `c`.
abbrev pub derivative : ℕ → Re → Re
derivative c never = never
derivative c empty = never
derivative c (one p) = if p c then empty else never
derivative c (seq r s) =
    if nullable r then alt (seq (derivative c r) s) (derivative c s) else seq (derivative c r) s
derivative c (alt r s) = alt (derivative c r) (derivative c s)
derivative c (star r) = seq (derivative c r) (star r)

-- A match at the beginning.
abbrev pub matches_here : Re → List ℕ → Bool
matches_here r [] = nullable r
matches_here r (c ∷ cs) = let rest = matches_here (derivative c r) cs in nullable r || rest

-- `re.test(text)` of an expression with no `^`: a match somewhere
abbrev pub matches_somewhere : Re → List ℕ → Bool
matches_somewhere r [] = nullable r
matches_somewhere r (c ∷ cs) = let rest = matches_somewhere r cs in matches_here r (c ∷ cs) || rest

unfoldable pub test : Re → String → Bool
test r s = matches_somewhere r (units s)

-- `^re`
pub test_start : Re → String → Bool
test_start r s = matches_here r (units s)

abbrev pub lower : ℕ → ℕ
lower c = if leb 65 c && leb c 90 then c + 32 else c

-- A literal, and a literal under the flag `i`, written in lower case.
abbrev pub literal_units : List ℕ → Re
literal_units [] = empty
literal_units (c ∷ cs) = seq (one (nat_eq c)) (literal_units cs)

abbrev pub literal : String → Re
literal s = literal_units (units s)

abbrev pub caseless_units : List ℕ → Re
caseless_units [] = empty
caseless_units (c ∷ cs) = seq (one (λ x. nat_eq c (lower x))) (caseless_units cs)

abbrev pub caseless : String → Re
caseless s = caseless_units (units s)

-- `a|b|c`
abbrev pub any_of : List Re → Re
any_of [] = never
any_of (r ∷ rs) = alt r (any_of rs)

-- `rs` one after the other
abbrev pub sequence : List Re → Re
sequence [] = empty
sequence (r ∷ rs) = seq r (sequence rs)

abbrev pub optional : Re → Re
optional r = alt empty r

-- `r{n}` and `r{n,}`
abbrev pub times : ℕ → Re → Re
times zero r = empty
times (suc n) r = seq r (times n r)

abbrev pub at_least : ℕ → Re → Re
at_least n r = seq (times n r) (star r)

abbrev pub between : ℕ → ℕ → ℕ → Bool
between low high c = leb low c && leb c high

abbrev pub is_digit : ℕ → Bool
is_digit = between 48 57

abbrev pub is_alnum : ℕ → Bool
is_alnum c = between 48 57 c || between 65 90 c || between 97 122 c

-- `.`: any unit but a line terminator
abbrev pub is_dot : ℕ → Bool
is_dot c = not (includes (10 ∷ 13 ∷ 0x2028 ∷ 0x2029 ∷ []) c)
