-- ===== src/Prelude/Text.antt =====
-- What the code asks of a string: its code points, `trim()` being empty, a prefix.
use Prim.Native.Nat.{ℕ, zero, suc, ◌/◌, ◌%◌}
use Prim.Native.Char.{code}
use Prim.Native.String.{String, ◌++◌ as ◌⊕◌}
use mathlib.Core.Bool.{Bool, not, ◌&&◌, ◌||◌}
use mathlib.Core.List.{List, [], ◌∷◌}
use atlas_cli.Prelude.Tests.{if◌then◌else◌, leb, includes, ℕ_eq}
use atlas_cli.Prelude.Lists.{every, is_empty}

-- The code points of a text. `String` has its own `[]` and `∷`.
abbrev pub codes : String → List ℕ
codes String.[] = []
codes (String.◌∷◌ c s) = code c ∷ codes s

-- The white space and line terminators that `trim()` removes.
abbrev pub is_space : ℕ → Bool
is_space c =
    (leb 9 c && leb c 13)
    || (leb 0x2000 c && leb c 0x200a)
    || includes (32 ∷ 160 ∷ 0x1680 ∷ 0x2028 ∷ 0x2029 ∷ 0x202f ∷ 0x205f ∷ 0x3000 ∷ 0xfeff ∷ []) c

abbrev drop_space : List ℕ → List ℕ
drop_space [] = []
drop_space (c ∷ cs) = let rest = drop_space cs in if is_space c then rest else c ∷ cs

abbrev drop_end : List ℕ → List ℕ
drop_end [] = []
drop_end (c ∷ cs) = let rest = drop_end cs in if is_empty rest && is_space c then [] else c ∷ rest

-- `text.trimStart()` and `text.trim()`, of a text given by its code points or its code units
abbrev pub trim_start : List ℕ → List ℕ
trim_start = drop_space

abbrev pub trim : List ℕ → List ℕ
trim cs = drop_end (drop_space cs)

-- `!s.trim()`
unfoldable pub is_blank : String → Bool
is_blank s = every is_space (codes s)

-- `z.string().min(1)`
unfoldable pub is_present : String → Bool
is_present s = not (is_empty (codes s))

abbrev digit_texts : List String
digit_texts = "0" ∷ "1" ∷ "2" ∷ "3" ∷ "4" ∷ "5" ∷ "6" ∷ "7" ∷ "8" ∷ "9" ∷ []

abbrev text_at : List String → ℕ → String
text_at [] n = ""
text_at (s ∷ ss) zero = s
text_at (s ∷ ss) (suc n) = text_at ss n

-- A number in decimal, of at most `fuel` digits: `n + 1` are enough for `n`.
abbrev pub decimal : ℕ → ℕ → String
decimal zero n = ""
decimal (suc fuel) n = elim (n / 10) [
  | zero ↦ text_at digit_texts n
  | suc q ↦ decimal fuel (suc q) ⊕ text_at digit_texts (n % 10)
]
