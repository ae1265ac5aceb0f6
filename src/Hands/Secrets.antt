-- ===== src/Hands/Secrets.antt =====
-- The scan of receipts for secrets in src/hands/exec-graph-adapter.ts.
use atlas_cli.Prelude.{
  ℕ, String, Bool, false, not, ◌&&◌, ◌||◌, Option, none, some, List, [], ◌∷◌, any, includes,
  is_present, is_space, ℕ_eq,
}
use atlas_cli.Prelude.Regex.{
  Re, test, literal, caseless, any_of, sequence, optional, one, star, at_least, times, is_digit,
  is_alnum, between,
}
use atlas_cli.Hands.Contract.{Receipt}

abbrev is_upper : ℕ → Bool
is_upper = between 65 90

abbrev class : (ℕ → Bool) → List ℕ → ℕ → Bool
class p others c = p c || includes others c

-- `SECRET_SHAPE_PATTERNS`
abbrev secret_shapes : List Re
secret_shapes =
    sequence (literal "sk-" ∷ at_least 16 (one is_alnum) ∷ [])
    ∷ sequence (literal "ghp_" ∷ at_least 20 (one is_alnum) ∷ [])
    ∷ sequence (literal "AKIA" ∷ times 16 (one (λ c. is_digit c || is_upper c)) ∷ [])
    ∷ sequence (
        literal "-----BEGIN "
        ∷ star (one (class is_upper (32 ∷ [])))
        ∷ literal "PRIVATE KEY-----"
        ∷ [])
    ∷ sequence (
        literal "xox"
        ∷ one (includes (98 ∷ 97 ∷ 112 ∷ 114 ∷ 115 ∷ []))
        ∷ literal "-"
        ∷ at_least 1 (one (class is_alnum (45 ∷ [])))
        ∷ [])
    ∷ sequence (
        any_of (
          sequence (caseless "api" ∷ optional (one (includes (95 ∷ 45 ∷ []))) ∷ caseless "key" ∷ [])
          ∷ caseless "password"
          ∷ caseless "secret"
          ∷ caseless "token"
          ∷ caseless "bearer"
          ∷ [])
        ∷ star (one is_space)
        ∷ one (includes (58 ∷ 61 ∷ []))
        ∷ star (one is_space)
        ∷ at_least 8 (one (λ c. not (is_space c)))
        ∷ [])
    ∷ sequence (
        times 8 (one is_digit)
        ∷ optional (one is_digit)
        ∷ optional (one is_digit)
        ∷ literal ":"
        ∷ at_least 30 (one (class is_alnum (95 ∷ 45 ∷ [])))
        ∷ [])
    ∷ []

unfoldable pub contains_secret_shape : String → Bool
contains_secret_shape value = any (λ re. test re value) secret_shapes

-- `field && containsSecretShape(field)`
abbrev pub leaks : Option String → Bool
leaks none = false
leaks (some field) = is_present field && contains_secret_shape field

abbrev items_of : Option (List String) → List String
items_of none = []
items_of (some xs) = xs

-- `assertReceiptHasNoSecrets` throws.
unfoldable pub has_secret : Receipt → Bool
has_secret r =
    leaks (some r.claimed_result)
    || (leaks r.expected_substring
        || (leaks r.command || (leaks r.ref || any (λ a. leaks (some a)) (items_of r.artifacts))))
