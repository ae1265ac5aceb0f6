-- ===== src/Atlas/NotifyQueue/Redaction.antt =====
-- What the redaction of src/atlas/notify-queue.ts leaves alone, and the hours that are quiet.
use atlas_cli.Prelude.{
  ℕ, ◌/◌, ◌%◌, Bool, false, ◌||◌, Option, none, some, List, [], ◌∷◌, ◌≡◌, refl, arith, ltb, leb,
  any, is_some,
}
use atlas_cli.Prelude.Regex.{Re}
use atlas_cli.Atlas.NotifyQueue.{
  Units, match_at, replace_all, redact_by, secret_patterns, redact_secrets, is_quiet_hours,
}

-- Whether `\bre\b` matches somewhere.
abbrev pub has_match : Re → Option ℕ → Units → Bool
has_match r before [] = false
has_match r before (c ∷ cs) = is_some (match_at r before (c ∷ cs)) || has_match r (some c) cs

replace_all-kept :
    (r : Re) (before : Option ℕ) (cs : Units)
    → has_match r before cs ≡ false
    → replace_all r before 0 cs ≡ cs
replace_all-kept r before [] h = refl
replace_all-kept r before (c ∷ cs) h = ground (arith, replace_all-kept r (some c) cs)

redact_by-kept :
    (rs : List Re) (text : Units)
    → any (λ r. has_match r none text) rs ≡ false
    → redact_by rs text ≡ text
redact_by-kept [] text h = refl
redact_by-kept (r ∷ rs) text h =
    ground (arith, replace_all-kept r none text, redact_by-kept rs text)

-- A text in which no pattern of a secret has a match is stored as it is.
pub redact_secrets-kept :
    (text : Units)
    → any (λ r. has_match r none text) secret_patterns ≡ false
    → redact_secrets text ≡ text
unfolding redact_secrets
redact_secrets-kept text h = redact_by-kept secret_patterns text h

-- The quiet hours are from 19:00 UTC, inclusive, to 04:00 UTC, exclusive, on every day.
pub is_quiet_hours-utc :
    (now : ℕ) → is_quiet_hours now ≡ leb 19 (now / 3600000 % 24) || ltb (now / 3600000 % 24) 4
unfolding is_quiet_hours
is_quiet_hours-utc now = ground arith
