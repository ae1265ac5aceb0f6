-- ===== src/GoalRunner/RedLine/Keywords.antt =====
-- When src/goal-runner/red-line.ts lets a command through.
use atlas_cli.Prelude.{ℕ, Bool, false, Option, some, List, any, ◌≡◌, ◌⊎◌}
use atlas_cli.GoalRunner.RedLine.{KeywordCategory, contains_root, allow, parse_classifier_vote}

-- Whether a root of some category is in the text.
abbrev pub has_root : List ℕ → List KeywordCategory → Bool
has_root normalized cs = any (λ c. any (contains_root normalized) c.roots) cs

-- The vote is switched off, or the model replied and its reply begins with ALLOW.
abbrev pub IsAllowed : Bool → Option (List ℕ) → Type 0
IsAllowed enabled reply =
    (enabled ≡ false)
    ⊎ ((raw : List ℕ) × (reply ≡ some raw) × (parse_classifier_vote raw ≡ some allow))
