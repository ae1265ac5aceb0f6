-- ===== src/Atlas/SpendPolicy.antt =====
-- src/atlas/spend-policy.ts: the gate in front of every model call, and the daily cap of queue
-- seeds.
use atlas_cli.Prelude.{
  ℕ, ◌+◌, ◌-◌, ◌*◌, String, Bool, true, false, not, ◌&&◌, ◌||◌, Option, none, some, List, [], ◌∷◌,
  map, if◌then◌else◌, ltb, leb, or_else, includes, ◌==◌, ℕ_eq, string_eq, trim, trim_start, codes,
}
use atlas_cli.Prelude.Regex.{lower, is_digit}
pub mod Gate
pub mod Slots

-- The environment variables that the policy reads, the pause file, and what `policy.ts` and
-- `spend-tracker.ts` answer: the cap of the policy file and the tokens used today.
pub record SpendEnv : Type 0 where
  pub pause : Option String
  pub pause_file : Bool
  pub allow_paid : Option String
  pub daily_token_cap_raw : Option String
  pub policy_cap : ℕ
  pub brain_queue_cap_raw : Option String
  pub used : ℕ
  pub today : String

-- The variables of the module, and the callers that were warned about.
pub record SpendState : Type 0 where
  pub warned_date : String
  pub queue_day : String
  pub queue_count : ℕ
  pub warnings : List String

abbrev pub default_brain_queue_cap : ℕ
default_brain_queue_cap = 20

abbrev pub paid_providers : List String
paid_providers = "openai" ∷ "openrouter" ∷ "anthropic" ∷ []

unfoldable pub is_paid_provider : String → Bool
is_paid_provider provider = includes paid_providers provider

abbrev same_codes : List ℕ → List ℕ → Bool
same_codes [] [] = true
same_codes (a ∷ xs) (b ∷ ys) = a == b && same_codes xs ys
same_codes _ _ = false

-- `(v ?? '').trim().toLowerCase()` is `1`, `true` or `yes`. No letter but an ASCII one has a letter
-- of these words as its lower case.
unfoldable pub is_yes : Option String → Bool
is_yes raw =
    let word = map lower (trim (codes (or_else raw ""))) in
    same_codes word (codes "1") || (same_codes word (codes "true") || same_codes word (codes "yes"))

-- The digits at the front of a text, as a number: `none` where there is none.
abbrev digits : Option ℕ → List ℕ → Option ℕ
digits acc [] = acc
digits acc (c ∷ cs) =
    let rest = digits (some (or_else acc 0 * 10 + (c - 48))) cs in if is_digit c then rest else acc

abbrev unsigned : List ℕ → Option ℕ
unsigned [] = none
unsigned (c ∷ cs) = if c == 43 then digits none cs else digits none (c ∷ cs)

-- `parseInt(raw, 10)` where it is finite and positive, and `none` otherwise. A `-` leaves no
-- positive number. The number is exact, where the code's is a double.
unfoldable pub parse_positive : String → Option ℕ
parse_positive raw = elim (unsigned (trim_start (codes raw))) [
  | none ↦ none
  | some n ↦ if ltb 0 n then some n else none
]

unfoldable pub is_paused : SpendEnv → Bool
is_paused env = is_yes env.pause || env.pause_file

unfoldable pub paid_allowed : SpendEnv → Bool
paid_allowed env = is_yes env.allow_paid

-- a cap from an environment variable, with what it falls back to
unfoldable pub cap_of : Option String → ℕ → ℕ
cap_of none default = default
cap_of (some raw) default = or_else (parse_positive raw) default

unfoldable pub daily_token_cap : SpendEnv → ℕ
daily_token_cap env = cap_of env.daily_token_cap_raw env.policy_cap

unfoldable pub brain_queue_cap : SpendEnv → ℕ
brain_queue_cap env = cap_of env.brain_queue_cap_raw default_brain_queue_cap

unfoldable pub over_daily_cap : SpendEnv → Bool
over_daily_cap env = leb (daily_token_cap env) env.used

unfoldable pub warn_over_cap_once : SpendEnv → String → SpendState → SpendState
warn_over_cap_once env caller s =
    if s.warned_date == env.today
    then s
    else record s { warned_date = env.today; warnings = caller ∷ s.warnings }

pub data SpendVerdict : Type 0 where
  allowed paid_refused over_cap : SpendVerdict

-- `enforceSpendPolicy`: returns, or throws `SpendBlockedError` for one of two reasons.
unfoldable pub enforce_spend_policy :
    SpendEnv → String → String → SpendState → SpendVerdict × SpendState
unfolding warn_over_cap_once
enforce_spend_policy env provider caller s =
    let paid = is_paid_provider provider in
    if paid && not (paid_allowed env)
    then (paid_refused, s)
    else if over_daily_cap env
    then (if paid then (over_cap, s) else (allowed, warn_over_cap_once env caller s))
    else (allowed, s)

-- `if (queueDay !== today) …`
abbrev new_day : SpendEnv → SpendState → SpendState
new_day env s =
    if s.queue_day == env.today then s else record s { queue_day = env.today; queue_count = 0 }

unfoldable pub try_consume_brain_queue_slot : SpendEnv → SpendState → Bool × SpendState
try_consume_brain_queue_slot env s =
    let day = new_day env s in
    if leb (brain_queue_cap env) day.queue_count
    then (false, day)
    else (true, record day { queue_count = day.queue_count + 1 })

unfoldable pub get_brain_queue_count : SpendEnv → SpendState → ℕ
get_brain_queue_count env s = if s.queue_day == env.today then s.queue_count else 0

unfoldable pub reset_brain_queue_counter : SpendEnv → SpendState → SpendState
reset_brain_queue_counter env s = record s { queue_day = env.today; queue_count = 0 }
