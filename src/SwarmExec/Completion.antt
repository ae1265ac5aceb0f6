-- ===== src/SwarmExec/Completion.antt =====
-- src/swarm-exec/completion-policy.ts: whether a run of the swarm is done.
use atlas_cli.Prelude.{
  ℕ, ◌-◌, String, Bool, false, not, ◌&&◌, Option, none, some, List, [], ◌∷◌, length, filter,
  is_empty, if◌then◌else◌, ltb, nat_eq, includes, ℕ_eq, is_present, is_blank,
}
pub mod Gates
pub mod Claims

pub data Completion : Type 0 where
  done partial failed : Completion

pub record ResponderResult : Type 0 where
  pub id : ℕ
  pub perspective : Option String
  pub provider : String
  pub ok : Bool
  pub output : Option String
  pub error : Option String

-- What a policy may hold for a count: a natural number, or a negative one or one that is no
-- integer.
pub data Count : Type 0 where
  natural : ℕ → Count
  unfit : Count

-- A policy as the caller gives it; a flag that is no Boolean is `none`.
pub record GivenPolicy : Type 0 where
  pub required_responders : Count
  pub failure_budget : Count
  pub require_evidence_tokens : Option Bool
  pub require_evaluator : Option Bool
  pub require_promotion : Option Bool

pub record CompletionPolicy : Type 0 where
  pub required_responders : ℕ
  pub failure_budget : ℕ
  pub require_evidence_tokens : Bool
  pub require_evaluator : Bool
  pub require_promotion : Bool

pub record CompletionInput : Type 0 where
  pub responders : List ResponderResult
  pub policy : Option GivenPolicy
  pub evidence_tokens : Option (List String)
  pub evaluator_passed : Option Bool
  pub promotion_passed : Option Bool
  pub jidoka_violation : Option String

pub data CompletionReason : Type 0 where
  no_policy_fail_closed no_responders_ok failure_budget_exceeded : CompletionReason
  jidoka_violation insufficient_responders no_evidence_tokens : CompletionReason
  evaluator_not_passed promotion_not_passed all_gates_passed : CompletionReason

pub record CompletionVerdict : Type 0 where
  pub completion : Completion
  pub reason : CompletionReason
  pub responders_total : ℕ
  pub responders_ok : ℕ
  pub responders_failed : ℕ

-- `value !== undefined && value !== ''`, and `!!value` of a text
abbrev pub has_text : Option String → Bool
has_text none = false
has_text (some s) = is_present s

-- a text that is not blank
abbrev pub has_words : Option String → Bool
has_words none = false
has_words (some s) = not (is_blank s)

unfoldable pub is_responder_ok : ResponderResult → Bool
is_responder_ok r =
    if has_text r.error
    then false
    else if not (has_words r.output)
    then false
    else is_present r.provider

abbrev dedup_after : List ℕ → List ResponderResult → List ResponderResult
dedup_after seen [] = []
dedup_after seen (r ∷ rs) =
    let kept = dedup_after (r.id ∷ seen) rs in
    let skipped = dedup_after seen rs in if includes seen r.id then skipped else r ∷ kept

unfoldable pub dedup_by_id : List ResponderResult → List ResponderResult
dedup_by_id rs = dedup_after [] rs

-- `isValidPolicy`, with what the code reads of the policy from then on
unfoldable pub valid_policy : Option GivenPolicy → Option CompletionPolicy
valid_policy none = none
valid_policy (some p) = elim p.required_responders [
  | unfit ↦ none
  | natural required ↦ if ltb required 1 then none else elim p.failure_budget [
    | unfit ↦ none
    | natural budget ↦ elim p.require_evidence_tokens [
      | none ↦ none
      | some tokens ↦ elim p.require_evaluator [
        | none ↦ none
        | some evaluator ↦ elim p.require_promotion [
          | none ↦ none
          | some promotion ↦ some (record {
            required_responders = required;
            failure_budget = budget;
            require_evidence_tokens = tokens;
            require_evaluator = evaluator;
            require_promotion = promotion;
          })
        ]
      ]
    ]
  ]
]

abbrev pub is_true : Option Bool → Bool
is_true none = false
is_true (some b) = b

abbrev pub has_tokens : Option (List String) → Bool
has_tokens none = false
has_tokens (some ts) = not (is_empty ts)

-- The gates behind a valid policy, on the numbers of responders that are ok and that failed.
unfoldable pub gates : CompletionInput → CompletionPolicy → ℕ → ℕ → Completion × CompletionReason
gates input policy ok_count failed_count =
    if nat_eq ok_count 0
    then (failed, no_responders_ok)
    else if ltb policy.failure_budget failed_count
    then (failed, failure_budget_exceeded)
    else if has_text input.jidoka_violation
    then (if ltb 0 ok_count then partial else failed, jidoka_violation)
    else if ltb ok_count policy.required_responders
    then (partial, insufficient_responders)
    else if policy.require_evidence_tokens && not (has_tokens input.evidence_tokens)
    then (partial, no_evidence_tokens)
    else if policy.require_evaluator && not (is_true input.evaluator_passed)
    then (partial, evaluator_not_passed)
    else if policy.require_promotion && not (is_true input.promotion_passed)
    then (partial, promotion_not_passed)
    else (done, all_gates_passed)

abbrev pub gated : CompletionInput → Option CompletionPolicy → ℕ → ℕ → Completion × CompletionReason
gated input none ok_count failed_count = (failed, no_policy_fail_closed)
gated input (some policy) ok_count failed_count = gates input policy ok_count failed_count

abbrev pub ok_responders : List ResponderResult → ℕ
ok_responders rs = length (filter is_responder_ok rs)

unfoldable pub evaluate_completion : CompletionInput → CompletionVerdict
evaluate_completion input =
    let deduped = dedup_by_id input.responders in
    let total = length deduped in
    let ok_count = ok_responders deduped in
    let verdict = gated input (valid_policy input.policy) ok_count (total - ok_count) in
    record {
      completion = verdict.0;
      reason = verdict.1;
      responders_total = total;
      responders_ok = ok_count;
      responders_failed = total - ok_count;
    }
