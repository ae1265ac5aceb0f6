-- ===== src/SwarmExec/Responders.antt =====
-- What src/swarm-exec/executor.ts makes of a swarm's result: its responders, the health of their
-- providers, the default policy and the default evaluation.
use Prim.Native.String.{◌++◌ as ◌⊕◌}
use atlas_cli.Prelude.{
  ℕ, ◌+◌, ◌-◌, ◌/◌, String, Bool, true, false, not, ◌&&◌, Option, none, some, List, [], ◌∷◌, map,
  length, filter, any, find, if◌then◌else◌, leb, includes, ◌==◌, string_eq, ℕ_eq, or_else, decimal,
}
use atlas_cli.Prelude.Regex.{units, test, any_of, caseless}
use atlas_cli.SwarmExec.Completion.{
  ResponderResult, natural, unfit, Count, GivenPolicy, has_text, has_words,
}
use atlas_cli.SwarmExec.Bundle.{
  ProviderHealthState, healthy, degraded, cooldown, auth_failed, unavailable,
  ProviderHealthSnapshot, ResponderSummary, WorkerResult,
}

-- `Subtask` and `SwarmRunDetail` of src/swarm.ts
pub record Subtask : Type 0 where
  pub id : ℕ
  pub description : String
  pub perspective : Option String

pub record SwarmRunDetail : Type 0 where
  pub subtasks : List Subtask
  pub results : List WorkerResult
  pub synthesis : String
  pub duration_ms : ℕ
  pub jidoka_violation : Option String

pub record EvaluateResult : Type 0 where
  pub evaluator_passed : Bool
  pub promotion_passed : Bool
  pub evidence_tokens : List String
  pub evaluation : Option String
  pub promotion : Option String

abbrev pub larger : ℕ → ℕ → ℕ
larger a b = if leb a b then b else a

-- `defaultSwarmPolicy`
unfoldable pub default_swarm_policy : ℕ → GivenPolicy
default_swarm_policy total =
    let required = larger 1 ((total + 1) / 2) in
    record {
      required_responders = natural required;
      failure_budget = natural (total - required);
      require_evidence_tokens = some true;
      require_evaluator = some true;
      require_promotion = some true;
    }

unfoldable pub is_worker_ok : WorkerResult → Bool
is_worker_ok r = not (has_text r.error) && has_words (some r.output)

unfoldable pub build_responders : SwarmRunDetail → List ResponderResult
build_responders detail =
    map
      (λ r. record {
        id = r.id;
        perspective = elim (find (λ s. s.id == r.id) detail.subtasks) [
          | none ↦ none
          | some s ↦ s.perspective
        ];
        provider = r.provider;
        ok = is_worker_ok r;
        output = some r.output;
        error = r.error;
      })
      detail.results

unfoldable pub build_responder_summaries :
    List ResponderResult → SwarmRunDetail → List ResponderSummary
build_responder_summaries responders detail =
    map
      (λ r. record {
        id = r.id;
        perspective = r.perspective;
        provider = r.provider;
        ok = r.ok;
        duration_ms = elim (find (λ x. x.id == r.id) detail.results) [
          | none ↦ 0
          | some x ↦ x.duration_ms
        ];
        error = r.error;
      })
      responders

unfoldable pub classify_provider_error : String → ProviderHealthState
classify_provider_error error =
    if test (any_of (caseless "401" ∷ caseless "403" ∷ caseless "unauth" ∷ [])) error
    then auth_failed
    else if test (any_of (caseless "429" ∷ caseless "rate" ∷ [])) error
    then cooldown
    else if test (any_of (caseless "timeout" ∷ caseless "timed out" ∷ [])) error
    then unavailable
    else degraded

-- `Array.from(new Set(xs))`, behind the ones that have been seen
abbrev distinct_after : List String → List String → List String
distinct_after seen [] = []
distinct_after seen (x ∷ xs) =
    let kept = distinct_after (x ∷ seen) xs in
    let skipped = distinct_after seen xs in if includes seen x then skipped else x ∷ kept

abbrev pub distinct : List String → List String
distinct xs = distinct_after [] xs

abbrev first_error : List WorkerResult → String
first_error results = elim (find (λ r. has_text r.error) results) [
  | none ↦ ""
  | some r ↦ or_else r.error ""
]

abbrev error_given : String → Option String
error_given error = if has_text (some error) then some error else none

abbrev provider_snapshot : String → List WorkerResult → ProviderHealthSnapshot
provider_snapshot provider results =
    if any (λ r. not (has_text r.error)) results
    then record {
      provider = provider;
      state = healthy;
      responded = any is_worker_ok results;
      error = none;
    }
    else record {
      provider = provider;
      state = classify_provider_error (first_error results);
      responded = any is_worker_ok results;
      error = error_given (first_error results);
    }

unfoldable pub build_provider_health : SwarmRunDetail → List ProviderHealthSnapshot
build_provider_health detail =
    map (λ p. provider_snapshot p (filter (λ r. r.provider == p) detail.results))
      (distinct (map (λ r. r.provider) detail.results))

-- `ok >= required`; of a policy with no natural number the answer is not used
abbrev reaches : ℕ → Count → Bool
reaches ok_count (natural required) = leb required ok_count
reaches ok_count unfit = false

abbrev pub count_text : ℕ → String
count_text n = decimal (n + 1) n

unfoldable pub default_evaluate : SwarmRunDetail → ℕ → GivenPolicy → EvaluateResult
default_evaluate detail ok_count policy =
    let passed =
      reaches ok_count policy.required_responders && not (has_text detail.jidoka_violation) in
    record {
      evaluator_passed = passed;
      promotion_passed = passed;
      evidence_tokens =
          ("responders-ok:" ⊕ count_text ok_count)
          ∷ ("synthesis-chars:" ⊕ count_text (length (units detail.synthesis)))
          ∷ ("providers:" ⊕ count_text (length (distinct (map (λ r. r.provider) detail.results))))
          ∷ [];
      evaluation = none;
      promotion = none;
    }
