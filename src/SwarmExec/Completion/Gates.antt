-- ===== src/SwarmExec/Completion/Gates.antt =====
-- When src/swarm-exec/completion-policy.ts says that a run is done.
use atlas_cli.Prelude.{
  ℕ, ◌-◌, ◌≤◌, Bool, true, false, not, ◌&&◌, Option, none, some, ◌≡◌, ◌↔◌, refl, sym, ap, subst,
  or_else, arith, length,
}
use atlas_cli.SwarmExec.Completion.{
  done, CompletionPolicy, CompletionInput, has_text, has_tokens, is_true, dedup_by_id, valid_policy,
  gates, gated, ok_responders, evaluate_completion,
}

-- A flag asks for something only where it is set.
abbrev pub Asks : Bool → Bool → Type 0
Asks flag given = flag ≡ true → given ≡ true

-- What a policy asks of a run in which so many responders are ok and so many failed.
pub record IsMet (input : CompletionInput) (policy : CompletionPolicy) (ok_count failed_count : ℕ)
    : Type 0 where
  pub some_ok : 1 ≤ ok_count
  pub enough : policy.required_responders ≤ ok_count
  pub few_failed : failed_count ≤ policy.failure_budget
  pub no_violation : has_text input.jidoka_violation ≡ false
  pub tokens : Asks policy.require_evidence_tokens (has_tokens input.evidence_tokens)
  pub evaluator : Asks policy.require_evaluator (is_true input.evaluator_passed)
  pub promotion : Asks policy.require_promotion (is_true input.promotion_passed)

abbrev stopped : Bool → Bool → Bool
stopped flag given = flag && not given

Asks-passed : (flag given : Bool) → Asks flag given → stopped flag given ≡ false
Asks-passed true given h = ground (arith, h refl)
Asks-passed false given h = refl

gates-done_iff :
    (input : CompletionInput) (policy : CompletionPolicy) (k f : ℕ)
    → ((gates input policy k f).0 ≡ done) ↔ IsMet input policy k f
unfolding gates
gates-done_iff input policy k f = (
  λ h. record {
    some_ok = ground (arith, h);
    enough = ground (arith, h);
    few_failed = ground (arith, h);
    no_violation = ground (arith, h);
    tokens = λ e. ground (arith, h, e);
    evaluator = λ e. ground (arith, h, e);
    promotion = λ e. ground (arith, h, e);
  },
  λ m. ground (
    arith,
    m.some_ok,
    m.enough,
    m.few_failed,
    m.no_violation,
    Asks-passed policy.require_evidence_tokens (has_tokens input.evidence_tokens) m.tokens,
    Asks-passed policy.require_evaluator (is_true input.evaluator_passed) m.evaluator,
    Asks-passed policy.require_promotion (is_true input.promotion_passed) m.promotion,
  ),
)

gated-done_iff :
    (input : CompletionInput) (o : Option CompletionPolicy) (k f : ℕ)
    → ((gated input o k f).0 ≡ done)
      ↔ ((policy : CompletionPolicy) × (o ≡ some policy) × IsMet input policy k f)
gated-done_iff input none k f = (λ h. cc, λ h. cc)
gated-done_iff input (some p) k f = (
  λ h. (p, refl, (gates-done_iff input p k f).0 h),
  λ (q, e, m).
      (gates-done_iff input p k f).1
        (subst (λ q. IsMet input q k f) (sym (ap (λ o. or_else o p) e)) m),
)

-- The verdict is done exactly when the policy is valid and, of the responders with a repeated id
-- counted once, at least one and as many as required are ok on their evidence, no more failed than
-- the budget allows, there is no violation, and the tokens, the evaluator and the promotion are
-- there where the policy asks for them.
pub evaluate_completion-done_iff :
    (input : CompletionInput)
    → let total = length (dedup_by_id input.responders) in
      let ok_count = ok_responders (dedup_by_id input.responders) in
      ((evaluate_completion input).completion ≡ done) ↔ (
        (policy : CompletionPolicy) × (valid_policy input.policy ≡ some policy)
        × IsMet input policy ok_count (total - ok_count))
unfolding evaluate_completion
evaluate_completion-done_iff input = gated-done_iff input (valid_policy input.policy) _ _
