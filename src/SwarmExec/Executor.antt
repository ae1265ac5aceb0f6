-- ===== src/SwarmExec/Executor.antt =====
-- src/swarm-exec/executor.ts: a run of the swarm for a task that a hand has been given.
use Prim.Native.String.{◌++◌ as ◌⊕◌}
use atlas_cli.Prelude.{
  ℕ, String, Bool, not, ◌&&◌, ◌||◌, Option, none, some, length, filter, if◌then◌else◌, ◌==◌,
  string_eq, ℕ_eq, or_else,
}
use atlas_cli.Prelude.Action.{
  Result, ok, thrown, Action, pure, gets, or_throw, throw_if, ◌>>=◌, ◌>>◌,
}
use atlas_cli.ExecGraph.Contracts.{Task, delegated, in_progress, verified, status_Eq, Runtime}
use atlas_cli.ExecGraph.Ledger.{World}
use atlas_cli.ExecGraph.Api.{get_task}
use atlas_cli.Hands.Contract.{Receipt, file_contains}
use atlas_cli.Hands.Verifier.{Disk}
use atlas_cli.Hands.Adapter.{
  HandFailure, HandPlatform, HandAct, submit_receipt, abort_hand_task, verify_and_transition,
}
use atlas_cli.SwarmExec.Completion.{
  Completion, done, partial, failed, GivenPolicy, CompletionReason, no_policy_fail_closed,
  no_responders_ok, failure_budget_exceeded, insufficient_responders, no_evidence_tokens,
  evaluator_not_passed, promotion_not_passed, all_gates_passed, CompletionVerdict,
  evaluate_completion,
}
use atlas_cli.SwarmExec.Bundle.{
  RunBundleInput, BundleFile, missing, not_json, json, RunStore, BundlePlatform, StoreAct,
  WriteFailure, dir_at, verified_token, write_run_bundle,
}
use atlas_cli.SwarmExec.Responders.{
  SwarmRunDetail, EvaluateResult, default_swarm_policy, build_responders, build_responder_summaries,
  build_provider_health, default_evaluate, count_text,
}
pub mod Refines
pub mod Proof

pub record RunSwarmForTaskOptions : Type 0 where
  pub actor : Option String
  pub run_id : Option String
  pub policy : Option GivenPolicy
  pub bundle_root : Option String
  pub evaluate : Option (SwarmRunDetail → ℕ → GivenPolicy → EvaluateResult)

-- What the run finds: whether control allows model calls, what the swarm gave (none: it threw), the
-- times as texts, the time in the run's id, and what the disk answers at the two checks of the
-- receipt but for the run's own bundle.
pub record SwarmEnv : Type 0 where
  pub allows : Bool
  pub detail : Option SwarmRunDetail
  pub started_at : String
  pub stamp : String
  pub completed_at : String
  pub disk : Disk
  pub later : Disk

pub data RunStatus : Type 0 where
  run_verified run_rejected run_blocked : RunStatus

pub record RunSwarmForTaskResult : Type 0 where
  pub status : RunStatus
  pub task_id : String
  pub run_id : String
  pub bundle_path : Option String
  pub completion : Option CompletionVerdict
  pub reason : String

pub data SwarmFailure : Type 0 where
  hand : HandFailure → SwarmFailure
  unknown_task not_assigned bundle_not_written : SwarmFailure

pub record SwarmWorld : Type 0 where
  pub graph : World
  pub store : RunStore

abbrev pub SwarmAct : Type 0 → Type 0
SwarmAct A = Action SwarmWorld SwarmFailure A

abbrev pub from_hands :
    {A : Type 0} → Result HandFailure A × World → SwarmWorld → Result SwarmFailure A × SwarmWorld
from_hands (ok a, v) w = (ok a, record w { graph = v })
from_hands (thrown e, v) w = (thrown (hand e), record w { graph = v })

unfoldable pub on_hands : {A : Type 0} → HandAct A → SwarmAct A
on_hands m w = from_hands (m w.graph) w

abbrev pub from_store :
    {A : Type 0}
    → Result WriteFailure A × RunStore
    → SwarmWorld
    → Result SwarmFailure A × SwarmWorld
from_store (ok a, s) w = (ok a, record w { store = s })
from_store (thrown e, s) w = (thrown bundle_not_written, record w { store = s })

unfoldable pub on_store : {A : Type 0} → StoreAct A → SwarmAct A
on_store m w = from_store (m w.store) w

abbrev pub completion_text : Completion → String
completion_text done = "done"
completion_text partial = "partial"
completion_text failed = "failed"

abbrev pub reason_text : CompletionReason → String
reason_text no_policy_fail_closed = "no_policy_fail_closed"
reason_text no_responders_ok = "no_responders_ok"
reason_text failure_budget_exceeded = "failure_budget_exceeded"
reason_text CompletionReason.jidoka_violation = "jidoka_violation"
reason_text insufficient_responders = "insufficient_responders"
reason_text no_evidence_tokens = "no_evidence_tokens"
reason_text evaluator_not_passed = "evaluator_not_passed"
reason_text promotion_not_passed = "promotion_not_passed"
reason_text all_gates_passed = "all_gates_passed"

unfoldable pub swarm_receipt : String → String → String → String → CompletionVerdict → Receipt
swarm_receipt task_id actor path run_id completion = record {
  task_id = task_id;
  hand_id = "swarm-local";
  submitted_by = actor;
  kind = file_contains;
  ref = some path;
  command = none;
  expected_substring = some (verified_token run_id);
  claimed_result =
      "swarm run "
      ⊕ run_id
      ⊕ ": "
      ⊕ completion_text completion.completion
      ⊕ " ("
      ⊕ count_text completion.responders_ok
      ⊕ "/"
      ⊕ count_text completion.responders_total
      ⊕ " ok, reason="
      ⊕ reason_text completion.reason
      ⊕ ")";
  artifacts = none;
  actions = none;
  action_results = none;
}

-- `task.owner === 'hand:swarm-local'`, delegated or in progress
abbrev pub is_assigned : Task → Bool
is_assigned task =
    task.owner == "hand:swarm-local" && (task.status == delegated || task.status == in_progress)

abbrev pub actor_of : RunSwarmForTaskOptions → String
actor_of opts = or_else opts.actor "atlas"

module _ ⦃bp : BundlePlatform⦄ where
  abbrev pub file_text : BundleFile → Option String → Option String
  file_text missing other = other
  file_text not_json other = other
  file_text (json b) other = some (bp.bundle_text b)

  -- The disk, once the bundle of a directory stands in the store.
  abbrev pub showing : RunStore → String → Disk → Disk
  showing s dir disk = record disk {
    read = λ path.
        if path == bp.bundle_path dir
        then file_text (dir_at s dir).bundle (disk.read path)
        else disk.read path;
  }

  unfoldable pub bundle_input :
      String → RunSwarmForTaskOptions → SwarmEnv → SwarmRunDetail → RunBundleInput
  bundle_input task_id opts env detail =
      let responders = build_responders detail in
      let policy = or_else opts.policy (default_swarm_policy (length responders)) in
      let ok_count = length (filter (λ r. r.ok) responders) in
      let ev = (or_else opts.evaluate default_evaluate) detail ok_count policy in
      record {
        run_id = or_else opts.run_id (task_id ⊕ "-" ⊕ env.stamp);
        parent_task_id = task_id;
        policy = policy;
        completion = evaluate_completion (record {
          responders = responders;
          policy = some policy;
          evidence_tokens = some ev.evidence_tokens;
          evaluator_passed = some ev.evaluator_passed;
          promotion_passed = some ev.promotion_passed;
          jidoka_violation = detail.jidoka_violation;
        });
        responders = build_responder_summaries responders detail;
        provider_health = build_provider_health detail;
        result = detail.synthesis;
        trace = detail.results;
        evidence_tokens = ev.evidence_tokens;
        evaluation = ev.evaluation;
        promotion = ev.promotion;
        started_at = env.started_at;
        completed_at = env.completed_at;
        provenance = record {
          runtime = "anus-ts-swarm";
          hand = "swarm-local";
          actor = actor_of opts;
        };
      }

module _ ⦃rt : Runtime⦄ ⦃hp : HandPlatform⦄ ⦃bp : BundlePlatform⦄ where
  unfoldable pub block_run : String → String → String → SwarmAct RunSwarmForTaskResult
  block_run task_id actor reason = do
    on_hands (abort_hand_task task_id actor reason)
    pure (record {
      status = run_blocked;
      task_id = task_id;
      run_id = "";
      bundle_path = none;
      completion = none;
      reason = reason;
    })

  -- From the swarm's result on.
  unfoldable pub conclude_run :
      String → RunSwarmForTaskOptions → SwarmEnv → RunBundleInput → SwarmAct RunSwarmForTaskResult
  conclude_run task_id opts env input = do
    written ← on_store (write_run_bundle opts.bundle_root input)
    on_hands (
        submit_receipt task_id
          (swarm_receipt task_id (actor_of opts) written.bundle_path input.run_id input.completion))
    store ← gets (λ w. w.store)
    vt ← on_hands (
        verify_and_transition (showing store written.dir env.disk)
          (showing store written.dir env.later) task_id (actor_of opts))
    pure (record {
      status = if vt.final_status == verified then run_verified else run_rejected;
      task_id = task_id;
      run_id = input.run_id;
      bundle_path = some written.bundle_path;
      completion = some input.completion;
      reason = vt.verdict.reason;
    })

  unfoldable pub run_assigned :
      String → RunSwarmForTaskOptions → SwarmEnv → SwarmAct RunSwarmForTaskResult
  run_assigned task_id opts env =
      if not env.allows
      then block_run task_id (actor_of opts) "control_not_active"
      else elim env.detail [
        | none ↦ block_run task_id (actor_of opts) "swarm_run_error"
        | some detail ↦ conclude_run task_id opts env (bundle_input task_id opts env detail)
      ]

  unfoldable pub run_swarm_for_task :
      String → RunSwarmForTaskOptions → SwarmEnv → SwarmAct RunSwarmForTaskResult
  run_swarm_for_task task_id opts env = do
    found ← gets (λ w. get_task w.graph task_id)
    task ← or_throw found unknown_task
    throw_if (not (is_assigned task)) not_assigned
    run_assigned task_id opts env
