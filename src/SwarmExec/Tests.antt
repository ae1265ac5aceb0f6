-- ===== src/SwarmExec/Tests.antt =====
-- The swarm's runs of src/swarm-exec at small inputs.
use atlas_cli.Prelude.{
  ◌<◌, nat_eq, if◌then◌else◌, is_present, is_blank, String, ◌≡◌, ◌≢◌, ◌↔◌, refl, true, false,
  Option, none, some, [], ◌∷◌, ◌++◌, map, length, ◌-◌, inl, inr,
}
use atlas_cli.Prelude.Dict.{get, put}
use atlas_cli.Prelude.Regex.{test}
use atlas_cli.Prelude.Action.{ok, pure, gets, or_throw, throw_if, ◌>>=◌}
use atlas_cli.ExecGraph.Contracts.{
  status_eq, kind_name, goal_id_schema, task_id_schema, source_ref_schema, evidence_schema,
  transition_schema, task_schema, payload_schema, ledger_event_schema, graph_file_schema, Runtime,
  Task, low, exec_graph, proposed, accepted, planned, delegated, rejected, TaskStatus,
}
use atlas_cli.ExecGraph.Transitions.{legal_transitions, apply_transition}
use atlas_cli.ExecGraph.Ledger.{
  is_safe_key, update_task, apply_payload, snapshot_to_file, snapshot_from_file, find_by_key,
  duplicate_of, persist_event, read_ledger_events, read_snapshot_file, record_event, append_event,
  World, read_graph, rebuild_snapshot,
}
use atlas_cli.ExecGraph.Ledger.Replay.{IsHealthy}
use atlas_cli.ExecGraph.Api.{
  assert_writable, new_id, draw, parsed, now_or, created_or_existing, promote_refs, finish_move,
  finish_reassign, create_task, move_task, is_hand_owner, get_task,
}
use atlas_cli.ExecGraph.Inputs.{CreateTaskInput, MoveTaskInput, derive_idempotency_key}
use atlas_cli.ExecGraph.VerifierPort.{reassign_owner_as_verifier, move_task_as_verifier}
use atlas_cli.ExecGraph.Spec.Authority.{IsSettled}
use atlas_cli.ExecGraph.Sessions.{
  add_task, advance, public, assign, settle, serve, serve_any, session, full_session,
}
use atlas_cli.ExecGraph.Sessions.Promises.{IsNewDir, IsNewDir-IsHealthy, full_session_refines}
use atlas_cli.ExecGraph.Refinement.Ensures.{After}
use atlas_cli.Hands.Contract.{production}
use atlas_cli.Hands.Adapter.{HandPlatform, not_json, on_graph, abort_hand_task, judge}
use atlas_cli.Hands.Verifier.{Disk, is_protected_path, contains}
use atlas_cli.SwarmExec.Completion
use atlas_cli.SwarmExec.Completion.{
  done, ResponderResult, natural, GivenPolicy, CompletionPolicy, CompletionInput, all_gates_passed,
  dedup_by_id, valid_policy, ok_responders, evaluate_completion,
}
use atlas_cli.SwarmExec.Completion.Gates.{IsMet, evaluate_completion-done_iff}
use atlas_cli.SwarmExec.Completion.Claims.{with_responders, reclaimed, evaluate_completion-stays}
use atlas_cli.SwarmExec.Bundle
use atlas_cli.SwarmExec.Bundle.{
  RunBundleInput, RunStore, BundlePlatform, dir_at, written_of, write_run_bundle, read_bundle,
  write_atomic, write_artifacts, proof_token,
}
use atlas_cli.SwarmExec.Bundle.Writes.{whole, write_run_bundle_lands_last}
use atlas_cli.SwarmExec.Executor
use atlas_cli.SwarmExec.Executor.{
  RunSwarmForTaskOptions, SwarmEnv, SwarmWorld, run_swarm_for_task, run_assigned, block_run,
  showing, swarm_receipt,
}
use atlas_cli.SwarmExec.Executor.Refines.{stopped_run_settles_nothing}
use atlas_cli.SwarmExec.Executor.Proof.{IsPlain, receipt-judged_iff}

instance abbrev swarm_runtime_Eq : Runtime
swarm_runtime_Eq = record {
  is_datetime = λ s. true;
  uuid = λ n. if nat_eq n 0 then "0f-4a" else "1b-2c";
}

instance abbrev swarm_hands_Eq : HandPlatform
swarm_hands_Eq = record {
  receipt_hash = λ r. "h";
  stringify = λ r. "{}";
  parse = λ s. not_json;
  manifests = [];
  kind_text = λ k. "kind";
  describe = λ r x. "reason";
  describe_refuter = λ x. "refuter";
}

-- A bundle's text is its proof.
instance abbrev swarm_bundles_Eq : BundlePlatform
swarm_bundles_Eq = record {
  resolve = λ root id. "runs/a";
  bundle_path = λ dir. "runs/a/bundle.json";
  bundle_text = λ b. b.proof;
}

abbrev good : ResponderResult
good = record {
  id = 1;
  perspective = none;
  provider = "groq";
  ok = false;
  output = some "an answer";
  error = none;
}

abbrev refused : ResponderResult
refused = record good { id = 2; ok = true; error = some "401" }

abbrev policy : GivenPolicy
policy = record {
  required_responders = natural 1;
  failure_budget = natural 1;
  require_evidence_tokens = some true;
  require_evaluator = some true;
  require_promotion = some false;
}

abbrev input : CompletionInput
input = record {
  responders = good ∷ refused ∷ [];
  policy = some policy;
  evidence_tokens = some ("responders-ok:1" ∷ []);
  evaluator_passed = some true;
  promotion_passed = none;
  jidoka_violation = none;
}

is_done : (evaluate_completion input).completion ≡ done
unfolding evaluate_completion valid_policy Completion.gates dedup_by_id Completion.is_responder_ok
    is_blank is_present
is_done = refl

evaluate_completion-done_iff_example : ((evaluate_completion input).completion ≡ done) ↔ (
    (p : CompletionPolicy) × (valid_policy input.policy ≡ some p)
    × IsMet input p
        (ok_responders (dedup_by_id input.responders))
        (length (dedup_by_id input.responders) - ok_responders (dedup_by_id input.responders)))
evaluate_completion-done_iff_example = evaluate_completion-done_iff input

evaluate_completion-stays_example :
    (evaluate_completion (with_responders input (map (reclaimed (λ r. true)) input.responders))
      ≡ evaluate_completion input)
    × (evaluate_completion (with_responders input (input.responders ++ good ∷ []))
        ≡ evaluate_completion input)
evaluate_completion-stays_example = evaluate_completion-stays input (λ r. true) good refl

abbrev bundle_input : RunBundleInput
bundle_input = record {
  run_id = "r1";
  parent_task_id = "tsk_1b2c";
  policy = policy;
  completion = record {
    completion = done;
    reason = all_gates_passed;
    responders_total = 2;
    responders_ok = 1;
    responders_failed = 1;
  };
  responders = [];
  provider_health = [];
  result = "an answer";
  trace = [];
  evidence_tokens = [];
  evaluation = none;
  promotion = none;
  started_at = "2026-07-01T00:00:00Z";
  completed_at = "2026-07-01T00:01:00Z";
  provenance = record { runtime = "anus-ts-swarm"; hand = "swarm-local"; actor = "atlas" };
}

abbrev no_runs : RunStore
no_runs = record { runs = []; room = 7 }

-- A disk that takes four writes only.
abbrev full : RunStore
full = record { runs = []; room = 4 }

write_run_bundle_lands_last_example :
    After
      (λ w t.
        (w ≡ written_of none bundle_input)
        × (dir_at t "runs/a" ≡ whole bundle_input (dir_at full "runs/a")))
      (λ t. (read_bundle none "r1" t ≡ read_bundle none "r1" full) × (4 < 7))
      (write_run_bundle none bundle_input full)
    × ((other : String)
        → other ≢ "runs/a"
        → dir_at (write_run_bundle none bundle_input full).1 other ≡ dir_at full other)
write_run_bundle_lands_last_example = write_run_bundle_lands_last none bundle_input full

abbrev disk : Disk
disk = record { exists = λ p. none; read = λ p. none; object_type = λ p. none; run = λ c. none }

abbrev stored : RunStore
stored = (write_run_bundle none bundle_input no_runs).1

all_written :
    write_run_bundle none bundle_input no_runs ≡ (ok (written_of none bundle_input), stored)
unfolding write_run_bundle write_atomic write_artifacts ◌>>=◌
all_written = refl

plain : IsPlain none bundle_input
unfolding proof_token Bundle.bundle_of contains
plain = (λ h. refl, λ h. refl)

has_path : is_present "runs/a/bundle.json" ≡ true
unfolding is_present
has_path = refl

open_path : is_protected_path "runs/a/bundle.json" ≡ false
unfolding is_protected_path test
open_path = refl

receipt-judged_iff_example :
    ((judge (showing stored "runs/a" disk) (showing stored "runs/a" disk) production (
        swarm_receipt "tsk_1b2c" "atlas" "runs/a/bundle.json" "r1"
          bundle_input.completion)).verified
      ≡ true)
    ↔ (done ≡ done)
receipt-judged_iff_example =
    receipt-judged_iff none bundle_input no_runs stored (written_of none bundle_input) disk disk
      production "atlas" all_written has_path open_path plain

abbrev new_files : World
new_files = record {
  ledger = [];
  graph = none;
  io = [];
  drawn = 0;
  now = "2026-07-01T00:00:00Z";
  readonly = false;
}

new_dir : IsNewDir new_files
new_dir = record { no_ledger = refl; no_graph = refl; no_faults = refl }

abbrev task_input : String → CreateTaskInput
task_input key = record {
  goal_id = "gol_a1";
  title = "compare";
  owner = none;
  risk_class = none;
  source = none;
  idempotency_key = some key;
  actor = none;
  ts = none;
}

abbrev move_to : String → TaskStatus → MoveTaskInput
move_to id to = record {
  task_id = id;
  to = to;
  actor = "ceo";
  ts = none;
  evidence_refs = none;
  note = none;
}

-- One task that has been rejected, and one that the swarm's hand has been given.
abbrev given : World
given =
    full_session
      (public (add_task (task_input "a"))
        ∷ settle (move_to "tsk_0f4a" rejected)
        ∷ public (add_task (task_input "b"))
        ∷ public (advance (move_to "tsk_1b2c" accepted))
        ∷ public (advance (move_to "tsk_1b2c" planned))
        ∷ public (advance (move_to "tsk_1b2c" delegated))
        ∷ assign "tsk_1b2c" "hand:swarm-local"
            (record { actor = "atlas"; reason = "assigned"; ts = none })
        ∷ [])
      new_files

given-IsHealthy : IsHealthy given
given-IsHealthy = (full_session_refines _ new_files (IsNewDir-IsHealthy new_files new_dir)).0

abbrev swarm_world : SwarmWorld
swarm_world = record { graph = given; store = no_runs }

abbrev opts : RunSwarmForTaskOptions
opts = record {
  actor = none;
  run_id = some "r1";
  policy = none;
  bundle_root = none;
  evaluate = none;
}

abbrev paused : SwarmEnv
paused = record {
  allows = false;
  detail = none;
  started_at = "2026-07-01T00:00:00Z";
  stamp = "2026-07-01T00-00-00Z";
  completed_at = "2026-07-01T00:01:00Z";
  disk = disk;
  later = disk;
}

abbrev after_run : World
after_run = (run_swarm_for_task "tsk_1b2c" opts paused swarm_world).1.graph

abbrev some_task : Option Task → Task
some_task (some t) = t
some_task none = record {
  id = "";
  goal_id = "";
  title = "";
  source = record { kind = exec_graph; ref = "" };
  owner = "";
  status = proposed;
  risk_class = low;
  idempotency_key = "";
  evidence = [];
  created_at = "";
  transitions = [];
}

abbrev old_task : Task
old_task = some_task (get (read_graph given).tasks "tsk_0f4a")

still_there : get (read_graph after_run).tasks "tsk_0f4a" ≡ some old_task
unfolding full_session serve_any reassign_owner_as_verifier move_task_as_verifier finish_reassign
    run_swarm_for_task run_assigned block_run abort_hand_task get_task gets or_throw throw_if pure
    Executor.on_hands on_graph session serve read_graph create_task get put is_present is_blank
    status_eq kind_name goal_id_schema task_id_schema source_ref_schema evidence_schema
    transition_schema task_schema payload_schema ledger_event_schema graph_file_schema
    legal_transitions apply_transition is_safe_key update_task apply_payload snapshot_to_file
    snapshot_from_file find_by_key duplicate_of persist_event read_ledger_events rebuild_snapshot
    read_snapshot_file record_event append_event is_hand_owner assert_writable new_id draw parsed
    derive_idempotency_key now_or created_or_existing promote_refs finish_move move_task ◌>>=◌
still_there = refl

is_settled : old_task.status ≡ rejected
unfolding full_session serve_any reassign_owner_as_verifier move_task_as_verifier finish_reassign
    session serve read_graph create_task get put is_present is_blank status_eq kind_name
    goal_id_schema task_id_schema source_ref_schema evidence_schema transition_schema task_schema
    payload_schema ledger_event_schema graph_file_schema legal_transitions apply_transition
    is_safe_key update_task apply_payload snapshot_to_file snapshot_from_file find_by_key
    duplicate_of persist_event read_ledger_events rebuild_snapshot read_snapshot_file record_event
    append_event is_hand_owner assert_writable new_id draw parsed derive_idempotency_key now_or
    created_or_existing promote_refs finish_move move_task ◌>>=◌
is_settled = refl

stopped_run_settles_nothing_example :
    (old : Task) × (get (read_graph given).tasks "tsk_0f4a" ≡ some old) × IsSettled old.status
stopped_run_settles_nothing_example =
    stopped_run_settles_nothing "tsk_1b2c" opts paused swarm_world "tsk_0f4a" old_task
      given-IsHealthy refl still_there (inr (inl is_settled))
