-- ===== src/GoalRunner/Tests.antt =====
-- The goal runner of src/goal-runner at small inputs.
use atlas_cli.Prelude.{
  nat_eq, if◌then◌else◌, is_present, is_blank, ◌≡◌, ◌≢◌, refl, true, false, Option, none, some, [],
  ◌∷◌, arith,
}
use atlas_cli.Prelude.Regex.{units}
use atlas_cli.Prelude.Dict.{get, put}
use atlas_cli.Prelude.Action.{◌>>=◌}
use atlas_cli.ExecGraph.Contracts.{
  status_eq, kind_name, goal_id_schema, task_id_schema, source_ref_schema, evidence_schema,
  transition_schema, task_schema, payload_schema, ledger_event_schema, graph_file_schema, Runtime,
  RiskClass, Task, low, accepted, exec_graph, proposed,
}
use atlas_cli.ExecGraph.Transitions.{legal_transitions, apply_transition}
use atlas_cli.ExecGraph.Ledger.{
  is_safe_key, update_task, apply_payload, snapshot_to_file, snapshot_from_file, find_by_key,
  duplicate_of, persist_event, read_ledger_events, read_snapshot_file, record_event, append_event,
  World, read_graph, rebuild_snapshot,
}
use atlas_cli.ExecGraph.Ledger.Replay.{IsHealthy}
use atlas_cli.ExecGraph.Api.{
  assert_writable, new_id, draw, parsed, now_or, created_or_existing, promote_refs, finish_move,
  finish_reassign, create_task, move_task, is_hand_owner,
}
use atlas_cli.ExecGraph.Inputs.{derive_idempotency_key}
use atlas_cli.ExecGraph.Idempotency.{MayCreate}
use atlas_cli.ExecGraph.Spec.{verifier, Changes}
use atlas_cli.ExecGraph.Sessions.{
  add_task, advance, public, assign, serve, serve_any, session, full_session,
}
use atlas_cli.ExecGraph.Sessions.Promises.{
  IsNewDir, IsNewDir-IsHealthy, session_refines, full_session_refines,
}
use atlas_cli.Hands.Adapter.{HandPlatform, not_json, on_graph}
use atlas_cli.Hands.Verifier.{Disk}
use atlas_cli.GoalRunner.RedLine.{allow, normalize_ru, keyword_categories, parse_classifier_vote}
use atlas_cli.GoalRunner.RedLine.Keywords.{has_root}
use atlas_cli.GoalRunner.Budgets.{GoalBudget, BudgetDir, missing, delivered, load_budget}
use atlas_cli.GoalRunner.Budgets.Attempts.{IsWithin}
use atlas_cli.GoalRunner.Contract.{
  TaskPlan, TaskReport, GoalRunnerInput, PartialConfig, GoalPlatform, PlanEnv, GoalWorld,
  task_input, on_hands,
}
use atlas_cli.ExecGraph.VerifierPort.{reassign_owner_as_verifier}
use atlas_cli.GoalRunner.Plan.{move_note, halt_plan, create, move}
use atlas_cli.GoalRunner.Runner.{GoalEnv, refuse_plan, guard_plan, run_goal, run_plan, run_plans}
use atlas_cli.GoalRunner.Runner.Refines.{run_goal_refines}
use atlas_cli.GoalRunner.Runner.Limits.{run_config, run_goal-IsWithin}
use atlas_cli.GoalRunner.Runner.Halts.{refused_plan_gives_no_hand}
use atlas_cli.GoalRunner.Runner.Repeats.{IsTaken, Throws, later_plans_throw}

instance abbrev goal_runtime_Eq : Runtime
goal_runtime_Eq = record {
  is_datetime = λ s. true;
  uuid = λ n. if nat_eq n 0 then "0f-4a" else "1b-2c";
}

instance abbrev goal_hands_Eq : HandPlatform
goal_hands_Eq = record {
  receipt_hash = λ r. "h";
  stringify = λ r. "{}";
  parse = λ s. not_json;
  manifests = [];
  kind_text = λ k. "kind";
  describe = λ r x. "reason";
  describe_refuter = λ x. "refuter";
}

instance abbrev goal_platform_Eq : GoalPlatform
goal_platform_Eq = record {
  fingerprint = λ id plan. "f";
  hostname = λ url. none;
  budget_text = λ r. "budget";
  error_text = λ e. "error";
}

abbrev disk : Disk
disk = record {
  exists = λ p. some true;
  read = λ p. none;
  object_type = λ p. none;
  run = λ c. none;
}

abbrev plan : TaskPlan
plan = record {
  task_title = "read it";
  hand_id = "local";
  effects = [];
  actions = [];
  acceptance_criteria = "read";
  proof_spec = "receipt";
}

abbrev calm : PlanEnv
calm = record {
  paused = false;
  now = 1000;
  notifies = true;
  results = none;
  closes = true;
  disk = disk;
  later = disk;
}

abbrev env : GoalEnv
env = record { pid = 7; kill = λ p. delivered; started = 900; ended = 1100; plans = λ i. calm }

abbrev no_config : PartialConfig
no_config = record {
  max_attempts_per_task = none;
  max_total_attempts = none;
  max_total_tasks = none;
  max_decomposition_rounds = none;
  max_graph_depth = none;
  max_wall_time_ms = none;
}

abbrev goal : GoalRunnerInput
goal = record {
  objective = "read it";
  config = no_config;
  hand_id = none;
  task_plans = some (plan ∷ []);
  browser_actions = none;
  resume_goal_id = none;
}

abbrev new_files : World
new_files = record {
  ledger = [];
  graph = none;
  io = [];
  drawn = 0;
  now = "2026-07-01T00:00:00Z";
  readonly = false;
}

abbrev no_budgets : BudgetDir
no_budgets = record { files = []; lease = missing }

abbrev start : GoalWorld
start = record { graph = new_files; dir = no_budgets }

new_dir : IsNewDir new_files
new_dir = record { no_ledger = refl; no_graph = refl; no_faults = refl }

run_goal_refines_example :
    IsHealthy (run_goal goal env start).1.graph
    × Changes verifier (read_graph start.graph) (read_graph (run_goal goal env start).1.graph)
run_goal_refines_example = run_goal_refines goal env start (IsNewDir-IsHealthy new_files new_dir)

no_budgets-IsWithin : IsWithin 10 3 no_budgets
unfolding load_budget get
no_budgets-IsWithin goal_id b e = cc

run_goal-IsWithin_example : IsWithin 10 3 (run_goal goal env start).1.dir
run_goal-IsWithin_example =
    run_goal-IsWithin goal env 10 3 start (omega arith) (omega arith) no_budgets-IsWithin

-- The files after an earlier goal, whose task has been accepted.
abbrev earlier : World
earlier =
    session
      (add_task (task_input "gol_a1" plan low) ∷ advance (move_note "tsk_0f4a" accepted none) ∷ [])
      new_files

abbrev after_one : GoalWorld
after_one = record { graph = earlier; dir = no_budgets }

abbrev some_task : Option Task → Task
some_task (some t) = t
some_task none = record {
  id = "";
  goal_id = "";
  title = "";
  source = record { kind = exec_graph; ref = "" };
  owner = "";
  status = proposed;
  risk_class = low;
  idempotency_key = "";
  evidence = [];
  created_at = "";
  transitions = [];
}

abbrev old_task : Task
old_task = some_task (get (read_graph earlier).tasks "tsk_0f4a")

vote : parse_classifier_vote (units " allow.") ≡ some allow
unfolding parse_classifier_vote
vote = refl

root_found : has_root (normalize_ru (units "УДАЛЁННЫЙ сервер")) keyword_categories ≡ true
unfolding normalize_ru
root_found = refl

abbrev report : TaskReport
report = record {
  task_id = "tsk_0f4a";
  title = "read it";
  hand_id = "local";
  final_status = "verified";
  attempts = 1;
  verifier_reason = none;
}

may_again : (risk : RiskClass) → MayCreate (task_input "gol_b2" plan risk) after_one.graph
unfolding session serve read_graph create_task get put is_present is_blank status_eq kind_name
    goal_id_schema task_id_schema source_ref_schema evidence_schema transition_schema task_schema
    payload_schema ledger_event_schema graph_file_schema legal_transitions apply_transition
    is_safe_key update_task apply_payload snapshot_to_file snapshot_from_file find_by_key
    duplicate_of persist_event read_ledger_events rebuild_snapshot read_snapshot_file record_event
    append_event is_hand_owner assert_writable new_id draw parsed derive_idempotency_key now_or
    created_or_existing promote_refs finish_move move_task ◌>>=◌
may_again risk = record { writable = refl; owner = refl; valid = refl }

taken_key : find_by_key (read_graph earlier) "exec-graph:goal-runner" ≡ some old_task
unfolding session serve read_graph create_task get put is_present is_blank status_eq kind_name
    goal_id_schema task_id_schema source_ref_schema evidence_schema transition_schema task_schema
    payload_schema ledger_event_schema graph_file_schema legal_transitions apply_transition
    is_safe_key update_task apply_payload snapshot_to_file snapshot_from_file find_by_key
    duplicate_of persist_event read_ledger_events rebuild_snapshot read_snapshot_file record_event
    append_event is_hand_owner assert_writable new_id draw parsed derive_idempotency_key now_or
    created_or_existing promote_refs finish_move move_task ◌>>=◌
taken_key = refl

not_new : old_task.status ≢ proposed
unfolding session serve read_graph create_task get put is_present is_blank status_eq kind_name
    goal_id_schema task_id_schema source_ref_schema evidence_schema transition_schema task_schema
    payload_schema ledger_event_schema graph_file_schema legal_transitions apply_transition
    is_safe_key update_task apply_payload snapshot_to_file snapshot_from_file find_by_key
    duplicate_of persist_event read_ledger_events rebuild_snapshot read_snapshot_file record_event
    append_event is_hand_owner assert_writable new_id draw parsed derive_idempotency_key now_or
    created_or_existing promote_refs finish_move move_task ◌>>=◌
not_new = λ e. cc

abbrev budget : GoalBudget
budget = record {
  goal_id = "gol_b2";
  started_at = 900;
  task_attempts = [];
  total_attempts = 0;
  total_tasks_created = 1;
  decomposition_rounds = 1;
  attempt_fingerprints = [];
  config = run_config goal;
}

taken : IsTaken old_task after_one
taken = record {
  healthy = (session_refines _ new_files (IsNewDir-IsHealthy new_files new_dir)).0;
  found = taken_key;
  moved = not_new;
}

later_plans_throw_example :
    Throws (run_plans goal (λ i. calm) "gol_b2" 0 (plan ∷ []) budget) after_one
later_plans_throw_example =
    later_plans_throw old_task after_one taken "gol_b2" plan may_again goal (λ i. calm) 0 [] budget
      refl

-- The files with a task of a hand.
abbrev owned_once : World
owned_once =
    full_session
      (public (add_task (record (task_input "gol_a1" plan low) { idempotency_key = some "k" }))
        ∷ assign "tsk_0f4a" "hand:local"
            (record { actor = "atlas"; reason = "assigned"; ts = none })
        ∷ [])
      new_files

abbrev delegated_world : GoalWorld
delegated_world = record { graph = owned_once; dir = no_budgets }

abbrev paused : PlanEnv
paused = record calm { paused = true }

abbrev after_pause : GoalWorld
after_pause = (run_plan goal paused "gol_b2" plan budget delegated_world).1

abbrev owned_task : Task
owned_task = some_task (get (read_graph owned_once).tasks "tsk_0f4a")

still_there : get (read_graph after_pause.graph).tasks "tsk_0f4a" ≡ some owned_task
unfolding full_session serve_any reassign_owner_as_verifier finish_reassign run_plan guard_plan
    refuse_plan halt_plan create move on_hands on_graph session serve read_graph create_task get put
    is_present is_blank status_eq kind_name goal_id_schema task_id_schema source_ref_schema
    evidence_schema transition_schema task_schema payload_schema ledger_event_schema
    graph_file_schema legal_transitions apply_transition is_safe_key update_task apply_payload
    snapshot_to_file snapshot_from_file find_by_key duplicate_of persist_event read_ledger_events
    rebuild_snapshot read_snapshot_file record_event append_event is_hand_owner assert_writable
    new_id draw parsed derive_idempotency_key now_or created_or_existing promote_refs finish_move
    move_task ◌>>=◌
still_there = refl

is_owned : is_hand_owner owned_task.owner ≡ true
unfolding full_session serve_any reassign_owner_as_verifier finish_reassign run_plan guard_plan
    refuse_plan halt_plan create move on_hands on_graph session serve read_graph create_task get put
    is_present is_blank status_eq kind_name goal_id_schema task_id_schema source_ref_schema
    evidence_schema transition_schema task_schema payload_schema ledger_event_schema
    graph_file_schema legal_transitions apply_transition is_safe_key update_task apply_payload
    snapshot_to_file snapshot_from_file find_by_key duplicate_of persist_event read_ledger_events
    rebuild_snapshot read_snapshot_file record_event append_event is_hand_owner assert_writable
    new_id draw parsed derive_idempotency_key now_or created_or_existing promote_refs finish_move
    move_task ◌>>=◌
is_owned = refl

refused_plan_gives_no_hand_example :
    (old : Task) × (get (read_graph owned_once).tasks "tsk_0f4a" ≡ some old)
    × (is_hand_owner old.owner ≡ true)
refused_plan_gives_no_hand_example =
    refused_plan_gives_no_hand goal paused "gol_b2" plan budget delegated_world "tsk_0f4a"
      owned_task (full_session_refines _ new_files (IsNewDir-IsHealthy new_files new_dir)).0 refl
      still_there is_owned
