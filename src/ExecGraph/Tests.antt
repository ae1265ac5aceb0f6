-- ===== src/ExecGraph/Tests.antt =====
-- The execution graph of src/exec-graph on small inputs, and the theorems at them.
mod Writes
use atlas_cli.Prelude.{
  nat_eq, if◌then◌else◌, is_present, is_blank, String, ◌≡◌, refl, Option, true, false, none, some,
  List, [], ◌∷◌, ℕ, inl, inr,
}
use atlas_cli.Prelude.Dict.{get, put}
use atlas_cli.Prelude.Action.{◌>>=◌}
use atlas_cli.ExecGraph.Contracts.{
  status_eq, kind_name, goal_id_schema, task_id_schema, source_ref_schema, evidence_schema,
  transition_schema, task_schema, payload_schema, ledger_event_schema, graph_file_schema, Runtime,
  TaskStatus, Task, low, exec_graph, proposed, rejected, accepted, planned, in_progress,
  evidence_submitted, verified,
}
use atlas_cli.ExecGraph.Transitions.{TransitionOptions, legal_transitions, apply_transition}
use atlas_cli.ExecGraph.VerifierPort.{reassign_owner_as_verifier, move_task_as_verifier}
use atlas_cli.ExecGraph.Ledger.{
  is_safe_key, update_task, apply_payload, snapshot_to_file, snapshot_from_file, find_by_key,
  duplicate_of, persist_event, read_ledger_events, read_snapshot_file, record_event, append_event,
  World, read_graph, rebuild_snapshot,
}
use atlas_cli.ExecGraph.Ledger.Replay.{IsHealthy}
use atlas_cli.ExecGraph.Api.{
  add_evidence, finish_reassign, import_task, assert_writable, new_id, draw, parsed, now_or,
  created_or_existing, promote_refs, finish_move, create_task, move_task, is_hand_owner,
}
use atlas_cli.ExecGraph.Inputs.{derive_idempotency_key, CreateTaskInput, MoveTaskInput}
use atlas_cli.ExecGraph.Spec.{Role, Changes}
use atlas_cli.ExecGraph.Spec.Authority.{IsSettled}
use atlas_cli.ExecGraph.Spec.History.{HasHistory}
use atlas_cli.ExecGraph.Spec.Keys.{HasUniqueKeys}
use atlas_cli.ExecGraph.Sessions.{
  Request, AnyRequest, add_task, advance, public, settle, assign, serve, serve_any, session,
  full_session,
}
use atlas_cli.ExecGraph.Sessions.Promises.{
  IsNewDir, IsNewDir-IsHealthy, full_session_refines, session_settles_nothing,
  session_gives_no_hand, snapshot_in_step, session-HasHistory, session-HasUniqueKeys,
}

abbrev hex : ℕ → String
hex n = if nat_eq n 0 then "0f-4a" else "1b-2c"

instance abbrev test_runtime_Eq : Runtime
test_runtime_Eq = record { is_datetime = λ s. true; uuid = hex }

abbrev fresh : World
fresh = record {
  ledger = [];
  graph = none;
  io = [];
  drawn = 0;
  now = "2026-07-01T00:00:00Z";
  readonly = false;
}

abbrev task_input : CreateTaskInput
task_input = record {
  goal_id = "gol_a1";
  title = "t";
  owner = none;
  risk_class = none;
  source = none;
  idempotency_key = none;
  actor = none;
  ts = none;
}

abbrev to : TaskStatus → MoveTaskInput
to s = record {
  task_id = "tsk_0f4a";
  to = s;
  actor = "ceo";
  ts = none;
  evidence_refs = none;
  note = none;
}

abbrev refuse_it : List AnyRequest
refuse_it = public (add_task task_input) ∷ settle (to rejected) ∷ []

abbrev some_task : Option Task → Task
some_task (some t) = t
some_task none = record {
  id = "";
  goal_id = "";
  title = "";
  source = record { kind = exec_graph; ref = "" };
  owner = "";
  status = proposed;
  risk_class = low;
  idempotency_key = "";
  evidence = [];
  created_at = "";
  transitions = [];
}

new_dir : IsNewDir fresh
new_dir = record { no_ledger = refl; no_graph = refl; no_faults = refl }

abbrev refused : World
refused = full_session refuse_it fresh

abbrev other_input : CreateTaskInput
other_input = record task_input { title = "u"; idempotency_key = some "k" }

abbrev add_other : List Request
add_other = add_task other_input ∷ []

abbrev task_in : World → String → Task
task_in w id = some_task (get (read_graph w).tasks id)

abbrev with_hand : World
with_hand =
    full_session
      (public (add_task task_input)
        ∷ assign "tsk_0f4a" "hand:a" (record { actor = "atlas"; reason = "r"; ts = none })
        ∷ [])
      fresh

abbrev cites : TaskStatus → MoveTaskInput
cites s = record (to s) { evidence_refs = some ("abc" ∷ []) }

abbrev verify_it : List AnyRequest
verify_it =
    public (add_task task_input)
    ∷ public (advance (to accepted))
    ∷ public (advance (to planned))
    ∷ public (advance (to in_progress))
    ∷ public (advance (cites evidence_submitted))
    ∷ settle (cites verified)
    ∷ []

fresh-IsHealthy : IsHealthy fresh
fresh-IsHealthy = IsNewDir-IsHealthy fresh new_dir

full_session_refines_example :
    IsHealthy refused × Changes Role.verifier (read_graph fresh) (read_graph refused)
full_session_refines_example = full_session_refines refuse_it fresh fresh-IsHealthy

still_refused :
    get (read_graph (session add_other refused)).tasks "tsk_0f4a"
    ≡ some (task_in (session add_other refused) "tsk_0f4a")
unfolding session full_session reassign_owner_as_verifier finish_reassign add_evidence serve_any
    serve read_graph create_task get put is_present is_blank status_eq kind_name goal_id_schema
    task_id_schema source_ref_schema evidence_schema transition_schema task_schema payload_schema
    ledger_event_schema graph_file_schema legal_transitions apply_transition is_safe_key update_task
    apply_payload snapshot_to_file snapshot_from_file find_by_key duplicate_of persist_event
    read_ledger_events rebuild_snapshot read_snapshot_file record_event append_event is_hand_owner
    assert_writable new_id draw parsed derive_idempotency_key now_or created_or_existing
    promote_refs finish_move move_task move_task_as_verifier import_task ◌>>=◌
still_refused = refl

is_rejected : (task_in (session add_other refused) "tsk_0f4a").status ≡ rejected
unfolding session full_session reassign_owner_as_verifier finish_reassign add_evidence serve_any
    serve read_graph create_task get put is_present is_blank status_eq kind_name goal_id_schema
    task_id_schema source_ref_schema evidence_schema transition_schema task_schema payload_schema
    ledger_event_schema graph_file_schema legal_transitions apply_transition is_safe_key update_task
    apply_payload snapshot_to_file snapshot_from_file find_by_key duplicate_of persist_event
    read_ledger_events rebuild_snapshot read_snapshot_file record_event append_event is_hand_owner
    assert_writable new_id draw parsed derive_idempotency_key now_or created_or_existing
    promote_refs finish_move move_task move_task_as_verifier import_task ◌>>=◌
is_rejected = refl

session_settles_nothing_example :
    (old : Task) × (get (read_graph refused).tasks "tsk_0f4a" ≡ some old) × IsSettled old.status
session_settles_nothing_example =
    session_settles_nothing add_other refused "tsk_0f4a"
      (task_in (session add_other refused) "tsk_0f4a")
      (full_session_refines refuse_it fresh fresh-IsHealthy).0 still_refused (inr (inl is_rejected))

still_owned :
    get (read_graph (session add_other with_hand)).tasks "tsk_0f4a"
    ≡ some (task_in (session add_other with_hand) "tsk_0f4a")
unfolding session full_session reassign_owner_as_verifier finish_reassign add_evidence serve_any
    serve read_graph create_task get put is_present is_blank status_eq kind_name goal_id_schema
    task_id_schema source_ref_schema evidence_schema transition_schema task_schema payload_schema
    ledger_event_schema graph_file_schema legal_transitions apply_transition is_safe_key update_task
    apply_payload snapshot_to_file snapshot_from_file find_by_key duplicate_of persist_event
    read_ledger_events rebuild_snapshot read_snapshot_file record_event append_event is_hand_owner
    assert_writable new_id draw parsed derive_idempotency_key now_or created_or_existing
    promote_refs finish_move move_task move_task_as_verifier import_task ◌>>=◌
still_owned = refl

owned_by_hand : is_hand_owner (task_in (session add_other with_hand) "tsk_0f4a").owner ≡ true
unfolding session full_session reassign_owner_as_verifier finish_reassign add_evidence serve_any
    serve read_graph create_task get put is_present is_blank status_eq kind_name goal_id_schema
    task_id_schema source_ref_schema evidence_schema transition_schema task_schema payload_schema
    ledger_event_schema graph_file_schema legal_transitions apply_transition is_safe_key update_task
    apply_payload snapshot_to_file snapshot_from_file find_by_key duplicate_of persist_event
    read_ledger_events rebuild_snapshot read_snapshot_file record_event append_event is_hand_owner
    assert_writable new_id draw parsed derive_idempotency_key now_or created_or_existing
    promote_refs finish_move move_task move_task_as_verifier import_task ◌>>=◌
owned_by_hand = refl

session_gives_no_hand_example :
    (old : Task) × (get (read_graph with_hand).tasks "tsk_0f4a" ≡ some old)
    × (is_hand_owner old.owner ≡ true)
session_gives_no_hand_example =
    session_gives_no_hand add_other with_hand "tsk_0f4a"
      (task_in (session add_other with_hand) "tsk_0f4a")
      (full_session_refines _ fresh fresh-IsHealthy).0 still_owned owned_by_hand

verified_task :
    get (read_graph (full_session verify_it fresh)).tasks "tsk_0f4a"
    ≡ some (task_in (full_session verify_it fresh) "tsk_0f4a")
unfolding session full_session reassign_owner_as_verifier finish_reassign add_evidence serve_any
    serve read_graph create_task get put is_present is_blank status_eq kind_name goal_id_schema
    task_id_schema source_ref_schema evidence_schema transition_schema task_schema payload_schema
    ledger_event_schema graph_file_schema legal_transitions apply_transition is_safe_key update_task
    apply_payload snapshot_to_file snapshot_from_file find_by_key duplicate_of persist_event
    read_ledger_events rebuild_snapshot read_snapshot_file record_event append_event is_hand_owner
    assert_writable new_id draw parsed derive_idempotency_key now_or created_or_existing
    promote_refs finish_move move_task move_task_as_verifier import_task ◌>>=◌
verified_task = refl

is_verified : (task_in (full_session verify_it fresh) "tsk_0f4a").status ≡ verified
unfolding session full_session reassign_owner_as_verifier finish_reassign add_evidence serve_any
    serve read_graph create_task get put is_present is_blank status_eq kind_name goal_id_schema
    task_id_schema source_ref_schema evidence_schema transition_schema task_schema payload_schema
    ledger_event_schema graph_file_schema legal_transitions apply_transition is_safe_key update_task
    apply_payload snapshot_to_file snapshot_from_file find_by_key duplicate_of persist_event
    read_ledger_events rebuild_snapshot read_snapshot_file record_event append_event is_hand_owner
    assert_writable new_id draw parsed derive_idempotency_key now_or created_or_existing
    promote_refs finish_move move_task move_task_as_verifier import_task ◌>>=◌
is_verified = refl

session-HasHistory_example : HasHistory (task_in (full_session verify_it fresh) "tsk_0f4a")
session-HasHistory_example =
    session-HasHistory verify_it fresh "tsk_0f4a"
      (task_in (full_session verify_it fresh) "tsk_0f4a") new_dir verified_task

snapshot_in_step_example : read_graph refused ≡ rebuild_snapshot refused
snapshot_in_step_example = snapshot_in_step refuse_it fresh new_dir

session-HasUniqueKeys_example : HasUniqueKeys (read_graph refused)
session-HasUniqueKeys_example = session-HasUniqueKeys refuse_it fresh new_dir

abbrev escalate_opts : TransitionOptions
escalate_opts = record {
  actor = "ceo";
  ts = "2026-07-01T00:00:00Z";
  evidence_refs = none;
  note = none;
}
