-- ===== src/ExecGraph/Tests/Writes.antt =====
-- Imports, failed appends and failed snapshots of src/exec-graph at small inputs.
use atlas_cli.Prelude.{
  ◌+◌, is_present, is_blank, String, ◌≡◌, refl, true, false, none, some, [], ◌∷◌,
}
use atlas_cli.Prelude.Dict.{get, put}
use atlas_cli.Prelude.Action.{Result, ok, thrown, ◌>>=◌}
use atlas_cli.ExecGraph.Contracts.{
  goal_schema, goal_created, goal_open, NewLedgerEvent, status_eq, kind_name, goal_id_schema,
  task_id_schema, source_ref_schema, evidence_schema, transition_schema, task_schema,
  payload_schema, ledger_event_schema, graph_file_schema, exec_graph, volaura_work_queue,
}
use atlas_cli.ExecGraph.Transitions.{Failure, legal_transitions, apply_transition}
use atlas_cli.ExecGraph.VerifierPort.{reassign_owner_as_verifier, move_task_as_verifier}
use atlas_cli.ExecGraph.Ledger.{
  GraphSnapshot, AppendResult, is_safe_key, update_task, apply_payload, snapshot_to_file,
  snapshot_from_file, find_by_key, duplicate_of, persist_event, read_ledger_events,
  read_snapshot_file, record_event, append_event, World, read_graph, rebuild_snapshot,
}
use atlas_cli.ExecGraph.Ledger.Replay.{IsGraph}
use atlas_cli.ExecGraph.Ledger.Faults.{IsRecorded, append_lost, drift_stays}
use atlas_cli.ExecGraph.Api.{
  add_evidence, finish_reassign, import_input, import_task, assert_writable, new_id, draw, parsed,
  now_or, created_or_existing, promote_refs, finish_move, create_task, move_task, is_hand_owner,
}
use atlas_cli.ExecGraph.Inputs.{ImportTaskInput, derive_idempotency_key, CreateTaskResult}
use atlas_cli.ExecGraph.Idempotency.{MayCreate, import_task-again}
use atlas_cli.ExecGraph.Sessions.{serve, serve_any, session, full_session}
use atlas_cli.ExecGraph.Tests.{test_runtime_Eq, fresh, fresh-IsHealthy}

abbrev legacy : String → ImportTaskInput
legacy title = record {
  goal_id = "gol_a1";
  title = title;
  source_kind = volaura_work_queue;
  source_ref = "42";
  owner = none;
  risk_class = none;
  actor = none;
  ts = none;
}

abbrev made_of : Result Failure CreateTaskResult → CreateTaskResult
made_of (ok made) = made
made_of (thrown e) = record { task = none; created = false }

abbrev imported : World
imported = (import_task (legacy "a") fresh).1

may_first : MayCreate (import_input (legacy "a")) fresh
unfolding session full_session reassign_owner_as_verifier finish_reassign add_evidence serve_any
    serve read_graph create_task get put is_present is_blank status_eq kind_name goal_id_schema
    task_id_schema source_ref_schema evidence_schema transition_schema task_schema payload_schema
    ledger_event_schema graph_file_schema legal_transitions apply_transition is_safe_key update_task
    apply_payload snapshot_to_file snapshot_from_file find_by_key duplicate_of persist_event
    read_ledger_events rebuild_snapshot read_snapshot_file record_event append_event is_hand_owner
    assert_writable new_id draw parsed derive_idempotency_key now_or created_or_existing
    promote_refs finish_move move_task move_task_as_verifier import_task ◌>>=◌
may_first = record { writable = refl; owner = refl; valid = refl }

may_second : MayCreate (import_input (legacy "b")) imported
unfolding session full_session reassign_owner_as_verifier finish_reassign add_evidence serve_any
    serve read_graph create_task get put is_present is_blank status_eq kind_name goal_id_schema
    task_id_schema source_ref_schema evidence_schema transition_schema task_schema payload_schema
    ledger_event_schema graph_file_schema legal_transitions apply_transition is_safe_key update_task
    apply_payload snapshot_to_file snapshot_from_file find_by_key duplicate_of persist_event
    read_ledger_events rebuild_snapshot read_snapshot_file record_event append_event is_hand_owner
    assert_writable new_id draw parsed derive_idempotency_key now_or created_or_existing
    promote_refs finish_move move_task move_task_as_verifier import_task ◌>>=◌
may_second = record { writable = refl; owner = refl; valid = refl }

imported_ok :
    import_task (legacy "a") fresh ≡ (ok (made_of (import_task (legacy "a") fresh).0), imported)
unfolding session full_session reassign_owner_as_verifier finish_reassign add_evidence serve_any
    serve read_graph create_task get put is_present is_blank status_eq kind_name goal_id_schema
    task_id_schema source_ref_schema evidence_schema transition_schema task_schema payload_schema
    ledger_event_schema graph_file_schema legal_transitions apply_transition is_safe_key update_task
    apply_payload snapshot_to_file snapshot_from_file find_by_key duplicate_of persist_event
    read_ledger_events rebuild_snapshot read_snapshot_file record_event append_event is_hand_owner
    assert_writable new_id draw parsed derive_idempotency_key now_or created_or_existing
    promote_refs finish_move move_task move_task_as_verifier import_task ◌>>=◌
imported_ok = refl

import_task-again_example : import_task (legacy "b") imported ≡ (
  ok (record { task = (made_of (import_task (legacy "a") fresh).0).task; created = false }),
  record imported { drawn = imported.drawn + 1 },
)
import_task-again_example =
    import_task-again (legacy "a") (legacy "b") fresh imported
      (made_of (import_task (legacy "a") fresh).0) fresh-IsHealthy may_first may_second refl refl
      imported_ok

abbrev new_goal : String → NewLedgerEvent
new_goal id = record {
  ts = "2026-07-01T00:00:00Z";
  actor = "ceo";
  payload = goal_created (record {
    id = id;
    title = "g";
    source = record { kind = exec_graph; ref = "cli" };
    status = goal_open;
    created_at = "2026-07-01T00:00:00Z";
  });
}

abbrev full_disk : World
full_disk = record fresh { io = record { append_ok = false; write_ok = true } ∷ [] }

goal-IsRecorded : IsRecorded (new_goal "gol_a1") full_disk
unfolding session full_session reassign_owner_as_verifier finish_reassign add_evidence serve_any
    serve read_graph create_task get put is_present is_blank status_eq kind_name goal_id_schema
    task_id_schema source_ref_schema evidence_schema transition_schema task_schema payload_schema
    ledger_event_schema graph_file_schema legal_transitions apply_transition is_safe_key update_task
    apply_payload snapshot_to_file snapshot_from_file find_by_key duplicate_of persist_event
    read_ledger_events rebuild_snapshot read_snapshot_file record_event append_event is_hand_owner
    assert_writable new_id draw parsed derive_idempotency_key now_or created_or_existing
    promote_refs finish_move move_task move_task_as_verifier import_task ◌>>=◌ goal_schema
goal-IsRecorded = record { fresh = refl; valid = refl }

append_lost_example :
    (r : AppendResult) × ((append_event (new_goal "gol_a1") full_disk).0 ≡ ok r)
    × (r.deduped ≡ false)
    × (r.snapshot ≡ apply_payload (read_graph full_disk) (new_goal "gol_a1").payload)
    × ((append_event (new_goal "gol_a1") full_disk).1.ledger ≡ full_disk.ledger)
    × ((append_event (new_goal "gol_a1") full_disk).1.graph ≡ full_disk.graph)
append_lost_example = append_lost (new_goal "gol_a1") full_disk goal-IsRecorded refl

abbrev stale_disk : World
stale_disk = record fresh {
  graph = some (record { goals = []; tasks = [] });
  io = record { append_ok = true; write_ok = false } ∷ [];
}

abbrev no_graph : GraphSnapshot
no_graph = record { goals = []; tasks = [] }

first-IsRecorded : IsRecorded (new_goal "gol_a1") stale_disk
unfolding session full_session reassign_owner_as_verifier finish_reassign add_evidence serve_any
    serve read_graph create_task get put is_present is_blank status_eq kind_name goal_id_schema
    task_id_schema source_ref_schema evidence_schema transition_schema task_schema payload_schema
    ledger_event_schema graph_file_schema legal_transitions apply_transition is_safe_key update_task
    apply_payload snapshot_to_file snapshot_from_file find_by_key duplicate_of persist_event
    read_ledger_events rebuild_snapshot read_snapshot_file record_event append_event is_hand_owner
    assert_writable new_id draw parsed derive_idempotency_key now_or created_or_existing
    promote_refs finish_move move_task move_task_as_verifier import_task ◌>>=◌ goal_schema
first-IsRecorded = record { fresh = refl; valid = refl }

second-IsRecorded : IsRecorded (new_goal "gol_b2") (append_event (new_goal "gol_a1") stale_disk).1
unfolding session full_session reassign_owner_as_verifier finish_reassign add_evidence serve_any
    serve read_graph create_task get put is_present is_blank status_eq kind_name goal_id_schema
    task_id_schema source_ref_schema evidence_schema transition_schema task_schema payload_schema
    ledger_event_schema graph_file_schema legal_transitions apply_transition is_safe_key update_task
    apply_payload snapshot_to_file snapshot_from_file find_by_key duplicate_of persist_event
    read_ledger_events rebuild_snapshot read_snapshot_file record_event append_event is_hand_owner
    assert_writable new_id draw parsed derive_idempotency_key now_or created_or_existing
    promote_refs finish_move move_task move_task_as_verifier import_task ◌>>=◌ goal_schema
second-IsRecorded = record { fresh = refl; valid = refl }

stale_read : read_snapshot_file stale_disk ≡ some no_graph
unfolding session full_session reassign_owner_as_verifier finish_reassign add_evidence serve_any
    serve read_graph create_task get put is_present is_blank status_eq kind_name goal_id_schema
    task_id_schema source_ref_schema evidence_schema transition_schema task_schema payload_schema
    ledger_event_schema graph_file_schema legal_transitions apply_transition is_safe_key update_task
    apply_payload snapshot_to_file snapshot_from_file find_by_key duplicate_of persist_event
    read_ledger_events rebuild_snapshot read_snapshot_file record_event append_event is_hand_owner
    assert_writable new_id draw parsed derive_idempotency_key now_or created_or_existing
    promote_refs finish_move move_task move_task_as_verifier import_task ◌>>=◌ goal_schema
stale_read = refl

second-IsGraph : IsGraph (apply_payload no_graph (new_goal "gol_b2").payload)
unfolding session full_session reassign_owner_as_verifier finish_reassign add_evidence serve_any
    serve read_graph create_task get put is_present is_blank status_eq kind_name goal_id_schema
    task_id_schema source_ref_schema evidence_schema transition_schema task_schema payload_schema
    ledger_event_schema graph_file_schema legal_transitions apply_transition is_safe_key update_task
    apply_payload snapshot_to_file snapshot_from_file find_by_key duplicate_of persist_event
    read_ledger_events rebuild_snapshot read_snapshot_file record_event append_event is_hand_owner
    assert_writable new_id draw parsed derive_idempotency_key now_or created_or_existing
    promote_refs finish_move move_task move_task_as_verifier import_task ◌>>=◌ goal_schema
second-IsGraph = record {
  goals_keyed = (refl, refl, refl, tt);
  tasks_keyed = tt;
  goals_valid = (refl, tt);
  tasks_valid = tt;
}

drift_stays_example :
    (read_graph (append_event (new_goal "gol_b2") (append_event (new_goal "gol_a1") stale_disk).1).1
      ≡ apply_payload no_graph (new_goal "gol_b2").payload)
    × (rebuild_snapshot
          (append_event (new_goal "gol_b2") (append_event (new_goal "gol_a1") stale_disk).1).1
        ≡ apply_payload
            (apply_payload (rebuild_snapshot stale_disk) (new_goal "gol_a1").payload)
            (new_goal "gol_b2").payload)
drift_stays_example =
    drift_stays (new_goal "gol_a1") (new_goal "gol_b2") stale_disk no_graph first-IsRecorded
      stale_read refl second-IsRecorded second-IsGraph
