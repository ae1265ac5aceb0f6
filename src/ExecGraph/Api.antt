-- ===== src/ExecGraph/Api.antt =====
-- src/exec-graph/api.ts: the surface for every caller but the verifier. `undefined` for a missing
-- task is `none`.
use Prim.Native.Char.{code}
use Prim.Native.String.{◌++◌ as ◌⊕◌}
use text.Mathlib.Text.{starts_with}
use atlas_cli.Prelude.{
  ℕ, ◌+◌, String, Bool, true, false, ◌||◌, Option, none, some, List, [], ◌∷◌, filter, includes, map,
  is_blank, if◌then◌else◌, ◌==◌, string_eq, nat_eq, or_else,
}
use atlas_cli.Prelude.Dict.{get, values}
use atlas_cli.Prelude.Action.{Result, pure, throw, gets, lift, or_throw, throw_if, ◌>>=◌, ◌>>◌}
use atlas_cli.ExecGraph.Contracts.{
  proposed, verified, rejected, status_Eq, low, SourceRef, goal_open, Goal, Task, goal_created,
  task_created, transition, evidence_added, owner_reassigned, Runtime, goal_schema, task_schema,
}
use atlas_cli.ExecGraph.Transitions.{
  Failure, invalid_input, readonly_mode, unknown_task, hand_authority, owner_reassign,
  TransitionOptions, new_transition, apply_transition,
}
use atlas_cli.ExecGraph.Ledger.{
  World, Act, AppendResult, with_evidence, with_owner, read_graph, append_event,
}
use atlas_cli.ExecGraph.Inputs.{
  AddEvidenceInput, CreateGoalInput, CreateTaskInput, CreateTaskResult, ImportTaskInput,
  ListTasksFilter, MoveTaskInput, ReassignOwnerOptions, StatusSummary, cli_source, count_tasks,
  derive_idempotency_key, event_of, matches, ref_evidence, refs_of, task_statuses, truthy,
  waiting_statuses,
}

-- `replace(/-/g, '')`
strip_dashes : String → String
strip_dashes String.[] = String.[]
strip_dashes (String.◌∷◌ c s) =
    let rest = strip_dashes s in if nat_eq (code c) b'-' then rest else String.◌∷◌ c rest

-- `HAND_OWNER_PREFIX`, and the test that a text starts with it
abbrev pub hand_owner_prefix : String
hand_owner_prefix = "hand:"

unfoldable pub is_hand_owner : String → Bool
is_hand_owner owner = starts_with owner hand_owner_prefix

-- `assertWritable`
unfoldable pub assert_writable : Act (Unit {0})
assert_writable w = (if w.readonly then throw readonly_mode else pure tt) w

-- `newGoalId` and `newTaskId`
unfoldable pub new_id : (ℕ → String) → String → World → String
unfolding strip_dashes
new_id uuid prefix w = prefix ⊕ strip_dashes (uuid w.drawn)

unfoldable pub draw : (ℕ → String) → String → Act String
draw uuid prefix w = (Result.ok (new_id uuid prefix w), record w { drawn = w.drawn + 1 })

-- `schema.parse(v)`
unfoldable pub parsed : {A : Type 0} → Bool → A → Act A
parsed valid a = if valid then pure a else throw invalid_input

module _ ⦃rt : Runtime⦄ where
  unfoldable pub now_or : Option String → Act String
  unfolding pure
  now_or ts w = pure (or_else ts w.now) w

  -- The part of `createGoal` behind the look-up of the given id.
  unfoldable pub create_new_goal : CreateGoalInput → Act Goal
  create_new_goal input = do
    ts ← now_or input.ts
    drawn ← draw rt.uuid "gol_"
    let goal : Goal = record {
      id = or_else input.id drawn;
      title = input.title;
      source = or_else input.source cli_source;
      status = goal_open;
      created_at = ts;
    }
    parsed (goal_schema goal) goal
    append_event (event_of ts (or_else input.actor "atlas") (goal_created goal))
    pure goal

  unfoldable pub create_goal : CreateGoalInput → Act Goal
  create_goal input = do
    assert_writable
    graph ← gets read_graph
    elim (truthy input.id) [
      | none ↦ create_new_goal input
      | some id ↦ elim (get graph.goals id) [
        | none ↦ create_new_goal input
        | some existing ↦ pure existing
      ]
    ]

  abbrev pub new_task : CreateTaskInput → String → String → Task
  new_task input id ts =
      let source = or_else input.source cli_source in
      record {
        id = id;
        goal_id = input.goal_id;
        title = input.title;
        source = source;
        owner = or_else input.owner "atlas";
        status = proposed;
        risk_class = or_else input.risk_class low;
        idempotency_key = or_else input.idempotency_key (derive_idempotency_key source);
        evidence = [];
        created_at = ts;
        transitions =
            record {
              from = none;
              to = proposed;
              ts = ts;
              actor = or_else input.actor "atlas";
              evidence_refs = none;
              note = some "created";
            }
            ∷ [];
      }

  -- `{ task, created }` from what `appendEvent` returned
  unfoldable pub created_or_existing : Task → AppendResult → Act CreateTaskResult
  created_or_existing task result w =
      if result.deduped
      then pure
          (record {
            task = elim result.task_id [ none ↦ none | some id ↦ get (read_graph w).tasks id ];
            created = false;
          })
          w
      else pure (record { task = some task; created = true }) w

  unfoldable pub create_task : CreateTaskInput → Act CreateTaskResult
  create_task input = do
    assert_writable
    if is_hand_owner (or_else input.owner "atlas") then throw hand_authority else do
      ts ← now_or input.ts
      id ← draw rt.uuid "tsk_"
      let task = new_task input id ts
      parsed (task_schema task) task
      result ← append_event (event_of ts (or_else input.actor "atlas") (task_created task))
      created_or_existing task result

  abbrev pub import_input : ImportTaskInput → CreateTaskInput
  import_input input =
      let source : SourceRef = record { kind = input.source_kind; ref = input.source_ref } in
      record {
        goal_id = input.goal_id;
        title = input.title;
        owner = input.owner;
        risk_class = input.risk_class;
        source = some source;
        idempotency_key = some (derive_idempotency_key source);
        actor = input.actor;
        ts = input.ts;
      }

  unfoldable pub import_task : ImportTaskInput → Act CreateTaskResult
  import_task input = create_task (import_input input)

  unfoldable pub add_evidence : AddEvidenceInput → Act Task
  add_evidence input = do
    graph ← gets read_graph
    task ← or_throw (get graph.tasks input.task_id) unknown_task
    ts ← now_or input.ts
    append_event (event_of ts (or_else input.actor "atlas") (evidence_added task.id input.evidence))
    pure (with_evidence input.evidence task)

  -- The loop of `moveTask` over the refs that the move cites.
  unfoldable pub promote_refs : String → String → List String → Task → Act Task
  promote_refs actor ts [] task = pure task
  promote_refs actor ts (ref ∷ refs) task = do
    task' ← add_evidence (record {
      task_id = task.id;
      evidence = ref_evidence ref;
      actor = some actor;
      ts = some ts;
    })
    promote_refs actor ts refs task'

  -- `moveTask` behind its guards: promote the refs, apply the transition, append it.
  unfoldable pub finish_move : Task → MoveTaskInput → Act Task
  finish_move task input = do
    ts ← now_or input.ts
    task' ← promote_refs input.actor ts (refs_of input.evidence_refs) task
    let opts : TransitionOptions = record {
      actor = input.actor;
      ts = ts;
      evidence_refs = input.evidence_refs;
      note = input.note;
    }
    next ← lift (apply_transition task' input.to opts)
    append_event
        (event_of ts input.actor (transition task'.id (new_transition task'.status input.to opts)))
    pure next

  unfoldable pub move_task : MoveTaskInput → Act Task
  move_task input = do
    assert_writable
    graph ← gets read_graph
    task ← or_throw (get graph.tasks input.task_id) unknown_task
    let final = input.to == verified || input.to == rejected
    if final then throw hand_authority else finish_move task input

  -- The part that `reassignOwner` and its twin for the verifier share.
  unfoldable pub finish_reassign : String → String → ReassignOwnerOptions → Failure → Act Task
  finish_reassign task_id owner opts missing = do
    graph ← gets read_graph
    task ← or_throw (get graph.tasks task_id) missing
    ts ← now_or opts.ts
    append_event (
        event_of ts opts.actor (
          owner_reassigned (record {
            task_id = task_id;
            from = task.owner;
            to = owner;
            actor = opts.actor;
            reason = opts.reason;
            ts = ts;
          })))
    pure (with_owner owner task)

  unfoldable pub reassign_owner : String → String → ReassignOwnerOptions → Act Task
  reassign_owner task_id owner opts = do
    throw_if (is_blank owner) owner_reassign
    throw_if (is_blank opts.actor) owner_reassign
    throw_if (is_blank opts.reason) owner_reassign
    throw_if (is_hand_owner owner) hand_authority
    finish_reassign task_id owner opts owner_reassign

  unfoldable pub get_task : World → String → Option Task
  get_task w id = get (read_graph w).tasks id

  unfoldable pub list_tasks : ListTasksFilter → World → List Task
  unfolding matches
  list_tasks f w = filter (matches f) (values (read_graph w).tasks)

  unfoldable pub status_summary : World → StatusSummary
  unfolding count_tasks
  status_summary w =
      let tasks = values (read_graph w).tasks in
      record {
        counts = count_tasks (map (λ s. (s, 0)) task_statuses) tasks;
        waiting = filter (λ t. includes waiting_statuses t.status) tasks;
      }
