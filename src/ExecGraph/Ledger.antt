-- ===== src/ExecGraph/Ledger.antt =====
-- src/exec-graph/ledger.ts: the append-only log, the snapshot folded from it, and the two files.
-- A read of a file that fails is a read of a missing file; each append has an outcome chosen by
-- the environment, for the append to ledger.jsonl and for the rewrite of graph.json.
pub mod Keyed
pub mod Lookup
pub mod Replay
pub mod Faults
use atlas_cli.Prelude.{
  ℕ, ◌+◌, String, Bool, true, false, not, Option, none, some, List, [], ◌∷◌, ◌++◌, foldl, find,
  includes, is_some, if◌then◌else◌, ◌==◌, string_eq,
}
use atlas_cli.Prelude.Dict.{Dict, get, put, values}
use atlas_cli.Prelude.Action.{Action, pure, throw}
use atlas_cli.ExecGraph.Contracts.{
  Evidence, Goal, Task, Payload, goal_created, task_created, transition, evidence_added,
  owner_reassigned, NewLedgerEvent, LedgerEvent, GraphFile, Runtime, ledger_event_schema,
  graph_file_schema,
}
use atlas_cli.ExecGraph.Transitions.{Failure, invalid_input, moved}

pub record GraphSnapshot : Type 0 where
  pub goals : Dict Goal
  pub tasks : Dict Task

abbrev pub empty_snapshot : GraphSnapshot
empty_snapshot = record { goals = []; tasks = [] }

-- `isSafeKey`
unfoldable pub is_safe_key : String → Bool
is_safe_key key = not (includes ("__proto__" ∷ "constructor" ∷ "prototype" ∷ []) key)

-- The common part of the three cases that change one task of the snapshot.
unfoldable pub update_task : GraphSnapshot → String → (Task → Task) → GraphSnapshot
unfolding is_safe_key
update_task s id f = if not (is_safe_key id) then s else elim (get s.tasks id) [
  | none ↦ s
  | some existing ↦ record s { tasks = put s.tasks id (f existing) }
]

abbrev pub with_evidence : Evidence → Task → Task
with_evidence e t = record t { evidence = t.evidence ++ e ∷ [] }

abbrev pub with_owner : String → Task → Task
with_owner owner t = record t { owner = owner }

-- `applyEventToSnapshot`, which reads nothing of the event but its payload
unfoldable pub apply_payload : GraphSnapshot → Payload → GraphSnapshot
unfolding update_task
apply_payload s (goal_created g) =
    if not (is_safe_key g.id) then s else record s { goals = put s.goals g.id g }
apply_payload s (task_created t) =
    if not (is_safe_key t.id) then s else record s { tasks = put s.tasks t.id t }
apply_payload s (transition id t) = update_task s id (λ existing. moved existing t)
apply_payload s (evidence_added id e) = update_task s id (with_evidence e)
apply_payload s (owner_reassigned p) = update_task s p.task_id (with_owner p.to)

abbrev pub apply_event : GraphSnapshot → LedgerEvent → GraphSnapshot
apply_event s e = apply_payload s e.payload

unfoldable pub fold_events : List LedgerEvent → GraphSnapshot
fold_events events = foldl apply_event empty_snapshot events

-- A line of ledger.jsonl: JSON of the shape of an event, or anything else.
pub data Line : Type 0 where
  entry : LedgerEvent → Line
  malformed : Line

-- Whether the append to the ledger succeeds, and whether the write of the snapshot does.
pub record IoOutcome : Type 0 where
  pub append_ok : Bool
  pub write_ok : Bool

-- The two files, and the environment: the outcomes of the writes to come (none left: they all
-- succeed), the identifiers drawn, the clock and `ATLAS_READONLY`.
pub record World : Type 0 where
  pub ledger : List Line
  pub graph : Option GraphFile
  pub io : List IoOutcome
  pub drawn : ℕ
  pub now : String
  pub readonly : Bool

abbrev pub Act : Type 0 → Type 0
Act A = Action World Failure A

-- `snapshotToFile`
unfoldable pub snapshot_to_file : GraphSnapshot → GraphFile
snapshot_to_file s = record { goals = values s.goals; tasks = values s.tasks }

-- `if (isSafeKey(v.id)) m[v.id] = v`
abbrev pub put_safe {ℓ} : {V : Type ℓ} → (V → String) → Dict V → V → Dict V
put_safe id m v = if is_safe_key (id v) then put m (id v) v else m

-- `snapshotFromFile`
unfoldable pub snapshot_from_file : GraphFile → GraphSnapshot
snapshot_from_file f = record {
  goals = foldl (put_safe (λ g. g.id)) [] f.goals;
  tasks = foldl (put_safe (λ t. t.id)) [] f.tasks;
}

pub record AppendResult : Type 0 where
  pub deduped : Bool
  pub event : Option LedgerEvent
  pub snapshot : GraphSnapshot
  pub task_id : Option String

abbrev pub goal_exists : GraphSnapshot → String → Bool
goal_exists s id = is_some (get s.goals id)

-- `Object.values(current.tasks).find((t) => t.idempotencyKey === key)`
unfoldable pub find_by_key : GraphSnapshot → String → Option Task
find_by_key s key = find (λ t. t.idempotency_key == key) (values s.tasks)

-- The two checks that return before anything is written.
unfoldable pub duplicate_of : GraphSnapshot → Payload → Option AppendResult
unfolding find_by_key
duplicate_of s (goal_created g) =
    if goal_exists s g.id
    then some (record { deduped = true; event = none; snapshot = s; task_id = none })
    else none
duplicate_of s (task_created t) = elim (find_by_key s t.idempotency_key) [
  | none ↦ none
  | some existing ↦
      some (record { deduped = true; event = none; snapshot = s; task_id = some existing.id })
]
duplicate_of s _ = none

abbrev new_task_id : Payload → Option String
new_task_id (task_created t) = some t.id
new_task_id _ = none

abbrev pub to_event : String → NewLedgerEvent → LedgerEvent
to_event id e = record { event_id = id; ts = e.ts; actor = e.actor; payload = e.payload }

abbrev pub next_outcome : List IoOutcome → IoOutcome
next_outcome [] = record { append_ok = true; write_ok = true }
next_outcome (o ∷ os) = o

abbrev rest_of {ℓ} : {A : Type ℓ} → List A → List A
rest_of [] = []
rest_of (x ∷ xs) = xs

-- `persistEvent`: a failed append returns before the snapshot is touched
unfoldable pub persist_event : LedgerEvent → GraphSnapshot → World → World
unfolding snapshot_to_file
persist_event e next w =
    let o = next_outcome w.io in
    let w1 = record w { io = rest_of w.io } in
    if not o.append_ok
    then w1
    else if not o.write_ok
    then record w1 { ledger = w.ledger ++ entry e ∷ [] }
    else record w1 { ledger = w.ledger ++ entry e ∷ []; graph = some (snapshot_to_file next) }

module _ ⦃rt : Runtime⦄ where
  -- `readLedgerEvents`: lines that do not parse are skipped
  unfoldable pub read_ledger_events : List Line → List LedgerEvent
  read_ledger_events [] = []
  read_ledger_events (malformed ∷ ls) = read_ledger_events ls
  read_ledger_events (entry e ∷ ls) =
      let rest = read_ledger_events ls in if ledger_event_schema e then e ∷ rest else rest

  unfoldable pub rebuild_snapshot : World → GraphSnapshot
  unfolding read_ledger_events fold_events
  rebuild_snapshot w = fold_events (read_ledger_events w.ledger)

  unfoldable pub read_snapshot_file : World → Option GraphSnapshot
  unfolding snapshot_from_file
  read_snapshot_file w = elim w.graph [
    | none ↦ none
    | some f ↦ if graph_file_schema f then some (snapshot_from_file f) else none
  ]

  unfoldable pub read_graph : World → GraphSnapshot
  unfolding read_snapshot_file rebuild_snapshot
  read_graph w = elim (read_snapshot_file w) [ none ↦ rebuild_snapshot w | some s ↦ s ]

  -- The part of `appendEvent` behind the checks for duplicates.
  unfoldable pub record_event : GraphSnapshot → NewLedgerEvent → Act AppendResult
  unfolding persist_event
  record_event current input w =
      let e = to_event (rt.uuid w.drawn) input in
      let next = apply_event current e in
      let w1 = record w { drawn = w.drawn + 1 } in
      if not (ledger_event_schema e)
      then throw invalid_input w1
      else pure
          (record {
            deduped = false;
            event = some e;
            snapshot = next;
            task_id = new_task_id input.payload;
          })
          (persist_event e next w1)

  unfoldable pub append_event : NewLedgerEvent → Act AppendResult
  append_event input w = elim (duplicate_of (read_graph w) input.payload) [
    | none ↦ record_event (read_graph w) input w
    | some result ↦ pure result w
  ]
