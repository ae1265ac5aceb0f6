-- ===== src/ExecGraph/Idempotency.antt =====
-- `createTask` and `importTask` of src/exec-graph/api.ts by idempotency key: what one call does in
-- each of the two cases, and two imports of one legacy reference.
use atlas_cli.Prelude.{
  ◌+◌, String, ◌≡◌, refl, sym, ap, ◌∙◌, subst, true, false, Option, Option-cases, none, some, arith,
  or_else, string_eq, inl, inr,
}
use atlas_cli.Prelude.Action.{Result, ok, thrown, pure, ◌>>=◌}
use atlas_cli.Prelude.Dict.{get}
use atlas_cli.ExecGraph.Contracts.{
  Task, task_created, NewLedgerEvent, Runtime, SourceKind, task_schema,
}
use atlas_cli.ExecGraph.Transitions.{Failure}
use atlas_cli.ExecGraph.Ledger.{
  GraphSnapshot, World, AppendResult, find_by_key, duplicate_of, apply_payload, read_graph,
  append_event,
}
use atlas_cli.ExecGraph.Ledger.Lookup.{get-found, found-created}
use atlas_cli.ExecGraph.Ledger.Replay.{IsHealthy}
use atlas_cli.ExecGraph.Spec.{caller, here}
use atlas_cli.ExecGraph.Spec.Preserves.{task_id-safe, task_schema-id}
use atlas_cli.ExecGraph.Refinement.Ensures.{After}
use atlas_cli.ExecGraph.Refinement.Appends.{
  draw-Reached, read_graph-draw, Reached, Holds, draw-Holds, append_event-Ensures,
  append_event-duplicate,
}
use atlas_cli.ExecGraph.Refinement.Creates.{new_task-IsNew, task-Change}
use atlas_cli.ExecGraph.Api.{
  assert_writable, draw, parsed, now_or, new_id, is_hand_owner, new_task, created_or_existing,
  create_task, import_input, import_task,
}
use atlas_cli.ExecGraph.Inputs.{
  CreateTaskInput, CreateTaskResult, ImportTaskInput, event_of, derive_idempotency_key, cli_source,
}

abbrev task_of : Result Failure CreateTaskResult × World → Option Task
task_of (ok x, u) = x.task
task_of (thrown x, u) = none

module _ ⦃rt : Runtime⦄ where
  -- The task that a call would create, and the key that it goes by.
  abbrev pub made_task : CreateTaskInput → World → Task
  made_task input w = new_task input (new_id rt.uuid "tsk_" w) (or_else input.ts w.now)

  abbrev pub key_of : CreateTaskInput → String
  key_of input =
      or_else input.idempotency_key (derive_idempotency_key (or_else input.source cli_source))

  -- What the guards of `createTask` ask for.
  pub record MayCreate (input : CreateTaskInput) (w : World) : Type 0 where
    pub writable : w.readonly ≡ false
    pub owner : is_hand_owner (or_else input.owner "atlas") ≡ false
    pub valid : task_schema (made_task input w) ≡ true

  -- `createTask` behind its guards is `appendEvent` of the new task, and what is made of its
  -- answer.
  create_task-append :
      (input : CreateTaskInput) (w v : World) (r : AppendResult)
      → MayCreate input w
      → append_event
          (event_of
            (or_else input.ts w.now)
            (or_else input.actor "atlas")
            (task_created (made_task input w)))
          (record w { drawn = w.drawn + 1 })
        ≡ (ok r, v)
      → create_task input w ≡ created_or_existing (made_task input w) r v
  unfolding create_task assert_writable now_or draw parsed ◌>>=◌
  create_task-append input w v r m e = ground arith

  create_task-append_thrown :
      (input : CreateTaskInput) (w v : World) (e : Failure)
      → MayCreate input w
      → append_event
          (event_of
            (or_else input.ts w.now)
            (or_else input.actor "atlas")
            (task_created (made_task input w)))
          (record w { drawn = w.drawn + 1 })
        ≡ (thrown e, v)
      → create_task input w ≡ (thrown e, v)
  unfolding create_task assert_writable now_or draw parsed ◌>>=◌
  create_task-append_thrown input w v e m h = ground arith

  created_anew :
      (t : Task) (r : AppendResult) (w : World)
      → r.deduped ≡ false
      → created_or_existing t r w ≡ (ok (record { task = some t; created = true }), w)
  unfolding created_or_existing pure
  created_anew t r w h = rw h

  no_duplicate :
      (g : GraphSnapshot) (t : Task)
      → find_by_key g t.idempotency_key ≡ none
      → duplicate_of g (task_created t) ≡ none
  unfolding duplicate_of
  no_duplicate g t h = rw (h, duplicate_of)

  -- A key that a task of the graph has: the call returns that task and writes nothing.
  pub create_task-existing :
      (input : CreateTaskInput) (w : World) (old : Task)
      → IsHealthy w
      → MayCreate input w
      → find_by_key (read_graph w) (key_of input) ≡ some old
      → create_task input w
        ≡ (ok (record { task = some old; created = false }), record w { drawn = w.drawn + 1 })
  unfolding created_or_existing duplicate_of read_graph pure
  create_task-existing input w old h m f =
      let v : World = record w { drawn = w.drawn + 1 } in
      let there : get (read_graph w).tasks old.id ≡ some old =
        get-found (read_graph w) (key_of input) old h.graph.tasks_keyed f in
      let r : AppendResult = record {
        deduped = true;
        event = none;
        snapshot = read_graph w;
        task_id = some old.id;
      } in
      create_task-append input w v r m (
        append_event-duplicate caller (read_graph w) (read_graph w)
          (event_of (or_else input.ts w.now) (or_else input.actor "atlas")
            (task_created (made_task input w)))
          r v (read_graph-draw caller (read_graph w) w (w.drawn + 1)) (rw (f, duplicate_of)))
      ∙ ap (λ o. (ok (record { task = o; created = false }), v)) there

  -- What a call has done that found no task of its key and has returned.
  record IsCreated (t : Task) (w v : World) (made : CreateTaskResult) : Type 0 where
    task : made.task ≡ some t
    healthy : IsHealthy v
    graph : read_graph v ≡ apply_payload (read_graph w) (task_created t)

  create_task-new :
      (input : CreateTaskInput) (w v : World) (made : CreateTaskResult)
      → IsHealthy w
      → MayCreate input w
      → find_by_key (read_graph w) (key_of input) ≡ none
      → create_task input w ≡ (ok made, v)
      → IsCreated (made_task input w) w v made
  create_task-new input w v made h m f e = by_answer (append_event event drawn) refl (
      (append_event-Ensures caller g g event (no_duplicate g t f) (λ valid.
          task-Change caller g g t
            (new_task-IsNew caller g input t.id (or_else input.ts w.now) m.owner)
            (no_duplicate g t f) valid)).at
        drawn
        (draw-Holds caller g g w (w.drawn + 1)
          (record { here = record { healthy = h; reached = here }; reads = refl })))
    where
      g : GraphSnapshot
      g = read_graph w

      t : Task
      t = made_task input w

      event : NewLedgerEvent
      event = event_of (or_else input.ts w.now) (or_else input.actor "atlas") (task_created t)

      drawn : World
      drawn = record w { drawn = w.drawn + 1 }

      by_answer :
          (x : Result Failure AppendResult × World)
          → append_event event drawn ≡ x
          → After
              (λ r u. (r.deduped ≡ false) × Holds caller g (apply_payload g (task_created t)) u)
              (Reached caller g)
              x
          → IsCreated t w v made
      by_answer (ok r, u) a q =
          let same : (ok (record { task = some t; created = true }), u) ≡ (ok made, v) =
            sym (created_anew t r u q.0) ∙ sym (create_task-append input w u r m a) ∙ e in
          let now : u ≡ v = ap (λ x. x.1) same in
          record {
            task = ap task_of (sym same);
            healthy = subst IsHealthy now q.1.here.healthy;
            graph = subst (λ x. read_graph x ≡ apply_payload g (task_created t)) now q.1.reads;
          }
      by_answer (thrown x, u) a q = cc (sym (create_task-append_thrown input w u x m a) ∙ e)

  -- The task of a call that returned is found by its key afterwards.
  create_task-found :
      (input : CreateTaskInput) (w v : World) (made : CreateTaskResult)
      → IsHealthy w
      → MayCreate input w
      → create_task input w ≡ (ok made, v)
      → (t : Task) × (made.task ≡ some t)
        × IsHealthy v
        × (find_by_key (read_graph v) (key_of input) ≡ some t)
  create_task-found input w v made h m e =
      elim (Option-cases (find_by_key (read_graph w) (key_of input))) [
        | inl fresh ↦
            let n = create_task-new input w v made h m fresh e in
            (
              made_task input w,
              n.task,
              n.healthy,
              ap (λ g. find_by_key g (key_of input)) n.graph
                  ∙ found-created (read_graph w) (made_task input w)
                      (task_id-safe _ (task_schema-id _ m.valid)) fresh,
            )
        | inr (old, f) ↦
            let same : (
              ok (record { task = some old; created = false }),
              record w { drawn = w.drawn + 1 },
            )
                ≡ (ok made, v) =
              sym (create_task-existing input w old h m f) ∙ e in
            let now = ap (λ x. x.1) same in
            let g = read_graph w in
            let there : Reached caller g (record w { drawn = w.drawn + 1 }) =
              draw-Reached caller g w (w.drawn + 1) (record { healthy = h; reached = here }) in
            (
              old,
              ap task_of (sym same),
              subst IsHealthy now there.healthy,
              subst (λ x. find_by_key (read_graph x) (key_of input) ≡ some old) now
                  (subst (λ x. find_by_key x (key_of input) ≡ some old)
                    (sym (read_graph-draw caller g w (w.drawn + 1))) f),
            )
      ]

  -- After a call that returned, a second one with the same key returns the task of the first.
  pub create_task-again :
      (first second : CreateTaskInput) (w v : World) (made : CreateTaskResult)
      → IsHealthy w
      → MayCreate first w
      → MayCreate second v
      → key_of first ≡ key_of second
      → create_task first w ≡ (ok made, v)
      → create_task second v
        ≡ (ok (record { task = made.task; created = false }), record v { drawn = v.drawn + 1 })
  create_task-again first second w v made h m n k e =
      let (t, task, healthy, found) = create_task-found first w v made h m e in
      create_task-existing second v t healthy n
        (subst (λ x. find_by_key (read_graph v) x ≡ some t) k found)
      ∙ ap (λ o. (ok (record { task = o; created = false }), record v { drawn = v.drawn + 1 }))
          (sym task)

  -- After an import of a legacy reference that returned, a second import of that reference behind
  -- passing guards, whatever its title, its owner or the clock say, returns the task of the first
  -- and writes to neither file. The files are healthy at the start, and no write is going
  -- to fail.
  pub import_task-again :
      (first second : ImportTaskInput) (w v : World) (made : CreateTaskResult)
      → IsHealthy w
      → MayCreate (import_input first) w
      → MayCreate (import_input second) v
      → first.source_kind ≡ second.source_kind
      → first.source_ref ≡ second.source_ref
      → import_task first w ≡ (ok made, v)
      → import_task second v
        ≡ (ok (record { task = made.task; created = false }), record v { drawn = v.drawn + 1 })
  unfolding import_task
  import_task-again first second w v made h m n k r e =
      create_task-again (import_input first) (import_input second) w v made h m n
        (ap (λ (x : SourceKind × String). derive_idempotency_key (record { kind = x.0; ref = x.1 }))
          (λ i. (k i, r i)))
        e
