-- ===== src/ExecGraph/Ledger/Faults.antt =====
-- Writes that fail: what `persistEvent` of src/exec-graph/ledger.ts leaves on disk, and what the
-- next `appendEvent` makes of it.
use atlas_cli.Prelude.{
  ◌+◌, ◌≡◌, refl, sym, ap, ◌∙◌, subst, true, false, none, some, [], ◌∷◌, ◌++◌, arith,
}
use atlas_cli.Prelude.Action.{ok, pure, throw}
use atlas_cli.ExecGraph.Contracts.{NewLedgerEvent, LedgerEvent, Runtime, ledger_event_schema}
use atlas_cli.ExecGraph.Ledger.{
  GraphSnapshot, World, entry, AppendResult, apply_payload, duplicate_of, to_event, next_outcome,
  rest_of, new_task_id, persist_event, read_graph, read_snapshot_file, rebuild_snapshot,
  record_event, append_event,
}
use atlas_cli.ExecGraph.Ledger.Replay.{IsGraph, rebuild-concat, read_graph-file, persist_no_faults}

persist_lost :
    (e : LedgerEvent) (next : GraphSnapshot) (w : World)
    → (next_outcome w.io).append_ok ≡ false
    → ((persist_event e next w).ledger ≡ w.ledger) × ((persist_event e next w).graph ≡ w.graph)
unfolding persist_event
persist_lost e next w f = ground arith

persist_stale :
    (e : LedgerEvent) (next : GraphSnapshot) (w : World)
    → (next_outcome w.io).append_ok ≡ true
    → (next_outcome w.io).write_ok ≡ false
    → ((persist_event e next w).ledger ≡ w.ledger ++ entry e ∷ [])
      × ((persist_event e next w).graph ≡ w.graph)
      × ((persist_event e next w).io ≡ rest_of w.io)
unfolding persist_event
persist_stale e next w a f = ground arith

module _ ⦃rt : Runtime⦄ where
  -- The event that a call would append, its schema and its being no duplicate.
  pub record IsRecorded (input : NewLedgerEvent) (w : World) : Type 0 where
    pub fresh : duplicate_of (read_graph w) input.payload ≡ none
    pub valid : ledger_event_schema (to_event (rt.uuid w.drawn) input) ≡ true

  abbrev pub recorded : NewLedgerEvent → World → World
  recorded input w =
      persist_event (to_event (rt.uuid w.drawn) input) (apply_payload (read_graph w) input.payload)
        (record w { drawn = w.drawn + 1 })

  abbrev result_of : NewLedgerEvent → World → AppendResult
  result_of input w = record {
    deduped = false;
    event = some (to_event (rt.uuid w.drawn) input);
    snapshot = apply_payload (read_graph w) input.payload;
    task_id = new_task_id input.payload;
  }

  append_event-recorded :
      (input : NewLedgerEvent) (w : World)
      → IsRecorded input w
      → append_event input w ≡ (ok (result_of input w), recorded input w)
  unfolding append_event record_event pure throw
  append_event-recorded input w h = rw (h.fresh, append_event) (rw h.valid)

  -- A failed append: the call returns as if the event were recorded, with a snapshot that holds it,
  -- and neither file has changed.
  pub append_lost :
      (input : NewLedgerEvent) (w : World)
      → IsRecorded input w
      → (next_outcome w.io).append_ok ≡ false
      → (r : AppendResult) × ((append_event input w).0 ≡ ok r)
        × (r.deduped ≡ false)
        × (r.snapshot ≡ apply_payload (read_graph w) input.payload)
        × ((append_event input w).1.ledger ≡ w.ledger)
        × ((append_event input w).1.graph ≡ w.graph)
  append_lost input w h f =
      let e = append_event-recorded input w h in
      let (log, file) = persist_lost (to_event (rt.uuid w.drawn) input) _ _ f in
      (
        result_of input w,
        ap (λ x. x.0) e,
        refl,
        refl,
        ap (λ x. x.1.ledger) e ∙ log,
        ap (λ x. x.1.graph) e ∙ file,
      )

  file_of : (v w : World) → v.graph ≡ w.graph → read_snapshot_file v ≡ read_snapshot_file w
  unfolding read_snapshot_file
  file_of v w e = rw e

  read_graph-stale :
      (v w : World) (g : GraphSnapshot)
      → v.graph ≡ w.graph
      → read_snapshot_file w ≡ some g
      → read_graph v ≡ g
  unfolding read_graph
  read_graph-stale v w g e s = rw (file_of v w e ∙ s, read_graph)

  -- A failed write of the snapshot, where one could be read before: the log holds the event and the
  -- graph that the next call reads does not, so that a second creation of the same task, or of the
  -- same goal, is no duplicate.
  pub write_lost :
      (input : NewLedgerEvent) (w : World) (g : GraphSnapshot)
      → IsRecorded input w
      → read_snapshot_file w ≡ some g
      → (next_outcome w.io).append_ok ≡ true
      → (next_outcome w.io).write_ok ≡ false
      → let v = (append_event input w).1 in
        (rebuild_snapshot v ≡ apply_payload (rebuild_snapshot w) input.payload)
        × (read_graph v ≡ g)
        × (duplicate_of (read_graph v) input.payload ≡ none)
  write_lost input w g h s a f =
      let e = ap (λ x. x.1) (append_event-recorded input w h) in
      let w1 = record w { drawn = w.drawn + 1 } in
      let (log, file, io) = persist_stale (to_event (rt.uuid w.drawn) input) _ w1 a f in
      let v = (append_event input w).1 in
      let read : read_graph v ≡ g = read_graph-stale v w g (ap (λ x. x.graph) e ∙ file) s in
      (
        rebuild-concat w v (to_event (rt.uuid w.drawn) input) h.valid (ap (λ x. x.ledger) e ∙ log),
        read,
        ap (λ k. duplicate_of k input.payload) (read ∙ sym (read_graph-stale w w g refl s))
            ∙ h.fresh,
      )

  -- Where a snapshot could be read before, its write failed for one event, and the event after it,
  -- whose writes do not fail, gives a well-formed graph: that write does not mend the snapshot,
  -- which holds the second event and not the first, while the log holds both. Both events are
  -- recorded: they pass their schema and are no duplicates.
  pub drift_stays :
      (first second : NewLedgerEvent) (w : World) (g : GraphSnapshot)
      → IsRecorded first w
      → read_snapshot_file w ≡ some g
      → w.io ≡ record { append_ok = true; write_ok = false } ∷ []
      → IsRecorded second (append_event first w).1
      → IsGraph (apply_payload g second.payload)
      → let v = (append_event second (append_event first w).1).1 in
        (read_graph v ≡ apply_payload g second.payload)
        × (rebuild_snapshot v
            ≡ apply_payload (apply_payload (rebuild_snapshot w) first.payload) second.payload)
  drift_stays first second w g h s io h' legal =
      let a = ap (λ x. (next_outcome x).append_ok) io in
      let f = ap (λ x. (next_outcome x).write_ok) io in
      let (built, read, dup) = write_lost first w g h s a f in
      let u = (append_event first w).1 in
      let e = ap (λ x. x.1) (append_event-recorded first w h) in
      let w1 = record w { drawn = w.drawn + 1 } in
      let (log, file, rest) = persist_stale (to_event (rt.uuid w.drawn) first) _ w1 a f in
      let u1 = record u { drawn = u.drawn + 1 } in
      let e' = ap (λ x. x.1) (append_event-recorded second u h') in
      let next = apply_payload (read_graph u) second.payload in
      let (file', log', io') =
        persist_no_faults u1 (to_event (rt.uuid u.drawn) second) next
          (ap (λ x. x.io) e ∙ rest ∙ ap rest_of io) in
      let v = (append_event second u).1 in
      let same : next ≡ apply_payload g second.payload =
        ap (λ k. apply_payload k second.payload) read in
      (
        read_graph-file v next (subst IsGraph (sym same) legal) (ap (λ x. x.graph) e' ∙ file')
            ∙ same,
        rebuild-concat u v (to_event (rt.uuid u.drawn) second) h'.valid
              (ap (λ x. x.ledger) e' ∙ log')
            ∙ ap (λ k. apply_payload k second.payload) built,
      )
