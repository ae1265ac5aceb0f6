-- ===== src/ExecGraph/Refinement/Appends.antt =====
-- `appendEvent` against one step of the abstract machine.
use atlas_cli.Prelude.{
  ℕ, ◌+◌, ◌≡◌, refl, sym, ap, ◌∙◌, subst, true, false, none, some, arith, Bool-cases, Option-cases,
  inl, inr,
}
use atlas_cli.Prelude.Action.{ok, pure, throw}
use atlas_cli.ExecGraph.Contracts.{
  NewLedgerEvent, LedgerEvent, Runtime, payload_schema, ledger_event_schema,
}
use atlas_cli.ExecGraph.Ledger.{
  GraphSnapshot, World, AppendResult, apply_payload, duplicate_of, to_event, persist_event,
  read_graph, record_event, append_event,
}
use atlas_cli.ExecGraph.Ledger.Replay.{IsGraph, IsHealthy, persist-IsHealthy}
use atlas_cli.ExecGraph.Spec.{Role, Change, Changes, next}
use atlas_cli.ExecGraph.Spec.Preserves.{Change-IsGraph}
use atlas_cli.ExecGraph.Refinement.Ensures.{Ensures, Ensures-weaken}

module _ ⦃rt : Runtime⦄ (role : Role) (start : GraphSnapshot) where
  -- The files are in step, and their graph was reached from `start` by legal steps.
  pub record Reached (w : World) : Type 0 where
    pub healthy : IsHealthy w
    pub reached : Changes role start (read_graph w)

  -- So, and the graph is `g`.
  pub record Holds (g : GraphSnapshot) (w : World) : Type 0 where
    pub here : Reached w
    pub reads : read_graph w ≡ g

  -- The identifiers drawn are no part of the files.
  pub draw-Reached : (w : World) (n : ℕ) → Reached w → Reached (record w { drawn = n })
  unfolding read_graph
  draw-Reached w n h = record {
    healthy = record {
      no_faults = h.healthy.no_faults;
      graph = h.healthy.graph;
      in_step = h.healthy.in_step;
    };
    reached = h.reached;
  }

  pub read_graph-draw : (w : World) (n : ℕ) → read_graph (record w { drawn = n }) ≡ read_graph w
  unfolding read_graph
  read_graph-draw w n = refl

  pub draw-Holds :
      (g : GraphSnapshot) (w : World) (n : ℕ) → Holds g w → Holds g (record w { drawn = n })
  draw-Holds g w n h = record {
    here = draw-Reached w n h.here;
    reads = read_graph-draw w n ∙ h.reads;
  }

  persist-Holds :
      (g : GraphSnapshot) (w : World) (e : LedgerEvent)
      → Holds g w
      → ledger_event_schema e ≡ true
      → Change role g e.payload
      → Holds (apply_payload g e.payload) (persist_event e (apply_payload g e.payload) w)
  persist-Holds g w e h v c =
      let g' = apply_payload g e.payload in
      let graph = Change-IsGraph role g (subst IsGraph h.reads h.here.healthy.graph) c in
      let (healthy, read) =
        persist-IsHealthy w e g' h.here.healthy v
          (ap (λ s. apply_payload s e.payload) (sym h.reads)) graph in
      let reached : Changes role start g' =
        next e.payload (subst (Changes role start) h.reads h.here.reached) c in
      record {
        here = record {
          healthy = healthy;
          reached = subst (Changes role start) (sym read) reached;
        };
        reads = read;
      }

  valid_payload : (e : LedgerEvent) → ledger_event_schema e ≡ true → payload_schema e.payload ≡ true
  unfolding ledger_event_schema
  valid_payload e h = ground arith

  pub record_event-Ensures :
      (g : GraphSnapshot) (input : NewLedgerEvent)
      → (payload_schema input.payload ≡ true → Change role g input.payload)
      → Ensures
          (Holds g)
          (λ r w. (r.deduped ≡ false) × Holds (apply_payload g input.payload) w)
          Reached
          (record_event g input)
  unfolding record_event pure throw
  record_event-Ensures g input c = record {
    at = λ w h.
        let e = to_event (rt.uuid w.drawn) input in
        let h' = draw-Holds g w (w.drawn + 1) h in
        elim (Bool-cases (ledger_event_schema e)) [
          | inl good ↦ rw good (refl, persist-Holds g _ e h' good (c (valid_payload e good)))
          | inr bad ↦ rw bad h'.here
        ];
  }

  append_event-record_event :
      (g : GraphSnapshot) (input : NewLedgerEvent) (w : World)
      → read_graph w ≡ g
      → duplicate_of g input.payload ≡ none
      → append_event input w ≡ record_event g input w
  unfolding append_event
  append_event-record_event g input w e d =
      subst
        (λ k. duplicate_of k input.payload ≡ none → append_event input w ≡ record_event k input w) e
        (λ c. rw (c, append_event)) d

  -- An event that is no duplicate and makes a legal step is stored, or its schema refuses it.
  pub append_event-Ensures :
      (g : GraphSnapshot) (input : NewLedgerEvent)
      → duplicate_of g input.payload ≡ none
      → (payload_schema input.payload ≡ true → Change role g input.payload)
      → Ensures
          (Holds g)
          (λ r w. (r.deduped ≡ false) × Holds (apply_payload g input.payload) w)
          Reached
          (append_event input)
  append_event-Ensures g input d c = record {
    at = λ w h.
        rw (append_event-record_event g input w h.reads d)
          ((record_event-Ensures g input c).at w h);
  }

  -- A duplicate writes nothing.
  pub append_event-duplicate :
      (g : GraphSnapshot) (input : NewLedgerEvent) (r : AppendResult) (w : World)
      → read_graph w ≡ g
      → duplicate_of g input.payload ≡ some r
      → append_event input w ≡ (ok r, w)
  unfolding append_event pure
  append_event-duplicate g input r w e d =
      subst (λ k. duplicate_of k input.payload ≡ some r → append_event input w ≡ (ok r, w)) e
        (λ c. rw (c, append_event)) d

  -- An event that makes a legal step wherever it is no duplicate.
  pub append_event-Reached :
      (g : GraphSnapshot) (input : NewLedgerEvent)
      → (duplicate_of g input.payload ≡ none
          → payload_schema input.payload ≡ true
          → Change role g input.payload)
      → Ensures (Holds g) (λ r w. Reached w) Reached (append_event input)
  append_event-Reached g input c = elim (Option-cases (duplicate_of g input.payload)) [
    | inl fresh ↦
        Ensures-weaken _ (λ r w h. h.1.here) (append_event-Ensures g input fresh (c fresh))
    | inr (r, old) ↦ record {
      at = λ w h. rw (append_event-duplicate g input r w h.reads old) h.here;
    }
  ]
