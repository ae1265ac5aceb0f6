-- ===== src/ExecGraph/Ledger/Replay.antt =====
-- The two files against one another: what is written is read back, and the incremental snapshot is
-- the fold of the whole log.
use mathlib.Core.List.{foldl-append}
use atlas_cli.Prelude.{
  ◌≡◌, refl, sym, ap, subst, ◌∙◌, Bool, true, some, List, [], ◌∷◌, ◌++◌, every, All, arith,
}
use atlas_cli.Prelude.Dict.{values}
use atlas_cli.ExecGraph.Contracts.{
  LedgerEvent, Runtime, goal_schema, task_schema, ledger_event_schema, graph_file_schema,
}
use atlas_cli.ExecGraph.Ledger.{
  GraphSnapshot, World, Line, entry, malformed, apply_event, snapshot_to_file, snapshot_from_file,
  persist_event, read_ledger_events, rebuild_snapshot, read_graph,
}
use atlas_cli.ExecGraph.Ledger.Keyed.{Keyed, fold-values-eq_self}

pub every-All {ℓ} :
    {A : Type ℓ} (p : A → Bool) (xs : List A) → All (λ x. p x ≡ true) xs → every p xs ≡ true
every-All p [] h = refl
every-All p (x ∷ xs) h = ground (arith, h.0, every-All p xs h.1)

module _ ⦃rt : Runtime⦄ where
  -- A snapshot whose values stand under their ids and pass their schemas.
  pub record IsGraph (g : GraphSnapshot) : Type 0 where
    pub goals_keyed : Keyed (λ g. g.id) g.goals
    pub tasks_keyed : Keyed (λ t. t.id) g.tasks
    pub goals_valid : All (λ g. goal_schema g ≡ true) (values g.goals)
    pub tasks_valid : All (λ t. task_schema t ≡ true) (values g.tasks)

  -- The round trip through graph.json.
  pub from_file-to_file :
      (g : GraphSnapshot) → IsGraph g → snapshot_from_file (snapshot_to_file g) ≡ g
  unfolding snapshot_from_file snapshot_to_file
  from_file-to_file g h = λ i. record {
    goals = fold-values-eq_self (λ g. g.id) g.goals h.goals_keyed i;
    tasks = fold-values-eq_self (λ t. t.id) g.tasks h.tasks_keyed i;
  }

  file-valid : (g : GraphSnapshot) → IsGraph g → graph_file_schema (snapshot_to_file g) ≡ true
  unfolding graph_file_schema snapshot_to_file
  file-valid g h =
      rw (every-All goal_schema (values g.goals) h.goals_valid)
        (every-All task_schema (values g.tasks) h.tasks_valid)

  -- A snapshot that is in the file is what the next read gives.
  pub read_graph-file :
      (w : World) (g : GraphSnapshot)
      → IsGraph g
      → w.graph ≡ some (snapshot_to_file g)
      → read_graph w ≡ g
  unfolding read_graph
  read_graph-file w g h e = rw (e, read_graph) (rw (file-valid g h) (from_file-to_file g h))

  read_ledger_events-concat :
      (ls : List Line) (e : LedgerEvent)
      → ledger_event_schema e ≡ true
      → read_ledger_events (ls ++ entry e ∷ []) ≡ read_ledger_events ls ++ e ∷ []
  unfolding read_ledger_events
  read_ledger_events-concat [] e h = rw h
  read_ledger_events-concat (malformed ∷ ls) e h = read_ledger_events-concat ls e h
  read_ledger_events-concat (entry d ∷ ls) e h = ground (arith, read_ledger_events-concat ls e h)

  -- One more line in the log is one more event applied.
  pub rebuild-concat :
      (w v : World) (e : LedgerEvent)
      → ledger_event_schema e ≡ true
      → v.ledger ≡ w.ledger ++ entry e ∷ []
      → rebuild_snapshot v ≡ apply_event (rebuild_snapshot w) e
  unfolding rebuild_snapshot
  rebuild-concat w v e h l =
      rw (l, read_ledger_events-concat w.ledger e h)
        (foldl-append apply_event _ (read_ledger_events w.ledger) (e ∷ []))

  -- The files agree, no write is going to fail, and the snapshot is well-formed.
  pub record IsHealthy (w : World) : Type 0 where
    pub no_faults : w.io ≡ []
    pub graph : IsGraph (read_graph w)
    pub in_step : read_graph w ≡ rebuild_snapshot w

  pub persist_no_faults :
      (w : World) (e : LedgerEvent) (next : GraphSnapshot)
      → w.io ≡ []
      → ((persist_event e next w).graph ≡ some (snapshot_to_file next))
        × ((persist_event e next w).ledger ≡ w.ledger ++ entry e ∷ [])
        × ((persist_event e next w).io ≡ [])
  unfolding persist_event
  persist_no_faults w e next f = ground arith

  pub persist-IsHealthy :
      (w : World) (e : LedgerEvent) (next : GraphSnapshot)
      → IsHealthy w
      → ledger_event_schema e ≡ true
      → next ≡ apply_event (read_graph w) e
      → IsGraph next
      → IsHealthy (persist_event e next w) × (read_graph (persist_event e next w) ≡ next)
  persist-IsHealthy w e next h v n g =
      let (file, log, io) = persist_no_faults w e next h.no_faults in
      let v' = persist_event e next w in
      let read : read_graph v' ≡ next = read_graph-file v' next g file in
      let built : rebuild_snapshot v' ≡ next =
        rebuild-concat w v' e v log ∙ ap (λ s. apply_event s e) (sym h.in_step) ∙ sym n in
      (
        record { no_faults = io; graph = subst IsGraph (sym read) g; in_step = read ∙ sym built },
        read,
      )
