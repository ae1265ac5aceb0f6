-- ===== src/ExecGraph/Spec/History.antt =====
-- The audit trail: the transitions of a task lead along legal edges from its creation to its
-- status.
use atlas_cli.Prelude.{
  String, ◌≡◌, refl, sym, subst, ap, ◌∙◌, Option, none, some, List, [], ◌∷◌, ◌++◌,
}
use atlas_cli.Prelude.Dict.{get}
use atlas_cli.ExecGraph.Contracts.{
  TaskStatus, proposed, escalated, Task, Transition, Payload, Runtime,
}
use atlas_cli.ExecGraph.Transitions.Edges.{◌⟶◌}
use atlas_cli.ExecGraph.Transitions.Apply.{IsAuthority}
use atlas_cli.ExecGraph.Ledger.{GraphSnapshot}
use atlas_cli.ExecGraph.Ledger.Replay.{IsGraph}
use atlas_cli.ExecGraph.Spec.{Role, Changes, here, next}
use atlas_cli.ExecGraph.Spec.Preserves.{Changes-IsGraph}
use atlas_cli.ExecGraph.Spec.Origin.{Origin, kept, born, changed, attached, given, Change-Origin}

-- One entry behind a status; `none` stands before the creation.
abbrev pub IsEntry : Option TaskStatus → Transition → Type 0
IsEntry none t = t.to ≡ proposed
IsEntry (some s) t = (s ⟶ t.to) × (s ≡ escalated → IsAuthority t.actor)

-- The entries lead from one status to another, each leaving the status that the last one reached.
abbrev pub Leads : Option TaskStatus → List Transition → TaskStatus → Type 0
Leads from [] s = from ≡ some s
Leads from (t ∷ ts) s = (t.from ≡ from) × IsEntry from t × Leads (some t.to) ts s

abbrev pub HasHistory : Task → Type 0
HasHistory t = Leads none t.transitions t.status

Leads-concat :
    (from : Option TaskStatus) (ts : List Transition) (s : TaskStatus) (t : Transition)
    → Leads from ts s
    → t.from ≡ some s
    → IsEntry (some s) t
    → Leads from (ts ++ t ∷ []) t.to
Leads-concat from [] s t h e i = (e ∙ sym h, subst (λ f. IsEntry f t) (sym h) i, refl)
Leads-concat from (u ∷ ts) s t h e i = (h.0, h.1, Leads-concat (some u.to) ts s t h.2 e i)

module _ ⦃rt : Runtime⦄ (role : Role) where
  history_step :
      (g : GraphSnapshot) (p : Payload) (id : String) (t : Task)
      → ((k : String) (old : Task) → get g.tasks k ≡ some old → HasHistory old)
      → Origin role g p id t
      → HasHistory t
  history_step g p id t h (kept at) = h id t at
  history_step g p id t h (born n k a b) =
      let (first, only, from, to) = n.history in
      subst (λ ts. Leads none ts t.status) (sym only) (from, to, ap some (to ∙ sym n.status))
  history_step g p id t h (changed task tr at m e) =
      subst HasHistory (sym e)
        (Leads-concat none task.transitions task.status tr (h id task at) m.leaves (m.edge, m.exit))
  history_step g p id t h (attached task ev at e) = subst HasHistory (sym e) (h id task at)
  history_step g p id t h (given task owner at m e) = subst HasHistory (sym e) (h id task at)

  -- Every task of a graph that was reached from one with histories has one.
  pub Changes-HasHistory :
      {g h : GraphSnapshot}
      → IsGraph g
      → ((id : String) (t : Task) → get g.tasks id ≡ some t → HasHistory t)
      → Changes role g h
      → (id : String) (t : Task) → get h.tasks id ≡ some t
      → HasHistory t
  Changes-HasHistory v start here id t at = start id t at
  Changes-HasHistory v start (next {h = k} q c s) id t at =
      history_step k q id t (Changes-HasHistory v start c)
        (Change-Origin role k q id t (Changes-IsGraph role v c) s at)
