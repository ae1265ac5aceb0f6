-- ===== src/ExecGraph/Spec/Authority.antt =====
-- What a caller of the public surface cannot do to a graph, however many steps it takes.
use atlas_cli.Prelude.{String, ◌≡◌, refl, subst, ◌⊎◌, inl, inr, some, true, arith}
use atlas_cli.Prelude.Dict.{get}
use atlas_cli.ExecGraph.Contracts.{
  TaskStatus, verified, rejected, closed, Task, Transition, Payload, Runtime,
}
use atlas_cli.ExecGraph.Transitions.Edges.{◌⟶◌, close, close_rejected}
use atlas_cli.ExecGraph.Ledger.{GraphSnapshot}
use atlas_cli.ExecGraph.Ledger.Replay.{IsGraph}
use atlas_cli.ExecGraph.Api.{is_hand_owner}
use atlas_cli.ExecGraph.Spec.{caller, IsMove, Changes, here, next}
use atlas_cli.ExecGraph.Spec.Preserves.{Changes-IsGraph}
use atlas_cli.ExecGraph.Spec.Origin.{Origin, kept, born, changed, attached, given, Change-Origin}

-- The verdict on a task has been given.
abbrev pub IsSettled : TaskStatus → Type 0
IsSettled s = (s ≡ verified) ⊎ (s ≡ rejected) ⊎ (s ≡ closed)

-- Only from a settled status does an edge lead to `closed`.
before_closed : {s t : TaskStatus} → s ⟶ t → t ≡ closed → IsSettled s
before_closed close e = inl refl
before_closed close_rejected e = inr (inl refl)
before_closed _ e = cc

module _ ⦃rt : Runtime⦄ where
  -- A task with a property that no caller gives had it at the start.
  module _ (P : Task → Type 0)
      (step : (g : GraphSnapshot) (p : Payload) (id : String) (t : Task)
        → Origin caller g p id t
        → P t
        → (old : Task) × (get g.tasks id ≡ some old) × P old) where
    pub Changes-had :
        {g h : GraphSnapshot} (id : String) (t : Task)
        → IsGraph g
        → Changes caller g h
        → get h.tasks id ≡ some t
        → P t
        → (old : Task) × (get g.tasks id ≡ some old) × P old
    Changes-had id t v here at p = (t, at, p)
    Changes-had id t v (next {h = k} q c s) at p =
        let (mid, there, p') =
          step k q id t (Change-Origin caller k q id t (Changes-IsGraph caller v c) s at) p in
        Changes-had id mid v c there p'

  move-IsSettled :
      (task : Task) (tr : Transition)
      → IsMove caller task tr
      → IsSettled tr.to
      → IsSettled task.status
  move-IsSettled task tr m (inl v) = absurd (m.authority.0 v)
  move-IsSettled task tr m (inr (inl r)) = absurd (m.authority.1 r)
  move-IsSettled task tr m (inr (inr c)) = before_closed m.edge c

  step-IsSettled :
      (g : GraphSnapshot) (q : Payload) (id : String) (t : Task)
      → Origin caller g q id t
      → IsSettled t.status
      → (old : Task) × (get g.tasks id ≡ some old) × IsSettled old.status
  step-IsSettled g q id t (kept at) p = (t, at, p)
  step-IsSettled g q id t (born n k a b) p = absurd (ground (arith, n.status))
  step-IsSettled g q id t (changed task tr at m e) p =
      (task, at, move-IsSettled task tr m (subst (λ x. IsSettled x.status) e p))
  step-IsSettled g q id t (attached task ev at e) p =
      (task, at, subst (λ x. IsSettled x.status) e p)
  step-IsSettled g q id t (given task owner at m e) p =
      (task, at, subst (λ x. IsSettled x.status) e p)

  hand_step :
      (g : GraphSnapshot) (q : Payload) (id : String) (t : Task)
      → Origin caller g q id t
      → is_hand_owner t.owner ≡ true
      → (old : Task) × (get g.tasks id ≡ some old) × (is_hand_owner old.owner ≡ true)
  hand_step g q id t (kept at) p = (t, at, p)
  hand_step g q id t (born n k a b) p = absurd (ground (arith, n.owner))
  hand_step g q id t (changed task tr at m e) p =
      (task, at, subst (λ x. is_hand_owner x.owner ≡ true) e p)
  hand_step g q id t (attached task ev at e) p =
      (task, at, subst (λ x. is_hand_owner x.owner ≡ true) e p)
  hand_step g q id t (given task owner at m e) p =
      absurd (ground (arith, subst (λ x. is_hand_owner x.owner ≡ true) e p, m))

  pub before-IsSettled :
      {g h : GraphSnapshot} (id : String) (t : Task)
      → IsGraph g
      → Changes caller g h
      → get h.tasks id ≡ some t
      → IsSettled t.status
      → (old : Task) × (get g.tasks id ≡ some old) × IsSettled old.status
  before-IsSettled = Changes-had (λ t. IsSettled t.status) step-IsSettled

  pub hand_owned_before :
      {g h : GraphSnapshot} (id : String) (t : Task)
      → IsGraph g
      → Changes caller g h
      → get h.tasks id ≡ some t
      → is_hand_owner t.owner ≡ true
      → (old : Task) × (get g.tasks id ≡ some old) × (is_hand_owner old.owner ≡ true)
  hand_owned_before = Changes-had (λ t. is_hand_owner t.owner ≡ true) hand_step
