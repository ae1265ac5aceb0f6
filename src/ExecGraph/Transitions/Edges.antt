-- ===== src/ExecGraph/Transitions/Edges.antt =====
-- The lifecycle of src/exec-graph/transitions.ts as a relation: a task that is not closed may
-- escalate, and a closed one goes nowhere. The table of legal edges decides it.
use atlas_cli.Prelude.{◌≡◌, refl, subst, ◌≢◌, true, arith, includes}
use atlas_cli.ExecGraph.Contracts.{
  TaskStatus, proposed, accepted, planned, delegated, in_progress, blocked, evidence_submitted,
  verified, rejected, closed, escalated, status_Eq, status_eq,
}
use atlas_cli.ExecGraph.Transitions.{legal_transitions}

-- The edges of the lifecycle.
infix 20 ◌⟶◌
pub data ◌⟶◌ : TaskStatus → TaskStatus → Type 0 where
  accept : proposed ⟶ accepted
  plan : accepted ⟶ planned
  delegate : planned ⟶ delegated
  start : planned ⟶ in_progress
  pick_up : delegated ⟶ in_progress
  stop_hand : delegated ⟶ blocked
  block : in_progress ⟶ blocked
  unblock : blocked ⟶ in_progress
  submit : in_progress ⟶ evidence_submitted
  verify : evidence_submitted ⟶ verified
  turn_down : proposed ⟶ rejected
  give_up : blocked ⟶ rejected
  refuse : evidence_submitted ⟶ rejected
  reopen : rejected ⟶ proposed
  close : verified ⟶ closed
  close_rejected : rejected ⟶ closed
  escalate : (s : TaskStatus) → s ≢ closed → s ≢ escalated → s ⟶ escalated
  readmit : escalated ⟶ accepted
  overrule : escalated ⟶ rejected
  park : escalated ⟶ blocked
  resume : escalated ⟶ in_progress

no_exit : (s t : TaskStatus) → s ≡ closed → includes (legal_transitions s) t ≢ true
unfolding legal_transitions
no_exit s t e h = cc (subst (λ x. includes (legal_transitions x) t ≡ true) e h)

no_return : (s : TaskStatus) → s ≡ escalated → includes (legal_transitions s) escalated ≢ true
unfolding legal_transitions status_eq
no_return s e h = cc (subst (λ x. includes (legal_transitions x) escalated ≡ true) e h)

pub edge_of_table : (s t : TaskStatus) → includes (legal_transitions s) t ≡ true → s ⟶ t
unfolding legal_transitions status_eq
edge_of_table proposed accepted h = accept
edge_of_table proposed rejected h = turn_down
edge_of_table accepted planned h = plan
edge_of_table planned delegated h = delegate
edge_of_table planned in_progress h = start
edge_of_table delegated in_progress h = pick_up
edge_of_table delegated blocked h = stop_hand
edge_of_table in_progress blocked h = block
edge_of_table in_progress evidence_submitted h = submit
edge_of_table blocked in_progress h = unblock
edge_of_table blocked rejected h = give_up
edge_of_table evidence_submitted verified h = verify
edge_of_table evidence_submitted rejected h = refuse
edge_of_table verified closed h = close
edge_of_table rejected closed h = close_rejected
edge_of_table rejected proposed h = reopen
edge_of_table escalated accepted h = readmit
edge_of_table escalated rejected h = overrule
edge_of_table escalated blocked h = park
edge_of_table escalated in_progress h = resume
edge_of_table s escalated h =
    escalate s (λ e. absurd (no_exit s escalated e h)) (λ e. absurd (no_return s e h))
edge_of_table _ _ h = cc

pub table_of_edge : {s t : TaskStatus} → s ⟶ t → includes (legal_transitions s) t ≡ true
unfolding legal_transitions status_eq
table_of_edge (escalate s a b) = ground arith
table_of_edge _ = refl

-- No edge leaves `closed`.
pub not_from_closed : {t : TaskStatus} → ¬ (closed ⟶ t)
not_from_closed (escalate s a b) = a refl

infix 20 ◌⟶*◌
pub data ◌⟶*◌ : TaskStatus → TaskStatus → Type 0 where
  here : {s : TaskStatus} → s ⟶* s
  then : {s t u : TaskStatus} → s ⟶ t → t ⟶* u → s ⟶* u

way_from_progress : in_progress ⟶* closed
way_from_progress = then submit (then verify (then close here))

-- Every status has a way to `closed`.
pub way_to_closed : (s : TaskStatus) → s ⟶* closed
way_to_closed closed = here
way_to_closed proposed = then turn_down (then close_rejected here)
way_to_closed accepted = then plan (then start (way_from_progress))
way_to_closed planned = then start way_from_progress
way_to_closed delegated = then pick_up way_from_progress
way_to_closed in_progress = way_from_progress
way_to_closed blocked = then give_up (then close_rejected here)
way_to_closed evidence_submitted = then refuse (then close_rejected here)
way_to_closed verified = then close here
way_to_closed rejected = then close_rejected here
way_to_closed escalated = then overrule (then close_rejected here)
