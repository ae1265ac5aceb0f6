-- ===== src/ExecGraph/Transitions.antt =====
-- src/exec-graph/transitions.ts: the legal edges of the lifecycle and `applyTransition`.
pub mod Edges
pub mod Apply
use atlas_cli.Prelude.{
  String, not, ◌&&◌, Option, some, List, [], ◌∷◌, ◌++◌, is_blank, includes, if◌then◌else◌, ◌==◌,
  string_eq,
}
use atlas_cli.Prelude.Action.{Result, ok, thrown}
use atlas_cli.ExecGraph.Contracts.{
  TaskStatus, proposed, accepted, planned, delegated, in_progress, blocked, evidence_submitted,
  verified, rejected, closed, escalated, status_Eq, Transition, Task, Runtime, transition_schema,
  task_schema,
}

-- The errors that the calls of the ledger throw.
pub data Failure : Type 0 where
  invalid_input readonly_mode unknown_task hand_authority owner_reassign missing_argument : Failure
  illegal_transition unauthorized_transition invalid_transition : Failure

-- `LEGAL_TRANSITIONS`
unfoldable pub legal_transitions : TaskStatus → List TaskStatus
legal_transitions proposed = accepted ∷ rejected ∷ escalated ∷ []
legal_transitions accepted = planned ∷ escalated ∷ []
legal_transitions planned = delegated ∷ in_progress ∷ escalated ∷ []
legal_transitions delegated = in_progress ∷ blocked ∷ escalated ∷ []
legal_transitions in_progress = blocked ∷ evidence_submitted ∷ escalated ∷ []
legal_transitions blocked = in_progress ∷ rejected ∷ escalated ∷ []
legal_transitions evidence_submitted = verified ∷ rejected ∷ escalated ∷ []
legal_transitions verified = closed ∷ escalated ∷ []
legal_transitions rejected = closed ∷ proposed ∷ escalated ∷ []
legal_transitions escalated = accepted ∷ rejected ∷ blocked ∷ in_progress ∷ []
legal_transitions closed = []

-- `ESCALATION_EXIT_ACTORS`
abbrev pub escalation_exit_actors : List String
escalation_exit_actors = "ceo" ∷ "external-cto" ∷ []

pub record TransitionOptions : Type 0 where
  pub actor : String
  pub ts : String
  pub evidence_refs : Option (List String)
  pub note : Option String

abbrev pub new_transition : TaskStatus → TaskStatus → TransitionOptions → Transition
new_transition from to opts = record {
  from = some from;
  to = to;
  ts = opts.ts;
  actor = opts.actor;
  evidence_refs = opts.evidence_refs;
  note = opts.note;
}

-- `{ ...task, status, transitions: [...task.transitions, t] }`
abbrev pub moved : Task → Transition → Task
moved task t = record task { status = t.to; transitions = task.transitions ++ t ∷ [] }

module _ ⦃rt : Runtime⦄ where
  unfoldable pub apply_transition : Task → TaskStatus → TransitionOptions → Result Failure Task
  apply_transition task to opts =
      let t = new_transition task.status to opts in
      if is_blank opts.actor
      then thrown invalid_transition
      else if not (includes (legal_transitions task.status) to)
      then thrown illegal_transition
      else if task.status == escalated && not (includes escalation_exit_actors opts.actor)
      then thrown unauthorized_transition
      else if not (transition_schema t)
      then thrown invalid_transition
      else if not (task_schema (moved task t))
      then thrown invalid_transition
      else ok (moved task t)
