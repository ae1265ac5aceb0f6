-- ===== src/ExecGraph/Spec.antt =====
-- What the ledger promises: a graph changes only by these steps. The abstract machine behind
-- src/exec-graph/api.ts and src/exec-graph/verifier-port.ts, with no files and no identifiers
-- drawn.
pub mod Preserves
pub mod Origin
pub mod Authority
pub mod History
pub mod Keys
pub mod Privileges
use atlas_cli.Prelude.{String, ◌≡◌, ◌≢◌, ◌⊎◌, true, false, none, some, [], ◌∷◌}
use atlas_cli.Prelude.Dict.{get}
use atlas_cli.ExecGraph.Contracts.{
  TaskStatus, proposed, verified, rejected, escalated, Evidence, Transition, Goal, Task,
  OwnerReassigned, Payload, goal_created, task_created, transition, evidence_added,
  owner_reassigned, Runtime, transition_schema, goal_schema, task_schema, evidence_schema,
}
use atlas_cli.ExecGraph.Transitions.{moved}
use atlas_cli.ExecGraph.Transitions.Edges.{◌⟶◌}
use atlas_cli.ExecGraph.Ledger.{GraphSnapshot, find_by_key, apply_payload}
use atlas_cli.ExecGraph.Api.{is_hand_owner}

-- Who writes: a caller of the public surface, or the verifier through its port.
pub data Role : Type 0 where
  caller verifier : Role

-- Only the verifier moves a task to `verified` or `rejected`.
abbrev pub MayMove : Role → TaskStatus → Type 0
MayMove caller to = (to ≢ verified) × (to ≢ rejected)
MayMove verifier to = Unit

-- Only the verifier gives a task to a hand.
abbrev pub MayOwn : Role → String → Type 0
MayOwn caller owner = is_hand_owner owner ≡ false
MayOwn verifier owner = Unit

module _ ⦃rt : Runtime⦄ where
  -- A move of a task, recorded as a transition.
  pub record IsMove (role : Role) (task : Task) (t : Transition) : Type 0 where
    pub leaves : t.from ≡ some task.status
    pub edge : task.status ⟶ t.to
    pub exit : task.status ≡ escalated → (t.actor ≡ "ceo") ⊎ (t.actor ≡ "external-cto")
    pub authority : MayMove role t.to
    pub entry : transition_schema t ≡ true
    pub result : task_schema (moved task t) ≡ true

  -- A task as it is created.
  pub record IsNew (t : Task) : Type 0 where
    pub status : t.status ≡ proposed
    pub owner : is_hand_owner t.owner ≡ false
    pub evidence : t.evidence ≡ []
    pub history :
        (first : Transition) × (t.transitions ≡ first ∷ [])
        × (first.from ≡ none)
        × (first.to ≡ proposed)

  -- One step of the graph.
  pub data Change (role : Role) (g : GraphSnapshot) : Payload → Type 0 where
    add_goal :
        (a : Goal) → goal_schema a ≡ true → get g.goals a.id ≡ none → Change role g (goal_created a)
    add_task :
        (t : Task)
        → task_schema t ≡ true
        → IsNew t
        → find_by_key g t.idempotency_key ≡ none
        → Change role g (task_created t)
    move :
        (id : String) (task : Task) (t : Transition)
        → get g.tasks id ≡ some task
        → IsMove role task t
        → Change role g (transition id t)
    attach :
        (id : String) (task : Task) (e : Evidence)
        → get g.tasks id ≡ some task
        → evidence_schema e ≡ true
        → Change role g (evidence_added id e)
    reassign :
        (p : OwnerReassigned) (task : Task)
        → get g.tasks p.task_id ≡ some task
        → task_schema (record task { owner = p.to }) ≡ true
        → MayOwn role p.to
        → Change role g (owner_reassigned p)

  -- Any number of steps.
  pub data Changes (role : Role) (g : GraphSnapshot) : GraphSnapshot → Type 0 where
    here : Changes role g g
    next :
        {h : GraphSnapshot} (p : Payload)
        → Changes role g h
        → Change role h p
        → Changes role g (apply_payload h p)
