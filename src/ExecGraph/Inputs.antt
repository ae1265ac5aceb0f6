-- ===== src/ExecGraph/Inputs.antt =====
-- src/exec-graph/api.ts: what its operations are given and give back, and what they read of it.
use Prim.Native.String.{◌++◌ as ◌⊕◌}
use atlas_cli.Prelude.{
  ℕ, ◌+◌, String, Bool, true, ◌&&◌, Option, none, some, List, [], ◌∷◌, is_present, if◌then◌else◌,
  ◌==◌, string_eq,
}
use atlas_cli.ExecGraph.Contracts.{
  TaskStatus, proposed, accepted, planned, delegated, in_progress, blocked, evidence_submitted,
  verified, rejected, closed, escalated, status_Eq, RiskClass, SourceKind, exec_graph, SourceRef,
  kind_name, Evidence, other, Task, Payload, NewLedgerEvent,
}

pub record CreateGoalInput : Type 0 where
  pub title : String
  pub source : Option SourceRef
  pub actor : Option String
  pub ts : Option String
  pub id : Option String

pub record CreateTaskInput : Type 0 where
  pub goal_id : String
  pub title : String
  pub owner : Option String
  pub risk_class : Option RiskClass
  pub source : Option SourceRef
  pub idempotency_key : Option String
  pub actor : Option String
  pub ts : Option String

pub record CreateTaskResult : Type 0 where
  pub task : Option Task
  pub created : Bool

pub record ImportTaskInput : Type 0 where
  pub goal_id : String
  pub title : String
  pub source_kind : SourceKind
  pub source_ref : String
  pub owner : Option String
  pub risk_class : Option RiskClass
  pub actor : Option String
  pub ts : Option String

pub record MoveTaskInput : Type 0 where
  pub task_id : String
  pub to : TaskStatus
  pub actor : String
  pub ts : Option String
  pub evidence_refs : Option (List String)
  pub note : Option String

pub record ReassignOwnerOptions : Type 0 where
  pub actor : String
  pub reason : String
  pub ts : Option String

pub record AddEvidenceInput : Type 0 where
  pub task_id : String
  pub evidence : Evidence
  pub actor : Option String
  pub ts : Option String

pub record ListTasksFilter : Type 0 where
  pub status : Option TaskStatus
  pub goal_id : Option String
  pub owner : Option String

abbrev pub cli_source : SourceRef
cli_source = record { kind = exec_graph; ref = "cli" }

-- `deriveIdempotencyKey`
unfoldable pub derive_idempotency_key : SourceRef → String
derive_idempotency_key s = kind_name s.kind ⊕ ":" ⊕ s.ref

-- `if (input.id)`: an empty text counts as none
abbrev pub truthy : Option String → Option String
truthy none = none
truthy (some s) = if is_present s then some s else none

abbrev pub refs_of : Option (List String) → List String
refs_of none = []
refs_of (some refs) = refs

abbrev pub ref_evidence : String → Evidence
ref_evidence ref = record { ref = ref; kind = other; note = none }

abbrev pub event_of : String → String → Payload → NewLedgerEvent
event_of ts actor payload = record { ts = ts; actor = actor; payload = payload }

-- a field of the filter that is left out fits every task
abbrev fits : {A : Type 0} → (A → Bool) → Option A → Bool
fits test none = true
fits test (some a) = test a

unfoldable pub matches : ListTasksFilter → Task → Bool
matches f t =
    fits (λ s. t.status == s) f.status
    && fits (λ g. t.goal_id == g) f.goal_id
    && fits (λ o. t.owner == o) f.owner

-- `TASK_STATUSES`
abbrev pub task_statuses : List TaskStatus
task_statuses =
    proposed ∷ accepted ∷ planned ∷ delegated ∷ in_progress ∷ blocked ∷ evidence_submitted
    ∷ verified ∷ rejected ∷ closed ∷ escalated ∷ []

-- `WAITING_STATUSES`
abbrev pub waiting_statuses : List TaskStatus
waiting_statuses = escalated ∷ blocked ∷ evidence_submitted ∷ []

pub record StatusSummary : Type 0 where
  pub counts : List (TaskStatus × ℕ)
  pub waiting : List Task

-- `counts[t.status] += 1`
abbrev bump : List (TaskStatus × ℕ) → TaskStatus → List (TaskStatus × ℕ)
bump [] s = []
bump ((r, n) ∷ counts) s = (if r == s then (r, n + 1) else (r, n)) ∷ bump counts s

unfoldable pub count_tasks : List (TaskStatus × ℕ) → List Task → List (TaskStatus × ℕ)
count_tasks counts [] = counts
count_tasks counts (t ∷ ts) = count_tasks (bump counts t.status) ts
