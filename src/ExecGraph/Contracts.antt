-- ===== src/ExecGraph/Contracts.antt =====
-- src/exec-graph/contracts.ts: the data of the goal and task ledger, and the schemas that
-- `safeParse` and `parse` check. A schema is a Boolean test on a record of the right shape.
use atlas_cli.Prelude.{
  ℕ, String, ◌≡◌, Bool, true, false, ◌&&◌, ◌||◌, not, Option, none, some, List, [], ◌∷◌, arith, leb,
  nat_eq, length, every, is_empty, codes, is_present, if◌then◌else◌, Eq, ◌==◌, includes, ℕ_eq, ◌↔◌,
}

pub data TaskStatus : Type 0 where
  proposed accepted planned delegated in_progress blocked : TaskStatus
  evidence_submitted verified rejected closed escalated : TaskStatus

pub data RiskClass : Type 0 where
  low medium high irreversible : RiskClass

pub data SourceKind : Type 0 where
  exec_graph external_cto_brief ceo_chat volaura_work_queue : SourceKind
  operator_tasks supabase_queue telegram_spawner : SourceKind

pub record SourceRef : Type 0 where
  pub kind : SourceKind
  pub ref : String

pub data EvidenceKind : Type 0 where
  commit test_output file url tool_receipt other : EvidenceKind

pub record Evidence : Type 0 where
  pub ref : String
  pub kind : EvidenceKind
  pub note : Option String

pub record Transition : Type 0 where
  pub from : Option TaskStatus
  pub to : TaskStatus
  pub ts : String
  pub actor : String
  pub evidence_refs : Option (List String)
  pub note : Option String

pub data GoalStatus : Type 0 where
  goal_open goal_closed : GoalStatus

pub record Goal : Type 0 where
  pub id : String
  pub title : String
  pub source : SourceRef
  pub status : GoalStatus
  pub created_at : String

pub record Task : Type 0 where
  pub id : String
  pub goal_id : String
  pub title : String
  pub source : SourceRef
  pub owner : String
  pub status : TaskStatus
  pub risk_class : RiskClass
  pub idempotency_key : String
  pub evidence : List Evidence
  pub created_at : String
  pub transitions : List Transition

pub record OwnerReassigned : Type 0 where
  pub task_id : String
  pub from : String
  pub to : String
  pub actor : String
  pub reason : String
  pub ts : String

-- The payloads, one to each `kind` of event.
pub data Payload : Type 0 where
  goal_created : Goal → Payload
  task_created : Task → Payload
  transition : String → Transition → Payload
  evidence_added : String → Evidence → Payload
  owner_reassigned : OwnerReassigned → Payload

-- An event before `appendEvent` gives it its id.
pub record NewLedgerEvent : Type 0 where
  pub ts : String
  pub actor : String
  pub payload : Payload

pub record LedgerEvent : Type 0 where
  pub event_id : String
  pub ts : String
  pub actor : String
  pub payload : Payload

-- `graph.json`
pub record GraphFile : Type 0 where
  pub goals : List Goal
  pub tasks : List Task

-- What comes from outside the repository: zod's `string().datetime()`, and the identifiers that
-- `randomUUID()` draws, in order.
pub record Runtime : Type 0 where
  pub is_datetime : String → Bool
  pub uuid : ℕ → String

status_index : TaskStatus → ℕ
status_index proposed = 0
status_index accepted = 1
status_index planned = 2
status_index delegated = 3
status_index in_progress = 4
status_index blocked = 5
status_index evidence_submitted = 6
status_index verified = 7
status_index rejected = 8
status_index closed = 9
status_index escalated = 10

-- `===` on statuses
unfoldable pub status_eq : TaskStatus → TaskStatus → Bool
unfolding status_index
status_eq a b = nat_eq (status_index a) (status_index b)

pub status_eq_iff : (a b : TaskStatus) → (status_eq a b ≡ true) ↔ (a ≡ b)
unfolding status_eq
status_eq_iff a b = ground arith

instance abbrev pub status_Eq : Eq TaskStatus
status_Eq = record { same = status_eq; same_iff = status_eq_iff }

kind_index : EvidenceKind → ℕ
kind_index commit = 0
kind_index test_output = 1
kind_index file = 2
kind_index url = 3
kind_index tool_receipt = 4
kind_index other = 5

-- `===` on kinds of evidence
unfoldable pub kind_eq : EvidenceKind → EvidenceKind → Bool
unfolding kind_index
kind_eq a b = nat_eq (kind_index a) (kind_index b)

pub kind_eq_iff : (a b : EvidenceKind) → (kind_eq a b ≡ true) ↔ (a ≡ b)
unfolding kind_eq
kind_eq_iff a b = ground arith

instance abbrev pub kind_Eq : Eq EvidenceKind
kind_Eq = record { same = kind_eq; same_iff = kind_eq_iff }

-- The names that template strings print for the kinds of source.
unfoldable pub kind_name : SourceKind → String
kind_name exec_graph = "exec-graph"
kind_name external_cto_brief = "external-cto-brief"
kind_name ceo_chat = "ceo-chat"
kind_name volaura_work_queue = "volaura-work-queue"
kind_name operator_tasks = "operator-tasks"
kind_name supabase_queue = "supabase-queue"
kind_name telegram_spawner = "telegram-spawner"

is_lower_or_digit : ℕ → Bool
is_lower_or_digit c = (leb b'a' c && leb c b'z') || (leb b'0' c && leb c b'9')

is_id_char : ℕ → Bool
unfolding is_lower_or_digit
is_id_char c = is_lower_or_digit c || includes (b'.' ∷ b'_' ∷ b'-' ∷ []) c

-- `[a-z0-9][a-z0-9._-]{1,80}$`
is_id_body : List ℕ → Bool
unfolding is_id_char
is_id_body [] = false
is_id_body (c ∷ rest) =
    is_lower_or_digit c && every is_id_char rest && leb 1 (length rest) && leb (length rest) 80

-- The rest of a text behind a prefix.
abbrev strip_prefix : List ℕ → List ℕ → Option (List ℕ)
strip_prefix [] s = some s
strip_prefix (p ∷ ps) [] = none
strip_prefix (p ∷ ps) (c ∷ s) = if p == c then strip_prefix ps s else none

unfoldable pub is_id : String → String → Bool
unfolding is_id_body
is_id prefix s = elim (strip_prefix (codes prefix) (codes s)) [
  | none ↦ false
  | some body ↦ is_id_body body
]

unfoldable pub goal_id_schema : String → Bool
unfolding is_id
goal_id_schema = is_id "gol_"

unfoldable pub task_id_schema : String → Bool
unfolding is_id
task_id_schema = is_id "tsk_"

-- `z.string().min(1).optional()`
abbrev optional_text : Option String → Bool
optional_text none = true
optional_text (some s) = is_present s

unfoldable pub source_ref_schema : SourceRef → Bool
source_ref_schema s = is_present s.ref

unfoldable pub evidence_schema : Evidence → Bool
evidence_schema e = is_present e.ref && optional_text e.note

-- `z.array(z.string().min(1)).optional()`
abbrev optional_texts : Option (List String) → Bool
optional_texts none = true
optional_texts (some refs) = every is_present refs

-- `evidenceRefs && evidenceRefs.length > 0`
abbrev pub has_refs : Option (List String) → Bool
has_refs none = false
has_refs (some refs) = not (is_empty refs)

-- The two moves that must cite evidence.
abbrev pub needs_refs : TaskStatus → Bool
needs_refs s = s == verified || s == evidence_submitted

-- The two statuses in which a task must hold evidence.
abbrev pub needs_evidence : TaskStatus → Bool
needs_evidence s = s == verified || s == closed

module _ ⦃rt : Runtime⦄ where
  unfoldable pub transition_schema : Transition → Bool
  transition_schema t =
      rt.is_datetime t.ts
      && is_present t.actor
      && optional_texts t.evidence_refs
      && optional_text t.note
      && (not (needs_refs t.to) || has_refs t.evidence_refs)

  unfoldable pub goal_schema : Goal → Bool
  unfolding source_ref_schema
  goal_schema g =
      goal_id_schema g.id
      && is_present g.title
      && source_ref_schema g.source
      && rt.is_datetime g.created_at

  -- the shape of a task, and the rule between its status and its evidence
  unfoldable pub task_schema : Task → Bool
  unfolding source_ref_schema
  task_schema t =
      task_id_schema t.id
      && goal_id_schema t.goal_id
      && is_present t.title
      && source_ref_schema t.source
      && is_present t.owner
      && is_present t.idempotency_key
      && every evidence_schema t.evidence
      && rt.is_datetime t.created_at
      && every transition_schema t.transitions
      && (not (needs_evidence t.status) || not (is_empty t.evidence))

  unfoldable pub payload_schema : Payload → Bool
  payload_schema (goal_created g) = goal_schema g
  payload_schema (task_created t) = task_schema t
  payload_schema (transition id t) = task_id_schema id && transition_schema t
  payload_schema (evidence_added id e) = task_id_schema id && evidence_schema e
  payload_schema (owner_reassigned p) =
      task_id_schema p.task_id
      && is_present p.to
      && is_present p.actor
      && is_present p.reason
      && rt.is_datetime p.ts

  unfoldable pub ledger_event_schema : LedgerEvent → Bool
  unfolding payload_schema
  ledger_event_schema e =
      is_present e.event_id && rt.is_datetime e.ts && is_present e.actor && payload_schema e.payload

  unfoldable pub graph_file_schema : GraphFile → Bool
  graph_file_schema f = every goal_schema f.goals && every task_schema f.tasks
