-- ===== src/GoalRunner/Contract.antt =====
-- The types of src/goal-runner/types.ts, and what src/goal-runner/runner.ts reads of a task or a
-- URL. What the process finds outside of the graph and the budgets while it deals with a plan is
-- the plan's `PlanEnv`.
use text.Mathlib.Text.{starts_with}
use atlas_cli.Prelude.{
  ℕ, String, Bool, true, false, not, ◌&&◌, ◌||◌, Option, none, some, List, [], ◌∷◌, any,
  if◌then◌else◌, includes, ◌==◌, string_eq, ℕ_eq, is_present, last,
}
use atlas_cli.Prelude.Regex.{units}
use atlas_cli.Prelude.Action.{Result, ok, thrown, Action}
use atlas_cli.ExecGraph.Contracts.{
  Task, TaskStatus, proposed, accepted, planned, delegated, in_progress, blocked,
  evidence_submitted, verified, rejected, closed, status_Eq, RiskClass, SourceRef, exec_graph,
}
use atlas_cli.ExecGraph.Ledger.{World}
use atlas_cli.ExecGraph.Inputs.{CreateTaskInput}
use atlas_cli.Hands.Contract.{BrowserAction, navigate, BrowserActionResult}
use atlas_cli.Hands.Verifier.{Disk}
use atlas_cli.Hands.Adapter.{HandFailure, HandAct}
use atlas_cli.GoalRunner.Effects.{TypedEffect}
use atlas_cli.GoalRunner.Budgets.{GoalBudget, BudgetDir, BudgetReason, attempts_of}

pub record TaskPlan : Type 0 where
  pub task_title : String
  pub hand_id : String
  pub effects : List TypedEffect
  pub actions : List String
  pub acceptance_criteria : String
  pub proof_spec : String

pub record TaskReport : Type 0 where
  pub task_id : String
  pub title : String
  pub hand_id : String
  pub final_status : String
  pub attempts : ℕ
  pub verifier_reason : Option String

pub data GoalStatus : Type 0 where
  completed partial failed escalated budget_exceeded : GoalStatus

pub record GoalReport : Type 0 where
  pub goal_id : String
  pub objective : String
  pub status : GoalStatus
  pub tasks_total : ℕ
  pub tasks_verified : ℕ
  pub tasks_failed : ℕ
  pub tasks_escalated : ℕ
  pub wall_time_ms : ℕ
  pub details : List TaskReport

-- `Partial<GoalRunnerConfig>`
pub record PartialConfig : Type 0 where
  pub max_attempts_per_task : Option ℕ
  pub max_total_attempts : Option ℕ
  pub max_total_tasks : Option ℕ
  pub max_decomposition_rounds : Option ℕ
  pub max_graph_depth : Option ℕ
  pub max_wall_time_ms : Option ℕ

pub record GoalRunnerInput : Type 0 where
  pub objective : String
  pub config : PartialConfig
  pub hand_id : Option String
  pub task_plans : Option (List TaskPlan)
  pub browser_actions : Option (List BrowserAction)
  pub resume_goal_id : Option String

pub data GoalFailure : Type 0 where
  call : HandFailure → GoalFailure
  not_notified no_task driver : GoalFailure

-- SHA-256 of a task, the plan's JSON and 'initial'; the host of a URL, none where `new URL` throws;
-- and the texts of reasons and of errors.
pub record GoalPlatform : Type 0 where
  pub fingerprint : String → TaskPlan → String
  pub hostname : String → Option String
  pub budget_text : BudgetReason → String
  pub error_text : GoalFailure → String

-- Whether control is paused, the time, whether the notification can be sent, what the browser's
-- actions gave (none: it was not launched, or threw) and whether it could be closed, and the disk
-- at the two checks of a receipt.
pub record PlanEnv : Type 0 where
  pub paused : Bool
  pub now : ℕ
  pub notifies : Bool
  pub results : Option (List BrowserActionResult)
  pub closes : Bool
  pub disk : Disk
  pub later : Disk

pub record GoalWorld : Type 0 where
  pub graph : World
  pub dir : BudgetDir

abbrev pub GoalAct : Type 0 → Type 0
GoalAct A = Action GoalWorld GoalFailure A

-- A call of the hands, whose errors pass through.
abbrev pub lifted :
    {A : Type 0} → Result HandFailure A × World → GoalWorld → Result GoalFailure A × GoalWorld
lifted (ok a, v) w = (ok a, record w { graph = v })
lifted (thrown e, v) w = (thrown (call e), record w { graph = v })

unfoldable pub on_hands : {A : Type 0} → HandAct A → GoalAct A
on_hands m w = lifted (m w.graph) w

-- A call of src/goal-runner/budgets.ts.
unfoldable pub on_dir : {A : Type 0} → (BudgetDir → A × BudgetDir) → GoalAct A
on_dir f w = let (a, d) = f w.dir in (ok a, record w { dir = d })

abbrev pub runner_source : SourceRef
runner_source = record { kind = exec_graph; ref = "goal-runner" }

abbrev pub task_input : String → TaskPlan → RiskClass → CreateTaskInput
task_input goal_id plan risk = record {
  goal_id = goal_id;
  title = plan.task_title;
  owner = none;
  risk_class = some risk;
  source = some runner_source;
  idempotency_key = none;
  actor = some "goal-runner";
  ts = none;
}

-- `TERMINAL_TASK_STATUSES`
abbrev pub terminal_task_statuses : List TaskStatus
terminal_task_statuses = verified ∷ rejected ∷ TaskStatus.escalated ∷ closed ∷ blocked ∷ []

abbrev pub is_terminal : Task → Bool
is_terminal t = includes terminal_task_statuses t.status

abbrev pub task_status_to_final_status : TaskStatus → String
task_status_to_final_status verified = "verified"
task_status_to_final_status rejected = "rejected"
task_status_to_final_status TaskStatus.escalated = "escalated"
task_status_to_final_status blocked = "blocked"
task_status_to_final_status closed = "verified"
task_status_to_final_status _ = "failed"

-- the text of a status
abbrev pub status_text : TaskStatus → String
status_text proposed = "proposed"
status_text accepted = "accepted"
status_text planned = "planned"
status_text delegated = "delegated"
status_text in_progress = "in-progress"
status_text blocked = "blocked"
status_text evidence_submitted = "evidence-submitted"
status_text verified = "verified"
status_text rejected = "rejected"
status_text closed = "closed"
status_text TaskStatus.escalated = "escalated"

abbrev pub report_of : TaskPlan → Task → String → ℕ → Option String → TaskReport
report_of plan task final_status attempts reason = record {
  task_id = task.id;
  title = plan.task_title;
  hand_id = plan.hand_id;
  final_status = final_status;
  attempts = attempts;
  verifier_reason = reason;
}

abbrev pub note_of_last : Task → Option String
note_of_last t = elim (last t.transitions) [ none ↦ none | some x ↦ x.note ]

unfoldable pub resume_task_report : Task → TaskPlan → GoalBudget → TaskReport
resume_task_report task plan b =
    report_of plan task (task_status_to_final_status task.status) (attempts_of b task.id)
      (note_of_last task)

abbrev same : List ℕ → List ℕ → Bool
same [] [] = true
same (a ∷ as') (b ∷ bs) = a == b && same as' bs
same _ _ = false

abbrev ends_with : List ℕ → List ℕ → Bool
ends_with suffix [] = same suffix []
ends_with suffix (c ∷ cs) = same suffix (c ∷ cs) || ends_with suffix cs

module _ ⦃gp : GoalPlatform⦄ where
  -- `isExternalTarget`
  unfoldable pub is_external_target : String → Bool
  is_external_target url =
      if not (is_present url)
      then false
      else if starts_with url "file://"
      then false
      else elim (gp.hostname url) [
        | none ↦ true
        | some host ↦ not (
            includes ("localhost" ∷ "127.0.0.1" ∷ "::1" ∷ "[::1]" ∷ []) host
            || ends_with (units ".local") (units host)
            || ends_with (units ".localhost") (units host))
      ]

  -- a `navigate` to an external target
  abbrev pub goes_out : BrowserAction → Bool
  goes_out (navigate url) = is_external_target url
  goes_out _ = false

  -- `input.browserActions && input.browserActions.find(…)`
  abbrev pub has_external : Option (List BrowserAction) → Bool
  has_external none = false
  has_external (some actions) = any goes_out actions
