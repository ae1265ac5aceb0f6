-- ===== src/GoalRunner/Plan.antt =====
-- How src/goal-runner/runner.ts deals with one plan: the calls of src/exec-graph and src/hands, and
-- the attempt with a hand.
use Prim.Native.String.{◌++◌ as ◌⊕◌}
use atlas_cli.Prelude.{
  ◌+◌, String, Bool, true, false, not, Option, none, some, List, [], ◌∷◌, ◌++◌, length, find,
  if◌then◌else◌, ◌==◌, string_eq, ℕ_eq, decimal,
}
use atlas_cli.Prelude.Action.{Result, ok, thrown, pure, or_throw, throw_if, ◌>>=◌, ◌>>◌}
use atlas_cli.ExecGraph.Contracts.{
  Task, TaskStatus, accepted, planned, status_Eq, RiskClass, low, Runtime,
}
use atlas_cli.ExecGraph.Ledger.{World}
use atlas_cli.ExecGraph.Api.{create_task, move_task, list_tasks}
use atlas_cli.ExecGraph.Inputs.{MoveTaskInput, ListTasksFilter}
use atlas_cli.Hands.Contract.{BrowserAction, BrowserActionResult, Receipt, browser_action}
use atlas_cli.Hands.Adapter.{
  HandPlatform, on_graph, assign_hand, submit_receipt, abort_hand_task, verify_and_transition,
}
use atlas_cli.GoalRunner.Budgets.{GoalBudget, save_budget}
use atlas_cli.GoalRunner.Contract.{
  TaskPlan, TaskReport, GoalFailure, not_notified, no_task, driver, GoalPlatform, PlanEnv, GoalAct,
  on_hands, on_dir, task_input, report_of, status_text,
}
pub mod Limits
pub mod Refines

abbrev pub find_existing_filter : String → ListTasksFilter
find_existing_filter goal_id = record { status = none; goal_id = some goal_id; owner = none }

-- `notify(…)` is awaited
abbrev pub awaits : Bool → GoalAct (Unit {0})
awaits done = throw_if (not done) not_notified

abbrev pub move_note : String → TaskStatus → Option String → MoveTaskInput
move_note task_id to note = record {
  task_id = task_id;
  to = to;
  actor = "goal-runner";
  ts = none;
  evidence_refs = none;
  note = note;
}

module _ ⦃rt : Runtime⦄ where
  unfoldable pub find_existing_task_for_plan : String → TaskPlan → World → Option Task
  find_existing_task_for_plan goal_id plan w =
      find (λ t. t.title == plan.task_title) (list_tasks (find_existing_filter goal_id) w)

  unfoldable pub move : String → TaskStatus → Option String → GoalAct Task
  move task_id to note = on_hands (on_graph (move_task (move_note task_id to note)))

  -- `const { task } = createTask(…)`, and the first read of `task.id`
  unfoldable pub create : String → TaskPlan → RiskClass → GoalAct Task
  create goal_id plan risk = do
    made ← on_hands (on_graph (create_task (task_input goal_id plan risk)))
    or_throw made.task no_task

  -- A task for a plan that is not carried out.
  unfoldable pub halt_plan : String → TaskPlan → RiskClass → String → GoalAct Task
  halt_plan goal_id plan risk note = do
    task ← create goal_id plan risk
    move task.id accepted none
    move task.id TaskStatus.escalated (some note)
    pure task

  -- The task that a plan is carried out with: an old one that is not done, or a new one.
  unfoldable pub task_for_plan :
      String → TaskPlan → Option Task → GoalBudget → GoalAct (GoalBudget × Task)
  task_for_plan goal_id plan (some task) b = pure (b, task)
  task_for_plan goal_id plan none b = do
    task ← create goal_id plan low
    let b' = record b { total_tasks_created = b.total_tasks_created + 1 }
    on_dir (λ d. (tt, save_budget b' d))
    move task.id accepted none
    move task.id planned none
    pure (b', task)

module _ ⦃rt : Runtime⦄ ⦃hp : HandPlatform⦄ ⦃gp : GoalPlatform⦄ where
  abbrev pub browser_receipt :
      TaskPlan → Task → List BrowserAction → List BrowserActionResult → Receipt
  browser_receipt plan task actions results = record {
    task_id = task.id;
    hand_id = plan.hand_id;
    submitted_by = plan.hand_id;
    kind = browser_action;
    ref = none;
    command = none;
    expected_substring = none;
    claimed_result =
        "goal-runner: executed "
        ⊕ decimal (length results + 1) (length results)
        ⊕ " browser actions";
    artifacts = none;
    actions = some actions;
    action_results = some results;
  }

  -- The `try` around a browser session, without the `finally`.
  unfoldable pub run_browser :
      PlanEnv → TaskPlan → Task → List BrowserAction → GoalAct (List TaskReport)
  run_browser env plan task actions = do
    results ← or_throw env.results driver
    on_hands (submit_receipt task.id (browser_receipt plan task actions results))
    verdict ← on_hands (verify_and_transition env.disk env.later task.id "goal-runner")
    pure (
        report_of plan task (status_text verdict.final_status) 1 (some verdict.verdict.reason) ∷ [])

  unfoldable pub give_up : TaskPlan → Task → GoalAct (List TaskReport)
  give_up plan task = do
    on_hands (
        abort_hand_task task.id "goal-runner"
          ("hand execution not yet implemented for " ⊕ plan.hand_id))
    pure (report_of plan task "blocked" 1 (some "hand execution not yet implemented") ∷ [])

  -- What the `try` around an attempt has reported, with the error that ends it.
  abbrev pub Attempt : Type 0
  Attempt = List TaskReport × Option GoalFailure

  abbrev pub settled : Bool → Result GoalFailure (List TaskReport) → Attempt
  settled true (ok reports) = (reports, none)
  settled true (thrown e) = ([], some e)
  settled false (ok reports) = (reports, some driver)
  settled false (thrown e) = ([], some driver)

  -- `finally { await session.close(); }`: an error there takes the place of any other
  abbrev pub closing : Bool → GoalAct (List TaskReport) → GoalAct Attempt
  closing closes m w = let (r, w') = m w in (ok (settled closes r), w')

  unfoldable pub execute : PlanEnv → Option (List BrowserAction) → TaskPlan → Task → GoalAct Attempt
  execute env actions plan task = do
    on_hands (assign_hand task.id plan.hand_id "goal-runner" false)
    elim (if plan.hand_id == "browser-foreground" then actions else none) [
      | none ↦ closing true (give_up plan task)
      | some list ↦ closing env.closes (run_browser env plan task list)
    ]

  -- the `catch`, which adds a report
  abbrev pub caught : TaskPlan → Task → Result GoalFailure Attempt → List TaskReport
  caught plan task (ok (reports, none)) = reports
  caught plan task (ok (reports, some e)) =
      reports ++ report_of plan task "failed" 1 (some (gp.error_text e)) ∷ []
  caught plan task (thrown e) = report_of plan task "failed" 1 (some (gp.error_text e)) ∷ []

  unfoldable pub attempt :
      PlanEnv → Option (List BrowserAction) → TaskPlan → Task → GoalAct (List TaskReport)
  attempt env actions plan task w =
      let (r, w') = execute env actions plan task w in (ok (caught plan task r), w')
