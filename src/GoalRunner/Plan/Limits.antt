-- ===== src/GoalRunner/Plan/Limits.antt =====
-- What dealing with one plan, in src/goal-runner/runner.ts, does to the budget files.
use atlas_cli.Prelude.{ℕ, ◌+◌, ◌≤◌, String, Bool, true, false, Option, none, some, List}
use atlas_cli.Prelude.Action.{Result, ok, thrown, throw_if}
use atlas_cli.ExecGraph.Contracts.{Task, TaskStatus, RiskClass, low, Runtime}
use atlas_cli.ExecGraph.Ledger.{World}
use atlas_cli.ExecGraph.Refinement.Ensures.{
  After, Ensures, Ensures-pure, Ensures-or_throw, Ensures-bind, After-state,
}
use atlas_cli.Hands.Contract.{BrowserAction}
use atlas_cli.Hands.Adapter.{HandFailure, HandPlatform, HandAct}
use atlas_cli.GoalRunner.Budgets.{GoalRunnerConfig, GoalBudget, save_budget}
use atlas_cli.GoalRunner.Budgets.Attempts.{Fits, IsWithin, save-IsWithin}
use atlas_cli.GoalRunner.Contract.{
  TaskPlan, TaskReport, GoalPlatform, PlanEnv, GoalWorld, GoalAct, lifted, on_hands, on_dir,
}
use atlas_cli.GoalRunner.Plan.{
  awaits, move, create, halt_plan, task_for_plan, run_browser, give_up, execute, closing, attempt,
}

module _ (c : GoalRunnerConfig) (total each : ℕ) where
  abbrev pub Dir : GoalWorld → Type 0
  Dir w = IsWithin total each w.dir

  -- A call that leaves the budget files within the numbers.
  abbrev pub DirKeeps : {A : Type 0} → GoalAct A → Type 0
  DirKeeps m = Ensures Dir (λ a w. Dir w) Dir m

  -- And one that returns a budget within them too.
  abbrev pub BudgetKeeps : {A : Type 0} → GoalAct (GoalBudget × A) → Type 0
  BudgetKeeps m = Ensures Dir (λ x w. Fits c total each x.0 × Dir w) Dir m

  lifted-After :
      {A : Type 0} (x : Result HandFailure A × World) (w : GoalWorld)
      → Dir w
      → After (λ a w. Dir w) Dir (lifted x w)
  lifted-After (ok a, v) w h = h
  lifted-After (thrown e, v) w h = h

  pub on_hands-Keeps : {A : Type 0} (m : HandAct A) → DirKeeps (on_hands m)
  unfolding on_hands
  on_hands-Keeps m = record { at = λ w h. lifted-After (m w.graph) w h }

  pub awaits-Keeps : (b : Bool) → DirKeeps (awaits b)
  unfolding throw_if
  awaits-Keeps true = record { at = λ w h. h }
  awaits-Keeps false = record { at = λ w h. h }

  save-Keeps :
      (b : GoalBudget) → Fits c total each b → DirKeeps (on_dir (λ d. (tt, save_budget b d)))
  unfolding on_dir
  save-Keeps b f = record { at = λ w h. save-IsWithin total each b w.dir h (f.all, f.one) }

  module _ ⦃rt : Runtime⦄ where
    pub move-Keeps :
        (task_id : String) (to : TaskStatus) (text : Option String)
        → DirKeeps (move task_id to text)
    unfolding move
    move-Keeps task_id to text = on_hands-Keeps _

    create-Keeps :
        (goal_id : String) (plan : TaskPlan) (risk : RiskClass)
        → DirKeeps (create goal_id plan risk)
    unfolding create
    create-Keeps goal_id plan risk =
        Ensures-bind _ _ (on_hands-Keeps _)
          λ made. Ensures-or_throw made.task _ (λ a e w h. h) (λ w h. h)

    pub halt_plan-Keeps :
        (goal_id : String) (plan : TaskPlan) (risk : RiskClass) (note : String)
        → DirKeeps (halt_plan goal_id plan risk note)
    unfolding halt_plan
    halt_plan-Keeps goal_id plan risk note =
        Ensures-bind _ _ (create-Keeps goal_id plan risk) λ task.
          Ensures-bind _ _ (move-Keeps task.id _ _)
            λ t. Ensures-bind _ _ (move-Keeps task.id _ _) λ u. Ensures-pure _ (λ w h. h)

    pub task_for_plan-Keeps :
        (goal_id : String) (plan : TaskPlan) (o : Option Task) (b : GoalBudget)
        → Fits c total each b
        → BudgetKeeps (task_for_plan goal_id plan o b)
    unfolding task_for_plan
    task_for_plan-Keeps goal_id plan (some task) b f = Ensures-pure _ (λ w h. (f, h))
    task_for_plan-Keeps goal_id plan none b f =
        let f' : Fits c total each (record b { total_tasks_created = b.total_tasks_created + 1 }) =
          record { config = f.config; all = f.all; one = f.one } in
        Ensures-bind _ _ (create-Keeps goal_id plan low) λ task.
          Ensures-bind _ _ (save-Keeps _ f') λ d.
            Ensures-bind _ _ (move-Keeps task.id _ _)
              λ t. Ensures-bind _ _ (move-Keeps task.id _ _) λ u. Ensures-pure _ (λ w h. (f', h))

  module _ (below_total : c.max_total_attempts ≤ total)
      (below_each : c.max_attempts_per_task ≤ each) ⦃rt : Runtime⦄ ⦃hp : HandPlatform⦄
      ⦃gp : GoalPlatform⦄ where
    run_browser-Keeps :
        (env : PlanEnv) (plan : TaskPlan) (task : Task) (actions : List BrowserAction)
        → DirKeeps (run_browser env plan task actions)
    unfolding run_browser
    run_browser-Keeps env plan task actions =
        Ensures-bind _ _ (Ensures-or_throw env.results _ (λ a e w h. h) (λ w h. h)) λ results.
          Ensures-bind _ _ (on_hands-Keeps _)
            λ t. Ensures-bind _ _ (on_hands-Keeps _) λ v. Ensures-pure _ (λ w h. h)

    give_up-Keeps : (plan : TaskPlan) (task : Task) → DirKeeps (give_up plan task)
    unfolding give_up
    give_up-Keeps plan task = Ensures-bind _ _ (on_hands-Keeps _) λ t. Ensures-pure _ (λ w h. h)

    closing-Keeps :
        (closes : Bool) (m : GoalAct (List TaskReport)) → DirKeeps m → DirKeeps (closing closes m)
    closing-Keeps closes m k = record { at = λ w h. After-state _ (m w) (k.at w h) }

    session-Keeps :
        (env : PlanEnv) (plan : TaskPlan) (task : Task) (o : Option (List BrowserAction))
        → DirKeeps (elim o [
          | none ↦ closing true (give_up plan task)
          | some list ↦ closing env.closes (run_browser env plan task list)
        ])
    session-Keeps env plan task none = closing-Keeps true _ (give_up-Keeps plan task)
    session-Keeps env plan task (some list) =
        closing-Keeps env.closes _ (run_browser-Keeps env plan task list)

    execute-Keeps :
        (env : PlanEnv) (actions : Option (List BrowserAction)) (plan : TaskPlan) (task : Task)
        → DirKeeps (execute env actions plan task)
    unfolding execute
    execute-Keeps env actions plan task =
        Ensures-bind _ _ (on_hands-Keeps _) λ t. session-Keeps env plan task _

    pub attempt-Keeps :
        (env : PlanEnv) (actions : Option (List BrowserAction)) (plan : TaskPlan) (task : Task)
        → DirKeeps (attempt env actions plan task)
    unfolding attempt
    attempt-Keeps env actions plan task = record {
      at = λ w h.
          After-state _ (execute env actions plan task w)
            ((execute-Keeps env actions plan task).at w h);
    }
