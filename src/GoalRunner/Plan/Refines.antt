-- ===== src/GoalRunner/Plan/Refines.antt =====
-- What dealing with one plan, in src/goal-runner/runner.ts, does to the graph.
use atlas_cli.Prelude.{String, Bool, true, false, Option, none, some, List}
use atlas_cli.Prelude.Action.{Result, ok, thrown, throw_if}
use atlas_cli.ExecGraph.Contracts.{Task, TaskStatus, RiskClass, low, Runtime}
use atlas_cli.ExecGraph.Ledger.{World, GraphSnapshot, read_graph}
use atlas_cli.ExecGraph.Spec.{Role, caller, verifier, Changes, here}
use atlas_cli.ExecGraph.Spec.Privileges.{Changes-verifier, Changes-trans}
use atlas_cli.ExecGraph.Refinement.Ensures.{
  After, Ensures, Ensures-pure, Ensures-or_throw, Ensures-bind, After-state,
}
use atlas_cli.ExecGraph.Refinement.Appends.{Reached}
use atlas_cli.ExecGraph.Refinement.Creates.{create_task-Keeps}
use atlas_cli.ExecGraph.Refinement.Moves.{move_task-Keeps}
use atlas_cli.Hands.Contract.{BrowserAction}
use atlas_cli.Hands.Adapter.{HandFailure, HandPlatform, HandAct}
use atlas_cli.Hands.Receipts.{
  HandKeeps, on_graph-Keeps, by_verifier, submit_receipt-Keeps, abort_hand_task-Keeps,
  assign_hand-Keeps, verify_and_transition-Keeps,
}
use atlas_cli.GoalRunner.Budgets.{GoalBudget, BudgetDir}
use atlas_cli.GoalRunner.Contract.{
  TaskPlan, TaskReport, GoalFailure, GoalPlatform, PlanEnv, GoalWorld, GoalAct, lifted, on_hands,
  on_dir,
}
use atlas_cli.GoalRunner.Plan.{
  awaits, move, create, halt_plan, task_for_plan, run_browser, give_up, execute, closing, attempt,
}
use atlas_cli.GoalRunner.Runner.{refuse_plan}

module _ ⦃rt : Runtime⦄ (role : Role) (start : GraphSnapshot) where
  abbrev pub At : GoalWorld → Type 0
  At w = Reached role start w.graph

  abbrev pub GoalKeeps : {A : Type 0} → GoalAct A → Type 0
  GoalKeeps m = Ensures At (λ a w. At w) At m

  lifted-After :
      {A : Type 0} (x : Result HandFailure A × World) (w : GoalWorld)
      → After (λ a v. Reached role start v) (Reached role start) x
      → After (λ a w. At w) At (lifted x w)
  lifted-After (ok a, v) w h = h
  lifted-After (thrown e, v) w h = h

  pub on_hands-Keeps :
      {A : Type 0} (m : HandAct A) → HandKeeps role start m → GoalKeeps (on_hands m)
  unfolding on_hands
  on_hands-Keeps m k = record { at = λ w h. lifted-After (m w.graph) w (k.at w.graph h) }

  pub on_dir-Keeps : {A : Type 0} (f : BudgetDir → A × BudgetDir) → GoalKeeps (on_dir f)
  unfolding on_dir
  on_dir-Keeps f = record { at = λ w h. h }

  pub Keeps-awaits : (b : Bool) → GoalKeeps (awaits b)
  unfolding throw_if
  Keeps-awaits true = record { at = λ w h. h }
  Keeps-awaits false = record { at = λ w h. h }

module _ ⦃rt : Runtime⦄ (start : GraphSnapshot) where
  pub move-Keeps :
      (task_id : String) (to : TaskStatus) (text : Option String)
      → GoalKeeps caller start (move task_id to text)
  unfolding move
  move-Keeps task_id to text =
      on_hands-Keeps caller start _ (on_graph-Keeps caller start _ (move_task-Keeps start _))

  create-Keeps :
      (goal_id : String) (plan : TaskPlan) (risk : RiskClass)
      → GoalKeeps caller start (create goal_id plan risk)
  unfolding create
  create-Keeps goal_id plan risk =
      Ensures-bind _ _
        (on_hands-Keeps caller start _
          (on_graph-Keeps caller start _ (create_task-Keeps caller start _)))
        λ made. Ensures-or_throw made.task _ (λ a e w h. h) (λ w h. h)

  halt_plan-Keeps :
      (goal_id : String) (plan : TaskPlan) (risk : RiskClass) (note : String)
      → GoalKeeps caller start (halt_plan goal_id plan risk note)
  unfolding halt_plan
  halt_plan-Keeps goal_id plan risk note = Ensures-bind _ _ (create-Keeps goal_id plan risk) λ task.
      Ensures-bind _ _ (move-Keeps task.id _ _)
        λ t. Ensures-bind _ _ (move-Keeps task.id _ _) λ u. Ensures-pure _ (λ w h. h)

  pub task_for_plan-Keeps :
      (goal_id : String) (plan : TaskPlan) (o : Option Task) (b : GoalBudget)
      → GoalKeeps caller start (task_for_plan goal_id plan o b)
  unfolding task_for_plan
  task_for_plan-Keeps goal_id plan (some task) b = Ensures-pure _ (λ w h. h)
  task_for_plan-Keeps goal_id plan none b = Ensures-bind _ _ (create-Keeps goal_id plan low) λ task.
      Ensures-bind _ _ (on_dir-Keeps caller start _) λ d.
        Ensures-bind _ _ (move-Keeps task.id _ _)
          λ t. Ensures-bind _ _ (move-Keeps task.id _ _) λ u. Ensures-pure _ (λ w h. h)

  pub refuse_plan-Keeps :
      (goal_id : String) (plan : TaskPlan) (b : GoalBudget) (risk : RiskClass) (note : String)
      (notified : Bool) (status : String) (reason : Option String)
      → ⦃gp : GoalPlatform⦄ ⦃hp : HandPlatform⦄
      → GoalKeeps caller start (refuse_plan goal_id plan b risk note notified status reason)
  unfolding refuse_plan
  refuse_plan-Keeps goal_id plan b risk note notified status reason =
      Ensures-bind _ _ (halt_plan-Keeps goal_id plan risk note)
        λ task. Ensures-bind _ _ (Keeps-awaits caller start notified) λ u. Ensures-pure _ (λ w h. h)

module _ ⦃rt : Runtime⦄ ⦃hp : HandPlatform⦄ ⦃gp : GoalPlatform⦄ (start : GraphSnapshot) where
  raised :
      {A : Type 0} (middle : GraphSnapshot) (x : Result GoalFailure A × GoalWorld)
      → Changes verifier start middle
      → After (λ a w. At caller middle w) (At caller middle) x
      → After (λ a w. At verifier start w) (At verifier start) x
  raised middle (ok a, w) c h = record {
    healthy = h.healthy;
    reached = Changes-trans verifier c (Changes-verifier h.reached);
  }
  raised middle (thrown e, w) c h = record {
    healthy = h.healthy;
    reached = Changes-trans verifier c (Changes-verifier h.reached);
  }

  -- What a caller may do, the verifier may.
  pub upgrade :
      {A : Type 0} (m : GoalAct A)
      → ((g : GraphSnapshot) → GoalKeeps caller g m)
      → GoalKeeps verifier start m
  upgrade m k = record {
    at = λ w h.
        let own : Reached caller (read_graph w.graph) w.graph = record {
          healthy = h.healthy;
          reached = here;
        } in
        raised (read_graph w.graph) (m w) h.reached ((k (read_graph w.graph)).at w own);
  }

  run_browser-Keeps :
      (env : PlanEnv) (plan : TaskPlan) (task : Task) (actions : List BrowserAction)
      → GoalKeeps verifier start (run_browser env plan task actions)
  unfolding run_browser
  run_browser-Keeps env plan task actions =
      Ensures-bind _ _ (Ensures-or_throw env.results _ (λ a e w h. h) (λ w h. h)) λ results.
        Ensures-bind _ _
          (on_hands-Keeps verifier start _
            (by_verifier _ (λ g. submit_receipt-Keeps g task.id _) start))
          λ t.
            Ensures-bind _ _
              (on_hands-Keeps verifier start _ (verify_and_transition-Keeps start _ _ _ _))
              λ v. Ensures-pure _ (λ w h. h)

  give_up-Keeps : (plan : TaskPlan) (task : Task) → GoalKeeps verifier start (give_up plan task)
  unfolding give_up
  give_up-Keeps plan task =
      Ensures-bind _ _
        (on_hands-Keeps verifier start _ (by_verifier _ (λ g. abort_hand_task-Keeps g _ _ _) start))
        λ t. Ensures-pure _ (λ w h. h)

  closing-Keeps :
      (closes : Bool) (m : GoalAct (List TaskReport))
      → GoalKeeps verifier start m
      → GoalKeeps verifier start (closing closes m)
  closing-Keeps closes m k = record { at = λ w h. After-state _ (m w) (k.at w h) }

  session-Keeps :
      (env : PlanEnv) (plan : TaskPlan) (task : Task) (o : Option (List BrowserAction))
      → GoalKeeps verifier start (elim o [
        | none ↦ closing true (give_up plan task)
        | some list ↦ closing env.closes (run_browser env plan task list)
      ])
  session-Keeps env plan task none = closing-Keeps true _ (give_up-Keeps plan task)
  session-Keeps env plan task (some list) =
      closing-Keeps env.closes _ (run_browser-Keeps env plan task list)

  execute-Keeps :
      (env : PlanEnv) (actions : Option (List BrowserAction)) (plan : TaskPlan) (task : Task)
      → GoalKeeps verifier start (execute env actions plan task)
  unfolding execute
  execute-Keeps env actions plan task =
      Ensures-bind _ _ (on_hands-Keeps verifier start _ (assign_hand-Keeps start _ _ _ _))
        λ t. session-Keeps env plan task _

  pub attempt-Keeps :
      (env : PlanEnv) (actions : Option (List BrowserAction)) (plan : TaskPlan) (task : Task)
      → GoalKeeps verifier start (attempt env actions plan task)
  unfolding attempt
  attempt-Keeps env actions plan task = record {
    at = λ w h.
        After-state _ (execute env actions plan task w)
          ((execute-Keeps env actions plan task).at w h);
  }
