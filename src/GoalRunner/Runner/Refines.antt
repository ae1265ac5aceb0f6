-- ===== src/GoalRunner/Runner/Refines.antt =====
-- What a run of src/goal-runner/runner.ts does to the graph.
use atlas_cli.Prelude.{ℕ, ◌+◌, String, Bool, true, Option, none, some, List, [], ◌∷◌, if◌then◌else◌}
use atlas_cli.Prelude.Action.{Result, ok, thrown, pure}
use atlas_cli.ExecGraph.Contracts.{Task, RiskClass, low, irreversible, Runtime}
use atlas_cli.ExecGraph.Ledger.{GraphSnapshot, read_graph}
use atlas_cli.ExecGraph.Ledger.Replay.{IsHealthy}
use atlas_cli.ExecGraph.Spec.{verifier, Changes, here}
use atlas_cli.ExecGraph.Refinement.Ensures.{
  After, Ensures-pure, Ensures-gets, Ensures-if, Ensures-or_throw, Ensures-bind, After-state,
}
use atlas_cli.ExecGraph.Refinement.Creates.{create_goal-Keeps}
use atlas_cli.Hands.Adapter.{HandPlatform}
use atlas_cli.Hands.Receipts.{on_graph-Keeps}
use atlas_cli.GoalRunner.Effects.{has_red_line, red_line_reason}
use atlas_cli.GoalRunner.Budgets.{GoalBudget, BudgetReason, check_circuit_breaker, release_lease}
use atlas_cli.GoalRunner.Contract.{
  TaskPlan, TaskReport, GoalRunnerInput, GoalFailure, GoalPlatform, PlanEnv, GoalWorld, GoalAct,
  has_external,
}
use atlas_cli.GoalRunner.Runner.{
  GoalEnv, one_report, no_run, paused_note, attempt_plan, stop_plan, check_plan, carry_out,
  refuse_plan, guard_plan, run_plan, run_plans, decompose_objective, run_leased, releasing,
  resume_leased, resume_goal, start_goal, new_goal, run_goal, resumed,
}
use atlas_cli.GoalRunner.Plan.Refines.{
  At, GoalKeeps, on_hands-Keeps, on_dir-Keeps, move-Keeps, task_for_plan-Keeps, refuse_plan-Keeps,
  upgrade, attempt-Keeps,
}

module _ ⦃rt : Runtime⦄ ⦃hp : HandPlatform⦄ ⦃gp : GoalPlatform⦄ (start : GraphSnapshot) where
  attempt_plan-Keeps :
      (input : GoalRunnerInput) (env : PlanEnv) (plan : TaskPlan) (task : Task) (b : GoalBudget)
      → GoalKeeps verifier start (attempt_plan input env plan task b)
  unfolding attempt_plan
  attempt_plan-Keeps input env plan task b = Ensures-bind _ _ (on_dir-Keeps verifier start _) λ b'.
      Ensures-bind _ _ (attempt-Keeps start env _ plan task) λ reports. Ensures-pure _ (λ w h. h)

  stop_plan-Keeps :
      (plan : TaskPlan) (task : Task) (b : GoalBudget) (note status reason : String)
      → GoalKeeps verifier start (stop_plan plan task b note status reason)
  unfolding stop_plan
  stop_plan-Keeps plan task b note status reason =
      Ensures-bind _ _ (upgrade start _ (λ g. move-Keeps g _ _ _)) λ t. Ensures-pure _ (λ w h. h)

  checked-Keeps :
      (input : GoalRunnerInput) (env : PlanEnv) (plan : TaskPlan) (task : Task) (b : GoalBudget)
      (o : Option BudgetReason)
      → GoalKeeps verifier start (elim o [
        | some reason ↦
            stop_plan plan task b (gp.budget_text reason) "budget-exceeded" (gp.budget_text reason)
        | none ↦
            if check_circuit_breaker b (gp.fingerprint task.id plan)
            then stop_plan plan task b "no-progress circuit breaker: repeated fingerprint" "blocked"
                "no-progress circuit breaker"
            else attempt_plan input env plan task b
      ])
  checked-Keeps input env plan task b (some reason) = stop_plan-Keeps plan task b _ _ _
  checked-Keeps input env plan task b none =
      Ensures-if (check_circuit_breaker b (gp.fingerprint task.id plan)) _ _
        (λ e.
          stop_plan-Keeps plan task b "no-progress circuit breaker: repeated fingerprint" "blocked"
            "no-progress circuit breaker")
        (λ e. attempt_plan-Keeps input env plan task b)

  check_plan-Keeps :
      (input : GoalRunnerInput) (env : PlanEnv) (plan : TaskPlan) (task : Task) (b : GoalBudget)
      → GoalKeeps verifier start (check_plan input env plan task b)
  unfolding check_plan
  check_plan-Keeps input env plan task b = checked-Keeps input env plan task b _

  carry_out-Keeps :
      (input : GoalRunnerInput) (env : PlanEnv) (goal_id : String) (plan : TaskPlan)
      (b : GoalBudget)
      → GoalKeeps verifier start (carry_out input env goal_id plan b)
  unfolding carry_out
  carry_out-Keeps input env goal_id plan b =
      Ensures-bind _ _ (Ensures-gets _ (λ w h. h)) λ existing.
        Ensures-bind _ _ (upgrade start _ (λ g. task_for_plan-Keeps g goal_id plan _ b))
          λ x. check_plan-Keeps input env plan x.1 x.0

  refused-Keeps :
      (goal_id : String) (plan : TaskPlan) (b : GoalBudget) (risk : RiskClass) (note : String)
      (notified : Bool) (status : String) (reason : Option String)
      → GoalKeeps verifier start (refuse_plan goal_id plan b risk note notified status reason)
  refused-Keeps goal_id plan b risk note notified status reason =
      upgrade start _ (λ g. refuse_plan-Keeps g goal_id plan b risk note notified status reason)

  guard_plan-Keeps :
      (input : GoalRunnerInput) (env : PlanEnv) (goal_id : String) (plan : TaskPlan)
      (b : GoalBudget)
      → GoalKeeps verifier start (guard_plan input env goal_id plan b)
  unfolding guard_plan
  guard_plan-Keeps input env goal_id plan b =
      Ensures-if env.paused _ _
        (λ e. refused-Keeps goal_id plan b low paused_note true "blocked" (some paused_note))
        λ e.
          Ensures-if (has_red_line plan.effects) _ _
            (λ e.
              refused-Keeps goal_id plan b irreversible (red_line_reason plan.effects) env.notifies
                "escalated" (some (red_line_reason plan.effects)))
            λ e.
              Ensures-if (has_external input.browser_actions) _ _
                (λ e.
                  refused-Keeps goal_id plan b irreversible "external browser target denied"
                    env.notifies "escalated" none)
                (λ e. carry_out-Keeps input env goal_id plan b)

  unless_done-Keeps :
      (input : GoalRunnerInput) (env : PlanEnv) (goal_id : String) (plan : TaskPlan)
      (b : GoalBudget) (o : Option TaskReport)
      → GoalKeeps verifier start (elim o [
        | some report ↦ pure (one_report b report)
        | none ↦ guard_plan input env goal_id plan b
      ])
  unless_done-Keeps input env goal_id plan b (some report) = Ensures-pure _ (λ w h. h)
  unless_done-Keeps input env goal_id plan b none = guard_plan-Keeps input env goal_id plan b

  run_plan-Keeps :
      (input : GoalRunnerInput) (env : PlanEnv) (goal_id : String) (plan : TaskPlan)
      (b : GoalBudget)
      → GoalKeeps verifier start (run_plan input env goal_id plan b)
  unfolding run_plan
  run_plan-Keeps input env goal_id plan b =
      Ensures-bind _ _ (Ensures-gets _ (λ w h. h))
        λ existing. unless_done-Keeps input env goal_id plan b _

  run_plans-Keeps :
      (input : GoalRunnerInput) (envs : ℕ → PlanEnv) (goal_id : String) (i : ℕ)
      (plans : List TaskPlan) (b : GoalBudget)
      → GoalKeeps verifier start (run_plans input envs goal_id i plans b)
  unfolding run_plans
  run_plans-Keeps input envs goal_id i [] b = Ensures-pure _ (λ w h. h)
  run_plans-Keeps input envs goal_id i (plan ∷ plans) b =
      Ensures-bind _ _ (run_plan-Keeps input (envs i) goal_id plan b) λ x.
        Ensures-bind _ _ (run_plans-Keeps input envs goal_id (i + 1) plans x.0)
          λ y. Ensures-pure _ (λ w h. h)

  decompose-Keeps :
      (objective hand_id : String)
      → GoalKeeps verifier start (decompose_objective objective hand_id)
  unfolding decompose_objective
  decompose-Keeps objective hand_id =
      Ensures-bind _ _ (Ensures-or_throw _ _ (λ a e w h. h) (λ w h. h)) λ effects.
        Ensures-bind _ _ (Ensures-or_throw _ _ (λ a e w h. h) (λ w h. h))
          λ hand. Ensures-pure _ (λ w h. h)

  given-Keeps :
      (o : Option (List TaskPlan)) (objective hand_id : String)
      → GoalKeeps verifier start
          (elim o [ some plans ↦ pure plans | none ↦ decompose_objective objective hand_id ])
  given-Keeps (some plans) objective hand_id = Ensures-pure _ (λ w h. h)
  given-Keeps none objective hand_id = decompose-Keeps objective hand_id

  run_leased-Keeps :
      (input : GoalRunnerInput) (env : GoalEnv) (goal_id : String) (b : GoalBudget)
      → GoalKeeps verifier start (run_leased input env goal_id b)
  unfolding run_leased
  run_leased-Keeps input env goal_id b =
      Ensures-bind _ _ (given-Keeps input.task_plans input.objective _) λ plans.
        Ensures-bind _ _ (on_dir-Keeps verifier start _) λ d.
          Ensures-bind _ _ (run_plans-Keeps input env.plans goal_id 0 plans _)
            λ x. Ensures-pure _ (λ w h. h)

  released-After :
      {A : Type 0} (goal_id : String) (x : Result GoalFailure A × GoalWorld)
      → After (λ a w. At verifier start w) (At verifier start) x
      → After
          (λ a w. At verifier start w)
          (At verifier start)
          (x.0, record x.1 { dir = release_lease goal_id x.1.dir })
  released-After goal_id (ok a, w) h = h
  released-After goal_id (thrown e, w) h = h

  releasing-Keeps :
      {A : Type 0} (goal_id : String) (m : GoalAct A)
      → GoalKeeps verifier start m
      → GoalKeeps verifier start (releasing goal_id m)
  unfolding releasing
  releasing-Keeps goal_id m k = record { at = λ w h. released-After goal_id (m w) (k.at w h) }

  resume_leased-Keeps :
      (input : GoalRunnerInput) (env : GoalEnv) (goal_id : String) (b : GoalBudget)
      → GoalKeeps verifier start (resume_leased input env goal_id b)
  unfolding resume_leased
  resume_leased-Keeps input env goal_id b =
      Ensures-bind _ _ (on_dir-Keeps verifier start _) λ leased.
        Ensures-if leased _ _
          (λ e. releasing-Keeps goal_id _ (run_leased-Keeps input env goal_id _))
          (λ e. Ensures-pure _ (λ w h. h))

  loaded-Keeps :
      (input : GoalRunnerInput) (env : GoalEnv) (goal_id : String) (o : Option GoalBudget)
      → GoalKeeps verifier start (elim o [
        | none ↦ pure (no_run goal_id input)
        | some b ↦ resume_leased input env goal_id b
      ])
  loaded-Keeps input env goal_id none = Ensures-pure _ (λ w h. h)
  loaded-Keeps input env goal_id (some b) = resume_leased-Keeps input env goal_id b

  resume_goal-Keeps :
      (input : GoalRunnerInput) (env : GoalEnv) (goal_id : String)
      → GoalKeeps verifier start (resume_goal input env goal_id)
  unfolding resume_goal
  resume_goal-Keeps input env goal_id =
      Ensures-bind _ _ (Ensures-gets _ (λ w h. h)) λ loaded. loaded-Keeps input env goal_id loaded

  start_goal-Keeps :
      (input : GoalRunnerInput) (env : GoalEnv) (goal_id : String)
      → GoalKeeps verifier start (start_goal input env goal_id)
  unfolding start_goal
  start_goal-Keeps input env goal_id =
      Ensures-bind _ _ (on_dir-Keeps verifier start _)
        λ b. releasing-Keeps goal_id _ (run_leased-Keeps input env goal_id b)

  new_goal-Keeps :
      (input : GoalRunnerInput) (env : GoalEnv) → GoalKeeps verifier start (new_goal input env)
  unfolding new_goal
  new_goal-Keeps input env =
      Ensures-bind _ _
        (on_hands-Keeps verifier start _
          (on_graph-Keeps verifier start _ (create_goal-Keeps verifier start _)))
        λ goal. Ensures-bind _ _ (on_dir-Keeps verifier start _) λ leased.
          Ensures-if leased _ _ (λ e. start_goal-Keeps input env goal.id)
            (λ e. Ensures-pure _ (λ w h. h))

  chosen-Keeps :
      (input : GoalRunnerInput) (env : GoalEnv) (o : Option String)
      → GoalKeeps verifier start
          (elim o [ some goal_id ↦ resume_goal input env goal_id | none ↦ new_goal input env ])
  chosen-Keeps input env (some goal_id) = resume_goal-Keeps input env goal_id
  chosen-Keeps input env none = new_goal-Keeps input env

module _ ⦃rt : Runtime⦄ ⦃hp : HandPlatform⦄ ⦃gp : GoalPlatform⦄ where
  -- Where no write of the graph's files is going to fail, any run of a goal, new or resumed, on
  -- healthy files leaves them healthy and changes the graph by steps that the abstract machine
  -- allows the verifier, whether it returns or throws and whatever control, the browser, the
  -- notifications and the checks of receipts answer.
  pub run_goal_refines :
      (input : GoalRunnerInput) (env : GoalEnv) (w : GoalWorld)
      → IsHealthy w.graph
      → IsHealthy (run_goal input env w).1.graph
        × Changes verifier (read_graph w.graph) (read_graph (run_goal input env w).1.graph)
  unfolding run_goal
  run_goal_refines input env w h =
      let r = After-state _ (run_goal input env w) (
        (chosen-Keeps (read_graph w.graph) input env (resumed input)).at w
          (record { healthy = h; reached = here })) in
      (r.healthy, r.reached)
