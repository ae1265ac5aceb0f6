-- ===== src/GoalRunner/Runner/Plans.antt =====
-- What going through the plans of a goal does to its budget file.
use atlas_cli.Prelude.{
  ℕ, ◌+◌, ◌≤◌, String, Bool, true, Option, none, some, List, [], ◌∷◌, ◌≡◌, refl, if◌then◌else◌,
}
use atlas_cli.Prelude.Action.{pure}
use atlas_cli.ExecGraph.Contracts.{Task, RiskClass, low, irreversible, Runtime}
use atlas_cli.ExecGraph.Refinement.Ensures.{
  Ensures, Ensures-pure, Ensures-gets, Ensures-if, Ensures-bind, Ensures-given,
}
use atlas_cli.Hands.Adapter.{HandPlatform}
use atlas_cli.GoalRunner.Effects.{has_red_line, red_line_reason}
use atlas_cli.GoalRunner.Budgets.{
  GoalRunnerConfig, GoalBudget, BudgetReason, record_attempt, attempted, check_budget,
  check_circuit_breaker,
}
use atlas_cli.GoalRunner.Budgets.Attempts.{Fits, save-IsWithin, attempted-Fits}
use atlas_cli.GoalRunner.Contract.{
  TaskPlan, TaskReport, GoalRunnerInput, GoalPlatform, PlanEnv, on_dir, has_external,
}
use atlas_cli.GoalRunner.Runner.{
  one_report, paused_note, attempt_plan, stop_plan, check_plan, carry_out, refuse_plan, guard_plan,
  run_plan, run_plans,
}
use atlas_cli.GoalRunner.Plan.Limits.{
  Dir, BudgetKeeps, awaits-Keeps, move-Keeps, halt_plan-Keeps, task_for_plan-Keeps, attempt-Keeps,
}

module _ (c : GoalRunnerConfig) (total each : ℕ) where
  module _ (below_total : c.max_total_attempts ≤ total)
      (below_each : c.max_attempts_per_task ≤ each) ⦃rt : Runtime⦄ ⦃hp : HandPlatform⦄
      ⦃gp : GoalPlatform⦄ where
    -- The attempt is counted, and the count is written, before it is made.
    record-Keeps :
        (b : GoalBudget) (task fingerprint : String)
        → Fits c total each (attempted b task fingerprint)
        → Ensures
            (Dir c total each)
            (λ b' w. Fits c total each b' × (Dir c total each) w)
            (Dir c total each)
            (on_dir (record_attempt b task fingerprint))
    unfolding on_dir record_attempt
    record-Keeps b task fingerprint f = record {
      at = λ w h.
          (f, save-IsWithin total each (attempted b task fingerprint) w.dir h (f.all, f.one));
    }

    attempt_plan-Keeps :
        (input : GoalRunnerInput) (env : PlanEnv) (plan : TaskPlan) (task : Task) (b : GoalBudget)
        → check_budget b task.id env.now ≡ none
        → Fits c total each b
        → BudgetKeeps c total each (attempt_plan input env plan task b)
    unfolding attempt_plan
    attempt_plan-Keeps input env plan task b e f =
        let f' =
          attempted-Fits c total each env.now b task.id (gp.fingerprint task.id plan) below_total
            below_each e f in
        Ensures-bind _ _ (record-Keeps b task.id (gp.fingerprint task.id plan) f') λ b'.
          Ensures-given _ λ g.
            Ensures-bind _ _
              (attempt-Keeps c total each below_total below_each env input.browser_actions plan
                task)
              λ reports. Ensures-pure _ (λ w h. (g, h))

    stop_plan-Keeps :
        (plan : TaskPlan) (task : Task) (b : GoalBudget) (note status reason : String)
        → Fits c total each b
        → BudgetKeeps c total each (stop_plan plan task b note status reason)
    unfolding stop_plan
    stop_plan-Keeps plan task b note status reason f =
        Ensures-bind _ _ (move-Keeps c total each _ _ _) λ t. Ensures-pure _ (λ w h. (f, h))

    checked-Keeps :
        (input : GoalRunnerInput) (env : PlanEnv) (plan : TaskPlan) (task : Task) (b : GoalBudget)
        (o : Option BudgetReason)
        → check_budget b task.id env.now ≡ o
        → Fits c total each b
        → BudgetKeeps c total each (elim o [
          | some reason ↦
              stop_plan plan task b
                (gp.budget_text reason)
                "budget-exceeded"
                (gp.budget_text reason)
          | none ↦
              if check_circuit_breaker b (gp.fingerprint task.id plan)
              then stop_plan plan task b "no-progress circuit breaker: repeated fingerprint"
                  "blocked" "no-progress circuit breaker"
              else attempt_plan input env plan task b
        ])
    checked-Keeps input env plan task b (some reason) e f = stop_plan-Keeps plan task b _ _ _ f
    checked-Keeps input env plan task b none e f =
        Ensures-if (check_circuit_breaker b (gp.fingerprint task.id plan)) _ _
          (λ x.
            stop_plan-Keeps plan task b "no-progress circuit breaker: repeated fingerprint"
              "blocked" "no-progress circuit breaker" f)
          (λ x. attempt_plan-Keeps input env plan task b e f)

    carry_out-Keeps :
        (input : GoalRunnerInput) (env : PlanEnv) (goal_id : String) (plan : TaskPlan)
        (b : GoalBudget)
        → Fits c total each b
        → BudgetKeeps c total each (carry_out input env goal_id plan b)
    unfolding carry_out check_plan
    carry_out-Keeps input env goal_id plan b f =
        Ensures-bind _ _ (Ensures-gets _ (λ w h. h)) λ existing.
          Ensures-bind _ _ (task_for_plan-Keeps c total each goal_id plan _ b f)
            λ x. Ensures-given _ (λ g. checked-Keeps input env plan x.1 x.0 _ refl g)

    refuse_plan-Keeps :
        (goal_id : String) (plan : TaskPlan) (b : GoalBudget) (risk : RiskClass) (note : String)
        (notified : Bool) (status : String) (reason : Option String)
        → Fits c total each b
        → BudgetKeeps c total each (refuse_plan goal_id plan b risk note notified status reason)
    unfolding refuse_plan
    refuse_plan-Keeps goal_id plan b risk note notified status reason f =
        Ensures-bind _ _ (halt_plan-Keeps c total each goal_id plan risk note) λ task.
          Ensures-bind _ _ (awaits-Keeps c total each notified) λ u. Ensures-pure _ (λ w h. (f, h))

    guard_plan-Keeps :
        (input : GoalRunnerInput) (env : PlanEnv) (goal_id : String) (plan : TaskPlan)
        (b : GoalBudget)
        → Fits c total each b
        → BudgetKeeps c total each (guard_plan input env goal_id plan b)
    unfolding guard_plan
    guard_plan-Keeps input env goal_id plan b f =
        Ensures-if env.paused _ _
          (λ e.
            refuse_plan-Keeps goal_id plan b low paused_note true "blocked" (some paused_note) f)
          λ e.
            Ensures-if (has_red_line plan.effects) _ _
              (λ e.
                refuse_plan-Keeps goal_id plan b irreversible (red_line_reason plan.effects)
                  env.notifies "escalated" (some (red_line_reason plan.effects)) f)
              λ e.
                Ensures-if (has_external input.browser_actions) _ _
                  (λ e.
                    refuse_plan-Keeps goal_id plan b irreversible "external browser target denied"
                      env.notifies "escalated" none f)
                  (λ e. carry_out-Keeps input env goal_id plan b f)

    unless_done-Keeps :
        (input : GoalRunnerInput) (env : PlanEnv) (goal_id : String) (plan : TaskPlan)
        (b : GoalBudget) (o : Option TaskReport)
        → Fits c total each b
        → BudgetKeeps c total each (elim o [
          | some report ↦ pure (one_report b report)
          | none ↦ guard_plan input env goal_id plan b
        ])
    unless_done-Keeps input env goal_id plan b (some report) f = Ensures-pure _ (λ w h. (f, h))
    unless_done-Keeps input env goal_id plan b none f = guard_plan-Keeps input env goal_id plan b f

    run_plan-Keeps :
        (input : GoalRunnerInput) (env : PlanEnv) (goal_id : String) (plan : TaskPlan)
        (b : GoalBudget)
        → Fits c total each b
        → BudgetKeeps c total each (run_plan input env goal_id plan b)
    unfolding run_plan
    run_plan-Keeps input env goal_id plan b f =
        Ensures-bind _ _ (Ensures-gets _ (λ w h. h))
          λ existing. unless_done-Keeps input env goal_id plan b _ f

    pub run_plans-Keeps :
        (input : GoalRunnerInput) (envs : ℕ → PlanEnv) (goal_id : String) (i : ℕ)
        (plans : List TaskPlan) (b : GoalBudget)
        → Fits c total each b
        → BudgetKeeps c total each (run_plans input envs goal_id i plans b)
    unfolding run_plans
    run_plans-Keeps input envs goal_id i [] b f = Ensures-pure _ (λ w h. (f, h))
    run_plans-Keeps input envs goal_id i (plan ∷ plans) b f =
        Ensures-bind _ _ (run_plan-Keeps input (envs i) goal_id plan b f) λ x. Ensures-given _ λ g.
          Ensures-bind _ _ (run_plans-Keeps input envs goal_id (i + 1) plans x.0 g)
            λ y. Ensures-given _ λ k. Ensures-pure _ (λ w h. (k, h))
