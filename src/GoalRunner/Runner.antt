-- ===== src/GoalRunner/Runner.antt =====
-- src/goal-runner/runner.ts: one run of a goal. The claim that a finished run appends to the
-- evidence ledger, which never stops the run, is left out.
use Prim.Native.String.{◌++◌ as ◌⊕◌}
use atlas_cli.Prelude.{
  ℕ, ◌+◌, ◌-◌, String, Bool, true, Option, none, some, is_some, List, [], ◌∷◌, ◌++◌, length, filter,
  if◌then◌else◌, ltb, includes, string_eq, ℕ_eq, or_else, is_present, nat_eq,
}
use atlas_cli.Prelude.Action.{pure, gets, or_throw, ◌>>=◌, ◌>>◌}
use atlas_cli.ExecGraph.Contracts.{
  Task, TaskStatus, status_Eq, RiskClass, low, irreversible, Runtime,
}
use atlas_cli.ExecGraph.Api.{create_goal}
use atlas_cli.Hands.Contract.{get_hand}
use atlas_cli.Hands.Adapter.{hand_not_found, HandPlatform, on_graph}
use atlas_cli.GoalRunner.Effects.{derive_effects_from_hand, has_red_line, red_line_reason}
use atlas_cli.GoalRunner.Budgets.{
  GoalRunnerConfig, default_goal_runner_config, GoalBudget, Signal, create_budget, load_budget,
  save_budget, check_budget, record_attempt, check_circuit_breaker, acquire_lease, release_lease,
}
use atlas_cli.GoalRunner.Contract.{
  TaskPlan, TaskReport, GoalStatus, completed, partial, failed, escalated, GoalReport,
  runner_source, PartialConfig, GoalRunnerInput, call, GoalPlatform, PlanEnv, GoalWorld, GoalAct,
  on_hands, on_dir, is_terminal, report_of, resume_task_report, has_external,
}
use atlas_cli.GoalRunner.Plan.{
  find_existing_task_for_plan, move, halt_plan, task_for_plan, attempt, awaits,
}
pub mod Refines
pub mod Plans
pub mod Limits
pub mod Halts
pub mod Repeats
pub mod Verdict

abbrev pub merge : GoalRunnerConfig → PartialConfig → GoalRunnerConfig
merge base given = record {
  max_attempts_per_task = or_else given.max_attempts_per_task base.max_attempts_per_task;
  max_total_attempts = or_else given.max_total_attempts base.max_total_attempts;
  max_total_tasks = or_else given.max_total_tasks base.max_total_tasks;
  max_decomposition_rounds = or_else given.max_decomposition_rounds base.max_decomposition_rounds;
  max_graph_depth = or_else given.max_graph_depth base.max_graph_depth;
  max_wall_time_ms = or_else given.max_wall_time_ms base.max_wall_time_ms;
}

-- the id of a goal to go on with: an empty text counts as none
abbrev pub resumed : GoalRunnerInput → Option String
resumed input = elim input.resume_goal_id [
  | none ↦ none
  | some id ↦ if is_present id then some id else none
]

-- What one plan leaves: the budget, and the reports that it adds.
abbrev pub PlanResult : Type 0
PlanResult = GoalBudget × List TaskReport

abbrev pub one_report : GoalBudget → TaskReport → PlanResult
one_report b r = (b, r ∷ [])

abbrev pub paused_note : String
paused_note = "control paused — task blocked before execution"

module _ ⦃rt : Runtime⦄ ⦃hp : HandPlatform⦄ ⦃gp : GoalPlatform⦄ where
  -- From the attempt on: it is counted before it is made.
  unfoldable pub attempt_plan :
      GoalRunnerInput → PlanEnv → TaskPlan → Task → GoalBudget → GoalAct PlanResult
  attempt_plan input env plan task b = do
    b' ← on_dir (record_attempt b task.id (gp.fingerprint task.id plan))
    reports ← attempt env input.browser_actions plan task
    pure (b', reports)

  -- A task that is escalated instead of attempted.
  unfoldable pub stop_plan :
      TaskPlan → Task → GoalBudget → String → String → String → GoalAct PlanResult
  stop_plan plan task b note final_status reason = do
    move task.id TaskStatus.escalated (some note)
    pure (one_report b (report_of plan task final_status 0 (some reason)))

  -- The two checks before an attempt.
  unfoldable pub check_plan :
      GoalRunnerInput → PlanEnv → TaskPlan → Task → GoalBudget → GoalAct PlanResult
  check_plan input env plan task b = elim (check_budget b task.id env.now) [
    | some reason ↦
        stop_plan plan task b (gp.budget_text reason) "budget-exceeded" (gp.budget_text reason)
    | none ↦
        if check_circuit_breaker b (gp.fingerprint task.id plan)
        then stop_plan plan task b "no-progress circuit breaker: repeated fingerprint" "blocked"
            "no-progress circuit breaker"
        else attempt_plan input env plan task b
  ]

  -- `findExistingTaskForPlan`, where the goal is one to go on with
  abbrev pub existing_task : GoalRunnerInput → String → TaskPlan → GoalWorld → Option Task
  existing_task input goal_id plan w =
      if is_some (resumed input) then find_existing_task_for_plan goal_id plan w.graph else none

  abbrev pub unless_terminal : Option Task → Option Task
  unless_terminal none = none
  unless_terminal (some t) = if is_terminal t then none else some t

  -- A plan that passes the guards.
  unfoldable pub carry_out :
      GoalRunnerInput → PlanEnv → String → TaskPlan → GoalBudget → GoalAct PlanResult
  carry_out input env goal_id plan b = do
    existing ← gets (existing_task input goal_id plan)
    (b', task) ← task_for_plan goal_id plan (unless_terminal existing) b
    check_plan input env plan task b'

  -- A plan that a guard keeps from being carried out, with or without a notification.
  unfoldable pub refuse_plan :
      String
      → TaskPlan
      → GoalBudget
      → RiskClass
      → String
      → Bool
      → String
      → Option String
      → GoalAct PlanResult
  refuse_plan goal_id plan b risk note notified final_status reason = do
    task ← halt_plan goal_id plan risk note
    awaits notified
    pure (one_report b (report_of plan task final_status 0 reason))

  -- The guards of a plan: control, red lines, external targets.
  unfoldable pub guard_plan :
      GoalRunnerInput → PlanEnv → String → TaskPlan → GoalBudget → GoalAct PlanResult
  guard_plan input env goal_id plan b =
      if env.paused
      then refuse_plan goal_id plan b low paused_note true "blocked" (some paused_note)
      else if has_red_line plan.effects
      then refuse_plan goal_id plan b irreversible (red_line_reason plan.effects) env.notifies
          "escalated" (some (red_line_reason plan.effects))
      else if has_external input.browser_actions
      then refuse_plan goal_id plan b irreversible "external browser target denied" env.notifies
          "escalated" none
      else carry_out input env goal_id plan b

  abbrev pub terminal_report : TaskPlan → GoalBudget → Option Task → Option TaskReport
  terminal_report plan b none = none
  terminal_report plan b (some t) =
      if is_terminal t then some (resume_task_report t plan b) else none

  unfoldable pub run_plan :
      GoalRunnerInput → PlanEnv → String → TaskPlan → GoalBudget → GoalAct PlanResult
  run_plan input env goal_id plan b = do
    existing ← gets (existing_task input goal_id plan)
    elim (terminal_report plan b existing) [
      | some report ↦ pure (one_report b report)
      | none ↦ guard_plan input env goal_id plan b
    ]

  -- `for (const plan of plans)`, from plan number `i` on
  unfoldable pub run_plans :
      GoalRunnerInput → (ℕ → PlanEnv) → String → ℕ → List TaskPlan → GoalBudget → GoalAct PlanResult
  run_plans input envs goal_id i [] b = pure (b, [])
  run_plans input envs goal_id i (plan ∷ plans) b = do
    (b', reports) ← run_plan input (envs i) goal_id plan b
    (b'', more) ← run_plans input envs goal_id (i + 1) plans b'
    pure (b'', reports ++ more)

abbrev pub count_status : List String → List TaskReport → ℕ
count_status statuses reports = length (filter (λ r. includes statuses r.final_status) reports)

abbrev pub failed_statuses : List String
failed_statuses = "rejected" ∷ "failed" ∷ "blocked" ∷ "budget-exceeded" ∷ []

-- The verdict on the goal, from the reports.
unfoldable pub goal_status : List TaskReport → GoalStatus
goal_status reports =
    let done = count_status ("verified" ∷ []) reports in
    if ltb 0 (count_status ("escalated" ∷ []) reports)
    then escalated
    else if nat_eq (length reports) 0
    then failed
    else if nat_eq done (length reports)
    then completed
    else if ltb 0 done
    then partial
    else failed

abbrev goal_report : String → GoalRunnerInput → ℕ → List TaskReport → GoalReport
goal_report goal_id input wall_time_ms reports = record {
  goal_id = goal_id;
  objective = input.objective;
  status = goal_status reports;
  tasks_total = length reports;
  tasks_verified = count_status ("verified" ∷ []) reports;
  tasks_failed = count_status failed_statuses reports;
  tasks_escalated = count_status ("escalated" ∷ []) reports;
  wall_time_ms = wall_time_ms;
  details = reports;
}

abbrev pub no_run : String → GoalRunnerInput → GoalReport
no_run goal_id input = record {
  goal_id = goal_id;
  objective = input.objective;
  status = failed;
  tasks_total = 0;
  tasks_verified = 0;
  tasks_failed = 0;
  tasks_escalated = 0;
  wall_time_ms = 0;
  details = [];
}

-- The process and its clock: its id, what a signal to another does, the time at the start and at
-- the end, and what each plan finds.
pub record GoalEnv : Type 0 where
  pub pid : ℕ
  pub kill : ℕ → Signal
  pub started : ℕ
  pub ended : ℕ
  pub plans : ℕ → PlanEnv

module _ ⦃rt : Runtime⦄ ⦃hp : HandPlatform⦄ ⦃gp : GoalPlatform⦄ where
  -- `decomposeObjective`: it throws where there is no such hand
  unfoldable pub decompose_objective : String → String → GoalAct (List TaskPlan)
  decompose_objective objective hand_id = do
    effects ← or_throw (derive_effects_from_hand hp.manifests hand_id) (call hand_not_found)
    hand ← or_throw (get_hand hp.manifests hand_id) (call hand_not_found)
    pure (
        record {
          task_title = objective;
          hand_id = hand_id;
          effects = effects;
          actions = hand.allowed_actions;
          acceptance_criteria =
              "Task \"" ⊕ objective ⊕ "\" completed and verified by deterministic verifier";
          proof_spec = "browser-action receipt with all actions succeeded";
        }
        ∷ [])

  abbrev pub plans_of : GoalRunnerInput → GoalAct (List TaskPlan)
  plans_of input = elim input.task_plans [
    | some plans ↦ pure plans
    | none ↦ decompose_objective input.objective (or_else input.hand_id "browser-foreground")
  ]

  -- the budget of a new goal, once its plans are known
  abbrev pub counted : ℕ → GoalBudget → GoalBudget
  counted n b = record b { decomposition_rounds = 1; total_tasks_created = n }

  -- The body of the `try`.
  unfoldable pub run_leased : GoalRunnerInput → GoalEnv → String → GoalBudget → GoalAct GoalReport
  run_leased input env goal_id b = do
    plans ← plans_of input
    let b' = if is_some (resumed input) then b else counted (length plans) b
    on_dir (λ d. (tt, if is_some (resumed input) then d else save_budget b' d))
    (b'', reports) ← run_plans input env.plans goal_id 0 plans b'
    pure (goal_report goal_id input (env.ended - env.started) reports)

  -- `finally { releaseLease(goalId); }`
  unfoldable pub releasing : {A : Type 0} → String → GoalAct A → GoalAct A
  releasing goal_id m w = let (r, w') = m w in (r, record w' { dir = release_lease goal_id w'.dir })

  unfoldable pub resume_leased :
      GoalRunnerInput → GoalEnv → String → GoalBudget → GoalAct GoalReport
  resume_leased input env goal_id b = do
    leased ← on_dir (acquire_lease env.kill env.pid env.started goal_id)
    let b' = record b { config = merge default_goal_runner_config input.config }
    if leased
        then releasing goal_id (run_leased input env goal_id b')
        else pure (no_run goal_id input)

  unfoldable pub resume_goal : GoalRunnerInput → GoalEnv → String → GoalAct GoalReport
  resume_goal input env goal_id = do
    loaded ← gets (λ w. load_budget goal_id w.dir)
    elim loaded [ none ↦ pure (no_run goal_id input) | some b ↦ resume_leased input env goal_id b ]

  -- A new goal that has the lease.
  unfoldable pub start_goal : GoalRunnerInput → GoalEnv → String → GoalAct GoalReport
  start_goal input env goal_id = do
    b ← on_dir (create_budget goal_id (merge default_goal_runner_config input.config) env.started)
    releasing goal_id (run_leased input env goal_id b)

  unfoldable pub new_goal : GoalRunnerInput → GoalEnv → GoalAct GoalReport
  new_goal input env = do
    goal ← on_hands (
        on_graph (
          create_goal (record {
            title = input.objective;
            source = some runner_source;
            actor = some "goal-runner";
            ts = none;
            id = none;
          })))
    leased ← on_dir (acquire_lease env.kill env.pid env.started goal.id)
    if leased then start_goal input env goal.id else pure (no_run goal.id input)

  unfoldable pub run_goal : GoalRunnerInput → GoalEnv → GoalAct GoalReport
  run_goal input env = elim (resumed input) [
    | some goal_id ↦ resume_goal input env goal_id
    | none ↦ new_goal input env
  ]
