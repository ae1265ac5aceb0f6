-- ===== src/GoalRunner/Runner/Limits.antt =====
-- How often src/goal-runner/runner.ts makes an attempt.
use atlas_cli.Prelude.{
  ℕ, ◌≤◌, String, Bool, true, false, Option, none, some, is_some, List, ◌≡◌, refl, length,
  if◌then◌else◌,
}
use atlas_cli.Prelude.Action.{Result, ok, thrown, pure}
use atlas_cli.ExecGraph.Contracts.{Runtime}
use atlas_cli.ExecGraph.Refinement.Ensures.{
  After, Ensures-pure, Ensures-gets, Ensures-if, Ensures-or_throw, Ensures-bind, Ensures-given,
  After-state,
}
use atlas_cli.Hands.Adapter.{HandPlatform}
use atlas_cli.GoalRunner.Budgets.{
  GoalRunnerConfig, default_goal_runner_config, GoalBudget, save_budget, acquire_lease,
  create_budget, release_lease,
}
use atlas_cli.GoalRunner.Budgets.Attempts.{
  Fits, IsBelow, IsWithin, save-IsWithin, fresh-Fits, create-IsWithin, release-IsWithin,
  acquire-IsWithin,
}
use atlas_cli.GoalRunner.Contract.{
  TaskPlan, GoalRunnerInput, GoalFailure, GoalPlatform, GoalWorld, GoalAct, on_dir,
}
use atlas_cli.GoalRunner.Runner.{
  GoalEnv, no_run, merge, decompose_objective, counted, run_leased, releasing, resume_leased,
  resume_goal, start_goal, new_goal, run_goal, resumed,
}
use atlas_cli.GoalRunner.Plan.Limits.{Dir, DirKeeps, on_hands-Keeps}
use atlas_cli.GoalRunner.Runner.Plans.{run_plans-Keeps}

module _ (c : GoalRunnerConfig) (total each : ℕ) where
  module _ (below_total : c.max_total_attempts ≤ total)
      (below_each : c.max_attempts_per_task ≤ each) ⦃rt : Runtime⦄ ⦃hp : HandPlatform⦄
      ⦃gp : GoalPlatform⦄ where
    decompose-Keeps :
        (objective hand_id : String) → DirKeeps c total each (decompose_objective objective hand_id)
    unfolding decompose_objective
    decompose-Keeps objective hand_id =
        Ensures-bind _ _ (Ensures-or_throw _ _ (λ a e w h. h) (λ w h. h)) λ effects.
          Ensures-bind _ _ (Ensures-or_throw _ _ (λ a e w h. h) (λ w h. h))
            λ hand. Ensures-pure _ (λ w h. h)

    given-Keeps :
        (o : Option (List TaskPlan)) (objective hand_id : String)
        → DirKeeps c total each
            (elim o [ some plans ↦ pure plans | none ↦ decompose_objective objective hand_id ])
    given-Keeps (some plans) objective hand_id = Ensures-pure _ (λ w h. h)
    given-Keeps none objective hand_id = decompose-Keeps objective hand_id

    -- the budget with which the plans are begun
    begun-Fits :
        (again : Bool) (n : ℕ) (b : GoalBudget)
        → Fits c total each b
        → Fits c total each (if again then b else counted n b)
    begun-Fits true n b f = f
    begun-Fits false n b f = record { config = f.config; all = f.all; one = f.one }

    begun-Keeps :
        (again : Bool) (b : GoalBudget)
        → Fits c total each b
        → DirKeeps c total each (on_dir (λ d. (tt, if again then d else save_budget b d)))
    unfolding on_dir
    begun-Keeps true b f = record { at = λ w h. h }
    begun-Keeps false b f = record { at = λ w h. save-IsWithin total each b w.dir h (f.all, f.one) }

    run_leased-Keeps :
        (input : GoalRunnerInput) (env : GoalEnv) (goal_id : String) (b : GoalBudget)
        → Fits c total each b
        → DirKeeps c total each (run_leased input env goal_id b)
    unfolding run_leased
    run_leased-Keeps input env goal_id b f =
        Ensures-bind _ _ (given-Keeps input.task_plans input.objective _) λ plans.
          let f' = begun-Fits (is_some (resumed input)) (length plans) b f in
          Ensures-bind _ _ (begun-Keeps (is_some (resumed input)) _ f') λ d.
            Ensures-bind _ _
              (run_plans-Keeps c total each below_total below_each input env.plans goal_id 0 plans _
                f')
              λ x. Ensures-pure _ (λ w h. h.1)

    released-After :
        {A : Type 0} (goal_id : String) (x : Result GoalFailure A × GoalWorld)
        → After (λ a w. Dir c total each w) (Dir c total each) x
        → After
            (λ a w. Dir c total each w)
            (Dir c total each)
            (x.0, record x.1 { dir = release_lease goal_id x.1.dir })
    released-After goal_id (ok a, w) h = release-IsWithin total each goal_id w.dir h
    released-After goal_id (thrown e, w) h = release-IsWithin total each goal_id w.dir h

    releasing-Keeps :
        {A : Type 0} (goal_id : String) (m : GoalAct A)
        → DirKeeps c total each m
        → DirKeeps c total each (releasing goal_id m)
    unfolding releasing
    releasing-Keeps goal_id m k = record { at = λ w h. released-After goal_id (m w) (k.at w h) }

    acquire-Keeps :
        (env : GoalEnv) (goal_id : String)
        → DirKeeps c total each (on_dir (acquire_lease env.kill env.pid env.started goal_id))
    unfolding on_dir
    acquire-Keeps env goal_id = record {
      at = λ w h. acquire-IsWithin total each env.kill env.pid env.started goal_id w.dir h;
    }

-- The configuration that a run goes by.
abbrev pub run_config : GoalRunnerInput → GoalRunnerConfig
run_config input = merge default_goal_runner_config input.config

module _ (input : GoalRunnerInput) (total each : ℕ)
    (below_total : (run_config input).max_total_attempts ≤ total)
    (below_each : (run_config input).max_attempts_per_task ≤ each) ⦃rt : Runtime⦄
    ⦃hp : HandPlatform⦄ ⦃gp : GoalPlatform⦄ where
  resume_leased-Keeps :
      (env : GoalEnv) (goal_id : String) (b : GoalBudget)
      → IsBelow total each b
      → DirKeeps (run_config input) total each (resume_leased input env goal_id b)
  unfolding resume_leased
  resume_leased-Keeps env goal_id b f =
      let c = run_config input in
      let f' : Fits c total each (record b { config = c }) = record {
        config = refl;
        all = f.0;
        one = f.1;
      } in
      Ensures-bind _ _ (acquire-Keeps c total each below_total below_each env goal_id) λ leased.
        Ensures-if leased _ _
          (λ e.
            releasing-Keeps c total each below_total below_each goal_id _
              (run_leased-Keeps c total each below_total below_each input env goal_id _ f'))
          (λ e. Ensures-pure _ (λ w h. h))

  loaded-Keeps :
      (env : GoalEnv) (goal_id : String) (o : Option GoalBudget)
      → ((b : GoalBudget) → o ≡ some b → IsBelow total each b)
      → DirKeeps (run_config input) total each (elim o [
        | none ↦ pure (no_run goal_id input)
        | some b ↦ resume_leased input env goal_id b
      ])
  loaded-Keeps env goal_id none f = Ensures-pure _ (λ w h. h)
  loaded-Keeps env goal_id (some b) f = resume_leased-Keeps env goal_id b (f b refl)

  resume_goal-Keeps :
      (env : GoalEnv) (goal_id : String)
      → DirKeeps (run_config input) total each (resume_goal input env goal_id)
  unfolding resume_goal
  resume_goal-Keeps env goal_id =
      Ensures-bind
        {Q = λ o w.
          ((b : GoalBudget) → o ≡ some b → IsBelow total each b)
          × Dir (run_config input) total each w}
        _ _ (Ensures-gets _ (λ w h. (λ b e. h goal_id b e, h)))
        λ loaded. Ensures-given _ λ f. loaded-Keeps env goal_id loaded f

  start_goal-Keeps :
      (env : GoalEnv) (goal_id : String)
      → DirKeeps (run_config input) total each (start_goal input env goal_id)
  unfolding start_goal on_dir create_budget
  start_goal-Keeps env goal_id =
      let c = run_config input in
      Ensures-bind {Q = λ b w. Fits c total each b × Dir c total each w} _ _
        (record {
          at = λ w h. (
            fresh-Fits c total each env.started goal_id,
            create-IsWithin c total each env.started goal_id w.dir h,
          );
        })
        λ b. Ensures-given _ λ f.
          releasing-Keeps c total each below_total below_each goal_id _
            (run_leased-Keeps c total each below_total below_each input env goal_id b f)

  new_goal-Keeps : (env : GoalEnv) → DirKeeps (run_config input) total each (new_goal input env)
  unfolding new_goal
  new_goal-Keeps env = Ensures-bind _ _ (on_hands-Keeps (run_config input) total each _) λ goal.
      Ensures-bind _ _
        (acquire-Keeps (run_config input) total each below_total below_each env goal.id)
        λ leased.
          Ensures-if leased _ _ (λ e. start_goal-Keeps env goal.id) (λ e. Ensures-pure _ (λ w h. h))

  chosen-Keeps :
      (env : GoalEnv) (o : Option String)
      → DirKeeps
          (run_config input)
          total
          each
          (elim o [ some goal_id ↦ resume_goal input env goal_id | none ↦ new_goal input env ])
  chosen-Keeps env (some goal_id) = resume_goal-Keeps env goal_id
  chosen-Keeps env none = new_goal-Keeps env

-- Where every budget file counts at most `total` attempts, and at most `each` of one task, and the
-- run's configuration caps them by no more, every budget file does so after the run, new or
-- resumed, whether it returns or throws.
pub run_goal-IsWithin :
    ⦃rt : Runtime⦄ ⦃hp : HandPlatform⦄ ⦃gp : GoalPlatform⦄ (input : GoalRunnerInput) (env : GoalEnv)
    (total each : ℕ) (w : GoalWorld)
    → (run_config input).max_total_attempts ≤ total
    → (run_config input).max_attempts_per_task ≤ each
    → IsWithin total each w.dir
    → IsWithin total each (run_goal input env w).1.dir
unfolding run_goal
run_goal-IsWithin input env total each w ht he h =
    After-state _ (run_goal input env w)
      ((chosen-Keeps input total each ht he env (resumed input)).at w h)
