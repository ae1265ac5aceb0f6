-- ===== src/GoalRunner/Runner/Halts.antt =====
-- The plans that src/goal-runner/runner.ts refuses to carry out.
use atlas_cli.Prelude.{String, Bool, true, false, ◌||◌, Option, none, some, ◌≡◌, arith}
use atlas_cli.Prelude.Dict.{get}
use atlas_cli.Prelude.Action.{pure}
use atlas_cli.ExecGraph.Contracts.{Task, low, irreversible, Runtime}
use atlas_cli.ExecGraph.Ledger.{GraphSnapshot, read_graph}
use atlas_cli.ExecGraph.Ledger.Replay.{IsHealthy}
use atlas_cli.ExecGraph.Api.{is_hand_owner}
use atlas_cli.ExecGraph.Spec.{caller, here}
use atlas_cli.ExecGraph.Spec.Authority.{hand_owned_before}
use atlas_cli.ExecGraph.Refinement.Ensures.{
  Ensures-pure, Ensures-gets, Ensures-if, Ensures-bind, After-state,
}
use atlas_cli.Hands.Adapter.{HandPlatform}
use atlas_cli.GoalRunner.Effects.{has_red_line, red_line_reason}
use atlas_cli.GoalRunner.Budgets.{GoalBudget}
use atlas_cli.GoalRunner.Contract.{
  TaskPlan, TaskReport, GoalRunnerInput, GoalPlatform, PlanEnv, GoalWorld, has_external,
}
use atlas_cli.GoalRunner.Runner.{one_report, paused_note, guard_plan, run_plan}
use atlas_cli.GoalRunner.Plan.Refines.{GoalKeeps, refuse_plan-Keeps}

module _ ⦃rt : Runtime⦄ ⦃hp : HandPlatform⦄ ⦃gp : GoalPlatform⦄ where
  -- Control is paused, an effect is red-lined, or the browser is to leave the machine.
  abbrev pub is_refused : GoalRunnerInput → PlanEnv → TaskPlan → Bool
  is_refused input env plan =
      env.paused || (has_red_line plan.effects || has_external input.browser_actions)

  none_is_left : (a b c : Bool) → (a || (b || c)) ≡ true → a ≡ false → b ≡ false → c ≡ false → ⊥
  none_is_left a b c h x y z = ground arith

  guard_plan-Keeps :
      (g : GraphSnapshot) (input : GoalRunnerInput) (env : PlanEnv) (goal_id : String)
      (plan : TaskPlan) (b : GoalBudget)
      → is_refused input env plan ≡ true
      → GoalKeeps caller g (guard_plan input env goal_id plan b)
  unfolding guard_plan
  guard_plan-Keeps g input env goal_id plan b h =
      Ensures-if env.paused _ _
        (λ e. refuse_plan-Keeps g goal_id plan b low paused_note true "blocked" (some paused_note))
        λ x.
          Ensures-if (has_red_line plan.effects) _ _
            (λ e.
              refuse_plan-Keeps g goal_id plan b irreversible (red_line_reason plan.effects)
                env.notifies "escalated" (some (red_line_reason plan.effects)))
            λ y.
              Ensures-if (has_external input.browser_actions) _ _
                (λ e.
                  refuse_plan-Keeps g goal_id plan b irreversible "external browser target denied"
                    env.notifies "escalated" none)
                (λ z. absurd (none_is_left _ _ _ h x y z))

  unless_done-Keeps :
      (g : GraphSnapshot) (input : GoalRunnerInput) (env : PlanEnv) (goal_id : String)
      (plan : TaskPlan) (b : GoalBudget) (o : Option TaskReport)
      → is_refused input env plan ≡ true
      → GoalKeeps caller g (elim o [
        | some report ↦ pure (one_report b report)
        | none ↦ guard_plan input env goal_id plan b
      ])
  unless_done-Keeps g input env goal_id plan b (some report) h = Ensures-pure _ (λ w h. h)
  unless_done-Keeps g input env goal_id plan b none h =
      guard_plan-Keeps g input env goal_id plan b h

  run_plan-Keeps :
      (g : GraphSnapshot) (input : GoalRunnerInput) (env : PlanEnv) (goal_id : String)
      (plan : TaskPlan) (b : GoalBudget)
      → is_refused input env plan ≡ true
      → GoalKeeps caller g (run_plan input env goal_id plan b)
  unfolding run_plan
  run_plan-Keeps g input env goal_id plan b h =
      Ensures-bind _ _ (Ensures-gets _ (λ w h. h))
        λ existing. unless_done-Keeps g input env goal_id plan b _ h

  -- From healthy files, where no write of the graph is going to fail, a plan that has a red-lined
  -- effect, or that comes while control is paused, or whose browser is to go to an external target,
  -- gives no task to a hand, whether dealing with it returns or throws: a task that a hand owns
  -- after it was owned by a hand before it.
  pub refused_plan_gives_no_hand :
      (input : GoalRunnerInput) (env : PlanEnv) (goal_id : String) (plan : TaskPlan)
      (b : GoalBudget) (w : GoalWorld) (id : String) (t : Task)
      → IsHealthy w.graph
      → is_refused input env plan ≡ true
      → get (read_graph (run_plan input env goal_id plan b w).1.graph).tasks id ≡ some t
      → is_hand_owner t.owner ≡ true
      → (old : Task) × (get (read_graph w.graph).tasks id ≡ some old)
        × (is_hand_owner old.owner ≡ true)
  refused_plan_gives_no_hand input env goal_id plan b w id t h refused at owned =
      hand_owned_before id t h.graph
        (After-state _ (run_plan input env goal_id plan b w) (
          (run_plan-Keeps (read_graph w.graph) input env goal_id plan b refused).at w
            (record { healthy = h; reached = here }))).reached
        at owned
