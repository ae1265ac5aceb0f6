-- ===== src/GoalRunner/Runner/Repeats.antt =====
-- The idempotency key of the tasks that src/goal-runner/runner.ts creates: it is the same for all.
use atlas_cli.Prelude.{
  ℕ, ◌+◌, String, Bool, true, false, Option, none, some, List, ◌∷◌, ◌≡◌, ◌≢◌, ◌⊎◌, inl, inr, refl,
  includes, if◌then◌else◌, is_blank,
}
use atlas_cli.Prelude.Dict.{get}
use atlas_cli.Prelude.Action.{ok, thrown, Action, pure, gets, ◌>>=◌, or_throw}
use atlas_cli.ExecGraph.Contracts.{
  Task, TaskStatus, proposed, accepted, planned, delegated, in_progress, blocked,
  evidence_submitted, verified, rejected, closed, escalated, status_Eq, status_eq, kind_name,
  RiskClass, low, irreversible, Runtime,
}
use atlas_cli.ExecGraph.Transitions.{
  Failure, illegal_transition, unauthorized_transition, TransitionOptions, legal_transitions,
  apply_transition,
}
use atlas_cli.ExecGraph.Ledger.{World, find_by_key, read_graph}
use atlas_cli.ExecGraph.Ledger.Lookup.{get-found}
use atlas_cli.ExecGraph.Ledger.Replay.{IsHealthy}
use atlas_cli.ExecGraph.Idempotency.{MayCreate, create_task-existing}
use atlas_cli.ExecGraph.Api.{assert_writable, now_or, promote_refs, finish_move, move_task}
use atlas_cli.ExecGraph.Inputs.{derive_idempotency_key}
use atlas_cli.Hands.Adapter.{HandPlatform, graph, on_graph}
use atlas_cli.GoalRunner.Effects.{has_red_line, red_line_reason}
use atlas_cli.GoalRunner.Budgets.{GoalBudget, BudgetDir, save_budget}
use atlas_cli.GoalRunner.Contract.{
  TaskPlan, GoalRunnerInput, GoalFailure, GoalPlatform, PlanEnv, GoalWorld, GoalAct, on_hands,
  task_input, call, on_dir, has_external,
}
use atlas_cli.GoalRunner.Plan.{move, move_note, create, halt_plan, task_for_plan}
use atlas_cli.GoalRunner.Runner.{
  paused_note, existing_task, refuse_plan, carry_out, guard_plan, run_plan, run_plans, resumed,
}

no_way_back :
    (s : TaskStatus)
    → s ≢ proposed
    → (includes (legal_transitions s) accepted ≡ false) ⊎ (s ≡ escalated)
unfolding legal_transitions status_eq
no_way_back proposed n = absurd (n refl)
no_way_back accepted n = inl refl
no_way_back planned n = inl refl
no_way_back delegated n = inl refl
no_way_back in_progress n = inl refl
no_way_back blocked n = inl refl
no_way_back evidence_submitted n = inl refl
no_way_back verified n = inl refl
no_way_back rejected n = inl refl
no_way_back closed n = inl refl
no_way_back escalated n = inr refl

abbrev pub Throws : {A : Type 0} → GoalAct A → GoalWorld → Type 0
Throws m w = (e : GoalFailure) × ((m w).0 ≡ thrown e)

if-Throws :
    {A : Type 0} (b : Bool) (m n : GoalAct A) (w : GoalWorld)
    → Throws m w
    → Throws n w
    → Throws (if b then m else n) w
if-Throws true m n w hm hn = hm
if-Throws false m n w hm hn = hn

module _ ⦃rt : Runtime⦄ where
  -- The runner cannot accept a task a second time.
  accept_thrown :
      (task : Task) (opts : TransitionOptions)
      → opts.actor ≡ "goal-runner"
      → task.status ≢ proposed
      → (e : Failure) × (apply_transition task accepted opts ≡ thrown e)
  unfolding apply_transition legal_transitions status_eq is_blank
  accept_thrown task opts a n = elim (no_way_back task.status n) [
    | inl e ↦ (illegal_transition, rw (a, e))
    | inr e ↦ (unauthorized_transition, rw (a, e))
  ]

  move_task-thrown :
      (task : Task) (w : World)
      → w.readonly ≡ false
      → get (read_graph w).tasks task.id ≡ some task
      → task.status ≢ proposed
      → (e : Failure) × (move_task (move_note task.id accepted none) w ≡ (thrown e, w))
  unfolding move_task assert_writable finish_move promote_refs now_or ◌>>=◌ status_eq
  move_task-thrown task w r at n =
      let (e, h) =
        accept_thrown task
          (record { actor = "goal-runner"; ts = w.now; evidence_refs = none; note = none }) refl
          n in
      (e, simp (r, at, h))

  bind-thrown :
      {S E A B : Type 0} (m : Action S E A) (f : A → Action S E B) (s : S) (e : E)
      → (m s).0 ≡ thrown e
      → ((m >>= f) s).0 ≡ thrown e
  unfolding ◌>>=◌
  bind-thrown m f s e h = rw h

  gets-then :
      {S E A B : Type 0} (f : S → A) (g : A → Action S E B) (s : S) → (gets f >>= g) s ≡ g (f s) s
  unfolding ◌>>=◌
  gets-then f g s = refl

  -- The world once the key has been looked up.
  abbrev drawn_once : GoalWorld → GoalWorld
  drawn_once w = record w { graph = record w.graph { drawn = w.graph.drawn + 1 } }

  -- Some task of the graph has the key of the runner's tasks, and it is not a new one.
  pub record IsTaken (old : Task) (w : GoalWorld) : Type 0 where
    pub healthy : IsHealthy w.graph
    pub found : find_by_key (read_graph w.graph) "exec-graph:goal-runner" ≡ some old
    pub moved : old.status ≢ proposed

  module _ (old : Task) (w : GoalWorld) (taken : IsTaken old w) (goal_id : String) (plan : TaskPlan)
      (may : (risk : RiskClass) → MayCreate (task_input goal_id plan risk) w.graph) where
    create-old : (risk : RiskClass) → create goal_id plan risk w ≡ (ok old, drawn_once w)
    unfolding create on_hands on_graph or_throw pure ◌>>=◌ derive_idempotency_key kind_name
    create-old risk = rw (
        create_task-existing (task_input goal_id plan risk) w.graph old taken.healthy (may risk)
          taken.found)

    accept-thrown :
        (d : BudgetDir)
        → let v : GoalWorld = record (drawn_once w) { dir = d } in
          (e : GoalFailure) × (move old.id accepted none v ≡ (thrown e, v))
    unfolding move on_hands on_graph read_graph
    accept-thrown d =
        let there : get (read_graph w.graph).tasks old.id ≡ some old =
          get-found (read_graph w.graph) "exec-graph:goal-runner" old
            taken.healthy.graph.tasks_keyed taken.found in
        let (e, h) =
          move_task-thrown old (drawn_once w).graph (may low).writable there taken.moved in
        (call (graph e), rw h)

    halt-thrown : (risk : RiskClass) (note : String) → Throws (halt_plan goal_id plan risk note) w
    unfolding halt_plan ◌>>=◌
    halt-thrown risk note = let (e, h) = accept-thrown w.dir in (e, rw (create-old risk, h))

    refuse-thrown :
        ⦃hp : HandPlatform⦄ ⦃gp : GoalPlatform⦄ (b : GoalBudget) (risk : RiskClass) (note : String)
        (notified : Bool) (status : String) (reason : Option String)
        → Throws (refuse_plan goal_id plan b risk note notified status reason) w
    unfolding refuse_plan
    refuse-thrown b risk note notified status reason =
        let (e, h) = halt-thrown risk note in (e, bind-thrown _ _ w e h)

    task-thrown : (b : GoalBudget) → Throws (task_for_plan goal_id plan none b) w
    unfolding task_for_plan on_dir ◌>>=◌
    task-thrown b =
        let b' = record b { total_tasks_created = b.total_tasks_created + 1 } in
        let (e, h) = accept-thrown (save_budget b' w.dir) in (e, rw (create-old low, h))

    -- Whichever guard a plan meets, its task is the old one.
    carry-thrown :
        ⦃hp : HandPlatform⦄ ⦃gp : GoalPlatform⦄ (input : GoalRunnerInput) (env : PlanEnv)
        (b : GoalBudget)
        → resumed input ≡ none
        → Throws (carry_out input env goal_id plan b) w
    unfolding carry_out
    carry-thrown input env b n =
        let (e, h) = task-thrown b in
        (e, rw (gets-then (existing_task input goal_id plan) _ w, n) (bind-thrown _ _ w e h))

    guard-thrown :
        ⦃hp : HandPlatform⦄ ⦃gp : GoalPlatform⦄ (input : GoalRunnerInput) (env : PlanEnv)
        (b : GoalBudget)
        → resumed input ≡ none
        → Throws (guard_plan input env goal_id plan b) w
    unfolding guard_plan
    guard-thrown input env b n =
        if-Throws env.paused _ _ w
          (refuse-thrown b low paused_note true "blocked" (some paused_note))
          (if-Throws (has_red_line plan.effects) _ _ w
            (refuse-thrown b irreversible (red_line_reason plan.effects) env.notifies "escalated"
              (some (red_line_reason plan.effects)))
            (if-Throws (has_external input.browser_actions) _ _ w
              (refuse-thrown b irreversible "external browser target denied" env.notifies
                "escalated" none)
              (carry-thrown input env b n)))

    plan-thrown :
        ⦃hp : HandPlatform⦄ ⦃gp : GoalPlatform⦄ (input : GoalRunnerInput) (env : PlanEnv)
        (b : GoalBudget)
        → resumed input ≡ none
        → Throws (run_plan input env goal_id plan b) w
    unfolding run_plan
    plan-thrown input env b n =
        let (e, h) = guard-thrown input env b n in
        (e, rw (gets-then (existing_task input goal_id plan) _ w, n) h)

    -- On healthy files, where no write of the graph is going to fail, with a task of the key that
    -- all of the runner's tasks have, and which is no longer `proposed`, a new goal's plans throw
    -- at the first one, if there is any: the call that creates the task returns the old one, and
    -- that cannot be accepted again. (The plan's task would pass the guards of `createTask` with
    -- any risk class.)
    pub later_plans_throw :
        ⦃hp : HandPlatform⦄ ⦃gp : GoalPlatform⦄ (input : GoalRunnerInput) (envs : ℕ → PlanEnv)
        (i : ℕ) (plans : List TaskPlan) (b : GoalBudget)
        → resumed input ≡ none
        → Throws (run_plans input envs goal_id i (plan ∷ plans) b) w
    unfolding run_plans
    later_plans_throw input envs i plans b n =
        let (e, h) = plan-thrown input (envs i) b n in (e, bind-thrown _ _ w e h)
