-- ===== src/ExecGraph/Refinement/Creates.antt =====
-- `createGoal`, `createTask` and `importTask` of src/exec-graph/api.ts take legal steps only.
use atlas_cli.Prelude.{
  String, ◌≡◌, refl, true, false, Option, none, some, arith, or_else, Option-cases, Bool-cases, inl,
  inr,
}
use atlas_cli.Prelude.Action.{pure}
use atlas_cli.Prelude.Dict.{get}
use atlas_cli.ExecGraph.Contracts.{Goal, Task, goal_created, task_created, Runtime, payload_schema}
use atlas_cli.ExecGraph.Ledger.{GraphSnapshot, AppendResult, duplicate_of, find_by_key, read_graph}
use atlas_cli.ExecGraph.Api.{
  create_new_goal, create_goal, is_hand_owner, new_task, created_or_existing, create_task,
  import_input, import_task,
}
use atlas_cli.ExecGraph.Inputs.{CreateGoalInput, CreateTaskInput, ImportTaskInput, truthy}
use atlas_cli.ExecGraph.Spec.{Role, IsNew, Change, add_goal, add_task}
use atlas_cli.ExecGraph.Refinement.Ensures.{Ensures-if}
use atlas_cli.ExecGraph.Refinement.Basics.{
  Keeps, Keeps-bind, Keeps-pure, Keeps-throw, assert_writable-Keeps, now_or-Keeps, draw-Keeps,
  append_event-Keeps, parsed-Keeps, Keeps-gets,
}

fresh_goal :
    (g : GraphSnapshot) (a : Goal)
    → duplicate_of g (goal_created a) ≡ none
    → get g.goals a.id ≡ none
unfolding duplicate_of
fresh_goal g a h = ground arith

fresh_task :
    (g : GraphSnapshot) (t : Task)
    → duplicate_of g (task_created t) ≡ none
    → find_by_key g t.idempotency_key ≡ none
unfolding duplicate_of
fresh_task g t h = elim (Option-cases (find_by_key g t.idempotency_key)) [
  | inl e ↦ e
  | inr (u, e) ↦ absurd (cc (rw (e, duplicate_of) at h))
]

module _ ⦃rt : Runtime⦄ (role : Role) (start : GraphSnapshot) where
  goal-Change :
      (g : GraphSnapshot) (a : Goal)
      → duplicate_of g (goal_created a) ≡ none
      → payload_schema (goal_created a) ≡ true
      → Change role g (goal_created a)
  unfolding payload_schema
  goal-Change g a d v = add_goal a v (fresh_goal g a d)

  create_new_goal-Keeps : (input : CreateGoalInput) → Keeps role start (create_new_goal input)
  unfolding create_new_goal
  create_new_goal-Keeps input = Keeps-bind role start _ _ (now_or-Keeps role start _) λ ts.
      Keeps-bind role start _ _ (draw-Keeps role start _ _) λ drawn.
        Keeps-bind role start _ _ (parsed-Keeps role start _ _) λ a.
          Keeps-bind role start _ _ (append_event-Keeps role start _ (λ g. goal-Change g _))
            λ r. Keeps-pure role start _

  pub create_goal-Keeps : (input : CreateGoalInput) → Keeps role start (create_goal input)
  unfolding create_goal
  create_goal-Keeps input = Keeps-bind role start _ _ (assert_writable-Keeps role start) λ u.
      Keeps-bind role start _ _ (Keeps-gets role start read_graph)
        λ graph. by_id graph (truthy input.id)
    where
      by_found :
          (o : Option Goal)
          → Keeps role start
              (elim o [ none ↦ create_new_goal input | some existing ↦ pure existing ])
      by_found none = create_new_goal-Keeps input
      by_found (some a) = Keeps-pure role start a

      by_id :
          (graph : GraphSnapshot) (o : Option String)
          → Keeps role start (elim o [
            | none ↦ create_new_goal input
            | some id ↦ elim (get graph.goals id) [
              | none ↦ create_new_goal input
              | some existing ↦ pure existing
            ]
          ])
      by_id graph none = create_new_goal-Keeps input
      by_id graph (some id) = by_found (get graph.goals id)

  pub new_task-IsNew :
      (input : CreateTaskInput) (id ts : String)
      → is_hand_owner (or_else input.owner "atlas") ≡ false
      → IsNew (new_task input id ts)
  new_task-IsNew input id ts h = record {
    status = refl;
    owner = h;
    evidence = refl;
    history = (_, refl, refl, refl);
  }

  pub task-Change :
      (g : GraphSnapshot) (t : Task)
      → IsNew t
      → duplicate_of g (task_created t) ≡ none
      → payload_schema (task_created t) ≡ true
      → Change role g (task_created t)
  unfolding payload_schema
  task-Change g t n d v = add_task t v n (fresh_task g t d)

  created-Keeps : (t : Task) (r : AppendResult) → Keeps role start (created_or_existing t r)
  unfolding created_or_existing pure
  created-Keeps t r = record {
    at = λ w h. elim (Bool-cases r.deduped) [ inl e ↦ rw e h | inr e ↦ rw e h ];
  }

  pub create_task-Keeps : (input : CreateTaskInput) → Keeps role start (create_task input)
  unfolding create_task
  create_task-Keeps input = Keeps-bind role start _ _ (assert_writable-Keeps role start) λ u.
      Ensures-if _ _ _ (λ e. Keeps-throw role start _)
        λ owner. Keeps-bind role start _ _ (now_or-Keeps role start _) λ ts.
          Keeps-bind role start _ _ (draw-Keeps role start _ _) λ id.
            Keeps-bind role start _ _ (parsed-Keeps role start _ _) λ t.
              Keeps-bind role start _ _
                (append_event-Keeps role start _
                  (λ g. task-Change g _ (new_task-IsNew input id ts owner)))
                λ r. created-Keeps _ r

  pub import_task-Keeps : (input : ImportTaskInput) → Keeps role start (import_task input)
  unfolding import_task
  import_task-Keeps input = create_task-Keeps (import_input input)
