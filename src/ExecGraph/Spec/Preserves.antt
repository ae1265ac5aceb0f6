-- ===== src/ExecGraph/Spec/Preserves.antt =====
-- Every step keeps a snapshot well-formed.
use text.Mathlib.TextEquality.{eq_iff}
use atlas_cli.Prelude.{
  is_empty, String, ◌≡◌, refl, ◌∙◌, subst, Bool, true, false, some, List, [], ◌∷◌, ◌++◌, every,
  arith, string_eq,
}
use atlas_cli.Prelude.Dict.{get, put, All-put, get-All}
use atlas_cli.ExecGraph.Contracts.{
  status_Eq, Evidence, Goal, Task, Payload, Runtime, goal_id_schema, task_id_schema,
  evidence_schema, goal_schema, task_schema,
}
use atlas_cli.ExecGraph.Ledger.{
  GraphSnapshot, is_safe_key, update_task, apply_payload, with_evidence, with_owner,
}
use atlas_cli.ExecGraph.Ledger.Keyed.{put-Keyed, get-id}
use atlas_cli.ExecGraph.Ledger.Replay.{IsGraph}
use atlas_cli.ExecGraph.Spec.{
  Role, Change, add_goal, add_task, move, attach, reassign, Changes, here, next,
}

-- An id of the right form is no key that the fold refuses.
safe_of_schema :
    (schema : String → Bool) (id : String)
    → schema "__proto__" ≡ false
    → schema "constructor" ≡ false
    → schema "prototype" ≡ false
    → schema id ≡ true
    → is_safe_key id ≡ true
unfolding is_safe_key
safe_of_schema schema id a b c h =
    ground (arith, eq_iff "__proto__" id, eq_iff "constructor" id, eq_iff "prototype" id)

pub task_id-safe : (id : String) → task_id_schema id ≡ true → is_safe_key id ≡ true
unfolding task_id_schema
task_id-safe id h = safe_of_schema task_id_schema id refl refl refl h

pub goal_id-safe : (id : String) → goal_id_schema id ≡ true → is_safe_key id ≡ true
unfolding goal_id_schema
goal_id-safe id h = safe_of_schema goal_id_schema id refl refl refl h

every-concat {ℓ} :
    {A : Type ℓ} (p : A → Bool) (xs : List A) (x : A)
    → every p xs ≡ true
    → p x ≡ true
    → every p (xs ++ x ∷ []) ≡ true
every-concat p [] x h e = rw e
every-concat p (y ∷ xs) x h e = ground (arith, every-concat p xs x)

is_empty-concat {ℓ} : {A : Type ℓ} (xs : List A) (x : A) → is_empty (xs ++ x ∷ []) ≡ false
is_empty-concat [] x = refl
is_empty-concat (y ∷ xs) x = refl

module _ ⦃rt : Runtime⦄ where
  pub task_schema-id : (t : Task) → task_schema t ≡ true → task_id_schema t.id ≡ true
  unfolding task_schema
  task_schema-id t h = ground arith

  goal_schema-id : (g : Goal) → goal_schema g ≡ true → goal_id_schema g.id ≡ true
  unfolding goal_schema
  goal_schema-id g h = ground arith

  pub task_schema-with_evidence :
      (t : Task) (e : Evidence)
      → task_schema t ≡ true
      → evidence_schema e ≡ true
      → task_schema (with_evidence e t) ≡ true
  unfolding task_schema
  task_schema-with_evidence t e h v =
      ground (arith, every-concat evidence_schema t.evidence e, is_empty-concat t.evidence e)

  -- A task put under its own id.
  put-IsGraph :
      (g : GraphSnapshot) (id : String) (t : Task)
      → IsGraph g
      → t.id ≡ id
      → task_schema t ≡ true
      → IsGraph (record g { tasks = put g.tasks id t })
  put-IsGraph g id t h e v = record {
    goals_keyed = h.goals_keyed;
    tasks_keyed =
        put-Keyed (λ t. t.id) g.tasks id t h.tasks_keyed e
          (subst (λ k. is_safe_key k ≡ true) e (task_id-safe t.id (task_schema-id t v)));
    goals_valid = h.goals_valid;
    tasks_valid = All-put (λ t. task_schema t ≡ true) g.tasks id t h.tasks_valid v;
  }

  -- What an update of a task that is there comes to.
  pub update_task-some :
      (g : GraphSnapshot) (id : String) (task : Task) (f : Task → Task)
      → IsGraph g
      → get g.tasks id ≡ some task
      → update_task g id f ≡ record g { tasks = put g.tasks id (f task) }
  unfolding update_task
  update_task-some g id task f h e =
      let same = get-id (λ t. t.id) g.tasks id task h.tasks_keyed e in
      let valid = get-All (λ t. task_schema t ≡ true) g.tasks id task h.tasks_valid e in
      let safe : is_safe_key id ≡ true =
        subst (λ k. is_safe_key k ≡ true) same (task_id-safe task.id (task_schema-id task valid)) in
      rw (safe, e)

  pub task_of_graph :
      (g : GraphSnapshot) (id : String) (task : Task)
      → IsGraph g
      → get g.tasks id ≡ some task
      → task_schema task ≡ true
  task_of_graph g id task h e = get-All (λ t. task_schema t ≡ true) g.tasks id task h.tasks_valid e

  update-IsGraph :
      (g : GraphSnapshot) (id : String) (task : Task) (f : Task → Task)
      → IsGraph g
      → get g.tasks id ≡ some task
      → (f task).id ≡ task.id
      → task_schema (f task) ≡ true
      → IsGraph (update_task g id f)
  update-IsGraph g id task f h e same v =
      rw (update_task-some g id task f h e)
        (put-IsGraph g id (f task) h (same ∙ get-id (λ t. t.id) g.tasks id task h.tasks_keyed e) v)

  pub Change-IsGraph :
      (role : Role) (g : GraphSnapshot) {p : Payload}
      → IsGraph g
      → Change role g p
      → IsGraph (apply_payload g p)
  unfolding apply_payload
  Change-IsGraph role g h (add_goal a v fresh) =
      let safe = goal_id-safe a.id (goal_schema-id a v) in
      rw safe (record {
        goals_keyed = put-Keyed (λ g. g.id) g.goals a.id a h.goals_keyed refl safe;
        tasks_keyed = h.tasks_keyed;
        goals_valid = All-put (λ g. goal_schema g ≡ true) g.goals a.id a h.goals_valid v;
        tasks_valid = h.tasks_valid;
      })
  Change-IsGraph role g h (add_task t v new fresh) =
      rw (task_id-safe t.id (task_schema-id t v)) (put-IsGraph g t.id t h refl v)
  Change-IsGraph role g h (move id task t e m) = update-IsGraph g id task _ h e refl m.result
  Change-IsGraph role g h (attach id task e at v) =
      update-IsGraph g id task (with_evidence e) h at refl
        (task_schema-with_evidence task e (task_of_graph g id task h at) v)
  Change-IsGraph role g h (reassign p task at v m) =
      update-IsGraph g p.task_id task (with_owner p.to) h at refl v

  pub Changes-IsGraph :
      (role : Role) {g h : GraphSnapshot} → IsGraph g → Changes role g h → IsGraph h
  Changes-IsGraph role v here = v
  Changes-IsGraph role v (next {h = k} p c s) = Change-IsGraph role k (Changes-IsGraph role v c) s
