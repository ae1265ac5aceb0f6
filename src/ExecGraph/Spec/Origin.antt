-- ===== src/ExecGraph/Spec/Origin.antt =====
-- Where a task of a changed graph comes from: one step keeps it, creates it, moves it, gives it
-- evidence or another owner.
use text.Mathlib.TextEquality.{eq_iff}
use atlas_cli.Prelude.{
  String, ◌≡◌, sym, subst, ap, ◌∙◌, ◌⊎◌, Bool-cases, inl, inr, none, some, ◌==◌, string_eq,
}
use atlas_cli.Prelude.Dict.{get, put, get-put}
use atlas_cli.ExecGraph.Contracts.{Evidence, Transition, Task, Payload, task_created, Runtime}
use atlas_cli.ExecGraph.Transitions.{moved}
use atlas_cli.ExecGraph.Ledger.{
  GraphSnapshot, is_safe_key, update_task, apply_payload, with_evidence, with_owner, find_by_key,
}
use atlas_cli.ExecGraph.Ledger.Replay.{IsGraph}
use atlas_cli.ExecGraph.Spec.{
  Role, MayOwn, IsMove, IsNew, Change, add_goal, add_task, move, attach, reassign,
}
use atlas_cli.ExecGraph.Spec.Preserves.{update_task-some, task_id-safe, task_schema-id}

module _ ⦃rt : Runtime⦄ where
  pub data Origin (role : Role) (g : GraphSnapshot) (p : Payload) (id : String) (t : Task)
      : Type 0 where
    kept : get g.tasks id ≡ some t → Origin role g p id t
    born :
        IsNew t
        → find_by_key g t.idempotency_key ≡ none
        → p ≡ task_created t
        → t.id ≡ id
        → Origin role g p id t
    changed :
        (task : Task) (tr : Transition)
        → get g.tasks id ≡ some task
        → IsMove role task tr
        → t ≡ moved task tr
        → Origin role g p id t
    attached :
        (task : Task) (e : Evidence)
        → get g.tasks id ≡ some task
        → t ≡ with_evidence e task
        → Origin role g p id t
    given :
        (task : Task) (owner : String)
        → get g.tasks id ≡ some task
        → MayOwn role owner
        → t ≡ with_owner owner task
        → Origin role g p id t

  -- A task behind a write of one key is the one written, or an old one.
  get-put_cases :
      (g : GraphSnapshot) (k id : String) (new t : Task)
      → get (put g.tasks k new) id ≡ some t
      → ((k ≡ id) × (t ≡ new)) ⊎ (get g.tasks id ≡ some t)
  get-put_cases g k id new t h = elim (Bool-cases (k == id)) [
    | inl same ↦ inl ((eq_iff k id).0 same, cc (rw (get-put g.tasks k id new, same) at h))
    | inr other ↦ inr (rw (get-put g.tasks k id new, other) at h)
  ]

  updated_cases :
      (g : GraphSnapshot) (k id : String) (task t : Task) (f : Task → Task)
      → IsGraph g
      → get g.tasks k ≡ some task
      → get (update_task g k f).tasks id ≡ some t
      → ((get g.tasks id ≡ some task) × (t ≡ f task)) ⊎ (get g.tasks id ≡ some t)
  updated_cases g k id task t f v at h =
      elim (get-put_cases g k id (f task) t
        (subst (λ s. get s.tasks id ≡ some t) (update_task-some g k task f v at) h)) [
          | inl (same, e) ↦ inl (subst (λ j. get g.tasks j ≡ some task) same at, e)
          | inr old ↦ inr old
        ]

  pub Change-Origin :
      (role : Role) (g : GraphSnapshot) (p : Payload) (id : String) (t : Task)
      → IsGraph g
      → Change role g p
      → get (apply_payload g p).tasks id ≡ some t
      → Origin role g p id t
  unfolding apply_payload
  Change-Origin role g _ id t v (add_goal a good fresh) h =
      kept (elim (Bool-cases (is_safe_key a.id)) [ inl e ↦ rw e at h | inr e ↦ rw e at h ])
  Change-Origin role g _ id t v (add_task new good n fresh) h =
      elim (get-put_cases g new.id id new t
        (rw (task_id-safe new.id (task_schema-id new good)) at h)) [
          | inl (same, e) ↦
              born (subst IsNew (sym e) n)
                (subst (λ x. find_by_key g x.idempotency_key ≡ none) (sym e) fresh)
                (ap task_created (sym e)) (ap (λ x. x.id) e ∙ same)
          | inr old ↦ kept old
        ]
  Change-Origin role g _ id t v (move k task tr at m) h =
      elim (updated_cases g k id task t _ v at h) [
        | inl (here, e) ↦ changed task tr here m e
        | inr old ↦ kept old
      ]
  Change-Origin role g _ id t v (attach k task e at good) h =
      elim (updated_cases g k id task t _ v at h) [
        | inl (here, e') ↦ attached task e here e'
        | inr old ↦ kept old
      ]
  Change-Origin role g _ id t v (reassign p task at good m) h =
      elim (updated_cases g p.task_id id task t _ v at h) [
        | inl (here, e) ↦ given task p.to here m e
        | inr old ↦ kept old
      ]
