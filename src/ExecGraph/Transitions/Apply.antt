-- ===== src/ExecGraph/Transitions/Apply.antt =====
-- `applyTransition` of src/exec-graph/transitions.ts, exactly: when it returns, what, and which
-- error is thrown where it does not.
use text.Mathlib.TextEquality.{eq_iff}
use atlas_cli.Prelude.{
  String, ◌≡◌, refl, ◌↔◌, ◌⊎◌, inl, inr, true, false, not, ◌&&◌, arith, includes, ◌==◌, string_eq,
  is_blank, is_empty, Bool-cases,
}
use atlas_cli.Prelude.Action.{ok, thrown}
use atlas_cli.ExecGraph.Contracts.{
  TaskStatus, verified, closed, escalated, status_Eq, status_eq, status_eq_iff, Task, Runtime,
  transition_schema, task_schema, has_refs,
}
use atlas_cli.ExecGraph.Transitions.{
  illegal_transition, unauthorized_transition, legal_transitions, escalation_exit_actors,
  TransitionOptions, new_transition, moved, apply_transition,
}
use atlas_cli.ExecGraph.Transitions.Edges.{◌⟶◌, edge_of_table, table_of_edge}

abbrev pub IsAuthority : String → Type 0
IsAuthority actor = (actor ≡ "ceo") ⊎ (actor ≡ "external-cto")

exit_actors_iff :
    (actor : String) → (includes escalation_exit_actors actor ≡ true) ↔ IsAuthority actor
exit_actors_iff actor = ground (arith, eq_iff "ceo" actor, eq_iff "external-cto" actor)

module _ ⦃rt : Runtime⦄ where
  -- What a move needs.
  pub record Permits (task : Task) (to : TaskStatus) (opts : TransitionOptions) : Type 0 where
    pub actor : is_blank opts.actor ≡ false
    pub edge : task.status ⟶ to
    pub exit : task.status ≡ escalated → IsAuthority opts.actor
    pub entry : transition_schema (new_transition task.status to opts) ≡ true
    pub result : task_schema (moved task (new_transition task.status to opts)) ≡ true

  apply_transition_ok :
      (task : Task) (to : TaskStatus) (opts : TransitionOptions) {next : Task}
      → apply_transition task to opts ≡ ok next
      → let t = new_transition task.status to opts in
        (is_blank opts.actor ≡ false)
        × (includes (legal_transitions task.status) to ≡ true)
        × ((task.status == escalated && not (includes escalation_exit_actors opts.actor)) ≡ false)
        × (transition_schema t ≡ true)
        × (task_schema (moved task t) ≡ true)
        × (next ≡ moved task t)
  unfolding apply_transition
  apply_transition_ok task to opts h = ground arith

  exit_of_test :
      (s : TaskStatus) (actor : String)
      → (s == escalated && not (includes escalation_exit_actors actor)) ≡ false
      → s ≡ escalated
      → IsAuthority actor
  exit_of_test s actor h e =
      (exit_actors_iff actor).0 (ground (arith, (status_eq_iff s escalated).1 e))

  test_of_exit :
      (s : TaskStatus) (actor : String)
      → (s ≡ escalated → IsAuthority actor)
      → (s == escalated && not (includes escalation_exit_actors actor)) ≡ false
  test_of_exit s actor h = elim (Bool-cases (status_eq s escalated)) [
    | inl here ↦ rw (here, (exit_actors_iff actor).1 (h ((status_eq_iff s escalated).0 here)))
    | inr away ↦ rw away
  ]

  apply_transition-moved :
      (task : Task) (to : TaskStatus) (opts : TransitionOptions)
      → Permits task to opts
      → apply_transition task to opts ≡ ok (moved task (new_transition task.status to opts))
  unfolding apply_transition
  apply_transition-moved task to opts p =
      rw (
        p.actor,
        table_of_edge p.edge,
        test_of_exit task.status opts.actor p.exit,
        p.entry,
        p.result,
      )

  -- The call returns exactly when the move is permitted, and then the task with the new status and
  -- the move at the end of its history.
  pub apply_transition_iff :
      (task : Task) (to : TaskStatus) (opts : TransitionOptions) (next : Task)
      → (apply_transition task to opts ≡ ok next)
        ↔ (Permits task to opts × (next ≡ moved task (new_transition task.status to opts)))
  apply_transition_iff task to opts next = (
    λ h.
        let (a, b, c, d, e, f) = apply_transition_ok task to opts h in
        (
          record {
            actor = a;
            edge = edge_of_table task.status to b;
            exit = exit_of_test task.status opts.actor c;
            entry = d;
            result = e;
          },
          f,
        ),
    λ h. rw h.1 (apply_transition-moved task to opts h.0),
  )

  -- From `closed` every move is illegal, whoever makes it.
  pub closed_terminal :
      (task : Task) (to : TaskStatus) (opts : TransitionOptions)
      → task.status ≡ closed
      → is_blank opts.actor ≡ false
      → apply_transition task to opts ≡ thrown illegal_transition
  unfolding apply_transition legal_transitions
  closed_terminal task to opts h a = rw (h, a)

  -- Out of `escalated`, along a legal edge, only an authority is let through.
  pub exit_unauthorized :
      (task : Task) (to : TaskStatus) (opts : TransitionOptions)
      → task.status ≡ escalated
      → escalated ⟶ to
      → is_blank opts.actor ≡ false
      → ¬ IsAuthority opts.actor
      → apply_transition task to opts ≡ thrown unauthorized_transition
  unfolding apply_transition
  exit_unauthorized task to opts h e a n =
      elim (Bool-cases (includes escalation_exit_actors opts.actor)) [
        | inl yes_ ↦ absurd (n ((exit_actors_iff opts.actor).0 yes_))
        | inr no_ ↦ rw (h, a, table_of_edge e, no_, (status_eq_iff escalated escalated).1 refl)
      ]

  -- A task that a move leaves in `verified` holds evidence, and the move cites some.
  pub verified_has_evidence :
      (task next : Task) (opts : TransitionOptions)
      → apply_transition task verified opts ≡ ok next
      → (next.status ≡ verified)
        × (has_refs opts.evidence_refs ≡ true)
        × (is_empty next.evidence ≡ false)
  unfolding transition_schema task_schema status_eq
  verified_has_evidence task next opts h =
      let (p, e) = (apply_transition_iff task verified opts next).0 h in
      ground (arith, p.entry, p.result, e)
