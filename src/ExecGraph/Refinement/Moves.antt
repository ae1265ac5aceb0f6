-- ===== src/ExecGraph/Refinement/Moves.antt =====
-- The moves, the evidence and the reassignments of src/exec-graph/api.ts and of
-- src/exec-graph/verifier-port.ts take legal steps only.
use atlas_cli.Prelude.{
  String, ◌≡◌, refl, sym, ap, ◌∙◌, subst, true, false, ◌||◌, Option, none, some, List, [], ◌∷◌,
  arith, ◌==◌,
}
use atlas_cli.Prelude.Action.{gets, or_throw, ◌>>=◌}
use atlas_cli.Prelude.Dict.{get, get-put_self}
use atlas_cli.ExecGraph.Contracts.{
  TaskStatus, verified, rejected, status_Eq, status_eq_iff, Evidence, Transition, Task, Payload,
  transition, evidence_added, owner_reassigned, OwnerReassigned, Runtime, payload_schema,
  task_schema,
}
use atlas_cli.ExecGraph.Transitions.{
  Failure, TransitionOptions, new_transition, moved, apply_transition,
}
use atlas_cli.ExecGraph.Transitions.Apply.{Permits, apply_transition_iff}
use atlas_cli.ExecGraph.Ledger.{
  GraphSnapshot, World, Act, duplicate_of, with_evidence, with_owner, update_task, apply_payload,
  read_graph, append_event,
}
use atlas_cli.ExecGraph.Ledger.Replay.{IsGraph}
use atlas_cli.ExecGraph.Ledger.Keyed.{get-id}
use atlas_cli.ExecGraph.Api.{
  now_or, add_evidence, promote_refs, finish_move, move_task, finish_reassign, reassign_owner,
}
use atlas_cli.ExecGraph.Inputs.{MoveTaskInput, AddEvidenceInput, ReassignOwnerOptions, event_of}
use atlas_cli.ExecGraph.VerifierPort.{move_task_as_verifier, reassign_owner_as_verifier}
use atlas_cli.ExecGraph.Spec.{
  Role, caller, verifier, MayMove, MayOwn, Change, move, attach, reassign,
}
use atlas_cli.ExecGraph.Spec.Preserves.{update_task-some, task_of_graph}
use atlas_cli.ExecGraph.Refinement.Ensures.{
  Ensures, Ensures-pure, Ensures-throw, Ensures-gets, Ensures-if, Ensures-bind, Ensures-lift,
  Ensures-or_throw, Ensures-weaken, Ensures-pre, Ensures-choose, Ensures-given,
}
use atlas_cli.ExecGraph.Refinement.Appends.{Reached, Holds, append_event-Ensures}
use atlas_cli.ExecGraph.Refinement.Basics.{
  Keeps, Keeps-bind, Keeps-throw_if, Holds-self, assert_writable-Keeps,
}

no_duplicate_evidence :
    (g : GraphSnapshot) (id : String) (e : Evidence) → duplicate_of g (evidence_added id e) ≡ none
unfolding duplicate_of
no_duplicate_evidence g id e = refl

evidence_payload :
    (g : GraphSnapshot) (id : String) (e : Evidence)
    → apply_payload g (evidence_added id e) ≡ update_task g id (with_evidence e)
unfolding apply_payload
evidence_payload g id e = refl

no_duplicate_move :
    (g : GraphSnapshot) (id : String) (t : Transition) → duplicate_of g (transition id t) ≡ none
unfolding duplicate_of
no_duplicate_move g id t = refl

move_payload :
    (g : GraphSnapshot) (id : String) (t : Transition)
    → apply_payload g (transition id t) ≡ update_task g id (λ x. moved x t)
unfolding apply_payload
move_payload g id t = refl

no_duplicate_owner :
    (g : GraphSnapshot) (p : OwnerReassigned) → duplicate_of g (owner_reassigned p) ≡ none
unfolding duplicate_of
no_duplicate_owner g p = refl

owner_payload :
    (g : GraphSnapshot) (p : OwnerReassigned)
    → apply_payload g (owner_reassigned p) ≡ update_task g p.task_id (with_owner p.to)
unfolding apply_payload
owner_payload g p = refl

module _ ⦃rt : Runtime⦄ (role : Role) (start : GraphSnapshot) where
  -- The graph is within reach, and the task in hand is the one that stands in it.
  pub record Current (task : Task) (w : World) : Type 0 where
    pub reached : Reached role start w
    pub stands : get (read_graph w).tasks task.id ≡ some task

  -- A task that the graph has under a key is current, since the key is its id.
  pub Current-get :
      (id : String) (task : Task) (w : World)
      → Reached role start w
      → get (read_graph w).tasks id ≡ some task
      → Current task w
  Current-get id task w h e =
      let same = get-id (λ t. t.id) (read_graph w).tasks id task h.healthy.graph.tasks_keyed e in
      record {
        reached = h;
        stands = subst (λ k. get (read_graph w).tasks k ≡ some task) (sym same) e;
      }

  -- After the event the task stands in the graph as the fold changed it.
  updated :
      (g : GraphSnapshot) (task : Task) (f : Task → Task) (w : World)
      → IsGraph g
      → get g.tasks task.id ≡ some task
      → (f task).id ≡ task.id
      → Holds role start (update_task g task.id f) w
      → Current (f task) w
  updated g task f w v e same h = record {
    reached = h.here;
    stands =
        subst (λ k. get (read_graph w).tasks k ≡ some (f task)) (sym same)
          (rw (h.reads, update_task-some g task.id task f v e)
            (get-put_self g.tasks task.id (f task)));
  }

  now_or-Current :
      (task : Task) (ts : Option String)
      → Ensures (Current task) (λ a w. Current task w) (Reached role start) (now_or ts)
  unfolding now_or
  now_or-Current task ts = record { at = λ w h. h }

  append-Current :
      (task : Task) (f : Task → Task) (ts actor : String) (p : Payload)
      → ((g : GraphSnapshot) → duplicate_of g p ≡ none)
      → ((g : GraphSnapshot) → apply_payload g p ≡ update_task g task.id f)
      → (f task).id ≡ task.id
      → ((g : GraphSnapshot)
          → get g.tasks task.id ≡ some task
          → payload_schema p ≡ true
          → task_schema task ≡ true
          → Change role g p)
      → Ensures
          (Current task)
          (λ a w. Current (f task) w)
          (Reached role start)
          (append_event (event_of ts actor p))
  append-Current task f ts actor p d a same c = Ensures-choose _ λ w h.
      let g = read_graph w in
      let v = h.reached.healthy.graph in
      Ensures-pre _ (λ s e. subst (Holds role start g) (sym e) (Holds-self role start w h.reached))
        (Ensures-weaken _
          (λ r s x.
            updated g task f s v h.stands same (subst (λ k. Holds role start k s) (a g) x.1))
          (append_event-Ensures role start g (event_of ts actor p) (d g)
            (λ good. c g h.stands good (task_of_graph g task.id task v h.stands))))

  -- `const task = readGraph().tasks[id]; if (!task) throw …`
  looked_up :
      {B : Type 0} {Q : B → World → Type 0} (id : String) (missing : Failure) (f : Task → Act B)
      → ((task : Task) → task.id ≡ id → Ensures (Current task) Q (Reached role start) (f task))
      → Ensures
          (Reached role start)
          Q
          (Reached role start)
          (gets read_graph >>= λ graph. or_throw (get graph.tasks id) missing >>= f)
  looked_up id missing f k =
      Ensures-bind _ _
        (Ensures-gets {Q = λ graph w. Reached role start w × (read_graph w ≡ graph)} read_graph
          (λ w h. (h, refl)))
        λ graph.
          Ensures-bind _ _
            (Ensures-or_throw {Q = λ task w. (task.id ≡ id) × Current task w} (get graph.tasks id)
              missing
              (λ task e w h.
                let at = subst (λ g. get g.tasks id ≡ some task) (sym h.1) e in
                (
                  get-id (λ t. t.id) (read_graph w).tasks id task h.0.healthy.graph.tasks_keyed at,
                  Current-get id task w h.0 at,
                ))
              (λ w h. h.0))
            (λ task. Ensures-given _ (k task))

  evidence-Change :
      (task : Task) (e : Evidence) (g : GraphSnapshot)
      → get g.tasks task.id ≡ some task
      → payload_schema (evidence_added task.id e) ≡ true
      → task_schema task ≡ true
      → Change role g (evidence_added task.id e)
  unfolding payload_schema
  evidence-Change task e g at v t = attach task.id task e at (ground arith)

  pub add_evidence-Ensures :
      (input : AddEvidenceInput)
      → Ensures
          (Reached role start)
          (λ task w. Current task w)
          (Reached role start)
          (add_evidence input)
  unfolding add_evidence
  add_evidence-Ensures input = looked_up input.task_id _ _ λ task _.
      Ensures-bind _ _ (now_or-Current task input.ts) λ ts.
        Ensures-bind _ _
          (append-Current task (with_evidence input.evidence) _ _
            (evidence_added task.id input.evidence) (λ g. no_duplicate_evidence g _ _)
            (λ g. evidence_payload g _ _) refl (evidence-Change task input.evidence))
          λ r. Ensures-pure _ (λ w h. h)

  promote_refs-Ensures :
      (actor ts : String) (refs : List String) (task : Task)
      → Ensures
          (Current task)
          (λ t w. Current t w)
          (Reached role start)
          (promote_refs actor ts refs task)
  unfolding promote_refs
  promote_refs-Ensures actor ts [] task = Ensures-pure task (λ w h. h)
  promote_refs-Ensures actor ts (ref ∷ refs) task =
      Ensures-bind _ _ (Ensures-pre _ (λ w h. h.reached) (add_evidence-Ensures _))
        λ t. promote_refs-Ensures actor ts refs t

  move-Change :
      (task : Task) (to : TaskStatus) (opts : TransitionOptions)
      → MayMove role to
      → Permits task to opts
      → (g : GraphSnapshot) → get g.tasks task.id ≡ some task
      → Change role g (transition task.id (new_transition task.status to opts))
  move-Change task to opts m p g at =
      move task.id task (new_transition task.status to opts) at (record {
        leaves = refl;
        edge = p.edge;
        exit = p.exit;
        authority = m;
        entry = p.entry;
        result = p.result;
      })

  pub finish_move-Ensures :
      (task : Task) (input : MoveTaskInput)
      → MayMove role input.to
      → Ensures (Current task) (λ t w. Current t w) (Reached role start) (finish_move task input)
  unfolding finish_move
  finish_move-Ensures task input m = Ensures-bind _ _ (now_or-Current task input.ts) λ ts.
      Ensures-bind _ _ (promote_refs-Ensures input.actor ts _ task) λ task'.
        let opts : TransitionOptions = record {
          actor = input.actor;
          ts = ts;
          evidence_refs = input.evidence_refs;
          note = input.note;
        } in
        let t = new_transition task'.status input.to opts in
        Ensures-bind _ _
          (Ensures-lift
            {Q = λ next w. (Permits task' input.to opts × (next ≡ moved task' t)) × Current task' w}
            (apply_transition task' input.to opts)
            (λ next e w h. ((apply_transition_iff task' input.to opts next).0 e, h))
            (λ w h. h.reached))
          λ next. Ensures-given _ λ permitted.
            Ensures-bind _ _
              (append-Current task' (λ x. moved x t) ts input.actor (transition task'.id t)
                (λ g. no_duplicate_move g _ _) (λ g. move_payload g _ _) refl
                (λ g at v s. move-Change task' input.to opts m permitted.0 g at))
              λ r. Ensures-pure next (λ w h. subst (λ x. Current x w) (sym permitted.1) h)

  owner-Change :
      (task : Task) (p : OwnerReassigned)
      → p.task_id ≡ task.id
      → MayOwn role p.to
      → (g : GraphSnapshot) → get g.tasks task.id ≡ some task
      → payload_schema (owner_reassigned p) ≡ true
      → task_schema task ≡ true
      → Change role g (owner_reassigned p)
  unfolding payload_schema task_schema
  owner-Change task p e m g at v t =
      reassign p task (subst (λ k. get g.tasks k ≡ some task) (sym e) at) (ground arith) m

  pub finish_reassign-Ensures :
      (id owner : String) (opts : ReassignOwnerOptions) (missing : Failure)
      → MayOwn role owner
      → Ensures
          (Reached role start)
          (λ t w. Current t w)
          (Reached role start)
          (finish_reassign id owner opts missing)
  unfolding finish_reassign
  finish_reassign-Ensures id owner opts missing m = looked_up id missing _ λ task e.
      Ensures-bind _ _ (now_or-Current task opts.ts) λ ts.
        Ensures-bind _ _
          (append-Current task (with_owner owner) ts opts.actor _ (λ g. no_duplicate_owner g _)
            (λ g. owner_payload g _ ∙ ap (λ k. update_task g k (with_owner owner)) (sym e)) refl
            (owner-Change task _ (sym e) m))
          λ r. Ensures-pure _ (λ w h. h)

  pub add_evidence-Keeps : (input : AddEvidenceInput) → Keeps role start (add_evidence input)
  add_evidence-Keeps input = Ensures-weaken _ (λ t w h. h.reached) (add_evidence-Ensures input)

  finish_move-Keeps :
      (id : String) (missing : Failure) (input : MoveTaskInput)
      → MayMove role input.to
      → Keeps role start (
          gets read_graph >>= λ graph.
          or_throw (get graph.tasks id) missing >>= λ task. finish_move task input)
  finish_move-Keeps id missing input m =
      Ensures-weaken _ (λ t w h. h.reached)
        (looked_up id missing _ λ task _. finish_move-Ensures task input m)

  finish_reassign-Keeps :
      (id owner : String) (opts : ReassignOwnerOptions) (missing : Failure)
      → MayOwn role owner
      → Keeps role start (finish_reassign id owner opts missing)
  finish_reassign-Keeps id owner opts missing m =
      Ensures-weaken _ (λ t w h. h.reached) (finish_reassign-Ensures id owner opts missing m)

module _ ⦃rt : Runtime⦄ (start : GraphSnapshot) where
  -- The guard of `moveTask` is what a caller's move needs.
  may_move : (to : TaskStatus) → (to == verified || to == rejected) ≡ false → MayMove caller to
  may_move to h = (
    λ e. ground (arith, (status_eq_iff to verified).1 e),
    λ e. ground (arith, (status_eq_iff to rejected).1 e),
  )

  pub move_task-Keeps : (input : MoveTaskInput) → Keeps caller start (move_task input)
  unfolding move_task
  move_task-Keeps input = Keeps-bind caller start _ _ (assert_writable-Keeps caller start) λ u.
      Ensures-weaken _ (λ t w h. h)
        (looked_up caller start input.task_id _ _ λ task _.
          Ensures-if _ _ _ (λ e. Ensures-throw _ (λ w h. h.reached))
            λ e.
              Ensures-weaken _ (λ t w h. h.reached)
                (finish_move-Ensures caller start task input (may_move input.to e)))

  pub reassign_owner-Keeps :
      (id owner : String) (opts : ReassignOwnerOptions)
      → Keeps caller start (reassign_owner id owner opts)
  unfolding reassign_owner
  reassign_owner-Keeps id owner opts = Keeps-throw_if caller start _ _ _ λ a.
      Keeps-throw_if caller start _ _ _ λ b. Keeps-throw_if caller start _ _ _ λ c.
        Keeps-throw_if caller start _ _ _ λ d. finish_reassign-Keeps caller start id owner opts _ d

  pub move_task_as_verifier-Keeps :
      (input : MoveTaskInput) → Keeps verifier start (move_task_as_verifier input)
  unfolding move_task_as_verifier
  move_task_as_verifier-Keeps input = finish_move-Keeps verifier start input.task_id _ input tt

  pub reassign_owner_as_verifier-Keeps :
      (id owner : String) (opts : ReassignOwnerOptions)
      → Keeps verifier start (reassign_owner_as_verifier id owner opts)
  unfolding reassign_owner_as_verifier
  reassign_owner_as_verifier-Keeps id owner opts = Keeps-throw_if verifier start _ _ _ λ a.
      Keeps-throw_if verifier start _ _ _ λ b.
        Keeps-throw_if verifier start _ _ _
          λ c. finish_reassign-Keeps verifier start id owner opts _ tt
