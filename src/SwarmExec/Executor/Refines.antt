-- ===== src/SwarmExec/Executor/Refines.antt =====
-- What a run of src/swarm-exec/executor.ts does to the graph.
use atlas_cli.Prelude.{
  String, Bool, true, false, not, ◌&&◌, Option, none, some, is_some, ◌≡◌, arith,
}
use atlas_cli.Prelude.Dict.{get}
use atlas_cli.Prelude.Action.{Result, ok, thrown, throw_if, ◌>>=◌, ◌>>◌}
use atlas_cli.ExecGraph.Contracts.{Task, Runtime}
use atlas_cli.ExecGraph.Ledger.{World, GraphSnapshot, read_graph}
use atlas_cli.ExecGraph.Ledger.Replay.{IsHealthy}
use atlas_cli.ExecGraph.Spec.{Role, caller, verifier, Changes, here}
use atlas_cli.ExecGraph.Spec.Authority.{IsSettled, before-IsSettled}
use atlas_cli.ExecGraph.Refinement.Ensures.{
  After, Ensures, Ensures-pure, Ensures-gets, Ensures-if, Ensures-or_throw, Ensures-bind,
  After-state,
}
use atlas_cli.ExecGraph.Refinement.Appends.{Reached}
use atlas_cli.Hands.Adapter.{HandFailure, HandPlatform, HandAct}
use atlas_cli.Hands.Receipts.{
  HandKeeps, by_verifier, submit_receipt-Keeps, abort_hand_task-Keeps, verify_and_transition-Keeps,
}
use atlas_cli.SwarmExec.Bundle.{
  RunBundleInput, RunStore, BundlePlatform, StoreAct, WriteFailure, write_run_bundle,
}
use atlas_cli.SwarmExec.Responders.{SwarmRunDetail}
use atlas_cli.SwarmExec.Executor.{
  RunSwarmForTaskOptions, SwarmEnv, SwarmFailure, SwarmWorld, SwarmAct, from_hands, on_hands,
  from_store, on_store, block_run, conclude_run, bundle_input, run_assigned, run_swarm_for_task,
  actor_of,
}

module _ ⦃rt : Runtime⦄ (role : Role) (start : GraphSnapshot) where
  abbrev At : SwarmWorld → Type 0
  At w = Reached role start w.graph

  abbrev SwarmKeeps : {A : Type 0} → SwarmAct A → Type 0
  SwarmKeeps m = Ensures At (λ a w. At w) At m

  from_hands-After :
      {A : Type 0} (x : Result HandFailure A × World) (w : SwarmWorld)
      → After (λ a v. Reached role start v) (Reached role start) x
      → After (λ a w. At w) At (from_hands x w)
  from_hands-After (ok a, v) w h = h
  from_hands-After (thrown e, v) w h = h

  on_hands-Keeps : {A : Type 0} (m : HandAct A) → HandKeeps role start m → SwarmKeeps (on_hands m)
  unfolding on_hands
  on_hands-Keeps m k = record { at = λ w h. from_hands-After (m w.graph) w (k.at w.graph h) }

  from_store-After :
      {A : Type 0} (x : Result WriteFailure A × RunStore) (w : SwarmWorld)
      → At w
      → After (λ a w. At w) At (from_store x w)
  from_store-After (ok a, s) w h = h
  from_store-After (thrown e, s) w h = h

  on_store-Keeps : {A : Type 0} (m : StoreAct A) → SwarmKeeps (on_store m)
  unfolding on_store
  on_store-Keeps m = record { at = λ w h. from_store-After (m w.store) w h }

  guarded :
      {A : Type 0} (b : Bool) (e : SwarmFailure) (m : SwarmAct A)
      → SwarmKeeps m
      → SwarmKeeps (throw_if b e >> m)
  unfolding throw_if ◌>>=◌
  guarded true e m h = record { at = λ w r. r }
  guarded false e m h = h

module _ ⦃rt : Runtime⦄ ⦃hp : HandPlatform⦄ ⦃bp : BundlePlatform⦄ where
  block_run-Keeps :
      (start : GraphSnapshot) (task_id actor reason : String)
      → SwarmKeeps caller start (block_run task_id actor reason)
  unfolding block_run
  block_run-Keeps start task_id actor reason =
      Ensures-bind _ _
        (on_hands-Keeps caller start _ (abort_hand_task-Keeps start task_id actor reason))
        λ t. Ensures-pure _ (λ w h. h)

  blocks :
      (start : GraphSnapshot) (task_id actor reason : String)
      → SwarmKeeps verifier start (block_run task_id actor reason)
  unfolding block_run
  blocks start task_id actor reason =
      Ensures-bind _ _
        (on_hands-Keeps verifier start _
          (by_verifier _ (λ g. abort_hand_task-Keeps g task_id actor reason) start))
        λ t. Ensures-pure _ (λ w h. h)

  conclude_run-Keeps :
      (start : GraphSnapshot) (task_id : String) (opts : RunSwarmForTaskOptions) (env : SwarmEnv)
      (input : RunBundleInput)
      → SwarmKeeps verifier start (conclude_run task_id opts env input)
  unfolding conclude_run
  conclude_run-Keeps start task_id opts env input =
      Ensures-bind _ _ (on_store-Keeps verifier start (write_run_bundle opts.bundle_root input))
        λ written.
          Ensures-bind _ _
            (on_hands-Keeps verifier start _
              (by_verifier _ (λ g. submit_receipt-Keeps g task_id _) start))
            λ t. Ensures-bind _ _ (Ensures-gets _ (λ w h. h)) λ store.
              Ensures-bind _ _
                (on_hands-Keeps verifier start _
                  (verify_and_transition-Keeps start _ _ task_id (actor_of opts)))
                λ vt. Ensures-pure _ (λ w h. h)

  given_detail-Keeps :
      (start : GraphSnapshot) (task_id : String) (opts : RunSwarmForTaskOptions) (env : SwarmEnv)
      (o : Option SwarmRunDetail)
      → SwarmKeeps verifier start (elim o [
        | none ↦ block_run task_id (actor_of opts) "swarm_run_error"
        | some detail ↦ conclude_run task_id opts env (bundle_input task_id opts env detail)
      ])
  given_detail-Keeps start task_id opts env none = blocks start task_id _ "swarm_run_error"
  given_detail-Keeps start task_id opts env (some detail) =
      conclude_run-Keeps start task_id opts env (bundle_input task_id opts env detail)

  run_assigned-Keeps :
      (start : GraphSnapshot) (task_id : String) (opts : RunSwarmForTaskOptions) (env : SwarmEnv)
      → SwarmKeeps verifier start (run_assigned task_id opts env)
  unfolding run_assigned
  run_assigned-Keeps start task_id opts env =
      Ensures-if (not env.allows) _ _ (λ e. blocks start task_id _ "control_not_active")
        (λ e. given_detail-Keeps start task_id opts env env.detail)

  -- The run's guards let nothing happen, and what is behind them keeps what it keeps.
  behind_guards :
      (role : Role) (start : GraphSnapshot) (task_id : String) (opts : RunSwarmForTaskOptions)
      (env : SwarmEnv)
      → SwarmKeeps role start (run_assigned task_id opts env)
      → SwarmKeeps role start (run_swarm_for_task task_id opts env)
  unfolding run_swarm_for_task
  behind_guards role start task_id opts env k =
      Ensures-bind _ _ (Ensures-gets _ (λ w h. h)) λ found.
        Ensures-bind _ _ (Ensures-or_throw found _ (λ t _ w h. h) (λ w h. h))
          λ task. guarded role start _ _ _ k

  -- Where no write of the graph's files is going to fail, a run of the swarm for a task on healthy
  -- files leaves the files healthy, and changes the graph by steps that the abstract machine allows
  -- the verifier, whether it returns or throws, whatever control, the swarm and an injected
  -- evaluation answer, and whatever becomes of the bundle.
  pub run_swarm_refines :
      (task_id : String) (opts : RunSwarmForTaskOptions) (env : SwarmEnv) (w : SwarmWorld)
      → IsHealthy w.graph
      → IsHealthy (run_swarm_for_task task_id opts env w).1.graph
        × Changes verifier
            (read_graph w.graph)
            (read_graph (run_swarm_for_task task_id opts env w).1.graph)
  run_swarm_refines task_id opts env w h =
      let start = read_graph w.graph in
      let r = After-state _ (run_swarm_for_task task_id opts env w) (
        (behind_guards verifier start task_id opts env
            (run_assigned-Keeps start task_id opts env)).at
          w (record { healthy = h; reached = here })) in
      (r.healthy, r.reached)

  -- Control allows model calls, and the swarm does not throw.
  abbrev pub goes_ahead : SwarmEnv → Bool
  goes_ahead env = env.allows && is_some env.detail

  stopped-Keeps :
      (start : GraphSnapshot) (task_id : String) (opts : RunSwarmForTaskOptions) (env : SwarmEnv)
      → goes_ahead env ≡ false
      → SwarmKeeps caller start (run_assigned task_id opts env)
  unfolding run_assigned
  stopped-Keeps start task_id opts env h =
      Ensures-if (not env.allows) _ _ (λ e. block_run-Keeps start task_id _ "control_not_active")
        (λ e. without_detail env.detail (ground (arith, h, e)))
    where
      without_detail :
          (o : Option SwarmRunDetail)
          → is_some o ≡ false
          → SwarmKeeps caller start (elim o [
            | none ↦ block_run task_id (actor_of opts) "swarm_run_error"
            | some detail ↦ conclude_run task_id opts env (bundle_input task_id opts env detail)
          ])
      without_detail none e = block_run-Keeps start task_id _ "swarm_run_error"
      without_detail (some d) e = absurd (ground (arith, e))

  -- From healthy files, where no write of the graph is going to fail, a run that control does not
  -- allow, or whose swarm throws, settles nothing: a task that is verified, rejected or closed
  -- after it was there before it, and was verified, rejected or closed then.
  pub stopped_run_settles_nothing :
      (task_id : String) (opts : RunSwarmForTaskOptions) (env : SwarmEnv) (w : SwarmWorld)
      (id : String) (t : Task)
      → IsHealthy w.graph
      → goes_ahead env ≡ false
      → get (read_graph (run_swarm_for_task task_id opts env w).1.graph).tasks id ≡ some t
      → IsSettled t.status
      → (old : Task) × (get (read_graph w.graph).tasks id ≡ some old) × IsSettled old.status
  stopped_run_settles_nothing task_id opts env w id t h stopped at s =
      let start = read_graph w.graph in
      before-IsSettled id t h.graph
        (After-state _ (run_swarm_for_task task_id opts env w) (
          (behind_guards caller start task_id opts env
              (stopped-Keeps start task_id opts env stopped)).at
            w (record { healthy = h; reached = here }))).reached
        at s
