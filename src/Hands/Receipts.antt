-- ===== src/Hands/Receipts.antt =====
-- What the operations of src/hands/exec-graph-adapter.ts do to the graph.
use text.Mathlib.TextEquality.{eq_iff}
use atlas_cli.Prelude.{
  String, Bool, true, false, Option, Bool-cases, none, some, List, [], ◌∷◌, ◌≡◌, ◌≢◌, arith, inl,
  inr, ◌⊎◌, ◌==◌, string_eq,
}
use atlas_cli.Prelude.Dict.{get}
use atlas_cli.Prelude.Action.{
  Action, Result, ok, thrown, gets, lift, or_throw, throw_if, ◌>>=◌, ◌>>◌,
}
use atlas_cli.ExecGraph.Contracts.{Task, TaskStatus, delegated, status_Eq, Evidence, Runtime}
use atlas_cli.ExecGraph.Transitions.{Failure}
use atlas_cli.ExecGraph.Ledger.{World, GraphSnapshot, Act, read_graph}
use atlas_cli.ExecGraph.Ledger.Replay.{IsHealthy}
use atlas_cli.ExecGraph.Api.{get_task}
use atlas_cli.ExecGraph.Spec.{Role, caller, verifier, Changes, here}
use atlas_cli.ExecGraph.Spec.Privileges.{Changes-verifier, Changes-trans}
use atlas_cli.ExecGraph.Spec.Authority.{IsSettled, before-IsSettled}
use atlas_cli.ExecGraph.Refinement.Ensures.{
  After, Ensures, Ensures-pure, Ensures-gets, Ensures-if, Ensures-or_throw, Ensures-lift,
  Ensures-bind, After-state,
}
use atlas_cli.ExecGraph.Refinement.Appends.{Reached}
use atlas_cli.ExecGraph.Refinement.Basics.{Keeps}
use atlas_cli.ExecGraph.Refinement.Moves.{
  move_task-Keeps, add_evidence-Keeps, move_task_as_verifier-Keeps,
  reassign_owner_as_verifier-Keeps,
}
use atlas_cli.Hands.Contract.{Receipt, receipt_schema, classify_risk}
use atlas_cli.Hands.Verifier.{Disk}
use atlas_cli.Hands.Secrets.{has_secret}
use atlas_cli.Hands.Adapter.{
  HandFailure, schema, task_mismatch, receipt_secret, HandPlatform, HandAct, relabel, on_graph,
  latest_receipt, Verdict, judge, derive_hand_allowed_actions, assign_hand, start_work,
  record_receipt, submit_receipt, abort_hand_task, receipt_of_evidence, settle_unproven, settle,
  verify_and_transition,
}

module _ ⦃rt : Runtime⦄ (role : Role) (start : GraphSnapshot) where
  abbrev pub HandKeeps : {A : Type 0} → HandAct A → Type 0
  HandKeeps m = Ensures (Reached role start) (λ a w. Reached role start w) (Reached role start) m

  relabel-After :
      {A : Type 0} (x : Result Failure A × World)
      → After (λ a w. Reached role start w) (Reached role start) x
      → After (λ a w. Reached role start w) (Reached role start) (relabel x)
  relabel-After (ok a, w) h = h
  relabel-After (thrown e, w) h = h

  pub on_graph-Keeps : {A : Type 0} (m : Act A) → Keeps role start m → HandKeeps (on_graph m)
  unfolding on_graph
  on_graph-Keeps m k = record { at = λ w h. relabel-After (m w) (k.at w h) }

  guarded :
      {A : Type 0} (b : Bool) (e : HandFailure) (m : HandAct A)
      → HandKeeps m
      → HandKeeps (throw_if b e >> m)
  unfolding throw_if ◌>>=◌
  guarded true e m h = record { at = λ w r. r }
  guarded false e m h = h

  found_task :
      {A : Type 0} (task_id : String) (e : HandFailure) (f : Task → HandAct A)
      → ((t : Task) → HandKeeps (f t))
      → HandKeeps (gets (λ w. get_task w task_id) >>= λ found. or_throw found e >>= f)
  found_task task_id e f h =
      Ensures-bind _ _ (Ensures-gets _ (λ w r. r))
        λ found. Ensures-bind _ _ (Ensures-or_throw found e (λ a _ w r. r) (λ w r. r)) h

module _ ⦃rt : Runtime⦄ where
  verifier-After :
      {E A : Type 0} (start middle : GraphSnapshot) (x : Result E A × World)
      → Changes verifier start middle
      → After (λ a w. Reached caller middle w) (Reached caller middle) x
      → After (λ a w. Reached verifier start w) (Reached verifier start) x
  verifier-After start middle (ok a, w) c h = record {
    healthy = h.healthy;
    reached = Changes-trans verifier c (Changes-verifier h.reached);
  }
  verifier-After start middle (thrown e, w) c h = record {
    healthy = h.healthy;
    reached = Changes-trans verifier c (Changes-verifier h.reached);
  }

  -- What a caller may do, the verifier may.
  pub by_verifier :
      {E A : Type 0} (m : Action World E A)
      → ((start : GraphSnapshot)
          → Ensures (Reached caller start) (λ a w. Reached caller start w) (Reached caller start) m)
      → (start : GraphSnapshot)
      → Ensures
          (Reached verifier start)
          (λ a w. Reached verifier start w)
          (Reached verifier start)
          m
  by_verifier m k start = record {
    at = λ w h.
        verifier-After start (read_graph w) (m w) h.reached
          ((k (read_graph w)).at w (record { healthy = h.healthy; reached = here }));
  }

module _ ⦃rt : Runtime⦄ ⦃hp : HandPlatform⦄ (start : GraphSnapshot) where
  start_work-Keeps :
      (task_id : String) (r : Receipt) (status : TaskStatus)
      → HandKeeps caller start (start_work task_id r status)
  unfolding start_work
  start_work-Keeps task_id r status =
      Ensures-if (status == delegated) _ _
        (λ e.
          Ensures-bind _ _ (on_graph-Keeps caller start _ (move_task-Keeps start _))
            λ t. Ensures-pure tt (λ w h. h))
        (λ e. Ensures-pure tt (λ w h. h))

  record_receipt-Keeps :
      (task_id : String) (r : Receipt) (status : TaskStatus)
      → HandKeeps caller start (record_receipt task_id r status)
  unfolding record_receipt
  record_receipt-Keeps task_id r status = Ensures-bind _ _ (start_work-Keeps task_id r status) λ u.
      Ensures-bind _ _ (on_graph-Keeps caller start _ (add_evidence-Keeps caller start _))
        λ t. on_graph-Keeps caller start _ (move_task-Keeps start _)

  pub submit_receipt-Keeps :
      (task_id : String) (r : Receipt) → HandKeeps caller start (submit_receipt task_id r)
  unfolding submit_receipt
  submit_receipt-Keeps task_id r = guarded caller start _ _ _ (
      guarded caller start _ _ _ (
        guarded caller start _ _ _ (
          found_task caller start task_id _ _ λ task.
            Ensures-if _ _ _ (λ e. Ensures-pure task (λ w h. h))
              (λ e. record_receipt-Keeps task_id r task.status))))

  pub abort_hand_task-Keeps :
      (task_id actor reason : String)
      → HandKeeps caller start (abort_hand_task task_id actor reason)
  unfolding abort_hand_task
  abort_hand_task-Keeps task_id actor reason =
      found_task caller start task_id _ _
        λ task. guarded caller start _ _ _ (on_graph-Keeps caller start _ (move_task-Keeps start _))

  pub assign_hand-Keeps :
      (task_id hand_id actor : String) (unattended : Bool)
      → HandKeeps verifier start (assign_hand task_id hand_id actor unattended)
  unfolding assign_hand
  assign_hand-Keeps task_id hand_id actor unattended =
      Ensures-bind _ _ (Ensures-or_throw _ _ (λ a _ w r. r) (λ w r. r)) λ hand.
        guarded verifier start _ _ _ (
          found_task verifier start task_id _ _ λ task. guarded verifier start _ _ _ (
            Ensures-bind _ _
              (on_graph-Keeps verifier start _ (by_verifier _ (λ g. move_task-Keeps g _) start))
              λ t. on_graph-Keeps verifier start _ (reassign_owner_as_verifier-Keeps start _ _ _)))

  settle-Keeps :
      (task_id actor : String) (e : Evidence) (v : Verdict)
      → HandKeeps verifier start (settle task_id actor e v)
  unfolding settle
  settle-Keeps task_id actor e v =
      Ensures-bind _ _ (on_graph-Keeps verifier start _ (move_task_as_verifier-Keeps start _))
        λ t. Ensures-pure _ (λ w h. h)

  settle_unproven-Keeps :
      (task_id actor : String) → HandKeeps verifier start (settle_unproven task_id actor)
  unfolding settle_unproven
  settle_unproven-Keeps task_id actor =
      Ensures-bind _ _ (on_graph-Keeps verifier start _ (move_task_as_verifier-Keeps start _))
        λ t. Ensures-pure _ (λ w h. h)

  judged :
      (now later : Disk) (task : Task) (task_id actor : String) (o : Option Evidence)
      → HandKeeps verifier start (elim o [
        | none ↦ settle_unproven task_id actor
        | some e ↦ lift (receipt_of_evidence e) >>= λ r.
            settle task_id actor e
              (judge now later (classify_risk task.title (derive_hand_allowed_actions task)) r)
      ])
  judged now later task task_id actor none = settle_unproven-Keeps task_id actor
  judged now later task task_id actor (some e) =
      Ensures-bind _ _ (Ensures-lift (receipt_of_evidence e) (λ a _ w h. h) (λ w h. h))
        λ r. settle-Keeps task_id actor e _

  pub verify_and_transition-Keeps :
      (now later : Disk) (task_id actor : String)
      → HandKeeps verifier start (verify_and_transition now later task_id actor)
  unfolding verify_and_transition
  verify_and_transition-Keeps now later task_id actor =
      found_task verifier start task_id _ _ λ task.
        guarded verifier start _ _ _
          (judged now later task task_id actor (latest_receipt task.evidence))

-- A call of the adapter, with the disk as it is at the two checks of a verification.
pub data HandRequest : Type 0 where
  assign : String → String → String → Bool → HandRequest
  submit : String → Receipt → HandRequest
  abort : String → String → String → HandRequest
  verify_task : Disk → Disk → String → String → HandRequest

module _ ⦃rt : Runtime⦄ ⦃hp : HandPlatform⦄ where
  abbrev pub serve_hand : HandRequest → World → World
  serve_hand (assign task_id hand_id actor unattended) w =
      (assign_hand task_id hand_id actor unattended w).1
  serve_hand (submit task_id r) w = (submit_receipt task_id r w).1
  serve_hand (abort task_id actor reason) w = (abort_hand_task task_id actor reason w).1
  serve_hand (verify_task now later task_id actor) w =
      (verify_and_transition now later task_id actor w).1

  abbrev pub hand_session : List HandRequest → World → World
  hand_session [] w = w
  hand_session (r ∷ rs) w = hand_session rs (serve_hand r w)

  from_caller :
      (start : GraphSnapshot) (w v : World)
      → Reached verifier start w
      → Reached caller (read_graph w) v
      → Reached verifier start v
  from_caller start w v h k = record {
    healthy = k.healthy;
    reached = Changes-trans verifier h.reached (Changes-verifier k.reached);
  }

  submit-Reached :
      (task_id : String) (r : Receipt) (w : World)
      → IsHealthy w
      → Reached caller (read_graph w) (submit_receipt task_id r w).1
  submit-Reached task_id r w h = After-state _ (submit_receipt task_id r w) (
      (submit_receipt-Keeps (read_graph w) task_id r).at w (record { healthy = h; reached = here }))

  abort-Reached :
      (task_id actor reason : String) (w : World)
      → IsHealthy w
      → Reached caller (read_graph w) (abort_hand_task task_id actor reason w).1
  abort-Reached task_id actor reason w h = After-state _ (abort_hand_task task_id actor reason w) (
      (abort_hand_task-Keeps (read_graph w) task_id actor reason).at w
        (record { healthy = h; reached = here }))

  hand_session-Reached :
      (start : GraphSnapshot) (rs : List HandRequest) (w : World)
      → Reached verifier start w
      → Reached verifier start (hand_session rs w)
  hand_session-Reached start [] w h = h
  hand_session-Reached start (assign task_id hand_id actor unattended ∷ rs) w h =
      hand_session-Reached start rs _ (
        After-state _ (assign_hand task_id hand_id actor unattended w)
          ((assign_hand-Keeps start task_id hand_id actor unattended).at w h))
  hand_session-Reached start (submit task_id r ∷ rs) w h =
      hand_session-Reached start rs _
        (from_caller start w _ h (submit-Reached task_id r w h.healthy))
  hand_session-Reached start (abort task_id actor reason ∷ rs) w h =
      hand_session-Reached start rs _
        (from_caller start w _ h (abort-Reached task_id actor reason w h.healthy))
  hand_session-Reached start (verify_task now later task_id actor ∷ rs) w h =
      hand_session-Reached start rs _ (
        After-state _ (verify_and_transition now later task_id actor w)
          ((verify_and_transition-Keeps start now later task_id actor).at w h))

  -- Where no write of the graph's files is going to fail, any session of assignments, receipts,
  -- aborts and verifications on healthy files, whatever its calls return or throw and whatever the
  -- checks of receipts find, leaves the files healthy, and changes the graph by steps that the
  -- abstract machine allows the verifier.
  pub hand_session_refines :
      (rs : List HandRequest) (w : World)
      → IsHealthy w
      → IsHealthy (hand_session rs w)
        × Changes verifier (read_graph w) (read_graph (hand_session rs w))
  hand_session_refines rs w h =
      let r = hand_session-Reached (read_graph w) rs w (record { healthy = h; reached = here }) in
      (r.healthy, r.reached)

  -- From healthy files, where no write is going to fail, neither a receipt nor an abort settles a
  -- task: one that is verified, rejected or closed after the call was there before it, and was
  -- verified, rejected or closed then.
  pub hands_settle_nothing :
      (task_id actor reason id : String) (r : Receipt) (w : World) (t : Task)
      → IsHealthy w
      → (get (read_graph (submit_receipt task_id r w).1).tasks id ≡ some t)
        ⊎ (get (read_graph (abort_hand_task task_id actor reason w).1).tasks id ≡ some t)
      → IsSettled t.status
      → (old : Task) × (get (read_graph w).tasks id ≡ some old) × IsSettled old.status
  hands_settle_nothing task_id actor reason id r w t h (inl at) s =
      before-IsSettled id t h.graph (submit-Reached task_id r w h).reached at s
  hands_settle_nothing task_id actor reason id r w t h (inr at) s =
      before-IsSettled id t h.graph (abort-Reached task_id actor reason w h).reached at s

  -- A receipt with a secret in one of the fields that are scanned, or with another task's id, or
  -- one that its schema refuses, is refused before anything is written.
  pub refused_receipt_writes_nothing :
      (task_id : String) (r : Receipt) (w : World)
      → (has_secret r ≡ true) ⊎ ((r.task_id ≢ task_id) ⊎ (receipt_schema r ≡ false))
      → (e : HandFailure) × (submit_receipt task_id r w ≡ (thrown e, w))
  unfolding submit_receipt throw_if ◌>>=◌
  refused_receipt_writes_nothing task_id r w h = elim (Bool-cases (receipt_schema r)) [
    | inr bad ↦ (schema, ground arith)
    | inl good ↦ elim (Bool-cases (r.task_id == task_id)) [
      | inr other ↦ (task_mismatch, ground arith)
      | inl same ↦ elim (Bool-cases (has_secret r)) [
        | inl secret ↦ (receipt_secret, ground arith)
        | inr clean ↦ absurd (ground (arith, eq_iff r.task_id task_id))
      ]
    ]
  ]
