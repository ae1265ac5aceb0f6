-- ===== src/ExecGraph/Sessions/Promises.antt =====
-- What holds of the graph after any session.
use atlas_cli.Prelude.{
  String, List, [], ◌≡◌, sym, ◌∙◌, none, some, ◌⊎◌, is_empty, true, false, arith,
}
use atlas_cli.Prelude.Dict.{get}
use atlas_cli.ExecGraph.Contracts.{
  Runtime, Task, verified, closed, status_Eq, status_eq_iff, task_schema,
}
use atlas_cli.ExecGraph.Ledger.{World, empty_snapshot, read_graph, rebuild_snapshot, fold_events}
use atlas_cli.ExecGraph.Ledger.Replay.{IsGraph, IsHealthy}
use atlas_cli.ExecGraph.Api.{is_hand_owner}
use atlas_cli.ExecGraph.Spec.{Role, caller, verifier, Changes, here}
use atlas_cli.ExecGraph.Spec.Preserves.{task_of_graph}
use atlas_cli.ExecGraph.Spec.Authority.{IsSettled, before-IsSettled, hand_owned_before}
use atlas_cli.ExecGraph.Spec.History.{HasHistory, Changes-HasHistory}
use atlas_cli.ExecGraph.Spec.Keys.{HasUniqueKeys, Changes-HasUniqueKeys}
use atlas_cli.ExecGraph.Refinement.Appends.{Reached}
use atlas_cli.ExecGraph.Sessions.{
  Request, AnyRequest, session, full_session, session-Reached, full_session-Reached,
}

-- A directory with no files, and no write that is going to fail.
pub record IsNewDir (w : World) : Type 0 where
  pub no_ledger : w.ledger ≡ []
  pub no_graph : w.graph ≡ none
  pub no_faults : w.io ≡ []

module _ ⦃rt : Runtime⦄ where
  read_new :
      (w : World)
      → IsNewDir w
      → (read_graph w ≡ empty_snapshot) × (rebuild_snapshot w ≡ empty_snapshot)
  unfolding read_graph fold_events
  read_new w h = (rw (h.no_graph, h.no_ledger), rw (h.no_ledger))

  empty-IsGraph : IsGraph empty_snapshot
  empty-IsGraph = record { goals_keyed = tt; tasks_keyed = tt; goals_valid = tt; tasks_valid = tt }

  empty-HasHistory : (id : String) (t : Task) → get empty_snapshot.tasks id ≡ some t → HasHistory t
  unfolding get
  empty-HasHistory id t h = cc

  empty-HasUniqueKeys : HasUniqueKeys empty_snapshot
  unfolding get
  empty-HasUniqueKeys i j s t a b e = cc

  IsNewDir-Reached : (role : Role) (w : World) → IsNewDir w → Reached role empty_snapshot w
  IsNewDir-Reached role w h =
      let (read, built) = read_new w h in
      record {
        healthy = record {
          no_faults = h.no_faults;
          graph = rw read empty-IsGraph;
          in_step = read ∙ sym built;
        };
        reached = rw read here;
      }

  pub IsNewDir-IsHealthy : (w : World) → IsNewDir w → IsHealthy w
  IsNewDir-IsHealthy w h = (IsNewDir-Reached caller w h).healthy

  -- Where no write is going to fail, any session of public calls on healthy files, whatever its
  -- calls return or throw, leaves the files healthy (the snapshot is the fold of the log, its tasks
  -- and goals pass their schemas and stand under their own ids), and changes the graph by steps
  -- that the abstract machine allows a caller.
  pub session_refines :
      (rs : List Request) (w : World)
      → IsHealthy w
      → IsHealthy (session rs w) × Changes caller (read_graph w) (read_graph (session rs w))
  session_refines rs w h =
      let r = session-Reached (read_graph w) rs w (record { healthy = h; reached = here }) in
      (r.healthy, r.reached)

  -- Where no write of the two files is going to fail, any session of calls of both surfaces on
  -- healthy files (the snapshot is the fold of the log, its tasks and goals pass their schemas and
  -- stand under their own ids) leaves them healthy, and changes the graph by steps that the
  -- abstract machine allows the verifier.
  pub full_session_refines :
      (rs : List AnyRequest) (w : World)
      → IsHealthy w
      → IsHealthy (full_session rs w)
        × Changes verifier (read_graph w) (read_graph (full_session rs w))
  full_session_refines rs w h =
      let r = full_session-Reached (read_graph w) rs w (record { healthy = h; reached = here }) in
      (r.healthy, r.reached)

  -- From healthy files, where no write is going to fail, a session of public calls settles nothing:
  -- a task that is verified, rejected or closed after it was there before it, and was verified,
  -- rejected or closed then.
  pub session_settles_nothing :
      (rs : List Request) (w : World) (id : String) (t : Task)
      → IsHealthy w
      → get (read_graph (session rs w)).tasks id ≡ some t
      → IsSettled t.status
      → (old : Task) × (get (read_graph w).tasks id ≡ some old) × IsSettled old.status
  session_settles_nothing rs w id t h at s =
      before-IsSettled id t h.graph (session_refines rs w h).1 at s

  -- From healthy files, where no write is going to fail, a session of public calls gives no task to
  -- a hand: a task that a hand owns after it was there before it, owned by a hand.
  pub session_gives_no_hand :
      (rs : List Request) (w : World) (id : String) (t : Task)
      → IsHealthy w
      → get (read_graph (session rs w)).tasks id ≡ some t
      → is_hand_owner t.owner ≡ true
      → (old : Task) × (get (read_graph w).tasks id ≡ some old) × (is_hand_owner old.owner ≡ true)
  session_gives_no_hand rs w id t h at s =
      hand_owned_before id t h.graph (session_refines rs w h).1 at s

  -- After any session of calls of both surfaces in a new directory, where no write fails, the
  -- snapshot that the next read gives is the fold of the whole log.
  pub snapshot_in_step :
      (rs : List AnyRequest) (w : World)
      → IsNewDir w
      → read_graph (full_session rs w) ≡ rebuild_snapshot (full_session rs w)
  snapshot_in_step rs w h =
      (full_session_refines rs w (IsNewDir-Reached verifier w h).healthy).0.in_step

  -- After any session of calls of both surfaces in a new directory, where no write is going to
  -- fail, the transitions of every task lead from its creation as `proposed` to its status, each
  -- along a legal edge from the status before it, and out of `escalated` only by the ceo or the
  -- external cto.
  pub session-HasHistory :
      (rs : List AnyRequest) (w : World) (id : String) (t : Task)
      → IsNewDir w
      → get (read_graph (full_session rs w)).tasks id ≡ some t
      → HasHistory t
  session-HasHistory rs w id t h at =
      let r = full_session-Reached empty_snapshot rs w (IsNewDir-Reached verifier w h) in
      Changes-HasHistory verifier empty-IsGraph empty-HasHistory r.reached id t at

  -- After any session of calls of both surfaces in a new directory, where no write is going to
  -- fail, no two tasks have the same idempotency key.
  pub session-HasUniqueKeys :
      (rs : List AnyRequest) (w : World)
      → IsNewDir w
      → HasUniqueKeys (read_graph (full_session rs w))
  session-HasUniqueKeys rs w h =
      let r = full_session-Reached empty_snapshot rs w (IsNewDir-Reached verifier w h) in
      Changes-HasUniqueKeys verifier empty-IsGraph empty-HasUniqueKeys r.reached

  evidence_of_schema :
      (t : Task)
      → task_schema t ≡ true
      → (t.status ≡ verified) ⊎ (t.status ≡ closed)
      → is_empty t.evidence ≡ false
  unfolding task_schema
  evidence_of_schema t v s =
      ground (arith, status_eq_iff t.status verified, status_eq_iff t.status closed)

  -- After such a session every task that is verified or closed holds evidence.
  pub settled_has_evidence :
      (rs : List AnyRequest) (w : World) (id : String) (t : Task)
      → IsNewDir w
      → get (read_graph (full_session rs w)).tasks id ≡ some t
      → (t.status ≡ verified) ⊎ (t.status ≡ closed)
      → is_empty t.evidence ≡ false
  settled_has_evidence rs w id t h at s =
      let healthy = (full_session_refines rs w (IsNewDir-Reached verifier w h).healthy).0 in
      evidence_of_schema t (task_of_graph _ id t healthy.graph at) s
