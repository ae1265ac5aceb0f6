-- ===== src/ExecGraph/Sessions.antt =====
-- Any number of calls of src/exec-graph/api.ts and of src/exec-graph/verifier-port.ts, one after
-- another. A call that throws ends alone: the next one goes on from what it left.
pub mod Promises
use atlas_cli.Prelude.{String, List, [], ◌∷◌}
use atlas_cli.ExecGraph.Contracts.{Runtime}
use atlas_cli.ExecGraph.Ledger.{World, GraphSnapshot, Act, read_graph}
use atlas_cli.ExecGraph.Api.{
  create_goal, create_task, import_task, move_task, add_evidence, reassign_owner,
}
use atlas_cli.ExecGraph.Inputs.{
  CreateGoalInput, CreateTaskInput, ImportTaskInput, MoveTaskInput, AddEvidenceInput,
  ReassignOwnerOptions,
}
use atlas_cli.ExecGraph.VerifierPort.{move_task_as_verifier, reassign_owner_as_verifier}
use atlas_cli.ExecGraph.Spec.{Role, caller, verifier, here}
use atlas_cli.ExecGraph.Spec.Privileges.{Changes-verifier, Changes-trans}
use atlas_cli.ExecGraph.Refinement.Ensures.{After-state}
use atlas_cli.ExecGraph.Refinement.Appends.{Reached}
use atlas_cli.ExecGraph.Refinement.Basics.{Keeps}
use atlas_cli.ExecGraph.Refinement.Creates.{create_goal-Keeps, create_task-Keeps, import_task-Keeps}
use atlas_cli.ExecGraph.Refinement.Moves.{
  move_task-Keeps, add_evidence-Keeps, reassign_owner-Keeps, move_task_as_verifier-Keeps,
  reassign_owner_as_verifier-Keeps,
}

-- A call of the public surface.
pub data Request : Type 0 where
  add_goal : CreateGoalInput → Request
  add_task : CreateTaskInput → Request
  import : ImportTaskInput → Request
  advance : MoveTaskInput → Request
  attach : AddEvidenceInput → Request
  hand_over : String → String → ReassignOwnerOptions → Request

-- A call of either surface.
pub data AnyRequest : Type 0 where
  public : Request → AnyRequest
  settle : MoveTaskInput → AnyRequest
  assign : String → String → ReassignOwnerOptions → AnyRequest

module _ ⦃rt : Runtime⦄ where
  unfoldable pub serve : Request → World → World
  serve (add_goal i) w = (create_goal i w).1
  serve (add_task i) w = (create_task i w).1
  serve (import i) w = (import_task i w).1
  serve (advance i) w = (move_task i w).1
  serve (attach i) w = (add_evidence i w).1
  serve (hand_over id owner o) w = (reassign_owner id owner o w).1

  unfoldable pub serve_any : AnyRequest → World → World
  serve_any (public r) w = serve r w
  serve_any (settle i) w = (move_task_as_verifier i w).1
  serve_any (assign id owner o) w = (reassign_owner_as_verifier id owner o w).1

  unfoldable pub session : List Request → World → World
  session [] w = w
  session (r ∷ rs) w = session rs (serve r w)

  unfoldable pub full_session : List AnyRequest → World → World
  full_session [] w = w
  full_session (r ∷ rs) w = full_session rs (serve_any r w)

  pub after_Keeps :
      {A : Type 0} (role : Role) (start : GraphSnapshot) (m : Act A) (w : World)
      → Keeps role start m
      → Reached role start w
      → Reached role start (m w).1
  after_Keeps role start m w k h = After-state _ (m w) (k.at w h)

  serve-Reached :
      (start : GraphSnapshot) (r : Request) (w : World)
      → Reached caller start w
      → Reached caller start (serve r w)
  unfolding serve
  serve-Reached start (add_goal i) w h =
      after_Keeps caller start _ w (create_goal-Keeps caller start i) h
  serve-Reached start (add_task i) w h =
      after_Keeps caller start _ w (create_task-Keeps caller start i) h
  serve-Reached start (import i) w h =
      after_Keeps caller start _ w (import_task-Keeps caller start i) h
  serve-Reached start (advance i) w h = after_Keeps caller start _ w (move_task-Keeps start i) h
  serve-Reached start (attach i) w h =
      after_Keeps caller start _ w (add_evidence-Keeps caller start i) h
  serve-Reached start (hand_over id owner o) w h =
      after_Keeps caller start _ w (reassign_owner-Keeps start id owner o) h

  pub session-Reached :
      (start : GraphSnapshot) (rs : List Request) (w : World)
      → Reached caller start w
      → Reached caller start (session rs w)
  unfolding session
  session-Reached start [] w h = h
  session-Reached start (r ∷ rs) w h =
      session-Reached start rs (serve r w) (serve-Reached start r w h)

  serve_any-Reached :
      (start : GraphSnapshot) (r : AnyRequest) (w : World)
      → Reached verifier start w
      → Reached verifier start (serve_any r w)
  unfolding serve_any
  serve_any-Reached start (public r) w h =
      let own = serve-Reached (read_graph w) r w (record { healthy = h.healthy; reached = here }) in
      record {
        healthy = own.healthy;
        reached = Changes-trans verifier h.reached (Changes-verifier own.reached);
      }
  serve_any-Reached start (settle i) w h =
      after_Keeps verifier start _ w (move_task_as_verifier-Keeps start i) h
  serve_any-Reached start (assign id owner o) w h =
      after_Keeps verifier start _ w (reassign_owner_as_verifier-Keeps start id owner o) h

  pub full_session-Reached :
      (start : GraphSnapshot) (rs : List AnyRequest) (w : World)
      → Reached verifier start w
      → Reached verifier start (full_session rs w)
  unfolding full_session
  full_session-Reached start [] w h = h
  full_session-Reached start (r ∷ rs) w h =
      full_session-Reached start rs (serve_any r w) (serve_any-Reached start r w h)
