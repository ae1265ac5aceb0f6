-- ===== src/ExecGraph/VerifierPort.antt =====
-- src/exec-graph/verifier-port.ts: the moves and the reassignments that only the verifier may make.
use atlas_cli.Prelude.{String, is_blank}
use atlas_cli.Prelude.Dict.{get}
use atlas_cli.Prelude.Action.{gets, or_throw, throw_if, ◌>>=◌, ◌>>◌}
use atlas_cli.ExecGraph.Contracts.{Task, Runtime}
use atlas_cli.ExecGraph.Transitions.{unknown_task, missing_argument}
use atlas_cli.ExecGraph.Ledger.{Act, read_graph}
use atlas_cli.ExecGraph.Api.{finish_move, finish_reassign}
use atlas_cli.ExecGraph.Inputs.{MoveTaskInput, ReassignOwnerOptions}

module _ ⦃rt : Runtime⦄ where
  unfoldable pub move_task_as_verifier : MoveTaskInput → Act Task
  move_task_as_verifier input = do
    graph ← gets read_graph
    task ← or_throw (get graph.tasks input.task_id) unknown_task
    finish_move task input

  unfoldable pub reassign_owner_as_verifier : String → String → ReassignOwnerOptions → Act Task
  reassign_owner_as_verifier task_id owner opts = do
    throw_if (is_blank owner) missing_argument
    throw_if (is_blank opts.actor) missing_argument
    throw_if (is_blank opts.reason) missing_argument
    finish_reassign task_id owner opts unknown_task
