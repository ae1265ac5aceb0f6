-- ===== src/ExecGraph/Spec/Privileges.antt =====
-- The verifier may do all that a caller may; steps compose.
use atlas_cli.ExecGraph.Contracts.{Payload, Runtime}
use atlas_cli.ExecGraph.Ledger.{GraphSnapshot}
use atlas_cli.ExecGraph.Spec.{
  Role, caller, verifier, Change, add_goal, add_task, move, attach, reassign, Changes, here, next,
}

module _ ⦃rt : Runtime⦄ where
  Change-verifier : {g : GraphSnapshot} {p : Payload} → Change caller g p → Change verifier g p
  Change-verifier (add_goal a v f) = add_goal a v f
  Change-verifier (add_task t v n f) = add_task t v n f
  Change-verifier (move id task t at m) = move id task t at (record {
    leaves = m.leaves;
    edge = m.edge;
    exit = m.exit;
    authority = tt;
    entry = m.entry;
    result = m.result;
  })
  Change-verifier (attach id task e at v) = attach id task e at v
  Change-verifier (reassign p task at v m) = reassign p task at v tt

  pub Changes-verifier : {g h : GraphSnapshot} → Changes caller g h → Changes verifier g h
  Changes-verifier here = here
  Changes-verifier (next p c s) = next p (Changes-verifier c) (Change-verifier s)

  pub Changes-trans :
      (role : Role) {g h k : GraphSnapshot} → Changes role g h → Changes role h k → Changes role g k
  Changes-trans role c here = c
  Changes-trans role c (next p d s) = next p (Changes-trans role c d) s
