-- ===== src/ExecGraph.antt =====
-- src/exec-graph: the goal and task ledger, its lifecycle, its persistence and its two surfaces.
pub mod Contracts
pub mod Transitions
pub mod Ledger
pub mod Inputs
pub mod Api
pub mod VerifierPort
pub mod Spec
pub mod Refinement
pub mod Idempotency
pub mod Sessions
mod Tests
