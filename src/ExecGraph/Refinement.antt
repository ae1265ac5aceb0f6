-- ===== src/ExecGraph/Refinement.antt =====
-- src/exec-graph/api.ts and src/exec-graph/verifier-port.ts against the abstract machine.
pub mod Ensures
pub mod Appends
pub mod Basics
pub mod Creates
pub mod Moves
