-- ===== src/SwarmExec.antt =====
-- src/swarm-exec: a run of the swarm for a task, its completion, and the bundle it leaves.
pub mod Completion
pub mod Bundle
pub mod Responders
pub mod Executor
mod Tests
