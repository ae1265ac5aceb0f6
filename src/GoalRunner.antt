-- ===== src/GoalRunner.antt =====
-- src/goal-runner: goals that run by themselves, within budgets and behind red lines.
pub mod Effects
pub mod RedLine
pub mod Budgets
pub mod Contract
pub mod Plan
pub mod Runner
mod Tests
