-- ===== src/Hands.antt =====
-- src/hands: the delegation of tasks to hands, and the check of what they hand in.
pub mod Contract
pub mod Verifier
pub mod Secrets
pub mod Adapter
pub mod Verdicts
pub mod Receipts
pub mod Assist
mod Tests
