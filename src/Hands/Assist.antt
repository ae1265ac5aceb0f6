-- ===== src/Hands/Assist.antt =====
-- src/hands/assist-contract.ts, src/hands/assist-approval-port.ts and
-- src/hands/supervised-assist.ts: forms that are filled in from a pack of answers that a person has
-- approved.
pub mod Pack
pub mod Capability
pub mod Session
pub mod Approval
pub mod Verbatim
mod Tests
