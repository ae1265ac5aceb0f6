-- ===== src/Evidence.antt =====
-- src/evidence: typed claims in a ledger whose entries are chained by their hashes, and its audit.
pub mod Ledger
pub mod Chain
pub mod Appends
pub mod Growth
pub mod Settled
pub mod Tamper
pub mod Auditor
pub mod Clean
mod Tests
