-- ===== src/Learning.antt =====
-- src/learning: the store of operation claims.
pub mod Contract
pub mod Claims
mod Tests
