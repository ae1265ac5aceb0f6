-- ===== src/Atlas.antt =====
-- src/atlas: the durable state that guards model calls and processes.
pub mod ProviderHealth
pub mod InstanceLease
pub mod SpendPolicy
pub mod NotifyQueue
mod Tests
