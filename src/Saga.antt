-- ===== src/Saga.antt =====
-- internal/worker/orchestrator: the onboarding saga.
pub mod Store
pub mod Effects
pub mod Orchestrator
pub mod Spec
pub mod Consistency
pub mod Contract
pub mod Report
pub mod Settlement
pub mod Redelivery
pub mod Reaper
mod Tests
