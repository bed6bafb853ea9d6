-- ===== src/Scanner.antt =====
-- internal/worker/scanner: the repositories that are due are claimed, checked on GitHub and released.
pub mod Store
pub mod Processor
pub mod Writes
pub mod Moves
pub mod Announce
pub mod Departure
pub mod Steps
pub mod Claims
pub mod Quota
pub mod Producer
pub mod Capacity
pub mod Worker
pub mod Fleet
pub mod System
mod Tests
mod Examples
