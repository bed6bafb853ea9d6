-- ===== src/Broker.antt =====
-- internal/infra/rabbitmq: the broker as the services use it.
pub mod Settler
pub mod Retry
pub mod Topology
pub mod Connection
pub mod Loop
pub mod Consumer
pub mod Schedule
pub mod Publisher
mod Tests
