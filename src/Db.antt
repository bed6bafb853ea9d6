-- ===== src/Db.antt =====
-- The tables of internal/infra/db/db.go, and the database as the code calls it.
mod Schema
pub mod Gorm
pub mod Reference
pub use Schema.*
pub mod Found
pub mod Failing
