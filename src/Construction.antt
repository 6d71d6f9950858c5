-- ===== src/Construction.antt =====
-- src/construction.
pub mod SqlText
pub mod Uuid
pub mod Metrics
pub mod Sqlite
pub mod MasterDb
mod Tests
