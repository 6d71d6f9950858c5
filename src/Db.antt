-- ===== src/Db.antt =====
-- src/db: the storage of entities.
pub mod DataStorage
