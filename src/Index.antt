-- ===== src/Index.antt =====
-- src/index: the Bloom filter and the query engine.
pub mod Bloom
pub mod QueryEngine
mod Tests
