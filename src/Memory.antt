-- ===== src/Memory.antt =====
-- src/memory: the arena allocator, its adapter for the containers, and the manager of the domains.
pub mod Arena
pub mod Stl
pub mod Manager
mod Tests
