-- ===== src/Api.antt =====
-- The request handler of src/main.cpp.
pub mod Json
pub mod Fields
pub mod App
pub mod Route
pub mod Insert
pub mod Exists
pub mod Batch
pub mod Handler
pub mod Broadcast
pub mod Start
mod Tests
