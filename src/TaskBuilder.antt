-- ===== src/TaskBuilder.antt =====
-- client_src/TaskBuilder.cpp: the client puts the lines of its source together in batches.
mod Defs
pub mod Batches
unfoldable pub use Defs.*
