-- ===== src/TaskController.antt =====
-- TaskController.h and TaskController.cpp: the threads that work on a task together, the barrier
-- at which they meet, and the queue of tasks.
pub mod Board
mod Defs
mod Barrier
mod Entries
pub mod Order
pub mod Progress
pub mod Invariant
pub mod Working
pub mod Completion
unfoldable pub use Defs.*
