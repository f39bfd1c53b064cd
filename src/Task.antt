-- ===== src/Task.antt =====
-- Task.h and Task.cpp: a batch of requests and its replies.
mod Defs
pub mod Update
pub mod Work
pub mod Answers
unfoldable pub use Defs.*
