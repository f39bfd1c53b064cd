-- ===== src/ThreadPool.antt =====
-- The thread pools: common/ThreadPoolBase.h, common/ThreadPoolBase.cpp, common/Runnable.h,
-- ThreadPoolSessions.h and ThreadPoolSessions.cpp.
mod Defs
mod Steps
pub mod Queue
pub mod Capacity
pub mod Stopping
unfoldable pub use Defs.*
unfoldable pub use Steps.*
