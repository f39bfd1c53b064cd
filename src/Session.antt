-- ===== src/Session.antt =====
-- The sessions of the server: Session.h, Session.cpp, FifoSession.cpp and TcpSession.cpp.
mod Defs
mod Fifo
mod Tcp
pub mod Reply
pub mod Turn
unfoldable pub use Defs.*
unfoldable pub use Fifo.*
unfoldable pub use Tcp.*
