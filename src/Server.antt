-- ===== src/Server.antt =====
-- The server and its acceptors: Server.h, Server.cpp, TcpAcceptor.cpp and FifoAcceptor.cpp.
mod Defs
mod Acceptors
pub mod Accepting
unfoldable pub use Defs.*
unfoldable pub use Acceptors.*
