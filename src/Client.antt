-- ===== src/Client.antt =====
-- The client: client_src/Client.cpp, client_src/FifoClient.cpp and client_src/TcpClient.cpp.
mod Defs
mod Handshake
mod Loop
pub mod Ending
pub mod Answer
pub mod Keys
unfoldable pub use Defs.*
unfoldable pub use Handshake.*
unfoldable pub use Loop.*
