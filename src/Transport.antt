-- ===== src/Transport.antt =====
-- Messages on a pipe and on a socket: common/Fifo.h, common/Fifo.cpp, common/Tcp.h and
-- common/Tcp.cpp.
mod Defs
mod Fifo
mod Tcp
pub mod Framing
pub mod Writing
pub mod Opening
pub mod Delivery
unfoldable pub use Defs.*
unfoldable pub use Fifo.*
unfoldable pub use Tcp.*
