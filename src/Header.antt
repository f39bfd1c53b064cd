-- ===== src/Header.antt =====
-- common/Header.h and common/Header.cpp: the fixed-size header in front of every message.
mod Enums
mod Defs
pub mod RoundTrip
unfoldable pub use Enums.*
unfoldable pub use Defs.*
