-- ===== src/Message.antt =====
-- common/IOUtility.cpp, `processMessage`: a message is taken apart into the strings that the
-- header announces.
mod Defs
pub mod Fields
pub mod RoundTrip
unfoldable pub use Defs.*
