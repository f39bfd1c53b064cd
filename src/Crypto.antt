-- ===== src/Crypto.antt =====
-- common/CryptoOperations.cpp, with the encryptors and compressors that it calls.
mod Names
mod Defs
pub mod RoundTrip
mod Options
mod Hiding
pub mod HiddenKey
pub mod Channel
pub use Names.*
unfoldable pub use Defs.*
unfoldable pub use Options.*
unfoldable pub use Hiding.*
