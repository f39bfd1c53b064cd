-- ===== src/Transaction.antt =====
-- business/Transaction.cpp: the reply to one request.
mod SizeKey
pub mod Winner
pub mod Matching
pub mod Reply
pub mod Parsing
mod Match
mod Defs
unfoldable pub use SizeKey.*
unfoldable pub use Match.*
unfoldable pub use Defs.*
