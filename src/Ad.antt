-- ===== src/Ad.antt =====
-- business/Ad.cpp: the advertisements that requests are matched with.
mod Defs
pub mod Book
unfoldable pub use Defs.*
