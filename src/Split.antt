-- ===== src/Split.antt =====
-- common/Utility.h: the functions that split a text into rows, and the readers that are
-- made of them, common/StringLines2.cpp and common/FileLines2.cpp.
mod Defs
pub mod Any
pub mod Rows
pub mod Reuse
pub mod Readers
unfoldable pub use Defs.*
