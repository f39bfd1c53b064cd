-- ===== src/Lines.antt =====
-- The buffered line reader: common/Lines.h, common/Lines.cpp, common/StringLines.cpp and
-- common/FileLines.cpp.
mod Defs
pub mod Reading
pub mod Refilling
pub mod Next
unfoldable pub use Defs.*
