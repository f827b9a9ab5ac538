-- ===== src/Rank.antt =====
-- contrib/hostpimsim-upmem/upmem.cc: the transfers between the host and the MRAMs of a
-- rank.
mod Defs
mod Back
pub mod Requests
pub mod Untouched
pub mod Kept
mod Tests
unfoldable pub use Defs.*
