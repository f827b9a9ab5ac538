-- ===== src/Ci/State.antt =====
-- contrib/hostpimsim-upmem/ci/ci.cc: the protocol state of a control interface.
mod Defs
pub mod Reset
unfoldable pub use Defs.*
