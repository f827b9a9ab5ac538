-- ===== src/Ci/Thread.antt =====
-- contrib/hostpimsim-upmem/internal.cc: the thread-control frames.
mod Defs
pub mod RoundTrip
unfoldable pub use Defs.*
