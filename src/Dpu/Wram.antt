-- ===== src/Dpu/Wram.antt =====
-- contrib/hostpimsim-upmem/dpu/wram.cc: the 64 KiB working memory of a DPU. `Defs` holds the class
-- and its methods, `Access` what one access reads and writes.
mod Defs
pub mod Access
pub mod Safety
pub mod Words
unfoldable pub use Defs.*
