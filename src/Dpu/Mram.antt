-- ===== src/Dpu/Mram.antt =====
-- contrib/hostpimsim-upmem/dpu/mram.cc: the 64 MiB main memory of a DPU.
mod Defs
pub mod Copies
unfoldable pub use Defs.*
