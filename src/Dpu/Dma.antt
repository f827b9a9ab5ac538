-- ===== src/Dpu/Dma.antt =====
-- contrib/hostpimsim-upmem/dpu/dma.cc: transfers between the memories of a DPU.
mod Defs
pub mod Wram
pub mod Iram
unfoldable pub use Defs.*
