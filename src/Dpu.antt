-- ===== src/Dpu.antt =====
-- contrib/hostpimsim-upmem/dpu: one simulated UPMEM DPU, its memories, its DMA engine and its
-- control function.
pub mod Config
pub mod Swap
pub mod Wram
pub mod Iram
pub mod Mram
pub mod Dma
pub mod State
pub mod Control
mod Tests
