-- ===== src/Dpu/Iram.antt =====
-- contrib/hostpimsim-upmem/dpu/iram.cc: the instruction memory, 3072 slots of 8 bytes that hold one
-- 48-bit instruction each.
mod Defs
pub mod Slots
unfoldable pub use Defs.*
