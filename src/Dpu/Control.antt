-- ===== src/Dpu/Control.antt =====
-- contrib/hostpimsim-upmem/dpu/dpu.cc: the control function of a DPU.
mod Defs
pub mod Schedule
pub mod Threads
pub mod Answers
unfoldable pub use Defs.*
