-- ===== src/Ci.antt =====
-- contrib/hostpimsim-upmem/ci: the control interface of a chip, its command frames and its state.
pub mod Frame
pub mod Thread
pub mod State
mod Tests
