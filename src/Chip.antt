-- ===== src/Chip.antt =====
-- contrib/hostpimsim-upmem/upmem.cc: a chip, eight DPUs behind one control interface, and what one
-- command word does to it.
mod Defs
pub mod Masks
pub mod Opcodes
pub mod WramWrite
pub mod IramWrite
pub mod Select
pub mod WramRead
pub mod WramRoundTrip
mod Tests
unfoldable pub use Defs.*
