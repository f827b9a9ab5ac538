-- ===== src/Dpu/Swap.antt =====
-- The byte swaps of contrib/hostpimsim-upmem/dpu/wram.cc, and what they do to the bytes of a word.
mod Defs
mod Lanes
mod Laws
unfoldable pub use Defs.{bswap16, bswap32, bswap64}
pub use Laws.*
