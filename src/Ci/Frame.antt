-- ===== src/Ci/Frame.antt =====
-- The frames of the control interface: `encode_frame_from_x` of contrib/hostpimsim-upmem/internal.hh
-- and the static members of the class `CI` in contrib/hostpimsim-upmem/ci/ci.hh.
mod Defs
pub mod Search
pub mod RoundTrip
pub mod Envelope
unfoldable pub use Defs.*
