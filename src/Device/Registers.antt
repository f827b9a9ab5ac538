-- ===== src/Device/Registers.antt =====
-- Registers of a region: their handlers, and typed accesses to the region's memory.
mod Defs
mod Access
pub mod Layout
pub mod Register
pub mod Baseline
pub mod Sync
pub mod Writes
pub mod Effects
pub mod Steps
unfoldable pub use Defs.*
unfoldable pub use Access.*
