-- ===== src/Device/Regions.antt =====
-- Regions: their map by offset, `pim_region_create`, `pim_region_free` and the lookups.
mod Defs
pub mod Layout
pub mod Create
pub mod Owners
pub mod Free
unfoldable pub use Defs.*
