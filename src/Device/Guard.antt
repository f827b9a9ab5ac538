-- ===== src/Device/Guard.antt =====
-- Dispatches against changes of the handler tables: `region_dispatch_guard`.
mod Defs
pub mod Exclusion
unfoldable pub use Defs.*
