-- ===== src/Pool.antt =====
-- src/pool.cc and `pool_submit` of src/internal.hh: the thread pool of a device.
mod Defs
mod Counts
mod Barrier
mod TwoLoads
mod Drain
mod Tests
unfoldable pub use Defs.*
