-- ===== src/Device.antt =====
-- src/hostpimsim.cc and src/internal.hh: a device, the regions of its shared memory, and the
-- handlers of their registers.
mod Status
mod Regions
mod Registers
mod Guard
mod Tests
pub use Status.*
