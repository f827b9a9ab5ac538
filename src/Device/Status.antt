-- ===== src/Device/Status.antt =====
-- `pim_error_t` and `pim_region_type_t` of include/hostpimsim.h.
use hostpimsim_gecon.Base.{Bool, true, false}

pub data PimError : Type 0 where
  success invalid_arg no_memory shm_open not_found already_exists out_of_bounds signal : PimError
  busy not_supported would_deadlock mmap msync mprotect mlock munlock : PimError

pub data RegionType : Type 0 where
  ram ctrl_mmio ctrl_rw : RegionType

abbrev pub is_ctrl_mmio : RegionType → Bool
is_ctrl_mmio ram = false
is_ctrl_mmio ctrl_mmio = true
is_ctrl_mmio ctrl_rw = false
