-- ===== src/Dpu/Config.antt =====
-- The sizes of contrib/hostpimsim-upmem/internal.hh, at their default configuration.
use hostpimsim_gecon.Base.{ℕ, ◌*◌}

-- `DPU_NR_TASKLETS` of a default build.
abbrev pub num_tasklets : ℕ
num_tasklets = 24

abbrev pub iram_size_bytes : ℕ
iram_size_bytes = 24 * 1024

abbrev pub wram_size_bytes : ℕ
wram_size_bytes = 64 * 1024

abbrev pub mram_size_bytes : ℕ
mram_size_bytes = 64 * 1024 * 1024

abbrev pub chip_num_dpus : ℕ
chip_num_dpus = 8

abbrev pub ci_num_group_slots : ℕ
ci_num_group_slots = 8
