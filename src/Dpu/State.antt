-- ===== src/Dpu/State.antt =====
-- The state of a DPU: the classes `Pipeline` and `UPMEMDPU` of
-- contrib/hostpimsim-upmem/dpu/dpu.hh.
use hostpimsim_gecon.Base.{ℕ, ◌+◌, u64}
use hostpimsim_gecon.Dpu.Wram.{Wram}
use hostpimsim_gecon.Dpu.Iram.{Iram}
use hostpimsim_gecon.Dpu.Mram.{Mram}
use hostpimsim_gecon.Dpu.Dma.{DmaEngine}

-- An array is a function of its index; `gp_regs t r` is register `r` of tasklet `t`.
pub record RegisterFile : Type 0 where
  pub gp_regs : ℕ → ℕ → ℕ
  pub pc_regs : ℕ → ℕ
  pub zf_regs : ℕ → ℕ
  pub cf_regs : ℕ → ℕ
  pub perf_counter_raw : ℕ
  pub perf_counter_mode : ℕ

pub record Pipeline : Type 0 where
  pub register_file : RegisterFile
  pub run_bits : ℕ
  pub sleep_bits : ℕ
  pub replay_bits : ℕ
  pub atomic_bits : ℕ → ℕ

-- What an instruction can read and write.
pub record Core : Type 0 where
  pub dma_engine : DmaEngine
  pub iram : Iram
  pub mram : Mram
  pub pipeline : Pipeline
  pub wram : Wram

pub record Dpu : Type 0 where
  pub core : Core
  pub last_control_result : ℕ
  pub last_control_generation : ℕ

unfoldable pub clear_last_control_result : Dpu → Dpu
clear_last_control_result d = record d { last_control_result = 0xffff_ffff }

unfoldable pub set_last_control_result : Dpu → ℕ → Dpu
set_last_control_result d value = record d {
  last_control_result = value;
  last_control_generation = u64 (d.last_control_generation + 1);
}
