-- ===== src/Pipeline/Execute/Memory.antt =====
-- The operations of `Pipeline::execute_once` on the memories and on the performance counter.
use hostpimsim_gecon.Base.{
  ◌*◌, ◌+◌, ◌/◌, ◌^◌, if◌then◌else◌, ℕ, Bool, true, false, not, bit_and, bit_or, u8, u16,
}
use hostpimsim_gecon.Dpu.Wram.{
  load_u8, load_u32, load_u64, store_u8, store_u16, store_u32, store_u64, Wram,
}
use hostpimsim_gecon.Dpu.Dma.{dma_to_wram_from_mram, dma_to_mram_from_wram}
use hostpimsim_gecon.Pipeline.Perf.{perf_counter_read32, perf_counter_config}
use hostpimsim_gecon.Pipeline.Decode.Raw.{RawDecoded48, StoreSourceMode, imm32}
use hostpimsim_gecon.Pipeline.Execute.Registers.{
  sign_extend8, registers, with_registers, addr_add, Step, read_dreg, write_dreg, set_zf, Step,
}
use hostpimsim_gecon.Pipeline.Execute.Inputs.{
  ddc, ddb, voff, is_big_endian, vra, vrb, write_ext_dreg32, write_rc,
}

unfoldable pub is_imm32 : StoreSourceMode → Bool
is_imm32 imm32 = true
is_imm32 _ = false

unfoldable pub with_wram : Wram → Step → Step
with_wram w s = record s { core = record (s.core) { wram = w } }

unfoldable pub stop : Step → Step
stop s = record s { keep_running = false }

module _ (t : ℕ) (d : RawDecoded48) where
  unfoldable pub run_dma : Step → Step
  run_dma s =
      let c = s.core in
      let w : ℕ = bit_and (vra t d s) 0x00ff_fff8 in
      let m : ℕ = bit_and (vrb t d s) 0xffff_fff8 in
      let n : ℕ = (1 + bit_and (d.imm_dma + bit_and (vra t d s / 2 ^ 24) 0xff) 0xff) * 2 ^ 3 in
      if not d.hot.dma_to_mram
      then record s { core = record c { wram = (dma_to_wram_from_mram c.wram c.mram n w m).1 } }
      else record s { core = record c { mram = (dma_to_mram_from_wram c.mram c.wram n m w).1 } }

  unfoldable pub run_lbu : Step → Step
  run_lbu s =
      let x = load_u8 s.core.wram (addr_add (vra t d s) (voff d)) in set_zf t x (write_rc t d x s)

  unfoldable pub run_lbs : Step → Step
  run_lbs s =
      let x = sign_extend8 (load_u8 s.core.wram (addr_add (vra t d s) (voff d))) in
      set_zf t x (write_rc t d x s)

  unfoldable pub run_lw : Step → Step
  run_lw s =
      let x = load_u32 s.core.wram (addr_add (vra t d s) (voff d)) (is_big_endian d) in
      set_zf t x (write_ext_dreg32 t d x (write_rc t d x s))

  unfoldable pub run_ld : Step → Step
  run_ld s =
      let x = load_u64 s.core.wram (addr_add (vra t d s) (voff d)) (is_big_endian d) in
      set_zf t (bit_and (bit_or x (x / 2 ^ 32)) 0xffff_ffff)
        (if d.has_dc then write_dreg t (ddc d) x s else s)

  -- The word that a store writes.
  unfoldable pub stored : Step → ℕ
  stored s = if is_imm32 d.hot.store_source_mode then d.imm else vrb t d s

  unfoldable pub run_sw : Step → Step
  run_sw s =
      with_wram (store_u32 s.core.wram (addr_add (vra t d s) (voff d)) (stored s) (is_big_endian d))
        s

  unfoldable pub run_sb : Step → Step
  run_sb s =
      with_wram
        (store_u8 s.core.wram (addr_add (vra t d s) (voff d)) (u8 (bit_and (stored s) 0xff))) s

  unfoldable pub run_sh : Step → Step
  run_sh s =
      with_wram
        (store_u16 s.core.wram (addr_add (vra t d s) (voff d)) (u16 (bit_and (stored s) 0xffff))
          false)
        s

  unfoldable pub run_sd : Step → Step
  run_sd s =
      let x = if is_imm32 d.hot.store_source_mode then d.imm else read_dreg t s.core (ddb d) in
      with_wram (store_u64 s.core.wram (addr_add (vra t d s) (voff d)) x (is_big_endian d)) s

  unfoldable pub run_time : Step → Step
  run_time s = write_rc t d (perf_counter_read32 (registers s)) s

  unfoldable pub run_time_cfg : Step → Step
  run_time_cfg s =
      let cfg_value = if d.hot.time_cfg_uses_ra then vra t d s else vrb t d s in
      let (old, r) = perf_counter_config cfg_value (registers s) in
      write_rc t d old (with_registers r s)
