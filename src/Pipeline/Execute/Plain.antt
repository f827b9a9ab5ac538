-- ===== src/Pipeline/Execute/Plain.antt =====
-- The operations of the opcode map on flags, tasklets and memories.
use hostpimsim_gecon.Base.{
  ◌==◌, ◌!=◌, ◌&&◌, ◌*◌, ◌+◌, ◌/◌, ◌^◌, if◌then◌else◌, ℕ, Bool, false, ltb, bit_and, bit_or, u32,
  u8, u16, min,
}
use hostpimsim_gecon.Dpu.Config.{num_tasklets}
use hostpimsim_gecon.Dpu.State.{Pipeline}
use hostpimsim_gecon.Dpu.Wram.{load_u64, store_u8, store_u16, store_u32, store_u64}
use hostpimsim_gecon.Dpu.Dma.{dma_to_wram_from_mram, dma_to_mram_from_wram}
use hostpimsim_gecon.Pipeline.Words.{shifted}
use hostpimsim_gecon.Pipeline.Perf.{perf_counter_config}
use hostpimsim_gecon.Pipeline.Words.{shifted}
use hostpimsim_gecon.Pipeline.Execute.Registers.{
  sign_extend32, registers, with_registers, addr_add, jump, Step, write_reg, read_dreg, write_dreg,
  set_zf, set_cf, Step,
}
use hostpimsim_gecon.Pipeline.Execute.Threads.{with_pipeline, clear_registers}
use hostpimsim_gecon.Pipeline.Execute.Memory.{with_wram, stop}
use hostpimsim_gecon.Pipeline.Execute.Opcodes.{Word, op_b}

-- The cases of `OP_BOOT`, which leaves the other two bits of the tasklet.
unfoldable pub boot_plain : ℕ → Pipeline → ℕ × Pipeline
boot_plain tid p =
    let other_bit : ℕ = 2 ^ tid in
    let is_idle = (bit_and p.run_bits other_bit == 0) && (bit_and p.sleep_bits other_bit == 0) in
    if ltb tid (min num_tasklets num_tasklets) && is_idle
    then (
      0,
      record p {
        run_bits = bit_or p.run_bits other_bit;
        register_file = clear_registers tid p.register_file;
      },
    )
    else (1, p)

module _ (t : ℕ) (f : Word) where
  -- `write_reg(rc, result); set_zf(result);`, then the carry flag or the pipeline.
  unfoldable pub put_result : ℕ → Step → Step
  put_result x s = set_zf t x (write_reg t f.rc x s)

  unfoldable pub put_carried : Bool → ℕ → Step → Step
  put_carried carry x s = set_cf t carry (put_result x s)

  unfoldable pub put_threads : ℕ × Pipeline → Step → Step
  put_threads (result, p) s = put_result result (with_pipeline p s)

  -- An address in WRAM, with the tasklet's number in units of `scale`.
  unfoldable pub address : ℕ → ℕ
  address scale = u32 (addr_add f.ra_val f.imm16 + u32 (t * scale))

  unfoldable pub copy_to_wram : Step → Step
  copy_to_wram s =
      let c = s.core in
      let n : ℕ = (1 + bit_and (f.imm8 + bit_and (f.ra_val / 2 ^ 24) 0xff) 0xff) * 2 ^ 3 in
      record s {
        core = record c {
          wram =
              (dma_to_wram_from_mram c.wram c.mram n (bit_and f.ra_val 0x00ff_fff8)
                (bit_and f.rb_val 0xffff_fff8)).1;
        };
      }

  unfoldable pub copy_to_mram : Step → Step
  copy_to_mram s =
      let c = s.core in
      let n : ℕ = (1 + bit_and (f.imm8 + bit_and (f.ra_val / 2 ^ 24) 0xff) 0xff) * 2 ^ 3 in
      record s {
        core = record c {
          mram =
              (dma_to_mram_from_wram c.mram c.wram n (bit_and f.rb_val 0xffff_fff8)
                (bit_and f.ra_val 0x00ff_fff8)).1;
        };
      }

  -- A target below 0 stops the tasklet.
  unfoldable pub call : Step → Step
  call s =
      let offset = if f.rb != 24 then f.rb_val else f.imm24 in
      let pc = (registers s).pc_regs t in
      let s1 = write_reg t f.rc (u32 (pc / 8 + 1)) s in
      if ltb (shifted f.ra_val + shifted offset) (2 ^ 32)
      then stop s1
      else jump (f.ra_val + offset) s1

  unfoldable pub store_narrow : ℕ → Step → Step
  store_narrow scale s =
      with_wram (store_u8 s.core.wram (address scale) (u8 (bit_and (op_b f) 0xff))) s

  unfoldable pub store_half : ℕ → Step → Step
  store_half scale s =
      with_wram (store_u16 s.core.wram (address scale) (u16 (bit_and (op_b f) 0xffff)) false) s

  unfoldable pub store_word : ℕ → Step → Step
  store_word scale s = with_wram (store_u32 s.core.wram (address scale) (op_b f) false) s

  unfoldable pub store_double : ℕ → Step → Step
  store_double scale s =
      let value = if f.rb == 24 then sign_extend32 f.imm16 else read_dreg t s.core f.rb in
      with_wram (store_u64 s.core.wram (address scale) value false) s

  unfoldable pub load_double : Step → Step
  load_double s =
      let value = load_u64 s.core.wram (address 0) false in
      set_zf t (if value == 0 then 0 else 1) (write_dreg t f.rc value s)

  unfoldable pub move_double : Step → Step
  move_double s =
      let value = read_dreg t s.core f.ra in
      set_zf t (if value == 0 then 0 else 1) (write_dreg t f.rc value s)

  unfoldable pub swap_double : Step → Step
  swap_double s =
      let lhs = read_dreg t s.core f.rc in
      let rhs = read_dreg t s.core f.ra in
      set_zf t (if rhs == 0 then 0 else 1) (write_dreg t f.ra lhs (write_dreg t f.rc rhs s))

  unfoldable pub configure_time : Step → Step
  configure_time s =
      let (old, r) = perf_counter_config (bit_and (op_b f) 0x7) (registers s) in
      put_result old (with_registers r s)
