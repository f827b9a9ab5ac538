-- ===== src/Pipeline/Execute/Once.antt =====
-- `Pipeline::execute_once` of contrib/hostpimsim-upmem/dpu/pipeline.cc.
use hostpimsim_gecon.Base.{
  ◌==◌, ◌!=◌, ◌&&◌, ◌*◌, ◌+◌, ◌/◌, ◌^◌, if◌then◌else◌, ℕ, Bool, true, false, not, ltb, leb, bit_and,
  bit_or, Option, none, some, u32, update, min,
}
use hostpimsim_gecon.Dpu.Config.{num_tasklets}
use hostpimsim_gecon.Dpu.State.{Core}
use hostpimsim_gecon.Dpu.Wram.{load_u8, load_u16, load_u32}
use hostpimsim_gecon.Pipeline.Words.{sign_extend16, atomic_bit_index}
use hostpimsim_gecon.Pipeline.Perf.{perf_counter_read32, perf_counter_retire_step}
use hostpimsim_gecon.Pipeline.Decode.Raw.{RawDecoded48}
use hostpimsim_gecon.Pipeline.Decode.Word.{decode_raw_word_48}
use hostpimsim_gecon.Dpu.Control.{not64, is_skipped}
use hostpimsim_gecon.Dpu.Iram.{slot_in_bounds, read_word}
use hostpimsim_gecon.Pipeline.Decode.Metadata.{populate_hot_metadata_48}
use hostpimsim_gecon.Pipeline.Execute.Registers.{
  sub32, shl32, sign_extend8, byte, registers, Step, cf, Step,
}
use hostpimsim_gecon.Pipeline.Execute.Threads.{thread_of, acquire_bit, release_bit, resume_thread}
use hostpimsim_gecon.Pipeline.Execute.Memory.{stop}
use hostpimsim_gecon.Pipeline.Execute.Hot.{handle_hot, retire_hot}
use hostpimsim_gecon.Pipeline.Execute.Opcodes.{
  DpuOpcode, opcode_acquire, opcode_release, opcode_add, opcode_addc, opcode_div_step,
  opcode_lsl_sub, opcode_lsl1, opcode_lsl1x, opcode_lsr1, opcode_lsr1x, opcode_mul_step,
  opcode_rsub, opcode_rsubc, opcode_sub, opcode_subc, opcode_boot, opcode_resume, opcode_stop,
  opcode_call, opcode_fault, opcode_movd, opcode_swapd, opcode_time, opcode_time_cfg, opcode_lbs,
  opcode_lbu, opcode_ld, opcode_lhs, opcode_lhu, opcode_lw, opcode_sb, opcode_sb_id, opcode_sd,
  opcode_sd_id, opcode_sh, opcode_sh_id, opcode_sw, opcode_sw_id, opcode_ldma, opcode_ldmai,
  opcode_sdma, all_opcodes, opcode_at, Word, word_of, op_b,
}
use hostpimsim_gecon.Pipeline.Execute.Values.{value_of}
use hostpimsim_gecon.Pipeline.Execute.Plain.{
  boot_plain, put_result, put_carried, put_threads, address, copy_to_wram, copy_to_mram, call,
  store_narrow, store_half, store_word, store_double, load_double, move_double, swap_double,
  configure_time,
}

-- The cases with an effect besides a word in a register.
unfoldable pub run_effect : DpuOpcode → ℕ → Word → Step → Step
run_effect opcode_acquire t f s =
    put_threads t f (acquire_bit (atomic_bit_index (u32 (f.ra_val + f.imm16))) s.core.pipeline) s
run_effect opcode_release t f s =
    put_threads t f (release_bit (atomic_bit_index (u32 (f.ra_val + f.imm16))) s.core.pipeline) s
run_effect opcode_add t f s =
    let sum : ℕ = f.ra_val + op_b f in put_carried t f (sum / 2 ^ 32 != 0) (u32 sum) s
run_effect opcode_addc t f s =
    let sum : ℕ = f.ra_val + op_b f + (if cf t s then 1 else 0) in
    put_carried t f (sum / 2 ^ 32 != 0) (u32 sum) s
run_effect opcode_div_step t f s =
    put_carried t f (op_b f == 0) (if op_b f == 0 then 0 else f.ra_val / op_b f) s
run_effect opcode_lsl_sub t f s =
    let shifted = shl32 f.ra_val (bit_and f.imm8 31) in
    put_carried t f (ltb f.rb_val shifted) (sub32 f.rb_val shifted) s
run_effect opcode_lsl1 t f s =
    put_carried t f (bit_and f.ra_val 0x8000_0000 != 0) (shl32 f.ra_val 1) s
run_effect opcode_lsl1x t f s =
    put_carried t f (bit_and f.ra_val 0x8000_0000 != 0)
      (bit_or (shl32 f.ra_val 1) (if cf t s then 1 else 0)) s
run_effect opcode_lsr1 t f s = put_carried t f (bit_and f.ra_val 0x1 != 0) (f.ra_val / 2) s
run_effect opcode_lsr1x t f s =
    put_carried t f (bit_and f.ra_val 0x1 != 0)
      (bit_or (f.ra_val / 2) (if cf t s then 2 ^ 31 else 0)) s
run_effect opcode_mul_step t f s =
    let prod : ℕ = f.ra_val * op_b f in put_carried t f (prod / 2 ^ 32 != 0) (u32 prod) s
run_effect opcode_rsub t f s = put_carried t f (ltb (op_b f) f.ra_val) (sub32 (op_b f) f.ra_val) s
run_effect opcode_rsubc t f s =
    let rhs : ℕ = u32 (f.ra_val + (if cf t s then 1 else 0)) in
    put_carried t f (ltb (op_b f) rhs) (sub32 (op_b f) rhs) s
run_effect opcode_sub t f s = put_carried t f (ltb f.ra_val (op_b f)) (sub32 f.ra_val (op_b f)) s
run_effect opcode_subc t f s =
    let rhs : ℕ = u32 (op_b f + (if cf t s then 1 else 0)) in
    put_carried t f (ltb f.ra_val rhs) (sub32 f.ra_val rhs) s
run_effect opcode_boot t f s =
    put_threads t f (boot_plain (thread_of (u32 (f.ra_val + f.imm16))) s.core.pipeline) s
run_effect opcode_resume t f s =
    put_threads t f (resume_thread (u32 (f.ra_val + f.imm16)) s.core.pipeline) s
run_effect opcode_stop t f s = stop s
run_effect opcode_call t f s = call t f s
run_effect opcode_fault t f s = stop s
run_effect opcode_movd t f s = move_double t f s
run_effect opcode_swapd t f s = swap_double t f s
run_effect opcode_time t f s = put_result t f (perf_counter_read32 (registers s)) s
run_effect opcode_time_cfg t f s = configure_time t f s
run_effect opcode_lbs t f s = put_result t f (sign_extend8 (load_u8 s.core.wram (address t f 0))) s
run_effect opcode_lbu t f s = put_result t f (load_u8 s.core.wram (address t f 0)) s
run_effect opcode_ld t f s = load_double t f s
run_effect opcode_lhs t f s =
    put_result t f (sign_extend16 (load_u16 s.core.wram (address t f 0) false)) s
run_effect opcode_lhu t f s = put_result t f (load_u16 s.core.wram (address t f 0) false) s
run_effect opcode_lw t f s = put_result t f (load_u32 s.core.wram (address t f 0) false) s
run_effect opcode_sb t f s = store_narrow t f 0 s
run_effect opcode_sb_id t f s = store_narrow t f 1 s
run_effect opcode_sd t f s = store_double t f 0 s
run_effect opcode_sd_id t f s = store_double t f 8 s
run_effect opcode_sh t f s = store_half t f 0 s
run_effect opcode_sh_id t f s = store_half t f 2 s
run_effect opcode_sw t f s = store_word t f 0 s
run_effect opcode_sw_id t f s = store_word t f 4 s
run_effect opcode_ldma t f s = copy_to_wram t f s
run_effect opcode_ldmai t f s = copy_to_wram t f s
run_effect opcode_sdma t f s = copy_to_mram t f s
run_effect _ t f s = s

-- The switch on the opcode; an opcode that is not known does nothing.
unfoldable pub run_opcode : ℕ → ℕ → Word → Step → Step
run_opcode opcode t f s = elim (opcode_at all_opcodes opcode) [
  | none ↦ s
  | some op ↦ elim (value_of op f) [ none ↦ run_effect op t f s | some x ↦ put_result t f x s ]
]

-- The end of an instruction of the opcode map.
unfoldable pub retire_plain : ℕ → Step → Bool × Core
retire_plain t s =
    let r = registers s in
    let p = s.core.pipeline in
    let is_replay_step = bit_and p.replay_bits (2 ^ t) != 0 in
    let moved = record r { pc_regs = update r.pc_regs t s.next_pc } in
    (
      s.keep_running && leb (s.next_pc / 8) 0xffff && slot_in_bounds (s.next_pc / 8),
      record (s.core) {
        pipeline = record p {
          replay_bits = bit_and p.replay_bits (not64 (2 ^ t));
          register_file = perf_counter_retire_step is_replay_step moved;
        };
      },
    )

-- A word that is decoded, with its metadata. The source keeps these in a cache under the word itself.
unfoldable pub decoded_of : ℕ → Option RawDecoded48
decoded_of inst48 = elim (decode_raw_word_48 inst48) [
  | none ↦ none
  | some d ↦ some (populate_hot_metadata_48 d)
]

-- What a decoded word does, or `none` where it is left to the opcode map.
unfoldable pub hot_step : ℕ → Option RawDecoded48 → Step → Option Step
hot_step t none s = none
hot_step t (some d) s = if d.valid then handle_hot t d s else none

unfoldable pub retire : ℕ → Bool × Core → Option Step → Bool × Core
retire t plain none = plain
retire t plain (some s) = retire_hot t s

-- An instruction of the tasklet `t` before it does anything.
abbrev pub fetched : ℕ → Core → Step
fetched t c = record {
  core = c;
  next_pc = c.pipeline.register_file.pc_regs t + 8;
  keep_running = true;
}

-- The instruction `inst48` of the tasklet `t`.
unfoldable pub execute_word : ℕ → ℕ → Core → Bool × Core
execute_word inst48 t c =
    let s = fetched t c in
    retire t (retire_plain t (run_opcode (byte inst48 40) t (word_of t c inst48) s))
      (hot_step t (decoded_of inst48) s)

-- The slot of the tasklet's `pc`, where it has an instruction.
unfoldable pub has_instruction : ℕ → Core → Bool
has_instruction t c =
    let slot : ℕ = c.pipeline.register_file.pc_regs t / 8 in
    leb slot 0xffff && slot_in_bounds slot && (read_word c.iram slot != 0)

unfoldable pub execute_once : ℕ → Core → Bool × Core
execute_once t c =
    let inst48 = read_word c.iram (c.pipeline.register_file.pc_regs t / 8) in
    if leb (min num_tasklets num_tasklets) t
    then (false, c)
    else if is_skipped t c.pipeline
    then (false, c)
    else if not (has_instruction t c)
    then (false, c)
    else execute_word inst48 t c
