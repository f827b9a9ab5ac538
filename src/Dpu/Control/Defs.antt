-- ===== src/Dpu/Control/Defs.antt =====
-- `UPMEMDPU::control`. The execution of one instruction, `Pipeline::execute_once`, is a parameter:
-- from a tasklet's number and the core it gives whether the tasklet keeps running, and the new core.
use hostpimsim_gecon.Base.{
  ℕ, zero, suc, ◌+◌, ◌-◌, ◌/◌, ◌^◌, min, Bool, true, false, ◌&&◌, ◌||◌, not, none, some, ltb, ◌==◌,
  ◌!=◌, if◌then◌else◌, u8, update, bit_and, bit_or,
}
use hostpimsim_gecon.Dpu.Config.{num_tasklets}
use hostpimsim_gecon.Dpu.Mram.{is_some}
use hostpimsim_gecon.Dpu.State.{Pipeline, Core, Dpu, set_last_control_result}
use hostpimsim_gecon.Ci.Thread.{
  ThreadCmdKind, boot, resume, clear_run, read_run, decode_thread_command,
}

unfoldable pub is_run_state_read_command : ℕ → Bool
is_run_state_read_command ci_cmd =
    let opcode : ℕ = u8 (bit_and (ci_cmd / 2 ^ 56) 0xff) in
    let tag : ℕ = u8 (bit_and (ci_cmd / 2 ^ 48) 0xff) in
    let b0 : ℕ = u8 (bit_and (ci_cmd / 2 ^ 0) 0xff) in
    let b1 : ℕ = u8 (bit_and (ci_cmd / 2 ^ 8) 0xff) in
    (opcode == 0x33) && (tag == 0x00) && (b0 == 0x84) && (b1 == 0x02)

-- `~x` on `uint64_t`.
abbrev pub not64 : ℕ → ℕ
not64 x = 2 ^ 64 - 1 - x

-- `run_bits &= ~bit`, and so for the other two.
unfoldable pub clear_tasklet : ℕ → Pipeline → Pipeline
clear_tasklet bit p = record p {
  run_bits = bit_and p.run_bits (not64 bit);
  sleep_bits = bit_and p.sleep_bits (not64 bit);
  replay_bits = bit_and p.replay_bits (not64 bit);
}

-- The test by which the loop skips a tasklet.
unfoldable pub is_skipped : ℕ → Pipeline → Bool
is_skipped tid p =
    let tasklet_bit : ℕ = 2 ^ tid in
    (bit_and p.run_bits tasklet_bit == 0) || (bit_and p.sleep_bits tasklet_bit != 0)

abbrev pub progress_budget : ℕ
progress_budget = 8_388_608

module _ (execute_once : ℕ → Core → Bool × Core) where
  -- One round of the inner loop.
  unfoldable pub turn : ℕ → Core → Core
  turn tid c =
      let (keep_running, c') = execute_once tid c in
      if is_skipped tid c.pipeline
      then c
      else if keep_running
      then c'
      else record c' { pipeline = clear_tasklet (2 ^ tid) c'.pipeline }

  -- The inner loop, over the `left` tasklets from `tid` on.
  unfoldable pub sweep : ℕ → ℕ → Core → Core
  sweep zero tid c = c
  sweep (suc left) tid c = sweep left (tid + 1) (turn tid c)

  -- The outer loop, with the rounds of its budget that are left.
  unfoldable pub run_rounds : ℕ → Core → Core
  run_rounds zero c = c
  run_rounds (suc budget) c = elim (c.pipeline.run_bits == 0) [
    | true ↦ c
    | false ↦ run_rounds budget (sweep (min num_tasklets num_tasklets) 0 c)
  ]

  unfoldable pub read_run_state : Dpu → Dpu
  read_run_state d =
      let c' = run_rounds progress_budget d.core in
      let ran = record d { core = c' } in
      if not (is_some d.core.mram.addr) || (d.core.mram.size == 0)
      then set_last_control_result
          (record d {
            core = record (d.core) {
              pipeline = record (d.core.pipeline) { run_bits = 0; sleep_bits = 0; replay_bits = 0 };
            };
          })
          0
      else set_last_control_result ran (if c'.pipeline.run_bits != 0 then 1 else 0)

-- `fill(0)` on the registers of one tasklet, where the array has it.
unfoldable pub reset_registers : ℕ → Pipeline → Pipeline
reset_registers t p =
    let r = p.register_file in
    if ltb t num_tasklets
    then record p {
      register_file = record r {
        gp_regs = update r.gp_regs t (λ i. 0);
        pc_regs = update r.pc_regs t 0;
        zf_regs = update r.zf_regs t 0;
        cf_regs = update r.cf_regs t 0;
      };
      atomic_bits = if t == 0 then (λ i. 0) else p.atomic_bits;
    }
    else p

-- The cases of the switch.
unfoldable pub apply_thread_command : ThreadCmdKind → ℕ → Pipeline → Pipeline
unfolding reset_registers
apply_thread_command boot t p =
    let bit : ℕ = if ltb t 64 then 2 ^ t else 0 in
    record (reset_registers t p) {
      run_bits = bit_or p.run_bits bit;
      sleep_bits = bit_and p.sleep_bits (not64 bit);
      replay_bits = bit_and p.replay_bits (not64 bit);
    }
apply_thread_command resume t p =
    let bit : ℕ = if ltb t 64 then 2 ^ t else 0 in
    record p { run_bits = bit_or p.run_bits bit; sleep_bits = bit_and p.sleep_bits (not64 bit) }
apply_thread_command clear_run t p =
    let bit : ℕ = if ltb t 64 then 2 ^ t else 0 in
    record p {
      run_bits = bit_and p.run_bits (not64 bit);
      sleep_bits = bit_and p.sleep_bits (not64 bit);
      replay_bits = bit_and p.replay_bits (not64 bit);
    }
apply_thread_command read_run t p = p

unfoldable pub control_thread : ThreadCmdKind → ℕ → Dpu → Dpu
unfolding apply_thread_command
control_thread kind t d =
    let bit : ℕ = if ltb t 64 then 2 ^ t else 0 in
    let was_running = bit_and d.core.pipeline.run_bits bit != 0 in
    set_last_control_result
      (record d {
        core = record (d.core) { pipeline = apply_thread_command kind t d.core.pipeline };
      })
      (if was_running then 1 else 0)

unfoldable pub control : (ℕ → Core → Bool × Core) → ℕ → Dpu → Dpu
unfolding is_run_state_read_command
control execute_once ci_cmd d =
    let polled = read_run_state execute_once d in
    let commanded : Dpu = elim (decode_thread_command ci_cmd) [
      | none ↦ set_last_control_result d 0
      | some (kind, t) ↦ control_thread kind t d
    ] in
    if is_run_state_read_command ci_cmd then polled else commanded
