-- ===== src/Pipeline/Execute/Threads.antt =====
-- The operations of `Pipeline::execute_once` on tasklets: atomic bits, resume, boot and call.
use hostpimsim_gecon.Base.{
  ◌==◌, ◌!=◌, ◌&&◌, ◌||◌, ◌+◌, ◌-◌, ◌/◌, ◌^◌, if◌then◌else◌, ◌%◌, ℕ, not, ltb, bit_and, bit_or,
  bit_xor, u32, u8, update, min,
}
use hostpimsim_gecon.Dpu.Config.{num_tasklets}
use hostpimsim_gecon.Dpu.State.{RegisterFile, Pipeline}
use hostpimsim_gecon.Pipeline.Words.{atomic_bit_index}
use hostpimsim_gecon.Pipeline.Decode.Raw.{RawDecoded48}
use hostpimsim_gecon.Dpu.Control.{not64}
use hostpimsim_gecon.Pipeline.Execute.Registers.{jump, Step, set_zf, Step}
use hostpimsim_gecon.Pipeline.Execute.Inputs.{voff, vra, take_cond_branch, write_rc}

unfoldable pub with_pipeline : Pipeline → Step → Step
with_pipeline p s = record s { core = record (s.core) { pipeline = p } }

-- The number that `resume` and `boot` make of a word.
unfoldable pub thread_of : ℕ → ℕ
thread_of addr = u8 (bit_xor (bit_and (addr / 2 ^ 8) 0xff) (bit_and addr 0xff))

-- The byte of an atomic bit after `acquire` (`held` is false) or `release`, and the result.
unfoldable pub acquire_bit : ℕ → Pipeline → ℕ × Pipeline
acquire_bit index p =
    let byte_idx : ℕ = index / 8 in
    let mask : ℕ = 2 ^ (index % 8) in
    (
      if bit_and (p.atomic_bits byte_idx) mask == 0 then 0 else 1,
      record p {
        atomic_bits = update p.atomic_bits byte_idx (u8 (bit_or (p.atomic_bits byte_idx) mask));
      },
    )

unfoldable pub release_bit : ℕ → Pipeline → ℕ × Pipeline
release_bit index p =
    let byte_idx : ℕ = index / 8 in
    let mask : ℕ = 2 ^ (index % 8) in
    (
      if bit_and (p.atomic_bits byte_idx) mask != 0 then 0 else 1,
      record p {
        atomic_bits =
            update p.atomic_bits byte_idx (u8 (bit_and (p.atomic_bits byte_idx) (0xff - mask)));
      },
    )

unfoldable pub resume_thread : ℕ → Pipeline → ℕ × Pipeline
resume_thread index p =
    let bit : ℕ = 2 ^ index in
    let is_sleeping = bit_and p.sleep_bits bit != 0 in
    let is_stopped = bit_and p.run_bits bit == 0 in
    if ltb index (min num_tasklets num_tasklets) && (is_sleeping || is_stopped)
    then (
      0,
      record p {
        sleep_bits = bit_and p.sleep_bits (not64 bit);
        run_bits = bit_or p.run_bits bit;
        replay_bits = bit_and p.replay_bits (not64 bit);
      },
    )
    else (1, p)

unfoldable pub clear_registers : ℕ → RegisterFile → RegisterFile
clear_registers index r = record r {
  gp_regs = update r.gp_regs index (λ i. 0);
  pc_regs = update r.pc_regs index 0;
  zf_regs = update r.zf_regs index 0;
  cf_regs = update r.cf_regs index 0;
}

unfoldable pub boot_thread : ℕ → Pipeline → ℕ × Pipeline
boot_thread index p =
    let bit : ℕ = 2 ^ index in
    let is_running = bit_and p.run_bits bit != 0 in
    let is_sleeping = bit_and p.sleep_bits bit != 0 in
    if ltb index (min num_tasklets num_tasklets) && (not is_running && not is_sleeping)
    then (
      0,
      record p {
        run_bits = bit_or p.run_bits bit;
        sleep_bits = bit_and p.sleep_bits (not64 bit);
        replay_bits = bit_and p.replay_bits (not64 bit);
        register_file = clear_registers index p.register_file;
      },
    )
    else (1, p)

module _ (t : ℕ) (d : RawDecoded48) where
  -- A result in `rc`, the zero flag and the branch.
  unfoldable pub conclude : ℕ → Step → Step
  conclude result s = take_cond_branch t d result (set_zf t result (write_rc t d result s))

  unfoldable pub run_acquire : Step → Step
  run_acquire s =
      let index = atomic_bit_index (u32 (vra t d s + d.imm)) in
      let (result, p) =
        if not d.hot.acquire_is_release
        then acquire_bit index s.core.pipeline
        else release_bit index s.core.pipeline in
      conclude result (with_pipeline p s)

  unfoldable pub run_resume : Step → Step
  run_resume s =
      let (result, p) = resume_thread (thread_of (u32 (vra t d s + d.imm))) s.core.pipeline in
      conclude result (with_pipeline p s)

  unfoldable pub run_boot : Step → Step
  run_boot s =
      let (result, p) = boot_thread (thread_of (u32 (vra t d s + d.imm))) s.core.pipeline in
      conclude result (with_pipeline p s)

  -- The offset is a word that is taken as signed; `pc` is the tasklet's at the start.
  unfoldable pub run_call : ℕ → Step → Step
  run_call pc s = jump (vra t d s + voff d) (write_rc t d (u32 (pc / 8 + 1)) s)
