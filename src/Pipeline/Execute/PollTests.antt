-- ===== src/Pipeline/Execute/PollTests.antt =====
-- A poll that ends: a program of one instruction, run by one tasklet under `UPMEMDPU::control`.
use hostpimsim_gecon.Base.{
  ℕ, ◌-◌, ◌/◌, ◌*◌, ◌^◌, ◌<◌, ◌≡◌, ◌↔◌, ◌∙◌, ◌⊎◌, inl, inr, refl, ap, ap₂, arith, true, false, ◌==◌,
  if◌then◌else◌, ltb, some, bit_and, bit_at, bit_at-two_pow, bit_at-zero, update, load_le,
}
use hostpimsim_gecon.Dpu.Config.{num_tasklets}
use hostpimsim_gecon.Dpu.State.{Core, Dpu}
use hostpimsim_gecon.Dpu.Iram.{read_word, slot_in_bounds}
use hostpimsim_gecon.Dpu.Control.{control, is_skipped, clear_tasklet, is_run_state_read_command}
use hostpimsim_gecon.Dpu.Control.Schedule.{is_active, executed}
use hostpimsim_gecon.Dpu.Control.Answers.{control-settles}
use hostpimsim_gecon.Pipeline.Perf.{perf_counter_retire_step}
use hostpimsim_gecon.Pipeline.Decode.Raw.{set_hot_metadata, accept_hot}
use hostpimsim_gecon.Pipeline.Decode.Fields.{bits, put_dc5_40, put_rb5_32, put_imm32_24}
use hostpimsim_gecon.Pipeline.Decode.Groups6.{group5}
use hostpimsim_gecon.Pipeline.Decode.Word.{decode_raw_word_48}
use hostpimsim_gecon.Pipeline.Decode.Metadata.{
  populate_hot_metadata_48, metadata_of, hot_of, hot_or, is_hot_format_one_of,
}
use hostpimsim_gecon.Pipeline.Execute.Registers.{
  read_reg, write_reg, write_dreg, dreg_slot, with_registers, set_registers, set_zf,
}
use hostpimsim_gecon.Pipeline.Execute.Inputs.{
  vra, vrb, rhs_of, write_rc, write_result, write_ext_dreg32, take_cond_branch,
}
use hostpimsim_gecon.Pipeline.Execute.Arithmetic.{run_or}
use hostpimsim_gecon.Pipeline.Execute.Hot.{run_hot, handle_hot, retire_hot}
use hostpimsim_gecon.Pipeline.Execute.Once.{
  decoded_of, hot_step, retire, execute_word, has_instruction, execute_once,
}

-- Tasklet 0 runs at slot 0, which has an `or.s`; there is nothing after it.
abbrev start : Core
start = record {
  dma_engine = record { dma_mux_status = 0; dma_ctrl_reg = 0 };
  iram = record {
    inst = λ i. if ltb i 6 then bit_and (0x54f4_10ac_ff00 / 2 ^ (8 * i)) 0xff else 0;
  };
  mram = record { addr = some (λ i. 0); size = 0x400_0000; owns_mapping = true };
  pipeline = record {
    register_file = record {
      gp_regs = λ t r. 2 ^ 32 - 1;
      pc_regs = λ t. 0;
      zf_regs = λ t. 0;
      cf_regs = λ t. 0;
      perf_counter_raw = 0;
      perf_counter_mode = 0;
    };
    run_bits = 1;
    sleep_bits = 0;
    replay_bits = 0;
    atomic_bits = λ i. 0;
  };
  wram = record { bytes = λ i. 0 };
}

abbrev after_one : Core
after_one = executed execute_once 0 start

abbrev after_two : Core
after_two = executed execute_once 0 after_one

-- The tasklet is at the next slot after one turn, and has stopped after two.
turns :
    (after_one.pipeline.run_bits ≡ 1)
    × (after_one.pipeline.register_file.pc_regs 0 ≡ 8)
    × (after_two.pipeline.run_bits ≡ 0)
unfolding executed execute_once execute_word has_instruction read_word slot_in_bounds load_le
    is_skipped clear_tasklet hot_step retire decoded_of decode_raw_word_48 group5 bits put_dc5_40
    put_rb5_32 put_imm32_24 set_hot_metadata accept_hot populate_hot_metadata_48 metadata_of hot_of
    hot_or is_hot_format_one_of handle_hot run_hot retire_hot run_or vra vrb rhs_of write_rc
    write_result write_ext_dreg32 take_cond_branch read_reg write_reg write_dreg dreg_slot
    with_registers set_registers set_zf perf_counter_retire_step update
turns = (refl, refl, refl)

-- The cores that the program goes through.
abbrev Passes : Core → Type 0
Passes c = (c ≡ start) ⊎ (c ≡ after_one) ⊎ (c ≡ after_two)

-- The bytes from the tasklet's `pc` to the end of the second slot, while it runs.
abbrev left_to_run : Core → ℕ
left_to_run c = if c.pipeline.run_bits == 0 then 0 else 16 - c.pipeline.register_file.pc_regs 0

only_zero : (t : ℕ) (c : Core) → c.pipeline.run_bits ≡ 1 → is_active c.pipeline t ≡ true → t ≡ 0
only_zero t c one active = ground (arith, ap (λ b. bit_at b t) one, bit_at-two_pow 0 t, active)

none_active : (t : ℕ) (c : Core) → c.pipeline.run_bits ≡ 0 → is_active c.pipeline t ≡ true → ⊥
none_active t c stopped active = ground (arith, ap (λ b. bit_at b t) stopped, bit_at-zero t, active)

-- A turn of an active tasklet takes one of the first two cores to the next.
turn_cases :
    (t : ℕ) (c : Core)
    → is_active c.pipeline t ≡ true
    → Passes c
    → ((c ≡ start) × (executed execute_once t c ≡ after_one))
      ⊎ ((c ≡ after_one) × (executed execute_once t c ≡ after_two))
turn_cases t c active (inl e) =
    let zero_th = only_zero t c (ap (λ (k : Core). k.pipeline.run_bits) e) active in
    inl (e, ap₂ (executed execute_once) zero_th e)
turn_cases t c active (inr (inl e)) =
    let one = ap (λ (k : Core). k.pipeline.run_bits) e ∙ turns.0 in
    inr (e, ap₂ (executed execute_once) (only_zero t c one active) e)
turn_cases t c active (inr (inr e)) =
    absurd (none_active t c (ap (λ (k : Core). k.pipeline.run_bits) e ∙ turns.2) active)

turn_keeps :
    (t : ℕ) (c : Core)
    → t < num_tasklets
    → is_active c.pipeline t ≡ true
    → Passes c
    → Passes (executed execute_once t c)
turn_keeps t c lt active p = elim (turn_cases t c active p) [
  | inl (e, next) ↦ inr (inl next)
  | inr (e, next) ↦ inr (inr next)
]

left-start : left_to_run start ≡ 16
left-start = refl

left-after_one : left_to_run after_one ≡ 8
left-after_one = ground (arith, turns.0, turns.1)

left-after_two : left_to_run after_two ≡ 0
left-after_two = ground (arith, turns.2)

turn_falls :
    (t : ℕ) (c : Core)
    → t < num_tasklets
    → is_active c.pipeline t ≡ true
    → Passes c
    → left_to_run (executed execute_once t c) < left_to_run c
turn_falls t c lt active p = elim (turn_cases t c active p) [
  | inl (e, next) ↦ omega (arith, ap left_to_run e, ap left_to_run next, left-start, left-after_one)
  | inr (e, next) ↦
      omega (arith, ap left_to_run e, ap left_to_run next, left-after_one, left-after_two)
]

abbrev poll_word : ℕ
poll_word = 0x3300_0000_0000_0284

poll_word_is_poll : is_run_state_read_command poll_word ≡ true
unfolding is_run_state_read_command
poll_word_is_poll = refl

abbrev dpu : Dpu
dpu = record { core = start; last_control_result = 0; last_control_generation = 0 }

control-settles_example :
    let d' = control execute_once poll_word dpu in
    ((t : ℕ) → t < num_tasklets → is_active d'.core.pipeline t ≡ false)
    × ((d'.last_control_result ≡ 0) ↔ (d'.core.pipeline.run_bits ≡ 0))
control-settles_example =
    control-settles execute_once Passes left_to_run turn_keeps turn_falls poll_word dpu
      poll_word_is_poll refl (inl refl) (omega (arith, left-start))
