-- ===== src/Chip/Tests.antt =====
-- Runs of a small chip, and the theorems at inputs that meet their hypotheses.
use hostpimsim_gecon.Base.{
  ℕ, ◌+◌, ◌*◌, ◌≡◌, refl, arith, Bool, true, false, ◌&&◌, ◌==◌, if◌then◌else◌, bit_at, u64,
}
use hostpimsim_gecon.Dpu.Mram.{unbound}
use hostpimsim_gecon.Dpu.Wram
use hostpimsim_gecon.Dpu.Iram
use hostpimsim_gecon.Dpu.State.{Core, Dpu}
use hostpimsim_gecon.Ci.State.{CiState, no_dispatch, no_pending, get_group_mask}
use hostpimsim_gecon.Chip.Defs.{Chip, first_selected_dpu, first_from}
use hostpimsim_gecon.Chip.WramWrite.{write_by_frames, read_word-write_by_frames}
use hostpimsim_gecon.Chip.IramWrite.{instruction_by_frames, slot-instruction_by_frames}
use hostpimsim_gecon.Ci.Frame.{wram_read_word_frame_for_addr}
use hostpimsim_gecon.Chip.Defs.{propagate_ci}
use hostpimsim_gecon.Chip.WramRead.{dispatched_payload-read}
use hostpimsim_gecon.Chip.WramRoundTrip.{write_and_read, dispatched_payload-write_and_read}
use hostpimsim_gecon.Chip.Select.{IsIdle, reselect, reselect-selected_mask}

abbrev blank : Dpu
blank = record {
  core = record {
    dma_engine = record { dma_mux_status = 0; dma_ctrl_reg = 0 };
    iram = record { inst = λ i. 0 };
    mram = unbound;
    pipeline = record {
      register_file = record {
        gp_regs = λ t r. 0;
        pc_regs = λ t. 0;
        zf_regs = λ t. 0;
        cf_regs = λ t. 0;
        perf_counter_raw = 0;
        perf_counter_mode = 0;
      };
      run_bits = 0;
      sleep_bits = 0;
      replay_bits = 0;
      atomic_bits = λ i. 0;
    };
    wram = record { bytes = λ i. 0 };
  };
  last_control_result = 0;
  last_control_generation = 0;
}

-- The DPUs 1 and 3 are selected.
abbrev ci : CiState
ci = record {
  committed = 0;
  updated = 0;
  pc_mode = 4;
  stack_up_mask = 0;
  selected_mask = 0b1010;
  enabled_mask = 0xff;
  group_mask = λ i. 0;
  dma_ctrl_read_register = 0;
  structure = 0;
  iram_write_structure_valid = false;
  iram_write_addr_hi = 0;
  wram_write_structure_valid = false;
  wram_write_addr = 0;
  dispatched_payload = 0;
  dispatched_needs_mask_fuzz = false;
  dispatched_generation = 6;
  dispatch_pending = no_dispatch;
  control_pending = no_pending;
  run_state_pending = no_pending;
}

abbrev chip : Chip
chip = record { ci = ci; write_region = true; dpus = λ i. blank }

-- An instruction that stops its tasklet, and a handler that does nothing.
abbrev stop : ℕ → Core → Bool × Core
stop t c = (false, c)

abbrev no_handler : ℕ → ℕ → Dpu → Bool × Dpu
no_handler depth word d = (true, d)

read_word-write_by_frames_example :
    let c' = write_by_frames stop no_handler 1000 0xdead_beef chip in
    (Wram.read_word (c'.dpus 3).core.wram 1000 ≡ (
      if bit_at 0b1010 3 && (1000 == 1000)
      then 0xdead_beef
      else Wram.read_word blank.core.wram 1000))
    × (c'.ci.dispatched_payload ≡ 0b1010)
    × (c'.ci.dispatched_generation ≡ u64 8)
read_word-write_by_frames_example =
    read_word-write_by_frames stop no_handler 1000 0xdead_beef chip 3 1000 refl (omega arith)
      (omega arith) (omega arith)

slot-instruction_by_frames_example :
    let c' = instruction_by_frames stop no_handler 2 5 77 chip in
    (Iram.read_word (c'.dpus 1).core.iram 517 ≡ (
      if bit_at 0b1010 1 && (2 * 256 + 5 == 517)
      then (if Iram.slot_in_bounds 517 then 77 else 0)
      else Iram.read_word blank.core.iram 517))
    × (c'.ci.dispatched_payload ≡ 0b1010)
slot-instruction_by_frames_example =
    slot-instruction_by_frames stop no_handler 2 5 77 chip 1 517 refl (omega arith) (omega arith)
      (omega arith) (omega arith)

chip-IsIdle : IsIdle chip
chip-IsIdle = record { region = refl; no_iram = refl; no_wram = refl }

reselect-selected_mask_example :
    let c' = reselect stop no_handler 5 chip in
    (c'.ci.selected_mask ≡ 0b1010)
    × (c'.ci.dispatched_payload ≡ 0b1010)
    × (c'.dpus ≡ (λ i. blank))
    × (get_group_mask c'.ci 2 ≡ (if 5 == 2 then 0b1010 else get_group_mask ci 2))
reselect-selected_mask_example =
    reselect-selected_mask stop no_handler 5 2 chip chip-IsIdle (omega arith)

abbrev counted : Dpu → Dpu
counted d = record d { last_control_generation = d.last_control_generation + 1 }

first_is_1 : first_selected_dpu 0b1010 ≡ 1
unfolding first_selected_dpu first_from
first_is_1 = refl

dispatched_payload-read_example :
    let c' = propagate_ci stop no_handler (wram_read_word_frame_for_addr 1000) chip in
    (c'.ci.dispatched_payload ≡ Wram.read_word blank.core.wram 1000)
    × (c'.dpus ≡ (λ i. blank))
    × (c'.ci.selected_mask ≡ 0b1010)
dispatched_payload-read_example =
    dispatched_payload-read stop no_handler 1000 chip chip-IsIdle (omega arith)
      (omega (arith, first_is_1))

dispatched_payload-write_and_read_example :
    let c' = write_and_read stop no_handler 1000 0xdead_beef chip in
    (c'.ci.dispatched_payload ≡ 0xdead_beef) × (c'.ci.selected_mask ≡ 0b1010)
dispatched_payload-write_and_read_example =
    dispatched_payload-write_and_read stop no_handler 1000 0xdead_beef chip refl (omega arith)
      (omega arith) (omega (arith, first_is_1))
