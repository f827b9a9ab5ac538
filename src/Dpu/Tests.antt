-- ===== src/Dpu/Tests.antt =====
-- Runs of the DPU model on small states, and the theorems at inputs that meet their hypotheses.
use hostpimsim_gecon.Base.{
  ℕ, ◌+◌, ◌%◌, ◌≤◌, ◌<◌, ◌≡◌, refl, arith, Bool, true, false, some, Bytes, load_le, load_be, memcpy,
}
use hostpimsim_gecon.Dpu.Config.{num_tasklets, mram_size_bytes}
use hostpimsim_gecon.Dpu.Swap.{bswap32}
use hostpimsim_gecon.Dpu.Wram
use hostpimsim_gecon.Dpu.Wram.{Wram}
use hostpimsim_gecon.Dpu.Wram.Safety.{w16, w32, load, store, load-store, load-bytes}
use hostpimsim_gecon.Dpu.Iram
use hostpimsim_gecon.Dpu.Iram.{Iram}
use hostpimsim_gecon.Dpu.Mram.{Mram}
use hostpimsim_gecon.Dpu.Mram.Copies.{Holds}
use hostpimsim_gecon.Dpu.Dma.{dma_to_wram_from_mram, dma_to_mram_from_wram, dma_to_iram_from_mram}
use hostpimsim_gecon.Dpu.Dma.Wram.{
  transfer_size, dma_to_wram_from_mram-Holds, dma_to_mram_from_wram-Holds,
}
use hostpimsim_gecon.Dpu.Dma.Iram.{iram_slots, dma_to_iram_from_mram-Holds}
use hostpimsim_gecon.Dpu.State.{RegisterFile, Pipeline, Core, Dpu}
use hostpimsim_gecon.Dpu.Control.{
  control, apply_thread_command, run_rounds, is_run_state_read_command,
}
use hostpimsim_gecon.Dpu.Control.Threads.{
  phase_of, command, registers_of, no_registers, apply_thread_command-phase_of,
  apply_thread_command-registers_of,
}
use hostpimsim_gecon.Dpu.Control.Schedule.{is_active, executed, run_rounds_keeps}
use hostpimsim_gecon.Dpu.Control.Answers.{control-generation}
use hostpimsim_gecon.Ci.Thread.{boot}

-- A byte memory whose byte at `i` is `i % 256`.
abbrev ramp : Bytes
ramp i = i % 256

abbrev ramp_wram : Wram
ramp_wram = record { bytes = ramp }

abbrev ramp_mram : Mram
ramp_mram = record { addr = some ramp; size = mram_size_bytes; owns_mapping = true }

abbrev blank_iram : Iram
blank_iram = record { inst = λ i. 0 }

ramp-Holds : Holds ramp_mram ramp
ramp-Holds = record { mapped = refl; whole = refl }

big_endian_word : Wram.load_u32 ramp_wram 16 true ≡ 0x1011_1213
unfolding Wram.load_u32 load_le bswap32
big_endian_word = refl

load-store_example : load w32 (store w32 ramp_wram 8 0xdead_beef true) 8 true ≡ 0xdead_beef
load-store_example = load-store w32 ramp_wram 8 0xdead_beef true (omega arith) (omega arith)

load-bytes_example : load w16 ramp_wram 4 true ≡ 0x0405
unfolding load_be
load-bytes_example = load-bytes w16 ramp_wram 4 true (λ i. omega arith) (omega arith)

dma_to_wram_from_mram-Holds_example :
    dma_to_wram_from_mram ramp_wram ramp_mram 8 65_532 3
    ≡ (true, record { bytes = memcpy 4 ramp 65_532 ramp 3 })
unfolding transfer_size
dma_to_wram_from_mram-Holds_example =
    dma_to_wram_from_mram-Holds ramp_wram ramp_mram ramp 8 65_532 3 ramp-Holds

dma_to_mram_from_wram-Holds_example :
    let (done, m') = dma_to_mram_from_wram ramp_mram ramp_wram 8 64 3 in
    (done ≡ true) × Holds m' (memcpy 8 ramp 64 ramp 3)
unfolding transfer_size
dma_to_mram_from_wram-Holds_example =
    dma_to_mram_from_wram-Holds ramp_mram ramp_wram ramp 8 64 3 ramp-Holds

dma_to_iram_from_mram-Holds_example :
    let (done, iram') = dma_to_iram_from_mram blank_iram ramp_mram 12 6 5 in
    (done ≡ true) × (Iram.read_word iram' 6 ≡ load_le 6 ramp 12)
unfolding iram_slots
dma_to_iram_from_mram-Holds_example =
    dma_to_iram_from_mram-Holds blank_iram ramp_mram ramp 12 6 5 6 ramp-Holds (λ i. omega arith)
      (omega arith)

abbrev registers : RegisterFile
registers = record {
  gp_regs = λ t r. t + r;
  pc_regs = λ t. 5;
  zf_regs = λ t. 1;
  cf_regs = λ t. 1;
  perf_counter_raw = 0;
  perf_counter_mode = 0;
}

-- Tasklets 0 and 2 run, and 2 sleeps.
abbrev busy : Pipeline
busy = record {
  register_file = registers;
  run_bits = 0b101;
  sleep_bits = 0b100;
  replay_bits = 0;
  atomic_bits = λ i. 1;
}

abbrev core : Core
core = record {
  dma_engine = record { dma_mux_status = 0; dma_ctrl_reg = 0 };
  iram = blank_iram;
  mram = ramp_mram;
  pipeline = busy;
  wram = ramp_wram;
}

abbrev dpu : Dpu
dpu = record { core = core; last_control_result = 0; last_control_generation = 41 }

apply_thread_command-phase_of_example :
    phase_of (apply_thread_command boot 2 busy) 2
    ≡ record { running = true; sleeping = false; replaying = false }
unfolding command
apply_thread_command-phase_of_example =
    apply_thread_command-phase_of boot 2 2 busy (omega arith) (omega arith)

apply_thread_command-registers_of_example :
    (registers_of (apply_thread_command boot 0 busy) 0 ≡ no_registers)
    × ((apply_thread_command boot 0 busy).atomic_bits ≡ (λ j. 0))
apply_thread_command-registers_of_example =
    apply_thread_command-registers_of boot 0 0 busy (omega arith)

-- An instruction after which every tasklet stops, with what it runs erased.
abbrev stop : ℕ → Core → Bool × Core
stop t c = (false, record c { pipeline = record (c.pipeline) { run_bits = 0 } })

abbrev poll_word : ℕ
poll_word = 0x3300_0000_0000_0284

poll_word_is_poll : is_run_state_read_command poll_word ≡ true
unfolding is_run_state_read_command
poll_word_is_poll = refl

control-generation_example :
    let d' = control stop poll_word dpu in
    (d'.last_control_generation ≡ 42) × (d'.last_control_result ≤ 1)
control-generation_example = control-generation stop poll_word dpu

stop_keeps_mram :
    (t : ℕ) (c : Core)
    → t < num_tasklets
    → is_active c.pipeline t ≡ true
    → c.mram ≡ ramp_mram
    → (executed stop t c).mram ≡ ramp_mram
unfolding executed
stop_keeps_mram t c lt a e = e

-- The poll with `stop` never touches the MRAM.
run_rounds_keeps_example : (run_rounds stop 3 core).mram ≡ ramp_mram
run_rounds_keeps_example =
    run_rounds_keeps stop (λ c. c.mram ≡ ramp_mram) stop_keeps_mram 3 core refl
