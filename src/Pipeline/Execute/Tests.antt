-- ===== src/Pipeline/Execute/Tests.antt =====
-- The theorems on decoding and on `Pipeline::execute_once` at inputs that meet their hypotheses, and runs.
use hostpimsim_gecon.Base.{
  ℕ, ◌+◌, ◌-◌, ◌/◌, ◌*◌, ◌^◌, ◌%◌, ◌≡◌, refl, ap, arith, true, false, [], ◌∷◌, some, none, bit_and,
  not, update,
}
use hostpimsim_gecon.Dpu.State.{RegisterFile, Pipeline, Core, Dpu}
use hostpimsim_gecon.Dpu.Control.{control}
use hostpimsim_gecon.Pipeline.Kinds.{op_or_s, op_add, op_addc, op_sub, op_subc, fmt_rri, fmt_rrr}
use hostpimsim_gecon.Pipeline.Decode.Raw.{
  RawDecoded48, raw_decoded, hot_metadata, set_hot_metadata, accept_hot,
}
use hostpimsim_gecon.Pipeline.Decode.Fields.{bits, put_dc5_40, put_rb5_32, put_imm32_24}
use hostpimsim_gecon.Pipeline.Decode.Groups6.{group5}
use hostpimsim_gecon.Pipeline.Decode.Word.{decode_raw_word_48}
use hostpimsim_gecon.Pipeline.Decode.Shape.{operands}
use hostpimsim_gecon.Pipeline.Decode.Accepts.{IsDecoded}
use hostpimsim_gecon.Pipeline.Decode.Decoded.{decode_raw_word_48-IsDecoded}
use hostpimsim_gecon.Pipeline.Decode.Metadata.{
  populate_hot_metadata_48, metadata_of, hot_of, hot_or, is_hot_format_one_of,
}
use hostpimsim_gecon.Pipeline.Execute.Registers.{
  Step, read_reg, write_reg, with_registers, set_registers, set_zf, set_cf, jump,
}
use hostpimsim_gecon.Pipeline.Execute.Inputs.{vra, vrb, rhs_of, write_rc, take_cond_branch}
use hostpimsim_gecon.Pipeline.Execute.Arithmetic.{
  run_or, add_rhs, run_add, run_addc, sub_lhs, sub_rhs, run_sub, subc_lhs, subc_rhs, run_subc,
}
use hostpimsim_gecon.Pipeline.Execute.Once.{decoded_of, execute_once}
use hostpimsim_gecon.Pipeline.Execute.Apart.{Other}
use hostpimsim_gecon.Pipeline.Execute.Isolation.{execute_once-Other}
use hostpimsim_gecon.Pipeline.Execute.Machine.{IsAligned, control-IsAligned}
use hostpimsim_gecon.Pipeline.Execute.Locks.{held, results, set_results, results-set_results}
use hostpimsim_gecon.Pipeline.Execute.Wide.{carry, run_addc-run_add, run_subc-run_sub}
use hostpimsim_gecon.Pipeline.Execute.Supported.{
  reads_enough, is_or_pair_rri, decoded_of-reads_enough,
}
use hostpimsim_gecon.Pipeline.Execute.OrPair.{run_or-ignores_imm}

-- An `or.s` of the register 6 and an immediate into the double register 8.
abbrev or_s_word : ℕ
or_s_word = 0x54f4_10ac_ff00

abbrev or_s : RawDecoded48
or_s = record raw_decoded {
  valid = true;
  hot_op = op_or_s;
  hot_fmt = fmt_rri;
  has_rb = true;
  rb = 6;
  has_dc = true;
  dc = 8;
  has_imm = true;
  imm = 284_168_154;
}

decode_or_s : decode_raw_word_48 or_s_word ≡ some or_s
unfolding group5 bits put_dc5_40 put_rb5_32 put_imm32_24 set_hot_metadata accept_hot
    decode_raw_word_48
decode_or_s = refl

decode_raw_word_48-IsDecoded_example : IsDecoded or_s
decode_raw_word_48-IsDecoded_example = decode_raw_word_48-IsDecoded or_s_word or_s decode_or_s

-- The same with its metadata.
abbrev full_or_s : RawDecoded48
full_or_s = populate_hot_metadata_48 or_s

decoded_or_s : decoded_of or_s_word ≡ some full_or_s
unfolding decoded_of
decoded_or_s =
    ap (λ r. elim r [ none ↦ none | some o ↦ some (populate_hot_metadata_48 o) ]) decode_or_s

or_s_supported : full_or_s.hot.hot_supported ≡ true
unfolding populate_hot_metadata_48 metadata_of hot_of hot_or is_hot_format_one_of
or_s_supported = refl

or_s_pair : is_or_pair_rri full_or_s.hot_op full_or_s.hot_fmt ≡ true
unfolding populate_hot_metadata_48
or_s_pair = refl

decoded_of-reads_enough_example :
    (reads_enough full_or_s.hot_op full_or_s.hot (operands full_or_s) ≡ true)
    × (full_or_s.has_ra ≡ not (is_or_pair_rri full_or_s.hot_op full_or_s.hot_fmt))
decoded_of-reads_enough_example =
    decoded_of-reads_enough or_s_word full_or_s decoded_or_s or_s_supported

-- Tasklets 0 and 1 run, with all ones in the register 1 of each, and the IRAM has the word above in every slot.
abbrev file : RegisterFile
file = record {
  gp_regs = λ t r. 2 ^ 32 - 1;
  pc_regs = λ t. 8;
  zf_regs = λ t. 0;
  cf_regs = λ t. 0;
  perf_counter_raw = 0;
  perf_counter_mode = 0;
}

abbrev pipeline : Pipeline
pipeline = record {
  register_file = file;
  run_bits = 0b11;
  sleep_bits = 0;
  replay_bits = 0;
  atomic_bits = λ i. 0x10;
}

abbrev core : Core
core = record {
  dma_engine = record { dma_mux_status = 0; dma_ctrl_reg = 0 };
  iram = record { inst = λ i. bit_and (or_s_word / 2 ^ (8 * (i % 8))) 0xff };
  mram = record { addr = some (λ i. 0); size = 0x400_0000; owns_mapping = true };
  pipeline = pipeline;
  wram = record { bytes = λ i. 0 };
}

abbrev first_step : Step
first_step = record { core = core; next_pc = 16; keep_running = true }

run_or-ignores_imm_example :
    run_or 0 (record full_or_s { imm = 77 }) first_step ≡ run_or 0 full_or_s first_step
run_or-ignores_imm_example =
    run_or-ignores_imm or_s_word full_or_s decoded_or_s or_s_pair 0 77 first_step

execute_once-Other_example : Other 1 core (execute_once 0 core).1
execute_once-Other_example = execute_once-Other 0 core refl 1 (λ e. ground (arith, e))

abbrev poll_word : ℕ
poll_word = 0x3300_0000_0000_0284

abbrev dpu : Dpu
dpu = record { core = core; last_control_result = 0; last_control_generation = 0 }

control-IsAligned_example : IsAligned (control execute_once poll_word dpu).core
control-IsAligned_example = control-IsAligned poll_word dpu (λ u. refl)

-- Lock 4 is held at first.
results-set_results_example :
    results ((true, 4) ∷ (false, 4) ∷ (false, 4) ∷ (false, 5) ∷ []) pipeline
    ≡ set_results ((true, 4) ∷ (false, 4) ∷ (false, 4) ∷ (false, 5) ∷ []) (held pipeline)
results-set_results_example =
    results-set_results ((true, 4) ∷ (false, 4) ∷ (false, 4) ∷ (false, 5) ∷ []) pipeline
      (λ k. omega arith)

-- An instruction of the registers 1 and 2 into the register `rc`.
abbrev of_registers : ℕ → RawDecoded48
of_registers rc = record raw_decoded {
  valid = true;
  hot_fmt = fmt_rrr;
  has_ra = true;
  ra = 1;
  has_rb = true;
  rb = 2;
  has_rc = true;
  rc = rc;
}

abbrev low_add : RawDecoded48
low_add = record (of_registers 3) { hot_op = op_add }

abbrev high_add : RawDecoded48
high_add = record (of_registers 4) { hot_op = op_addc }

abbrev low_sub : RawDecoded48
low_sub = record (of_registers 3) {
  hot_op = op_sub;
  hot = record hot_metadata { sub_rhs_is_reg = true };
}

abbrev high_sub : RawDecoded48
high_sub = record (of_registers 4) {
  hot_op = op_subc;
  hot = record hot_metadata { subc_rhs_is_reg = true };
}

-- The operands of the instruction after the first one.
after_add :
    (vra 0 high_add (run_add 0 low_add first_step) ≡ 2 ^ 32 - 1)
    × (rhs_of 0 high_add (run_add 0 low_add first_step) ≡ 2 ^ 32 - 1)
unfolding vra vrb rhs_of run_add add_rhs write_rc take_cond_branch read_reg write_reg with_registers
    set_registers set_zf set_cf jump update
after_add = (refl, refl)

after_sub :
    (subc_lhs 0 high_sub (run_sub 0 low_sub first_step) ≡ 2 ^ 32 - 1)
    × (subc_rhs 0 high_sub (run_sub 0 low_sub first_step) ≡ 2 ^ 32 - 1)
unfolding vra vrb subc_lhs subc_rhs sub_lhs sub_rhs run_sub write_rc take_cond_branch read_reg
    write_reg with_registers set_registers set_zf set_cf jump update
after_sub = (refl, refl)

before_add : (vra 0 low_add first_step ≡ 2 ^ 32 - 1) × (add_rhs 0 low_add first_step ≡ 2 ^ 32 - 1)
unfolding vra vrb rhs_of add_rhs read_reg
before_add = (refl, refl)

before_sub :
    (sub_lhs 0 low_sub first_step ≡ 2 ^ 32 - 1) × (sub_rhs 0 low_sub first_step ≡ 2 ^ 32 - 1)
unfolding vra vrb sub_lhs sub_rhs read_reg
before_sub = (refl, refl)

run_addc-run_add_example :
    let s1 = run_add 0 low_add first_step in
    let s2 = run_addc 0 high_add s1 in
    read_reg 0 s1.core 3 + 2 ^ 32 * read_reg 0 s2.core 4 + 2 ^ 64 * carry 0 s2
    ≡ (vra 0 low_add first_step + 2 ^ 32 * vra 0 high_add s1)
      + (add_rhs 0 low_add first_step + 2 ^ 32 * rhs_of 0 high_add s1)
run_addc-run_add_example =
    run_addc-run_add 0 low_add high_add first_step refl (omega arith) refl (omega arith)
      (omega (arith, before_add.0)) (omega (arith, before_add.1)) (omega (arith, after_add.0))
      (omega (arith, after_add.1))

run_subc-run_sub_example :
    let s1 = run_sub 0 low_sub first_step in
    let s2 = run_subc 0 high_sub s1 in
    read_reg 0 s1.core 3
      + 2 ^ 32 * read_reg 0 s2.core 4
      + (sub_rhs 0 low_sub first_step + 2 ^ 32 * subc_rhs 0 high_sub s1)
    ≡ (sub_lhs 0 low_sub first_step + 2 ^ 32 * subc_lhs 0 high_sub s1) + 2 ^ 64 * carry 0 s2
run_subc-run_sub_example =
    run_subc-run_sub 0 low_sub high_sub first_step refl (omega arith) refl (omega arith) refl refl
      (omega (arith, before_sub.0)) (omega (arith, before_sub.1)) (omega (arith, after_sub.0))
      (omega (arith, after_sub.1))
