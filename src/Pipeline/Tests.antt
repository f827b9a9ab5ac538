-- ===== src/Pipeline/Tests.antt =====
-- The theorems at inputs that meet their hypotheses, and runs.
use hostpimsim_gecon.Base.{
  ◌+◌, ◌-◌, if◌then◌else◌, ◌/◌, ◌%◌, ◌^◌, ◌≡◌, refl, arith, true, false, [], ◌∷◌, ◌&&◌, ◌==◌, leb,
  u32,
}
use hostpimsim_gecon.Dpu.State.{RegisterFile}
use hostpimsim_gecon.Pipeline.Select.{select_cc_map_48}
use hostpimsim_gecon.Pipeline.Operations.{is_subword, select_cc_map_48-subword}
use hostpimsim_gecon.Pipeline.Kinds.{
  op_add, fmt_rrrci, cc_xless_equal_unsigned, cc_xgreater_unsigned,
}
use hostpimsim_gecon.Pipeline.Maps.{decode_cc_metadata_48}
use hostpimsim_gecon.Pipeline.Conditions.{eval_subc_cc_simple, eval_add_subword_no_carry}
use hostpimsim_gecon.Pipeline.Carries.{eval_add_subword_no_carry_eq}
use hostpimsim_gecon.Pipeline.Perf.{
  perf_counter_read32, perf_counter_config, retire_all, counted, perf_counter_config-counts,
}

select_cc_map_48-subword_example :
    let (k, bits) = decode_cc_metadata_48 (select_cc_map_48 op_add fmt_rrrci) 26 in
    (if is_subword k then leb 5 bits && leb bits 14 && true else bits == 0) ≡ true
select_cc_map_48-subword_example = select_cc_map_48-subword op_add fmt_rrrci 26 (omega arith)

-- The two conditions of the 64-bit unsigned order can both hold.
both_hold :
    (eval_subc_cc_simple cc_xless_equal_unsigned false true 1 false false
      && eval_subc_cc_simple cc_xgreater_unsigned false true 1 false false)
    ≡ true
unfolding eval_subc_cc_simple
both_hold = refl

eval_add_subword_no_carry_eq_example :
    eval_add_subword_no_carry 8 200 100
    ≡ (leb 5 8 && leb 8 31 && ((200 + 100) % 2 ^ 8 == 200 % 2 ^ 8 + 100 % 2 ^ 8))
eval_add_subword_no_carry_eq_example = eval_add_subword_no_carry_eq 8 200 100

abbrev registers : RegisterFile
registers = record {
  gp_regs = λ t r. 0;
  pc_regs = λ t. 0;
  zf_regs = λ t. 0;
  cf_regs = λ t. 0;
  perf_counter_raw = 320;
  perf_counter_mode = 3;
}

perf_counter_config-counts_example :
    let (old, r') = perf_counter_config 5 registers in
    (old ≡ perf_counter_read32 registers)
    × (perf_counter_read32 (retire_all (false ∷ true ∷ false ∷ []) r')
        ≡ u32 (2 ^ 32 - 1 + counted 2 (false ∷ true ∷ false ∷ [])) / 16)
perf_counter_config-counts_example =
    perf_counter_config-counts 2 (false ∷ true ∷ false ∷ []) registers (omega arith) (omega arith)
