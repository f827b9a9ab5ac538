-- ===== src/Pipeline/Kinds.antt =====
-- `RawDecoded48` of contrib/hostpimsim-upmem/dpu/pipeline.cc: the operations, the formats and the
-- conditions of an instruction.

pub data HotOp : Type 0 where
  op_none op_acquire op_release op_or op_or_s op_or_u : HotOp
  op_add op_addc op_and op_and_s op_and_u op_sub : HotOp
  op_subc op_mul_step op_div_step op_resume op_boot op_call : HotOp
  op_ldma op_sdma op_lsl op_lsl_s op_lsl_u op_lslx : HotOp
  op_lslx_s op_lslx_u op_lsr op_lsr_s op_lsr_u op_lsrx : HotOp
  op_lsrx_s op_lsrx_u op_movd op_swapd op_clz op_clo : HotOp
  op_mul_ul_ul op_mul_ul_uh op_mul_uh_ul op_mul_uh_uh op_lsl_add op_lsl_add_s : HotOp
  op_lsl_add_u op_lsl_sub op_lsl_sub_s op_lsl_sub_u op_lsr_add op_lsr_add_s : HotOp
  op_lsr_add_u op_lbu op_lbs op_lw op_lw_s op_ld : HotOp
  op_sw op_sb op_sh op_sd op_time op_time_cfg : HotOp
  op_stop op_nop op_fault : HotOp

pub data HotFormat : Type 0 where
  fmt_none fmt_ci fmt_erii fmt_erir fmt_erri fmt_ersi : HotFormat
  fmt_esii fmt_esir fmt_i fmt_r fmt_rci fmt_rici : HotFormat
  fmt_rir fmt_rirc fmt_rirci fmt_rirf fmt_rki fmt_rr : HotFormat
  fmt_rrc fmt_rrci fmt_rri fmt_rric fmt_rrici fmt_rrif : HotFormat
  fmt_rrr fmt_rrrc fmt_rrrci fmt_rrri fmt_rrrici fmt_ssi : HotFormat
  fmt_sss fmt_z fmt_zci fmt_zir fmt_zirc fmt_zirci : HotFormat
  fmt_zirf fmt_zr fmt_zrc fmt_zrci fmt_zri fmt_zric : HotFormat
  fmt_zrici fmt_zrif fmt_zrr fmt_zrrc fmt_zrrci fmt_zrri : HotFormat
  fmt_zrrici : HotFormat

pub data CcKind : Type 0 where
  cc_none cc_false cc_true cc_zero cc_non_zero cc_carry : CcKind
  cc_no_carry cc_less_equal_unsigned cc_greater_unsigned cc_less_signed cc_less_equal_signed
        cc_greater_signed :
      CcKind
  cc_greater_equal_signed cc_xzero cc_xnon_zero cc_max cc_not_max cc_even : CcKind
  cc_odd cc_xless_equal_unsigned cc_xgreater_unsigned cc_xless_equal_signed cc_xgreater_signed
        cc_subword_no_carry :
      CcKind
  cc_unknown : CcKind

pub data CcMapKind : Type 0 where
  no_map map0 map1 map2 map3 map4 : CcMapKind
  map5 map6 map7 map8 map9 map10 : CcMapKind
  map11 map13 map14 map15 : CcMapKind
