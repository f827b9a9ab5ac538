-- ===== src/Pipeline/Decode/Metadata.antt =====
-- `populate_hot_metadata_48` of contrib/hostpimsim-upmem/dpu/pipeline.cc: what the operation and the format of a
-- decoded word say of its execution. The comparison of formats goes by their numbers.
use hostpimsim_gecon.Base.{[], ◌∷◌, ◌==◌, ◌||◌, if◌then◌else◌, Bool, true, false, not, List}
use hostpimsim_gecon.Pipeline.Kinds.{
  HotOp, HotFormat, op_none, op_acquire, op_release, op_or, op_or_s, op_or_u, op_add, op_addc,
  op_and, op_and_s, op_and_u, op_sub, op_subc, op_mul_step, op_div_step, op_resume, op_boot,
  op_call, op_ldma, op_sdma, op_lsl, op_lsl_s, op_lsl_u, op_lslx, op_lslx_s, op_lslx_u, op_lsr,
  op_lsr_s, op_lsr_u, op_lsrx, op_lsrx_s, op_lsrx_u, op_movd, op_swapd, op_clz, op_clo,
  op_mul_ul_ul, op_mul_ul_uh, op_mul_uh_ul, op_mul_uh_uh, op_lsl_add, op_lsl_add_s, op_lsl_add_u,
  op_lsl_sub, op_lsl_sub_s, op_lsl_sub_u, op_lsr_add, op_lsr_add_s, op_lsr_add_u, op_lbu, op_lbs,
  op_lw, op_lw_s, op_ld, op_sw, op_sb, op_sh, op_sd, op_time, op_time_cfg, op_stop, op_nop,
  op_fault, fmt_none, fmt_ci, fmt_erii, fmt_erir, fmt_erri, fmt_esii, fmt_esir, fmt_i, fmt_r,
  fmt_rici, fmt_rir, fmt_rirci, fmt_rki, fmt_rr, fmt_rrci, fmt_rri, fmt_rric, fmt_rrici, fmt_rrif,
  fmt_rrr, fmt_rrrc, fmt_rrrci, fmt_rrri, fmt_rrrici, fmt_zirci, fmt_zr, fmt_zrci, fmt_zri,
  fmt_zric, fmt_zrici, fmt_zrr, fmt_zrrc, fmt_zrrci, fmt_zrri, fmt_zrrici,
}
use hostpimsim_gecon.Pipeline.FmtNumbers.{fmt_number}
use hostpimsim_gecon.Pipeline.Maps.{decode_cc_metadata_48}
use hostpimsim_gecon.Pipeline.Select.{select_cc_map_48}
use hostpimsim_gecon.Pipeline.Decode.Raw.{
  RawDecoded48, HotMetadata, hot_metadata, WritebackMode, no_writeback, dreg_sign32, dreg_zero32,
  MulBytePairMode, ul_ul, ul_uh, uh_ul, uh_uh, StoreSourceMode, imm32, reg32, dreg64,
}
use hostpimsim_gecon.Pipeline.OpNumbers.{op_number}

unfoldable pub is_hot_format_one_of : HotFormat → List HotFormat → Bool
is_hot_format_one_of fmt [] = false
is_hot_format_one_of fmt (a ∷ rest) =
    (fmt_number fmt == fmt_number a) || is_hot_format_one_of fmt rest

-- The cases of the switch, a function for those with several operations.
unfoldable pub hot_or : HotFormat → WritebackMode → Bool → HotMetadata → HotMetadata
hot_or fmt mode suppress m = record m {
  hot_supported =
      is_hot_format_one_of fmt
        (fmt_rri ∷ fmt_rrr ∷ fmt_rrif ∷ fmt_rrici ∷ fmt_rrrci ∷ fmt_zrr ∷ fmt_zrrci ∷ []);
  suppress_scalar_write = suppress;
  writeback_mode = mode;
}

unfoldable pub hot_and_extended : HotFormat → WritebackMode → HotMetadata → HotMetadata
hot_and_extended fmt mode m = record m {
  hot_supported = fmt_number fmt == fmt_number fmt_rki;
  imm_passthrough = fmt_number fmt == fmt_number fmt_rki;
  writeback_mode = mode;
}

unfoldable pub hot_sub : HotFormat → HotMetadata → HotMetadata
hot_sub fmt m = record m {
  hot_supported =
      is_hot_format_one_of fmt
        (fmt_rir ∷ fmt_rrr ∷ fmt_zrr ∷ fmt_rrrc ∷ fmt_zrrc ∷ fmt_rrrci ∷ fmt_zrrci ∷ [])
      || is_hot_format_one_of fmt (fmt_rrif ∷ fmt_rrici ∷ fmt_zrici ∷ []);
  sub_lhs_is_imm = fmt_number fmt == fmt_number fmt_rir;
  sub_rhs_is_reg =
      is_hot_format_one_of fmt
        (fmt_rrr ∷ fmt_zrr ∷ fmt_rrrc ∷ fmt_zrrc ∷ fmt_rrrci ∷ fmt_zrrci ∷ []);
  sub_is_rrrc = fmt_number fmt == fmt_number fmt_rrrc;
  sub_is_zrrc = fmt_number fmt == fmt_number fmt_zrrc;
}

unfoldable pub hot_subc : HotFormat → HotMetadata → HotMetadata
hot_subc fmt m = record m {
  hot_supported =
      is_hot_format_one_of fmt
        (fmt_rir ∷ fmt_rirci ∷ fmt_zirci ∷ fmt_rrr ∷ fmt_zrr ∷ fmt_rrrc ∷ fmt_zrrc ∷ [])
      || is_hot_format_one_of fmt
          (fmt_rrrci ∷ fmt_zrrci ∷ fmt_rric ∷ fmt_zric ∷ fmt_rrici ∷ fmt_zrici ∷ []);
  subc_lhs_is_imm = is_hot_format_one_of fmt (fmt_rir ∷ fmt_rirci ∷ fmt_zirci ∷ []);
  subc_rhs_is_reg =
      is_hot_format_one_of fmt
        (fmt_rrr ∷ fmt_zrr ∷ fmt_rrrc ∷ fmt_zrrc ∷ fmt_rrrci ∷ fmt_zrrci ∷ []);
  subc_is_rrrc = fmt_number fmt == fmt_number fmt_rrrc;
  subc_is_zrrc = fmt_number fmt == fmt_number fmt_zrrc;
}

unfoldable pub hot_shift : HotFormat → HotMetadata → HotMetadata
hot_shift fmt m = record m {
  hot_supported =
      is_hot_format_one_of fmt
        (fmt_rri ∷ fmt_rric ∷ fmt_rrici ∷ fmt_rrr ∷ fmt_rrrc ∷ fmt_rrrci ∷ fmt_zri ∷ [])
      || is_hot_format_one_of fmt (fmt_zric ∷ fmt_zrici ∷ fmt_zrr ∷ fmt_zrrc ∷ fmt_zrrci ∷ []);
}

unfoldable pub hot_mul : HotFormat → MulBytePairMode → HotMetadata → HotMetadata
hot_mul fmt mode m = record m {
  hot_supported = fmt_number fmt == fmt_number fmt_rrr;
  mul_byte_pair_mode = mode;
}

unfoldable pub hot_shift_sum : HotFormat → WritebackMode → Bool → HotMetadata → HotMetadata
hot_shift_sum fmt mode suppress m = record m {
  hot_supported = is_hot_format_one_of fmt (fmt_rrri ∷ fmt_rrrici ∷ fmt_zrri ∷ fmt_zrrici ∷ []);
  suppress_scalar_write = suppress;
  writeback_mode = mode;
}

unfoldable pub hot_shift_right_sum : HotFormat → WritebackMode → Bool → HotMetadata → HotMetadata
hot_shift_right_sum fmt mode suppress m = record m {
  hot_supported = is_hot_format_one_of fmt (fmt_rrri ∷ fmt_rrrici ∷ fmt_zrrici ∷ []);
  suppress_scalar_write = suppress;
  writeback_mode = mode;
}

unfoldable pub hot_store_narrow : HotFormat → HotMetadata → HotMetadata
hot_store_narrow fmt m = record m {
  hot_supported = is_hot_format_one_of fmt (fmt_erii ∷ fmt_esii ∷ fmt_erir ∷ fmt_esir ∷ []);
  store_source_mode = if is_hot_format_one_of fmt (fmt_erii ∷ fmt_esii ∷ []) then imm32 else reg32;
}

unfoldable pub hot_store_wide : HotFormat → StoreSourceMode → HotMetadata → HotMetadata
hot_store_wide fmt source m = record m {
  hot_supported = is_hot_format_one_of fmt (fmt_erii ∷ fmt_erir ∷ []);
  store_source_mode = if fmt_number fmt == fmt_number fmt_erii then imm32 else source;
}

abbrev pub supported : Bool → HotMetadata → HotMetadata
supported b m = record m { hot_supported = b }

unfoldable pub hot_of : HotOp → HotFormat → HotMetadata → HotMetadata
hot_of op_or fmt m = hot_or fmt no_writeback (is_hot_format_one_of fmt (fmt_zrr ∷ fmt_zrrci ∷ [])) m
hot_of op_or_s fmt m = hot_or fmt dreg_sign32 false m
hot_of op_or_u fmt m = hot_or fmt dreg_zero32 false m
hot_of op_add fmt m = record m {
  hot_supported = is_hot_format_one_of fmt (fmt_rri ∷ fmt_rrr ∷ fmt_rrici ∷ fmt_rrrci ∷ []);
  imm_is_signed8 = fmt_number fmt == fmt_number fmt_rrici;
}
hot_of op_addc fmt m = supported (is_hot_format_one_of fmt (fmt_rri ∷ fmt_rrr ∷ fmt_zrr ∷ [])) m
hot_of op_and fmt m = supported (is_hot_format_one_of fmt (fmt_rri ∷ fmt_rrr ∷ fmt_rrici ∷ [])) m
hot_of op_and_s fmt m = hot_and_extended fmt dreg_sign32 m
hot_of op_and_u fmt m = hot_and_extended fmt dreg_zero32 m
hot_of op_sub fmt m = hot_sub fmt m
hot_of op_subc fmt m = hot_subc fmt m
hot_of op_mul_step fmt m =
    supported ((fmt_number fmt == fmt_number fmt_rrrici) || (fmt_number fmt == fmt_number fmt_rrri))
      m
hot_of op_div_step fmt m = supported (fmt_number fmt == fmt_number fmt_rrrici) m
hot_of op_acquire fmt m = supported (fmt_number fmt == fmt_number fmt_rici) m
hot_of op_release fmt m = record m {
  hot_supported = fmt_number fmt == fmt_number fmt_rici;
  acquire_is_release = true;
}
hot_of op_resume fmt m = supported (fmt_number fmt == fmt_number fmt_rici) m
hot_of op_boot fmt m = supported (fmt_number fmt == fmt_number fmt_rici) m
hot_of op_call fmt m = supported (is_hot_format_one_of fmt (fmt_rri ∷ fmt_zri ∷ [])) m
hot_of op_ldma fmt m = supported (fmt_number fmt == fmt_number fmt_rri) m
hot_of op_sdma fmt m = record m {
  hot_supported = fmt_number fmt == fmt_number fmt_rri;
  dma_to_mram = true;
}
hot_of op_lsl fmt m = hot_shift fmt m
hot_of op_lsl_s fmt m = hot_shift fmt m
hot_of op_lsl_u fmt m = hot_shift fmt m
hot_of op_lslx fmt m = hot_shift fmt m
hot_of op_lslx_s fmt m = hot_shift fmt m
hot_of op_lslx_u fmt m = hot_shift fmt m
hot_of op_lsr fmt m = hot_shift fmt m
hot_of op_lsr_s fmt m = hot_shift fmt m
hot_of op_lsr_u fmt m = hot_shift fmt m
hot_of op_lsrx fmt m = hot_shift fmt m
hot_of op_lsrx_s fmt m = hot_shift fmt m
hot_of op_lsrx_u fmt m = hot_shift fmt m
hot_of op_movd fmt m = supported (fmt_number fmt == fmt_number fmt_rrci) m
hot_of op_swapd fmt m = record m {
  hot_supported = fmt_number fmt == fmt_number fmt_rrci;
  movd_is_swap = true;
}
hot_of op_clz fmt m = supported (is_hot_format_one_of fmt (fmt_rr ∷ fmt_rrci ∷ [])) m
hot_of op_clo fmt m = record m {
  hot_supported = fmt_number fmt == fmt_number fmt_zrci;
  clz_invert_input = true;
}
hot_of op_mul_ul_ul fmt m = hot_mul fmt ul_ul m
hot_of op_mul_ul_uh fmt m = hot_mul fmt ul_uh m
hot_of op_mul_uh_ul fmt m = hot_mul fmt uh_ul m
hot_of op_mul_uh_uh fmt m = hot_mul fmt uh_uh m
hot_of op_lsl_add fmt m =
    hot_shift_sum fmt no_writeback (is_hot_format_one_of fmt (fmt_zrri ∷ fmt_zrrici ∷ [])) m
hot_of op_lsl_add_s fmt m = hot_shift_sum fmt dreg_sign32 false m
hot_of op_lsl_add_u fmt m = hot_shift_sum fmt dreg_zero32 false m
hot_of op_lsl_sub fmt m =
    hot_shift_sum fmt no_writeback (is_hot_format_one_of fmt (fmt_zrri ∷ fmt_zrrici ∷ [])) m
hot_of op_lsl_sub_s fmt m = hot_shift_sum fmt dreg_sign32 false m
hot_of op_lsl_sub_u fmt m = hot_shift_sum fmt dreg_zero32 false m
hot_of op_lsr_add fmt m =
    hot_shift_right_sum fmt no_writeback (fmt_number fmt == fmt_number fmt_zrrici) m
hot_of op_lsr_add_s fmt m = hot_shift_right_sum fmt dreg_sign32 false m
hot_of op_lsr_add_u fmt m = hot_shift_right_sum fmt dreg_zero32 false m
hot_of op_lbu fmt m = supported (fmt_number fmt == fmt_number fmt_erri) m
hot_of op_lbs fmt m = supported (fmt_number fmt == fmt_number fmt_erri) m
hot_of op_lw fmt m = record m {
  hot_supported = fmt_number fmt == fmt_number fmt_erri;
  writeback_mode = dreg_zero32;
}
hot_of op_lw_s fmt m = record m {
  hot_supported = fmt_number fmt == fmt_number fmt_erri;
  writeback_mode = dreg_sign32;
}
hot_of op_ld fmt m = supported (fmt_number fmt == fmt_number fmt_erri) m
hot_of op_sw fmt m = hot_store_wide fmt reg32 m
hot_of op_sb fmt m = hot_store_narrow fmt m
hot_of op_sh fmt m = hot_store_narrow fmt m
hot_of op_sd fmt m = hot_store_wide fmt dreg64 m
hot_of op_time fmt m = supported (fmt_number fmt == fmt_number fmt_r) m
hot_of op_time_cfg fmt m = record m {
  hot_supported = is_hot_format_one_of fmt (fmt_rr ∷ fmt_zr ∷ []);
  time_cfg_uses_ra = fmt_number fmt == fmt_number fmt_zr;
}
hot_of op_stop fmt m = supported (fmt_number fmt == fmt_number fmt_ci) m
hot_of op_nop fmt m = supported (fmt_number fmt == fmt_number fmt_none) m
hot_of op_fault fmt m = supported (fmt_number fmt == fmt_number fmt_i) m
hot_of op_none fmt m = m

-- The metadata of a decoded word, from the initial values on.
unfoldable pub metadata_of : RawDecoded48 → HotMetadata
metadata_of decoded =
    let fmt = decoded.hot_fmt in
    let cc_map_kind = select_cc_map_48 decoded.hot_op fmt in
    let (cc_kind, cc_subword_bits) = decode_cc_metadata_48 cc_map_kind decoded.cc in
    let m = record hot_metadata {
      off_uses_sign_extend24 =
          is_hot_format_one_of fmt (fmt_erri ∷ fmt_erir ∷ fmt_erii ∷ fmt_esii ∷ fmt_esir ∷ []);
    } in
    hot_of decoded.hot_op fmt (
      if decoded.has_cc
      then record m {
        cc_map_kind = cc_map_kind;
        cc_kind = cc_kind;
        cc_subword_bits = cc_subword_bits;
      }
      else m)

unfoldable pub populate_hot_metadata_48 : RawDecoded48 → RawDecoded48
populate_hot_metadata_48 decoded = record decoded {
  hot =
      if not decoded.valid || (op_number decoded.hot_op == op_number op_none)
      then hot_metadata
      else metadata_of decoded;
}
