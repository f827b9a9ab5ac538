-- ===== src/Pipeline/Decode/Operands.antt =====
-- The fields that the formats of contrib/hostpimsim-upmem/dpu/pipeline.cc stand for.
use hostpimsim_gecon.Pipeline.Kinds.{
  HotOp, HotFormat, op_or_s, op_or_u, op_and_s, op_and_u, op_mul_step, op_div_step, op_call,
  op_ldma, op_sdma, op_lsl, op_lsl_s, op_lsl_u, op_lslx, op_lslx_s, op_lslx_u, op_lsr, op_lsr_s,
  op_lsr_u, op_lsrx, op_lsrx_s, op_lsrx_u, op_movd, op_swapd, op_clz, op_clo, op_lsl_add_s,
  op_lsl_add_u, op_lsl_sub_s, op_lsl_sub_u, op_lsr_add_s, op_lsr_add_u, op_lw_s, op_ld, op_sd,
  op_time_cfg, fmt_none, fmt_ci, fmt_erii, fmt_erir, fmt_erri, fmt_ersi, fmt_esii, fmt_esir, fmt_i,
  fmt_r, fmt_rci, fmt_rici, fmt_rir, fmt_rirc, fmt_rirci, fmt_rirf, fmt_rki, fmt_rr, fmt_rrc,
  fmt_rrci, fmt_rri, fmt_rric, fmt_rrici, fmt_rrif, fmt_rrr, fmt_rrrc, fmt_rrrci, fmt_rrri,
  fmt_rrrici, fmt_ssi, fmt_sss, fmt_z, fmt_zci, fmt_zir, fmt_zirc, fmt_zirci, fmt_zirf, fmt_zr,
  fmt_zrc, fmt_zrci, fmt_zri, fmt_zric, fmt_zrici, fmt_zrif, fmt_zrr, fmt_zrrc, fmt_zrrci, fmt_zrri,
  fmt_zrrici,
}
use hostpimsim_gecon.Pipeline.Decode.Shape.{
  Operands, no_operands, with_ra, with_rb, with_rc, with_dc, with_db, with_imm, with_off, with_pc,
  with_shift, with_imm_dma, with_endian, with_cc,
}

-- Operations whose formats have the same fields.
pub data OpClass : Type 0 where
  plain word_pair shift_word shift_pair load_pair store_pair step move count configure jump
        transfer :
      OpClass

abbrev pub class_of : HotOp → OpClass
class_of op_or_s = word_pair
class_of op_or_u = word_pair
class_of op_and_s = word_pair
class_of op_and_u = word_pair
class_of op_mul_step = step
class_of op_div_step = step
class_of op_call = jump
class_of op_ldma = transfer
class_of op_sdma = transfer
class_of op_lsl = shift_word
class_of op_lsl_s = shift_pair
class_of op_lsl_u = shift_pair
class_of op_lslx = shift_word
class_of op_lslx_s = shift_pair
class_of op_lslx_u = shift_pair
class_of op_lsr = shift_word
class_of op_lsr_s = shift_pair
class_of op_lsr_u = shift_pair
class_of op_lsrx = shift_word
class_of op_lsrx_s = shift_pair
class_of op_lsrx_u = shift_pair
class_of op_movd = move
class_of op_swapd = move
class_of op_clz = count
class_of op_clo = count
class_of op_lsl_add_s = word_pair
class_of op_lsl_add_u = word_pair
class_of op_lsl_sub_s = word_pair
class_of op_lsl_sub_u = word_pair
class_of op_lsr_add_s = word_pair
class_of op_lsr_add_u = word_pair
class_of op_lw_s = load_pair
class_of op_ld = load_pair
class_of op_sd = store_pair
class_of op_time_cfg = configure
class_of _ = plain

abbrev operands_of_erir : OpClass → Operands
operands_of_erir plain = with_endian (with_off (with_rb (with_ra no_operands)))
operands_of_erir store_pair = with_endian (with_off (with_db (with_ra no_operands)))
operands_of_erir _ = no_operands

abbrev operands_of_erri : OpClass → Operands
operands_of_erri plain = with_endian (with_off (with_rc (with_ra no_operands)))
operands_of_erri load_pair = with_endian (with_off (with_dc (with_ra no_operands)))
operands_of_erri _ = no_operands

abbrev operands_of_ersi : OpClass → Operands
operands_of_ersi plain = with_endian (with_off (with_rc (with_ra no_operands)))
operands_of_ersi load_pair = with_endian (with_off (with_dc (with_ra no_operands)))
operands_of_ersi _ = no_operands

abbrev operands_of_esir : OpClass → Operands
operands_of_esir plain = with_endian (with_off (with_rb (with_ra no_operands)))
operands_of_esir store_pair = with_endian (with_off (with_db (with_ra no_operands)))
operands_of_esir _ = no_operands

abbrev operands_of_rr : OpClass → Operands
operands_of_rr count = with_rc (with_ra no_operands)
operands_of_rr configure = with_rc (with_rb (with_ra no_operands))
operands_of_rr _ = no_operands

abbrev operands_of_rrci : OpClass → Operands
operands_of_rrci move = with_cc (with_pc (with_db (with_dc (with_ra no_operands))))
operands_of_rrci count = with_cc (with_pc (with_rc (with_ra no_operands)))
operands_of_rrci configure = with_cc (with_pc (with_rc (with_rb (with_ra no_operands))))
operands_of_rrci _ = no_operands

abbrev operands_of_rri : OpClass → Operands
operands_of_rri plain = with_imm (with_rc (with_ra no_operands))
operands_of_rri word_pair = with_imm (with_dc (with_rb no_operands))
operands_of_rri shift_word = with_shift (with_rc (with_ra no_operands))
operands_of_rri shift_pair = with_shift (with_dc (with_ra no_operands))
operands_of_rri jump = with_off (with_rc (with_ra no_operands))
operands_of_rri transfer = with_imm_dma (with_rb (with_ra no_operands))
operands_of_rri _ = no_operands

abbrev operands_of_rric : OpClass → Operands
operands_of_rric plain = with_cc (with_imm (with_rc (with_ra no_operands)))
operands_of_rric word_pair = with_cc (with_imm (with_dc (with_ra no_operands)))
operands_of_rric shift_word = with_cc (with_shift (with_rc (with_ra no_operands)))
operands_of_rric shift_pair = with_cc (with_shift (with_dc (with_ra no_operands)))
operands_of_rric _ = no_operands

abbrev operands_of_rrici : OpClass → Operands
operands_of_rrici plain = with_cc (with_pc (with_imm (with_rc (with_ra no_operands))))
operands_of_rrici word_pair = with_cc (with_pc (with_imm (with_dc (with_ra no_operands))))
operands_of_rrici shift_word = with_cc (with_shift (with_pc (with_rc (with_ra no_operands))))
operands_of_rrici shift_pair = with_cc (with_shift (with_pc (with_dc (with_ra no_operands))))
operands_of_rrici _ = no_operands

abbrev operands_of_rrif : OpClass → Operands
operands_of_rrif plain = with_imm (with_rc (with_ra no_operands))
operands_of_rrif word_pair = with_imm (with_dc (with_ra no_operands))
operands_of_rrif _ = no_operands

abbrev operands_of_rrr : OpClass → Operands
operands_of_rrr plain = with_rc (with_rb (with_ra no_operands))
operands_of_rrr word_pair = with_dc (with_rb (with_ra no_operands))
operands_of_rrr shift_word = with_rc (with_rb (with_ra no_operands))
operands_of_rrr shift_pair = with_dc (with_rb (with_ra no_operands))
operands_of_rrr jump = with_rc (with_rb (with_ra no_operands))
operands_of_rrr _ = no_operands

abbrev operands_of_rrrc : OpClass → Operands
operands_of_rrrc plain = with_cc (with_rc (with_rb (with_ra no_operands)))
operands_of_rrrc word_pair = with_cc (with_dc (with_rb (with_ra no_operands)))
operands_of_rrrc shift_word = with_cc (with_rc (with_rb (with_ra no_operands)))
operands_of_rrrc shift_pair = with_cc (with_dc (with_rb (with_ra no_operands)))
operands_of_rrrc _ = no_operands

abbrev operands_of_rrrci : OpClass → Operands
operands_of_rrrci plain = with_cc (with_pc (with_rc (with_rb (with_ra no_operands))))
operands_of_rrrci word_pair = with_cc (with_pc (with_dc (with_rb (with_ra no_operands))))
operands_of_rrrci shift_word = with_cc (with_pc (with_rc (with_rb (with_ra no_operands))))
operands_of_rrrci shift_pair = with_cc (with_pc (with_dc (with_rb (with_ra no_operands))))
operands_of_rrrci _ = no_operands

abbrev operands_of_rrri : OpClass → Operands
operands_of_rrri plain = with_shift (with_rc (with_rb (with_ra no_operands)))
operands_of_rrri word_pair = with_shift (with_dc (with_rb (with_ra no_operands)))
operands_of_rrri step = with_shift (with_db (with_dc (with_ra no_operands)))
operands_of_rrri _ = no_operands

abbrev operands_of_rrrici : OpClass → Operands
operands_of_rrrici plain = with_cc (with_shift (with_pc (with_rc (with_rb (with_ra no_operands)))))
operands_of_rrrici word_pair =
    with_cc (with_shift (with_pc (with_dc (with_rb (with_ra no_operands)))))
operands_of_rrrici step = with_cc (with_shift (with_pc (with_db (with_dc (with_ra no_operands)))))
operands_of_rrrici _ = no_operands

abbrev operands_of_zr : OpClass → Operands
operands_of_zr count = with_ra no_operands
operands_of_zr configure = with_rb (with_ra no_operands)
operands_of_zr _ = no_operands

abbrev operands_of_zrci : OpClass → Operands
operands_of_zrci count = with_cc (with_pc (with_ra no_operands))
operands_of_zrci configure = with_cc (with_pc (with_rb (with_ra no_operands)))
operands_of_zrci _ = no_operands

abbrev operands_of_zri : OpClass → Operands
operands_of_zri plain = with_imm (with_rb no_operands)
operands_of_zri shift_word = with_shift (with_ra no_operands)
operands_of_zri shift_pair = with_shift (with_ra no_operands)
operands_of_zri jump = with_off (with_ra no_operands)
operands_of_zri _ = no_operands

abbrev operands_of_zric : OpClass → Operands
operands_of_zric plain = with_cc (with_imm (with_ra no_operands))
operands_of_zric shift_word = with_cc (with_shift (with_ra no_operands))
operands_of_zric shift_pair = with_cc (with_shift (with_ra no_operands))
operands_of_zric _ = no_operands

abbrev operands_of_zrici : OpClass → Operands
operands_of_zrici plain = with_cc (with_pc (with_imm (with_ra no_operands)))
operands_of_zrici shift_word = with_cc (with_shift (with_pc (with_ra no_operands)))
operands_of_zrici shift_pair = with_cc (with_shift (with_pc (with_ra no_operands)))
operands_of_zrici _ = no_operands

-- The fields of an operation in a format.
abbrev pub operands_of : OpClass → HotFormat → Operands
operands_of _ fmt_none = with_ra no_operands
operands_of _ fmt_ci = with_cc (with_pc (with_ra no_operands))
operands_of _ fmt_erii = with_endian (with_off (with_imm (with_ra no_operands)))
operands_of cls fmt_erir = operands_of_erir cls
operands_of cls fmt_erri = operands_of_erri cls
operands_of cls fmt_ersi = operands_of_ersi cls
operands_of _ fmt_esii = with_endian (with_off (with_imm (with_ra no_operands)))
operands_of cls fmt_esir = operands_of_esir cls
operands_of _ fmt_i = with_imm (with_ra no_operands)
operands_of _ fmt_r = with_rc (with_ra no_operands)
operands_of _ fmt_rci = with_cc (with_pc (with_rc (with_ra no_operands)))
operands_of _ fmt_rici = with_cc (with_pc (with_imm (with_ra no_operands)))
operands_of _ fmt_rir = with_imm (with_rc (with_ra no_operands))
operands_of _ fmt_rirc = with_cc (with_imm (with_rc (with_ra no_operands)))
operands_of _ fmt_rirci = with_cc (with_pc (with_imm (with_rc (with_ra no_operands))))
operands_of _ fmt_rirf = with_imm (with_rc (with_ra no_operands))
operands_of _ fmt_rki = with_imm (with_dc (with_ra no_operands))
operands_of cls fmt_rr = operands_of_rr cls
operands_of _ fmt_rrc = with_cc (with_rc (with_ra no_operands))
operands_of cls fmt_rrci = operands_of_rrci cls
operands_of cls fmt_rri = operands_of_rri cls
operands_of cls fmt_rric = operands_of_rric cls
operands_of cls fmt_rrici = operands_of_rrici cls
operands_of cls fmt_rrif = operands_of_rrif cls
operands_of cls fmt_rrr = operands_of_rrr cls
operands_of cls fmt_rrrc = operands_of_rrrc cls
operands_of cls fmt_rrrci = operands_of_rrrci cls
operands_of cls fmt_rrri = operands_of_rrri cls
operands_of cls fmt_rrrici = operands_of_rrrici cls
operands_of _ fmt_ssi = with_imm (with_rc (with_ra no_operands))
operands_of _ fmt_sss = with_rc (with_rb (with_ra no_operands))
operands_of _ fmt_z = with_ra no_operands
operands_of _ fmt_zci = with_cc (with_pc (with_ra no_operands))
operands_of _ fmt_zir = with_imm (with_rb no_operands)
operands_of _ fmt_zirc = with_cc (with_imm (with_ra no_operands))
operands_of _ fmt_zirci = with_cc (with_pc (with_imm (with_ra no_operands)))
operands_of _ fmt_zirf = with_imm (with_ra no_operands)
operands_of cls fmt_zr = operands_of_zr cls
operands_of _ fmt_zrc = with_cc (with_ra no_operands)
operands_of cls fmt_zrci = operands_of_zrci cls
operands_of cls fmt_zri = operands_of_zri cls
operands_of cls fmt_zric = operands_of_zric cls
operands_of cls fmt_zrici = operands_of_zrici cls
operands_of _ fmt_zrif = with_imm (with_ra no_operands)
operands_of _ fmt_zrr = with_rb (with_ra no_operands)
operands_of _ fmt_zrrc = with_cc (with_rb (with_ra no_operands))
operands_of _ fmt_zrrci = with_cc (with_pc (with_rb (with_ra no_operands)))
operands_of _ fmt_zrri = with_shift (with_rb (with_ra no_operands))
operands_of _ fmt_zrrici = with_cc (with_shift (with_pc (with_rb (with_ra no_operands))))
