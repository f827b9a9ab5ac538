-- ===== src/Pipeline/Select.antt =====
-- The map of conditions that an operation in a format has: `select_cc_map_48`, with a function for each
-- group of cases.
use hostpimsim_gecon.Pipeline.Kinds.{
  HotOp, op_acquire, op_release, op_or, op_or_s, op_or_u, op_add, op_addc, op_and, op_and_s,
  op_and_u, op_sub, op_subc, op_mul_step, op_div_step, op_resume, op_boot, op_lsl, op_lsl_s,
  op_lsl_u, op_lslx, op_lslx_s, op_lslx_u, op_lsr, op_lsr_s, op_lsr_u, op_lsrx, op_lsrx_s,
  op_lsrx_u, op_movd, op_swapd, op_clz, op_clo, op_lsl_add, op_lsl_add_s, op_lsl_add_u, op_lsl_sub,
  op_lsl_sub_s, op_lsl_sub_u, op_lsr_add, op_lsr_add_s, op_lsr_add_u, op_stop, HotFormat, fmt_ci,
  fmt_rici, fmt_rirc, fmt_rirci, fmt_rirf, fmt_rrc, fmt_rrci, fmt_rric, fmt_rrici, fmt_rrif,
  fmt_rrrc, fmt_rrrci, fmt_rrrici, fmt_zirc, fmt_zirci, fmt_zirf, fmt_zrc, fmt_zrci, fmt_zric,
  fmt_zrici, fmt_zrif, fmt_zrrc, fmt_zrrci, fmt_zrrici, CcMapKind, no_map, map0, map1, map2, map3,
  map4, map5, map6, map7, map8, map9, map10, map11, map13, map14, map15,
}

unfoldable pub cc_map_of_acquire : HotFormat → CcMapKind
cc_map_of_acquire fmt_rici = map0
cc_map_of_acquire _ = no_map

unfoldable pub cc_map_of_release : HotFormat → CcMapKind
cc_map_of_release fmt_rici = map14
cc_map_of_release _ = no_map

unfoldable pub cc_map_of_add : HotFormat → CcMapKind
cc_map_of_add fmt_rric = map1
cc_map_of_add fmt_rrrc = map1
cc_map_of_add fmt_zric = map1
cc_map_of_add fmt_zrrc = map1
cc_map_of_add fmt_rrici = map2
cc_map_of_add fmt_rrrci = map2
cc_map_of_add fmt_zrici = map2
cc_map_of_add fmt_zrrci = map2
cc_map_of_add fmt_rrif = map3
cc_map_of_add fmt_zrif = map3
cc_map_of_add _ = no_map

unfoldable pub cc_map_of_logic : HotFormat → CcMapKind
cc_map_of_logic fmt_rric = map1
cc_map_of_logic fmt_rrrc = map1
cc_map_of_logic fmt_zric = map1
cc_map_of_logic fmt_zrrc = map1
cc_map_of_logic fmt_rrici = map4
cc_map_of_logic fmt_rrrci = map4
cc_map_of_logic fmt_zrici = map4
cc_map_of_logic fmt_zrrci = map4
cc_map_of_logic fmt_rrif = map3
cc_map_of_logic fmt_zrif = map3
cc_map_of_logic _ = no_map

unfoldable pub cc_map_of_sub : HotFormat → CcMapKind
cc_map_of_sub fmt_rirc = map1
cc_map_of_sub fmt_zirc = map1
cc_map_of_sub fmt_rirci = map13
cc_map_of_sub fmt_rrici = map13
cc_map_of_sub fmt_rrrci = map13
cc_map_of_sub fmt_zirci = map13
cc_map_of_sub fmt_zrici = map13
cc_map_of_sub fmt_zrrci = map13
cc_map_of_sub fmt_rirf = map3
cc_map_of_sub fmt_rrif = map3
cc_map_of_sub fmt_zirf = map3
cc_map_of_sub fmt_zrif = map3
cc_map_of_sub fmt_rric = map15
cc_map_of_sub fmt_rrrc = map15
cc_map_of_sub fmt_zric = map15
cc_map_of_sub fmt_zrrc = map15
cc_map_of_sub _ = no_map

unfoldable pub cc_map_of_boot : HotFormat → CcMapKind
cc_map_of_boot fmt_rici = map7
cc_map_of_boot _ = no_map

unfoldable pub cc_map_of_stop : HotFormat → CcMapKind
cc_map_of_stop fmt_ci = map7
cc_map_of_stop _ = no_map

unfoldable pub cc_map_of_shift : HotFormat → CcMapKind
cc_map_of_shift fmt_rric = map1
cc_map_of_shift fmt_rrrc = map1
cc_map_of_shift fmt_zric = map1
cc_map_of_shift fmt_zrrc = map1
cc_map_of_shift fmt_rrici = map5
cc_map_of_shift fmt_zrici = map5
cc_map_of_shift fmt_rrrci = map6
cc_map_of_shift fmt_zrrci = map6
cc_map_of_shift _ = no_map

unfoldable pub cc_map_of_movd : HotFormat → CcMapKind
cc_map_of_movd fmt_rrci = map11
cc_map_of_movd _ = no_map

unfoldable pub cc_map_of_count : HotFormat → CcMapKind
cc_map_of_count fmt_rrc = map1
cc_map_of_count fmt_zrc = map1
cc_map_of_count fmt_rrci = map8
cc_map_of_count fmt_zrci = map8
cc_map_of_count _ = no_map

unfoldable pub cc_map_of_mul_step : HotFormat → CcMapKind
cc_map_of_mul_step fmt_rrrici = map7
cc_map_of_mul_step _ = no_map

unfoldable pub cc_map_of_div_step : HotFormat → CcMapKind
cc_map_of_div_step fmt_rrrici = map9
cc_map_of_div_step _ = no_map

unfoldable pub cc_map_of_shift_add : HotFormat → CcMapKind
cc_map_of_shift_add fmt_rrrici = map10
cc_map_of_shift_add fmt_zrrici = map10
cc_map_of_shift_add _ = no_map

unfoldable pub select_cc_map_48 : HotOp → HotFormat → CcMapKind
select_cc_map_48 op_acquire fmt = cc_map_of_acquire fmt
select_cc_map_48 op_release fmt = cc_map_of_release fmt
select_cc_map_48 op_add fmt = cc_map_of_add fmt
select_cc_map_48 op_addc fmt = cc_map_of_add fmt
select_cc_map_48 op_or fmt = cc_map_of_logic fmt
select_cc_map_48 op_or_s fmt = cc_map_of_logic fmt
select_cc_map_48 op_or_u fmt = cc_map_of_logic fmt
select_cc_map_48 op_and fmt = cc_map_of_logic fmt
select_cc_map_48 op_and_s fmt = cc_map_of_logic fmt
select_cc_map_48 op_and_u fmt = cc_map_of_logic fmt
select_cc_map_48 op_sub fmt = cc_map_of_sub fmt
select_cc_map_48 op_subc fmt = cc_map_of_sub fmt
select_cc_map_48 op_boot fmt = cc_map_of_boot fmt
select_cc_map_48 op_resume fmt = cc_map_of_boot fmt
select_cc_map_48 op_stop fmt = cc_map_of_stop fmt
select_cc_map_48 op_lsl fmt = cc_map_of_shift fmt
select_cc_map_48 op_lsl_s fmt = cc_map_of_shift fmt
select_cc_map_48 op_lsl_u fmt = cc_map_of_shift fmt
select_cc_map_48 op_lslx fmt = cc_map_of_shift fmt
select_cc_map_48 op_lslx_s fmt = cc_map_of_shift fmt
select_cc_map_48 op_lslx_u fmt = cc_map_of_shift fmt
select_cc_map_48 op_lsr fmt = cc_map_of_shift fmt
select_cc_map_48 op_lsr_s fmt = cc_map_of_shift fmt
select_cc_map_48 op_lsr_u fmt = cc_map_of_shift fmt
select_cc_map_48 op_lsrx fmt = cc_map_of_shift fmt
select_cc_map_48 op_lsrx_s fmt = cc_map_of_shift fmt
select_cc_map_48 op_lsrx_u fmt = cc_map_of_shift fmt
select_cc_map_48 op_movd fmt = cc_map_of_movd fmt
select_cc_map_48 op_swapd fmt = cc_map_of_movd fmt
select_cc_map_48 op_clz fmt = cc_map_of_count fmt
select_cc_map_48 op_clo fmt = cc_map_of_count fmt
select_cc_map_48 op_mul_step fmt = cc_map_of_mul_step fmt
select_cc_map_48 op_div_step fmt = cc_map_of_div_step fmt
select_cc_map_48 op_lsl_add fmt = cc_map_of_shift_add fmt
select_cc_map_48 op_lsl_add_s fmt = cc_map_of_shift_add fmt
select_cc_map_48 op_lsl_add_u fmt = cc_map_of_shift_add fmt
select_cc_map_48 op_lsl_sub fmt = cc_map_of_shift_add fmt
select_cc_map_48 op_lsl_sub_s fmt = cc_map_of_shift_add fmt
select_cc_map_48 op_lsl_sub_u fmt = cc_map_of_shift_add fmt
select_cc_map_48 op_lsr_add fmt = cc_map_of_shift_add fmt
select_cc_map_48 op_lsr_add_s fmt = cc_map_of_shift_add fmt
select_cc_map_48 op_lsr_add_u fmt = cc_map_of_shift_add fmt
select_cc_map_48 _ fmt = no_map
