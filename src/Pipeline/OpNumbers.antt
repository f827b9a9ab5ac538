-- ===== src/Pipeline/OpNumbers.antt =====
-- The operations of an instruction, numbered.
use hostpimsim_gecon.Base.{ℕ, ◌≡◌, refl, true, List, [], ◌∷◌, ltb}
use hostpimsim_gecon.Pipeline.Trials.{entry}
use hostpimsim_gecon.Pipeline.Kinds.{
  HotOp, op_none, op_acquire, op_release, op_or, op_or_s, op_or_u, op_add, op_addc, op_and,
  op_and_s, op_and_u, op_sub, op_subc, op_mul_step, op_div_step, op_resume, op_boot, op_call,
  op_ldma, op_sdma, op_lsl, op_lsl_s, op_lsl_u, op_lslx, op_lslx_s, op_lslx_u, op_lsr, op_lsr_s,
  op_lsr_u, op_lsrx, op_lsrx_s, op_lsrx_u, op_movd, op_swapd, op_clz, op_clo, op_mul_ul_ul,
  op_mul_ul_uh, op_mul_uh_ul, op_mul_uh_uh, op_lsl_add, op_lsl_add_s, op_lsl_add_u, op_lsl_sub,
  op_lsl_sub_s, op_lsl_sub_u, op_lsr_add, op_lsr_add_s, op_lsr_add_u, op_lbu, op_lbs, op_lw,
  op_lw_s, op_ld, op_sw, op_sb, op_sh, op_sd, op_time, op_time_cfg, op_stop, op_nop, op_fault,
}

abbrev pub op_number : HotOp → ℕ
op_number op_none = 0
op_number op_acquire = 1
op_number op_release = 2
op_number op_or = 3
op_number op_or_s = 4
op_number op_or_u = 5
op_number op_add = 6
op_number op_addc = 7
op_number op_and = 8
op_number op_and_s = 9
op_number op_and_u = 10
op_number op_sub = 11
op_number op_subc = 12
op_number op_mul_step = 13
op_number op_div_step = 14
op_number op_resume = 15
op_number op_boot = 16
op_number op_call = 17
op_number op_ldma = 18
op_number op_sdma = 19
op_number op_lsl = 20
op_number op_lsl_s = 21
op_number op_lsl_u = 22
op_number op_lslx = 23
op_number op_lslx_s = 24
op_number op_lslx_u = 25
op_number op_lsr = 26
op_number op_lsr_s = 27
op_number op_lsr_u = 28
op_number op_lsrx = 29
op_number op_lsrx_s = 30
op_number op_lsrx_u = 31
op_number op_movd = 32
op_number op_swapd = 33
op_number op_clz = 34
op_number op_clo = 35
op_number op_mul_ul_ul = 36
op_number op_mul_ul_uh = 37
op_number op_mul_uh_ul = 38
op_number op_mul_uh_uh = 39
op_number op_lsl_add = 40
op_number op_lsl_add_s = 41
op_number op_lsl_add_u = 42
op_number op_lsl_sub = 43
op_number op_lsl_sub_s = 44
op_number op_lsl_sub_u = 45
op_number op_lsr_add = 46
op_number op_lsr_add_s = 47
op_number op_lsr_add_u = 48
op_number op_lbu = 49
op_number op_lbs = 50
op_number op_lw = 51
op_number op_lw_s = 52
op_number op_ld = 53
op_number op_sw = 54
op_number op_sb = 55
op_number op_sh = 56
op_number op_sd = 57
op_number op_time = 58
op_number op_time_cfg = 59
op_number op_stop = 60
op_number op_nop = 61
op_number op_fault = 62

abbrev pub all_ops : List HotOp
all_ops =
    op_none ∷ op_acquire ∷ op_release ∷ op_or ∷ op_or_s ∷ op_or_u ∷ op_add ∷ op_addc ∷ op_and
    ∷ op_and_s ∷ op_and_u ∷ op_sub ∷ op_subc ∷ op_mul_step ∷ op_div_step ∷ op_resume ∷ op_boot
    ∷ op_call ∷ op_ldma ∷ op_sdma ∷ op_lsl ∷ op_lsl_s ∷ op_lsl_u ∷ op_lslx ∷ op_lslx_s ∷ op_lslx_u
    ∷ op_lsr ∷ op_lsr_s ∷ op_lsr_u ∷ op_lsrx ∷ op_lsrx_s ∷ op_lsrx_u ∷ op_movd ∷ op_swapd ∷ op_clz
    ∷ op_clo ∷ op_mul_ul_ul ∷ op_mul_ul_uh ∷ op_mul_uh_ul ∷ op_mul_uh_uh ∷ op_lsl_add ∷ op_lsl_add_s
    ∷ op_lsl_add_u ∷ op_lsl_sub ∷ op_lsl_sub_s ∷ op_lsl_sub_u ∷ op_lsr_add ∷ op_lsr_add_s
    ∷ op_lsr_add_u ∷ op_lbu ∷ op_lbs ∷ op_lw ∷ op_lw_s ∷ op_ld ∷ op_sw ∷ op_sb ∷ op_sh ∷ op_sd
    ∷ op_time ∷ op_time_cfg ∷ op_stop ∷ op_nop ∷ op_fault ∷ []

pub entry-op_number : (x : HotOp) → entry op_none all_ops (op_number x) ≡ x
entry-op_number op_none = refl
entry-op_number op_acquire = refl
entry-op_number op_release = refl
entry-op_number op_or = refl
entry-op_number op_or_s = refl
entry-op_number op_or_u = refl
entry-op_number op_add = refl
entry-op_number op_addc = refl
entry-op_number op_and = refl
entry-op_number op_and_s = refl
entry-op_number op_and_u = refl
entry-op_number op_sub = refl
entry-op_number op_subc = refl
entry-op_number op_mul_step = refl
entry-op_number op_div_step = refl
entry-op_number op_resume = refl
entry-op_number op_boot = refl
entry-op_number op_call = refl
entry-op_number op_ldma = refl
entry-op_number op_sdma = refl
entry-op_number op_lsl = refl
entry-op_number op_lsl_s = refl
entry-op_number op_lsl_u = refl
entry-op_number op_lslx = refl
entry-op_number op_lslx_s = refl
entry-op_number op_lslx_u = refl
entry-op_number op_lsr = refl
entry-op_number op_lsr_s = refl
entry-op_number op_lsr_u = refl
entry-op_number op_lsrx = refl
entry-op_number op_lsrx_s = refl
entry-op_number op_lsrx_u = refl
entry-op_number op_movd = refl
entry-op_number op_swapd = refl
entry-op_number op_clz = refl
entry-op_number op_clo = refl
entry-op_number op_mul_ul_ul = refl
entry-op_number op_mul_ul_uh = refl
entry-op_number op_mul_uh_ul = refl
entry-op_number op_mul_uh_uh = refl
entry-op_number op_lsl_add = refl
entry-op_number op_lsl_add_s = refl
entry-op_number op_lsl_add_u = refl
entry-op_number op_lsl_sub = refl
entry-op_number op_lsl_sub_s = refl
entry-op_number op_lsl_sub_u = refl
entry-op_number op_lsr_add = refl
entry-op_number op_lsr_add_s = refl
entry-op_number op_lsr_add_u = refl
entry-op_number op_lbu = refl
entry-op_number op_lbs = refl
entry-op_number op_lw = refl
entry-op_number op_lw_s = refl
entry-op_number op_ld = refl
entry-op_number op_sw = refl
entry-op_number op_sb = refl
entry-op_number op_sh = refl
entry-op_number op_sd = refl
entry-op_number op_time = refl
entry-op_number op_time_cfg = refl
entry-op_number op_stop = refl
entry-op_number op_nop = refl
entry-op_number op_fault = refl

pub op_number-lt : (x : HotOp) → ltb (op_number x) 63 ≡ true
op_number-lt op_none = refl
op_number-lt op_acquire = refl
op_number-lt op_release = refl
op_number-lt op_or = refl
op_number-lt op_or_s = refl
op_number-lt op_or_u = refl
op_number-lt op_add = refl
op_number-lt op_addc = refl
op_number-lt op_and = refl
op_number-lt op_and_s = refl
op_number-lt op_and_u = refl
op_number-lt op_sub = refl
op_number-lt op_subc = refl
op_number-lt op_mul_step = refl
op_number-lt op_div_step = refl
op_number-lt op_resume = refl
op_number-lt op_boot = refl
op_number-lt op_call = refl
op_number-lt op_ldma = refl
op_number-lt op_sdma = refl
op_number-lt op_lsl = refl
op_number-lt op_lsl_s = refl
op_number-lt op_lsl_u = refl
op_number-lt op_lslx = refl
op_number-lt op_lslx_s = refl
op_number-lt op_lslx_u = refl
op_number-lt op_lsr = refl
op_number-lt op_lsr_s = refl
op_number-lt op_lsr_u = refl
op_number-lt op_lsrx = refl
op_number-lt op_lsrx_s = refl
op_number-lt op_lsrx_u = refl
op_number-lt op_movd = refl
op_number-lt op_swapd = refl
op_number-lt op_clz = refl
op_number-lt op_clo = refl
op_number-lt op_mul_ul_ul = refl
op_number-lt op_mul_ul_uh = refl
op_number-lt op_mul_uh_ul = refl
op_number-lt op_mul_uh_uh = refl
op_number-lt op_lsl_add = refl
op_number-lt op_lsl_add_s = refl
op_number-lt op_lsl_add_u = refl
op_number-lt op_lsl_sub = refl
op_number-lt op_lsl_sub_s = refl
op_number-lt op_lsl_sub_u = refl
op_number-lt op_lsr_add = refl
op_number-lt op_lsr_add_s = refl
op_number-lt op_lsr_add_u = refl
op_number-lt op_lbu = refl
op_number-lt op_lbs = refl
op_number-lt op_lw = refl
op_number-lt op_lw_s = refl
op_number-lt op_ld = refl
op_number-lt op_sw = refl
op_number-lt op_sb = refl
op_number-lt op_sh = refl
op_number-lt op_sd = refl
op_number-lt op_time = refl
op_number-lt op_time_cfg = refl
op_number-lt op_stop = refl
op_number-lt op_nop = refl
op_number-lt op_fault = refl
