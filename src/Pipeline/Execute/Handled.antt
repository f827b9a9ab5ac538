-- ===== src/Pipeline/Execute/Handled.antt =====
-- An instruction that is handled by its decoded operation leaves the registers of the other tasklets.
use hostpimsim_gecon.Base.{if◌then◌else◌, ◌≡◌, ◌%◌, ℕ, Bool, true, false, Option, none, some}
use hostpimsim_gecon.Dpu.State.{Core}
use hostpimsim_gecon.Pipeline.Kinds.{
  HotOp, op_none, op_acquire, op_release, op_or, op_or_s, op_or_u, op_add, op_addc, op_and,
  op_and_s, op_and_u, op_sub, op_subc, op_mul_step, op_div_step, op_resume, op_boot, op_call,
  op_ldma, op_sdma, op_lsl, op_lsl_s, op_lsl_u, op_lslx, op_lslx_s, op_lslx_u, op_lsr, op_lsr_s,
  op_lsr_u, op_lsrx, op_lsrx_s, op_lsrx_u, op_movd, op_swapd, op_clz, op_clo, op_mul_ul_ul,
  op_mul_ul_uh, op_mul_uh_ul, op_mul_uh_uh, op_lsl_add, op_lsl_add_s, op_lsl_add_u, op_lsl_sub,
  op_lsl_sub_s, op_lsl_sub_u, op_lsr_add, op_lsr_add_s, op_lsr_add_u, op_lbu, op_lbs, op_lw,
  op_lw_s, op_ld, op_sw, op_sb, op_sh, op_sd, op_time, op_time_cfg, op_stop, op_nop, op_fault,
}
use hostpimsim_gecon.Pipeline.Decode.Raw.{RawDecoded48}
use hostpimsim_gecon.Pipeline.Execute.Registers.{Step, Step, Step}
use hostpimsim_gecon.Pipeline.Execute.Threads.{run_boot}
use hostpimsim_gecon.Pipeline.Execute.Hot.{run_hot, handle_hot}
use hostpimsim_gecon.Pipeline.Execute.Apart.{Apart}
use hostpimsim_gecon.Pipeline.Execute.Writes.{take_cond_branch-Apart, stop-Apart}
use hostpimsim_gecon.Pipeline.Execute.Handlers.{
  run_or-Apart, run_add-Apart, run_addc-Apart, run_and-Apart, run_sub-Apart, run_subc-Apart,
  run_mul_step-Apart, run_div_step-Apart, run_shift-Apart, run_movd-Apart, run_clz-Apart,
  run_mul-Apart, run_lsl_add-Apart, run_lsl_sub-Apart, run_lsr_add-Apart, run_lbu-Apart,
  run_lbs-Apart, run_lw-Apart, run_ld-Apart, run_sw-Apart, run_sb-Apart, run_sh-Apart, run_sd-Apart,
  run_time-Apart, run_dma-Apart, run_call-Apart, run_time_cfg-Apart, run_acquire-Apart,
  run_resume-Apart, conclude_after,
}
use hostpimsim_gecon.Pipeline.Execute.Boot.{start-Apart, booted}

abbrev pub After : ℕ → Core → Option Step → Type 0
After t c none = Unit {0}
After t c (some s) = Apart t c s

pub run_hot-After :
    (op : HotOp) (t : ℕ) (d : RawDecoded48) (s : Step)
    → s.next_pc % 8 ≡ 0
    → After t s.core (run_hot op t d s)
unfolding run_hot run_boot
run_hot-After op_none t d s a = tt
run_hot-After op_acquire t d s a = run_acquire-Apart d (start-Apart t s a)
run_hot-After op_release t d s a = run_acquire-Apart d (start-Apart t s a)
run_hot-After op_or t d s a = run_or-Apart d (start-Apart t s a)
run_hot-After op_or_s t d s a = run_or-Apart d (start-Apart t s a)
run_hot-After op_or_u t d s a = run_or-Apart d (start-Apart t s a)
run_hot-After op_add t d s a = run_add-Apart d (start-Apart t s a)
run_hot-After op_addc t d s a = run_addc-Apart d (start-Apart t s a)
run_hot-After op_and t d s a = run_and-Apart d (start-Apart t s a)
run_hot-After op_and_s t d s a = run_and-Apart d (start-Apart t s a)
run_hot-After op_and_u t d s a = run_and-Apart d (start-Apart t s a)
run_hot-After op_sub t d s a = run_sub-Apart d (start-Apart t s a)
run_hot-After op_subc t d s a = run_subc-Apart d (start-Apart t s a)
run_hot-After op_mul_step t d s a = run_mul_step-Apart d (start-Apart t s a)
run_hot-After op_div_step t d s a = run_div_step-Apart d (start-Apart t s a)
run_hot-After op_resume t d s a = run_resume-Apart d (start-Apart t s a)
run_hot-After op_boot t d s a = conclude_after d _ (booted t s a _)
run_hot-After op_call t d s a = run_call-Apart d (start-Apart t s a) _
run_hot-After op_ldma t d s a = run_dma-Apart d (start-Apart t s a)
run_hot-After op_sdma t d s a = run_dma-Apart d (start-Apart t s a)
run_hot-After op_lsl t d s a = run_shift-Apart d (start-Apart t s a)
run_hot-After op_lsl_s t d s a = run_shift-Apart d (start-Apart t s a)
run_hot-After op_lsl_u t d s a = run_shift-Apart d (start-Apart t s a)
run_hot-After op_lslx t d s a = run_shift-Apart d (start-Apart t s a)
run_hot-After op_lslx_s t d s a = run_shift-Apart d (start-Apart t s a)
run_hot-After op_lslx_u t d s a = run_shift-Apart d (start-Apart t s a)
run_hot-After op_lsr t d s a = run_shift-Apart d (start-Apart t s a)
run_hot-After op_lsr_s t d s a = run_shift-Apart d (start-Apart t s a)
run_hot-After op_lsr_u t d s a = run_shift-Apart d (start-Apart t s a)
run_hot-After op_lsrx t d s a = run_shift-Apart d (start-Apart t s a)
run_hot-After op_lsrx_s t d s a = run_shift-Apart d (start-Apart t s a)
run_hot-After op_lsrx_u t d s a = run_shift-Apart d (start-Apart t s a)
run_hot-After op_movd t d s a = run_movd-Apart d (start-Apart t s a)
run_hot-After op_swapd t d s a = run_movd-Apart d (start-Apart t s a)
run_hot-After op_clz t d s a = run_clz-Apart d (start-Apart t s a)
run_hot-After op_clo t d s a = run_clz-Apart d (start-Apart t s a)
run_hot-After op_mul_ul_ul t d s a = run_mul-Apart d (start-Apart t s a)
run_hot-After op_mul_ul_uh t d s a = run_mul-Apart d (start-Apart t s a)
run_hot-After op_mul_uh_ul t d s a = run_mul-Apart d (start-Apart t s a)
run_hot-After op_mul_uh_uh t d s a = run_mul-Apart d (start-Apart t s a)
run_hot-After op_lsl_add t d s a = run_lsl_add-Apart d (start-Apart t s a)
run_hot-After op_lsl_add_s t d s a = run_lsl_add-Apart d (start-Apart t s a)
run_hot-After op_lsl_add_u t d s a = run_lsl_add-Apart d (start-Apart t s a)
run_hot-After op_lsl_sub t d s a = run_lsl_sub-Apart d (start-Apart t s a)
run_hot-After op_lsl_sub_s t d s a = run_lsl_sub-Apart d (start-Apart t s a)
run_hot-After op_lsl_sub_u t d s a = run_lsl_sub-Apart d (start-Apart t s a)
run_hot-After op_lsr_add t d s a = run_lsr_add-Apart d (start-Apart t s a)
run_hot-After op_lsr_add_s t d s a = run_lsr_add-Apart d (start-Apart t s a)
run_hot-After op_lsr_add_u t d s a = run_lsr_add-Apart d (start-Apart t s a)
run_hot-After op_lbu t d s a = run_lbu-Apart d (start-Apart t s a)
run_hot-After op_lbs t d s a = run_lbs-Apart d (start-Apart t s a)
run_hot-After op_lw t d s a = run_lw-Apart d (start-Apart t s a)
run_hot-After op_lw_s t d s a = run_lw-Apart d (start-Apart t s a)
run_hot-After op_ld t d s a = run_ld-Apart d (start-Apart t s a)
run_hot-After op_sw t d s a = run_sw-Apart d (start-Apart t s a)
run_hot-After op_sb t d s a = run_sb-Apart d (start-Apart t s a)
run_hot-After op_sh t d s a = run_sh-Apart d (start-Apart t s a)
run_hot-After op_sd t d s a = run_sd-Apart d (start-Apart t s a)
run_hot-After op_time t d s a = run_time-Apart d (start-Apart t s a)
run_hot-After op_time_cfg t d s a = run_time_cfg-Apart d (start-Apart t s a)
run_hot-After op_stop t d s a = stop-Apart (take_cond_branch-Apart (start-Apart t s a) d 1)
run_hot-After op_nop t d s a = start-Apart t s a
run_hot-After op_fault t d s a = stop-Apart (start-Apart t s a)

pub handle_hot-After :
    (t : ℕ) (d : RawDecoded48) (s : Step) → s.next_pc % 8 ≡ 0 → After t s.core (handle_hot t d s)
unfolding handle_hot
handle_hot-After t d s a = supported_after d.hot.hot_supported _ (run_hot-After d.hot_op t d s a)
  where
    supported_after :
        (b : Bool) (o : Option Step) → After t s.core o → After t s.core (if b then o else none)
    supported_after true o h = h
    supported_after false o h = tt
