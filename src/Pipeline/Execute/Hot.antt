-- ===== src/Pipeline/Execute/Hot.antt =====
-- The instructions that `Pipeline::execute_once` handles by their decoded operation.
use hostpimsim_gecon.Base.{◌^◌, if◌then◌else◌, ℕ, Bool, false, Option, none, some, update}
use hostpimsim_gecon.Dpu.State.{Core}
use hostpimsim_gecon.Pipeline.Kinds.{
  HotOp, op_none, op_acquire, op_release, op_or, op_or_s, op_or_u, op_add, op_addc, op_and,
  op_and_s, op_and_u, op_sub, op_subc, op_mul_step, op_div_step, op_resume, op_boot, op_call,
  op_ldma, op_sdma, op_lsl, op_lsl_s, op_lsl_u, op_lslx, op_lslx_s, op_lslx_u, op_lsr, op_lsr_s,
  op_lsr_u, op_lsrx, op_lsrx_s, op_lsrx_u, op_movd, op_swapd, op_clz, op_clo, op_mul_ul_ul,
  op_mul_ul_uh, op_mul_uh_ul, op_mul_uh_uh, op_lsl_add, op_lsl_add_s, op_lsl_add_u, op_lsl_sub,
  op_lsl_sub_s, op_lsl_sub_u, op_lsr_add, op_lsr_add_s, op_lsr_add_u, op_lbu, op_lbs, op_lw,
  op_lw_s, op_ld, op_sw, op_sb, op_sh, op_sd, op_time, op_time_cfg, op_stop, op_nop, op_fault,
}
use hostpimsim_gecon.Pipeline.Perf.{perf_counter_retire_step}
use hostpimsim_gecon.Pipeline.Decode.Raw.{RawDecoded48}
use hostpimsim_gecon.Dpu.Control.{clear_tasklet}
use hostpimsim_gecon.Pipeline.Execute.Registers.{registers, Step, Step}
use hostpimsim_gecon.Pipeline.Execute.Inputs.{take_cond_branch}
use hostpimsim_gecon.Pipeline.Execute.Arithmetic.{
  run_or, run_add, run_addc, run_and, run_sub, run_subc, run_mul_step, run_div_step,
}
use hostpimsim_gecon.Pipeline.Execute.Shifts.{
  run_shift, run_movd, run_clz, run_mul, run_lsl_add, run_lsl_sub, run_lsr_add,
}
use hostpimsim_gecon.Pipeline.Execute.Threads.{run_acquire, run_resume, run_boot, run_call}
use hostpimsim_gecon.Pipeline.Execute.Memory.{
  stop, run_dma, run_lbu, run_lbs, run_lw, run_ld, run_sw, run_sb, run_sh, run_sd, run_time,
  run_time_cfg,
}

-- The switch on the operation, for the tasklet `t`; `none` where no case handles it.
unfoldable pub run_hot : HotOp → ℕ → RawDecoded48 → Step → Option Step
run_hot op_none t d s = none
run_hot op_acquire t d s = some (run_acquire t d s)
run_hot op_release t d s = some (run_acquire t d s)
run_hot op_or t d s = some (run_or t d s)
run_hot op_or_s t d s = some (run_or t d s)
run_hot op_or_u t d s = some (run_or t d s)
run_hot op_add t d s = some (run_add t d s)
run_hot op_addc t d s = some (run_addc t d s)
run_hot op_and t d s = some (run_and t d s)
run_hot op_and_s t d s = some (run_and t d s)
run_hot op_and_u t d s = some (run_and t d s)
run_hot op_sub t d s = some (run_sub t d s)
run_hot op_subc t d s = some (run_subc t d s)
run_hot op_mul_step t d s = some (run_mul_step t d s)
run_hot op_div_step t d s = some (run_div_step t d s)
run_hot op_resume t d s = some (run_resume t d s)
run_hot op_boot t d s = some (run_boot t d s)
run_hot op_call t d s = some (run_call t d (s.core.pipeline.register_file.pc_regs t) s)
run_hot op_ldma t d s = some (run_dma t d s)
run_hot op_sdma t d s = some (run_dma t d s)
run_hot op_lsl t d s = some (run_shift t d s)
run_hot op_lsl_s t d s = some (run_shift t d s)
run_hot op_lsl_u t d s = some (run_shift t d s)
run_hot op_lslx t d s = some (run_shift t d s)
run_hot op_lslx_s t d s = some (run_shift t d s)
run_hot op_lslx_u t d s = some (run_shift t d s)
run_hot op_lsr t d s = some (run_shift t d s)
run_hot op_lsr_s t d s = some (run_shift t d s)
run_hot op_lsr_u t d s = some (run_shift t d s)
run_hot op_lsrx t d s = some (run_shift t d s)
run_hot op_lsrx_s t d s = some (run_shift t d s)
run_hot op_lsrx_u t d s = some (run_shift t d s)
run_hot op_movd t d s = some (run_movd t d s)
run_hot op_swapd t d s = some (run_movd t d s)
run_hot op_clz t d s = some (run_clz t d s)
run_hot op_clo t d s = some (run_clz t d s)
run_hot op_mul_ul_ul t d s = some (run_mul t d s)
run_hot op_mul_ul_uh t d s = some (run_mul t d s)
run_hot op_mul_uh_ul t d s = some (run_mul t d s)
run_hot op_mul_uh_uh t d s = some (run_mul t d s)
run_hot op_lsl_add t d s = some (run_lsl_add t d s)
run_hot op_lsl_add_s t d s = some (run_lsl_add t d s)
run_hot op_lsl_add_u t d s = some (run_lsl_add t d s)
run_hot op_lsl_sub t d s = some (run_lsl_sub t d s)
run_hot op_lsl_sub_s t d s = some (run_lsl_sub t d s)
run_hot op_lsl_sub_u t d s = some (run_lsl_sub t d s)
run_hot op_lsr_add t d s = some (run_lsr_add t d s)
run_hot op_lsr_add_s t d s = some (run_lsr_add t d s)
run_hot op_lsr_add_u t d s = some (run_lsr_add t d s)
run_hot op_lbu t d s = some (run_lbu t d s)
run_hot op_lbs t d s = some (run_lbs t d s)
run_hot op_lw t d s = some (run_lw t d s)
run_hot op_lw_s t d s = some (run_lw t d s)
run_hot op_ld t d s = some (run_ld t d s)
run_hot op_sw t d s = some (run_sw t d s)
run_hot op_sb t d s = some (run_sb t d s)
run_hot op_sh t d s = some (run_sh t d s)
run_hot op_sd t d s = some (run_sd t d s)
run_hot op_time t d s = some (run_time t d s)
run_hot op_time_cfg t d s = some (run_time_cfg t d s)
run_hot op_stop t d s = some (stop (take_cond_branch t d 1 s))
run_hot op_nop t d s = some s
run_hot op_fault t d s = some (stop s)

-- The case of a word that is decoded: what the instruction does, or `none` for a word that is left to the switch on
-- the opcode.
unfoldable pub handle_hot : ℕ → RawDecoded48 → Step → Option Step
handle_hot t d s = if d.hot.hot_supported then run_hot d.hot_op t d s else none

-- The end of an instruction that is handled.
unfoldable pub retire_hot : ℕ → Step → Bool × Core
retire_hot t s =
    let r = registers s in
    let p = s.core.pipeline in
    let moved = record r { pc_regs = update r.pc_regs t s.next_pc } in
    let stopped = if s.keep_running then p else clear_tasklet (2 ^ t) p in
    (
      s.keep_running,
      record (s.core) {
        pipeline = record stopped { register_file = perf_counter_retire_step false moved };
      },
    )
