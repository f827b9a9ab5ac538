-- ===== src/Pipeline/Execute/Handlers.antt =====
-- The handlers of the operations leave the registers of the other tasklets.
use hostpimsim_gecon.Base.{if◌then◌else◌, ℕ, Bool, true, false, not, arith, refl}
use hostpimsim_gecon.Dpu.State.{Core}
use hostpimsim_gecon.Pipeline.Perf.{perf_counter_config}
use hostpimsim_gecon.Pipeline.Decode.Raw.{RawDecoded48}
use hostpimsim_gecon.Pipeline.Execute.Registers.{
  registers, with_registers, Step, Step, Step, registers, with_registers,
}
use hostpimsim_gecon.Pipeline.Execute.Arithmetic.{
  run_or, run_add, run_addc, run_and, run_sub, run_subc, run_mul_step, run_div_step,
}
use hostpimsim_gecon.Pipeline.Execute.Shifts.{
  run_shift, run_movd, run_clz, run_mul, run_lsl_add, run_lsl_sub, run_lsr_add,
}
use hostpimsim_gecon.Pipeline.Execute.Threads.{
  with_pipeline, acquire_bit, release_bit, resume_thread, conclude, run_acquire, run_resume,
  run_call,
}
use hostpimsim_gecon.Pipeline.Execute.Memory.{
  run_dma, run_lbu, run_lbs, run_lw, run_ld, run_sw, run_sb, run_sh, run_sd, run_time, run_time_cfg,
}
use hostpimsim_gecon.Pipeline.Execute.Apart.{
  Apart, either_step, with_registers-Apart, with_pipeline-Apart,
}
use hostpimsim_gecon.Pipeline.Execute.Writes.{write_rc-Apart, stepping}

pub configured-Apart :
    {t : ℕ} {c : Core} {s : Step}
    → Apart t c s
    → (v : ℕ) → Apart t c (with_registers (perf_counter_config v (registers s)).1 s)
unfolding perf_counter_config
configured-Apart h v =
    with_registers-Apart h _
      (λ u ne. record { gp_regs = refl; pc_regs = refl; zf_regs = refl; cf_regs = refl })

pub conclude_after :
    {t : ℕ} {c : Core} {s : Step} (d : RawDecoded48) (x : ℕ)
    → Apart t c s
    → Apart t c (conclude t d x s)
unfolding conclude
conclude_after d x h = search stepping

module _ {t : ℕ} {c : Core} {s : Step} (d : RawDecoded48) (h : Apart t c s) where
  pub run_or-Apart : Apart t c (run_or t d s)
  unfolding run_or
  run_or-Apart = search stepping depth 30 fits 3000

  pub run_add-Apart : Apart t c (run_add t d s)
  unfolding run_add
  run_add-Apart = search stepping depth 30 fits 3000

  pub run_addc-Apart : Apart t c (run_addc t d s)
  unfolding run_addc
  run_addc-Apart = search stepping depth 30 fits 3000

  pub run_and-Apart : Apart t c (run_and t d s)
  unfolding run_and
  run_and-Apart = search stepping depth 30 fits 3000

  pub run_sub-Apart : Apart t c (run_sub t d s)
  unfolding run_sub
  run_sub-Apart = search stepping depth 30 fits 3000

  pub run_subc-Apart : Apart t c (run_subc t d s)
  unfolding run_subc
  run_subc-Apart = search stepping depth 30 fits 3000

  pub run_mul_step-Apart : Apart t c (run_mul_step t d s)
  unfolding run_mul_step
  run_mul_step-Apart = search stepping depth 30 fits 3000

  pub run_div_step-Apart : Apart t c (run_div_step t d s)
  unfolding run_div_step
  run_div_step-Apart = search stepping depth 30 fits 3000

  pub run_shift-Apart : Apart t c (run_shift t d s)
  unfolding run_shift
  run_shift-Apart = search stepping depth 30 fits 3000

  pub run_movd-Apart : Apart t c (run_movd t d s)
  unfolding run_movd
  run_movd-Apart = search stepping depth 30 fits 3000

  pub run_clz-Apart : Apart t c (run_clz t d s)
  unfolding run_clz
  run_clz-Apart = search stepping depth 30 fits 3000

  pub run_mul-Apart : Apart t c (run_mul t d s)
  unfolding run_mul
  run_mul-Apart = search stepping depth 30 fits 3000

  pub run_lsl_add-Apart : Apart t c (run_lsl_add t d s)
  unfolding run_lsl_add
  run_lsl_add-Apart = search stepping depth 30 fits 3000

  pub run_lsl_sub-Apart : Apart t c (run_lsl_sub t d s)
  unfolding run_lsl_sub
  run_lsl_sub-Apart = search stepping depth 30 fits 3000

  pub run_lsr_add-Apart : Apart t c (run_lsr_add t d s)
  unfolding run_lsr_add
  run_lsr_add-Apart = search stepping depth 30 fits 3000

  pub conclude-Apart : (x : ℕ) → Apart t c (conclude t d x s)
  unfolding conclude
  conclude-Apart x = search stepping depth 30 fits 3000

  pub run_lbu-Apart : Apart t c (run_lbu t d s)
  unfolding run_lbu
  run_lbu-Apart = search stepping depth 30 fits 3000

  pub run_lbs-Apart : Apart t c (run_lbs t d s)
  unfolding run_lbs
  run_lbs-Apart = search stepping depth 30 fits 3000

  pub run_lw-Apart : Apart t c (run_lw t d s)
  unfolding run_lw
  run_lw-Apart = search stepping depth 30 fits 3000

  pub run_ld-Apart : Apart t c (run_ld t d s)
  unfolding run_ld
  run_ld-Apart = search stepping depth 30 fits 3000

  pub run_sw-Apart : Apart t c (run_sw t d s)
  unfolding run_sw
  run_sw-Apart = search stepping depth 30 fits 3000

  pub run_sb-Apart : Apart t c (run_sb t d s)
  unfolding run_sb
  run_sb-Apart = search stepping depth 30 fits 3000

  pub run_sh-Apart : Apart t c (run_sh t d s)
  unfolding run_sh
  run_sh-Apart = search stepping depth 30 fits 3000

  pub run_sd-Apart : Apart t c (run_sd t d s)
  unfolding run_sd
  run_sd-Apart = search stepping depth 30 fits 3000

  pub run_time-Apart : Apart t c (run_time t d s)
  unfolding run_time
  run_time-Apart = search stepping depth 30 fits 3000

  pub run_dma-Apart : Apart t c (run_dma t d s)
  unfolding run_dma
  run_dma-Apart =
      either_step (not d.hot.dma_to_mram) (record { others = h.others; aligned = h.aligned })
        (record { others = h.others; aligned = h.aligned })

  pub run_call-Apart : (pc : ℕ) → Apart t c (run_call t d pc s)
  unfolding run_call
  run_call-Apart pc = search stepping

  pub run_time_cfg-Apart : Apart t c (run_time_cfg t d s)
  unfolding run_time_cfg
  run_time_cfg-Apart = write_rc-Apart (configured-Apart h _) d _

  pub acquired :
      (b : Bool) (i : ℕ)
      → Apart t c (
          with_pipeline
            (if b then acquire_bit i s.core.pipeline else release_bit i s.core.pipeline).1
            s)
  unfolding acquire_bit release_bit
  acquired true i = with_pipeline-Apart h _ refl
  acquired false i = with_pipeline-Apart h _ refl

  pub run_acquire-Apart : Apart t c (run_acquire t d s)
  unfolding run_acquire
  run_acquire-Apart = conclude_after d _ (acquired (not d.hot.acquire_is_release) _)

  pub resumed : (i : ℕ) → Apart t c (with_pipeline (resume_thread i s.core.pipeline).1 s)
  unfolding resume_thread
  resumed i = with_pipeline-Apart h _ (ground arith)

  pub run_resume-Apart : Apart t c (run_resume t d s)
  unfolding run_resume
  run_resume-Apart = conclude_after d _ (resumed _)
