-- ===== src/Pipeline/Execute/Known.antt =====
-- An instruction of the opcode map leaves the registers of the other tasklets.
use hostpimsim_gecon.Base.{◌≡◌, ◌%◌, ℕ, Option, none, some, arith, refl}
use hostpimsim_gecon.Dpu.State.{Core}
use hostpimsim_gecon.Pipeline.Execute.Registers.{Step, Step, Step}
use hostpimsim_gecon.Pipeline.Execute.Threads.{
  with_pipeline, acquire_bit, release_bit, resume_thread,
}
use hostpimsim_gecon.Pipeline.Execute.Opcodes.{
  DpuOpcode, opcode_acquire, opcode_release, opcode_add, opcode_addc, opcode_div_step,
  opcode_lsl_sub, opcode_lsl1, opcode_lsl1x, opcode_lsr1, opcode_lsr1x, opcode_mul_step,
  opcode_rsub, opcode_rsubc, opcode_sub, opcode_subc, opcode_boot, opcode_resume, opcode_stop,
  opcode_call, opcode_fault, opcode_movd, opcode_swapd, opcode_time, opcode_time_cfg, opcode_lbs,
  opcode_lbu, opcode_ld, opcode_lhs, opcode_lhu, opcode_lw, opcode_sb, opcode_sb_id, opcode_sd,
  opcode_sd_id, opcode_sh, opcode_sh_id, opcode_sw, opcode_sw_id, opcode_ldma, opcode_ldmai,
  opcode_sdma, all_opcodes, opcode_at, Word,
}
use hostpimsim_gecon.Pipeline.Execute.Values.{value_of}
use hostpimsim_gecon.Pipeline.Execute.Plain.{put_result}
use hostpimsim_gecon.Pipeline.Execute.Once.{run_effect, run_opcode}
use hostpimsim_gecon.Pipeline.Execute.Apart.{Apart, with_pipeline-Apart}
use hostpimsim_gecon.Pipeline.Execute.Writes.{stop-Apart}
use hostpimsim_gecon.Pipeline.Execute.Effects.{
  put_result-Apart, put_carried-Apart, store_narrow-Apart, store_half-Apart, store_word-Apart,
  store_double-Apart, load_double-Apart, move_double-Apart, swap_double-Apart, call-Apart,
  copy_to_wram-Apart, copy_to_mram-Apart, configure_time-Apart, put_threads-Apart,
}
use hostpimsim_gecon.Pipeline.Execute.Boot.{start-Apart, booted_plain}

resumed_plain :
    {t : ℕ} {c : Core} {s : Step}
    → Apart t c s
    → (i : ℕ) → Apart t c (with_pipeline (resume_thread i s.core.pipeline).1 s)
unfolding resume_thread
resumed_plain h i = with_pipeline-Apart h _ (ground arith)

run_effect-Apart :
    (op : DpuOpcode) (t : ℕ) (f : Word) (s : Step)
    → s.next_pc % 8 ≡ 0
    → Apart t s.core (run_effect op t f s)
unfolding run_effect acquire_bit release_bit
run_effect-Apart opcode_acquire t f s a =
    put_threads-Apart s f _ (with_pipeline-Apart (start-Apart t s a) _ refl)
run_effect-Apart opcode_release t f s a =
    put_threads-Apart s f _ (with_pipeline-Apart (start-Apart t s a) _ refl)
run_effect-Apart opcode_add t f s a = put_carried-Apart f (start-Apart t s a) _ _
run_effect-Apart opcode_addc t f s a = put_carried-Apart f (start-Apart t s a) _ _
run_effect-Apart opcode_div_step t f s a = put_carried-Apart f (start-Apart t s a) _ _
run_effect-Apart opcode_lsl_sub t f s a = put_carried-Apart f (start-Apart t s a) _ _
run_effect-Apart opcode_lsl1 t f s a = put_carried-Apart f (start-Apart t s a) _ _
run_effect-Apart opcode_lsl1x t f s a = put_carried-Apart f (start-Apart t s a) _ _
run_effect-Apart opcode_lsr1 t f s a = put_carried-Apart f (start-Apart t s a) _ _
run_effect-Apart opcode_lsr1x t f s a = put_carried-Apart f (start-Apart t s a) _ _
run_effect-Apart opcode_mul_step t f s a = put_carried-Apart f (start-Apart t s a) _ _
run_effect-Apart opcode_rsub t f s a = put_carried-Apart f (start-Apart t s a) _ _
run_effect-Apart opcode_rsubc t f s a = put_carried-Apart f (start-Apart t s a) _ _
run_effect-Apart opcode_sub t f s a = put_carried-Apart f (start-Apart t s a) _ _
run_effect-Apart opcode_subc t f s a = put_carried-Apart f (start-Apart t s a) _ _
run_effect-Apart opcode_boot t f s a = put_threads-Apart s f _ (booted_plain t s a _)
run_effect-Apart opcode_resume t f s a =
    put_threads-Apart s f _ (resumed_plain (start-Apart t s a) _)
run_effect-Apart opcode_stop t f s a = stop-Apart (start-Apart t s a)
run_effect-Apart opcode_call t f s a = call-Apart f (start-Apart t s a)
run_effect-Apart opcode_fault t f s a = stop-Apart (start-Apart t s a)
run_effect-Apart opcode_movd t f s a = move_double-Apart f (start-Apart t s a)
run_effect-Apart opcode_swapd t f s a = swap_double-Apart f (start-Apart t s a)
run_effect-Apart opcode_time t f s a = put_result-Apart f (start-Apart t s a) _
run_effect-Apart opcode_time_cfg t f s a = configure_time-Apart f (start-Apart t s a)
run_effect-Apart opcode_lbs t f s a = put_result-Apart f (start-Apart t s a) _
run_effect-Apart opcode_lbu t f s a = put_result-Apart f (start-Apart t s a) _
run_effect-Apart opcode_ld t f s a = load_double-Apart f (start-Apart t s a)
run_effect-Apart opcode_lhs t f s a = put_result-Apart f (start-Apart t s a) _
run_effect-Apart opcode_lhu t f s a = put_result-Apart f (start-Apart t s a) _
run_effect-Apart opcode_lw t f s a = put_result-Apart f (start-Apart t s a) _
run_effect-Apart opcode_sb t f s a = store_narrow-Apart f (start-Apart t s a) _
run_effect-Apart opcode_sb_id t f s a = store_narrow-Apart f (start-Apart t s a) _
run_effect-Apart opcode_sd t f s a = store_double-Apart f (start-Apart t s a) _
run_effect-Apart opcode_sd_id t f s a = store_double-Apart f (start-Apart t s a) _
run_effect-Apart opcode_sh t f s a = store_half-Apart f (start-Apart t s a) _
run_effect-Apart opcode_sh_id t f s a = store_half-Apart f (start-Apart t s a) _
run_effect-Apart opcode_sw t f s a = store_word-Apart f (start-Apart t s a) _
run_effect-Apart opcode_sw_id t f s a = store_word-Apart f (start-Apart t s a) _
run_effect-Apart opcode_ldma t f s a = copy_to_wram-Apart f (start-Apart t s a)
run_effect-Apart opcode_ldmai t f s a = copy_to_wram-Apart f (start-Apart t s a)
run_effect-Apart opcode_sdma t f s a = copy_to_mram-Apart f (start-Apart t s a)
run_effect-Apart _ t f s a = start-Apart t s a

valued_after :
    (op : DpuOpcode) (t : ℕ) (f : Word) (s : Step) (v : Option ℕ)
    → s.next_pc % 8 ≡ 0
    → Apart t s.core (elim v [ none ↦ run_effect op t f s | some x ↦ put_result t f x s ])
valued_after op t f s none a = run_effect-Apart op t f s a
valued_after op t f s (some x) a = put_result-Apart f (start-Apart t s a) x

known_after :
    (o : Option DpuOpcode) (t : ℕ) (f : Word) (s : Step)
    → s.next_pc % 8 ≡ 0
    → Apart t s.core (elim o [
      | none ↦ s
      | some op ↦ elim (value_of op f) [ none ↦ run_effect op t f s | some x ↦ put_result t f x s ]
    ])
known_after none t f s a = start-Apart t s a
known_after (some op) t f s a = valued_after op t f s (value_of op f) a

pub run_opcode-Apart :
    (opcode t : ℕ) (f : Word) (s : Step)
    → s.next_pc % 8 ≡ 0
    → Apart t s.core (run_opcode opcode t f s)
unfolding run_opcode
run_opcode-Apart opcode t f s a = known_after (opcode_at all_opcodes opcode) t f s a
