-- ===== src/Pipeline/Execute/Machine.antt =====
-- The instructions of a DPU under its control function.
use hostpimsim_gecon.Base.{
  inl, inr, subst, ℕ_discrete, ◌==◌, ◌||◌, ◌+◌, if◌then◌else◌, ◌≡◌, ◌%◌, ℕ, zero, suc, Bool, true,
  false, not, Option, none, some, arith, sym, update, min,
}
use hostpimsim_gecon.Dpu.Config.{num_tasklets}
use hostpimsim_gecon.Dpu.State.{Pipeline, Core, Dpu, set_last_control_result}
use hostpimsim_gecon.Dpu.Control.{
  clear_tasklet, is_skipped, turn, sweep, run_rounds, read_run_state, reset_registers,
  apply_thread_command, control_thread, control, is_run_state_read_command, progress_budget,
}
use hostpimsim_gecon.Ci.Thread.{
  ThreadCmdKind, boot, resume, clear_run, read_run, decode_thread_command,
}
use hostpimsim_gecon.Dpu.Mram.{is_some}
use hostpimsim_gecon.Pipeline.Execute.Once.{execute_once}
use hostpimsim_gecon.Pipeline.Execute.Apart.{Other}
use hostpimsim_gecon.Pipeline.Execute.Isolation.{execute_once-Isolated}

-- Every tasklet's `pc` is at a slot.
abbrev pub IsAligned : Core → Type 0
IsAligned c = (u : ℕ) → c.pipeline.register_file.pc_regs u % 8 ≡ 0

Other-IsAligned :
    (u : ℕ) (c c' : Core) → Other u c c' → IsAligned c → c'.pipeline.register_file.pc_regs u % 8 ≡ 0
Other-IsAligned u c c' (inl k) a = omega (arith, k.pc_regs, a u)
Other-IsAligned u c c' (inr b) a = omega (arith, b.pc_regs)

pub execute_once-IsAligned : (t : ℕ) (c : Core) → IsAligned c → IsAligned (execute_once t c).1
execute_once-IsAligned t c a u =
    let isolated = execute_once-Isolated t c (a t) in
    elim (ℕ_discrete u t) [
      | yes e ↦
          subst (λ (v : ℕ). (execute_once t c).1.pipeline.register_file.pc_regs v % 8 ≡ 0) (sym e)
            isolated.aligned
      | no ne ↦ Other-IsAligned u c (execute_once t c).1 (isolated.others u ne) a
    ]

turn-IsAligned : (t : ℕ) (c : Core) → IsAligned c → IsAligned (turn execute_once t c)
unfolding turn clear_tasklet
turn-IsAligned t c a =
    let r = execute_once t c in
    let next : IsAligned r.1 = execute_once-IsAligned t c a in
    chosen (is_skipped t c.pipeline) r.0 c r.1 _ a next next
  where
    chosen :
        (b e : Bool) (x y z : Core)
        → IsAligned x
        → IsAligned y
        → IsAligned z
        → IsAligned (if b then x else if e then y else z)
    chosen true e x y z hx hy hz = hx
    chosen false true x y z hx hy hz = hy
    chosen false false x y z hx hy hz = hz

sweep-IsAligned : (left t : ℕ) (c : Core) → IsAligned c → IsAligned (sweep execute_once left t c)
unfolding sweep
sweep-IsAligned zero t c a = a
sweep-IsAligned (suc left) t c a =
    sweep-IsAligned left (t + 1) (turn execute_once t c) (turn-IsAligned t c a)

run_rounds-IsAligned :
    (budget : ℕ) (c : Core) → IsAligned c → IsAligned (run_rounds execute_once budget c)
unfolding run_rounds
run_rounds-IsAligned zero c a = a
run_rounds-IsAligned (suc budget) c a =
    stopped (c.pipeline.run_bits == 0) (run_rounds-IsAligned budget _ (sweep-IsAligned _ 0 c a))
  where
    stopped :
        (b : Bool)
        → IsAligned (
            run_rounds execute_once budget (sweep execute_once (min num_tasklets num_tasklets) 0 c))
        → IsAligned (elim b [
          | true ↦ c
          | false ↦
              run_rounds execute_once budget
                (sweep execute_once (min num_tasklets num_tasklets) 0 c)
        ])
    stopped true h = a
    stopped false h = h

either_dpu :
    (b : Bool) (x y : Dpu)
    → IsAligned x.core
    → IsAligned y.core
    → IsAligned (if◌then◌else◌ {A = Dpu} b x y).core
either_dpu true x y hx hy = hx
either_dpu false x y hx hy = hy

polled-IsAligned : (d : Dpu) → IsAligned d.core → IsAligned (read_run_state execute_once d).core
unfolding read_run_state set_last_control_result
polled-IsAligned d a =
    let ran = run_rounds-IsAligned progress_budget d.core a in
    either_dpu (not (is_some d.core.mram.addr) || (d.core.mram.size == 0)) _ _ a ran

reset-IsAligned :
    (k : ThreadCmdKind) (t : ℕ) (p : Pipeline)
    → ((u : ℕ) → p.register_file.pc_regs u % 8 ≡ 0)
    → (u : ℕ) → (apply_thread_command k t p).register_file.pc_regs u % 8 ≡ 0
unfolding apply_thread_command reset_registers update
reset-IsAligned boot t p a u = ground (arith, a u)
reset-IsAligned resume t p a u = a u
reset-IsAligned clear_run t p a u = a u
reset-IsAligned read_run t p a u = a u

commanded-IsAligned :
    (o : Option (ThreadCmdKind × ℕ)) (d : Dpu)
    → IsAligned d.core
    → IsAligned (
        let r : Dpu = elim o [
          | none ↦ set_last_control_result d 0
          | some (kind, t) ↦ control_thread kind t d
        ] in
        r.core)
unfolding set_last_control_result control_thread
commanded-IsAligned none d a = a
commanded-IsAligned (some (k, t)) d a = reset-IsAligned k t d.core.pipeline a

-- A command to a DPU whose tasklets' `pc`s are all at slots leaves them so: a poll of the run state, which executes
-- instructions until every tasklet has stopped or the budget is used, a command to a tasklet, or any other word.
pub control-IsAligned :
    (ci_cmd : ℕ) (d : Dpu) → IsAligned d.core → IsAligned (control execute_once ci_cmd d).core
unfolding control
control-IsAligned ci_cmd d a =
    either_dpu (is_run_state_read_command ci_cmd) _ _ (polled-IsAligned d a)
      (commanded-IsAligned (decode_thread_command ci_cmd) d a)
