-- ===== src/Pipeline/Execute/Isolation.antt =====
-- One instruction of a tasklet and the registers of the others.
use hostpimsim_gecon.Base.{
  ◌≢◌, ◌∙◌, inl, ◌!=◌, ◌/◌, ◌^◌, if◌then◌else◌, ◌≡◌, ◌%◌, ℕ, Bool, true, false, not, leb, bit_and,
  Option, none, some, arith, refl, update, min,
}
use hostpimsim_gecon.Dpu.Config.{num_tasklets}
use hostpimsim_gecon.Dpu.State.{RegisterFile, Pipeline, Core}
use hostpimsim_gecon.Pipeline.Perf.{perf_counter_retire_step}
use hostpimsim_gecon.Pipeline.Decode.Raw.{RawDecoded48}
use hostpimsim_gecon.Dpu.Control.{not64, clear_tasklet, is_skipped}
use hostpimsim_gecon.Dpu.Iram.{read_word}
use hostpimsim_gecon.Pipeline.Execute.Registers.{registers, Step, Step, Step, registers}
use hostpimsim_gecon.Pipeline.Execute.Hot.{retire_hot}
use hostpimsim_gecon.Pipeline.Execute.Once.{
  retire_plain, decoded_of, hot_step, retire, fetched, execute_word, has_instruction, execute_once,
}
use hostpimsim_gecon.Pipeline.Execute.Apart.{Same, Other, Apart, Same-then, update-other}
use hostpimsim_gecon.Pipeline.Execute.Handled.{After, handle_hot-After}
use hostpimsim_gecon.Pipeline.Execute.Known.{run_opcode-Apart}

-- The core after an instruction of the tasklet `t`: the registers of any other are the same, unless it was started, and
-- the tasklet's `pc` is at a slot.
pub record Isolated (t : ℕ) (c c' : Core) : Type 0 where
  pub others : (u : ℕ) → u ≢ t → Other u c c'
  pub aligned : c'.pipeline.register_file.pc_regs t % 8 ≡ 0

perf-Same : (u : ℕ) (b : Bool) (r : RegisterFile) → Same u r (perf_counter_retire_step b r)
unfolding perf_counter_retire_step
perf-Same u b r = record {
  gp_regs = ground arith;
  pc_regs = ground arith;
  zf_regs = ground arith;
  cf_regs = ground arith;
}

moved-Same :
    (t u pc : ℕ) (r : RegisterFile)
    → u ≢ t
    → Same u r (record r { pc_regs = update r.pc_regs t pc })
moved-Same t u pc r ne = record {
  gp_regs = refl;
  pc_regs = update-other r.pc_regs t u pc ne;
  zf_regs = refl;
  cf_regs = refl;
}

-- The end of an instruction, whatever becomes of the bits of the tasklets.
retired :
    {t : ℕ} {c : Core} {s : Step} (b : Bool) (p : Pipeline)
    → Apart t c s
    → let r = registers s in
      let moved = record r { pc_regs = update r.pc_regs t s.next_pc } in
      Isolated t c (record (s.core) {
        pipeline = record p { register_file = perf_counter_retire_step b moved };
      })
unfolding update
retired {t} {c} {s} b p h =
    let r = registers s in
    let moved = record r { pc_regs = update r.pc_regs t s.next_pc } in
    let pc : (perf_counter_retire_step b moved).pc_regs t ≡ s.next_pc =
      (perf-Same t b moved).pc_regs ∙ ground arith in
    record {
      others = λ u ne.
          Same-then u (perf-Same u b moved)
            (Same-then u (moved-Same t u s.next_pc r ne) (h.others u ne));
      aligned = omega (arith, h.aligned, pc);
    }

module _ (t : ℕ) (c : Core) (aligned : c.pipeline.register_file.pc_regs t % 8 ≡ 0) where
  idle-Isolated : Isolated t c c
  idle-Isolated = record {
    others =
        λ u ne. inl (record { gp_regs = refl; pc_regs = refl; zf_regs = refl; cf_regs = refl });
    aligned = aligned;
  }

  hot_step-After : (o : Option RawDecoded48) → After t c (hot_step t o (fetched t c))
  unfolding hot_step
  hot_step-After none = tt
  hot_step-After (some d) = valid_after d.valid _ (handle_hot-After t d (fetched t c) (omega arith))
    where
      valid_after : (b : Bool) (o : Option Step) → After t c o → After t c (if b then o else none)
      valid_after true o h = h
      valid_after false o h = tt

  retire-Isolated :
      (plain : Bool × Core) (o : Option Step)
      → Isolated t c plain.1
      → After t c o
      → Isolated t c (retire t plain o).1
  unfolding retire retire_hot
  retire-Isolated plain none k h = k
  retire-Isolated plain (some s) k h =
      retired false
        (if s.keep_running then s.core.pipeline else clear_tasklet (2 ^ t) s.core.pipeline) h

  plain-Isolated : (s : Step) → Apart t c s → Isolated t c (retire_plain t s).1
  unfolding retire_plain
  plain-Isolated s h =
      retired (bit_and s.core.pipeline.replay_bits (2 ^ t) != 0)
        (record (s.core.pipeline) {
          replay_bits = bit_and s.core.pipeline.replay_bits (not64 (2 ^ t));
        })
        h

  execute_word-Isolated : (inst48 : ℕ) → Isolated t c (execute_word inst48 t c).1
  unfolding execute_word
  execute_word-Isolated inst48 =
      retire-Isolated _ _ (plain-Isolated _ (run_opcode-Apart _ t _ (fetched t c) (omega arith)))
        (hot_step-After (decoded_of inst48))

  guarded :
      (a b e : Bool) (r : Bool × Core)
      → Isolated t c r.1
      → let stay : Bool × Core = (false, c) in
        let result : Bool × Core = if a then stay else if b then stay else if e then stay else r in
        Isolated t c result.1
  guarded true b e r h = idle-Isolated
  guarded false true e r h = idle-Isolated
  guarded false false true r h = idle-Isolated
  guarded false false false r h = h

  pub execute_once-Isolated : Isolated t c (execute_once t c).1
  unfolding execute_once
  execute_once-Isolated =
      let inst48 = read_word c.iram (c.pipeline.register_file.pc_regs t / 8) in
      guarded (leb (min num_tasklets num_tasklets) t) (is_skipped t c.pipeline)
        (not (has_instruction t c)) (execute_word inst48 t c) (execute_word-Isolated inst48)

  -- An instruction of a tasklet whose `pc` is at a slot leaves the general registers, the `pc` and the flags of every
  -- other tasklet as they are, except of one that had stopped and was not asleep: its registers may be cleared
  -- instead.
  pub execute_once-Other : (u : ℕ) → u ≢ t → Other u c (execute_once t c).1
  execute_once-Other u ne = execute_once-Isolated.others u ne
