-- ===== src/Pipeline/Execute/Boot.antt =====
-- A start of a tasklet by an instruction clears the registers of that tasklet only.
use hostpimsim_gecon.Base.{
  ◌≢◌, ◌⊎◌, inl, inr, subst, ℕ_discrete, ◌^◌, if◌then◌else◌, ◌≡◌, ◌%◌, ℕ, Bool, true, false,
  bit_and, arith, refl, sym, update,
}
use hostpimsim_gecon.Dpu.State.{RegisterFile, Pipeline}
use hostpimsim_gecon.Pipeline.Execute.Registers.{Step, Step, Step}
use hostpimsim_gecon.Pipeline.Execute.Threads.{with_pipeline, clear_registers, boot_thread}
use hostpimsim_gecon.Pipeline.Execute.Plain.{boot_plain}
use hostpimsim_gecon.Pipeline.Execute.Apart.{Same, Booted, Apart, update-other}

-- The registers that a start of the tasklet `i` clears.
clear_registers-Same : (i u : ℕ) (r : RegisterFile) → u ≢ i → Same u r (clear_registers i r)
unfolding clear_registers
clear_registers-Same i u r ne = record {
  gp_regs = update-other r.gp_regs i u _ ne;
  pc_regs = update-other r.pc_regs i u _ ne;
  zf_regs = update-other r.zf_regs i u _ ne;
  cf_regs = update-other r.cf_regs i u _ ne;
}

clear_registers-Booted :
    (i : ℕ) (p : Pipeline)
    → (bit_and p.run_bits (2 ^ i) ≡ 0) × (bit_and p.sleep_bits (2 ^ i) ≡ 0)
    → Booted i p (clear_registers i p.register_file)
unfolding clear_registers update
clear_registers-Booted i p (stopped, awake) = record {
  stopped = stopped;
  awake = awake;
  gp_regs = ground arith;
  pc_regs = ground arith;
  zf_regs = ground arith;
  cf_regs = ground arith;
}

cleared :
    (i u : ℕ) (p : Pipeline)
    → (bit_and p.run_bits (2 ^ i) ≡ 0) × (bit_and p.sleep_bits (2 ^ i) ≡ 0)
    → Same u p.register_file (clear_registers i p.register_file)
      ⊎ Booted u p (clear_registers i p.register_file)
cleared i u p idle = elim (ℕ_discrete u i) [
  | yes e ↦ inr (
      subst (λ (j : ℕ). Booted j p (clear_registers i p.register_file)) (sym e)
        (clear_registers-Booted i p idle))
  | no ne ↦ inl (clear_registers-Same i u p.register_file ne)
]

unchanged : (u : ℕ) (r : RegisterFile) → Same u r r
unchanged u r = record { gp_regs = refl; pc_regs = refl; zf_regs = refl; cf_regs = refl }

module _ (t : ℕ) (s : Step) (aligned : s.next_pc % 8 ≡ 0) where
  pub start-Apart : Apart t s.core s
  start-Apart = record { others = λ u ne. inl (unchanged u _); aligned = aligned }

  boot_branch :
      (b : Bool) (i : ℕ) (p : Pipeline)
      → (b ≡ true
          → (bit_and s.core.pipeline.run_bits (2 ^ i) ≡ 0)
            × (bit_and s.core.pipeline.sleep_bits (2 ^ i) ≡ 0))
      → p.register_file ≡ clear_registers i s.core.pipeline.register_file
      → let r : ℕ × Pipeline = if b then (0, p) else (1, s.core.pipeline) in
        Apart t s.core (with_pipeline r.1 s)
  unfolding with_pipeline
  boot_branch true i p idle e = record {
    others = λ u ne.
        subst
          (λ (r : RegisterFile).
            Same u s.core.pipeline.register_file r ⊎ Booted u s.core.pipeline r)
          (sym e) (cleared i u s.core.pipeline (idle refl));
    aligned = aligned;
  }
  boot_branch false i p idle e = record { others = λ u ne. inl (unchanged u _); aligned = aligned }

  pub booted : (i : ℕ) → Apart t s.core (with_pipeline (boot_thread i s.core.pipeline).1 s)
  unfolding boot_thread with_pipeline
  booted i = boot_branch _ i _ (λ e. (ground arith, ground arith)) refl

  pub booted_plain : (i : ℕ) → Apart t s.core (with_pipeline (boot_plain i s.core.pipeline).1 s)
  unfolding boot_plain with_pipeline
  booted_plain i = boot_branch _ i _ (λ e. (ground arith, ground arith)) refl
