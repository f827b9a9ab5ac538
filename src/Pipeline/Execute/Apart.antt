-- ===== src/Pipeline/Execute/Apart.antt =====
-- What an instruction of one tasklet does to the registers of the others.
use hostpimsim_gecon.Base.{
  ℕ, ◌%◌, ◌^◌, ◌≡◌, ◌≢◌, ◌⊎◌, inl, inr, refl, ap, ◌∙◌, arith, Bool, true, false, if◌then◌else◌, ltb,
  bit_and, update,
}
use hostpimsim_gecon.Dpu.State.{RegisterFile, Pipeline, Core}
use hostpimsim_gecon.Pipeline.Execute.Registers.{
  Step, registers, with_registers, set_registers, write_reg, set_zf, set_cf, jump,
}
use hostpimsim_gecon.Pipeline.Execute.Threads.{with_pipeline}

-- The registers of the tasklet `u` are the same.
pub record Same (u : ℕ) (r r' : RegisterFile) : Type 0 where
  pub gp_regs : r'.gp_regs u ≡ r.gp_regs u
  pub pc_regs : r'.pc_regs u ≡ r.pc_regs u
  pub zf_regs : r'.zf_regs u ≡ r.zf_regs u
  pub cf_regs : r'.cf_regs u ≡ r.cf_regs u

-- The tasklet `u` had stopped and was not asleep; its registers are cleared.
pub record Booted (u : ℕ) (p : Pipeline) (r' : RegisterFile) : Type 0 where
  pub stopped : bit_and p.run_bits (2 ^ u) ≡ 0
  pub awake : bit_and p.sleep_bits (2 ^ u) ≡ 0
  pub gp_regs : r'.gp_regs u ≡ (λ i. 0)
  pub pc_regs : r'.pc_regs u ≡ 0
  pub zf_regs : r'.zf_regs u ≡ 0
  pub cf_regs : r'.cf_regs u ≡ 0

abbrev pub Other : ℕ → Core → Core → Type 0
Other u c c' =
    Same u c.pipeline.register_file c'.pipeline.register_file
    ⊎ Booted u c.pipeline c'.pipeline.register_file

-- A step of the tasklet `t` from the core `c` on.
pub record Apart (t : ℕ) (c : Core) (s : Step) : Type 0 where
  pub others : (u : ℕ) → u ≢ t → Other u c s.core
  pub aligned : s.next_pc % 8 ≡ 0

pub Same-then :
    (u : ℕ) {p : Pipeline} {r r' : RegisterFile}
    → Same u r r'
    → Same u p.register_file r ⊎ Booted u p r
    → Same u p.register_file r' ⊎ Booted u p r'
Same-then u m (inl k) = inl (record {
  gp_regs = m.gp_regs ∙ k.gp_regs;
  pc_regs = m.pc_regs ∙ k.pc_regs;
  zf_regs = m.zf_regs ∙ k.zf_regs;
  cf_regs = m.cf_regs ∙ k.cf_regs;
})
Same-then u m (inr b) = inr (record {
  stopped = b.stopped;
  awake = b.awake;
  gp_regs = m.gp_regs ∙ b.gp_regs;
  pc_regs = m.pc_regs ∙ b.pc_regs;
  zf_regs = m.zf_regs ∙ b.zf_regs;
  cf_regs = m.cf_regs ∙ b.cf_regs;
})

Same-eq : (u : ℕ) {r r' : RegisterFile} → r' ≡ r → Same u r r'
Same-eq u e = record {
  gp_regs = ap (λ (r : RegisterFile). r.gp_regs u) e;
  pc_regs = ap (λ (r : RegisterFile). r.pc_regs u) e;
  zf_regs = ap (λ (r : RegisterFile). r.zf_regs u) e;
  cf_regs = ap (λ (r : RegisterFile). r.cf_regs u) e;
}

pub either_step :
    {t : ℕ} {c : Core} (b : Bool) {x y : Step}
    → Apart t c x
    → Apart t c y
    → Apart t c (if b then x else y)
either_step true hx hy = hx
either_step false hx hy = hy

pub update-other {ℓ} : {A : Type ℓ} (f : ℕ → A) (t u : ℕ) (x : A) → u ≢ t → update f t x u ≡ f u
unfolding update
update-other f t u x ne = ground arith

module _ {t : ℕ} {c : Core} {s : Step} (h : Apart t c s) where
  -- The registers of the others are left alone.
  pub with_registers-Apart :
      (r : RegisterFile)
      → ((u : ℕ) → u ≢ t → Same u (registers s) r)
      → Apart t c (with_registers r s)
  unfolding with_registers set_registers
  with_registers-Apart r same = record {
    others = λ u ne. Same-then u (same u ne) (h.others u ne);
    aligned = h.aligned;
  }

  pub with_pipeline-Apart :
      (p : Pipeline) → p.register_file ≡ registers s → Apart t c (with_pipeline p s)
  unfolding with_pipeline
  with_pipeline-Apart p e = record {
    others = λ u ne. Same-then u (Same-eq u e) (h.others u ne);
    aligned = h.aligned;
  }

  pub write_reg-Apart : (idx v : ℕ) → Apart t c (write_reg t idx v s)
  unfolding write_reg
  write_reg-Apart idx v =
      either_step (ltb idx 24)
        (with_registers-Apart _ (λ u ne. record {
          gp_regs = update-other _ t u _ ne;
          pc_regs = refl;
          zf_regs = refl;
          cf_regs = refl;
        }))
        h

  pub set_zf-Apart : (v : ℕ) → Apart t c (set_zf t v s)
  unfolding set_zf
  set_zf-Apart v = with_registers-Apart _ (λ u ne. record {
    gp_regs = refl;
    pc_regs = refl;
    zf_regs = update-other _ t u _ ne;
    cf_regs = refl;
  })

  pub set_cf-Apart : (v : Bool) → Apart t c (set_cf t v s)
  unfolding set_cf
  set_cf-Apart v = with_registers-Apart _ (λ u ne. record {
    gp_regs = refl;
    pc_regs = refl;
    zf_regs = refl;
    cf_regs = update-other _ t u _ ne;
  })

  pub jump-Apart : (slot : ℕ) → Apart t c (jump slot s)
  unfolding jump
  jump-Apart slot = record { others = h.others; aligned = omega arith }
