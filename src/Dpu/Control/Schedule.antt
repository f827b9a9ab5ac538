-- ===== src/Dpu/Control/Schedule.antt =====
-- The scheduler inside the run-state poll: which tasklets it runs, and that it comes to rest.
use hostpimsim_gecon.Base.{
  ℕ, zero, suc, ◌+◌, ◌^◌, ◌≤◌, ◌<◌, ◌≡◌, ◌⊎◌, inl, inr, ◌∙◌, sym, ap, refl, arith, Bool, true,
  false, ◌&&◌, not, ◌==◌, if◌then◌else◌, Bool-cases, bit_at, bit_and-two_pow_ne, ℕ_discrete,
  bit_at-zero, ==_iff,
}
use hostpimsim_gecon.Dpu.Config.{num_tasklets}
use hostpimsim_gecon.Dpu.State.{Pipeline, Core}
use hostpimsim_gecon.Dpu.Control.Defs.{clear_tasklet, is_skipped, turn, sweep, run_rounds}

-- A tasklet that has been booted or resumed, and does not sleep.
abbrev pub is_active : Pipeline → ℕ → Bool
is_active p t = bit_at p.run_bits t && not (bit_at p.sleep_bits t)

-- The loop skips exactly the tasklets that are not active.
pub is_skipped-eq : (t : ℕ) (p : Pipeline) → is_skipped t p ≡ not (is_active p t)
unfolding is_skipped
is_skipped-eq t p =
    ground (arith, bit_and-two_pow_ne p.run_bits t, bit_and-two_pow_ne p.sleep_bits t)

module _ (execute_once : ℕ → Core → Bool × Core) where
  -- What one round of the inner loop makes of an active tasklet.
  unfoldable pub executed : ℕ → Core → Core
  executed t c =
      let (keep, c') = execute_once t c in
      if keep then c' else record c' { pipeline = clear_tasklet (2 ^ t) c'.pipeline }

  turn-eq :
      (t : ℕ) (c : Core)
      → turn execute_once t c ≡ (if is_active c.pipeline t then executed t c else c)
  unfolding turn executed
  turn-eq t c = ground (arith, is_skipped-eq t c.pipeline)

  sweep_keeps {ℓ} :
      (P : Core → Type ℓ)
      → ((t : ℕ) (c : Core)
          → t < num_tasklets
          → is_active c.pipeline t ≡ true
          → P c
          → P (executed t c))
      → (left t : ℕ) (c : Core) → t + left ≤ num_tasklets
      → P c
      → P (sweep execute_once left t c)
  unfolding sweep
  sweep_keeps P keep zero t c fits h = h
  sweep_keeps P keep (suc left) t c fits h =
      sweep_keeps P keep left (t + 1) (turn execute_once t c) (omega arith) (
        rw (turn-eq t c) (elim (Bool-cases (is_active c.pipeline t)) [
          | inl a ↦ rw a (keep t c (omega arith) a h)
          | inr a ↦ rw a h
        ]))

  whole_sweep : Core → Core
  whole_sweep c = sweep execute_once num_tasklets 0 c

  run_rounds-suc :
      (budget : ℕ) (c : Core)
      → run_rounds execute_once (suc budget) c
        ≡ (if c.pipeline.run_bits == 0 then c else run_rounds execute_once budget (whole_sweep c))
  unfolding run_rounds whole_sweep
  run_rounds-suc budget c = ground arith

  -- The scheduler runs only tasklets below 24 that are active at that moment: what the execution of
  -- such a tasklet, with the clearing of its bits if it stops, always keeps, the whole poll keeps.
  pub run_rounds_keeps {ℓ} :
      (P : Core → Type ℓ)
      → ((t : ℕ) (c : Core)
          → t < num_tasklets
          → is_active c.pipeline t ≡ true
          → P c
          → P (executed t c))
      → (budget : ℕ) (c : Core) → P c
      → P (run_rounds execute_once budget c)
  unfolding run_rounds whole_sweep
  run_rounds_keeps P keep zero c h = h
  run_rounds_keeps P keep (suc budget) c h =
      rw (run_rounds-suc budget c) (elim (Bool-cases (c.pipeline.run_bits == 0)) [
        | inl stopped ↦ rw stopped h
        | inr more ↦ rw more (
            run_rounds_keeps P keep budget (whole_sweep c)
              (sweep_keeps P keep num_tasklets 0 c (omega arith) h))
      ])

  -- No tasklet from `t` on, of `left`, is active.
  abbrev Quiet : ℕ → ℕ → Core → Type 0
  Quiet t left c = (i : ℕ) → t ≤ i → i < t + left → is_active c.pipeline i ≡ false

  -- A property that executions keep, under which each lowers a measure.
  module _ (P : Core → Type 0)
      (keeps : (t : ℕ) (c : Core)
        → t < num_tasklets
        → is_active c.pipeline t ≡ true
        → P c
        → P (executed t c))
      (measure : Core → ℕ)
      (falls : (t : ℕ) (c : Core)
        → t < num_tasklets
        → is_active c.pipeline t ≡ true
        → P c
        → measure (executed t c) < measure c) where
    turn_keeps : (t : ℕ) (c : Core) → t < num_tasklets → P c → P (turn execute_once t c)
    turn_keeps t c lt h = rw (turn-eq t c) (elim (Bool-cases (is_active c.pipeline t)) [
      | inl a ↦ rw a (keeps t c lt a h)
      | inr a ↦ rw a h
    ])

    turn-le :
        (t : ℕ) (c : Core) → t < num_tasklets → P c → measure (turn execute_once t c) ≤ measure c
    turn-le t c lt h = rw (turn-eq t c) (elim (Bool-cases (is_active c.pipeline t)) [
      | inl a ↦ rw a (omega (arith, falls t c lt a h))
      | inr a ↦ rw a (omega arith)
    ])

    sweep-le :
        (left t : ℕ) (c : Core)
        → t + left ≤ num_tasklets
        → P c
        → measure (sweep execute_once left t c) ≤ measure c
    unfolding sweep
    sweep-le zero t c fits h = omega arith
    sweep-le (suc left) t c fits h = omega (
      arith,
      sweep-le left (t + 1) (turn execute_once t c) (omega arith) (turn_keeps t c (omega arith) h),
      turn-le t c (omega arith) h,
    )

    sweep_progress :
        (left t : ℕ) (c : Core)
        → t + left ≤ num_tasklets
        → P c
        → (Quiet t left c × (sweep execute_once left t c ≡ c))
          ⊎ (measure (sweep execute_once left t c) < measure c)
    unfolding sweep
    sweep_progress zero t c fits h = inl (λ i lo hi. absurd (omega arith), refl)
    sweep_progress (suc left) t c fits h = elim (Bool-cases (is_active c.pipeline t)) [
      | inl a ↦ inr (
          omega (
            arith,
            sweep-le left (t + 1) (turn execute_once t c) (omega arith)
                (turn_keeps t c (omega arith) h),
            falls t c (omega arith) a h,
            ap measure (turn-eq t c ∙ ap (λ b. if b then executed t c else c) a),
          ))
      | inr a ↦
          rw (turn-eq t c, a)
            (elim (sweep_progress left (t + 1) c (omega arith) h) [
              | inl (quiet, same) ↦ inl (first a quiet, same)
              | inr less ↦ inr less
            ])
    ]
      where
        first : is_active c.pipeline t ≡ false → Quiet (t + 1) left c → Quiet t (suc left) c
        first a quiet i lo hi = elim (ℕ_discrete t i) [
          | yes e ↦ ap (is_active c.pipeline) (sym e) ∙ a
          | no ne ↦ quiet i (omega arith) (omega arith)
        ]

    -- A core at which no tasklet is active is left as it is.
    quiet_rests : (budget : ℕ) (c : Core) → whole_sweep c ≡ c → run_rounds execute_once budget c ≡ c
    unfolding run_rounds
    quiet_rests zero c same = refl
    quiet_rests (suc budget) c same =
        run_rounds-suc budget c ∙ elim (Bool-cases (c.pipeline.run_bits == 0)) [
          | inl stopped ↦ rw stopped
          | inr more ↦ rw (more, same) (quiet_rests budget c same)
        ]

    -- If the measure starts below the budget, the poll ends with no active tasklet: whatever still runs
    -- sleeps.
    pub run_rounds_settles :
        (budget : ℕ) (c : Core)
        → P c
        → measure c < budget
        → Quiet 0 num_tasklets (run_rounds execute_once budget c)
    unfolding whole_sweep
    run_rounds_settles zero c p h = absurd (omega arith)
    run_rounds_settles (suc budget) c p h =
        rw (run_rounds-suc budget c) (elim (Bool-cases (c.pipeline.run_bits == 0)) [
          | inl stopped ↦ rw stopped (λ i lo hi. stopped_quiet i stopped)
          | inr more ↦ rw more (elim (sweep_progress num_tasklets 0 c (omega arith) p) [
            | inl (quiet, same) ↦ rw same (rw (quiet_rests budget c same) quiet)
            | inr less ↦
                run_rounds_settles budget (whole_sweep c)
                  (sweep_keeps P keeps num_tasklets 0 c (omega arith) p) (omega arith)
          ])
        ])
      where
        stopped_quiet : (i : ℕ) → (c.pipeline.run_bits == 0) ≡ true → is_active c.pipeline i ≡ false
        stopped_quiet i e =
            let z : c.pipeline.run_bits ≡ 0 = (==_iff _ _).0 e in
            ground (arith, ap (λ b. bit_at b i) z, bit_at-zero i)
