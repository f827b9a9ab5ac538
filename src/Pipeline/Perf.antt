-- ===== src/Pipeline/Perf.antt =====
-- The performance counter: `perf_counter_read32`, `perf_counter_config` and `perf_counter_retire_step`.
use hostpimsim_gecon.Base.{
  ℕ, ◌+◌, ◌-◌, ◌*◌, ◌/◌, ◌^◌, ◌<◌, ◌≡◌, ◌⊎◌, inl, inr, refl, sym, ap, subst, arith, Bool, not, ◌&&◌,
  ◌||◌, List, [], ◌∷◌, ◌==◌, ◌!=◌, if◌then◌else◌, bit_and, u8, u32,
}
use hostpimsim_gecon.Dpu.State.{RegisterFile}

abbrev pub perf_mode_same : ℕ
perf_mode_same = 0

abbrev pub perf_mode_cycles : ℕ
perf_mode_cycles = 1

abbrev pub perf_mode_instructions : ℕ
perf_mode_instructions = 2

abbrev pub perf_mode_nothing : ℕ
perf_mode_nothing = 3

unfoldable pub perf_counter_read32 : RegisterFile → ℕ
perf_counter_read32 r = u32 (r.perf_counter_raw / 2 ^ 4)

unfoldable pub perf_counter_config : ℕ → RegisterFile → ℕ × RegisterFile
perf_counter_config config_bits r =
    let old = perf_counter_read32 r in
    let packed : ℕ = u8 (bit_and config_bits 0x7) in
    let should_reset = bit_and packed 0x1 != 0 in
    let mode_bits : ℕ = u8 (bit_and (packed / 2) 0x3) in
    let mode : ℕ = if mode_bits == perf_mode_same then r.perf_counter_mode else mode_bits in
    let raw : ℕ =
      if should_reset
      then if mode == perf_mode_nothing then 0 else 2 ^ 32 - 1
      else r.perf_counter_raw in
    (old, record r { perf_counter_mode = mode; perf_counter_raw = raw })

unfoldable pub perf_counter_retire_step : Bool → RegisterFile → RegisterFile
perf_counter_retire_step is_replay_step r =
    if r.perf_counter_mode == perf_mode_cycles
    then record r { perf_counter_raw = u32 (r.perf_counter_raw + 1) }
    else if (r.perf_counter_mode == perf_mode_instructions) && not is_replay_step
    then record r { perf_counter_raw = u32 (r.perf_counter_raw + 1) }
    else r

-- The steps of a run, each a replay or not.
abbrev pub retire_all : List Bool → RegisterFile → RegisterFile
retire_all [] r = r
retire_all (s ∷ ss) r = retire_all ss (perf_counter_retire_step s r)

-- How many of the steps a mode counts.
abbrev pub counted : ℕ → List Bool → ℕ
counted mode [] = 0
counted mode (is_replay ∷ ss) =
    (if (mode == perf_mode_cycles) || ((mode == perf_mode_instructions) && not is_replay)
      then 1
      else 0)
    + counted mode ss

retire_all-raw :
    (ss : List Bool) (r : RegisterFile)
    → r.perf_counter_raw < 2 ^ 32
    → (retire_all ss r).perf_counter_raw ≡ u32 (r.perf_counter_raw + counted r.perf_counter_mode ss)
unfolding perf_counter_retire_step
retire_all-raw [] r lt = omega (arith, lt)
retire_all-raw (s ∷ ss) r lt =
    let r' = perf_counter_retire_step s r in
    let one = counted r.perf_counter_mode (s ∷ []) in
    let mode : r'.perf_counter_mode ≡ r.perf_counter_mode = ground arith in
    let raw : r'.perf_counter_raw ≡ u32 (r.perf_counter_raw + one) = ground (arith, lt) in
    let same : counted r'.perf_counter_mode ss ≡ counted r.perf_counter_mode ss =
      ap (λ (m : ℕ). counted m ss) mode in
    let rest = retire_all-raw ss r' (omega (arith, raw)) in omega (arith, rest, raw, same)

-- A sixteenth of the count, read after a run from the value of a reset.
reset :
    (mode : ℕ) (ss : List Bool) (r : RegisterFile)
    → let r' = record r { perf_counter_mode = mode; perf_counter_raw = 2 ^ 32 - 1 } in
      perf_counter_read32 (retire_all ss r') ≡ u32 (2 ^ 32 - 1 + counted mode ss) / 16
unfolding perf_counter_read32
reset mode ss r =
    let raw =
      retire_all-raw ss (record r { perf_counter_mode = mode; perf_counter_raw = 2 ^ 32 - 1 })
        (omega arith) in
    omega (arith, raw)

abbrev Counts : ℕ → List Bool → RegisterFile → Type 0
Counts mode ss r =
    let (old, r') = perf_counter_config (1 + 2 * mode) r in
    (old ≡ perf_counter_read32 r)
    × (perf_counter_read32 (retire_all ss r') ≡ u32 (2 ^ 32 - 1 + counted mode ss) / 16)

-- A configuration with a reset returns what was to be read before. After it the counter counts every step, if
-- the mode asked for is cycles, and every step that is no replay, if it is instructions; what is read is
-- a sixteenth of the count, which starts one below 0.
pub perf_counter_config-counts :
    (mode : ℕ) (ss : List Bool) (r : RegisterFile)
    → 0 < mode
    → mode < 3
    → let (old, r') = perf_counter_config (1 + 2 * mode) r in
      (old ≡ perf_counter_read32 r)
      × (perf_counter_read32 (retire_all ss r') ≡ u32 (2 ^ 32 - 1 + counted mode ss) / 16)
unfolding perf_counter_config perf_counter_read32
perf_counter_config-counts mode ss r pos lt =
    let modes : (mode ≡ 1) ⊎ (mode ≡ 2) = ground (arith, pos, lt) in
    elim modes [
      | inl e ↦ subst (λ (m : ℕ). Counts m ss r) (sym e) (refl, reset 1 ss r)
      | inr e ↦ subst (λ (m : ℕ). Counts m ss r) (sym e) (refl, reset 2 ss r)
    ]
