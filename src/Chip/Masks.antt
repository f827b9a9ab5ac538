-- ===== src/Chip/Masks.antt =====
-- The loops over the DPUs of a chip, by the bits of a mask.
use hostpimsim_gecon.Base.{
  ℕ_discrete, ℕ, zero, suc, ◌+◌, ◌^◌, ◌≤◌, ◌<◌, ◌≡◌, ◌∙◌, refl, sym, ap, arith, true, false, ◌&&◌,
  leb, ltb, ◌==◌, if◌then◌else◌, Bool-cases, inl, inr, update, bit_and, bit_at, bit_and-two_pow_ne,
}
use hostpimsim_gecon.Dpu.Config.{chip_num_dpus}
use hostpimsim_gecon.Dpu.State.{Dpu}
use hostpimsim_gecon.Chip.Defs.{each_selected, first_from, first_selected_dpu}

unselected : (mask i : ℕ) → (bit_and mask (2 ^ i) == 0) ≡ (if bit_at mask i then false else true)
unselected mask i = ground (arith, bit_and-two_pow_ne mask i)

each_from :
    (left i : ℕ) (mask : ℕ) (f : Dpu → Dpu) (dpus : ℕ → Dpu) (j : ℕ)
    → each_selected left i mask f dpus j
      ≡ (if leb i j && ltb j (i + left) && bit_at mask j then f (dpus j) else dpus j)
unfolding each_selected update
each_from zero i mask f dpus j = ground arith
each_from (suc left) i mask f dpus j = rw (unselected mask i) (elim (ℕ_discrete i j) [
  | yes e ↦ elim (Bool-cases (bit_at mask i)) [
    | inl s ↦ rw (s, each_from left (i + 1) mask f _ j) (ground (arith, ap (bit_at mask) e))
    | inr s ↦ rw (s, each_from left (i + 1) mask f _ j) (ground (arith, ap (bit_at mask) e))
  ]
  | no ne ↦ elim (Bool-cases (bit_at mask i)) [
    | inl s ↦ rw (s, each_from left (i + 1) mask f _ j) (ground arith)
    | inr s ↦ rw (s, each_from left (i + 1) mask f _ j) (ground arith)
  ]
])

-- A loop over the selected DPUs applies its body once to each DPU of the chip whose bit is set, and
-- to no other.
pub each_selected-eq :
    (mask : ℕ) (f : Dpu → Dpu) (dpus : ℕ → Dpu) (j : ℕ)
    → j < chip_num_dpus
    → each_selected chip_num_dpus 0 mask f dpus j ≡ (if bit_at mask j then f (dpus j) else dpus j)
each_selected-eq mask f dpus j h = ground (arith, each_from chip_num_dpus 0 mask f dpus j)

-- `d` is the first place from `i` on whose bit is set, or 8 if there is none among the eight.
abbrev pub IsFirst : ℕ → ℕ → ℕ → Type 0
IsFirst i mask d =
    ((j : ℕ) → i ≤ j → j < d → bit_at mask j ≡ false)
    × (d ≤ chip_num_dpus)
    × (d < chip_num_dpus → bit_at mask d ≡ true)

first_from-IsFirst :
    (left i mask : ℕ) → i + left ≡ chip_num_dpus → IsFirst i mask (first_from left i mask)
unfolding first_from
first_from-IsFirst zero i mask e =
    (λ j lo hi. absurd (omega arith), omega arith, λ h. absurd (omega arith))
first_from-IsFirst (suc left) i mask e =
    rw (bit_and-two_pow_ne mask i) (elim (Bool-cases (bit_at mask i)) [
      | inl s ↦ rw s (λ j lo hi. absurd (omega arith), omega arith, λ h. s)
      | inr s ↦
          let rest = first_from-IsFirst left (i + 1) mask (omega arith) in
          rw s (later s rest.0, rest.1, rest.2)
    ])
  where
    later :
        bit_at mask i ≡ false
        → ((j : ℕ) → i + 1 ≤ j → j < first_from left (i + 1) mask → bit_at mask j ≡ false)
        → (j : ℕ) → i ≤ j
        → j < first_from left (i + 1) mask
        → bit_at mask j ≡ false
    later s rest j lo hi = elim (ℕ_discrete i j) [
      | yes same ↦ ap (bit_at mask) (sym same) ∙ s
      | no ne ↦ rest j (omega arith) hi
    ]

-- The first selected DPU is the lowest one whose bit is set, and 8 exactly when none of the eight is.
pub first_selected_dpu-IsFirst : (mask : ℕ) → IsFirst 0 mask (first_selected_dpu mask)
unfolding first_selected_dpu
first_selected_dpu-IsFirst mask = first_from-IsFirst chip_num_dpus 0 mask refl
