-- ===== src/Pipeline/Trials.antt =====
-- What holds of finitely many cases is tried out on each.
use hostpimsim_gecon.Base.{
  ℕ, zero, suc, ◌-◌, ◌<◌, ◌≡◌, sym, subst, arith, Bool, true, ◌&&◌, List, [], ◌∷◌, ◌==◌,
  if◌then◌else◌, Bool-cases, inl, inr,
}

abbrev pub all_below : ℕ → (ℕ → Bool) → Bool
all_below zero f = true
all_below (suc n) f = f n && all_below n f

pub all_below-at : (n : ℕ) (f : ℕ → Bool) (i : ℕ) → all_below n f ≡ true → i < n → f i ≡ true
all_below-at zero f i h lt = absurd (omega arith)
all_below-at (suc n) f i h lt = elim (Bool-cases (i == n)) [
  | inl e ↦
      let at : i ≡ n = ground (arith, e) in
      subst (λ (j : ℕ). f j ≡ true) (sym at) (ground (arith, h))
  | inr ne ↦ all_below-at n f i (ground (arith, h)) (ground (arith, ne))
]

-- The entry of a list at a place.
abbrev pub entry {ℓ} : {A : Type ℓ} → A → List A → ℕ → A
entry d [] n = d
entry d (x ∷ xs) n = if n == 0 then x else entry d xs (n - 1)
