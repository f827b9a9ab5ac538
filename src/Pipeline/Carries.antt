-- ===== src/Pipeline/Carries.antt =====
-- The condition that no carry leaves the low bits of a sum.
use hostpimsim_gecon.Base.{
  ℕ, ◌+◌, ◌-◌, ◌%◌, ◌^◌, ◌≤◌, ◌<◌, ◌≡◌, inl, inr, ◌∙◌, ap, ap₂, arith, ◌&&◌, ◌||◌, ltb, leb, ◌==◌,
  Bool-cases, bit_and, bit_and_mask, u64, dec_lt,
}
use native.Mathlib.Nat.{mod-lt, mod-eq_of_lt, one-le-pow, pow-le-pow_right, add-mod}
use hostpimsim_gecon.Pipeline.Conditions.{eval_add_subword_no_carry}

-- A sum of remainders is a remainder just when it is the remainder of the sum.
sum_fits : (m a b : ℕ) → 0 < m → ltb (a % m + b % m) m ≡ ((a + b) % m == a % m + b % m)
sum_fits m a b pos = elim (dec_lt (a % m + b % m) m) [
  | yes lt ↦
      let e : (a + b) % m ≡ a % m + b % m = add-mod a b m ∙ mod-eq_of_lt lt in ground (arith, lt, e)
  | no ge ↦ ground (arith, ge, mod-lt (a + b) pos)
]

-- The condition holds just for a width from 5 to 31 bits at which the low bits of the sum are the sum of
-- the low bits, that is, at which the addition carries nothing out of them.
pub eval_add_subword_no_carry_eq :
    (bits lhs rhs : ℕ)
    → eval_add_subword_no_carry bits lhs rhs
      ≡ (leb 5 bits && leb bits 31 && ((lhs + rhs) % 2 ^ bits == lhs % 2 ^ bits + rhs % 2 ^ bits))
unfolding eval_add_subword_no_carry
eval_add_subword_no_carry_eq bits lhs rhs = elim (Bool-cases (ltb bits 5 || ltb 31 bits)) [
  | inl out ↦ ground (arith, out)
  | inr within ↦
      let le : bits ≤ 31 = ground (arith, within) in
      let pos : 0 < 2 ^ bits = omega (arith, one-le-pow bits 2) in
      let top : 2 ^ bits ≤ 2 ^ 31 = pow-le-pow_right {n = 2} (omega arith) le in
      let small : u64 (lhs % 2 ^ bits + rhs % 2 ^ bits) ≡ lhs % 2 ^ bits + rhs % 2 ^ bits =
        mod-eq_of_lt (omega (arith, top, mod-lt lhs pos, mod-lt rhs pos)) in
      let sum : u64 (bit_and lhs (2 ^ bits - 1) + bit_and rhs (2 ^ bits - 1))
          ≡ lhs % 2 ^ bits + rhs % 2 ^ bits =
        ap₂ (λ (x : ℕ) (y : ℕ). u64 (x + y)) (bit_and_mask bits lhs) (bit_and_mask bits rhs)
        ∙ small in
      ground (arith, within, ap (λ (x : ℕ). ltb x (2 ^ bits)) sum ∙ sum_fits (2 ^ bits) lhs rhs pos)
]
