-- ===== src/Pipeline/Rotations.antt =====
-- Rotations undo each other; the additions that saturate, and the extensions of the sign.
use hostpimsim_gecon.Base.{
  ℕ, zero, suc, ◌+◌, ◌-◌, ◌*◌, ◌/◌, ◌%◌, ◌^◌, ◌≤◌, ◌<◌, ◌≡◌, ◌∙◌, inl, inr, refl, sym, ap, ap₂,
  arith, ◌==◌, bit_and, bit_or, min, u32, bit_and_mask, bit_and_field, bit_or_fields,
  bit_or_fields_left, Bool-cases,
}
use Prim.Native.Nat.{max}
use native.Mathlib.Nat.{
  mod-lt, mod-eq_of_lt, one-le-pow, pow-suc, div-add-mod', div-lt_iff_lt-mul, mul-add-div_right,
  div-eq_of_lt, mul-le-mul_right, add-mul-mod_self_right,
}
use hostpimsim_gecon.Pipeline.Words.{
  sign_extend16, sign_extend24, sign_extend11, rotl32, rotr32, shifted, saturating_add_s32,
}

pow_add : (s k : ℕ) → 2 ^ s * 2 ^ k ≡ 2 ^ (s + k)
pow_add zero k =
    let e : 2 ^ k ≡ 2 ^ (0 + k) = ap (λ (t : ℕ). 2 ^ t) (omega arith) in omega (arith, e)
pow_add (suc s) k =
    let e : 2 ^ (suc s + k) ≡ 2 ^ suc (s + k) = ap (λ (t : ℕ). 2 ^ t) (omega arith) in
    grind (arith, e, pow_add s k, pow-suc 2 s, pow-suc 2 (s + k))

regroup : (d q r p : ℕ) → (d * q + r) * p ≡ r * p + d * (p * q)
regroup d q r p = omega arith

module _ (s k : ℕ) (whole : s + k ≡ 32) where
  powers : 2 ^ s * 2 ^ k ≡ 2 ^ 32
  powers = pow_add s k ∙ ap (λ (t : ℕ). 2 ^ t) whole

  times : (v : ℕ) → u32 (v * 2 ^ s) ≡ v % 2 ^ k * 2 ^ s
  times v =
      let split : v * 2 ^ s ≡ v % 2 ^ k * 2 ^ s + v / 2 ^ k * 2 ^ 32 =
        ap (λ (t : ℕ). t * 2 ^ s) (sym (div-add-mod' v (2 ^ k)))
        ∙ regroup (v / 2 ^ k) (2 ^ k) (v % 2 ^ k) (2 ^ s)
        ∙ ap (λ (t : ℕ). v % 2 ^ k * 2 ^ s + v / 2 ^ k * t) powers in
      let q : 0 < 2 ^ k = omega (arith, one-le-pow k 2) in
      let less : v % 2 ^ k + 1 ≤ 2 ^ k = omega (arith, mod-lt v q) in
      let below : v % 2 ^ k * 2 ^ s < 2 ^ 32 =
        omega (arith, mul-le-mul_right (2 ^ s) less, powers, one-le-pow s 2) in
      ap (λ (t : ℕ). u32 t) split
      ∙ add-mul-mod_self_right (v % 2 ^ k * 2 ^ s) (v / 2 ^ k) (2 ^ 32)
      ∙ mod-eq_of_lt below

  rotated :
      (v : ℕ) → v < 2 ^ 32 → bit_or (u32 (v * 2 ^ s)) (v / 2 ^ k) ≡ v % 2 ^ k * 2 ^ s + v / 2 ^ k
  rotated v lt =
      let high : v / 2 ^ k < 2 ^ s =
        (div-lt_iff_lt-mul (omega (arith, one-le-pow k 2))).1 (omega (arith, powers, lt)) in
      ap (λ (t : ℕ). bit_or t (v / 2 ^ k)) (times v) ∙ bit_or_fields s (v % 2 ^ k) (v / 2 ^ k) high

back :
    (s k v : ℕ)
    → s + k ≡ 32
    → v < 2 ^ 32
    → bit_or
        ((v % 2 ^ k * 2 ^ s + v / 2 ^ k) / 2 ^ s)
        (u32 ((v % 2 ^ k * 2 ^ s + v / 2 ^ k) * 2 ^ k))
      ≡ v
back s k v whole lt =
    let p : 0 < 2 ^ s = omega (arith, one-le-pow s 2) in
    let q : 0 < 2 ^ k = omega (arith, one-le-pow k 2) in
    let high : v / 2 ^ k < 2 ^ s = (div-lt_iff_lt-mul q).1 (omega (arith, powers s k whole, lt)) in
    let w : ℕ = v % 2 ^ k * 2 ^ s + v / 2 ^ k in
    let top : w / 2 ^ s ≡ v % 2 ^ k =
      mul-add-div_right p (v % 2 ^ k) (v / 2 ^ k) ∙ omega (arith, div-eq_of_lt high) in
    let low : w % 2 ^ s ≡ v / 2 ^ k =
      ap (λ (t : ℕ). t % 2 ^ s) (omega arith)
      ∙ add-mul-mod_self_right (v / 2 ^ k) (v % 2 ^ k) (2 ^ s)
      ∙ mod-eq_of_lt high in
    let turned : u32 (w * 2 ^ k) ≡ v / 2 ^ k * 2 ^ k =
      times k s (omega (arith, whole)) w ∙ ap (λ (t : ℕ). t * 2 ^ k) low in
    ap₂ bit_or top turned
    ∙ bit_or_fields_left k (v / 2 ^ k) (v % 2 ^ k) (mod-lt v q)
    ∙ div-add-mod' v (2 ^ k)

-- A word that is rotated to the left and back to the right is the word, for every count.
pub rotr32-rotl32 : (v shift : ℕ) → v < 2 ^ 32 → rotr32 (rotl32 v shift) shift ≡ v
unfolding rotr32 rotl32
rotr32-rotl32 v shift lt =
    let e : bit_and shift 31 ≡ shift % 32 = bit_and_mask 5 shift in
    elim (Bool-cases (shift % 32 == 0)) [
      | inl z ↦ rw (e, z) refl
      | inr nz ↦
          let s = shift % 32 in
          let k = 32 - s in
          let whole : s + k ≡ 32 = omega arith in
          let w = rotated s k whole v lt in rw (e, nz, w) (back s k v whole lt)
    ]

-- The signed sum of two words, if it is between the least and the greatest signed word; and the nearer
-- of the two if it is not.
pub saturating_add_s32-clamps :
    (lhs rhs : ℕ)
    → shifted (saturating_add_s32 lhs rhs) + 2 ^ 31
      ≡ min (max (shifted lhs + shifted rhs) (2 ^ 31)) (2 ^ 32 + 2 ^ 31 - 1)
unfolding saturating_add_s32
saturating_add_s32-clamps lhs rhs = ground arith

-- The extension of a field of 16, 24 or 11 bits has the bits of the field, and as a signed word it is
-- from -2^15, -2^23 or -2^10 on and below 2^15, 2^23 or 2^10.
pub sign_extend_range :
    (value : ℕ)
    → ((sign_extend16 value % 2 ^ 16 ≡ value % 2 ^ 16)
        × (u32 (sign_extend16 value + 2 ^ 15) < 2 ^ 16))
      × ((sign_extend24 value % 2 ^ 24 ≡ value % 2 ^ 24)
          × (u32 (sign_extend24 value + 2 ^ 23) < 2 ^ 24))
      × ((sign_extend11 value % 2 ^ 11 ≡ value % 2 ^ 11)
          × (u32 (sign_extend11 value + 2 ^ 10) < 2 ^ 11))
unfolding sign_extend16 sign_extend24 sign_extend11
sign_extend_range value =
    let m24 = bit_and_mask 24 value in
    let m11 = bit_and_mask 11 value in
    let b24 = bit_and_field 23 1 (value % 2 ^ 24) in
    let b11 = bit_and_field 10 1 (value % 2 ^ 11) in
    let o24 = bit_or_fields_left 24 255 (value % 2 ^ 24) (omega arith) in
    let o11 = bit_or_fields_left 11 2097151 (value % 2 ^ 11) (omega arith) in
    (
      (ground arith, ground arith),
      rw (m24, b24, o24) (ground arith, ground arith),
      rw (m11, b11, o11) (ground arith, ground arith),
    )
