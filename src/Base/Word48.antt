-- ===== src/Base/Word48.antt =====
-- A 48-bit word put together from its six bytes, as the code does it, by shifts and `|`.
use Prim.Native.Nat.{ℕ, ◌+◌, ◌*◌, ◌^◌, ◌<◌, bit_or}
use mathlib.Core.Path.{◌≡◌, ap, ◌∙◌}
use native.Mathlib.Omega.{arith}
use hostpimsim_gecon.Base.Bits.{bit_or_fields_left, zero-bit_or}

-- `|` of a low part of `k` bits and of what stands above it.
or_above : (k r q : ℕ) → r < 2 ^ k → bit_or r (q * 2 ^ k) ≡ q * 2 ^ k + r
or_above k r q = bit_or_fields_left k q r

pub join6 :
    (a b c d e f : ℕ)
    → a < 256
    → b < 256
    → c < 256
    → d < 256
    → e < 256
    → f < 256
    → bit_or
        (bit_or
          (bit_or (bit_or (bit_or (bit_or 0 a) (b * 2 ^ 8)) (c * 2 ^ 16)) (d * 2 ^ 24))
          (e * 2 ^ 32))
        (f * 2 ^ 40)
      ≡ a + 256 * (b + 256 * (c + 256 * (d + 256 * (e + 256 * f))))
join6 a b c d e f ha hb hc hd he hf =
    let x1 : bit_or (bit_or 0 a) (b * 2 ^ 8) ≡ a + 2 ^ 8 * b =
      ap (λ t. bit_or t (b * 2 ^ 8)) (zero-bit_or a) ∙ omega (arith, or_above 8 a b) in
    let y2 : ℕ = a + 2 ^ 8 * b in
    let x2 = ap (λ t. bit_or t (c * 2 ^ 16)) x1 in
    let y3 : ℕ = y2 + 2 ^ 16 * c in
    let x3 : bit_or y2 (c * 2 ^ 16) ≡ y3 = omega (arith, or_above 16 y2 c) in
    let y4 : ℕ = y3 + 2 ^ 24 * d in
    let x4 : bit_or y3 (d * 2 ^ 24) ≡ y4 = omega (arith, or_above 24 y3 d) in
    let y5 : ℕ = y4 + 2 ^ 32 * e in
    let x5 : bit_or y4 (e * 2 ^ 32) ≡ y5 = omega (arith, or_above 32 y4 e) in
    ap (λ t. bit_or (bit_or (bit_or t (d * 2 ^ 24)) (e * 2 ^ 32)) (f * 2 ^ 40)) (x2 ∙ x3)
    ∙ ap (λ t. bit_or (bit_or t (e * 2 ^ 32)) (f * 2 ^ 40)) x4
    ∙ ap (λ t. bit_or t (f * 2 ^ 40)) x5
    ∙ omega (arith, or_above 40 y5 f)
