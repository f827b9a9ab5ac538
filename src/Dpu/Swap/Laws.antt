-- ===== src/Dpu/Swap/Laws.antt =====
-- The byte swaps as arithmetic on the bytes of a word.
use hostpimsim_gecon.Base.{
  ℕ, ◌+◌, ◌*◌, ◌/◌, ◌%◌, ◌^◌, ◌<◌, ◌≡◌, refl, sym, ◌∙◌, ap, ap₂, arith, u32, u64, bit_and, bit_or,
  bit_or_fields_left, bit_and_field, bit_and_mask, bit_or_sum, bit_and-zero, bit_or-zero,
  zero-bit_or,
}
use hostpimsim_gecon.Dpu.Swap.Defs.{bswap16, bswap32, bswap64, swap_halves, swap_pairs, swap_bytes}
use hostpimsim_gecon.Dpu.Swap.Lanes.{lanes, bit_and-lanes, bit_or-lanes}

pub bswap16-eq : (v : ℕ) → v < 2 ^ 16 → bswap16 v ≡ v % 256 * 256 + v / 256
unfolding bswap16
bswap16-eq v h = omega (arith, bit_or_fields_left 8 v (v / 2 ^ 8) (omega arith))

pub bswap32-eq :
    (v : ℕ)
    → v < 2 ^ 32
    → bswap32 v
      ≡ v % 256 * 2 ^ 24 + v / 2 ^ 8 % 256 * 2 ^ 16 + v / 2 ^ 16 % 256 * 2 ^ 8 + v / 2 ^ 24
unfolding bswap32
bswap32-eq v h =
    let b0 : ℕ = v % 256 in
    let b1 : ℕ = v / 2 ^ 8 % 256 in
    let b2 : ℕ = v / 2 ^ 16 % 256 in
    let b3 : ℕ = v / 2 ^ 24 in
    let x0 : ℕ = u32 (bit_and v 0xff * 2 ^ 24) in
    let x1 : ℕ = u32 (bit_and v 0xff00 * 2 ^ 8) in
    let x2 : ℕ = bit_and v 0xff0000 / 2 ^ 8 in
    let x3 : ℕ = bit_and v 0xff000000 / 2 ^ 24 in
    let e0 : x0 ≡ b0 * 2 ^ 24 = omega (arith, bit_and_mask 8 v) in
    let e1 : x1 ≡ b1 * 2 ^ 16 = omega (arith, bit_and_field 8 8 v) in
    let e2 : x2 ≡ b2 * 2 ^ 8 = omega (arith, bit_and_field 16 8 v) in
    let e3 : x3 ≡ b3 = omega (arith, bit_and_field 24 8 v) in
    let top : bit_or x0 x1 ≡ (b0 * 2 ^ 8 + b1) * 2 ^ 16 =
      bit_or_sum 24 b0 (b1 * 2 ^ 16) x0 x1 e0 e1 (omega arith) ∙ omega arith in
    let upper : bit_or (bit_or x0 x1) x2 ≡ (b0 * 2 ^ 16 + b1 * 2 ^ 8 + b2) * 2 ^ 8 =
      bit_or_sum 16 (b0 * 2 ^ 8 + b1) (b2 * 2 ^ 8) (bit_or x0 x1) x2 top e2 (omega arith)
      ∙ omega arith in
    bit_or_sum 8 (b0 * 2 ^ 16 + b1 * 2 ^ 8 + b2) b3 (bit_or (bit_or x0 x1) x2) x3 upper e3
      (omega arith)
    ∙ omega arith

module _ (a b c d : ℕ) (ha : a < 2 ^ 16) (hb : b < 2 ^ 16) (hc : c < 2 ^ 16) (hd : d < 2 ^ 16) where
  swap_halves-lanes : swap_halves (lanes a b c d) ≡ lanes c d a b
  unfolding swap_halves
  swap_halves-lanes =
      bit_or_sum 32 (c * 2 ^ 16 + d) (a * 2 ^ 16 + b) _ _
        (omega (arith, bit_and_mask 32 (lanes a b c d)))
        (omega (arith, bit_and_field 32 32 (lanes a b c d))) (omega arith)
      ∙ omega arith

  swap_pairs-lanes : swap_pairs (lanes a b c d) ≡ lanes b a d c
  unfolding swap_pairs
  swap_pairs-lanes =
      let v : ℕ = lanes a b c d in
      let low : u64 (bit_and v (lanes 0 0xffff 0 0xffff) * 2 ^ 16) ≡ lanes b 0 d 0 = omega (
        arith,
        bit_and-lanes a b c d 0 0xffff 0 0xffff,
        bit_and-zero a,
        bit_and-zero c,
        bit_and_mask 16 b,
        bit_and_mask 16 d,
      ) in
      let high : bit_and v (lanes 0xffff 0 0xffff 0) / 2 ^ 16 ≡ lanes 0 a 0 c = omega (
        arith,
        bit_and-lanes a b c d 0xffff 0 0xffff 0,
        bit_and-zero b,
        bit_and-zero d,
        bit_and_mask 16 a,
        bit_and_mask 16 c,
      ) in
      ap₂ bit_or low high
      ∙ omega (
        arith,
        bit_or-lanes b 0 d 0 0 a 0 c,
        bit_or-zero b,
        bit_or-zero d,
        zero-bit_or a,
        zero-bit_or c,
      )

  swap_bytes-lanes :
      swap_bytes (lanes a b c d) ≡ lanes (bswap16 a) (bswap16 b) (bswap16 c) (bswap16 d)
  unfolding swap_bytes
  swap_bytes-lanes =
      let v : ℕ = lanes a b c d in
      let low : u64 (bit_and v (lanes 0xff 0xff 0xff 0xff) * 2 ^ 8)
          ≡ lanes (a % 256 * 2 ^ 8) (b % 256 * 2 ^ 8) (c % 256 * 2 ^ 8) (d % 256 * 2 ^ 8) =
        omega (
          arith,
          bit_and-lanes a b c d 0xff 0xff 0xff 0xff,
          bit_and_mask 8 a,
          bit_and_mask 8 b,
          bit_and_mask 8 c,
          bit_and_mask 8 d,
        ) in
      let high : bit_and v (lanes 0xff00 0xff00 0xff00 0xff00) / 2 ^ 8
          ≡ lanes (a / 256) (b / 256) (c / 256) (d / 256) =
        omega (
          arith,
          bit_and-lanes a b c d 0xff00 0xff00 0xff00 0xff00,
          bit_and_field 8 8 a,
          bit_and_field 8 8 b,
          bit_and_field 8 8 c,
          bit_and_field 8 8 d,
        ) in
      ap₂ bit_or low high
      ∙ omega (
        arith,
        bit_or-lanes (a % 256 * 2 ^ 8) (b % 256 * 2 ^ 8) (c % 256 * 2 ^ 8) (d % 256 * 2 ^ 8)
            (a / 256) (b / 256) (c / 256) (d / 256),
        bit_or_sum 8 (a % 256) (a / 256) _ _ refl refl,
        bit_or_sum 8 (b % 256) (b / 256) _ _ refl refl,
        bit_or_sum 8 (c % 256) (c / 256) _ _ refl refl,
        bit_or_sum 8 (d % 256) (d / 256) _ _ refl refl,
        bswap16-eq a,
        bswap16-eq b,
        bswap16-eq c,
        bswap16-eq d,
      )

-- The bytes of the four lanes come out in reverse order.
pub bswap64-lanes :
    (a b c d : ℕ)
    → a < 2 ^ 16
    → b < 2 ^ 16
    → c < 2 ^ 16
    → d < 2 ^ 16
    → bswap64 (lanes a b c d) ≡ lanes (bswap16 d) (bswap16 c) (bswap16 b) (bswap16 a)
unfolding bswap64
bswap64-lanes a b c d ha hb hc hd =
    ap (λ v. swap_bytes (swap_pairs v)) (swap_halves-lanes a b c d ha hb hc hd)
    ∙ ap swap_bytes (swap_pairs-lanes c d a b hc hd ha hb)
    ∙ swap_bytes-lanes d c b a hd hc hb ha

-- A swap keeps the width, and is its own inverse.
pub bswap16-lt : (v : ℕ) → bswap16 v < 2 ^ 16
unfolding bswap16
bswap16-lt v = omega arith

pub bswap16-bswap16 : (v : ℕ) → v < 2 ^ 16 → bswap16 (bswap16 v) ≡ v
bswap16-bswap16 v h = omega (arith, bswap16-eq v h, bswap16-eq (bswap16 v) (bswap16-lt v))

pub bswap32-lt : (v : ℕ) → v < 2 ^ 32 → bswap32 v < 2 ^ 32
bswap32-lt v h = omega (arith, bswap32-eq v h)

pub bswap32-bswap32 : (v : ℕ) → v < 2 ^ 32 → bswap32 (bswap32 v) ≡ v
bswap32-bswap32 v h = omega (arith, bswap32-eq v h, bswap32-eq (bswap32 v) (bswap32-lt v h))

lanes_of :
    (v : ℕ)
    → v < 2 ^ 64
    → lanes (v / 2 ^ 48) (v / 2 ^ 32 % 2 ^ 16) (v / 2 ^ 16 % 2 ^ 16) (v % 2 ^ 16) ≡ v
lanes_of v h = omega arith

pub bswap64-eq :
    (v : ℕ)
    → v < 2 ^ 64
    → bswap64 v
      ≡ lanes
          (bswap16 (v % 2 ^ 16))
          (bswap16 (v / 2 ^ 16 % 2 ^ 16))
          (bswap16 (v / 2 ^ 32 % 2 ^ 16))
          (bswap16 (v / 2 ^ 48))
bswap64-eq v h =
    ap bswap64 (sym (lanes_of v h))
    ∙ bswap64-lanes (v / 2 ^ 48) (v / 2 ^ 32 % 2 ^ 16) (v / 2 ^ 16 % 2 ^ 16) (v % 2 ^ 16)
        (omega arith) (omega arith) (omega arith) (omega arith)

pub bswap64-lt : (v : ℕ) → v < 2 ^ 64 → bswap64 v < 2 ^ 64
bswap64-lt v h = omega (
  arith,
  bswap64-eq v h,
  bswap16-lt (v % 2 ^ 16),
  bswap16-lt (v / 2 ^ 16 % 2 ^ 16),
  bswap16-lt (v / 2 ^ 32 % 2 ^ 16),
  bswap16-lt (v / 2 ^ 48),
)

pub bswap64-bswap64 : (v : ℕ) → v < 2 ^ 64 → bswap64 (bswap64 v) ≡ v
bswap64-bswap64 v h =
    let a : ℕ = v / 2 ^ 48 in
    let b : ℕ = v / 2 ^ 32 % 2 ^ 16 in
    let c : ℕ = v / 2 ^ 16 % 2 ^ 16 in
    let d : ℕ = v % 2 ^ 16 in
    ap bswap64 (bswap64-eq v h)
    ∙ bswap64-lanes (bswap16 d) (bswap16 c) (bswap16 b) (bswap16 a) (bswap16-lt d) (bswap16-lt c)
        (bswap16-lt b) (bswap16-lt a)
    ∙ omega (
      arith,
      bswap16-bswap16 a (omega arith),
      bswap16-bswap16 b (omega arith),
      bswap16-bswap16 c (omega arith),
      bswap16-bswap16 d (omega arith),
      lanes_of v h,
    )
