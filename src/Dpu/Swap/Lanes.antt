-- ===== src/Dpu/Swap/Lanes.antt =====
-- A 64-bit word as four lanes of 16 bits, on which `&` and `|` act apart.
use hostpimsim_gecon.Base.{
  ℕ, ◌+◌, ◌*◌, ◌^◌, ◌<◌, ◌≡◌, arith, bit_and, bit_or, bit_and_cut, bit_or_cut,
}

abbrev pub lanes : ℕ → ℕ → ℕ → ℕ → ℕ
lanes a b c d = ((a * 2 ^ 16 + b) * 2 ^ 16 + c) * 2 ^ 16 + d

module _ (a b c d x y z w : ℕ) where
  pub bit_and-lanes :
      b < 2 ^ 16
      → c < 2 ^ 16
      → d < 2 ^ 16
      → y < 2 ^ 16
      → z < 2 ^ 16
      → w < 2 ^ 16
      → bit_and (lanes a b c d) (lanes x y z w)
        ≡ lanes (bit_and a x) (bit_and b y) (bit_and c z) (bit_and d w)
  bit_and-lanes hb hc hd hy hz hw = omega (
    arith,
    bit_and_cut 16 ((a * 2 ^ 16 + b) * 2 ^ 16 + c) d ((x * 2 ^ 16 + y) * 2 ^ 16 + z) w hd hw,
    bit_and_cut 16 (a * 2 ^ 16 + b) c (x * 2 ^ 16 + y) z hc hz,
    bit_and_cut 16 a b x y hb hy,
  )

  pub bit_or-lanes :
      b < 2 ^ 16
      → c < 2 ^ 16
      → d < 2 ^ 16
      → y < 2 ^ 16
      → z < 2 ^ 16
      → w < 2 ^ 16
      → bit_or (lanes a b c d) (lanes x y z w)
        ≡ lanes (bit_or a x) (bit_or b y) (bit_or c z) (bit_or d w)
  bit_or-lanes hb hc hd hy hz hw = omega (
    arith,
    bit_or_cut 16 ((a * 2 ^ 16 + b) * 2 ^ 16 + c) d ((x * 2 ^ 16 + y) * 2 ^ 16 + z) w hd hw,
    bit_or_cut 16 (a * 2 ^ 16 + b) c (x * 2 ^ 16 + y) z hc hz,
    bit_or_cut 16 a b x y hb hy,
  )
