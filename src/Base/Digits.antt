-- ===== src/Base/Digits.antt =====
-- The binary digits of a number, and what setting, clearing and testing a bit does to them.
use Prim.Native.Nat.{ℕ, zero, suc, ◌-◌, ◌*◌, ◌/◌, ◌%◌, ◌^◌, ◌<◌, bit_and, bit_or, bit_and-bitwise}
use mathlib.Core.Path.{◌≡◌, refl, ap, ap₂, ◌∙◌}
use mathlib.Core.Bool.{Bool, false, ◌&&◌, ◌||◌, not}
use native.Mathlib.Omega.{arith}
use native.Mathlib.Nat.{pow-suc, one-le-pow}
use hostpimsim_gecon.Base.Tests.{◌==◌, ◌!=◌}
use hostpimsim_gecon.Base.Bits.{bit_and_step, bit_or_step, bit_and-zero}

-- Whether the digit at place `t` is 1.
pub bit_at : ℕ → ℕ → Bool
bit_at a zero = a % 2 == 1
bit_at a (suc t) = bit_at (a / 2) t

pub bit_at-bit_or : (a b t : ℕ) → bit_at (bit_or a b) t ≡ (bit_at a t || bit_at b t)
unfolding bit_at
bit_at-bit_or a b zero = ground (arith, bit_or_step a b)
bit_at-bit_or a b (suc t) =
    let e : bit_or a b / 2 ≡ bit_or (a / 2) (b / 2) = omega (arith, bit_or_step a b) in
    ap (λ x. bit_at x t) e ∙ bit_at-bit_or (a / 2) (b / 2) t

pub bit_at-bit_and : (a b t : ℕ) → bit_at (bit_and a b) t ≡ (bit_at a t && bit_at b t)
unfolding bit_at
bit_at-bit_and a b zero = ground (arith, bit_and_step a b)
bit_at-bit_and a b (suc t) =
    let e : bit_and a b / 2 ≡ bit_and (a / 2) (b / 2) = omega (arith, bit_and_step a b) in
    ap (λ x. bit_at x t) e ∙ bit_at-bit_and (a / 2) (b / 2) t

pub bit_at-zero : (t : ℕ) → bit_at 0 t ≡ false
unfolding bit_at
bit_at-zero zero = refl
bit_at-zero (suc t) = bit_at-zero t

pub bit_at-two_pow : (k t : ℕ) → bit_at (2 ^ k) t ≡ (k == t)
unfolding bit_at
bit_at-two_pow zero zero = refl
bit_at-two_pow zero (suc t) = bit_at-zero t ∙ ground arith
bit_at-two_pow (suc k) zero = ground (arith, pow-suc 2 k)
bit_at-two_pow (suc k) (suc t) =
    let e : 2 ^ suc k / 2 ≡ 2 ^ k = omega (arith, pow-suc 2 k) in
    ap (λ x. bit_at x t) e ∙ bit_at-two_pow k t ∙ ground arith

-- The complement in `w` bits.
pub bit_at-complement :
    (w a t : ℕ) → a < 2 ^ w → t < w → bit_at (2 ^ w - 1 - a) t ≡ not (bit_at a t)
unfolding bit_at
bit_at-complement zero a t h lt = absurd (omega arith)
bit_at-complement (suc w) a zero h lt = ground (arith, pow-suc 2 w, one-le-pow w 2)
bit_at-complement (suc w) a (suc t) h lt =
    let e : (2 ^ suc w - 1 - a) / 2 ≡ 2 ^ w - 1 - a / 2 =
      omega (arith, pow-suc 2 w, one-le-pow w 2) in
    ap (λ x. bit_at x t) e
    ∙ bit_at-complement w (a / 2) t (omega (arith, pow-suc 2 w)) (omega arith)

-- `(a & (1 << t)) != 0`.
pub bit_and-two_pow_ne : (a t : ℕ) → (bit_and a (2 ^ t) != 0) ≡ bit_at a t
unfolding bit_at
bit_and-two_pow_ne a zero = ground (arith, bit_and_step a 1, bit_and-zero (a / 2))
bit_and-two_pow_ne a (suc t) =
    let e : 2 ^ suc t / 2 ≡ 2 ^ t = omega (arith, pow-suc 2 t) in
    let z : 2 ^ suc t % 2 ≡ 0 = omega (arith, pow-suc 2 t) in
    let s : bit_and a (2 ^ suc t) ≡ bit_and (a / 2) (2 ^ t) * 2 =
      bit_and_step a (2 ^ suc t) ∙ omega (arith, ap (bit_and (a / 2)) e, z) in
    ground (arith, s, bit_and-two_pow_ne (a / 2) t)

-- A number with no digit below place `w`, and less than `2 ^ w`, is 0.
pub eq_zero_of_bits : (w a : ℕ) → a < 2 ^ w → ((t : ℕ) → t < w → bit_at a t ≡ false) → a ≡ 0
unfolding bit_at
eq_zero_of_bits zero a h none = omega arith
eq_zero_of_bits (suc w) a h none =
    let first : (a % 2 == 1) ≡ false = none 0 (omega arith) in
    let rest =
      eq_zero_of_bits w (a / 2) (omega (arith, pow-suc 2 w)) (λ t lt. none (suc t) (omega arith)) in
    ground arith

pub two_pow-lt : (w t : ℕ) → t < w → 2 ^ t < 2 ^ w
two_pow-lt zero t h = absurd (omega arith)
two_pow-lt (suc w) zero h = omega (arith, pow-suc 2 w, one-le-pow w 2)
two_pow-lt (suc w) (suc t) h = omega (arith, pow-suc 2 w, pow-suc 2 t, two_pow-lt w t (omega arith))

pub bit_or-lt : (w a b : ℕ) → a < 2 ^ w → b < 2 ^ w → bit_or a b < 2 ^ w
bit_or-lt zero a b ha hb =
    let ea : a ≡ 0 = omega arith in
    let eb : b ≡ 0 = omega arith in let e : bit_or a b ≡ 0 = ap₂ bit_or ea eb in omega (arith, e)
bit_or-lt (suc w) a b ha hb =
    let half : bit_or (a / 2) (b / 2) < 2 ^ w =
      bit_or-lt w (a / 2) (b / 2) (omega (arith, pow-suc 2 w)) (omega (arith, pow-suc 2 w)) in
    omega (arith, bit_or_step a b, half, pow-suc 2 w)

pub bit_and-lt : (w a b : ℕ) → a < 2 ^ w → bit_and a b < 2 ^ w
bit_and-lt zero a b ha =
    let ea : a ≡ 0 = omega arith in
    let e : bit_and a b ≡ bit_and 0 b = ap (λ (t : ℕ). bit_and t b) ea in
    omega (arith, e, bit_and-bitwise 0 b)
bit_and-lt (suc w) a b ha =
    let half : bit_and (a / 2) (b / 2) < 2 ^ w =
      bit_and-lt w (a / 2) (b / 2) (omega (arith, pow-suc 2 w)) in
    omega (arith, bit_and_step a b, half, pow-suc 2 w)
