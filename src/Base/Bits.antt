-- ===== src/Base/Bits.antt =====
-- The bit operations as arithmetic: an operation on binary digits acts on the high and the low part
-- of its arguments apart, at every place where both are cut.
use Prim.Native.Nat.{
  ℕ, zero, suc, ◌+◌, ◌-◌, ◌*◌, ◌/◌, ◌%◌, ◌^◌, ◌≤◌, ◌<◌, min, max, bit_and, bit_or, digits,
  bit_and-bitwise, bit_or-bitwise,
}
use mathlib.Core.Path.{◌≡◌, refl, ap, sym, ◌∙◌, ap₂}
use native.Mathlib.Omega.{arith}
use native.Mathlib.Nat.{pow-suc, one-le-pow, mod-lt, div-add-mod'}

-- The count of digits to go does not matter once it is large enough.
digits_fuel :
    (z : ℕ → ℕ) (f : ℕ → ℕ → ℕ) (n m a b : ℕ) → a ≤ n → a ≤ m → digits z f n a b ≡ digits z f m a b
digits_fuel z f zero zero a b p q = refl
digits_fuel z f zero (suc m) zero b p q = refl
digits_fuel z f zero (suc m) (suc a) b p q = absurd (omega arith)
digits_fuel z f (suc n) zero zero b p q = refl
digits_fuel z f (suc n) zero (suc a) b p q = absurd (omega arith)
digits_fuel z f (suc n) (suc m) zero b p q = refl
digits_fuel z f (suc n) (suc m) (suc a) b p q =
    ap (λ t. t * 2 + f (suc a % 2) (b % 2))
      (digits_fuel z f n m (suc a / 2) (b / 2) (omega arith) (omega arith))

-- One step of an operation that is given by its digits, where the digits past the first argument are
-- those of `z`.
halves :
    (z : ℕ → ℕ) (f op : ℕ → ℕ → ℕ)
    → ((x y : ℕ) → op x y ≡ digits z f x x y)
    → ((y : ℕ) → z y ≡ z (y / 2) * 2 + f 0 (y % 2))
    → (x y : ℕ) → op x y ≡ op (x / 2) (y / 2) * 2 + f (x % 2) (y % 2)
halves z f op by_digits past zero y =
    by_digits 0 y ∙ past y ∙ ap (λ t. t * 2 + f 0 (y % 2)) (sym (by_digits 0 (y / 2)))
halves z f op by_digits past (suc n) y =
    let q : ℕ = suc n / 2 in
    let fuel = digits_fuel z f n q q (y / 2) (omega arith) (omega arith) in
    by_digits (suc n) y ∙ ap (λ t. t * 2 + f (suc n % 2) (y % 2)) (fuel ∙ sym (by_digits q (y / 2)))

pub bit_and_step : (x y : ℕ) → bit_and x y ≡ bit_and (x / 2) (y / 2) * 2 + min (x % 2) (y % 2)
bit_and_step = halves (λ y. zero) min bit_and bit_and-bitwise (λ y. omega arith)

pub bit_or_step : (x y : ℕ) → bit_or x y ≡ bit_or (x / 2) (y / 2) * 2 + max (x % 2) (y % 2)
bit_or_step = halves (λ y. y) max bit_or bit_or-bitwise (λ y. omega arith)

double_place : (q k : ℕ) → q * 2 ^ suc k ≡ 2 * (q * 2 ^ k)
double_place q k = omega (arith, ap (λ (t : ℕ). q * t) (pow-suc 2 k))

module _ (op f : ℕ → ℕ → ℕ) (nothing : op 0 0 ≡ 0)
    (step : (a b : ℕ) → op a b ≡ op (a / 2) (b / 2) * 2 + f (a % 2) (b % 2)) where
  cut :
      (k p s q r : ℕ)
      → s < 2 ^ k
      → r < 2 ^ k
      → op (p * 2 ^ k + s) (q * 2 ^ k + r) ≡ op p q * 2 ^ k + op s r
  cut zero p s q r hs hr =
      let es : s ≡ 0 = omega arith in
      let er : r ≡ 0 = omega arith in
      let ep : p * 2 ^ 0 + s ≡ p = omega arith in
      let eq : q * 2 ^ 0 + r ≡ q = omega arith in
      ap₂ op ep eq ∙ omega (arith, nothing, ap₂ op es er)
  cut (suc k) p s q r hs hr =
      let ds : s / 2 < 2 ^ k = omega (arith, pow-suc 2 k) in
      let dr : r / 2 < 2 ^ k = omega (arith, pow-suc 2 k) in
      let ep : (p * 2 ^ suc k + s) / 2 ≡ p * 2 ^ k + s / 2 = omega (arith, double_place p k) in
      let eq : (q * 2 ^ suc k + r) / 2 ≡ q * 2 ^ k + r / 2 = omega (arith, double_place q k) in
      let lp : (p * 2 ^ suc k + s) % 2 ≡ s % 2 = omega (arith, double_place p k) in
      let lq : (q * 2 ^ suc k + r) % 2 ≡ r % 2 = omega (arith, double_place q k) in
      omega (
        arith,
        step (p * 2 ^ suc k + s) (q * 2 ^ suc k + r),
        ap₂ op ep eq,
        ap₂ f lp lq,
        cut k p (s / 2) q (r / 2) ds dr,
        step s r,
        double_place (op p q) k,
      )

pub bit_and_cut :
    (k p s q r : ℕ)
    → s < 2 ^ k
    → r < 2 ^ k
    → bit_and (p * 2 ^ k + s) (q * 2 ^ k + r) ≡ bit_and p q * 2 ^ k + bit_and s r
bit_and_cut = cut bit_and min refl bit_and_step

pub bit_or_cut :
    (k p s q r : ℕ)
    → s < 2 ^ k
    → r < 2 ^ k
    → bit_or (p * 2 ^ k + s) (q * 2 ^ k + r) ≡ bit_or p q * 2 ^ k + bit_or s r
bit_or_cut = cut bit_or max refl bit_or_step

bit_and-zero_below : (k a : ℕ) → a < 2 ^ k → bit_and a 0 ≡ 0
bit_and-zero_below zero a h = let e : a ≡ 0 = omega arith in ap (λ t. bit_and t 0) e
bit_and-zero_below (suc k) a h =
    omega (arith, bit_and_step a 0, bit_and-zero_below k (a / 2) (omega (arith, pow-suc 2 k)))

bit_or-zero_below : (k a : ℕ) → a < 2 ^ k → bit_or a 0 ≡ a
bit_or-zero_below zero a h = let e : a ≡ 0 = omega arith in ap (λ t. bit_or t 0) e ∙ sym e
bit_or-zero_below (suc k) a h =
    omega (arith, bit_or_step a 0, bit_or-zero_below k (a / 2) (omega (arith, pow-suc 2 k)))

lt-two_pow : (n : ℕ) → n < 2 ^ n
lt-two_pow zero = omega arith
lt-two_pow (suc n) = omega (arith, lt-two_pow n, pow-suc 2 n, one-le-pow n 2)

pub bit_and-zero : (a : ℕ) → bit_and a 0 ≡ 0
bit_and-zero a = bit_and-zero_below a a (lt-two_pow a)

pub bit_or-zero : (a : ℕ) → bit_or a 0 ≡ a
bit_or-zero a = bit_or-zero_below a a (lt-two_pow a)

pub zero-bit_or : (a : ℕ) → bit_or 0 a ≡ a
zero-bit_or a = bit_or-bitwise 0 a

-- A number below `2 ^ k` is not changed by a mask of `k` ones.
pub bit_and_ones : (k a : ℕ) → a < 2 ^ k → bit_and a (2 ^ k - 1) ≡ a
bit_and_ones zero a h = omega (arith, bit_and-zero a)
bit_and_ones (suc k) a h =
    let half : (2 ^ suc k - 1) / 2 ≡ 2 ^ k - 1 = omega (arith, pow-suc 2 k, one-le-pow k 2) in
    omega (
      arith,
      bit_and_step a (2 ^ suc k - 1),
      ap (bit_and (a / 2)) half,
      bit_and_ones k (a / 2) (omega (arith, pow-suc 2 k)),
      pow-suc 2 k,
      one-le-pow k 2,
    )

-- A sum of a multiple of `2 ^ k` and a number below it is their `|`.
pub bit_or_fields : (k q r : ℕ) → r < 2 ^ k → bit_or (q * 2 ^ k) r ≡ q * 2 ^ k + r
bit_or_fields k q r h =
    let e : q * 2 ^ k + 0 ≡ q * 2 ^ k = omega arith in
    let z : 0 * 2 ^ k + r ≡ r = omega arith in
    omega (
      arith,
      bit_or_cut k q 0 0 r (omega (arith, one-le-pow k 2)) h,
      ap₂ bit_or e z,
      bit_or-zero q,
      zero-bit_or r,
      ap (λ (t : ℕ). t * 2 ^ k) (bit_or-zero q),
    )

pub bit_or_fields_left : (k q r : ℕ) → r < 2 ^ k → bit_or r (q * 2 ^ k) ≡ q * 2 ^ k + r
bit_or_fields_left k q r h =
    let e : q * 2 ^ k + 0 ≡ q * 2 ^ k = omega arith in
    let z : 0 * 2 ^ k + r ≡ r = omega arith in
    omega (
      arith,
      bit_or_cut k 0 r q 0 h (omega (arith, one-le-pow k 2)),
      ap₂ bit_or z e,
      zero-bit_or q,
      bit_or-zero r,
      ap (λ (t : ℕ). t * 2 ^ k) (zero-bit_or q),
    )

cut_at : (k a : ℕ) → (a / 2 ^ k) * 2 ^ k + a % 2 ^ k ≡ a
cut_at k a = div-add-mod' a (2 ^ k)

mod-lt_pow : (k a : ℕ) → a % 2 ^ k < 2 ^ k
mod-lt_pow k a = mod-lt a (omega (arith, one-le-pow k 2))

-- A mask of `k` ones takes the remainder by `2 ^ k`.
pub bit_and_mask : (k a : ℕ) → bit_and a (2 ^ k - 1) ≡ a % 2 ^ k
bit_and_mask k a =
    let e : 0 * 2 ^ k + (2 ^ k - 1) ≡ 2 ^ k - 1 = omega arith in
    omega (
      arith,
      bit_and_cut k (a / 2 ^ k) (a % 2 ^ k) 0 (2 ^ k - 1) (mod-lt_pow k a)
          (omega (arith, one-le-pow k 2)),
      ap₂ bit_and (cut_at k a) e,
      ap (λ (t : ℕ). t * 2 ^ k) (bit_and-zero (a / 2 ^ k)),
      bit_and_ones k (a % 2 ^ k) (mod-lt_pow k a),
    )

-- A mask of `j` ones from place `k` on takes a field, and leaves it in its place.
pub bit_and_field : (k j a : ℕ) → bit_and a ((2 ^ j - 1) * 2 ^ k) ≡ a / 2 ^ k % 2 ^ j * 2 ^ k
bit_and_field k j a =
    let e : (2 ^ j - 1) * 2 ^ k + 0 ≡ (2 ^ j - 1) * 2 ^ k = omega arith in
    omega (
      arith,
      bit_and_cut k (a / 2 ^ k) (a % 2 ^ k) (2 ^ j - 1) 0 (mod-lt_pow k a)
          (omega (arith, one-le-pow k 2)),
      ap₂ bit_and (cut_at k a) e,
      ap (λ (t : ℕ). t * 2 ^ k) (bit_and_mask j (a / 2 ^ k)),
      bit_and-zero (a % 2 ^ k),
    )

pub bit_and_split :
    (k a b : ℕ)
    → bit_and a b ≡ bit_and (a / 2 ^ k) (b / 2 ^ k) * 2 ^ k + bit_and (a % 2 ^ k) (b % 2 ^ k)
bit_and_split k a b =
    sym (ap₂ bit_and (cut_at k a) (cut_at k b))
    ∙ bit_and_cut k (a / 2 ^ k) (a % 2 ^ k) (b / 2 ^ k) (b % 2 ^ k) (mod-lt_pow k a)
        (mod-lt_pow k b)

pub bit_or_split :
    (k a b : ℕ)
    → bit_or a b ≡ bit_or (a / 2 ^ k) (b / 2 ^ k) * 2 ^ k + bit_or (a % 2 ^ k) (b % 2 ^ k)
bit_or_split k a b =
    sym (ap₂ bit_or (cut_at k a) (cut_at k b))
    ∙ bit_or_cut k (a / 2 ^ k) (a % 2 ^ k) (b / 2 ^ k) (b % 2 ^ k) (mod-lt_pow k a) (mod-lt_pow k b)

-- `|` of numbers that are known to be a high and a low part.
pub bit_or_sum : (k q r x y : ℕ) → x ≡ q * 2 ^ k → y ≡ r → r < 2 ^ k → bit_or x y ≡ q * 2 ^ k + r
bit_or_sum k q r x y ex ey h = ap₂ bit_or ex ey ∙ bit_or_fields k q r h
