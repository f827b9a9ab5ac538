-- ===== src/Base/Memory.antt =====
-- Byte memories as functions from addresses, the C library's `memcpy`, and words of `n` bytes as a
-- little-endian host keeps them.
use Prim.Native.Nat.{ℕ, zero, suc, ◌+◌, ◌-◌, ◌*◌, ◌/◌, ◌%◌, ◌^◌, ◌≤◌, ◌<◌}
use mathlib.Core.Path.{◌≡◌, refl, ap, ◌∙◌, fun_ext}
use mathlib.Core.Bool.{◌&&◌}
use native.Mathlib.Omega.{arith}
use native.Mathlib.Nat.{pow-suc}
use hostpimsim_gecon.Base.Tests.{ltb, leb, ◌==◌, if◌then◌else◌}

abbrev pub u8 : ℕ → ℕ
u8 v = v % 2 ^ 8

abbrev pub u16 : ℕ → ℕ
u16 v = v % 2 ^ 16

abbrev pub u32 : ℕ → ℕ
u32 v = v % 2 ^ 32

abbrev pub u64 : ℕ → ℕ
u64 v = v % 2 ^ 64

abbrev pub Bytes : Type 0
Bytes = ℕ → ℕ

abbrev pub IsBytes : Bytes → Type 0
IsBytes m = (i : ℕ) → m i < 256

unfoldable pub update {ℓ} : {A : Type ℓ} → (ℕ → A) → ℕ → A → ℕ → A
update m a v i = if i == a then v else m i

-- `memcpy(dst + d, src + s, n)`.
unfoldable pub memcpy : ℕ → Bytes → ℕ → Bytes → ℕ → Bytes
memcpy n dst d src s i = if leb d i && ltb i (d + n) then src (s + (i - d)) else dst i

-- `memcpy(&value, m + off, n)`.
unfoldable pub load_le : ℕ → Bytes → ℕ → ℕ
load_le zero m off = 0
load_le (suc n) m off = m off + 256 * load_le n m (off + 1)

-- `memcpy(m + off, &value, n)`.
unfoldable pub store_le : ℕ → Bytes → ℕ → ℕ → Bytes
store_le zero m off v = m
store_le (suc n) m off v = store_le n (update m off (v % 256)) (off + 1) (v / 256)

-- The word whose most significant byte comes first.
unfoldable pub load_be : ℕ → Bytes → ℕ → ℕ
load_be zero m off = 0
load_be (suc n) m off = m off * 256 ^ n + load_be n m (off + 1)

pub store_le_below : (n : ℕ) (m : Bytes) (off v i : ℕ) → i < off → store_le n m off v i ≡ m i
unfolding store_le update
store_le_below zero m off v i h = refl
store_le_below (suc n) m off v i h =
    store_le_below n (update m off (v % 256)) (off + 1) (v / 256) i (omega arith) ∙ ground arith

pub store_le_above : (n : ℕ) (m : Bytes) (off v i : ℕ) → off + n ≤ i → store_le n m off v i ≡ m i
unfolding store_le update
store_le_above zero m off v i h = refl
store_le_above (suc n) m off v i h =
    store_le_above n (update m off (v % 256)) (off + 1) (v / 256) i (omega arith) ∙ ground arith

pub load_le-store_le :
    (n : ℕ) (m : Bytes) (off v : ℕ) → v < 256 ^ n → load_le n (store_le n m off v) off ≡ v
unfolding load_le store_le update
load_le-store_le zero m off v h = omega arith
load_le-store_le (suc n) m off v h =
    let first : store_le n (update m off (v % 256)) (off + 1) (v / 256) off ≡ v % 256 =
      store_le_below n (update m off (v % 256)) (off + 1) (v / 256) off (omega arith)
      ∙ ground arith in
    omega (
      arith,
      first,
      load_le-store_le n (update m off (v % 256)) (off + 1) (v / 256)
          (omega (arith, pow-suc 256 n)),
    )

pub load_le-cong :
    (n : ℕ) (m k : Bytes) (a b : ℕ)
    → ((i : ℕ) → i < n → m (a + i) ≡ k (b + i))
    → load_le n m a ≡ load_le n k b
unfolding load_le
load_le-cong zero m k a b h = refl
load_le-cong (suc n) m k a b h =
    let first : m a ≡ k b = ap m (omega arith) ∙ h 0 (omega arith) ∙ ap k (omega arith) in
    let rest : load_le n m (a + 1) ≡ load_le n k (b + 1) =
      load_le-cong n m k (a + 1) (b + 1)
        (λ i hi. ap m (omega arith) ∙ h (i + 1) (omega arith) ∙ ap k (omega arith)) in
    omega (arith, first, rest)

pub load_le-lt : (n : ℕ) (m : Bytes) (off : ℕ) → IsBytes m → load_le n m off < 256 ^ n
unfolding load_le
load_le-lt zero m off h = omega arith
load_le-lt (suc n) m off h = omega (arith, h off, load_le-lt n m (off + 1) h, pow-suc 256 n)

pub store_le-IsBytes : (n : ℕ) (m : Bytes) (off v : ℕ) → IsBytes m → IsBytes (store_le n m off v)
unfolding store_le update
store_le-IsBytes zero m off v h = h
store_le-IsBytes (suc n) m off v h =
    store_le-IsBytes n (update m off (v % 256)) (off + 1) (v / 256) (λ i. ground (arith, h i))

pub memcpy-IsBytes :
    (n : ℕ) (dst : Bytes) (d : ℕ) (src : Bytes) (s : ℕ)
    → IsBytes dst
    → IsBytes src
    → IsBytes (memcpy n dst d src s)
unfolding memcpy
memcpy-IsBytes n dst d src s hd hs i = ground (arith, hd i, hs (s + (i - d)))

pub memcpy-zero : (dst : Bytes) (d : ℕ) (src : Bytes) (s : ℕ) → memcpy 0 dst d src s ≡ dst
unfolding memcpy
memcpy-zero dst d src s = fun_ext λ i. ground arith

-- A block that is copied on from where it was copied to is the block.
pub memcpy-memcpy :
    (n : ℕ) (dst : Bytes) (d : ℕ) (mid : Bytes) (o : ℕ) (src : Bytes) (s : ℕ)
    → memcpy n dst d (memcpy n mid o src s) o ≡ memcpy n dst d src s
unfolding memcpy
memcpy-memcpy n dst d mid o src s = fun_ext λ i.
    let e : o + (i - d) - o ≡ i - d = omega arith in
    ground (arith, e, ap (λ (t : ℕ). src (s + t)) e)
