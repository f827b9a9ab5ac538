-- ===== src/Pipeline/Execute/Locks.antt =====
-- The atomic bits under `acquire` and `release`: a set of locks.
use hostpimsim_gecon.Base.{
  ℕ, ◌-◌, ◌/◌, ◌%◌, ◌^◌, ◌<◌, ◌≡◌, refl, ap, ap₂, fun_ext, ◌∙◌, arith, Bool, true, false, not, ◌&&◌,
  ◌||◌, List, [], ◌∷◌, ◌==◌, if◌then◌else◌, bit_and, bit_or, u8, update, bit_at, bit_at-bit_or,
  bit_at-bit_and, bit_at-two_pow, bit_at-complement, bit_and-two_pow_ne, bit_or-lt, bit_and-lt,
  two_pow-lt,
}
use hostpimsim_gecon.Dpu.State.{Pipeline}
use hostpimsim_gecon.Pipeline.Execute.Threads.{acquire_bit, release_bit}

-- Whether a bit is held.
abbrev pub held : Pipeline → ℕ → Bool
held p i = bit_at (p.atomic_bits (i / 8)) (i % 8)

abbrev pub AreBytes : Pipeline → Type 0
AreBytes p = (k : ℕ) → p.atomic_bits k < 256

module _ (i : ℕ) (p : Pipeline) (bytes : AreBytes p) where
  own_byte : ℕ
  own_byte = p.atomic_bits (i / 8)

  mask-lt : 2 ^ (i % 8) < 2 ^ 8
  mask-lt = two_pow-lt 8 (i % 8) (omega arith)

  set_bit :
      (k : ℕ) → bit_at (u8 (bit_or own_byte (2 ^ (i % 8)))) k ≡ (bit_at own_byte k || (i % 8 == k))
  unfolding own_byte
  set_bit k =
      let whole : u8 (bit_or own_byte (2 ^ (i % 8))) ≡ bit_or own_byte (2 ^ (i % 8)) =
        omega (arith, bit_or-lt 8 own_byte (2 ^ (i % 8)) (bytes (i / 8)) mask-lt) in
      rw (whole, bit_at-bit_or, bit_at-two_pow) refl

  clear_bit :
      (k : ℕ)
      → k < 8
      → bit_at (u8 (bit_and own_byte (0xff - 2 ^ (i % 8)))) k
        ≡ (bit_at own_byte k && not (i % 8 == k))
  unfolding own_byte
  clear_bit k lt =
      let whole : u8 (bit_and own_byte (0xff - 2 ^ (i % 8)))
          ≡ bit_and own_byte (0xff - 2 ^ (i % 8)) =
        omega (arith, bit_and-lt 8 own_byte (0xff - 2 ^ (i % 8)) (bytes (i / 8))) in
      let flip = bit_at-complement 8 (2 ^ (i % 8)) k mask-lt lt in
      rw (whole, bit_at-bit_and, flip, bit_at-two_pow) refl

  pub acquire_bit-held : (j : ℕ) → held (acquire_bit i p).1 j ≡ (if j == i then true else held p j)
  unfolding acquire_bit update own_byte
  acquire_bit-held j = ground (arith, set_bit (j % 8))

  pub release_bit-held : (j : ℕ) → held (release_bit i p).1 j ≡ (if j == i then false else held p j)
  unfolding release_bit update own_byte
  release_bit-held j = ground (arith, clear_bit (j % 8) (omega arith))

  pub acquire_bit-result : (acquire_bit i p).0 ≡ (if held p i then 1 else 0)
  unfolding acquire_bit
  acquire_bit-result = ground (arith, bit_and-two_pow_ne (p.atomic_bits (i / 8)) (i % 8))

  pub release_bit-result : (release_bit i p).0 ≡ (if held p i then 0 else 1)
  unfolding release_bit
  release_bit-result = ground (arith, bit_and-two_pow_ne (p.atomic_bits (i / 8)) (i % 8))

  pub acquire_bit-AreBytes : AreBytes (acquire_bit i p).1
  unfolding acquire_bit update
  acquire_bit-AreBytes k = ground (arith, bytes k)

  pub release_bit-AreBytes : AreBytes (release_bit i p).1
  unfolding release_bit update
  release_bit-AreBytes k = ground (arith, bytes k)

-- A use of a lock: whether it is a release, and the number of the lock.
abbrev pub Use : Type 0
Use = Bool × ℕ

-- The results of a sequence of uses, whichever tasklets make them.
abbrev pub results : List Use → Pipeline → List ℕ
results [] p = []
results ((false, i) ∷ uses) p = (acquire_bit i p).0 ∷ results uses (acquire_bit i p).1
results ((true, i) ∷ uses) p = (release_bit i p).0 ∷ results uses (release_bit i p).1

abbrev same_bit : Bool → Bool → Bool
same_bit true b = b
same_bit false b = not b

-- The same over a set of locks: 0 if the use changes the lock, 1 if not.
abbrev pub set_results : List Use → (ℕ → Bool) → List ℕ
set_results [] is_held = []
set_results ((released, i) ∷ uses) is_held =
    (if same_bit (is_held i) (not released) then 1 else 0)
    ∷ set_results uses (λ j. if j == i then not released else is_held j)

-- Any sequence of acquires and releases, of whichever tasklets, gives what a set of independent locks gives: 0 for an
-- acquire of a lock that is free and for a release of one that is held, else 1.
pub results-set_results :
    (uses : List Use) (p : Pipeline) → AreBytes p → results uses p ≡ set_results uses (held p)
results-set_results [] p bytes = refl
results-set_results ((false, i) ∷ uses) p bytes =
    let first : (acquire_bit i p).0 ≡ (if same_bit (held p i) true then 1 else 0) =
      ground (arith, acquire_bit-result i p bytes) in
    let next : held (acquire_bit i p).1 ≡ (λ j. if j == i then true else held p j) =
      fun_ext (acquire_bit-held i p bytes) in
    let rest = results-set_results uses (acquire_bit i p).1 (acquire_bit-AreBytes i p bytes) in
    ap₂ ◌∷◌ first (rest ∙ ap (set_results uses) next)
results-set_results ((true, i) ∷ uses) p bytes =
    let first : (release_bit i p).0 ≡ (if same_bit (held p i) false then 1 else 0) =
      ground (arith, release_bit-result i p bytes) in
    let next : held (release_bit i p).1 ≡ (λ j. if j == i then false else held p j) =
      fun_ext (release_bit-held i p bytes) in
    let rest = results-set_results uses (release_bit i p).1 (release_bit-AreBytes i p bytes) in
    ap₂ ◌∷◌ first (rest ∙ ap (set_results uses) next)
