-- ===== src/Device/Regions/Owners.antt =====
-- The abstract view of a region table: which region, if any, has a byte. The view forgets the order and
-- the map; creating and freeing are described in it.
use hostpimsim_gecon.Base.{
  ℕ, ◌+◌, ◌≤◌, ◌<◌, ◌≡◌, ◌⊎◌, inl, inr, refl, arith, Bool, ◌&&◌, Option, none, some, [], ◌∷◌, ltb,
  leb, ◌==◌, if◌then◌else◌, dec_le, ℕ_discrete,
}
use hostpimsim_gecon.Device.Regions.Defs.{Region, RegionMap, find, emplace, erase}
use hostpimsim_gecon.Device.Regions.Layout.{Fits, Fits-le, Fits-weaken, IsFree}

abbrev pub has_byte : Region → ℕ → Bool
has_byte r i = leb r.offset i && ltb i (r.offset + r.size)

unfoldable pub owner : RegionMap → ℕ → Option Region
owner [] i = none
owner ((k, r) ∷ m) i = if has_byte r i then some r else owner m i

-- A range is free exactly when nobody owns a byte of it.
pub IsFree-owner :
    (o n : ℕ) (m : RegionMap) → IsFree o n m → (i : ℕ) → o ≤ i → i < o + n → owner m i ≡ none
unfolding owner
IsFree-owner o n [] f i lo hi = refl
IsFree-owner o n ((k, r) ∷ m) f i lo hi = ground (arith, f, IsFree-owner o n m f.1 i lo hi)

pub owner-IsFree :
    (o n lo hi : ℕ) (m : RegionMap)
    → Fits lo hi m
    → 0 < n
    → ((i : ℕ) → o ≤ i → i < o + n → owner m i ≡ none)
    → IsFree o n m
unfolding owner
owner-IsFree o n lo hi [] h pos f = tt
owner-IsFree o n lo hi ((k, r) ∷ m) h pos f = (
  elim (dec_le (o + n) r.offset) [
    | yes le ↦ inl le
    | no gt ↦ elim (dec_le (r.offset + r.size) o) [
      | yes le ↦ inr le
      | no gt' ↦ elim (dec_le o r.offset) [
        | yes le ↦ absurd (ground (arith, h, f r.offset le))
        | no gt'' ↦ absurd (ground (arith, h, f o))
      ]
    ]
  ],
  owner-IsFree o n (k + r.size) hi m h.3 pos (λ i lo' hi'. ground (arith, f i lo' hi')),
)

-- A byte below or above all the regions has no owner.
pub owner-outside :
    (lo hi : ℕ) (m : RegionMap) (i : ℕ) → Fits lo hi m → (i < lo) ⊎ (hi ≤ i) → owner m i ≡ none
unfolding owner
owner-outside lo hi [] i h out = refl
owner-outside lo hi ((k, r) ∷ m) i h (inl lt) =
    ground (arith, h, owner-outside (k + r.size) hi m i h.3 (inl (omega (arith, h.1))))
owner-outside lo hi ((k, r) ∷ m) i h (inr ge) =
    ground (arith, h, Fits-le (k + r.size) hi m h.3, owner-outside (k + r.size) hi m i h.3 (inr ge))

-- What a table is after a region was put in.
pub record Inserted (lo hi : ℕ) (r : Region) (m m' : RegionMap) : Type 0 where
  pub done : emplace r.offset r m ≡ some m'
  pub layout : Fits lo hi m'
  pub owned : (i : ℕ) → owner m' i ≡ (if has_byte r i then some r else owner m i)
  pub found : (k : ℕ) → find k m' ≡ (if k == r.offset then some r else find k m)
  pub undone : erase r.offset m' ≡ m

-- A region whose range is free can be put in.
pub emplace-Inserted :
    (lo hi : ℕ) (r : Region) (m : RegionMap)
    → Fits lo hi m
    → lo ≤ r.offset
    → 0 < r.size
    → r.offset + r.size ≤ hi
    → IsFree r.offset r.size m
    → (m' : RegionMap) × Inserted lo hi r m m'
unfolding emplace owner find erase
emplace-Inserted lo hi r [] h le pos fits f = (
  (r.offset, r) ∷ [],
  record {
    done = refl;
    layout = (refl, le, pos, fits);
    owned = λ i. refl;
    found = λ k. refl;
    undone = ground arith;
  },
)
emplace-Inserted lo hi r ((k, s) ∷ m) h le pos fits f = elim f.0 [
  | inl first ↦ (
    (r.offset, r) ∷ (k, s) ∷ m,
    record {
      done = ground (arith, h, first);
      layout = (refl, le, pos, (h.0, omega (arith, h.0), h.2, h.3));
      owned = λ i. refl;
      found = λ j. refl;
      undone = ground arith;
    },
  )
  | inr later ↦
      let (m', p) = emplace-Inserted (k + s.size) hi r m h.3 (omega (arith, h.0)) pos fits f.1 in
      (
        (k, s) ∷ m',
        record {
          done = ground (arith, h, later, p.done);
          layout = (h.0, h.1, h.2, p.layout);
          owned = λ i. ground (arith, p.owned i, later);
          found = λ j. ground (arith, p.found j, h, later);
          undone = ground (arith, p.undone, h, later);
        },
      )
]

pub find-bounds :
    (k lo hi : ℕ) (m : RegionMap) (r : Region)
    → Fits lo hi m
    → find k m ≡ some r
    → (lo ≤ r.offset) × (r.offset ≡ k) × (0 < r.size) × (r.offset + r.size ≤ hi)
unfolding find
find-bounds k lo hi [] r h e = cc
find-bounds k lo hi ((j, s) ∷ m) r h e = elim (ℕ_discrete k j) [
  | yes same ↦ ground (arith, h, Fits-le (j + s.size) hi m h.3)
  | no other ↦ ground (arith, h, find-bounds k (j + s.size) hi m r h.3)
]

pub erase-Fits : (k lo hi : ℕ) (m : RegionMap) → Fits lo hi m → Fits lo hi (erase k m)
unfolding erase
erase-Fits k lo hi [] h = h
erase-Fits k lo hi ((j, s) ∷ m) h =
    let dropped = Fits-weaken (j + s.size) lo hi m (omega (arith, h.1)) h.3 in
    ground (arith, h, dropped, erase-Fits k (j + s.size) hi m h.3)

-- Taking a region out gives its bytes up, and no others.
pub owner-erase :
    (k lo hi : ℕ) (m : RegionMap) (r : Region) (i : ℕ)
    → Fits lo hi m
    → find k m ≡ some r
    → owner (erase k m) i ≡ (if has_byte r i then none else owner m i)
unfolding erase owner find
owner-erase k lo hi [] r i h e = cc
owner-erase k lo hi ((j, s) ∷ m) r i h e =
    let below = λ (lt : i < j + s.size). owner-outside (j + s.size) hi m i h.3 (inl lt) in
    elim (ℕ_discrete k j) [
      | yes same ↦ ground (arith, h, below)
      | no other ↦
          let found : find k m ≡ some r = ground (arith, e, other) in
          let b = find-bounds k (j + s.size) hi m r h.3 found in
          ground (arith, h, other, b, owner-erase k (j + s.size) hi m r i h.3 found)
    ]
