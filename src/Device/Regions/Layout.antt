-- ===== src/Device/Regions/Layout.antt =====
-- A region table lies within its device, in order and without overlaps; the test against the two
-- neighbours finds every overlap.
use hostpimsim_gecon.Base.{
  ℕ, ◌+◌, ◌^◌, ◌≤◌, ◌<◌, ◌≡◌, ◌⊎◌, inl, inr, arith, false, some, Option-cases, [], ◌∷◌, dec_lt,
}
use hostpimsim_gecon.Device.Regions.Defs.{Region, RegionMap, Device, lower_bound, before, overlaps}

-- The regions from `lo` to `hi`: none is empty, each is filed under its offset, and each begins where
-- the one before has ended or later.
abbrev pub Fits : ℕ → ℕ → RegionMap → Type 0
Fits lo hi [] = lo ≤ hi
Fits lo hi ((k, r) ∷ m) = (r.offset ≡ k) × (lo ≤ k) × (0 < r.size) × Fits (k + r.size) hi m

pub record IsValid (d : Device) : Type 0 where
  pub layout : Fits 0 d.size d.regions
  pub small : d.size < 2 ^ 64

-- No region has a byte of the range of `n` bytes at `o`.
abbrev pub IsFree : ℕ → ℕ → RegionMap → Type 0
IsFree o n [] = Unit
IsFree o n ((k, r) ∷ m) = ((o + n ≤ r.offset) ⊎ (r.offset + r.size ≤ o)) × IsFree o n m

pub Fits-le : (lo hi : ℕ) (m : RegionMap) → Fits lo hi m → lo ≤ hi
Fits-le lo hi [] h = h
Fits-le lo hi ((k, r) ∷ m) h = omega (arith, h.1, Fits-le (k + r.size) hi m h.3)

pub Fits-weaken : (lo lo' hi : ℕ) (m : RegionMap) → lo' ≤ lo → Fits lo hi m → Fits lo' hi m
Fits-weaken lo lo' hi [] le h = omega arith
Fits-weaken lo lo' hi ((k, r) ∷ m) le h = (h.0, omega (arith, h.1), h.2, h.3)

-- What lies past the end of a range is free of it.
IsFree-below : (o n lo hi : ℕ) (m : RegionMap) → Fits lo hi m → o + n ≤ lo → IsFree o n m
IsFree-below o n lo hi [] h le = tt
IsFree-below o n lo hi ((k, r) ∷ m) h le =
    (inl (omega (arith, h.0, h.1)), IsFree-below o n (k + r.size) hi m h.3 (omega (arith, h.1)))

before-bounds :
    (o lo hi : ℕ) (m : RegionMap) (p : Region)
    → Fits lo hi m
    → before o m ≡ some p
    → (lo ≤ p.offset) × (p.offset < o) × (p.offset + p.size ≤ hi)
unfolding before
before-bounds o lo hi [] p h e = cc
before-bounds o lo hi ((k, r) ∷ m) p h e =
    let above = Fits-le (k + r.size) hi m h.3 in
    elim (Option-cases (before o m)) [
      | inl none_later ↦ ground (arith, h, above)
      | inr (q, found) ↦
          let b = before-bounds o (k + r.size) hi m q h.3 found in ground (arith, h, b)
    ]

lower_bound-bounds :
    (o lo hi : ℕ) (m : RegionMap) (p : Region)
    → Fits lo hi m
    → lower_bound o m ≡ some p
    → (o ≤ p.offset) × (p.offset + p.size ≤ hi)
unfolding lower_bound
lower_bound-bounds o lo hi [] p h e = cc
lower_bound-bounds o lo hi ((k, r) ∷ m) p h e =
    let above = Fits-le (k + r.size) hi m h.3 in
    elim (dec_lt k o) [
      | yes lt ↦ lower_bound-bounds o (k + r.size) hi m p h.3 (ground arith)
      | no ge ↦ ground (arith, h, above)
    ]

-- The two neighbours leave the range free.
abbrev Neighbours : ℕ → ℕ → RegionMap → Type 0
Neighbours o n m =
    ((p : Region) → lower_bound o m ≡ some p → o + n ≤ p.offset)
    × ((p : Region) → before o m ≡ some p → p.offset + p.size ≤ o)

apart_IsFree : (o n lo hi : ℕ) (m : RegionMap) → Fits lo hi m → Neighbours o n m → IsFree o n m
unfolding lower_bound before
apart_IsFree o n lo hi [] h nb = tt
apart_IsFree o n lo hi ((k, r) ∷ m) h nb = elim (dec_lt k o) [
  | no ge ↦
      let le : o + n ≤ r.offset = nb.0 r (ground arith) in
      (inl le, IsFree-below o n (k + r.size) hi m h.3 (omega (arith, h.0)))
  | yes lt ↦
      let lower : (p : Region) → lower_bound o m ≡ some p → o + n ≤ p.offset =
        λ p e. nb.0 p (ground (arith, e)) in
      elim (Option-cases (before o m)) [
        | inl e ↦
            let le : r.offset + r.size ≤ o = nb.1 r (ground (arith, e)) in
            (
              inr le,
              apart_IsFree o n (k + r.size) hi m h.3 (lower, λ p f. absurd (ground (arith, e, f))),
            )
        | inr (q, e) ↦
            let le : q.offset + q.size ≤ o = nb.1 q (ground (arith, e)) in
            let b = before-bounds o (k + r.size) hi m q h.3 e in
            (
              inr (omega (arith, h.0, b)),
              apart_IsFree o n (k + r.size) hi m h.3 (lower, λ p f. nb.1 p (ground (arith, e, f))),
            )
      ]
]

clear_of_IsFree :
    (o n lo hi : ℕ) (m : RegionMap) → Fits lo hi m → 0 < n → IsFree o n m → Neighbours o n m
unfolding lower_bound before
clear_of_IsFree o n lo hi [] h pos f = (λ p e. cc, λ p e. cc)
clear_of_IsFree o n lo hi ((k, r) ∷ m) h pos f =
    let rest = clear_of_IsFree o n (k + r.size) hi m h.3 pos f.1 in
    elim (dec_lt k o) [
      | no ge ↦ (λ p e. ground (arith, f, h), λ p e. ground arith)
      | yes lt ↦ (
        λ p e. rest.0 p (ground arith),
        λ p e. elim (Option-cases (before o m)) [
          | inl none_later ↦ ground (arith, f, h)
          | inr (q, found) ↦ ground (arith, rest.1 q found, found)
        ],
      )
    ]

-- The test of the code, for a range that lies within the device, fails exactly on a free range.
pub overlaps_iff :
    (o n hi : ℕ) (m : RegionMap)
    → Fits 0 hi m
    → hi < 2 ^ 64
    → 0 < n
    → o + n ≤ hi
    → (overlaps o n m ≡ false → IsFree o n m) × (IsFree o n m → overlaps o n m ≡ false)
unfolding overlaps
overlaps_iff o n hi m h small pos fits =
    let ge = λ (p : Region). lower_bound-bounds o 0 hi m p h in
    let le = λ (p : Region). before-bounds o 0 hi m p h in
    (
      λ e.
          apart_IsFree o n 0 hi m h
            (λ p f. ground (arith, e, f, ge p f), λ p f. ground (arith, e, f, le p f)),
      λ f.
          let nb = clear_of_IsFree o n 0 hi m h pos f in
          elim (Option-cases (lower_bound o m)) [
            | inl e1 ↦ elim (Option-cases (before o m)) [
              | inl e2 ↦ ground (arith, e1, e2)
              | inr (q, e2) ↦ ground (arith, e1, e2, nb.1 q e2, le q e2)
            ]
            | inr (p, e1) ↦ elim (Option-cases (before o m)) [
              | inl e2 ↦ ground (arith, e1, e2, nb.0 p e1, ge p e1)
              | inr (q, e2) ↦ ground (arith, e1, e2, nb.0 p e1, ge p e1, nb.1 q e2, le q e2)
            ]
          ],
    )
