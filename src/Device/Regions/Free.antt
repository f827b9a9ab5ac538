-- ===== src/Device/Regions/Free.antt =====
-- `pim_region_free`, and the walk by `pim_device_get_next_region`.
use hostpimsim_gecon.Base.{
  ℕ, ◌+◌, ◌≤◌, ◌<◌, ◌≡◌, ◌≢◌, ◌⊎◌, inl, inr, refl, arith, ◌&&◌, none, some, Option-cases,
  Bool-cases, [], ◌∷◌, ltb, leb, if◌then◌else◌, ℕ_discrete,
}
use mathlib.Core.Path.{subst₂}
use hostpimsim_gecon.Device.Status.{success}
use hostpimsim_gecon.Device.Regions.Defs.{
  Region, RegionMap, Device, find, erase, after, is_topology_mutation_blocked, pim_region_free,
  pim_device_get_region, pim_device_get_next_region,
}
use hostpimsim_gecon.Device.Regions.Layout.{Fits, IsValid}
use hostpimsim_gecon.Device.Regions.Owners.{
  has_byte, owner, owner-outside, erase-Fits, owner-erase, find-bounds,
}

-- Freeing a region ends in one of two ways. In success, the region was the one filed under its offset,
-- the table is valid again, and of its bytes, and only of those, the owner is taken away. With an error,
-- the device is as before.
pub pim_region_free-owner :
    (d : Device) (r : Region)
    → IsValid d
    → let (got, d') = pim_region_free d r in
      ((s : Region) × (got ≡ success)
        × (pim_device_get_region d r.offset ≡ some s)
        × (s.self ≡ r.self)
        × IsValid d'
        × ((i : ℕ) → owner d'.regions i ≡ (if has_byte s i then none else owner d.regions i)))
      ⊎ ((got ≢ success) × (d' ≡ d))
unfolding pim_region_free pim_device_get_region
pim_region_free-owner d r v = elim (Bool-cases (is_topology_mutation_blocked d)) [
  | inl b ↦ inr (λ h. ground (arith, b, h), ground (arith, b))
  | inr u ↦ elim (Option-cases (find r.offset d.regions)) [
    | inl e ↦ inr (λ h. ground (arith, u, e, h), ground (arith, u, e))
    | inr (s, e) ↦ elim (ℕ_discrete s.self r.self) [
      | no ne ↦ inr (λ h. ground (arith, u, e, ne, h), ground (arith, u, e, ne))
      | yes same ↦
          let d' : Device = record d { regions = erase r.offset d.regions } in
          let step : pim_region_free d r ≡ (success, d') = ground (arith, u, e, same) in
          inl (
            rw step (
              s,
              refl,
              e,
              same,
              record { layout = erase-Fits r.offset 0 d.size d.regions v.layout; small = v.small },
              λ i. owner-erase r.offset 0 d.size d.regions s i v.layout e,
            ))
    ]
  ]
]

-- The region after one that is filed lies past it, and nobody owns a byte between the two.
after-some :
    (k lo hi : ℕ) (m : RegionMap) (r s : Region)
    → Fits lo hi m
    → find k m ≡ some r
    → after k m ≡ some s
    → (r.offset + r.size ≤ s.offset)
      × (find s.offset m ≡ some s)
      × ((i : ℕ) → r.offset + r.size ≤ i → i < s.offset → owner m i ≡ none)
unfolding find owner after
after-some k lo hi [] r s h e n = cc
after-some k lo hi ((j, t) ∷ []) r s h e n = absurd (ground (arith, n))
after-some k lo hi ((j, t) ∷ (i, u) ∷ m) r s h e n = elim (ℕ_discrete k j) [
  | yes same ↦
      let er : t ≡ r = ground (arith, e, same) in
      let es : u ≡ s = ground (arith, n, same) in
      let past =
        λ (x : ℕ) (lt : x < i + u.size). owner-outside (i + u.size) hi m x h.3.3 (inl lt) in
      subst₂
        (λ (r : Region) (s : Region).
          (r.offset + r.size ≤ s.offset)
          × (find s.offset ((j, t) ∷ (i, u) ∷ m) ≡ some s)
          × ((x : ℕ) → r.offset + r.size ≤ x → x < s.offset → owner ((j, t) ∷ (i, u) ∷ m) x ≡ none))
        er es (ground (arith, h), ground (arith, h), λ x lo' hi'. ground (arith, h, past x))
  | no other ↦
      let found : find k ((i, u) ∷ m) ≡ some r = ground (arith, e, other) in
      let next : after k ((i, u) ∷ m) ≡ some s = ground (arith, n, other) in
      let rest = after-some k (j + t.size) hi ((i, u) ∷ m) r s h.3 found next in
      let b = find-bounds k (j + t.size) hi ((i, u) ∷ m) r h.3 found in
      (
        rest.0,
        ground (arith, rest.0, rest.1, b, h),
        λ x lo' hi'. ground (arith, rest.2 x lo' hi', b, h),
      )
]

-- The walk over a valid device: what follows a region of it is a region of it that lies past the first,
-- and nobody owns a byte between the two, so that the walk meets the regions in order and leaves none out.
pim_device_get_next_region-some :
    (d : Device) (r s : Region)
    → IsValid d
    → pim_device_get_region d r.offset ≡ some r
    → pim_device_get_next_region d (some r) ≡ some s
    → (r.offset + r.size ≤ s.offset)
      × (pim_device_get_region d s.offset ≡ some s)
      × ((i : ℕ)
          → (if leb (r.offset + r.size) i && ltb i s.offset then owner d.regions i else none)
            ≡ none)
unfolding pim_device_get_region pim_device_get_next_region
pim_device_get_next_region-some d r s v e n =
    let a = after-some r.offset 0 d.size d.regions r s v.layout e (ground (arith, e, n)) in
    (a.0, a.1, λ i. ground (arith, a.2 i))
