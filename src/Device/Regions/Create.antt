-- ===== src/Device/Regions/Create.antt =====
-- `pim_region_create` and `pim_region_free` against the abstract view, and the order of the walk.
use hostpimsim_gecon.Base.{
  ℕ, ◌+◌, ◌≤◌, ◌<◌, ◌≡◌, ◌∙◌, inl, inr, refl, arith, true, false, ◌&&◌, none, some, Option-cases,
  Bool-cases, ◌⊎◌, dec_lt, dec_le, ltb, leb, ◌==◌, if◌then◌else◌, u64,
}
use hostpimsim_gecon.Device.Status.{success, RegionType}
use hostpimsim_gecon.Device.Regions.Defs.{
  Region, Device, Resources, find, overlaps, is_topology_mutation_blocked, pim_region_create,
  pim_region_free, pim_device_get_region,
}
use hostpimsim_gecon.Device.Regions.Layout.{IsValid, IsFree, overlaps_iff}
use hostpimsim_gecon.Device.Regions.Owners.{
  has_byte, owner, IsFree-owner, owner-IsFree, emplace-Inserted,
}

-- A range of the device that nobody owns a byte of.
abbrev pub IsGrantable : ℕ → ℕ → Device → Type 0
IsGrantable offset size d =
    (0 < size)
    × (offset + size ≤ d.size)
    × ((i : ℕ) → (if leb offset i && ltb i (offset + size) then owner d.regions i else none) ≡ none)

-- The system and the allocator have what a creation needs.
pub record HasAll (e : Resources) (page self : ℕ) : Type 0 where
  pub paged : e.page_size ≡ some page
  pub object : e.object ≡ some self
  pub node : e.node ≡ true

abbrev pub new_region : ℕ → ℕ → Device → ℕ → ℕ → RegionType → Region
new_region page self d offset size type = record {
  self = self;
  offset = offset;
  size = size;
  page_size = page;
  ptr = u64 (d.ptr + offset);
  type = type;
}

-- What a creation that succeeded has done, in the view of owners.
pub record Created (r : Region) (d d' : Device) : Type 0 where
  pub valid : IsValid d'
  pub owned : (i : ℕ) → owner d'.regions i ≡ (if has_byte r i then some r else owner d.regions i)
  pub found :
      (k : ℕ)
      → pim_device_get_region d' k ≡ (if k == r.offset then some r else pim_device_get_region d k)
  pub freed : pim_region_free d' r ≡ (success, d)

-- The region that is created owns its range, all other bytes have the owner they had, and freeing it
-- gives the device back.
pub pim_region_create-Created :
    (e : Resources) (page self : ℕ) (d : Device) (offset size : ℕ) (type : RegionType)
    → IsValid d
    → is_topology_mutation_blocked d ≡ false
    → HasAll e page self
    → IsGrantable offset size d
    → let r = new_region page self d offset size type in
      let (got, d') = pim_region_create e d offset size type in (got ≡ some r) × Created r d d'
unfolding pim_region_create pim_region_free pim_device_get_region is_topology_mutation_blocked
pim_region_create-Created e page self d offset size type v unblocked all g =
    let r : Region = new_region page self d offset size type in
    let free : IsFree offset size d.regions =
      owner-IsFree offset size 0 d.size d.regions v.layout g.0
        (λ i a b. ground (arith, g.2 i, a, b)) in
    let clear : overlaps offset size d.regions ≡ false =
      (overlaps_iff offset size d.size d.regions v.layout v.small g.0 g.1).1 free in
    let (m, p) = emplace-Inserted 0 d.size r d.regions v.layout (omega arith) g.0 g.1 free in
    let d' : Device = record d { regions = m } in
    let step : pim_region_create e d offset size type ≡ (some r, d') =
      ground (arith, unblocked, all.paged, all.object, all.node, clear, p.done, g.0, g.1) in
    let back : find offset m ≡ some r = p.found offset ∙ ground arith in
    rw step (
      refl,
      record {
        valid = record { layout = p.layout; small = v.small };
        owned = p.owned;
        found = p.found;
        freed = ground (arith, unblocked, back, p.undone);
      },
    )

-- Whatever the system and the allocator give, a creation either returns no region and changes nothing, or
-- it returns the region that was asked for, at the page size and the object they gave. That happens only
-- for a range that can be granted and a device that may be changed; the region then owns its range, all
-- other bytes have the owner they had, and freeing it gives the device back.
pub pim_region_create-IsGrantable :
    (e : Resources) (d : Device) (offset size : ℕ) (type : RegionType)
    → IsValid d
    → let (got, d') = pim_region_create e d offset size type in
      ((got ≡ none) × (d' ≡ d))
      ⊎ ((page : ℕ) × (self : ℕ) × (e.page_size ≡ some page)
          × (e.object ≡ some self)
          × (got ≡ some (new_region page self d offset size type))
          × IsGrantable offset size d
          × (is_topology_mutation_blocked d ≡ false)
          × Created (new_region page self d offset size type) d d')
unfolding pim_region_create
pim_region_create-IsGrantable e d offset size type v =
    elim (Bool-cases (is_topology_mutation_blocked d)) [
      | inl b ↦ inl (ground (arith, b), ground (arith, b))
      | inr u ↦ elim (dec_lt 0 size) [
        | no z ↦ inl (ground (arith, z), ground (arith, z))
        | yes pos ↦ elim (dec_le (offset + size) d.size) [
          | no out ↦ inl (ground (arith, u, pos, out), ground (arith, u, pos, out))
          | yes fits ↦ elim (Option-cases e.page_size) [
            | inl none_page ↦ inl (ground (arith, none_page), ground (arith, none_page))
            | inr (page, page_eq) ↦ elim (Bool-cases (overlaps offset size d.regions)) [
              | inl taken ↦ inl (ground (arith, page_eq, taken), ground (arith, page_eq, taken))
              | inr clear ↦ elim (Option-cases e.object) [
                | inl no_object ↦ inl (
                  ground (arith, page_eq, clear, no_object),
                  ground (arith, page_eq, clear, no_object),
                )
                | inr (self, self_eq) ↦ elim (Bool-cases e.node) [
                  | inr no_node ↦ inl (
                    ground (arith, page_eq, clear, self_eq, no_node),
                    ground (arith, page_eq, clear, self_eq, no_node),
                  )
                  | inl node ↦
                      let free =
                        (overlaps_iff offset size d.size d.regions v.layout v.small pos fits).0
                          clear in
                      let g : IsGrantable offset size d =
                        let none_owns = IsFree-owner offset size d.regions free in
                        (pos, fits, λ i. ground (arith, none_owns i)) in
                      let all : HasAll e page self = record {
                        paged = page_eq;
                        object = self_eq;
                        node = node;
                      } in
                      let made =
                        pim_region_create-Created e page self d offset size type v u all g in
                      inr (page, self, page_eq, self_eq, made.0, g, u, made.1)
                ]
              ]
            ]
          ]
        ]
      ]
    ]
