-- ===== src/Device/Regions/Defs.antt =====
-- The region table of a device. A region is known by the address of its object, `self`; a null `dev`
-- or `region`, which every function refuses at once, is not a case here.
use hostpimsim_gecon.Base.{
  ℕ, ◌+◌, ◌-◌, Bool, false, ◌||◌, not, Option, none, some, List, [], ◌∷◌, ltb, ◌==◌, if◌then◌else◌,
  u64,
}
use hostpimsim_gecon.Device.Status.{PimError, success, busy, not_found, RegionType}

pub record Region : Type 0 where
  pub self : ℕ
  pub offset : ℕ
  pub size : ℕ
  pub page_size : ℕ
  pub ptr : ℕ
  pub type : RegionType

-- `std::map<size_t, pim_region_t *>`, by increasing key.
abbrev pub RegionMap : Type 0
RegionMap = List (ℕ × Region)

pub record Device : Type 0 where
  pub ptr : ℕ
  pub size : ℕ
  pub teardown_in_progress : Bool
  pub monitor_running : Bool
  pub sigsegv_enabled : Bool
  pub sigsegv_transition_in_progress : Bool
  pub regions : RegionMap

unfoldable pub find : ℕ → RegionMap → Option Region
find k [] = none
find k ((j, r) ∷ m) = if k == j then some r else find k m

-- The region at `lower_bound(k)`: that of the first key from `k` on.
unfoldable pub lower_bound : ℕ → RegionMap → Option Region
lower_bound k [] = none
lower_bound k ((j, r) ∷ m) = if ltb j k then lower_bound k m else some r

-- The region at `std::prev(lower_bound(k))`: that of the last key below `k`.
unfoldable pub before : ℕ → RegionMap → Option Region
before k [] = none
before k ((j, r) ∷ m) =
    let later = before k m in
    if ltb j k then elim later [ none ↦ some r | some p ↦ some p ] else none

-- `none` where the key is taken.
unfoldable pub emplace : ℕ → Region → RegionMap → Option RegionMap
emplace k r [] = some ((k, r) ∷ [])
emplace k r ((j, s) ∷ m) =
    let rest : Option RegionMap = elim (emplace k r m) [
      | none ↦ none
      | some m' ↦ some ((j, s) ∷ m')
    ] in
    if ltb k j then some ((k, r) ∷ (j, s) ∷ m) else if k == j then none else rest

unfoldable pub erase : ℕ → RegionMap → RegionMap
erase k [] = []
erase k ((j, r) ∷ m) = if k == j then m else (j, r) ∷ erase k m

-- The region after the key `k`, by `++it` from `find(k)`.
unfoldable pub after : ℕ → RegionMap → Option Region
after k [] = none
after k ((j, r) ∷ m) =
    let rest = after k m in if k == j then (elim m [ [] ↦ none | (i, s) ∷ m' ↦ some s ]) else rest

unfoldable pub is_topology_mutation_blocked : Device → Bool
is_topology_mutation_blocked d =
    d.teardown_in_progress || d.monitor_running || d.sigsegv_enabled
    || d.sigsegv_transition_in_progress

-- The test against the next and the previous region.
unfoldable pub overlaps : ℕ → ℕ → RegionMap → Bool
overlaps offset size m =
    let new_end : ℕ = u64 (offset + size) in
    let next : Bool = elim (lower_bound offset m) [
      | none ↦ false
      | some r ↦ ltb r.offset new_end
    ] in
    let previous : Bool = elim (before offset m) [
      | none ↦ false
      | some r ↦ ltb offset (u64 (r.offset + r.size))
    ] in
    next || previous

-- What the system and the allocator give: the page size, `none` for the failure of `sysconf`; the new
-- object, `none` if there is no memory; and whether the map has memory for one more node.
pub record Resources : Type 0 where
  pub page_size : Option ℕ
  pub object : Option ℕ
  pub node : Bool

unfoldable pub pim_region_create : Resources → Device → ℕ → ℕ → RegionType → Option Region × Device
pim_region_create e d offset size type =
    if size == 0
    then (none, d)
    else if is_topology_mutation_blocked d
    then (none, d)
    else if ltb d.size offset || ltb (d.size - offset) size
    then (none, d)
    else elim e.page_size [
      | none ↦ (none, d)
      | some page_size ↦ if overlaps offset size d.regions then (none, d) else elim e.object [
        | none ↦ (none, d)
        | some self ↦
            let r : Region = record {
              self = self;
              offset = offset;
              size = size;
              page_size = page_size;
              ptr = u64 (d.ptr + offset);
              type = type;
            } in
            if not e.node then (none, d) else elim (emplace offset r d.regions) [
              | none ↦ (none, d)
              | some m ↦ (some r, record d { regions = m })
            ]
      ]
    ]

unfoldable pub pim_region_free : Device → Region → PimError × Device
pim_region_free d region =
    if is_topology_mutation_blocked d then (busy, d) else elim (find region.offset d.regions) [
      | none ↦ (not_found, d)
      | some r ↦
          if r.self == region.self
          then (success, record d { regions = erase region.offset d.regions })
          else (not_found, d)
    ]

unfoldable pub pim_device_get_region : Device → ℕ → Option Region
pim_device_get_region d offset = find offset d.regions

-- The first region for no region given.
unfoldable pub pim_device_get_next_region : Device → Option Region → Option Region
pim_device_get_next_region d none = elim d.regions [ [] ↦ none | (j, r) ∷ m ↦ some r ]
pim_device_get_next_region d (some region) = elim (find region.offset d.regions) [
  | none ↦ none
  | some r ↦ if r.self == region.self then after region.offset d.regions else none
]
