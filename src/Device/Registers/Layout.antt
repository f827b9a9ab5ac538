-- ===== src/Device/Registers/Layout.antt =====
-- The registers of one depth lie within the region, aligned and apart.
use hostpimsim_gecon.Base.{
  ℕ, ◌+◌, ◌%◌, ◌≤◌, ◌<◌, ◌≡◌, ◌⊎◌, refl, arith, true, false, ◌&&◌, some, List, [], ◌∷◌, ◌==◌,
  if◌then◌else◌,
}
use hostpimsim_gecon.Device.Registers.Defs.{
  Entry, Space, find_root, put_root, drop_root, find_nested, put_nested, drop_nested, overlaps_root,
  overlaps_nested, pim_is_supported_register_size,
}

-- A register of the region.
abbrev pub IsRegister : ℕ → ℕ → Entry → Type 0
IsRegister hi k e =
    (pim_is_supported_register_size e.register_size ≡ true)
    × (0 < e.register_size)
    × (k % e.register_size ≡ 0)
    × (k + e.register_size ≤ hi)

abbrev pub Spread : ℕ → List (ℕ × Entry) → Type 0
Spread hi [] = Unit
Spread hi ((k, e) ∷ t) =
    IsRegister hi k e × (overlaps_root k (k + e.register_size) t ≡ false) × Spread hi t

abbrev pub SpreadNested : ℕ → List (ℕ × ℕ × Entry) → Type 0
SpreadNested hi [] = Unit
SpreadNested hi ((k, n, e) ∷ t) =
    IsRegister hi k e × (overlaps_nested k (k + e.register_size) n t ≡ false) × SpreadNested hi t

pub record IsSpread (x : Space) : Type 0 where
  pub root : Spread x.size x.handlers
  pub nested : SpreadNested x.size x.nested_handlers

-- What putting an entry in at a new place does to a table.
pub record RootEntered (hi o : ℕ) (e : Entry) (t : List (ℕ × Entry)) : Type 0 where
  pub spread : Spread hi (put_root o e t)
  pub found : (k : ℕ) → find_root k (put_root o e t) ≡ (if k == o then some e else find_root k t)
  pub undone : drop_root o (put_root o e t) ≡ t
  pub apart :
      (s n : ℕ)
      → overlaps_root s n t ≡ false
      → (o + e.register_size ≤ s) ⊎ (n ≤ o)
      → overlaps_root s n (put_root o e t) ≡ false

pub put_root-RootEntered :
    (hi o : ℕ) (e : Entry) (t : List (ℕ × Entry))
    → IsRegister hi o e
    → Spread hi t
    → overlaps_root o (o + e.register_size) t ≡ false
    → RootEntered hi o e t
unfolding put_root find_root drop_root overlaps_root
put_root-RootEntered hi o e [] r s clear = record {
  spread = (r, refl, tt);
  found = λ k. refl;
  undone = ground arith;
  apart = λ s' n h out. ground (arith, out);
}
put_root-RootEntered hi o e ((k, f) ∷ t) r s clear =
    let rest = put_root-RootEntered hi o e t r s.2 (ground (arith, clear)) in
    let ne : (o == k) ≡ false = ground (arith, clear, r, s) in
    let out : (o + e.register_size ≤ k) ⊎ (k + f.register_size ≤ o) = ground (arith, clear, r, s) in
    record {
      spread = ground (arith, ne, s, rest.spread, rest.apart k (k + f.register_size) s.1 out);
      found = λ j. ground (arith, ne, rest.found j);
      undone = ground (arith, ne, rest.undone);
      apart = λ s' n h out'. ground (arith, ne, h, rest.apart s' n (ground (arith, h)) out');
    }

pub record NestedEntered (hi o depth : ℕ) (e : Entry) (t : List (ℕ × ℕ × Entry)) : Type 0 where
  pub spread : SpreadNested hi (put_nested o depth e t)
  pub found :
      (k n : ℕ)
      → find_nested k n (put_nested o depth e t)
        ≡ (if (k == o) && (n == depth) then some e else find_nested k n t)
  pub undone : drop_nested o depth (put_nested o depth e t) ≡ t
  pub apart :
      (s n d : ℕ)
      → overlaps_nested s n d t ≡ false
      → (o + e.register_size ≤ s) ⊎ (n ≤ o) ⊎ ((depth == d) ≡ false)
      → overlaps_nested s n d (put_nested o depth e t) ≡ false

pub put_nested-NestedEntered :
    (hi o depth : ℕ) (e : Entry) (t : List (ℕ × ℕ × Entry))
    → IsRegister hi o e
    → SpreadNested hi t
    → overlaps_nested o (o + e.register_size) depth t ≡ false
    → NestedEntered hi o depth e t
unfolding put_nested find_nested drop_nested overlaps_nested
put_nested-NestedEntered hi o depth e [] r s clear = record {
  spread = (r, refl, tt);
  found = λ k n. refl;
  undone = ground arith;
  apart = λ s' n d h out. ground (arith, out);
}
put_nested-NestedEntered hi o depth e ((k, n, f) ∷ t) r s clear =
    let rest = put_nested-NestedEntered hi o depth e t r s.2 (ground (arith, clear)) in
    let ne : ((o == k) && (depth == n)) ≡ false = ground (arith, clear, r, s) in
    let out : (o + e.register_size ≤ k) ⊎ (k + f.register_size ≤ o) ⊎ ((depth == n) ≡ false) =
      ground (arith, clear, r, s) in
    record {
      spread = ground (arith, ne, s, rest.spread, rest.apart k (k + f.register_size) n s.1 out);
      found = λ j m. ground (arith, ne, rest.found j m);
      undone = ground (arith, ne, rest.undone);
      apart = λ s' n' d h out'. ground (arith, ne, h, rest.apart s' n' d (ground (arith, h)) out');
    }
