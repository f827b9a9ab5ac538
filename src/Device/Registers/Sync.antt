-- ===== src/Device/Registers/Sync.antt =====
-- The last values of the registers, against which writes are looked for, and the memory.
use hostpimsim_gecon.Base.{
  ℕ, ◌+◌, ◌^◌, ◌≤◌, ◌<◌, ◌≡◌, ◌∙◌, ◌⊎◌, inl, inr, sym, ap, arith, false, some, List, [], ◌∷◌, ◌==◌,
  Bool-cases, Bytes, memcpy, load_le, store_le, store_le_below, store_le_above, load_le-store_le,
  load_le-cong,
}
use hostpimsim_gecon.Device.Registers.Defs.{Entry, find_root, put_root, drop_root, overlaps_root}
use hostpimsim_gecon.Device.Registers.Layout.{Spread}

abbrev pub InSync : Bytes → List (ℕ × Entry) → Type 0
InSync m [] = Unit
InSync m ((k, e) ∷ t) = (e.last_value ≡ load_le e.register_size m k) × InSync m t

-- A write of other bytes does not change what is loaded.
pub load_le-apart :
    (n : ℕ) (m : Bytes) (o v r k : ℕ)
    → (k + r ≤ o) ⊎ (o + n ≤ k)
    → load_le r (store_le n m o v) k ≡ load_le r m k
load_le-apart n m o v r k (inl below) =
    load_le-cong r (store_le n m o v) m k k (λ i h. store_le_below n m o v (k + i) (omega arith))
load_le-apart n m o v r k (inr above) =
    load_le-cong r (store_le n m o v) m k k (λ i h. store_le_above n m o v (k + i) (omega arith))

pub store_le-InSync :
    (n : ℕ) (m : Bytes) (o v : ℕ) (t : List (ℕ × Entry))
    → overlaps_root o (o + n) t ≡ false
    → InSync m t
    → InSync (store_le n m o v) t
unfolding overlaps_root
store_le-InSync n m o v [] clear s = tt
store_le-InSync n m o v ((k, e) ∷ t) clear s =
    let out : (k + e.register_size ≤ o) ⊎ (o + n ≤ k) = ground (arith, clear) in
    (
      s.0 ∙ sym (load_le-apart n m o v e.register_size k out),
      store_le-InSync n m o v t (ground (arith, clear)) s.1,
    )

-- A copy over other bytes likewise.
pub memcpy-InSync :
    (n : ℕ) (m : Bytes) (o : ℕ) (src : Bytes) (t : List (ℕ × Entry))
    → overlaps_root o (o + n) t ≡ false
    → InSync m t
    → InSync (memcpy n m o src 0) t
unfolding overlaps_root memcpy
memcpy-InSync n m o src [] clear s = tt
memcpy-InSync n m o src ((k, e) ∷ t) clear s =
    let out : (k + e.register_size ≤ o) ⊎ (o + n ≤ k) = ground (arith, clear) in
    let same =
      load_le-cong e.register_size (memcpy n m o src 0) m k k (λ i h. ground (arith, out)) in
    (s.0 ∙ sym same, memcpy-InSync n m o src t (ground (arith, clear)) s.1)

-- A register that is found lies apart from what overlaps none.
find_root-apart :
    (s n o : ℕ) (e : Entry) (t : List (ℕ × Entry))
    → overlaps_root s n t ≡ false
    → find_root o t ≡ some e
    → (o + e.register_size ≤ s) ⊎ (n ≤ o)
unfolding overlaps_root find_root
find_root-apart s n o e [] clear f = ground arith
find_root-apart s n o e ((k, g) ∷ t) clear f = elim (Bool-cases (o == k)) [
  | inl here ↦ ground (arith, clear, f, here)
  | inr there ↦ find_root-apart s n o e t (ground (arith, clear)) (ground (arith, f, there))
]

-- A write of a whole register, with its last value noted.
pub put_root-InSync :
    (hi n : ℕ) (m : Bytes) (o v : ℕ) (e e' : Entry) (t : List (ℕ × Entry))
    → v < 256 ^ n
    → find_root o t ≡ some e
    → e.register_size ≡ n
    → e'.register_size ≡ n
    → e'.last_value ≡ v
    → Spread hi t
    → InSync m t
    → InSync (store_le n m o v) (put_root o e' t)
unfolding find_root put_root
put_root-InSync hi n m o v e e' [] lt f w w' l r s = ground (arith, f)
put_root-InSync hi n m o v e e' ((k, g) ∷ t) lt f w w' l r s = elim (Bool-cases (o == k)) [
  | inl here ↦
      let at : o ≡ k = ground (arith, here) in
      let it : g ≡ e = ground (arith, here, f) in
      let loaded = load_le-store_le n m o v lt in
      let width : g.register_size ≡ n = ap (λ (q : Entry). q.register_size) it ∙ w in
      let clear : overlaps_root o (o + n) t ≡ false = rw (at, sym width) r.1 in
      rw here (
        l ∙ sym loaded ∙ ap (λ (r : ℕ). load_le r (store_le n m o v) o) (sym w'),
        store_le-InSync n m o v t clear s.1,
      )
  | inr there ↦
      let f' : find_root o t ≡ some e = ground (arith, f, there) in
      let apart = find_root-apart k (k + g.register_size) o e t r.1 f' in
      let out : (k + g.register_size ≤ o) ⊎ (o + n ≤ k) = ground (arith, apart, w) in
      rw there (
        s.0 ∙ sym (load_le-apart n m o v g.register_size k out),
        put_root-InSync hi n m o v e e' t lt f' w w' l r.2 s.1,
      )
]

pub drop_root-InSync :
    (m : Bytes) (o : ℕ) (t : List (ℕ × Entry)) → InSync m t → InSync m (drop_root o t)
unfolding drop_root
drop_root-InSync m o [] s = tt
drop_root-InSync m o ((k, e) ∷ t) s = ground (arith, s, drop_root-InSync m o t s.1)

-- A register that was not there yet.
pub add-InSync :
    (m : Bytes) (o : ℕ) (e : Entry) (t : List (ℕ × Entry))
    → e.last_value ≡ load_le e.register_size m o
    → InSync m t
    → InSync m (put_root o e t)
unfolding put_root
add-InSync m o e [] l s = (l, tt)
add-InSync m o e ((k, g) ∷ t) l s = ground (arith, l, s, add-InSync m o e t l s.1)
