-- ===== src/Device/Registers/Writes.antt =====
-- Typed writes of whole registers: what is read back, which handler is called, and the tables.
use hostpimsim_gecon.Base.{
  ℕ, ◌+◌, ◌%◌, ◌^◌, ◌<◌, ◌≡◌, ◌∙◌, ◌⊎◌, inl, inr, refl, sym, ap, subst, arith, Bool, true, false,
  ◌&&◌, ◌||◌, Option, none, some, Option-cases, List, [], ◌∷◌, ◌==◌, if◌then◌else◌, Bool-cases,
  IsBytes, store_le, store_le-IsBytes, bit_and, bit_and_mask,
}
use native.Mathlib.Nat.{mod-lt, one-le-pow}
use hostpimsim_gecon.Device.Status.{PimError, success, is_ctrl_mmio}
use hostpimsim_gecon.Device.Registers.Defs.{
  Entry, Space, Call, find_root, put_root, overlaps_root, pim_is_supported_register_size,
  pim_register_value_mask, is_success,
}
use hostpimsim_gecon.Device.Registers.Access.{
  noted, root_entry, get_typed_region_ptr, mmio_handler_mark_write_begin,
  mmio_handler_mark_write_end, find_covering, pim_sigsegv_handler_func, store, write_raw_atomic,
  write_and_invoke_handler, write_typed_value, write_sized_value, pim_is_supported_access_size,
}
use hostpimsim_gecon.Device.Registers.Layout.{Spread, IsSpread}
use hostpimsim_gecon.Device.Registers.Sync.{InSync, store_le-InSync, put_root-InSync}

-- An access that is let through.
abbrev pub IsAccess : Space → ℕ → ℕ → Type 0
IsAccess x o n = (pim_is_supported_access_size n ≡ true) × (get_typed_region_ptr x o n ≡ success)

pub IsAccess-cases :
    (x : Space) (o n : ℕ)
    → IsAccess x o n
      ⊎ ((pim_is_supported_access_size n && is_success (get_typed_region_ptr x o n)) ≡ false)
unfolding get_typed_region_ptr
IsAccess-cases x o n = ground arith

mask-noted :
    (n v : ℕ)
    → pim_is_supported_access_size n ≡ true
    → bit_and (v % 256 ^ n) (pim_register_value_mask n) ≡ v % 256 ^ n
unfolding pim_is_supported_access_size pim_register_value_mask pim_is_supported_register_size
mask-noted n v h =
    let sizes : (n ≡ 1) ⊎ (n ≡ 2) ⊎ (n ≡ 4) ⊎ (n ≡ 8) = ground (arith, h) in
    elim sizes [
      | inl e ↦ rw e (bit_and_mask 8 (v % 256) ∙ omega arith)
      | inr (inl e) ↦ rw e (bit_and_mask 16 (v % 65536) ∙ omega arith)
      | inr (inr (inl e)) ↦ rw e (bit_and_mask 32 (v % 4294967296) ∙ omega arith)
      | inr (inr (inr e)) ↦ rw e (bit_and_mask 64 (v % 18446744073709551616) ∙ omega arith)
    ]

overlaps_root-put_root :
    (s l o : ℕ) (e e' : Entry) (t : List (ℕ × Entry))
    → find_root o t ≡ some e
    → e'.register_size ≡ e.register_size
    → overlaps_root s l (put_root o e' t) ≡ overlaps_root s l t
unfolding overlaps_root put_root find_root
overlaps_root-put_root s l o e e' [] f w = ground arith
overlaps_root-put_root s l o e e' ((k, g) ∷ t) f w = elim (Bool-cases (o == k)) [
  | inl here ↦ ground (arith, here, f, w)
  | inr there ↦
      let f' : find_root o t ≡ some e = ground (arith, f, there) in
      ground (arith, there, overlaps_root-put_root s l o e e' t f' w)
]

Spread-put_root :
    (hi o : ℕ) (e e' : Entry) (t : List (ℕ × Entry))
    → find_root o t ≡ some e
    → e'.register_size ≡ e.register_size
    → Spread hi t
    → Spread hi (put_root o e' t)
unfolding put_root find_root
Spread-put_root hi o e e' [] f w r = ground (arith, f)
Spread-put_root hi o e e' ((k, g) ∷ t) f w r = elim (Bool-cases (o == k)) [
  | inl here ↦
      let at : o ≡ k = ground (arith, here) in
      let it : e ≡ g = ground (arith, here, f) in
      let width : e'.register_size ≡ g.register_size = w ∙ ap (λ (q : Entry). q.register_size) it in
      rw (here, at, width) r
  | inr there ↦
      let f' : find_root o t ≡ some e = ground (arith, f, there) in
      let same = overlaps_root-put_root k (k + g.register_size) o e e' t f' w in
      rw there (r.0, same ∙ r.1, Spread-put_root hi o e e' t f' w r.2)
]

pub refused :
    (raw sigsegv : Bool) (x : Space) (o n v : ℕ)
    → (pim_is_supported_access_size n && is_success (get_typed_region_ptr x o n)) ≡ false
    → (write_sized_value raw sigsegv x o n v).1 ≡ x
unfolding write_sized_value write_typed_value
refused raw sigsegv x o n v bad = ground (arith, bad)

-- A region whose tables are valid and whose registers' last values are those in memory.
pub record IsSound (x : Space) : Type 0 where
  pub valid : IsSpread x
  pub bytes : IsBytes x.memory
  pub sync : InSync x.memory x.handlers

-- The bytes that are written are those of a register, or of none.
abbrev pub Whole : ℕ → ℕ → Option Entry → List (ℕ × Entry) → Type 0
Whole o n none t = overlaps_root o (o + n) t ≡ false
Whole o n (some e) t = e.register_size ≡ n

-- What a write that is let through does to the region.
unfoldable pub written : Bool → Space → ℕ → ℕ → ℕ → Space
written sigsegv x o n v =
    let y = store sigsegv x o n v in
    elim (root_entry x o) [
      | none ↦ y
      | some e ↦ if sigsegv then y else record y { handlers = put_root o (noted v e) x.handlers }
    ]

unfoldable pub call_of : Bool → Bool → Space → ℕ → ℕ → Option Call
call_of raw sigsegv x o v = elim (root_entry x o) [
  | none ↦ none
  | some e ↦
      if raw || sigsegv
      then none
      else some (record {
        handler = e.handler;
        offset = o;
        depth = 0;
        value = v;
        user_data = e.user_data;
      })
]

written-none :
    (x : Space) (o n v : ℕ)
    → root_entry x o ≡ none
    → written false x o n v ≡ record x { memory = store_le n x.memory o v }
unfolding written store
written-none x o n v f = ground (arith, f)

pub written-some :
    (x : Space) (o n v : ℕ) (e : Entry)
    → root_entry x o ≡ some e
    → written false x o n v
      ≡ record x { memory = store_le n x.memory o v; handlers = put_root o (noted v e) x.handlers }
unfolding written store
written-some x o n v e f = ground (arith, f)

-- Under page protection a write to a control region is caught.
pub written-caught :
    (x : Space) (o n v : ℕ)
    → is_ctrl_mmio x.type ≡ true
    → written true x o n v ≡ pim_sigsegv_handler_func x o v
unfolding written store
written-caught x o n v c = elim (Option-cases (root_entry x o)) [
  | inl f ↦ ground (arith, f, c)
  | inr (e, f) ↦ ground (arith, f, c)
]

pub caught-IsSound : (x : Space) (o v : ℕ) → IsSound x → IsSound (pim_sigsegv_handler_func x o v)
unfolding pim_sigsegv_handler_func
caught-IsSound x o v s = elim (Option-cases (find_covering o x.handlers)) [
  | inl f ↦ rw (pim_sigsegv_handler_func, f) s
  | inr (k, f) ↦
      rw (pim_sigsegv_handler_func, f)
        (record {
          valid = record { root = s.valid.root; nested = s.valid.nested };
          bytes = s.bytes;
          sync = s.sync;
        })
]

pub write_sized_value-written :
    (raw sigsegv : Bool) (x : Space) (o n v : ℕ)
    → IsAccess x o n
    → write_sized_value raw sigsegv x o n v
      ≡ (success, written sigsegv x o n (v % 256 ^ n), call_of raw sigsegv x o (v % 256 ^ n))
unfolding write_sized_value write_typed_value write_and_invoke_handler write_raw_atomic written
    call_of
write_sized_value-written raw sigsegv x o n v (size, fits) = elim (Option-cases (root_entry x o)) [
  | inl f ↦ ground (arith, size, fits, f)
  | inr (e, f) ↦ ground (arith, size, fits, f)
]

unwatched-IsSound :
    (raw : Bool) (x : Space) (o n v : ℕ)
    → is_ctrl_mmio x.type ≡ true
    → IsSound x
    → Whole o n (find_root o x.handlers) x.handlers
    → IsSound (write_sized_value raw false x o n v).1
unfolding root_entry noted mmio_handler_mark_write_begin mmio_handler_mark_write_end
unwatched-IsSound raw x o n v c s w = elim (IsAccess-cases x o n) [
  | inr bad ↦ subst IsSound (sym (refused raw false x o n v bad)) s
  | inl (size, fits) ↦
      let b = store_le-IsBytes n x.memory o (v % 256 ^ n) s.bytes in
      let lt : v % 256 ^ n < 256 ^ n = mod-lt v (omega (arith, one-le-pow n 256)) in
      let step =
        ap (λ (p : PimError × Space × Option Call). p.1)
          (write_sized_value-written raw false x o n v (size, fits)) in
      elim (Option-cases (find_root o x.handlers)) [
        | inl f ↦
            let clear : overlaps_root o (o + n) x.handlers ≡ false = ground (arith, w, f) in
            subst IsSound (sym (step ∙ written-none x o n (v % 256 ^ n) (ground (arith, c, f))))
              (record {
                valid = record { root = s.valid.root; nested = s.valid.nested };
                bytes = b;
                sync = store_le-InSync n x.memory o (v % 256 ^ n) x.handlers clear s.sync;
              })
        | inr (e, f) ↦
            let width : e.register_size ≡ n = ground (arith, w, f) in
            let e' = noted (v % 256 ^ n) e in
            let masked : e'.last_value ≡ v % 256 ^ n =
              ap (λ (q : ℕ). bit_and (v % 256 ^ n) (pim_register_value_mask q)) width
              ∙ mask-noted n v size in
            subst IsSound (sym (step ∙ written-some x o n (v % 256 ^ n) e (ground (arith, c, f))))
              (record {
                valid = record {
                  root = Spread-put_root x.size o e e' x.handlers f refl s.valid.root;
                  nested = s.valid.nested;
                };
                bytes = b;
                sync =
                    put_root-InSync x.size n x.memory o (v % 256 ^ n) e e' x.handlers lt f width
                      width masked s.valid.root s.sync;
              })
      ]
]

watched-IsSound :
    (raw : Bool) (x : Space) (o n v : ℕ)
    → is_ctrl_mmio x.type ≡ true
    → IsSound x
    → IsSound (write_sized_value raw true x o n v).1
watched-IsSound raw x o n v c s = elim (IsAccess-cases x o n) [
  | inr bad ↦ subst IsSound (sym (refused raw true x o n v bad)) s
  | inl access ↦
      let step =
        ap (λ (p : PimError × Space × Option Call). p.1)
          (write_sized_value-written raw true x o n v access) in
      subst IsSound (sym (step ∙ written-caught x o n (v % 256 ^ n) c))
        (caught-IsSound x o (v % 256 ^ n) s)
]

-- A typed write to a control region, through the handlers or past them, watched by page protection or not,
-- that is of a whole register or of no register's bytes, keeps the region sound: the tables are valid,
-- memory holds bytes, and the last value of every register is the one in memory.
pub write_sized_value-IsSound :
    (raw sigsegv : Bool) (x : Space) (o n v : ℕ)
    → is_ctrl_mmio x.type ≡ true
    → IsSound x
    → Whole o n (find_root o x.handlers) x.handlers
    → IsSound (write_sized_value raw sigsegv x o n v).1
write_sized_value-IsSound raw true x o n v c s w = watched-IsSound raw x o n v c s
write_sized_value-IsSound raw false x o n v c s w = unwatched-IsSound raw x o n v c s w
