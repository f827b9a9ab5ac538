-- ===== src/Device/Registers/Steps.antt =====
-- Runs of registrations, typed writes and copies on a region. Each operation is one step: it holds the region's
-- locks, or is the one atomic store of its register.
use hostpimsim_gecon.Base.{
  ℕ, ◌+◌, ◌≡◌, ◌∙◌, ◌⊎◌, inl, inr, sym, subst, arith, Bool, true, false, ◌&&◌, Option, Option-cases,
  List, [], ◌∷◌, ◌==◌, Bool-cases, load_le, not, some, if◌then◌else◌, Bytes, IsBytes, memcpy,
  memcpy-IsBytes,
}
use hostpimsim_gecon.Device.Status.{PimError, success, is_ctrl_mmio}
use hostpimsim_gecon.Device.Regions.{Device}
use hostpimsim_gecon.Device.Registers.Defs.{
  Entry, Space, find_root, drop_root, drop_nested, overlaps_root, overlaps_nested, overlaps_at,
  find_at, put, is_success, pim_register_dpu_handler, pim_unregister_dpu_handler,
}
use hostpimsim_gecon.Device.Registers.Access.{
  write_sized_value, pim_memcpy_to, get_region_byte_ptr, sigsegv_callback_thread_func,
}
use hostpimsim_gecon.Device.Registers.Layout.{Spread, SpreadNested}
use hostpimsim_gecon.Device.Registers.Register.{
  Passed, put-Registered, pim_register_dpu_handler-PutIn,
}
use hostpimsim_gecon.Device.Registers.Baseline.{pim_load_register_u64-le}
use hostpimsim_gecon.Device.Registers.Sync.{add-InSync, drop_root-InSync, memcpy-InSync}
use hostpimsim_gecon.Device.Registers.Writes.{IsSound, Whole, write_sized_value-IsSound}

overlaps_root-drop_root :
    (s l o : ℕ) (t : List (ℕ × Entry))
    → overlaps_root s l t ≡ false
    → overlaps_root s l (drop_root o t) ≡ false
unfolding overlaps_root drop_root
overlaps_root-drop_root s l o [] h = h
overlaps_root-drop_root s l o ((k, e) ∷ t) h =
    ground (arith, h, overlaps_root-drop_root s l o t (ground (arith, h)))

Spread-drop_root : (hi o : ℕ) (t : List (ℕ × Entry)) → Spread hi t → Spread hi (drop_root o t)
unfolding drop_root
Spread-drop_root hi o [] r = tt
Spread-drop_root hi o ((k, e) ∷ t) r = elim (Bool-cases (o == k)) [
  | inl here ↦ rw here r.2
  | inr there ↦
      let apart = overlaps_root-drop_root k (k + e.register_size) o t r.1 in
      rw there (r.0, apart, Spread-drop_root hi o t r.2)
]

overlaps_nested-drop_nested :
    (s l n o depth : ℕ) (t : List (ℕ × ℕ × Entry))
    → overlaps_nested s l n t ≡ false
    → overlaps_nested s l n (drop_nested o depth t) ≡ false
unfolding overlaps_nested drop_nested
overlaps_nested-drop_nested s l n o depth [] h = h
overlaps_nested-drop_nested s l n o depth ((k, m, e) ∷ t) h =
    ground (arith, h, overlaps_nested-drop_nested s l n o depth t (ground (arith, h)))

SpreadNested-drop_nested :
    (hi o depth : ℕ) (t : List (ℕ × ℕ × Entry))
    → SpreadNested hi t
    → SpreadNested hi (drop_nested o depth t)
unfolding drop_nested
SpreadNested-drop_nested hi o depth [] r = tt
SpreadNested-drop_nested hi o depth ((k, m, e) ∷ t) r =
    elim (Bool-cases ((o == k) && (depth == m))) [
      | inl here ↦ rw here r.2
      | inr there ↦
          let apart = overlaps_nested-drop_nested k (k + e.register_size) m o depth t r.1 in
          rw there (r.0, apart, SpreadNested-drop_nested hi o depth t r.2)
    ]

register-IsSound :
    (has_memory : Bool) (dev : ℕ) (d : Device) (x : Space) (o depth n : ℕ) (h : Option ℕ)
    (user_data : ℕ)
    → IsSound x
    → IsSound (pim_register_dpu_handler has_memory dev d x o depth n h user_data).1
unfolding put
register-IsSound has_memory dev d x o depth n h user_data s =
    elim (pim_register_dpu_handler-PutIn has_memory dev d x o depth n h user_data) [
      | inl failed ↦ subst IsSound (sym failed.1) s
      | inr (e, ok, it, user, q) ↦
          let p : Passed dev d x o e.register_size =
            subst (Passed dev d x o) (sym q.size) q.passed in
          let clear : overlaps_at o depth e.register_size x ≡ false = rw q.size q.clear in
          let r = put-Registered dev d x o depth e s.valid p clear in
          let loaded =
            sym (pim_load_register_u64-le x.memory o n s.bytes q.passed.supported) ∙ q.loaded in
          let last : e.last_value ≡ load_le e.register_size x.memory o =
            rw q.size (ground (arith, loaded)) in
          subst IsSound (sym it) (elim (Bool-cases (depth == 0)) [
            | inl root ↦ record {
              valid = r.valid;
              bytes = ground (arith, root, s.bytes);
              sync = rw root (add-InSync x.memory o e x.handlers last s.sync);
            }
            | inr deep ↦ record {
              valid = r.valid;
              bytes = ground (arith, deep, s.bytes);
              sync = rw deep s.sync;
            }
          ])
    ]

unregister-cases :
    (dev : ℕ) (d : Device) (x : Space) (o depth : ℕ)
    → let y = (pim_unregister_dpu_handler dev d x o depth).1 in
      (y ≡ x)
      ⊎ (y ≡ record x { handlers = drop_root o x.handlers })
      ⊎ (y ≡ record x { nested_handlers = drop_nested o depth x.nested_handlers })
unfolding pim_unregister_dpu_handler
unregister-cases dev d x o depth = elim (Option-cases (find_at o depth x)) [
  | inl f ↦ inl (ground (arith, f))
  | inr (e, f) ↦ elim (Bool-cases (depth == 0)) [
    | inl root ↦ elim (Bool-cases (is_success (pim_unregister_dpu_handler dev d x o depth).0)) [
      | inl ok ↦ inr (inl (ground (arith, f, root, ok)))
      | inr bad ↦ inl (ground (arith, f, root, bad))
    ]
    | inr deep ↦ elim (Bool-cases (is_success (pim_unregister_dpu_handler dev d x o depth).0)) [
      | inl ok ↦ inr (inr (ground (arith, f, deep, ok)))
      | inr bad ↦ inl (ground (arith, f, deep, bad))
    ]
  ]
]

unregister-IsSound :
    (dev : ℕ) (d : Device) (x : Space) (o depth : ℕ)
    → IsSound x
    → IsSound (pim_unregister_dpu_handler dev d x o depth).1
unregister-IsSound dev d x o depth s = elim (unregister-cases dev d x o depth) [
  | inl same ↦ subst IsSound (sym same) s
  | inr (inl root) ↦
      let y : IsSound (record x { handlers = drop_root o x.handlers }) = record {
        valid = record {
          root = Spread-drop_root x.size o x.handlers s.valid.root;
          nested = s.valid.nested;
        };
        bytes = s.bytes;
        sync = drop_root-InSync x.memory o x.handlers s.sync;
      } in
      subst IsSound (sym root) y
  | inr (inr deep) ↦
      let nested = SpreadNested-drop_nested x.size o depth x.nested_handlers s.valid.nested in
      let y : IsSound (record x { nested_handlers = drop_nested o depth x.nested_handlers }) =
        record {
          valid = record { root = s.valid.root; nested = nested };
          bytes = s.bytes;
          sync = s.sync;
        } in
      subst IsSound (sym deep) y
]

copy-IsSound :
    (x : Space) (o : ℕ) (buffer : Bytes) (size : ℕ)
    → IsBytes buffer
    → overlaps_root o (o + size) x.handlers ≡ false
    → IsSound x
    → IsSound (pim_memcpy_to x o (some buffer) size).1
unfolding pim_memcpy_to
copy-IsSound x o buffer size b clear s = copied (not (is_success (get_region_byte_ptr x o size)))
  where
    copied :
        (refused : Bool)
        → let kept : PimError × Space = (get_region_byte_ptr x o size, x) in
          let moved = record x { memory = memcpy size x.memory o buffer 0 } in
          let done : PimError × Space = (success, moved) in
          let result : PimError × Space = if refused then kept else done in IsSound result.1
    copied true = s
    copied false = record {
      valid = record { root = s.valid.root; nested = s.valid.nested };
      bytes = memcpy-IsBytes size x.memory o buffer 0 s.bytes b;
      sync = memcpy-InSync size x.memory o buffer x.handlers clear s.sync;
    }

callback-IsSound : (x : Space) → IsSound x → IsSound (sigsegv_callback_thread_func x).0
unfolding sigsegv_callback_thread_func
callback-IsSound x s = elim (Option-cases x.callback) [
  | inl f ↦ rw (sigsegv_callback_thread_func, f) s
  | inr (work, f) ↦
      rw (sigsegv_callback_thread_func, f)
        (record {
          valid = record { root = s.valid.root; nested = s.valid.nested };
          bytes = s.bytes;
          sync = s.sync;
        })
]

-- A step from a region to the next. A write has its bytes in a register of that width, or in none, and a
-- copy, which page protection does not watch, has them in none.
pub data Step : Space → Space → Type 0 where
  register :
      (has_memory : Bool) (dev : ℕ) (d : Device) (x : Space) (o depth n : ℕ) (h : Option ℕ)
      (user_data : ℕ)
      → Step x (pim_register_dpu_handler has_memory dev d x o depth n h user_data).1
  unregister :
      (dev : ℕ) (d : Device) (x : Space) (o depth : ℕ)
      → Step x (pim_unregister_dpu_handler dev d x o depth).1
  write :
      (raw sigsegv : Bool) (x : Space) (o n v : ℕ)
      → is_ctrl_mmio x.type ≡ true
      → Whole o n (find_root o x.handlers) x.handlers
      → Step x (write_sized_value raw sigsegv x o n v).1
  copy :
      (x : Space) (o : ℕ) (buffer : Bytes) (size : ℕ)
      → IsBytes buffer
      → overlaps_root o (o + size) x.handlers ≡ false
      → Step x (pim_memcpy_to x o (some buffer) size).1
  callback : (x : Space) → Step x (sigsegv_callback_thread_func x).0

pub data Reach (x : Space) : Space → Type 0 where
  here : Reach x x
  next : {y z : Space} → Reach x y → Step y z → Reach x z

Step-IsSound : {x y : Space} → Step x y → IsSound x → IsSound y
Step-IsSound (register m dev d x o depth n h u) s = register-IsSound m dev d x o depth n h u s
Step-IsSound (unregister dev d x o depth) s = unregister-IsSound dev d x o depth s
Step-IsSound (write raw sigsegv x o n v c w) s = write_sized_value-IsSound raw sigsegv x o n v c s w
Step-IsSound (copy x o buffer size b clear) s = copy-IsSound x o buffer size b clear s
Step-IsSound (callback x) s = callback-IsSound x s

-- A region that was sound stays sound under any sequence of these steps: registrations and removals of
-- handlers, at any depth, typed writes while it is a control region, raw or not and watched by page
-- protection or not, that are of a whole register at depth 0 or of none of their bytes, copies into it that
-- page protection does not watch and that are of none of their bytes, and rounds of the callback thread.
-- Sound means that its registers are apart and within the region, its memory holds bytes, and the last value
-- of every register at depth 0 is the one in memory.
pub Reach-IsSound : {x y : Space} → IsSound x → Reach x y → IsSound y
Reach-IsSound s here = s
Reach-IsSound s (next r st) = Step-IsSound st (Reach-IsSound s r)
