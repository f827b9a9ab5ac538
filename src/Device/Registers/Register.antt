-- ===== src/Device/Registers/Register.antt =====
-- Registering a handler, undoing it, and what is found in between.
use hostpimsim_gecon.Base.{
  ℕ, ◌+◌, ◌%◌, ◌≤◌, ◌<◌, ◌≡◌, ◌⊎◌, inl, inr, refl, sym, subst, arith, Bool, true, false, ◌&&◌,
  Option, some, Option-cases, ◌==◌, if◌then◌else◌, Bool-cases,
}
use hostpimsim_gecon.Device.Status.{success}
use hostpimsim_gecon.Device.Regions.{Device}
use hostpimsim_gecon.Device.Registers.Defs.{
  Entry, Space, check_registration, validate_mmio_handler_target,
  validate_handler_table_mutation_state_locked, is_aligned, is_success, overlaps_at, put,
  pim_load_register_u64, pim_is_supported_register_size, pim_register_dpu_handler,
  pim_unregister_dpu_handler, find_at,
}
use hostpimsim_gecon.Device.Registers.Layout.{
  IsRegister, IsSpread, put_root-RootEntered, put_nested-NestedEntered,
}

-- What the tests before the tables have found out when they pass.
pub record Passed (dev : ℕ) (d : Device) (x : Space) (o n : ℕ) : Type 0 where
  pub target : validate_mmio_handler_target dev x ≡ success
  pub state : validate_handler_table_mutation_state_locked d ≡ success
  pub idle : x.active_dispatch_ops ≡ 0
  pub supported : pim_is_supported_register_size n ≡ true
  pub positive : 0 < n
  pub aligned : o % n ≡ 0
  pub fits : o + n ≤ x.size

check_registration-Passed :
    (dev : ℕ) (d : Device) (x : Space) (o n : ℕ) (h : Option ℕ)
    → is_success (check_registration dev d x o n h) ≡ true
    → Passed dev d x o n
unfolding check_registration validate_mmio_handler_target
    validate_handler_table_mutation_state_locked is_aligned pim_is_supported_register_size
check_registration-Passed dev d x o n h e = record {
  target = ground (arith, e);
  state = ground (arith, e);
  idle = ground (arith, e);
  supported = ground (arith, e);
  positive = ground (arith, e);
  aligned = ground (arith, e);
  fits = ground (arith, e);
}

-- What a registration that succeeded has done: the table is valid, the entry is found at its offset
-- and depth and everything else as before, and unregistering it gives the region back.
pub record Registered (dev : ℕ) (d : Device) (x : Space) (o depth : ℕ) (e : Entry) (x' : Space)
    : Type 0 where
  pub valid : IsSpread x'
  pub found :
      (k n : ℕ) → find_at k n x' ≡ (if (k == o) && (n == depth) then some e else find_at k n x)
  pub undone : pim_unregister_dpu_handler dev d x' o depth ≡ (success, x)

pub put-Registered :
    (dev : ℕ) (d : Device) (x : Space) (o depth : ℕ) (e : Entry)
    → IsSpread x
    → Passed dev d x o e.register_size
    → overlaps_at o depth e.register_size x ≡ false
    → Registered dev d x o depth e (put o depth e x)
unfolding put overlaps_at find_at pim_unregister_dpu_handler validate_mmio_handler_target
put-Registered dev d x o depth e v p clear =
    let r : IsRegister x.size o e = (p.supported, p.positive, p.aligned, p.fits) in
    let same : (k : ℕ) → (k == k) ≡ true = λ k. ground arith in
    elim (Bool-cases (depth == 0)) [
      | inl root ↦
          let t =
            put_root-RootEntered x.size o e x.handlers r v.root (ground (arith, clear, root)) in
          let here = t.found o in
          rw root (record {
            valid = record { root = t.spread; nested = v.nested };
            found = λ k n. ground (arith, root, t.found k);
            undone = ground (arith, root, here, same o, t.undone, p.target, p.state, p.idle);
          })
      | inr deep ↦
          let t =
            put_nested-NestedEntered x.size o depth e x.nested_handlers r v.nested
              (ground (arith, clear, deep)) in
          let here = t.found o depth in
          rw deep (record {
            valid = record { root = v.root; nested = t.spread };
            found = λ k n. ground (arith, deep, t.found k n);
            undone =
                ground (arith, deep, here, same o, same depth, t.undone, p.target, p.state, p.idle);
          })
    ]

-- The two ends of a registration: an error, or an entry that is put in where it was let in.
pub record PutIn (dev : ℕ) (d : Device) (x : Space) (o depth n : ℕ) (h : Option ℕ) (e : Entry)
    : Type 0 where
  pub handler : h ≡ some e.handler
  pub size : e.register_size ≡ n
  pub loaded : pim_load_register_u64 x.memory o n ≡ some e.last_value
  pub passed : Passed dev d x o n
  pub clear : overlaps_at o depth n x ≡ false

pub pim_register_dpu_handler-PutIn :
    (has_memory : Bool) (dev : ℕ) (d : Device) (x : Space) (o depth n : ℕ) (h : Option ℕ)
    (user_data : ℕ)
    → let (got, x') = pim_register_dpu_handler has_memory dev d x o depth n h user_data in
      ((is_success got ≡ false) × (x' ≡ x))
      ⊎ ((e : Entry) × (got ≡ success)
          × (x' ≡ put o depth e x)
          × (e.user_data ≡ user_data)
          × PutIn dev d x o depth n h e)
unfolding pim_register_dpu_handler
pim_register_dpu_handler-PutIn has_memory dev d x o depth n h user_data =
    elim (Bool-cases (is_success (check_registration dev d x o n h))) [
      | inr bad ↦ inl (ground (arith, bad), ground (arith, bad))
      | inl good ↦ elim (Bool-cases (overlaps_at o depth n x)) [
        | inl taken ↦ inl (ground (arith, good, taken), ground (arith, good, taken))
        | inr clear ↦ elim (Option-cases h) [
          | inl null ↦ inl (ground (arith, good, clear, null), ground (arith, good, clear, null))
          | inr (f, fe) ↦ elim (Option-cases (pim_load_register_u64 x.memory o n)) [
            | inl bad ↦
                inl (ground (arith, good, clear, fe, bad), ground (arith, good, clear, fe, bad))
            | inr (value, loaded) ↦ elim (Bool-cases has_memory) [
              | inr full ↦ inl (
                ground (arith, good, clear, fe, loaded, full),
                ground (arith, good, clear, fe, loaded, full),
              )
              | inl space ↦
                  let e : Entry = record {
                    handler = f;
                    user_data = user_data;
                    last_value = value;
                    write_seq = 0;
                    register_size = n;
                    depth = depth;
                  } in
                  let step : pim_register_dpu_handler has_memory dev d x o depth n h user_data
                      ≡ (success, put o depth e x) =
                    ground (arith, good, clear, fe, loaded, space) in
                  let p = check_registration-Passed dev d x o n h good in
                  rw step (
                    inr (
                      e,
                      refl,
                      refl,
                      refl,
                      record {
                        handler = fe;
                        size = refl;
                        loaded = loaded;
                        passed = p;
                        clear = clear;
                      },
                    ))
            ]
          ]
        ]
      ]
    ]

-- A registration in a valid region ends in one of two ways. Either it fails, and the region is as before;
-- or it succeeds: the region stays valid, the entry for the handler, with the bytes of the register as
-- its last value, is found at its offset and depth and everything else as before, and unregistering it
-- gives the region back.
pub pim_register_dpu_handler-Registered :
    (has_memory : Bool) (dev : ℕ) (d : Device) (x : Space) (o depth n : ℕ) (h : Option ℕ)
    (user_data : ℕ)
    → IsSpread x
    → let (got, x') = pim_register_dpu_handler has_memory dev d x o depth n h user_data in
      ((is_success got ≡ false) × (x' ≡ x))
      ⊎ ((e : Entry) × (got ≡ success)
          × (h ≡ some e.handler)
          × (pim_load_register_u64 x.memory o n ≡ some e.last_value)
          × Registered dev d x o depth e x')
pim_register_dpu_handler-Registered has_memory dev d x o depth n h user_data v =
    elim (pim_register_dpu_handler-PutIn has_memory dev d x o depth n h user_data) [
      | inl failed ↦ inl failed
      | inr (e, ok, it, user, q) ↦
          let p : Passed dev d x o e.register_size =
            subst (Passed dev d x o) (sym q.size) q.passed in
          let clear : overlaps_at o depth e.register_size x ≡ false =
            subst (λ (k : ℕ). overlaps_at o depth k x ≡ false) (sym q.size) q.clear in
          let r = put-Registered dev d x o depth e v p clear in
          inr (e, ok, q.handler, q.loaded, subst (Registered dev d x o depth e) (sym it) r)
    ]
