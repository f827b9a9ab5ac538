-- ===== src/Device/Registers/Effects.antt =====
-- Typed writes as the caller sees them: what is read back and which handler is called.
use hostpimsim_gecon.Base.{
  ℕ, ◌+◌, ◌%◌, ◌^◌, ◌≤◌, ◌<◌, ◌≡◌, ◌⊎◌, inl, inr, refl, arith, Bool, true, false, ◌&&◌, load_le,
  Option-cases, if◌then◌else◌, store_le, load_le-store_le,
}
use native.Mathlib.Nat.{mod-lt, one-le-pow}
use hostpimsim_gecon.Device.Status.{success, is_ctrl_mmio}
use hostpimsim_gecon.Device.Regions.{Device}
use hostpimsim_gecon.Device.Registers.Defs.{Space, Call}
use hostpimsim_gecon.Device.Registers.Access.{
  root_entry, get_typed_region_ptr, check_bounds, store, pim_sigsegv_handler_func,
  write_sized_value, pim_read,
}
use hostpimsim_gecon.Device.Registers.Sync.{load_le-apart}
use hostpimsim_gecon.Device.Registers.Writes.{IsAccess, written, write_sized_value-written}

-- Whether page protection catches a write to the region.
abbrev is_watched : Bool → Space → Bool
is_watched sigsegv x = sigsegv && is_ctrl_mmio x.type

-- The region's memory, and what else an access looks at.
record Stored (x : Space) (b : Bool) (o n v : ℕ) (y : Space) : Type 0 where
  memory : y.memory ≡ (if b then x.memory else store_le n x.memory o v)
  size : y.size ≡ x.size

store-Stored :
    (sigsegv : Bool) (x : Space) (o n v : ℕ)
    → Stored x (is_watched sigsegv x) o n v (store sigsegv x o n v)
unfolding store pim_sigsegv_handler_func
store-Stored sigsegv x o n v = record { memory = ground arith; size = ground arith }

written-Stored :
    (sigsegv : Bool) (x : Space) (o n v : ℕ)
    → Stored x (is_watched sigsegv x) o n v (written sigsegv x o n v)
unfolding written
written-Stored sigsegv x o n v =
    let s = store-Stored sigsegv x o n v in
    elim (Option-cases (root_entry x o)) [
      | inl f ↦ record { memory = ground (arith, f, s.memory); size = ground (arith, f, s.size) }
      | inr (e, f) ↦ record {
        memory = ground (arith, f, s.memory);
        size = ground (arith, f, s.size);
      }
    ]

pim_read-here :
    (b : Bool) (x : Space) (o n v : ℕ) (y : Space)
    → IsAccess x o n
    → Stored x b o n (v % 256 ^ n) y
    → pim_read y o n ≡ (success, if b then load_le n x.memory o else v % 256 ^ n)
unfolding pim_read get_typed_region_ptr check_bounds
pim_read-here true x o n v y (size, fits) s = rw (s.size, size, fits, s.memory) refl
pim_read-here false x o n v y (size, fits) s =
    let lt : v % 256 ^ n < 256 ^ n = mod-lt v (omega (arith, one-le-pow n 256)) in
    rw (s.size, size, fits, s.memory, load_le-store_le n x.memory o (v % 256 ^ n) lt) refl

pim_read-apart :
    (b : Bool) (x : Space) (o n v p r : ℕ) (y : Space)
    → (p + r ≤ o) ⊎ (o + n ≤ p)
    → Stored x b o n v y
    → pim_read y p r ≡ pim_read x p r
unfolding pim_read get_typed_region_ptr check_bounds
pim_read-apart true x o n v p r y out s = rw (s.size, s.memory) refl
pim_read-apart false x o n v p r y out s =
    rw (s.size, s.memory, load_le-apart n x.memory o v r p out) refl

-- A typed write that is let through, through the handlers or past them, succeeds. The bytes written are
-- read back as the value's remainder at their width, but for a control region whose writes page protection
-- catches: there they are read back as they were. A read of other bytes gives what it gave before.
pub write_sized_value-pim_read :
    (raw sigsegv : Bool) (x : Space) (o n v p r : ℕ)
    → IsAccess x o n
    → (p + r ≤ o) ⊎ (o + n ≤ p)
    → let (got, y, call) = write_sized_value raw sigsegv x o n v in
      (got ≡ success)
      × (pim_read y o n
          ≡ (success, if sigsegv && is_ctrl_mmio x.type then load_le n x.memory o else v % 256 ^ n))
      × (pim_read y p r ≡ pim_read x p r)
write_sized_value-pim_read raw sigsegv x o n v p r a out =
    let s = written-Stored sigsegv x o n (v % 256 ^ n) in
    rw (write_sized_value-written raw sigsegv x o n v a) (
      refl,
      pim_read-here (is_watched sigsegv x) x o n v _ a s,
      pim_read-apart (is_watched sigsegv x) x o n (v % 256 ^ n) p r _ out s,
    )

-- The call of a handler that is registered at depth 0.
abbrev pub call_at_root : ℕ → ℕ → ℕ → ℕ → Call
call_at_root h o v user_data = record {
  handler = h;
  offset = o;
  depth = 0;
  value = v;
  user_data = user_data;
}
