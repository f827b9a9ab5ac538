-- ===== src/Dpu/Mram/Defs.antt =====
-- The class `MRAM`. A pointer to bytes is an option, `none` for null, that carries the bytes it
-- points to. `mmap` and `munmap` are the operating system's: the result of the one is an argument,
-- and what the other does to the address space is not modelled.
use hostpimsim_gecon.Base.{
  ℕ, ◌-◌, Bool, true, false, ◌&&◌, ◌||◌, not, Option, none, some, ltb, leb, ◌==◌, ◌!=◌,
  if◌then◌else◌, Bytes, update, memcpy,
}
use hostpimsim_gecon.Dpu.Config.{mram_size_bytes}

pub record Mram : Type 0 where
  pub addr : Option Bytes
  pub size : ℕ
  pub owns_mapping : Bool

abbrev pub is_some {ℓ} : {A : Type ℓ} → Option A → Bool
is_some none = false
is_some (some a) = true

-- A default-constructed `MRAM`.
abbrev pub unbound : Mram
unbound = record { addr = none; size = 0; owns_mapping = false }

unfoldable pub release_owned_mapping : Mram → Mram
release_owned_mapping m = unbound

-- `mapped` is what `mmap` returns, `none` for MAP_FAILED.
unfoldable pub allocate : Option Bytes → Mram → Bool × Mram
allocate mapped m = if is_some m.addr && (m.size != 0) then (true, m) else elim mapped [
  | none ↦ (false, m)
  | some bytes ↦ (true, record { addr = some bytes; size = mram_size_bytes; owns_mapping = true })
]

unfoldable pub bind : Option Bytes → ℕ → Mram → Mram
unfolding release_owned_mapping
bind addr_in size_in m = record (release_owned_mapping m) { addr = addr_in; size = size_in }

unfoldable pub byte_in_bounds : ℕ → ℕ → Bool
byte_in_bounds byte_offset size =
    if size == 0
    then false
    else if ltb mram_size_bytes byte_offset
    then false
    else leb size (mram_size_bytes - byte_offset)

-- `none` is the result `false`.
unfoldable pub translate_aperture_offset : Mram → ℕ → Option ℕ
unfolding byte_in_bounds
translate_aperture_offset m logical_byte_offset =
    if not (byte_in_bounds logical_byte_offset 1) || not (is_some m.addr)
    then none
    else if leb m.size logical_byte_offset
    then none
    else some logical_byte_offset

-- Through `translate_byte_ptr`, whose null pointer is the `none` here.
unfoldable pub load_u8 : Mram → ℕ → ℕ
unfolding translate_aperture_offset
load_u8 m byte_offset = elim (translate_aperture_offset m byte_offset) [
  | none ↦ 0
  | some i ↦ elim m.addr [ none ↦ 0 | some bytes ↦ bytes i ]
]

unfoldable pub store_u8 : Mram → ℕ → ℕ → Mram
unfolding translate_aperture_offset
store_u8 m byte_offset value = elim (translate_aperture_offset m byte_offset) [
  | none ↦ m
  | some i ↦ elim m.addr [ none ↦ m | some bytes ↦ record m { addr = some (update bytes i value) } ]
]

-- `src` points into a buffer, at its index `s`.
unfoldable pub host_copy_to_mram : Mram → ℕ → Option Bytes → ℕ → ℕ → Bool × Mram
unfolding byte_in_bounds
host_copy_to_mram m offset_in_mram none s size = (false, m)
host_copy_to_mram m offset_in_mram (some from) s size = elim m.addr [
  | none ↦ (false, m)
  | some bytes ↦
      if size == 0
      then (true, m)
      else if not (byte_in_bounds offset_in_mram size)
      then (false, m)
      else (true, record m { addr = some (memcpy size bytes offset_in_mram from s) })
]

-- `dst` points into a buffer, at its index `d`.
unfoldable pub host_copy_from_mram : Mram → Option Bytes → ℕ → ℕ → ℕ → Bool × Option Bytes
unfolding byte_in_bounds
host_copy_from_mram m none d offset_in_mram size = (false, none)
host_copy_from_mram m (some to) d offset_in_mram size = elim m.addr [
  | none ↦ (false, some to)
  | some bytes ↦
      if size == 0
      then (true, some to)
      else if not (byte_in_bounds offset_in_mram size)
      then (false, some to)
      else (true, some (memcpy size to d bytes offset_in_mram))
]
