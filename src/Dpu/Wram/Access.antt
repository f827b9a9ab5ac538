-- ===== src/Dpu/Wram/Access.antt =====
-- What one access to the WRAM reads and writes.
use hostpimsim_gecon.Base.{
  ℕ, ◌+◌, ◌*◌, ◌/◌, ◌%◌, ◌^◌, ◌≤◌, ◌<◌, ◌≡◌, arith, Bool, true, false, IsBytes, load_le, load_be,
  load_le-store_le,
}
use hostpimsim_gecon.Dpu.Config.{wram_size_bytes}
use hostpimsim_gecon.Dpu.Swap.{
  bswap16, bswap32, bswap64, bswap16-bswap16, bswap32-bswap32, bswap64-bswap64, bswap16-lt,
  bswap32-lt, bswap64-lt, bswap16-eq, bswap32-eq, bswap64-eq,
}
use hostpimsim_gecon.Dpu.Wram.Defs.{
  Wram, rel_in_bounds, load_u16, load_u32, load_u64, store_u16, store_u32, store_u64,
}

-- The test for an access of `size` bytes is passed exactly when they lie in the memory.
pub in_bounds :
    (offset size : ℕ) → offset + size ≤ wram_size_bytes → rel_in_bounds offset size ≡ true
unfolding rel_in_bounds
in_bounds offset size h = ground arith

pub in_bounds-le :
    (offset size : ℕ) → rel_in_bounds offset size ≡ true → offset + size ≤ wram_size_bytes
unfolding rel_in_bounds
in_bounds-le offset size h = ground arith

-- A 16-bit value stored within bounds in either byte order is loaded again in that order.
pub load_u16-store_u16 :
    (w : Wram) (offset value : ℕ) (big_endian : Bool)
    → offset + 2 ≤ wram_size_bytes
    → value < 2 ^ 16
    → load_u16 (store_u16 w offset value big_endian) offset big_endian ≡ value
unfolding load_u16 store_u16
load_u16-store_u16 w offset value false h hv =
    rw (in_bounds offset 2 h) (load_le-store_le 2 w.bytes offset value hv)
load_u16-store_u16 w offset value true h hv =
    rw (in_bounds offset 2 h, load_le-store_le 2 w.bytes offset (bswap16 value) (bswap16-lt value))
      (bswap16-bswap16 value hv)

-- A 32-bit value stored within bounds in either byte order is loaded again in that order.
pub load_u32-store_u32 :
    (w : Wram) (offset value : ℕ) (big_endian : Bool)
    → offset + 4 ≤ wram_size_bytes
    → value < 2 ^ 32
    → load_u32 (store_u32 w offset value big_endian) offset big_endian ≡ value
unfolding load_u32 store_u32
load_u32-store_u32 w offset value false h hv =
    rw (in_bounds offset 4 h) (load_le-store_le 4 w.bytes offset value hv)
load_u32-store_u32 w offset value true h hv =
    rw
      (
        in_bounds offset 4 h,
        load_le-store_le 4 w.bytes offset (bswap32 value) (bswap32-lt value hv),
      )
      (bswap32-bswap32 value hv)

-- A 64-bit value stored within bounds in either byte order is loaded again in that order.
pub load_u64-store_u64 :
    (w : Wram) (offset value : ℕ) (big_endian : Bool)
    → offset + 8 ≤ wram_size_bytes
    → value < 2 ^ 64
    → load_u64 (store_u64 w offset value big_endian) offset big_endian ≡ value
unfolding load_u64 store_u64
load_u64-store_u64 w offset value false h hv =
    rw (in_bounds offset 8 h) (load_le-store_le 8 w.bytes offset value hv)
load_u64-store_u64 w offset value true h hv =
    rw
      (
        in_bounds offset 8 h,
        load_le-store_le 8 w.bytes offset (bswap64 value) (bswap64-lt value hv),
      )
      (bswap64-bswap64 value hv)

-- A big-endian load puts the byte at the lowest address in the highest place.
pub load_u16-big :
    (w : Wram) (offset : ℕ)
    → IsBytes w.bytes
    → offset + 2 ≤ wram_size_bytes
    → load_u16 w offset true ≡ load_be 2 w.bytes offset
unfolding load_u16 load_be load_le
load_u16-big w offset hb h = rw (in_bounds offset 2 h) (
    omega (
      arith,
      bswap16-eq (w.bytes offset + 256 * (w.bytes (offset + 1) + 256 * 0)),
      hb offset,
      hb (offset + 1),
    ))

pub load_u32-big :
    (w : Wram) (offset : ℕ)
    → IsBytes w.bytes
    → offset + 4 ≤ wram_size_bytes
    → load_u32 w offset true ≡ load_be 4 w.bytes offset
unfolding load_u32 load_be load_le
load_u32-big w offset hb h = rw (in_bounds offset 4 h) (
    omega (
      arith,
      bswap32-eq (load_le 4 w.bytes offset),
      hb offset,
      hb (offset + 1),
      hb (offset + 1 + 1),
      hb (offset + 1 + 1 + 1),
    ))

pub load_u64-big :
    (w : Wram) (offset : ℕ)
    → IsBytes w.bytes
    → offset + 8 ≤ wram_size_bytes
    → load_u64 w offset true ≡ load_be 8 w.bytes offset
unfolding load_u64 load_be load_le
load_u64-big w offset hb h =
    let v : ℕ = load_le 8 w.bytes offset in
    rw (in_bounds offset 8 h) (
      omega (
        arith,
        bswap64-eq v,
        bswap16-eq (v % 2 ^ 16),
        bswap16-eq (v / 2 ^ 16 % 2 ^ 16),
        bswap16-eq (v / 2 ^ 32 % 2 ^ 16),
        bswap16-eq (v / 2 ^ 48),
        hb offset,
        hb (offset + 1),
        hb (offset + 1 + 1),
        hb (offset + 1 + 1 + 1),
        hb (offset + 1 + 1 + 1 + 1),
        hb (offset + 1 + 1 + 1 + 1 + 1),
        hb (offset + 1 + 1 + 1 + 1 + 1 + 1),
        hb (offset + 1 + 1 + 1 + 1 + 1 + 1 + 1),
      ))
