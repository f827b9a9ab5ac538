-- ===== src/Dpu/Wram/Safety.antt =====
-- The four widths of access as one type, so that what holds of each is said once.
use hostpimsim_gecon.Base.{
  ℕ, ◌+◌, ◌^◌, ◌≤◌, ◌<◌, ◌≡◌, ◌⊎◌, inl, inr, ap, arith, dec_le, Bool, true, false, if◌then◌else◌,
  IsBytes, update, load_le, load_be, store_le, store_le_below, store_le_above, store_le-IsBytes,
}
use hostpimsim_gecon.Dpu.Config.{wram_size_bytes}
use hostpimsim_gecon.Dpu.Swap.{bswap16, bswap32, bswap64}
use hostpimsim_gecon.Dpu.Wram.Defs.{
  Wram, load_u8, load_u16, load_u32, load_u64, store_u8, store_u16, store_u32, store_u64,
}
use hostpimsim_gecon.Dpu.Wram.Access.{
  in_bounds, load_u16-store_u16, load_u32-store_u32, load_u64-store_u64, load_u16-big, load_u32-big,
  load_u64-big,
}

pub data Width : Type 0 where
  w8 w16 w32 w64 : Width

abbrev pub size_of : Width → ℕ
size_of w8 = 1
size_of w16 = 2
size_of w32 = 4
size_of w64 = 8

abbrev pub load : Width → Wram → ℕ → Bool → ℕ
load w8 w offset big_endian = load_u8 w offset
load w16 w offset big_endian = load_u16 w offset big_endian
load w32 w offset big_endian = load_u32 w offset big_endian
load w64 w offset big_endian = load_u64 w offset big_endian

abbrev pub store : Width → Wram → ℕ → ℕ → Bool → Wram
store w8 w offset value big_endian = store_u8 w offset value
store w16 w offset value big_endian = store_u16 w offset value big_endian
store w32 w offset value big_endian = store_u32 w offset value big_endian
store w64 w offset value big_endian = store_u64 w offset value big_endian

-- A value of the width that is stored within bounds, in either byte order, is what a load of that
-- width, place and order gives back.
pub load-store :
    (k : Width) (w : Wram) (offset value : ℕ) (big_endian : Bool)
    → offset + size_of k ≤ wram_size_bytes
    → value < 256 ^ size_of k
    → load k (store k w offset value big_endian) offset big_endian ≡ value
unfolding load_u8 store_u8 update
load-store w8 w offset value big_endian h hv = ground (arith, in_bounds offset 1 h)
load-store w16 w offset value big_endian h hv = load_u16-store_u16 w offset value big_endian h hv
load-store w32 w offset value big_endian h hv = load_u32-store_u32 w offset value big_endian h hv
load-store w64 w offset value big_endian h hv = load_u64-store_u64 w offset value big_endian h hv

-- The bytes that an access of `n` bytes at `offset` may write.
abbrev pub Outside : ℕ → ℕ → ℕ → Type 0
Outside n offset i = (i < offset) ⊎ (offset + n ≤ i)

store_le-Outside :
    (n : ℕ) (w : Wram) (offset v i : ℕ)
    → Outside n offset i
    → store_le n w.bytes offset v i ≡ w.bytes i
store_le-Outside n w offset v i (inl h) = store_le_below n w.bytes offset v i h
store_le-Outside n w offset v i (inr h) = store_le_above n w.bytes offset v i h

store-Outside :
    (k : Width) (w : Wram) (offset value i : ℕ) (big_endian : Bool)
    → Outside (size_of k) offset i
    → (store k w offset value big_endian).bytes i ≡ w.bytes i
unfolding store_u8 store_u16 store_u32 store_u64 update
store-Outside w8 w offset value i b h = ground arith
store-Outside w16 w offset value i b h =
    ground (arith, store_le-Outside 2 w offset (if b then bswap16 value else value) i h)
store-Outside w32 w offset value i b h =
    ground (arith, store_le-Outside 4 w offset (if b then bswap32 value else value) i h)
store-Outside w64 w offset value i b h =
    ground (arith, store_le-Outside 8 w offset (if b then bswap64 value else value) i h)

store-refused :
    (k : Width) (w : Wram) (offset value : ℕ) (big_endian : Bool)
    → wram_size_bytes < offset + size_of k
    → store k w offset value big_endian ≡ w
unfolding store_u8 store_u16 store_u32 store_u64
store-refused w8 w offset value b h = ground arith
store-refused w16 w offset value b h = ground arith
store-refused w32 w offset value b h = ground arith
store-refused w64 w offset value b h = ground arith

-- No store, whatever its offset, writes a byte outside those it addresses or past the array's end.
store-frame :
    (k : Width) (w : Wram) (offset value i : ℕ) (big_endian : Bool)
    → Outside (size_of k) offset i ⊎ (wram_size_bytes ≤ i)
    → (store k w offset value big_endian).bytes i ≡ w.bytes i
store-frame k w offset value i b (inl h) = store-Outside k w offset value i b h
store-frame k w offset value i b (inr h) = elim (dec_le (offset + size_of k) wram_size_bytes) [
  | yes p ↦ store-Outside k w offset value i b (inr (omega arith))
  | no p ↦ ap (λ (m : Wram). m.bytes i) (store-refused k w offset value b (omega arith))
]

-- In a memory of bytes, a load within bounds reads the bytes at its place, the lowest address first
-- as the least significant byte, or, in big-endian order, as the most significant one.
pub load-bytes :
    (k : Width) (w : Wram) (offset : ℕ) (big_endian : Bool)
    → IsBytes w.bytes
    → offset + size_of k ≤ wram_size_bytes
    → load k w offset big_endian ≡ (
        if big_endian
        then load_be (size_of k) w.bytes offset
        else load_le (size_of k) w.bytes offset)
unfolding load_u8 load_u16 load_u32 load_u64 load_le load_be
load-bytes w8 w offset false hb h = ground (arith, in_bounds offset 1 h)
load-bytes w8 w offset true hb h = ground (arith, in_bounds offset 1 h)
load-bytes w16 w offset false hb h = rw (in_bounds offset 2 h)
load-bytes w32 w offset false hb h = rw (in_bounds offset 4 h)
load-bytes w64 w offset false hb h = rw (in_bounds offset 8 h)
load-bytes w16 w offset true hb h = load_u16-big w offset hb h
load-bytes w32 w offset true hb h = load_u32-big w offset hb h
load-bytes w64 w offset true hb h = load_u64-big w offset hb h

-- Stores keep every byte of the memory below 256.
pub store-IsBytes :
    (k : Width) (w : Wram) (offset value : ℕ) (big_endian : Bool)
    → IsBytes w.bytes
    → value < 256 ^ size_of k
    → IsBytes (store k w offset value big_endian).bytes
unfolding store_u8 store_u16 store_u32 store_u64 update
store-IsBytes w8 w offset value b h hv i = ground (arith, h i)
store-IsBytes w16 w offset value b h hv i =
    ground (arith, h i, store_le-IsBytes 2 w.bytes offset (if b then bswap16 value else value) h i)
store-IsBytes w32 w offset value b h hv i =
    ground (arith, h i, store_le-IsBytes 4 w.bytes offset (if b then bswap32 value else value) h i)
store-IsBytes w64 w offset value b h hv i =
    ground (arith, h i, store_le-IsBytes 8 w.bytes offset (if b then bswap64 value else value) h i)
