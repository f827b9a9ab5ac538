-- ===== src/Dpu/Wram/Defs.antt =====
-- The class `WRAM`. A `uint32_t` offset is a number; the host is little-endian.
use hostpimsim_gecon.Base.{
  ℕ, ◌+◌, ◌-◌, ◌*◌, Bool, false, ◌&&◌, not, leb, if◌then◌else◌, Bytes, u32, update, load_le,
  store_le,
}
use hostpimsim_gecon.Dpu.Config.{wram_size_bytes}
use hostpimsim_gecon.Dpu.Swap.{bswap16, bswap32, bswap64}

pub record Wram : Type 0 where
  pub bytes : Bytes

unfoldable pub rel_in_bounds : ℕ → ℕ → Bool
rel_in_bounds offset size = leb offset wram_size_bytes && leb size (wram_size_bytes - offset)

-- The offset in bytes is a `size_t`, so it does not wrap.
unfoldable pub word_in_bounds : ℕ → Bool
word_in_bounds word_offset = leb (word_offset * 4 + 4) wram_size_bytes

unfoldable pub load_u8 : Wram → ℕ → ℕ
unfolding rel_in_bounds
load_u8 w offset = if not (rel_in_bounds offset 1) then 0 else w.bytes offset

unfoldable pub load_u16 : Wram → ℕ → Bool → ℕ
unfolding rel_in_bounds
load_u16 w offset big_endian =
    if not (rel_in_bounds offset 2)
    then 0
    else let value = load_le 2 w.bytes offset in if big_endian then bswap16 value else value

unfoldable pub load_u32 : Wram → ℕ → Bool → ℕ
unfolding rel_in_bounds
load_u32 w offset big_endian =
    if not (rel_in_bounds offset 4)
    then 0
    else let value = load_le 4 w.bytes offset in if big_endian then bswap32 value else value

unfoldable pub load_u64 : Wram → ℕ → Bool → ℕ
unfolding rel_in_bounds
load_u64 w offset big_endian =
    if not (rel_in_bounds offset 8)
    then 0
    else let value = load_le 8 w.bytes offset in if big_endian then bswap64 value else value

unfoldable pub store_u8 : Wram → ℕ → ℕ → Wram
unfolding rel_in_bounds
store_u8 w offset value =
    if not (rel_in_bounds offset 1) then w else record { bytes = update w.bytes offset value }

unfoldable pub store_u16 : Wram → ℕ → ℕ → Bool → Wram
unfolding rel_in_bounds
store_u16 w offset value big_endian =
    if not (rel_in_bounds offset 2)
    then w
    else let v = if big_endian then bswap16 value else value in
      record { bytes = store_le 2 w.bytes offset v }

unfoldable pub store_u32 : Wram → ℕ → ℕ → Bool → Wram
unfolding rel_in_bounds
store_u32 w offset value big_endian =
    if not (rel_in_bounds offset 4)
    then w
    else let v = if big_endian then bswap32 value else value in
      record { bytes = store_le 4 w.bytes offset v }

unfoldable pub store_u64 : Wram → ℕ → ℕ → Bool → Wram
unfolding rel_in_bounds
store_u64 w offset value big_endian =
    if not (rel_in_bounds offset 8)
    then w
    else let v = if big_endian then bswap64 value else value in
      record { bytes = store_le 8 w.bytes offset v }

unfoldable pub read_word : Wram → ℕ → ℕ
unfolding word_in_bounds
read_word w word_offset =
    if not (word_in_bounds word_offset) then 0 else load_u32 w (u32 (word_offset * 4)) false

unfoldable pub write_word : Wram → ℕ → ℕ → Wram
unfolding word_in_bounds
write_word w word_offset value =
    if not (word_in_bounds word_offset) then w else store_u32 w (u32 (word_offset * 4)) value false
