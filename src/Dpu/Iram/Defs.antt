-- ===== src/Dpu/Iram/Defs.antt =====
-- The class `IRAM`.
use hostpimsim_gecon.Base.{
  ℕ, ◌+◌, ◌*◌, ◌/◌, Bool, ◌&&◌, not, ltb, leb, if◌then◌else◌, Bytes, load_le, store_le, bit_and,
}
use hostpimsim_gecon.Dpu.Config.{iram_size_bytes}

pub record Iram : Type 0 where
  pub inst : Bytes

abbrev pub iram_slot_bytes : ℕ
iram_slot_bytes = 8

abbrev pub iram_write_word_bytes : ℕ
iram_write_word_bytes = 6

abbrev pub iram_inst48_mask : ℕ
iram_inst48_mask = 0x0000_ffff_ffff_ffff

unfoldable pub slot_in_bounds : ℕ → Bool
slot_in_bounds iram_slot =
    ltb iram_slot (iram_size_bytes / iram_slot_bytes)
    && leb (iram_slot * iram_slot_bytes + iram_write_word_bytes) iram_size_bytes

unfoldable pub read_word : Iram → ℕ → ℕ
unfolding slot_in_bounds
read_word m iram_slot =
    if not (slot_in_bounds iram_slot)
    then 0
    else bit_and (load_le 8 m.inst (iram_slot * iram_slot_bytes)) iram_inst48_mask

unfoldable pub write_word : Iram → ℕ → ℕ → Iram
unfolding slot_in_bounds
write_word m iram_slot inst48 =
    if not (slot_in_bounds iram_slot)
    then m
    else let value = bit_and inst48 iram_inst48_mask in
      record { inst = store_le 8 m.inst (iram_slot * iram_slot_bytes) value }
