-- ===== src/Dpu/Dma/Defs.antt =====
-- The class `DMAEngine`. A transfer that writes a memory returns it beside its result.
use hostpimsim_gecon.Base.{
  ℕ, zero, suc, ◌+◌, ◌-◌, ◌*◌, ◌/◌, ◌^◌, min, Bool, true, false, ◌||◌, not, none, some, ltb, leb,
  ◌==◌, if◌then◌else◌, u16, u32, bit_or,
}
use hostpimsim_gecon.Dpu.Config.{iram_size_bytes, wram_size_bytes}
use hostpimsim_gecon.Dpu.Mram.{Mram, is_some, load_u8, host_copy_to_mram, host_copy_from_mram}
use hostpimsim_gecon.Dpu.Wram.{Wram}
use hostpimsim_gecon.Dpu.Iram.{Iram, slot_in_bounds, write_word}

pub record DmaEngine : Type 0 where
  pub dma_mux_status : ℕ
  pub dma_ctrl_reg : ℕ

-- The six bytes at `src_off`, put together by shifts.
unfoldable pub load_word48 : Mram → ℕ → ℕ
load_word48 mram src_off =
    let byte = λ (i : ℕ). load_u8 mram (u32 (src_off + i)) in
    bit_or
      (bit_or
        (bit_or (bit_or (bit_or (bit_or 0 (byte 0)) (byte 1 * 2 ^ 8)) (byte 2 * 2 ^ 16))
          (byte 3 * 2 ^ 24))
        (byte 4 * 2 ^ 32))
      (byte 5 * 2 ^ 40)

-- The loop over the slots, with the rounds that are left; the number of slots copied is the result.
unfoldable pub copy_slots : ℕ → ℕ → Mram → ℕ → ℕ → Iram → ℕ → Iram × ℕ
unfolding load_word48
copy_slots zero slot mram mram_offset iram_slot iram copied = (iram, copied)
copy_slots (suc left) slot mram mram_offset iram_slot iram copied =
    let dst_slot : ℕ = u16 (iram_slot + slot) in
    let word : ℕ = load_word48 mram (u32 (mram_offset + slot * 6)) in
    let rest =
      copy_slots left (slot + 1) mram mram_offset iram_slot (write_word iram dst_slot word)
        (copied + 1) in
    if not (slot_in_bounds dst_slot) then (iram, copied) else rest

unfoldable pub dma_to_iram_from_mram : Iram → Mram → ℕ → ℕ → ℕ → Bool × Iram
dma_to_iram_from_mram iram mram bytes mram_offset iram_slot =
    let iram_off : ℕ = iram_slot * 6 in
    let copy_bytes : ℕ = min bytes (min (mram.size - mram_offset) (iram_size_bytes - iram_off)) in
    let (iram', copied_slots) = copy_slots (copy_bytes / 6) 0 mram mram_offset iram_slot iram 0 in
    if not (is_some mram.addr) || (mram.size == 0) || (bytes == 0)
    then (false, iram)
    else if leb mram.size mram_offset || leb iram_size_bytes iram_off
    then (false, iram)
    else if ltb copy_bytes 6
    then (false, iram)
    else (ltb 0 copied_slots, iram')

-- The copy's own result is not looked at.
unfoldable pub dma_to_wram_from_mram : Wram → Mram → ℕ → ℕ → ℕ → Bool × Wram
dma_to_wram_from_mram wram mram bytes wram_offset mram_offset =
    let copy_bytes : ℕ =
      min bytes (min (mram.size - mram_offset) (wram_size_bytes - wram_offset)) in
    let copied = host_copy_from_mram mram (some wram.bytes) wram_offset mram_offset copy_bytes in
    if not (is_some mram.addr) || (mram.size == 0) || (bytes == 0)
    then (false, wram)
    else if leb mram.size mram_offset || leb wram_size_bytes wram_offset
    then (false, wram)
    else if copy_bytes == 0
    then (false, wram)
    else (true, elim copied.1 [ none ↦ wram | some written ↦ record { bytes = written } ])

unfoldable pub dma_to_mram_from_wram : Mram → Wram → ℕ → ℕ → ℕ → Bool × Mram
dma_to_mram_from_wram mram wram bytes mram_offset wram_offset =
    let copy_bytes : ℕ =
      min bytes (min (mram.size - mram_offset) (wram_size_bytes - wram_offset)) in
    let copied = host_copy_to_mram mram mram_offset (some wram.bytes) wram_offset copy_bytes in
    if not (is_some mram.addr) || (mram.size == 0) || (bytes == 0)
    then (false, mram)
    else if leb mram.size mram_offset || leb wram_size_bytes wram_offset
    then (false, mram)
    else if copy_bytes == 0
    then (false, mram)
    else (true, copied.1)

unfoldable pub is_opcode : ℕ → Bool
is_opcode opcode = (opcode == 0x50) || (opcode == 0x51) || (opcode == 0x52)

unfoldable pub set_dma_mux_status : DmaEngine → ℕ → DmaEngine
set_dma_mux_status d v = record d { dma_mux_status = v }

unfoldable pub set_dma_ctrl_reg : DmaEngine → ℕ → DmaEngine
set_dma_ctrl_reg d v = record d { dma_ctrl_reg = v }
