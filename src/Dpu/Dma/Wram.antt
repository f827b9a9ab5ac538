-- ===== src/Dpu/Dma/Wram.antt =====
-- Transfers between the WRAM and an allocated MRAM.
use hostpimsim_gecon.Base.{ℕ, ◌-◌, min, ◌≡◌, arith, ltb, Bytes, memcpy, memcpy-zero}
use hostpimsim_gecon.Dpu.Config.{wram_size_bytes, mram_size_bytes}
use hostpimsim_gecon.Dpu.Mram.{Mram}
use hostpimsim_gecon.Dpu.Mram.Copies.{Holds, host_copy_to_mram-Holds, host_copy_from_mram-Holds}
use hostpimsim_gecon.Dpu.Wram.{Wram}
use hostpimsim_gecon.Dpu.Dma.Defs.{dma_to_wram_from_mram, dma_to_mram_from_wram}

-- How many bytes a transfer moves: those asked for, cut at the end of either memory.
unfoldable pub transfer_size : ℕ → ℕ → ℕ → ℕ
transfer_size bytes mram_offset wram_offset =
    min bytes (min (mram_size_bytes - mram_offset) (wram_size_bytes - wram_offset))

-- A transfer from an allocated MRAM to the WRAM copies exactly the bytes asked for that both
-- memories have, changes no other byte of the WRAM, and succeeds exactly when there are any.
pub dma_to_wram_from_mram-Holds :
    (w : Wram) (m : Mram) (mem : Bytes) (bytes wram_offset mram_offset : ℕ)
    → Holds m mem
    → let n = transfer_size bytes mram_offset wram_offset in
      dma_to_wram_from_mram w m bytes wram_offset mram_offset
      ≡ (ltb 0 n, record { bytes = memcpy n w.bytes wram_offset mem mram_offset })
unfolding dma_to_wram_from_mram transfer_size
dma_to_wram_from_mram-Holds w m mem bytes wram_offset mram_offset h =
    let n : ℕ = transfer_size bytes mram_offset wram_offset in
    ground (
      arith,
      host_copy_from_mram-Holds m mem w.bytes wram_offset mram_offset n h,
      memcpy-zero w.bytes wram_offset mem mram_offset,
    )

-- A transfer to an allocated MRAM from the WRAM copies exactly the bytes asked for that both
-- memories have, changes no other byte of the MRAM, and succeeds exactly when there are any.
pub dma_to_mram_from_wram-Holds :
    (m : Mram) (w : Wram) (mem : Bytes) (bytes mram_offset wram_offset : ℕ)
    → Holds m mem
    → let n = transfer_size bytes mram_offset wram_offset in
      let (done, m') = dma_to_mram_from_wram m w bytes mram_offset wram_offset in
      (done ≡ ltb 0 n) × Holds m' (memcpy n mem mram_offset w.bytes wram_offset)
unfolding dma_to_mram_from_wram transfer_size
dma_to_mram_from_wram-Holds m w mem bytes mram_offset wram_offset h =
    let n : ℕ = transfer_size bytes mram_offset wram_offset in
    ground (
      arith,
      host_copy_to_mram-Holds m mem w.bytes mram_offset wram_offset n h,
      memcpy-zero mem mram_offset w.bytes wram_offset,
    )
