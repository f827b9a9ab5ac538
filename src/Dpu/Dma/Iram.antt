-- ===== src/Dpu/Dma/Iram.antt =====
-- Transfers from an allocated MRAM to the IRAM.
use hostpimsim_gecon.Base.{
  ℕ, zero, suc, ◌+◌, ◌-◌, ◌*◌, ◌/◌, ◌^◌, ◌≤◌, ◌<◌, min, ◌≡◌, ◌∙◌, ap, arith, dec_lt, ◌&&◌, leb, ltb,
  if◌then◌else◌, Bool-cases, inl, inr, Bytes, IsBytes, load_le, load_le-lt, u16, u32, join6,
}
use hostpimsim_gecon.Dpu.Config.{mram_size_bytes, iram_size_bytes}
use hostpimsim_gecon.Dpu.Mram.{Mram, load_u8}
use hostpimsim_gecon.Dpu.Mram.Copies.{Holds, load_u8-Holds}
use hostpimsim_gecon.Dpu.Iram.{Iram, slot_in_bounds, read_word, write_word}
use hostpimsim_gecon.Dpu.Iram.Slots.{
  slot_read_word-write_word, slot_in_bounds-lt, lt-slot_in_bounds,
}
use hostpimsim_gecon.Dpu.Dma.Defs.{load_word48, copy_slots, dma_to_iram_from_mram}

byte_at :
    (m : Mram) (mem : Bytes) (off i : ℕ)
    → Holds m mem
    → off + i < mram_size_bytes
    → load_u8 m (u32 (off + i)) ≡ mem (off + i)
byte_at m mem off i h fits =
    let e : u32 (off + i) ≡ off + i = omega arith in
    ap (load_u8 m) e ∙ ground (arith, load_u8-Holds m mem (off + i) h)

load_word48-eq :
    (m : Mram) (mem : Bytes) (off : ℕ)
    → Holds m mem
    → IsBytes mem
    → off + 6 ≤ mram_size_bytes
    → load_word48 m off ≡ load_le 6 mem off
unfolding load_word48 load_le
load_word48-eq m mem off h hb fits =
    let e0 : off + 0 ≡ off = omega arith in
    let e2 : off + 1 + 1 ≡ off + 2 = omega arith in
    let e3 : off + 1 + 1 + 1 ≡ off + 3 = omega arith in
    let e4 : off + 1 + 1 + 1 + 1 ≡ off + 4 = omega arith in
    let e5 : off + 1 + 1 + 1 + 1 + 1 ≡ off + 5 = omega arith in
    rw
      (
        byte_at m mem off 0 h (omega arith),
        byte_at m mem off 1 h (omega arith),
        byte_at m mem off 2 h (omega arith),
        byte_at m mem off 3 h (omega arith),
        byte_at m mem off 4 h (omega arith),
        byte_at m mem off 5 h (omega arith),
      )
      (join6 (mem (off + 0)) (mem (off + 1)) (mem (off + 2)) (mem (off + 3)) (mem (off + 4))
          (mem (off + 5)) (hb _) (hb _) (hb _) (hb _) (hb _) (hb _)
        ∙ omega (arith, ap mem e0, ap mem e2, ap mem e3, ap mem e4, ap mem e5))

-- How many slots the loop copies: the rounds asked for, cut at the last slot.
slots_from : ℕ → ℕ → ℕ
slots_from left dst = min left (3072 - dst)

-- The loop from round `slot` on.
copy_slots-Holds :
    (left slot : ℕ) (m : Mram) (mem : Bytes) (off base : ℕ) (iram : Iram) (copied j : ℕ)
    → Holds m mem
    → IsBytes mem
    → off + (slot + left) * 6 ≤ mram_size_bytes
    → base + (slot + left) < 2 ^ 16
    → let (iram', c) = copy_slots left slot m off base iram copied in
      let n = slots_from left (base + slot) in
      (c ≡ copied + n)
      × (read_word iram' j ≡ (
          if leb (base + slot) j && ltb j (base + slot + n)
          then load_le 6 mem (off + (j - base) * 6)
          else read_word iram j))
unfolding copy_slots slots_from
copy_slots-Holds zero slot m mem off base iram copied j h hb fits small =
    (ground arith, ground arith)
copy_slots-Holds (suc left) slot m mem off base iram copied j h hb fits small =
    let dst : ℕ = base + slot in
    let src : ℕ = off + slot * 6 in
    let ed : u16 (base + slot) ≡ dst = omega arith in
    let es : u32 (off + slot * 6) ≡ src = omega arith in
    let word : ℕ = load_le 6 mem src in
    let ew : load_word48 m src ≡ word = load_word48-eq m mem src h hb (omega arith) in
    let back : off + (dst - base) * 6 ≡ src = omega arith in
    rw (ed, es, ew)
      (elim (Bool-cases (slot_in_bounds dst)) [
        | inl ok ↦ rw ok (
            ground (
              arith,
              copy_slots-Holds left (slot + 1) m mem off base (write_word iram dst word)
                  (copied + 1) j h hb (omega arith) (omega arith),
              slot_read_word-write_word iram dst j word,
              slot_in_bounds-lt dst ok,
              load_le-lt 6 mem src hb,
              ap (load_le 6 mem) back,
            ))
        | inr out ↦ rw out (ground (arith, lt-slot_in_bounds dst))
      ])

-- How many instructions a transfer moves: whole six-byte words among the bytes asked for, cut at the
-- end of the MRAM and at the last slot.
unfoldable pub iram_slots : ℕ → ℕ → ℕ → ℕ
iram_slots bytes mram_offset iram_slot =
    min (min bytes (mram_size_bytes - mram_offset) / 6) (3072 - iram_slot)

-- A transfer from an allocated MRAM of bytes, to a slot number of 16 bits, fills consecutive slots
-- with the six-byte words from its place on, as many as both memories and the request have, and leaves every other slot as it was; it
-- succeeds exactly when there is one.
pub dma_to_iram_from_mram-Holds :
    (iram : Iram) (m : Mram) (mem : Bytes) (bytes mram_offset iram_slot j : ℕ)
    → Holds m mem
    → IsBytes mem
    → iram_slot < 2 ^ 16
    → let n = iram_slots bytes mram_offset iram_slot in
      let (done, iram') = dma_to_iram_from_mram iram m bytes mram_offset iram_slot in
      (done ≡ ltb 0 n)
      × (read_word iram' j ≡ (
          if leb iram_slot j && ltb j (iram_slot + n)
          then load_le 6 mem (mram_offset + (j - iram_slot) * 6)
          else read_word iram j))
unfolding dma_to_iram_from_mram iram_slots slots_from
dma_to_iram_from_mram-Holds iram m mem bytes off base j h hb small =
    let copy_bytes : ℕ = min bytes (min (m.size - off) (iram_size_bytes - base * 6)) in
    let zero_slot : base + 0 ≡ base = omega arith in
    elim (dec_lt off mram_size_bytes) [
      | yes inside ↦ ground (
        arith,
        copy_slots-Holds (copy_bytes / 6) 0 m mem off base iram 0 j h hb (omega arith)
            (omega arith),
      )
      | no past ↦ ground arith
    ]
