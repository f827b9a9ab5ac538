-- ===== src/Ci/Frame/Envelope.antt =====
-- The response words, and the two decoders that read bytes of a frame.
use hostpimsim_gecon.Base.{
  ℕ, ◌+◌, ◌*◌, ◌/◌, ◌%◌, ◌^◌, ◌<◌, ◌≡◌, ◌↔◌, ◌∙◌, ap, arith, Bool, true, false, if◌then◌else◌, some,
  u8, bit_and, bit_or, bit_or_fields, bit_and_field, bit_and_mask,
}
use hostpimsim_gecon.Ci.Frame.Defs.{
  b, ready_result, nop_style_result, decode_iram_write_structure, decode_dma_ctrl_write_frame,
}

-- A byte of a word.
pub b-eq : (x shift : ℕ) → b x shift ≡ x / 2 ^ shift % 256
unfolding b
b-eq x shift = omega (arith, bit_and_mask 8 (x / 2 ^ shift))

ready_result-sum :
    (c : Bool) (p : ℕ)
    → p < 2 ^ 32
    → ready_result c p ≡ (if c then 0xff * 2 ^ 48 else 0) + 0xff * 2 ^ 32 + p
unfolding ready_result
ready_result-sum true p h = bit_or_fields 32 0xff_00ff p h ∙ omega arith
ready_result-sum false p h = bit_or_fields 32 0xff p h ∙ omega arith

nop_style_result-sum :
    (c : Bool) (p : ℕ)
    → nop_style_result c p
      ≡ 0xff * 2 ^ 56 + (if c then 0xff * 2 ^ 48 else 0) + 0xff * 2 ^ 32 + p % 256
unfolding nop_style_result
nop_style_result-sum true p =
    ap (bit_or 0xffff_00ff_0000_0000) (bit_and_mask 8 p)
    ∙ bit_or_fields 32 0xffff_00ff (p % 256) (omega arith)
    ∙ omega arith
nop_style_result-sum false p =
    ap (bit_or 0xff00_00ff_0000_0000) (bit_and_mask 8 p)
    ∙ bit_or_fields 32 0xff00_00ff (p % 256) (omega arith)
    ∙ omega arith

-- A ready response with a 32-bit payload carries its colour and its payload apart, and has 0xff as
-- its fifth byte and 0 as its top byte, where a nop-style response has 0xff.
pub ready_result-fields :
    (c : Bool) (p : ℕ)
    → p < 2 ^ 32
    → (b (ready_result c p) 48 ≡ (if c then 0xff else 0x00))
      × (ready_result c p % 2 ^ 32 ≡ p)
      × (b (ready_result c p) 32 ≡ 0xff)
      × (b (ready_result c p) 56 ≡ 0x00)
ready_result-fields c p h = ground (
  arith,
  b-eq (ready_result c p) 48,
  b-eq (ready_result c p) 32,
  b-eq (ready_result c p) 56,
  ready_result-sum c p h,
)

-- A nop-style response carries its colour and the low byte of its payload.
pub nop_style_result-fields :
    (c : Bool) (p : ℕ)
    → (b (nop_style_result c p) 48 ≡ (if c then 0xff else 0x00))
      × (nop_style_result c p % 2 ^ 32 ≡ p % 256)
      × (b (nop_style_result c p) 32 ≡ 0xff)
      × (b (nop_style_result c p) 56 ≡ 0xff)
nop_style_result-fields c p = ground (
  arith,
  b-eq (nop_style_result c p) 48,
  b-eq (nop_style_result c p) 32,
  b-eq (nop_style_result c p) 56,
  nop_style_result-sum c p,
)

-- A word is taken for an IRAM write structure exactly when its top byte is 0x11 and its low six
-- bytes are the pattern with the address in the third; the address is that byte.
pub decode_iram_write_structure_iff :
    (cmd hi : ℕ)
    → (decode_iram_write_structure cmd ≡ some hi)
      ↔ ((cmd / 2 ^ 56 % 256 ≡ 0x11) × (cmd % 2 ^ 48 ≡ 0x0002_4700_00ff + hi * 2 ^ 16) × (hi < 256))
unfolding decode_iram_write_structure
decode_iram_write_structure_iff cmd hi =
    ground (
      arith,
      b-eq cmd 0,
      b-eq cmd 8,
      b-eq cmd 16,
      b-eq cmd 24,
      b-eq cmd 32,
      b-eq cmd 40,
      b-eq cmd 56,
    )

nibble : (x : ℕ) → x < 256 → (bit_and x 0xf0 ≡ x / 16 * 16) × (bit_and x 0x0f ≡ x % 16)
nibble x h = (omega (arith, bit_and_field 4 4 x), bit_and_mask 4 x)

join_nibbles : (x y : ℕ) → u8 (bit_or (x % 16 * 2 ^ 4) (y % 16)) ≡ x % 16 * 16 + y % 16
join_nibbles x y = omega (arith, bit_or_fields 4 (x % 16) (y % 16))

-- A word is taken for a DMA control write exactly when its low four bytes are nibbles marked by 6,
-- which spell the address and the datum from the first byte on.
pub decode_dma_ctrl_write_frame_iff :
    (word address datum : ℕ)
    → (decode_dma_ctrl_write_frame word ≡ some (address, datum)) ↔ (
        (address < 256)
        × (datum < 256)
        × (word % 2 ^ 32
            ≡ 0x60
              + address / 16
              + (0x60 + address % 16) * 2 ^ 8
              + (0x60 + datum / 16) * 2 ^ 16
              + (0x60 + datum % 16) * 2 ^ 24))
unfolding decode_dma_ctrl_write_frame
decode_dma_ctrl_write_frame_iff word address datum =
    let b0 : ℕ = word / 2 ^ 0 % 256 in
    let b1 : ℕ = word / 2 ^ 8 % 256 in
    let b2 : ℕ = word / 2 ^ 16 % 256 in
    let b3 : ℕ = word / 2 ^ 24 % 256 in
    rw
      (
        b-eq word 0,
        b-eq word 8,
        b-eq word 16,
        b-eq word 24,
        (nibble b0 (omega arith)).0,
        (nibble b0 (omega arith)).1,
        (nibble b1 (omega arith)).0,
        (nibble b1 (omega arith)).1,
        (nibble b2 (omega arith)).0,
        (nibble b2 (omega arith)).1,
        (nibble b3 (omega arith)).0,
        (nibble b3 (omega arith)).1,
        join_nibbles b0 b1,
        join_nibbles b2 b3,
      )
      (ground arith)
