-- ===== src/Ci/Frame/Defs.antt =====
-- Encoders and decoders. A decoder's `none` is the result `false`. The words are of 64 bits; no shift
-- of an encoder passes that width, since what is shifted is a byte or a masked field.
use hostpimsim_gecon.Base.{
  ℕ, zero, suc, ◌+◌, ◌*◌, ◌/◌, ◌^◌, Bool, true, false, ◌||◌, Option, none, some, ◌==◌, ◌!=◌,
  if◌then◌else◌, u8, u16, bit_and, bit_or,
}

-- The byte of `x` at a bit position.
unfoldable pub b : ℕ → ℕ → ℕ
b x shift = u8 (bit_and (x / 2 ^ shift) 0xff)

-- The successive `cmd |= …` of `encode_frame_from_x`. Its `int64_t` result stands for the same word,
-- since the top byte is 0x33.
unfoldable pub encode_frame_from_x : ℕ → ℕ → ℕ
encode_frame_from_x x tag =
    let byte = λ (i : ℕ). bit_and (x / 2 ^ (i * 8)) 0xff in
    let c0 : ℕ = bit_or 0x3300_0000_0000_0000 (byte 2) in
    let c1 : ℕ = bit_or c0 (byte 5 * 2 ^ 8) in
    let c2 : ℕ = bit_or c1 (byte 4 * 2 ^ 16) in
    let c3 : ℕ = bit_or c2 (byte 0 * 2 ^ 24) in
    let c4 : ℕ = bit_or c3 (byte 1 * 2 ^ 32) in
    let c5 : ℕ = bit_or c4 (byte 3 * 2 ^ 40) in bit_or c5 (tag * 2 ^ 48)

-- `((a2 >> from) & mask) << to`.
unfoldable pub field : ℕ → ℕ → ℕ → ℕ → ℕ
field a2 from mask to = bit_and (a2 / 2 ^ from) mask * 2 ^ to

unfoldable pub wram_read_word_frame_for_addr : ℕ → ℕ
unfolding encode_frame_from_x field
wram_read_word_frame_for_addr address =
    let a2 : ℕ = address * 2 ^ 2 in
    let x0 : ℕ = bit_or 0x7003_4400_0000 (bit_and 24 31 * 2 ^ 34) in
    let x1 : ℕ = bit_or x0 (field a2 0 0xf 20) in
    let x2 : ℕ = bit_or x1 (field a2 4 0xf 16) in
    let x3 : ℕ = bit_or x2 (field a2 8 0x1 15) in
    let x4 : ℕ = bit_or x3 (field a2 9 0x1 14) in
    let x5 : ℕ = bit_or x4 (field a2 10 0x1 13) in
    let x6 : ℕ = bit_or x5 (field a2 11 0x1 12) in
    let x7 : ℕ = bit_or x6 (field a2 12 0xfff 0) in encode_frame_from_x x7 0x99

unfoldable pub wram_write_addr_x : ℕ → ℕ
unfolding field
wram_write_addr_x address =
    let a2 : ℕ = address * 2 ^ 2 in
    let x0 : ℕ = bit_or 0x7c00_4400_0000 (bit_and 24 31 * 2 ^ 34) in
    let x1 : ℕ = bit_or x0 (field a2 0 0xf 20) in
    let x2 : ℕ = bit_or x1 (field a2 4 0x7 39) in
    let x3 : ℕ = bit_or x2 (field a2 7 0x1 24) in
    let x4 : ℕ = bit_or x3 (field a2 8 0x1 15) in
    let x5 : ℕ = bit_or x4 (field a2 9 0x1 14) in
    let x6 : ℕ = bit_or x5 (field a2 10 0x1 13) in
    let x7 : ℕ = bit_or x6 (field a2 11 0x1 12) in bit_or x7 (field a2 12 0xfff 0)

unfoldable pub wram_write_word_structure_for_addr : ℕ → ℕ
unfolding wram_write_addr_x
wram_write_word_structure_for_addr address =
    let x : ℕ = wram_write_addr_x address in
    let c0 : ℕ = bit_or 0x1100_0000_0000_0000 (0xff * 2 ^ 0) in
    let c1 : ℕ = bit_or c0 (0x03 * 2 ^ 8) in
    let c2 : ℕ = bit_or c1 (bit_and (x / 2 ^ (0 * 8)) 0xff * 2 ^ 16) in
    let c3 : ℕ = bit_or c2 (bit_and (x / 2 ^ (1 * 8)) 0xff * 2 ^ 24) in
    let c4 : ℕ = bit_or c3 (bit_and (x / 2 ^ (3 * 8)) 0xff * 2 ^ 32) in bit_or c4 (0x99 * 2 ^ 40)

unfoldable pub wram_write_word_frame_upper_for_addr : ℕ → ℕ
unfolding wram_write_addr_x
wram_write_word_frame_upper_for_addr address =
    let x : ℕ = wram_write_addr_x address in
    let c0 : ℕ = bit_or 0x3300_0000_0000_0000 (bit_and (x / 2 ^ (2 * 8)) 0xff * 2 ^ 32) in
    let c1 : ℕ = bit_or c0 (bit_and (x / 2 ^ (5 * 8)) 0xff * 2 ^ 40) in
    bit_or c1 (bit_and (x / 2 ^ (4 * 8)) 0xff * 2 ^ 48)

-- The loop of the decoders: the first candidate, from `candidate` on and with `left` to go, whose
-- frame is the word.
unfoldable pub first_candidate : ℕ → ℕ → (ℕ → ℕ) → ℕ → Option ℕ
first_candidate zero candidate frame_for word = none
first_candidate (suc left) candidate frame_for word = elim (frame_for candidate == word) [
  | true ↦ some candidate
  | false ↦ first_candidate left (candidate + 1) frame_for word
]

abbrev pub wram_words : ℕ
wram_words = 64 * 1024 / 4

unfoldable pub decode_wram_write_word_structure : ℕ → Option ℕ
decode_wram_write_word_structure cmd =
    elim (first_candidate wram_words 0 wram_write_word_structure_for_addr cmd) [
      | none ↦ none
      | some candidate ↦ some (u16 candidate)
    ]

unfoldable pub decode_wram_write_word_frame_low5 : ℕ → Option ℕ
decode_wram_write_word_frame_low5 cmd =
    let key : ℕ = bit_and cmd 0xffff_ffff_0000_0000 in
    elim (first_candidate 32 0 wram_write_word_frame_upper_for_addr key) [
      | none ↦ none
      | some candidate ↦ some (u8 candidate)
    ]

unfoldable pub decode_wram_read_word_frame : ℕ → Option ℕ
decode_wram_read_word_frame cmd = first_candidate wram_words 0 wram_read_word_frame_for_addr cmd

unfoldable pub decode_iram_write_structure : ℕ → Option ℕ
unfolding b
decode_iram_write_structure cmd =
    if b cmd 56 != 0x11
    then none
    else if (b cmd 0 != 0xff)
        || (b cmd 8 != 0x00)
        || (b cmd 24 != 0x47)
        || (b cmd 32 != 0x02)
        || (b cmd 40 != 0x00)
    then none
    else some (b cmd 16)

-- The result is the address and the datum.
unfoldable pub decode_dma_ctrl_write_frame : ℕ → Option (ℕ × ℕ)
unfolding b
decode_dma_ctrl_write_frame word =
    let b0 : ℕ = b word 0 in
    let b1 : ℕ = b word 8 in
    let b2 : ℕ = b word 16 in
    let b3 : ℕ = b word 24 in
    if (bit_and b0 0xf0 != 0x60)
      || (bit_and b1 0xf0 != 0x60)
      || (bit_and b2 0xf0 != 0x60)
      || (bit_and b3 0xf0 != 0x60)
    then none
    else some (
      u8 (bit_or (bit_and b0 0x0f * 2 ^ 4) (bit_and b1 0x0f)),
      u8 (bit_or (bit_and b2 0x0f * 2 ^ 4) (bit_and b3 0x0f)),
    )

unfoldable pub ready_result : Bool → ℕ → ℕ
ready_result expected_color_set payload =
    let color : ℕ = if expected_color_set then 0xff else 0x00 in
    let r0 : ℕ = bit_or 0x0000_00ff_0000_0000 (color * 2 ^ 48) in bit_or r0 payload

unfoldable pub nop_style_result : Bool → ℕ → ℕ
nop_style_result expected_color_set payload =
    let color : ℕ = if expected_color_set then 0xff else 0x00 in
    let r0 : ℕ = bit_or 0xff00_00ff_0000_0000 (color * 2 ^ 48) in bit_or r0 (bit_and payload 0xff)

unfoldable pub is_software_reset_cmd : ℕ → Bool
is_software_reset_cmd word = bit_and word 0xffff_0000_0000_ff00 == 0x01ff_0000_0000_ff00
