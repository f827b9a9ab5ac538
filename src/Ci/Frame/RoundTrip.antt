-- ===== src/Ci/Frame/RoundTrip.antt =====
-- The WRAM frames determine the addresses they are made for. Each fact about all the addresses is
-- checked by evaluation, against a decoding by division that the program does not have.
use hostpimsim_gecon.Base.{
  ℕ, ◌+◌, ◌*◌, ◌/◌, ◌%◌, ◌^◌, ◌<◌, ◌≡◌, ◌↔◌, ◌∙◌, sym, ap, refl, arith, true, ◌&&◌, ◌==◌, some,
  ==_iff, bit_and, bit_or, bit_or_fields, bit_and_field,
}
use hostpimsim_gecon.Ci.Frame.Defs.{
  wram_words, wram_read_word_frame_for_addr, wram_write_word_structure_for_addr,
  wram_write_word_frame_upper_for_addr, first_candidate, decode_wram_read_word_frame,
  decode_wram_write_word_structure, decode_wram_write_word_frame_low5,
}
use hostpimsim_gecon.Ci.Frame.Search.{
  passes, passes_at, first_candidate_sound, first_candidate-first,
}

read_addr : ℕ → ℕ
read_addr cmd =
    let x2 : ℕ = cmd % 256 in
    let x0 : ℕ = cmd / 2 ^ 24 % 256 in
    let x1 : ℕ = cmd / 2 ^ 32 % 256 in
    (x2 / 16
      + x2 % 16 * 16
      + x1 / 128 * 256
      + x1 / 64 % 2 * 512
      + x1 / 32 % 2 * 1024
      + x1 / 16 % 2 * 2048
      + x0 % 16 * 4096)
    / 4

read_table : passes (λ a. read_addr (wram_read_word_frame_for_addr a) == a) wram_words ≡ true
unfolding passes read_addr wram_read_word_frame_for_addr
read_table = refl

read_injective :
    (c a : ℕ)
    → c < wram_words
    → a < wram_words
    → wram_read_word_frame_for_addr c ≡ wram_read_word_frame_for_addr a
    → c ≡ a
read_injective c a hc ha e =
    sym ((==_iff _ c).0 (passes_at _ wram_words c hc read_table))
    ∙ ap read_addr e
    ∙ (==_iff _ a).0 (passes_at _ wram_words a ha read_table)

-- The decoder of WRAM read frames answers with an address exactly when the word is that address's
-- frame, so every address of the memory is got back from its frame, and no other word is taken.
pub decode_wram_read_word_frame_iff :
    (cmd a : ℕ)
    → (decode_wram_read_word_frame cmd ≡ some a)
      ↔ ((wram_read_word_frame_for_addr a ≡ cmd) × (a < wram_words))
unfolding decode_wram_read_word_frame
decode_wram_read_word_frame_iff cmd a = (
  λ h. ground (arith, first_candidate_sound wram_words 0 wram_read_word_frame_for_addr cmd a h),
  λ h.
      ap (first_candidate wram_words 0 wram_read_word_frame_for_addr) (sym h.0)
      ∙ first_candidate-first wram_words 0 wram_read_word_frame_for_addr a
          (λ c lt e. absurd (omega (arith, read_injective c a (omega arith) h.1 e))) (omega arith)
          (omega arith),
)

-- The block of 32 words that a write structure names.
pub structure_block : ℕ → ℕ
structure_block cmd =
    let x0 : ℕ = cmd / 2 ^ 16 % 256 in
    let x1 : ℕ = cmd / 2 ^ 24 % 256 in
    let x3 : ℕ = cmd / 2 ^ 32 % 256 in
    x3 % 2 + x1 / 128 * 2 + x1 / 64 % 2 * 4 + x1 / 32 % 2 * 8 + x1 / 16 % 2 * 16 + x0 % 16 * 32

structure_table :
    passes
      (λ a.
        (structure_block (wram_write_word_structure_for_addr a) == a / 32)
        && (wram_write_word_structure_for_addr (a / 32 * 32)
            == wram_write_word_structure_for_addr a)
        && (wram_write_word_structure_for_addr a / 2 ^ 56 == 0x11)
        && (wram_write_word_structure_for_addr a / 2 ^ 8 % 256 == 0x03))
      wram_words
    ≡ true
unfolding passes structure_block wram_write_word_structure_for_addr
structure_table = refl

-- The place in its block that the upper half of a write frame names.
pub upper_low5 : ℕ → ℕ
upper_low5 cmd =
    let x2 : ℕ = cmd / 2 ^ 32 % 256 in
    let x5 : ℕ = cmd / 2 ^ 40 % 256 in
    let x4 : ℕ = cmd / 2 ^ 48 % 256 in (x2 / 16 + x4 / 128 * 16 + x5 % 4 * 32) / 4

upper_table :
    passes
      (λ a.
        (upper_low5 (wram_write_word_frame_upper_for_addr a) == a % 32)
        && (wram_write_word_frame_upper_for_addr (a % 32) == wram_write_word_frame_upper_for_addr a)
        && (wram_write_word_frame_upper_for_addr a % 2 ^ 32 == 0)
        && (wram_write_word_frame_upper_for_addr a / 2 ^ 56 == 0x33))
      wram_words
    ≡ true
unfolding passes upper_low5 wram_write_word_frame_upper_for_addr
upper_table = refl

pub structure_facts :
    (a : ℕ)
    → a < wram_words
    → (structure_block (wram_write_word_structure_for_addr a) ≡ a / 32)
      × (wram_write_word_structure_for_addr (a / 32 * 32) ≡ wram_write_word_structure_for_addr a)
      × (wram_write_word_structure_for_addr a / 2 ^ 56 ≡ 0x11)
      × (wram_write_word_structure_for_addr a / 2 ^ 8 % 256 ≡ 0x03)
structure_facts a h =
    let t = passes_at _ wram_words a h structure_table in
    (ground arith, ground arith, ground arith, ground arith)

pub upper_facts :
    (a : ℕ)
    → a < wram_words
    → (upper_low5 (wram_write_word_frame_upper_for_addr a) ≡ a % 32)
      × (wram_write_word_frame_upper_for_addr (a % 32) ≡ wram_write_word_frame_upper_for_addr a)
      × (wram_write_word_frame_upper_for_addr a % 2 ^ 32 ≡ 0)
      × (wram_write_word_frame_upper_for_addr a / 2 ^ 56 ≡ 0x33)
upper_facts a h =
    let t = passes_at _ wram_words a h upper_table in
    (ground arith, ground arith, ground arith, ground arith)

-- A datum in the low half of a write frame stands beside the upper half.
pub upper-sum :
    (a datum : ℕ)
    → a < wram_words
    → datum < 2 ^ 32
    → bit_or (wram_write_word_frame_upper_for_addr a) datum
      ≡ wram_write_word_frame_upper_for_addr a + datum
upper-sum a datum h hd =
    let u : ℕ = wram_write_word_frame_upper_for_addr a in
    let q : ℕ = u / 2 ^ 32 in
    let eu : q * 2 ^ 32 ≡ u = omega (arith, upper_facts a h) in
    ap (λ t. bit_or t datum) (sym eu) ∙ bit_or_fields 32 q datum hd ∙ omega arith

-- The decoder of WRAM write structures answers, for the structure of a word's address, with the
-- first address of the block of 32 words that the address lies in.
pub decode_wram_write_word_structure-block :
    (a : ℕ)
    → a < wram_words
    → decode_wram_write_word_structure (wram_write_word_structure_for_addr a) ≡ some (a / 32 * 32)
unfolding decode_wram_write_word_structure
decode_wram_write_word_structure-block a h =
    let first : ℕ = a / 32 * 32 in
    let same = (structure_facts a h).1 in
    let found : first_candidate wram_words 0 wram_write_word_structure_for_addr
          (wram_write_word_structure_for_addr a)
        ≡ some first =
      ap (first_candidate wram_words 0 wram_write_word_structure_for_addr) (sym same)
      ∙ first_candidate-first wram_words 0 wram_write_word_structure_for_addr first
          (λ c lt e. absurd (
            omega (
              arith,
              structure_facts c (omega arith),
              structure_facts first (omega arith),
              ap structure_block e,
            )))
          (omega arith) (omega arith) in
    rw (found, decode_wram_write_word_structure) (ground arith)

-- The decoder of WRAM write frames answers, for the upper half of a word's frame with any 32-bit
-- datum below it, with the place of the word in its block of 32.
pub decode_wram_write_word_frame_low5-place :
    (a datum : ℕ)
    → a < wram_words
    → datum < 2 ^ 32
    → decode_wram_write_word_frame_low5 (bit_or (wram_write_word_frame_upper_for_addr a) datum)
      ≡ some (a % 32)
unfolding decode_wram_write_word_frame_low5
decode_wram_write_word_frame_low5-place a datum h hd =
    let u : ℕ = wram_write_word_frame_upper_for_addr a in
    let facts = upper_facts a h in
    let sum = upper-sum a datum h hd in
    let key : bit_and (bit_or u datum) 0xffff_ffff_0000_0000 ≡ u =
      bit_and_field 32 32 (bit_or u datum) ∙ omega arith in
    let low : ℕ = a % 32 in
    let same = facts.1 in
    let found : first_candidate 32 0 wram_write_word_frame_upper_for_addr u ≡ some low =
      ap (first_candidate 32 0 wram_write_word_frame_upper_for_addr) (sym same)
      ∙ first_candidate-first 32 0 wram_write_word_frame_upper_for_addr low
          (λ c lt e. absurd (
            omega
              (arith, upper_facts c (omega arith), upper_facts low (omega arith), ap upper_low5 e)))
          (omega arith) (omega arith) in
    rw (key, decode_wram_write_word_frame_low5)
      (rw (found, decode_wram_write_word_frame_low5) (ground arith))
