-- ===== src/Chip/WramWrite.antt =====
-- WRAM words written and read through the control interface, from the host's frames to the memories
-- of the selected DPUs.
use hostpimsim_gecon.Base.{
  ℕ, ◌+◌, ◌-◌, ◌*◌, ◌/◌, ◌%◌, ◌^◌, ◌<◌, ◌≡◌, ◌∙◌, refl, ap, arith, Bool, true, false, ◌&&◌, none,
  ◌==◌, if◌then◌else◌, u16, u32, u64, bit_and, bit_or, bit_at, bit_or_fields, bit_and_field,
  bit_and_mask,
}
use hostpimsim_gecon.Dpu.Config.{chip_num_dpus}
use hostpimsim_gecon.Dpu.Wram.{word_in_bounds, read_word}
use hostpimsim_gecon.Dpu.Wram.Words.{read_word-write_word}
use hostpimsim_gecon.Dpu.State.{Core, Dpu}
use hostpimsim_gecon.Ci.State.{
  set_committed, set_structure, set_iram_write_structure_valid, set_iram_write_addr_hi,
  set_wram_write_structure_valid, set_wram_write_addr, set_dispatched_result,
}
use hostpimsim_gecon.Ci.Frame.{
  wram_words, decode_iram_write_structure, wram_write_word_structure_for_addr,
  wram_write_word_frame_upper_for_addr,
}
use hostpimsim_gecon.Ci.Frame.RoundTrip.{
  structure_facts, upper_facts, upper-sum, decode_wram_write_word_structure-block,
  decode_wram_write_word_frame_low5-place,
}
use hostpimsim_gecon.Ci.Frame.Envelope.{b-eq}
use hostpimsim_gecon.Chip.Defs.{
  Chip, publish, each_selected, write_wram, structure_word, wram_write_frame, frame_word,
  propagate_ci,
}
use hostpimsim_gecon.Chip.Masks.{each_selected-eq}
use hostpimsim_gecon.Chip.Opcodes.{committed, propagate_ci-structure, propagate_ci-frame}

no_iram_structure : (w : ℕ) → w / 2 ^ 8 % 256 ≡ 0x03 → decode_iram_write_structure w ≡ none
unfolding decode_iram_write_structure
no_iram_structure w h = ground (arith, b-eq w 8)

-- What a WRAM write structure leaves behind.
record Latched (a : ℕ) (c c' : Chip) : Type 0 where
  region : c'.write_region ≡ c.write_region
  same_dpus : c'.dpus ≡ c.dpus
  selected : c'.ci.selected_mask ≡ c.ci.selected_mask
  no_iram : c'.ci.iram_write_structure_valid ≡ false
  wram : c'.ci.wram_write_structure_valid ≡ true
  block : c'.ci.wram_write_addr ≡ a / 32 * 32
  generation : c'.ci.dispatched_generation ≡ u64 (c.ci.dispatched_generation + 1)

structure_word-Latched :
    (a : ℕ) (c : Chip)
    → a < wram_words
    → Latched a c (
        structure_word
          (wram_write_word_structure_for_addr a)
          (committed (wram_write_word_structure_for_addr a) c))
unfolding structure_word publish set_committed set_structure set_iram_write_structure_valid
    set_iram_write_addr_hi set_wram_write_structure_valid set_wram_write_addr set_dispatched_result
structure_word-Latched a c h =
    let w : ℕ = wram_write_word_structure_for_addr a in
    let iram = no_iram_structure w (structure_facts a h).3 in
    let wram = decode_wram_write_word_structure-block a h in
    record {
      region = ground (arith, iram, wram);
      same_dpus = ground (arith, iram, wram);
      selected = ground (arith, iram, wram);
      no_iram = ground (arith, iram, wram);
      wram = ground (arith, iram, wram);
      block = ground (arith, iram, wram);
      generation = ground (arith, iram, wram);
    }

-- The address that the frame puts together from the block and the place in it.
address_of_parts :
    (a : ℕ) → a < wram_words → u16 (bit_or (bit_and (a / 32 * 32) (2 ^ 16 - 1 - 0x1f)) (a % 32)) ≡ a
address_of_parts a h =
    let block : bit_and (a / 32 * 32) (2 ^ 16 - 1 - 0x1f) ≡ a / 32 * 2 ^ 5 =
      bit_and_field 5 11 (a / 32 * 32) ∙ omega arith in
    omega
      (arith, ap (λ t. bit_or t (a % 32)) block, bit_or_fields 5 (a / 32) (a % 32) (omega arith))

module _ (execute_once : ℕ → Core → Bool × Core) (invoke_handler : ℕ → ℕ → Dpu → Bool × Dpu) where
  send : ℕ → Chip → Chip
  send = propagate_ci execute_once invoke_handler

  frame-write :
      (a datum : ℕ) (c c1 : Chip)
      → Latched a c c1
      → a < wram_words
      → datum < 2 ^ 32
      → frame_word execute_once invoke_handler
          (bit_or (wram_write_word_frame_upper_for_addr a) datum)
          c1
        ≡ publish true c1.ci.selected_mask (record c1 {
          dpus = each_selected chip_num_dpus 0 c1.ci.selected_mask (write_wram a datum) c1.dpus;
        })
  unfolding frame_word wram_write_frame
  frame-write a datum c c1 l h hd =
      let w : ℕ = bit_or (wram_write_word_frame_upper_for_addr a) datum in
      let low : u32 (bit_and w 0xffff_ffff) ≡ datum =
        omega (arith, bit_and_mask 32 w, upper-sum a datum h hd, upper_facts a h) in
      let place = decode_wram_write_word_frame_low5-place a datum h hd in
      let addr = address_of_parts a h in ground (arith, low, place, addr)

  after_structure : ℕ → Chip → Chip
  after_structure a c = send (wram_write_word_structure_for_addr a) c

  after_structure-Latched :
      (a w : ℕ) (c : Chip)
      → c.write_region ≡ true
      → a < wram_words
      → Latched a c (committed w (after_structure a c))
  unfolding after_structure send set_committed
  after_structure-Latched a w c r h =
      let s : ℕ = wram_write_word_structure_for_addr a in
      let step =
        propagate_ci-structure execute_once invoke_handler s c r
          (omega (arith, structure_facts a h)) in
      let l = structure_word-Latched a c h in
      rw step (record {
        region = l.region;
        same_dpus = l.same_dpus;
        selected = l.selected;
        no_iram = l.no_iram;
        wram = l.wram;
        block = l.block;
        generation = l.generation;
      })

  -- The two words by which the host writes a datum to a WRAM word.
  unfoldable pub write_by_frames : ℕ → ℕ → Chip → Chip
  unfolding send after_structure
  write_by_frames a datum c =
      send (bit_or (wram_write_word_frame_upper_for_addr a) datum) (after_structure a c)

  write_by_frames-eq :
      (a datum : ℕ) (c : Chip)
      → c.write_region ≡ true
      → a < wram_words
      → datum < 2 ^ 32
      → let c2 =
          committed (bit_or (wram_write_word_frame_upper_for_addr a) datum) (after_structure a c) in
        write_by_frames a datum c
        ≡ publish true c.ci.selected_mask (record c2 {
          dpus = each_selected chip_num_dpus 0 c.ci.selected_mask (write_wram a datum) c.dpus;
        })
  unfolding write_by_frames
  write_by_frames-eq a datum c r h hd =
      let w : ℕ = bit_or (wram_write_word_frame_upper_for_addr a) datum in
      let l = after_structure-Latched a w c r h in
      let c2 = committed w (after_structure a c) in
      let op : w / 2 ^ 56 % 256 ≡ 0x33 = omega (arith, upper-sum a datum h hd, upper_facts a h) in
      propagate_ci-frame execute_once invoke_handler w (after_structure a c) (l.region ∙ r) op
      ∙ frame-write a datum c c2 l h hd
      ∙ rw (l.selected, l.same_dpus)

  pub write_by_frames-selected :
      (a datum : ℕ) (c : Chip)
      → c.write_region ≡ true
      → a < wram_words
      → datum < 2 ^ 32
      → let c' = write_by_frames a datum c in
        (c'.ci.selected_mask ≡ c.ci.selected_mask) × (c'.write_region ≡ true)
  unfolding publish set_dispatched_result
  write_by_frames-selected a datum c r h hd =
      let w : ℕ = bit_or (wram_write_word_frame_upper_for_addr a) datum in
      let l = after_structure-Latched a w c r h in
      rw (write_by_frames-eq a datum c r h hd) (l.selected, l.region ∙ r)

  -- Writing a word through the control interface, on a chip with a write region, whatever was
  -- latched before: after the structure and the frame for a word address of the memory and a 32-bit
  -- datum, every selected DPU has the datum in that WRAM word and its other words as before, and
  -- the DPUs that are not selected have all their words as before. Two results were published, and
  -- the last one is the selected mask.
  pub read_word-write_by_frames :
      (a datum : ℕ) (c : Chip) (i j : ℕ)
      → c.write_region ≡ true
      → a < wram_words
      → datum < 2 ^ 32
      → i < chip_num_dpus
      → let c' = write_by_frames a datum c in
        (read_word (c'.dpus i).core.wram j ≡ (
          if bit_at c.ci.selected_mask i && (a == j)
          then datum
          else read_word (c.dpus i).core.wram j))
        × (c'.ci.dispatched_payload ≡ c.ci.selected_mask)
        × (c'.ci.dispatched_generation ≡ u64 (c.ci.dispatched_generation + 2))
  unfolding publish write_wram set_dispatched_result word_in_bounds
  read_word-write_by_frames a datum c i j r h hd hi =
      let w : ℕ = bit_or (wram_write_word_frame_upper_for_addr a) datum in
      let l = after_structure-Latched a w c r h in
      let mine = each_selected-eq c.ci.selected_mask (write_wram a datum) c.dpus i hi in
      let word = read_word-write_word (c.dpus i).core.wram a j datum hd in
      rw (write_by_frames-eq a datum c r h hd)
        (rw mine (ground (arith, word)), refl, rw l.generation (omega arith))
