-- ===== src/Chip/IramWrite.antt =====
-- Instructions written through the control interface.
use hostpimsim_gecon.Base.{
  ℕ, ◌+◌, ◌*◌, ◌/◌, ◌%◌, ◌^◌, ◌<◌, ◌≡◌, ◌∙◌, refl, ap, arith, Bool, true, ◌&&◌, some, ◌==◌,
  if◌then◌else◌, u16, bit_or, bit_at, bit_or_fields, join6,
}
use hostpimsim_gecon.Dpu.Config.{chip_num_dpus}
use hostpimsim_gecon.Dpu.Iram.{slot_in_bounds, read_word}
use hostpimsim_gecon.Dpu.Iram.Slots.{slot_read_word-write_word}
use hostpimsim_gecon.Dpu.State.{Core, Dpu}
use hostpimsim_gecon.Ci.State.{
  set_committed, set_structure, set_iram_write_structure_valid, set_iram_write_addr_hi,
  set_wram_write_structure_valid, set_wram_write_addr, set_dispatched_result,
}
use hostpimsim_gecon.Ci.Frame.{b, decode_iram_write_structure}
use hostpimsim_gecon.Ci.Frame.Envelope.{b-eq, decode_iram_write_structure_iff}
use hostpimsim_gecon.Chip.Defs.{
  Chip, publish, each_selected, write_iram, structure_word, iram_write_frame, frame_word, inst48_of,
  propagate_ci,
}
use hostpimsim_gecon.Chip.Masks.{each_selected-eq}
use hostpimsim_gecon.Chip.Opcodes.{committed, propagate_ci-structure, propagate_ci-frame}

-- The words that the host sends: the structure with the high byte of the slot, and the frame with
-- its low byte and the instruction.
unfoldable pub iram_structure : ℕ → ℕ
iram_structure hi = 0x1100_0002_4700_00ff + hi * 2 ^ 16

unfoldable pub iram_frame : ℕ → ℕ → ℕ
iram_frame lo inst48 = 0x3300_0000_0000_0000 + lo * 2 ^ 48 + inst48

inst48_of-eq : (w : ℕ) → inst48_of w ≡ w % 2 ^ 48
unfolding inst48_of
inst48_of-eq w =
    rw (b-eq w 0, b-eq w 8, b-eq w 16, b-eq w 24, b-eq w 32, b-eq w 40)
      (ap
          (λ t.
            bit_or
              (bit_or
                (bit_or
                  (bit_or (bit_or (bit_or 0 t) (w / 2 ^ 8 % 256 * 2 ^ 8))
                    (w / 2 ^ 16 % 256 * 2 ^ 16))
                  (w / 2 ^ 24 % 256 * 2 ^ 24))
                (w / 2 ^ 32 % 256 * 2 ^ 32))
              (w / 2 ^ 40 % 256 * 2 ^ 40))
          (one_times (w / 2 ^ 0 % 256))
        ∙ join6 (w / 2 ^ 0 % 256) (w / 2 ^ 8 % 256) (w / 2 ^ 16 % 256) (w / 2 ^ 24 % 256)
            (w / 2 ^ 32 % 256) (w / 2 ^ 40 % 256) (omega arith) (omega arith) (omega arith)
            (omega arith) (omega arith) (omega arith)
        ∙ omega arith)
  where
    one_times : (x : ℕ) → x * 2 ^ 0 ≡ x
    one_times x = omega arith

record Latched (hi : ℕ) (c c' : Chip) : Type 0 where
  region : c'.write_region ≡ c.write_region
  same_dpus : c'.dpus ≡ c.dpus
  selected : c'.ci.selected_mask ≡ c.ci.selected_mask
  iram : c'.ci.iram_write_structure_valid ≡ true
  high : c'.ci.iram_write_addr_hi ≡ hi

structure_word-Latched :
    (hi v : ℕ) (c : Chip)
    → hi < 256
    → Latched hi c
        (committed v (structure_word (iram_structure hi) (committed (iram_structure hi) c)))
unfolding structure_word publish set_committed set_structure set_iram_write_structure_valid
    set_iram_write_addr_hi set_wram_write_structure_valid set_wram_write_addr set_dispatched_result
    iram_structure
structure_word-Latched hi v c h =
    let w : ℕ = 0x1100_0002_4700_00ff + hi * 2 ^ 16 in
    let found : decode_iram_write_structure w ≡ some hi =
      (decode_iram_write_structure_iff w hi).1 (omega arith, omega arith, h) in
    record {
      region = ground (arith, found);
      same_dpus = ground (arith, found);
      selected = ground (arith, found);
      iram = ground (arith, found);
      high = ground (arith, found);
    }

module _ (execute_once : ℕ → Core → Bool × Core) (invoke_handler : ℕ → ℕ → Dpu → Bool × Dpu) where
  -- The two words by which the host writes an instruction to a slot.
  unfoldable pub instruction_by_frames : ℕ → ℕ → ℕ → Chip → Chip
  instruction_by_frames hi lo inst48 c =
      propagate_ci execute_once invoke_handler (iram_frame lo inst48)
        (propagate_ci execute_once invoke_handler (iram_structure hi) c)

  frame-instruction :
      (hi lo inst48 : ℕ) (c c1 : Chip)
      → Latched hi c c1
      → hi < 256
      → lo < 256
      → inst48 < 2 ^ 48
      → frame_word execute_once invoke_handler (iram_frame lo inst48) c1
        ≡ publish true c1.ci.selected_mask (record c1 {
          dpus =
              each_selected chip_num_dpus 0 c1.ci.selected_mask
                (write_iram (hi * 256 + lo) inst48)
                c1.dpus;
        })
  unfolding frame_word iram_write_frame iram_frame
  frame-instruction hi lo inst48 c c1 l h hl hn =
      let w : ℕ = 0x3300_0000_0000_0000 + lo * 2 ^ 48 + inst48 in
      let word : inst48_of w ≡ inst48 = inst48_of-eq w ∙ omega arith in
      let tag : b w 48 ≡ lo = b-eq w 48 ∙ omega arith in
      let addr : u16 (bit_or (hi * 2 ^ 8) lo) ≡ hi * 256 + lo =
        omega (arith, bit_or_fields 8 hi lo hl) in
      ground (arith, word, tag, addr)

  -- Writing an instruction through the control interface, on a chip with a write region: after the
  -- structure and the frame for a slot of 16 bits and an instruction of 48, every selected DPU has
  -- the instruction in that slot, if there is such a slot (a slot out of bounds reads as 0), and
  -- its other slots as before; the DPUs that are not selected have all their slots as before. The
  -- last result published is the selected mask.
  pub slot-instruction_by_frames :
      (hi lo inst48 : ℕ) (c : Chip) (i j : ℕ)
      → c.write_region ≡ true
      → hi < 256
      → lo < 256
      → inst48 < 2 ^ 48
      → i < chip_num_dpus
      → let c' = instruction_by_frames hi lo inst48 c in
        (read_word (c'.dpus i).core.iram j ≡ (
          if bit_at c.ci.selected_mask i && (hi * 256 + lo == j)
          then (if slot_in_bounds j then inst48 else 0)
          else read_word (c.dpus i).core.iram j))
        × (c'.ci.dispatched_payload ≡ c.ci.selected_mask)
  unfolding instruction_by_frames publish write_iram set_dispatched_result
  slot-instruction_by_frames hi lo inst48 c i j r h hl hn hi' =
      let s : ℕ = iram_structure hi in
      let w : ℕ = iram_frame lo inst48 in
      let first : propagate_ci execute_once invoke_handler s c ≡ structure_word s (committed s c) =
        propagate_ci-structure execute_once invoke_handler s c r (opcode_s hi h) in
      let c1 = structure_word s (committed s c) in
      let l = structure_word-Latched hi w c h in
      let second : propagate_ci execute_once invoke_handler w c1
          ≡ publish true c.ci.selected_mask (record (committed w c1) {
            dpus =
                each_selected chip_num_dpus 0 c.ci.selected_mask (write_iram (hi * 256 + lo) inst48)
                  c.dpus;
          }) =
        propagate_ci-frame execute_once invoke_handler w c1 (l.region ∙ r)
          (opcode_w lo inst48 hl hn)
        ∙ frame-instruction hi lo inst48 c (committed w c1) l h hl hn
        ∙ rw (l.selected, l.same_dpus) refl in
      let mine =
        each_selected-eq c.ci.selected_mask (write_iram (hi * 256 + lo) inst48) c.dpus i hi' in
      let slot = slot_read_word-write_word (c.dpus i).core.iram (hi * 256 + lo) j inst48 in
      let e : (hi * 256 + lo) ≡ j → slot_in_bounds (hi * 256 + lo) ≡ slot_in_bounds j =
        λ p. ap slot_in_bounds p in
      rw (first, second) (rw mine (ground (arith, slot, e)), refl)
    where
      opcode_s : (hi : ℕ) → hi < 256 → iram_structure hi / 2 ^ 56 % 256 ≡ 0x11
      opcode_s hi h = unfold iram_structure in omega arith

      opcode_w : (lo n : ℕ) → lo < 256 → n < 2 ^ 48 → iram_frame lo n / 2 ^ 56 % 256 ≡ 0x33
      opcode_w lo n h k = unfold iram_frame in omega arith
