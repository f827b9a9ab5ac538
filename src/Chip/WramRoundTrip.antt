-- ===== src/Chip/WramRoundTrip.antt =====
-- A WRAM word written and read back through the control interface.
use hostpimsim_gecon.Base.{ℕ, ◌^◌, ◌<◌, ◌≡◌, ◌∙◌, refl, arith, Bool, true, none, bit_at, ap}
use hostpimsim_gecon.Dpu.Wram.{read_word}
use hostpimsim_gecon.Dpu.State.{Core, Dpu}
use hostpimsim_gecon.Ci.State.{
  set_committed, set_structure, set_iram_write_structure_valid, set_iram_write_addr_hi,
  set_wram_write_structure_valid, set_wram_write_addr, set_dispatched_result,
}
use hostpimsim_gecon.Ci.Frame.{
  b, wram_words, wram_read_word_frame_for_addr, wram_write_word_structure_for_addr, first_candidate,
  decode_iram_write_structure, decode_wram_write_word_structure,
}
use hostpimsim_gecon.Chip.Defs.{Chip, publish, first_selected_dpu, structure_word, propagate_ci}
use hostpimsim_gecon.Chip.Masks.{first_selected_dpu-IsFirst}
use hostpimsim_gecon.Chip.Opcodes.{propagate_ci-structure}
use hostpimsim_gecon.Chip.Select.{IsIdle}
use hostpimsim_gecon.Chip.WramWrite.{
  write_by_frames, write_by_frames-selected, read_word-write_by_frames,
}
use hostpimsim_gecon.Chip.WramRead.{dispatched_payload-read}

-- A structure word that is none of a write, by which the host leaves the write.
abbrev pub empty_structure : ℕ
empty_structure = 0x1100_0000_0000_0000

empty-iram : decode_iram_write_structure empty_structure ≡ none
unfolding decode_iram_write_structure b
empty-iram = refl

empty-wram : decode_wram_write_word_structure empty_structure ≡ none
unfolding decode_wram_write_word_structure wram_write_word_structure_for_addr first_candidate
empty-wram = refl

module _ (execute_once : ℕ → Core → Bool × Core) (invoke_handler : ℕ → ℕ → Dpu → Bool × Dpu) where
  record Left (c c' : Chip) : Type 0 where
    idle : IsIdle c'
    selected : c'.ci.selected_mask ≡ c.ci.selected_mask
    same_dpus : c'.dpus ≡ c.dpus

  leave : Chip → Chip
  leave c = propagate_ci execute_once invoke_handler empty_structure c

  leave-Left : (c : Chip) → c.write_region ≡ true → Left c (leave c)
  unfolding leave structure_word publish set_committed set_structure set_iram_write_structure_valid
      set_iram_write_addr_hi set_wram_write_structure_valid set_wram_write_addr
      set_dispatched_result
  leave-Left c r =
      let step = propagate_ci-structure execute_once invoke_handler empty_structure c r refl in
      let no_iram = empty-iram in
      let no_wram = empty-wram in
      rw step (record {
        idle = record {
          region = r;
          no_iram = ground (arith, no_iram, no_wram);
          no_wram = ground (arith, no_iram, no_wram);
        };
        selected = ground (arith, no_iram, no_wram);
        same_dpus = ground (arith, no_iram, no_wram);
      })

  -- The words by which the host writes a datum to a WRAM word, leaves the write, and reads the word.
  unfoldable pub write_and_read : ℕ → ℕ → Chip → Chip
  unfolding leave
  write_and_read a datum c =
      propagate_ci execute_once invoke_handler (wram_read_word_frame_for_addr a)
        (leave (write_by_frames execute_once invoke_handler a datum c))

  -- What the host writes to a WRAM word through the control interface it reads back through it: on a
  -- chip with a write region that has a DPU selected, after the write of a 32-bit datum to a word of
  -- the memory, an empty structure and the read frame of the word, the datum is the answer, whatever
  -- was latched before; the selection is as it was.
  pub dispatched_payload-write_and_read :
      (a datum : ℕ) (c : Chip)
      → c.write_region ≡ true
      → a < wram_words
      → datum < 2 ^ 32
      → first_selected_dpu c.ci.selected_mask < 8
      → let c' = write_and_read a datum c in
        (c'.ci.dispatched_payload ≡ datum) × (c'.ci.selected_mask ≡ c.ci.selected_mask)
  unfolding write_and_read
  dispatched_payload-write_and_read a datum c r h hd sel =
      let c1 = write_by_frames execute_once invoke_handler a datum c in
      let (same, region) = write_by_frames-selected execute_once invoke_handler a datum c r h hd in
      let l = leave-Left c1 region in
      let d : ℕ = first_selected_dpu c.ci.selected_mask in
      let first : first_selected_dpu (leave c1).ci.selected_mask ≡ d =
        ap first_selected_dpu (l.selected ∙ same) in
      let set : bit_at c.ci.selected_mask d ≡ true =
        (first_selected_dpu-IsFirst c.ci.selected_mask).2 sel in
      let read =
        dispatched_payload-read execute_once invoke_handler a (leave c1) l.idle h
          (omega (arith, first)) in
      let written =
        read_word-write_by_frames execute_once invoke_handler a datum c d a r h hd sel in
      let word : read_word (c1.dpus d).core.wram a ≡ datum = written.0 ∙ ground (arith, set) in
      (read.0 ∙ rw (first, l.same_dpus) word, read.2 ∙ l.selected ∙ same)
