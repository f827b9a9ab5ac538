-- ===== src/Chip/Select.antt =====
-- Choosing the DPUs that the commands go to: one, all, or a group saved before.
use hostpimsim_gecon.Base.{
  ℕ, ◌+◌, ◌*◌, ◌/◌, ◌%◌, ◌^◌, ◌<◌, ◌≡◌, ◌∙◌, refl, arith, Bool, true, false, some, bit_and,
  bit_and_mask, ◌==◌, if◌then◌else◌, update,
}
use hostpimsim_gecon.Dpu.State.{Core, Dpu}
use hostpimsim_gecon.Ci.State.{
  set_committed, set_selected_mask, get_group_mask, set_group_mask, set_dispatched_result,
}
use hostpimsim_gecon.Ci.Frame.{b}
use hostpimsim_gecon.Ci.Frame.Envelope.{b-eq}
use hostpimsim_gecon.Chip.Defs.{
  Chip, publish, publish_selected, tag_00_frame, frame_word, propagate_ci,
}
use hostpimsim_gecon.Chip.Opcodes.{committed, propagate_ci-frame}

-- No structure for a write is latched, and the write region is known.
pub record IsIdle (c : Chip) : Type 0 where
  pub region : c.write_region ≡ true
  pub no_iram : c.ci.iram_write_structure_valid ≡ false
  pub no_wram : c.ci.wram_write_structure_valid ≡ false

-- The words that the host sends.
abbrev pub select_all : ℕ
select_all = 0x3300_0000_0000_ff08

unfoldable pub select_one : ℕ → ℕ
select_one d = 0x3300_0000_0000_000a + d * 2 ^ 8

unfoldable pub save_group : ℕ → ℕ
save_group g = 0x3300_0000_0000_000c + g * 2 ^ 8

unfoldable pub select_group : ℕ → ℕ
select_group g = 0x3300_0000_0000_0009 + g * 2 ^ 8

module _ (execute_once : ℕ → Core → Bool × Core) (invoke_handler : ℕ → ℕ → Dpu → Bool × Dpu) where
  by_tag_00 :
      (w : ℕ) (c c' : Chip)
      → IsIdle c
      → w / 2 ^ 48 % 2 ^ 16 ≡ 0x3300
      → tag_00_frame execute_once invoke_handler w (committed w c) ≡ some c'
      → propagate_ci execute_once invoke_handler w c ≡ c'
  unfolding frame_word set_committed
  by_tag_00 w c c' i h e =
      let tag : b w 48 ≡ 0 = b-eq w 48 ∙ omega arith in
      propagate_ci-frame execute_once invoke_handler w c i.region (omega arith)
      ∙ ground (arith, i.no_iram, i.no_wram, tag, e)

  low_bytes :
      (w x y : ℕ) → x < 256 → y < 256 → w % 2 ^ 16 ≡ x + y * 2 ^ 8 → (b w 0 ≡ x) × (b w 8 ≡ y)
  low_bytes w x y hx hy e = (b-eq w 0 ∙ omega arith, b-eq w 8 ∙ omega arith)

  slot_of : (g : ℕ) → g < 8 → bit_and g 0x7 ≡ g
  slot_of g h = omega (arith, bit_and_mask 3 g)

  after_select_all :
      (c : Chip)
      → IsIdle c
      → propagate_ci execute_once invoke_handler select_all c
        ≡ publish_selected
            (set_selected_mask (committed select_all c).ci 0xff)
            (committed select_all c)
  unfolding tag_00_frame
  after_select_all c i =
      let (x, y) = low_bytes select_all 0x08 0xff (omega arith) (omega arith) refl in
      by_tag_00 select_all c _ i refl (rw (x, y) refl)

  after_save :
      (g : ℕ) (c : Chip)
      → IsIdle c
      → g < 8
      → propagate_ci execute_once invoke_handler (save_group g) c
        ≡ publish_selected
            (set_group_mask (set_committed c.ci (save_group g)) g c.ci.selected_mask)
            (committed (save_group g) c)
  unfolding tag_00_frame save_group set_committed
  after_save g c i h =
      let w : ℕ = 0x3300_0000_0000_000c + g * 2 ^ 8 in
      let (x, y) = low_bytes w 0x0c g (omega arith) (omega arith) (omega arith) in
      by_tag_00 w c _ i (omega arith) (rw (x, y, slot_of g h) refl)

  after_select_group :
      (g : ℕ) (c : Chip)
      → IsIdle c
      → g < 8
      → propagate_ci execute_once invoke_handler (select_group g) c
        ≡ publish_selected
            (set_selected_mask
              (committed (select_group g) c).ci
              (get_group_mask (committed (select_group g) c).ci g))
            (committed (select_group g) c)
  unfolding tag_00_frame select_group
  after_select_group g c i h =
      let w : ℕ = 0x3300_0000_0000_0009 + g * 2 ^ 8 in
      let (x, y) = low_bytes w 0x09 g (omega arith) (omega arith) (omega arith) in
      by_tag_00 w c _ i (omega arith) (rw (x, y, slot_of g h) refl)

  -- Save the selection in a group, select all, and select the group.
  unfoldable pub reselect : ℕ → Chip → Chip
  reselect g c = propagate_ci execute_once invoke_handler (select_group g) (
      propagate_ci execute_once invoke_handler select_all
        (propagate_ci execute_once invoke_handler (save_group g) c))

  -- On a chip with a write region and no structure latched, saving the selection in one of the eight
  -- groups, selecting all DPUs and selecting the group gives the first selection back; it is the
  -- answer, the DPUs are as before and the other groups hold what they held.
  pub reselect-selected_mask :
      (g j : ℕ) (c : Chip)
      → IsIdle c
      → g < 8
      → let c' = reselect g c in
        (c'.ci.selected_mask ≡ c.ci.selected_mask)
        × (c'.ci.dispatched_payload ≡ c.ci.selected_mask)
        × (c'.dpus ≡ c.dpus)
        × (get_group_mask c'.ci j ≡ (if g == j then c.ci.selected_mask else get_group_mask c.ci j))
  unfolding reselect publish_selected publish set_selected_mask set_group_mask get_group_mask
      set_committed set_dispatched_result update
  reselect-selected_mask g j c i h =
      let w : ℕ = save_group g in
      let c1 =
        publish_selected (set_group_mask (set_committed c.ci w) g c.ci.selected_mask)
          (committed w c) in
      let i1 : IsIdle c1 = record {
        region = i.region;
        no_iram = ground (arith, i.no_iram);
        no_wram = ground (arith, i.no_wram);
      } in
      let c2 =
        publish_selected (set_selected_mask (committed select_all c1).ci 0xff)
          (committed select_all c1) in
      let i2 : IsIdle c2 = record {
        region = i.region;
        no_iram = i1.no_iram;
        no_wram = i1.no_wram;
      } in
      rw (after_save g c i h, after_select_all c1 i1, after_select_group g c2 i2 h)
        (ground arith, ground arith, ground arith, ground arith)
