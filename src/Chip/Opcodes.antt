-- ===== src/Chip/Opcodes.antt =====
-- The opcode of a word decides where `propagate_ci` takes it.
use hostpimsim_gecon.Base.{
  ℕ, ◌/◌, ◌%◌, ◌^◌, ◌≡◌, ◌≢◌, arith, Bool, true, false, Bool-cases, inl, inr, bit_and,
  bit_and_split, bit_and_mask, bit_and_field, ==_iff,
}
use hostpimsim_gecon.Dpu.State.{Core, Dpu}
use hostpimsim_gecon.Ci.State.{set_committed}
use hostpimsim_gecon.Ci.Frame.{is_software_reset_cmd}
use hostpimsim_gecon.Ci.Frame.Envelope.{b-eq}
use hostpimsim_gecon.Chip.Defs.{Chip, structure_word, frame_word, dispatch, propagate_ci}

-- The reset command has the opcode 1.
pub reset-opcode : (w : ℕ) → is_software_reset_cmd w ≡ true → w / 2 ^ 56 % 256 ≡ 0x01
unfolding is_software_reset_cmd
reset-opcode w h = omega (
  arith,
  (==_iff (bit_and w 0xffff_0000_0000_ff00) 0x01ff_0000_0000_ff00).0 h,
  bit_and_split 48 w 0xffff_0000_0000_ff00,
  bit_and_mask 16 (w / 2 ^ 48),
  bit_and_field 8 8 (w % 2 ^ 48),
)

no_reset : (w : ℕ) → w / 2 ^ 56 % 256 ≢ 0x01 → is_software_reset_cmd w ≡ false
no_reset w ne = elim (Bool-cases (is_software_reset_cmd w)) [
  | inl y ↦ absurd (ne (reset-opcode w y))
  | inr n ↦ n
]

-- The chip with the word committed.
abbrev pub committed : ℕ → Chip → Chip
committed w c = record c { ci = set_committed c.ci w }

module _ (execute_once : ℕ → Core → Bool × Core) (invoke_handler : ℕ → ℕ → Dpu → Bool × Dpu) where
  pub propagate_ci-structure :
      (w : ℕ) (c : Chip)
      → c.write_region ≡ true
      → w / 2 ^ 56 % 256 ≡ 0x11
      → propagate_ci execute_once invoke_handler w c ≡ structure_word w (committed w c)
  unfolding propagate_ci dispatch
  propagate_ci-structure w c r op = ground (arith, b-eq w 56, no_reset w)

  pub propagate_ci-frame :
      (w : ℕ) (c : Chip)
      → c.write_region ≡ true
      → w / 2 ^ 56 % 256 ≡ 0x33
      → propagate_ci execute_once invoke_handler w c
        ≡ frame_word execute_once invoke_handler w (committed w c)
  unfolding propagate_ci dispatch
  propagate_ci-frame w c r op = ground (arith, b-eq w 56, no_reset w)
