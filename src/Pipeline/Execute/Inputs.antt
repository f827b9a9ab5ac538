-- ===== src/Pipeline/Execute/Inputs.antt =====
-- What a decoded word reads, writes and branches on in `Pipeline::execute_once`.
use hostpimsim_gecon.Base.{◌!=◌, ◌&&◌, if◌then◌else◌, ℕ, Bool, true, false, not, bit_and}
use hostpimsim_gecon.Pipeline.Conditions.{eval_cc_kind_simple}
use hostpimsim_gecon.Pipeline.Words.{sign_extend24}
use hostpimsim_gecon.Pipeline.Decode.Raw.{
  RawDecoded48, WritebackMode, no_writeback, dreg_sign32, dreg_zero32,
}
use hostpimsim_gecon.Pipeline.Execute.Registers.{
  sign_extend32, jump, Step, read_reg, write_reg, write_dreg, zf, cf, Step,
}

-- The registers that a decoded word names; 24 is the register that reads as 0.
abbrev pub dra : RawDecoded48 → ℕ
dra d = if d.has_ra then bit_and d.ra 0x1f else 24

abbrev pub drb : RawDecoded48 → ℕ
drb d = if d.has_rb then bit_and d.rb 0x1f else 24

abbrev pub drc : RawDecoded48 → ℕ
drc d = if d.has_rc then bit_and d.rc 0x1f else 24

abbrev pub ddc : RawDecoded48 → ℕ
ddc d = if d.has_dc then bit_and d.dc 0x1f else 0

abbrev pub ddb : RawDecoded48 → ℕ
ddb d = if d.has_db then bit_and d.db 0x1f else 0

abbrev pub voff : RawDecoded48 → ℕ
voff d = if d.hot.off_uses_sign_extend24 then sign_extend24 d.off else d.off

abbrev pub is_big_endian : RawDecoded48 → Bool
is_big_endian d = d.has_endian && (d.endian != 0)

abbrev pub writes_back : WritebackMode → Bool
writes_back no_writeback = false
writes_back _ = true

module _ (t : ℕ) (d : RawDecoded48) where
  unfoldable pub vra : Step → ℕ
  vra s = read_reg t s.core (dra d)

  unfoldable pub vrb : Step → ℕ
  vrb s = read_reg t s.core (drb d)

  -- The second operand: a register or the immediate.
  unfoldable pub rhs_of : Step → ℕ
  unfolding vrb
  rhs_of s = if d.has_rb then vrb s else d.imm

  unfoldable pub take_cond_branch : ℕ → Step → Step
  take_cond_branch value_for_cc s =
      if d.has_cc && d.has_pc && eval_cc_kind_simple d.hot.cc_kind (zf t s) (cf t s) value_for_cc
      then jump d.pc s
      else s

  unfoldable pub write_ext_dreg32 : ℕ → Step → Step
  write_ext_dreg32 value s = if not d.has_dc then s else elim d.hot.writeback_mode [
    | no_writeback ↦ s
    | dreg_sign32 ↦ write_dreg t (ddc d) (sign_extend32 value) s
    | dreg_zero32 ↦ write_dreg t (ddc d) value s
  ]

  -- `if (decoded.has_rc) write_reg(drc, x);`
  unfoldable pub write_rc : ℕ → Step → Step
  write_rc x s = if d.has_rc then write_reg t (drc d) x s else s

  -- The result of an operation with a mode of writing back.
  unfoldable pub write_result : ℕ → Step → Step
  write_result x s =
      if writes_back d.hot.writeback_mode
      then write_ext_dreg32 x s
      else if not d.hot.suppress_scalar_write
      then write_rc x s
      else s
