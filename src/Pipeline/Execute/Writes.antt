-- ===== src/Pipeline/Execute/Writes.antt =====
-- The writes of an instruction leave the registers of the other tasklets.
use hostpimsim_gecon.Base.{ℕ, not, leb}
use hostpimsim_gecon.Dpu.State.{Core}
use hostpimsim_gecon.Dpu.Wram.{Wram}
use hostpimsim_gecon.Pipeline.Decode.Raw.{
  RawDecoded48, WritebackMode, no_writeback, dreg_sign32, dreg_zero32,
}
use hostpimsim_gecon.Pipeline.Execute.Registers.{
  sign_extend32, dreg_slot, Step, write_dreg, Step, Step,
}
use hostpimsim_gecon.Pipeline.Execute.Inputs.{
  ddc, take_cond_branch, write_ext_dreg32, write_rc, write_result,
}
use hostpimsim_gecon.Pipeline.Execute.Memory.{with_wram, stop}
use hostpimsim_gecon.Pipeline.Execute.Apart.{
  Apart, either_step, write_reg-Apart, set_zf-Apart, set_cf-Apart, jump-Apart,
}

module _ {t : ℕ} {c : Core} {s : Step} (h : Apart t c s) where
  pub write_dreg-Apart : (idx v : ℕ) → Apart t c (write_dreg t idx v s)
  unfolding write_dreg
  write_dreg-Apart idx v =
      either_step (leb 12 (dreg_slot idx)) h (write_reg-Apart (write_reg-Apart h _ _) _ _)

  pub take_cond_branch-Apart : (d : RawDecoded48) (v : ℕ) → Apart t c (take_cond_branch t d v s)
  unfolding take_cond_branch
  take_cond_branch-Apart d v = search (either_step, jump-Apart)

  write_extended-Apart :
      (m : WritebackMode) (x y : ℕ) (idx : ℕ)
      → Apart t c (elim m [
        | no_writeback ↦ s
        | dreg_sign32 ↦ write_dreg t idx x s
        | dreg_zero32 ↦ write_dreg t idx y s
      ])
  write_extended-Apart no_writeback x y idx = h
  write_extended-Apart dreg_sign32 x y idx = write_dreg-Apart idx x
  write_extended-Apart dreg_zero32 x y idx = write_dreg-Apart idx y

  pub write_ext_dreg32-Apart : (d : RawDecoded48) (v : ℕ) → Apart t c (write_ext_dreg32 t d v s)
  unfolding write_ext_dreg32
  write_ext_dreg32-Apart d v =
      either_step (not d.has_dc) h
        (write_extended-Apart d.hot.writeback_mode (sign_extend32 v) v (ddc d))

  pub write_rc-Apart : (d : RawDecoded48) (v : ℕ) → Apart t c (write_rc t d v s)
  unfolding write_rc
  write_rc-Apart d v = search (either_step, write_reg-Apart)

  pub write_result-Apart : (d : RawDecoded48) (v : ℕ) → Apart t c (write_result t d v s)
  unfolding write_result
  write_result-Apart d v = search (either_step, write_ext_dreg32-Apart, write_rc-Apart)

  pub stop-Apart : Apart t c (stop s)
  unfolding stop
  stop-Apart = record { others = h.others; aligned = h.aligned }

  pub with_wram-Apart : (w : Wram) → Apart t c (with_wram w s)
  unfolding with_wram
  with_wram-Apart w = record { others = h.others; aligned = h.aligned }

pub ruleset stepping = (
  either_step, write_reg-Apart, write_dreg-Apart, set_zf-Apart, set_cf-Apart, jump-Apart,
  take_cond_branch-Apart, write_ext_dreg32-Apart, write_rc-Apart, write_result-Apart, stop-Apart,
  with_wram-Apart,
)
