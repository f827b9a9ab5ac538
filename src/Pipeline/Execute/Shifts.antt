-- ===== src/Pipeline/Execute/Shifts.antt =====
-- The shifts, the moves and the products of `Pipeline::execute_once`.
use hostpimsim_gecon.Base.{
  ◌==◌, ◌&&◌, ◌||◌, ◌*◌, ◌+◌, ◌-◌, ◌/◌, ◌^◌, if◌then◌else◌, ℕ, Bool, true, false, not, ltb, bit_and,
  u32,
}
use hostpimsim_gecon.Pipeline.Kinds.{
  HotOp, op_lsl, op_lsl_s, op_lsl_u, op_lslx, op_lslx_s, op_lslx_u, op_lsr_s, op_lsrx, op_lsrx_s,
  op_lsrx_u,
}
use hostpimsim_gecon.Pipeline.Conditions.{eval_cc_kind_simple}
use hostpimsim_gecon.Pipeline.Decode.Raw.{
  RawDecoded48, MulBytePairMode, no_pair, ul_ul, ul_uh, uh_ul, uh_uh,
}
use hostpimsim_gecon.Pipeline.Execute.Registers.{
  not32, sub32, shl32, sign_extend32, leading_zeros, Step, read_dreg, write_dreg, set_zf, set_cf,
  cf, Step,
}
use hostpimsim_gecon.Pipeline.Execute.Inputs.{
  ddc, ddb, vra, vrb, take_cond_branch, write_rc, write_result,
}

-- The operations of a shift, in the order of the tests.
abbrev pub shifted_by : HotOp → ℕ → ℕ → ℕ
shifted_by op_lsl v sh = shl32 v sh
shifted_by op_lsl_s v sh = shl32 v sh
shifted_by op_lsl_u v sh = shl32 v sh
shifted_by op_lslx v sh = if sh == 0 then 0 else v / 2 ^ (32 - sh)
shifted_by op_lslx_s v sh = if sh == 0 then 0 else v / 2 ^ (32 - sh)
shifted_by op_lslx_u v sh = if sh == 0 then 0 else v / 2 ^ (32 - sh)
shifted_by op_lsrx v sh = if sh == 0 then 0 else shl32 v (32 - sh)
shifted_by op_lsrx_s v sh = if sh == 0 then 0 else shl32 v (32 - sh)
shifted_by op_lsrx_u v sh = if sh == 0 then 0 else shl32 v (32 - sh)
shifted_by _ v sh = v / 2 ^ sh

abbrev pub extends_sign : HotOp → Bool
extends_sign op_lsl_s = true
extends_sign op_lslx_s = true
extends_sign op_lsr_s = true
extends_sign op_lsrx_s = true
extends_sign _ = false

unfoldable pub mul_bytes : MulBytePairMode → ℕ → ℕ → ℕ
mul_bytes no_pair a b = 0
mul_bytes ul_ul a b = bit_and a 0xff * bit_and b 0xff
mul_bytes ul_uh a b = bit_and a 0xff * bit_and (b / 2 ^ 8) 0xff
mul_bytes uh_ul a b = bit_and (a / 2 ^ 8) 0xff * bit_and b 0xff
mul_bytes uh_uh a b = bit_and (a / 2 ^ 8) 0xff * bit_and (b / 2 ^ 8) 0xff

module _ (t : ℕ) (d : RawDecoded48) where
  unfoldable pub run_shift : Step → Step
  run_shift s =
      let sh : ℕ = if d.has_rb then bit_and (vrb t d s) 31 else bit_and d.shift 31 in
      let x = shifted_by d.hot_op (vra t d s) sh in
      let write_bool = d.has_cc && not d.has_pc && (d.has_rc || d.has_dc) in
      let cond = write_bool && eval_cc_kind_simple d.hot.cc_kind (x == 0) (cf t s) x in
      let truth : ℕ = if cond then 1 else 0 in
      let extended = if extends_sign d.hot_op then sign_extend32 x else x in
      let s1 =
        if d.has_dc
        then write_dreg t (ddc d) (if write_bool then truth else extended) s
        else write_rc t d (if write_bool then truth else x) s in
      let s2 = set_zf t x s1 in if d.has_cc && d.has_pc then take_cond_branch t d x s2 else s2

  unfoldable pub run_movd : Step → Step
  run_movd s =
      let rhs = read_dreg t s.core (ddb d) in
      let lhs = read_dreg t s.core (ddc d) in
      let s1 =
        if not d.hot.movd_is_swap
        then write_dreg t (ddc d) rhs s
        else write_dreg t (ddb d) lhs (write_dreg t (ddc d) rhs s) in
      let cc_value : ℕ = if rhs == 0 then 0 else 1 in
      take_cond_branch t d cc_value (set_zf t cc_value s1)

  unfoldable pub run_clz : Step → Step
  run_clz s =
      let src = if d.hot.clz_invert_input then not32 (vra t d s) else vra t d s in
      let x = if src == 0 then 32 else leading_zeros 32 src in
      take_cond_branch t d x (set_zf t x (write_rc t d x s))

  unfoldable pub run_mul : Step → Step
  run_mul s =
      let x = mul_bytes d.hot.mul_byte_pair_mode (vra t d s) (vrb t d s) in
      set_zf t x (write_rc t d x s)

  unfoldable pub run_lsl_add : Step → Step
  run_lsl_add s =
      let shifted = shl32 (vra t d s) (bit_and d.shift 31) in
      let x : ℕ = u32 (vrb t d s + shifted) in
      take_cond_branch t d x (set_zf t shifted (write_result t d x s))

  unfoldable pub run_lsl_sub : Step → Step
  run_lsl_sub s =
      let shifted = shl32 (vra t d s) (bit_and d.shift 31) in
      let x = sub32 (vrb t d s) shifted in
      take_cond_branch t d x
        (set_cf t (ltb (vrb t d s) shifted) (set_zf t shifted (write_result t d x s)))

  unfoldable pub run_lsr_add : Step → Step
  run_lsr_add s =
      let shifted : ℕ = vra t d s / 2 ^ bit_and d.shift 31 in
      let x : ℕ = u32 (vrb t d s + shifted) in
      take_cond_branch t d x (set_zf t shifted (write_result t d x s))
