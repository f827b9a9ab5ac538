-- ===== src/Pipeline/Execute/Arithmetic.antt =====
-- The arithmetic operations of `Pipeline::execute_once`.
use hostpimsim_gecon.Base.{
  ◌==◌, ◌!=◌, ◌&&◌, ◌||◌, ◌+◌, ◌/◌, ◌^◌, if◌then◌else◌, ℕ, Bool, true, false, not, ltb, leb,
  bit_and, bit_or, u32, u8,
}
use hostpimsim_gecon.Pipeline.Kinds.{CcKind, fmt_rrrici, cc_subword_no_carry}
use hostpimsim_gecon.Pipeline.FmtNumbers.{fmt_number}
use hostpimsim_gecon.Pipeline.Conditions.{
  eval_cc_kind_simple, eval_subc_cc_simple, eval_add_subword_no_carry,
}
use hostpimsim_gecon.Pipeline.Decode.Raw.{RawDecoded48}
use hostpimsim_gecon.Pipeline.Execute.Registers.{
  sub32, shl32, sign_extend8, jump, Step, read_reg, write_reg, set_zf, set_cf, zf, cf, Step,
}
use hostpimsim_gecon.Pipeline.Execute.Inputs.{
  ddc, ddb, writes_back, vra, vrb, rhs_of, take_cond_branch, write_ext_dreg32, write_rc,
  write_result,
}

abbrev pub is_subword_no_carry : CcKind → Bool
is_subword_no_carry cc_subword_no_carry = true
is_subword_no_carry _ = false

module _ (t : ℕ) (d : RawDecoded48) where
  unfoldable pub run_or : Step → Step
  run_or s =
      let x = bit_or (vra t d s) (rhs_of t d s) in
      take_cond_branch t d x (set_zf t x (write_result t d x s))

  unfoldable pub add_rhs : Step → ℕ
  add_rhs s = if d.hot.imm_is_signed8 then sign_extend8 (bit_and d.imm 0xff) else rhs_of t d s

  unfoldable pub run_add : Step → Step
  run_add s =
      let lhs = vra t d s in
      let rhs = add_rhs s in
      let x : ℕ = u32 (lhs + rhs) in
      let s1 = set_cf t ((lhs + rhs) / 2 ^ 32 != 0) (set_zf t x (write_rc t d x s)) in
      let add_cond =
        d.has_cc
        && d.has_pc
        && is_subword_no_carry d.hot.cc_kind
        && eval_add_subword_no_carry d.hot.cc_subword_bits lhs rhs in
      if d.has_cc && d.has_pc && add_cond then jump d.pc s1 else take_cond_branch t d x s1

  unfoldable pub run_addc : Step → Step
  run_addc s =
      let carry_in : ℕ = if cf t s then 1 else 0 in
      let sum : ℕ = vra t d s + rhs_of t d s + carry_in in
      let x : ℕ = u32 sum in
      take_cond_branch t d x (set_cf t (sum / 2 ^ 32 != 0) (set_zf t x (write_rc t d x s)))

  unfoldable pub run_and : Step → Step
  run_and s =
      let x = if d.hot.imm_passthrough then d.imm else bit_and (vra t d s) (rhs_of t d s) in
      let s1 =
        if writes_back d.hot.writeback_mode then write_ext_dreg32 t d x s else write_rc t d x s in
      take_cond_branch t d x (set_zf t x s1)

  unfoldable pub sub_lhs : Step → ℕ
  sub_lhs s = if d.hot.sub_lhs_is_imm then d.imm else vra t d s

  unfoldable pub sub_rhs : Step → ℕ
  sub_rhs s =
      if d.hot.sub_rhs_is_reg then vrb t d s else if d.hot.sub_lhs_is_imm then vra t d s else d.imm

  unfoldable pub run_sub : Step → Step
  run_sub s =
      let lhs = sub_lhs s in
      let rhs = sub_rhs s in
      let x = sub32 lhs rhs in
      let s1 = set_cf t (ltb lhs rhs) (set_zf t x s) in
      let cond = eval_cc_kind_simple d.hot.cc_kind (zf t s1) (cf t s1) x in
      let s2 =
        if d.hot.sub_is_rrrc then write_rc t d (if cond then 1 else 0) s1 else write_rc t d x s1 in
      if d.has_cc && d.has_pc && not d.hot.sub_is_rrrc && not d.hot.sub_is_zrrc
      then take_cond_branch t d x s2
      else s2

  unfoldable pub subc_lhs : Step → ℕ
  subc_lhs s = if d.hot.subc_lhs_is_imm then d.imm else vra t d s

  unfoldable pub subc_rhs : Step → ℕ
  subc_rhs s =
      if d.hot.subc_rhs_is_reg
      then vrb t d s
      else if d.hot.subc_lhs_is_imm
      then vra t d s
      else d.imm

  unfoldable pub run_subc : Step → Step
  run_subc s =
      let lhs = subc_lhs s in
      let rhs_base = subc_rhs s in
      let old_zf = zf t s in
      let borrow : ℕ = if cf t s then 1 else 0 in
      let rhs : ℕ = u32 (rhs_base + borrow) in
      let rhs_wrap = ltb rhs rhs_base in
      let x = sub32 lhs rhs in
      let sign1 = bit_and (lhs / 2 ^ 31) 1 != 0 in
      let sign2 = bit_and (rhs_base / 2 ^ 31) 1 != 0 in
      let sign = bit_and (x / 2 ^ 31) 1 != 0 in
      let overflow = (sign1 && not sign2 && not sign) || (not sign1 && sign2 && sign) in
      let s1 = set_cf t (ltb lhs rhs || rhs_wrap) (set_zf t x s) in
      let cond = eval_subc_cc_simple d.hot.cc_kind (zf t s1) (cf t s1) x old_zf overflow in
      let s2 =
        if d.hot.subc_is_rrrc then write_rc t d (if cond then 1 else 0) s1 else write_rc t d x s1 in
      if d.has_cc && d.has_pc && not d.hot.subc_is_rrrc && not d.hot.subc_is_zrrc && cond
      then jump d.pc s2
      else s2

  unfoldable pub run_mul_step : Step → Step
  run_mul_step s =
      let lhs = vra t d s in
      let sh : ℕ = bit_and d.shift 31 in
      let src : ℕ = if d.has_db then ddb d else ddc d in
      let even = read_reg t s.core src in
      let odd = read_reg t s.core (u8 (src + 1)) in
      let new_odd =
        if bit_and even 1 != 0
        then u32 (odd + shl32 lhs sh)
        else read_reg t s.core (u8 (ddc d + 1)) in
      let s1 = write_reg t (u8 (ddc d + 1)) new_odd (write_reg t (ddc d) (even / 2) s) in
      let src' : ℕ = bit_and (ddb d) 0x1e in
      let dst' : ℕ = bit_and (ddc d) 0x1e in
      let dbe = read_reg t s.core src' in
      let dbo = read_reg t s.core (u8 (src' + 1)) in
      let y = if bit_and dbe 1 != 0 then u32 (dbo + shl32 lhs sh) else dbo in
      if fmt_number d.hot_fmt == fmt_number fmt_rrrici
      then take_cond_branch t d (even / 2) (set_cf t false (set_zf t (even / 2) s1))
      else set_zf t (dbe / 2) (write_reg t (u8 (dst' + 1)) y (write_reg t dst' (dbe / 2) s))

  unfoldable pub run_div_step : Step → Step
  run_div_step s =
      let src : ℕ = if d.has_db then ddb d else ddc d in
      let even = read_reg t s.core src in
      let odd = read_reg t s.core (u8 (src + 1)) in
      let shifted = shl32 (vra t d s) (bit_and d.shift 31) in
      let trial = sub32 odd shifted in
      let new_even = if leb shifted odd then bit_or (shl32 even 1) 1 else shl32 even 1 in
      let new_odd = if leb shifted odd then trial else read_reg t s.core (u8 (ddc d + 1)) in
      let s1 = write_reg t (u8 (ddc d + 1)) new_odd (write_reg t (ddc d) new_even s) in
      take_cond_branch t d trial (set_cf t false (set_zf t trial s1))
