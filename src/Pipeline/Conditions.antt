-- ===== src/Pipeline/Conditions.antt =====
-- Whether a condition holds: `eval_cc_kind_simple`, `eval_subc_cc_simple` and
-- `eval_add_subword_no_carry`. A word of 32 bits is negative from 2^31 on.
use hostpimsim_gecon.Base.{
  ℕ, ◌+◌, ◌-◌, ◌^◌, Bool, true, false, ◌&&◌, ◌||◌, not, ltb, leb, ◌==◌, ◌!=◌, if◌then◌else◌,
  bit_and, u64,
}
use hostpimsim_gecon.Pipeline.Kinds.{
  CcKind, cc_true, cc_zero, cc_non_zero, cc_carry, cc_no_carry, cc_less_equal_unsigned,
  cc_greater_unsigned, cc_less_signed, cc_less_equal_signed, cc_greater_signed,
  cc_greater_equal_signed, cc_xzero, cc_xnon_zero, cc_max, cc_not_max, cc_even, cc_odd,
  cc_xless_equal_unsigned, cc_xgreater_unsigned, cc_xless_equal_signed, cc_xgreater_signed,
}

-- `static_cast<int32_t>(value) < 0`
abbrev pub is_negative : ℕ → Bool
is_negative value = leb (2 ^ 31) value

unfoldable pub eval_cc_kind_simple : CcKind → Bool → Bool → ℕ → Bool
eval_cc_kind_simple cc_true zf cf value_for_z = true
eval_cc_kind_simple cc_zero zf cf value_for_z = value_for_z == 0
eval_cc_kind_simple cc_non_zero zf cf value_for_z = value_for_z != 0
eval_cc_kind_simple cc_carry zf cf value_for_z = cf
eval_cc_kind_simple cc_no_carry zf cf value_for_z = not cf
eval_cc_kind_simple cc_less_equal_unsigned zf cf value_for_z = cf || (value_for_z == 0)
eval_cc_kind_simple cc_greater_unsigned zf cf value_for_z = not cf && (value_for_z != 0)
eval_cc_kind_simple cc_less_signed zf cf value_for_z = is_negative value_for_z
eval_cc_kind_simple cc_less_equal_signed zf cf value_for_z =
    is_negative value_for_z || (value_for_z == 0)
eval_cc_kind_simple cc_greater_signed zf cf value_for_z =
    not (is_negative value_for_z) && (value_for_z != 0)
eval_cc_kind_simple cc_greater_equal_signed zf cf value_for_z = not (is_negative value_for_z)
eval_cc_kind_simple cc_xzero zf cf value_for_z = zf && (value_for_z == 0)
eval_cc_kind_simple cc_xnon_zero zf cf value_for_z = not (zf && (value_for_z == 0))
eval_cc_kind_simple cc_max zf cf value_for_z = value_for_z == 32
eval_cc_kind_simple cc_not_max zf cf value_for_z = value_for_z != 32
eval_cc_kind_simple cc_even zf cf value_for_z = bit_and value_for_z 1 == 0
eval_cc_kind_simple cc_odd zf cf value_for_z = bit_and value_for_z 1 != 0
eval_cc_kind_simple _ zf cf value_for_z = false

unfoldable pub eval_subc_cc_simple : CcKind → Bool → Bool → ℕ → Bool → Bool → Bool
eval_subc_cc_simple cc_xzero zf cf value old_zf overflow = (value == 0) && old_zf
eval_subc_cc_simple cc_xnon_zero zf cf value old_zf overflow = not ((value == 0) && old_zf)
eval_subc_cc_simple cc_xless_equal_unsigned zf cf value old_zf overflow = cf || old_zf
eval_subc_cc_simple cc_xgreater_unsigned zf cf value old_zf overflow = cf && not old_zf
eval_subc_cc_simple cc_xless_equal_signed zf cf value old_zf overflow =
    let signed_less = is_negative value || overflow in
    let equal64 = old_zf && (value == 0) in signed_less || equal64
eval_subc_cc_simple cc_xgreater_signed zf cf value old_zf overflow =
    let signed_less = is_negative value || overflow in
    let equal64 = old_zf && (value == 0) in not signed_less && not equal64
eval_subc_cc_simple cc_kind zf cf value old_zf overflow = eval_cc_kind_simple cc_kind zf cf value

unfoldable pub eval_add_subword_no_carry : ℕ → ℕ → ℕ → Bool
eval_add_subword_no_carry bits lhs rhs =
    let limit : ℕ = 2 ^ bits in
    let mask : ℕ = limit - 1 in
    let partial_sum : ℕ = u64 (bit_and lhs mask + bit_and rhs mask) in
    if ltb bits 5 || ltb 31 bits then false else ltb partial_sum limit
