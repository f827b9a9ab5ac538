-- ===== src/Pipeline/Execute/Values.antt =====
-- The operations of the opcode map that set a register and the zero flag only.
use hostpimsim_gecon.Base.{
  ◌==◌, ◌!=◌, ◌||◌, ◌*◌, ◌+◌, ◌-◌, ◌/◌, ◌^◌, if◌then◌else◌, ℕ, bit_and, bit_or, bit_xor, Option,
  none, some, u32,
}
use hostpimsim_gecon.Pipeline.Words.{sign_extend16, rotl32, rotr32, saturating_add_s32}
use hostpimsim_gecon.Pipeline.Execute.Registers.{
  not32, shl32, sign_extend8, sign_extend32, leading_zeros, ones,
}
use hostpimsim_gecon.Pipeline.Execute.Opcodes.{
  DpuOpcode, opcode_and, opcode_andn, opcode_asr, opcode_cao, opcode_clo, opcode_cls, opcode_clz,
  opcode_cmpb4, opcode_extsb, opcode_extsh, opcode_extub, opcode_extuh, opcode_lsl, opcode_lsl_add,
  opcode_lslx, opcode_lsr, opcode_lsr_add, opcode_lsrx, opcode_mul_sh_sh, opcode_mul_sh_sl,
  opcode_mul_sh_uh, opcode_mul_sh_ul, opcode_mul_sl_sh, opcode_mul_sl_sl, opcode_mul_sl_uh,
  opcode_mul_sl_ul, opcode_mul_uh_uh, opcode_mul_uh_ul, opcode_mul_ul_uh, opcode_mul_ul_ul,
  opcode_nand, opcode_nor, opcode_nxor, opcode_or, opcode_orn, opcode_rol, opcode_rol_add,
  opcode_ror, opcode_xor, opcode_sats, opcode_hash, Word, op_b,
}

unfoldable pub count_leading_ones_u32 : ℕ → ℕ
count_leading_ones_u32 value = if value == 0xffff_ffff then 32 else leading_zeros 32 (not32 value)

unfoldable pub count_leading_sign_u32 : ℕ → ℕ
count_leading_sign_u32 value =
    let leading =
      if bit_and value 0x8000_0000 != 0
      then leading_zeros 32 (not32 value)
      else leading_zeros 32 value in
    if (value == 0) || (value == 0xffff_ffff) then 31 else if leading == 0 then 0 else leading - 1

-- Whether the bytes at a place of two words are equal, as a number.
unfoldable pub equal_bytes : ℕ → ℕ → ℕ → ℕ
equal_bytes shift a b =
    if bit_and (a / 2 ^ shift) 0xff == bit_and (b / 2 ^ shift) 0xff then 1 else 0

-- The operations that only make a word of the operands.
unfoldable pub value_of : DpuOpcode → Word → Option ℕ
value_of opcode_and f = some (bit_and f.ra_val (op_b f))
value_of opcode_andn f = some (bit_and f.ra_val (not32 (op_b f)))
value_of opcode_asr f = some (u32 (sign_extend32 f.ra_val / 2 ^ bit_and (op_b f) 31))
value_of opcode_cao f = some (ones 32 f.ra_val)
value_of opcode_clo f = some (count_leading_ones_u32 f.ra_val)
value_of opcode_cls f = some (count_leading_sign_u32 f.ra_val)
value_of opcode_clz f = some (if f.ra_val == 0 then 32 else leading_zeros 32 f.ra_val)
value_of opcode_cmpb4 f = some (
    equal_bytes 0 f.ra_val (op_b f)
    + equal_bytes 8 f.ra_val (op_b f)
    + equal_bytes 16 f.ra_val (op_b f)
    + equal_bytes 24 f.ra_val (op_b f))
value_of opcode_extsb f = some (sign_extend8 (bit_and f.ra_val 0xff))
value_of opcode_extsh f = some (sign_extend16 (bit_and f.ra_val 0xffff))
value_of opcode_extub f = some (bit_and f.ra_val 0xff)
value_of opcode_extuh f = some (bit_and f.ra_val 0xffff)
value_of opcode_lsl f = some (shl32 f.ra_val (bit_and (op_b f) 31))
value_of opcode_lsl_add f = some (u32 (f.rb_val + shl32 f.ra_val (bit_and f.imm8 31)))
value_of opcode_lslx f =
    some (let sh : ℕ = bit_and f.imm8 31 in if sh == 0 then 0 else f.ra_val / 2 ^ (32 - sh))
value_of opcode_lsr f = some (f.ra_val / 2 ^ bit_and (op_b f) 31)
value_of opcode_lsr_add f = some (u32 (f.rb_val + f.ra_val / 2 ^ bit_and f.imm8 31))
value_of opcode_lsrx f =
    some (let sh : ℕ = bit_and f.imm8 31 in if sh == 0 then 0 else shl32 f.ra_val (32 - sh))
value_of opcode_mul_sh_sh f = some (
    u32 (
      sign_extend8 (bit_and (f.ra_val / 2 ^ 8) 0xff)
      * sign_extend8 (bit_and ((op_b f) / 2 ^ 8) 0xff)))
value_of opcode_mul_sh_sl f =
    some
      (u32 (sign_extend8 (bit_and (f.ra_val / 2 ^ 8) 0xff) * sign_extend8 (bit_and (op_b f) 0xff)))
value_of opcode_mul_sh_uh f =
    some (u32 (sign_extend8 (bit_and (f.ra_val / 2 ^ 8) 0xff) * bit_and ((op_b f) / 2 ^ 8) 0xff))
value_of opcode_mul_sh_ul f =
    some (u32 (sign_extend8 (bit_and (f.ra_val / 2 ^ 8) 0xff) * bit_and (op_b f) 0xff))
value_of opcode_mul_sl_sh f =
    some
      (u32 (sign_extend8 (bit_and f.ra_val 0xff) * sign_extend8 (bit_and ((op_b f) / 2 ^ 8) 0xff)))
value_of opcode_mul_sl_sl f =
    some (u32 (sign_extend8 (bit_and f.ra_val 0xff) * sign_extend8 (bit_and (op_b f) 0xff)))
value_of opcode_mul_sl_uh f =
    some (u32 (sign_extend8 (bit_and f.ra_val 0xff) * bit_and ((op_b f) / 2 ^ 8) 0xff))
value_of opcode_mul_sl_ul f =
    some (u32 (sign_extend8 (bit_and f.ra_val 0xff) * bit_and (op_b f) 0xff))
value_of opcode_mul_uh_uh f =
    some (bit_and (f.ra_val / 2 ^ 8) 0xff * bit_and ((op_b f) / 2 ^ 8) 0xff)
value_of opcode_mul_uh_ul f = some (bit_and (f.ra_val / 2 ^ 8) 0xff * bit_and (op_b f) 0xff)
value_of opcode_mul_ul_uh f = some (bit_and f.ra_val 0xff * bit_and ((op_b f) / 2 ^ 8) 0xff)
value_of opcode_mul_ul_ul f = some (bit_and f.ra_val 0xff * bit_and (op_b f) 0xff)
value_of opcode_nand f = some (not32 (bit_and f.ra_val (op_b f)))
value_of opcode_nor f = some (not32 (bit_or f.ra_val (op_b f)))
value_of opcode_nxor f = some (not32 (bit_xor f.ra_val (op_b f)))
value_of opcode_or f = some (bit_or f.ra_val (op_b f))
value_of opcode_orn f = some (bit_or f.ra_val (not32 (op_b f)))
value_of opcode_rol f = some (rotl32 f.ra_val (bit_and (op_b f) 31))
value_of opcode_rol_add f = some (u32 (f.rb_val + rotl32 f.ra_val (bit_and f.imm8 31)))
value_of opcode_ror f = some (rotr32 f.ra_val (bit_and (op_b f) 31))
value_of opcode_xor f = some (bit_xor f.ra_val (op_b f))
value_of opcode_sats f = some (saturating_add_s32 f.ra_val (op_b f))
value_of opcode_hash f =
    some (bit_xor f.ra_val (u32 (op_b f + 0x9e37_79b9 + shl32 f.ra_val 6 + f.ra_val / 2 ^ 2)))
value_of _ f = none
