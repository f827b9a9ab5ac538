-- ===== src/Pipeline/Execute/Opcodes.antt =====
-- The opcode map of `Pipeline::execute_once`, for words that are not decoded or not handled.
use hostpimsim_gecon.Base.{
  [], ◌∷◌, ◌==◌, if◌then◌else◌, ℕ, zero, suc, bit_and, Option, none, some, List,
}
use hostpimsim_gecon.Dpu.State.{Core}
use hostpimsim_gecon.Pipeline.Words.{sign_extend16, sign_extend24}
use hostpimsim_gecon.Pipeline.Execute.Registers.{byte, read_reg}

-- `dpu_opcode`; the constructors are numbered from 0 on.
pub data DpuOpcode : Type 0 where
  opcode_acquire opcode_release opcode_add opcode_addc opcode_and opcode_andn : DpuOpcode
  opcode_asr opcode_cao opcode_clo opcode_cls opcode_clz opcode_cmpb4 : DpuOpcode
  opcode_div_step opcode_extsb opcode_extsh opcode_extub opcode_extuh opcode_lsl : DpuOpcode
  opcode_lsl_add opcode_lsl_sub opcode_lsl1 opcode_lsl1x opcode_lslx opcode_lsr : DpuOpcode
  opcode_lsr_add opcode_lsr1 opcode_lsr1x opcode_lsrx opcode_mul_sh_sh opcode_mul_sh_sl : DpuOpcode
  opcode_mul_sh_uh opcode_mul_sh_ul opcode_mul_sl_sh opcode_mul_sl_sl opcode_mul_sl_uh
        opcode_mul_sl_ul :
      DpuOpcode
  opcode_mul_step opcode_mul_uh_uh opcode_mul_uh_ul opcode_mul_ul_uh opcode_mul_ul_ul opcode_nand :
      DpuOpcode
  opcode_nor opcode_nxor opcode_or opcode_orn opcode_rol opcode_rol_add : DpuOpcode
  opcode_ror opcode_rsub opcode_rsubc opcode_sub opcode_subc opcode_xor : DpuOpcode
  opcode_boot opcode_resume opcode_stop opcode_call opcode_fault opcode_nop : DpuOpcode
  opcode_sats opcode_movd opcode_swapd opcode_hash opcode_time opcode_time_cfg : DpuOpcode
  opcode_lbs opcode_lbu opcode_ld opcode_lhs opcode_lhu opcode_lw : DpuOpcode
  opcode_sb opcode_sb_id opcode_sd opcode_sd_id opcode_sh opcode_sh_id : DpuOpcode
  opcode_sw opcode_sw_id opcode_ldma opcode_ldmai opcode_sdma : DpuOpcode

abbrev pub all_opcodes : List DpuOpcode
all_opcodes =
    opcode_acquire ∷ opcode_release ∷ opcode_add ∷ opcode_addc ∷ opcode_and ∷ opcode_andn
    ∷ opcode_asr ∷ opcode_cao ∷ opcode_clo ∷ opcode_cls ∷ opcode_clz ∷ opcode_cmpb4
    ∷ opcode_div_step ∷ opcode_extsb ∷ opcode_extsh ∷ opcode_extub ∷ opcode_extuh ∷ opcode_lsl
    ∷ opcode_lsl_add ∷ opcode_lsl_sub ∷ opcode_lsl1 ∷ opcode_lsl1x ∷ opcode_lslx ∷ opcode_lsr
    ∷ opcode_lsr_add ∷ opcode_lsr1 ∷ opcode_lsr1x ∷ opcode_lsrx ∷ opcode_mul_sh_sh
    ∷ opcode_mul_sh_sl ∷ opcode_mul_sh_uh ∷ opcode_mul_sh_ul ∷ opcode_mul_sl_sh ∷ opcode_mul_sl_sl
    ∷ opcode_mul_sl_uh ∷ opcode_mul_sl_ul ∷ opcode_mul_step ∷ opcode_mul_uh_uh ∷ opcode_mul_uh_ul
    ∷ opcode_mul_ul_uh ∷ opcode_mul_ul_ul ∷ opcode_nand ∷ opcode_nor ∷ opcode_nxor ∷ opcode_or
    ∷ opcode_orn ∷ opcode_rol ∷ opcode_rol_add ∷ opcode_ror ∷ opcode_rsub ∷ opcode_rsubc
    ∷ opcode_sub ∷ opcode_subc ∷ opcode_xor ∷ opcode_boot ∷ opcode_resume ∷ opcode_stop
    ∷ opcode_call ∷ opcode_fault ∷ opcode_nop ∷ opcode_sats ∷ opcode_movd ∷ opcode_swapd
    ∷ opcode_hash ∷ opcode_time ∷ opcode_time_cfg ∷ opcode_lbs ∷ opcode_lbu ∷ opcode_ld ∷ opcode_lhs
    ∷ opcode_lhu ∷ opcode_lw ∷ opcode_sb ∷ opcode_sb_id ∷ opcode_sd ∷ opcode_sd_id ∷ opcode_sh
    ∷ opcode_sh_id ∷ opcode_sw ∷ opcode_sw_id ∷ opcode_ldma ∷ opcode_ldmai ∷ opcode_sdma ∷ []

unfoldable pub opcode_at : List DpuOpcode → ℕ → Option DpuOpcode
opcode_at [] n = none
opcode_at (o ∷ os) zero = some o
opcode_at (o ∷ os) (suc n) = opcode_at os n

-- The fields of a word by the opcode map, and the values of the registers that they name.
pub record Word : Type 0 where
  pub rc : ℕ
  pub ra : ℕ
  pub rb : ℕ
  pub imm8 : ℕ
  pub imm16 : ℕ
  pub imm24 : ℕ
  pub ra_val : ℕ
  pub rb_val : ℕ

unfoldable pub word_of : ℕ → Core → ℕ → Word
word_of t c inst48 =
    let ra : ℕ = bit_and (byte inst48 24) 0x1f in
    let rb : ℕ = bit_and (byte inst48 16) 0x1f in
    record {
      rc = bit_and (byte inst48 32) 0x1f;
      ra = ra;
      rb = rb;
      imm8 = byte inst48 8;
      imm16 = sign_extend16 (bit_and inst48 0xffff);
      imm24 = sign_extend24 (bit_and inst48 0x00ff_ffff);
      ra_val = read_reg t c ra;
      rb_val = read_reg t c rb;
    }

abbrev pub op_b : Word → ℕ
op_b f = if f.rb == 24 then f.imm16 else f.rb_val
