-- ===== src/Pipeline/Decode/Accepts.antt =====
-- What a word is that `decode_raw_word_48` accepts.
use hostpimsim_gecon.Pipeline.Decode.Puts.{
  put_ra5_34-Known, put_pc-Known, put_cc2_24-Known, put_cc4_24-Known, put_endian-Known,
  put_dc5_40-Known, put_rc5_39-Known, put_dc5_39-Known, put_rb5_32-Known, put_db-Known,
  put_dc5_44-Known, put_cc5_24-Known, put_cc6_30-Known, put_rc5_44-Known, put_rb5_34-Known,
  put_ra5_32-Known, put_shift-Known, put_cc5_29-Known,
}
use hostpimsim_gecon.Pipeline.Decode.Immediates.{
  put_imm16_39-Known, put_imm8_16-Known, put_imm24_0-Known, put_off24_0-Known, put_off12_12-Known,
  put_imm8_0-Known, put_imm16_0-Known, put_imm_dma-Known, put_off24_0_b-Known, put_imm32_24-Known,
  put_imm32_24_b-Known, put_imm17_11-Known, put_imm27_39-Known, put_imm11_39-Known,
  put_imm_signed11-Known, put_imm32_24_c-Known, put_imm28_44-Known, put_imm12_44-Known,
  put_off28_44-Known,
}
use hostpimsim_gecon.Pipeline.Decode.Known.{forget}
use hostpimsim_gecon.Base.{
  ◌⊎◌, if◌then◌else◌, ◌≡◌, Bool, true, false, Option, none, some, arith, refl, inl, inr,
}
use hostpimsim_gecon.Pipeline.Kinds.{HotOp, HotFormat, op_none}
use hostpimsim_gecon.Pipeline.Decode.Raw.{RawDecoded48, accept, accept_hot, set_hot_metadata}
use hostpimsim_gecon.Pipeline.Decode.Shape.{operands}
use hostpimsim_gecon.Pipeline.Decode.Operands.{class_of, operands_of}
use hostpimsim_gecon.Pipeline.Decode.Known.{InRange, Known}

-- An accepted word: valid, its fields in range, and, if it has an operation, just the fields that the operation has in
-- the format.
pub record IsDecoded (o : RawDecoded48) : Type 0 where
  pub valid : o.valid ≡ true
  pub in_range : InRange o
  pub fields : (o.hot_op ≡ op_none) ⊎ (operands o ≡ operands_of (class_of o.hot_op) o.hot_fmt)

pub data Accepts : Option RawDecoded48 → Type 0 where
  refused : Accepts none
  accepted : {o : RawDecoded48} → IsDecoded o → Accepts (some o)

pub either :
    (b : Bool) {x y : Option RawDecoded48} → Accepts x → Accepts y → Accepts (if b then x else y)
either true hx hy = hx
either false hx hy = hy

pub accept-Accepts : {o : RawDecoded48} → Known none o → Accepts (accept o)
unfolding accept
accept-Accepts k =
    accepted
      (record { valid = refl; in_range = let r = k.in_range in omega arith; fields = inl k.plain })

pub accept_hot-Accepts :
    (op : HotOp) (fmt : HotFormat) {o : RawDecoded48}
    → Known (some (operands_of (class_of op) fmt)) o
    → Accepts (accept_hot op fmt o)
unfolding accept_hot set_hot_metadata
accept_hot-Accepts op fmt k =
    accepted
      (record { valid = refl; in_range = let r = k.in_range in omega arith; fields = inr k.fields })

-- What proves that a block accepts decoded words only.
pub ruleset decoding = (
  either, refused, accept-Accepts, accept_hot-Accepts, forget, put_ra5_34-Known, put_pc-Known,
  put_imm16_39-Known, put_cc2_24-Known, put_cc4_24-Known, put_imm8_16-Known, put_imm24_0-Known,
  put_off24_0-Known, put_off12_12-Known, put_endian-Known, put_imm8_0-Known, put_imm16_0-Known,
  put_dc5_40-Known, put_rc5_39-Known, put_dc5_39-Known, put_imm_dma-Known, put_rb5_32-Known,
  put_off24_0_b-Known, put_db-Known, put_imm32_24-Known, put_imm32_24_b-Known, put_dc5_44-Known,
  put_cc5_24-Known, put_cc6_30-Known, put_rc5_44-Known, put_imm17_11-Known, put_imm27_39-Known,
  put_imm11_39-Known, put_imm_signed11-Known, put_rb5_34-Known, put_ra5_32-Known,
  put_imm32_24_c-Known, put_imm28_44-Known, put_imm12_44-Known, put_shift-Known, put_cc5_29-Known,
  put_off28_44-Known,
)
