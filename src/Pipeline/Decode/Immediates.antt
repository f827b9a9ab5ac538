-- ===== src/Pipeline/Decode/Immediates.antt =====
-- The assignments of immediates and offsets in `decode_raw_word_48` put a field in its range.
use hostpimsim_gecon.Base.{◌^◌, ◌<◌, ℕ, bit_and, Option, arith, bit_or-lt}
use hostpimsim_gecon.Pipeline.Words.{sign_extend11}
use hostpimsim_gecon.Pipeline.Decode.Raw.{RawDecoded48}
use hostpimsim_gecon.Pipeline.Decode.Fields.{
  put_imm16_39, put_imm8_16, put_imm24_0, put_off24_0, put_off12_12, put_imm8_0, put_imm16_0,
  put_imm_dma, put_off24_0_b, put_imm32_24, put_imm32_24_b, put_imm17_11, put_imm27_39,
  put_imm11_39, put_imm_signed11, put_imm32_24_c, put_imm28_44, put_imm12_44, put_off28_44,
}
use hostpimsim_gecon.Pipeline.Decode.Shape.{
  Operands, without_imm, without_off, without_imm_dma, HasImm, HasOff, HasImmDma,
}
use hostpimsim_gecon.Pipeline.Decode.Sets.{set_imm-Known, set_off-Known, set_imm_dma-Known}
use hostpimsim_gecon.Pipeline.Decode.Known.{Known, bits-le, bit_or-le, bit_and-le}

sign_extend11-lt : (v : ℕ) → sign_extend11 v < 2 ^ 32
unfolding sign_extend11
sign_extend11-lt v =
    let masked : ℕ = bit_and v 0x7ff in
    let le = bit_and-le 0x7ff v 0x7ff (omega arith) in
    let lt = bit_or-lt 32 masked 0xffff_f800 (omega arith) (omega arith) in ground (arith, le, lt)

pub put_imm16_39-Known :
    (w : ℕ) {s : Option Operands} {o : RawDecoded48}
    → HasImm s
    → Known (without_imm s) o
    → Known s (put_imm16_39 w o)
unfolding put_imm16_39
put_imm16_39-Known w h k = set_imm-Known _ (omega (arith, bit_or-le, bits-le)) h k

pub put_imm8_16-Known :
    (w : ℕ) {s : Option Operands} {o : RawDecoded48}
    → HasImm s
    → Known (without_imm s) o
    → Known s (put_imm8_16 w o)
unfolding put_imm8_16
put_imm8_16-Known w h k = set_imm-Known _ (omega (arith, bit_or-le, bits-le)) h k

pub put_imm24_0-Known :
    (w : ℕ) {s : Option Operands} {o : RawDecoded48}
    → HasImm s
    → Known (without_imm s) o
    → Known s (put_imm24_0 w o)
unfolding put_imm24_0
put_imm24_0-Known w h k = set_imm-Known _ (omega (arith, bit_or-le, bits-le)) h k

pub put_off24_0-Known :
    (w : ℕ) {s : Option Operands} {o : RawDecoded48}
    → HasOff s
    → Known (without_off s) o
    → Known s (put_off24_0 w o)
unfolding put_off24_0
put_off24_0-Known w h k = set_off-Known _ (omega (arith, bit_or-le, bits-le)) h k

pub put_off12_12-Known :
    (w : ℕ) {s : Option Operands} {o : RawDecoded48}
    → HasOff s
    → Known (without_off s) o
    → Known s (put_off12_12 w o)
unfolding put_off12_12
put_off12_12-Known w h k = set_off-Known _ (omega (arith, bit_or-le, bits-le)) h k

pub put_imm8_0-Known :
    (w : ℕ) {s : Option Operands} {o : RawDecoded48}
    → HasImm s
    → Known (without_imm s) o
    → Known s (put_imm8_0 w o)
unfolding put_imm8_0
put_imm8_0-Known w h k = set_imm-Known _ (omega (arith, bit_or-le, bits-le)) h k

pub put_imm16_0-Known :
    (w : ℕ) {s : Option Operands} {o : RawDecoded48}
    → HasImm s
    → Known (without_imm s) o
    → Known s (put_imm16_0 w o)
unfolding put_imm16_0
put_imm16_0-Known w h k = set_imm-Known _ (omega (arith, bit_or-le, bits-le)) h k

pub put_imm_dma-Known :
    (w : ℕ) {s : Option Operands} {o : RawDecoded48}
    → HasImmDma s
    → Known (without_imm_dma s) o
    → Known s (put_imm_dma w o)
unfolding put_imm_dma
put_imm_dma-Known w h k = set_imm_dma-Known _ (omega (arith, bits-le)) h k

pub put_off24_0_b-Known :
    (w : ℕ) {s : Option Operands} {o : RawDecoded48}
    → HasOff s
    → Known (without_off s) o
    → Known s (put_off24_0_b w o)
unfolding put_off24_0_b
put_off24_0_b-Known w h k = set_off-Known _ (omega (arith, bit_or-le, bits-le)) h k

pub put_imm32_24-Known :
    (w : ℕ) {s : Option Operands} {o : RawDecoded48}
    → HasImm s
    → Known (without_imm s) o
    → Known s (put_imm32_24 w o)
unfolding put_imm32_24
put_imm32_24-Known w h k = set_imm-Known _ (omega (arith, bit_or-le, bits-le)) h k

pub put_imm32_24_b-Known :
    (w : ℕ) {s : Option Operands} {o : RawDecoded48}
    → HasImm s
    → Known (without_imm s) o
    → Known s (put_imm32_24_b w o)
unfolding put_imm32_24_b
put_imm32_24_b-Known w h k = set_imm-Known _ (omega (arith, bit_or-le, bits-le)) h k

pub put_imm17_11-Known :
    (w : ℕ) {s : Option Operands} {o : RawDecoded48}
    → HasImm s
    → Known (without_imm s) o
    → Known s (put_imm17_11 w o)
unfolding put_imm17_11
put_imm17_11-Known w h k = set_imm-Known _ (omega (arith, bit_or-le, bits-le)) h k

pub put_imm27_39-Known :
    (w : ℕ) {s : Option Operands} {o : RawDecoded48}
    → HasImm s
    → Known (without_imm s) o
    → Known s (put_imm27_39 w o)
unfolding put_imm27_39
put_imm27_39-Known w h k = set_imm-Known _ (omega (arith, bit_or-le, bits-le)) h k

pub put_imm11_39-Known :
    (w : ℕ) {s : Option Operands} {o : RawDecoded48}
    → HasImm s
    → Known (without_imm s) o
    → Known s (put_imm11_39 w o)
unfolding put_imm11_39
put_imm11_39-Known w h k = set_imm-Known _ (omega (arith, bit_or-le, bits-le)) h k

pub put_imm_signed11-Known :
    (w : ℕ) {s : Option Operands} {o : RawDecoded48}
    → HasImm s
    → Known (without_imm s) o
    → Known s (put_imm_signed11 w o)
unfolding put_imm_signed11
put_imm_signed11-Known w h k = set_imm-Known _ (sign_extend11-lt _) h k

pub put_imm32_24_c-Known :
    (w : ℕ) {s : Option Operands} {o : RawDecoded48}
    → HasImm s
    → Known (without_imm s) o
    → Known s (put_imm32_24_c w o)
unfolding put_imm32_24_c
put_imm32_24_c-Known w h k = set_imm-Known _ (omega (arith, bit_or-le, bits-le)) h k

pub put_imm28_44-Known :
    (w : ℕ) {s : Option Operands} {o : RawDecoded48}
    → HasImm s
    → Known (without_imm s) o
    → Known s (put_imm28_44 w o)
unfolding put_imm28_44
put_imm28_44-Known w h k = set_imm-Known _ (omega (arith, bit_or-le, bits-le)) h k

pub put_imm12_44-Known :
    (w : ℕ) {s : Option Operands} {o : RawDecoded48}
    → HasImm s
    → Known (without_imm s) o
    → Known s (put_imm12_44 w o)
unfolding put_imm12_44
put_imm12_44-Known w h k = set_imm-Known _ (omega (arith, bit_or-le, bits-le)) h k

pub put_off28_44-Known :
    (w : ℕ) {s : Option Operands} {o : RawDecoded48}
    → HasOff s
    → Known (without_off s) o
    → Known s (put_off28_44 w o)
unfolding put_off28_44
put_off28_44-Known w h k = set_off-Known _ (omega (arith, bit_or-le, bits-le)) h k
