-- ===== src/Pipeline/Decode/Puts.antt =====
-- The assignments of registers and conditions in `decode_raw_word_48` put a field in its range.
use hostpimsim_gecon.Base.{ℕ, Option, arith}
use hostpimsim_gecon.Pipeline.Decode.Raw.{RawDecoded48}
use hostpimsim_gecon.Pipeline.Decode.Fields.{
  put_ra5_34, put_pc, put_cc2_24, put_cc4_24, put_endian, put_dc5_40, put_rc5_39, put_dc5_39,
  put_rb5_32, put_db, put_dc5_44, put_cc5_24, put_cc6_30, put_rc5_44, put_rb5_34, put_ra5_32,
  put_shift, put_cc5_29,
}
use hostpimsim_gecon.Pipeline.Decode.Shape.{
  Operands, without_ra, without_rb, without_rc, without_dc, without_db, without_pc, without_shift,
  without_endian, without_cc, HasRa, HasRb, HasRc, HasDc, HasDb, HasPc, HasShift, HasEndian, HasCc,
}
use hostpimsim_gecon.Pipeline.Decode.Sets.{
  set_rb_again-Known, set_ra-Known, set_rb-Known, set_rc-Known, set_dc-Known, set_db-Known,
  set_pc-Known, set_shift-Known, set_endian-Known, set_cc-Known,
}
use hostpimsim_gecon.Pipeline.Decode.Known.{Known, bits-le, bit_or-le}

pub put_ra5_34-Known :
    (w : ℕ) {s : Option Operands} {o : RawDecoded48}
    → HasRa s
    → Known (without_ra s) o
    → Known s (put_ra5_34 w o)
unfolding put_ra5_34
put_ra5_34-Known w h k = set_ra-Known _ (omega (arith, bits-le)) h k

pub put_pc-Known :
    (w : ℕ) {s : Option Operands} {o : RawDecoded48}
    → HasPc s
    → Known (without_pc s) o
    → Known s (put_pc w o)
unfolding put_pc
put_pc-Known w h k = set_pc-Known _ (omega (arith, bits-le)) h k

pub put_cc2_24-Known :
    (w : ℕ) {s : Option Operands} {o : RawDecoded48}
    → HasCc s
    → Known (without_cc s) o
    → Known s (put_cc2_24 w o)
unfolding put_cc2_24
put_cc2_24-Known w h k = set_cc-Known _ (omega (arith, bits-le)) h k

pub put_cc4_24-Known :
    (w : ℕ) {s : Option Operands} {o : RawDecoded48}
    → HasCc s
    → Known (without_cc s) o
    → Known s (put_cc4_24 w o)
unfolding put_cc4_24
put_cc4_24-Known w h k = set_cc-Known _ (omega (arith, bits-le)) h k

pub put_endian-Known :
    (w : ℕ) {s : Option Operands} {o : RawDecoded48}
    → HasEndian s
    → Known (without_endian s) o
    → Known s (put_endian w o)
unfolding put_endian
put_endian-Known w h k = set_endian-Known _ (omega (arith, bits-le)) h k

pub put_dc5_40-Known :
    (w : ℕ) {s : Option Operands} {o : RawDecoded48}
    → HasDc s
    → Known (without_dc s) o
    → Known s (put_dc5_40 w o)
unfolding put_dc5_40
put_dc5_40-Known w h k = set_dc-Known _ (omega (arith, bits-le)) h k

pub put_rc5_39-Known :
    (w : ℕ) {s : Option Operands} {o : RawDecoded48}
    → HasRc s
    → Known (without_rc s) o
    → Known s (put_rc5_39 w o)
unfolding put_rc5_39
put_rc5_39-Known w h k = set_rc-Known _ (omega (arith, bits-le)) h k

pub put_dc5_39-Known :
    (w : ℕ) {s : Option Operands} {o : RawDecoded48}
    → HasDc s
    → Known (without_dc s) o
    → Known s (put_dc5_39 w o)
unfolding put_dc5_39
put_dc5_39-Known w h k = set_dc-Known _ (omega (arith, bits-le)) h k

pub put_rb5_32-Known :
    (w : ℕ) {s : Option Operands} {o : RawDecoded48}
    → HasRb s
    → Known (without_rb s) o
    → Known s (put_rb5_32 w o)
unfolding put_rb5_32
put_rb5_32-Known w h k = set_rb-Known _ (omega (arith, bit_or-le, bits-le)) h k

pub put_db-Known :
    (w : ℕ) {s : Option Operands} {o : RawDecoded48}
    → HasDb s
    → Known (without_db s) o
    → Known s (put_db w o)
unfolding put_db
put_db-Known w h k = set_db-Known _ (omega (arith, bit_or-le, bits-le)) h k

pub put_dc5_44-Known :
    (w : ℕ) {s : Option Operands} {o : RawDecoded48}
    → HasDc s
    → Known (without_dc s) o
    → Known s (put_dc5_44 w o)
unfolding put_dc5_44
put_dc5_44-Known w h k = set_dc-Known _ (omega (arith, bit_or-le, bits-le)) h k

pub put_cc5_24-Known :
    (w : ℕ) {s : Option Operands} {o : RawDecoded48}
    → HasCc s
    → Known (without_cc s) o
    → Known s (put_cc5_24 w o)
unfolding put_cc5_24
put_cc5_24-Known w h k = set_cc-Known _ (omega (arith, bits-le)) h k

pub put_cc6_30-Known :
    (w : ℕ) {s : Option Operands} {o : RawDecoded48}
    → HasCc s
    → Known (without_cc s) o
    → Known s (put_cc6_30 w o)
unfolding put_cc6_30
put_cc6_30-Known w h k = set_cc-Known _ (omega (arith, bit_or-le, bits-le)) h k

pub put_rc5_44-Known :
    (w : ℕ) {s : Option Operands} {o : RawDecoded48}
    → HasRc s
    → Known (without_rc s) o
    → Known s (put_rc5_44 w o)
unfolding put_rc5_44
put_rc5_44-Known w h k = set_rc-Known _ (omega (arith, bit_or-le, bits-le)) h k

pub put_rb5_34-Known :
    (w : ℕ) {s : Option Operands} {o : RawDecoded48}
    → HasRb s
    → Known (without_rb s) o
    → Known s (put_rb5_34 w o)
unfolding put_rb5_34
put_rb5_34-Known w h k = set_rb-Known _ (omega (arith, bits-le)) h k

pub put_ra5_32-Known :
    (w : ℕ) {s : Option Operands} {o : RawDecoded48}
    → HasRa s
    → Known (without_ra s) o
    → Known s (put_ra5_32 w o)
unfolding put_ra5_32
put_ra5_32-Known w h k = set_ra-Known _ (omega (arith, bit_or-le, bits-le)) h k

pub put_shift-Known :
    (w : ℕ) {s : Option Operands} {o : RawDecoded48}
    → HasShift s
    → Known (without_shift s) o
    → Known s (put_shift w o)
unfolding put_shift
put_shift-Known w h k = set_shift-Known _ (omega (arith, bit_or-le, bits-le)) h k

pub put_cc5_29-Known :
    (w : ℕ) {s : Option Operands} {o : RawDecoded48}
    → HasCc s
    → Known (without_cc s) o
    → Known s (put_cc5_29 w o)
unfolding put_cc5_29
put_cc5_29-Known w h k = set_cc-Known _ (omega (arith, bit_or-le, bits-le)) h k

pub put_rb5_32_again-Known :
    (w : ℕ) {s : Option Operands} {o : RawDecoded48}
    → HasRb s
    → Known s o
    → Known s (put_rb5_32 w o)
unfolding put_rb5_32
put_rb5_32_again-Known w h k = set_rb_again-Known _ (omega (arith, bit_or-le, bits-le)) h k
