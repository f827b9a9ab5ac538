-- ===== src/Pipeline/Decode/Blocks4.antt =====
-- The blocks of `decode_raw_word_48` accept decoded words only, part 4.
use hostpimsim_gecon.Base.{ℕ, some}
use hostpimsim_gecon.Pipeline.Decode.Raw.{RawDecoded48}
use hostpimsim_gecon.Pipeline.Decode.Shape.{no_operands, with_rc}
use hostpimsim_gecon.Pipeline.Decode.Known.{Known}
use hostpimsim_gecon.Pipeline.Decode.Accepts.{Accepts, decoding}
use hostpimsim_gecon.Pipeline.Decode.Groups4.{
  group3_29, group3_30, group3_31, group3_32, group3_33, group3_34, group3_35, group3_36, group3_37,
  group3_38, group3_39, group3_40, group3_41, group3_42, group3_43, group3_44, group3_45,
}

pub group3_29-Accepts :
    (w : ℕ) {o : RawDecoded48} → Known (some (with_rc no_operands)) o → Accepts (group3_29 w o)
unfolding group3_29
group3_29-Accepts w k = search (decoding) depth 60 fits 3000

pub group3_30-Accepts :
    (w : ℕ) {o : RawDecoded48} → Known (some (with_rc no_operands)) o → Accepts (group3_30 w o)
unfolding group3_30
group3_30-Accepts w k = search (decoding) depth 60 fits 3000

pub group3_31-Accepts :
    (w : ℕ) {o : RawDecoded48} → Known (some (with_rc no_operands)) o → Accepts (group3_31 w o)
unfolding group3_31
group3_31-Accepts w k = search (decoding) depth 60 fits 3000

pub group3_32-Accepts :
    (w : ℕ) {o : RawDecoded48} → Known (some (with_rc no_operands)) o → Accepts (group3_32 w o)
unfolding group3_32
group3_32-Accepts w k = search (decoding) depth 60 fits 3000

pub group3_33-Accepts :
    (w : ℕ) {o : RawDecoded48} → Known (some no_operands) o → Accepts (group3_33 w o)
unfolding group3_33
group3_33-Accepts w k = search (decoding) depth 60 fits 3000

pub group3_34-Accepts :
    (w : ℕ) {o : RawDecoded48} → Known (some no_operands) o → Accepts (group3_34 w o)
unfolding group3_34
group3_34-Accepts w k = search (decoding) depth 60 fits 3000

pub group3_35-Accepts :
    (w : ℕ) {o : RawDecoded48} → Known (some no_operands) o → Accepts (group3_35 w o)
unfolding group3_35
group3_35-Accepts w k = search (decoding) depth 60 fits 3000

pub group3_36-Accepts :
    (w : ℕ) {o : RawDecoded48} → Known (some no_operands) o → Accepts (group3_36 w o)
unfolding group3_36
group3_36-Accepts w k =
    search (decoding, group3_33-Accepts, group3_34-Accepts, group3_35-Accepts) depth 60 fits 3000

pub group3_37-Accepts :
    (w : ℕ) {o : RawDecoded48} → Known (some no_operands) o → Accepts (group3_37 w o)
unfolding group3_37
group3_37-Accepts w k = search (decoding) depth 60 fits 3000

pub group3_38-Accepts :
    (w : ℕ) {o : RawDecoded48} → Known (some no_operands) o → Accepts (group3_38 w o)
unfolding group3_38
group3_38-Accepts w k = group3_37-Accepts w k

pub group3_39-Accepts :
    (w : ℕ) {o : RawDecoded48} → Known (some no_operands) o → Accepts (group3_39 w o)
unfolding group3_39
group3_39-Accepts w k = group3_37-Accepts w k

pub group3_40-Accepts :
    (w : ℕ) {o : RawDecoded48} → Known (some no_operands) o → Accepts (group3_40 w o)
unfolding group3_40
group3_40-Accepts w k = group3_37-Accepts w k

pub group3_41-Accepts :
    (w : ℕ) {o : RawDecoded48} → Known (some no_operands) o → Accepts (group3_41 w o)
unfolding group3_41
group3_41-Accepts w k = group3_37-Accepts w k

pub group3_42-Accepts :
    (w : ℕ) {o : RawDecoded48} → Known (some no_operands) o → Accepts (group3_42 w o)
unfolding group3_42
group3_42-Accepts w k = group3_37-Accepts w k

pub group3_43-Accepts :
    (w : ℕ) {o : RawDecoded48} → Known (some no_operands) o → Accepts (group3_43 w o)
unfolding group3_43
group3_43-Accepts w k = group3_37-Accepts w k

pub group3_44-Accepts :
    (w : ℕ) {o : RawDecoded48} → Known (some no_operands) o → Accepts (group3_44 w o)
unfolding group3_44
group3_44-Accepts w k = search (decoding) depth 60 fits 3000

pub group3_45-Accepts :
    (w : ℕ) {o : RawDecoded48} → Known (some no_operands) o → Accepts (group3_45 w o)
unfolding group3_45
group3_45-Accepts w k = search (decoding) depth 60 fits 3000
