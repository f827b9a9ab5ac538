-- ===== src/Pipeline/Decode/Blocks9.antt =====
-- The blocks of `decode_raw_word_48` accept decoded words only, part 9.
use hostpimsim_gecon.Base.{ℕ, some}
use hostpimsim_gecon.Pipeline.Decode.Raw.{RawDecoded48}
use hostpimsim_gecon.Pipeline.Decode.Shape.{no_operands, with_ra}
use hostpimsim_gecon.Pipeline.Decode.Known.{Known}
use hostpimsim_gecon.Pipeline.Decode.Accepts.{Accepts, decoding}
use hostpimsim_gecon.Pipeline.Decode.Blocks6.{group7_4-Accepts, group7_5-Accepts, group7_6-Accepts}
use hostpimsim_gecon.Pipeline.Decode.Blocks8.{
  group7_15-Accepts, group7_16-Accepts, group7_17-Accepts,
}
use hostpimsim_gecon.Pipeline.Decode.Groups9.{
  group7_18, group7_19, group7_20, group7_21, group7_22, group7_23, group7_24, group7_25, group7_26,
  group7_27, group7_28, group7_29, group7_30, group7_31, group7_32, group7_33, group7_34, group7_35,
  group7_36, group7_37, group7_38, group7_39, group7_40,
}

pub group7_18-Accepts :
    (w : ℕ) {o : RawDecoded48} → Known (some (with_ra no_operands)) o → Accepts (group7_18 w o)
unfolding group7_18
group7_18-Accepts w k = search (decoding) depth 60 fits 3000

pub group7_19-Accepts :
    (w : ℕ) {o : RawDecoded48} → Known (some (with_ra no_operands)) o → Accepts (group7_19 w o)
unfolding group7_19
group7_19-Accepts w k = search (decoding) depth 60 fits 3000

pub group7_20-Accepts :
    (w : ℕ) {o : RawDecoded48} → Known (some (with_ra no_operands)) o → Accepts (group7_20 w o)
unfolding group7_20
group7_20-Accepts w k = group7_19-Accepts w k

pub group7_21-Accepts :
    (w : ℕ) {o : RawDecoded48} → Known (some (with_ra no_operands)) o → Accepts (group7_21 w o)
unfolding group7_21
group7_21-Accepts w k = search (decoding) depth 60 fits 3000

pub group7_22-Accepts :
    (w : ℕ) {o : RawDecoded48} → Known (some no_operands) o → Accepts (group7_22 w o)
unfolding group7_22
group7_22-Accepts w k =
    search
      (
        decoding, group7_15-Accepts, group7_16-Accepts, group7_17-Accepts, group7_18-Accepts,
        group7_19-Accepts, group7_20-Accepts, group7_21-Accepts,
      )
      depth 60 fits 3000

pub group7_23-Accepts :
    (w : ℕ) {o : RawDecoded48} → Known (some no_operands) o → Accepts (group7_23 w o)
unfolding group7_23
group7_23-Accepts w k = group7_4-Accepts w k

pub group7_24-Accepts :
    (w : ℕ) {o : RawDecoded48} → Known (some no_operands) o → Accepts (group7_24 w o)
unfolding group7_24
group7_24-Accepts w k = group7_5-Accepts w k

pub group7_25-Accepts :
    (w : ℕ) {o : RawDecoded48} → Known (some no_operands) o → Accepts (group7_25 w o)
unfolding group7_25
group7_25-Accepts w k = group7_6-Accepts w k

pub group7_26-Accepts :
    (w : ℕ) {o : RawDecoded48} → Known (some no_operands) o → Accepts (group7_26 w o)
unfolding group7_26
group7_26-Accepts w k = group7_4-Accepts w k

pub group7_27-Accepts :
    (w : ℕ) {o : RawDecoded48} → Known (some no_operands) o → Accepts (group7_27 w o)
unfolding group7_27
group7_27-Accepts w k = group7_5-Accepts w k

pub group7_28-Accepts :
    (w : ℕ) {o : RawDecoded48} → Known (some no_operands) o → Accepts (group7_28 w o)
unfolding group7_28
group7_28-Accepts w k = group7_6-Accepts w k

pub group7_29-Accepts :
    (w : ℕ) {o : RawDecoded48} → Known (some no_operands) o → Accepts (group7_29 w o)
unfolding group7_29
group7_29-Accepts w k = group7_4-Accepts w k

pub group7_30-Accepts :
    (w : ℕ) {o : RawDecoded48} → Known (some no_operands) o → Accepts (group7_30 w o)
unfolding group7_30
group7_30-Accepts w k = group7_5-Accepts w k

pub group7_31-Accepts :
    (w : ℕ) {o : RawDecoded48} → Known (some no_operands) o → Accepts (group7_31 w o)
unfolding group7_31
group7_31-Accepts w k = group7_6-Accepts w k

pub group7_32-Accepts :
    (w : ℕ) {o : RawDecoded48} → Known (some no_operands) o → Accepts (group7_32 w o)
unfolding group7_32
group7_32-Accepts w k = group7_4-Accepts w k

pub group7_33-Accepts :
    (w : ℕ) {o : RawDecoded48} → Known (some no_operands) o → Accepts (group7_33 w o)
unfolding group7_33
group7_33-Accepts w k = group7_5-Accepts w k

pub group7_34-Accepts :
    (w : ℕ) {o : RawDecoded48} → Known (some no_operands) o → Accepts (group7_34 w o)
unfolding group7_34
group7_34-Accepts w k = group7_6-Accepts w k

pub group7_35-Accepts :
    (w : ℕ) {o : RawDecoded48} → Known (some no_operands) o → Accepts (group7_35 w o)
unfolding group7_35
group7_35-Accepts w k = search (decoding) depth 60 fits 3000

pub group7_36-Accepts :
    (w : ℕ) {o : RawDecoded48} → Known (some no_operands) o → Accepts (group7_36 w o)
unfolding group7_36
group7_36-Accepts w k = search (decoding) depth 60 fits 3000

pub group7_37-Accepts :
    (w : ℕ) {o : RawDecoded48} → Known (some no_operands) o → Accepts (group7_37 w o)
unfolding group7_37
group7_37-Accepts w k = search (decoding, group7_35-Accepts, group7_36-Accepts) depth 60 fits 3000

pub group7_38-Accepts :
    (w : ℕ) {o : RawDecoded48} → Known (some no_operands) o → Accepts (group7_38 w o)
unfolding group7_38
group7_38-Accepts w k = group7_4-Accepts w k

pub group7_39-Accepts :
    (w : ℕ) {o : RawDecoded48} → Known (some no_operands) o → Accepts (group7_39 w o)
unfolding group7_39
group7_39-Accepts w k = group7_5-Accepts w k

pub group7_40-Accepts :
    (w : ℕ) {o : RawDecoded48} → Known (some no_operands) o → Accepts (group7_40 w o)
unfolding group7_40
group7_40-Accepts w k = group7_6-Accepts w k
