-- ===== src/Pipeline/Decode/Blocks3.antt =====
-- The blocks of `decode_raw_word_48` accept decoded words only, part 3.
use hostpimsim_gecon.Base.{ℕ, some}
use hostpimsim_gecon.Pipeline.Decode.Raw.{RawDecoded48}
use hostpimsim_gecon.Pipeline.Decode.Shape.{no_operands, with_ra, with_dc}
use hostpimsim_gecon.Pipeline.Decode.Known.{Known}
use hostpimsim_gecon.Pipeline.Decode.Accepts.{Accepts, decoding}
use hostpimsim_gecon.Pipeline.Decode.Blocks2.{
  group3_5-Accepts, group3_6-Accepts, group3_7-Accepts, group3_8-Accepts, group3_9-Accepts,
  group3_10-Accepts, group3_11-Accepts, group3_12-Accepts, group3_13-Accepts,
}
use hostpimsim_gecon.Pipeline.Decode.Groups3.{
  group3_14, group3_15, group3_16, group3_17, group3_18, group3_19, group3_20, group3_21, group3_22,
  group3_23, group3_24, group3_25, group3_26, group3_27, group3_28,
}

pub group3_14-Accepts :
    (w : ℕ) {o : RawDecoded48} → Known (some no_operands) o → Accepts (group3_14 w o)
unfolding group3_14
group3_14-Accepts w k =
    search (decoding, group3_10-Accepts, group3_11-Accepts, group3_12-Accepts, group3_13-Accepts)
      depth 60 fits 3000

pub group3_15-Accepts :
    (w : ℕ) {o : RawDecoded48} → Known (some (with_ra no_operands)) o → Accepts (group3_15 w o)
unfolding group3_15
group3_15-Accepts w k = search (decoding) depth 60 fits 3000

pub group3_16-Accepts :
    (w : ℕ) {o : RawDecoded48} → Known (some (with_ra no_operands)) o → Accepts (group3_16 w o)
unfolding group3_16
group3_16-Accepts w k = search (decoding) depth 60 fits 3000

pub group3_17-Accepts :
    (w : ℕ) {o : RawDecoded48} → Known (some (with_ra no_operands)) o → Accepts (group3_17 w o)
unfolding group3_17
group3_17-Accepts w k = search (decoding) depth 60 fits 3000

pub group3_18-Accepts :
    (w : ℕ) {o : RawDecoded48} → Known (some (with_ra no_operands)) o → Accepts (group3_18 w o)
unfolding group3_18
group3_18-Accepts w k = search (decoding) depth 60 fits 3000

pub group3_19-Accepts :
    (w : ℕ) {o : RawDecoded48} → Known (some no_operands) o → Accepts (group3_19 w o)
unfolding group3_19
group3_19-Accepts w k =
    search (decoding, group3_15-Accepts, group3_16-Accepts, group3_17-Accepts, group3_18-Accepts)
      depth 60 fits 3000

pub group3_20-Accepts :
    (w : ℕ) {o : RawDecoded48} → Known (some no_operands) o → Accepts (group3_20 w o)
unfolding group3_20
group3_20-Accepts w k =
    search
      (
        decoding, group3_5-Accepts, group3_6-Accepts, group3_7-Accepts, group3_8-Accepts,
        group3_9-Accepts, group3_14-Accepts, group3_19-Accepts,
      )
      depth 60 fits 3000

pub group3_21-Accepts :
    (w : ℕ) {o : RawDecoded48} → Known (some (with_dc no_operands)) o → Accepts (group3_21 w o)
unfolding group3_21
group3_21-Accepts w k = search (decoding) depth 60 fits 3000

pub group3_22-Accepts :
    (w : ℕ) {o : RawDecoded48} → Known (some (with_dc no_operands)) o → Accepts (group3_22 w o)
unfolding group3_22
group3_22-Accepts w k = search (decoding) depth 60 fits 3000

pub group3_23-Accepts :
    (w : ℕ) {o : RawDecoded48} → Known (some (with_dc no_operands)) o → Accepts (group3_23 w o)
unfolding group3_23
group3_23-Accepts w k = group3_22-Accepts w k

pub group3_24-Accepts :
    (w : ℕ) {o : RawDecoded48} → Known (some no_operands) o → Accepts (group3_24 w o)
unfolding group3_24
group3_24-Accepts w k =
    search (decoding, group3_21-Accepts, group3_22-Accepts, group3_23-Accepts) depth 60 fits 3000

pub group3_25-Accepts :
    (w : ℕ) {o : RawDecoded48} → Known (some (with_dc no_operands)) o → Accepts (group3_25 w o)
unfolding group3_25
group3_25-Accepts w k = group3_21-Accepts w k

pub group3_26-Accepts :
    (w : ℕ) {o : RawDecoded48} → Known (some (with_dc no_operands)) o → Accepts (group3_26 w o)
unfolding group3_26
group3_26-Accepts w k = group3_22-Accepts w k

pub group3_27-Accepts :
    (w : ℕ) {o : RawDecoded48} → Known (some (with_dc no_operands)) o → Accepts (group3_27 w o)
unfolding group3_27
group3_27-Accepts w k = group3_22-Accepts w k

pub group3_28-Accepts :
    (w : ℕ) {o : RawDecoded48} → Known (some no_operands) o → Accepts (group3_28 w o)
unfolding group3_28
group3_28-Accepts w k = group3_24-Accepts w k
