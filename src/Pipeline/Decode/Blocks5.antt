-- ===== src/Pipeline/Decode/Blocks5.antt =====
-- The blocks of `decode_raw_word_48` accept decoded words only, part 5.
use hostpimsim_gecon.Base.{ℕ, some}
use hostpimsim_gecon.Pipeline.Decode.Raw.{RawDecoded48}
use hostpimsim_gecon.Pipeline.Decode.Shape.{no_operands}
use hostpimsim_gecon.Pipeline.Decode.Known.{Known}
use hostpimsim_gecon.Pipeline.Decode.Accepts.{Accepts, decoding}
use hostpimsim_gecon.Pipeline.Decode.Blocks3.{
  group3_20-Accepts, group3_24-Accepts, group3_28-Accepts,
}
use hostpimsim_gecon.Pipeline.Decode.Blocks4.{
  group3_29-Accepts, group3_30-Accepts, group3_31-Accepts, group3_32-Accepts, group3_36-Accepts,
  group3_37-Accepts, group3_38-Accepts, group3_39-Accepts, group3_40-Accepts, group3_41-Accepts,
  group3_42-Accepts, group3_43-Accepts, group3_44-Accepts, group3_45-Accepts,
}
use hostpimsim_gecon.Pipeline.Decode.Groups5.{
  group3_46, group3_47, group3_48, group3_49, group3_50, group3,
}

pub group3_46-Accepts :
    (w : ℕ) {o : RawDecoded48} → Known (some no_operands) o → Accepts (group3_46 w o)
unfolding group3_46
group3_46-Accepts w k = search (decoding) depth 60 fits 3000

pub group3_47-Accepts :
    (w : ℕ) {o : RawDecoded48} → Known (some no_operands) o → Accepts (group3_47 w o)
unfolding group3_47
group3_47-Accepts w k = search (decoding) depth 60 fits 3000

pub group3_48-Accepts :
    (w : ℕ) {o : RawDecoded48} → Known (some no_operands) o → Accepts (group3_48 w o)
unfolding group3_48
group3_48-Accepts w k =
    search
      (
        decoding, group3_37-Accepts, group3_38-Accepts, group3_39-Accepts, group3_40-Accepts,
        group3_41-Accepts, group3_42-Accepts, group3_43-Accepts, group3_44-Accepts,
        group3_45-Accepts, group3_46-Accepts, group3_47-Accepts,
      )
      depth 60 fits 3000

pub group3_49-Accepts :
    (w : ℕ) {o : RawDecoded48} → Known (some no_operands) o → Accepts (group3_49 w o)
unfolding group3_49
group3_49-Accepts w k = search (decoding) depth 60 fits 3000

pub group3_50-Accepts :
    (w : ℕ) {o : RawDecoded48} → Known (some no_operands) o → Accepts (group3_50 w o)
unfolding group3_50
group3_50-Accepts w k = search (decoding, group3_48-Accepts, group3_49-Accepts) depth 60 fits 3000

pub group3-Accepts : (w : ℕ) {o : RawDecoded48} → Known (some no_operands) o → Accepts (group3 w o)
unfolding group3
group3-Accepts w k =
    search
      (
        decoding, group3_20-Accepts, group3_24-Accepts, group3_28-Accepts, group3_29-Accepts,
        group3_30-Accepts, group3_31-Accepts, group3_32-Accepts, group3_36-Accepts,
        group3_50-Accepts,
      )
      depth 60 fits 3000
