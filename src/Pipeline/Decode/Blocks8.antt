-- ===== src/Pipeline/Decode/Blocks8.antt =====
-- The blocks of `decode_raw_word_48` accept decoded words only, part 8.
use hostpimsim_gecon.Base.{ℕ, some}
use hostpimsim_gecon.Pipeline.Decode.Raw.{RawDecoded48}
use hostpimsim_gecon.Pipeline.Decode.Shape.{no_operands, with_ra}
use hostpimsim_gecon.Pipeline.Decode.Known.{Known}
use hostpimsim_gecon.Pipeline.Decode.Accepts.{Accepts, decoding}
use hostpimsim_gecon.Pipeline.Decode.Blocks7.{
  group7_8-Accepts, group7_10-Accepts, group7_11-Accepts,
}
use hostpimsim_gecon.Pipeline.Decode.Groups8.{
  group7_12, group7_13, group7_14, group7_15, group7_16, group7_17,
}

pub group7_12-Accepts :
    (w : ℕ) {o : RawDecoded48} → Known (some no_operands) o → Accepts (group7_12 w o)
unfolding group7_12
group7_12-Accepts w k = search (decoding, group7_11-Accepts) depth 60 fits 3000

pub group7_13-Accepts :
    (w : ℕ) {o : RawDecoded48} → Known (some (with_ra no_operands)) o → Accepts (group7_13 w o)
unfolding group7_13
group7_13-Accepts w k = search (decoding) depth 60 fits 3000

pub group7_14-Accepts :
    (w : ℕ) {o : RawDecoded48} → Known (some no_operands) o → Accepts (group7_14 w o)
unfolding group7_14
group7_14-Accepts w k =
    search (decoding, group7_8-Accepts, group7_10-Accepts, group7_12-Accepts, group7_13-Accepts)
      depth 60 fits 3000

pub group7_15-Accepts :
    (w : ℕ) {o : RawDecoded48} → Known (some (with_ra no_operands)) o → Accepts (group7_15 w o)
unfolding group7_15
group7_15-Accepts w k = search (decoding) depth 60 fits 3000

pub group7_16-Accepts :
    (w : ℕ) {o : RawDecoded48} → Known (some (with_ra no_operands)) o → Accepts (group7_16 w o)
unfolding group7_16
group7_16-Accepts w k = search (decoding) depth 60 fits 3000

pub group7_17-Accepts :
    (w : ℕ) {o : RawDecoded48} → Known (some (with_ra no_operands)) o → Accepts (group7_17 w o)
unfolding group7_17
group7_17-Accepts w k = group7_15-Accepts w k
