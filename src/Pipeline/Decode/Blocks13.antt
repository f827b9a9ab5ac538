-- ===== src/Pipeline/Decode/Blocks13.antt =====
-- The blocks of `decode_raw_word_48` accept decoded words only, part 13.
use hostpimsim_gecon.Base.{ℕ, some}
use hostpimsim_gecon.Pipeline.Decode.Raw.{RawDecoded48}
use hostpimsim_gecon.Pipeline.Decode.Shape.{no_operands, with_rb}
use hostpimsim_gecon.Pipeline.Decode.Known.{Known}
use hostpimsim_gecon.Pipeline.Decode.Puts.{put_rb5_32_again-Known}
use hostpimsim_gecon.Pipeline.Decode.Accepts.{Accepts, decoding}
use hostpimsim_gecon.Pipeline.Decode.Blocks10.{
  group7_45-Accepts, group7_47-Accepts, group7_48-Accepts, group7_49-Accepts, group7_50-Accepts,
  group7_51-Accepts, group7_52-Accepts, group7_54-Accepts, group7_55-Accepts, group7_56-Accepts,
}
use hostpimsim_gecon.Pipeline.Decode.Blocks12.{
  group7_92-Accepts, group7_93-Accepts, group7_94-Accepts, group7_95-Accepts,
}
use hostpimsim_gecon.Pipeline.Decode.Groups13.{group7_96, group7_97, group7_98, group7}

pub group7_96-Accepts :
    (w : ℕ) {o : RawDecoded48} → Known (some (with_rb no_operands)) o → Accepts (group7_96 w o)
unfolding group7_96
group7_96-Accepts w k = search (decoding, put_rb5_32_again-Known) depth 60 fits 3000

pub group7_97-Accepts :
    (w : ℕ) {o : RawDecoded48} → Known (some (with_rb no_operands)) o → Accepts (group7_97 w o)
unfolding group7_97
group7_97-Accepts w k = search (decoding) depth 60 fits 3000

pub group7_98-Accepts :
    (w : ℕ) {o : RawDecoded48} → Known (some no_operands) o → Accepts (group7_98 w o)
unfolding group7_98
group7_98-Accepts w k = search (decoding) depth 60 fits 3000

pub group7-Accepts : (w : ℕ) {o : RawDecoded48} → Known (some no_operands) o → Accepts (group7 w o)
unfolding group7
group7-Accepts w k =
    search
      (
        decoding, group7_45-Accepts, group7_47-Accepts, group7_48-Accepts, group7_49-Accepts,
        group7_50-Accepts, group7_51-Accepts, group7_52-Accepts, group7_54-Accepts,
        group7_55-Accepts, group7_56-Accepts, group7_92-Accepts, group7_93-Accepts,
        group7_94-Accepts, group7_95-Accepts, group7_96-Accepts, group7_97-Accepts,
        group7_98-Accepts,
      )
      depth 60 fits 3000
