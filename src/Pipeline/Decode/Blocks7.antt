-- ===== src/Pipeline/Decode/Blocks7.antt =====
-- The blocks of `decode_raw_word_48` accept decoded words only, part 7.
use hostpimsim_gecon.Base.{ℕ, some}
use hostpimsim_gecon.Pipeline.Decode.Raw.{RawDecoded48}
use hostpimsim_gecon.Pipeline.Decode.Shape.{no_operands, with_ra, with_rc, with_dc}
use hostpimsim_gecon.Pipeline.Decode.Known.{Known}
use hostpimsim_gecon.Pipeline.Decode.Accepts.{Accepts, decoding}
use hostpimsim_gecon.Pipeline.Decode.Blocks6.{group7_7-Accepts}
use hostpimsim_gecon.Pipeline.Decode.Groups7.{group7_8, group7_9, group7_10, group7_11}

pub group7_8-Accepts :
    (w : ℕ) {o : RawDecoded48} → Known (some no_operands) o → Accepts (group7_8 w o)
unfolding group7_8
group7_8-Accepts w k = search (decoding, group7_7-Accepts) depth 60 fits 3000

pub group7_9-Accepts :
    (w : ℕ) {o : RawDecoded48}
    → Known (some (with_dc (with_ra no_operands))) o
    → Accepts (group7_9 w o)
unfolding group7_9
group7_9-Accepts w k = search (decoding) depth 60 fits 3000

pub group7_10-Accepts :
    (w : ℕ) {o : RawDecoded48} → Known (some no_operands) o → Accepts (group7_10 w o)
unfolding group7_10
group7_10-Accepts w k = search (decoding, group7_9-Accepts) depth 60 fits 3000

pub group7_11-Accepts :
    (w : ℕ) {o : RawDecoded48}
    → Known (some (with_rc (with_ra no_operands))) o
    → Accepts (group7_11 w o)
unfolding group7_11
group7_11-Accepts w k = search (decoding) depth 60 fits 3000
