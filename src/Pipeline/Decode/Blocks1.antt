-- ===== src/Pipeline/Decode/Blocks1.antt =====
-- The blocks of `decode_raw_word_48` accept decoded words only, part 1.
use hostpimsim_gecon.Base.{ℕ, some}
use hostpimsim_gecon.Pipeline.Decode.Raw.{RawDecoded48}
use hostpimsim_gecon.Pipeline.Decode.Shape.{no_operands}
use hostpimsim_gecon.Pipeline.Decode.Known.{Known}
use hostpimsim_gecon.Pipeline.Decode.Accepts.{Accepts, decoding}
use hostpimsim_gecon.Pipeline.Decode.Groups1.{group1_1, group1_2, group1_3, group1_4, group1_5}

pub group1_1-Accepts :
    (w : ℕ) {o : RawDecoded48} → Known (some no_operands) o → Accepts (group1_1 w o)
unfolding group1_1
group1_1-Accepts w k = search (decoding) depth 60 fits 3000

pub group1_2-Accepts :
    (w : ℕ) {o : RawDecoded48} → Known (some no_operands) o → Accepts (group1_2 w o)
unfolding group1_2
group1_2-Accepts w k = search (decoding) depth 60 fits 3000

pub group1_3-Accepts :
    (w : ℕ) {o : RawDecoded48} → Known (some no_operands) o → Accepts (group1_3 w o)
unfolding group1_3
group1_3-Accepts w k = search (decoding) depth 60 fits 3000

pub group1_4-Accepts :
    (w : ℕ) {o : RawDecoded48} → Known (some no_operands) o → Accepts (group1_4 w o)
unfolding group1_4
group1_4-Accepts w k = search (decoding, group1_3-Accepts) depth 60 fits 3000

pub group1_5-Accepts :
    (w : ℕ) {o : RawDecoded48} → Known (some no_operands) o → Accepts (group1_5 w o)
unfolding group1_5
group1_5-Accepts w k =
    search (decoding, group1_1-Accepts, group1_2-Accepts, group1_4-Accepts) depth 60 fits 3000
