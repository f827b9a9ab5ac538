-- ===== src/Pipeline/Decode/Blocks6.antt =====
-- The blocks of `decode_raw_word_48` accept decoded words only, part 6.
use hostpimsim_gecon.Base.{ℕ, some}
use hostpimsim_gecon.Pipeline.Decode.Raw.{RawDecoded48}
use hostpimsim_gecon.Pipeline.Decode.Shape.{no_operands, with_ra, with_dc}
use hostpimsim_gecon.Pipeline.Decode.Known.{Known}
use hostpimsim_gecon.Pipeline.Decode.Accepts.{Accepts, decoding}
use hostpimsim_gecon.Pipeline.Decode.Groups6.{
  group4, group5, group6, group7_1, group7_2, group7_3, group7_4, group7_5, group7_6, group7_7,
}

pub group4-Accepts : (w : ℕ) {o : RawDecoded48} → Known (some no_operands) o → Accepts (group4 w o)
unfolding group4
group4-Accepts w k = search (decoding) depth 60 fits 3000

pub group5-Accepts : (w : ℕ) {o : RawDecoded48} → Known (some no_operands) o → Accepts (group5 w o)
unfolding group5
group5-Accepts w k = search (decoding) depth 60 fits 3000

pub group6-Accepts : (w : ℕ) {o : RawDecoded48} → Known (some no_operands) o → Accepts (group6 w o)
unfolding group6
group6-Accepts w k = search (decoding) depth 60 fits 3000

pub group7_1-Accepts :
    (w : ℕ) {o : RawDecoded48} → Known (some no_operands) o → Accepts (group7_1 w o)
unfolding group7_1
group7_1-Accepts w k = search (decoding) depth 60 fits 3000

pub group7_2-Accepts :
    (w : ℕ) {o : RawDecoded48} → Known (some no_operands) o → Accepts (group7_2 w o)
unfolding group7_2
group7_2-Accepts w k = search (decoding) depth 60 fits 3000

pub group7_3-Accepts :
    (w : ℕ) {o : RawDecoded48} → Known (some no_operands) o → Accepts (group7_3 w o)
unfolding group7_3
group7_3-Accepts w k = search (decoding, group7_1-Accepts, group7_2-Accepts) depth 60 fits 3000

pub group7_4-Accepts :
    (w : ℕ) {o : RawDecoded48} → Known (some no_operands) o → Accepts (group7_4 w o)
unfolding group7_4
group7_4-Accepts w k = search (decoding) depth 60 fits 3000

pub group7_5-Accepts :
    (w : ℕ) {o : RawDecoded48} → Known (some no_operands) o → Accepts (group7_5 w o)
unfolding group7_5
group7_5-Accepts w k = search (decoding) depth 60 fits 3000

pub group7_6-Accepts :
    (w : ℕ) {o : RawDecoded48} → Known (some no_operands) o → Accepts (group7_6 w o)
unfolding group7_6
group7_6-Accepts w k = search (decoding, group7_4-Accepts, group7_5-Accepts) depth 60 fits 3000

pub group7_7-Accepts :
    (w : ℕ) {o : RawDecoded48}
    → Known (some (with_dc (with_ra no_operands))) o
    → Accepts (group7_7 w o)
unfolding group7_7
group7_7-Accepts w k = search (decoding) depth 60 fits 3000
