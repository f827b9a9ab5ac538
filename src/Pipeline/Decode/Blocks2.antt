-- ===== src/Pipeline/Decode/Blocks2.antt =====
-- The blocks of `decode_raw_word_48` accept decoded words only, part 2.
use hostpimsim_gecon.Base.{ℕ, some}
use hostpimsim_gecon.Pipeline.Decode.Raw.{RawDecoded48}
use hostpimsim_gecon.Pipeline.Decode.Shape.{no_operands, with_ra, with_rc, with_dc}
use hostpimsim_gecon.Pipeline.Decode.Known.{Known}
use hostpimsim_gecon.Pipeline.Decode.Accepts.{Accepts, decoding}
use hostpimsim_gecon.Pipeline.Decode.Blocks1.{group1_5-Accepts}
use hostpimsim_gecon.Pipeline.Decode.Groups2.{
  group1_6, group1, group2, group3_1, group3_2, group3_3, group3_4, group3_5, group3_6, group3_7,
  group3_8, group3_9, group3_10, group3_11, group3_12, group3_13,
}

pub group1_6-Accepts :
    (w : ℕ) {o : RawDecoded48} → Known (some no_operands) o → Accepts (group1_6 w o)
unfolding group1_6
group1_6-Accepts w k = search (decoding) depth 60 fits 3000

pub group1-Accepts : (w : ℕ) {o : RawDecoded48} → Known (some no_operands) o → Accepts (group1 w o)
unfolding group1
group1-Accepts w k = search (decoding, group1_5-Accepts, group1_6-Accepts) depth 60 fits 3000

pub group2-Accepts : (w : ℕ) {o : RawDecoded48} → Known (some no_operands) o → Accepts (group2 w o)
unfolding group2
group2-Accepts w k = search (decoding) depth 60 fits 3000

pub group3_1-Accepts :
    (w : ℕ) {o : RawDecoded48}
    → Known (some (with_dc (with_ra no_operands))) o
    → Accepts (group3_1 w o)
unfolding group3_1
group3_1-Accepts w k = search (decoding) depth 60 fits 3000

pub group3_2-Accepts :
    (w : ℕ) {o : RawDecoded48}
    → Known (some (with_dc (with_ra no_operands))) o
    → Accepts (group3_2 w o)
unfolding group3_2
group3_2-Accepts w k = group3_1-Accepts w k

pub group3_3-Accepts :
    (w : ℕ) {o : RawDecoded48}
    → Known (some (with_dc (with_ra no_operands))) o
    → Accepts (group3_3 w o)
unfolding group3_3
group3_3-Accepts w k = search (decoding) depth 60 fits 3000

pub group3_4-Accepts :
    (w : ℕ) {o : RawDecoded48}
    → Known (some (with_dc (with_ra no_operands))) o
    → Accepts (group3_4 w o)
unfolding group3_4
group3_4-Accepts w k = group3_3-Accepts w k

pub group3_5-Accepts :
    (w : ℕ) {o : RawDecoded48} → Known (some no_operands) o → Accepts (group3_5 w o)
unfolding group3_5
group3_5-Accepts w k =
    search (decoding, group3_1-Accepts, group3_2-Accepts, group3_3-Accepts, group3_4-Accepts) depth
      60 fits 3000

pub group3_6-Accepts :
    (w : ℕ) {o : RawDecoded48}
    → Known (some (with_dc (with_ra no_operands))) o
    → Accepts (group3_6 w o)
unfolding group3_6
group3_6-Accepts w k = group3_1-Accepts w k

pub group3_7-Accepts :
    (w : ℕ) {o : RawDecoded48}
    → Known (some (with_dc (with_ra no_operands))) o
    → Accepts (group3_7 w o)
unfolding group3_7
group3_7-Accepts w k = group3_1-Accepts w k

pub group3_8-Accepts :
    (w : ℕ) {o : RawDecoded48}
    → Known (some (with_dc (with_ra no_operands))) o
    → Accepts (group3_8 w o)
unfolding group3_8
group3_8-Accepts w k = group3_3-Accepts w k

pub group3_9-Accepts :
    (w : ℕ) {o : RawDecoded48}
    → Known (some (with_dc (with_ra no_operands))) o
    → Accepts (group3_9 w o)
unfolding group3_9
group3_9-Accepts w k = group3_3-Accepts w k

pub group3_10-Accepts :
    (w : ℕ) {o : RawDecoded48}
    → Known (some (with_rc (with_ra no_operands))) o
    → Accepts (group3_10 w o)
unfolding group3_10
group3_10-Accepts w k = search (decoding) depth 60 fits 3000

pub group3_11-Accepts :
    (w : ℕ) {o : RawDecoded48}
    → Known (some (with_rc (with_ra no_operands))) o
    → Accepts (group3_11 w o)
unfolding group3_11
group3_11-Accepts w k = search (decoding) depth 60 fits 3000

pub group3_12-Accepts :
    (w : ℕ) {o : RawDecoded48}
    → Known (some (with_rc (with_ra no_operands))) o
    → Accepts (group3_12 w o)
unfolding group3_12
group3_12-Accepts w k = search (decoding) depth 60 fits 3000

pub group3_13-Accepts :
    (w : ℕ) {o : RawDecoded48}
    → Known (some (with_rc (with_ra no_operands))) o
    → Accepts (group3_13 w o)
unfolding group3_13
group3_13-Accepts w k = search (decoding) depth 60 fits 3000
