-- ===== src/Pipeline/Decode/Blocks10.antt =====
-- The blocks of `decode_raw_word_48` accept decoded words only, part 10.
use hostpimsim_gecon.Base.{ℕ, some}
use hostpimsim_gecon.Pipeline.Decode.Raw.{RawDecoded48}
use hostpimsim_gecon.Pipeline.Decode.Shape.{no_operands, with_ra, with_rb, with_dc}
use hostpimsim_gecon.Pipeline.Decode.Known.{Known}
use hostpimsim_gecon.Pipeline.Decode.Puts.{put_rb5_32_again-Known}
use hostpimsim_gecon.Pipeline.Decode.Accepts.{Accepts, decoding}
use hostpimsim_gecon.Pipeline.Decode.Blocks6.{
  group7_3-Accepts, group7_4-Accepts, group7_5-Accepts, group7_6-Accepts,
}
use hostpimsim_gecon.Pipeline.Decode.Blocks8.{group7_14-Accepts}
use hostpimsim_gecon.Pipeline.Decode.Blocks9.{
  group7_22-Accepts, group7_25-Accepts, group7_28-Accepts, group7_31-Accepts, group7_34-Accepts,
  group7_37-Accepts, group7_40-Accepts,
}
use hostpimsim_gecon.Pipeline.Decode.Groups10.{
  group7_41, group7_42, group7_43, group7_44, group7_45, group7_46, group7_47, group7_48, group7_49,
  group7_50, group7_51, group7_52, group7_53, group7_54, group7_55, group7_56, group7_57,
}

pub group7_41-Accepts :
    (w : ℕ) {o : RawDecoded48} → Known (some no_operands) o → Accepts (group7_41 w o)
unfolding group7_41
group7_41-Accepts w k = search (decoding) depth 60 fits 3000

pub group7_42-Accepts :
    (w : ℕ) {o : RawDecoded48} → Known (some no_operands) o → Accepts (group7_42 w o)
unfolding group7_42
group7_42-Accepts w k = group7_4-Accepts w k

pub group7_43-Accepts :
    (w : ℕ) {o : RawDecoded48} → Known (some no_operands) o → Accepts (group7_43 w o)
unfolding group7_43
group7_43-Accepts w k = group7_5-Accepts w k

pub group7_44-Accepts :
    (w : ℕ) {o : RawDecoded48} → Known (some no_operands) o → Accepts (group7_44 w o)
unfolding group7_44
group7_44-Accepts w k = group7_6-Accepts w k

pub group7_45-Accepts :
    (w : ℕ) {o : RawDecoded48} → Known (some no_operands) o → Accepts (group7_45 w o)
unfolding group7_45
group7_45-Accepts w k =
    search
      (
        decoding, group7_3-Accepts, group7_6-Accepts, group7_14-Accepts, group7_22-Accepts,
        group7_25-Accepts, group7_28-Accepts, group7_31-Accepts, group7_34-Accepts,
        group7_37-Accepts, group7_40-Accepts, group7_41-Accepts, group7_44-Accepts,
      )
      depth 60 fits 3000

pub group7_46-Accepts :
    (w : ℕ) {o : RawDecoded48} → Known (some (with_rb no_operands)) o → Accepts (group7_46 w o)
unfolding group7_46
group7_46-Accepts w k = search (decoding) depth 60 fits 3000

pub group7_47-Accepts :
    (w : ℕ) {o : RawDecoded48} → Known (some (with_rb no_operands)) o → Accepts (group7_47 w o)
unfolding group7_47
group7_47-Accepts w k = search (decoding, group7_46-Accepts) depth 60 fits 3000

pub group7_48-Accepts :
    (w : ℕ) {o : RawDecoded48} → Known (some (with_rb no_operands)) o → Accepts (group7_48 w o)
unfolding group7_48
group7_48-Accepts w k = search (decoding) depth 60 fits 3000

pub group7_49-Accepts :
    (w : ℕ) {o : RawDecoded48} → Known (some (with_rb no_operands)) o → Accepts (group7_49 w o)
unfolding group7_49
group7_49-Accepts w k = group7_48-Accepts w k

pub group7_50-Accepts :
    (w : ℕ) {o : RawDecoded48} → Known (some (with_rb no_operands)) o → Accepts (group7_50 w o)
unfolding group7_50
group7_50-Accepts w k = group7_48-Accepts w k

pub group7_51-Accepts :
    (w : ℕ) {o : RawDecoded48} → Known (some (with_rb no_operands)) o → Accepts (group7_51 w o)
unfolding group7_51
group7_51-Accepts w k = group7_48-Accepts w k

pub group7_52-Accepts :
    (w : ℕ) {o : RawDecoded48} → Known (some (with_rb no_operands)) o → Accepts (group7_52 w o)
unfolding group7_52
group7_52-Accepts w k = group7_48-Accepts w k

pub group7_53-Accepts :
    (w : ℕ) {o : RawDecoded48} → Known (some (with_rb no_operands)) o → Accepts (group7_53 w o)
unfolding group7_53
group7_53-Accepts w k = search (decoding) depth 60 fits 3000

pub group7_54-Accepts :
    (w : ℕ) {o : RawDecoded48} → Known (some (with_rb no_operands)) o → Accepts (group7_54 w o)
unfolding group7_54
group7_54-Accepts w k =
    search (decoding, put_rb5_32_again-Known, group7_53-Accepts) depth 60 fits 3000

pub group7_55-Accepts :
    (w : ℕ) {o : RawDecoded48} → Known (some (with_rb no_operands)) o → Accepts (group7_55 w o)
unfolding group7_55
group7_55-Accepts w k = group7_48-Accepts w k

pub group7_56-Accepts :
    (w : ℕ) {o : RawDecoded48} → Known (some (with_rb no_operands)) o → Accepts (group7_56 w o)
unfolding group7_56
group7_56-Accepts w k = group7_48-Accepts w k

pub group7_57-Accepts :
    (w : ℕ) {o : RawDecoded48}
    → Known (some (with_dc (with_rb (with_ra no_operands)))) o
    → Accepts (group7_57 w o)
unfolding group7_57
group7_57-Accepts w k = search (decoding) depth 60 fits 3000
