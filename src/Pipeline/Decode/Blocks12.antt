-- ===== src/Pipeline/Decode/Blocks12.antt =====
-- The blocks of `decode_raw_word_48` accept decoded words only, part 12.
use hostpimsim_gecon.Base.{ℕ, some}
use hostpimsim_gecon.Pipeline.Decode.Raw.{RawDecoded48}
use hostpimsim_gecon.Pipeline.Decode.Shape.{no_operands, with_ra, with_rb}
use hostpimsim_gecon.Pipeline.Decode.Known.{Known}
use hostpimsim_gecon.Pipeline.Decode.Puts.{put_rb5_32_again-Known}
use hostpimsim_gecon.Pipeline.Decode.Accepts.{Accepts, decoding}
use hostpimsim_gecon.Pipeline.Decode.Blocks10.{group7_48-Accepts}
use hostpimsim_gecon.Pipeline.Decode.Blocks11.{
  group7_65-Accepts, group7_74-Accepts, group7_75-Accepts, group7_76-Accepts, group7_77-Accepts,
  group7_78-Accepts, group7_79-Accepts, group7_80-Accepts, group7_81-Accepts, group7_82-Accepts,
}
use hostpimsim_gecon.Pipeline.Decode.Groups12.{
  group7_83, group7_84, group7_85, group7_86, group7_87, group7_88, group7_89, group7_90, group7_91,
  group7_92, group7_93, group7_94, group7_95,
}

pub group7_83-Accepts :
    (w : ℕ) {o : RawDecoded48} → Known (some (with_rb no_operands)) o → Accepts (group7_83 w o)
unfolding group7_83
group7_83-Accepts w k =
    search
      (
        decoding, group7_75-Accepts, group7_76-Accepts, group7_77-Accepts, group7_78-Accepts,
        group7_79-Accepts, group7_80-Accepts, group7_81-Accepts, group7_82-Accepts,
      )
      depth 60 fits 3000

pub group7_84-Accepts :
    (w : ℕ) {o : RawDecoded48}
    → Known (some (with_rb (with_ra no_operands))) o
    → Accepts (group7_84 w o)
unfolding group7_84
group7_84-Accepts w k = search (decoding) depth 60 fits 3000

pub group7_85-Accepts :
    (w : ℕ) {o : RawDecoded48}
    → Known (some (with_rb (with_ra no_operands))) o
    → Accepts (group7_85 w o)
unfolding group7_85
group7_85-Accepts w k = group7_84-Accepts w k

pub group7_86-Accepts :
    (w : ℕ) {o : RawDecoded48}
    → Known (some (with_rb (with_ra no_operands))) o
    → Accepts (group7_86 w o)
unfolding group7_86
group7_86-Accepts w k = group7_84-Accepts w k

pub group7_87-Accepts :
    (w : ℕ) {o : RawDecoded48}
    → Known (some (with_rb (with_ra no_operands))) o
    → Accepts (group7_87 w o)
unfolding group7_87
group7_87-Accepts w k = search (decoding) depth 60 fits 3000

pub group7_88-Accepts :
    (w : ℕ) {o : RawDecoded48}
    → Known (some (with_rb (with_ra no_operands))) o
    → Accepts (group7_88 w o)
unfolding group7_88
group7_88-Accepts w k = search (decoding) depth 60 fits 3000

pub group7_89-Accepts :
    (w : ℕ) {o : RawDecoded48}
    → Known (some (with_rb (with_ra no_operands))) o
    → Accepts (group7_89 w o)
unfolding group7_89
group7_89-Accepts w k = group7_84-Accepts w k

pub group7_90-Accepts :
    (w : ℕ) {o : RawDecoded48}
    → Known (some (with_rb (with_ra no_operands))) o
    → Accepts (group7_90 w o)
unfolding group7_90
group7_90-Accepts w k = search (decoding) depth 60 fits 3000

pub group7_91-Accepts :
    (w : ℕ) {o : RawDecoded48}
    → Known (some (with_rb (with_ra no_operands))) o
    → Accepts (group7_91 w o)
unfolding group7_91
group7_91-Accepts w k = search (decoding) depth 60 fits 3000

pub group7_92-Accepts :
    (w : ℕ) {o : RawDecoded48} → Known (some (with_rb no_operands)) o → Accepts (group7_92 w o)
unfolding group7_92
group7_92-Accepts w k =
    search
      (
        decoding, group7_65-Accepts, group7_74-Accepts, group7_83-Accepts, group7_84-Accepts,
        group7_85-Accepts, group7_86-Accepts, group7_87-Accepts, group7_88-Accepts,
        group7_89-Accepts, group7_90-Accepts, group7_91-Accepts,
      )
      depth 60 fits 3000

pub group7_93-Accepts :
    (w : ℕ) {o : RawDecoded48} → Known (some (with_rb no_operands)) o → Accepts (group7_93 w o)
unfolding group7_93
group7_93-Accepts w k = group7_48-Accepts w k

pub group7_94-Accepts :
    (w : ℕ) {o : RawDecoded48} → Known (some (with_rb no_operands)) o → Accepts (group7_94 w o)
unfolding group7_94
group7_94-Accepts w k = search (decoding, put_rb5_32_again-Known) depth 60 fits 3000

pub group7_95-Accepts :
    (w : ℕ) {o : RawDecoded48} → Known (some (with_rb no_operands)) o → Accepts (group7_95 w o)
unfolding group7_95
group7_95-Accepts w k = search (decoding, put_rb5_32_again-Known) depth 60 fits 3000
