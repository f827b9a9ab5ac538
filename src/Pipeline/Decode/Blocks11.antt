-- ===== src/Pipeline/Decode/Blocks11.antt =====
-- The blocks of `decode_raw_word_48` accept decoded words only, part 11.
use hostpimsim_gecon.Base.{ℕ, some}
use hostpimsim_gecon.Pipeline.Decode.Raw.{RawDecoded48}
use hostpimsim_gecon.Pipeline.Decode.Shape.{no_operands, with_ra, with_rb, with_rc, with_dc}
use hostpimsim_gecon.Pipeline.Decode.Known.{Known}
use hostpimsim_gecon.Pipeline.Decode.Accepts.{Accepts, decoding}
use hostpimsim_gecon.Pipeline.Decode.Blocks10.{group7_57-Accepts}
use hostpimsim_gecon.Pipeline.Decode.Groups11.{
  group7_58, group7_59, group7_60, group7_61, group7_62, group7_63, group7_64, group7_65, group7_66,
  group7_67, group7_68, group7_69, group7_70, group7_71, group7_72, group7_73, group7_74, group7_75,
  group7_76, group7_77, group7_78, group7_79, group7_80, group7_81, group7_82,
}

pub group7_58-Accepts :
    (w : ℕ) {o : RawDecoded48}
    → Known (some (with_dc (with_rb (with_ra no_operands)))) o
    → Accepts (group7_58 w o)
unfolding group7_58
group7_58-Accepts w k = search (decoding) depth 60 fits 3000

pub group7_59-Accepts :
    (w : ℕ) {o : RawDecoded48}
    → Known (some (with_dc (with_rb (with_ra no_operands)))) o
    → Accepts (group7_59 w o)
unfolding group7_59
group7_59-Accepts w k = group7_57-Accepts w k

pub group7_60-Accepts :
    (w : ℕ) {o : RawDecoded48}
    → Known (some (with_dc (with_rb (with_ra no_operands)))) o
    → Accepts (group7_60 w o)
unfolding group7_60
group7_60-Accepts w k = group7_57-Accepts w k

pub group7_61-Accepts :
    (w : ℕ) {o : RawDecoded48}
    → Known (some (with_dc (with_rb (with_ra no_operands)))) o
    → Accepts (group7_61 w o)
unfolding group7_61
group7_61-Accepts w k = search (decoding) depth 60 fits 3000

pub group7_62-Accepts :
    (w : ℕ) {o : RawDecoded48}
    → Known (some (with_dc (with_rb (with_ra no_operands)))) o
    → Accepts (group7_62 w o)
unfolding group7_62
group7_62-Accepts w k = search (decoding) depth 60 fits 3000

pub group7_63-Accepts :
    (w : ℕ) {o : RawDecoded48}
    → Known (some (with_dc (with_rb (with_ra no_operands)))) o
    → Accepts (group7_63 w o)
unfolding group7_63
group7_63-Accepts w k = group7_57-Accepts w k

pub group7_64-Accepts :
    (w : ℕ) {o : RawDecoded48}
    → Known (some (with_dc (with_rb (with_ra no_operands)))) o
    → Accepts (group7_64 w o)
unfolding group7_64
group7_64-Accepts w k = search (decoding) depth 60 fits 3000

pub group7_65-Accepts :
    (w : ℕ) {o : RawDecoded48} → Known (some (with_rb no_operands)) o → Accepts (group7_65 w o)
unfolding group7_65
group7_65-Accepts w k =
    search
      (
        decoding, group7_57-Accepts, group7_58-Accepts, group7_59-Accepts, group7_60-Accepts,
        group7_61-Accepts, group7_62-Accepts, group7_63-Accepts, group7_64-Accepts,
      )
      depth 60 fits 3000

pub group7_66-Accepts :
    (w : ℕ) {o : RawDecoded48}
    → Known (some (with_dc (with_rb (with_ra no_operands)))) o
    → Accepts (group7_66 w o)
unfolding group7_66
group7_66-Accepts w k = group7_57-Accepts w k

pub group7_67-Accepts :
    (w : ℕ) {o : RawDecoded48}
    → Known (some (with_dc (with_rb (with_ra no_operands)))) o
    → Accepts (group7_67 w o)
unfolding group7_67
group7_67-Accepts w k = search (decoding) depth 60 fits 3000

pub group7_68-Accepts :
    (w : ℕ) {o : RawDecoded48}
    → Known (some (with_dc (with_rb (with_ra no_operands)))) o
    → Accepts (group7_68 w o)
unfolding group7_68
group7_68-Accepts w k = group7_57-Accepts w k

pub group7_69-Accepts :
    (w : ℕ) {o : RawDecoded48}
    → Known (some (with_dc (with_rb (with_ra no_operands)))) o
    → Accepts (group7_69 w o)
unfolding group7_69
group7_69-Accepts w k = group7_57-Accepts w k

pub group7_70-Accepts :
    (w : ℕ) {o : RawDecoded48}
    → Known (some (with_dc (with_rb (with_ra no_operands)))) o
    → Accepts (group7_70 w o)
unfolding group7_70
group7_70-Accepts w k = search (decoding) depth 60 fits 3000

pub group7_71-Accepts :
    (w : ℕ) {o : RawDecoded48}
    → Known (some (with_dc (with_rb (with_ra no_operands)))) o
    → Accepts (group7_71 w o)
unfolding group7_71
group7_71-Accepts w k = search (decoding) depth 60 fits 3000

pub group7_72-Accepts :
    (w : ℕ) {o : RawDecoded48}
    → Known (some (with_dc (with_rb (with_ra no_operands)))) o
    → Accepts (group7_72 w o)
unfolding group7_72
group7_72-Accepts w k = group7_57-Accepts w k

pub group7_73-Accepts :
    (w : ℕ) {o : RawDecoded48}
    → Known (some (with_dc (with_rb (with_ra no_operands)))) o
    → Accepts (group7_73 w o)
unfolding group7_73
group7_73-Accepts w k = search (decoding) depth 60 fits 3000

pub group7_74-Accepts :
    (w : ℕ) {o : RawDecoded48} → Known (some (with_rb no_operands)) o → Accepts (group7_74 w o)
unfolding group7_74
group7_74-Accepts w k =
    search
      (
        decoding, group7_66-Accepts, group7_67-Accepts, group7_68-Accepts, group7_69-Accepts,
        group7_70-Accepts, group7_71-Accepts, group7_72-Accepts, group7_73-Accepts,
      )
      depth 60 fits 3000

pub group7_75-Accepts :
    (w : ℕ) {o : RawDecoded48}
    → Known (some (with_rc (with_rb (with_ra no_operands)))) o
    → Accepts (group7_75 w o)
unfolding group7_75
group7_75-Accepts w k = search (decoding) depth 60 fits 3000

pub group7_76-Accepts :
    (w : ℕ) {o : RawDecoded48}
    → Known (some (with_rc (with_rb (with_ra no_operands)))) o
    → Accepts (group7_76 w o)
unfolding group7_76
group7_76-Accepts w k = group7_75-Accepts w k

pub group7_77-Accepts :
    (w : ℕ) {o : RawDecoded48}
    → Known (some (with_rc (with_rb (with_ra no_operands)))) o
    → Accepts (group7_77 w o)
unfolding group7_77
group7_77-Accepts w k = group7_75-Accepts w k

pub group7_78-Accepts :
    (w : ℕ) {o : RawDecoded48}
    → Known (some (with_rc (with_rb (with_ra no_operands)))) o
    → Accepts (group7_78 w o)
unfolding group7_78
group7_78-Accepts w k = search (decoding) depth 60 fits 3000

pub group7_79-Accepts :
    (w : ℕ) {o : RawDecoded48}
    → Known (some (with_rc (with_rb (with_ra no_operands)))) o
    → Accepts (group7_79 w o)
unfolding group7_79
group7_79-Accepts w k = search (decoding) depth 60 fits 3000

pub group7_80-Accepts :
    (w : ℕ) {o : RawDecoded48}
    → Known (some (with_rc (with_rb (with_ra no_operands)))) o
    → Accepts (group7_80 w o)
unfolding group7_80
group7_80-Accepts w k = group7_75-Accepts w k

pub group7_81-Accepts :
    (w : ℕ) {o : RawDecoded48}
    → Known (some (with_rc (with_rb (with_ra no_operands)))) o
    → Accepts (group7_81 w o)
unfolding group7_81
group7_81-Accepts w k = search (decoding) depth 60 fits 3000

pub group7_82-Accepts :
    (w : ℕ) {o : RawDecoded48}
    → Known (some (with_rc (with_rb (with_ra no_operands)))) o
    → Accepts (group7_82 w o)
unfolding group7_82
group7_82-Accepts w k = search (decoding) depth 60 fits 3000
