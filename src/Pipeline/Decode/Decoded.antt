-- ===== src/Pipeline/Decode/Decoded.antt =====
-- What `decode_raw_word_48` accepts.
use hostpimsim_gecon.Base.{◌≡◌, ℕ, Option, some, subst}
use hostpimsim_gecon.Pipeline.Decode.Raw.{RawDecoded48}
use hostpimsim_gecon.Pipeline.Decode.Known.{raw_decoded-Known}
use hostpimsim_gecon.Pipeline.Decode.Accepts.{Accepts, accepted, refused, decoding, IsDecoded}
use hostpimsim_gecon.Pipeline.Decode.Word.{decode_raw_word_48}
use hostpimsim_gecon.Pipeline.Decode.Blocks2.{group1-Accepts, group2-Accepts}
use hostpimsim_gecon.Pipeline.Decode.Blocks5.{group3-Accepts}
use hostpimsim_gecon.Pipeline.Decode.Blocks6.{group4-Accepts, group5-Accepts, group6-Accepts}
use hostpimsim_gecon.Pipeline.Decode.Blocks13.{group7-Accepts}

decode_raw_word_48-Accepts : (w : ℕ) → Accepts (decode_raw_word_48 w)
unfolding decode_raw_word_48
decode_raw_word_48-Accepts w =
    search
      (
        decoding, raw_decoded-Known, group1-Accepts, group2-Accepts, group3-Accepts, group4-Accepts,
        group5-Accepts, group6-Accepts, group7-Accepts,
      )
      depth 60 fits 3000

accepted_some : {r : Option RawDecoded48} {o : RawDecoded48} → Accepts r → r ≡ some o → IsDecoded o
accepted_some refused e = cc
accepted_some (accepted d) e = subst IsDecoded (cc) d

-- A word that is accepted is valid, each of its fields is in its range, and a word with an operation has just the
-- fields that the operation has in its format.
pub decode_raw_word_48-IsDecoded :
    (w : ℕ) (o : RawDecoded48) → decode_raw_word_48 w ≡ some o → IsDecoded o
decode_raw_word_48-IsDecoded w o e = accepted_some (decode_raw_word_48-Accepts w) e
