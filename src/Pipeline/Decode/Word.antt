-- ===== src/Pipeline/Decode/Word.antt =====
-- `decode_raw_word_48` of contrib/hostpimsim-upmem/dpu/pipeline.cc, over the functions of its blocks.
use hostpimsim_gecon.Base.{◌==◌, ◌!=◌, ◌&&◌, if◌then◌else◌, ℕ, Option, none}
use hostpimsim_gecon.Pipeline.Decode.Raw.{RawDecoded48, raw_decoded}
use hostpimsim_gecon.Pipeline.Decode.Fields.{bits}
use hostpimsim_gecon.Pipeline.Decode.Groups2.{group1, group2}
use hostpimsim_gecon.Pipeline.Decode.Groups5.{group3}
use hostpimsim_gecon.Pipeline.Decode.Groups6.{group4, group5, group6}
use hostpimsim_gecon.Pipeline.Decode.Groups13.{group7}

-- `none` for a word that is refused: what `out` then holds is not read.
unfoldable pub decode_raw_word_48 : ℕ → Option RawDecoded48
decode_raw_word_48 w =
    if bits w 44 0xf == 0x7
    then group1 w raw_decoded
    else if bits w 45 0x7 == 0x0 && bits w 42 0x3 != 0x3
    then group2 w raw_decoded
    else if (bits w 47 0x1 == 0x0 && bits w 44 0x7 != 0x7) && bits w 42 0x3 == 0x3
    then group3 w raw_decoded
    else if bits w 44 0xf == 0x6 && bits w 42 0x3 != 0x3
    then group4 w raw_decoded
    else if bits w 45 0x7 == 0x2 && bits w 42 0x3 != 0x3
    then group5 w raw_decoded
    else if bits w 45 0x7 == 0x1 && bits w 42 0x3 != 0x3
    then group6 w raw_decoded
    else if bits w 45 0x7 == 0x4
    then group7 w raw_decoded
    else none
