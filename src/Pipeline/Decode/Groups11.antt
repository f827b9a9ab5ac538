-- ===== src/Pipeline/Decode/Groups11.antt =====
-- Blocks of `decode_raw_word_48`, from the code of group7, block 58 on; a function for each, the blocks inside it before it.
use hostpimsim_gecon.Base.{◌==◌, if◌then◌else◌, ℕ, bit_and, Option, none}
use hostpimsim_gecon.Pipeline.Kinds.{
  op_lsl, op_lsl_s, op_lsl_u, op_lslx, op_lslx_s, op_lslx_u, op_lsr, op_lsr_s, op_lsr_u, op_lsrx,
  op_lsrx_s, op_lsrx_u, fmt_rrr, fmt_rrrc, fmt_rrrci,
}
use hostpimsim_gecon.Pipeline.Decode.Raw.{RawDecoded48, accept, accept_hot}
use hostpimsim_gecon.Pipeline.Decode.Fields.{
  bits, put_ra5_34, put_pc, put_cc4_24, put_dc5_40, put_cc5_29,
}
use hostpimsim_gecon.Pipeline.Decode.Choices.{sets_by_cc4, lacks_cc_of_29, branches_by_cc_of_29}
use hostpimsim_gecon.Pipeline.Decode.Groups10.{group7_57}

unfoldable pub group7_58 : ℕ → RawDecoded48 → Option RawDecoded48
group7_58 w o =
    if lacks_cc_of_29 w
    then accept_hot op_lsl_s fmt_rrr o
    else if sets_by_cc4 w
    then accept_hot op_lsl_s fmt_rrrc (put_cc4_24 w o)
    else if branches_by_cc_of_29 w
    then accept_hot op_lsl_s fmt_rrrci (put_pc w (put_cc5_29 w o))
    else none

unfoldable pub group7_59 : ℕ → RawDecoded48 → Option RawDecoded48
group7_59 w o = group7_57 w o

unfoldable pub group7_60 : ℕ → RawDecoded48 → Option RawDecoded48
group7_60 w o = group7_57 w o

unfoldable pub group7_61 : ℕ → RawDecoded48 → Option RawDecoded48
group7_61 w o =
    if lacks_cc_of_29 w
    then accept_hot op_lslx_s fmt_rrr o
    else if sets_by_cc4 w
    then accept_hot op_lslx_s fmt_rrrc (put_cc4_24 w o)
    else if branches_by_cc_of_29 w
    then accept_hot op_lslx_s fmt_rrrci (put_pc w (put_cc5_29 w o))
    else none

unfoldable pub group7_62 : ℕ → RawDecoded48 → Option RawDecoded48
group7_62 w o =
    if lacks_cc_of_29 w
    then accept_hot op_lsr_s fmt_rrr o
    else if sets_by_cc4 w
    then accept_hot op_lsr_s fmt_rrrc (put_cc4_24 w o)
    else if branches_by_cc_of_29 w
    then accept_hot op_lsr_s fmt_rrrci (put_pc w (put_cc5_29 w o))
    else none

unfoldable pub group7_63 : ℕ → RawDecoded48 → Option RawDecoded48
group7_63 w o = group7_57 w o

unfoldable pub group7_64 : ℕ → RawDecoded48 → Option RawDecoded48
group7_64 w o =
    if lacks_cc_of_29 w
    then accept_hot op_lsrx_s fmt_rrr o
    else if sets_by_cc4 w
    then accept_hot op_lsrx_s fmt_rrrc (put_cc4_24 w o)
    else if branches_by_cc_of_29 w
    then accept_hot op_lsrx_s fmt_rrrci (put_pc w (put_cc5_29 w o))
    else none

unfoldable pub group7_65 : ℕ → RawDecoded48 → Option RawDecoded48
group7_65 w o =
    let o1 = put_ra5_34 w (put_dc5_40 w o) in
    if bit_and (bits w 20 0xf) 0xf == 0x8
    then group7_57 w o1
    else if bit_and (bits w 20 0xf) 0xf == 0x4
    then group7_58 w o1
    else if bit_and (bits w 20 0xf) 0xf == 0x6
    then group7_59 w o1
    else if bit_and (bits w 20 0xf) 0xf == 0x7
    then group7_60 w o1
    else if bit_and (bits w 20 0xf) 0xf == 0x5
    then group7_61 w o1
    else if bit_and (bits w 20 0xf) 0xf == 0xc
    then group7_62 w o1
    else if bit_and (bits w 20 0xf) 0xf == 0xe
    then group7_63 w o1
    else if bit_and (bits w 20 0xf) 0xf == 0xf
    then (if lacks_cc_of_29 w
        then accept o1
        else if sets_by_cc4 w
        then accept (put_cc4_24 w o1)
        else if branches_by_cc_of_29 w
        then accept (put_pc w (put_cc5_29 w o1))
        else none)
    else if bit_and (bits w 20 0xf) 0xf == 0xd
    then group7_64 w o1
    else if bit_and (bits w 20 0xf) 0xf == 0x2
    then (if lacks_cc_of_29 w
        then accept o1
        else if sets_by_cc4 w
        then accept (put_cc4_24 w o1)
        else if branches_by_cc_of_29 w
        then accept (put_pc w (put_cc5_29 w o1))
        else none)
    else if bit_and (bits w 20 0xf) 0xf == 0xa
    then (if lacks_cc_of_29 w
        then accept o1
        else if sets_by_cc4 w
        then accept (put_cc4_24 w o1)
        else if branches_by_cc_of_29 w
        then accept (put_pc w (put_cc5_29 w o1))
        else none)
    else none

unfoldable pub group7_66 : ℕ → RawDecoded48 → Option RawDecoded48
group7_66 w o = group7_57 w o

unfoldable pub group7_67 : ℕ → RawDecoded48 → Option RawDecoded48
group7_67 w o =
    if lacks_cc_of_29 w
    then accept_hot op_lsl_u fmt_rrr o
    else if sets_by_cc4 w
    then accept_hot op_lsl_u fmt_rrrc (put_cc4_24 w o)
    else if branches_by_cc_of_29 w
    then accept_hot op_lsl_u fmt_rrrci (put_pc w (put_cc5_29 w o))
    else none

unfoldable pub group7_68 : ℕ → RawDecoded48 → Option RawDecoded48
group7_68 w o = group7_57 w o

unfoldable pub group7_69 : ℕ → RawDecoded48 → Option RawDecoded48
group7_69 w o = group7_57 w o

unfoldable pub group7_70 : ℕ → RawDecoded48 → Option RawDecoded48
group7_70 w o =
    if lacks_cc_of_29 w
    then accept_hot op_lslx_u fmt_rrr o
    else if sets_by_cc4 w
    then accept_hot op_lslx_u fmt_rrrc (put_cc4_24 w o)
    else if branches_by_cc_of_29 w
    then accept_hot op_lslx_u fmt_rrrci (put_pc w (put_cc5_29 w o))
    else none

unfoldable pub group7_71 : ℕ → RawDecoded48 → Option RawDecoded48
group7_71 w o =
    if lacks_cc_of_29 w
    then accept_hot op_lsr_u fmt_rrr o
    else if sets_by_cc4 w
    then accept_hot op_lsr_u fmt_rrrc (put_cc4_24 w o)
    else if branches_by_cc_of_29 w
    then accept_hot op_lsr_u fmt_rrrci (put_pc w (put_cc5_29 w o))
    else none

unfoldable pub group7_72 : ℕ → RawDecoded48 → Option RawDecoded48
group7_72 w o = group7_57 w o

unfoldable pub group7_73 : ℕ → RawDecoded48 → Option RawDecoded48
group7_73 w o =
    if lacks_cc_of_29 w
    then accept_hot op_lsrx_u fmt_rrr o
    else if sets_by_cc4 w
    then accept_hot op_lsrx_u fmt_rrrc (put_cc4_24 w o)
    else if branches_by_cc_of_29 w
    then accept_hot op_lsrx_u fmt_rrrci (put_pc w (put_cc5_29 w o))
    else none

unfoldable pub group7_74 : ℕ → RawDecoded48 → Option RawDecoded48
group7_74 w o =
    let o1 = put_ra5_34 w (put_dc5_40 w o) in
    if bit_and (bits w 20 0xf) 0xf == 0x8
    then group7_66 w o1
    else if bit_and (bits w 20 0xf) 0xf == 0x4
    then group7_67 w o1
    else if bit_and (bits w 20 0xf) 0xf == 0x6
    then group7_68 w o1
    else if bit_and (bits w 20 0xf) 0xf == 0x7
    then group7_69 w o1
    else if bit_and (bits w 20 0xf) 0xf == 0x5
    then group7_70 w o1
    else if bit_and (bits w 20 0xf) 0xf == 0xc
    then group7_71 w o1
    else if bit_and (bits w 20 0xf) 0xf == 0xe
    then group7_72 w o1
    else if bit_and (bits w 20 0xf) 0xf == 0xf
    then (if lacks_cc_of_29 w
        then accept o1
        else if sets_by_cc4 w
        then accept (put_cc4_24 w o1)
        else if branches_by_cc_of_29 w
        then accept (put_pc w (put_cc5_29 w o1))
        else none)
    else if bit_and (bits w 20 0xf) 0xf == 0xd
    then group7_73 w o1
    else if bit_and (bits w 20 0xf) 0xf == 0x2
    then (if lacks_cc_of_29 w
        then accept o1
        else if sets_by_cc4 w
        then accept (put_cc4_24 w o1)
        else if branches_by_cc_of_29 w
        then accept (put_pc w (put_cc5_29 w o1))
        else none)
    else if bit_and (bits w 20 0xf) 0xf == 0xa
    then (if lacks_cc_of_29 w
        then accept o1
        else if sets_by_cc4 w
        then accept (put_cc4_24 w o1)
        else if branches_by_cc_of_29 w
        then accept (put_pc w (put_cc5_29 w o1))
        else none)
    else none

unfoldable pub group7_75 : ℕ → RawDecoded48 → Option RawDecoded48
group7_75 w o =
    if lacks_cc_of_29 w
    then accept o
    else if sets_by_cc4 w
    then accept (put_cc4_24 w o)
    else if branches_by_cc_of_29 w
    then accept (put_pc w (put_cc5_29 w o))
    else none

unfoldable pub group7_76 : ℕ → RawDecoded48 → Option RawDecoded48
group7_76 w o = group7_75 w o

unfoldable pub group7_77 : ℕ → RawDecoded48 → Option RawDecoded48
group7_77 w o = group7_75 w o

unfoldable pub group7_78 : ℕ → RawDecoded48 → Option RawDecoded48
group7_78 w o =
    if lacks_cc_of_29 w
    then accept_hot op_lsl fmt_rrr o
    else if sets_by_cc4 w
    then accept_hot op_lsl fmt_rrrc (put_cc4_24 w o)
    else if branches_by_cc_of_29 w
    then accept_hot op_lsl fmt_rrrci (put_pc w (put_cc5_29 w o))
    else none

unfoldable pub group7_79 : ℕ → RawDecoded48 → Option RawDecoded48
group7_79 w o =
    if lacks_cc_of_29 w
    then accept_hot op_lslx fmt_rrr o
    else if sets_by_cc4 w
    then accept_hot op_lslx fmt_rrrc (put_cc4_24 w o)
    else if branches_by_cc_of_29 w
    then accept_hot op_lslx fmt_rrrci (put_pc w (put_cc5_29 w o))
    else none

unfoldable pub group7_80 : ℕ → RawDecoded48 → Option RawDecoded48
group7_80 w o = group7_75 w o

unfoldable pub group7_81 : ℕ → RawDecoded48 → Option RawDecoded48
group7_81 w o =
    if lacks_cc_of_29 w
    then accept_hot op_lsr fmt_rrr o
    else if sets_by_cc4 w
    then accept_hot op_lsr fmt_rrrc (put_cc4_24 w o)
    else if branches_by_cc_of_29 w
    then accept_hot op_lsr fmt_rrrci (put_pc w (put_cc5_29 w o))
    else none

unfoldable pub group7_82 : ℕ → RawDecoded48 → Option RawDecoded48
group7_82 w o =
    if lacks_cc_of_29 w
    then accept_hot op_lsrx fmt_rrr o
    else if sets_by_cc4 w
    then accept_hot op_lsrx fmt_rrrc (put_cc4_24 w o)
    else if branches_by_cc_of_29 w
    then accept_hot op_lsrx fmt_rrrci (put_pc w (put_cc5_29 w o))
    else none
