-- ===== src/Pipeline/Decode/Groups12.antt =====
-- Blocks of `decode_raw_word_48`, from the code of group7, block 83 on; a function for each, the blocks inside it before it.
use hostpimsim_gecon.Base.{◌==◌, if◌then◌else◌, ℕ, bit_and, Option, none}
use hostpimsim_gecon.Pipeline.Kinds.{
  op_lsl, op_lslx, op_lsr, op_lsrx, op_lsl_add, op_lsl_add_s, op_lsl_add_u, op_lsl_sub,
  op_lsl_sub_s, op_lsl_sub_u, fmt_rrri, fmt_rrrici, fmt_zrr, fmt_zrrc, fmt_zrrci, fmt_zrri,
  fmt_zrrici,
}
use hostpimsim_gecon.Pipeline.Decode.Raw.{RawDecoded48, accept, accept_hot}
use hostpimsim_gecon.Pipeline.Decode.Fields.{
  bits, put_ra5_34, put_pc, put_cc4_24, put_dc5_40, put_rc5_39, put_rb5_32, put_shift, put_cc5_29,
}
use hostpimsim_gecon.Pipeline.Decode.Choices.{
  writes_register_of_44, writes_zero_extended_of_44, branches_by_short_cc4,
  writes_sign_extended_of_44, sets_by_cc4, lacks_cc_of_29, branches_by_cc_of_29,
}
use hostpimsim_gecon.Pipeline.Decode.Groups10.{group7_48}
use hostpimsim_gecon.Pipeline.Decode.Groups11.{
  group7_65, group7_74, group7_75, group7_76, group7_77, group7_78, group7_79, group7_80, group7_81,
  group7_82,
}

unfoldable pub group7_83 : ℕ → RawDecoded48 → Option RawDecoded48
group7_83 w o =
    let o1 = put_ra5_34 w (put_rc5_39 w o) in
    if bit_and (bits w 20 0xf) 0xf == 0x8
    then group7_75 w o1
    else if bit_and (bits w 20 0xf) 0xf == 0x6
    then group7_76 w o1
    else if bit_and (bits w 20 0xf) 0xf == 0x7
    then group7_77 w o1
    else if bit_and (bits w 20 0xf) 0xf == 0x4
    then group7_78 w o1
    else if bit_and (bits w 20 0xf) 0xf == 0x5
    then group7_79 w o1
    else if bit_and (bits w 20 0xf) 0xf == 0xe
    then group7_80 w o1
    else if bit_and (bits w 20 0xf) 0xf == 0xf
    then (if lacks_cc_of_29 w
        then accept o1
        else if sets_by_cc4 w
        then accept (put_cc4_24 w o1)
        else if branches_by_cc_of_29 w
        then accept (put_pc w (put_cc5_29 w o1))
        else none)
    else if bit_and (bits w 20 0xf) 0xf == 0xc
    then group7_81 w o1
    else if bit_and (bits w 20 0xf) 0xf == 0xd
    then group7_82 w o1
    else if bit_and (bits w 20 0xf) 0xf == 0x2
    then (if lacks_cc_of_29 w
        then accept o1
        else if sets_by_cc4 w
        then accept (put_cc4_24 w o1)
        else if branches_by_cc_of_29 w
        then accept (put_pc w (put_cc5_29 w o1))
        else none)
    else if bit_and (bits w 20 0xf) 0xf == 0xa
    then (if lacks_cc_of_29 w
        then accept o1
        else if sets_by_cc4 w
        then accept (put_cc4_24 w o1)
        else if branches_by_cc_of_29 w
        then accept (put_pc w (put_cc5_29 w o1))
        else none)
    else none

unfoldable pub group7_84 : ℕ → RawDecoded48 → Option RawDecoded48
group7_84 w o =
    if lacks_cc_of_29 w
    then accept o
    else if sets_by_cc4 w
    then accept (put_cc4_24 w o)
    else if branches_by_cc_of_29 w
    then accept (put_pc w (put_cc5_29 w o))
    else none

unfoldable pub group7_85 : ℕ → RawDecoded48 → Option RawDecoded48
group7_85 w o = group7_84 w o

unfoldable pub group7_86 : ℕ → RawDecoded48 → Option RawDecoded48
group7_86 w o = group7_84 w o

unfoldable pub group7_87 : ℕ → RawDecoded48 → Option RawDecoded48
group7_87 w o =
    if lacks_cc_of_29 w
    then accept_hot op_lsl fmt_zrr o
    else if sets_by_cc4 w
    then accept_hot op_lsl fmt_zrrc (put_cc4_24 w o)
    else if branches_by_cc_of_29 w
    then accept_hot op_lsl fmt_zrrci (put_pc w (put_cc5_29 w o))
    else none

unfoldable pub group7_88 : ℕ → RawDecoded48 → Option RawDecoded48
group7_88 w o =
    if lacks_cc_of_29 w
    then accept_hot op_lslx fmt_zrr o
    else if sets_by_cc4 w
    then accept_hot op_lslx fmt_zrrc (put_cc4_24 w o)
    else if branches_by_cc_of_29 w
    then accept_hot op_lslx fmt_zrrci (put_pc w (put_cc5_29 w o))
    else none

unfoldable pub group7_89 : ℕ → RawDecoded48 → Option RawDecoded48
group7_89 w o = group7_84 w o

unfoldable pub group7_90 : ℕ → RawDecoded48 → Option RawDecoded48
group7_90 w o =
    if lacks_cc_of_29 w
    then accept_hot op_lsr fmt_zrr o
    else if sets_by_cc4 w
    then accept_hot op_lsr fmt_zrrc (put_cc4_24 w o)
    else if branches_by_cc_of_29 w
    then accept_hot op_lsr fmt_zrrci (put_pc w (put_cc5_29 w o))
    else none

unfoldable pub group7_91 : ℕ → RawDecoded48 → Option RawDecoded48
group7_91 w o =
    if lacks_cc_of_29 w
    then accept_hot op_lsrx fmt_zrr o
    else if sets_by_cc4 w
    then accept_hot op_lsrx fmt_zrrc (put_cc4_24 w o)
    else if branches_by_cc_of_29 w
    then accept_hot op_lsrx fmt_zrrci (put_pc w (put_cc5_29 w o))
    else none

unfoldable pub group7_92 : ℕ → RawDecoded48 → Option RawDecoded48
group7_92 w o =
    if writes_zero_extended_of_44 w
    then group7_65 w o
    else if writes_sign_extended_of_44 w
    then group7_74 w o
    else if writes_register_of_44 w
    then group7_83 w o
    else if bits w 42 0x3 == 0x3
    then (let o2 = put_ra5_34 w o in
        if bit_and (bits w 20 0xf) 0xf == 0x8
        then group7_84 w o2
        else if bit_and (bits w 20 0xf) 0xf == 0x6
        then group7_85 w o2
        else if bit_and (bits w 20 0xf) 0xf == 0x7
        then group7_86 w o2
        else if bit_and (bits w 20 0xf) 0xf == 0x4
        then group7_87 w o2
        else if bit_and (bits w 20 0xf) 0xf == 0x5
        then group7_88 w o2
        else if bit_and (bits w 20 0xf) 0xf == 0xe
        then group7_89 w o2
        else if bit_and (bits w 20 0xf) 0xf == 0xf
        then (if lacks_cc_of_29 w
            then accept o2
            else if sets_by_cc4 w
            then accept (put_cc4_24 w o2)
            else if branches_by_cc_of_29 w
            then accept (put_pc w (put_cc5_29 w o2))
            else none)
        else if bit_and (bits w 20 0xf) 0xf == 0xc
        then group7_90 w o2
        else if bit_and (bits w 20 0xf) 0xf == 0xd
        then group7_91 w o2
        else if bit_and (bits w 20 0xf) 0xf == 0x2
        then (if lacks_cc_of_29 w
            then accept o2
            else if sets_by_cc4 w
            then accept (put_cc4_24 w o2)
            else if branches_by_cc_of_29 w
            then accept (put_pc w (put_cc5_29 w o2))
            else none)
        else if bit_and (bits w 20 0xf) 0xf == 0xa
        then (if lacks_cc_of_29 w
            then accept o2
            else if sets_by_cc4 w
            then accept (put_cc4_24 w o2)
            else if branches_by_cc_of_29 w
            then accept (put_pc w (put_cc5_29 w o2))
            else none)
        else none)
    else none

unfoldable pub group7_93 : ℕ → RawDecoded48 → Option RawDecoded48
group7_93 w o = group7_48 w o

unfoldable pub group7_94 : ℕ → RawDecoded48 → Option RawDecoded48
group7_94 w o =
    let o1 = put_rb5_32 w o in
    if writes_zero_extended_of_44 w
    then (let o2 = put_ra5_34 w (put_dc5_40 w o1) in
        if bits w 24 0xf == 0x0
        then accept_hot op_lsl_add_s fmt_rrri (put_shift w o2)
        else if branches_by_short_cc4 w
        then accept_hot op_lsl_add_s fmt_rrrici (put_shift w (put_pc w (put_cc4_24 w o2)))
        else none)
    else if writes_sign_extended_of_44 w
    then (let o2 = put_ra5_34 w (put_dc5_40 w o1) in
        if bits w 24 0xf == 0x0
        then accept_hot op_lsl_add_u fmt_rrri (put_shift w o2)
        else if branches_by_short_cc4 w
        then accept_hot op_lsl_add_u fmt_rrrici (put_shift w (put_pc w (put_cc4_24 w o2)))
        else none)
    else if writes_register_of_44 w
    then (let o2 = put_ra5_34 w (put_rc5_39 w o1) in
        if bits w 24 0xf == 0x0
        then accept_hot op_lsl_add fmt_rrri (put_shift w o2)
        else if branches_by_short_cc4 w
        then accept_hot op_lsl_add fmt_rrrici (put_shift w (put_pc w (put_cc4_24 w o2)))
        else none)
    else if bits w 42 0x3 == 0x3
    then (let o2 = put_ra5_34 w o1 in
        if bits w 24 0xf == 0x0
        then accept_hot op_lsl_add fmt_zrri (put_shift w o2)
        else if branches_by_short_cc4 w
        then accept_hot op_lsl_add fmt_zrrici (put_shift w (put_pc w (put_cc4_24 w o2)))
        else none)
    else none

unfoldable pub group7_95 : ℕ → RawDecoded48 → Option RawDecoded48
group7_95 w o =
    let o1 = put_rb5_32 w o in
    if writes_zero_extended_of_44 w
    then (let o2 = put_ra5_34 w (put_dc5_40 w o1) in
        if bits w 24 0xf == 0x0
        then accept_hot op_lsl_sub_s fmt_rrri (put_shift w o2)
        else if branches_by_short_cc4 w
        then accept_hot op_lsl_sub_s fmt_rrrici (put_shift w (put_pc w (put_cc4_24 w o2)))
        else none)
    else if writes_sign_extended_of_44 w
    then (let o2 = put_ra5_34 w (put_dc5_40 w o1) in
        if bits w 24 0xf == 0x0
        then accept_hot op_lsl_sub_u fmt_rrri (put_shift w o2)
        else if branches_by_short_cc4 w
        then accept_hot op_lsl_sub_u fmt_rrrici (put_shift w (put_pc w (put_cc4_24 w o2)))
        else none)
    else if writes_register_of_44 w
    then (let o2 = put_ra5_34 w (put_rc5_39 w o1) in
        if bits w 24 0xf == 0x0
        then accept_hot op_lsl_sub fmt_rrri (put_shift w o2)
        else if branches_by_short_cc4 w
        then accept_hot op_lsl_sub fmt_rrrici (put_shift w (put_pc w (put_cc4_24 w o2)))
        else none)
    else if bits w 42 0x3 == 0x3
    then (let o2 = put_ra5_34 w o1 in
        if bits w 24 0xf == 0x0
        then accept_hot op_lsl_sub fmt_zrri (put_shift w o2)
        else if branches_by_short_cc4 w
        then accept_hot op_lsl_sub fmt_zrrici (put_shift w (put_pc w (put_cc4_24 w o2)))
        else none)
    else none
