-- ===== src/Pipeline/Decode/Groups10.antt =====
-- Blocks of `decode_raw_word_48`, from the code of group7, block 41 on; a function for each, the blocks inside it before it.
use hostpimsim_gecon.Base.{◌==◌, if◌then◌else◌, ℕ, bit_and, Option, none}
use hostpimsim_gecon.Pipeline.Kinds.{
  op_or, op_or_s, op_or_u, op_and, op_and_s, op_and_u, op_call, fmt_rri, fmt_rrr, fmt_rrrc,
  fmt_rrrci, fmt_zri, fmt_zrr, fmt_zrrc, fmt_zrrci,
}
use hostpimsim_gecon.Pipeline.Decode.Raw.{RawDecoded48, accept, accept_hot}
use hostpimsim_gecon.Pipeline.Decode.Fields.{
  bits, put_ra5_34, put_pc, put_cc4_24, put_off24_0, put_dc5_40, put_rc5_39, put_rb5_32, put_cc5_29,
  put_off28_44,
}
use hostpimsim_gecon.Pipeline.Decode.Choices.{
  writes_register_of_44, writes_zero_extended_of_44, writes_sign_extended_of_44, sets_by_cc4,
  branches_by_cc4, lacks_cc_of_29, branches_by_cc_of_29,
}
use hostpimsim_gecon.Pipeline.Decode.Groups6.{group7_3, group7_4, group7_5, group7_6}
use hostpimsim_gecon.Pipeline.Decode.Groups8.{group7_14}
use hostpimsim_gecon.Pipeline.Decode.Groups9.{
  group7_22, group7_25, group7_28, group7_31, group7_34, group7_37, group7_40,
}

unfoldable pub group7_41 : ℕ → RawDecoded48 → Option RawDecoded48
group7_41 w o =
    let o1 = put_ra5_34 w o in
    if bit_and (bits w 20 0xf) 0xc == 0x0
    then (if writes_zero_extended_of_44 w
        then (let o3 = put_dc5_40 w o1 in
            if bits w 24 0xf == 0x0
            then accept o3
            else if sets_by_cc4 w
            then accept (put_cc4_24 w o3)
            else if branches_by_cc4 w
            then accept (put_pc w (put_cc4_24 w o3))
            else none)
        else if writes_sign_extended_of_44 w
        then (let o3 = put_dc5_40 w o1 in
            if bits w 24 0xf == 0x0
            then accept o3
            else if sets_by_cc4 w
            then accept (put_cc4_24 w o3)
            else if branches_by_cc4 w
            then accept (put_pc w (put_cc4_24 w o3))
            else none)
        else if writes_register_of_44 w
        then (let o3 = put_rc5_39 w o1 in
            if bits w 24 0xf == 0x0
            then accept o3
            else if sets_by_cc4 w
            then accept (put_cc4_24 w o3)
            else if branches_by_cc4 w
            then accept (put_pc w (put_cc4_24 w o3))
            else none)
        else if bits w 42 0x3 == 0x3
        then (if bits w 24 0xf == 0x0
            then accept o1
            else if sets_by_cc4 w
            then accept (put_cc4_24 w o1)
            else if branches_by_cc4 w
            then accept (put_pc w (put_cc4_24 w o1))
            else none)
        else none)
    else none

unfoldable pub group7_42 : ℕ → RawDecoded48 → Option RawDecoded48
group7_42 w o = group7_4 w o

unfoldable pub group7_43 : ℕ → RawDecoded48 → Option RawDecoded48
group7_43 w o = group7_5 w o

unfoldable pub group7_44 : ℕ → RawDecoded48 → Option RawDecoded48
group7_44 w o = group7_6 w o

unfoldable pub group7_45 : ℕ → RawDecoded48 → Option RawDecoded48
group7_45 w o =
    if bit_and (bits w 28 0xf) 0xf == 0xa
    then group7_3 w o
    else if bit_and (bits w 28 0xf) 0xf == 0xc
    then group7_6 w o
    else if bit_and (bits w 28 0xf) 0xc == 0x4
    then group7_14 w o
    else if bit_and (bits w 28 0xf) 0xf == 0x0
    then (if writes_register_of_44 w
        then (let o3 = put_ra5_34 w (put_rc5_39 w o) in
            if bits w 24 0xf == 0x0 then accept_hot op_call fmt_rri (put_off24_0 w o3) else none)
        else if bits w 42 0x3 == 0x3
        then (let o3 = put_ra5_34 w o in
            if bits w 24 0xf == 0x0 then accept_hot op_call fmt_zri (put_off28_44 w o3) else none)
        else none)
    else if bit_and (bits w 28 0xf) 0xf == 0x3
    then group7_22 w o
    else if bit_and (bits w 28 0xf) 0xf == 0x1
    then group7_25 w o
    else if bit_and (bits w 28 0xf) 0xf == 0xf
    then group7_28 w o
    else if bit_and (bits w 28 0xf) 0xf == 0xe
    then group7_31 w o
    else if bit_and (bits w 28 0xf) 0xf == 0x9
    then group7_34 w o
    else if bit_and (bits w 28 0xf) 0xf == 0xb
    then group7_37 w o
    else if bit_and (bits w 28 0xf) 0xf == 0xd
    then group7_40 w o
    else if bit_and (bits w 28 0xf) 0xf == 0x2
    then group7_41 w o
    else if bit_and (bits w 28 0xf) 0xf == 0x8
    then group7_44 w o
    else none

unfoldable pub group7_46 : ℕ → RawDecoded48 → Option RawDecoded48
group7_46 w o =
    let o1 = put_ra5_34 w (put_dc5_40 w o) in
    if bits w 24 0xf == 0x0
    then accept_hot op_and_s fmt_rrr o1
    else if sets_by_cc4 w
    then accept_hot op_and_s fmt_rrrc (put_cc4_24 w o1)
    else if branches_by_cc4 w
    then accept_hot op_and_s fmt_rrrci (put_pc w (put_cc4_24 w o1))
    else none

unfoldable pub group7_47 : ℕ → RawDecoded48 → Option RawDecoded48
group7_47 w o =
    if writes_zero_extended_of_44 w
    then group7_46 w o
    else if writes_sign_extended_of_44 w
    then (let o2 = put_ra5_34 w (put_dc5_40 w o) in
        if bits w 24 0xf == 0x0
        then accept_hot op_and_u fmt_rrr o2
        else if sets_by_cc4 w
        then accept_hot op_and_u fmt_rrrc (put_cc4_24 w o2)
        else if branches_by_cc4 w
        then accept_hot op_and_u fmt_rrrci (put_pc w (put_cc4_24 w o2))
        else none)
    else if writes_register_of_44 w
    then (let o2 = put_ra5_34 w (put_rc5_39 w o) in
        if bits w 24 0xf == 0x0
        then accept_hot op_and fmt_rrr o2
        else if sets_by_cc4 w
        then accept_hot op_and fmt_rrrc (put_cc4_24 w o2)
        else if branches_by_cc4 w
        then accept_hot op_and fmt_rrrci (put_pc w (put_cc4_24 w o2))
        else none)
    else if bits w 42 0x3 == 0x3
    then (let o2 = put_ra5_34 w o in
        if bits w 24 0xf == 0x0
        then accept_hot op_and fmt_zrr o2
        else if sets_by_cc4 w
        then accept_hot op_and fmt_zrrc (put_cc4_24 w o2)
        else if branches_by_cc4 w
        then accept_hot op_and fmt_zrrci (put_pc w (put_cc4_24 w o2))
        else none)
    else none

unfoldable pub group7_48 : ℕ → RawDecoded48 → Option RawDecoded48
group7_48 w o =
    if writes_zero_extended_of_44 w
    then (let o2 = put_ra5_34 w (put_dc5_40 w o) in
        if bits w 24 0xf == 0x0
        then accept o2
        else if sets_by_cc4 w
        then accept (put_cc4_24 w o2)
        else if branches_by_cc4 w
        then accept (put_pc w (put_cc4_24 w o2))
        else none)
    else if writes_sign_extended_of_44 w
    then (let o2 = put_ra5_34 w (put_dc5_40 w o) in
        if bits w 24 0xf == 0x0
        then accept o2
        else if sets_by_cc4 w
        then accept (put_cc4_24 w o2)
        else if branches_by_cc4 w
        then accept (put_pc w (put_cc4_24 w o2))
        else none)
    else if writes_register_of_44 w
    then (let o2 = put_ra5_34 w (put_rc5_39 w o) in
        if bits w 24 0xf == 0x0
        then accept o2
        else if sets_by_cc4 w
        then accept (put_cc4_24 w o2)
        else if branches_by_cc4 w
        then accept (put_pc w (put_cc4_24 w o2))
        else none)
    else if bits w 42 0x3 == 0x3
    then (let o2 = put_ra5_34 w o in
        if bits w 24 0xf == 0x0
        then accept o2
        else if sets_by_cc4 w
        then accept (put_cc4_24 w o2)
        else if branches_by_cc4 w
        then accept (put_pc w (put_cc4_24 w o2))
        else none)
    else none

unfoldable pub group7_49 : ℕ → RawDecoded48 → Option RawDecoded48
group7_49 w o = group7_48 w o

unfoldable pub group7_50 : ℕ → RawDecoded48 → Option RawDecoded48
group7_50 w o = group7_48 w o

unfoldable pub group7_51 : ℕ → RawDecoded48 → Option RawDecoded48
group7_51 w o = group7_48 w o

unfoldable pub group7_52 : ℕ → RawDecoded48 → Option RawDecoded48
group7_52 w o = group7_48 w o

unfoldable pub group7_53 : ℕ → RawDecoded48 → Option RawDecoded48
group7_53 w o =
    let o1 = put_ra5_34 w (put_dc5_40 w o) in
    if bits w 24 0xf == 0x0
    then accept_hot op_or_s fmt_rrr o1
    else if sets_by_cc4 w
    then accept_hot op_or_s fmt_rrrc (put_cc4_24 w o1)
    else if branches_by_cc4 w
    then accept_hot op_or_s fmt_rrrci (put_pc w (put_cc4_24 w o1))
    else none

unfoldable pub group7_54 : ℕ → RawDecoded48 → Option RawDecoded48
group7_54 w o =
    let o1 = put_rb5_32 w o in
    if writes_zero_extended_of_44 w
    then group7_53 w o1
    else if writes_sign_extended_of_44 w
    then (let o2 = put_ra5_34 w (put_dc5_40 w o1) in
        if bits w 24 0xf == 0x0
        then accept_hot op_or_u fmt_rrr o2
        else if sets_by_cc4 w
        then accept_hot op_or_u fmt_rrrc (put_cc4_24 w o2)
        else if branches_by_cc4 w
        then accept_hot op_or_u fmt_rrrci (put_pc w (put_cc4_24 w o2))
        else none)
    else if writes_register_of_44 w
    then (let o2 = put_ra5_34 w (put_rc5_39 w o1) in
        if bits w 24 0xf == 0x0
        then accept_hot op_or fmt_rrr o2
        else if sets_by_cc4 w
        then accept_hot op_or fmt_rrrc (put_cc4_24 w o2)
        else if branches_by_cc4 w
        then accept_hot op_or fmt_rrrci (put_pc w (put_cc4_24 w o2))
        else none)
    else if bits w 42 0x3 == 0x3
    then (let o2 = put_ra5_34 w o1 in
        if bits w 24 0xf == 0x0
        then accept_hot op_or fmt_zrr o2
        else if sets_by_cc4 w
        then accept_hot op_or fmt_zrrc (put_cc4_24 w o2)
        else if branches_by_cc4 w
        then accept_hot op_or fmt_zrrci (put_pc w (put_cc4_24 w o2))
        else none)
    else none

unfoldable pub group7_55 : ℕ → RawDecoded48 → Option RawDecoded48
group7_55 w o = group7_48 w o

unfoldable pub group7_56 : ℕ → RawDecoded48 → Option RawDecoded48
group7_56 w o = group7_48 w o

unfoldable pub group7_57 : ℕ → RawDecoded48 → Option RawDecoded48
group7_57 w o =
    if lacks_cc_of_29 w
    then accept o
    else if sets_by_cc4 w
    then accept (put_cc4_24 w o)
    else if branches_by_cc_of_29 w
    then accept (put_pc w (put_cc5_29 w o))
    else none
