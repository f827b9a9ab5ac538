-- ===== src/Pipeline/Decode/Groups8.antt =====
-- Blocks of `decode_raw_word_48`, from the code of group7, block 12 on; a function for each, the blocks inside it before it.
use hostpimsim_gecon.Base.{◌==◌, ◌!=◌, ◌&&◌, ◌||◌, if◌then◌else◌, ℕ, ltb, bit_and, Option, none}
use hostpimsim_gecon.Pipeline.Kinds.{
  op_lsl, op_lslx, op_lsr, op_lsrx, op_clo, fmt_rr, fmt_rrc, fmt_rrci, fmt_rri, fmt_rric, fmt_zr,
  fmt_zrc, fmt_zrci, fmt_zri, fmt_zric, fmt_zrici,
}
use hostpimsim_gecon.Pipeline.Decode.Raw.{RawDecoded48, accept, accept_hot}
use hostpimsim_gecon.Pipeline.Decode.Fields.{
  bits, put_ra5_34, put_pc, put_cc4_24, put_dc5_40, put_rc5_39, put_shift, put_cc5_29,
}
use hostpimsim_gecon.Pipeline.Decode.Choices.{
  writes_register_of_44, writes_zero_extended_of_44, writes_sign_extended_of_44, sets_by_cc4,
  branches_by_cc4, lacks_cc_of_29,
}
use hostpimsim_gecon.Pipeline.Decode.Groups7.{group7_8, group7_10, group7_11}

unfoldable pub group7_12 : ℕ → RawDecoded48 → Option RawDecoded48
group7_12 w o =
    let o1 = put_ra5_34 w (put_rc5_39 w o) in
    if lacks_cc_of_29 w
    then (let o2 = put_shift w o1 in
        if bit_and (bits w 16 0xf) 0xf == 0x8
        then accept o2
        else if bit_and (bits w 16 0xf) 0xf == 0x6
        then accept o2
        else if bit_and (bits w 16 0xf) 0xf == 0x7
        then accept o2
        else if bit_and (bits w 16 0xf) 0xf == 0x4
        then accept_hot op_lsl fmt_rri o2
        else if bit_and (bits w 16 0xf) 0xf == 0x5
        then accept_hot op_lslx fmt_rri o2
        else if bit_and (bits w 16 0xf) 0xf == 0xe
        then accept o2
        else if bit_and (bits w 16 0xf) 0xf == 0xf
        then accept o2
        else if bit_and (bits w 16 0xf) 0xf == 0xc
        then accept_hot op_lsr fmt_rri o2
        else if bit_and (bits w 16 0xf) 0xf == 0xd
        then accept_hot op_lsrx fmt_rri o2
        else if bit_and (bits w 16 0xf) 0xf == 0x2
        then accept o2
        else if bit_and (bits w 16 0xf) 0xf == 0xa
        then accept o2
        else none)
    else if sets_by_cc4 w
    then (let o2 = put_shift w (put_cc4_24 w o1) in
        if bit_and (bits w 16 0xf) 0xf == 0x8
        then accept o2
        else if bit_and (bits w 16 0xf) 0xf == 0x6
        then accept o2
        else if bit_and (bits w 16 0xf) 0xf == 0x7
        then accept o2
        else if bit_and (bits w 16 0xf) 0xf == 0x4
        then accept_hot op_lsl fmt_rric o2
        else if bit_and (bits w 16 0xf) 0xf == 0x5
        then accept_hot op_lslx fmt_rric o2
        else if bit_and (bits w 16 0xf) 0xf == 0xe
        then accept o2
        else if bit_and (bits w 16 0xf) 0xf == 0xf
        then accept o2
        else if bit_and (bits w 16 0xf) 0xf == 0xc
        then accept_hot op_lsr fmt_rric o2
        else if bit_and (bits w 16 0xf) 0xf == 0xd
        then accept_hot op_lsrx fmt_rric o2
        else if bit_and (bits w 16 0xf) 0xf == 0x2
        then accept o2
        else if bit_and (bits w 16 0xf) 0xf == 0xa
        then accept o2
        else none)
    else if (bits w 29 0x1 == 0x0
            && (ltb (bits w 24 0xf) 0x6
                || ltb 0xb (bits w 24 0xf)
                || bit_and (bits w 24 0xf) 0xe == 0x8)
          || bits w 29 0x1 == 0x1
            && (ltb 0xd (bits w 24 0xf) || bit_and (bits w 24 0xf) 0xe == 0x8))
        && (bits w 29 0x1 != 0x0 || bits w 24 0xf != 0x0)
    then group7_11 w o1
    else none

unfoldable pub group7_13 : ℕ → RawDecoded48 → Option RawDecoded48
group7_13 w o =
    let o1 = put_shift w (put_cc5_29 w o) in
    if bit_and (bits w 16 0xf) 0xf == 0x8
    then accept (put_pc w o1)
    else if bit_and (bits w 16 0xf) 0xf == 0x6
    then accept (put_pc w o1)
    else if bit_and (bits w 16 0xf) 0xf == 0x7
    then accept (put_pc w o1)
    else if bit_and (bits w 16 0xf) 0xf == 0x4
    then accept_hot op_lsl fmt_zrici (put_pc w o1)
    else if bit_and (bits w 16 0xf) 0xf == 0x5
    then accept_hot op_lslx fmt_zrici (put_pc w o1)
    else if bit_and (bits w 16 0xf) 0xf == 0xe
    then accept (put_pc w o1)
    else if bit_and (bits w 16 0xf) 0xf == 0xf
    then accept (put_pc w o1)
    else if bit_and (bits w 16 0xf) 0xf == 0xc
    then accept_hot op_lsr fmt_zrici (put_pc w o1)
    else if bit_and (bits w 16 0xf) 0xf == 0xd
    then accept_hot op_lsrx fmt_zrici (put_pc w o1)
    else if bit_and (bits w 16 0xf) 0xf == 0x2
    then accept (put_pc w o1)
    else if bit_and (bits w 16 0xf) 0xf == 0xa
    then accept (put_pc w o1)
    else none

unfoldable pub group7_14 : ℕ → RawDecoded48 → Option RawDecoded48
group7_14 w o =
    if writes_zero_extended_of_44 w
    then group7_8 w o
    else if writes_sign_extended_of_44 w
    then group7_10 w o
    else if writes_register_of_44 w
    then group7_12 w o
    else if bits w 42 0x3 == 0x3
    then (let o2 = put_ra5_34 w o in
        if lacks_cc_of_29 w
        then (let o3 = put_shift w o2 in
            if bit_and (bits w 16 0xf) 0xf == 0x8
            then accept o3
            else if bit_and (bits w 16 0xf) 0xf == 0x6
            then accept o3
            else if bit_and (bits w 16 0xf) 0xf == 0x7
            then accept o3
            else if bit_and (bits w 16 0xf) 0xf == 0x4
            then accept_hot op_lsl fmt_zri o3
            else if bit_and (bits w 16 0xf) 0xf == 0x5
            then accept_hot op_lslx fmt_zri o3
            else if bit_and (bits w 16 0xf) 0xf == 0xe
            then accept o3
            else if bit_and (bits w 16 0xf) 0xf == 0xf
            then accept o3
            else if bit_and (bits w 16 0xf) 0xf == 0xc
            then accept_hot op_lsr fmt_zri o3
            else if bit_and (bits w 16 0xf) 0xf == 0xd
            then accept_hot op_lsrx fmt_zri o3
            else if bit_and (bits w 16 0xf) 0xf == 0x2
            then accept o3
            else if bit_and (bits w 16 0xf) 0xf == 0xa
            then accept o3
            else none)
        else if sets_by_cc4 w
        then (let o3 = put_shift w (put_cc4_24 w o2) in
            if bit_and (bits w 16 0xf) 0xf == 0x8
            then accept o3
            else if bit_and (bits w 16 0xf) 0xf == 0x6
            then accept o3
            else if bit_and (bits w 16 0xf) 0xf == 0x7
            then accept o3
            else if bit_and (bits w 16 0xf) 0xf == 0x4
            then accept_hot op_lsl fmt_zric o3
            else if bit_and (bits w 16 0xf) 0xf == 0x5
            then accept_hot op_lslx fmt_zric o3
            else if bit_and (bits w 16 0xf) 0xf == 0xe
            then accept o3
            else if bit_and (bits w 16 0xf) 0xf == 0xf
            then accept o3
            else if bit_and (bits w 16 0xf) 0xf == 0xc
            then accept_hot op_lsr fmt_zric o3
            else if bit_and (bits w 16 0xf) 0xf == 0xd
            then accept_hot op_lsrx fmt_zric o3
            else if bit_and (bits w 16 0xf) 0xf == 0x2
            then accept o3
            else if bit_and (bits w 16 0xf) 0xf == 0xa
            then accept o3
            else none)
        else if (bits w 29 0x1 == 0x0
                && (ltb (bits w 24 0xf) 0x6
                    || ltb 0xb (bits w 24 0xf)
                    || bit_and (bits w 24 0xf) 0xe == 0x8)
              || bits w 29 0x1 == 0x1
                && (ltb 0xd (bits w 24 0xf) || bit_and (bits w 24 0xf) 0xe == 0x8))
            && (bits w 29 0x1 != 0x0 || bits w 24 0xf != 0x0)
        then group7_13 w o2
        else none)
    else none

unfoldable pub group7_15 : ℕ → RawDecoded48 → Option RawDecoded48
group7_15 w o =
    if writes_zero_extended_of_44 w
    then (let o2 = put_dc5_40 w o in
        if bits w 24 0xf == 0x0
        then accept o2
        else if sets_by_cc4 w
        then accept (put_cc4_24 w o2)
        else if branches_by_cc4 w
        then accept (put_pc w (put_cc4_24 w o2))
        else none)
    else if writes_sign_extended_of_44 w
    then (let o2 = put_dc5_40 w o in
        if bits w 24 0xf == 0x0
        then accept o2
        else if sets_by_cc4 w
        then accept (put_cc4_24 w o2)
        else if branches_by_cc4 w
        then accept (put_pc w (put_cc4_24 w o2))
        else none)
    else if writes_register_of_44 w
    then (let o2 = put_rc5_39 w o in
        if bits w 24 0xf == 0x0
        then accept o2
        else if sets_by_cc4 w
        then accept (put_cc4_24 w o2)
        else if branches_by_cc4 w
        then accept (put_pc w (put_cc4_24 w o2))
        else none)
    else if bits w 42 0x3 == 0x3
    then (if bits w 24 0xf == 0x0
        then accept o
        else if sets_by_cc4 w
        then accept (put_cc4_24 w o)
        else if branches_by_cc4 w
        then accept (put_pc w (put_cc4_24 w o))
        else none)
    else none

unfoldable pub group7_16 : ℕ → RawDecoded48 → Option RawDecoded48
group7_16 w o =
    if writes_zero_extended_of_44 w
    then (let o2 = put_dc5_40 w o in
        if bits w 24 0xf == 0x0
        then accept o2
        else if sets_by_cc4 w
        then accept (put_cc4_24 w o2)
        else if branches_by_cc4 w
        then accept (put_pc w (put_cc4_24 w o2))
        else none)
    else if writes_sign_extended_of_44 w
    then (let o2 = put_dc5_40 w o in
        if bits w 24 0xf == 0x0
        then accept o2
        else if sets_by_cc4 w
        then accept (put_cc4_24 w o2)
        else if branches_by_cc4 w
        then accept (put_pc w (put_cc4_24 w o2))
        else none)
    else if writes_register_of_44 w
    then (let o2 = put_rc5_39 w o in
        if bits w 24 0xf == 0x0
        then accept_hot op_clo fmt_rr o2
        else if sets_by_cc4 w
        then accept_hot op_clo fmt_rrc (put_cc4_24 w o2)
        else if branches_by_cc4 w
        then accept_hot op_clo fmt_rrci (put_pc w (put_cc4_24 w o2))
        else none)
    else if bits w 42 0x3 == 0x3
    then (if bits w 24 0xf == 0x0
        then accept_hot op_clo fmt_zr o
        else if sets_by_cc4 w
        then accept_hot op_clo fmt_zrc (put_cc4_24 w o)
        else if branches_by_cc4 w
        then accept_hot op_clo fmt_zrci (put_pc w (put_cc4_24 w o))
        else none)
    else none

unfoldable pub group7_17 : ℕ → RawDecoded48 → Option RawDecoded48
group7_17 w o = group7_15 w o
