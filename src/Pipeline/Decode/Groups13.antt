-- ===== src/Pipeline/Decode/Groups13.antt =====
-- Blocks of `decode_raw_word_48`, from the code of group7, block 96 on; a function for each, the blocks inside it before it.
use hostpimsim_gecon.Base.{◌==◌, ◌!=◌, ◌&&◌, ◌||◌, if◌then◌else◌, ℕ, ltb, bit_and, Option, none}
use hostpimsim_gecon.Pipeline.Kinds.{
  op_mul_step, op_div_step, op_call, op_movd, op_swapd, op_lsr_add, op_lsr_add_s, op_lsr_add_u,
  fmt_rrci, fmt_rrr, fmt_rrri, fmt_rrrici, fmt_zrr, fmt_zrri, fmt_zrrici,
}
use hostpimsim_gecon.Pipeline.Decode.Raw.{RawDecoded48, accept, accept_hot}
use hostpimsim_gecon.Pipeline.Decode.Fields.{
  bits, put_ra5_34, put_pc, put_cc4_24, put_dc5_40, put_rc5_39, put_dc5_39, put_rb5_32, put_db,
  put_shift,
}
use hostpimsim_gecon.Pipeline.Decode.Choices.{
  writes_register_of_44, writes_zero_extended_of_44, branches_by_short_cc4,
  writes_sign_extended_of_44,
}
use hostpimsim_gecon.Pipeline.Decode.Groups10.{
  group7_45, group7_47, group7_48, group7_49, group7_50, group7_51, group7_52, group7_54, group7_55,
  group7_56,
}
use hostpimsim_gecon.Pipeline.Decode.Groups12.{group7_92, group7_93, group7_94, group7_95}

unfoldable pub group7_96 : ℕ → RawDecoded48 → Option RawDecoded48
group7_96 w o =
    let o1 = put_rb5_32 w o in
    if writes_zero_extended_of_44 w
    then (let o2 = put_ra5_34 w (put_dc5_40 w o1) in
        if bits w 24 0xf == 0x0
        then accept_hot op_lsr_add_s fmt_rrri (put_shift w o2)
        else if branches_by_short_cc4 w
        then accept_hot op_lsr_add_s fmt_rrrici (put_shift w (put_pc w (put_cc4_24 w o2)))
        else none)
    else if writes_sign_extended_of_44 w
    then (let o2 = put_ra5_34 w (put_dc5_40 w o1) in
        if bits w 24 0xf == 0x0
        then accept_hot op_lsr_add_u fmt_rrri (put_shift w o2)
        else if branches_by_short_cc4 w
        then accept_hot op_lsr_add_u fmt_rrrici (put_shift w (put_pc w (put_cc4_24 w o2)))
        else none)
    else if writes_register_of_44 w
    then (let o2 = put_ra5_34 w (put_rc5_39 w o1) in
        if bits w 24 0xf == 0x0
        then accept_hot op_lsr_add fmt_rrri (put_shift w o2)
        else if branches_by_short_cc4 w
        then accept_hot op_lsr_add fmt_rrrici (put_shift w (put_pc w (put_cc4_24 w o2)))
        else none)
    else if bits w 42 0x3 == 0x3
    then (let o2 = put_ra5_34 w o1 in
        if bits w 24 0xf == 0x0
        then accept_hot op_lsr_add fmt_zrri (put_shift w o2)
        else if branches_by_short_cc4 w
        then accept_hot op_lsr_add fmt_zrrici (put_shift w (put_pc w (put_cc4_24 w o2)))
        else none)
    else none

unfoldable pub group7_97 : ℕ → RawDecoded48 → Option RawDecoded48
group7_97 w o =
    if writes_zero_extended_of_44 w
    then (let o2 = put_ra5_34 w (put_dc5_40 w o) in
        if bits w 24 0xf == 0x0
        then accept (put_shift w o2)
        else if branches_by_short_cc4 w
        then accept (put_shift w (put_pc w (put_cc4_24 w o2)))
        else none)
    else if writes_sign_extended_of_44 w
    then (let o2 = put_ra5_34 w (put_dc5_40 w o) in
        if bits w 24 0xf == 0x0
        then accept (put_shift w o2)
        else if branches_by_short_cc4 w
        then accept (put_shift w (put_pc w (put_cc4_24 w o2)))
        else none)
    else if writes_register_of_44 w
    then (let o2 = put_ra5_34 w (put_rc5_39 w o) in
        if bits w 24 0xf == 0x0
        then accept (put_shift w o2)
        else if branches_by_short_cc4 w
        then accept (put_shift w (put_pc w (put_cc4_24 w o2)))
        else none)
    else if bits w 42 0x3 == 0x3
    then (let o2 = put_ra5_34 w o in
        if bits w 24 0xf == 0x0
        then accept (put_shift w o2)
        else if branches_by_short_cc4 w
        then accept (put_shift w (put_pc w (put_cc4_24 w o2)))
        else none)
    else none

unfoldable pub group7_98 : ℕ → RawDecoded48 → Option RawDecoded48
group7_98 w o =
    let o1 = put_db w o in
    if bit_and (bits w 28 0xf) 0xe == 0x6
    then (if bits w 42 0x3 != 0x3
        then (let o3 = put_dc5_39 w o1 in
            if ltb (bits w 24 0xf) 0x2 || ltb 0xb (bits w 24 0xf)
            then accept_hot op_div_step fmt_rrrici
                (put_shift w (put_pc w (put_ra5_34 w (put_cc4_24 w o3))))
            else none)
        else none)
    else if bit_and (bits w 28 0xf) 0xf == 0x2
    then (if bits w 42 0x3 != 0x3
        then (let o3 = put_dc5_39 w o1 in
            if bits w 34 0x1f == 0x18
            then (let o4 = put_ra5_34 w o3 in
                if ltb (bits w 24 0xf) 0x6 || ltb 0xb (bits w 24 0xf)
                then accept_hot op_movd fmt_rrci (put_pc w (put_cc4_24 w o4))
                else none)
            else none)
        else none)
    else if bit_and (bits w 28 0xf) 0xe == 0x4
    then (if bits w 42 0x3 != 0x3
        then (let o3 = put_dc5_39 w o1 in
            if bits w 34 0x1f != 0x18
            then (let o4 = put_ra5_34 w o3 in
                if ltb (bits w 24 0xf) 0x6 || ltb 0xb (bits w 24 0xf)
                then accept_hot op_mul_step fmt_rrrici (put_shift w (put_pc w (put_cc4_24 w o4)))
                else none)
            else none)
        else none)
    else if bit_and (bits w 28 0xf) 0xf == 0xa
    then (if bits w 42 0x3 != 0x3
        then (let o3 = put_dc5_39 w o1 in
            if bits w 34 0x1f == 0x18
            then (let o4 = put_ra5_34 w o3 in
                if ltb (bits w 24 0xf) 0x6 || ltb 0xb (bits w 24 0xf)
                then accept_hot op_swapd fmt_rrci (put_pc w (put_cc4_24 w o4))
                else none)
            else none)
        else none)
    else none

unfoldable pub group7 : ℕ → RawDecoded48 → Option RawDecoded48
group7 w o =
    if bits w 32 0x3 == 0x3
    then group7_45 w o
    else if bits w 32 0x3 != 0x3 && bits w 16 0x1 == 0x0
    then (let o2 = put_rb5_32 w o in
        if bit_and (bits w 28 0xf) 0xf == 0xc
        then (if bit_and (bits w 20 0xf) 0xf == 0xa
            then group7_47 w o2
            else if bit_and (bits w 20 0xf) 0xf == 0xc
            then group7_48 w o2
            else if bit_and (bits w 20 0xf) 0xf == 0x0
            then (if writes_register_of_44 w
                then (let o5 = put_ra5_34 w (put_rc5_39 w o2) in
                    if bits w 24 0xf == 0x0 then accept_hot op_call fmt_rrr o5 else none)
                else if bits w 42 0x3 == 0x3
                then (let o5 = put_ra5_34 w o2 in
                    if bits w 24 0xf == 0x0 then accept_hot op_call fmt_zrr o5 else none)
                else none)
            else if bit_and (bits w 20 0xf) 0xf == 0x1
            then group7_49 w o2
            else if bit_and (bits w 20 0xf) 0xf == 0xf
            then group7_50 w o2
            else if bit_and (bits w 20 0xf) 0xf == 0xe
            then group7_51 w o2
            else if bit_and (bits w 20 0xf) 0xf == 0x9
            then group7_52 w o2
            else if bit_and (bits w 20 0xf) 0xf == 0xb
            then group7_54 w o2
            else if bit_and (bits w 20 0xf) 0xf == 0xd
            then group7_55 w o2
            else if bit_and (bits w 20 0xf) 0xf == 0x8
            then group7_56 w o2
            else none)
        else if bit_and (bits w 28 0xf) 0xd == 0xd
        then group7_92 w o2
        else if bit_and (bits w 28 0xf) 0xc == 0x8
        then group7_93 w o2
        else if bit_and (bits w 28 0xf) 0xe == 0x4
        then group7_94 w o2
        else if bit_and (bits w 28 0xf) 0xe == 0x6
        then group7_95 w o2
        else if bit_and (bits w 28 0xf) 0xe == 0x2
        then group7_96 w o2
        else if bit_and (bits w 28 0xf) 0xe == 0x0
        then group7_97 w o2
        else none)
    else if bits w 32 0x3 != 0x3 && bits w 16 0x1 == 0x1
    then group7_98 w o
    else none
