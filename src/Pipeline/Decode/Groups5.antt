-- ===== src/Pipeline/Decode/Groups5.antt =====
-- Blocks of `decode_raw_word_48`, from the code of group3, block 46 on; a function for each, the blocks inside it before it.
use hostpimsim_gecon.Base.{◌==◌, ◌!=◌, ◌&&◌, ◌||◌, if◌then◌else◌, ℕ, ltb, bit_and, Option, none}
use hostpimsim_gecon.Pipeline.Kinds.{
  op_addc, op_mul_ul_ul, op_mul_ul_uh, op_time, op_time_cfg, fmt_r, fmt_rci, fmt_rr, fmt_rrci,
  fmt_rrr, fmt_rrrc, fmt_rrrci, fmt_z, fmt_zci, fmt_zr, fmt_zrci, fmt_zrr, fmt_zrrc, fmt_zrrci,
}
use hostpimsim_gecon.Pipeline.Decode.Raw.{RawDecoded48, accept, accept_hot}
use hostpimsim_gecon.Pipeline.Decode.Fields.{
  bits, put_ra5_34, put_pc, put_cc4_24, put_rb5_32, put_dc5_44, put_cc5_24, put_rc5_44,
}
use hostpimsim_gecon.Pipeline.Decode.Choices.{
  sets_by_cc4, writes_zero_extended_of_46, writes_sign_extended_of_46, writes_register_of_46,
  may_have_cc, sets_by_cc5, branches_by_cc5, branches_by_cc5_of_cc4,
}
use hostpimsim_gecon.Pipeline.Decode.Groups3.{group3_20, group3_24, group3_28}
use hostpimsim_gecon.Pipeline.Decode.Groups4.{
  group3_29, group3_30, group3_31, group3_32, group3_36, group3_37, group3_38, group3_39, group3_40,
  group3_41, group3_42, group3_43, group3_44, group3_45,
}

unfoldable pub group3_46 : ℕ → RawDecoded48 → Option RawDecoded48
group3_46 w o =
    let o1 = put_ra5_34 w (put_rb5_32 w o) in
    if writes_sign_extended_of_46 w
    then (let o2 = put_dc5_44 w o1 in
        if bits w 24 0xf == 0x0
        then accept o2
        else if sets_by_cc4 w
        then accept (put_cc4_24 w o2)
        else if branches_by_cc5_of_cc4 w
        then accept (put_pc w (put_cc5_24 w o2))
        else none)
    else if writes_register_of_46 w
    then (let o2 = put_rc5_44 w o1 in
        if bits w 24 0xf == 0x0
        then accept_hot op_mul_ul_uh fmt_rrr o2
        else if sets_by_cc4 w
        then accept_hot op_mul_ul_uh fmt_rrrc (put_cc4_24 w o2)
        else if branches_by_cc5_of_cc4 w
        then accept_hot op_mul_ul_uh fmt_rrrci (put_pc w (put_cc5_24 w o2))
        else none)
    else if bits w 44 0x3 == 0x3
    then (if bits w 24 0xf == 0x0
        then accept_hot op_mul_ul_uh fmt_zrr o1
        else if sets_by_cc4 w
        then accept_hot op_mul_ul_uh fmt_zrrc (put_cc4_24 w o1)
        else if branches_by_cc5_of_cc4 w
        then accept_hot op_mul_ul_uh fmt_zrrci (put_pc w (put_cc5_24 w o1))
        else none)
    else none

unfoldable pub group3_47 : ℕ → RawDecoded48 → Option RawDecoded48
group3_47 w o =
    let o1 = put_ra5_34 w (put_rb5_32 w o) in
    if writes_sign_extended_of_46 w
    then (let o2 = put_dc5_44 w o1 in
        if bits w 24 0xf == 0x0
        then accept o2
        else if sets_by_cc4 w
        then accept (put_cc4_24 w o2)
        else if branches_by_cc5_of_cc4 w
        then accept (put_pc w (put_cc5_24 w o2))
        else none)
    else if writes_register_of_46 w
    then (let o2 = put_rc5_44 w o1 in
        if bits w 24 0xf == 0x0
        then accept_hot op_mul_ul_ul fmt_rrr o2
        else if sets_by_cc4 w
        then accept_hot op_mul_ul_ul fmt_rrrc (put_cc4_24 w o2)
        else if branches_by_cc5_of_cc4 w
        then accept_hot op_mul_ul_ul fmt_rrrci (put_pc w (put_cc5_24 w o2))
        else none)
    else if bits w 44 0x3 == 0x3
    then (if bits w 24 0xf == 0x0
        then accept_hot op_mul_ul_ul fmt_zrr o1
        else if sets_by_cc4 w
        then accept_hot op_mul_ul_ul fmt_zrrc (put_cc4_24 w o1)
        else if branches_by_cc5_of_cc4 w
        then accept_hot op_mul_ul_ul fmt_zrrci (put_pc w (put_cc5_24 w o1))
        else none)
    else none

unfoldable pub group3_48 : ℕ → RawDecoded48 → Option RawDecoded48
group3_48 w o =
    if bit_and (bits w 20 0xf) 0xf == 0x7
    then group3_37 w o
    else if bit_and (bits w 20 0xf) 0xf == 0x6
    then group3_38 w o
    else if bit_and (bits w 20 0xf) 0xf == 0xb
    then group3_39 w o
    else if bit_and (bits w 20 0xf) 0xf == 0xa
    then group3_40 w o
    else if bit_and (bits w 20 0xf) 0xf == 0x5
    then group3_41 w o
    else if bit_and (bits w 20 0xf) 0xf == 0x4
    then group3_42 w o
    else if bit_and (bits w 20 0xf) 0xf == 0x9
    then group3_43 w o
    else if bit_and (bits w 20 0xf) 0xf == 0x8
    then (let o2 = put_ra5_34 w (put_rb5_32 w o) in
        if writes_zero_extended_of_46 w
        then (let o3 = put_dc5_44 w o2 in
            if bits w 24 0xf == 0x0
            then accept o3
            else if sets_by_cc4 w
            then accept (put_cc4_24 w o3)
            else if branches_by_cc5_of_cc4 w
            then accept (put_pc w (put_cc5_24 w o3))
            else none)
        else if writes_register_of_46 w
        then (let o3 = put_rc5_44 w o2 in
            if bits w 24 0xf == 0x0
            then accept o3
            else if sets_by_cc4 w
            then accept (put_cc4_24 w o3)
            else if branches_by_cc5_of_cc4 w
            then accept (put_pc w (put_cc5_24 w o3))
            else none)
        else if bits w 44 0x3 == 0x3
        then (if bits w 24 0xf == 0x0
            then accept o2
            else if sets_by_cc4 w
            then accept (put_cc4_24 w o2)
            else if branches_by_cc5_of_cc4 w
            then accept (put_pc w (put_cc5_24 w o2))
            else none)
        else none)
    else if bit_and (bits w 20 0xf) 0xf == 0x3
    then group3_44 w o
    else if bit_and (bits w 20 0xf) 0xf == 0x2
    then group3_45 w o
    else if bit_and (bits w 20 0xf) 0xf == 0x1
    then group3_46 w o
    else if bit_and (bits w 20 0xf) 0xf == 0x0
    then group3_47 w o
    else none

unfoldable pub group3_49 : ℕ → RawDecoded48 → Option RawDecoded48
group3_49 w o =
    let o1 = put_ra5_34 w (put_rb5_32 w o) in
    if writes_zero_extended_of_46 w
    then (let o2 = put_dc5_44 w o1 in
        if bits w 24 0xf == 0x0
        then accept o2
        else if (ltb (bits w 24 0xf) 0x6 || ltb 0xb (bits w 24 0xf)) && bits w 24 0xf != 0x0
        then accept (put_pc w (put_cc4_24 w o2))
        else none)
    else if writes_sign_extended_of_46 w
    then (let o2 = put_dc5_44 w o1 in
        if bits w 24 0xf == 0x0
        then accept o2
        else if (ltb (bits w 24 0xf) 0x6 || ltb 0xb (bits w 24 0xf)) && bits w 24 0xf != 0x0
        then accept (put_pc w (put_cc4_24 w o2))
        else none)
    else if writes_register_of_46 w
    then (let o2 = put_rc5_44 w o1 in
        if bits w 24 0xf == 0x0
        then accept_hot op_time_cfg fmt_rr o2
        else if (ltb (bits w 24 0xf) 0x6 || ltb 0xb (bits w 24 0xf)) && bits w 24 0xf != 0x0
        then accept_hot op_time_cfg fmt_rrci (put_pc w (put_cc4_24 w o2))
        else none)
    else if bits w 44 0x3 == 0x3
    then (if bits w 24 0xf == 0x0
        then accept_hot op_time_cfg fmt_zr o1
        else if (ltb (bits w 24 0xf) 0x6 || ltb 0xb (bits w 24 0xf)) && bits w 24 0xf != 0x0
        then accept_hot op_time_cfg fmt_zrci (put_pc w (put_cc4_24 w o1))
        else none)
    else none

unfoldable pub group3_50 : ℕ → RawDecoded48 → Option RawDecoded48
group3_50 w o =
    if bit_and (bits w 28 0xf) 0x2 == 0x0
    then group3_48 w o
    else if bit_and (bits w 28 0xf) 0x3 == 0x2
    then (if bit_and (bits w 20 0xf) 0xf == 0x8
        then (if bits w 34 0x1f == 0x18
            then (let o4 = put_ra5_34 w o in
                if writes_zero_extended_of_46 w
                then (let o5 = put_dc5_44 w o4 in
                    if bits w 24 0xf == 0x0
                    then accept o5
                    else if (ltb (bits w 24 0xf) 0x6 || ltb 0xb (bits w 24 0xf))
                        && bits w 24 0xf != 0x0
                    then accept (put_pc w (put_cc4_24 w o5))
                    else none)
                else if writes_sign_extended_of_46 w
                then (let o5 = put_dc5_44 w o4 in
                    if bits w 24 0xf == 0x0
                    then accept o5
                    else if (ltb (bits w 24 0xf) 0x6 || ltb 0xb (bits w 24 0xf))
                        && bits w 24 0xf != 0x0
                    then accept (put_pc w (put_cc4_24 w o5))
                    else none)
                else if writes_register_of_46 w
                then (let o5 = put_rc5_44 w o4 in
                    if bits w 24 0xf == 0x0
                    then accept_hot op_time fmt_r o5
                    else if (ltb (bits w 24 0xf) 0x6 || ltb 0xb (bits w 24 0xf))
                        && bits w 24 0xf != 0x0
                    then accept_hot op_time fmt_rci (put_pc w (put_cc4_24 w o5))
                    else none)
                else if bits w 44 0x3 == 0x3
                then (if bits w 24 0xf == 0x0
                    then accept_hot op_time fmt_z o4
                    else if (ltb (bits w 24 0xf) 0x6 || ltb 0xb (bits w 24 0xf))
                        && bits w 24 0xf != 0x0
                    then accept_hot op_time fmt_zci (put_pc w (put_cc4_24 w o4))
                    else none)
                else none)
            else if bits w 34 0x1f == 0x19
            then group3_49 w o
            else none)
        else none)
    else none

unfoldable pub group3 : ℕ → RawDecoded48 → Option RawDecoded48
group3 w o =
    if bits w 32 0x3 == 0x3
    then group3_20 w o
    else if bits w 32 0x3 != 0x3 && bits w 16 0x1 == 0x0
    then (if bit_and (bits w 20 0xf) 0xc == 0xc
        then (if writes_zero_extended_of_46 w
            then group3_24 w o
            else if writes_sign_extended_of_46 w
            then group3_28 w o
            else if writes_register_of_46 w
            then (let o4 = put_rc5_44 w o in
                if bit_and (bits w 28 0xf) 0xe == 0x0
                then group3_29 w o4
                else if bit_and (bits w 28 0xf) 0xe == 0x2
                then (if may_have_cc w
                    then (let o6 = put_ra5_34 w (put_rb5_32 w o4) in
                        if bits w 24 0x1f == 0x0
                        then accept_hot op_addc fmt_rrr o6
                        else if sets_by_cc5 w
                        then accept_hot op_addc fmt_rrrc (put_cc5_24 w o6)
                        else if branches_by_cc5 w
                        then accept_hot op_addc fmt_rrrci (put_pc w (put_cc5_24 w o6))
                        else none)
                    else none)
                else if bit_and (bits w 28 0xf) 0xe == 0x4
                then group3_30 w o4
                else if bit_and (bits w 28 0xf) 0xe == 0x6
                then (if may_have_cc w
                    then (let o6 = put_ra5_34 w (put_rb5_32 w o4) in
                        if bits w 24 0x1f == 0x0
                        then accept o6
                        else if sets_by_cc5 w
                        then accept (put_cc5_24 w o6)
                        else if branches_by_cc5 w
                        then accept (put_pc w (put_cc5_24 w o6))
                        else none)
                    else none)
                else if bit_and (bits w 28 0xf) 0xa == 0x8
                then group3_31 w o4
                else if bit_and (bits w 28 0xf) 0xa == 0xa
                then group3_32 w o4
                else none)
            else if bits w 44 0x3 == 0x3
            then group3_36 w o
            else none)
        else if bit_and (bits w 20 0xf) 0xc != 0xc
        then group3_50 w o
        else none)
    else none
