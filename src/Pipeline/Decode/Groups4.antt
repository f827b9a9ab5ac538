-- ===== src/Pipeline/Decode/Groups4.antt =====
-- Blocks of `decode_raw_word_48`, from the code of group3, block 29 on; a function for each, the blocks inside it before it.
use hostpimsim_gecon.Base.{◌==◌, ◌!=◌, ◌&&◌, if◌then◌else◌, ℕ, bit_and, Option, none}
use hostpimsim_gecon.Pipeline.Kinds.{
  op_add, op_addc, op_sub, op_subc, op_mul_uh_ul, op_mul_uh_uh, fmt_rrr, fmt_rrrc, fmt_rrrci,
  fmt_sss, fmt_zrr, fmt_zrrc, fmt_zrrci,
}
use hostpimsim_gecon.Pipeline.Decode.Raw.{RawDecoded48, accept, accept_hot}
use hostpimsim_gecon.Pipeline.Decode.Fields.{
  bits, put_ra5_34, put_pc, put_cc4_24, put_rb5_32, put_dc5_44, put_cc5_24, put_cc6_30, put_rc5_44,
  put_rb5_34, put_ra5_32,
}
use hostpimsim_gecon.Pipeline.Decode.Choices.{
  sets_by_cc4, writes_zero_extended_of_46, writes_sign_extended_of_46, writes_register_of_46,
  may_have_cc, sets_by_cc5, branches_by_cc5, branches_by_cc5_of_cc4, lacks_cc_of_30,
  sets_by_cc_of_30, branches_by_cc_of_30,
}

unfoldable pub group3_29 : ℕ → RawDecoded48 → Option RawDecoded48
group3_29 w o =
    if may_have_cc w
    then (let o2 = put_ra5_34 w (put_rb5_32 w o) in
        if bits w 24 0x1f == 0x0
        then accept_hot op_add fmt_rrr o2
        else if sets_by_cc5 w
        then accept_hot op_add fmt_rrrc (put_cc5_24 w o2)
        else if branches_by_cc5 w
        then accept_hot op_add fmt_rrrci (put_pc w (put_cc5_24 w o2))
        else none)
    else if bits w 28 0x1 == 0x1 && bits w 24 0xf == 0x0
    then (if bits w 37 0x3 != 0x3
        then accept_hot op_add fmt_sss (put_ra5_32 w (put_rb5_34 w o))
        else none)
    else none

unfoldable pub group3_30 : ℕ → RawDecoded48 → Option RawDecoded48
group3_30 w o =
    if may_have_cc w
    then (let o2 = put_ra5_34 w (put_rb5_32 w o) in
        if bits w 24 0x1f == 0x0
        then accept o2
        else if sets_by_cc5 w
        then accept (put_cc5_24 w o2)
        else if branches_by_cc5 w
        then accept (put_pc w (put_cc5_24 w o2))
        else none)
    else if bits w 28 0x1 == 0x1 && bits w 24 0xf == 0x0
    then (if bits w 37 0x3 != 0x3
        then accept_hot op_sub fmt_sss (put_ra5_32 w (put_rb5_34 w o))
        else none)
    else none

unfoldable pub group3_31 : ℕ → RawDecoded48 → Option RawDecoded48
group3_31 w o =
    if may_have_cc w
    then (let o2 = put_ra5_34 w (put_rb5_32 w o) in
        if lacks_cc_of_30 w
        then accept_hot op_sub fmt_rrr o2
        else if sets_by_cc_of_30 w
        then accept_hot op_sub fmt_rrrc (put_cc6_30 w o2)
        else if branches_by_cc_of_30 w
        then accept_hot op_sub fmt_rrrci (put_pc w (put_cc6_30 w o2))
        else none)
    else none

unfoldable pub group3_32 : ℕ → RawDecoded48 → Option RawDecoded48
group3_32 w o =
    if may_have_cc w
    then (let o2 = put_ra5_34 w (put_rb5_32 w o) in
        if lacks_cc_of_30 w
        then accept_hot op_subc fmt_rrr o2
        else if sets_by_cc_of_30 w
        then accept_hot op_subc fmt_rrrc (put_cc6_30 w o2)
        else if branches_by_cc_of_30 w
        then accept_hot op_subc fmt_rrrci (put_pc w (put_cc6_30 w o2))
        else none)
    else none

unfoldable pub group3_33 : ℕ → RawDecoded48 → Option RawDecoded48
group3_33 w o =
    if may_have_cc w
    then (let o2 = put_ra5_34 w (put_rb5_32 w o) in
        if bits w 24 0x1f == 0x0
        then accept_hot op_add fmt_zrr o2
        else if sets_by_cc5 w
        then accept_hot op_add fmt_zrrc (put_cc5_24 w o2)
        else if branches_by_cc5 w
        then accept_hot op_add fmt_zrrci (put_pc w (put_cc5_24 w o2))
        else none)
    else none

unfoldable pub group3_34 : ℕ → RawDecoded48 → Option RawDecoded48
group3_34 w o =
    if may_have_cc w
    then (let o2 = put_ra5_34 w (put_rb5_32 w o) in
        if lacks_cc_of_30 w
        then accept_hot op_sub fmt_zrr o2
        else if sets_by_cc_of_30 w
        then accept_hot op_sub fmt_zrrc (put_cc6_30 w o2)
        else if branches_by_cc_of_30 w
        then accept_hot op_sub fmt_zrrci (put_pc w (put_cc6_30 w o2))
        else none)
    else none

unfoldable pub group3_35 : ℕ → RawDecoded48 → Option RawDecoded48
group3_35 w o =
    if may_have_cc w
    then (let o2 = put_ra5_34 w (put_rb5_32 w o) in
        if lacks_cc_of_30 w
        then accept_hot op_subc fmt_zrr o2
        else if sets_by_cc_of_30 w
        then accept_hot op_subc fmt_zrrc (put_cc6_30 w o2)
        else if branches_by_cc_of_30 w
        then accept_hot op_subc fmt_zrrci (put_pc w (put_cc6_30 w o2))
        else none)
    else none

unfoldable pub group3_36 : ℕ → RawDecoded48 → Option RawDecoded48
group3_36 w o =
    if bit_and (bits w 28 0xf) 0xe == 0x0
    then group3_33 w o
    else if bit_and (bits w 28 0xf) 0xe == 0x2
    then (if may_have_cc w
        then (let o3 = put_ra5_34 w (put_rb5_32 w o) in
            if bits w 24 0x1f == 0x0
            then accept_hot op_addc fmt_zrr o3
            else if sets_by_cc5 w
            then accept_hot op_addc fmt_zrrc (put_cc5_24 w o3)
            else if branches_by_cc5 w
            then accept_hot op_addc fmt_zrrci (put_pc w (put_cc5_24 w o3))
            else none)
        else none)
    else if bit_and (bits w 28 0xf) 0xe == 0x4
    then (if may_have_cc w
        then (let o3 = put_ra5_34 w (put_rb5_32 w o) in
            if bits w 24 0x1f == 0x0
            then accept o3
            else if sets_by_cc5 w
            then accept (put_cc5_24 w o3)
            else if branches_by_cc5 w
            then accept (put_pc w (put_cc5_24 w o3))
            else none)
        else none)
    else if bit_and (bits w 28 0xf) 0xe == 0x6
    then (if may_have_cc w
        then (let o3 = put_ra5_34 w (put_rb5_32 w o) in
            if bits w 24 0x1f == 0x0
            then accept o3
            else if sets_by_cc5 w
            then accept (put_cc5_24 w o3)
            else if branches_by_cc5 w
            then accept (put_pc w (put_cc5_24 w o3))
            else none)
        else none)
    else if bit_and (bits w 28 0xf) 0xa == 0x8
    then group3_34 w o
    else if bit_and (bits w 28 0xf) 0xa == 0xa
    then group3_35 w o
    else none

unfoldable pub group3_37 : ℕ → RawDecoded48 → Option RawDecoded48
group3_37 w o =
    let o1 = put_ra5_34 w (put_rb5_32 w o) in
    if writes_zero_extended_of_46 w
    then (let o2 = put_dc5_44 w o1 in
        if bits w 24 0xf == 0x0
        then accept o2
        else if sets_by_cc4 w
        then accept (put_cc4_24 w o2)
        else if branches_by_cc5_of_cc4 w
        then accept (put_pc w (put_cc5_24 w o2))
        else none)
    else if writes_register_of_46 w
    then (let o2 = put_rc5_44 w o1 in
        if bits w 24 0xf == 0x0
        then accept o2
        else if sets_by_cc4 w
        then accept (put_cc4_24 w o2)
        else if branches_by_cc5_of_cc4 w
        then accept (put_pc w (put_cc5_24 w o2))
        else none)
    else if bits w 44 0x3 == 0x3
    then (if bits w 24 0xf == 0x0
        then accept o1
        else if sets_by_cc4 w
        then accept (put_cc4_24 w o1)
        else if branches_by_cc5_of_cc4 w
        then accept (put_pc w (put_cc5_24 w o1))
        else none)
    else none

unfoldable pub group3_38 : ℕ → RawDecoded48 → Option RawDecoded48
group3_38 w o = group3_37 w o

unfoldable pub group3_39 : ℕ → RawDecoded48 → Option RawDecoded48
group3_39 w o = group3_37 w o

unfoldable pub group3_40 : ℕ → RawDecoded48 → Option RawDecoded48
group3_40 w o = group3_37 w o

unfoldable pub group3_41 : ℕ → RawDecoded48 → Option RawDecoded48
group3_41 w o = group3_37 w o

unfoldable pub group3_42 : ℕ → RawDecoded48 → Option RawDecoded48
group3_42 w o = group3_37 w o

unfoldable pub group3_43 : ℕ → RawDecoded48 → Option RawDecoded48
group3_43 w o = group3_37 w o

unfoldable pub group3_44 : ℕ → RawDecoded48 → Option RawDecoded48
group3_44 w o =
    let o1 = put_ra5_34 w (put_rb5_32 w o) in
    if writes_sign_extended_of_46 w
    then (let o2 = put_dc5_44 w o1 in
        if bits w 24 0xf == 0x0
        then accept o2
        else if sets_by_cc4 w
        then accept (put_cc4_24 w o2)
        else if branches_by_cc5_of_cc4 w
        then accept (put_pc w (put_cc5_24 w o2))
        else none)
    else if writes_register_of_46 w
    then (let o2 = put_rc5_44 w o1 in
        if bits w 24 0xf == 0x0
        then accept_hot op_mul_uh_uh fmt_rrr o2
        else if sets_by_cc4 w
        then accept_hot op_mul_uh_uh fmt_rrrc (put_cc4_24 w o2)
        else if branches_by_cc5_of_cc4 w
        then accept_hot op_mul_uh_uh fmt_rrrci (put_pc w (put_cc5_24 w o2))
        else none)
    else if bits w 44 0x3 == 0x3
    then (if bits w 24 0xf == 0x0
        then accept_hot op_mul_uh_uh fmt_zrr o1
        else if sets_by_cc4 w
        then accept_hot op_mul_uh_uh fmt_zrrc (put_cc4_24 w o1)
        else if branches_by_cc5_of_cc4 w
        then accept_hot op_mul_uh_uh fmt_zrrci (put_pc w (put_cc5_24 w o1))
        else none)
    else none

unfoldable pub group3_45 : ℕ → RawDecoded48 → Option RawDecoded48
group3_45 w o =
    let o1 = put_ra5_34 w (put_rb5_32 w o) in
    if writes_sign_extended_of_46 w
    then (let o2 = put_dc5_44 w o1 in
        if bits w 24 0xf == 0x0
        then accept o2
        else if sets_by_cc4 w
        then accept (put_cc4_24 w o2)
        else if branches_by_cc5_of_cc4 w
        then accept (put_pc w (put_cc5_24 w o2))
        else none)
    else if writes_register_of_46 w
    then (let o2 = put_rc5_44 w o1 in
        if bits w 24 0xf == 0x0
        then accept_hot op_mul_uh_ul fmt_rrr o2
        else if sets_by_cc4 w
        then accept_hot op_mul_uh_ul fmt_rrrc (put_cc4_24 w o2)
        else if branches_by_cc5_of_cc4 w
        then accept_hot op_mul_uh_ul fmt_rrrci (put_pc w (put_cc5_24 w o2))
        else none)
    else if bits w 44 0x3 == 0x3
    then (if bits w 24 0xf == 0x0
        then accept_hot op_mul_uh_ul fmt_zrr o1
        else if sets_by_cc4 w
        then accept_hot op_mul_uh_ul fmt_zrrc (put_cc4_24 w o1)
        else if branches_by_cc5_of_cc4 w
        then accept_hot op_mul_uh_ul fmt_zrrci (put_pc w (put_cc5_24 w o1))
        else none)
    else none
