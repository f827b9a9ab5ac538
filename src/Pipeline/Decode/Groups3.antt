-- ===== src/Pipeline/Decode/Groups3.antt =====
-- Blocks of `decode_raw_word_48`, from the code of group3, block 14 on; a function for each, the blocks inside it before it.
use hostpimsim_gecon.Base.{◌==◌, if◌then◌else◌, ℕ, bit_and, Option, none}
use hostpimsim_gecon.Pipeline.Kinds.{
  op_add, op_addc, op_sub, op_subc, fmt_rirc, fmt_rirci, fmt_rirf, fmt_zirc, fmt_zirci, fmt_zirf,
  fmt_zric, fmt_zrici, fmt_zrif,
}
use hostpimsim_gecon.Pipeline.Decode.Raw.{RawDecoded48, accept, accept_hot}
use hostpimsim_gecon.Pipeline.Decode.Fields.{
  bits, put_ra5_34, put_pc, put_imm8_16, put_imm24_0, put_rb5_32, put_dc5_44, put_cc5_24,
  put_cc6_30, put_rc5_44, put_imm27_39, put_imm11_39, put_imm_signed11,
}
use hostpimsim_gecon.Pipeline.Decode.Choices.{
  writes_zero_extended_of_46, writes_sign_extended_of_46, writes_register_of_46, may_have_cc,
  sets_by_cc5, branches_by_cc5, lacks_cc_of_30, sets_by_cc_of_30, branches_by_cc_of_30,
}
use hostpimsim_gecon.Pipeline.Decode.Groups2.{
  group3_5, group3_6, group3_7, group3_8, group3_9, group3_10, group3_11, group3_12, group3_13,
}

unfoldable pub group3_14 : ℕ → RawDecoded48 → Option RawDecoded48
group3_14 w o =
    let o1 = put_ra5_34 w (put_rc5_44 w o) in
    if bit_and (bits w 28 0xf) 0xe == 0x0
    then group3_10 w o1
    else if bit_and (bits w 28 0xf) 0xe == 0x2
    then group3_11 w o1
    else if bit_and (bits w 28 0xf) 0xe == 0x4
    then (if sets_by_cc5 w
        then accept_hot op_sub fmt_rirc (put_imm24_0 w (put_cc5_24 w o1))
        else if branches_by_cc5 w
        then accept_hot op_sub fmt_rirci (put_imm8_16 w (put_pc w (put_cc5_24 w o1)))
        else if bits w 24 0x1f == 0x0
        then accept_hot op_sub fmt_rirf (put_imm24_0 w o1)
        else none)
    else if bit_and (bits w 28 0xf) 0xa == 0x8
    then group3_12 w o1
    else if bit_and (bits w 28 0xf) 0xe == 0x6
    then (if sets_by_cc5 w
        then accept_hot op_subc fmt_rirc (put_imm24_0 w (put_cc5_24 w o1))
        else if branches_by_cc5 w
        then accept_hot op_subc fmt_rirci (put_imm8_16 w (put_pc w (put_cc5_24 w o1)))
        else if bits w 24 0x1f == 0x0
        then accept_hot op_subc fmt_rirf (put_imm24_0 w o1)
        else none)
    else if bit_and (bits w 28 0xf) 0xa == 0xa
    then group3_13 w o1
    else none

unfoldable pub group3_15 : ℕ → RawDecoded48 → Option RawDecoded48
group3_15 w o =
    if may_have_cc w
    then (if sets_by_cc5 w
        then accept_hot op_add fmt_zric (put_imm27_39 w (put_cc5_24 w o))
        else if branches_by_cc5 w
        then accept_hot op_add fmt_zrici (put_imm11_39 w (put_pc w (put_cc5_24 w o)))
        else if bits w 24 0x1f == 0x0
        then accept_hot op_add fmt_zrif (put_imm27_39 w o)
        else none)
    else none

unfoldable pub group3_16 : ℕ → RawDecoded48 → Option RawDecoded48
group3_16 w o =
    if may_have_cc w
    then (if sets_by_cc5 w
        then accept_hot op_addc fmt_zric (put_imm27_39 w (put_cc5_24 w o))
        else if branches_by_cc5 w
        then accept_hot op_addc fmt_zrici (put_imm11_39 w (put_pc w (put_cc5_24 w o)))
        else if bits w 24 0x1f == 0x0
        then accept_hot op_addc fmt_zrif (put_imm27_39 w o)
        else none)
    else none

unfoldable pub group3_17 : ℕ → RawDecoded48 → Option RawDecoded48
group3_17 w o =
    if may_have_cc w
    then (if sets_by_cc_of_30 w
        then accept_hot op_sub fmt_zric (put_imm27_39 w (put_cc6_30 w o))
        else if branches_by_cc_of_30 w
        then accept_hot op_sub fmt_zrici (put_imm_signed11 w (put_pc w (put_cc6_30 w o)))
        else if lacks_cc_of_30 w
        then accept_hot op_sub fmt_zrif (put_imm27_39 w o)
        else none)
    else none

unfoldable pub group3_18 : ℕ → RawDecoded48 → Option RawDecoded48
group3_18 w o =
    if may_have_cc w
    then (if sets_by_cc_of_30 w
        then accept_hot op_subc fmt_zric (put_imm27_39 w (put_cc6_30 w o))
        else if branches_by_cc_of_30 w
        then accept_hot op_subc fmt_zrici (put_imm_signed11 w (put_pc w (put_cc6_30 w o)))
        else if lacks_cc_of_30 w
        then accept_hot op_subc fmt_zrif (put_imm27_39 w o)
        else none)
    else none

unfoldable pub group3_19 : ℕ → RawDecoded48 → Option RawDecoded48
group3_19 w o =
    let o1 = put_ra5_34 w o in
    if bit_and (bits w 28 0xf) 0xe == 0x0
    then group3_15 w o1
    else if bit_and (bits w 28 0xf) 0xe == 0x2
    then group3_16 w o1
    else if bit_and (bits w 28 0xf) 0xe == 0x4
    then (if sets_by_cc5 w
        then accept_hot op_sub fmt_zirc (put_imm27_39 w (put_cc5_24 w o1))
        else if branches_by_cc5 w
        then accept_hot op_sub fmt_zirci (put_imm11_39 w (put_pc w (put_cc5_24 w o1)))
        else if bits w 24 0x1f == 0x0
        then accept_hot op_sub fmt_zirf (put_imm27_39 w o1)
        else none)
    else if bit_and (bits w 28 0xf) 0xa == 0x8
    then group3_17 w o1
    else if bit_and (bits w 28 0xf) 0xe == 0x6
    then (if sets_by_cc5 w
        then accept_hot op_subc fmt_zirc (put_imm27_39 w (put_cc5_24 w o1))
        else if branches_by_cc5 w
        then accept_hot op_subc fmt_zirci (put_imm11_39 w (put_pc w (put_cc5_24 w o1)))
        else if bits w 24 0x1f == 0x0
        then accept_hot op_subc fmt_zirf (put_imm27_39 w o1)
        else none)
    else if bit_and (bits w 28 0xf) 0xa == 0xa
    then group3_18 w o1
    else none

unfoldable pub group3_20 : ℕ → RawDecoded48 → Option RawDecoded48
group3_20 w o =
    if writes_zero_extended_of_46 w
    then group3_5 w o
    else if writes_sign_extended_of_46 w
    then (let o2 = put_ra5_34 w (put_dc5_44 w o) in
        if bit_and (bits w 28 0xf) 0xe == 0x0
        then group3_6 w o2
        else if bit_and (bits w 28 0xf) 0xe == 0x2
        then group3_7 w o2
        else if bit_and (bits w 28 0xf) 0xe == 0x4
        then (if sets_by_cc5 w
            then accept (put_imm24_0 w (put_cc5_24 w o2))
            else if branches_by_cc5 w
            then accept (put_imm8_16 w (put_pc w (put_cc5_24 w o2)))
            else if bits w 24 0x1f == 0x0
            then accept (put_imm24_0 w o2)
            else none)
        else if bit_and (bits w 28 0xf) 0xa == 0x8
        then group3_8 w o2
        else if bit_and (bits w 28 0xf) 0xe == 0x6
        then (if sets_by_cc5 w
            then accept (put_imm24_0 w (put_cc5_24 w o2))
            else if branches_by_cc5 w
            then accept (put_imm8_16 w (put_pc w (put_cc5_24 w o2)))
            else if bits w 24 0x1f == 0x0
            then accept (put_imm24_0 w o2)
            else none)
        else if bit_and (bits w 28 0xf) 0xa == 0xa
        then group3_9 w o2
        else none)
    else if writes_register_of_46 w
    then group3_14 w o
    else if bits w 44 0x3 == 0x3
    then group3_19 w o
    else none

unfoldable pub group3_21 : ℕ → RawDecoded48 → Option RawDecoded48
group3_21 w o =
    if may_have_cc w
    then (let o2 = put_ra5_34 w (put_rb5_32 w o) in
        if bits w 24 0x1f == 0x0
        then accept o2
        else if sets_by_cc5 w
        then accept (put_cc5_24 w o2)
        else if branches_by_cc5 w
        then accept (put_pc w (put_cc5_24 w o2))
        else none)
    else none

unfoldable pub group3_22 : ℕ → RawDecoded48 → Option RawDecoded48
group3_22 w o =
    if may_have_cc w
    then (let o2 = put_ra5_34 w (put_rb5_32 w o) in
        if lacks_cc_of_30 w
        then accept o2
        else if sets_by_cc_of_30 w
        then accept (put_cc6_30 w o2)
        else if branches_by_cc_of_30 w
        then accept (put_pc w (put_cc6_30 w o2))
        else none)
    else none

unfoldable pub group3_23 : ℕ → RawDecoded48 → Option RawDecoded48
group3_23 w o = group3_22 w o

unfoldable pub group3_24 : ℕ → RawDecoded48 → Option RawDecoded48
group3_24 w o =
    let o1 = put_dc5_44 w o in
    if bit_and (bits w 28 0xf) 0xe == 0x0
    then group3_21 w o1
    else if bit_and (bits w 28 0xf) 0xe == 0x2
    then (if may_have_cc w
        then (let o3 = put_ra5_34 w (put_rb5_32 w o1) in
            if bits w 24 0x1f == 0x0
            then accept o3
            else if sets_by_cc5 w
            then accept (put_cc5_24 w o3)
            else if branches_by_cc5 w
            then accept (put_pc w (put_cc5_24 w o3))
            else none)
        else none)
    else if bit_and (bits w 28 0xf) 0xe == 0x4
    then (if may_have_cc w
        then (let o3 = put_ra5_34 w (put_rb5_32 w o1) in
            if bits w 24 0x1f == 0x0
            then accept o3
            else if sets_by_cc5 w
            then accept (put_cc5_24 w o3)
            else if branches_by_cc5 w
            then accept (put_pc w (put_cc5_24 w o3))
            else none)
        else none)
    else if bit_and (bits w 28 0xf) 0xe == 0x6
    then (if may_have_cc w
        then (let o3 = put_ra5_34 w (put_rb5_32 w o1) in
            if bits w 24 0x1f == 0x0
            then accept o3
            else if sets_by_cc5 w
            then accept (put_cc5_24 w o3)
            else if branches_by_cc5 w
            then accept (put_pc w (put_cc5_24 w o3))
            else none)
        else none)
    else if bit_and (bits w 28 0xf) 0xa == 0x8
    then group3_22 w o1
    else if bit_and (bits w 28 0xf) 0xa == 0xa
    then group3_23 w o1
    else none

unfoldable pub group3_25 : ℕ → RawDecoded48 → Option RawDecoded48
group3_25 w o = group3_21 w o

unfoldable pub group3_26 : ℕ → RawDecoded48 → Option RawDecoded48
group3_26 w o = group3_22 w o

unfoldable pub group3_27 : ℕ → RawDecoded48 → Option RawDecoded48
group3_27 w o = group3_22 w o

unfoldable pub group3_28 : ℕ → RawDecoded48 → Option RawDecoded48
group3_28 w o = group3_24 w o
