-- ===== src/Pipeline/Decode/Groups9.antt =====
-- Blocks of `decode_raw_word_48`, from the code of group7, block 18 on; a function for each, the blocks inside it before it.
use hostpimsim_gecon.Base.{◌==◌, if◌then◌else◌, ℕ, bit_and, Option, none}
use hostpimsim_gecon.Pipeline.Kinds.{
  op_or, op_or_s, op_or_u, op_clz, fmt_rr, fmt_rrc, fmt_rrci, fmt_rric, fmt_rrici, fmt_rrif, fmt_zr,
  fmt_zrc, fmt_zrci, fmt_zric, fmt_zrici, fmt_zrif,
}
use hostpimsim_gecon.Pipeline.Decode.Raw.{RawDecoded48, accept, accept_hot}
use hostpimsim_gecon.Pipeline.Decode.Fields.{
  bits, put_ra5_34, put_pc, put_cc4_24, put_imm8_16, put_imm24_0, put_dc5_40, put_rc5_39,
  put_imm28_44, put_imm12_44,
}
use hostpimsim_gecon.Pipeline.Decode.Choices.{
  writes_register_of_44, writes_zero_extended_of_44, writes_sign_extended_of_44, sets_by_cc4,
  branches_by_cc4,
}
use hostpimsim_gecon.Pipeline.Decode.Groups6.{group7_4, group7_5, group7_6}
use hostpimsim_gecon.Pipeline.Decode.Groups8.{group7_15, group7_16, group7_17}

unfoldable pub group7_18 : ℕ → RawDecoded48 → Option RawDecoded48
group7_18 w o =
    if writes_zero_extended_of_44 w
    then (let o2 = put_dc5_40 w o in
        if bits w 24 0xf == 0x0
        then accept o2
        else if sets_by_cc4 w
        then accept (put_cc4_24 w o2)
        else if branches_by_cc4 w
        then accept (put_pc w (put_cc4_24 w o2))
        else none)
    else if writes_sign_extended_of_44 w
    then (let o2 = put_dc5_40 w o in
        if bits w 24 0xf == 0x0
        then accept o2
        else if sets_by_cc4 w
        then accept (put_cc4_24 w o2)
        else if branches_by_cc4 w
        then accept (put_pc w (put_cc4_24 w o2))
        else none)
    else if writes_register_of_44 w
    then (let o2 = put_rc5_39 w o in
        if bits w 24 0xf == 0x0
        then accept_hot op_clz fmt_rr o2
        else if sets_by_cc4 w
        then accept_hot op_clz fmt_rrc (put_cc4_24 w o2)
        else if branches_by_cc4 w
        then accept_hot op_clz fmt_rrci (put_pc w (put_cc4_24 w o2))
        else none)
    else if bits w 42 0x3 == 0x3
    then (if bits w 24 0xf == 0x0
        then accept_hot op_clz fmt_zr o
        else if sets_by_cc4 w
        then accept_hot op_clz fmt_zrc (put_cc4_24 w o)
        else if branches_by_cc4 w
        then accept_hot op_clz fmt_zrci (put_pc w (put_cc4_24 w o))
        else none)
    else none

unfoldable pub group7_19 : ℕ → RawDecoded48 → Option RawDecoded48
group7_19 w o =
    if writes_zero_extended_of_44 w
    then (let o2 = put_dc5_40 w o in
        if bits w 24 0xf == 0x0
        then accept o2
        else if sets_by_cc4 w
        then accept (put_cc4_24 w o2)
        else if branches_by_cc4 w
        then accept (put_pc w (put_cc4_24 w o2))
        else none)
    else if writes_register_of_44 w
    then (let o2 = put_rc5_39 w o in
        if bits w 24 0xf == 0x0
        then accept o2
        else if sets_by_cc4 w
        then accept (put_cc4_24 w o2)
        else if branches_by_cc4 w
        then accept (put_pc w (put_cc4_24 w o2))
        else none)
    else if bits w 42 0x3 == 0x3
    then (if bits w 24 0xf == 0x0
        then accept o
        else if sets_by_cc4 w
        then accept (put_cc4_24 w o)
        else if branches_by_cc4 w
        then accept (put_pc w (put_cc4_24 w o))
        else none)
    else none

unfoldable pub group7_20 : ℕ → RawDecoded48 → Option RawDecoded48
group7_20 w o = group7_19 w o

unfoldable pub group7_21 : ℕ → RawDecoded48 → Option RawDecoded48
group7_21 w o =
    if writes_sign_extended_of_44 w
    then (let o2 = put_dc5_40 w o in
        if bits w 24 0xf == 0x0
        then accept o2
        else if sets_by_cc4 w
        then accept (put_cc4_24 w o2)
        else if branches_by_cc4 w
        then accept (put_pc w (put_cc4_24 w o2))
        else none)
    else if writes_register_of_44 w
    then (let o2 = put_rc5_39 w o in
        if bits w 24 0xf == 0x0
        then accept o2
        else if sets_by_cc4 w
        then accept (put_cc4_24 w o2)
        else if branches_by_cc4 w
        then accept (put_pc w (put_cc4_24 w o2))
        else none)
    else if bits w 42 0x3 == 0x3
    then (if bits w 24 0xf == 0x0
        then accept o
        else if sets_by_cc4 w
        then accept (put_cc4_24 w o)
        else if branches_by_cc4 w
        then accept (put_pc w (put_cc4_24 w o))
        else none)
    else none

unfoldable pub group7_22 : ℕ → RawDecoded48 → Option RawDecoded48
group7_22 w o =
    let o1 = put_ra5_34 w o in
    if bit_and (bits w 20 0xf) 0x7 == 0x0
    then group7_15 w o1
    else if bit_and (bits w 20 0xf) 0x7 == 0x1
    then group7_16 w o1
    else if bit_and (bits w 20 0xf) 0x7 == 0x2
    then group7_17 w o1
    else if bit_and (bits w 20 0xf) 0x7 == 0x3
    then group7_18 w o1
    else if bit_and (bits w 20 0xf) 0x7 == 0x5
    then group7_19 w o1
    else if bit_and (bits w 20 0xf) 0x7 == 0x7
    then group7_20 w o1
    else if bit_and (bits w 20 0xf) 0x7 == 0x4
    then group7_21 w o1
    else if bit_and (bits w 20 0xf) 0x7 == 0x6
    then (if writes_sign_extended_of_44 w
        then (let o3 = put_dc5_40 w o1 in
            if bits w 24 0xf == 0x0
            then accept o3
            else if sets_by_cc4 w
            then accept (put_cc4_24 w o3)
            else if branches_by_cc4 w
            then accept (put_pc w (put_cc4_24 w o3))
            else none)
        else if writes_register_of_44 w
        then (let o3 = put_rc5_39 w o1 in
            if bits w 24 0xf == 0x0
            then accept o3
            else if sets_by_cc4 w
            then accept (put_cc4_24 w o3)
            else if branches_by_cc4 w
            then accept (put_pc w (put_cc4_24 w o3))
            else none)
        else if bits w 42 0x3 == 0x3
        then (if bits w 24 0xf == 0x0
            then accept o1
            else if sets_by_cc4 w
            then accept (put_cc4_24 w o1)
            else if branches_by_cc4 w
            then accept (put_pc w (put_cc4_24 w o1))
            else none)
        else none)
    else none

unfoldable pub group7_23 : ℕ → RawDecoded48 → Option RawDecoded48
group7_23 w o = group7_4 w o

unfoldable pub group7_24 : ℕ → RawDecoded48 → Option RawDecoded48
group7_24 w o = group7_5 w o

unfoldable pub group7_25 : ℕ → RawDecoded48 → Option RawDecoded48
group7_25 w o = group7_6 w o

unfoldable pub group7_26 : ℕ → RawDecoded48 → Option RawDecoded48
group7_26 w o = group7_4 w o

unfoldable pub group7_27 : ℕ → RawDecoded48 → Option RawDecoded48
group7_27 w o = group7_5 w o

unfoldable pub group7_28 : ℕ → RawDecoded48 → Option RawDecoded48
group7_28 w o = group7_6 w o

unfoldable pub group7_29 : ℕ → RawDecoded48 → Option RawDecoded48
group7_29 w o = group7_4 w o

unfoldable pub group7_30 : ℕ → RawDecoded48 → Option RawDecoded48
group7_30 w o = group7_5 w o

unfoldable pub group7_31 : ℕ → RawDecoded48 → Option RawDecoded48
group7_31 w o = group7_6 w o

unfoldable pub group7_32 : ℕ → RawDecoded48 → Option RawDecoded48
group7_32 w o = group7_4 w o

unfoldable pub group7_33 : ℕ → RawDecoded48 → Option RawDecoded48
group7_33 w o = group7_5 w o

unfoldable pub group7_34 : ℕ → RawDecoded48 → Option RawDecoded48
group7_34 w o = group7_6 w o

unfoldable pub group7_35 : ℕ → RawDecoded48 → Option RawDecoded48
group7_35 w o =
    let o1 = put_ra5_34 w (put_dc5_40 w o) in
    if sets_by_cc4 w
    then accept_hot op_or_s fmt_rric (put_imm24_0 w (put_cc4_24 w o1))
    else if branches_by_cc4 w
    then accept_hot op_or_s fmt_rrici (put_imm8_16 w (put_pc w (put_cc4_24 w o1)))
    else if bits w 24 0xf == 0x0
    then accept_hot op_or_s fmt_rrif (put_imm24_0 w o1)
    else none

unfoldable pub group7_36 : ℕ → RawDecoded48 → Option RawDecoded48
group7_36 w o =
    let o1 = put_ra5_34 w o in
    if sets_by_cc4 w
    then accept_hot op_or fmt_zric (put_imm28_44 w (put_cc4_24 w o1))
    else if branches_by_cc4 w
    then accept_hot op_or fmt_zrici (put_imm12_44 w (put_pc w (put_cc4_24 w o1)))
    else if bits w 24 0xf == 0x0
    then accept_hot op_or fmt_zrif (put_imm28_44 w o1)
    else none

unfoldable pub group7_37 : ℕ → RawDecoded48 → Option RawDecoded48
group7_37 w o =
    if writes_zero_extended_of_44 w
    then group7_35 w o
    else if writes_sign_extended_of_44 w
    then (let o2 = put_ra5_34 w (put_dc5_40 w o) in
        if sets_by_cc4 w
        then accept_hot op_or_u fmt_rric (put_imm24_0 w (put_cc4_24 w o2))
        else if branches_by_cc4 w
        then accept_hot op_or_u fmt_rrici (put_imm8_16 w (put_pc w (put_cc4_24 w o2)))
        else if bits w 24 0xf == 0x0
        then accept_hot op_or_u fmt_rrif (put_imm24_0 w o2)
        else none)
    else if writes_register_of_44 w
    then (let o2 = put_ra5_34 w (put_rc5_39 w o) in
        if sets_by_cc4 w
        then accept_hot op_or fmt_rric (put_imm24_0 w (put_cc4_24 w o2))
        else if branches_by_cc4 w
        then accept_hot op_or fmt_rrici (put_imm8_16 w (put_pc w (put_cc4_24 w o2)))
        else if bits w 24 0xf == 0x0
        then accept_hot op_or fmt_rrif (put_imm24_0 w o2)
        else none)
    else if bits w 42 0x3 == 0x3
    then group7_36 w o
    else none

unfoldable pub group7_38 : ℕ → RawDecoded48 → Option RawDecoded48
group7_38 w o = group7_4 w o

unfoldable pub group7_39 : ℕ → RawDecoded48 → Option RawDecoded48
group7_39 w o = group7_5 w o

unfoldable pub group7_40 : ℕ → RawDecoded48 → Option RawDecoded48
group7_40 w o = group7_6 w o
