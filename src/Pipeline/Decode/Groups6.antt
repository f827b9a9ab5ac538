-- ===== src/Pipeline/Decode/Groups6.antt =====
-- Blocks of `decode_raw_word_48`, from the code of group4 on; a function for each, the blocks inside it before it.
use hostpimsim_gecon.Base.{◌==◌, ◌!=◌, ◌&&◌, if◌then◌else◌, ℕ, bit_and, Option, none}
use hostpimsim_gecon.Pipeline.Kinds.{
  op_or, op_or_s, op_or_u, op_add, op_addc, op_and, op_and_s, op_and_u, op_sub, op_subc, op_lsl_s,
  op_lslx_s, op_lsr_s, op_lsrx_s, fmt_rir, fmt_rki, fmt_rri, fmt_rric, fmt_rrici, fmt_rrif, fmt_zir,
  fmt_zri, fmt_zric, fmt_zrici, fmt_zrif,
}
use hostpimsim_gecon.Pipeline.Decode.Raw.{RawDecoded48, accept, accept_hot}
use hostpimsim_gecon.Pipeline.Decode.Fields.{
  bits, put_ra5_34, put_pc, put_cc4_24, put_imm8_16, put_imm24_0, put_dc5_40, put_rc5_39,
  put_rb5_32, put_imm32_24, put_imm32_24_b, put_imm32_24_c, put_imm28_44, put_imm12_44, put_shift,
  put_cc5_29,
}
use hostpimsim_gecon.Pipeline.Decode.Choices.{
  writes_register_of_44, writes_zero_extended_of_44, writes_sign_extended_of_44, sets_by_cc4,
  branches_by_cc4,
}

unfoldable pub group4 : ℕ → RawDecoded48 → Option RawDecoded48
group4 w o =
    if bits w 32 0x3 != 0x3 && bits w 16 0x1 == 0x0
    then (let o2 = put_rb5_32 w o in
        if bits w 37 0x3 == 0x3
        then (let o3 = put_imm32_24_c w o2 in
            if bit_and (bits w 39 0x1f) 0x1e == 0x0
            then accept_hot op_add fmt_zri o3
            else if bit_and (bits w 39 0x1f) 0x1e == 0x2
            then accept_hot op_addc fmt_zri o3
            else if bit_and (bits w 39 0x1f) 0x1e == 0xa
            then accept_hot op_and fmt_zri o3
            else if bit_and (bits w 39 0x1f) 0x1e == 0xc
            then accept_hot op_or fmt_zri o3
            else if bit_and (bits w 39 0x1f) 0x1e == 0x4
            then accept_hot op_sub fmt_zir o3
            else if bit_and (bits w 39 0x1f) 0x1e == 0x6
            then accept_hot op_subc fmt_zir o3
            else if bit_and (bits w 39 0x1f) 0x1e == 0x8
            then accept o3
            else none)
        else none)
    else if bits w 32 0x3 == 0x3
    then (let o2 = put_imm32_24_b w (put_ra5_34 w o) in
        if bits w 42 0x3 != 0x3 then accept_hot op_or fmt_rri (put_rc5_39 w o2) else none)
    else none

unfoldable pub group5 : ℕ → RawDecoded48 → Option RawDecoded48
group5 w o =
    if bits w 32 0x3 == 0x3
    then (if bits w 44 0xf == 0x5 && bits w 42 0x3 != 0x3
        then (if bits w 37 0x3 == 0x3
            then (let o4 = put_ra5_34 w o in
                if bits w 42 0x3 != 0x3 && bits w 39 0x1 == 0x1
                then accept_hot op_and_s fmt_rki (put_imm32_24_b w (put_dc5_40 w o4))
                else if bits w 42 0x3 != 0x3 && bits w 39 0x1 == 0x0
                then accept_hot op_and_u fmt_rki (put_imm32_24_b w (put_dc5_40 w o4))
                else none)
            else if bits w 37 0x3 != 0x3
            then (let o4 = put_ra5_34 w o in
                if bits w 42 0x3 != 0x3
                then accept_hot op_and fmt_rri (put_imm32_24_b w (put_rc5_39 w o4))
                else none)
            else none)
        else if bits w 44 0xf == 0x4 && bits w 42 0x3 != 0x3
        then (if bits w 42 0x3 != 0x3
            then accept (put_imm32_24_b w (put_ra5_34 w (put_rc5_39 w o)))
            else none)
        else none)
    else if bits w 32 0x3 != 0x3 && bits w 16 0x1 == 0x0
    then (let o2 = put_rb5_32 w o in
        if bits w 42 0x3 != 0x3 && bits w 39 0x1 == 0x1
        then (let o3 = put_dc5_40 w o2 in
            if bits w 37 0x3 == 0x3 then accept_hot op_or_s fmt_rri (put_imm32_24 w o3) else none)
        else if bits w 42 0x3 != 0x3 && bits w 39 0x1 == 0x0
        then (let o3 = put_dc5_40 w o2 in
            if bits w 37 0x3 == 0x3 then accept_hot op_or_u fmt_rri (put_imm32_24 w o3) else none)
        else none)
    else none

unfoldable pub group6 : ℕ → RawDecoded48 → Option RawDecoded48
group6 w o =
    if bits w 32 0x3 != 0x3 && bits w 16 0x1 == 0x0
    then (let o2 = put_rb5_32 w o in
        if bits w 42 0x3 != 0x3 && bits w 39 0x1 == 0x1
        then (let o3 = put_dc5_40 w o2 in
            if bits w 37 0x3 == 0x3 then accept_hot op_and_s fmt_rri (put_imm32_24 w o3) else none)
        else if bits w 42 0x3 != 0x3 && bits w 39 0x1 == 0x0
        then (let o3 = put_dc5_40 w o2 in
            if bits w 37 0x3 == 0x3 then accept_hot op_and_u fmt_rri (put_imm32_24 w o3) else none)
        else none)
    else if bits w 32 0x3 == 0x3
    then (if bits w 44 0xf == 0x2 && bits w 42 0x3 != 0x3
        then (if bits w 42 0x3 != 0x3
            then accept_hot op_sub fmt_rir (put_imm32_24_b w (put_ra5_34 w (put_rc5_39 w o)))
            else none)
        else if bits w 44 0xf == 0x3 && bits w 42 0x3 != 0x3
        then (if bits w 42 0x3 != 0x3
            then accept_hot op_subc fmt_rir (put_imm32_24_b w (put_ra5_34 w (put_rc5_39 w o)))
            else none)
        else none)
    else none

unfoldable pub group7_1 : ℕ → RawDecoded48 → Option RawDecoded48
group7_1 w o =
    let o1 = put_ra5_34 w (put_dc5_40 w o) in
    if sets_by_cc4 w
    then accept_hot op_and_s fmt_rric (put_imm24_0 w (put_cc4_24 w o1))
    else if branches_by_cc4 w
    then accept_hot op_and_s fmt_rrici (put_imm8_16 w (put_pc w (put_cc4_24 w o1)))
    else if bits w 24 0xf == 0x0
    then accept_hot op_and_s fmt_rrif (put_imm24_0 w o1)
    else none

unfoldable pub group7_2 : ℕ → RawDecoded48 → Option RawDecoded48
group7_2 w o =
    let o1 = put_ra5_34 w o in
    if sets_by_cc4 w
    then accept_hot op_and fmt_zric (put_imm28_44 w (put_cc4_24 w o1))
    else if branches_by_cc4 w
    then accept_hot op_and fmt_zrici (put_imm12_44 w (put_pc w (put_cc4_24 w o1)))
    else if bits w 24 0xf == 0x0
    then accept_hot op_and fmt_zrif (put_imm28_44 w o1)
    else none

unfoldable pub group7_3 : ℕ → RawDecoded48 → Option RawDecoded48
group7_3 w o =
    if writes_zero_extended_of_44 w
    then group7_1 w o
    else if writes_sign_extended_of_44 w
    then (let o2 = put_ra5_34 w (put_dc5_40 w o) in
        if sets_by_cc4 w
        then accept_hot op_and_u fmt_rric (put_imm24_0 w (put_cc4_24 w o2))
        else if branches_by_cc4 w
        then accept_hot op_and_u fmt_rrici (put_imm8_16 w (put_pc w (put_cc4_24 w o2)))
        else if bits w 24 0xf == 0x0
        then accept_hot op_and_u fmt_rrif (put_imm24_0 w o2)
        else none)
    else if writes_register_of_44 w
    then (let o2 = put_ra5_34 w (put_rc5_39 w o) in
        if sets_by_cc4 w
        then accept_hot op_and fmt_rric (put_imm24_0 w (put_cc4_24 w o2))
        else if branches_by_cc4 w
        then accept_hot op_and fmt_rrici (put_imm8_16 w (put_pc w (put_cc4_24 w o2)))
        else if bits w 24 0xf == 0x0
        then accept_hot op_and fmt_rrif (put_imm24_0 w o2)
        else none)
    else if bits w 42 0x3 == 0x3
    then group7_2 w o
    else none

unfoldable pub group7_4 : ℕ → RawDecoded48 → Option RawDecoded48
group7_4 w o =
    let o1 = put_ra5_34 w (put_dc5_40 w o) in
    if sets_by_cc4 w
    then accept (put_imm24_0 w (put_cc4_24 w o1))
    else if branches_by_cc4 w
    then accept (put_imm8_16 w (put_pc w (put_cc4_24 w o1)))
    else if bits w 24 0xf == 0x0
    then accept (put_imm24_0 w o1)
    else none

unfoldable pub group7_5 : ℕ → RawDecoded48 → Option RawDecoded48
group7_5 w o =
    let o1 = put_ra5_34 w o in
    if sets_by_cc4 w
    then accept (put_imm28_44 w (put_cc4_24 w o1))
    else if branches_by_cc4 w
    then accept (put_imm12_44 w (put_pc w (put_cc4_24 w o1)))
    else if bits w 24 0xf == 0x0
    then accept (put_imm28_44 w o1)
    else none

unfoldable pub group7_6 : ℕ → RawDecoded48 → Option RawDecoded48
group7_6 w o =
    if writes_zero_extended_of_44 w
    then group7_4 w o
    else if writes_sign_extended_of_44 w
    then (let o2 = put_ra5_34 w (put_dc5_40 w o) in
        if sets_by_cc4 w
        then accept (put_imm24_0 w (put_cc4_24 w o2))
        else if branches_by_cc4 w
        then accept (put_imm8_16 w (put_pc w (put_cc4_24 w o2)))
        else if bits w 24 0xf == 0x0
        then accept (put_imm24_0 w o2)
        else none)
    else if writes_register_of_44 w
    then (let o2 = put_ra5_34 w (put_rc5_39 w o) in
        if sets_by_cc4 w
        then accept (put_imm24_0 w (put_cc4_24 w o2))
        else if branches_by_cc4 w
        then accept (put_imm8_16 w (put_pc w (put_cc4_24 w o2)))
        else if bits w 24 0xf == 0x0
        then accept (put_imm24_0 w o2)
        else none)
    else if bits w 42 0x3 == 0x3
    then group7_5 w o
    else none

unfoldable pub group7_7 : ℕ → RawDecoded48 → Option RawDecoded48
group7_7 w o =
    let o1 = put_shift w (put_cc5_29 w o) in
    if bit_and (bits w 16 0xf) 0xf == 0x8
    then accept (put_pc w o1)
    else if bit_and (bits w 16 0xf) 0xf == 0x4
    then accept_hot op_lsl_s fmt_rrici (put_pc w o1)
    else if bit_and (bits w 16 0xf) 0xf == 0x6
    then accept (put_pc w o1)
    else if bit_and (bits w 16 0xf) 0xf == 0x7
    then accept (put_pc w o1)
    else if bit_and (bits w 16 0xf) 0xf == 0x5
    then accept_hot op_lslx_s fmt_rrici (put_pc w o1)
    else if bit_and (bits w 16 0xf) 0xf == 0xc
    then accept_hot op_lsr_s fmt_rrici (put_pc w o1)
    else if bit_and (bits w 16 0xf) 0xf == 0xe
    then accept (put_pc w o1)
    else if bit_and (bits w 16 0xf) 0xf == 0xf
    then accept (put_pc w o1)
    else if bit_and (bits w 16 0xf) 0xf == 0xd
    then accept_hot op_lsrx_s fmt_rrici (put_pc w o1)
    else if bit_and (bits w 16 0xf) 0xf == 0x2
    then accept (put_pc w o1)
    else if bit_and (bits w 16 0xf) 0xf == 0xa
    then accept (put_pc w o1)
    else none
