-- ===== src/Pipeline/Decode/Groups2.antt =====
-- Blocks of `decode_raw_word_48`, from the code of group1, block 6 on; a function for each, the blocks inside it before it.
use hostpimsim_gecon.Base.{◌==◌, ◌!=◌, ◌&&◌, if◌then◌else◌, ℕ, bit_and, Option, none}
use hostpimsim_gecon.Pipeline.Kinds.{
  op_add, op_addc, op_sub, op_subc, op_ldma, op_sdma, op_sw, op_sb, op_sh, op_sd, fmt_erir,
  fmt_esir, fmt_rri, fmt_rric, fmt_rrici, fmt_rrif, fmt_ssi,
}
use hostpimsim_gecon.Pipeline.Decode.Raw.{RawDecoded48, accept, accept_hot}
use hostpimsim_gecon.Pipeline.Decode.Fields.{
  bits, put_ra5_34, put_pc, put_imm8_16, put_imm24_0, put_endian, put_dc5_40, put_rc5_39,
  put_imm_dma, put_rb5_32, put_off24_0_b, put_db, put_imm32_24, put_imm32_24_b, put_dc5_44,
  put_cc5_24, put_cc6_30, put_imm17_11,
}
use hostpimsim_gecon.Pipeline.Decode.Choices.{
  may_have_cc, sets_by_cc5, branches_by_cc5, lacks_cc_of_30, sets_by_cc_of_30, branches_by_cc_of_30,
}
use hostpimsim_gecon.Pipeline.Decode.Groups1.{group1_5}

unfoldable pub group1_6 : ℕ → RawDecoded48 → Option RawDecoded48
group1_6 w o =
    if bits w 16 0x1 == 0x0
    then (let o2 = put_ra5_34 w (put_rb5_32 w o) in
        if bit_and (bits w 28 0xf) 0xc == 0x4
        then (if bits w 28 0x1 == 0x0
            then (let o4 = put_endian w (put_off24_0_b w o2) in
                if bit_and (bits w 24 0xf) 0x6 == 0x0
                then accept_hot op_sb fmt_erir o4
                else if bit_and (bits w 24 0xf) 0x6 == 0x2
                then accept_hot op_sh fmt_erir o4
                else if bit_and (bits w 24 0xf) 0x6 == 0x4
                then accept_hot op_sw fmt_erir o4
                else none)
            else if bits w 28 0x1 == 0x1
            then (let o4 = put_endian w (put_off24_0_b w o2) in
                if bit_and (bits w 24 0xf) 0x6 == 0x0
                then accept_hot op_sb fmt_esir o4
                else if bit_and (bits w 24 0xf) 0x6 == 0x2
                then accept_hot op_sh fmt_esir o4
                else if bit_and (bits w 24 0xf) 0x6 == 0x4
                then accept_hot op_sw fmt_esir o4
                else none)
            else none)
        else none)
    else if bits w 16 0x1 == 0x1
    then (let o2 = put_ra5_34 w (put_db w o) in
        if bit_and (bits w 28 0xf) 0xc == 0x4
        then (if bits w 28 0x1 == 0x0
            then (let o4 = put_endian w (put_off24_0_b w o2) in
                if bit_and (bits w 24 0xf) 0x6 == 0x6 then accept_hot op_sd fmt_erir o4 else none)
            else if bits w 28 0x1 == 0x1
            then (let o4 = put_endian w (put_off24_0_b w o2) in
                if bit_and (bits w 24 0xf) 0x6 == 0x6 then accept_hot op_sd fmt_esir o4 else none)
            else none)
        else none)
    else none

unfoldable pub group1 : ℕ → RawDecoded48 → Option RawDecoded48
group1 w o =
    if bits w 32 0x3 == 0x3
    then group1_5 w o
    else if bits w 32 0x3 != 0x3
    then (if bit_and (bits w 39 0x1f) 0x1f == 0x0
        then (let o3 = put_ra5_34 w (put_rb5_32 w (put_imm_dma w o)) in
            if bit_and (bits w 0 0xffff) 0xffff == 0x0
            then accept_hot op_ldma fmt_rri o3
            else if bit_and (bits w 0 0xffff) 0xffff == 0x1
            then accept o3
            else if bit_and (bits w 0 0xffff) 0xffff == 0x2
            then accept_hot op_sdma fmt_rri o3
            else none)
        else if bits w 42 0x3 == 0x3
        then group1_6 w o
        else none)
    else none

unfoldable pub group2 : ℕ → RawDecoded48 → Option RawDecoded48
group2 w o =
    if bits w 32 0x3 != 0x3 && bits w 16 0x1 == 0x0
    then (let o2 = put_rb5_32 w o in
        if bits w 42 0x3 != 0x3 && bits w 39 0x1 == 0x1
        then (let o3 = put_dc5_40 w o2 in
            if bits w 37 0x3 == 0x3 then accept (put_imm32_24 w o3) else none)
        else if bits w 42 0x3 != 0x3 && bits w 39 0x1 == 0x0
        then (let o3 = put_dc5_40 w o2 in
            if bits w 37 0x3 == 0x3 then accept (put_imm32_24 w o3) else none)
        else none)
    else if bits w 32 0x3 == 0x3
    then (if bits w 44 0xf == 0x0 && bits w 42 0x3 != 0x3
        then (if bits w 42 0x3 != 0x3
            then accept_hot op_add fmt_rri (put_imm32_24_b w (put_ra5_34 w (put_rc5_39 w o)))
            else none)
        else if bits w 44 0xf == 0x1 && bits w 42 0x3 != 0x3
        then (if bits w 42 0x3 != 0x3
            then accept_hot op_addc fmt_rri (put_imm32_24_b w (put_ra5_34 w (put_rc5_39 w o)))
            else none)
        else none)
    else none

unfoldable pub group3_1 : ℕ → RawDecoded48 → Option RawDecoded48
group3_1 w o =
    if may_have_cc w
    then (if sets_by_cc5 w
        then accept (put_imm24_0 w (put_cc5_24 w o))
        else if branches_by_cc5 w
        then accept (put_imm8_16 w (put_pc w (put_cc5_24 w o)))
        else if bits w 24 0x1f == 0x0
        then accept (put_imm24_0 w o)
        else none)
    else none

unfoldable pub group3_2 : ℕ → RawDecoded48 → Option RawDecoded48
group3_2 w o = group3_1 w o

unfoldable pub group3_3 : ℕ → RawDecoded48 → Option RawDecoded48
group3_3 w o =
    if may_have_cc w
    then (if sets_by_cc_of_30 w
        then accept (put_imm24_0 w (put_cc6_30 w o))
        else if branches_by_cc_of_30 w
        then accept (put_imm8_16 w (put_pc w (put_cc6_30 w o)))
        else if lacks_cc_of_30 w
        then accept (put_imm24_0 w o)
        else none)
    else none

unfoldable pub group3_4 : ℕ → RawDecoded48 → Option RawDecoded48
group3_4 w o = group3_3 w o

unfoldable pub group3_5 : ℕ → RawDecoded48 → Option RawDecoded48
group3_5 w o =
    let o1 = put_ra5_34 w (put_dc5_44 w o) in
    if bit_and (bits w 28 0xf) 0xe == 0x0
    then group3_1 w o1
    else if bit_and (bits w 28 0xf) 0xe == 0x2
    then group3_2 w o1
    else if bit_and (bits w 28 0xf) 0xe == 0x4
    then (if sets_by_cc5 w
        then accept (put_imm24_0 w (put_cc5_24 w o1))
        else if branches_by_cc5 w
        then accept (put_imm8_16 w (put_pc w (put_cc5_24 w o1)))
        else if bits w 24 0x1f == 0x0
        then accept (put_imm24_0 w o1)
        else none)
    else if bit_and (bits w 28 0xf) 0xa == 0x8
    then group3_3 w o1
    else if bit_and (bits w 28 0xf) 0xe == 0x6
    then (if sets_by_cc5 w
        then accept (put_imm24_0 w (put_cc5_24 w o1))
        else if branches_by_cc5 w
        then accept (put_imm8_16 w (put_pc w (put_cc5_24 w o1)))
        else if bits w 24 0x1f == 0x0
        then accept (put_imm24_0 w o1)
        else none)
    else if bit_and (bits w 28 0xf) 0xa == 0xa
    then group3_4 w o1
    else none

unfoldable pub group3_6 : ℕ → RawDecoded48 → Option RawDecoded48
group3_6 w o = group3_1 w o

unfoldable pub group3_7 : ℕ → RawDecoded48 → Option RawDecoded48
group3_7 w o = group3_1 w o

unfoldable pub group3_8 : ℕ → RawDecoded48 → Option RawDecoded48
group3_8 w o = group3_3 w o

unfoldable pub group3_9 : ℕ → RawDecoded48 → Option RawDecoded48
group3_9 w o = group3_3 w o

unfoldable pub group3_10 : ℕ → RawDecoded48 → Option RawDecoded48
group3_10 w o =
    if may_have_cc w
    then (if sets_by_cc5 w
        then accept_hot op_add fmt_rric (put_imm24_0 w (put_cc5_24 w o))
        else if branches_by_cc5 w
        then accept_hot op_add fmt_rrici (put_imm8_16 w (put_pc w (put_cc5_24 w o)))
        else if bits w 24 0x1f == 0x0
        then accept_hot op_add fmt_rrif (put_imm24_0 w o)
        else none)
    else if bits w 28 0x1 == 0x1 && bits w 24 0xf == 0x0
    then accept_hot op_add fmt_ssi (put_imm17_11 w o)
    else none

unfoldable pub group3_11 : ℕ → RawDecoded48 → Option RawDecoded48
group3_11 w o =
    if may_have_cc w
    then (if sets_by_cc5 w
        then accept_hot op_addc fmt_rric (put_imm24_0 w (put_cc5_24 w o))
        else if branches_by_cc5 w
        then accept_hot op_addc fmt_rrici (put_imm8_16 w (put_pc w (put_cc5_24 w o)))
        else if bits w 24 0x1f == 0x0
        then accept_hot op_addc fmt_rrif (put_imm24_0 w o)
        else none)
    else none

unfoldable pub group3_12 : ℕ → RawDecoded48 → Option RawDecoded48
group3_12 w o =
    if may_have_cc w
    then (if sets_by_cc_of_30 w
        then accept_hot op_sub fmt_rric (put_imm24_0 w (put_cc6_30 w o))
        else if branches_by_cc_of_30 w
        then accept_hot op_sub fmt_rrici (put_imm8_16 w (put_pc w (put_cc6_30 w o)))
        else if lacks_cc_of_30 w
        then accept_hot op_sub fmt_rrif (put_imm24_0 w o)
        else none)
    else if bits w 28 0x1 == 0x1 && bits w 24 0xf == 0x0
    then accept_hot op_sub fmt_ssi (put_imm17_11 w o)
    else none

unfoldable pub group3_13 : ℕ → RawDecoded48 → Option RawDecoded48
group3_13 w o =
    if may_have_cc w
    then (if sets_by_cc_of_30 w
        then accept_hot op_subc fmt_rric (put_imm24_0 w (put_cc6_30 w o))
        else if branches_by_cc_of_30 w
        then accept_hot op_subc fmt_rrici (put_imm8_16 w (put_pc w (put_cc6_30 w o)))
        else if lacks_cc_of_30 w
        then accept_hot op_subc fmt_rrif (put_imm24_0 w o)
        else none)
    else none
