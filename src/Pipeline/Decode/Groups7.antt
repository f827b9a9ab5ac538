-- ===== src/Pipeline/Decode/Groups7.antt =====
-- Blocks of `decode_raw_word_48`, from the code of group7, block 8 on; a function for each, the blocks inside it before it.
use hostpimsim_gecon.Base.{◌==◌, ◌!=◌, ◌&&◌, ◌||◌, if◌then◌else◌, ℕ, ltb, bit_and, Option, none}
use hostpimsim_gecon.Pipeline.Kinds.{
  op_lsl, op_lsl_s, op_lsl_u, op_lslx, op_lslx_s, op_lslx_u, op_lsr, op_lsr_s, op_lsr_u, op_lsrx,
  op_lsrx_s, op_lsrx_u, fmt_rri, fmt_rric, fmt_rrici,
}
use hostpimsim_gecon.Pipeline.Decode.Raw.{RawDecoded48, accept, accept_hot}
use hostpimsim_gecon.Pipeline.Decode.Fields.{
  bits, put_ra5_34, put_pc, put_cc4_24, put_dc5_40, put_shift, put_cc5_29,
}
use hostpimsim_gecon.Pipeline.Decode.Choices.{sets_by_cc4, lacks_cc_of_29}
use hostpimsim_gecon.Pipeline.Decode.Groups6.{group7_7}

unfoldable pub group7_8 : ℕ → RawDecoded48 → Option RawDecoded48
group7_8 w o =
    let o1 = put_ra5_34 w (put_dc5_40 w o) in
    if lacks_cc_of_29 w
    then (let o2 = put_shift w o1 in
        if bit_and (bits w 16 0xf) 0xf == 0x8
        then accept o2
        else if bit_and (bits w 16 0xf) 0xf == 0x4
        then accept_hot op_lsl_s fmt_rri o2
        else if bit_and (bits w 16 0xf) 0xf == 0x6
        then accept o2
        else if bit_and (bits w 16 0xf) 0xf == 0x7
        then accept o2
        else if bit_and (bits w 16 0xf) 0xf == 0x5
        then accept_hot op_lslx_s fmt_rri o2
        else if bit_and (bits w 16 0xf) 0xf == 0xc
        then accept_hot op_lsr_s fmt_rri o2
        else if bit_and (bits w 16 0xf) 0xf == 0xe
        then accept o2
        else if bit_and (bits w 16 0xf) 0xf == 0xf
        then accept o2
        else if bit_and (bits w 16 0xf) 0xf == 0xd
        then accept_hot op_lsrx_s fmt_rri o2
        else if bit_and (bits w 16 0xf) 0xf == 0x2
        then accept o2
        else if bit_and (bits w 16 0xf) 0xf == 0xa
        then accept o2
        else none)
    else if sets_by_cc4 w
    then (let o2 = put_shift w (put_cc4_24 w o1) in
        if bit_and (bits w 16 0xf) 0xf == 0x8
        then accept o2
        else if bit_and (bits w 16 0xf) 0xf == 0x4
        then accept_hot op_lsl_s fmt_rric o2
        else if bit_and (bits w 16 0xf) 0xf == 0x6
        then accept o2
        else if bit_and (bits w 16 0xf) 0xf == 0x7
        then accept o2
        else if bit_and (bits w 16 0xf) 0xf == 0x5
        then accept_hot op_lslx_s fmt_rric o2
        else if bit_and (bits w 16 0xf) 0xf == 0xc
        then accept_hot op_lsr_s fmt_rric o2
        else if bit_and (bits w 16 0xf) 0xf == 0xe
        then accept o2
        else if bit_and (bits w 16 0xf) 0xf == 0xf
        then accept o2
        else if bit_and (bits w 16 0xf) 0xf == 0xd
        then accept_hot op_lsrx_s fmt_rric o2
        else if bit_and (bits w 16 0xf) 0xf == 0x2
        then accept o2
        else if bit_and (bits w 16 0xf) 0xf == 0xa
        then accept o2
        else none)
    else if (bits w 29 0x1 == 0x0
            && (ltb (bits w 24 0xf) 0x6
                || ltb 0xb (bits w 24 0xf)
                || bit_and (bits w 24 0xf) 0xe == 0x8)
          || bits w 29 0x1 == 0x1
            && (ltb 0xd (bits w 24 0xf) || bit_and (bits w 24 0xf) 0xe == 0x8))
        && (bits w 29 0x1 != 0x0 || bits w 24 0xf != 0x0)
    then group7_7 w o1
    else none

unfoldable pub group7_9 : ℕ → RawDecoded48 → Option RawDecoded48
group7_9 w o =
    let o1 = put_shift w (put_cc5_29 w o) in
    if bit_and (bits w 16 0xf) 0xf == 0x8
    then accept (put_pc w o1)
    else if bit_and (bits w 16 0xf) 0xf == 0x4
    then accept_hot op_lsl_u fmt_rrici (put_pc w o1)
    else if bit_and (bits w 16 0xf) 0xf == 0x6
    then accept (put_pc w o1)
    else if bit_and (bits w 16 0xf) 0xf == 0x7
    then accept (put_pc w o1)
    else if bit_and (bits w 16 0xf) 0xf == 0x5
    then accept_hot op_lslx_u fmt_rrici (put_pc w o1)
    else if bit_and (bits w 16 0xf) 0xf == 0xc
    then accept_hot op_lsr_u fmt_rrici (put_pc w o1)
    else if bit_and (bits w 16 0xf) 0xf == 0xe
    then accept (put_pc w o1)
    else if bit_and (bits w 16 0xf) 0xf == 0xf
    then accept (put_pc w o1)
    else if bit_and (bits w 16 0xf) 0xf == 0xd
    then accept_hot op_lsrx_u fmt_rrici (put_pc w o1)
    else if bit_and (bits w 16 0xf) 0xf == 0x2
    then accept (put_pc w o1)
    else if bit_and (bits w 16 0xf) 0xf == 0xa
    then accept (put_pc w o1)
    else none

unfoldable pub group7_10 : ℕ → RawDecoded48 → Option RawDecoded48
group7_10 w o =
    let o1 = put_ra5_34 w (put_dc5_40 w o) in
    if lacks_cc_of_29 w
    then (let o2 = put_shift w o1 in
        if bit_and (bits w 16 0xf) 0xf == 0x8
        then accept o2
        else if bit_and (bits w 16 0xf) 0xf == 0x4
        then accept_hot op_lsl_u fmt_rri o2
        else if bit_and (bits w 16 0xf) 0xf == 0x6
        then accept o2
        else if bit_and (bits w 16 0xf) 0xf == 0x7
        then accept o2
        else if bit_and (bits w 16 0xf) 0xf == 0x5
        then accept_hot op_lslx_u fmt_rri o2
        else if bit_and (bits w 16 0xf) 0xf == 0xc
        then accept_hot op_lsr_u fmt_rri o2
        else if bit_and (bits w 16 0xf) 0xf == 0xe
        then accept o2
        else if bit_and (bits w 16 0xf) 0xf == 0xf
        then accept o2
        else if bit_and (bits w 16 0xf) 0xf == 0xd
        then accept_hot op_lsrx_u fmt_rri o2
        else if bit_and (bits w 16 0xf) 0xf == 0x2
        then accept o2
        else if bit_and (bits w 16 0xf) 0xf == 0xa
        then accept o2
        else none)
    else if sets_by_cc4 w
    then (let o2 = put_shift w (put_cc4_24 w o1) in
        if bit_and (bits w 16 0xf) 0xf == 0x8
        then accept o2
        else if bit_and (bits w 16 0xf) 0xf == 0x4
        then accept_hot op_lsl_u fmt_rric o2
        else if bit_and (bits w 16 0xf) 0xf == 0x6
        then accept o2
        else if bit_and (bits w 16 0xf) 0xf == 0x7
        then accept o2
        else if bit_and (bits w 16 0xf) 0xf == 0x5
        then accept_hot op_lslx_u fmt_rric o2
        else if bit_and (bits w 16 0xf) 0xf == 0xc
        then accept_hot op_lsr_u fmt_rric o2
        else if bit_and (bits w 16 0xf) 0xf == 0xe
        then accept o2
        else if bit_and (bits w 16 0xf) 0xf == 0xf
        then accept o2
        else if bit_and (bits w 16 0xf) 0xf == 0xd
        then accept_hot op_lsrx_u fmt_rric o2
        else if bit_and (bits w 16 0xf) 0xf == 0x2
        then accept o2
        else if bit_and (bits w 16 0xf) 0xf == 0xa
        then accept o2
        else none)
    else if (bits w 29 0x1 == 0x0
            && (ltb (bits w 24 0xf) 0x6
                || ltb 0xb (bits w 24 0xf)
                || bit_and (bits w 24 0xf) 0xe == 0x8)
          || bits w 29 0x1 == 0x1
            && (ltb 0xd (bits w 24 0xf) || bit_and (bits w 24 0xf) 0xe == 0x8))
        && (bits w 29 0x1 != 0x0 || bits w 24 0xf != 0x0)
    then group7_9 w o1
    else none

unfoldable pub group7_11 : ℕ → RawDecoded48 → Option RawDecoded48
group7_11 w o =
    let o1 = put_shift w (put_cc5_29 w o) in
    if bit_and (bits w 16 0xf) 0xf == 0x8
    then accept (put_pc w o1)
    else if bit_and (bits w 16 0xf) 0xf == 0x6
    then accept (put_pc w o1)
    else if bit_and (bits w 16 0xf) 0xf == 0x7
    then accept (put_pc w o1)
    else if bit_and (bits w 16 0xf) 0xf == 0x4
    then accept_hot op_lsl fmt_rrici (put_pc w o1)
    else if bit_and (bits w 16 0xf) 0xf == 0x5
    then accept_hot op_lslx fmt_rrici (put_pc w o1)
    else if bit_and (bits w 16 0xf) 0xf == 0xe
    then accept (put_pc w o1)
    else if bit_and (bits w 16 0xf) 0xf == 0xf
    then accept (put_pc w o1)
    else if bit_and (bits w 16 0xf) 0xf == 0xc
    then accept_hot op_lsr fmt_rrici (put_pc w o1)
    else if bit_and (bits w 16 0xf) 0xf == 0xd
    then accept_hot op_lsrx fmt_rrici (put_pc w o1)
    else if bit_and (bits w 16 0xf) 0xf == 0x2
    then accept (put_pc w o1)
    else if bit_and (bits w 16 0xf) 0xf == 0xa
    then accept (put_pc w o1)
    else none
