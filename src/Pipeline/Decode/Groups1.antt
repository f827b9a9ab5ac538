-- ===== src/Pipeline/Decode/Groups1.antt =====
-- Blocks of `decode_raw_word_48`, from the code of group1, block 1 on; a function for each, the blocks inside it before it.
use hostpimsim_gecon.Base.{◌==◌, ◌!=◌, ◌&&◌, ◌||◌, if◌then◌else◌, ℕ, ltb, bit_and, Option, none}
use hostpimsim_gecon.Pipeline.Kinds.{
  op_acquire, op_release, op_resume, op_boot, op_lbu, op_lbs, op_lw, op_lw_s, op_ld, op_sw, op_sb,
  op_sh, op_sd, op_stop, op_nop, op_fault, fmt_none, fmt_ci, fmt_erii, fmt_erri, fmt_ersi, fmt_esii,
  fmt_i, fmt_rici,
}
use hostpimsim_gecon.Pipeline.Decode.Raw.{RawDecoded48, accept, accept_hot}
use hostpimsim_gecon.Pipeline.Decode.Fields.{
  bits, put_ra5_34, put_pc, put_imm16_39, put_cc2_24, put_cc4_24, put_imm8_16, put_imm24_0,
  put_off24_0, put_off12_12, put_endian, put_imm8_0, put_imm16_0, put_dc5_40, put_rc5_39,
  put_dc5_39,
}

unfoldable pub group1_1 : ℕ → RawDecoded48 → Option RawDecoded48
group1_1 w o =
    if bit_and (bits w 39 0x1f) 0x1b == 0x1b
    then (let o2 = put_ra5_34 w o in
        if ltb (bits w 24 0xf) 0x6 || ltb 0xb (bits w 24 0xf)
        then accept_hot op_boot fmt_rici (put_imm8_16 w (put_pc w (put_cc4_24 w o2)))
        else none)
    else if bit_and (bits w 39 0x1f) 0x1f == 0x19
    then (let o2 = put_ra5_34 w o in
        if ltb (bits w 24 0xf) 0x6 || ltb 0xb (bits w 24 0xf)
        then accept (put_imm8_16 w (put_pc w (put_cc4_24 w o2)))
        else none)
    else if bit_and (bits w 39 0x1f) 0x1f == 0x1c
    then (if bits w 34 0x1f == 0x18
        then (let o3 = put_ra5_34 w o in
            if bits w 24 0xf == 0x0 then accept_hot op_fault fmt_i (put_imm24_0 w o3) else none)
        else none)
    else if bit_and (bits w 39 0x1f) 0x1f == 0x18
    then (if bit_and (bits w 28 0xf) 0xf == 0x3
        then (let o3 = put_ra5_34 w o in
            if ltb (bits w 24 0xf) 0x6 || ltb 0xb (bits w 24 0xf)
            then accept (put_imm8_16 w (put_pc w (put_cc4_24 w o3)))
            else none)
        else none)
    else if bit_and (bits w 39 0x1f) 0x1b == 0x1a
    then (let o2 = put_ra5_34 w o in
        if ltb (bits w 24 0xf) 0x6 || ltb 0xb (bits w 24 0xf)
        then accept_hot op_resume fmt_rici (put_imm8_16 w (put_pc w (put_cc4_24 w o2)))
        else none)
    else if bit_and (bits w 39 0x1f) 0x1f == 0x1d
    then (if bits w 34 0x1f == 0x1c
        then (let o3 = put_ra5_34 w o in
            if ltb (bits w 24 0xf) 0x6 || ltb 0xb (bits w 24 0xf)
            then accept_hot op_stop fmt_ci (put_pc w (put_cc4_24 w o3))
            else none)
        else none)
    else none

unfoldable pub group1_2 : ℕ → RawDecoded48 → Option RawDecoded48
group1_2 w o =
    if bits w 28 0x1 == 0x0
    then (let o2 = put_endian w (put_off12_12 w (put_ra5_34 w o)) in
        if bit_and (bits w 24 0xf) 0x6 == 0x0
        then accept_hot op_sb fmt_erii (put_imm8_0 w o2)
        else if bit_and (bits w 24 0xf) 0x6 == 0x6
        then accept_hot op_sd fmt_erii (put_imm16_0 w o2)
        else if bit_and (bits w 24 0xf) 0x6 == 0x2
        then accept_hot op_sh fmt_erii (put_imm16_0 w o2)
        else if bit_and (bits w 24 0xf) 0x6 == 0x4
        then accept_hot op_sw fmt_erii (put_imm16_0 w o2)
        else none)
    else if bits w 28 0x1 == 0x1
    then (let o2 = put_endian w (put_off12_12 w (put_ra5_34 w o)) in
        if bit_and (bits w 24 0xf) 0x6 == 0x0
        then accept_hot op_sb fmt_esii (put_imm8_0 w o2)
        else if bit_and (bits w 24 0xf) 0x6 == 0x6
        then accept_hot op_sd fmt_esii (put_imm16_0 w o2)
        else if bit_and (bits w 24 0xf) 0x6 == 0x2
        then accept_hot op_sh fmt_esii (put_imm16_0 w o2)
        else if bit_and (bits w 24 0xf) 0x6 == 0x4
        then accept_hot op_sw fmt_esii (put_imm16_0 w o2)
        else none)
    else none

unfoldable pub group1_3 : ℕ → RawDecoded48 → Option RawDecoded48
group1_3 w o =
    let o1 = put_endian w (put_off24_0 w (put_ra5_34 w o)) in
    if bit_and (bits w 24 0xf) 0x7 == 0x1
    then (if bits w 29 0x1 == 0x1 && bits w 39 0x1 == 0x1
        then accept (put_dc5_40 w o1)
        else if bits w 29 0x1 == 0x0
        then accept_hot op_lbs fmt_erri (put_rc5_39 w o1)
        else none)
    else if bit_and (bits w 24 0xf) 0x7 == 0x0
    then (if bits w 29 0x1 == 0x1 && bits w 39 0x1 == 0x0
        then accept (put_dc5_40 w o1)
        else if bits w 29 0x1 == 0x0
        then accept_hot op_lbu fmt_erri (put_rc5_39 w o1)
        else none)
    else if bit_and (bits w 24 0xf) 0x7 == 0x3
    then (if bits w 29 0x1 == 0x1 && bits w 39 0x1 == 0x1
        then accept (put_dc5_40 w o1)
        else if bits w 29 0x1 == 0x0
        then accept (put_rc5_39 w o1)
        else none)
    else if bit_and (bits w 24 0xf) 0x7 == 0x2
    then (if bits w 29 0x1 == 0x1 && bits w 39 0x1 == 0x0
        then accept (put_dc5_40 w o1)
        else if bits w 29 0x1 == 0x0
        then accept (put_rc5_39 w o1)
        else none)
    else if bit_and (bits w 24 0xf) 0x6 == 0x4
    then (if bits w 29 0x1 == 0x1 && bits w 39 0x1 == 0x1
        then accept_hot op_lw_s fmt_erri (put_dc5_40 w o1)
        else if bits w 29 0x1 == 0x1 && bits w 39 0x1 == 0x0
        then accept (put_dc5_40 w o1)
        else if bits w 29 0x1 == 0x0
        then accept_hot op_lw fmt_erri (put_rc5_39 w o1)
        else none)
    else none

unfoldable pub group1_4 : ℕ → RawDecoded48 → Option RawDecoded48
group1_4 w o =
    if bits w 25 0x3 != 0x3
    then (if bit_and (bits w 28 0xf) 0xc == 0x4
        then (if bits w 28 0x1 == 0x0
            then group1_3 w o
            else if bits w 28 0x1 == 0x1
            then (let o4 = put_endian w (put_off24_0 w (put_ra5_34 w o)) in
                if bit_and (bits w 24 0xf) 0x7 == 0x1
                then (if bits w 29 0x1 == 0x0
                    then accept_hot op_lbs fmt_ersi (put_rc5_39 w o4)
                    else none)
                else if bit_and (bits w 24 0xf) 0x7 == 0x0
                then (if bits w 29 0x1 == 0x0
                    then accept_hot op_lbu fmt_ersi (put_rc5_39 w o4)
                    else none)
                else if bit_and (bits w 24 0xf) 0x7 == 0x3
                then (if bits w 29 0x1 == 0x0 then accept (put_rc5_39 w o4) else none)
                else if bit_and (bits w 24 0xf) 0x7 == 0x2
                then (if bits w 29 0x1 == 0x0 then accept (put_rc5_39 w o4) else none)
                else if bit_and (bits w 24 0xf) 0x6 == 0x4
                then (if bits w 29 0x1 == 0x0
                    then accept_hot op_lw fmt_ersi (put_rc5_39 w o4)
                    else none)
                else none)
            else none)
        else none)
    else if bits w 25 0x3 == 0x3
    then (if bit_and (bits w 28 0xf) 0xe == 0x4
        then (if bits w 28 0x1 == 0x0
            then (let o4 = put_endian w (put_off24_0 w (put_ra5_34 w o)) in
                if bit_and (bits w 24 0xf) 0x6 == 0x6
                then accept_hot op_ld fmt_erri (put_dc5_39 w o4)
                else none)
            else if bits w 28 0x1 == 0x1
            then (let o4 = put_endian w (put_off24_0 w (put_ra5_34 w o)) in
                if bit_and (bits w 24 0xf) 0x6 == 0x6
                then accept_hot op_ld fmt_ersi (put_dc5_39 w o4)
                else none)
            else none)
        else none)
    else none

unfoldable pub group1_5 : ℕ → RawDecoded48 → Option RawDecoded48
group1_5 w o =
    if bits w 42 0x3 == 0x3
    then (if bit_and (bits w 28 0xf) 0x8 == 0x8
        then (let o3 = put_imm16_39 w (put_pc w (put_ra5_34 w o)) in
            if bits w 24 0x3 != 0x0
            then accept_hot op_acquire fmt_rici (put_cc2_24 w o3)
            else if bits w 24 0x3 == 0x0
            then accept_hot op_release fmt_rici (put_cc2_24 w o3)
            else none)
        else if bit_and (bits w 28 0xf) 0xe == 0x2
        then group1_1 w o
        else if bit_and (bits w 28 0xf) 0xf == 0x0
        then (if bit_and (bits w 39 0x1f) 0x1f == 0x18
            then (if bits w 34 0x1f == 0x18
                then (let o5 = put_ra5_34 w o in
                    if bits w 24 0xf == 0x0
                    then (if bit_and (bits w 16 0xf) 0xf == 0x0
                        then (if bit_and (bits w 0 0xffff) 0xffff == 0x0
                            then accept_hot op_nop fmt_none o5
                            else none)
                        else none)
                    else none)
                else if bits w 37 0x3 != 0x3
                then (let o5 = put_ra5_34 w o in
                    if bits w 24 0xf == 0x0 then accept (put_off24_0 w o5) else none)
                else none)
            else none)
        else if bit_and (bits w 28 0xf) 0xe == 0x4
        then group1_2 w o
        else if bit_and (bits w 28 0xf) 0xe == 0x6
        then (let o3 = put_endian w (put_off12_12 w (put_ra5_34 w o)) in
            if bit_and (bits w 24 0xf) 0x6 == 0x0
            then accept (put_imm8_0 w o3)
            else if bit_and (bits w 24 0xf) 0x6 == 0x6
            then accept (put_imm16_0 w o3)
            else if bit_and (bits w 24 0xf) 0x6 == 0x2
            then accept (put_imm16_0 w o3)
            else if bit_and (bits w 24 0xf) 0x6 == 0x4
            then accept (put_imm16_0 w o3)
            else none)
        else none)
    else if bits w 42 0x3 != 0x3
    then group1_4 w o
    else none
