-- ===== src/Pipeline/Decode/Fields.antt =====
-- The assignments of fields in `decode_raw_word_48`: a function for each, `put_<field>`, with the width of the
-- field and its last place in the word where a field has several.
use hostpimsim_gecon.Base.{◌*◌, ◌/◌, ◌^◌, ℕ, true, bit_and, bit_or}
use hostpimsim_gecon.Pipeline.Words.{sign_extend11}
use hostpimsim_gecon.Pipeline.Decode.Raw.{RawDecoded48}

-- `(instruction >> at) & mask`
unfoldable pub bits : ℕ → ℕ → ℕ → ℕ
bits instruction at mask = bit_and (instruction / 2 ^ at) mask

unfoldable pub put_ra5_34 : ℕ → RawDecoded48 → RawDecoded48
put_ra5_34 w out = record out { has_ra = true; ra = bits w 34 31 }

unfoldable pub put_pc : ℕ → RawDecoded48 → RawDecoded48
put_pc w out = record out { has_pc = true; pc = bits w 0 65535 }

unfoldable pub put_imm16_39 : ℕ → RawDecoded48 → RawDecoded48
put_imm16_39 w out = record out {
  has_imm = true;
  imm =
      bit_or (bit_or (bit_or (bits w 20 15) (bits w 16 15 * 2 ^ 4)) (bits w 26 31 * 2 ^ 8))
        (bits w 39 7 * 2 ^ 13);
}

unfoldable pub put_cc2_24 : ℕ → RawDecoded48 → RawDecoded48
put_cc2_24 w out = record out { has_cc = true; cc = bits w 24 3 }

unfoldable pub put_cc4_24 : ℕ → RawDecoded48 → RawDecoded48
put_cc4_24 w out = record out { has_cc = true; cc = bits w 24 15 }

unfoldable pub put_imm8_16 : ℕ → RawDecoded48 → RawDecoded48
put_imm8_16 w out = record out {
  has_imm = true;
  imm = bit_or (bits w 20 15) (bits w 16 15 * 2 ^ 4);
}

unfoldable pub put_imm24_0 : ℕ → RawDecoded48 → RawDecoded48
put_imm24_0 w out = record out {
  has_imm = true;
  imm =
      bit_or
        (bit_or
          (bit_or
            (bit_or (bit_or (bit_or (bits w 20 15) (bits w 16 15 * 2 ^ 4)) (bits w 15 1 * 2 ^ 8))
              (bits w 14 1 * 2 ^ 9))
            (bits w 13 1 * 2 ^ 10))
          (bits w 12 1 * 2 ^ 11))
        (bits w 0 4095 * 2 ^ 12);
}

unfoldable pub put_off24_0 : ℕ → RawDecoded48 → RawDecoded48
put_off24_0 w out = record out {
  has_off = true;
  off =
      bit_or
        (bit_or
          (bit_or
            (bit_or (bit_or (bit_or (bits w 20 15) (bits w 16 15 * 2 ^ 4)) (bits w 15 1 * 2 ^ 8))
              (bits w 14 1 * 2 ^ 9))
            (bits w 13 1 * 2 ^ 10))
          (bits w 12 1 * 2 ^ 11))
        (bits w 0 4095 * 2 ^ 12);
}

unfoldable pub put_off12_12 : ℕ → RawDecoded48 → RawDecoded48
put_off12_12 w out = record out {
  has_off = true;
  off =
      bit_or
        (bit_or
          (bit_or
            (bit_or (bit_or (bit_or (bits w 20 15) (bits w 39 7 * 2 ^ 4)) (bits w 24 1 * 2 ^ 7))
              (bits w 15 1 * 2 ^ 8))
            (bits w 14 1 * 2 ^ 9))
          (bits w 13 1 * 2 ^ 10))
        (bits w 12 1 * 2 ^ 11);
}

unfoldable pub put_endian : ℕ → RawDecoded48 → RawDecoded48
put_endian w out = record out { has_endian = true; endian = bits w 27 1 }

unfoldable pub put_imm8_0 : ℕ → RawDecoded48 → RawDecoded48
put_imm8_0 w out = record out { has_imm = true; imm = bit_or (bits w 16 15) (bits w 0 15 * 2 ^ 4) }

unfoldable pub put_imm16_0 : ℕ → RawDecoded48 → RawDecoded48
put_imm16_0 w out = record out {
  has_imm = true;
  imm = bit_or (bits w 16 15) (bits w 0 4095 * 2 ^ 4);
}

unfoldable pub put_dc5_40 : ℕ → RawDecoded48 → RawDecoded48
put_dc5_40 w out = record out { has_dc = true; dc = bits w 40 15 * 2 ^ 1 }

unfoldable pub put_rc5_39 : ℕ → RawDecoded48 → RawDecoded48
put_rc5_39 w out = record out { has_rc = true; rc = bits w 39 31 }

unfoldable pub put_dc5_39 : ℕ → RawDecoded48 → RawDecoded48
put_dc5_39 w out = record out { has_dc = true; dc = bits w 39 31 }

unfoldable pub put_imm_dma : ℕ → RawDecoded48 → RawDecoded48
put_imm_dma w out = record out { has_imm_dma = true; imm_dma = bits w 24 255 }

unfoldable pub put_rb5_32 : ℕ → RawDecoded48 → RawDecoded48
put_rb5_32 w out = record out { has_rb = true; rb = bit_or (bits w 17 7) (bits w 32 3 * 2 ^ 3) }

unfoldable pub put_off24_0_b : ℕ → RawDecoded48 → RawDecoded48
put_off24_0_b w out = record out {
  has_off = true;
  off =
      bit_or
        (bit_or
          (bit_or
            (bit_or
              (bit_or (bit_or (bit_or (bits w 20 15) (bits w 39 7 * 2 ^ 4)) (bits w 24 1 * 2 ^ 7))
                (bits w 15 1 * 2 ^ 8))
              (bits w 14 1 * 2 ^ 9))
            (bits w 13 1 * 2 ^ 10))
          (bits w 12 1 * 2 ^ 11))
        (bits w 0 4095 * 2 ^ 12);
}

unfoldable pub put_db : ℕ → RawDecoded48 → RawDecoded48
put_db w out = record out { has_db = true; db = bit_or (bits w 17 7) (bits w 32 3 * 2 ^ 3) }

unfoldable pub put_imm32_24 : ℕ → RawDecoded48 → RawDecoded48
put_imm32_24 w out = record out {
  has_imm = true;
  imm =
      bit_or
        (bit_or
          (bit_or
            (bit_or
              (bit_or
                (bit_or (bit_or (bit_or (bits w 20 15) (bits w 34 7 * 2 ^ 4)) (bits w 44 1 * 2 ^ 7))
                  (bits w 15 1 * 2 ^ 8))
                (bits w 14 1 * 2 ^ 9))
              (bits w 13 1 * 2 ^ 10))
            (bits w 12 1 * 2 ^ 11))
          (bits w 0 4095 * 2 ^ 12))
        (bits w 24 255 * 2 ^ 24);
}

unfoldable pub put_imm32_24_b : ℕ → RawDecoded48 → RawDecoded48
put_imm32_24_b w out = record out {
  has_imm = true;
  imm =
      bit_or
        (bit_or
          (bit_or
            (bit_or
              (bit_or (bit_or (bit_or (bits w 20 15) (bits w 16 15 * 2 ^ 4)) (bits w 15 1 * 2 ^ 8))
                (bits w 14 1 * 2 ^ 9))
              (bits w 13 1 * 2 ^ 10))
            (bits w 12 1 * 2 ^ 11))
          (bits w 0 4095 * 2 ^ 12))
        (bits w 24 255 * 2 ^ 24);
}

unfoldable pub put_dc5_44 : ℕ → RawDecoded48 → RawDecoded48
put_dc5_44 w out = record out {
  has_dc = true;
  dc = bit_or (bits w 40 3 * 2 ^ 1) (bits w 44 3 * 2 ^ 3);
}

unfoldable pub put_cc5_24 : ℕ → RawDecoded48 → RawDecoded48
put_cc5_24 w out = record out { has_cc = true; cc = bits w 24 31 }

unfoldable pub put_cc6_30 : ℕ → RawDecoded48 → RawDecoded48
put_cc6_30 w out = record out { has_cc = true; cc = bit_or (bits w 24 31) (bits w 30 1 * 2 ^ 5) }

unfoldable pub put_rc5_44 : ℕ → RawDecoded48 → RawDecoded48
put_rc5_44 w out = record out { has_rc = true; rc = bit_or (bits w 39 7) (bits w 44 3 * 2 ^ 3) }

unfoldable pub put_imm17_11 : ℕ → RawDecoded48 → RawDecoded48
put_imm17_11 w out = record out {
  has_imm = true;
  imm =
      bit_or
        (bit_or
          (bit_or
            (bit_or
              (bit_or
                (bit_or
                  (bit_or
                    (bit_or
                      (bit_or
                        (bit_or
                          (bit_or
                            (bit_or (bit_or (bits w 20 15) (bits w 16 15 * 2 ^ 4))
                              (bits w 15 1 * 2 ^ 8))
                            (bits w 14 1 * 2 ^ 9))
                          (bits w 13 1 * 2 ^ 10))
                        (bits w 12 1 * 2 ^ 11))
                      (bits w 0 31 * 2 ^ 12))
                    (bits w 5 1 * 2 ^ 16))
                  (bits w 6 1 * 2 ^ 16))
                (bits w 7 1 * 2 ^ 16))
              (bits w 8 1 * 2 ^ 16))
            (bits w 9 1 * 2 ^ 16))
          (bits w 10 1 * 2 ^ 16))
        (bits w 11 1 * 2 ^ 16);
}

unfoldable pub put_imm27_39 : ℕ → RawDecoded48 → RawDecoded48
put_imm27_39 w out = record out {
  has_imm = true;
  imm =
      bit_or
        (bit_or
          (bit_or
            (bit_or
              (bit_or (bit_or (bit_or (bits w 20 15) (bits w 16 15 * 2 ^ 4)) (bits w 15 1 * 2 ^ 8))
                (bits w 14 1 * 2 ^ 9))
              (bits w 13 1 * 2 ^ 10))
            (bits w 12 1 * 2 ^ 11))
          (bits w 0 4095 * 2 ^ 12))
        (bits w 39 7 * 2 ^ 24);
}

unfoldable pub put_imm11_39 : ℕ → RawDecoded48 → RawDecoded48
put_imm11_39 w out = record out {
  has_imm = true;
  imm = bit_or (bit_or (bits w 20 15) (bits w 16 15 * 2 ^ 4)) (bits w 39 7 * 2 ^ 8);
}

unfoldable pub put_imm_signed11 : ℕ → RawDecoded48 → RawDecoded48
put_imm_signed11 w out = record out {
  has_imm = true;
  imm = sign_extend11 (bit_or (bit_or (bits w 20 15) (bits w 16 15 * 2 ^ 4)) (bits w 39 7 * 2 ^ 8));
}

unfoldable pub put_rb5_34 : ℕ → RawDecoded48 → RawDecoded48
put_rb5_34 w out = record out { has_rb = true; rb = bits w 34 31 }

unfoldable pub put_ra5_32 : ℕ → RawDecoded48 → RawDecoded48
put_ra5_32 w out = record out { has_ra = true; ra = bit_or (bits w 17 7) (bits w 32 3 * 2 ^ 3) }

unfoldable pub put_imm32_24_c : ℕ → RawDecoded48 → RawDecoded48
put_imm32_24_c w out = record out {
  has_imm = true;
  imm =
      bit_or
        (bit_or
          (bit_or
            (bit_or
              (bit_or
                (bit_or (bit_or (bit_or (bits w 20 15) (bits w 34 7 * 2 ^ 4)) (bits w 39 1 * 2 ^ 7))
                  (bits w 15 1 * 2 ^ 8))
                (bits w 14 1 * 2 ^ 9))
              (bits w 13 1 * 2 ^ 10))
            (bits w 12 1 * 2 ^ 11))
          (bits w 0 4095 * 2 ^ 12))
        (bits w 24 255 * 2 ^ 24);
}

unfoldable pub put_imm28_44 : ℕ → RawDecoded48 → RawDecoded48
put_imm28_44 w out = record out {
  has_imm = true;
  imm =
      bit_or
        (bit_or
          (bit_or
            (bit_or
              (bit_or
                (bit_or
                  (bit_or (bit_or (bits w 20 15) (bits w 16 15 * 2 ^ 4)) (bits w 15 1 * 2 ^ 8))
                  (bits w 14 1 * 2 ^ 9))
                (bits w 13 1 * 2 ^ 10))
              (bits w 12 1 * 2 ^ 11))
            (bits w 0 4095 * 2 ^ 12))
          (bits w 39 7 * 2 ^ 24))
        (bits w 44 1 * 2 ^ 27);
}

unfoldable pub put_imm12_44 : ℕ → RawDecoded48 → RawDecoded48
put_imm12_44 w out = record out {
  has_imm = true;
  imm =
      bit_or (bit_or (bit_or (bits w 20 15) (bits w 16 15 * 2 ^ 4)) (bits w 39 7 * 2 ^ 8))
        (bits w 44 1 * 2 ^ 11);
}

unfoldable pub put_shift : ℕ → RawDecoded48 → RawDecoded48
put_shift w out = record out {
  has_shift = true;
  shift = bit_or (bits w 20 15) (bits w 28 1 * 2 ^ 4);
}

unfoldable pub put_cc5_29 : ℕ → RawDecoded48 → RawDecoded48
put_cc5_29 w out = record out { has_cc = true; cc = bit_or (bits w 24 15) (bits w 29 1 * 2 ^ 4) }

unfoldable pub put_off28_44 : ℕ → RawDecoded48 → RawDecoded48
put_off28_44 w out = record out {
  has_off = true;
  off =
      bit_or
        (bit_or
          (bit_or
            (bit_or
              (bit_or
                (bit_or
                  (bit_or (bit_or (bits w 20 15) (bits w 16 15 * 2 ^ 4)) (bits w 15 1 * 2 ^ 8))
                  (bits w 14 1 * 2 ^ 9))
                (bits w 13 1 * 2 ^ 10))
              (bits w 12 1 * 2 ^ 11))
            (bits w 0 4095 * 2 ^ 12))
          (bits w 39 7 * 2 ^ 24))
        (bits w 44 1 * 2 ^ 27);
}
