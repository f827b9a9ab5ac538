-- ===== src/Pipeline/Decode/Choices.antt =====
-- The tests on a word that `decode_raw_word_48` repeats.
use hostpimsim_gecon.Base.{◌==◌, ◌!=◌, ◌&&◌, ◌||◌, ℕ, Bool, ltb, bit_and, bit_xor}
use hostpimsim_gecon.Pipeline.Decode.Fields.{bits}

unfoldable pub writes_register_of_44 : ℕ → Bool
writes_register_of_44 w = bits w 42 0x3 != 0x3 && bits w 44 0x1 == 0x0

unfoldable pub writes_zero_extended_of_44 : ℕ → Bool
writes_zero_extended_of_44 w =
    (bits w 42 0x3 != 0x3 && bits w 44 0x1 == 0x1) && bits w 39 0x1 == 0x1

unfoldable pub branches_by_short_cc4 : ℕ → Bool
branches_by_short_cc4 w =
    (ltb (bits w 24 0xf) 0x2 || ltb 0xb (bits w 24 0xf)) && bits w 24 0xf != 0x0

unfoldable pub writes_sign_extended_of_44 : ℕ → Bool
writes_sign_extended_of_44 w =
    (bits w 42 0x3 != 0x3 && bits w 44 0x1 == 0x1) && bits w 39 0x1 == 0x0

unfoldable pub sets_by_cc4 : ℕ → Bool
sets_by_cc4 w = bit_xor (bits w 26 0x1) (bits w 27 0x1) == 0x1 && bits w 25 0x1 == 0x1

unfoldable pub branches_by_cc4 : ℕ → Bool
branches_by_cc4 w =
    (ltb (bits w 24 0xf) 0x6 || ltb 0xb (bits w 24 0xf) || bit_and (bits w 24 0xf) 0xe == 0x8)
    && bits w 24 0xf != 0x0

unfoldable pub lacks_cc_of_29 : ℕ → Bool
lacks_cc_of_29 w = bits w 24 0xf == 0x0 && bits w 29 0x1 == 0x0

unfoldable pub branches_by_cc_of_29 : ℕ → Bool
branches_by_cc_of_29 w =
    (bits w 29 0x1 == 0x0
        && (ltb (bits w 24 0xf) 0x6
            || ltb 0xb (bits w 24 0xf)
            || bit_and (bits w 24 0xf) 0xe == 0x8)
      || bits w 29 0x1 == 0x1 && (ltb 0xb (bits w 24 0xf) || bit_and (bits w 24 0xf) 0xe == 0x8))
    && (bits w 29 0x1 != 0x0 || bits w 24 0xf != 0x0)

unfoldable pub writes_zero_extended_of_46 : ℕ → Bool
writes_zero_extended_of_46 w =
    (bits w 44 0x3 != 0x3 && bits w 46 0x1 == 0x1) && bits w 39 0x1 == 0x1

unfoldable pub writes_sign_extended_of_46 : ℕ → Bool
writes_sign_extended_of_46 w =
    (bits w 44 0x3 != 0x3 && bits w 46 0x1 == 0x1) && bits w 39 0x1 == 0x0

unfoldable pub writes_register_of_46 : ℕ → Bool
writes_register_of_46 w = bits w 44 0x3 != 0x3 && bits w 46 0x1 == 0x0

unfoldable pub may_have_cc : ℕ → Bool
may_have_cc w = bits w 28 0x1 != 0x1 || bits w 24 0xf != 0x0

unfoldable pub sets_by_cc5 : ℕ → Bool
sets_by_cc5 w =
    bit_xor (bits w 26 0x1) (bits w 27 0x1) == 0x1 && bits w 25 0x1 == 0x1 && bits w 28 0x1 == 0x0

unfoldable pub branches_by_cc5 : ℕ → Bool
branches_by_cc5 w =
    (ltb (bits w 24 0x1f) 0x6 || ltb 0xb (bits w 24 0x1f) || bit_and (bits w 24 0x1f) 0x1e == 0x8)
    && bits w 24 0x1f != 0x0

unfoldable pub branches_by_cc5_of_cc4 : ℕ → Bool
branches_by_cc5_of_cc4 w =
    (ltb (bits w 24 0xf) 0x6 || ltb 0xb (bits w 24 0xf) || bit_and (bits w 24 0xf) 0xe == 0x8)
    && bits w 24 0x1f != 0x0

unfoldable pub lacks_cc_of_30 : ℕ → Bool
lacks_cc_of_30 w = bits w 24 0x1f == 0x0 && bits w 30 0x1 == 0x0

unfoldable pub sets_by_cc_of_30 : ℕ → Bool
sets_by_cc_of_30 w =
    (bits w 30 0x1 == 0x1
      || bit_xor (bits w 26 0x1) (bits w 27 0x1) == 0x1
        && bits w 25 0x1 == 0x1
        && bits w 28 0x1 == 0x0)
    && (bits w 30 0x1 != 0x1 || bits w 24 0x1f != 0x0)

unfoldable pub branches_by_cc_of_30 : ℕ → Bool
branches_by_cc_of_30 w =
    (bits w 30 0x1 == 0x0
      && (ltb (bits w 24 0x1f) 0x6
          || ltb 0xb (bits w 24 0x1f)
          || bit_and (bits w 24 0x1f) 0x1e == 0x8))
    && (bits w 30 0x1 != 0x0 || bits w 24 0x1f != 0x0)
