-- ===== src/Pipeline/Maps.antt =====
-- The condition that a code stands for: `decode_cc_metadata_48` and the maps it selects from. A code is
-- a field of the instruction, and not negative.
use hostpimsim_gecon.Base.{ℕ, List, [], ◌∷◌, ◌==◌, ltb, if◌then◌else◌}
use hostpimsim_gecon.Pipeline.Kinds.{
  CcKind, cc_false, cc_true, cc_zero, cc_non_zero, cc_carry, cc_no_carry, cc_less_equal_unsigned,
  cc_greater_unsigned, cc_less_signed, cc_less_equal_signed, cc_greater_signed,
  cc_greater_equal_signed, cc_xzero, cc_xnon_zero, cc_max, cc_not_max, cc_even, cc_odd,
  cc_xless_equal_unsigned, cc_xgreater_unsigned, cc_xless_equal_signed, cc_xgreater_signed,
  cc_subword_no_carry, cc_unknown, CcMapKind, no_map, map0, map1, map2, map3, map4, map5, map6,
  map7, map8, map9, map10, map11, map13, map14, map15,
}

-- A `switch` on the code, with the kind and the bits of each case.
unfoldable pub switch : List (ℕ × CcKind × ℕ) → ℕ → CcKind × ℕ
switch [] cc = (cc_false, 0)
switch ((c, kind, bits) ∷ cases) cc = if cc == c then (kind, bits) else switch cases cc

unfoldable pub decode_cc_map_0_metadata : ℕ → CcKind × ℕ
decode_cc_map_0_metadata cc =
    switch ((1, cc_true, 0) ∷ (2, cc_zero, 0) ∷ (3, cc_non_zero, 0) ∷ []) cc

unfoldable pub decode_cc_map_1_metadata : ℕ → CcKind × ℕ
decode_cc_map_1_metadata cc =
    switch ((6, cc_zero, 0) ∷ (7, cc_non_zero, 0) ∷ (10, cc_xzero, 0) ∷ (11, cc_xnon_zero, 0) ∷ [])
      cc

unfoldable pub decode_cc_map_2_metadata : ℕ → CcKind × ℕ
decode_cc_map_2_metadata cc =
    switch
      ((1, cc_true, 0)
        ∷ (2, cc_zero, 0)
        ∷ (3, cc_non_zero, 0)
        ∷ (4, cc_xzero, 0)
        ∷ (5, cc_xnon_zero, 0)
        ∷ (8, cc_greater_equal_signed, 0)
        ∷ (14, cc_greater_equal_signed, 0)
        ∷ (9, cc_less_signed, 0)
        ∷ (15, cc_less_signed, 0)
        ∷ (12, cc_zero, 0)
        ∷ (13, cc_non_zero, 0)
        ∷ (18, cc_unknown, 0)
        ∷ (19, cc_unknown, 0)
        ∷ (20, cc_carry, 0)
        ∷ (21, cc_no_carry, 0)
        ∷ (22, cc_subword_no_carry, 5)
        ∷ (23, cc_subword_no_carry, 6)
        ∷ (24, cc_subword_no_carry, 7)
        ∷ (25, cc_subword_no_carry, 8)
        ∷ (26, cc_subword_no_carry, 9)
        ∷ (27, cc_subword_no_carry, 10)
        ∷ (28, cc_subword_no_carry, 11)
        ∷ (29, cc_subword_no_carry, 12)
        ∷ (30, cc_subword_no_carry, 13)
        ∷ (31, cc_subword_no_carry, 14)
        ∷ [])
      cc

unfoldable pub decode_cc_map_3_metadata : ℕ → CcKind × ℕ
decode_cc_map_3_metadata cc = if cc == 0 then (cc_false, 0) else (cc_false, 0)

unfoldable pub decode_cc_map_4_metadata : ℕ → CcKind × ℕ
decode_cc_map_4_metadata cc =
    switch
      ((1, cc_true, 0)
        ∷ (2, cc_zero, 0)
        ∷ (3, cc_non_zero, 0)
        ∷ (4, cc_xzero, 0)
        ∷ (5, cc_xnon_zero, 0)
        ∷ (8, cc_greater_equal_signed, 0)
        ∷ (14, cc_greater_equal_signed, 0)
        ∷ (9, cc_less_signed, 0)
        ∷ (15, cc_less_signed, 0)
        ∷ (12, cc_zero, 0)
        ∷ (13, cc_non_zero, 0)
        ∷ [])
      cc

unfoldable pub decode_cc_map_5_metadata : ℕ → CcKind × ℕ
decode_cc_map_5_metadata cc =
    switch
      ((1, cc_true, 0)
        ∷ (2, cc_zero, 0)
        ∷ (3, cc_non_zero, 0)
        ∷ (4, cc_xzero, 0)
        ∷ (5, cc_xnon_zero, 0)
        ∷ (8, cc_greater_equal_signed, 0)
        ∷ (14, cc_greater_equal_signed, 0)
        ∷ (9, cc_less_signed, 0)
        ∷ (15, cc_less_signed, 0)
        ∷ (12, cc_zero, 0)
        ∷ (13, cc_non_zero, 0)
        ∷ (24, cc_even, 0)
        ∷ (30, cc_even, 0)
        ∷ (25, cc_odd, 0)
        ∷ (31, cc_odd, 0)
        ∷ [])
      cc

unfoldable pub decode_cc_map_6_metadata : ℕ → CcKind × ℕ
decode_cc_map_6_metadata cc =
    switch
      ((1, cc_true, 0)
        ∷ (2, cc_zero, 0)
        ∷ (3, cc_non_zero, 0)
        ∷ (4, cc_xzero, 0)
        ∷ (5, cc_xnon_zero, 0)
        ∷ (8, cc_greater_equal_signed, 0)
        ∷ (14, cc_greater_equal_signed, 0)
        ∷ (9, cc_less_signed, 0)
        ∷ (15, cc_less_signed, 0)
        ∷ (12, cc_zero, 0)
        ∷ (13, cc_non_zero, 0)
        ∷ (24, cc_even, 0)
        ∷ (30, cc_even, 0)
        ∷ (25, cc_odd, 0)
        ∷ (31, cc_odd, 0)
        ∷ (28, cc_unknown, 0)
        ∷ (29, cc_unknown, 0)
        ∷ [])
      cc

unfoldable pub decode_cc_map_7_metadata : ℕ → CcKind × ℕ
decode_cc_map_7_metadata cc =
    switch
      ((0, cc_false, 0)
        ∷ (1, cc_true, 0)
        ∷ (2, cc_zero, 0)
        ∷ (12, cc_zero, 0)
        ∷ (3, cc_non_zero, 0)
        ∷ (13, cc_non_zero, 0)
        ∷ (4, cc_xzero, 0)
        ∷ (5, cc_xnon_zero, 0)
        ∷ (14, cc_greater_equal_signed, 0)
        ∷ (15, cc_less_signed, 0)
        ∷ [])
      cc

unfoldable pub decode_cc_map_8_metadata : ℕ → CcKind × ℕ
decode_cc_map_8_metadata cc =
    switch
      ((1, cc_true, 0)
        ∷ (2, cc_zero, 0)
        ∷ (12, cc_zero, 0)
        ∷ (3, cc_non_zero, 0)
        ∷ (13, cc_non_zero, 0)
        ∷ (4, cc_xzero, 0)
        ∷ (5, cc_xnon_zero, 0)
        ∷ (8, cc_max, 0)
        ∷ (9, cc_not_max, 0)
        ∷ (14, cc_greater_equal_signed, 0)
        ∷ (15, cc_less_signed, 0)
        ∷ [])
      cc

unfoldable pub decode_cc_map_9_metadata : ℕ → CcKind × ℕ
decode_cc_map_9_metadata cc =
    switch
      ((0, cc_false, 0)
        ∷ (1, cc_true, 0)
        ∷ (12, cc_zero, 0)
        ∷ (13, cc_non_zero, 0)
        ∷ (14, cc_greater_equal_signed, 0)
        ∷ (15, cc_less_signed, 0)
        ∷ [])
      cc

unfoldable pub decode_cc_map_10_metadata : ℕ → CcKind × ℕ
decode_cc_map_10_metadata cc =
    switch
      ((1, cc_true, 0)
        ∷ (12, cc_zero, 0)
        ∷ (13, cc_non_zero, 0)
        ∷ (14, cc_greater_equal_signed, 0)
        ∷ (15, cc_less_signed, 0)
        ∷ [])
      cc

unfoldable pub decode_cc_map_11_metadata : ℕ → CcKind × ℕ
decode_cc_map_11_metadata cc = switch ((0, cc_false, 0) ∷ (1, cc_true, 0) ∷ []) cc

unfoldable pub decode_cc_map_13_metadata : ℕ → CcKind × ℕ
decode_cc_map_13_metadata cc =
    switch
      ((1, cc_true, 0)
        ∷ (2, cc_zero, 0)
        ∷ (12, cc_zero, 0)
        ∷ (3, cc_non_zero, 0)
        ∷ (13, cc_non_zero, 0)
        ∷ (4, cc_xzero, 0)
        ∷ (5, cc_xnon_zero, 0)
        ∷ (8, cc_greater_equal_signed, 0)
        ∷ (14, cc_greater_equal_signed, 0)
        ∷ (9, cc_less_signed, 0)
        ∷ (15, cc_less_signed, 0)
        ∷ (18, cc_unknown, 0)
        ∷ (19, cc_unknown, 0)
        ∷ (20, cc_carry, 0)
        ∷ (21, cc_no_carry, 0)
        ∷ (22, cc_less_signed, 0)
        ∷ (23, cc_greater_equal_signed, 0)
        ∷ (24, cc_less_equal_signed, 0)
        ∷ (25, cc_greater_signed, 0)
        ∷ (26, cc_less_equal_unsigned, 0)
        ∷ (27, cc_greater_unsigned, 0)
        ∷ (28, cc_xless_equal_signed, 0)
        ∷ (29, cc_xgreater_signed, 0)
        ∷ (30, cc_xless_equal_unsigned, 0)
        ∷ (31, cc_xgreater_unsigned, 0)
        ∷ [])
      cc

unfoldable pub decode_cc_map_14_metadata : ℕ → CcKind × ℕ
decode_cc_map_14_metadata cc = if cc == 0 then (cc_non_zero, 0) else (cc_false, 0)

unfoldable pub decode_cc_map_15_metadata : ℕ → CcKind × ℕ
decode_cc_map_15_metadata cc =
    switch
      ((6, cc_zero, 0)
        ∷ (34, cc_zero, 0)
        ∷ (44, cc_zero, 0)
        ∷ (7, cc_non_zero, 0)
        ∷ (35, cc_non_zero, 0)
        ∷ (45, cc_non_zero, 0)
        ∷ (10, cc_xzero, 0)
        ∷ (36, cc_xzero, 0)
        ∷ (11, cc_xnon_zero, 0)
        ∷ (37, cc_xnon_zero, 0)
        ∷ (33, cc_true, 0)
        ∷ (40, cc_greater_equal_signed, 0)
        ∷ (46, cc_greater_equal_signed, 0)
        ∷ (41, cc_less_signed, 0)
        ∷ (47, cc_less_signed, 0)
        ∷ (50, cc_unknown, 0)
        ∷ (51, cc_unknown, 0)
        ∷ (52, cc_carry, 0)
        ∷ (53, cc_no_carry, 0)
        ∷ (54, cc_less_signed, 0)
        ∷ (55, cc_greater_equal_signed, 0)
        ∷ (56, cc_less_equal_signed, 0)
        ∷ (57, cc_greater_signed, 0)
        ∷ (58, cc_less_equal_unsigned, 0)
        ∷ (59, cc_greater_unsigned, 0)
        ∷ (60, cc_xless_equal_signed, 0)
        ∷ (61, cc_xgreater_signed, 0)
        ∷ (62, cc_xless_equal_unsigned, 0)
        ∷ (63, cc_xgreater_unsigned, 0)
        ∷ [])
      cc

unfoldable pub decode_cc_map : CcMapKind → ℕ → CcKind × ℕ
decode_cc_map no_map cc = (cc_false, 0)
decode_cc_map map0 cc = decode_cc_map_0_metadata cc
decode_cc_map map1 cc = decode_cc_map_1_metadata cc
decode_cc_map map2 cc = decode_cc_map_2_metadata cc
decode_cc_map map3 cc = decode_cc_map_3_metadata cc
decode_cc_map map4 cc = decode_cc_map_4_metadata cc
decode_cc_map map5 cc = decode_cc_map_5_metadata cc
decode_cc_map map6 cc = decode_cc_map_6_metadata cc
decode_cc_map map7 cc = decode_cc_map_7_metadata cc
decode_cc_map map8 cc = decode_cc_map_8_metadata cc
decode_cc_map map9 cc = decode_cc_map_9_metadata cc
decode_cc_map map10 cc = decode_cc_map_10_metadata cc
decode_cc_map map11 cc = decode_cc_map_11_metadata cc
decode_cc_map map13 cc = decode_cc_map_13_metadata cc
decode_cc_map map14 cc = decode_cc_map_14_metadata cc
decode_cc_map map15 cc = decode_cc_map_15_metadata cc

unfoldable pub decode_cc_metadata_48 : CcMapKind → ℕ → CcKind × ℕ
decode_cc_metadata_48 m cc = if ltb 63 cc then (cc_false, 0) else decode_cc_map m cc
