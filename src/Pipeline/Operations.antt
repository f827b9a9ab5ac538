-- ===== src/Pipeline/Operations.antt =====
-- Which maps an operation can have, and with it what holds of its conditions.
use hostpimsim_gecon.Base.{
  ℕ, ◌<◌, ◌≡◌, ◌∙◌, refl, sym, ap₂, arith, Bool, true, false, ◌&&◌, ◌||◌, not, leb, ◌==◌,
  if◌then◌else◌,
}
use hostpimsim_gecon.Pipeline.Kinds.{
  HotOp, op_none, op_add, op_addc, HotFormat, fmt_none, CcKind, cc_subword_no_carry, CcMapKind,
  no_map, map0, map1, map2, map3, map4, map5, map6, map7, map8, map9, map10, map11, map13, map14,
  map15,
}
use hostpimsim_gecon.Pipeline.Maps.{
  decode_cc_metadata_48, decode_cc_map, switch, decode_cc_map_0_metadata, decode_cc_map_1_metadata,
  decode_cc_map_2_metadata, decode_cc_map_3_metadata, decode_cc_map_4_metadata,
  decode_cc_map_5_metadata, decode_cc_map_6_metadata, decode_cc_map_7_metadata,
  decode_cc_map_8_metadata, decode_cc_map_9_metadata, decode_cc_map_10_metadata,
  decode_cc_map_11_metadata, decode_cc_map_13_metadata, decode_cc_map_14_metadata,
  decode_cc_map_15_metadata,
}
use hostpimsim_gecon.Pipeline.Select.{
  select_cc_map_48, cc_map_of_acquire, cc_map_of_release, cc_map_of_add, cc_map_of_logic,
  cc_map_of_sub, cc_map_of_boot, cc_map_of_stop, cc_map_of_shift, cc_map_of_movd, cc_map_of_count,
  cc_map_of_mul_step, cc_map_of_div_step, cc_map_of_shift_add,
}
use hostpimsim_gecon.Pipeline.Trials.{all_below, all_below-at, entry}
use hostpimsim_gecon.Pipeline.OpNumbers.{op_number, all_ops, entry-op_number, op_number-lt}
use hostpimsim_gecon.Pipeline.FmtNumbers.{fmt_number, all_fmts, entry-fmt_number, fmt_number-lt}

abbrev pub is_add : HotOp → Bool
is_add op_add = true
is_add op_addc = true
is_add _ = false

abbrev is_map2 : CcMapKind → Bool
is_map2 map2 = true
is_map2 _ = false

abbrev pub is_subword : CcKind → Bool
is_subword cc_subword_no_carry = true
is_subword _ = false

-- What is to be tried out of an operation and a format.
abbrev selects : HotOp → HotFormat → Bool
selects op fmt = let m = select_cc_map_48 op fmt in not (is_map2 m) || is_add op

all_select :
    all_below 63
      (λ i. all_below 49 (λ j. selects (entry op_none all_ops i) (entry fmt_none all_fmts j)))
    ≡ true
unfolding select_cc_map_48 cc_map_of_acquire cc_map_of_release cc_map_of_add cc_map_of_logic
    cc_map_of_sub cc_map_of_boot cc_map_of_stop cc_map_of_shift cc_map_of_movd cc_map_of_count
    cc_map_of_mul_step cc_map_of_div_step cc_map_of_shift_add
all_select = refl

selects-true : (op : HotOp) (fmt : HotFormat) → selects op fmt ≡ true
selects-true op fmt =
    let row =
      all_below-at 63
        (λ i. all_below 49 (λ j. selects (entry op_none all_ops i) (entry fmt_none all_fmts j)))
        (op_number op) all_select (ground (arith, op_number-lt op)) in
    let cell =
      all_below-at 49
        (λ j. selects (entry op_none all_ops (op_number op)) (entry fmt_none all_fmts j))
        (fmt_number fmt) row (ground (arith, fmt_number-lt fmt)) in
    sym (ap₂ selects (entry-op_number op) (entry-fmt_number fmt)) ∙ cell

-- Whether a code of a map has bits just when it is a condition on a part of the word.
abbrev sized : CcMapKind → ℕ → Bool
sized m cc =
    let (k, bits) = decode_cc_metadata_48 m cc in
    if is_subword k then leb 5 bits && leb bits 14 && is_map2 m else bits == 0

all_sized : (m : CcMapKind) → all_below 64 (sized m) ≡ true
unfolding switch decode_cc_map decode_cc_metadata_48 decode_cc_map_0_metadata
    decode_cc_map_1_metadata decode_cc_map_2_metadata decode_cc_map_3_metadata
    decode_cc_map_4_metadata decode_cc_map_5_metadata decode_cc_map_6_metadata
    decode_cc_map_7_metadata decode_cc_map_8_metadata decode_cc_map_9_metadata
    decode_cc_map_10_metadata decode_cc_map_11_metadata decode_cc_map_13_metadata
    decode_cc_map_14_metadata decode_cc_map_15_metadata
all_sized no_map = refl
all_sized map0 = refl
all_sized map1 = refl
all_sized map2 = refl
all_sized map3 = refl
all_sized map4 = refl
all_sized map5 = refl
all_sized map6 = refl
all_sized map7 = refl
all_sized map8 = refl
all_sized map9 = refl
all_sized map10 = refl
all_sized map11 = refl
all_sized map13 = refl
all_sized map14 = refl
all_sized map15 = refl

-- What a code of a condition means in an operation and a format: a condition on the carry out of a part of
-- the word belongs to `add` and `addc` only, and the width of the part is from 5 to 14 bits, which is within
-- what `eval_add_subword_no_carry` takes; any other condition of any operation has the width 0.
pub select_cc_map_48-subword :
    (op : HotOp) (fmt : HotFormat) (cc : ℕ)
    → cc < 64
    → let (k, bits) = decode_cc_metadata_48 (select_cc_map_48 op fmt) cc in
      (if is_subword k then leb 5 bits && leb bits 14 && is_add op else bits == 0) ≡ true
select_cc_map_48-subword op fmt cc lt =
    let m = select_cc_map_48 op fmt in
    let s = all_below-at 64 (sized m) cc (all_sized m) lt in ground (arith, s, selects-true op fmt)
