-- ===== src/Pipeline/Execute/Supported.antt =====
-- The words that `Pipeline::execute_once` handles have the fields that their handlers read.
use hostpimsim_gecon.Base.{
  ◌⊎◌, inl, inr, subst, ap₂, ◌∙◌, ◌==◌, ◌&&◌, ◌||◌, if◌then◌else◌, ◌≡◌, ℕ, Bool, true, false, not,
  Option, none, some, arith, refl, ap, sym,
}
use hostpimsim_gecon.Pipeline.Kinds.{
  HotOp, HotFormat, op_none, op_acquire, op_release, op_or, op_or_s, op_or_u, op_add, op_addc,
  op_and, op_and_s, op_and_u, op_sub, op_subc, op_mul_step, op_div_step, op_resume, op_boot,
  op_call, op_ldma, op_sdma, op_lsl, op_lsl_s, op_lsl_u, op_lslx, op_lslx_s, op_lslx_u, op_lsr,
  op_lsr_s, op_lsr_u, op_lsrx, op_lsrx_s, op_lsrx_u, op_movd, op_swapd, op_mul_ul_ul, op_mul_ul_uh,
  op_mul_uh_ul, op_mul_uh_uh, op_lsl_add, op_lsl_add_s, op_lsl_add_u, op_lsl_sub, op_lsl_sub_s,
  op_lsl_sub_u, op_lsr_add, op_lsr_add_s, op_lsr_add_u, op_lbu, op_lbs, op_lw, op_lw_s, op_ld,
  op_sw, op_sb, op_sh, op_sd, op_time_cfg, fmt_none, fmt_rri,
}
use hostpimsim_gecon.Pipeline.FmtNumbers.{fmt_number}
use hostpimsim_gecon.Pipeline.Decode.Raw.{RawDecoded48, HotMetadata, hot_metadata}
use hostpimsim_gecon.Pipeline.Decode.Word.{decode_raw_word_48}
use hostpimsim_gecon.Pipeline.OpNumbers.{op_number}
use hostpimsim_gecon.Pipeline.Trials.{all_below, all_below-at, entry}
use hostpimsim_gecon.Pipeline.OpNumbers.{all_ops, entry-op_number, op_number-lt}
use hostpimsim_gecon.Pipeline.FmtNumbers.{all_fmts, entry-fmt_number, fmt_number-lt}
use hostpimsim_gecon.Pipeline.Decode.Shape.{Operands, operands}
use hostpimsim_gecon.Pipeline.Decode.Operands.{operands_of, class_of}
use hostpimsim_gecon.Pipeline.Decode.Metadata.{
  is_hot_format_one_of, hot_or, hot_and_extended, hot_sub, hot_subc, hot_shift, hot_mul,
  hot_shift_sum, hot_shift_right_sum, hot_store_narrow, hot_store_wide, supported, hot_of,
  metadata_of, populate_hot_metadata_48,
}
use hostpimsim_gecon.Pipeline.Execute.Memory.{is_imm32}
use hostpimsim_gecon.Pipeline.Execute.Once.{decoded_of}
use hostpimsim_gecon.Pipeline.Decode.Accepts.{IsDecoded}
use hostpimsim_gecon.Pipeline.Decode.Decoded.{decode_raw_word_48-IsDecoded}

-- Whether a word has the fields that its handler reads, besides the first register.
abbrev pub reads_enough : HotOp → HotMetadata → Operands → Bool
reads_enough op_or m s = s.has_rb || s.has_imm
reads_enough op_or_s m s = s.has_rb || s.has_imm
reads_enough op_or_u m s = s.has_rb || s.has_imm
reads_enough op_add m s = s.has_rb || s.has_imm
reads_enough op_addc m s = s.has_rb || s.has_imm
reads_enough op_and m s = s.has_rb || s.has_imm
reads_enough op_and_s m s = s.has_imm
reads_enough op_and_u m s = s.has_imm
reads_enough op_acquire m s = s.has_imm
reads_enough op_release m s = s.has_imm
reads_enough op_resume m s = s.has_imm
reads_enough op_boot m s = s.has_imm
reads_enough op_sub m s = if m.sub_rhs_is_reg then s.has_rb else s.has_imm
reads_enough op_subc m s = if m.subc_rhs_is_reg then s.has_rb else s.has_imm
reads_enough op_mul_step m s = s.has_db && s.has_dc && s.has_shift
reads_enough op_div_step m s = s.has_db && s.has_dc && s.has_shift
reads_enough op_call m s = s.has_off && s.has_ra
reads_enough op_lbu m s = s.has_off && s.has_ra
reads_enough op_lbs m s = s.has_off && s.has_ra
reads_enough op_lw m s = s.has_off && s.has_ra
reads_enough op_lw_s m s = s.has_off && s.has_dc
reads_enough op_ld m s = s.has_off && s.has_dc
reads_enough op_ldma m s = s.has_rb && s.has_imm_dma
reads_enough op_sdma m s = s.has_rb && s.has_imm_dma
reads_enough op_lsl m s = s.has_rb || s.has_shift
reads_enough op_lsl_s m s = s.has_rb || s.has_shift
reads_enough op_lsl_u m s = s.has_rb || s.has_shift
reads_enough op_lslx m s = s.has_rb || s.has_shift
reads_enough op_lslx_s m s = s.has_rb || s.has_shift
reads_enough op_lslx_u m s = s.has_rb || s.has_shift
reads_enough op_lsr m s = s.has_rb || s.has_shift
reads_enough op_lsr_s m s = s.has_rb || s.has_shift
reads_enough op_lsr_u m s = s.has_rb || s.has_shift
reads_enough op_lsrx m s = s.has_rb || s.has_shift
reads_enough op_lsrx_s m s = s.has_rb || s.has_shift
reads_enough op_lsrx_u m s = s.has_rb || s.has_shift
reads_enough op_movd m s = s.has_db && s.has_dc
reads_enough op_swapd m s = s.has_db && s.has_dc
reads_enough op_mul_ul_ul m s = s.has_rb
reads_enough op_mul_ul_uh m s = s.has_rb
reads_enough op_mul_uh_ul m s = s.has_rb
reads_enough op_mul_uh_uh m s = s.has_rb
reads_enough op_time_cfg m s = s.has_rb
reads_enough op_lsl_add m s = s.has_rb && s.has_shift
reads_enough op_lsl_add_s m s = s.has_rb && s.has_shift
reads_enough op_lsl_add_u m s = s.has_rb && s.has_shift
reads_enough op_lsl_sub m s = s.has_rb && s.has_shift
reads_enough op_lsl_sub_s m s = s.has_rb && s.has_shift
reads_enough op_lsl_sub_u m s = s.has_rb && s.has_shift
reads_enough op_lsr_add m s = s.has_rb && s.has_shift
reads_enough op_lsr_add_s m s = s.has_rb && s.has_shift
reads_enough op_lsr_add_u m s = s.has_rb && s.has_shift
reads_enough op_sw m s = s.has_off && (if is_imm32 m.store_source_mode then s.has_imm else s.has_rb)
reads_enough op_sb m s = s.has_off && (if is_imm32 m.store_source_mode then s.has_imm else s.has_rb)
reads_enough op_sh m s = s.has_off && (if is_imm32 m.store_source_mode then s.has_imm else s.has_rb)
reads_enough op_sd m s = s.has_off && (if is_imm32 m.store_source_mode then s.has_imm else s.has_db)
reads_enough _ m s = true

-- `or.s` and `or.u` in the format `rri`.
abbrev pub is_or_pair_rri : HotOp → HotFormat → Bool
is_or_pair_rri op_or_s fmt_rri = true
is_or_pair_rri op_or_u fmt_rri = true
is_or_pair_rri _ _ = false

abbrev pub same_truth : Bool → Bool → Bool
same_truth true b = b
same_truth false b = not b

abbrev sound_at : HotMetadata → HotOp → HotFormat → Bool
sound_at m op fmt =
    let after = hot_of op fmt m in
    let s = operands_of (class_of op) fmt in
    (op_number op == 0)
    || not after.hot_supported
    || reads_enough op after s && same_truth s.has_ra (not (is_or_pair_rri op fmt))

-- `all_below`, once for the operations and once for the formats.
abbrev pub every : (HotOp → HotFormat → Bool) → Bool
every f =
    all_below 63 (λ i. all_below 49 (λ j. f (entry op_none all_ops i) (entry fmt_none all_fmts j)))

pub every-at :
    (f : HotOp → HotFormat → Bool) (op : HotOp) (fmt : HotFormat) → every f ≡ true → f op fmt ≡ true
every-at f op fmt all =
    let row =
      all_below-at 63
        (λ i. all_below 49 (λ j. f (entry op_none all_ops i) (entry fmt_none all_fmts j)))
        (op_number op) all (ground (arith, op_number-lt op)) in
    let cell =
      all_below-at 49 (λ j. f (entry op_none all_ops (op_number op)) (entry fmt_none all_fmts j))
        (fmt_number fmt) row (ground (arith, fmt_number-lt fmt)) in
    sym (ap₂ f (entry-op_number op) (entry-fmt_number fmt)) ∙ cell

all_sound : (m : HotMetadata) → every (sound_at m) ≡ true
unfolding hot_of hot_or hot_and_extended hot_sub hot_subc hot_shift hot_mul hot_shift_sum
    hot_shift_right_sum hot_store_narrow hot_store_wide is_hot_format_one_of is_imm32
all_sound m = refl

truths :
    (a b c x y : Bool)
    → (a || not b || c && same_truth x y) ≡ true
    → a ≡ false
    → b ≡ true
    → (c ≡ true) × (x ≡ y)
truths a b c true y h p q = (ground arith, ground arith)
truths a b c false y h p q = (ground arith, ground arith)

-- What is to be shown of a decoded word with its metadata.
abbrev Fits : RawDecoded48 → Type 0
Fits d =
    (reads_enough d.hot_op d.hot (operands d) ≡ true)
    × (d.has_ra ≡ not (is_or_pair_rri d.hot_op d.hot_fmt))

shaped :
    (m : HotMetadata) (op : HotOp) (fmt : HotFormat) (s : Operands)
    → (op_number op == 0) ≡ false
    → (hot_of op fmt m).hot_supported ≡ true
    → operands_of (class_of op) fmt ≡ s
    → (reads_enough op (hot_of op fmt m) s ≡ true) × (s.has_ra ≡ not (is_or_pair_rri op fmt))
shaped m op fmt s some_op supported e =
    subst
      (λ (x : Operands).
        (reads_enough op (hot_of op fmt m) x ≡ true) × (x.has_ra ≡ not (is_or_pair_rri op fmt)))
      e (truths _ _ _ _ _ (every-at (sound_at m) op fmt (all_sound m)) some_op supported)

-- The branches of `populate_hot_metadata_48`.
populated :
    (b : Bool) (o : RawDecoded48) (m : HotMetadata)
    → (b ≡ false → (op_number o.hot_op == 0) ≡ false)
    → (o.hot_op ≡ op_none) ⊎ (operands o ≡ operands_of (class_of o.hot_op) o.hot_fmt)
    → let hot = if b then hot_metadata else hot_of o.hot_op o.hot_fmt m in
      hot.hot_supported ≡ true → Fits (record o { hot = hot })
populated true o m some_op fields supported = cc
populated false o m some_op (inl e) supported =
    let zero_op : (op_number o.hot_op == 0) ≡ true = ap (λ (x : HotOp). op_number x == 0) e in
    let nonzero = some_op refl in cc
populated false o m some_op (inr e) supported =
    shaped m o.hot_op o.hot_fmt (operands o) (some_op refl) supported (sym e)

populate-Fits :
    (o : RawDecoded48)
    → IsDecoded o
    → (populate_hot_metadata_48 o).hot.hot_supported ≡ true
    → Fits (populate_hot_metadata_48 o)
unfolding populate_hot_metadata_48 metadata_of
populate-Fits o decoded supported =
    populated (not o.valid || (op_number o.hot_op == 0)) o _ (λ e. ground (arith, e)) decoded.fields
      supported

decoded-Fits :
    (r : Option RawDecoded48) (d : RawDecoded48)
    → ((o : RawDecoded48) → r ≡ some o → IsDecoded o)
    → (elim r [ none ↦ none | some o ↦ some (populate_hot_metadata_48 o) ]) ≡ some d
    → d.hot.hot_supported ≡ true
    → Fits d
decoded-Fits none d decoded e supported = cc
decoded-Fits (some o) d decoded e supported =
    let same : populate_hot_metadata_48 o ≡ d = cc in
    subst (λ (x : RawDecoded48). x.hot.hot_supported ≡ true → Fits x) same
      (populate-Fits o (decoded o refl)) supported

-- A decoded word whose operation is handled has the fields that the handler reads. It has a first register, but for
-- `or.s` and `or.u` in the format `rri`, which have none.
pub decoded_of-reads_enough :
    (w : ℕ) (d : RawDecoded48)
    → decoded_of w ≡ some d
    → d.hot.hot_supported ≡ true
    → (reads_enough d.hot_op d.hot (operands d) ≡ true)
      × (d.has_ra ≡ not (is_or_pair_rri d.hot_op d.hot_fmt))
unfolding decoded_of
decoded_of-reads_enough w d e supported =
    decoded-Fits (decode_raw_word_48 w) d (decode_raw_word_48-IsDecoded w) e supported
