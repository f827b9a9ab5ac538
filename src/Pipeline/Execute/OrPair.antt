-- ===== src/Pipeline/Execute/OrPair.antt =====
-- `or.s` and `or.u` of a register and an immediate.
use hostpimsim_gecon.Base.{
  ℕ, ◌≡◌, ◌⊎◌, inl, inr, refl, ap, subst, arith, true, false, not, ◌||◌, Option, none, some, bit_or,
}
use hostpimsim_gecon.Pipeline.Kinds.{HotOp, HotFormat, op_none}
use hostpimsim_gecon.Pipeline.Decode.Raw.{RawDecoded48}
use hostpimsim_gecon.Pipeline.Decode.Shape.{Operands, operands}
use hostpimsim_gecon.Pipeline.Decode.Operands.{operands_of, class_of}
use hostpimsim_gecon.Pipeline.Decode.Accepts.{IsDecoded}
use hostpimsim_gecon.Pipeline.Decode.Word.{decode_raw_word_48}
use hostpimsim_gecon.Pipeline.Decode.Metadata.{populate_hot_metadata_48}
use hostpimsim_gecon.Pipeline.Decode.Decoded.{decode_raw_word_48-IsDecoded}
use hostpimsim_gecon.Pipeline.Execute.Registers.{Step, set_zf}
use hostpimsim_gecon.Pipeline.Execute.Inputs.{
  vra, vrb, rhs_of, take_cond_branch, write_ext_dreg32, write_rc, write_result,
}
use hostpimsim_gecon.Pipeline.Execute.Arithmetic.{run_or}
use hostpimsim_gecon.Pipeline.Execute.Once.{decoded_of}
use hostpimsim_gecon.Pipeline.Execute.Supported.{is_or_pair_rri, every, every-at}

pair_registers :
    every (λ op fmt. not (is_or_pair_rri op fmt) || (operands_of (class_of op) fmt).has_rb) ≡ true
pair_registers = refl

no_pair_none : (op : HotOp) (fmt : HotFormat) → op ≡ op_none → is_or_pair_rri op fmt ≡ false
no_pair_none op fmt e = ap (λ (x : HotOp). is_or_pair_rri x fmt) e

fields_of :
    (r : Option RawDecoded48) (d : RawDecoded48)
    → ((o : RawDecoded48) → r ≡ some o → IsDecoded o)
    → (elim r [ none ↦ none | some o ↦ some (populate_hot_metadata_48 o) ]) ≡ some d
    → (d.hot_op ≡ op_none) ⊎ (operands d ≡ operands_of (class_of d.hot_op) d.hot_fmt)
unfolding populate_hot_metadata_48
fields_of none d decoded e = cc
fields_of (some o) d decoded e =
    let same : populate_hot_metadata_48 o ≡ d = cc in
    subst
      (λ (x : RawDecoded48).
        (x.hot_op ≡ op_none) ⊎ (operands x ≡ operands_of (class_of x.hot_op) x.hot_fmt))
      same (decoded o refl).fields

pair_has_rb :
    (d : RawDecoded48)
    → (d.hot_op ≡ op_none) ⊎ (operands d ≡ operands_of (class_of d.hot_op) d.hot_fmt)
    → is_or_pair_rri d.hot_op d.hot_fmt ≡ true
    → d.has_rb ≡ true
pair_has_rb d (inl e) pair = let not_pair = no_pair_none d.hot_op d.hot_fmt e in cc
pair_has_rb d (inr e) pair =
    let table =
      every-at (λ op fmt. not (is_or_pair_rri op fmt) || (operands_of (class_of op) fmt).has_rb)
        d.hot_op d.hot_fmt pair_registers in
    let own : d.has_rb ≡ (operands_of (class_of d.hot_op) d.hot_fmt).has_rb =
      ap (λ (x : Operands). x.has_rb) e in
    ground (arith, own, table, pair)

-- `or.s` and `or.u` in the format `rri` do the same whatever the immediate is.
pub run_or-ignores_imm :
    (w : ℕ) (d : RawDecoded48)
    → decoded_of w ≡ some d
    → is_or_pair_rri d.hot_op d.hot_fmt ≡ true
    → (t imm : ℕ) (s : Step) → run_or t (record d { imm = imm }) s ≡ run_or t d s
unfolding decoded_of run_or rhs_of vra vrb take_cond_branch write_result write_ext_dreg32 write_rc
run_or-ignores_imm w d e pair t imm s =
    let fields = fields_of (decode_raw_word_48 w) d (decode_raw_word_48-IsDecoded w) e in
    let has_rb = pair_has_rb d fields pair in
    let same : rhs_of t (record d { imm = imm }) s ≡ rhs_of t d s = ground (arith, has_rb) in
    ap
      (λ (r : ℕ).
        let x = bit_or (vra t d s) r in take_cond_branch t d x (set_zf t x (write_result t d x s)))
      same
