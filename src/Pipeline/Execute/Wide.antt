-- ===== src/Pipeline/Execute/Wide.antt =====
-- Sums and differences on 64 bits by two instructions, the second with the carry of the first.
use hostpimsim_gecon.Base.{
  ℕ, ◌+◌, ◌*◌, ◌/◌, ◌^◌, ◌<◌, ◌≡◌, refl, ap, ◌∙◌, arith, Bool, true, false, ◌||◌, ltb, ◌!=◌,
  if◌then◌else◌, u32, update,
}
use hostpimsim_gecon.Dpu.State.{Core}
use hostpimsim_gecon.Pipeline.Decode.Raw.{RawDecoded48}
use hostpimsim_gecon.Pipeline.Execute.Registers.{
  Step, registers, with_registers, set_registers, read_reg, write_reg, set_zf, set_cf, jump, sub32,
}
use hostpimsim_gecon.Pipeline.Execute.Inputs.{drc, vra, rhs_of, take_cond_branch, write_rc}
use hostpimsim_gecon.Pipeline.Execute.Arithmetic.{
  add_rhs, run_add, run_addc, sub_lhs, sub_rhs, run_sub, subc_lhs, subc_rhs, run_subc,
}

branch-core :
    (t : ℕ) (d : RawDecoded48) (v : ℕ) (s : Step) → (take_cond_branch t d v s).core ≡ s.core
unfolding take_cond_branch jump
branch-core t d v s = ground arith

write-read : (t i v : ℕ) (s : Step) → i < 24 → read_reg t (write_reg t i v s).core i ≡ v
unfolding read_reg write_reg with_registers set_registers update
write-read t i v s lt = ground arith

write-cf :
    (t i v : ℕ) (s : Step) → (registers (write_reg t i v s)).cf_regs t ≡ (registers s).cf_regs t
unfolding write_reg with_registers set_registers
write-cf t i v s = ground arith

flags-read :
    (t i v : ℕ) (b : Bool) (z : ℕ) (s : Step)
    → i < 24
    → read_reg t (set_cf t b (set_zf t z (write_reg t i v s))).core i ≡ v
unfolding read_reg set_cf set_zf write_reg with_registers set_registers update
flags-read t i v b z s lt = ground arith

flags-cf :
    (t : ℕ) (b : Bool) (s : Step) → (registers (set_cf t b s)).cf_regs t ≡ (if b then 1 else 0)
unfolding set_cf with_registers set_registers update
flags-cf t b s = ground arith

abbrev pub carry : ℕ → Step → ℕ
carry t s = (registers s).cf_regs t

-- The result register of an instruction and the carry after it, from what its core is.
module _ (t i v : ℕ) (b : Bool) (z : ℕ) (s s' : Step) (lt : i < 24) where
  first_flags :
      s'.core ≡ (write_reg t i v (set_cf t b (set_zf t z s))).core
      → (read_reg t s'.core i ≡ v) × (carry t s' ≡ (if b then 1 else 0))
  first_flags e = (
    ap (λ (c : Core). read_reg t c i) e ∙ write-read t i v _ lt,
    ap (λ (c : Core). c.pipeline.register_file.cf_regs t) e ∙ write-cf t i v _ ∙ flags-cf t b _,
  )

  last_flags :
      s'.core ≡ (set_cf t b (set_zf t z (write_reg t i v s))).core
      → (read_reg t s'.core i ≡ v) × (carry t s' ≡ (if b then 1 else 0))
  last_flags e = (
    ap (λ (c : Core). read_reg t c i) e ∙ flags-read t i v b z s lt,
    ap (λ (c : Core). c.pipeline.register_file.cf_regs t) e ∙ flags-cf t b _,
  )

module _ (t : ℕ) (d : RawDecoded48) (writes : d.has_rc ≡ true) (plain : drc d < 24) (s : Step) where
  rc-write : (x : ℕ) (s' : Step) → write_rc t d x s' ≡ write_reg t (drc d) x s'
  unfolding write_rc
  rc-write x s' = ground (arith, writes)

  addc_parts :
      let sum : ℕ = vra t d s + rhs_of t d s + (if carry t s != 0 then 1 else 0) in
      (read_reg t (run_addc t d s).core (drc d) ≡ u32 sum)
      × (carry t (run_addc t d s) ≡ (if sum / 2 ^ 32 != 0 then 1 else 0))
  unfolding run_addc
  addc_parts =
      let sum : ℕ = vra t d s + rhs_of t d s + (if carry t s != 0 then 1 else 0) in
      last_flags t (drc d) (u32 sum) (sum / 2 ^ 32 != 0) (u32 sum) s (run_addc t d s) plain (
        branch-core t d _ _
        ∙ ap (λ (x : Step). (set_cf t (sum / 2 ^ 32 != 0) (set_zf t (u32 sum) x)).core)
            (rc-write (u32 sum) s))

  add_parts :
      let sum : ℕ = vra t d s + add_rhs t d s in
      (read_reg t (run_add t d s).core (drc d) ≡ u32 sum)
      × (carry t (run_add t d s) ≡ (if sum / 2 ^ 32 != 0 then 1 else 0))
  unfolding run_add jump
  add_parts =
      let sum : ℕ = vra t d s + add_rhs t d s in
      last_flags t (drc d) (u32 sum) (sum / 2 ^ 32 != 0) (u32 sum) s (run_add t d s) plain (
        jump_or_branch _ _ _
        ∙ ap (λ (x : Step). (set_cf t (sum / 2 ^ 32 != 0) (set_zf t (u32 sum) x)).core)
            (rc-write (u32 sum) s))
    where
      jump_or_branch :
          (b : Bool) (x : ℕ) (s1 : Step)
          → (if◌then◌else◌ {A = Step} b (jump d.pc s1) (take_cond_branch t d x s1)).core ≡ s1.core
      jump_or_branch true x s1 = refl
      jump_or_branch false x s1 = branch-core t d x _

  -- A difference whose result is not a truth value.
  written :
      (b p : Bool) (v w x : ℕ) (s1 : Step)
      → b ≡ false
      → let s2 = if◌then◌else◌ {A = Step} b (write_rc t d v s1) (write_rc t d w s1) in
        (if◌then◌else◌ {A = Step} p (take_cond_branch t d x s2) s2).core
        ≡ (write_reg t (drc d) w s1).core
  written true p v w x s1 e = cc
  written false true v w x s1 e = branch-core t d x _ ∙ ap (λ (s' : Step). s'.core) (rc-write w s1)
  written false false v w x s1 e = ap (λ (s' : Step). s'.core) (rc-write w s1)

  sub_parts :
      d.hot.sub_is_rrrc ≡ false
      → let a = sub_lhs t d s in
        let b = sub_rhs t d s in
        (read_reg t (run_sub t d s).core (drc d) ≡ sub32 a b)
        × (carry t (run_sub t d s) ≡ (if ltb a b then 1 else 0))
  unfolding run_sub
  sub_parts plain_sub =
      let a = sub_lhs t d s in
      let b = sub_rhs t d s in
      first_flags t (drc d) (sub32 a b) (ltb a b) (sub32 a b) s (run_sub t d s) plain
        (written d.hot.sub_is_rrrc _ _ _ _ _ plain_sub)

  subc_parts :
      d.hot.subc_is_rrrc ≡ false
      → let a = subc_lhs t d s in
        let b = subc_rhs t d s in
        let rhs : ℕ = u32 (b + (if carry t s != 0 then 1 else 0)) in
        (read_reg t (run_subc t d s).core (drc d) ≡ sub32 a rhs)
        × (carry t (run_subc t d s) ≡ (if ltb a rhs || ltb rhs b then 1 else 0))
  unfolding run_subc jump
  subc_parts plain_sub =
      let a = subc_lhs t d s in
      let b = subc_rhs t d s in
      let rhs : ℕ = u32 (b + (if carry t s != 0 then 1 else 0)) in
      first_flags t (drc d) (sub32 a rhs) (ltb a rhs || ltb rhs b) (sub32 a rhs) s (run_subc t d s)
        plain (jumped d.hot.subc_is_rrrc _ _ _ _ plain_sub)
    where
      jumped :
          (b p : Bool) (v w : ℕ) (s1 : Step)
          → b ≡ false
          → let s2 = if◌then◌else◌ {A = Step} b (write_rc t d v s1) (write_rc t d w s1) in
            (if◌then◌else◌ {A = Step} p (jump d.pc s2) s2).core ≡ (write_reg t (drc d) w s1).core
      jumped true p v w s1 e = cc
      jumped false true v w s1 e = ap (λ (s' : Step). s'.core) (rc-write w s1)
      jumped false false v w s1 e = ap (λ (s' : Step). s'.core) (rc-write w s1)

module _ (t : ℕ) (d1 d2 : RawDecoded48) (s : Step) (writes1 : d1.has_rc ≡ true)
    (plain1 : drc d1 < 24) (writes2 : d2.has_rc ≡ true) (plain2 : drc d2 < 24) where
  -- The result of `add` and the result and the carry of an `addc` after it are the low word, the high word and the
  -- carry of the sum of their operands as numbers of 64 bits, where each operand is a word.
  pub run_addc-run_add :
      vra t d1 s < 2 ^ 32
      → add_rhs t d1 s < 2 ^ 32
      → vra t d2 (run_add t d1 s) < 2 ^ 32
      → rhs_of t d2 (run_add t d1 s) < 2 ^ 32
      → let s1 = run_add t d1 s in
        let s2 = run_addc t d2 s1 in
        read_reg t s1.core (drc d1) + 2 ^ 32 * read_reg t s2.core (drc d2) + 2 ^ 64 * carry t s2
        ≡ (vra t d1 s + 2 ^ 32 * vra t d2 s1) + (add_rhs t d1 s + 2 ^ 32 * rhs_of t d2 s1)
  run_addc-run_add a b c d =
      let (low, carried) = add_parts t d1 writes1 plain1 s in
      let (high, last) = addc_parts t d2 writes2 plain2 (run_add t d1 s) in
      ground (arith, low, carried, high, last)

  -- The result of `sub` and the result and the borrow of a `subc` after it are the low word, the high word and the
  -- borrow of the difference of their operands as numbers of 64 bits, where each operand is a word and neither
  -- instruction writes a truth value.
  pub run_subc-run_sub :
      d1.hot.sub_is_rrrc ≡ false
      → d2.hot.subc_is_rrrc ≡ false
      → sub_lhs t d1 s < 2 ^ 32
      → sub_rhs t d1 s < 2 ^ 32
      → subc_lhs t d2 (run_sub t d1 s) < 2 ^ 32
      → subc_rhs t d2 (run_sub t d1 s) < 2 ^ 32
      → let s1 = run_sub t d1 s in
        let s2 = run_subc t d2 s1 in
        read_reg t s1.core (drc d1)
          + 2 ^ 32 * read_reg t s2.core (drc d2)
          + (sub_rhs t d1 s + 2 ^ 32 * subc_rhs t d2 s1)
        ≡ (sub_lhs t d1 s + 2 ^ 32 * subc_lhs t d2 s1) + 2 ^ 64 * carry t s2
  run_subc-run_sub p q a b c d =
      let (low, carried) = sub_parts t d1 writes1 plain1 s p in
      let (high, last) = subc_parts t d2 writes2 plain2 (run_sub t d1 s) q in
      ground (arith, low, carried, high, last)
