-- ===== src/Device/Guard/Exclusion.antt =====
-- No dispatch is under the guard while a table is changed.
use hostpimsim_gecon.Base.{
  ℕ, zero, suc, ◌+◌, ◌^◌, ◌≤◌, ◌<◌, ◌≡◌, ◌∙◌, ◌⊎◌, inl, inr, refl, sym, arith, Bool, true, false,
  ◌&&◌, ◌||◌, not, List, [], ◌∷◌, ◌!=◌, Bool-cases,
}
use hostpimsim_gecon.Device.Guard.Defs.{
  Dispatch, outside, waited, counted, refused, armed, Mutation, idle, flagged, turned_away,
  at_table, Guard, dispatch_step, step_at, mutation_step, Turn, proceed, mutate, take_turn, run,
  all_outside, new_guard,
}

abbrev is_held : Dispatch → ℕ
is_held outside = 0
is_held waited = 0
is_held counted = 1
is_held refused = 1
is_held armed = 1

abbrev is_armed : Dispatch → Bool
is_armed armed = true
is_armed _ = false

-- How many dispatches are counted, and whether one is under the guard.
abbrev pub held : List Dispatch → ℕ
held [] = 0
held (p ∷ ps) = is_held p + held ps

abbrev pub any_armed : List Dispatch → Bool
any_armed [] = false
any_armed (p ∷ ps) = is_armed p || any_armed ps

abbrev threads : List Dispatch → ℕ
threads [] = 0
threads (p ∷ ps) = 1 + threads ps

abbrev pub is_at_table : Mutation → Bool
is_at_table at_table = true
is_at_table _ = false

abbrev is_idle : Mutation → Bool
is_idle idle = true
is_idle _ = false

is_held-le : (p : Dispatch) → is_held p ≤ 1
is_held-le outside = omega arith
is_held-le waited = omega arith
is_held-le counted = omega arith
is_held-le refused = omega arith
is_held-le armed = omega arith

held-threads : (ps : List Dispatch) → held ps ≤ threads ps
held-threads [] = omega arith
held-threads (outside ∷ ps) = omega (arith, held-threads ps)
held-threads (waited ∷ ps) = omega (arith, held-threads ps)
held-threads (counted ∷ ps) = omega (arith, held-threads ps)
held-threads (refused ∷ ps) = omega (arith, held-threads ps)
held-threads (armed ∷ ps) = omega (arith, held-threads ps)

none_held-none_armed : (ps : List Dispatch) → held ps ≡ 0 → any_armed ps ≡ false
none_held-none_armed [] h = refl
none_held-none_armed (outside ∷ ps) h = none_held-none_armed ps (omega (arith, h))
none_held-none_armed (waited ∷ ps) h = none_held-none_armed ps (omega (arith, h))
none_held-none_armed (counted ∷ ps) h = absurd (omega (arith, h))
none_held-none_armed (refused ∷ ps) h = absurd (omega (arith, h))
none_held-none_armed (armed ∷ ps) h = absurd (omega (arith, h))

-- One operation of a dispatch, on a count that has `rest` more dispatches in it.
record Stepped (mutating : Bool) (rest i a : ℕ) (ps : List Dispatch) (a' : ℕ) (ps' : List Dispatch)
    : Type 0 where
  count : a' ≡ rest + held ps'
  same : threads ps' ≡ threads ps
  shut : (mutating && not (any_armed ps) && any_armed ps') ≡ false

step_at-Stepped :
    (mutating : Bool) (rest i a : ℕ) (ps : List Dispatch)
    → a ≡ rest + held ps
    → rest + threads ps < 2 ^ 32
    → let (a', ps') = step_at mutating i a ps in Stepped mutating rest i a ps a' ps'
unfolding step_at dispatch_step
step_at-Stepped m rest i a [] h lt = record { count = h; same = refl; shut = ground arith }
step_at-Stepped true rest zero a (outside ∷ ps) h lt = record {
  count = ground (arith, h);
  same = refl;
  shut = ground arith;
}
step_at-Stepped false rest zero a (outside ∷ ps) h lt = record {
  count = ground (arith, h);
  same = refl;
  shut = ground arith;
}
step_at-Stepped m rest zero a (waited ∷ ps) h lt = record {
  count = omega (arith, h, held-threads ps);
  same = refl;
  shut = ground arith;
}
step_at-Stepped true rest zero a (counted ∷ ps) h lt = record {
  count = ground (arith, h);
  same = refl;
  shut = ground arith;
}
step_at-Stepped false rest zero a (counted ∷ ps) h lt = record {
  count = ground (arith, h);
  same = refl;
  shut = ground arith;
}
step_at-Stepped m rest zero a (refused ∷ ps) h lt = record {
  count = omega (arith, h, held-threads ps);
  same = refl;
  shut = ground arith;
}
step_at-Stepped m rest zero a (armed ∷ ps) h lt = record {
  count = omega (arith, h, held-threads ps);
  same = refl;
  shut = ground arith;
}
step_at-Stepped m rest (suc i) a (p ∷ ps) h lt =
    let s =
      step_at-Stepped m (rest + is_held p) i a ps (omega (arith, h))
        (omega (arith, lt, is_held-le p)) in
    record {
      count = omega (arith, s.count);
      same = omega (arith, s.same);
      shut = ground (arith, s.shut);
    }

record IsExclusive (n : ℕ) (g : Guard) : Type 0 where
  size : threads g.dispatches ≡ n
  count : g.active_dispatch_ops ≡ held g.dispatches
  flag : g.handler_table_mutating ≡ not (is_idle g.mutation)
  shut : (is_at_table g.mutation && any_armed g.dispatches) ≡ false

Mutation-cases : (m : Mutation) → (m ≡ idle) ⊎ (m ≡ flagged) ⊎ (m ≡ turned_away) ⊎ (m ≡ at_table)
Mutation-cases idle = inl refl
Mutation-cases flagged = inr (inl refl)
Mutation-cases turned_away = inr (inr (inl refl))
Mutation-cases at_table = inr (inr (inr refl))

mutation_step-IsExclusive : (n : ℕ) (g : Guard) → IsExclusive n g → IsExclusive n (mutation_step g)
unfolding mutation_step
mutation_step-IsExclusive n g s = elim (Mutation-cases g.mutation) [
  | inl e ↦ rw e (record { size = s.size; count = s.count; flag = refl; shut = refl })
  | inr (inl e) ↦
      let on : g.handler_table_mutating ≡ true = ground (arith, e, s.flag) in
      elim (Bool-cases (g.active_dispatch_ops != 0)) [
        | inl busy ↦
            rw (e, busy) (record { size = s.size; count = s.count; flag = on; shut = refl })
        | inr none ↦
            let empty : held g.dispatches ≡ 0 = ground (arith, none, s.count) in
            rw (e, none)
              (record {
                size = s.size;
                count = s.count;
                flag = on;
                shut = none_held-none_armed g.dispatches empty;
              })
      ]
  | inr (inr (inl e)) ↦ rw e (record { size = s.size; count = s.count; flag = refl; shut = refl })
  | inr (inr (inr e)) ↦ rw e (record { size = s.size; count = s.count; flag = refl; shut = refl })
]

take_turn-IsExclusive :
    (n : ℕ) (t : Turn) (g : Guard) → n < 2 ^ 32 → IsExclusive n g → IsExclusive n (take_turn t g)
unfolding take_turn
take_turn-IsExclusive n mutate g lt s = mutation_step-IsExclusive n g s
take_turn-IsExclusive n (proceed i) g lt s =
    let d =
      step_at-Stepped g.handler_table_mutating 0 i g.active_dispatch_ops g.dispatches
        (omega (arith, s.count)) (omega (arith, s.size, lt)) in
    record {
      size = d.same ∙ s.size;
      count = omega (arith, d.count);
      flag = s.flag;
      shut = elim (Mutation-cases g.mutation) [
        | inl e ↦ rw e refl
        | inr (inl e) ↦ rw e refl
        | inr (inr (inl e)) ↦ rw e refl
        | inr (inr (inr e)) ↦ ground (arith, e, s.shut, s.flag, d.shut)
      ];
    }

run-IsExclusive :
    (n : ℕ) (ts : List Turn) (g : Guard) → n < 2 ^ 32 → IsExclusive n g → IsExclusive n (run ts g)
unfolding run
run-IsExclusive n [] g lt s = s
run-IsExclusive n (t ∷ ts) g lt s =
    run-IsExclusive n ts (take_turn t g) lt (take_turn-IsExclusive n t g lt s)

all_outside-threads : (n : ℕ) → threads (all_outside n) ≡ n
unfolding all_outside
all_outside-threads zero = refl
all_outside-threads (suc n) = omega (arith, all_outside-threads n)

all_outside-held : (n : ℕ) → held (all_outside n) ≡ 0
unfolding all_outside
all_outside-held zero = refl
all_outside-held (suc n) = omega (arith, all_outside-held n)

new_guard-IsExclusive : (n : ℕ) → IsExclusive n (new_guard n)
unfolding new_guard all_outside
new_guard-IsExclusive n = record {
  size = all_outside-threads n;
  count = sym (all_outside-held n);
  flag = refl;
  shut = refl;
}

-- In every interleaving of fewer than 2^32 threads that dispatch with registrations and removals of
-- handlers, as long as all threads see the operations in one order: no dispatch is under the guard
-- while a table is changed, and the count is that of the dispatches that are counted, so that nothing is
-- left of it when they are through.
pub run-exclusive :
    (n : ℕ) (ts : List Turn)
    → n < 2 ^ 32
    → let g = run ts (new_guard n) in
      ((is_at_table g.mutation && any_armed g.dispatches) ≡ false)
      × (g.active_dispatch_ops ≡ held g.dispatches)
run-exclusive n ts lt =
    let s = run-IsExclusive n ts (new_guard n) lt (new_guard-IsExclusive n) in (s.shut, s.count)
