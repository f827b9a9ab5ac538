-- ===== src/Device/Guard/Defs.antt =====
-- `region_dispatch_guard`, and the part of `pim_register_dpu_handler` and `pim_unregister_dpu_handler` that
-- it works against. A thread is at a place between two atomic operations, and a schedule says whose
-- operation is next; all threads see them in that one order. The functions that change a table hold the
-- mutex of the region, so that there is one at a time.
use hostpimsim_gecon.Base.{
  ℕ, zero, suc, ◌+◌, ◌-◌, ◌^◌, Bool, true, false, List, [], ◌∷◌, ◌!=◌, if◌then◌else◌, u32,
}

-- A dispatch: before the wait, past it, counted, refused after that, and under the guard.
pub data Dispatch : Type 0 where
  outside waited counted refused armed : Dispatch

-- The change of a table: none, flagged, turned away, and at the table.
pub data Mutation : Type 0 where
  idle flagged turned_away at_table : Mutation

pub record Guard : Type 0 where
  pub handler_table_mutating : Bool
  pub active_dispatch_ops : ℕ
  pub dispatches : List Dispatch
  pub mutation : Mutation

-- `fetch_add(1)` and `fetch_sub(1)` on 32 bits.
abbrev pub fetch_add : ℕ → ℕ
fetch_add v = u32 (v + 1)

abbrev pub fetch_sub : ℕ → ℕ
fetch_sub v = u32 (v + (2 ^ 32 - 1))

-- The next operation of a dispatch: the count and the place that it gives.
unfoldable pub dispatch_step : Bool → ℕ → Dispatch → ℕ × Dispatch
dispatch_step mutating active outside = if mutating then (active, outside) else (active, waited)
dispatch_step mutating active waited = (fetch_add active, counted)
dispatch_step mutating active counted = if mutating then (active, refused) else (active, armed)
dispatch_step mutating active refused = (fetch_sub active, outside)
dispatch_step mutating active armed = (fetch_sub active, outside)

-- The next operation of the dispatch with a number.
unfoldable pub step_at : Bool → ℕ → ℕ → List Dispatch → ℕ × List Dispatch
step_at mutating i active [] = (active, [])
step_at mutating zero active (p ∷ ps) =
    let (active', p') = dispatch_step mutating active p in (active', p' ∷ ps)
step_at mutating (suc i) active (p ∷ ps) =
    let (active', ps') = step_at mutating i active ps in (active', p ∷ ps')

-- The next operation of the change of a table.
unfoldable pub mutation_step : Guard → Guard
mutation_step g = elim g.mutation [
  | idle ↦ record g { handler_table_mutating = true; mutation = flagged }
  | flagged ↦
      if g.active_dispatch_ops != 0
      then record g { mutation = turned_away }
      else record g { mutation = at_table }
  | turned_away ↦ record g { handler_table_mutating = false; mutation = idle }
  | at_table ↦ record g { handler_table_mutating = false; mutation = idle }
]

pub data Turn : Type 0 where
  proceed : ℕ → Turn
  mutate : Turn

unfoldable pub take_turn : Turn → Guard → Guard
take_turn (proceed i) g =
    let (active, ps) = step_at g.handler_table_mutating i g.active_dispatch_ops g.dispatches in
    record g { active_dispatch_ops = active; dispatches = ps }
take_turn mutate g = mutation_step g

unfoldable pub run : List Turn → Guard → Guard
run [] g = g
run (t ∷ ts) g = run ts (take_turn t g)

unfoldable pub all_outside : ℕ → List Dispatch
all_outside zero = []
all_outside (suc n) = outside ∷ all_outside n

-- A new region, with `n` threads that will dispatch.
unfoldable pub new_guard : ℕ → Guard
new_guard n = record {
  handler_table_mutating = false;
  active_dispatch_ops = 0;
  dispatches = all_outside n;
  mutation = idle;
}
