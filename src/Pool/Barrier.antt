-- ===== src/Pool/Barrier.antt =====
-- The barriers return just when nothing is pending.
use hostpimsim_gecon.Base.{
  ℕ, zero, suc, ◌+◌, ◌-◌, ◌^◌, ◌<◌, ◌≡◌, ◌⊎◌, inl, inr, refl, sym, ap, subst, arith, Bool, true,
  false, ◌&&◌, ◌||◌, not, List, [], ◌∷◌, ◌++◌, ◌==◌, ltb, if◌then◌else◌, u32, Bool-cases,
}
use hostpimsim_gecon.Pool.Defs.{
  Worker, waiting, executing, device_counted, returned, Pool, new_workers, pool_start_locked,
  pool_stop_locked, all_returned, pim_join_and_clear_threads, count_workers, expand, Turn, submit,
  work, start, grow, stop, join, take_turn, run, new_pool, device_barrier_returns,
  region_barrier_returns,
}
use hostpimsim_gecon.Pool.Counts.{
  is_handled, executed, executed_of, pending, pending_of, IsCounted, pool_submit-IsCounted,
  worker_step-IsCounted,
}

-- Every task that is submitted has a handler.
abbrev pub submits_handled : List Turn → Bool
submits_handled [] = true
submits_handled (submit m t ∷ ts) = is_handled t && submits_handled ts
submits_handled (work i ∷ ts) = submits_handled ts
submits_handled (start h b n ∷ ts) = submits_handled ts
submits_handled (grow n ∷ ts) = submits_handled ts
submits_handled (stop ∷ ts) = submits_handled ts
submits_handled (join ∷ ts) = submits_handled ts

new_workers-executed : (n : ℕ) → executed (new_workers n) ≡ 0
unfolding new_workers
new_workers-executed zero = refl
new_workers-executed (suc n) = omega (arith, new_workers-executed n)

new_workers-executed_of : (r n : ℕ) → executed_of r (new_workers n) ≡ 0
unfolding new_workers
new_workers-executed_of r zero = refl
new_workers-executed_of r (suc n) = omega (arith, new_workers-executed_of r n)

-- Workers that are added to others.
executed-append : (ws : List Worker) (n : ℕ) → executed (ws ++ new_workers n) ≡ executed ws
executed-append [] n = new_workers-executed n
executed-append (w ∷ ws) n = omega (arith, executed-append ws n)

executed_of-append :
    (r : ℕ) (ws : List Worker) (n : ℕ) → executed_of r (ws ++ new_workers n) ≡ executed_of r ws
executed_of-append r [] n = new_workers-executed_of r n
executed_of-append r (w ∷ ws) n = omega (arith, executed_of-append r ws n)

all_returned-executed :
    (r : ℕ) (ws : List Worker) → all_returned ws ≡ true → (executed ws ≡ 0) × (executed_of r ws ≡ 0)
unfolding all_returned
all_returned-executed r [] h = (refl, refl)
all_returned-executed r (waiting ∷ ws) h = absurd (ground (arith, h))
all_returned-executed r (executing t ∷ ws) h = absurd (ground (arith, h))
all_returned-executed r (device_counted t ∷ ws) h = absurd (ground (arith, h))
all_returned-executed r (returned ∷ ws) h =
    let rest = all_returned-executed r ws h in (omega (arith, rest.0), omega (arith, rest.1))

-- The same books with other workers that have the same in hand.
restaffed :
    (r : ℕ) (p : Pool) (running : Bool) (most : ℕ) (ws : List Worker)
    → executed ws ≡ executed p.handler_pool
    → executed_of r ws ≡ executed_of r p.handler_pool
    → IsCounted r p
    → IsCounted r (record p { pool_running = running; max_active_dpus = most; handler_pool = ws })
restaffed r p running most ws e e_of c = record {
  device = omega (arith, c.device, e);
  region = omega (arith, c.region, e_of);
  handled = c.handled;
  small = c.small;
  small_of = c.small_of;
}

List-cases : (ws : List Worker) → (ws ≡ []) ⊎ ((w : Worker) × (us : List Worker) × (ws ≡ w ∷ us))
List-cases [] = inl refl
List-cases (w ∷ us) = inr (w, us, refl)

pool_start_locked-IsCounted :
    (r hardware : ℕ) (has_threads : Bool) (n : ℕ) (p : Pool)
    → p.handler_pool ≡ []
    → IsCounted r p
    → IsCounted r (pool_start_locked hardware has_threads n p).1
unfolding pool_start_locked
pool_start_locked-IsCounted r hardware has_threads n p none_left c =
    let concurrency : ℕ = if n == 0 then if hardware == 0 then 1 else hardware else n in
    elim (Bool-cases (p.teardown_in_progress || p.pool_running)) [
      | inl stays ↦
          let step : (pool_start_locked hardware has_threads n p).1 ≡ p = ground (arith, stays) in
          subst (IsCounted r) (sym step) c
      | inr on ↦ elim (Bool-cases has_threads) [
        | inr failed ↦
            let step : (pool_start_locked hardware has_threads n p).1
                ≡ record p { max_active_dpus = 0; handler_pool = [] } =
              ground (arith, on, failed) in
            subst (IsCounted r) (sym step) (
              restaffed r p p.pool_running 0 [] (ap executed (sym none_left))
                (ap (executed_of r) (sym none_left)) c)
        | inl made ↦
            let step : (pool_start_locked hardware has_threads n p).1 ≡ record p {
              pool_running = true;
              max_active_dpus = concurrency;
              handler_pool = p.handler_pool ++ new_workers concurrency;
            } =
              ground (arith, on, made) in
            subst (IsCounted r) (sym step) (
              restaffed r p true concurrency (p.handler_pool ++ new_workers concurrency)
                (executed-append p.handler_pool concurrency)
                (executed_of-append r p.handler_pool concurrency) c)
      ]
    ]

start-IsCounted :
    (r hardware : ℕ) (has_threads : Bool) (n : ℕ) (p : Pool)
    → IsCounted r p
    → IsCounted r (take_turn (start hardware has_threads n) p)
unfolding take_turn pool_start_locked
start-IsCounted r hardware has_threads n p c = elim (List-cases p.handler_pool) [
  | inl e ↦
      let step : take_turn (start hardware has_threads n) p
          ≡ (pool_start_locked hardware has_threads n p).1 =
        ground (arith, e) in
      subst (IsCounted r) (sym step) (pool_start_locked-IsCounted r hardware has_threads n p e c)
  | inr (w, us, e) ↦
      let step : take_turn (start hardware has_threads n) p ≡ p = ground (arith, e) in
      subst (IsCounted r) (sym step) c
]

grow-IsCounted : (r n : ℕ) (p : Pool) → IsCounted r p → IsCounted r (expand n p)
unfolding expand
grow-IsCounted r n p c =
    let more = n - count_workers p.handler_pool in
    let y =
      restaffed r p p.pool_running n (p.handler_pool ++ new_workers more)
        (executed-append p.handler_pool more) (executed_of-append r p.handler_pool more) c in
    elim (Bool-cases (not p.pool_running || (count_workers p.handler_pool == n))) [
      | inl stays ↦
          let step : expand n p ≡ record p { max_active_dpus = n } = ground (arith, stays) in
          subst (IsCounted r) (sym step) (restaffed r p p.pool_running n p.handler_pool refl refl c)
      | inr moves ↦ elim (Bool-cases (ltb (count_workers p.handler_pool) n)) [
        | inl b ↦
            let step : expand n p ≡ record p {
              max_active_dpus = n;
              handler_pool = p.handler_pool ++ new_workers more;
            } =
              ground (arith, moves, b) in
            subst (IsCounted r) (sym step) y
        | inr b ↦
            let step : expand n p ≡ p = ground (arith, moves, b) in subst (IsCounted r) (sym step) c
      ]
    ]

join-IsCounted : (r : ℕ) (p : Pool) → IsCounted r p → IsCounted r (pim_join_and_clear_threads p)
unfolding pim_join_and_clear_threads
join-IsCounted r p c = elim (Bool-cases (not p.pool_running && all_returned p.handler_pool)) [
  | inr b ↦
      let step : pim_join_and_clear_threads p ≡ p = ground (arith, b) in
      subst (IsCounted r) (sym step) c
  | inl b ↦
      let step : pim_join_and_clear_threads p
          ≡ record p { max_active_dpus = 0; handler_pool = [] } =
        ground (arith, b) in
      let (e, e_of) = all_returned-executed r p.handler_pool (ground (arith, b)) in
      subst (IsCounted r) (sym step) (restaffed r p p.pool_running 0 [] (sym e) (sym e_of) c)
]

pub run-IsCounted :
    (r : ℕ) (ts : List Turn) (p : Pool)
    → (r == 0) ≡ false
    → submits_handled ts ≡ true
    → IsCounted r p
    → IsCounted r (run ts p)
unfolding run take_turn pool_stop_locked
run-IsCounted r [] p nz h c = c
run-IsCounted r (submit m t ∷ ts) p nz h c =
    run-IsCounted r ts (take_turn (submit m t) p) nz (ground (arith, h))
      (pool_submit-IsCounted r m t p nz (ground (arith, h)) c)
run-IsCounted r (work i ∷ ts) p nz h c =
    run-IsCounted r ts (take_turn (work i) p) nz h (worker_step-IsCounted r i p nz c)
run-IsCounted r (start hw b n ∷ ts) p nz h c =
    run-IsCounted r ts (take_turn (start hw b n) p) nz h (start-IsCounted r hw b n p c)
run-IsCounted r (grow n ∷ ts) p nz h c =
    run-IsCounted r ts (take_turn (grow n) p) nz h (grow-IsCounted r n p c)
run-IsCounted r (stop ∷ ts) p nz h c = run-IsCounted r ts (take_turn stop p) nz h (record {
  device = c.device;
  region = c.region;
  handled = c.handled;
  small = c.small;
  small_of = c.small_of;
})
run-IsCounted r (join ∷ ts) p nz h c =
    run-IsCounted r ts (take_turn join p) nz h (join-IsCounted r p c)

-- Two counters, one ahead of the other by less than a turn.
agree :
    (finished more commited : ℕ)
    → finished < 2 ^ 32
    → more < 2 ^ 32
    → u32 (finished + more) ≡ commited
    → (finished == commited) ≡ (more == 0)
agree finished more commited f m e = ground (arith, e)

-- After any run of submissions, starts, expansions, stops and accesses of workers, in any order, in which
-- every task has a handler, and as long as fewer than 2^32 tasks are pending: the barrier of the device
-- returns just when no task is queued or in a worker's hands, and that of a region just when
-- none of the region's is.
pub run-barriers :
    (r : ℕ) (ts : List Turn)
    → (r == 0) ≡ false
    → submits_handled ts ≡ true
    → pending (run ts new_pool) < 2 ^ 32
    → pending_of r (run ts new_pool) < 2 ^ 32
    → let p = run ts new_pool in
      (device_barrier_returns p ≡ (pending p == 0))
      × (region_barrier_returns r p ≡ (pending_of r p == 0))
unfolding device_barrier_returns region_barrier_returns
run-barriers r ts nz h small small_of =
    let start : IsCounted r new_pool = record {
      device = refl;
      region = refl;
      handled = refl;
      small = omega arith;
      small_of = omega arith;
    } in
    let c = run-IsCounted r ts new_pool nz h start in
    (agree _ _ _ c.small small c.device, agree _ _ _ c.small_of small_of c.region)
