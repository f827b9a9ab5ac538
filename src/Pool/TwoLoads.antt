-- ===== src/Pool/TwoLoads.antt =====
-- A barrier loads the two counters one after the other, and other threads run in between.
use hostpimsim_gecon.Base.{
  ℕ, zero, suc, ◌+◌, ◌^◌, ◌≤◌, ◌<◌, ◌≡◌, inl, inr, refl, arith, true, List, [], ◌∷◌, ◌==◌, u32,
}
use hostpimsim_gecon.Pool.Defs.{
  Worker, waiting, executing, device_counted, returned, Pool, pool_submit, pool_worker_func,
  worker_at, worker_step, pool_start_locked, pool_stop_locked, pim_join_and_clear_threads, expand,
  Turn, submit, work, start, grow, stop, join, take_turn, run, new_pool,
}
use hostpimsim_gecon.Pool.Counts.{pending, IsCounted, List-cases}
use hostpimsim_gecon.Pool.Barrier.{submits_handled, run-IsCounted}

abbrev pub turns : List Turn → ℕ
turns [] = 0
turns (t ∷ ts) = 1 + turns ts

-- At most so many tasks have been counted as finished from one state to the next.
record Advanced (most before after : ℕ) : Type 0 where
  count : ℕ
  bound : count ≤ most
  counted : after ≡ u32 (before + count)

worker_at-Advanced :
    (i : ℕ) (ws : List Worker) (p : Pool)
    → p.futex_cnt_finished < 2 ^ 32
    → Advanced 1 p.futex_cnt_finished (worker_at i ws p).1.futex_cnt_finished
unfolding worker_at pool_worker_func
worker_at-Advanced i [] p lt = record {
  count = 0;
  bound = omega arith;
  counted = omega (arith, lt);
}
worker_at-Advanced zero (executing t ∷ ws) p lt = record {
  count = 1;
  bound = omega arith;
  counted = refl;
}
worker_at-Advanced zero (waiting ∷ ws) p lt =
    let same : (pool_worker_func waiting p).1.futex_cnt_finished ≡ p.futex_cnt_finished =
      elim (List-cases p.task_queue) [
        | inl e ↦ ground (arith, e)
        | inr (t, us, e) ↦ ground (arith, e)
      ] in
    record { count = 0; bound = omega arith; counted = omega (arith, lt, same) }
worker_at-Advanced zero (device_counted t ∷ ws) p lt = record {
  count = 0;
  bound = omega arith;
  counted = omega (arith, lt);
}
worker_at-Advanced zero (returned ∷ ws) p lt = record {
  count = 0;
  bound = omega arith;
  counted = omega (arith, lt);
}
worker_at-Advanced (suc i) (w ∷ ws) p lt = worker_at-Advanced i ws p lt

-- A turn that does not touch the count.
unchanged : (before after : ℕ) → before < 2 ^ 32 → after ≡ before → Advanced 1 before after
unchanged before after lt e = record {
  count = 0;
  bound = omega arith;
  counted = omega (arith, lt, e);
}

take_turn-Advanced :
    (t : Turn) (p : Pool)
    → p.futex_cnt_finished < 2 ^ 32
    → Advanced 1 p.futex_cnt_finished (take_turn t p).futex_cnt_finished
unfolding take_turn pool_submit worker_step pool_start_locked expand pool_stop_locked
    pim_join_and_clear_threads
take_turn-Advanced (submit m t) p lt = unchanged _ _ lt (ground arith)
take_turn-Advanced (work i) p lt = worker_at-Advanced i p.handler_pool p lt
take_turn-Advanced (start h b n) p lt = unchanged _ _ lt (ground arith)
take_turn-Advanced (grow n) p lt = unchanged _ _ lt (ground arith)
take_turn-Advanced stop p lt = unchanged _ _ lt refl
take_turn-Advanced join p lt = unchanged _ _ lt (ground arith)

run-Advanced :
    (ts : List Turn) (p : Pool)
    → p.futex_cnt_finished < 2 ^ 32
    → Advanced (turns ts) p.futex_cnt_finished (run ts p).futex_cnt_finished
unfolding run
run-Advanced [] p lt = record { count = 0; bound = omega arith; counted = omega (arith, lt) }
run-Advanced (t ∷ ts) p lt =
    let one = take_turn-Advanced t p lt in
    let rest = run-Advanced ts (take_turn t p) (omega (arith, one.counted)) in
    record {
      count = one.count + rest.count;
      bound = omega (arith, one.bound, rest.bound);
      counted = omega (arith, one.counted, rest.counted);
    }

-- The barrier of a device loads the count of finished tasks, other threads take their turns, and it loads the
-- count of submitted tasks. If the two agree, then at the second load no task is queued or in
-- a worker's hands; as long as every task has a handler, and the turns in between and the tasks that are
-- pending are fewer than 2^32.
pub run-two_loads :
    (earlier between : List Turn)
    → submits_handled earlier ≡ true
    → submits_handled between ≡ true
    → let p = run earlier new_pool in
      let q = run between p in
      turns between + pending q < 2 ^ 32
      → (p.futex_cnt_finished == q.futex_cnt_commited) ≡ true
      → pending q ≡ 0
run-two_loads earlier between h h' small agree =
    let start : IsCounted 1 new_pool = record {
      device = refl;
      region = refl;
      handled = refl;
      small = omega arith;
      small_of = omega arith;
    } in
    let c = run-IsCounted 1 earlier new_pool refl h start in
    let d = run-IsCounted 1 between (run earlier new_pool) refl h' c in
    let a = run-Advanced between (run earlier new_pool) c.small in
    let same : (run earlier new_pool).futex_cnt_finished
        ≡ (run between (run earlier new_pool)).futex_cnt_commited =
      ground (arith, agree) in
    omega (arith, same, d.device, a.counted, a.bound, small, c.small)
