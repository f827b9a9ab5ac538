-- ===== src/Pool/Drain.antt =====
-- A stopped pool runs what is queued, and its workers return.
use hostpimsim_gecon.Base.{
  ℕ, zero, suc, ◌+◌, ◌*◌, ◌^◌, ◌<◌, ◌≡◌, inl, inr, refl, sym, ap, ap₂, subst, arith, true, false,
  none, some, List, [], ◌∷◌, if◌then◌else◌, u32, Bool-cases,
}
use hostpimsim_gecon.Pool.Defs.{
  Task, Worker, waiting, executing, returned, Pool, count_region, pool_worker_func, worker_at,
  worker_step, pool_stop_locked, pim_join_and_clear_threads, all_returned, Turn, work, take_turn,
  run,
}
use hostpimsim_gecon.Pool.Counts.{is_handled, all_handled, queued}

-- So many accesses of the first worker.
abbrev pub accesses : ℕ → List Turn
accesses zero = []
accesses (suc n) = work 0 ∷ accesses n

accesses_for : (ts : List Task) → ℕ
accesses_for [] = 1
accesses_for (t ∷ ts) = suc (suc (suc (accesses_for ts)))

accesses_for_eq : (ts : List Task) → accesses_for ts ≡ 3 * queued ts + 1
unfolding accesses_for
accesses_for_eq [] = refl
accesses_for_eq (t ∷ ts) = omega (arith, accesses_for_eq ts)

-- The three accesses that take a task and count it.
three :
    (p : Pool) (t : Task) (ts : List Task) (ws : List Worker)
    → is_handled t ≡ true
    → let p0 : Pool = record p { task_queue = t ∷ ts; handler_pool = waiting ∷ ws } in
      worker_step 0 (worker_step 0 (worker_step 0 p0)) ≡ record p {
        task_queue = ts;
        handler_pool = waiting ∷ ws;
        futex_cnt_finished = u32 (p.futex_cnt_finished + 1);
        region_finished = count_region t.region p.region_finished;
      }
unfolding worker_step worker_at pool_worker_func
three p t ts ws h =
    let takes : (elim t.handler as (λ x. Worker) [ none ↦ waiting | some f ↦ executing t ])
        ≡ executing t =
      ground (arith, h) in
    ap
      (λ (w : Worker).
        worker_step 0 (worker_step 0 (record p { task_queue = ts; handler_pool = w ∷ ws })))
      takes

final :
    (p : Pool) (ws : List Worker)
    → p.pool_running ≡ false
    → worker_step 0 (record p { task_queue = []; handler_pool = waiting ∷ ws })
      ≡ record p { task_queue = []; handler_pool = returned ∷ ws }
unfolding worker_step worker_at pool_worker_func
final p ws off = ground (arith, off)

-- What is left to prove of a drained pool.
pub record Drained (before : ℕ) (ts : List Task) (ws : List Worker) (p : Pool) : Type 0 where
  pub stopped : p.pool_running ≡ false
  pub empty : p.task_queue ≡ []
  pub workers : p.handler_pool ≡ returned ∷ ws
  pub finished : p.futex_cnt_finished ≡ u32 (before + queued ts)

drain :
    (p : Pool) (ts : List Task) (ws : List Worker)
    → p.pool_running ≡ false
    → p.futex_cnt_finished < 2 ^ 32
    → all_handled ts ≡ true
    → Drained p.futex_cnt_finished ts ws (
        run
          (accesses (accesses_for ts))
          (record p { task_queue = ts; handler_pool = waiting ∷ ws }))
unfolding run take_turn accesses_for
drain p [] ws off small h =
    let last : worker_step 0 (record p { task_queue = []; handler_pool = waiting ∷ ws })
        ≡ record p { task_queue = []; handler_pool = returned ∷ ws } =
      final p ws off in
    subst (Drained p.futex_cnt_finished [] ws) (sym last)
      (record { stopped = off; empty = refl; workers = refl; finished = omega (arith, small) })
drain p (t ∷ ts) ws off small h =
    let p' : Pool = record p {
      futex_cnt_finished = u32 (p.futex_cnt_finished + 1);
      region_finished = count_region t.region p.region_finished;
    } in
    let rest = drain p' ts ws off (omega arith) (ground (arith, h)) in
    let d : Drained p.futex_cnt_finished (t ∷ ts) ws (
        run (accesses (accesses_for ts))
          (record p' { task_queue = ts; handler_pool = waiting ∷ ws })) =
      record {
        stopped = rest.stopped;
        empty = rest.empty;
        workers = rest.workers;
        finished = omega (arith, rest.finished);
      } in
    subst
      (λ (q : Pool). Drained p.futex_cnt_finished (t ∷ ts) ws (run (accesses (accesses_for ts)) q))
      (sym (three p t ts ws (ground (arith, h)))) d

joined :
    (ws : List Worker) (p : Pool)
    → p.pool_running ≡ false
    → p.handler_pool ≡ returned ∷ ws
    → (pim_join_and_clear_threads p).handler_pool ≡ (if all_returned ws then [] else returned ∷ ws)
unfolding pim_join_and_clear_threads all_returned
joined ws p off e = elim (Bool-cases (all_returned ws)) [
  | inl b ↦ ground (arith, off, e, b)
  | inr b ↦ ground (arith, off, e, b)
]

-- A pool that is stopped drains: if its first worker waits, and all that is queued has handlers, then
-- three accesses of that worker for each task that is queued and one more leave the queue empty and the
-- worker returned, and the tasks are counted as finished. A join that the other workers have
-- reached then ends.
pub pool_stop_locked-Drained :
    (p : Pool) (ws : List Worker)
    → p.handler_pool ≡ waiting ∷ ws
    → p.futex_cnt_finished < 2 ^ 32
    → all_handled p.task_queue ≡ true
    → let p' = run (accesses (3 * queued p.task_queue + 1)) (pool_stop_locked p) in
      Drained p.futex_cnt_finished p.task_queue ws p'
      × ((pim_join_and_clear_threads p').handler_pool
          ≡ (if all_returned ws then [] else returned ∷ ws))
unfolding pool_stop_locked pim_join_and_clear_threads all_returned
pool_stop_locked-Drained p ws e small h =
    let q : Pool = record p { pool_running = false } in
    let d = drain q p.task_queue ws refl small h in
    let at : run (accesses (accesses_for p.task_queue))
          (record q { task_queue = p.task_queue; handler_pool = waiting ∷ ws })
        ≡ run (accesses (3 * queued p.task_queue + 1)) q =
      ap₂ (λ (n : ℕ) (us : List Worker). run (accesses n) (record q { handler_pool = us }))
        (accesses_for_eq p.task_queue) (sym e) in
    let d' = subst (Drained p.futex_cnt_finished p.task_queue ws) at d in
    (d', joined ws _ d'.stopped d'.workers)
