-- ===== src/Pool/Tests.antt =====
-- A pool of one worker, and the theorems at inputs that meet their hypotheses.
use hostpimsim_gecon.Base.{
  ◌+◌, ◌^◌, ◌<◌, ◌≡◌, refl, arith, true, false, some, List, [], ◌∷◌, ◌==◌, if◌then◌else◌,
}
use hostpimsim_gecon.Pool.Defs.{
  Task, waiting, returned, Pool, Turn, submit, work, start, take_turn, run, new_pool, pool_submit,
  count_region, worker_step, worker_at, pool_worker_func, pool_start_locked, new_workers,
  pool_stop_locked, pim_join_and_clear_threads, all_returned, device_barrier_returns,
  region_barrier_returns,
}
use hostpimsim_gecon.Pool.Counts.{pending, pending_of}
use hostpimsim_gecon.Pool.Barrier.{run-barriers}
use hostpimsim_gecon.Pool.TwoLoads.{turns, run-two_loads}
use hostpimsim_gecon.Pool.Drain.{Drained, accesses, pool_stop_locked-Drained}

abbrev chore : Task
chore = record { region = 3; offset = 16; depth = 1; value = 9; handler = some 77; user_data = 0 }

-- One worker; two tasks come, and the worker finishes the first.
abbrev day : List Turn
day = start 8 true 1 ∷ submit true chore ∷ submit true chore ∷ work 0 ∷ work 0 ∷ work 0 ∷ []

day-pending : pending (run day new_pool) ≡ 1
unfolding run take_turn pool_start_locked new_workers pool_submit count_region worker_step worker_at
    pool_worker_func
day-pending = refl

day-pending_of : pending_of 3 (run day new_pool) ≡ 1
unfolding run take_turn pool_start_locked new_workers pool_submit count_region worker_step worker_at
    pool_worker_func
day-pending_of = refl

run-barriers_example :
    let p = run day new_pool in
    (device_barrier_returns p ≡ (pending p == 0))
    × (region_barrier_returns 3 p ≡ (pending_of 3 p == 0))
run-barriers_example =
    run-barriers 3 day refl refl (omega (arith, day-pending)) (omega (arith, day-pending_of))

abbrev loaded : Pool
loaded = record {
  teardown_in_progress = false;
  max_active_dpus = 2;
  pool_running = true;
  task_queue = chore ∷ chore ∷ [];
  handler_pool = waiting ∷ returned ∷ [];
  futex_cnt_commited = 7;
  futex_cnt_finished = 5;
  region_commited = λ r. 7;
  region_finished = λ r. 5;
}

pool_stop_locked-Drained_example :
    let p' = run (accesses 7) (pool_stop_locked loaded) in
    Drained 5 (chore ∷ chore ∷ []) (returned ∷ []) p'
    × ((pim_join_and_clear_threads p').handler_pool
        ≡ (if all_returned (returned ∷ []) then [] else returned ∷ returned ∷ []))
pool_stop_locked-Drained_example =
    pool_stop_locked-Drained loaded (returned ∷ []) refl (omega arith) refl

-- The worker finishes its task before the first load, and waits in between.
abbrev morning : List Turn
morning = start 8 true 1 ∷ submit true chore ∷ work 0 ∷ work 0 ∷ []

abbrev pause : List Turn
pause = work 0 ∷ work 0 ∷ []

paused-pending : turns pause + pending (run pause (run morning new_pool)) < 2 ^ 32
unfolding run take_turn pool_start_locked new_workers pool_submit count_region worker_step worker_at
    pool_worker_func
paused-pending = omega arith

paused_agree :
    ((run morning new_pool).futex_cnt_finished
      == (run pause (run morning new_pool)).futex_cnt_commited)
    ≡ true
unfolding run take_turn pool_start_locked new_workers pool_submit count_region worker_step worker_at
    pool_worker_func
paused_agree = refl

run-two_loads_example : pending (run pause (run morning new_pool)) ≡ 0
run-two_loads_example = run-two_loads morning pause refl refl paused-pending paused_agree
