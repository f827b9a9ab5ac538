-- ===== src/Pool/Defs.antt =====
-- The task queue, the workers and the counters of the barriers. A worker is at a place between two of its
-- accesses to shared state, and a schedule says whose access is next. `pool_submit` holds the mutex of the
-- queue until it has counted the task, so that no worker takes a task that is not counted.
use hostpimsim_gecon.Base.{
  ℕ, zero, suc, ◌+◌, ◌-◌, Bool, true, false, ◌&&◌, ◌||◌, not, Option, none, some, List, [], ◌∷◌,
  ◌++◌, ◌==◌, ltb, if◌then◌else◌, u32, update,
}

-- `pool_task_entry`; a region is known by its address, 0 for none, and a handler that is null is `none`.
pub record Task : Type 0 where
  pub region : ℕ
  pub offset : ℕ
  pub depth : ℕ
  pub value : ℕ
  pub handler : Option ℕ
  pub user_data : ℕ

-- Waiting for a task; in its handler; past the count of the device, before that of the region; returned.
pub data Worker : Type 0 where
  waiting : Worker
  executing : Task → Worker
  device_counted : Task → Worker
  returned : Worker

-- The part of `pim_device` that the pool has, with the two counters of each region.
pub record Pool : Type 0 where
  pub teardown_in_progress : Bool
  pub pool_running : Bool
  pub max_active_dpus : ℕ
  pub task_queue : List Task
  pub handler_pool : List Worker
  pub futex_cnt_commited : ℕ
  pub futex_cnt_finished : ℕ
  pub region_commited : ℕ → ℕ
  pub region_finished : ℕ → ℕ

-- A region's counter, one up, unless there is no region.
unfoldable pub count_region : ℕ → (ℕ → ℕ) → ℕ → ℕ
count_region region counters =
    if region == 0 then counters else update counters region (u32 (counters region + 1))

-- `has_memory` is whether the queue can take one more task.
unfoldable pub pool_submit : Bool → Task → Pool → Bool × Pool
pool_submit has_memory t p =
    if not p.pool_running then (false, p) else if not has_memory then (false, p) else (
      true,
      record p {
        task_queue = p.task_queue ++ (t ∷ []);
        futex_cnt_commited = u32 (p.futex_cnt_commited + 1);
        region_commited = count_region t.region p.region_commited;
      },
    )

-- The next access of a worker: where it is then, and the pool.
unfoldable pub pool_worker_func : Worker → Pool → Worker × Pool
pool_worker_func waiting p = elim p.task_queue [
  | [] ↦ if p.pool_running then (waiting, p) else (returned, p)
  | t ∷ ts ↦
      (elim t.handler [ none ↦ waiting | some h ↦ executing t ], record p { task_queue = ts })
]
pool_worker_func (executing t) p =
    (device_counted t, record p { futex_cnt_finished = u32 (p.futex_cnt_finished + 1) })
pool_worker_func (device_counted t) p =
    (waiting, record p { region_finished = count_region t.region p.region_finished })
pool_worker_func returned p = (returned, p)

-- The next access of the worker with a number; the pool that is given has the other workers too.
unfoldable pub worker_at : ℕ → List Worker → Pool → List Worker × Pool
worker_at i [] p = ([], p)
worker_at zero (w ∷ ws) p = let (w', p') = pool_worker_func w p in (w' ∷ ws, p')
worker_at (suc i) (w ∷ ws) p = let (ws', p') = worker_at i ws p in (w ∷ ws', p')

unfoldable pub worker_step : ℕ → Pool → Pool
worker_step i p = let (ws, p') = worker_at i p.handler_pool p in record p' { handler_pool = ws }

unfoldable pub new_workers : ℕ → List Worker
new_workers zero = []
new_workers (suc n) = waiting ∷ new_workers n

-- `hardware` is the concurrency of the hardware, and `has_threads` is whether the threads can be made; where
-- they cannot, the ones that were made are taken to have found nothing to do before they are joined.
unfoldable pub pool_start_locked : ℕ → Bool → ℕ → Pool → Bool × Pool
pool_start_locked hardware has_threads limit_concurrency p =
    let concurrency : ℕ =
      if limit_concurrency == 0 then if hardware == 0 then 1 else hardware else limit_concurrency in
    if p.teardown_in_progress
    then (false, p)
    else if p.pool_running
    then (true, p)
    else if not has_threads
    then (false, record p { max_active_dpus = 0; handler_pool = [] })
    else (
      true,
      record p {
        pool_running = true;
        max_active_dpus = concurrency;
        handler_pool = p.handler_pool ++ new_workers concurrency;
      },
    )

-- `pool_stop_locked` up to the join, and the join, which waits until all workers have returned.
unfoldable pub pool_stop_locked : Pool → Pool
pool_stop_locked p = record p { pool_running = false }

unfoldable pub all_returned : List Worker → Bool
all_returned [] = true
all_returned (w ∷ ws) = (elim w [ returned ↦ true | _ ↦ false ]) && all_returned ws

unfoldable pub pim_join_and_clear_threads : Pool → Pool
pim_join_and_clear_threads p =
    if not p.pool_running && all_returned p.handler_pool
    then record p { handler_pool = []; max_active_dpus = 0 }
    else p

unfoldable pub count_workers : List Worker → ℕ
count_workers [] = 0
count_workers (w ∷ ws) = 1 + count_workers ws

-- `pim_set_max_active_dpus` where it does not shrink the pool and all threads can be made, on a device that is
-- not torn down.
unfoldable pub expand : ℕ → Pool → Pool
expand concurrency p =
    if not p.pool_running || (count_workers p.handler_pool == concurrency)
    then record p { max_active_dpus = concurrency }
    else if ltb (count_workers p.handler_pool) concurrency
    then record p {
      handler_pool = p.handler_pool ++ new_workers (concurrency - count_workers p.handler_pool);
      max_active_dpus = concurrency;
    }
    else p

pub data Turn : Type 0 where
  submit : Bool → Task → Turn
  work : ℕ → Turn
  start : ℕ → Bool → ℕ → Turn
  grow : ℕ → Turn
  stop : Turn
  join : Turn

-- The lifecycle mutex keeps a start or an expansion from running between a stop and its join.
unfoldable pub take_turn : Turn → Pool → Pool
take_turn (submit has_memory t) p = (pool_submit has_memory t p).1
take_turn (work i) p = worker_step i p
take_turn (start hardware has_threads n) p = elim p.handler_pool [
  | [] ↦ (pool_start_locked hardware has_threads n p).1
  | w ∷ ws ↦ if p.pool_running then (pool_start_locked hardware has_threads n p).1 else p
]
take_turn (grow n) p = expand n p
take_turn stop p = pool_stop_locked p
take_turn join p = pim_join_and_clear_threads p

unfoldable pub run : List Turn → Pool → Pool
run [] p = p
run (t ∷ ts) p = run ts (take_turn t p)

-- `pim_device_barrier` and `pim_region_barrier` return when the two counters agree.
unfoldable pub device_barrier_returns : Pool → Bool
device_barrier_returns p = p.futex_cnt_finished == p.futex_cnt_commited

unfoldable pub region_barrier_returns : ℕ → Pool → Bool
region_barrier_returns r p = p.region_finished r == p.region_commited r

abbrev pub new_pool : Pool
new_pool = record {
  teardown_in_progress = false;
  max_active_dpus = 0;
  pool_running = false;
  task_queue = [];
  handler_pool = [];
  futex_cnt_commited = 0;
  futex_cnt_finished = 0;
  region_commited = λ r. 0;
  region_finished = λ r. 0;
}
