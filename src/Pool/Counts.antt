-- ===== src/Pool/Counts.antt =====
-- What is submitted is in the queue, in a worker's hands, or counted as finished.
use hostpimsim_gecon.Base.{
  ℕ, zero, suc, ◌+◌, ◌%◌, ◌^◌, ◌<◌, ◌≡◌, ◌⊎◌, inl, inr, ◌∙◌, refl, sym, ap, subst, arith, Bool,
  true, false, ◌&&◌, none, some, List, [], ◌∷◌, ◌++◌, ◌==◌, if◌then◌else◌, u32, update, Bool-cases,
  Option-cases,
}
use hostpimsim_gecon.Pool.Defs.{
  Task, Worker, waiting, executing, device_counted, returned, Pool, count_region, pool_submit,
  pool_worker_func, worker_at, worker_step,
}

-- 1 for a task that a worker will count, 0 for one it will drop.
abbrev pub of_region : ℕ → Task → ℕ
of_region r t = if t.region == r then 1 else 0

abbrev pub is_handled : Task → Bool
is_handled t = elim t.handler [ none ↦ false | some h ↦ true ]

abbrev pub all_handled : List Task → Bool
all_handled [] = true
all_handled (t ∷ ts) = is_handled t && all_handled ts

-- How many tasks are queued, and how many of a region.
abbrev pub queued : List Task → ℕ
queued [] = 0
queued (t ∷ ts) = 1 + queued ts

abbrev pub queued_of : ℕ → List Task → ℕ
queued_of r [] = 0
queued_of r (t ∷ ts) = of_region r t + queued_of r ts

abbrev is_executing : Worker → ℕ
is_executing waiting = 0
is_executing (executing t) = 1
is_executing (device_counted t) = 0
is_executing returned = 0

abbrev has_region : ℕ → Worker → ℕ
has_region r waiting = 0
has_region r (executing t) = of_region r t
has_region r (device_counted t) = of_region r t
has_region r returned = 0

-- How many workers have a task that the device, or a region, has not counted as finished.
abbrev pub executed : List Worker → ℕ
executed [] = 0
executed (w ∷ ws) = is_executing w + executed ws

abbrev pub executed_of : ℕ → List Worker → ℕ
executed_of r [] = 0
executed_of r (w ∷ ws) = has_region r w + executed_of r ws

abbrev pub pending : Pool → ℕ
pending p = queued p.task_queue + executed p.handler_pool

abbrev pub pending_of : ℕ → Pool → ℕ
pending_of r p = queued_of r p.task_queue + executed_of r p.handler_pool

-- What an access of a worker does, with `a` before and `b` after it for the worker's own part.
record Worked (r a b a_of b_of : ℕ) (p p' : Pool) : Type 0 where
  device :
      u32 (p'.futex_cnt_finished + queued p'.task_queue + b)
      ≡ u32 (p.futex_cnt_finished + queued p.task_queue + a)
  region :
      u32 (p'.region_finished r + queued_of r p'.task_queue + b_of)
      ≡ u32 (p.region_finished r + queued_of r p.task_queue + a_of)
  commited : p'.futex_cnt_commited ≡ p.futex_cnt_commited
  region_commited : p'.region_commited ≡ p.region_commited
  handled : all_handled p'.task_queue ≡ true
  small : p.futex_cnt_finished < 2 ^ 32 → p'.futex_cnt_finished < 2 ^ 32
  small_of : p.region_finished r < 2 ^ 32 → p'.region_finished r < 2 ^ 32

pub List-cases : (ts : List Task) → (ts ≡ []) ⊎ ((t : Task) × (us : List Task) × (ts ≡ t ∷ us))
List-cases [] = inl refl
List-cases (t ∷ us) = inr (t, us, refl)

pool_worker_func-Worked :
    (r : ℕ) (w : Worker) (p : Pool)
    → (r == 0) ≡ false
    → all_handled p.task_queue ≡ true
    → let (w', p') = pool_worker_func w p in
      Worked r (is_executing w) (is_executing w') (has_region r w) (has_region r w') p p'
unfolding pool_worker_func count_region update
pool_worker_func-Worked r waiting p nz h =
    let goal = λ (q : Worker × Pool). Worked r 0 (is_executing q.0) 0 (has_region r q.0) p q.1 in
    let same : Worked r 0 0 0 0 p p = record {
      device = refl;
      region = refl;
      commited = refl;
      region_commited = refl;
      handled = h;
      small = λ b. b;
      small_of = λ b. b;
    } in
    elim (List-cases p.task_queue) [
      | inl e ↦ elim (Bool-cases p.pool_running) [
        | inl on ↦
            let step : pool_worker_func waiting p ≡ (waiting, p) = ground (arith, e, on) in
            subst goal (sym step) same
        | inr off ↦
            let step : pool_worker_func waiting p ≡ (returned, p) = ground (arith, e, off) in
            subst goal (sym step) same
      ]
      | inr (t, us, e) ↦
          let head : (is_handled t && all_handled us) ≡ true =
            subst (λ (q : List Task). all_handled q ≡ true) e h in
          elim (Option-cases t.handler) [
            | inl none_there ↦ absurd (ground (arith, head, none_there))
            | inr (f, there) ↦
                let step : pool_worker_func waiting p
                    ≡ (executing t, record p { task_queue = us }) =
                  ground (arith, e, there) in
                subst goal (sym step) (record {
                  device = ground (arith, e);
                  region = ground (arith, e);
                  commited = refl;
                  region_commited = refl;
                  handled = ground (arith, head, there);
                  small = λ b. b;
                  small_of = λ b. b;
                })
          ]
    ]
pool_worker_func-Worked r (executing t) p nz h = record {
  device = omega arith;
  region = refl;
  commited = refl;
  region_commited = refl;
  handled = h;
  small = λ b. omega arith;
  small_of = λ b. b;
}
pool_worker_func-Worked r (device_counted t) p nz h = record {
  device = refl;
  region = ground (arith, nz);
  commited = refl;
  region_commited = refl;
  handled = h;
  small = λ b. b;
  small_of = λ b. ground (arith, b);
}
pool_worker_func-Worked r returned p nz h = record {
  device = refl;
  region = refl;
  commited = refl;
  region_commited = refl;
  handled = h;
  small = λ b. b;
  small_of = λ b. b;
}

worker_at-Worked :
    (r i : ℕ) (ws : List Worker) (p : Pool)
    → (r == 0) ≡ false
    → all_handled p.task_queue ≡ true
    → let (ws', p') = worker_at i ws p in
      Worked r (executed ws) (executed ws') (executed_of r ws) (executed_of r ws') p p'
unfolding worker_at
worker_at-Worked r i [] p nz h = record {
  device = refl;
  region = refl;
  commited = refl;
  region_commited = refl;
  handled = h;
  small = λ b. b;
  small_of = λ b. b;
}
worker_at-Worked r zero (w ∷ ws) p nz h =
    let s = pool_worker_func-Worked r w p nz h in
    record {
      device = omega (arith, s.device);
      region = omega (arith, s.region);
      commited = s.commited;
      region_commited = s.region_commited;
      handled = s.handled;
      small = s.small;
      small_of = s.small_of;
    }
worker_at-Worked r (suc i) (w ∷ ws) p nz h =
    let s = worker_at-Worked r i ws p nz h in
    record {
      device = omega (arith, s.device);
      region = omega (arith, s.region);
      commited = s.commited;
      region_commited = s.region_commited;
      handled = s.handled;
      small = s.small;
      small_of = s.small_of;
    }

-- The books of the pool.
pub record IsCounted (r : ℕ) (p : Pool) : Type 0 where
  pub device : u32 (p.futex_cnt_finished + pending p) ≡ p.futex_cnt_commited
  pub region : u32 (p.region_finished r + pending_of r p) ≡ p.region_commited r
  pub handled : all_handled p.task_queue ≡ true
  pub small : p.futex_cnt_finished < 2 ^ 32
  pub small_of : p.region_finished r < 2 ^ 32

pub worker_step-IsCounted :
    (r i : ℕ) (p : Pool) → (r == 0) ≡ false → IsCounted r p → IsCounted r (worker_step i p)
unfolding worker_step
worker_step-IsCounted r i p nz c =
    let s = worker_at-Worked r i p.handler_pool p nz c.handled in
    record {
      device = omega (arith, s.device, s.commited, c.device);
      region =
          ap (λ (t : ℕ). t % 2 ^ 32) (omega arith)
          ∙ s.region
          ∙ ap (λ (t : ℕ). t % 2 ^ 32) (omega arith)
          ∙ c.region
          ∙ ap (λ (f : ℕ → ℕ). f r) (sym s.region_commited);
      handled = s.handled;
      small = s.small c.small;
      small_of = s.small_of c.small_of;
    }

queued-append : (ts : List Task) (t : Task) → queued (ts ++ (t ∷ [])) ≡ queued ts + 1
queued-append [] t = omega arith
queued-append (u ∷ ts) t = omega (arith, queued-append ts t)

queued_of-append :
    (r : ℕ) (ts : List Task) (t : Task)
    → queued_of r (ts ++ (t ∷ [])) ≡ queued_of r ts + of_region r t
queued_of-append r [] t = omega arith
queued_of-append r (u ∷ ts) t = omega (arith, queued_of-append r ts t)

all_handled-append :
    (ts : List Task) (t : Task)
    → is_handled t ≡ true
    → all_handled ts ≡ true
    → all_handled (ts ++ (t ∷ [])) ≡ true
all_handled-append [] t h hs = ground (arith, h)
all_handled-append (u ∷ ts) t h hs =
    ground (arith, hs, all_handled-append ts t h (ground (arith, hs)))

pub pool_submit-IsCounted :
    (r : ℕ) (has_memory : Bool) (t : Task) (p : Pool)
    → (r == 0) ≡ false
    → is_handled t ≡ true
    → IsCounted r p
    → IsCounted r (pool_submit has_memory t p).1
unfolding pool_submit count_region update
pool_submit-IsCounted r has_memory t p nz h c = elim (Bool-cases p.pool_running) [
  | inr off ↦
      let step : (pool_submit has_memory t p).1 ≡ p = ground (arith, off) in
      subst (IsCounted r) (sym step) c
  | inl on ↦ elim (Bool-cases has_memory) [
    | inr full ↦
        let step : (pool_submit has_memory t p).1 ≡ p = ground (arith, on, full) in
        subst (IsCounted r) (sym step) c
    | inl room ↦
        let q = queued-append p.task_queue t in
        let q_of = queued_of-append r p.task_queue t in
        rw (on, room)
          (record {
            device = omega (arith, c.device, q);
            region = ground (arith, c.region, q_of, nz);
            handled = all_handled-append p.task_queue t h c.handled;
            small = c.small;
            small_of = c.small_of;
          })
  ]
]
