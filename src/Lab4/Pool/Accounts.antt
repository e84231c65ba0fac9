-- ===== src/Lab4/Pool/Accounts.antt =====
-- The counters of a pool against its goroutines, in every interleaving.
use nssa_ds.Base.{
  ℕ, ◌+◌, ◌-◌, ◌%◌, ◌≤◌, ◌<◌, ◌≡◌, refl, true, List, [], ◌∷◌, Option, none, some, arith, subst,
  length, length-append,
}
use nssa_ds.Lab4.Pool.{
  w32, Config, Manager, waiting, loaded_current, loaded_active, retiring, offering, stopped,
  ThreadPool, new_thread_pool, Action, start_next, start_returns, submit, submit_closed, count_task,
  load_current, load_queued, add_guard, add_count, add_spawn, receive, see_closed, see_cancelled,
  time_out, begin_task, end_task, count_completed, uncount, leave, done, tick, load_active,
  optimize_guard, retire, offer, manager_stops, stop_cancels, stop_closes,
}
use nssa_ds.Lab4.Pool.Steps.{
  guard, effect, step, and_then, run, tail, is_waiting, is_retiring, is_offering, with_active,
  decide,
}

abbrev pub busy : ThreadPool → ℕ
busy s = s.holding + s.running + s.ran + s.finished

-- The goroutines that count as workers in `currentWorkers` until they leave.
abbrev pub workers : ThreadPool → ℕ
workers s = s.idle + busy s + s.leaving

abbrev pub pending : Manager → ℕ
pending offering = 1
pending _ = 0

-- Workers that `optimize` took off `currentWorkers`, the one that it is about to announce included.
abbrev pub retired : ThreadPool → ℕ
retired s = s.worker_queue + pending s.manager

abbrev pub Accounts : Config → ThreadPool → Type 0
Accounts c s =
    ((s.current_workers + retired s) % w32 ≡ (workers s + s.entering) % w32)
    × (s.active_workers ≡ s.running % w32)
    × ((s.queued_tasks + s.pushing) % w32 ≡ (length s.task_queue + busy s) % w32)
    × (s.current_workers < w32)
    × (s.queued_tasks < w32)
    × (s.wg ≡ workers s + s.left)
    × (length s.task_queue ≤ c.queue_size)
    × (s.worker_queue ≤ c.max_workers)

length-tail : (xs : List ℕ) → length (tail xs) ≡ length xs - 1
length-tail [] = refl
length-tail (x ∷ xs) = omega arith

-- No place of the manager but `offering` has a worker to announce.
pub is_waiting-pending : (m : Manager) → is_waiting m ≡ true → pending m ≡ 0
is_waiting-pending waiting h = refl
is_waiting-pending (loaded_current _) h = refl
is_waiting-pending (loaded_active _ _) h = refl
is_waiting-pending retiring h = refl
is_waiting-pending offering h = cc
is_waiting-pending stopped h = refl

pub is_offering-pending : (m : Manager) → is_offering m ≡ true → pending m ≡ 1
is_offering-pending waiting h = cc
is_offering-pending (loaded_current _) h = cc
is_offering-pending (loaded_active _ _) h = cc
is_offering-pending retiring h = cc
is_offering-pending offering h = refl
is_offering-pending stopped h = cc

pub is_retiring-pending : (m : Manager) → is_retiring m ≡ true → pending m ≡ 0
is_retiring-pending waiting h = refl
is_retiring-pending (loaded_current _) h = refl
is_retiring-pending (loaded_active _ _) h = refl
is_retiring-pending retiring h = refl
is_retiring-pending offering h = cc
is_retiring-pending stopped h = refl

pub with_active-pending : (m : Manager) (a : ℕ) → pending (with_active m a) ≡ pending m
with_active-pending waiting a = refl
with_active-pending (loaded_current _) a = refl
with_active-pending (loaded_active _ _) a = refl
with_active-pending retiring a = refl
with_active-pending offering a = refl
with_active-pending stopped a = refl

pub decide-pending :
    (c : Config) (m : Manager) (queued : ℕ) → pending (decide c m queued) ≡ pending m
decide-pending c waiting q = refl
decide-pending c (loaded_current _) q = refl
decide-pending c (loaded_active current active) q = ground arith
decide-pending c retiring q = refl
decide-pending c offering q = refl
decide-pending c stopped q = refl

module _ (c : Config) where
  effect-Accounts :
      (a : Action) (s : ThreadPool) → guard c a s ≡ true → Accounts c s → Accounts c (effect c a s)
  unfolding guard effect
  effect-Accounts start_next s g i = i
  effect-Accounts start_returns s g i = i
  effect-Accounts (submit t) s g i = ground (arith, length-append s.task_queue (t ∷ []))
  effect-Accounts submit_closed s g i = i
  effect-Accounts count_task s g i = ground arith
  effect-Accounts load_current s g i = ground arith
  effect-Accounts load_queued s g i = ground arith
  effect-Accounts add_guard s g i = ground arith
  effect-Accounts add_count s g i = ground arith
  effect-Accounts add_spawn s g i = ground arith
  effect-Accounts receive s g i = ground (arith, length-tail s.task_queue)
  effect-Accounts see_closed s g i = ground arith
  effect-Accounts see_cancelled s g i = ground arith
  effect-Accounts time_out s g i = ground arith
  effect-Accounts begin_task s g i = ground arith
  effect-Accounts end_task s g i = ground arith
  effect-Accounts count_completed s g i = ground arith
  effect-Accounts uncount s g i = ground arith
  effect-Accounts leave s g i = ground arith
  effect-Accounts done s g i = ground arith
  effect-Accounts tick s g i = ground (arith, is_waiting-pending s.manager)
  effect-Accounts load_active s g i = ground (arith, with_active-pending s.manager s.active_workers)
  effect-Accounts optimize_guard s g i = ground (arith, decide-pending c s.manager s.queued_tasks)
  effect-Accounts retire s g i = ground (arith, is_retiring-pending s.manager)
  effect-Accounts offer s g i = ground (arith, is_offering-pending s.manager)
  effect-Accounts manager_stops s g i = ground (arith, is_waiting-pending s.manager)
  effect-Accounts stop_cancels s g i = i
  effect-Accounts stop_closes s g i = ground arith

pub step_result :
    (c : Config) (a : Action) (s t : ThreadPool)
    → step c a s ≡ some t
    → (guard c a s ≡ true) × (effect c a s ≡ t)
unfolding step
step_result c a s t h = ground arith

pub and_then_result :
    (o : Option ThreadPool) (f : ThreadPool → Option ThreadPool) (t : ThreadPool)
    → and_then o f ≡ some t
    → (u : ThreadPool) × (o ≡ some u) × (f u ≡ some t)
and_then_result none f t h = cc
and_then_result (some u) f t h = (u, refl, h)

pub step-Accounts :
    (c : Config) (a : Action) (s t : ThreadPool) → step c a s ≡ some t → Accounts c s → Accounts c t
step-Accounts c a s t h i =
    let (can, e) = step_result c a s t h in subst (Accounts c) e (effect-Accounts c a s can i)

run-keeps :
    (c : Config) (acts : List Action) (s t : ThreadPool)
    → run c acts s ≡ some t
    → Accounts c s
    → Accounts c t
unfolding run
run-keeps c [] s t h i = let e : s ≡ t = cc in subst (Accounts c) e i
run-keeps c (a ∷ rest) s t h i =
    let (u, first, then') = and_then_result (step c a s) (run c rest) t h in
    run-keeps c rest u t then' (step-Accounts c a s u first i)

pub new_thread_pool-Accounts : (c : Config) → Accounts c (new_thread_pool c)
unfolding new_thread_pool
new_thread_pool-Accounts c = ground arith

-- In every interleaving, up to the wrap of int32: `activeWorkers` counts the workers that run a task,
-- `queuedTasks` counts the tasks that wait or are not finished, less those that `Submit` has not
-- counted yet, and `currentWorkers` counts the workers less those that `optimize` took off it, which
-- are in `workerQueue` for good. The wait group counts the goroutines that have not returned, and
-- neither channel holds more than its capacity.
pub run-Accounts :
    (c : Config) (acts : List Action) (s : ThreadPool)
    → run c acts (new_thread_pool c) ≡ some s
    → Accounts c s
run-Accounts c acts s h = run-keeps c acts (new_thread_pool c) s h (new_thread_pool-Accounts c)
