-- ===== src/Lab4/Pool/Bound.antt =====
-- How many workers a pool can have at once.
use nssa_ds.Base.{
  ℕ, ◌+◌, ◌%◌, ◌^◌, ◌≤◌, ◌<◌, ◌≡◌, true, List, [], ◌∷◌, Option, none, some, arith, ltb, ltb→lt,
  subst, if◌then◌else◌,
}
use nssa_ds.Lab4.Pool.{
  w32, s32_lt, Config, Manager, waiting, loaded_current, loaded_active, retiring, offering, stopped,
  ThreadPool, new_thread_pool, Action, start_next, start_returns, submit, submit_closed, count_task,
  load_current, load_queued, add_guard, add_count, add_spawn, receive, see_closed, see_cancelled,
  time_out, begin_task, end_task, count_completed, uncount, leave, done, tick, load_active,
  optimize_guard, retire, offer, manager_stops, stop_cancels, stop_closes,
}
use nssa_ds.Lab4.Pool.Steps.{guard, effect, step, run}
use nssa_ds.Lab4.Pool.Accounts.{
  Accounts, workers, retired, pending, step_result, and_then_result, step-Accounts,
  new_thread_pool-Accounts, is_waiting-pending, is_offering-pending, is_retiring-pending,
  with_active-pending, decide-pending,
}

abbrev larger : ℕ → ℕ → ℕ
larger a b = if ltb a b then b else a

abbrev peak_after : Option ThreadPool → (ThreadPool → ℕ) → ℕ
peak_after none f = 0
peak_after (some s) f = f s

-- The goroutines that a call meets between the guard of `addWorker` and the count of the new worker.
abbrev met : Action → ThreadPool → ℕ
met add_guard s = s.admitted
met _ s = 0

-- The most that a call of the run meets: 0 when the calls of `addWorker` do not overlap.
unfoldable pub peak : Config → List Action → ThreadPool → ℕ
peak c [] s = 0
peak c (a ∷ rest) s = larger (met a s) (peak_after (step c a s) (peak c rest))

abbrev Bound : Config → ℕ → ThreadPool → Type 0
Bound c n s = workers s + s.entering + s.admitted ≤ c.max_workers + retired s + n

module _ (c : Config) (n : ℕ) (small : c.max_workers + n < 2 ^ 30) where
  pending_le : (m : Manager) → pending m ≤ 1
  pending_le waiting = omega arith
  pending_le (loaded_current _) = omega arith
  pending_le (loaded_active _ _) = omega arith
  pending_le retiring = omega arith
  pending_le offering = omega arith
  pending_le stopped = omega arith

  -- The guard of `addWorker` compares as it should, since no counter is near its wrap.
  under :
      (s : ThreadPool)
      → Accounts c s
      → Bound c n s
      → s32_lt s.current_workers (c.max_workers % w32) ≡ true
      → workers s + s.entering < c.max_workers + retired s
  unfolding s32_lt
  under s i b h = omega (arith, i, b, ltb→lt _ _ h, pending_le s.manager, small)

  effect-Bound :
      (a : Action) (s : ThreadPool)
      → guard c a s ≡ true
      → met a s ≤ n
      → Accounts c s
      → Bound c n s
      → Bound c n (effect c a s)
  unfolding guard effect
  effect-Bound start_next s g l i b = b
  effect-Bound start_returns s g l i b = b
  effect-Bound (submit t) s g l i b = b
  effect-Bound submit_closed s g l i b = b
  effect-Bound count_task s g l i b = b
  effect-Bound load_current s g l i b = ground arith
  effect-Bound load_queued s g l i b = ground arith
  effect-Bound add_guard s g l i b = ground (arith, under s i b)
  effect-Bound add_count s g l i b = ground arith
  effect-Bound add_spawn s g l i b = ground arith
  effect-Bound receive s g l i b = ground arith
  effect-Bound see_closed s g l i b = ground arith
  effect-Bound see_cancelled s g l i b = ground arith
  effect-Bound time_out s g l i b = ground arith
  effect-Bound begin_task s g l i b = ground arith
  effect-Bound end_task s g l i b = ground arith
  effect-Bound count_completed s g l i b = ground arith
  effect-Bound uncount s g l i b = ground arith
  effect-Bound leave s g l i b = ground arith
  effect-Bound done s g l i b = b
  effect-Bound tick s g l i b = ground (arith, is_waiting-pending s.manager)
  effect-Bound load_active s g l i b =
      ground (arith, with_active-pending s.manager s.active_workers)
  effect-Bound optimize_guard s g l i b = ground (arith, decide-pending c s.manager s.queued_tasks)
  effect-Bound retire s g l i b = ground (arith, is_retiring-pending s.manager)
  effect-Bound offer s g l i b = ground (arith, is_offering-pending s.manager)
  effect-Bound manager_stops s g l i b = ground (arith, is_waiting-pending s.manager)
  effect-Bound stop_cancels s g l i b = b
  effect-Bound stop_closes s g l i b = ground arith

  run-keeps :
      (acts : List Action) (s t : ThreadPool)
      → run c acts s ≡ some t
      → peak c acts s ≤ n
      → Accounts c s
      → Bound c n s
      → Bound c n t
  unfolding run peak
  run-keeps [] s t h l i b = let e : s ≡ t = cc in subst (Bound c n) e b
  run-keeps (a ∷ rest) s t h l i b =
      let (u, first, then') = and_then_result (step c a s) (run c rest) t h in
      let (can, e) = step_result c a s u first in
      let l' : larger (met a s) (peak c rest u) ≤ n = rw first at l in
      run-keeps rest u t then' (ground (arith, l')) (step-Accounts c a s u first i)
        (subst (Bound c n) e (effect-Bound a s can (ground (arith, l')) i b))

-- However the goroutines interleave, there are no more workers than `MaxWorkers`, one more for each
-- worker that `optimize` has taken off `currentWorkers`, and one more for each call of `addWorker`
-- that passed the guard of `addWorker` while another had passed it and not counted its worker. The
-- condition on `MaxWorkers` keeps the int32 comparisons away from their wrap.
pub run-workers_le :
    (c : Config) (acts : List Action) (s : ThreadPool)
    → run c acts (new_thread_pool c) ≡ some s
    → c.max_workers + peak c acts (new_thread_pool c) < 2 ^ 30
    → workers s + s.entering ≤ c.max_workers + retired s + peak c acts (new_thread_pool c)
unfolding new_thread_pool
run-workers_le c acts s h small =
    let start = new_thread_pool c in
    let n = peak c acts start in
    let bound =
      run-keeps c n small acts start s h (omega arith) (new_thread_pool-Accounts c) (omega arith) in
    omega (arith, bound)
