-- ===== src/Lab4/Pool/Examples.antt =====
-- A run of a pool of one worker: the theorems at inputs that meet their hypotheses, and runs that
-- have more workers than `MaxWorkers`.
use nssa_ds.Base.{ℕ, ◌+◌, ◌≤◌, ◌≡◌, refl, List, [], ◌∷◌, ◌++◌, Option, none, some, arith, leb}
use nssa_ds.Lab4.Pool.{
  Config, ThreadPool, new_thread_pool, Action, start_next, start_returns, submit, count_task,
  load_current, load_queued, add_guard, add_count, add_spawn, s32_lt,
}
use nssa_ds.Lab4.Pool.Steps.{guard, effect, step, run}
use nssa_ds.Lab4.Pool.Accounts.{Accounts, workers, retired, run-Accounts}
use nssa_ds.Lab4.Pool.Bound.{peak, run-workers_le}

-- Two workers at most; the queue holds four tasks, and one task is enough to ask for a worker.
abbrev config : Config
config = record { min_workers = 1; max_workers = 2; queue_size = 4; above = leb 1 }

abbrev one_started : List Action
one_started = start_next ∷ (add_guard ∷ (add_count ∷ (add_spawn ∷ (start_returns ∷ []))))

abbrev submits : ℕ → List Action
submits task = submit task ∷ (count_task ∷ (load_current ∷ (load_queued ∷ [])))

-- Two submitters pass the guard before either counts its worker.
abbrev overlapping : List Action
overlapping =
    one_started
    ++ submits 1
    ++ submits 2
    ++ add_guard ∷ (add_guard ∷ (add_count ∷ (add_count ∷ (add_spawn ∷ (add_spawn ∷ [])))))

abbrev state_of : Option ThreadPool → ThreadPool
state_of none = new_thread_pool config
state_of (some s) = s

abbrev overlapped : ThreadPool
overlapped = state_of (run config overlapping (new_thread_pool config))

overlapping-runs : run config overlapping (new_thread_pool config) ≡ some overlapped
unfolding run step guard effect new_thread_pool s32_lt
overlapping-runs = refl

three_workers : workers overlapped ≡ 3
unfolding run step guard effect new_thread_pool s32_lt
three_workers = refl

run-Accounts_example : Accounts config overlapped
run-Accounts_example = run-Accounts config overlapping overlapped overlapping-runs

peak-overlapping : peak config overlapping (new_thread_pool config) ≡ 1
unfolding run step guard effect new_thread_pool s32_lt peak
peak-overlapping = refl

run-workers_le_example :
    workers overlapped + overlapped.entering
    ≤ config.max_workers + retired overlapped + peak config overlapping (new_thread_pool config)
run-workers_le_example =
    run-workers_le config overlapping overlapped overlapping-runs
      (rw peak-overlapping (omega arith))
