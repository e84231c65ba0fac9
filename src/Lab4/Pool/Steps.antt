-- ===== src/Lab4/Pool/Steps.antt =====
-- lab4/internal/infrastructure/network/thread_pool.go: what each action of a pool needs and does, and
-- the interleavings. A float64 comparison is a parameter of the configuration.
use nssa_ds.Base.{
  ℕ, ◌+◌, ◌-◌, ◌/◌, ◌%◌, Bool, true, false, List, [], ◌∷◌, Option, none, some, ltb, ◌==◌,
  if◌then◌else◌, not, ◌&&◌, length, ◌++◌,
}
use nssa_ds.Lab4.Pool.{
  w32, w64, s32_lt, Config, Manager, waiting, loaded_current, loaded_active, retiring, offering,
  stopped, ThreadPool, Action, start_next, start_returns, submit, submit_closed, count_task,
  load_current, load_queued, add_guard, add_count, add_spawn, receive, see_closed, see_cancelled,
  time_out, begin_task, end_task, count_completed, uncount, leave, done, tick, load_active,
  optimize_guard, retire, offer, manager_stops, stop_cancels, stop_closes,
}

abbrev calling : ThreadPool → ℕ
calling s = s.adding + s.admitted + s.entering

abbrev pub is_waiting : Manager → Bool
is_waiting waiting = true
is_waiting _ = false

abbrev pub is_retiring : Manager → Bool
is_retiring retiring = true
is_retiring _ = false

abbrev pub is_offering : Manager → Bool
is_offering offering = true
is_offering _ = false

abbrev pub has_current : Manager → Bool
has_current (loaded_current _) = true
has_current _ = false

abbrev pub has_active : Manager → Bool
has_active (loaded_active _ _) = true
has_active _ = false

-- When an action can happen.
unfoldable pub guard : Config → Action → ThreadPool → Bool
guard c start_next s = ltb 0 s.to_start && (calling s == 0)
guard c start_returns s = (s.to_start == 0) && (calling s == 0)
guard c (submit _) s = s.ready && not s.closed && ltb (length s.task_queue) c.queue_size
guard c submit_closed s = s.ready && s.closed
guard c count_task s = ltb 0 s.pushing
guard c load_current s = ltb 0 s.expanding
guard c load_queued s = ltb 0 s.weighing
guard c add_guard s = ltb 0 s.adding
guard c add_count s = ltb 0 s.admitted
guard c add_spawn s = ltb 0 s.entering
guard c receive s = ltb 0 s.idle && ltb 0 (length s.task_queue)
guard c see_closed s = ltb 0 s.idle && s.closed && (length s.task_queue == 0)
guard c see_cancelled s = ltb 0 s.idle && s.cancelled
guard c time_out s = ltb 0 s.idle
guard c begin_task s = ltb 0 s.holding
guard c end_task s = ltb 0 s.running
guard c count_completed s = ltb 0 s.ran
guard c uncount s = ltb 0 s.finished
guard c leave s = ltb 0 s.leaving
guard c done s = ltb 0 s.left
guard c tick s = s.ready && is_waiting s.manager
guard c load_active s = has_current s.manager
guard c optimize_guard s = has_active s.manager
guard c retire s = is_retiring s.manager
guard c offer s = is_offering s.manager && ltb s.worker_queue c.max_workers
guard c manager_stops s = s.ready && is_waiting s.manager && s.cancelled
guard c stop_cancels s = true
guard c stop_closes s = s.cancelled

abbrev pub tail : List ℕ → List ℕ
tail [] = []
tail (_ ∷ rest) = rest

abbrev pub with_active : Manager → ℕ → Manager
with_active (loaded_current current) active = loaded_active current active
with_active m active = m

-- `current > int32(tp.minWorkers) && active < current/2 && queued == 0`; `current` is positive where
-- it is divided.
abbrev idle_enough : Config → ℕ → ℕ → ℕ → Bool
idle_enough c current active queued =
    s32_lt (c.min_workers % w32) current && s32_lt active (current / 2) && (queued == 0)

abbrev pub decide : Config → Manager → ℕ → Manager
decide c (loaded_active current active) queued =
    if idle_enough c current active queued then retiring else waiting
decide c m queued = m

-- What an action does.
unfoldable pub effect : Config → Action → ThreadPool → ThreadPool
effect c start_next s = record s { to_start = s.to_start - 1; adding = s.adding + 1 }
effect c start_returns s = record s { ready = true }
effect c (submit task) s = record s {
  task_queue = s.task_queue ++ task ∷ [];
  pushing = s.pushing + 1;
}
effect c submit_closed s = record s { panicked = true }
effect c count_task s = record s {
  pushing = s.pushing - 1;
  queued_tasks = (s.queued_tasks + 1) % w32;
  expanding = s.expanding + 1;
}
effect c load_current s =
    if s32_lt s.current_workers (c.max_workers % w32)
    then record s { expanding = s.expanding - 1; weighing = s.weighing + 1 }
    else record s { expanding = s.expanding - 1 }
effect c load_queued s =
    if c.above s.queued_tasks
    then record s { weighing = s.weighing - 1; adding = s.adding + 1 }
    else record s { weighing = s.weighing - 1 }
effect c add_guard s =
    if s32_lt s.current_workers (c.max_workers % w32)
    then record s { adding = s.adding - 1; admitted = s.admitted + 1 }
    else record s { adding = s.adding - 1 }
effect c add_count s = record s {
  admitted = s.admitted - 1;
  current_workers = (s.current_workers + 1) % w32;
  entering = s.entering + 1;
}
effect c add_spawn s = record s { entering = s.entering - 1; wg = s.wg + 1; idle = s.idle + 1 }
effect c receive s = record s {
  task_queue = tail s.task_queue;
  idle = s.idle - 1;
  holding = s.holding + 1;
}
effect c see_closed s = record s { idle = s.idle - 1; leaving = s.leaving + 1 }
effect c see_cancelled s = record s { idle = s.idle - 1; leaving = s.leaving + 1 }
effect c time_out s =
    if s32_lt (c.min_workers % w32) s.current_workers
    then record s { idle = s.idle - 1; leaving = s.leaving + 1 }
    else s
effect c begin_task s = record s {
  holding = s.holding - 1;
  active_workers = (s.active_workers + 1) % w32;
  running = s.running + 1;
}
effect c end_task s = record s {
  running = s.running - 1;
  active_workers = (s.active_workers + (w32 - 1)) % w32;
  ran = s.ran + 1;
}
effect c count_completed s = record s {
  ran = s.ran - 1;
  completed_tasks = (s.completed_tasks + 1) % w64;
  finished = s.finished + 1;
}
effect c uncount s = record s {
  finished = s.finished - 1;
  queued_tasks = (s.queued_tasks + (w32 - 1)) % w32;
  idle = s.idle + 1;
}
effect c leave s = record s {
  leaving = s.leaving - 1;
  current_workers = (s.current_workers + (w32 - 1)) % w32;
  left = s.left + 1;
}
effect c done s = record s { left = s.left - 1; wg = s.wg - 1 }
effect c tick s = record s { manager = loaded_current s.current_workers }
effect c load_active s = record s { manager = with_active s.manager s.active_workers }
effect c optimize_guard s = record s { manager = decide c s.manager s.queued_tasks }
effect c retire s = record s {
  manager = offering;
  current_workers = (s.current_workers + (w32 - 1)) % w32;
}
effect c offer s = record s { manager = waiting; worker_queue = s.worker_queue + 1 }
effect c manager_stops s = record s { manager = stopped }
effect c stop_cancels s = record s { cancelled = true }
effect c stop_closes s =
    if s.closed then record s { panicked = true } else record s { closed = true }

unfoldable pub step : Config → Action → ThreadPool → Option ThreadPool
step c a s = if not s.panicked && guard c a s then some (effect c a s) else none

abbrev pub and_then : Option ThreadPool → (ThreadPool → Option ThreadPool) → Option ThreadPool
and_then none f = none
and_then (some s) f = f s

-- One interleaving; `none` when one of its actions cannot happen.
unfoldable pub run : Config → List Action → ThreadPool → Option ThreadPool
run c [] s = some s
run c (a ∷ rest) s = and_then (step c a s) (run c rest)
