-- ===== src/Lab4/Pool.antt =====
-- lab4/internal/infrastructure/network/thread_pool.go: the goroutines of a pool, one atomic action of
-- one goroutine at a time. The goroutines at a place of the code are counted, since nothing tells
-- them apart. A task is opaque. int32 and int64 counters wrap: a negative one is 2 ^ w less its size.
pub mod Steps
pub mod Accounts
pub mod Bound
mod Examples
use nssa_ds.Base.{ℕ, ◌+◌, ◌%◌, ◌^◌, Bool, true, false, List, [], ltb}

abbrev pub w32 : ℕ
w32 = 2 ^ 32

abbrev pub w64 : ℕ
w64 = 2 ^ 64

-- `a < b` for int32.
unfoldable pub s32_lt : ℕ → ℕ → Bool
s32_lt a b = ltb ((a + 2 ^ 31) % w32) ((b + 2 ^ 31) % w32)

-- `domain.ThreadPoolConfig`. `above` is `float64(queued)/float64(tp.queueSize) > tp.expandThreshold`.
pub record Config : Type 0 where
  pub min_workers : ℕ
  pub max_workers : ℕ
  pub queue_size : ℕ
  pub above : ℕ → Bool

-- Where the goroutine of `manager` is, with what `optimize` has loaded.
pub data Manager : Type 0 where
  waiting : Manager
  loaded_current : ℕ → Manager
  loaded_active : ℕ → ℕ → Manager
  retiring offering stopped : Manager

-- `to_start` is what is left of the loop of `Start`, which calls `addWorker`, and `ready` says that
-- `Start` has returned. Submitters: `pushing` has sent its task, `expanding` has counted it, `weighing` has found
-- current < maxWorkers, `adding` has called `addWorker`, `admitted` has passed its guard, `entering`
-- has counted the new worker. Workers: `idle` waits in the select, `holding` has received a task,
-- `running` runs it, `ran` has left `activeWorkers`, `finished` has counted it, `leaving` returns and
-- `left` has left `currentWorkers`. `wg` is the counter of the wait group.
pub record ThreadPool : Type 0 where
  pub task_queue : List ℕ
  pub closed : Bool
  pub worker_queue : ℕ
  pub cancelled : Bool
  pub panicked : Bool
  pub wg : ℕ
  pub active_workers : ℕ
  pub current_workers : ℕ
  pub completed_tasks : ℕ
  pub queued_tasks : ℕ
  pub to_start : ℕ
  pub ready : Bool
  pub pushing : ℕ
  pub expanding : ℕ
  pub weighing : ℕ
  pub adding : ℕ
  pub admitted : ℕ
  pub entering : ℕ
  pub idle : ℕ
  pub holding : ℕ
  pub running : ℕ
  pub ran : ℕ
  pub finished : ℕ
  pub leaving : ℕ
  pub left : ℕ
  pub manager : Manager

-- `NewThreadPool`, and `Start` at its first line.
unfoldable pub new_thread_pool : Config → ThreadPool
new_thread_pool config = record {
  task_queue = [];
  closed = false;
  worker_queue = 0;
  cancelled = false;
  panicked = false;
  wg = 0;
  active_workers = 0;
  current_workers = 0;
  completed_tasks = 0;
  queued_tasks = 0;
  to_start = config.min_workers;
  ready = false;
  pushing = 0;
  expanding = 0;
  weighing = 0;
  adding = 0;
  admitted = 0;
  entering = 0;
  idle = 0;
  holding = 0;
  running = 0;
  ran = 0;
  finished = 0;
  leaving = 0;
  left = 0;
  manager = waiting;
}

pub data Action : Type 0 where
  -- `Start`
  start_next start_returns : Action
  -- `Submit`: the send, and a send on a closed channel; `queuedTasks` and `checkAndExpand`
  submit : ℕ → Action
  submit_closed count_task load_current load_queued : Action
  -- `addWorker`: the guard, the count, and the start of the goroutine
  add_guard add_count add_spawn : Action
  -- a worker
  receive see_closed see_cancelled time_out begin_task end_task count_completed uncount leave done :
      Action
  -- `manager` and `optimize`
  tick load_active optimize_guard retire offer manager_stops : Action
  -- `Stop`
  stop_cancels stop_closes : Action
