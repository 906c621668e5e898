-- ===== src/Concurrency/ThreadPool.antt =====
-- include/netpulse/concurrency/thread_pool.hpp and src/concurrency/thread_pool.cpp: the pool's own
-- operations. What the threads do is ThreadPool/System.antt.
pub mod System
pub mod Inv
pub mod Steps
pub mod Tasks
pub mod Wakeups
pub mod Shutdown
use net_pulse.Base.{ℕ, Bool, true, false, Option, none, some, ◌==◌, if◌then◌else◌}
use net_pulse.Concurrency.BoundedQueue
use net_pulse.Concurrency.BoundedQueue.{BoundedQueue, QueuePushStatus, try_push}

pub data SubmitStatus : Type 0 where
  success queue_full stopped invalid_task : SubmitStatus

-- `workers` is the size of the vector of threads.
pub record ThreadPool (A : Type 0) : Type 0 where
  pub tasks : BoundedQueue A
  pub workers : ℕ
  pub is_stopped : Bool

pub data ConstructError : Type 0 where
  queue_capacity_zero worker_count_zero : ConstructError

pub data Constructed (A : Type 0) : Type 0 where
  made : ThreadPool A → Constructed A
  throws : ConstructError → Constructed A

module _ (A : Type 0) where
  -- The queue is a member, so its exception comes first.
  abbrev pub with_queue : ℕ → Option (BoundedQueue A) → Constructed A
  with_queue worker_count none = throws queue_capacity_zero
  with_queue worker_count (some tasks) =
      if worker_count == 0
      then throws worker_count_zero
      else made (record { tasks = tasks; workers = worker_count; is_stopped = false })

  unfoldable pub construct : ℕ → ℕ → Constructed A
  construct worker_count queue_capacity =
      with_queue worker_count (BoundedQueue.make A queue_capacity)

unfoldable pub to_submit_status : QueuePushStatus → SubmitStatus
to_submit_status QueuePushStatus.success = success
to_submit_status QueuePushStatus.full = queue_full
to_submit_status QueuePushStatus.closed = stopped

module _ {A : Type 0} where
  -- `none` is an empty `std::function`.
  unfoldable pub try_submit : ThreadPool A → Option A → SubmitStatus × ThreadPool A
  try_submit p none = (invalid_task, p)
  try_submit p (some task) =
      let (status, tasks) = try_push p.tasks task in
      (to_submit_status status, record p { tasks = tasks })

  -- The two steps of `stop` before it waits for the threads: `stopped_.exchange(true)` gives the old
  -- flag, and if that was false the queue is closed.
  unfoldable pub exchange_stopped : ThreadPool A → Bool × ThreadPool A
  exchange_stopped p = (p.is_stopped, record p { is_stopped = true })

  unfoldable pub close_tasks : ThreadPool A → ThreadPool A
  close_tasks p = record p { tasks = BoundedQueue.close p.tasks }

  unfoldable pub worker_count : ThreadPool A → ℕ
  worker_count p = p.workers

  unfoldable pub pending_task_count : ThreadPool A → ℕ
  pending_task_count p = BoundedQueue.size p.tasks

  unfoldable pub stopped_flag : ThreadPool A → Bool
  stopped_flag p = p.is_stopped
