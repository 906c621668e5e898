-- ===== src/Server/Dispatcher.antt =====
-- include/netpulse/server/processing_dispatcher.hpp and src/server/processing_dispatcher.cpp. The closure
-- that `trySubmit` hands to the pool is modelled by the task that it captures; `run_task` is its call.
pub mod Publish
pub mod Submit
pub mod System
pub mod Results
use net_pulse.Base.{
  ℕ, ℤ, List, [], ◌∷◌, ◌++◌, Bool, not, ◌&&◌, ◌||◌, Option, none, some, nonneg, ◌==◌, if◌then◌else◌,
}
use net_pulse.Os.Descriptors.{Descriptors}
use net_pulse.Network.Io.{blocks}
use net_pulse.Network.EventFd
use net_pulse.Network.EventFd.{EventFd, EventFdOperationResult, EventFdReadResult}
use net_pulse.Concurrency.ThreadPool
use net_pulse.Concurrency.ThreadPool.{ThreadPool, SubmitStatus, invalid_task, stopped}
use net_pulse.Server.Processing.{ProcessingTask, ProcessingResult, process_frame}

pub record Dispatcher : Type 0 where
  pub notifier : EventFd
  pub completed : List ProcessingResult
  pub error_number : ℕ
  pub pool : ThreadPool ProcessingTask

-- `pool_.stop()` up to the joining of the workers.
unfoldable pub stop_pool : ThreadPool ProcessingTask → ThreadPool ProcessingTask
stop_pool p =
    let (was_stopped, p') = ThreadPool.exchange_stopped p in
    if was_stopped then p' else ThreadPool.close_tasks p'

-- The constructor's body, behind the members: an invalid notifier stops the pool.
unfoldable pub init : EventFd → ThreadPool ProcessingTask → Dispatcher
init notifier pool =
    if EventFd.valid notifier
    then record { notifier = notifier; completed = []; error_number = 0; pool = pool }
    else record {
      notifier = notifier;
      completed = [];
      error_number = notifier.error_number;
      pool = stop_pool pool;
    }

unfoldable pub valid : Dispatcher → Bool
valid d = EventFd.valid d.notifier && d.error_number == 0

unfoldable pub error_code : Dispatcher → ℕ
error_code d = if not (d.error_number == 0) then d.error_number else d.notifier.error_number

unfoldable pub notification_fd : Dispatcher → ℤ
notification_fd d = d.notifier.fd

unfoldable pub try_submit : Dispatcher → ProcessingTask → SubmitStatus × Dispatcher
try_submit d task =
    if not (nonneg task.client_fd) || task.connection_id == 0
    then (invalid_task, d)
    else if not (valid d)
    then (stopped, d)
    else let (status, pool) = ThreadPool.try_submit d.pool (some task) in
      (status, record d { pool = pool })

unfoldable pub take_completed : Dispatcher → List ProcessingResult × Dispatcher
take_completed d = (d.completed, record d { completed = [] })

unfoldable pub stop : Dispatcher → Dispatcher
stop d = record d { pool = stop_pool d.pool }

-- What `publish` does while it holds the mutex.
unfoldable pub keep : Dispatcher → ProcessingResult → Dispatcher
keep d result = record d { completed = d.completed ++ result ∷ [] }

-- `compare_exchange_strong` from 0: the first error stays.
abbrev pub note_error : Dispatcher → ℕ → Dispatcher
note_error d e = if d.error_number == 0 then record d { error_number = e } else d

abbrev pub after_notify {ℓ} :
    {W : Type ℓ} → Dispatcher → Option (EventFdOperationResult × W) → Option (Dispatcher × W)
after_notify d none = none
after_notify d (some (r, w)) =
    if not r.success && not (blocks r.error_number)
    then some (note_error d r.error_number, w)
    else some (d, w)

module _ {W : Type 0} (os : Descriptors W) where
  unfoldable pub consume_notifications : ℕ → W → Dispatcher → Option (EventFdReadResult × W)
  consume_notifications fuel w d = EventFd.consume os fuel w d.notifier

  unfoldable pub publish : ℕ → W → Dispatcher → ProcessingResult → Option (Dispatcher × W)
  publish fuel w d result = after_notify (keep d result) (EventFd.notify os fuel w d.notifier 1)

  unfoldable pub run_task : ℕ → W → Dispatcher → ProcessingTask → Option (Dispatcher × W)
  run_task fuel w d task = publish fuel w d (process_frame task)
