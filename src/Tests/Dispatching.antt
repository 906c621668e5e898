-- ===== src/Tests/Dispatching.antt =====
-- A dispatcher with a task in its queue and a result that waits.
use net_pulse.Base.{ℕ, pos, ◌≡◌, ◌≢◌, ◌⊎◌, refl, [], ◌∷◌, ◌++◌, true, false, some, nonneg, arith}
use net_pulse.Network.EventFd
use net_pulse.Network.EventFd.{EventFdOperationResult}
use net_pulse.Os.Scripted.{World, descriptors, eventfd_laws}
use net_pulse.Concurrency.ThreadPool.{stopped, invalid_task}
use net_pulse.Server.Processing.{ProcessingTask, ack_response}
use net_pulse.Server.Dispatcher.{Dispatcher, valid, try_submit, run_task}
use net_pulse.Server.Dispatcher.Publish.{Told, run_task-total}
use net_pulse.Server.Dispatcher.Submit.{Queues, try_submit-cases}

abbrev world : World
world = record { sent = []; to_read = []; interrupts = 2; count = 1; waiting = 0 }

abbrev task : ProcessingTask
task = record { client_fd = pos 5; connection_id = 3; payload = 1 ∷ 2 ∷ [] }

abbrev dispatcher : Dispatcher
dispatcher = record {
  notifier = record { fd = pos 9; error_number = 0 };
  completed = record { client_fd = pos 6; connection_id = 2; response = ack_response } ∷ [];
  error_number = 0;
  pool = record {
    tasks = record { limit = 2; queue = task ∷ []; is_closed = false };
    workers = 2;
    is_stopped = false;
  };
}

run_task-total_example :
    (d' : Dispatcher) × (w' : World) × (r : EventFdOperationResult) × (run_task descriptors 3 world
        dispatcher task
      ≡ some (d', w'))
    × (EventFd.notify descriptors 3 world dispatcher.notifier 1 ≡ some (r, w'))
    × (d'.completed
        ≡ dispatcher.completed
          ++ record { client_fd = pos 5; connection_id = 3; response = ack_response } ∷ [])
    × (d'.notifier ≡ dispatcher.notifier)
    × (d'.pool ≡ dispatcher.pool)
    × Told descriptors eventfd_laws world w' (pos 9) r 0 d'.error_number
unfolding EventFd.valid
run_task-total_example =
    run_task-total descriptors eventfd_laws 3 world dispatcher task refl (omega arith)

try_submit-cases_example :
    (((nonneg (pos 5) ≡ false) ⊎ (◌≡◌ {A = ℕ} 3 0))
      × (try_submit dispatcher task ≡ (invalid_task, dispatcher)))
    ⊎ ((nonneg (pos 5) ≡ true)
        × (◌≢◌ {A = ℕ} 3 0)
        × (valid dispatcher ≡ false)
        × (try_submit dispatcher task ≡ (stopped, dispatcher)))
    ⊎ ((nonneg (pos 5) ≡ true)
        × (◌≢◌ {A = ℕ} 3 0)
        × (valid dispatcher ≡ true)
        × Queues dispatcher task)
try_submit-cases_example = try_submit-cases dispatcher task
