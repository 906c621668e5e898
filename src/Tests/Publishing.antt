-- ===== src/Tests/Publishing.antt =====
-- Two workers that publish results while the event loop takes them.
use net_pulse.Base.{ℕ, pos, ◌≡◌, refl, List, [], ◌∷◌, ◌++◌, false}
use net_pulse.Os.Scripted.{World, descriptors, eventfd_laws}
use net_pulse.Network.EventFd.{EventFd}
use net_pulse.Network.EventFd
use net_pulse.Concurrency.ThreadPool.{ThreadPool}
use net_pulse.Server.Processing.{ProcessingTask, ProcessingResult, ack_response}
use net_pulse.Server.Dispatcher.{init, keep, take_completed, consume_notifications}
use net_pulse.Server.Dispatcher.System.{
  Move, keeps, notifies, consumes, takes, start, keep_result, notify, consume, take_results, step,
  run,
}
use net_pulse.Server.Dispatcher.Results.{reached, run-init-in_order, run-init-none_forgotten}

abbrev world : World
world = record { sent = []; to_read = []; interrupts = 1; count = 0; waiting = 0 }

abbrev notifier : EventFd
notifier = record { fd = pos 9; error_number = 0 }

abbrev pool : ThreadPool ProcessingTask
pool = record {
  tasks = record { limit = 2; queue = []; is_closed = false };
  workers = 2;
  is_stopped = false;
}

abbrev result : ℕ → ProcessingResult
result id = record { client_fd = pos 5; connection_id = id; response = ack_response }

-- The second result is kept between the loop's reading of the counter and its taking of the results; the
-- first call of `notify` is interrupted for longer than its fuel.
abbrev moves : List Move
moves =
    keeps (result 1)
    ∷ notifies 1
    ∷ notifies 3
    ∷ consumes 3
    ∷ keeps (result 2)
    ∷ takes
    ∷ notifies 3
    ∷ consumes 3
    ∷ takes
    ∷ []

run-init-in_order_example :
    (reached descriptors eventfd_laws notifier pool world moves).published
    ≡ (reached descriptors eventfd_laws notifier pool world moves).taken
      ++ (reached descriptors eventfd_laws notifier pool world moves).dispatcher.completed
unfolding EventFd.valid
run-init-in_order_example =
    run-init-in_order descriptors eventfd_laws notifier pool world moves refl

all_taken :
    (reached descriptors eventfd_laws notifier pool world moves).taken ≡ result 1 ∷ result 2 ∷ []
unfolding run step take_results consume notify keep_result start EventFd.notify keep init
    EventFd.notify_loop EventFd.after_write consume_notifications EventFd.consume
    EventFd.consume_loop EventFd.after_read take_completed EventFd.valid
all_taken = refl

run-init-none_forgotten_example :
    ((reached descriptors eventfd_laws notifier pool world moves).dispatcher.completed ≡ [])
    × ((reached descriptors eventfd_laws notifier pool world moves).taken
        ≡ (reached descriptors eventfd_laws notifier pool world moves).published)
unfolding run step take_results consume notify keep_result start EventFd.notify keep init
    EventFd.notify_loop EventFd.after_write consume_notifications EventFd.consume
    EventFd.consume_loop EventFd.after_read take_completed EventFd.valid
run-init-none_forgotten_example =
    run-init-none_forgotten descriptors eventfd_laws notifier pool world moves refl refl refl refl
      refl
