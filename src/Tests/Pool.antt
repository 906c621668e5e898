-- ===== src/Tests/Pool.antt =====
-- A pool of two workers and a queue of two tasks.
use mathlib.Core.List.{Perm}
use net_pulse.Base.{
  ℕ, ◌+◌, ◌≤◌, ◌≡◌, ◌≢◌, refl, List, [], ◌∷◌, ◌++◌, true, false, some, arith, length,
}
use net_pulse.Concurrency.BoundedQueue
use net_pulse.Concurrency.BoundedQueue.{BoundedQueue, make, try_push, wait_pop}
use net_pulse.Concurrency.BoundedQueue.Fifo
use net_pulse.Concurrency.BoundedQueue.Fifo.{
  Call, History, push, pop, shut, run-make-fifo, run-closed,
}
use net_pulse.Concurrency.ThreadPool.{
  ThreadPool, construct, made, try_submit, to_submit_status, exchange_stopped, close_tasks,
}
use net_pulse.Concurrency.ThreadPool.System
use net_pulse.Concurrency.ThreadPool.System.{
  Move, submits, tests, tests_again, notifies_one, notifies_all, finishes, stops, closes, start,
  step, test, test_again, notify_one, notify_all, finish, remove_at, stop, close, submit,
}
use net_pulse.Concurrency.ThreadPool.Tasks.{run-construct-tasks, run-construct-all_ended}
use net_pulse.Concurrency.ThreadPool.Inv.{queued}
use net_pulse.Concurrency.ThreadPool.Wakeups.{run-construct-no_lost_wakeup}
use net_pulse.Concurrency.ThreadPool.Shutdown.{work, run-construct-can_stop}

abbrev queue : BoundedQueue ℕ
queue = record { limit = 2; queue = []; is_closed = false }

abbrev calls : List (Call ℕ)
calls = push 1 ∷ push 2 ∷ push 3 ∷ pop ∷ shut ∷ push 4 ∷ pop ∷ pop ∷ []

abbrev closed_history : History ℕ
closed_history = record { now = record queue { is_closed = true }; pushed = []; popped = [] }

run-make-fifo_example :
    let h = Fifo.run (record { now = queue; pushed = []; popped = [] }) calls in
    (◌≢◌ {A = ℕ} 2 0) × (h.pushed ≡ h.popped ++ h.now.queue) × (length h.now.queue ≤ 2)
unfolding make
run-make-fifo_example = run-make-fifo 2 queue calls refl

run-closed_example :
    ((Fifo.run closed_history calls).now.is_closed ≡ true)
    × ((Fifo.run closed_history calls).pushed ≡ [])
run-closed_example = run-closed closed_history calls refl

abbrev pool : ThreadPool ℕ
pool = record { tasks = queue; workers = 2; is_stopped = false }

constructed : construct ℕ 2 2 ≡ made pool
unfolding construct make
constructed = refl

-- Both workers fall asleep, a task comes and wakes one of them, and the pool is stopped.
abbrev schedule : List (Move ℕ)
schedule = tests ∷ tests ∷ submits (some 7) ∷ notifies_one ∷ tests_again ∷ stops ∷ finishes 0 ∷ []

-- And both return.
abbrev whole : List (Move ℕ)
whole =
    tests
    ∷ submits (some 7)
    ∷ notifies_one
    ∷ tests_again
    ∷ stops
    ∷ closes
    ∷ notifies_all
    ∷ finishes 0
    ∷ tests
    ∷ tests
    ∷ []

abbrev asleep : List (Move ℕ)
asleep = tests ∷ tests ∷ []

run-construct-tasks_example :
    let s = System.run (start pool) schedule in
    (s.accepted ≡ s.started ++ queued s)
    × Perm s.started (s.finished ++ s.running)
    × (length (queued s) ≤ 2)
    × (s.ready + s.sleeping + s.woken + s.exited + length s.running ≡ 2)
run-construct-tasks_example = run-construct-tasks 2 2 pool schedule constructed

whole_exits : (System.run (start pool) whole).exited ≡ 2
unfolding System.run start step test test_again notify_one notify_all finish remove_at stop
    exchange_stopped close close_tasks submit try_submit to_submit_status try_push wait_pop
    BoundedQueue.close
whole_exits = refl

run-construct-all_ended_example :
    let s = System.run (start pool) whole in
    Perm s.accepted s.finished
    × (s.pool.tasks.is_closed ≡ true)
    × (queued s ≡ [])
    × (s.running ≡ [])
run-construct-all_ended_example = run-construct-all_ended 2 2 pool whole constructed whole_exits

run-construct-no_lost_wakeup_example :
    (queued (System.run (start pool) asleep) ≡ [])
    × ((System.run (start pool) asleep).pool.tasks.is_closed ≡ false)
unfolding System.run start step test wait_pop
run-construct-no_lost_wakeup_example =
    run-construct-no_lost_wakeup 2 2 pool asleep constructed (omega arith) refl refl refl

schedule_stops : (System.run (start pool) schedule).pool.is_stopped ≡ true
unfolding System.run start step test test_again notify_one finish remove_at stop exchange_stopped
    submit try_submit to_submit_status try_push wait_pop
schedule_stops = refl

run-construct-can_stop_example :
    let s = System.run (start pool) schedule in
    (more : List (Move ℕ)) × (length more ≤ work s) × ((System.run s more).exited ≡ 2)
run-construct-can_stop_example = run-construct-can_stop 2 2 pool schedule constructed schedule_stops
