-- ===== src/Concurrency/ThreadPool/System.antt =====
-- The pool with its worker threads and callers, as interleaved steps. A step is what a thread does
-- while it holds a mutex, or one notification, or the run of one task. The step of a thread that
-- is not there, or has nothing to notify, changes nothing.
use net_pulse.Base.{
  ℕ, zero, suc, ◌+◌, ◌-◌, List, [], ◌∷◌, ◌++◌, Bool, true, false, Option, none, some, ltb,
  if◌then◌else◌,
}
use net_pulse.Concurrency.BoundedQueue.{BoundedQueue, wait_pop}
use net_pulse.Concurrency.ThreadPool.{
  ThreadPool, SubmitStatus, success, queue_full, stopped, invalid_task, try_submit,
  exchange_stopped, close_tasks,
}

pub record System (A : Type 0) : Type 0 where
  pub pool : ThreadPool A
  -- workers that are about to call `waitPop`; that sleep in it; that have been woken and are about to
  -- test its predicate again; that have returned from `workerLoop`
  pub ready : ℕ
  pub sleeping : ℕ
  pub woken : ℕ
  pub exited : ℕ
  -- the tasks that the other workers are running
  pub running : List A
  -- calls of `notify_one`, of `close` and of `notify_all` that are still to be made
  pub to_notify : ℕ
  pub to_close : ℕ
  pub to_notify_all : ℕ
  -- what has happened: the tasks that `trySubmit` accepted, that a worker took, that have ended
  pub accepted : List A
  pub started : List A
  pub finished : List A

module _ {A : Type 0} where
  unfoldable pub start : ThreadPool A → System A
  start pool = record {
    pool = pool;
    ready = pool.workers;
    sleeping = 0;
    woken = 0;
    exited = 0;
    running = [];
    to_notify = 0;
    to_close = 0;
    to_notify_all = 0;
    accepted = [];
    started = [];
    finished = [];
  }

  -- A successful push owes a `notify_one`.
  abbrev pub after_submit : System A → Option A → SubmitStatus × ThreadPool A → System A
  after_submit s (some task) (success, p) = record s {
    pool = p;
    to_notify = s.to_notify + 1;
    accepted = s.accepted ++ task ∷ [];
  }
  after_submit s none (success, p) = record s { pool = p }
  after_submit s task (queue_full, p) = record s { pool = p }
  after_submit s task (stopped, p) = record s { pool = p }
  after_submit s task (invalid_task, p) = record s { pool = p }

  -- `workerLoop` behind the predicate of `waitPop`: sleep, return, or run the task.
  abbrev pub after_test : System A → Option (Option A × BoundedQueue A) → System A
  after_test s none = record s { sleeping = s.sleeping + 1 }
  after_test s (some (none, q)) = record s {
    pool = record (s.pool) { tasks = q };
    exited = s.exited + 1;
  }
  after_test s (some (some task, q)) = record s {
    pool = record (s.pool) { tasks = q };
    running = s.running ++ task ∷ [];
    started = s.started ++ task ∷ [];
  }

  -- A worker that calls `waitPop`, and one that has been woken in it.
  unfoldable pub test : System A → System A
  test s =
      if ltb 0 s.ready
      then after_test (record s { ready = s.ready - 1 }) (wait_pop s.pool.tasks)
      else s

  unfoldable pub test_again : System A → System A
  test_again s =
      if ltb 0 s.woken
      then after_test (record s { woken = s.woken - 1 }) (wait_pop s.pool.tasks)
      else s

  unfoldable pub notify_one : System A → System A
  notify_one s =
      if ltb 0 s.to_notify
      then (if ltb 0 s.sleeping
          then record s {
            to_notify = s.to_notify - 1;
            sleeping = s.sleeping - 1;
            woken = s.woken + 1;
          }
          else record s { to_notify = s.to_notify - 1 })
      else s

  unfoldable pub notify_all : System A → System A
  notify_all s =
      if ltb 0 s.to_notify_all
      then record s {
        to_notify_all = s.to_notify_all - 1;
        sleeping = 0;
        woken = s.woken + s.sleeping;
      }
      else s

  -- A wakeup with no notification.
  unfoldable pub wake_spuriously : System A → System A
  wake_spuriously s =
      if ltb 0 s.sleeping then record s { sleeping = s.sleeping - 1; woken = s.woken + 1 } else s

  -- The task at place `n` ends, by return or by an exception that `workerLoop` swallows.
  unfoldable pub remove_at : ℕ → List A → Option (A × List A)
  remove_at n [] = none
  remove_at zero (x ∷ xs) = some (x, xs)
  remove_at (suc n) (x ∷ xs) = elim (remove_at n xs) [
    | none ↦ none
    | some (y, ys) ↦ some (y, x ∷ ys)
  ]

  abbrev pub after_finish : System A → Option (A × List A) → System A
  after_finish s none = s
  after_finish s (some (task, rest)) = record s {
    running = rest;
    finished = s.finished ++ task ∷ [];
    ready = s.ready + 1;
  }

  unfoldable pub finish : System A → ℕ → System A
  finish s n = after_finish s (remove_at n s.running)

  abbrev pub after_exchange : System A → Bool × ThreadPool A → System A
  after_exchange s (true, p) = record s { pool = p }
  after_exchange s (false, p) = record s { pool = p; to_close = s.to_close + 1 }

  unfoldable pub stop : System A → System A
  stop s = after_exchange s (exchange_stopped s.pool)

  unfoldable pub close : System A → System A
  close s =
      if ltb 0 s.to_close
      then record s {
        pool = close_tasks s.pool;
        to_close = s.to_close - 1;
        to_notify_all = s.to_notify_all + 1;
      }
      else s

  unfoldable pub submit : System A → Option A → System A
  submit s task = after_submit s task (try_submit s.pool task)

pub data Move (A : Type 0) : Type 0 where
  submits : Option A → Move A
  tests : Move A
  tests_again : Move A
  notifies_one : Move A
  notifies_all : Move A
  wakes_spuriously : Move A
  finishes : ℕ → Move A
  stops : Move A
  closes : Move A

module _ {A : Type 0} where
  unfoldable pub step : System A → Move A → System A
  step s (submits task) = submit s task
  step s tests = test s
  step s tests_again = test_again s
  step s notifies_one = notify_one s
  step s notifies_all = notify_all s
  step s wakes_spuriously = wake_spuriously s
  step s (finishes n) = finish s n
  step s stops = stop s
  step s closes = close s

  unfoldable pub run : System A → List (Move A) → System A
  run s [] = s
  run s (m ∷ ms) = run (step s m) ms
