-- ===== src/Concurrency/ThreadPool/Wakeups.antt =====
-- Wakeups: no worker sleeps through a task or through the end, though notifications come late and
-- wakeups may be spurious.
use net_pulse.Base.{
  ℕ, ◌+◌, ◌-◌, ◌≤◌, ◌<◌, ◌≡◌, ◌⊎◌, inl, inr, ap, List, [], ◌∷◌, true, false, Option, none, some,
  ltb, length, arith, length-append, Bool-cases, Option-cases, ltb→lt, empty-of_zero,
}
use net_pulse.Concurrency.BoundedQueue.{BoundedQueue, wait_pop, try_push}
use net_pulse.Concurrency.BoundedQueue
use net_pulse.Concurrency.BoundedQueue.Fifo.{try_push-cases, wait_pop-cases}
use net_pulse.Concurrency.ThreadPool.{
  ThreadPool, construct, made, try_submit, to_submit_status, exchange_stopped, close_tasks,
}
use net_pulse.Concurrency.ThreadPool.System.{
  System, Move, submits, tests, tests_again, notifies_one, notifies_all, wakes_spuriously, finishes,
  stops, closes, start, after_test, test, test_again, notify_one, notify_all, wake_spuriously,
  remove_at, finish, stop, close, submit, step, run,
}
use net_pulse.Concurrency.ThreadPool.Inv.{queued}

module _ {A : Type 0} where
  pub record Awake (s : System A) : Type 0 where
    -- while anyone sleeps, there is a woken worker or an owed notification for each queued task
    pub for_tasks : (s.sleeping ≡ 0) ⊎ (length (queued s) ≤ s.woken + s.to_notify)
    -- once the queue is closed, nobody sleeps unless all are still to be notified
    pub for_close : (s.pool.tasks.is_closed ≡ false) ⊎ (s.sleeping ≡ 0) ⊎ (0 < s.to_notify_all)
    -- from the first `stop` on the queue is closed, or a call is about to close it
    pub for_stop : (s.pool.is_stopped ≡ false) ⊎ (s.pool.tasks.is_closed ≡ true) ⊎ (0 < s.to_close)

  after_test-Awake :
      (s : System A) (ready woken : ℕ)
      → Awake s
      → woken ≤ s.woken
      → s.woken ≤ woken + 1
      → Awake (after_test (record s { ready = ready; woken = woken }) (wait_pop s.pool.tasks))
  after_test-Awake s ready woken v e e' = elim (wait_pop-cases s.pool.tasks) [
    | inl (x, rest, q, w) ↦ rw w (record {
      for_tasks = grind (arith, v.for_tasks, ap length q);
      for_close = v.for_close;
      for_stop = v.for_stop;
    })
    | inr (inl (q, shut, w)) ↦ rw w (record {
      for_tasks = inr (omega (arith, ap length q));
      for_close = v.for_close;
      for_stop = v.for_stop;
    })
    | inr (inr (q, open_now, w)) ↦ rw w (record {
      for_tasks = inr (omega (arith, ap length q));
      for_close = inl open_now;
      for_stop = v.for_stop;
    })
  ]

  submit-Awake : (s : System A) (task : Option A) → Awake s → Awake (submit s task)
  unfolding submit try_submit to_submit_status
  submit-Awake s none v = v
  submit-Awake s (some task) v = elim (try_push-cases s.pool.tasks task) [
    | inl (open_now, room, e) ↦ rw e (record {
      for_tasks = ground (arith, v.for_tasks, length-append (queued s) (task ∷ []));
      for_close = v.for_close;
      for_stop = v.for_stop;
    })
    | inr (inl (_, e)) ↦ rw e v
    | inr (inr (_, _, e)) ↦ rw e v
  ]

  finish-Awake : (s : System A) (n : ℕ) → Awake s → Awake (finish s n)
  unfolding finish
  finish-Awake s n v = elim (Option-cases (remove_at n s.running)) [
    | inl none_there ↦ rw none_there v
    | inr ((task, rest), there) ↦
        rw there
          (record { for_tasks = v.for_tasks; for_close = v.for_close; for_stop = v.for_stop })
  ]

  pub step-Awake : (s : System A) (m : Move A) → Awake s → Awake (step s m)
  unfolding step test test_again notify_one notify_all wake_spuriously stop exchange_stopped close
      close_tasks BoundedQueue.close
  step-Awake s (submits task) v = submit-Awake s task v
  step-Awake s tests v = elim (Bool-cases (ltb 0 s.ready)) [
    | inl some_ready ↦
        rw some_ready (after_test-Awake s (s.ready - 1) s.woken v (omega arith) (omega arith))
    | inr none_ready ↦ rw none_ready v
  ]
  step-Awake s tests_again v = elim (Bool-cases (ltb 0 s.woken)) [
    | inl some_woken ↦ rw some_woken (
        after_test-Awake s s.ready (s.woken - 1) v (omega arith)
          (omega (arith, ltb→lt _ _ some_woken)))
    | inr none_woken ↦ rw none_woken v
  ]
  step-Awake s notifies_one v = ground arith
  step-Awake s notifies_all v = ground arith
  step-Awake s wakes_spuriously v = ground arith
  step-Awake s (finishes n) v = finish-Awake s n v
  step-Awake s stops v = ground arith
  step-Awake s closes v = ground arith

  pub run-Awake : (s : System A) (ms : List (Move A)) → Awake s → Awake (run s ms)
  unfolding run
  run-Awake s [] v = v
  run-Awake s (m ∷ ms) v = run-Awake (step s m) ms (step-Awake s m v)

module _ {A : Type 0} (worker_count queue_capacity : ℕ) where
  pub start-Awake :
      (p : ThreadPool A) → construct A worker_count queue_capacity ≡ made p → Awake (start p)
  unfolding start construct BoundedQueue.make
  start-Awake p e = ground arith

  -- After any interleaving, if some worker of a constructed pool is asleep, none is awake in the wait, and no
  -- notification is still to be made, then no task is queued and the queue is open: nobody sleeps
  -- through a task or through the end.
  pub run-construct-no_lost_wakeup :
      (p : ThreadPool A) (ms : List (Move A))
      → construct A worker_count queue_capacity ≡ made p
      → 0 < (run (start p) ms).sleeping
      → (run (start p) ms).woken ≡ 0
      → (run (start p) ms).to_notify ≡ 0
      → (run (start p) ms).to_notify_all ≡ 0
      → (queued (run (start p) ms) ≡ []) × ((run (start p) ms).pool.tasks.is_closed ≡ false)
  run-construct-no_lost_wakeup p ms e asleep none_woken none_owed none_owed_all =
      let s = run (start p) ms in
      let v = run-Awake (start p) ms (start-Awake p e) in
      (
        empty-of_zero (queued s) (omega (arith, v.for_tasks)),
        elim v.for_close [
          | inl h ↦ h
          | inr (inl h) ↦ absurd (omega arith)
          | inr (inr h) ↦ absurd (omega arith)
        ],
      )
