-- ===== src/Concurrency/ThreadPool/Shutdown.antt =====
-- `stop` can always come to its end: from any state the pool can get to, once `stop` has been called,
-- the threads can go on until every worker has returned.
use net_pulse.Base.{
  ℕ, zero, suc, ◌+◌, ◌-◌, ◌*◌, ◌≤◌, ◌<◌, ◌≡◌, inl, inr, refl, ap, List, [], ◌∷◌, true, ltb,
  if◌then◌else◌, length, arith, length-append, Bool-cases, ltb→lt, lt→ltb, not-ltb→le, ◌∙◌, le_refl,
}
use net_pulse.Concurrency.BoundedQueue.{BoundedQueue, wait_pop}
use net_pulse.Concurrency.BoundedQueue
use net_pulse.Concurrency.BoundedQueue.Fifo.{wait_pop-cases}
use net_pulse.Concurrency.ThreadPool.{ThreadPool, construct, made, close_tasks}
use net_pulse.Concurrency.ThreadPool.System.{
  System, Move, tests, tests_again, notifies_all, finishes, closes, start, after_test, test,
  test_again, notify_all, remove_at, finish, close, step, run,
}
use net_pulse.Concurrency.ThreadPool.Inv.{queued, Inv}
use net_pulse.Concurrency.ThreadPool.Steps.{step-Inv, run-Inv, start-Inv}
use net_pulse.Concurrency.ThreadPool.Wakeups.{Awake, step-Awake, run-Awake, start-Awake}

module _ {A : Type 0} where
  -- A step that some thread of a stopping pool can make.
  pub helpful : System A → Move A
  helpful s =
      if ltb 0 s.to_close
      then closes
      else if ltb 0 s.to_notify_all
      then notifies_all
      else if ltb 0 s.woken
      then tests_again
      else if ltb 0 s.ready
      then tests
      else finishes 0

  -- What is left to do.
  abbrev pub work : System A → ℕ
  work s =
      2 * length (queued s)
      + 2 * length s.running
      + s.ready
      + s.woken
      + s.sleeping
      + s.to_notify_all
      + 2 * s.to_close

  after_test-work :
      (s : System A)
      → s.pool.tasks.is_closed ≡ true
      → let s' = after_test s (wait_pop s.pool.tasks) in
        (work s' ≤ work s) × (s'.pool.is_stopped ≡ s.pool.is_stopped)
  after_test-work s shut = elim (wait_pop-cases s.pool.tasks) [
    | inl (x, rest, q, w) ↦
        rw w (omega (arith, ap length q, length-append s.running (x ∷ [])), refl)
    | inr (inl (q, _, w)) ↦ rw w (omega arith, refl)
    | inr (inr (q, open_now, w)) ↦ cc
  ]

  finish-work :
      (s : System A) (xs : List A)
      → s.running ≡ xs
      → 0 < length xs
      → (work (finish s 0) < work s) × ((finish s 0).pool ≡ s.pool)
  unfolding finish remove_at
  finish-work s [] e h = absurd (omega arith)
  finish-work s (x ∷ xs) e h = rw (e, remove_at) (omega arith, refl)

  -- The four kinds of helpful step, each where the ones before it have nothing to do.
  close-work :
      (s : System A)
      → s.pool.is_stopped ≡ true
      → 0 < s.to_close
      → (work (close s) < work s) × ((close s).pool.is_stopped ≡ true)
  unfolding close close_tasks BoundedQueue.close
  close-work s stopping h = ground arith

  notify_all-work :
      (s : System A)
      → s.pool.is_stopped ≡ true
      → 0 < s.to_notify_all
      → (work (notify_all s) < work s) × ((notify_all s).pool.is_stopped ≡ true)
  unfolding notify_all
  notify_all-work s stopping h = ground arith

  test_again-work :
      (s : System A)
      → s.pool.is_stopped ≡ true
      → s.pool.tasks.is_closed ≡ true
      → 0 < s.woken
      → (work (test_again s) < work s) × ((test_again s).pool.is_stopped ≡ true)
  unfolding test_again
  test_again-work s stopping shut h =
      let (less, same) = after_test-work (record s { woken = s.woken - 1 }) shut in
      rw (lt→ltb 0 s.woken h) (omega arith, same ∙ stopping)

  test-work :
      (s : System A)
      → s.pool.is_stopped ≡ true
      → s.pool.tasks.is_closed ≡ true
      → 0 < s.ready
      → (work (test s) < work s) × ((test s).pool.is_stopped ≡ true)
  unfolding test
  test-work s stopping shut h =
      let (less, same) = after_test-work (record s { ready = s.ready - 1 }) shut in
      rw (lt→ltb 0 s.ready h) (omega arith, same ∙ stopping)

module _ {A : Type 0} (worker_count queue_capacity : ℕ) where
  helpful-work :
      (s : System A)
      → Inv worker_count queue_capacity s
      → Awake s
      → s.pool.is_stopped ≡ true
      → s.exited < worker_count
      → (work (step s (helpful s)) < work s) × ((step s (helpful s)).pool.is_stopped ≡ true)
  unfolding step helpful
  helpful-work s v a stopping some_left = elim (Bool-cases (ltb 0 s.to_close)) [
    | inl h ↦ rw h (close-work s stopping (ltb→lt _ _ h))
    | inr no_close ↦
        let shut : s.pool.tasks.is_closed ≡ true = elim a.for_stop [
          | inl h ↦ cc
          | inr (inl h) ↦ h
          | inr (inr h) ↦ absurd (omega (arith, not-ltb→le _ _ no_close))
        ] in
        elim (Bool-cases (ltb 0 s.to_notify_all)) [
          | inl h ↦ rw (no_close, h) (notify_all-work s stopping (ltb→lt _ _ h))
          | inr no_all ↦
              let none_asleep : s.sleeping ≡ 0 = elim a.for_close [
                | inl h ↦ cc
                | inr (inl h) ↦ h
                | inr (inr h) ↦ absurd (omega (arith, not-ltb→le _ _ no_all))
              ] in
              elim (Bool-cases (ltb 0 s.woken)) [
                | inl h ↦ rw (no_close, no_all, h) (test_again-work s stopping shut (ltb→lt _ _ h))
                | inr no_woken ↦ elim (Bool-cases (ltb 0 s.ready)) [
                  | inl h ↦
                      rw (no_close, no_all, no_woken, h) (test-work s stopping shut (ltb→lt _ _ h))
                  | inr no_ready ↦
                      let (less, same) = finish-work s s.running refl (
                        omega
                          (arith, v.workers, not-ltb→le _ _ no_woken, not-ltb→le _ _ no_ready)) in
                      rw (no_close, no_all, no_woken, no_ready)
                        (less, ap (λ p. p.is_stopped) same ∙ stopping)
                ]
              ]
        ]
  ]

  drains :
      (fuel : ℕ) (s : System A)
      → Inv worker_count queue_capacity s
      → Awake s
      → s.pool.is_stopped ≡ true
      → work s < fuel
      → (ms : List (Move A)) × (length ms ≤ work s) × ((run s ms).exited ≡ worker_count)
  unfolding run
  drains zero s v a stopping h = absurd (omega arith)
  drains (suc fuel) s v a stopping h = elim (Bool-cases (ltb s.exited worker_count)) [
    | inl some_left ↦
        let (less, still) = helpful-work s v a stopping (ltb→lt _ _ some_left) in
        let (ms, short, done) =
          drains fuel (step s (helpful s)) (step-Inv worker_count queue_capacity s (helpful s) v)
            (step-Awake s (helpful s) a) still (omega arith) in
        (helpful s ∷ ms, omega arith, done)
    | inr none_left ↦ ([], omega arith, omega (arith, v.workers, not-ltb→le _ _ none_left))
  ]

  -- From any state that a constructed pool gets to by any interleaving, once `stop` has set its flag there are
  -- further steps, at most as many as the work that is left (two for each queued or running
  -- task and each close still to be made, one for each worker that is neither running nor returned
  -- and each `notify_all` still to be made), after which every worker has returned: the pool is
  -- never in a deadlock in which `stop` waits for ever.
  pub run-construct-can_stop :
      (p : ThreadPool A) (ms : List (Move A))
      → construct A worker_count queue_capacity ≡ made p
      → (run (start p) ms).pool.is_stopped ≡ true
      → let s = run (start p) ms in
        (more : List (Move A)) × (length more ≤ work s) × ((run s more).exited ≡ worker_count)
  run-construct-can_stop p ms e stopping =
      drains _ (run (start p) ms)
        (run-Inv worker_count queue_capacity (start p) ms
          (start-Inv worker_count queue_capacity p e))
        (run-Awake (start p) ms (start-Awake worker_count queue_capacity p e)) stopping
        (le_refl (suc (work (run (start p) ms))))
