-- ===== src/Concurrency/ThreadPool/Steps.antt =====
-- Each step of a thread keeps the invariant of the pool.
use mathlib.Core.List.{Perm}
use mathlib.Core.List.Perm
use net_pulse.Base.{
  ℕ, ◌+◌, ◌-◌, ◌≡◌, inl, inr, refl, sym, ap, subst, ◌∙◌, List, [], ◌∷◌, ◌++◌, Bool, true, Option,
  none, some, ltb, arith, append_assoc, length-append, Bool-cases, Option-cases, ltb→lt,
}
use net_pulse.Concurrency.BoundedQueue.{BoundedQueue, wait_pop, try_push}
use net_pulse.Concurrency.BoundedQueue
use net_pulse.Concurrency.BoundedQueue.Fifo.{try_push-cases}
use net_pulse.Concurrency.ThreadPool.{
  ThreadPool, construct, made, try_submit, to_submit_status, exchange_stopped, close_tasks,
}
use net_pulse.Concurrency.ThreadPool.System.{
  System, Move, submits, tests, tests_again, notifies_one, notifies_all, wakes_spuriously, finishes,
  stops, closes, start, notify_one, notify_all, wake_spuriously, remove_at, finish, stop, close,
  submit, step, run,
}
use net_pulse.Concurrency.ThreadPool.Inv.{
  queued, remove_at-perm, length-remove_at, Inv, test-Inv, test_again-Inv,
}

module _ {A : Type 0} (worker_count queue_capacity : ℕ) where
  -- The tasks and the queue stay; workers only move between sleep and wakefulness.
  moved-Inv :
      (s : System A) (flag : Bool) (sleeping woken ones closing alls : ℕ)
      → Inv worker_count queue_capacity s
      → sleeping + woken ≡ s.sleeping + s.woken
      → Inv worker_count queue_capacity (record s {
        pool = record (s.pool) { is_stopped = flag };
        sleeping = sleeping;
        woken = woken;
        to_notify = ones;
        to_close = closing;
        to_notify_all = alls;
      })
  moved-Inv s flag sleeping woken ones closing alls v e = record {
    in_order = v.in_order;
    none_lost = v.none_lost;
    workers = omega (arith, v.workers);
    limited = v.limited;
    bounded = v.bounded;
    exits = v.exits;
  }

  notify_one-Inv :
      (s : System A)
      → Inv worker_count queue_capacity s
      → Inv worker_count queue_capacity (notify_one s)
  unfolding notify_one
  notify_one-Inv s v = elim (Bool-cases (ltb 0 s.to_notify)) [
    | inl owed ↦ elim (Bool-cases (ltb 0 s.sleeping)) [
      | inl asleep ↦
          rw (owed, asleep)
            (moved-Inv s s.pool.is_stopped (s.sleeping - 1) (s.woken + 1) (s.to_notify - 1)
              s.to_close s.to_notify_all v (omega (arith, ltb→lt _ _ asleep)))
      | inr awake ↦
          rw (owed, awake)
            (moved-Inv s s.pool.is_stopped s.sleeping s.woken (s.to_notify - 1) s.to_close
              s.to_notify_all v refl)
    ]
    | inr none_owed ↦ rw none_owed v
  ]

  notify_all-Inv :
      (s : System A)
      → Inv worker_count queue_capacity s
      → Inv worker_count queue_capacity (notify_all s)
  unfolding notify_all
  notify_all-Inv s v = elim (Bool-cases (ltb 0 s.to_notify_all)) [
    | inl owed ↦ rw owed (
        moved-Inv s s.pool.is_stopped 0 (s.woken + s.sleeping) s.to_notify s.to_close
          (s.to_notify_all - 1) v (omega arith))
    | inr none_owed ↦ rw none_owed v
  ]

  wake_spuriously-Inv :
      (s : System A)
      → Inv worker_count queue_capacity s
      → Inv worker_count queue_capacity (wake_spuriously s)
  unfolding wake_spuriously
  wake_spuriously-Inv s v = elim (Bool-cases (ltb 0 s.sleeping)) [
    | inl asleep ↦ rw asleep (
        moved-Inv s s.pool.is_stopped (s.sleeping - 1) (s.woken + 1) s.to_notify s.to_close
          s.to_notify_all v (omega (arith, ltb→lt _ _ asleep)))
    | inr awake ↦ rw awake v
  ]

  finish-Inv :
      (s : System A) (n : ℕ)
      → Inv worker_count queue_capacity s
      → Inv worker_count queue_capacity (finish s n)
  unfolding finish
  finish-Inv s n v = elim (Option-cases (remove_at n s.running)) [
    | inl none_there ↦ rw none_there v
    | inr ((task, rest), there) ↦ rw there (record {
      in_order = v.in_order;
      none_lost = subst (Perm s.started) (sym (append_assoc s.finished (task ∷ []) rest)) (
          Perm.trans v.none_lost
            (Perm.append (Perm.refl s.finished) (remove_at-perm n s.running task rest there)));
      workers = omega (arith, v.workers, length-remove_at n s.running task rest there);
      limited = v.limited;
      bounded = v.bounded;
      exits = v.exits;
    })
  ]

  submit-Inv :
      (s : System A) (task : Option A)
      → Inv worker_count queue_capacity s
      → Inv worker_count queue_capacity (submit s task)
  unfolding submit try_submit to_submit_status
  submit-Inv s none v = v
  submit-Inv s (some task) v = elim (try_push-cases s.pool.tasks task) [
    | inl (open_now, room, e) ↦ rw e (record {
      in_order =
          ap (λ xs. xs ++ task ∷ []) v.in_order ∙ append_assoc s.started (queued s) (task ∷ []);
      none_lost = v.none_lost;
      workers = v.workers;
      limited = v.limited;
      bounded = omega (arith, v.limited, length-append (queued s) (task ∷ []));
      exits = elim v.exits [ inl h ↦ inl h | inr (shut, _) ↦ cc ];
    })
    | inr (inl (_, e)) ↦ rw e v
    | inr (inr (_, _, e)) ↦ rw e v
  ]

  stop-Inv :
      (s : System A) → Inv worker_count queue_capacity s → Inv worker_count queue_capacity (stop s)
  unfolding stop exchange_stopped
  stop-Inv s v = elim (Bool-cases s.pool.is_stopped) [
    | inl already ↦
        rw already
          (moved-Inv s true s.sleeping s.woken s.to_notify s.to_close s.to_notify_all v refl)
    | inr running ↦
        rw running
          (moved-Inv s true s.sleeping s.woken s.to_notify (s.to_close + 1) s.to_notify_all v refl)
  ]

  close-Inv :
      (s : System A) → Inv worker_count queue_capacity s → Inv worker_count queue_capacity (close s)
  unfolding close close_tasks BoundedQueue.close
  close-Inv s v = elim (Bool-cases (ltb 0 s.to_close)) [
    | inl owed ↦ rw owed (record {
      in_order = v.in_order;
      none_lost = v.none_lost;
      workers = v.workers;
      limited = v.limited;
      bounded = v.bounded;
      exits = elim v.exits [ inl h ↦ inl h | inr (_, h) ↦ inr (refl, h) ];
    })
    | inr none_owed ↦ rw none_owed v
  ]

  pub step-Inv :
      (s : System A) (m : Move A)
      → Inv worker_count queue_capacity s
      → Inv worker_count queue_capacity (step s m)
  unfolding step
  step-Inv s (submits task) v = submit-Inv s task v
  step-Inv s tests v = test-Inv worker_count queue_capacity s v
  step-Inv s tests_again v = test_again-Inv worker_count queue_capacity s v
  step-Inv s notifies_one v = notify_one-Inv s v
  step-Inv s notifies_all v = notify_all-Inv s v
  step-Inv s wakes_spuriously v = wake_spuriously-Inv s v
  step-Inv s (finishes n) v = finish-Inv s n v
  step-Inv s stops v = stop-Inv s v
  step-Inv s closes v = close-Inv s v

  pub run-Inv :
      (s : System A) (ms : List (Move A))
      → Inv worker_count queue_capacity s
      → Inv worker_count queue_capacity (run s ms)
  unfolding run
  run-Inv s [] v = v
  run-Inv s (m ∷ ms) v = run-Inv (step s m) ms (step-Inv s m v)

  pub start-Inv :
      (p : ThreadPool A)
      → construct A worker_count queue_capacity ≡ made p
      → Inv worker_count queue_capacity (start p)
  unfolding start construct BoundedQueue.make
  start-Inv p e = record {
    in_order = ground arith;
    none_lost = Perm.refl [];
    workers = ground arith;
    limited = ground arith;
    bounded = ground arith;
    exits = inl refl;
  }
