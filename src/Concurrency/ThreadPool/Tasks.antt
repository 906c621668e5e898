-- ===== src/Concurrency/ThreadPool/Tasks.antt =====
-- Tasks: each one accepted is taken once, in order, and none is lost, whatever the schedule.
use mathlib.Core.List.{Perm}
use net_pulse.Base.{
  ℕ, ◌+◌, ◌≤◌, ◌<◌, ◌≡◌, ◌⊎◌, inl, inr, sym, ap, subst, ◌∙◌, List, [], ◌++◌, true, length, arith,
  append-nil, empty-of_zero,
}
use net_pulse.Concurrency.ThreadPool.{ThreadPool, construct, made}
use net_pulse.Concurrency.ThreadPool.System.{Move, start, run}
use net_pulse.Concurrency.ThreadPool.Inv.{queued, construct-pos}
use net_pulse.Concurrency.ThreadPool.Steps.{run-Inv, start-Inv}

module _ {A : Type 0} (worker_count queue_capacity : ℕ) where
  -- A pool that has been constructed, after any interleaving of the steps of its workers and callers:
  -- the accepted tasks, in order, are those that workers have taken, in order, and then those in
  -- the queue, of which there are at most `queue_capacity`; the tasks taken are, up to order,
  -- those that have ended and those that are running; and each of the `worker_count` workers is
  -- about to wait, asleep, woken, running one task or has returned.
  pub run-construct-tasks :
      (p : ThreadPool A) (ms : List (Move A))
      → construct A worker_count queue_capacity ≡ made p
      → let s = run (start p) ms in
        (s.accepted ≡ s.started ++ queued s)
        × Perm s.started (s.finished ++ s.running)
        × (length (queued s) ≤ queue_capacity)
        × (s.ready + s.sleeping + s.woken + s.exited + length s.running ≡ worker_count)
  run-construct-tasks p ms e =
      let v =
        run-Inv worker_count queue_capacity (start p) ms
          (start-Inv worker_count queue_capacity p e) in
      (v.in_order, v.none_lost, v.bounded, v.workers)

  -- When every worker has returned, which is what `stop` waits for, each task that was accepted has
  -- ended, exactly once; and the queue is closed.
  pub run-construct-all_ended :
      (p : ThreadPool A) (ms : List (Move A))
      → construct A worker_count queue_capacity ≡ made p
      → (run (start p) ms).exited ≡ worker_count
      → let s = run (start p) ms in
        Perm s.accepted s.finished
        × (s.pool.tasks.is_closed ≡ true)
        × (queued s ≡ [])
        × (s.running ≡ [])
  run-construct-all_ended p ms e all =
      let s = run (start p) ms in
      let v =
        run-Inv worker_count queue_capacity (start p) ms
          (start-Inv worker_count queue_capacity p e) in
      let idle : s.running ≡ [] = empty-of_zero s.running (omega (arith, v.workers)) in
      let some_exited : 0 < s.exited =
        omega (arith, construct-pos worker_count queue_capacity p e) in
      let (shut, none_queued) = closed_of_exits v.exits some_exited in
      (
        subst (λ xs. Perm xs s.finished)
            (sym (v.in_order ∙ ap (λ xs. s.started ++ xs) none_queued ∙ append-nil s.started))
            (subst (Perm s.started) (ap (λ xs. s.finished ++ xs) idle ∙ append-nil s.finished)
              v.none_lost),
        shut,
        none_queued,
        idle,
      )
    where
      closed_of_exits : {n : ℕ} {P : Type 0} → (n ≡ 0) ⊎ P → 0 < n → P
      closed_of_exits (inl z) h = absurd (omega arith)
      closed_of_exits (inr q) h = q
