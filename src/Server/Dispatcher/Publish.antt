-- ===== src/Server/Dispatcher/Publish.antt =====
-- A task that a worker runs: its result is kept, and the event loop is told.
use net_pulse.Base.{
  ℕ, ℤ, ◌+◌, ◌<◌, ◌≡◌, ◌≢◌, ◌⊎◌, inl, inr, refl, ap, ◌∙◌, [], ◌∷◌, ◌++◌, true, false, Option, some,
  ◌==◌, if◌then◌else◌, arith, Bool-cases,
}
use net_pulse.Os.Errno.{eagain}
use net_pulse.Os.Descriptors.{Descriptors, EventFdLaws}
use net_pulse.Network.Io.{blocks}
use net_pulse.Network.EventFd
use net_pulse.Network.EventFd.{EventFd, EventFdOperationResult}
use net_pulse.Network.EventFd.Counter.{Adds, notify-total}
use net_pulse.Server.Processing.{ProcessingTask, ack_response, process_frame}
use net_pulse.Server.Dispatcher.{Dispatcher, after_notify, keep, publish, run_task}

module _ {W : Type 0} (os : Descriptors W) (laws : EventFdLaws os) where
  open laws use {counter, signals}

  -- What the call of `notify` that returned `r` has led to, by what it returned. It succeeded: the counter
  -- has gone up, and the error is as it was. It failed with EAGAIN: the counter is full, which tells the
  -- event loop as well, and the error is as it was. It failed otherwise: its error is kept, unless there
  -- is one already.
  abbrev pub Told : W → W → ℤ → EventFdOperationResult → ℕ → ℕ → Type 0
  Told w w' fd r error_before error_after =
      ((r.success ≡ true) × (counter w' fd ≡ counter w fd + 1) × (error_after ≡ error_before))
      ⊎ ((r.success ≡ false)
          × (r.error_number ≡ eagain)
          × (counter w' fd ≡ counter w fd)
          × (0 < counter w fd)
          × (error_after ≡ error_before))
      ⊎ ((r.success ≡ false)
          × (r.error_number ≢ eagain)
          × (r.error_number ≢ 0)
          × (counter w' fd ≡ counter w fd)
          × (error_after ≡ (if error_before == 0 then r.error_number else error_before)))

  abbrev pub Ends : W → Dispatcher → EventFdOperationResult → W → Option (Dispatcher × W) → Type 0
  Ends w d r w' o =
      (d' : Dispatcher) × (o ≡ some (d', w'))
      × (d'.completed ≡ d.completed)
      × (d'.notifier ≡ d.notifier)
      × (d'.pool ≡ d.pool)
      × Told w w' d.notifier.fd r d.error_number d'.error_number

  pub after_notify-Ends :
      (w : W) (d : Dispatcher) (r : EventFdOperationResult) (w' : W)
      → Adds os laws w d.notifier.fd 1 (r, w')
      → Ends w d r w' (after_notify d (some (r, w')))
  after_notify-Ends w d r w' (inl (e, c)) =
      (d, rw e refl, refl, refl, refl, inl (ap (λ x. x.success) e, c, refl))
  after_notify-Ends w d r w' (inr (fails, nonzero, other, full_or_other, c)) =
      elim (Bool-cases (blocks r.error_number)) [
        | inl full ↦
            let again : r.error_number ≡ eagain = ground arith in
            let was_full : 0 < counter w d.notifier.fd = elim full_or_other [
              | inl h ↦ absurd (h again)
              | inr h ↦ h
            ] in
            (
              d,
              rw (fails, full) refl,
              refl,
              refl,
              refl,
              inr (inl (fails, again, c, was_full, refl)),
            )
        | inr broken ↦
            let not_again : r.error_number ≢ eagain = ground arith in
            elim (Bool-cases (d.error_number == 0)) [
              | inl first ↦ (
                record d { error_number = r.error_number },
                rw (fails, broken, first) refl,
                refl,
                refl,
                refl,
                inr (inr (fails, not_again, nonzero, c, rw first refl)),
              )
              | inr later ↦ (
                d,
                rw (fails, broken, later) refl,
                refl,
                refl,
                refl,
                inr (inr (fails, not_again, nonzero, c, rw later refl)),
              )
            ]
      ]

  -- With a valid notifier and more fuel than signals that may interrupt a call, the task that
  -- `trySubmit` hands to the pool returns when a worker runs it. The completed results are then those
  -- from before and, last, the acknowledgement with the descriptor and the connection id of the
  -- task; notifier and pool are as they were. The call of `notify` has returned `r`, and by `r`: if it
  -- succeeded, the counter of the notifier has gone up by one and the dispatcher's error is as it
  -- was; if it failed with EAGAIN, the counter, which is not 0, and the error are as they were; if it failed
  -- with another error, which is not 0, the counter is as it was, and the error has become the
  -- dispatcher's if that was 0, and else the dispatcher's is as it was.
  pub run_task-total :
      (fuel : ℕ) (w : W) (d : Dispatcher) (task : ProcessingTask)
      → EventFd.valid d.notifier ≡ true
      → signals w < fuel
      → (d' : Dispatcher) × (w' : W) × (r : EventFdOperationResult) × (run_task os fuel w d task
          ≡ some (d', w'))
        × (EventFd.notify os fuel w d.notifier 1 ≡ some (r, w'))
        × (d'.completed
            ≡ d.completed
              ++ record {
                client_fd = task.client_fd;
                connection_id = task.connection_id;
                response = ack_response;
              }
                ∷ [])
        × (d'.notifier ≡ d.notifier)
        × (d'.pool ≡ d.pool)
        × Told w w' d.notifier.fd r d.error_number d'.error_number
  unfolding run_task publish keep process_frame
  run_task-total fuel w d task v enough =
      let d1 = record d { completed = d.completed ++ process_frame task ∷ [] } in
      let (out, eq, adds) = notify-total os laws fuel w d.notifier 1 v (omega arith) enough in
      let (d', eq', c, n, p, told) = after_notify-Ends w d1 out.0 out.1 adds in
      (d', out.1, out.0, ap (after_notify d1) eq ∙ eq', eq, c, n, p, told)
