-- ===== src/Network/EventFd/Counter.antt =====
-- `notify` and `consume` against the counter of the eventfd.
use net_pulse.Base.{
  ℕ, ℤ, zero, suc, ◌+◌, ◌≤◌, ◌<◌, ◌≡◌, ◌≢◌, ◌⊎◌, inl, inr, refl, ap, ◌∙◌, arith, true, false,
  Option, none, subst, some, ◌==◌, Bool-cases, ==_iff, ne→not-==,
}
use net_pulse.Os.Errno.{eintr, eagain}
use net_pulse.Os.Sockets.{SysResult, done, failed}
use net_pulse.Os.Descriptors.{Descriptors, EventFdLaws, ReadResult, read_done, read_failed}
use net_pulse.Network.EventFd.{
  EventFd, EventFdOperationResult, EventFdReadResult, notified, consumed, valid, after_write,
  after_read, notify_loop, notify, consume_loop, consume,
}

module _ {W : Type 0} (os : Descriptors W) (laws : EventFdLaws os) where
  open laws use {
    counter, signals, write_done, write_fails, write_full, write_interrupted, read_returns,
    read_fails, read_interrupted,
  }

  -- The value was added, or nothing was.
  abbrev pub Adds : W → ℤ → ℕ → EventFdOperationResult × W → Type 0
  Adds w fd value (r, w') =
      ((r ≡ notified true 0) × (counter w' fd ≡ counter w fd + value))
      ⊎ ((r.success ≡ false)
          × (r.error_number ≢ 0)
          × (r.error_number ≢ eintr)
          × ((r.error_number ≢ eagain) ⊎ (0 < counter w fd))
          × (counter w' fd ≡ counter w fd))

  -- The fuel was too little, or the call has ended.
  abbrev pub NotifyEnds : ℕ → W → ℤ → ℕ → Option (EventFdOperationResult × W) → Type 0
  NotifyEnds fuel w fd value o =
      ((o ≡ none) × (fuel ≤ signals w))
      ⊎ ((out : EventFdOperationResult × W) × (o ≡ some out) × Adds w fd value out)

  full_or_other :
      (w w' : W) (fd : ℤ) (value errno : ℕ)
      → os.write w fd value ≡ (failed errno, w')
      → (errno ≢ eagain) ⊎ (0 < counter w fd)
  full_or_other w w' fd value errno e = elim (Bool-cases (errno == eagain)) [
    | inl full ↦
        inr (write_full w w' fd value (e ∙ ap (λ x. (failed x, w')) ((==_iff errno eagain).0 full)))
    | inr other ↦ inl (λ h. cc ((==_iff errno eagain).1 h))
  ]

  after_write-Ends :
      (fuel : ℕ) (w : W) (fd : ℤ) (value : ℕ)
      → ((w' : W) → NotifyEnds fuel w' fd value (notify_loop os fuel w' fd value))
      → (res : SysResult × W) → os.write w fd value ≡ res
      → NotifyEnds (suc fuel) w fd value (after_write (λ w'. notify_loop os fuel w' fd value) res)
  unfolding after_write
  after_write-Ends fuel w fd value again (done n, w') e =
      let (eight, added, calm) = write_done w w' fd value n e in
      inr (_, rw eight refl, inl (refl, added))
  after_write-Ends fuel w fd value again (failed errno, w') e = elim (Bool-cases (errno == eintr)) [
    | inl interrupted ↦
        let (nonzero, same, calm) = write_fails w w' fd value errno e in
        let isint : errno ≡ eintr = (==_iff errno eintr).0 interrupted in
        let fewer : signals w' < signals w =
          write_interrupted w w' fd value (e ∙ ap (λ x. (failed x, w')) isint) in
        rw interrupted (elim (again w') [
          | inl (eq, few) ↦ inl (eq, omega arith)
          | inr (out, eq, inl (r, c)) ↦ inr (out, eq, inl (r, c ∙ ap (λ k. k + value) same))
          | inr (out, eq, inr (s, nz, ni, f, c)) ↦ inr (
            out,
            eq,
            inr (s, nz, ni, subst (λ k. (out.0.error_number ≢ eagain) ⊎ (0 < k)) same f, c ∙ same),
          )
        ])
    | inr broken ↦
        let (nonzero, same, calm) = write_fails w w' fd value errno e in
        rw broken (
          inr
            (_, refl, inr (refl, nonzero, ground arith, full_or_other w w' fd value errno e, same)))
  ]

  notify_loop-Ends :
      (fuel : ℕ) (w : W) (fd : ℤ) (value : ℕ)
      → NotifyEnds fuel w fd value (notify_loop os fuel w fd value)
  unfolding notify_loop
  notify_loop-Ends zero w fd value = inl (refl, omega arith)
  notify_loop-Ends (suc fuel) w fd value =
      after_write-Ends fuel w fd value (λ w'. notify_loop-Ends fuel w' fd value)
        (os.write w fd value) refl

  -- `notify` of a value other than 0 on a valid eventfd, for any fuel.
  pub notify-Ends :
      (fuel : ℕ) (w : W) (e : EventFd) (value : ℕ)
      → valid e ≡ true
      → value ≢ 0
      → NotifyEnds fuel w e.fd value (notify os fuel w e value)
  unfolding notify valid
  notify-Ends fuel w e value v nonzero =
      rw (v, ne→not-== value 0 nonzero) (notify_loop-Ends fuel w e.fd value)

  -- On a valid eventfd, with a value other than 0 and more fuel than signals that may interrupt a
  -- call, `notify` returns: it succeeds with error 0 and has added the value to the counter, or fails
  -- with an error that is neither 0 nor EINTR and has left the counter as it was, which was not 0
  -- if the error is EAGAIN.
  pub notify-total :
      (fuel : ℕ) (w : W) (e : EventFd) (value : ℕ)
      → valid e ≡ true
      → value ≢ 0
      → signals w < fuel
      → (out : EventFdOperationResult × W) × (notify os fuel w e value ≡ some out)
        × Adds w e.fd value out
  notify-total fuel w e value v nonzero enough = elim (notify-Ends fuel w e value v nonzero) [
    | inl (_, few) ↦ absurd (omega arith)
    | inr ends ↦ ends
  ]

  -- The counter was taken, or nothing was.
  abbrev pub Takes : W → ℤ → EventFdReadResult × W → Type 0
  Takes w fd (r, w') =
      ((r ≡ consumed true (counter w fd) 0) × (0 < counter w fd) × (counter w' fd ≡ 0))
      ⊎ ((r.success ≡ false)
          × (r.value ≡ 0)
          × (r.error_number ≢ 0)
          × (r.error_number ≢ eintr)
          × (counter w' fd ≡ counter w fd))

  abbrev pub ConsumeEnds : ℕ → W → ℤ → Option (EventFdReadResult × W) → Type 0
  ConsumeEnds fuel w fd o =
      ((o ≡ none) × (fuel ≤ signals w))
      ⊎ ((out : EventFdReadResult × W) × (o ≡ some out) × Takes w fd out)

  after_read-Ends :
      (fuel : ℕ) (w : W) (fd : ℤ)
      → ((w' : W) → ConsumeEnds fuel w' fd (consume_loop os fuel w' fd))
      → (res : ReadResult × W) → os.read w fd ≡ res
      → ConsumeEnds (suc fuel) w fd (after_read (λ w'. consume_loop os fuel w' fd) res)
  unfolding after_read
  after_read-Ends fuel w fd again (read_done n value, w') e =
      let (eight, taken, positive, reset, calm) = read_returns w w' fd n value e in
      inr (
        (consumed true value 0, w'),
        rw eight refl,
        inl (ap (λ v. consumed true v 0) taken, omega arith, reset),
      )
  after_read-Ends fuel w fd again (read_failed errno, w') e = elim (Bool-cases (errno == eintr)) [
    | inl interrupted ↦
        let (nonzero, same, calm) = read_fails w w' fd errno e in
        let isint : errno ≡ eintr = (==_iff errno eintr).0 interrupted in
        let fewer : signals w' < signals w =
          read_interrupted w w' fd (e ∙ ap (λ x. (read_failed x, w')) isint) in
        rw interrupted (elim (again w') [
          | inl (eq, few) ↦ inl (eq, omega arith)
          | inr (out, eq, inl (r, p, c)) ↦
              inr (out, eq, inl (r ∙ ap (λ v. consumed true v 0) same, omega arith, c))
          | inr (out, eq, inr (s, v, nz, ni, c)) ↦ inr (out, eq, inr (s, v, nz, ni, c ∙ same))
        ])
    | inr broken ↦
        let (nonzero, same, calm) = read_fails w w' fd errno e in
        rw broken (inr (_, refl, inr (refl, refl, nonzero, ground arith, same)))
  ]

  consume_loop-Ends :
      (fuel : ℕ) (w : W) (fd : ℤ) → ConsumeEnds fuel w fd (consume_loop os fuel w fd)
  unfolding consume_loop
  consume_loop-Ends zero w fd = inl (refl, omega arith)
  consume_loop-Ends (suc fuel) w fd =
      after_read-Ends fuel w fd (λ w'. consume_loop-Ends fuel w' fd) (os.read w fd) refl

  -- `consume` on a valid eventfd, for any fuel.
  pub consume-Ends :
      (fuel : ℕ) (w : W) (e : EventFd)
      → valid e ≡ true
      → ConsumeEnds fuel w e.fd (consume os fuel w e)
  unfolding consume valid
  consume-Ends fuel w e v = rw v (consume_loop-Ends fuel w e.fd)

  -- On a valid eventfd, with more fuel than signals that may interrupt a call, `consume` returns: it
  -- succeeds with the whole counter, which was not 0, and the counter is then 0; or it fails with
  -- value 0 and an error that is neither 0 nor EINTR, and the counter is as it was.
  pub consume-total :
      (fuel : ℕ) (w : W) (e : EventFd)
      → valid e ≡ true
      → signals w < fuel
      → (out : EventFdReadResult × W) × (consume os fuel w e ≡ some out) × Takes w e.fd out
  consume-total fuel w e v enough = elim (consume-Ends fuel w e v) [
    | inl (_, few) ↦ absurd (omega arith)
    | inr ends ↦ ends
  ]
