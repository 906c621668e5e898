-- ===== src/Concurrency/ThreadPool/Inv.antt =====
-- What holds of the pool whatever the schedule, and a worker that calls or leaves `waitPop`.
use mathlib.Core.List.{Perm}
use mathlib.Core.List.Perm
use net_pulse.Base.{
  ℕ, zero, suc, ◌+◌, ◌-◌, ◌≤◌, ◌<◌, ◌≡◌, ◌⊎◌, inl, inr, sym, ap, subst, ◌∙◌, List, [], ◌∷◌, ◌++◌,
  true, Option, some, ltb, length, arith, append_assoc, length-append, Bool-cases, Option-cases,
  ltb→lt,
}
use net_pulse.Concurrency.BoundedQueue.{BoundedQueue, wait_pop, try_push}
use net_pulse.Concurrency.BoundedQueue
use net_pulse.Concurrency.BoundedQueue.Fifo.{wait_pop-cases}
use net_pulse.Concurrency.ThreadPool.{ThreadPool, construct, made}
use net_pulse.Concurrency.ThreadPool.System.{System, after_test, test, test_again, remove_at}

module _ {A : Type 0} where
  -- The whole queue of tasks.
  abbrev pub queued : System A → List A
  queued s = s.pool.tasks.queue

  pub remove_at-perm :
      (n : ℕ) (xs : List A) (y : A) (ys : List A) → remove_at n xs ≡ some (y, ys) → Perm xs (y ∷ ys)
  unfolding remove_at
  remove_at-perm n [] y ys e = cc
  remove_at-perm zero (x ∷ xs) y ys e = subst (Perm (x ∷ xs)) (ground arith) (Perm.refl (x ∷ xs))
  remove_at-perm (suc n) (x ∷ xs) y ys e = elim (Option-cases (remove_at n xs)) [
    | inl missing ↦ cc (missing)
    | inr ((z, zs), found) ↦
        let same : ◌≡◌ {A = Option (A × List A)} (some (z, x ∷ zs)) (some (y, ys)) =
          rw found at e in
        subst (Perm (x ∷ xs)) (cc)
          (Perm.trans (Perm.cons x (remove_at-perm n xs z zs found)) (Perm.swap z x zs))
  ]

  pub length-remove_at :
      (n : ℕ) (xs : List A) (y : A) (ys : List A)
      → remove_at n xs ≡ some (y, ys)
      → length xs ≡ length ys + 1
  unfolding remove_at
  length-remove_at n [] y ys e = cc
  length-remove_at zero (x ∷ xs) y ys e = ground arith
  length-remove_at (suc n) (x ∷ xs) y ys e = elim (Option-cases (remove_at n xs)) [
    | inl missing ↦ cc (missing)
    | inr ((z, zs), found) ↦
        let same : ◌≡◌ {A = Option (A × List A)} (some (z, x ∷ zs)) (some (y, ys)) =
          rw found at e in
        let tail : x ∷ zs ≡ ys = cc in
        omega (arith, length-remove_at n xs z zs found, ap length tail)
  ]

pub construct-pos : {A : Type 0} (n c : ℕ) (p : ThreadPool A) → construct A n c ≡ made p → 0 < n
unfolding construct BoundedQueue.make
construct-pos n c p e = ground arith

module _ {A : Type 0} (worker_count queue_capacity : ℕ) where
  pub record Inv (s : System A) : Type 0 where
    -- accepted tasks are taken in order, each once
    pub in_order : s.accepted ≡ s.started ++ queued s
    -- a task that was taken has ended or is running
    pub none_lost : Perm s.started (s.finished ++ s.running)
    -- no worker is lost
    pub workers : s.ready + s.sleeping + s.woken + s.exited + length s.running ≡ worker_count
    pub limited : s.pool.tasks.limit ≡ queue_capacity
    pub bounded : length (queued s) ≤ queue_capacity
    -- a worker returns only when the queue is closed and empty
    pub exits : (s.exited ≡ 0) ⊎ ((s.pool.tasks.is_closed ≡ true) × (queued s ≡ []))

  after_test-Inv :
      (s : System A) (ready woken : ℕ)
      → Inv s
      → ready + woken + 1 ≡ s.ready + s.woken
      → Inv (after_test (record s { ready = ready; woken = woken }) (wait_pop s.pool.tasks))
  after_test-Inv s ready woken v e = elim (wait_pop-cases s.pool.tasks) [
    | inl (x, rest, q, w) ↦ rw w (record {
      in_order =
          v.in_order ∙ ap (λ xs. s.started ++ xs) q ∙ sym (append_assoc s.started (x ∷ []) rest);
      none_lost =
          subst (Perm (s.started ++ x ∷ [])) (append_assoc s.finished s.running (x ∷ []))
            (Perm.append v.none_lost (Perm.refl (x ∷ [])));
      workers = omega (arith, v.workers, length-append s.running (x ∷ []));
      limited = v.limited;
      bounded = omega (arith, v.bounded, ap length q);
      exits = elim v.exits [ inl h ↦ inl h | inr (_, h) ↦ cc ];
    })
    | inr (inl (q, shut, w)) ↦ rw w (record {
      in_order = v.in_order;
      none_lost = v.none_lost;
      workers = omega (arith, v.workers);
      limited = v.limited;
      bounded = v.bounded;
      exits = inr (shut, q);
    })
    | inr (inr (q, open_now, w)) ↦ rw w (record {
      in_order = v.in_order;
      none_lost = v.none_lost;
      workers = omega (arith, v.workers);
      limited = v.limited;
      bounded = v.bounded;
      exits = v.exits;
    })
  ]

  pub test-Inv : (s : System A) → Inv s → Inv (test s)
  unfolding test
  test-Inv s v = elim (Bool-cases (ltb 0 s.ready)) [
    | inl some_ready ↦
        rw some_ready
          (after_test-Inv s (s.ready - 1) s.woken v (omega (arith, ltb→lt _ _ some_ready)))
    | inr none_ready ↦ rw none_ready v
  ]

  pub test_again-Inv : (s : System A) → Inv s → Inv (test_again s)
  unfolding test_again
  test_again-Inv s v = elim (Bool-cases (ltb 0 s.woken)) [
    | inl some_woken ↦
        rw some_woken
          (after_test-Inv s s.ready (s.woken - 1) v (omega (arith, ltb→lt _ _ some_woken)))
    | inr none_woken ↦ rw none_woken v
  ]
