-- ===== src/Concurrency/BoundedQueue/Fifo.antt =====
-- A bounded queue against first-in-first-out lists, for any sequence of calls.
use net_pulse.Base.{
  ℕ, ◌≤◌, ◌<◌, ◌≡◌, ◌≢◌, ◌⊎◌, inl, inr, refl, sym, ap, ◌∙◌, List, [], ◌∷◌, ◌++◌, true, false,
  Option, none, some, length, arith, append_assoc, length-append,
}
use net_pulse.Concurrency.BoundedQueue.{
  BoundedQueue, QueuePushStatus, success, full, closed, make, try_push, wait_pop, close, pop_front,
}

-- The calls that change a queue.
pub data Call (A : Type 0) : Type 0 where
  push : A → Call A
  pop : Call A
  shut : Call A

-- The queue with the values that it has taken in and given out, oldest first.
pub record History (A : Type 0) : Type 0 where
  pub now : BoundedQueue A
  pub pushed : List A
  pub popped : List A

module _ {A : Type 0} where
  abbrev pub IsValid : BoundedQueue A → Type 0
  IsValid q = (0 < q.limit) × (length q.queue ≤ q.limit)

  -- `tryPush` on an open queue with room returns `Success` and puts the value behind the others; on a
  -- closed queue it returns `Closed`, and on an open one that is full `Full`, and neither changes the
  -- queue.
  pub try_push-cases :
      (q : BoundedQueue A) (x : A)
      → ((q.is_closed ≡ false)
          × (length q.queue < q.limit)
          × (try_push q x ≡ (success, record q { queue = q.queue ++ x ∷ [] })))
        ⊎ ((q.is_closed ≡ true) × (try_push q x ≡ (closed, q)))
        ⊎ ((q.is_closed ≡ false) × (q.limit ≤ length q.queue) × (try_push q x ≡ (full, q)))
  unfolding try_push
  try_push-cases q x = ground arith

  -- `waitPop` gives the oldest value, or finds the queue closed and empty, or waits.
  pub wait_pop-cases :
      (q : BoundedQueue A)
      → ((x : A) × (rest : List A) × (q.queue ≡ x ∷ rest)
          × (wait_pop q ≡ some (some x, record q { queue = rest })))
        ⊎ ((q.queue ≡ []) × (q.is_closed ≡ true) × (wait_pop q ≡ some (none, q)))
        ⊎ ((q.queue ≡ []) × (q.is_closed ≡ false) × (wait_pop q ≡ none))
  unfolding wait_pop
  wait_pop-cases q = by_queue q.queue refl
    where
      by_queue :
          (xs : List A)
          → q.queue ≡ xs
          → ((x : A) × (rest : List A) × (q.queue ≡ x ∷ rest)
              × (pop_front q q.queue ≡ some (some x, record q { queue = rest })))
            ⊎ ((q.queue ≡ []) × (q.is_closed ≡ true) × (pop_front q q.queue ≡ some (none, q)))
            ⊎ ((q.queue ≡ []) × (q.is_closed ≡ false) × (pop_front q q.queue ≡ none))
      by_queue [] e = inr (ground arith)
      by_queue (x ∷ rest) e = inl (x, rest, e, ap (pop_front q) e)

  abbrev pub after_push : History A → A → QueuePushStatus × BoundedQueue A → History A
  after_push h x (success, q) = record h { now = q; pushed = h.pushed ++ x ∷ [] }
  after_push h x (full, q) = record h { now = q }
  after_push h x (closed, q) = record h { now = q }

  -- A wait leaves all as it is.
  abbrev pub after_pop : History A → Option (Option A × BoundedQueue A) → History A
  after_pop h none = h
  after_pop h (some (none, q)) = record h { now = q }
  after_pop h (some (some x, q)) = record h { now = q; popped = h.popped ++ x ∷ [] }

  unfoldable pub call : History A → Call A → History A
  call h (push x) = after_push h x (try_push h.now x)
  call h pop = after_pop h (wait_pop h.now)
  call h shut = record h { now = close h.now }

  unfoldable pub run : History A → List (Call A) → History A
  run h [] = h
  run h (c ∷ cs) = run (call h c) cs

  pub record IsFifo (n : ℕ) (h : History A) : Type 0 where
    pub same_limit : h.now.limit ≡ n
    pub in_order : h.pushed ≡ h.popped ++ h.now.queue
    pub valid : IsValid h.now

  call-IsFifo : (n : ℕ) (h : History A) (c : Call A) → IsFifo n h → IsFifo n (call h c)
  unfolding call close
  call-IsFifo n h (push x) f = elim (try_push-cases h.now x) [
    | inl (_, room, e) ↦ rw e (record {
      same_limit = f.same_limit;
      in_order = ap (λ xs. xs ++ x ∷ []) f.in_order ∙ append_assoc h.popped h.now.queue (x ∷ []);
      valid = (f.valid.0, omega (arith, length-append h.now.queue (x ∷ [])));
    })
    | inr (inl (_, e)) ↦
        rw e (record { same_limit = f.same_limit; in_order = f.in_order; valid = f.valid })
    | inr (inr (_, _, e)) ↦
        rw e (record { same_limit = f.same_limit; in_order = f.in_order; valid = f.valid })
  ]
  call-IsFifo n h pop f = elim (wait_pop-cases h.now) [
    | inl (x, rest, q, e) ↦ rw e (record {
      same_limit = f.same_limit;
      in_order =
          f.in_order ∙ ap (λ xs. h.popped ++ xs) q ∙ sym (append_assoc h.popped (x ∷ []) rest);
      valid = (f.valid.0, omega (arith, f.valid.1, ap length q));
    })
    | inr (inl (_, _, e)) ↦
        rw e (record { same_limit = f.same_limit; in_order = f.in_order; valid = f.valid })
    | inr (inr (_, _, e)) ↦ rw e f
  ]
  call-IsFifo n h shut f = record {
    same_limit = f.same_limit;
    in_order = f.in_order;
    valid = f.valid;
  }

  pub run-IsFifo : (n : ℕ) (h : History A) (cs : List (Call A)) → IsFifo n h → IsFifo n (run h cs)
  unfolding run
  run-IsFifo n h [] f = f
  run-IsFifo n h (c ∷ cs) f = run-IsFifo n (call h c) cs (call-IsFifo n h c f)

  -- A queue that has been constructed for `limit` values: its limit is not 0, and after any sequence
  -- of calls of `tryPush`, `waitPop` and `close` the values taken in, in order, are the
  -- values given out, in order, and then those that the queue holds, of which there are at most
  -- `limit`.
  pub run-make-fifo :
      (limit : ℕ) (q : BoundedQueue A) (cs : List (Call A))
      → make A limit ≡ some q
      → let h = run (record { now = q; pushed = []; popped = [] }) cs in
        (limit ≢ 0) × (h.pushed ≡ h.popped ++ h.now.queue) × (length h.now.queue ≤ limit)
  unfolding make
  run-make-fifo limit q cs e =
      let f =
        run-IsFifo limit (record { now = q; pushed = []; popped = [] }) cs
          (record { same_limit = ground arith; in_order = ground arith; valid = ground arith }) in
      (ground arith, f.in_order, omega (arith, f.valid, f.same_limit))

  call-closed :
      (h : History A) (c : Call A)
      → h.now.is_closed ≡ true
      → ((call h c).now.is_closed ≡ true) × ((call h c).pushed ≡ h.pushed)
  unfolding call close
  call-closed h (push x) shut_now = elim (try_push-cases h.now x) [
    | inl (open_now, _, e) ↦ cc
    | inr (inl (_, e)) ↦ rw e (shut_now, refl)
    | inr (inr (_, _, e)) ↦ rw e (shut_now, refl)
  ]
  call-closed h pop shut_now = elim (wait_pop-cases h.now) [
    | inl (x, rest, q, e) ↦ rw e (shut_now, refl)
    | inr (inl (_, _, e)) ↦ rw e (shut_now, refl)
    | inr (inr (_, _, e)) ↦ rw e (shut_now, refl)
  ]
  call-closed h shut shut_now = (refl, refl)

  -- A closed queue stays closed and takes nothing in, whatever is called.
  pub run-closed :
      (h : History A) (cs : List (Call A))
      → h.now.is_closed ≡ true
      → ((run h cs).now.is_closed ≡ true) × ((run h cs).pushed ≡ h.pushed)
  unfolding run
  run-closed h [] e = (e, refl)
  run-closed h (c ∷ cs) e =
      let (e', same) = call-closed h c e in
      let (e'', same') = run-closed (call h c) cs e' in (e'', same' ∙ same)
