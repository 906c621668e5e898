-- ===== src/Server/Wiring/Submit.antt =====
-- The frames of one read become tasks in the pool's queue, in order.
use net_pulse.Base.{
  ℕ, ℤ, ◌+◌, ◌≤◌, ◌≡◌, ◌≢◌, ◌⊎◌, inl, inr, refl, sym, ap, ◌∙◌, List, [], ◌∷◌, ◌++◌, map, Bool, true,
  false, nonneg, length, arith, append_assoc, append-nil, length-append, ne→not-==,
}
use net_pulse.Os.Sockets.{Sockets}
use net_pulse.Os.Descriptors.{Descriptors}
use net_pulse.Server.Processing.{ProcessingTask}
use net_pulse.Server.Dispatcher.{Dispatcher, valid}
use net_pulse.Server.Dispatcher.Submit.{queues}
use net_pulse.Server.EventLoop.{submit_frame, submit_frames}
use net_pulse.Server.Wiring.{env_of}

-- The task for a frame of the connection `id` at `fd`.
abbrev pub task_of : ℤ → ℕ → List ℕ → ProcessingTask
task_of fd id payload = record { client_fd = fd; connection_id = id; payload = payload }

abbrev pub with_queue : Dispatcher → List ProcessingTask → Dispatcher
with_queue d queue = record d {
  pool = record (d.pool) { tasks = record (d.pool.tasks) { queue = queue } };
}

-- The dispatcher with more tasks at the end of the pool's queue.
abbrev pub with_tasks : Dispatcher → List ProcessingTask → Dispatcher
with_tasks d tasks = with_queue d (d.pool.tasks.queue ++ tasks)

abbrev pub none_left : List (List ℕ) → Bool
none_left [] = true
none_left (_ ∷ _) = false

module _ {K : Type 0} (sockets : Sockets K) (os : Descriptors K) (fuel : ℕ) (notifier_fd : ℤ) where
  -- The frames `sent` have been queued, and `later` are those from the first that was refused.
  record Queued (k : K) (d : Dispatcher) (fd : ℤ) (id : ℕ) (frames : List (List ℕ)) : Type 0 where
    sent : List (List ℕ)
    later : List (List ℕ)
    split : frames ≡ sent ++ later
    out :
        submit_frames (env_of sockets os fuel notifier_fd) (d, k) fd id frames
        ≡ (none_left later, (with_tasks d (map (task_of fd id) sent), k))
    refused :
        (later ≡ [])
        ⊎ (d.pool.tasks.is_closed ≡ true)
        ⊎ (d.pool.tasks.limit ≤ length d.pool.tasks.queue + length sent)

  refuses :
      (k : K) (d : Dispatcher) (fd : ℤ) (id : ℕ) (p : List ℕ) (ps : List (List ℕ))
      → submit_frame (env_of sockets os fuel notifier_fd) (d, k) fd id p ≡ (false, (d, k))
      → (d.pool.tasks.is_closed ≡ true) ⊎ (d.pool.tasks.limit ≤ length d.pool.tasks.queue + 0)
      → Queued k d fd id (p ∷ ps)
  unfolding submit_frames
  refuses k d fd id p ps e why = record {
    sent = [];
    later = p ∷ ps;
    split = refl;
    out = rw e (ap (λ q. (false, (with_queue d q, k))) (sym (append-nil d.pool.tasks.queue)));
    refused = inr why;
  }

  submit_frames-Queued :
      (k : K) (d : Dispatcher) (fd : ℤ) (id : ℕ) (frames : List (List ℕ))
      → nonneg fd ≡ true
      → id ≢ 0
      → valid d ≡ true
      → Queued k d fd id frames
  unfolding submit_frames submit_frame valid
  submit_frames-Queued k d fd id [] n i v = record {
    sent = [];
    later = [];
    split = refl;
    out = ap (λ q. (true, (with_queue d q, k))) (sym (append-nil d.pool.tasks.queue));
    refused = inl refl;
  }
  submit_frames-Queued k d fd id (p ∷ ps) n i v =
      elim (queues d (task_of fd id p) n (ne→not-== id 0 i) v) [
        | inl (o, room, e) ↦
            let d' = with_tasks d (task_of fd id p ∷ []) in
            let ih = submit_frames-Queued k d' fd id ps n i v in
            record {
              sent = p ∷ ih.sent;
              later = ih.later;
              split = ap (◌∷◌ p) ih.split;
              out = rw e (
                  ih.out
                  ∙ ap (λ q. (none_left ih.later, (with_queue d q, k)))
                      (append_assoc d.pool.tasks.queue (task_of fd id p ∷ [])
                        (map (task_of fd id) ih.sent)));
              refused = elim ih.refused [
                | inl h ↦ inl h
                | inr (inl h) ↦ inr (inl h)
                | inr (inr h) ↦
                    inr
                      (inr (omega (arith, length-append d.pool.tasks.queue (task_of fd id p ∷ []))))
              ];
            }
        | inr (inl (c, e)) ↦ refuses k d fd id p ps (rw e refl) (inl c)
        | inr (inr (o, full, e)) ↦ refuses k d fd id p ps (rw e refl) (inr (omega arith))
      ]

  -- While the dispatcher is valid, the descriptor is not negative and the id is not 0: of the frames of
  -- one read, some first ones, `sent`, become tasks at the end of the pool's queue, in order, with the
  -- connection's descriptor and id. The others, `later`, are left out, and the loop over the frames
  -- says `true` if there are none; if there are any, the queue is closed, or what it held and `sent`
  -- fill it. Nothing else of the dispatcher changes, and nothing of the kernel.
  pub submit_frames-queues :
      (k : K) (d : Dispatcher) (fd : ℤ) (id : ℕ) (frames : List (List ℕ))
      → nonneg fd ≡ true
      → id ≢ 0
      → valid d ≡ true
      → (sent : List (List ℕ)) × (later : List (List ℕ)) × (frames ≡ sent ++ later)
        × (submit_frames (env_of sockets os fuel notifier_fd) (d, k) fd id frames
            ≡ (none_left later, (with_tasks d (map (task_of fd id) sent), k)))
        × ((later ≡ [])
            ⊎ (d.pool.tasks.is_closed ≡ true)
            ⊎ (d.pool.tasks.limit ≤ length d.pool.tasks.queue + length sent))
  submit_frames-queues k d fd id frames n i v =
      let q = submit_frames-Queued k d fd id frames n i v in
      (q.sent, q.later, q.split, q.out, q.refused)
