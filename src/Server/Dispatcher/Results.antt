-- ===== src/Server/Dispatcher/Results.antt =====
-- Published results: each is taken once, in order, and the event loop is told of those that wait.
use net_pulse.Base.{
  ℕ, ◌<◌, ◌≡◌, ◌≢◌, ◌⊎◌, inl, inr, refl, sym, ap, subst, ◌∙◌, List, [], ◌∷◌, ◌++◌, true, false,
  some, ◌==◌, ltb, if◌then◌else◌, arith, Bool-cases, append_assoc, append-nil,
}
use net_pulse.Os.Descriptors.{Descriptors, EventFdLaws}
use net_pulse.Network.EventFd
use net_pulse.Network.EventFd.{EventFd, EventFdOperationResult, EventFdReadResult}
use net_pulse.Concurrency.ThreadPool.{ThreadPool}
use net_pulse.Network.EventFd.Counter.{Takes, notify-Ends, consume-Ends}
use net_pulse.Server.Processing.{ProcessingTask, ProcessingResult}
use net_pulse.Server.Dispatcher.{Dispatcher, init, keep, take_completed, consume_notifications}
use net_pulse.Server.Dispatcher.Publish.{Told, after_notify-Ends}
use net_pulse.Server.Dispatcher.System.{
  System, Move, keeps, notifies, consumes, takes, start, keep_result, notify, consume, take_results,
  step, run, notified_system, consumed_system,
}

kept_error : (before e after : ℕ) → e ≢ 0 → after ≡ (if before == 0 then e else before) → after ≢ 0
kept_error before e after nonzero k h = ground arith

module _ {W : Type 0} (os : Descriptors W) (laws : EventFdLaws os) where
  open laws use {counter}

  -- Why the event loop will come to take the results that are kept.
  abbrev WillTake : System W → Type 0
  WillTake s =
      (s.dispatcher.completed ≡ [])
      ⊎ (0 < s.to_notify)
      ⊎ (0 < counter s.world s.dispatcher.notifier.fd)
      ⊎ (s.taking ≡ true)
      ⊎ (s.dispatcher.error_number ≢ 0)

  record Inv (s : System W) : Type 0 where
    notifier_valid : EventFd.valid s.dispatcher.notifier ≡ true
    in_order : s.published ≡ s.taken ++ s.dispatcher.completed
    will_take : WillTake s

  keep_result-Inv : (s : System W) (r : ProcessingResult) → Inv s → Inv (keep_result s r)
  unfolding keep_result keep
  keep_result-Inv s r v = record {
    notifier_valid = v.notifier_valid;
    in_order =
        ap (λ xs. xs ++ r ∷ []) v.in_order ∙ append_assoc s.taken s.dispatcher.completed (r ∷ []);
    will_take = inr (inl (omega arith));
  }

  take_results-Inv : (s : System W) → Inv s → Inv (take_results s)
  unfolding take_results take_completed
  take_results-Inv s v = elim (Bool-cases s.taking) [
    | inr e ↦ simp e v
    | inl e ↦ rw e (record {
      notifier_valid = v.notifier_valid;
      in_order = v.in_order ∙ sym (append-nil (s.taken ++ s.dispatcher.completed));
      will_take = inl refl;
    })
  ]

  Told-Inv :
      (s : System W) (d : Dispatcher) (w : W) (r : EventFdOperationResult)
      → d.completed ≡ s.dispatcher.completed
      → d.notifier ≡ s.dispatcher.notifier
      → Inv s
      → Told os laws s.world w s.dispatcher.notifier.fd r s.dispatcher.error_number d.error_number
      → Inv (notified_system s (some (d, w)))
  Told-Inv s d w r kept same v told =
      let at_fd : counter w d.notifier.fd ≡ counter w s.dispatcher.notifier.fd =
        ap (λ k. counter w k.fd) same in
      record {
        notifier_valid = subst (λ k. EventFd.valid k ≡ true) (sym same) v.notifier_valid;
        in_order = v.in_order ∙ ap (λ xs. s.taken ++ xs) (sym kept);
        will_take = elim told [
          | inl (_, up, _) ↦ inr (inr (inl (omega arith)))
          | inr (inl (_, _, still, full, _)) ↦ inr (inr (inl (omega arith)))
          | inr (inr (_, _, nonzero, _, after)) ↦ inr (
              inr (
                inr (
                  inr (λ h. absurd (
                    kept_error s.dispatcher.error_number r.error_number d.error_number nonzero after
                      h)))))
        ];
      }

  consumed-Inv :
      (s : System W) (out : EventFdReadResult × W)
      → s.taking ≡ false
      → Inv s
      → Takes os laws s.world s.dispatcher.notifier.fd out
      → Inv (consumed_system s (some out))
  consumed-Inv s (r, w) e v (inl (won, _, _)) = record {
    notifier_valid = v.notifier_valid;
    in_order = v.in_order;
    will_take = inr (inr (inr (inl (ap (λ k. k.success) won))));
  }
  consumed-Inv s (r, w) e v (inr (lost, _, _, _, still)) = record {
    notifier_valid = v.notifier_valid;
    in_order = v.in_order;
    will_take = elim v.will_take [
      | inl none_kept ↦ inl none_kept
      | inr (inl owed) ↦ inr (inl owed)
      | inr (inr (inl told)) ↦ inr (inr (inl (omega arith)))
      | inr (inr (inr (inl taking))) ↦ cc
      | inr (inr (inr (inr broken))) ↦ inr (inr (inr (inr broken)))
    ];
  }

  notify-Inv : (s : System W) (fuel : ℕ) → Inv s → Inv (notify os s fuel)
  unfolding notify
  notify-Inv s fuel v = elim (Bool-cases (ltb 0 s.to_notify)) [
    | inr e ↦ rw e v
    | inl e ↦
        elim (notify-Ends os laws fuel s.world s.dispatcher.notifier 1 v.notifier_valid
          (omega arith)) [
            | inl (late, _) ↦ rw (e, late) v
            | inr (out, eq, adds) ↦
                let (d, eq', kept, same, _, told) =
                  after_notify-Ends os laws s.world s.dispatcher out.0 out.1 adds in
                rw (e, eq, eq') (Told-Inv s d out.1 out.0 kept same v told)
          ]
  ]

  consume-Inv : (s : System W) (fuel : ℕ) → Inv s → Inv (consume os s fuel)
  unfolding consume consume_notifications
  consume-Inv s fuel v = elim (Bool-cases s.taking) [
    | inl e ↦ simp e v
    | inr e ↦ elim (consume-Ends os laws fuel s.world s.dispatcher.notifier v.notifier_valid) [
      | inl (late, _) ↦ simp (e, late) v
      | inr (out, eq, ends) ↦ rw (e, eq) (consumed-Inv s out e v ends)
    ]
  ]

  step-Inv : (s : System W) (m : Move) → Inv s → Inv (step os s m)
  unfolding step
  step-Inv s (keeps r) v = keep_result-Inv s r v
  step-Inv s (notifies fuel) v = notify-Inv s fuel v
  step-Inv s (consumes fuel) v = consume-Inv s fuel v
  step-Inv s takes v = take_results-Inv s v

  run-Inv : (s : System W) (ms : List Move) → Inv s → Inv (run os s ms)
  unfolding run
  run-Inv s [] v = v
  run-Inv s (m ∷ ms) v = run-Inv (step os s m) ms (step-Inv s m v)

  start-Inv :
      (notifier : EventFd) (pool : ThreadPool ProcessingTask) (w : W)
      → EventFd.valid notifier ≡ true
      → Inv (start (init notifier pool) w)
  unfolding start init
  start-Inv notifier pool w v =
      rw v (record { notifier_valid = v; in_order = refl; will_take = inl refl })

  module _ (notifier : EventFd) (pool : ThreadPool ProcessingTask) (w : W) (ms : List Move) where
    -- What a dispatcher, as it is constructed, comes to by an interleaving.
    abbrev pub reached : System W
    reached = run os (start (init notifier pool) w) ms

    -- A dispatcher constructed with a valid notifier, after any interleaving of workers that publish
    -- results and of the event loop: the results that were published, in order, are those that the
    -- loop has taken, in order, and then those that are completed and wait.
    pub run-init-in_order :
        EventFd.valid notifier ≡ true
        → reached.published ≡ reached.taken ++ reached.dispatcher.completed
    run-init-in_order v =
        (run-Inv (start (init notifier pool) w) ms (start-Inv notifier pool w v)).in_order

    -- After any such interleaving, if every worker has made its call of `notify`, the counter of the
    -- notifier is 0, the event loop is not about to take the results, and the dispatcher has met no
    -- error, then no result waits: every one that was published has been taken.
    pub run-init-none_forgotten :
        EventFd.valid notifier ≡ true
        → reached.to_notify ≡ 0
        → counter reached.world reached.dispatcher.notifier.fd ≡ 0
        → reached.taking ≡ false
        → reached.dispatcher.error_number ≡ 0
        → (reached.dispatcher.completed ≡ []) × (reached.taken ≡ reached.published)
    run-init-none_forgotten v notified read idle sound =
        let i = run-Inv (start (init notifier pool) w) ms (start-Inv notifier pool w v) in
        let none_kept : reached.dispatcher.completed ≡ [] = elim i.will_take [
          | inl h ↦ h
          | inr (inl h) ↦ absurd (omega arith)
          | inr (inr (inl h)) ↦ absurd (omega arith)
          | inr (inr (inr (inl h))) ↦ cc
          | inr (inr (inr (inr h))) ↦ absurd (h sound)
        ] in
        (
          none_kept,
          sym (i.in_order ∙ ap (λ xs. reached.taken ++ xs) none_kept ∙ append-nil reached.taken),
        )
