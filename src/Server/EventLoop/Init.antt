-- ===== src/Server/EventLoop/Init.antt =====
-- The constructor of the event loop: what it sets up, and what it reports when it cannot.
pub mod Cases
pub mod Keeps
use net_pulse.Base.{
  ℕ, ℤ, ◌≡◌, ◌≢◌, ◌⊎◌, inl, inr, refl, sym, ◌∙◌, [], true, false, not, ◌||◌, some, bit_and, bit_or,
  ◌==◌, nonneg, arith, Bool-cases,
}
use net_pulse.Os.Errno.{ebadf, epollin, o_nonblock}
use net_pulse.Os.Sockets.{SysResult, done, failed}
use net_pulse.Os.Descriptors.{Descriptors, EpollLaws, ErrnoLaws, ctl_add}
use net_pulse.Network.Socket
use net_pulse.Network.Socket.{Socket}
use net_pulse.Network.Epoll
use net_pulse.Network.Epoll.{Epoll}
use net_pulse.Network.NonBlocking
use net_pulse.Server.Clients.{ClientState, find}
use net_pulse.Server.EventLoop.{EventLoop, Env}
use net_pulse.Server.EventLoop.Handlers
use net_pulse.Server.EventLoop.Connections.{client}
use net_pulse.Server.EventLoop.Serving.{IsServing}
use net_pulse.Server.EventLoop.Init.Cases.{add-cases, set_non_blocking-cases}
use net_pulse.Server.EventLoop.Init.Keeps.{blank, watch_notifier, watch_listener}

-- A loop with no connection, whose next id is 1.
empty-IsServing : (l : EventLoop) → l.connections ≡ [] → l.next_connection_id ≡ 1 → IsServing l
unfolding find
empty-IsServing l none_yet first = record {
  ids = record {
    keyed = λ fd s e. absurd (nobody fd s e);
    issued = λ fd s e. absurd (nobody fd s e);
    distinct = λ a b s t e f same. absurd (nobody a s e);
    positive = omega arith;
  };
  whole = λ fd s e. absurd (nobody fd s e);
}
  where
    nobody : (fd : ℤ) (s : ClientState) → client l fd ≡ some s → ⊥
    nobody fd s e = cc

module _ {W : Type 0} (env : Env W) (laws : ErrnoLaws env.descriptors)
    (epoll_laws : EpollLaws env.descriptors) where
  open env use {descriptors, dispatch}
  open epoll_laws use {interest}

  -- How the constructor ends.
  abbrev pub Starts : Socket → Epoll → EventLoop × W → Type 0
  Starts listener epoll (l, w') =
      ((l.initialized ≡ true)
        × (l.error_number ≡ 0)
        × (interest w' epoll.fd listener.fd ≡ some epollin)
        × (interest w' epoll.fd dispatch.notification_fd ≡ some epollin))
      ⊎ ((l.initialized ≡ false) × (l.error_number ≢ 0))

  abbrev Ends : Socket → Epoll → EventLoop × W → Type 0
  Ends listener epoll (l, w') =
      IsServing l
      × (l.connections ≡ [])
      × (l.listener ≡ listener)
      × (l.epoll ≡ epoll)
      × Starts listener epoll (l, w')

  fails :
      (w : W) (listener : Socket) (epoll : Epoll) (e : ℕ)
      → e ≢ 0
      → Ends listener epoll (record (blank env listener epoll) { error_number = e }, w)
  fails w listener epoll e h = (
    empty-IsServing (record (blank env listener epoll) { error_number = e }) refl refl,
    refl,
    refl,
    refl,
    inr (refl, h),
  )

  watch_notifier-Ends :
      (w2 : W) (listener : Socket) (epoll : Epoll)
      → listener.fd ≢ dispatch.notification_fd
      → interest w2 epoll.fd listener.fd ≡ some epollin
      → Ends listener epoll (watch_notifier env listener epoll w2)
  watch_notifier-Ends w2 listener epoll apart seen =
      elim (add-cases descriptors laws w2 epoll dispatch.notification_fd epollin) [
        | inl (failure, why) ↦ rw failure (fails _ listener epoll _ why)
        | inr (success, (n, called)) ↦ rw success (
          empty-IsServing (record (blank env listener epoll) { initialized = true }) refl refl,
          refl,
          refl,
          refl,
          inl (
            refl,
            refl,
            epoll_laws.add_others w2 _ epoll.fd dispatch.notification_fd listener.fd epollin n
                  (λ same. apart (sym same)) called
                ∙ seen,
            epoll_laws.add_done w2 _ epoll.fd dispatch.notification_fd epollin n called,
          ),
        )
      ]

  watch_listener-Ends :
      (w1 : W) (listener : Socket) (epoll : Epoll)
      → listener.fd ≢ dispatch.notification_fd
      → Ends listener epoll (watch_listener env listener epoll w1)
  watch_listener-Ends w1 listener epoll apart =
      elim (add-cases descriptors laws w1 epoll listener.fd epollin) [
        | inl (failure, why) ↦ rw failure (fails _ listener epoll _ why)
        | inr (success, (n, called)) ↦ rw success (
            watch_notifier-Ends _ listener epoll apart
              (epoll_laws.add_done w1 _ epoll.fd listener.fd epollin n called))
      ]

  registers :
      (w : W) (listener : Socket) (epoll : Epoll)
      → listener.fd ≢ dispatch.notification_fd
      → Ends listener epoll (
          Handlers.after_set env
            (blank env listener epoll)
            (watch_listener env listener epoll)
            (NonBlocking.set_non_blocking descriptors w listener.fd))
  registers w listener epoll apart = elim (set_non_blocking-cases descriptors laws w listener.fd) [
    | inl (failure, why) ↦ rw failure (fails _ listener epoll _ why)
    | inr success ↦ rw success (watch_listener-Ends _ listener epoll apart)
  ]

  -- Let the listener and the notifier have different descriptors, let a failed construction of the
  -- epoll have set `errno`, and let a dispatcher that is not valid report an error. Then the
  -- constructor leaves a loop that is serving, with no connection, with the given listener and
  -- epoll. Either it is initialized with error 0, and the epoll watches the listener and the notifier
  -- for EPOLLIN; or it is not, and its error is not 0.
  pub init-Starts :
      (w : W) (listener : Socket) (epoll : Epoll) (errno : ℕ)
      → listener.fd ≢ dispatch.notification_fd
      → (Epoll.valid epoll ≡ true) ⊎ (errno ≢ 0)
      → (dispatch.dispatcher_valid w ≡ true) ⊎ (dispatch.dispatcher_error w ≢ 0)
      → let (l, w') = Handlers.init env w listener epoll errno in
        IsServing l
        × (l.connections ≡ [])
        × (l.listener ≡ listener)
        × (l.epoll ≡ epoll)
        × Starts listener epoll (l, w')
  unfolding Handlers.init
  init-Starts w listener epoll errno apart epoll_ok dispatcher_ok =
      elim (Bool-cases (Socket.valid listener)) [
        | inr bad ↦ rw bad (fails w listener epoll ebadf (omega arith))
        | inl listening ↦ elim (Bool-cases (Epoll.valid epoll)) [
          | inr bad ↦
              rw (listening, bad)
                (fails w listener epoll errno (elim epoll_ok [ inl h ↦ cc | inr h ↦ h ]))
          | inl polling ↦ elim (Bool-cases (dispatch.dispatcher_valid w)) [
            | inr bad ↦
                rw (listening, polling, bad)
                  (fails w listener epoll (dispatch.dispatcher_error w)
                    (elim dispatcher_ok [ inl h ↦ cc | inr h ↦ h ]))
            | inl dispatching ↦
                rw (listening, polling, dispatching) (registers w listener epoll apart)
          ]
        ]
      ]
