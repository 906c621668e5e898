-- ===== src/Server/Wiring/Start.antt =====
-- What the construction of an event loop with its members leaves.
use net_pulse.Base.{
  ℕ, ℤ, ◌≡◌, ◌≢◌, ◌⊎◌, inl, inr, refl, sym, ap, ap₂, ◌∙◌, List, [], ◌∷◌, true, false, some,
}
use net_pulse.Os.Errno.{epollin}
use net_pulse.Os.Sockets.{Sockets}
use net_pulse.Os.Descriptors.{Descriptors, EpollLaws, ErrnoLaws}
use net_pulse.Os.Startup.{Startup, TableLaws, MemberLaws}
use net_pulse.Network.Socket
use net_pulse.Network.Socket.{Socket}
use net_pulse.Network.Epoll
use net_pulse.Network.Epoll.{Epoll}
use net_pulse.Network.Ownership.{push}
use net_pulse.Network.EventFd
use net_pulse.Network.EventFd.{EventFd}
use net_pulse.Server.Dispatcher
use net_pulse.Server.Dispatcher.{Dispatcher}
use net_pulse.Server.EventLoop.{EventLoop}
use net_pulse.Server.EventLoop.Handlers
use net_pulse.Server.EventLoop.Serving.{IsServing}
use net_pulse.Server.EventLoop.Init.{init-Starts}
use net_pulse.Server.EventLoop.Init.Keeps.{Kept, init-keeps, init-not_dispatching}
use net_pulse.Server.Wiring.{env_of, descriptors_of}
use net_pulse.Server.Wiring.Create.{Created, create, after_pool}
use net_pulse.Server.Wiring.Parts.{
  not_real, front, push-front, fresh_pool, construct-fresh, init-valid, init-error, init-notifier,
  epoll-made, notifier-made,
}

module _ {K : Type 0} (startup : Startup K) (sockets : Sockets K) (os : Descriptors K) (fuel : ℕ)
    (errno_laws : ErrnoLaws os) (epoll_laws : EpollLaws os) (table : TableLaws startup os.close)
    (members : MemberLaws startup os table) where
  open table use {held}
  open epoll_laws use {interest}

  -- The loop is ready for its first event.
  abbrev pub Watches : ℕ → ℕ → EventLoop → Dispatcher → K → Type 0
  Watches worker_count capacity l d k =
      (l.initialized ≡ true)
      × (interest k l.epoll.fd l.listener.fd ≡ some epollin)
      × (interest k l.epoll.fd d.notifier.fd ≡ some epollin)
      × (Dispatcher.valid d ≡ true)
      × (d.completed ≡ [])
      × (d.pool ≡ fresh_pool worker_count capacity)

  abbrev pub Begins : Socket → List ℤ → ℕ → ℕ → EventLoop → Dispatcher → K → Type 0
  Begins listener base worker_count capacity l d k =
      IsServing l
      × (l.connections ≡ [])
      × (l.listener ≡ listener)
      × (held k ≡ push d.notifier.fd (push l.epoll.fd (listener.fd ∷ base)))
      × (Watches worker_count capacity l d k ⊎ ((l.initialized ≡ false) × (l.error_number ≢ 0)))

  lifted_errno : ErrnoLaws (descriptors_of os)
  lifted_errno = record {
    ctl_fails = λ w w' epfd fd op mask e h.
        errno_laws.ctl_fails w.1 w'.1 epfd fd op mask e (ap (λ x. (x.0, x.1.1)) h);
    getfl_fails = λ w w' fd e h. errno_laws.getfl_fails w.1 w'.1 fd e (ap (λ x. (x.0, x.1.1)) h);
    setfl_fails =
        λ w w' fd flags e h. errno_laws.setfl_fails w.1 w'.1 fd flags e (ap (λ x. (x.0, x.1.1)) h);
  }

  abbrev lifted_epoll : EpollLaws (descriptors_of os)
  lifted_epoll = record {
    interest = λ w. interest w.1;
    add_done = λ w w' epfd fd mask n h.
        epoll_laws.add_done w.1 w'.1 epfd fd mask n (ap (λ x. (x.0, x.1.1)) h);
    mod_done = λ w w' epfd fd mask n h.
        epoll_laws.mod_done w.1 w'.1 epfd fd mask n (ap (λ x. (x.0, x.1.1)) h);
    del_done =
        λ w w' epfd fd n h. epoll_laws.del_done w.1 w'.1 epfd fd n (ap (λ x. (x.0, x.1.1)) h);
    add_others = λ w w' epfd fd b mask n other h.
        epoll_laws.add_others w.1 w'.1 epfd fd b mask n other (ap (λ x. (x.0, x.1.1)) h);
  }

  abbrev Untouched : Dispatcher → K → Dispatcher × K → Type 0
  Untouched d k w = (w.0 ≡ d) × (held w.1 ≡ held k)

  Untouched-Kept : (d : Dispatcher) (k : K) → Kept (descriptors_of os) (Untouched d k)
  Untouched-Kept d k = record {
    getfl = λ w fd h. (h.0, members.getfl_keeps w.1 fd ∙ h.1);
    setfl = λ w fd flags h. (h.0, members.setfl_keeps w.1 fd flags ∙ h.1);
    ctl = λ w epfd fd op mask h. (h.0, members.ctl_keeps w.1 epfd fd op mask ∙ h.1);
  }

  init-Begins :
      (w : K) (listener : Socket) (base : List ℤ) (epoll : Epoll) (n : EventFd)
      (worker_count capacity : ℕ)
      → (Epoll.valid epoll ≡ true) ⊎ (startup.errno w ≢ 0)
      → held w ≡ push n.fd (push epoll.fd (listener.fd ∷ base))
      → listener.fd ≢ n.fd
      → (EventFd.valid n ≡ true) ⊎ ((EventFd.valid n ≡ false) × (n.error_number ≢ 0))
      → let (l, (d, k)) =
          Handlers.init
            (env_of sockets os fuel n.fd)
            (Dispatcher.init n (fresh_pool worker_count capacity), w)
            listener
            epoll
            (startup.errno w) in
        Begins listener base worker_count capacity l d k
  init-Begins w listener base epoll n worker_count capacity epoll_ok has apart n_ok =
      let env = env_of sockets os fuel n.fd in
      let pool = fresh_pool worker_count capacity in
      let d = Dispatcher.init n pool in
      let k = (Handlers.init env (d, w) listener epoll (startup.errno w)).1.1 in
      let (serving, nobody, same_l, same_e, how) =
        init-Starts env lifted_errno lifted_epoll (d, w) listener epoll (startup.errno w) apart
          epoll_ok
          (elim n_ok [
            | inl good ↦ elim (init-valid n pool) [
              | inl (_, ok, _) ↦ inl ok
              | inr (bad, _) ↦ absurd (not_real (sym good ∙ bad))
            ]
            | inr (bad, why) ↦ inr (init-error n pool why bad)
          ]) in
      let (same_d, same_held) =
        init-keeps env (Untouched d w) (Untouched-Kept d w) (d, w) listener epoll (startup.errno w)
          (refl, refl) in
      let same_n = ap (λ x. x.notifier) same_d ∙ init-notifier n pool in
      (
        serving,
        nobody,
        same_l,
        same_held
            ∙ has
            ∙ sym (ap₂ (λ x y. push x.fd (push y.fd (listener.fd ∷ base))) same_n same_e),
        elim how [
          | inr declined ↦ inr declined
          | inl (ready, _, listening, notified) ↦ elim (init-valid n pool) [
            | inl (_, ok, made) ↦ inl (
              ready,
              ap₂ (λ x y. interest k x.fd y.fd) same_e same_l ∙ listening,
              ap₂ (λ x y. interest k x.fd y.fd) same_e same_n ∙ notified,
              ap Dispatcher.valid same_d ∙ ok,
              ap (λ x. x.completed) (same_d ∙ made),
              ap (λ x. x.pool) (same_d ∙ made),
            )
            | inr (_, bad) ↦ absurd (
                not_real (
                  sym ready ∙ init-not_dispatching env (d, w) listener epoll (startup.errno w) bad))
          ]
        ],
      )

  -- Let the listener be valid and the last descriptor that the process has opened, and the two counts
  -- be positive. Then the constructor of the event loop throws nothing. It leaves a loop that is
  -- serving, with no connection and with the given listener, and the process holds, beside what it
  -- held, the descriptors of the epoll and of the notifier as far as these are valid. Either the loop
  -- is initialized: the epoll watches the listener and the notifier for EPOLLIN, and the dispatcher is
  -- valid, has no result, and has a pool of the given workers with an empty queue of the given
  -- capacity. Or it is not initialized, and its error is not 0.
  pub create-Begins :
      (w : K) (listener : Socket) (base : List ℤ) (worker_count capacity : ℕ)
      → Socket.valid listener ≡ true
      → held w ≡ listener.fd ∷ base
      → worker_count ≢ 0
      → capacity ≢ 0
      → (l : EventLoop) × (d : Dispatcher) × (k : K) × (create startup sockets os fuel w listener
            worker_count capacity
          ≡ (Created.made l d, k))
        × Begins listener base worker_count capacity l d k
  unfolding create Socket.valid
  create-Begins w listener base worker_count capacity real has some_workers room =
      let (epoll, w1) = Epoll.init startup w in
      let (n, w2) = EventFd.init os w1 0 in
      let (epoll_ok, held_epoll) = epoll-made startup os table members w in
      let (held_n, apart, n_ok, errno_kept) =
        notifier-made startup os table members w1 listener.fd (front epoll.fd) base real
          (held_epoll ∙ ap (push epoll.fd) has ∙ push-front epoll.fd (listener.fd ∷ base)) in
      let begins =
        init-Begins w2 listener base epoll n worker_count capacity
          (elim epoll_ok [ inl good ↦ inl good | inr why ↦ inr (errno_kept why) ])
          (held_n ∙ ap (push n.fd) (held_epoll ∙ ap (push epoll.fd) has)) apart n_ok in
      (
        _,
        _,
        _,
        ap (after_pool startup sockets os fuel w2 listener epoll n)
            (construct-fresh worker_count capacity some_workers room),
        begins,
      )
