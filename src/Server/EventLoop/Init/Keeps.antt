-- ===== src/Server/EventLoop/Init/Keeps.antt =====
-- The constructor of the event loop calls `fcntl` and `epoll_ctl`, and nothing else: what they keep, it
-- keeps. With an invalid dispatcher it calls nothing.
use net_pulse.Base.{
  ℕ, ℤ, ◌≡◌, inl, inr, refl, [], true, false, not, ◌||◌, ◌==◌, Option, some, nonneg, bit_and,
  Bool-cases,
}
use net_pulse.Os.Errno.{epollin, o_nonblock}
use net_pulse.Os.Sockets.{SysResult, done, failed}
use net_pulse.Os.Descriptors.{Descriptors, EpollOp, ctl_add}
use net_pulse.Network.Socket
use net_pulse.Network.Socket.{Socket}
use net_pulse.Network.Epoll
use net_pulse.Network.Epoll.{Epoll, EpollOperationResult}
use net_pulse.Network.NonBlocking
use net_pulse.Network.NonBlocking.{NonBlockingResult}
use net_pulse.Server.EventLoop.{EventLoop, Env}
use net_pulse.Server.EventLoop.Handlers

module _ {W : Type 0} (os : Descriptors W) (P : W → Type 0) where
  -- The three calls keep `P`.
  pub record Kept : Type 0 where
    pub getfl : (w : W) (fd : ℤ) → P w → P (os.fcntl_getfl w fd).1
    pub setfl : (w : W) (fd : ℤ) (flags : ℕ) → P w → P (os.fcntl_setfl w fd flags).1
    pub ctl :
        (w : W) (epfd fd : ℤ) (op : EpollOp) (mask : Option ℕ)
        → P w
        → P (os.epoll_ctl w epfd op fd mask).1

  module _ (kept : Kept) where
    ctl_result-keeps : (res : SysResult × W) → P res.1 → P (Epoll.ctl_result res).1
    ctl_result-keeps (done n, w) h = h
    ctl_result-keeps (failed e, w) h = h

    add-keeps : (w : W) (e : Epoll) (fd : ℤ) (events : ℕ) → P w → P (Epoll.add os w e fd events).1
    unfolding Epoll.add Epoll.guarded Epoll.control_epoll
    add-keeps w e fd events h = elim (Bool-cases (not (Epoll.valid e) || not (nonneg fd))) [
      | inl bad ↦ rw bad h
      | inr good ↦ rw good (
          ctl_result-keeps (os.epoll_ctl w e.fd ctl_add fd (some events))
            (kept.ctl w e.fd fd ctl_add (some events) h))
    ]

    after_setfl-keeps : (res : SysResult × W) → P res.1 → P (NonBlocking.after_setfl res).1
    after_setfl-keeps (done n, w) h = h
    after_setfl-keeps (failed e, w) h = h

    after_getfl-keeps :
        (fd : ℤ) (res : SysResult × W) → P res.1 → P (NonBlocking.after_getfl os fd res).1
    after_getfl-keeps fd (failed e, w) h = h
    after_getfl-keeps fd (done flags, w) h =
        elim (Bool-cases (not (bit_and flags o_nonblock == 0))) [
          | inl already ↦ rw already h
          | inr blocking ↦ rw blocking (after_setfl-keeps _ (kept.setfl w fd _ h))
        ]

    set_non_blocking-keeps : (w : W) (fd : ℤ) → P w → P (NonBlocking.set_non_blocking os w fd).1
    unfolding NonBlocking.set_non_blocking
    set_non_blocking-keeps w fd h = after_getfl-keeps fd (os.fcntl_getfl w fd) (kept.getfl w fd h)

module _ {W : Type 0} (env : Env W) where
  open env use {descriptors, dispatch}

  abbrev pub blank : Socket → Epoll → EventLoop
  blank listener epoll = record {
    listener = listener;
    epoll = epoll;
    connections = [];
    next_connection_id = 1;
    error_number = 0;
    initialized = false;
  }

  -- The part of the constructor that calls the system, step by step from the last one.
  abbrev pub watch_notifier : Socket → Epoll → W → EventLoop × W
  watch_notifier listener epoll w2 =
      Handlers.after_add env (blank listener epoll)
        (λ w3. (record (blank listener epoll) { initialized = true }, w3))
        (Epoll.add descriptors w2 epoll dispatch.notification_fd epollin)

  abbrev pub watch_listener : Socket → Epoll → W → EventLoop × W
  watch_listener listener epoll w1 =
      Handlers.after_add env (blank listener epoll) (watch_notifier listener epoll)
        (Epoll.add descriptors w1 epoll listener.fd epollin)

  after_add-keeps :
      (P : W → Type 0) (l : EventLoop) (then_do : W → EventLoop × W)
      (res : EpollOperationResult × W)
      → ((w : W) → P w → P (then_do w).1)
      → P res.1
      → P (Handlers.after_add env l then_do res).1
  after_add-keeps P l then_do (r, w) next h = elim (Bool-cases r.success) [
    | inl success ↦ rw success (next w h)
    | inr failure ↦ rw failure h
  ]

  after_set-keeps :
      (P : W → Type 0) (l : EventLoop) (then_do : W → EventLoop × W) (res : NonBlockingResult × W)
      → ((w : W) → P w → P (then_do w).1)
      → P res.1
      → P (Handlers.after_set env l then_do res).1
  after_set-keeps P l then_do (r, w) next h = elim (Bool-cases r.success) [
    | inl success ↦ rw success (next w h)
    | inr failure ↦ rw failure h
  ]

  watch_notifier-keeps :
      (P : W → Type 0)
      → Kept descriptors P
      → (listener : Socket) (epoll : Epoll) (w : W) → P w
      → P (watch_notifier listener epoll w).1
  watch_notifier-keeps P kept listener epoll w h =
      after_add-keeps P (blank listener epoll)
        (λ w3. (record (blank listener epoll) { initialized = true }, w3))
        (Epoll.add descriptors w epoll dispatch.notification_fd epollin) (λ w3 h3. h3)
        (add-keeps descriptors P kept w epoll dispatch.notification_fd epollin h)

  watch_listener-keeps :
      (P : W → Type 0)
      → Kept descriptors P
      → (listener : Socket) (epoll : Epoll) (w : W) → P w
      → P (watch_listener listener epoll w).1
  watch_listener-keeps P kept listener epoll w h =
      after_add-keeps P (blank listener epoll) (watch_notifier listener epoll)
        (Epoll.add descriptors w epoll listener.fd epollin)
        (watch_notifier-keeps P kept listener epoll)
        (add-keeps descriptors P kept w epoll listener.fd epollin h)

  pub init-keeps :
      (P : W → Type 0)
      → Kept descriptors P
      → (w : W) (listener : Socket) (epoll : Epoll) (errno : ℕ) → P w
      → P (Handlers.init env w listener epoll errno).1
  unfolding Handlers.init
  init-keeps P kept w listener epoll errno h = elim (Bool-cases (Socket.valid listener)) [
    | inr bad ↦ rw bad h
    | inl listening ↦ elim (Bool-cases (Epoll.valid epoll)) [
      | inr bad ↦ rw (listening, bad) h
      | inl polling ↦ elim (Bool-cases (dispatch.dispatcher_valid w)) [
        | inr bad ↦ rw (listening, polling, bad) h
        | inl dispatching ↦
            rw (listening, polling, dispatching)
              (after_set-keeps P (blank listener epoll) (watch_listener listener epoll)
                (NonBlocking.set_non_blocking descriptors w listener.fd)
                (watch_listener-keeps P kept listener epoll)
                (set_non_blocking-keeps descriptors P kept w listener.fd h))
      ]
    ]
  ]

  pub init-not_dispatching :
      (w : W) (listener : Socket) (epoll : Epoll) (errno : ℕ)
      → dispatch.dispatcher_valid w ≡ false
      → (Handlers.init env w listener epoll errno).0.initialized ≡ false
  unfolding Handlers.init
  init-not_dispatching w listener epoll errno bad = elim (Bool-cases (Socket.valid listener)) [
    | inr closed ↦ rw closed refl
    | inl listening ↦ elim (Bool-cases (Epoll.valid epoll)) [
      | inr closed ↦ rw (listening, closed) refl
      | inl polling ↦ rw (listening, polling, bad) refl
    ]
  ]
