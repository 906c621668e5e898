-- ===== src/Tests/Interest.antt =====
-- A system that keeps the masks of its epolls and does nothing else, and a connection with bytes to send.
use net_pulse.Base.{
  ◌≢◌, ℕ, ℤ, pos, ◌≡◌, ◌⊎◌, refl, inl, [], ◌∷◌, ◌&&◌, ◌==ℤ◌, ==ℤ_refl, true, Option, none, some,
  if◌then◌else◌, sym, ap, ◌∙◌,
}
use net_pulse.Os.Errno.{eagain, eintr, epollin, epollout, epollrdhup}
use net_pulse.Os.Sockets.{SysResult, done, failed, recv_failed}
use net_pulse.Os.Descriptors.{
  Descriptors, EpollLaws, ErrnoLaws, EpollOp, ctl_add, ctl_mod, ctl_del, wait_failed, read_failed,
}
use net_pulse.Concurrency.ThreadPool.{SubmitStatus}
use net_pulse.Server.Connection.{Connection, wants_write}
use net_pulse.Server.EventLoop.{EventLoop, Env, has_any, update_or_close}
use net_pulse.Server.EventLoop.Connections.{client, Touches, not-==}
use net_pulse.Network.Epoll
use net_pulse.Server.EventLoop.Interest.{update_or_close-watched}
use net_pulse.Server.EventLoop.Handlers.{init}
use net_pulse.Server.EventLoop.Init.{Starts, init-Starts}
use net_pulse.Server.EventLoop.Serving.{IsServing}

abbrev pub Masks : Type 0
Masks = ℤ → ℤ → Option ℕ

abbrev pub set_mask : Masks → ℤ → ℤ → Option ℕ → Masks
set_mask w epfd fd mask a b = if a ==ℤ epfd && b ==ℤ fd then mask else w a b

pub set_mask-same :
    (w : Masks) (epfd fd : ℤ) (mask : Option ℕ) → set_mask w epfd fd mask epfd fd ≡ mask
set_mask-same w epfd fd mask = rw (==ℤ_refl epfd, ==ℤ_refl fd) refl

pub set_mask-others :
    (w : Masks) (epfd fd b : ℤ) (mask : Option ℕ)
    → fd ≢ b
    → set_mask w epfd fd mask epfd b ≡ w epfd b
set_mask-others w epfd fd b mask other = rw (==ℤ_refl epfd, not-== b fd (λ h. other (sym h))) refl

abbrev epoll_ctl : Masks → ℤ → EpollOp → ℤ → Option ℕ → SysResult × Masks
epoll_ctl w epfd op fd mask = (done 0, set_mask w epfd fd mask)

abbrev descriptors : Descriptors Masks
descriptors = record {
  close = λ w fd. w;
  accept4 = λ w fd. (failed eagain, w);
  fcntl_getfl = λ w fd. (done 0, w);
  fcntl_setfl = λ w fd flags. (done 0, w);
  epoll_ctl = epoll_ctl;
  epoll_wait = λ w epfd size timeout. (wait_failed eintr, w);
  eventfd = λ w n. (done 9, w);
  write = λ w fd value. (failed eagain, w);
  read = λ w fd. (read_failed eagain, w);
}

epoll_ctl-sets :
    (w w' : Masks) (epfd fd : ℤ) (op : EpollOp) (mask : Option ℕ) (n : ℕ)
    → epoll_ctl w epfd op fd mask ≡ (done n, w')
    → w' epfd fd ≡ mask
epoll_ctl-sets w w' epfd fd op mask n e =
    ap (λ x. x.1 epfd fd) (sym e) ∙ set_mask-same w epfd fd mask

epoll_ctl-others :
    (w w' : Masks) (epfd fd b : ℤ) (op : EpollOp) (mask : Option ℕ) (n : ℕ)
    → fd ≢ b
    → epoll_ctl w epfd op fd mask ≡ (done n, w')
    → w' epfd b ≡ w epfd b
epoll_ctl-others w w' epfd fd b op mask n other e =
    ap (λ x. x.1 epfd b) (sym e) ∙ set_mask-others w epfd fd b mask other

abbrev errno_laws : ErrnoLaws descriptors
errno_laws = record {
  ctl_fails = λ w w' epfd fd op mask e h. cc;
  getfl_fails = λ w w' fd e h. cc;
  setfl_fails = λ w w' fd flags e h. cc;
}

abbrev epoll_laws : EpollLaws descriptors
epoll_laws = record {
  interest = λ w epfd fd. w epfd fd;
  add_done = λ w w' epfd fd mask n e. epoll_ctl-sets w w' epfd fd ctl_add (some mask) n e;
  mod_done = λ w w' epfd fd mask n e. epoll_ctl-sets w w' epfd fd ctl_mod (some mask) n e;
  add_others = λ w w' epfd fd b mask n other e.
      epoll_ctl-others w w' epfd fd b ctl_add (some mask) n other e;
  del_done = λ w w' epfd fd n e. epoll_ctl-sets w w' epfd fd ctl_del none n e;
}

abbrev env : Env Masks
env = record {
  sockets = record {
    send = λ w fd bytes. (failed eagain, w);
    recv = λ w fd size. (recv_failed eagain, w);
  };
  descriptors = descriptors;
  dispatch = record {
    notification_fd = pos 9;
    dispatcher_valid = λ w. true;
    dispatcher_error = λ w. 0;
    try_submit = λ w task. (SubmitStatus.success, w);
    consume_notifications = λ w. none;
    take_completed = λ w. ([], w);
  };
}

abbrev connection : Connection
connection = record {
  socket = record { fd = pos 5 };
  decoder = record { buffer = []; read_offset = 0 };
  write_buffer = record { buffer = 0 ∷ 0 ∷ 0 ∷ 0 ∷ []; write_offset = 1 };
}

abbrev loop : EventLoop
loop = record {
  listener = record { fd = pos 3 };
  epoll = record { fd = pos 4 };
  connections = (pos 5, record { id = 3; connection = connection }) ∷ [];
  next_connection_id = 4;
  error_number = 0;
  initialized = true;
}

abbrev masks : Masks
masks epfd fd = none

update_or_close-watched_example :
    let (l', w') = update_or_close env masks loop (pos 5) connection in
    ((l' ≡ loop)
      × ((mask : ℕ) × (w' (pos 4) (pos 5) ≡ some mask)
          × (has_any mask epollin ≡ true)
          × (has_any mask epollrdhup ≡ true)
          × (has_any mask epollout ≡ wants_write connection)))
    ⊎ (Touches loop l' (pos 5) × (client l' (pos 5) ≡ none))
update_or_close-watched_example =
    update_or_close-watched env epoll_laws masks loop (pos 5) connection

listener_apart : pos 3 ≢ pos 9
listener_apart = λ h. cc

init-Starts_example :
    let (l, w') = init env masks (record { fd = pos 3 }) (record { fd = pos 4 }) 0 in
    IsServing l
    × (l.connections ≡ [])
    × (l.listener ≡ record { fd = pos 3 })
    × (l.epoll ≡ record { fd = pos 4 })
    × Starts env errno_laws epoll_laws (record { fd = pos 3 }) (record { fd = pos 4 }) (l, w')
unfolding Epoll.valid
init-Starts_example =
    init-Starts env errno_laws epoll_laws masks (record { fd = pos 3 }) (record { fd = pos 4 }) 0
      listener_apart (inl refl) (inl refl)
