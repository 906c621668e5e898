-- ===== src/Tests/Starting.antt =====
-- The server over a kernel in which every call of its start succeeds.
use net_pulse.Base.{
  ℕ, ℤ, pos, negsuc, suc, ◌<◌, ◌≤◌, ◌≡◌, ◌≢◌, ◌⊎◌, refl, sym, ap, ◌∙◌, List, [], ◌∷◌, ◌++◌, Option,
  none, some, arith, ◌==ℤ◌, ==ℤ_refl, subst, if◌then◌else◌, leb,
}
use net_pulse.Os.Errno.{eagain, eintr, emfile}
use net_pulse.Os.Sockets.{Sockets, SysResult, done, failed, recv_failed}
use net_pulse.Os.Descriptors.{
  Descriptors, EpollLaws, ErrnoLaws, EpollOp, ctl_add, ctl_mod, ctl_del, wait_failed, read_failed,
}
use net_pulse.Os.Startup.{Startup, TableLaws, MemberLaws, ListenLaws, Address}
use net_pulse.Network.Socket
use net_pulse.Network.Socket.{Socket}
use net_pulse.Server.Dispatcher.{Dispatcher}
use net_pulse.Server.EventLoop.{EventLoop}
use net_pulse.Server.Wiring.Create.{Created, create}
use net_pulse.Server.Wiring.Start.{Begins, create-Begins}
use net_pulse.Apps.Server.{main}
use net_pulse.Apps.Server.Starts.{Refuses, Runs, main-Starts}
use net_pulse.Tests.Interest.{Masks, set_mask, set_mask-same, set_mask-others}

record Kernel : Type 0 where
  held : List ℤ
  masks : Masks
  addresses : ℤ → Option Address
  backlogs : ℤ → Option ℕ

-- The lowest number above those of a table.
abbrev larger : ℕ → ℕ → ℕ
larger a b = if leb a b then b else a

abbrev above_one : ℤ → ℕ → ℕ
above_one (pos n) rest = larger (suc n) rest
above_one (negsuc n) rest = rest

above : List ℤ → ℕ
above [] = 0
above (fd ∷ rest) = above_one fd (above rest)

above_one-above : (fd : ℤ) (rest : ℕ) → rest ≤ above_one fd rest
above_one-above (pos n) rest = ground arith
above_one-above (negsuc n) rest = omega arith

above_one-more : (n rest : ℕ) → n < above_one (pos n) rest
above_one-more n rest = ground arith

above-in : (front : List ℤ) (n : ℕ) (rest : List ℤ) → n < above (front ++ pos n ∷ rest)
unfolding above
above-in [] n rest = above_one-more n (above rest)
above-in (fd ∷ front) n rest =
    omega (arith, above-in front n rest, above_one-above fd (above (front ++ pos n ∷ rest)))

fresh :
    (held : List ℤ) (b : ℤ) (front rest : List ℤ) → held ≡ front ++ b ∷ rest → b ≢ pos (above held)
fresh held (pos n) front rest e same =
    let less : n < above held = omega (arith, above-in front n rest, ap above e) in
    ground (arith, less, same)
fresh held (negsuc n) front rest e same = cc

abbrev opens : Kernel → SysResult × Kernel
opens w = (done (above w.held), record w { held = pos (above w.held) ∷ w.held })

abbrev number : SysResult → ℕ
number (done n) = n
number (failed e) = e

opens-number : (w w' : Kernel) (n : ℕ) → opens w ≡ (done n, w') → above w.held ≡ n
opens-number w w' n e = ap (λ x. number x.0) e

opens-held : (w w' : Kernel) (n : ℕ) → opens w ≡ (done n, w') → w'.held ≡ pos n ∷ w.held
opens-held w w' n e = ap (λ x. x.1.held) (sym e) ∙ ap (λ m. pos m ∷ w.held) (opens-number w w' n e)

abbrev put {ℓ} : {A : Type ℓ} → (ℤ → A) → ℤ → A → ℤ → A
put f fd a b = if b ==ℤ fd then a else f b

put-same {ℓ} : {A : Type ℓ} (f : ℤ → A) (fd : ℤ) (a : A) → put f fd a fd ≡ a
put-same f fd a = rw (==ℤ_refl fd) refl

abbrev remove_first : ℤ → List ℤ → List ℤ
remove_first fd [] = []
remove_first fd (a ∷ rest) =
    let others = remove_first fd rest in if a ==ℤ fd then rest else a ∷ others

closes : (w : Kernel) (fd : ℤ) (rest : List ℤ) → w.held ≡ fd ∷ rest → remove_first fd w.held ≡ rest
closes w fd rest e = rw (e, ==ℤ_refl fd) refl

abbrev startup : Startup Kernel
startup = record {
  socket = λ w domain kind protocol. opens w;
  setsockopt = λ w fd level option value. (done 0, w);
  bind = λ w fd a. (done 0, record w { addresses = put w.addresses fd (some a) });
  listen = λ w fd size. (done 0, record w { backlogs = put w.backlogs fd (some size) });
  connect = λ w fd a. (done 0, w);
  epoll_create1 = λ w flags. opens w;
  errno = λ w. emfile;
  inet_pton = λ family text. none;
}

abbrev descriptors : Descriptors Kernel
descriptors = record {
  close = λ w fd. record w { held = remove_first fd w.held };
  accept4 = λ w fd. (failed eagain, w);
  fcntl_getfl = λ w fd. (done 0, w);
  fcntl_setfl = λ w fd flags. (done 0, w);
  epoll_ctl = λ w epfd op fd mask. (done 0, record w { masks = set_mask w.masks epfd fd mask });
  epoll_wait = λ w epfd size timeout. (wait_failed eintr, w);
  eventfd = λ w n. opens w;
  write = λ w fd value. (failed eagain, w);
  read = λ w fd. (read_failed eagain, w);
}

abbrev sockets : Sockets Kernel
sockets = record {
  send = λ w fd bytes. (failed eagain, w);
  recv = λ w fd size. (recv_failed eagain, w);
}

abbrev table : TableLaws startup descriptors.close
table = record {
  held = λ w. w.held;
  socket_done = λ w w' domain kind protocol n e. opens-held w w' n e;
  socket_fails = λ w w' domain kind protocol n e. cc;
  setsockopt_keeps = λ w fd level option value. refl;
  bind_keeps = λ w fd a. refl;
  listen_keeps = λ w fd backlog. refl;
  connect_keeps = λ w fd a. refl;
  close_closes = closes;
}

errno_laws : ErrnoLaws descriptors
errno_laws = record {
  ctl_fails = λ w w' epfd fd op mask e h. cc;
  getfl_fails = λ w w' fd e h. cc;
  setfl_fails = λ w w' fd flags e h. cc;
}

epoll_ctl-sets :
    (w w' : Kernel) (epfd fd : ℤ) (op : EpollOp) (mask : Option ℕ) (n : ℕ)
    → descriptors.epoll_ctl w epfd op fd mask ≡ (done n, w')
    → w'.masks epfd fd ≡ mask
epoll_ctl-sets w w' epfd fd op mask n e =
    ap (λ x. x.1.masks epfd fd) (sym e) ∙ set_mask-same w.masks epfd fd mask

abbrev epoll_laws : EpollLaws descriptors
epoll_laws = record {
  interest = λ w. w.masks;
  add_done = λ w w' epfd fd mask n e. epoll_ctl-sets w w' epfd fd ctl_add (some mask) n e;
  mod_done = λ w w' epfd fd mask n e. epoll_ctl-sets w w' epfd fd ctl_mod (some mask) n e;
  del_done = λ w w' epfd fd n e. epoll_ctl-sets w w' epfd fd ctl_del none n e;
  add_others = λ w w' epfd fd b mask n other e.
      ap (λ x. x.1.masks epfd b) (sym e) ∙ set_mask-others w.masks epfd fd b (some mask) other;
}

abbrev members : MemberLaws startup descriptors table
members = record {
  epoll_done = λ w w' flags n e. opens-held w w' n e;
  epoll_fails = λ w w' flags e h. cc;
  eventfd_done = λ w w' initial n e. opens-held w w' n e;
  eventfd_fresh = λ w w' initial n b front rest e has.
      subst (λ m. b ≢ pos m) (opens-number w w' n e) (fresh w.held b front rest has);
  eventfd_fails = λ w w' initial e h. cc;
  eventfd_errno = λ w initial h. h;
  getfl_keeps = λ w fd. refl;
  setfl_keeps = λ w fd flags. refl;
  ctl_keeps = λ w epfd fd op mask. refl;
}

abbrev listening : ListenLaws startup
listening = record {
  bound = λ w. w.addresses;
  backlog = λ w. w.backlogs;
  bind_done =
      λ w w' fd a n e. ap (λ x. x.1.addresses fd) (sym e) ∙ put-same w.addresses fd (some a);
  listen_done = λ w w' fd size n e. (
    ap (λ x. x.1.backlogs fd) (sym e) ∙ put-same w.backlogs fd (some size),
    ap (λ x. x.1.addresses fd) (sym e),
  );
}

abbrev start : Kernel
start = record {
  held = pos 2 ∷ pos 1 ∷ pos 0 ∷ [];
  masks = λ a b. none;
  addresses = λ fd. none;
  backlogs = λ fd. none;
}

main-Starts_example :
    Refuses startup sockets descriptors
      (λ w. w)
      2
      5
      errno_laws
      epoll_laws
      table
      members
      listening
      start
      (main startup sockets descriptors (λ w. w) 2 5 start)
    ⊎ Runs startup sockets descriptors
        (λ w. w)
        2
        5
        errno_laws
        epoll_laws
        table
        members
        listening
        start
        (main startup sockets descriptors (λ w. w) 2 5 start)
main-Starts_example =
    main-Starts startup sockets descriptors (λ w. w) 2 5 errno_laws epoll_laws table members
      listening start

-- The kernel behind the calls of `socket`, `bind` and `listen`.
abbrev listener : Socket
listener = record { fd = pos 3 }

abbrev listening_kernel : Kernel
listening_kernel = record start { held = pos 3 ∷ start.held }

create-Begins_example :
    (l : EventLoop) × (d : Dispatcher) × (k : Kernel) × (create startup sockets descriptors 5
        listening_kernel listener 4 1024
      ≡ (Created.made l d, k))
    × Begins startup sockets descriptors 5 errno_laws epoll_laws table members listener start.held 4
        1024 l d k
unfolding Socket.valid
create-Begins_example =
    create-Begins startup sockets descriptors 5 errno_laws epoll_laws table members listening_kernel
      listener start.held 4 1024 refl refl (omega arith) (omega arith)
