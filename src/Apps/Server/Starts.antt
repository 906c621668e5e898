-- ===== src/Apps/Server/Starts.antt =====
-- How the server starts: it is refused and leaves nothing behind, or its loop runs.
use net_pulse.Base.{
  ℕ, ℤ, pos, ◌≡◌, ◌⊎◌, inl, inr, refl, sym, ap, ◌∙◌, List, [], ◌∷◌, true, Option, some, arith,
  bit_or,
}
use net_pulse.Os.Sockets.{Sockets, SysResult, done, failed}
use net_pulse.Os.Descriptors.{Descriptors, EpollLaws, ErrnoLaws}
use net_pulse.Os.Startup.{
  Startup, TableLaws, MemberLaws, ListenLaws, af_inet, sock_stream, sock_cloexec, sol_socket,
  so_reuseaddr, Address, htons,
}
use net_pulse.Network.Ownership.{push, closes, eventfd-closes, epoll-closes}
use net_pulse.Network.Socket
use net_pulse.Network.Socket.{Socket}
use net_pulse.Server.Dispatcher
use net_pulse.Server.Dispatcher.{Dispatcher}
use net_pulse.Server.EventLoop.{EventLoop}
use net_pulse.Server.EventLoop.Run.{run}
use net_pulse.Server.Wiring.{env_of, interleaved}
use net_pulse.Server.Wiring.Create
use net_pulse.Server.Wiring.Create.{Created, create}
use net_pulse.Server.Wiring.Start.{Begins, create-Begins}
use net_pulse.Apps.Server
use net_pulse.Apps.Server.{
  Ended, Failure, fails, any_address, listen_backlog, worker_count, task_queue_capacity, main,
}

-- Port 9000, in network order, of the address 0.0.0.0.
abbrev pub all_at_9000 : Address
all_at_9000 = record { sin_family = 2; sin_port = 35 ∷ 40 ∷ []; sin_addr = 0 ∷ 0 ∷ 0 ∷ 0 ∷ [] }

any_address-at_9000 : any_address ≡ all_at_9000
unfolding htons
any_address-at_9000 = refl

module _ {K : Type 0} (startup : Startup K) (sockets : Sockets K) (os : Descriptors K)
    (table : TableLaws startup os.close) (fuel : ℕ) where
  open table use {held}

  destroy-closes :
      (k : K) (l : EventLoop) (d : Dispatcher) (n : ℕ) (base : List ℤ)
      → l.connections ≡ []
      → l.listener ≡ Socket.of_fd (pos n)
      → held k ≡ push d.notifier.fd (push l.epoll.fd (l.listener.fd ∷ base))
      → held (Create.destroy startup sockets os fuel k l d) ≡ base
  unfolding Create.destroy Create.close_clients Dispatcher.stop Socket.of_fd
  destroy-closes k l d n base nobody same has =
      rw (nobody, same)
        (closes table _ n base (
          epoll-closes os table _ l.epoll (pos n ∷ base) (
            eventfd-closes os table k d.notifier (push l.epoll.fd (pos n ∷ base))
              (has ∙ ap (λ s. push d.notifier.fd (push l.epoll.fd (s.fd ∷ base))) same))))

module _ {K : Type 0} (startup : Startup K) (sockets : Sockets K) (os : Descriptors K)
    (workers : Dispatcher × K → Dispatcher × K) (rounds fuel : ℕ) (errno_laws : ErrnoLaws os)
    (epoll_laws : EpollLaws os) (table : TableLaws startup os.close)
    (members : MemberLaws startup os table) (listening : ListenLaws startup) where
  open table use {held}
  open listening use {bound, backlog}

  -- One error is printed, and every descriptor that has been opened is closed.
  abbrev pub Refuses : K → Option (Ended × K) → Type 0
  Refuses w o = (f : Failure) × (w' : K) × (o ≡ some (fails f, w')) × (held w' ≡ held w)

  -- A loop has been made over a listening socket, and the rest of `main` is its `run`.
  abbrev pub Runs : K → Option (Ended × K) → Type 0
  Runs w o =
      (n : ℕ) × (w1 k : K) × (l : EventLoop) × (d : Dispatcher) × (bound w1 (pos n)
        ≡ some all_at_9000)
      × (backlog w1 (pos n) ≡ some 128)
      × (create startup sockets os fuel w1 (Socket.of_fd (pos n)) 4 1024 ≡ (Created.made l d, k))
      × Begins startup sockets os fuel errno_laws epoll_laws table members (Socket.of_fd (pos n))
          (held w) 4 1024 l d k
      × (l.initialized ≡ true)
      × (o
          ≡ Server.after_run startup sockets os workers rounds fuel Socket.empty (
              run (interleaved workers (env_of sockets os fuel d.notifier.fd)) rounds fuel (d, k)
                l))

  abbrev Starts : K → Option (Ended × K) → Type 0
  Starts w o = Refuses w o ⊎ Runs w o

  refuses :
      (w w1 : K) (n : ℕ) (f : Failure)
      → held w1 ≡ pos n ∷ held w
      → Starts w (
          Server.returns startup sockets os workers rounds fuel (Socket.of_fd (pos n)) (fails f) w1)
  refuses w w1 n f has =
      inl
        (f, Socket.destroy os.close w1 (Socket.of_fd (pos n)), refl, closes table w1 n (held w) has)

  after_create-Starts :
      (w w1 : K) (n : ℕ)
      → held w1 ≡ pos n ∷ held w
      → bound w1 (pos n) ≡ some any_address
      → backlog w1 (pos n) ≡ some listen_backlog
      → Starts w (
          Server.after_create startup sockets os workers rounds fuel Socket.empty (
            create startup sockets os fuel w1
              (Socket.of_fd (pos n))
              worker_count
              task_queue_capacity))
  unfolding Socket.empty Socket.destroy Socket.reset Socket.of_fd Socket.valid
      Dispatcher.notification_fd
  after_create-Starts w w1 n has at waiting =
      let (l, d, k, made, begins) =
        create-Begins startup sockets os fuel errno_laws epoll_laws table members w1
          (Socket.of_fd (pos n)) (held w) worker_count task_queue_capacity refl has (omega arith)
          (omega arith) in
      let (serving, nobody, same, stack, how) = begins in
      elim how [
        | inl watching ↦ inr (
          n,
          w1,
          k,
          l,
          d,
          at ∙ ap some any_address-at_9000,
          waiting,
          made,
          begins,
          watching.0,
          rw (made, watching.0) refl,
        )
        | inr (declined, why) ↦ inl (
          Server.not_initialized l.error_number,
          Create.destroy startup sockets os fuel k l d,
          rw (made, declined) refl,
          destroy-closes startup sockets os table fuel k l d n (held w) nobody same
              (stack ∙ ap (λ s. push d.notifier.fd (push l.epoll.fd (s.fd ∷ held w))) (sym same)),
        )
      ]

  after_listen-Starts :
      (w w1 : K) (n : ℕ)
      → held w1 ≡ pos n ∷ held w
      → bound w1 (pos n) ≡ some any_address
      → (res : SysResult × K) → startup.listen w1 (pos n) listen_backlog ≡ res
      → Starts w
          (Server.after_listen startup sockets os workers rounds fuel (Socket.of_fd (pos n)) res)
  unfolding Socket.move Socket.empty Socket.of_fd
  after_listen-Starts w w1 n has at (failed e, w2) eq =
      refuses w w2 n (Server.not_listening e)
        (ap (λ x. held x.1) (sym eq) ∙ table.listen_keeps w1 (pos n) listen_backlog ∙ has)
  after_listen-Starts w w1 n has at (done m, w2) eq =
      let (waiting, same) = listening.listen_done w1 w2 (pos n) listen_backlog m eq in
      after_create-Starts w w2 n
        (ap (λ x. held x.1) (sym eq) ∙ table.listen_keeps w1 (pos n) listen_backlog ∙ has)
        (same ∙ at) waiting

  after_bind-Starts :
      (w w1 : K) (n : ℕ)
      → held w1 ≡ pos n ∷ held w
      → (res : SysResult × K) → startup.bind w1 (pos n) any_address ≡ res
      → Starts w
          (Server.after_bind startup sockets os workers rounds fuel (Socket.of_fd (pos n)) res)
  unfolding Socket.of_fd
  after_bind-Starts w w1 n has (failed e, w2) eq =
      refuses w w2 n (Server.not_bound e)
        (ap (λ x. held x.1) (sym eq) ∙ table.bind_keeps w1 (pos n) any_address ∙ has)
  after_bind-Starts w w1 n has (done m, w2) eq =
      after_listen-Starts w w2 n
        (ap (λ x. held x.1) (sym eq) ∙ table.bind_keeps w1 (pos n) any_address ∙ has)
        (listening.bind_done w1 w2 (pos n) any_address m eq)
        (startup.listen w2 (pos n) listen_backlog) refl

  after_setsockopt-Starts :
      (w w1 : K) (n : ℕ)
      → held w1 ≡ pos n ∷ held w
      → (res : SysResult × K) → startup.setsockopt w1 (pos n) sol_socket so_reuseaddr 1 ≡ res
      → Starts w (
          Server.after_setsockopt startup sockets os workers rounds fuel (Socket.of_fd (pos n)) res)
  unfolding Socket.of_fd
  after_setsockopt-Starts w w1 n has (failed e, w2) eq =
      refuses w w2 n (Server.no_reuse_address e) (
        ap (λ x. held x.1) (sym eq)
        ∙ table.setsockopt_keeps w1 (pos n) sol_socket so_reuseaddr 1
        ∙ has)
  after_setsockopt-Starts w w1 n has (done m, w2) eq =
      after_bind-Starts w w2 n
        (ap (λ x. held x.1) (sym eq)
          ∙ table.setsockopt_keeps w1 (pos n) sol_socket so_reuseaddr 1
          ∙ has)
        (startup.bind w2 (pos n) any_address) refl

  after_socket-Starts :
      (w : K) (res : SysResult × K)
      → startup.socket w af_inet (bit_or sock_stream sock_cloexec) 0 ≡ res
      → Starts w (Server.after_socket startup sockets os workers rounds fuel res)
  unfolding Socket.destroy Socket.reset Socket.of_fd
  after_socket-Starts w (failed e, w1) eq = inl (
    Server.no_socket e,
    w1,
    refl,
    table.socket_fails w w1 af_inet (bit_or sock_stream sock_cloexec) 0 e eq,
  )
  after_socket-Starts w (done n, w1) eq =
      after_setsockopt-Starts w w1 n
        (table.socket_done w w1 af_inet (bit_or sock_stream sock_cloexec) 0 n eq)
        (startup.setsockopt w1 (pos n) sol_socket so_reuseaddr 1) refl

  -- Either the server's `main` returns 1 with one error printed and nothing else, and the process holds
  -- the descriptors that it held before. Or `main` has made, over a socket that is bound to port 9000
  -- of every address and has a backlog of 128, an initialized event loop with no connection, whose
  -- epoll watches the socket and the notifier of a valid dispatcher with four workers and an empty
  -- queue of 1024; and the rest of `main` is the `run` of this loop, the line that it prints before,
  -- and the destruction of the loop behind it.
  pub main-Starts :
      (w : K)
      → Refuses w (main startup sockets os workers rounds fuel w)
        ⊎ Runs w (main startup sockets os workers rounds fuel w)
  unfolding main
  main-Starts w =
      after_socket-Starts w (startup.socket w af_inet (bit_or sock_stream sock_cloexec) 0) refl
