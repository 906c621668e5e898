-- ===== src/Server/Wiring/Requests.antt =====
-- From the bytes of a client to the tasks of the pool: one readable event over the dispatcher.
use net_pulse.Base.{
  ℕ, ℤ, ◌+◌, ◌≤◌, ◌<◌, ◌≡◌, ◌≢◌, ◌⊎◌, inl, inr, refl, sym, ap, subst, ◌∙◌, List, [], ◌++◌, map,
  true, false, some, length, arith, not, ◌||◌, nonneg, bit_or, le_refl, Bool-cases,
}
use net_pulse.Os.Errno.{epollin, epollerr, epollhup, epollrdhup}
use net_pulse.Os.Sockets.{Sockets, SendLaws, RecvLaws}
use net_pulse.Os.Descriptors.{Descriptors}
use net_pulse.Network.Io.Keeps.{Holds}
use net_pulse.Protocol.Wire.{IsBytes}
use net_pulse.Protocol.FrameDecoder.View
use net_pulse.Protocol.FrameWriteBuffer.Queue
use net_pulse.Server.Clients.{ClientState}
use net_pulse.Server.Connection.{Connection, ConnectionReadResult, fd, read_available}
use net_pulse.Server.Connection.Decode.{encode, AllLegal}
use net_pulse.Server.Connection.Deliver.{read_available-delivers}
use net_pulse.Server.Connection.Keeps.{read_available-keeps}
use net_pulse.Server.Connection.Read.{read_available-total}
use net_pulse.Server.Dispatcher
use net_pulse.Server.Dispatcher.{Dispatcher}
use net_pulse.Server.EventLoop.{EventLoop, has_any, with_connection, submit_frames}
use net_pulse.Server.EventLoop.Handlers.{read_failed, handle_client_event}
use net_pulse.Server.EventLoop.Connections.{client}
use net_pulse.Server.EventLoop.Calls.{KeptByCalls, close_connection-keeps, write_stage-keeps}
use net_pulse.Server.EventLoop.Serving.{IsServing}
use net_pulse.Server.EventLoop.Serve.{OneCount, unsent, handle_client_event-total}
use net_pulse.Server.Wiring.{env_of, sockets_of}
use net_pulse.Server.Wiring.Submit.{task_of, with_tasks, submit_frames-queues}

module _ {K : Type 0} (sockets : Sockets K) (os : Descriptors K) (notifier_fuel : ℕ)
    (notifier_fd : ℤ) (recv_laws : RecvLaws sockets) (send_laws : SendLaws sockets)
    (same_signals : (k : K) → send_laws.signals k ≡ recv_laws.signals k) where
  open recv_laws use {inbound}

  abbrev lifted_recv : RecvLaws (sockets_of sockets)
  lifted_recv = record {
    inbound = λ w fd. inbound w.1 fd;
    signals = λ w. recv_laws.signals w.1;
    recv_received = λ w w' fd size bytes e.
        recv_laws.recv_received w.1 w'.1 fd size bytes (ap (λ x. (x.0, x.1.1)) e);
    recv_fails =
        λ w w' fd size n e. recv_laws.recv_fails w.1 w'.1 fd size n (ap (λ x. (x.0, x.1.1)) e);
    recv_interrupted =
        λ w w' fd size e. recv_laws.recv_interrupted w.1 w'.1 fd size (ap (λ x. (x.0, x.1.1)) e);
  }

  abbrev lifted_send : SendLaws (sockets_of sockets)
  lifted_send = record {
    wire = λ w fd. send_laws.wire w.1 fd;
    signals = λ w. send_laws.signals w.1;
    send_done =
        λ w w' fd bytes n e. send_laws.send_done w.1 w'.1 fd bytes n (ap (λ x. (x.0, x.1.1)) e);
    send_failed =
        λ w w' fd bytes n e. send_laws.send_failed w.1 w'.1 fd bytes n (ap (λ x. (x.0, x.1.1)) e);
    send_interrupted =
        λ w w' fd bytes e. send_laws.send_interrupted w.1 w'.1 fd bytes (ap (λ x. (x.0, x.1.1)) e);
  }

  one_count : OneCount (env_of sockets os notifier_fuel notifier_fd) lifted_recv lifted_send
  one_count = record {
    same_signals = λ w. same_signals w.1;
    submit_calm = λ w task. le_refl (send_laws.signals w.1);
  }

  -- No call of the kernel changes the dispatcher.
  untouched :
      (d : Dispatcher) → KeptByCalls (env_of sockets os notifier_fuel notifier_fd) (λ w. w.0 ≡ d)
  untouched d = record {
    send = λ w fd bytes h. h;
    close = λ w fd h. h;
    ctl = λ w epfd fd op mask h. h;
  }

  -- What a read event leaves of the dispatcher: the frames have been submitted, and nothing else done.
  reads-dispatcher :
      (fuel : ℕ) (k : K) (d d' : Dispatcher) (l : EventLoop) (client_fd : ℤ) (s : ClientState)
      (events : ℕ) (r : ConnectionReadResult) (c' : Connection) (w' : Dispatcher × K)
      → client l client_fd ≡ some s
      → has_any events (bit_or epollerr epollhup) ≡ false
      → has_any events (bit_or epollin epollrdhup) ≡ true
      → read_available (sockets_of sockets) fuel (d, k) s.connection ≡ some (r, c', w')
      → Queue.IsValid c'.write_buffer
      → (submit_frames (env_of sockets os notifier_fuel notifier_fd) w' client_fd s.id r.frames).1.0
        ≡ d'
      → Holds
          (λ out. out.1.0 ≡ d')
          (handle_client_event
            (env_of sockets os notifier_fuel notifier_fd)
            fuel
            (d, k)
            l
            client_fd
            events)
  unfolding handle_client_event
  reads-dispatcher fuel k d d' l client_fd s events r c' w' e sound readable eq valid submitted =
      let env = env_of sockets os notifier_fuel notifier_fd in
      let sub = submit_frames env w' client_fd s.id r.frames in
      let l1 = with_connection l client_fd s.id c' in
      elim (Bool-cases (not sub.0 || read_failed r.status)) [
        | inl over ↦
            rw (e, sound, readable, eq, over)
              (close_connection-keeps env (λ w. w.0 ≡ d') (untouched d') sub.1 l1 client_fd
                submitted)
        | inr on ↦
            rw (e, sound, readable, eq, on)
              (write_stage-keeps env (λ w. w.0 ≡ d') (untouched d') fuel sub.1 l1 client_fd s.id c'
                valid submitted)
      ]

  -- Let the dispatcher be valid and the loop be serving, let the descriptor of a connection be readable
  -- with no error, and let the bytes that the connection's decoder holds and then what its peer sends be
  -- exactly the frames of payloads `ps`, each of at most `max_payload_size` bytes; let the fuel exceed
  -- the bytes to read and those unsent, each with the signals that may interrupt a call. Then the
  -- event's handler returns with the loop serving. The payloads are, in order, those `sent`, `refused` and
  -- `unread`. Those `sent` are now tasks at the end of the pool's queue, in order, under the connection's
  -- descriptor and id, and nothing else of the dispatcher has changed. None is refused unless the
  -- queue is closed or they fill it; and none is unread unless the read left bytes at the peer.
  pub handle_client_event-queues :
      (fuel : ℕ) (k : K) (d : Dispatcher) (l : EventLoop) (client_fd : ℤ) (s : ClientState)
      (events : ℕ) (ps : List (List ℕ))
      → Dispatcher.valid d ≡ true
      → IsServing l
      → client l client_fd ≡ some s
      → nonneg client_fd ≡ true
      → has_any events (bit_or epollerr epollhup) ≡ false
      → has_any events (bit_or epollin epollrdhup) ≡ true
      → IsBytes (inbound k client_fd)
      → AllLegal ps
      → View.pending s.connection.decoder ++ inbound k client_fd ≡ encode ps
      → length (inbound k client_fd) + recv_laws.signals k < fuel
      → unsent (client l client_fd) + send_laws.signals k < fuel
      → (l' : EventLoop) × (k' : K) × (k1 : K) × (sent : List (List ℕ)) × (refused : List (List ℕ))
        × (unread : List (List ℕ)) × (handle_client_event
              (env_of sockets os notifier_fuel notifier_fd)
              fuel
              (d, k)
              l
              client_fd
              events
            ≡ some (l', (with_tasks d (map (task_of client_fd s.id) sent), k')))
        × IsServing l'
        × (ps ≡ sent ++ refused ++ unread)
        × ((refused ≡ [])
            ⊎ (d.pool.tasks.is_closed ≡ true)
            ⊎ (d.pool.tasks.limit ≤ length d.pool.tasks.queue + length sent))
        × ((r : ConnectionReadResult) × (c : Connection) × (read_available
                (sockets_of sockets)
                fuel
                (d, k)
                s.connection
              ≡ some (r, c, (d, k1)))
            × ((unread ≡ []) ⊎ (inbound k1 (fd c) ≢ [])))
  handle_client_event-queues fuel k d l client_fd s events ps ok v e real sound readable inok legal
        given enough enough' =
      let env = env_of sockets os notifier_fuel notifier_fd in
      let whole = v.whole client_fd s e in
      let at_fd : client_fd ≡ fd s.connection = sym (v.ids.keyed client_fd s e) in
      let inok' = subst (λ x. IsBytes (inbound k x)) at_fd inok in
      let enough_in = subst (λ x. length (inbound k x) + recv_laws.signals k < fuel) at_fd enough in
      let (r, c, w1, unread, eq, first, _, _, _, _, all_read) =
        read_available-delivers (sockets_of sockets) lifted_recv fuel (d, k) s.connection ps
          whole.idle whole.bytes inok' legal
          (subst (λ x. View.pending s.connection.decoder ++ inbound k x ≡ encode ps) at_fd given)
          enough_in in
      let (r2, c2, w2, _, eq2, _, _, _, _, _, same_buffer, _, _) =
        read_available-total (sockets_of sockets) lifted_recv fuel (d, k) s.connection whole.idle
          whole.bytes inok' enough_in in
      let valid : Queue.IsValid c.write_buffer =
        subst (Holds (λ o. Queue.IsValid o.1.write_buffer)) (sym eq2 ∙ eq)
          (subst Queue.IsValid (sym same_buffer) whole.buffer) in
      let same_d : w1.0 ≡ d = subst (Holds (λ o. o.2.0 ≡ d)) eq (
        read_available-keeps (sockets_of sockets) (λ w. w.0 ≡ d) (λ w fd size h. h) fuel (d, k)
          s.connection refl) in
      let (sent, refused, split, out, why) =
        submit_frames-queues sockets os notifier_fuel notifier_fd w1.1 d client_fd s.id r.frames
          real (omega (arith, (v.ids.issued client_fd s e).0)) ok in
      let submitted =
        ap (λ x. (submit_frames env (x, w1.1) client_fd s.id r.frames).1.0) same_d
        ∙ ap (λ x. x.1.0) out in
      let (l', w', eq', _, v') =
        handle_client_event-total env lifted_recv lifted_send one_count fuel (d, k) l client_fd
          events v inok enough enough' in
      let queued : w'.0 ≡ with_tasks d (map (task_of client_fd s.id) sent) =
        subst (Holds (λ o. o.1.0 ≡ with_tasks d (map (task_of client_fd s.id) sent))) eq' (
          reads-dispatcher fuel k d (with_tasks d (map (task_of client_fd s.id) sent)) l client_fd s
            events r c w1 e sound readable eq valid submitted) in
      (
        l',
        w'.1,
        w1.1,
        sent,
        refused,
        unread,
        eq' ∙ ap (λ x. some (l', (x, w'.1))) queued,
        v',
        first ∙ ap (λ x. x ++ unread) split,
        why,
        (r, c, eq ∙ ap (λ x. some (r, c, (x, w1.1))) same_d, all_read),
      )
