-- ===== src/Server/EventLoop/Serve.antt =====
-- One event of a client: the handler returns, touches that client alone, and leaves it well formed.
use net_pulse.Base.{
  ℕ, ℤ, ◌+◌, ◌≤◌, ◌<◌, ◌≡◌, inl, inr, refl, sym, ap, subst, ◌∙◌, List, [], ◌∷◌, not, ◌||◌, Option,
  none, some, length, arith, Bool-cases, Option-cases, bit_or, le_refl,
}
use net_pulse.Os.Errno.{epollin, epollerr, epollhup, epollrdhup}
use net_pulse.Os.Sockets.{RecvLaws, SendLaws}
use net_pulse.Protocol.Wire.{IsBytes}
use net_pulse.Protocol.FrameDecoder.View
use net_pulse.Protocol.FrameWriteBuffer.Queue
use net_pulse.Protocol.FrameWriteBuffer.Flush.{flush-total}
use net_pulse.Server.Connection.{Connection, fd, read_available, flush_writes, wants_write}
use net_pulse.Server.Connection.Decode.{IsBytes-rest}
use net_pulse.Server.Connection.Read.{read_available-total}
use net_pulse.Server.Processing.{ProcessingTask}
use net_pulse.Server.Clients.{ClientState}
use net_pulse.Server.EventLoop.{
  EventLoop, Env, has_any, with_connection, close_connection, update_or_close, submit_frame,
  submit_frames,
}
use net_pulse.Server.EventLoop.Handlers.{
  flush_failed, read_failed, write_stage, after_read, handle_client_event,
}
use net_pulse.Server.EventLoop.Connections.{
  client, Touches, Touches-refl, Touches-trans, with_connection-Touches, close_connection-Touches,
  update_or_close-cases,
}
use net_pulse.Server.EventLoop.Ids.{same_state}
use net_pulse.Server.EventLoop.Serving.{IsWhole, IsServing, Serves, Serves-IsServing, ready-IsIdle}

-- How many bytes a client has still to be sent.
abbrev pub unsent : Option ClientState → ℕ
unsent none = 0
unsent (some s) = length (Queue.pending s.connection.write_buffer)

module _ {W : Type 0} (env : Env W) where
  open env use {sockets, descriptors, dispatch}

  -- `signals` counts every interruption that is still to come, and a submission adds none.
  pub record OneCount (recv_laws : RecvLaws sockets) (send_laws : SendLaws sockets) : Type 0 where
    pub same_signals : (w : W) → send_laws.signals w ≡ recv_laws.signals w
    pub submit_calm :
        (w : W) (task : ProcessingTask)
        → send_laws.signals (dispatch.try_submit w task).1 ≤ send_laws.signals w

  abbrev Ends : EventLoop → ℤ → Option (EventLoop × W) → Type 0
  Ends l fd o = (l' : EventLoop) × (w' : W) × (o ≡ some (l', w')) × Serves l l' fd

  closes :
      (w : W) (l l1 : EventLoop) (fd : ℤ)
      → Touches l l1 fd
      → Ends l fd (some (close_connection env w l1 fd))
  closes w l l1 fd t =
      let (u, gone) = close_connection-Touches env w l1 fd in
      (
        (close_connection env w l1 fd).0,
        (close_connection env w l1 fd).1,
        refl,
        record { touches = Touches-trans t u; here = λ s e. cc },
      )

  updates :
      (w : W) (l l1 : EventLoop) (fd : ℤ) (id : ℕ) (c : Connection)
      → Touches l l1 fd
      → client l1 fd ≡ some (record { id = id; connection = c })
      → IsWhole c
      → Ends l fd (some (update_or_close env w l1 fd c))
  updates w l l1 fd id c t e v = (
    (update_or_close env w l1 fd c).0,
    (update_or_close env w l1 fd c).1,
    refl,
    elim (update_or_close-cases env w l1 fd c) [
      | inl (_, same, _) ↦ rw same (record {
        touches = t;
        here = λ s f.
            subst IsWhole
              (ap (λ x. x.connection)
                (same_state (record { id = id; connection = c }) s (sym e ∙ f)))
              v;
      })
      | inr (_, u, gone) ↦ record { touches = Touches-trans t u; here = λ s f. cc }
    ],
  )

  module _ (recv_laws : RecvLaws sockets) (send_laws : SendLaws sockets)
      (count : OneCount recv_laws send_laws) where
    open recv_laws use {inbound}

    writes :
        (fuel : ℕ) (w : W) (l l1 : EventLoop) (client_fd : ℤ) (id : ℕ) (c : Connection)
        → Touches l l1 client_fd
        → client l1 client_fd ≡ some (record { id = id; connection = c })
        → IsWhole c
        → length (Queue.pending c.write_buffer) + send_laws.signals w < fuel
        → Ends l client_fd (write_stage env fuel w l1 client_fd id c)
    unfolding write_stage flush_writes
    writes fuel w l l1 client_fd id c t e v enough = elim (Bool-cases (wants_write c)) [
      | inr nothing ↦ rw nothing (updates w l l1 client_fd id c t e v)
      | inl some_left ↦
          let (r, b, w', eq, valid, _, _, _, _) =
            flush-total sockets (fd c) c.write_buffer send_laws v.buffer fuel w enough in
          let c' = record c { write_buffer = b } in
          let (u, stored) =
            with_connection-Touches l1 client_fd (record { id = id; connection = c }) c' e refl in
          elim (Bool-cases (flush_failed r.status)) [
            | inl broken ↦
                rw (some_left, eq, broken)
                  (closes w' l (with_connection l1 client_fd id c') client_fd (Touches-trans t u))
            | inr fine ↦
                rw (some_left, eq, fine)
                  (updates w' l (with_connection l1 client_fd id c') client_fd id c'
                    (Touches-trans t u) stored
                    (record { idle = v.idle; bytes = v.bytes; buffer = valid }))
          ]
    ]

    submit_frames-calm :
        (w : W) (client_fd : ℤ) (id : ℕ) (frames : List (List ℕ))
        → send_laws.signals (submit_frames env w client_fd id frames).1 ≤ send_laws.signals w
    unfolding submit_frames submit_frame
    submit_frames-calm w client_fd id [] = le_refl (send_laws.signals w)
    submit_frames-calm w client_fd id (p ∷ ps) =
        let task : ProcessingTask = record {
          client_fd = client_fd;
          connection_id = id;
          payload = p;
        } in
        let w' = (dispatch.try_submit w task).1 in
        ground (arith, count.submit_calm w task, submit_frames-calm w' client_fd id ps)

    reads :
        (fuel : ℕ) (w : W) (l : EventLoop) (client_fd : ℤ) (s : ClientState)
        → client l client_fd ≡ some s
        → IsWhole s.connection
        → IsBytes (inbound w (fd s.connection))
        → length (inbound w (fd s.connection)) + recv_laws.signals w < fuel
        → length (Queue.pending s.connection.write_buffer) + send_laws.signals w < fuel
        → Ends l client_fd
            (after_read env fuel l client_fd s.id (read_available sockets fuel w s.connection))
    reads fuel w l client_fd s e v inok enough_in enough_out =
        let (r, c, w', got, eq, read, exact, _, valid, same_socket, same_buffer, calm, ends) =
          read_available-total sockets recv_laws fuel w s.connection v.idle v.bytes inok
            enough_in in
        let l1 = with_connection l client_fd s.id c in
        let (t, stored) = with_connection-Touches l client_fd s c e same_socket in
        let sub = submit_frames env w' client_fd s.id r.frames in
        elim (Bool-cases (not sub.0 || read_failed r.status)) [
          | inl over ↦ rw (eq, over) (closes sub.1 l l1 client_fd t)
          | inr on ↦
              let bytes : IsBytes (View.pending c.decoder) =
                IsBytes-rest (View.pending s.connection.decoder) got (inbound w' (fd s.connection))
                  (View.pending c.decoder) r.frames v.bytes inok read exact in
              rw (eq, on)
                (writes fuel sub.1 l l1 client_fd s.id c t stored
                  (record {
                    idle = ready-IsIdle r c.decoder valid (ground arith) ends;
                    bytes = bytes;
                    buffer = subst Queue.IsValid (sym same_buffer) v.buffer;
                  })
                  (omega (
                    arith,
                    ap (λ b. length (Queue.pending b)) same_buffer,
                    submit_frames-calm w' client_fd s.id r.frames,
                    count.same_signals w,
                    count.same_signals w',
                  )))
        ]

    serves :
        (fuel : ℕ) (w : W) (l : EventLoop) (client_fd : ℤ) (events : ℕ)
        → IsServing l
        → IsBytes (inbound w client_fd)
        → length (inbound w client_fd) + recv_laws.signals w < fuel
        → unsent (client l client_fd) + send_laws.signals w < fuel
        → Ends l client_fd (handle_client_event env fuel w l client_fd events)
    unfolding handle_client_event
    serves fuel w l client_fd events v inok enough_in enough_out =
        elim (Option-cases (client l client_fd)) [
          | inl e ↦
              rw e (l, w, refl, record { touches = Touches-refl l client_fd; here = λ s f. cc })
          | inr (s, e) ↦
              let whole = v.whole client_fd s e in
              let at_fd : fd s.connection ≡ client_fd = v.ids.keyed client_fd s e in
              let enough_out' : length (Queue.pending s.connection.write_buffer)
                    + send_laws.signals w
                  < fuel =
                omega (arith, ap unsent e) in
              elim (Bool-cases (has_any events (bit_or epollerr epollhup))) [
                | inl broken ↦ rw (e, broken) (closes w l l client_fd (Touches-refl l client_fd))
                | inr sound ↦ elim (Bool-cases (has_any events (bit_or epollin epollrdhup))) [
                  | inl readable ↦
                      rw (e, sound, readable)
                        (reads fuel w l client_fd s e whole
                          (subst (λ k. IsBytes (inbound w k)) (sym at_fd) inok)
                          (subst (λ k. length (inbound w k) + recv_laws.signals w < fuel)
                            (sym at_fd) enough_in)
                          enough_out')
                  | inr quiet ↦
                      rw (e, sound, quiet)
                        (writes fuel w l l client_fd s.id s.connection (Touches-refl l client_fd) e
                          whole enough_out')
                ]
              ]
        ]

    -- Let the loop be serving, the bytes that the client's peer sends be below 256, and the fuel exceed
    -- both the number of these bytes and the number of bytes unsent, each with the signals that may
    -- interrupt a call added. Then `handleClientEvent` returns, for any events: it touches no other
    -- connection, keeps the id and the socket of this one if it does not close it, and leaves the
    -- loop serving: each connection's decoder holds bytes and no whole frame, and the offset of each write
    -- buffer lies inside it.
    pub handle_client_event-total :
        (fuel : ℕ) (w : W) (l : EventLoop) (client_fd : ℤ) (events : ℕ)
        → IsServing l
        → IsBytes (inbound w client_fd)
        → length (inbound w client_fd) + recv_laws.signals w < fuel
        → unsent (client l client_fd) + send_laws.signals w < fuel
        → (l' : EventLoop) × (w' : W) × (handle_client_event env fuel w l client_fd events
            ≡ some (l', w'))
          × Touches l l' client_fd
          × IsServing l'
    unfolding handle_client_event
    handle_client_event-total fuel w l client_fd events v inok enough_in enough_out =
        let (l', w', eq, t) = serves fuel w l client_fd events v inok enough_in enough_out in
        (l', w', eq, t.touches, Serves-IsServing t v)
