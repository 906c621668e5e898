-- ===== src/Server/EventLoop/Results.antt =====
-- Results go to the connection that they were made for, and to no other.
use net_pulse.Base.{
  ℕ, ◌<◌, List, false, subst, sym, ap, ◌∙◌, length, ◌≡◌, ◌≢◌, ◌⊎◌, inl, inr, refl, ◌++◌, none, some,
  ==_iff, ne→not-==,
}
use net_pulse.Network.Socket.{Socket}
use net_pulse.Network.Epoll.{Epoll, modify}
use net_pulse.Protocol.Wire.{frame, max_payload_size}
use net_pulse.Protocol.FrameWriteBuffer.{enqueue}
use net_pulse.Protocol.FrameWriteBuffer.Queue.{IsValid, pending, enqueue-pending}
use net_pulse.Server.Connection.{Connection, queue_frame}
use net_pulse.Server.Processing.{ProcessingResult}
use net_pulse.Server.Clients.{ClientState}
use net_pulse.Server.EventLoop.{
  EventLoop, Env, with_connection, wanted_events, update_interest, update_or_close,
}
use net_pulse.Server.EventLoop.Handlers.{handle_result}
use net_pulse.Server.EventLoop.Connections.{
  client, Touches, Touches-trans, with_connection-Touches, close_connection-Touches,
  update_or_close-cases,
}

module _ {W : Type 0} (env : Env W) where
  -- A result for a descriptor with no connection, or with a connection of another id (the descriptor has
  -- been used again since the task was submitted), changes nothing, in the loop or outside.
  pub handle_result-stale :
      (w : W) (l : EventLoop) (result : ProcessingResult)
      → (client l result.client_fd ≡ none)
        ⊎ ((s : ClientState) × (client l result.client_fd ≡ some s) × (s.id ≢ result.connection_id))
      → handle_result env w l result ≡ (l, w)
  unfolding handle_result
  handle_result-stale w l result (inl e) = rw e
  handle_result-stale w l result (inr (s, e, other)) = rw (e, ne→not-== _ _ other)

  -- Why a response may close a connection: it is too long, or the system refuses to change the events
  -- that the epoll watches for the socket.
  abbrev pub Refusal : Epoll → Socket → List ℕ → Type 0
  Refusal epoll socket response =
      (max_payload_size < length response)
      ⊎ ((w : W) × (events : ℕ) × ((modify env.descriptors w epoll socket.fd events).0.success
            ≡ false))

  pub Refusal-same :
      {epoll epoll' : Epoll} {socket socket' : Socket} (response : List ℕ)
      → epoll' ≡ epoll
      → socket' ≡ socket
      → Refusal epoll' socket' response
      → Refusal epoll socket response
  Refusal-same {epoll} {epoll'} {socket} {socket'} response e s why =
      subst (λ x. Refusal x socket response) e (subst (λ x. Refusal epoll' x response) s why)

  -- What a result does to the connection that it is for.
  abbrev pub Delivered : EventLoop → EventLoop → ProcessingResult → ClientState → Type 0
  Delivered l l' result s =
      ((client l' result.client_fd ≡ none) × Refusal l.epoll s.connection.socket result.response)
      ⊎ ((s' : ClientState) × (client l' result.client_fd ≡ some s')
          × (s'.id ≡ s.id)
          × (s'.connection.socket ≡ s.connection.socket)
          × (s'.connection.decoder ≡ s.connection.decoder)
          × IsValid s'.connection.write_buffer
          × (pending s'.connection.write_buffer
              ≡ pending s.connection.write_buffer ++ frame result.response))

  updated-Delivered :
      (w : W) (l : EventLoop) (result : ProcessingResult) (s : ClientState) (c : Connection)
      → client l result.client_fd ≡ some s
      → c.socket ≡ s.connection.socket
      → c.decoder ≡ s.connection.decoder
      → IsValid c.write_buffer
      → pending c.write_buffer ≡ pending s.connection.write_buffer ++ frame result.response
      → let l' =
          (update_or_close env w
            (with_connection l result.client_fd s.id c)
            result.client_fd
            c).0 in
        Touches l l' result.client_fd × Delivered l l' result s
  unfolding update_interest
  updated-Delivered w l result s c e socket decoder v p =
      let fd = result.client_fd in
      let (t, stored) = with_connection-Touches l fd s c e socket in
      elim (update_or_close-cases env w (with_connection l fd s.id c) fd c) [
        | inl (_, same, _) ↦ rw same (t, inr (_, stored, refl, socket, decoder, v, p))
        | inr (refused, u, gone) ↦ (
          Touches-trans t u,
          inl (
            gone,
            inr (
              w,
              wanted_events c,
              ap (λ k. (modify env.descriptors w l.epoll k.fd (wanted_events c)).0.success)
                    (sym socket)
                  ∙ refused,
            ),
          ),
        )
      ]

  -- A result for a connection with its id and a valid write buffer either adds exactly the frame of the
  -- response behind the bytes that the connection still has to send, with its id, socket and decoder
  -- as they were, or the connection is closed, for one of the reasons of `Refusal`. It touches no
  -- other connection.
  pub handle_result-delivers :
      (w : W) (l : EventLoop) (result : ProcessingResult) (s : ClientState)
      → client l result.client_fd ≡ some s
      → s.id ≡ result.connection_id
      → IsValid s.connection.write_buffer
      → let l' = (handle_result env w l result).0 in
        Touches l l' result.client_fd × Delivered l l' result s
  unfolding handle_result queue_frame
  handle_result-delivers w l result s e same v =
      let fd = result.client_fd in
      elim (enqueue-pending s.connection.write_buffer result.response v) [
        | inl (small, q, p, v') ↦
            rw (e, (==_iff _ _).1 same, q)
              (updated-Delivered w l result s
                (record (s.connection) {
                  write_buffer = (enqueue s.connection.write_buffer result.response).1;
                })
                e refl refl v' p)
        | inr (big, q) ↦
            let (t, gone) = close_connection-Touches env w l fd in
            rw (e, (==_iff _ _).1 same, q) (t, inl (gone, inl big))
      ]
