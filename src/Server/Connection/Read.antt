-- ===== src/Server/Connection/Read.antt =====
-- `readAvailable`: it returns, and its frames are exactly those that the peer sent.
use net_pulse.Base.{
  ℕ, zero, suc, ◌+◌, ◌≤◌, ◌<◌, ◌≡◌, inl, inr, refl, sym, ap, ◌∙◌, subst, List, [], ◌++◌, arith,
  some, length, length-append, ltb, ◌==◌, Bool-cases, ltb→lt, not-ltb→le, ==_iff, empty-of_zero,
}
use net_pulse.Os.Errno.{eintr}
use net_pulse.Os.Sockets.{Sockets, RecvLaws, RecvResult, received, recv_failed}
use net_pulse.Network.Io.{blocks}
use net_pulse.Protocol.Wire.{IsBytes}
use net_pulse.Protocol.FrameDecoder
use net_pulse.Protocol.FrameDecoder.{FrameDecoder, buffered_bytes}
use net_pulse.Protocol.FrameDecoder.View.{IsValid, pending, append-pending, buffered_bytes-pending}
use net_pulse.Server.Connection.{
  Connection, ConnectionReadResult, ready, peer_closed, io_error, read_result, read_buffer_size, fd,
  Decoded, after_frames, after_recv, read_loop, read_available,
}
use net_pulse.Server.Connection.Decode.{
  encode, AllLegal, IsBytes-behind, IsBytes-front, IsBytes-append, Stops, at_end, at_poison,
  decode_loop-Stops,
}
use net_pulse.Server.Connection.Reading.{IsIdle, ReadEnds, Goes, Loops, stop, resume, retried}

module _ {W : Type 0} (os : Sockets W) (laws : RecvLaws os) where
  open laws use {inbound, signals, recv_received, recv_fails, recv_interrupted}

  -- The inner loop, and what the outer loop does behind it.
  after_frames-Goes :
      (fuel : ℕ) (w w' : W) (c : Connection) (seen : List (List ℕ)) (bytes : List ℕ)
      → Loops os laws fuel
      → IsBytes (pending c.decoder)
      → IsBytes (inbound w (fd c))
      → length (inbound w' (fd c)) + signals w' < fuel
      → inbound w (fd c) ≡ bytes ++ inbound w' (fd c)
      → signals w' ≤ signals w
      → (out : Decoded) → Stops (pending c.decoder ++ bytes) seen out
      → Goes os laws w c seen
          (after_frames (λ w' c' seen'. read_loop os fuel w' c' seen') c w' (some out))
  unfolding after_frames
  after_frames-Goes fuel w w' c seen bytes again ok inok enough read calm _
        (at_end ps d parsed stopped) =
      let all : IsBytes (pending c.decoder ++ bytes) =
        IsBytes-append (pending c.decoder) bytes ok
          (IsBytes-front bytes (inbound w' (fd c)) (subst IsBytes read inok)) in
      let (out, eq, s) =
        again w' (record c { decoder = d }) (seen ++ ps) (parsed.valid, stopped)
          (IsBytes-behind (encode ps) (pending d) (subst IsBytes parsed.exact all))
          (IsBytes-behind bytes (inbound w' (fd c)) (subst IsBytes read inok)) enough in
      (out, eq, resume os laws w w' c seen ps bytes d out read calm parsed s)
  after_frames-Goes fuel w w' c seen bytes again ok inok enough read calm _
        (at_poison ps d parsed stopped) =
      (
        _,
        refl,
        record {
          got = bytes;
          found = ps;
          frames = refl;
          read = read;
          parsed = parsed;
          same_socket = refl;
          same_buffer = refl;
          calmer = calm;
          ends = inl (refl, stopped, refl);
        },
      )

  -- Bytes have come, or the peer has closed.
  received-Goes :
      (fuel : ℕ) (w w' : W) (c : Connection) (seen : List (List ℕ)) (bytes : List ℕ)
      → Loops os laws fuel
      → IsIdle c.decoder
      → IsBytes (pending c.decoder)
      → IsBytes (inbound w (fd c))
      → length (inbound w (fd c)) + signals w < suc fuel
      → os.recv w (fd c) read_buffer_size ≡ (received bytes, w')
      → Goes os laws w c seen
          (after_recv (λ w' c' seen'. read_loop os fuel w' c' seen') c seen (received bytes, w'))
  unfolding after_recv
  received-Goes fuel w w' c seen bytes again idle ok inok enough e =
      elim (Bool-cases (ltb 0 (length bytes))) [
        | inl some_read ↦
            let (fits, read, calm) = recv_received w w' (fd c) read_buffer_size bytes e in
            let d = FrameDecoder.append c.decoder bytes in
            let (v, same) = append-pending c.decoder bytes idle.0 in
            let all : IsBytes (pending d) = subst IsBytes (sym same) (
              IsBytes-append (pending c.decoder) bytes ok
                (IsBytes-front bytes (inbound w' (fd c)) (subst IsBytes read inok))) in
            let (out, eq, stops) =
              decode_loop-Stops (suc (buffered_bytes d)) d seen v all
                (omega (arith, buffered_bytes-pending d v)) in
            rw (some_read, eq)
              (after_frames-Goes fuel w w' c seen bytes again ok inok
                (omega (
                  arith,
                  ltb→lt 0 (length bytes) some_read,
                  ap length read,
                  length-append bytes (inbound w' (fd c)),
                ))
                read calm out (subst (λ xs. Stops xs seen out) same stops))
        | inr nothing ↦
            let (fits, read, calm) = recv_received w w' (fd c) read_buffer_size bytes e in
            let same : inbound w' (fd c) ≡ inbound w (fd c) = sym (
              read
              ∙ ap (λ xs. xs ++ inbound w' (fd c))
                  (empty-of_zero bytes (not-ltb→le 0 (length bytes) nothing))) in
            rw nothing (
              _,
              refl,
              stop os laws w w' c seen (read_result peer_closed seen 0) refl idle same calm
                  (inr (inr (inl (refl, idle.1, refl)))),
            )
      ]

  -- `recv` has failed.
  failed-Goes :
      (fuel : ℕ) (w w' : W) (c : Connection) (seen : List (List ℕ)) (errno : ℕ)
      → Loops os laws fuel
      → IsIdle c.decoder
      → IsBytes (pending c.decoder)
      → IsBytes (inbound w (fd c))
      → length (inbound w (fd c)) + signals w < suc fuel
      → os.recv w (fd c) read_buffer_size ≡ (recv_failed errno, w')
      → Goes os laws w c seen
          (after_recv (λ w' c' seen'. read_loop os fuel w' c' seen') c seen (recv_failed errno, w'))
  unfolding after_recv
  failed-Goes fuel w w' c seen errno again idle ok inok enough e =
      elim (Bool-cases (errno == eintr)) [
        | inl interrupted ↦
            let (nonzero, same, calm) = recv_fails w w' (fd c) read_buffer_size errno e in
            let isint : errno ≡ eintr = (==_iff errno eintr).0 interrupted in
            let fewer : signals w' < signals w =
              recv_interrupted w w' (fd c) read_buffer_size
                (e ∙ ap (λ x. (recv_failed x, w')) isint) in
            let (out, eq, s) =
              again w' c seen idle ok (subst IsBytes (sym same) inok)
                (omega (arith, ap length same)) in
            rw interrupted (out, eq, retried os laws w w' c seen out same calm s)
        | inr other ↦ elim (Bool-cases (blocks errno)) [
          | inl none_yet ↦
              let (nonzero, same, calm) = recv_fails w w' (fd c) read_buffer_size errno e in
              rw other (
                rw none_yet (
                  _,
                  refl,
                  stop os laws w w' c seen (read_result ready seen 0) refl idle same calm
                      (inr (inl (refl, idle.1, refl))),
                ))
          | inr broken ↦
              let (nonzero, same, calm) = recv_fails w w' (fd c) read_buffer_size errno e in
              rw other (
                rw broken (
                  _,
                  refl,
                  stop os laws w w' c seen (read_result io_error seen errno) refl idle same calm
                      (inr (inr (inr (refl, idle.1, nonzero, ground arith)))),
                ))
        ]
      ]

  after_recv-Goes :
      (fuel : ℕ) (w : W) (c : Connection) (seen : List (List ℕ))
      → Loops os laws fuel
      → IsIdle c.decoder
      → IsBytes (pending c.decoder)
      → IsBytes (inbound w (fd c))
      → length (inbound w (fd c)) + signals w < suc fuel
      → (res : RecvResult × W) → os.recv w (fd c) read_buffer_size ≡ res
      → Goes os laws w c seen (after_recv (λ w' c' seen'. read_loop os fuel w' c' seen') c seen res)
  after_recv-Goes fuel w c seen again idle ok inok enough (received bytes, w') e =
      received-Goes fuel w w' c seen bytes again idle ok inok enough e
  after_recv-Goes fuel w c seen again idle ok inok enough (recv_failed errno, w') e =
      failed-Goes fuel w w' c seen errno again idle ok inok enough e

  read_loop-Goes : (fuel : ℕ) → Loops os laws fuel
  unfolding read_loop
  read_loop-Goes zero w c seen idle ok inok enough = absurd (omega arith)
  read_loop-Goes (suc fuel) w c seen idle ok inok enough =
      after_recv-Goes fuel w c seen (read_loop-Goes fuel) idle ok inok enough
        (os.recv w (fd c) read_buffer_size) refl

  -- Let the connection's decoder hold no whole frame and no illegal header, the bytes that it holds
  -- and that the peer sends be below 256, and the fuel exceed the number of bytes that the peer
  -- sends plus the number of signals that may interrupt a call. Then `readAvailable` returns. It
  -- has taken some bytes `got` off what the peer sends; the bytes that the decoder held and then
  -- `got` are exactly the frames of the returned payloads, in order, and then the bytes that the
  -- decoder now holds; no payload is longer than `max_payload_size`; the socket and the write
  -- buffer are as they were. The result says `protocol_error` with the decoder at a header that is
  -- too large, or `ready`, `peer_closed` or `io_error` with no whole frame left in it, the last with a
  -- nonzero error that is not EAGAIN and the others with error 0.
  pub read_available-total :
      (fuel : ℕ) (w : W) (c : Connection)
      → IsIdle c.decoder
      → IsBytes (pending c.decoder)
      → IsBytes (inbound w (fd c))
      → length (inbound w (fd c)) + signals w < fuel
      → (r : ConnectionReadResult) × (c' : Connection) × (w' : W) × (got : List ℕ) × (read_available
            os fuel w c
          ≡ some (r, c', w'))
        × (inbound w (fd c) ≡ got ++ inbound w' (fd c))
        × (pending c.decoder ++ got ≡ encode r.frames ++ pending c'.decoder)
        × AllLegal r.frames
        × IsValid c'.decoder
        × (c'.socket ≡ c.socket)
        × (c'.write_buffer ≡ c.write_buffer)
        × (signals w' ≤ signals w)
        × ReadEnds r c'.decoder
  unfolding read_available
  read_available-total fuel w c idle ok inok enough =
      let (out, eq, s) = read_loop-Goes fuel w c [] idle ok inok enough in
      (
        out.0,
        out.1,
        out.2,
        s.got,
        eq,
        s.read,
        s.parsed.exact ∙ ap (λ ps. encode ps ++ pending out.1.decoder) (sym s.frames),
        subst AllLegal (sym s.frames) s.parsed.legal,
        s.parsed.valid,
        s.same_socket,
        s.same_buffer,
        s.calmer,
        s.ends,
      )
