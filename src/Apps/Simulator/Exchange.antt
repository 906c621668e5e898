-- ===== src/Apps/Simulator/Exchange.antt =====
-- How the device simulator ends, over a server that answers each connection with a frame.
use net_pulse.Base.{
  ℕ, ℤ, pos, ◌+◌, ◌≤◌, ◌<◌, ◌≡◌, inr, refl, sym, ap, ◌∙◌, List, ◌∷◌, ◌++◌, Option, none, some,
  length, arith,
}
use net_pulse.Os.Sockets.{Sockets, SendLaws, RecvLaws, SysResult, done, failed}
use net_pulse.Os.Startup.{Startup, TableLaws, PeerLaws, Address, af_inet, sock_stream, htons}
use net_pulse.Network.Socket
use net_pulse.Protocol.Wire.{max_payload_size, frame}
use net_pulse.Network.Ownership.{closes}
use net_pulse.Apps.Simulator
use net_pulse.Apps.Simulator.{
  Ended, Line, Failure, starting, connected, telemetry_sent, response, telemetry, server_address,
  server_port, main,
}
use net_pulse.Apps.Simulator.Ends.{Ends, Result}
use net_pulse.Apps.Simulator.Talk.{after_send-Ends}

module _ {W : Type 0} (os : Startup W) (close : W → ℤ → W) (sockets : Sockets W)
    (table : TableLaws os close) (sending : SendLaws sockets) (receiving : RecvLaws sockets)
    (peer : PeerLaws os close sockets table sending receiving) (fuel : ℕ) (p rest : List ℕ) where
  open table use {held}
  open sending use {wire}
  open receiving use {inbound}

  after_connect-Ends :
      (w w1 : W) (n : ℕ) (a : Address)
      → length p ≤ max_payload_size
      → held w1 ≡ pos n ∷ held w
      → ((w2 : W) (m : ℕ)
          → os.connect w1 (pos n) a ≡ (done m, w2)
          → inbound w2 (pos n) ≡ frame p ++ rest)
      → length (frame telemetry) + sending.signals w1 < fuel
      → length (frame p) + receiving.signals w1 < fuel
      → (res : SysResult × W) → os.connect w1 (pos n) a ≡ res
      → Result table sending p w
          (Simulator.after_connect os close sockets fuel (Socket.of_fd (pos n)) res)
  unfolding Socket.of_fd
  after_connect-Ends w w1 n a small table_ok answers enough enough' (failed e, w2) eq = (
    _,
    Socket.destroy close w2 (Socket.of_fd (pos n)),
    refl,
    (
      closes table w2 n (held w)
          (ap (λ x. held x.1) (sym eq) ∙ table.connect_keeps w1 (pos n) a ∙ table_ok),
      inr (refl, (_, refl), (1, omega arith, refl)),
    ),
  )
  after_connect-Ends w w1 n a small table_ok answers enough enough' (done m, w2) eq =
      let (calm, calm') = peer.connect_calm w1 (pos n) a in
      let after : (os.connect w1 (pos n) a).1 ≡ w2 = ap (λ x. x.1) eq in
      after_send-Ends os close sockets table sending receiving peer fuel p rest w w2 n small
        (ap held (sym after) ∙ table.connect_keeps w1 (pos n) a ∙ table_ok) (answers w2 m eq)
        (omega (arith, ap sending.signals after)) (omega (arith, ap receiving.signals after))
        (peer.connect_done w1 w2 (pos n) a m eq)

  -- The server's answer to each connection.
  abbrev Answers : Type 0
  Answers =
      (w1 w2 : W) (fd : ℤ) (a : Address) (m : ℕ)
      → os.connect w1 fd a ≡ (done m, w2)
      → inbound w2 fd ≡ frame p ++ rest

  after_pton-Ends :
      (w w1 : W) (n : ℕ)
      → length p ≤ max_payload_size
      → held w1 ≡ pos n ∷ held w
      → Answers
      → length (frame telemetry) + sending.signals w1 < fuel
      → length (frame p) + receiving.signals w1 < fuel
      → (found : Option (List ℕ))
      → Result table sending p w
          (Simulator.after_pton os close sockets fuel w1 (Socket.of_fd (pos n)) found)
  unfolding Socket.of_fd
  after_pton-Ends w w1 n small table_ok answers enough enough' none = (
    _,
    Socket.destroy close w1 (Socket.of_fd (pos n)),
    refl,
    (closes table w1 n (held w) table_ok, inr (refl, (_, refl), (1, omega arith, refl))),
  )
  after_pton-Ends w w1 n small table_ok answers enough enough' (some bytes) =
      let a : Address = record {
        sin_family = af_inet;
        sin_port = htons server_port;
        sin_addr = bytes;
      } in
      after_connect-Ends w w1 n a small table_ok (λ w2 m e. answers w1 w2 (pos n) a m e) enough
        enough' (os.connect w1 (pos n) a) refl

  after_socket-Ends :
      (w : W)
      → length p ≤ max_payload_size
      → Answers
      → length (frame telemetry) + sending.signals w < fuel
      → length (frame p) + receiving.signals w < fuel
      → (res : SysResult × W) → os.socket w af_inet sock_stream 0 ≡ res
      → Result table sending p w (Simulator.after_socket os close sockets fuel res)
  unfolding Socket.destroy Socket.reset Socket.of_fd
  after_socket-Ends w small answers enough enough' (failed e, w1) eq = (
    _,
    w1,
    refl,
    (
      table.socket_fails w w1 af_inet sock_stream 0 e eq,
      inr (refl, (_, refl), (1, omega arith, refl)),
    ),
  )
  after_socket-Ends w small answers enough enough' (done n, w1) eq =
      let (calm, calm') = peer.socket_calm w af_inet sock_stream 0 in
      let after : (os.socket w af_inet sock_stream 0).1 ≡ w1 = ap (λ x. x.1) eq in
      after_pton-Ends w w1 n small (table.socket_done w w1 af_inet sock_stream 0 n eq) answers
        (omega (arith, ap sending.signals after)) (omega (arith, ap receiving.signals after))
        (os.inet_pton af_inet server_address)

  -- Let the peer answer each connection with the frame of `p`, of at most `max_payload_size` bytes,
  -- and let the fuel exceed the length of the telemetry's frame, and that of the answer's frame, each
  -- plus the number of signals that may interrupt such a call. Then the simulator's `main` returns,
  -- and the process holds the descriptors that it held before. Either the exit code is 0, the kernel
  -- has accepted for the connection the frame of the telemetry and nothing else, what is printed is
  -- the transcript with `p` as the response, and no error is printed; or the exit code is 1, one
  -- error is printed, and of the transcript at most the first three lines.
  pub main-exchanges :
      (w : W)
      → length p ≤ max_payload_size
      → ((w1 w2 : W) (fd : ℤ) (a : Address) (m : ℕ)
          → os.connect w1 fd a ≡ (done m, w2)
          → inbound w2 fd ≡ frame p ++ rest)
      → length (frame telemetry) + sending.signals w < fuel
      → length (frame p) + receiving.signals w < fuel
      → (e : Ended) × (w' : W) × (main os close sockets fuel w ≡ some (e, w'))
        × Ends table sending p w e w'
  unfolding main
  main-exchanges w small answers enough enough' =
      after_socket-Ends w small answers enough enough' (os.socket w af_inet sock_stream 0) refl
