-- ===== src/Apps/Simulator/Talk.antt =====
-- The device simulator on a connection: the telemetry goes out, the answer comes in.
use net_pulse.Base.{
  ℕ, ℤ, pos, ◌+◌, ◌≤◌, ◌<◌, ◌≡◌, ◌⊎◌, inl, inr, refl, ap, ◌∙◌, List, [], ◌∷◌, ◌++◌, false, take,
  length, arith, subst, take-length,
}
use net_pulse.Os.Sockets.{Sockets, SendLaws, RecvLaws}
use net_pulse.Os.Startup.{Startup, TableLaws, PeerLaws}
use net_pulse.Network.Socket
use net_pulse.Network.Io.Keeps.{Holds}
use net_pulse.Protocol.Wire.{max_payload_size, frame, length-frame}
use net_pulse.Protocol.Frame.{
  SendFrameResult, FrameStatus, completed, frame_completed, send_frame, receive_frame,
}
use net_pulse.Protocol.Frame.Send.{SendFrameEnds, send_frame-total}
use net_pulse.Protocol.Frame.Receive.{IsCut, receive_frame-frame}
use net_pulse.Protocol.Frame.Keeps.{send_frame-keeps, receive_frame-keeps}
use net_pulse.Network.Ownership.{closes}
use net_pulse.Apps.Simulator
use net_pulse.Apps.Simulator.{
  Ended, Line, Failure, starting, connected, telemetry_sent, response, telemetry, server_address,
  server_port, main,
}
use net_pulse.Apps.Simulator.Ends.{Result}

cut-unfinished : (s : FrameStatus) → IsCut s → frame_completed s ≡ false
cut-unfinished s h = ground arith

short-unfinished :
    (size : ℕ) (r : SendFrameResult)
    → SendFrameEnds size r
    → ((r.status ≡ completed) × (r.bytes_transferred ≡ size)) ⊎ (frame_completed r.status ≡ false)
short-unfinished size r (inl (s, n, e)) = inl (s, n)
short-unfinished size r (inr (inl (s, n, e))) = inr (ap frame_completed s)
short-unfinished size r (inr (inr (s, n, e, e'))) = inr (ap frame_completed s)

module _ {W : Type 0} (os : Startup W) (close : W → ℤ → W) (sockets : Sockets W)
    (table : TableLaws os close) (sending : SendLaws sockets) (receiving : RecvLaws sockets)
    (peer : PeerLaws os close sockets table sending receiving) (fuel : ℕ) (p rest : List ℕ) where
  open table use {held}
  open sending use {wire}
  open receiving use {inbound}

  keeps_wire :
      (w1 : W) (n : ℕ)
      → wire (Socket.destroy close w1 (Socket.of_fd (pos n))) (pos n) ≡ wire w1 (pos n)
  unfolding Socket.destroy Socket.reset Socket.valid Socket.of_fd
  keeps_wire w1 n = peer.close_keeps w1 (pos n) (pos n)

  after_receive-Ends :
      (w w2 : W) (n : ℕ)
      → length p ≤ max_payload_size
      → held w2 ≡ pos n ∷ held w
      → inbound w2 (pos n) ≡ frame p ++ rest
      → length (frame p) + receiving.signals w2 < fuel
      → wire w2 (pos n) ≡ frame telemetry
      → Result table sending p w (
          Simulator.after_receive os close sockets fuel
            (Socket.of_fd (pos n))
            (receive_frame sockets fuel w2 (pos n)))
  after_receive-Ends w w2 n small table_ok sent enough accepted =
      let (r, w3, eq, out) =
        receive_frame-frame sockets receiving fuel (pos n) p rest w2 small sent enough in
      let kept : (held w3 ≡ held w2) × (wire w3 (pos n) ≡ wire w2 (pos n)) =
        subst (Holds (λ o. (held o.1 ≡ held w2) × (wire o.1 (pos n) ≡ wire w2 (pos n)))) eq (
          receive_frame-keeps sockets (λ x. (held x ≡ held w2) × (wire x (pos n) ≡ wire w2 (pos n)))
            fuel recv_kept w2 (pos n) (refl, refl)) in
      let freed = closes table w3 n (held w) (kept.0 ∙ table_ok) in
      elim out [
        | inl (same, _) ↦ (
          Simulator.ended 0
              (starting ∷ connected ∷ telemetry_sent telemetry ∷ response r.payload ∷ []) [],
          Socket.destroy close w3 (Socket.of_fd (pos n)),
          rw (eq, ap (λ x. frame_completed x.status) same) refl,
          (
            freed,
            inl (
              refl,
              refl,
              ap (λ x. starting ∷ connected ∷ telemetry_sent telemetry ∷ response x.payload ∷ [])
                  same,
              (pos n, keeps_wire w3 n ∙ kept.1 ∙ accepted),
            ),
          ),
        )
        | inr (cut, _, _) ↦ (
          Simulator.ended 1 (starting ∷ connected ∷ telemetry_sent telemetry ∷ [])
              (Simulator.not_received r.bytes_transferred r.error_number ∷ []),
          Socket.destroy close w3 (Socket.of_fd (pos n)),
          rw (eq, cut-unfinished r.status cut) refl,
          (freed, inr (refl, (_, refl), (3, omega arith, refl))),
        )
      ]
    where
      recv_kept :
          (x : W) (fd : ℤ) (size : ℕ)
          → (held x ≡ held w2) × (wire x (pos n) ≡ wire w2 (pos n))
          → (held (sockets.recv x fd size).1 ≡ held w2)
            × (wire (sockets.recv x fd size).1 (pos n) ≡ wire w2 (pos n))
      recv_kept x fd size (h, e) = let (k, l) = peer.recv_keeps x fd (pos n) size in (k ∙ h, l ∙ e)

  -- What the sending leaves as it was, from `w1` to `x`.
  abbrev Undisturbed : W → W → ℕ → Type 0
  Undisturbed w1 x n =
      (held x ≡ held w1)
      × (inbound x (pos n) ≡ inbound w1 (pos n))
      × (receiving.signals x ≤ receiving.signals w1)

  send_kept :
      (w1 : W) (n : ℕ) (x : W) (fd : ℤ) (bytes : List ℕ)
      → Undisturbed w1 x n
      → Undisturbed w1 (sockets.send x fd bytes).1 n
  send_kept w1 n x fd bytes (h, i, c) =
      let (k, l, m) = peer.send_keeps x fd (pos n) bytes in (k ∙ h, l ∙ i, omega arith)

  pub after_send-Ends :
      (w w1 : W) (n : ℕ)
      → length p ≤ max_payload_size
      → held w1 ≡ pos n ∷ held w
      → inbound w1 (pos n) ≡ frame p ++ rest
      → length (frame telemetry) + sending.signals w1 < fuel
      → length (frame p) + receiving.signals w1 < fuel
      → wire w1 (pos n) ≡ []
      → Result table sending p w (
          Simulator.after_send os close sockets fuel
            (Socket.of_fd (pos n))
            (send_frame sockets fuel w1 (pos n) telemetry))
  unfolding Socket.of_fd
  after_send-Ends w w1 n small table_ok answer enough enough' fresh =
      let (r, w2, eq, out) =
        send_frame-total sockets sending fuel (pos n) telemetry w1
          (omega (arith, length-frame telemetry)) in
      let kept : Undisturbed w1 w2 n = subst (Holds (λ o. Undisturbed w1 o.1 n)) eq (
        send_frame-keeps sockets (λ x. Undisturbed w1 x n) fuel (send_kept w1 n) w1 (pos n)
          telemetry (refl, refl, omega arith)) in
      elim out [
        | inl (big, _, _) ↦ absurd (omega (arith, big))
        | inr (_, accepted, ends) ↦ elim (short-unfinished (length (frame telemetry)) r ends) [
          | inl (whole, all) ↦
              let (e, w3, eq', end) =
                after_receive-Ends w w2 n small (kept.0 ∙ table_ok) (kept.1 ∙ answer) (omega arith)
                  (accepted
                    ∙ ap (λ xs. xs ++ take r.bytes_transferred (frame telemetry)) fresh
                    ∙ take-length (frame telemetry) r.bytes_transferred (omega arith)) in
              (e, w3, rw (eq, whole) eq', end)
          | inr short ↦ (
            Simulator.ended 1 (starting ∷ connected ∷ [])
                (Simulator.not_sent r.bytes_transferred r.error_number ∷ []),
            Socket.destroy close w2 (Socket.of_fd (pos n)),
            rw (eq, short) refl,
            (
              closes table w2 n (held w) (kept.0 ∙ table_ok),
              inr (refl, (_, refl), (2, omega arith, refl)),
            ),
          )
        ]
      ]
