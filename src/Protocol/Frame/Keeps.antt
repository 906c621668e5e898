-- ===== src/Protocol/Frame/Keeps.antt =====
-- `sendFrame` and `receiveFrame` keep what every `send` and every `recv` keeps.
use net_pulse.Base.{ℕ, ℤ, inl, inr, List, Option, none, some, length, ltb, replicate, Bool-cases}
use net_pulse.Os.Sockets.{Sockets}
use net_pulse.Network.Io.{IoResult, is_completed, send_all, receive_exact}
use net_pulse.Network.Io.Keeps.{Holds, KeptBySend, KeptByRecv, send_loop-keeps, recv_loop-keeps}
use net_pulse.Protocol.Wire.{max_payload_size, header_size, to_u32, htonl, ntohl}
use net_pulse.Protocol.Frame.{
  send_payload, send_frame, receive_payload, after_header, receive_frame, ◌>>=◌,
}

Holds-bind :
    {A B : Type 0} (P : A → Type 0) (Q : B → Type 0) (o : Option A) (f : A → Option B)
    → Holds P o
    → ((a : A) → P a → Holds Q (f a))
    → Holds Q (o >>= f)
Holds-bind P Q none f h next = tt
Holds-bind P Q (some a) f h next = next a h

module _ {W : Type 0} (os : Sockets W) (P : W → Type 0) (fuel : ℕ) where
  send_payload-keeps :
      KeptBySend os P
      → (fd : ℤ) (p : List ℕ) (r : IoResult) (w : W) → P w
      → Holds (λ out. P out.1) (send_payload os fuel fd p r w)
  unfolding send_payload send_all
  send_payload-keeps kept fd p r w h = elim (Bool-cases (is_completed r.status)) [
    | inl whole ↦ rw whole (
        Holds-bind (λ out. P out.1) (λ out. P out.1) (send_all os fuel w fd p) _
          (send_loop-keeps os P kept fuel w fd p 0 h) (λ out h'. h'))
    | inr short ↦ rw short h
  ]

  pub send_frame-keeps :
      KeptBySend os P
      → (w : W) (fd : ℤ) (p : List ℕ) → P w
      → Holds (λ out. P out.1) (send_frame os fuel w fd p)
  unfolding send_frame send_all
  send_frame-keeps kept w fd p h = elim (Bool-cases (ltb max_payload_size (length p))) [
    | inl big ↦ rw big h
    | inr small ↦ rw small (
        Holds-bind (λ out. P out.1) (λ out. P out.1)
          (send_all os fuel w fd (htonl (to_u32 (length p)))) _
          (send_loop-keeps os P kept fuel w fd _ 0 h)
          (λ out h'. send_payload-keeps kept fd p out.0 out.1 h'))
  ]

  after_header-keeps :
      KeptByRecv os P
      → (fd : ℤ) (r : IoResult) (header : List ℕ) (w : W) → P w
      → Holds (λ out. P out.1) (after_header os fuel fd r header w)
  unfolding after_header receive_payload receive_exact
  after_header-keeps kept fd r header w h = elim (Bool-cases (is_completed r.status)) [
    | inl whole ↦ elim (Bool-cases (ltb max_payload_size (ntohl header))) [
      | inl big ↦ rw (whole, big) h
      | inr small ↦
          rw (whole, small)
            (Holds-bind (λ out. P out.2) (λ out. P out.1)
              (receive_exact os fuel w fd (replicate (ntohl header) 0)) _
              (recv_loop-keeps os P kept fuel w fd _ 0 h) (λ out h'. h'))
    ]
    | inr short ↦ rw short h
  ]

  pub receive_frame-keeps :
      KeptByRecv os P → (w : W) (fd : ℤ) → P w → Holds (λ out. P out.1) (receive_frame os fuel w fd)
  unfolding receive_frame receive_exact
  receive_frame-keeps kept w fd h =
      Holds-bind (λ out. P out.2) (λ out. P out.1)
        (receive_exact os fuel w fd (replicate header_size 0)) _
        (recv_loop-keeps os P kept fuel w fd _ 0 h)
        (λ out h'. after_header-keeps kept fd out.0 out.1 out.2 h')
