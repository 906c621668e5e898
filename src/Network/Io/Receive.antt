-- ===== src/Network/Io/Receive.antt =====
-- `receiveExact`: it returns, and the buffer holds what has been read from the peer.
use net_pulse.Base.{
  ℕ, ℤ, zero, suc, ◌+◌, ◌-◌, ◌≤◌, ◌<◌, ◌≡◌, inl, inr, refl, sym, ap, ◌∙◌, List, ◌++◌, arith, some,
  length, drop, ltb, ◌==◌, Bool-cases, ltb→lt, not-ltb→le, ==_iff, empty-of_zero,
}
use net_pulse.Os.Errno.{eintr}
use net_pulse.Os.Sockets.{Sockets, RecvLaws, RecvResult, received, recv_failed}
use net_pulse.Network.Io.{
  IoResult, completed, peer_closed, would_block, error, result, blocks, after_recv, recv_loop,
  receive_exact,
}
use net_pulse.Network.Io.Overwrite.{overwrite, length-overwrite}
use net_pulse.Network.Io.Receiving.{RecvEnds, Ends, stop, resume, retried}

module _ {W : Type 0} (os : Sockets W) (laws : RecvLaws os) (fd : ℤ) where
  open laws use {inbound, signals, recv_received, recv_fails, recv_interrupted}

  module _ (size : ℕ) where
    abbrev Loops : ℕ → Type 0
    Loops fuel =
        (w : W) (buffer : List ℕ) (total : ℕ)
        → length buffer ≡ size
        → total ≤ size
        → size - total + signals w < fuel
        → Ends os laws fd w buffer total (recv_loop os fuel w fd buffer total)

    -- Bytes have come, or the peer has closed.
    received-Ends :
        (fuel : ℕ) (w w' : W) (buffer : List ℕ) (total : ℕ) (bytes : List ℕ)
        → Loops fuel
        → length buffer ≡ size
        → total < size
        → size - total + signals w < suc fuel
        → os.recv w fd (length buffer - total) ≡ (received bytes, w')
        → Ends os laws fd w buffer total (
            after_recv
              (λ w' buffer' total'. recv_loop os fuel w' fd buffer' total')
              buffer
              total
              (received bytes, w'))
    unfolding after_recv
    received-Ends fuel w w' buffer total bytes again len room enough e =
        elim (Bool-cases (ltb 0 (length bytes))) [
          | inl some_read ↦
              let (fits, read, calm) = recv_received w w' fd (length buffer - total) bytes e in
              let fits' : total + length bytes ≤ length buffer = omega arith in
              let (out, eq, s) =
                again w' (overwrite total bytes buffer) (total + length bytes)
                  (length-overwrite total bytes buffer fits' ∙ len) (omega arith)
                  (omega (arith, ltb→lt 0 (length bytes) some_read)) in
              rw some_read
                (out, eq, resume os laws fd w w' buffer total bytes out fits' read calm s)
          | inr nothing ↦
              let (fits, read, calm) = recv_received w w' fd (length buffer - total) bytes e in
              let same : inbound w' fd ≡ inbound w fd = sym (
                read
                ∙ ap (λ xs. xs ++ inbound w' fd)
                    (empty-of_zero bytes (not-ltb→le 0 (length bytes) nothing))) in
              rw nothing (
                _,
                refl,
                stop os laws fd w w' buffer total (result peer_closed total 0) refl (omega arith)
                    same calm (inr (inl (refl, omega arith, refl))),
              )
        ]

    -- `recv` has failed.
    failed-Ends :
        (fuel : ℕ) (w w' : W) (buffer : List ℕ) (total : ℕ) (errno : ℕ)
        → Loops fuel
        → length buffer ≡ size
        → total < size
        → size - total + signals w < suc fuel
        → os.recv w fd (length buffer - total) ≡ (recv_failed errno, w')
        → Ends os laws fd w buffer total (
            after_recv
              (λ w' buffer' total'. recv_loop os fuel w' fd buffer' total')
              buffer
              total
              (recv_failed errno, w'))
    unfolding after_recv
    failed-Ends fuel w w' buffer total errno again len room enough e =
        elim (Bool-cases (errno == eintr)) [
          | inl interrupted ↦
              let (nonzero, same, calm) = recv_fails w w' fd (length buffer - total) errno e in
              let isint : errno ≡ eintr = (==_iff errno eintr).0 interrupted in
              let fewer : signals w' < signals w =
                recv_interrupted w w' fd (length buffer - total)
                  (e ∙ ap (λ x. (recv_failed x, w')) isint) in
              let (out, eq, s) = again w' buffer total len (omega arith) (omega arith) in
              rw interrupted (out, eq, retried os laws fd w w' buffer total out same calm s)
          | inr other ↦ elim (Bool-cases (blocks errno)) [
            | inl none_yet ↦
                let (nonzero, same, calm) = recv_fails w w' fd (length buffer - total) errno e in
                rw other (
                  rw none_yet (
                    _,
                    refl,
                    stop os laws fd w w' buffer total (result would_block total errno) refl
                        (omega arith) same calm (inr (inr (inl (refl, omega arith, ground arith)))),
                  ))
            | inr broken ↦
                let (nonzero, same, calm) = recv_fails w w' fd (length buffer - total) errno e in
                rw other (
                  rw broken (
                    _,
                    refl,
                    stop os laws fd w w' buffer total (result error total errno) refl (omega arith)
                        same calm (inr (inr (inr (refl, omega arith, nonzero, ground arith)))),
                  ))
          ]
        ]

    after_recv-Ends :
        (fuel : ℕ) (w : W) (buffer : List ℕ) (total : ℕ)
        → Loops fuel
        → length buffer ≡ size
        → total < size
        → size - total + signals w < suc fuel
        → (res : RecvResult × W) → os.recv w fd (length buffer - total) ≡ res
        → Ends os laws fd w buffer total (
            after_recv
              (λ w' buffer' total'. recv_loop os fuel w' fd buffer' total')
              buffer
              total
              res)
    after_recv-Ends fuel w buffer total again len room enough (received bytes, w') e =
        received-Ends fuel w w' buffer total bytes again len room enough e
    after_recv-Ends fuel w buffer total again len room enough (recv_failed errno, w') e =
        failed-Ends fuel w w' buffer total errno again len room enough e

    recv_loop-Ends : (fuel : ℕ) → Loops fuel
    unfolding recv_loop
    recv_loop-Ends zero w buffer total len h enough = absurd (omega arith)
    recv_loop-Ends (suc fuel) w buffer total len h enough =
        elim (Bool-cases (ltb total (length buffer))) [
          | inl room ↦ rw room (
              after_recv-Ends fuel w buffer total (recv_loop-Ends fuel) len
                (omega (arith, ltb→lt _ _ room)) enough _ refl)
          | inr whole ↦ rw whole (
            _,
            refl,
            stop os laws fd w w buffer total (result completed total 0) refl (omega arith) refl
                (omega arith) (inl (refl, omega (arith, not-ltb→le _ _ whole), refl)),
          )
        ]

  pub receive_exact-total :
      (fuel : ℕ) (w : W) (buffer : List ℕ)
      → length buffer + signals w < fuel
      → (r : IoResult) × (got : List ℕ) × (w' : W) × (receive_exact os fuel w fd buffer
          ≡ some (r, got ++ drop (length got) buffer, w'))
        × (r.bytes_transferred ≡ length got)
        × (length got ≤ length buffer)
        × (inbound w fd ≡ got ++ inbound w' fd)
        × (signals w' ≤ signals w)
        × RecvEnds (length buffer) r
  unfolding receive_exact
  receive_exact-total fuel w buffer enough =
      let (out, eq, s) =
        recv_loop-Ends (length buffer) fuel w buffer 0 refl (omega arith) (omega arith) in
      (
        out.0,
        s.got,
        out.2,
        eq
            ∙ ap (λ b. some (out.0, b, out.2))
                (s.written ∙ ap (λ n. s.got ++ drop n buffer) (omega arith)),
        s.count ∙ omega arith,
        omega (arith, s.within),
        s.read,
        s.calmer,
        s.ends,
      )
