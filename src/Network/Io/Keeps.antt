-- ===== src/Network/Io/Keeps.antt =====
-- `sendAll`, `receiveExact` and the frames over them call nothing but `send` and `recv`: they keep what
-- every such call keeps.
use net_pulse.Base.{
  ℕ, ℤ, zero, suc, ◌+◌, inl, inr, List, Option, none, some, length, drop, ltb, ◌==◌, ◌-◌,
  Bool-cases,
}
use net_pulse.Os.Errno.{eintr}
use net_pulse.Os.Sockets.{Sockets, SysResult, done, failed, RecvResult, received, recv_failed}
use net_pulse.Network.Io.{IoResult, blocks, after_send, after_recv, send_loop, recv_loop}

-- `P` holds of what has come out, if anything has.
abbrev pub Holds {ℓ} : {A : Type ℓ} → (A → Type 0) → Option A → Type 0
Holds P none = Unit
Holds P (some a) = P a

module _ {W : Type 0} (os : Sockets W) (P : W → Type 0) where
  abbrev pub KeptBySend : Type 0
  KeptBySend = (w : W) (fd : ℤ) (bytes : List ℕ) → P w → P (os.send w fd bytes).1

  abbrev pub KeptByRecv : Type 0
  KeptByRecv = (w : W) (fd : ℤ) (size : ℕ) → P w → P (os.recv w fd size).1

  after_send-keeps :
      (again : W → ℕ → Option (IoResult × W)) (total : ℕ) (res : SysResult × W)
      → ((w : W) (total' : ℕ) → P w → Holds (λ out. P out.1) (again w total'))
      → P res.1
      → Holds (λ out. P out.1) (after_send again total res)
  unfolding after_send
  after_send-keeps again total (done n, w) next h = elim (Bool-cases (ltb 0 n)) [
    | inl some_sent ↦ rw some_sent (next w (total + n) h)
    | inr none_sent ↦ rw none_sent h
  ]
  after_send-keeps again total (failed e, w) next h = elim (Bool-cases (e == eintr)) [
    | inl signal ↦ rw signal (next w total h)
    | inr other ↦ elim (Bool-cases (blocks e)) [
      | inl later ↦ rw (other, later) h
      | inr bad ↦ rw (other, bad) h
    ]
  ]

  pub send_loop-keeps :
      KeptBySend
      → (fuel : ℕ) (w : W) (fd : ℤ) (bytes : List ℕ) (total : ℕ) → P w
      → Holds (λ out. P out.1) (send_loop os fuel w fd bytes total)
  unfolding send_loop
  send_loop-keeps kept zero w fd bytes total h = tt
  send_loop-keeps kept (suc fuel) w fd bytes total h =
      elim (Bool-cases (ltb total (length bytes))) [
        | inl more ↦ rw more (
            after_send-keeps _ total (os.send w fd (drop total bytes))
              (λ w' total' h'. send_loop-keeps kept fuel w' fd bytes total' h') (kept w fd _ h))
        | inr whole ↦ rw whole h
      ]

  after_recv-keeps :
      (again : W → List ℕ → ℕ → Option (IoResult × List ℕ × W)) (buffer : List ℕ) (total : ℕ)
      (res : RecvResult × W)
      → ((w : W) (buffer' : List ℕ) (total' : ℕ)
          → P w
          → Holds (λ out. P out.2) (again w buffer' total'))
      → P res.1
      → Holds (λ out. P out.2) (after_recv again buffer total res)
  unfolding after_recv
  after_recv-keeps again buffer total (received bytes, w) next h =
      elim (Bool-cases (ltb 0 (length bytes))) [
        | inl some_read ↦ rw some_read (next w _ (total + length bytes) h)
        | inr none_read ↦ rw none_read h
      ]
  after_recv-keeps again buffer total (recv_failed e, w) next h = elim (Bool-cases (e == eintr)) [
    | inl signal ↦ rw signal (next w buffer total h)
    | inr other ↦ elim (Bool-cases (blocks e)) [
      | inl later ↦ rw (other, later) h
      | inr bad ↦ rw (other, bad) h
    ]
  ]

  pub recv_loop-keeps :
      KeptByRecv
      → (fuel : ℕ) (w : W) (fd : ℤ) (buffer : List ℕ) (total : ℕ) → P w
      → Holds (λ out. P out.2) (recv_loop os fuel w fd buffer total)
  unfolding recv_loop
  recv_loop-keeps kept zero w fd buffer total h = tt
  recv_loop-keeps kept (suc fuel) w fd buffer total h =
      elim (Bool-cases (ltb total (length buffer))) [
        | inl more ↦ rw more (
            after_recv-keeps _ buffer total (os.recv w fd (length buffer - total))
              (λ w' buffer' total' h'. recv_loop-keeps kept fuel w' fd buffer' total' h')
              (kept w fd _ h))
        | inr whole ↦ rw whole h
      ]
