-- ===== src/Network/Io.antt =====
-- include/netpulse/network/io.hpp and src/network/io.cpp. The loops take fuel; `none` means that it ran
-- out.
pub mod Send
pub mod Overwrite
pub mod Receiving
pub mod Receive
pub mod Keeps
use net_pulse.Base.{
  ℕ, ℤ, zero, suc, ◌+◌, ◌-◌, ◌≡◌, List, ◌++◌, Bool, Option, none, some, ◌||◌, length, take, drop,
  ltb, ◌==◌, if◌then◌else◌,
}
use net_pulse.Os.Errno.{eintr, eagain, ewouldblock, epipe}
use net_pulse.Os.Sockets.{Sockets, SysResult, done, failed, RecvResult, received, recv_failed}

pub data IoStatus : Type 0 where
  completed peer_closed would_block error : IoStatus

pub record IoResult : Type 0 where
  pub status : IoStatus
  pub bytes_transferred : ℕ
  pub error_number : ℕ

-- `IoResult::completed()`
abbrev pub is_completed : IoStatus → Bool
is_completed completed = Bool.true
is_completed _ = Bool.false

abbrev pub result : IoStatus → ℕ → ℕ → IoResult
result status count errno = record {
  status = status;
  bytes_transferred = count;
  error_number = errno;
}

-- `error_number == EAGAIN || error_number == EWOULDBLOCK`
abbrev pub blocks : ℕ → Bool
blocks e = e == eagain || e == ewouldblock

-- The body of `sendAll`'s loop behind the call of `send`; `again` is `continue`.
unfoldable pub after_send {ℓ} :
    {W : Type ℓ} → (W → ℕ → Option (IoResult × W)) → ℕ → SysResult × W → Option (IoResult × W)
after_send again total (done n, w) =
    if ltb 0 n then again w (total + n) else some (result error total epipe, w)
after_send again total (failed e, w) =
    if e == eintr
    then again w total
    else if blocks e
    then some (result would_block total e, w)
    else some (result error total e, w)

-- Likewise for `receiveExact`: the bytes go into the buffer at `total`.
unfoldable pub after_recv {ℓ} :
    {W : Type ℓ}
    → (W → List ℕ → ℕ → Option (IoResult × List ℕ × W))
    → List ℕ
    → ℕ
    → RecvResult × W
    → Option (IoResult × List ℕ × W)
after_recv again buffer total (received bytes, w) =
    if ltb 0 (length bytes)
    then again w (take total buffer ++ bytes ++ drop (total + length bytes) buffer)
        (total + length bytes)
    else some (result peer_closed total 0, buffer, w)
after_recv again buffer total (recv_failed e, w) =
    if e == eintr
    then again w buffer total
    else if blocks e
    then some (result would_block total e, buffer, w)
    else some (result error total e, buffer, w)

module _ {W : Type 0} (os : Sockets W) where
  unfoldable pub send_loop : ℕ → W → ℤ → List ℕ → ℕ → Option (IoResult × W)
  send_loop zero w fd bytes total = none
  send_loop (suc fuel) w fd bytes total =
      let again = λ (w' : W) (total' : ℕ). send_loop fuel w' fd bytes total' in
      if ltb total (length bytes)
      then after_send again total (os.send w fd (drop total bytes))
      else some (result completed total 0, w)

  unfoldable pub send_all : ℕ → W → ℤ → List ℕ → Option (IoResult × W)
  send_all fuel w fd bytes = send_loop fuel w fd bytes 0

  unfoldable pub recv_loop : ℕ → W → ℤ → List ℕ → ℕ → Option (IoResult × List ℕ × W)
  recv_loop zero w fd buffer total = none
  recv_loop (suc fuel) w fd buffer total =
      let again = λ (w' : W) (buffer' : List ℕ) (total' : ℕ). recv_loop fuel w' fd buffer' total' in
      if ltb total (length buffer)
      then after_recv again buffer total (os.recv w fd (length buffer - total))
      else some (result completed total 0, buffer, w)

  -- The second part of the result is the caller's buffer as it is left.
  unfoldable pub receive_exact : ℕ → W → ℤ → List ℕ → Option (IoResult × List ℕ × W)
  receive_exact fuel w fd buffer = recv_loop fuel w fd buffer 0
