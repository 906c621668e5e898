-- ===== src/Network/EventFd.antt =====
-- include/netpulse/network/event_fd.hpp and src/network/event_fd.cpp. `none` means that the fuel of a
-- loop ran out.
pub mod Counter
use net_pulse.Base.{
  ℕ, ℤ, pos, negsuc, zero, suc, Bool, true, false, not, Option, none, some, nonneg, ltb, ◌==◌,
  if◌then◌else◌,
}
use net_pulse.Os.Errno.{eintr, ebadf, einval, eio}
use net_pulse.Os.Sockets.{SysResult, done, failed}
use net_pulse.Os.Descriptors.{Descriptors, ReadResult, read_done, read_failed}

pub record EventFd : Type 0 where
  pub fd : ℤ
  pub error_number : ℕ

pub record EventFdOperationResult : Type 0 where
  pub success : Bool
  pub error_number : ℕ

pub record EventFdReadResult : Type 0 where
  pub success : Bool
  pub value : ℕ
  pub error_number : ℕ

-- `sizeof(std::uint64_t)`
abbrev pub value_size : ℕ
value_size = 8

unfoldable pub valid : EventFd → Bool
valid e = nonneg e.fd

abbrev pub notified : Bool → ℕ → EventFdOperationResult
notified success e = record { success = success; error_number = e }

abbrev pub consumed : Bool → ℕ → ℕ → EventFdReadResult
consumed success value e = record { success = success; value = value; error_number = e }

abbrev pub of_result {ℓ} : {W : Type ℓ} → SysResult × W → EventFd × W
of_result (done n, w) = (record { fd = pos n; error_number = 0 }, w)
of_result (failed e, w) = (record { fd = negsuc 0; error_number = e }, w)

unfoldable pub after_write {ℓ} :
    {W : Type ℓ}
    → (W → Option (EventFdOperationResult × W))
    → SysResult × W
    → Option (EventFdOperationResult × W)
after_write again (done n, w) =
    if n == value_size then some (notified true 0, w) else some (notified false eio, w)
after_write again (failed e, w) = if e == eintr then again w else some (notified false e, w)

unfoldable pub after_read {ℓ} :
    {W : Type ℓ}
    → (W → Option (EventFdReadResult × W))
    → ReadResult × W
    → Option (EventFdReadResult × W)
after_read again (read_done n value, w) =
    if n == value_size then some (consumed true value 0, w) else some (consumed false 0 eio, w)
after_read again (read_failed e, w) = if e == eintr then again w else some (consumed false 0 e, w)

-- The new owner, and the old one.
unfoldable pub move : EventFd → EventFd × EventFd
move other = (
  record { fd = other.fd; error_number = other.error_number },
  record { fd = negsuc 0; error_number = 0 },
)

module _ {W : Type 0} (os : Descriptors W) where
  unfoldable pub init : W → ℕ → EventFd × W
  init w initial_value = of_result (os.eventfd w initial_value)

  unfoldable pub notify_loop : ℕ → W → ℤ → ℕ → Option (EventFdOperationResult × W)
  notify_loop zero w fd value = none
  notify_loop (suc fuel) w fd value =
      let again = λ (w' : W). notify_loop fuel w' fd value in
      after_write again (os.write w fd value)

  unfoldable pub notify : ℕ → W → EventFd → ℕ → Option (EventFdOperationResult × W)
  unfolding valid
  notify fuel w e value =
      if not (valid e)
      then some (notified false ebadf, w)
      else if value == 0
      then some (notified false einval, w)
      else notify_loop fuel w e.fd value

  unfoldable pub consume_loop : ℕ → W → ℤ → Option (EventFdReadResult × W)
  consume_loop zero w fd = none
  consume_loop (suc fuel) w fd =
      let again = λ (w' : W). consume_loop fuel w' fd in after_read again (os.read w fd)

  unfoldable pub consume : ℕ → W → EventFd → Option (EventFdReadResult × W)
  unfolding valid
  consume fuel w e =
      if not (valid e) then some (consumed false 0 ebadf, w) else consume_loop fuel w e.fd

  unfoldable pub close_descriptor : W → EventFd → EventFd × W
  close_descriptor w e =
      if nonneg e.fd then (record e { fd = negsuc 0 }, os.close w e.fd) else (e, w)

  unfoldable pub destroy : W → EventFd → W
  unfolding close_descriptor
  destroy w e = (close_descriptor w e).1

  -- `this != &other` is `same ≡ false`.
  unfoldable pub move_assign : Bool → W → EventFd → EventFd → EventFd × EventFd × W
  unfolding close_descriptor
  move_assign true w e other = (e, other, w)
  move_assign false w e other =
      let (e', w') = close_descriptor w e in
      (
        record { fd = other.fd; error_number = other.error_number },
        record { fd = negsuc 0; error_number = 0 },
        w',
      )
