-- ===== src/Network/Epoll.antt =====
-- include/netpulse/network/epoll.hpp and src/network/epoll.cpp. `none` means that the fuel of the loop
-- of `wait` ran out.
use net_pulse.Base.{
  ℕ, ℤ, zero, suc, ◌-◌, ◌^◌, pos, negsuc, Bool, true, false, not, ◌||◌, Option, none, some, List,
  nonneg, ltb, ◌==◌, if◌then◌else◌,
}
use net_pulse.Os.Errno.{eintr, ebadf, einval}
use net_pulse.Os.Sockets.{SysResult, done, failed}
use net_pulse.Os.Startup.{Startup, epoll_cloexec}
use net_pulse.Os.Descriptors.{
  Descriptors, EpollOp, ctl_add, ctl_mod, ctl_del, Event, WaitResult, waited, wait_failed,
}

pub record Epoll : Type 0 where
  pub fd : ℤ

pub record EpollOperationResult : Type 0 where
  pub success : Bool
  pub error_number : ℕ

-- `events` are the first `event_count` entries of the caller's buffer; a count of -1 is `none`.
pub record EpollWaitResult : Type 0 where
  pub events : Option (List Event)
  pub error_number : ℕ

abbrev pub succeeds : EpollOperationResult
succeeds = record { success = true; error_number = 0 }

abbrev pub fails : ℕ → EpollOperationResult
fails e = record { success = false; error_number = e }

unfoldable pub valid : Epoll → Bool
valid e = nonneg e.fd

abbrev pub ctl_result {ℓ} : {W : Type ℓ} → SysResult × W → EpollOperationResult × W
ctl_result (done n, w) = (succeeds, w)
ctl_result (failed e, w) = (fails e, w)

-- The event pointer: none for a deletion.
abbrev pub event_pointer : EpollOp → ℕ → Option ℕ
event_pointer ctl_add events = some events
event_pointer ctl_mod events = some events
event_pointer ctl_del events = none

-- `std::numeric_limits<int>::max()`
abbrev pub int_max : ℕ
int_max = 2 ^ 31 - 1

abbrev pub wait_fails : ℕ → EpollWaitResult
wait_fails e = record { events = none; error_number = e }

abbrev pub after_wait {ℓ} :
    {W : Type ℓ}
    → (W → Option (EpollWaitResult × W))
    → WaitResult × W
    → Option (EpollWaitResult × W)
after_wait again (waited events, w) = some (record { events = some events; error_number = 0 }, w)
after_wait again (wait_failed e, w) = if e == eintr then again w else some (wait_fails e, w)

abbrev pub of_result {ℓ} : {W : Type ℓ} → SysResult × W → Epoll × W
of_result (done n, w) = (record { fd = pos n }, w)
of_result (failed e, w) = (record { fd = negsuc 0 }, w)

unfoldable pub init : {W : Type 0} → Startup W → W → Epoll × W
init os w = of_result (os.epoll_create1 w epoll_cloexec)

-- The new owner, and the old one.
unfoldable pub move : Epoll → Epoll × Epoll
move other = (record { fd = other.fd }, record { fd = negsuc 0 })

module _ {W : Type 0} (os : Descriptors W) where
  unfoldable pub control_epoll : W → ℤ → EpollOp → ℤ → ℕ → EpollOperationResult × W
  control_epoll w epoll_fd operation watched_fd events =
      ctl_result (os.epoll_ctl w epoll_fd operation watched_fd (event_pointer operation events))

  -- The guard of `add`, `modify` and `remove`, and the call behind it.
  unfoldable pub guarded : W → Epoll → EpollOp → ℤ → ℕ → EpollOperationResult × W
  unfolding valid
  guarded w e operation watched_fd events =
      if not (valid e) || not (nonneg watched_fd)
      then (fails ebadf, w)
      else control_epoll w e.fd operation watched_fd events

  unfoldable pub add : W → Epoll → ℤ → ℕ → EpollOperationResult × W
  unfolding guarded
  add w e watched_fd events = guarded w e ctl_add watched_fd events

  unfoldable pub modify : W → Epoll → ℤ → ℕ → EpollOperationResult × W
  unfolding guarded
  modify w e watched_fd events = guarded w e ctl_mod watched_fd events

  unfoldable pub remove : W → Epoll → ℤ → EpollOperationResult × W
  unfolding guarded
  remove w e watched_fd = guarded w e ctl_del watched_fd 0

  unfoldable pub wait_loop : ℕ → W → Epoll → ℕ → ℤ → Option (EpollWaitResult × W)
  wait_loop zero w e size timeout = none
  wait_loop (suc fuel) w e size timeout =
      let again = λ (w' : W). wait_loop fuel w' e size timeout in
      after_wait again (os.epoll_wait w e.fd size timeout)

  -- `size` is the size of the caller's buffer.
  unfoldable pub wait : ℕ → W → Epoll → ℕ → ℤ → Option (EpollWaitResult × W)
  unfolding valid
  wait fuel w e size timeout =
      if not (valid e)
      then some (wait_fails ebadf, w)
      else if size == 0 || ltb int_max size
      then some (wait_fails einval, w)
      else wait_loop fuel w e size timeout

  unfoldable pub destroy : W → Epoll → W
  unfolding valid
  destroy w e = if valid e then os.close w e.fd else w

  -- `this != &other` is `same ≡ false`.
  unfoldable pub move_assign : Bool → W → Epoll → Epoll → Epoll × Epoll × W
  unfolding valid
  move_assign true w e other = (e, other, w)
  move_assign false w e other =
      (record { fd = other.fd }, record { fd = negsuc 0 }, (if valid e then os.close w e.fd else w))
