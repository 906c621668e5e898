-- ===== src/Network/NonBlocking.antt =====
-- include/netpulse/network/nonblocking.hpp and src/network/nonblocking.cpp.
use net_pulse.Base.{ℕ, ℤ, Bool, true, false, not, bit_and, bit_or, ◌==◌, if◌then◌else◌}
use net_pulse.Os.Errno.{o_nonblock}
use net_pulse.Os.Sockets.{SysResult, done, failed}
use net_pulse.Os.Descriptors.{Descriptors}

pub record NonBlockingResult : Type 0 where
  pub success : Bool
  pub error_number : ℕ

abbrev pub set : Bool → ℕ → NonBlockingResult
set success e = record { success = success; error_number = e }

abbrev pub after_setfl {ℓ} : {W : Type ℓ} → SysResult × W → NonBlockingResult × W
after_setfl (done n, w) = (set true 0, w)
after_setfl (failed e, w) = (set false e, w)

module _ {W : Type 0} (os : Descriptors W) where
  abbrev pub after_getfl : ℤ → SysResult × W → NonBlockingResult × W
  after_getfl fd (failed e, w) = (set false e, w)
  after_getfl fd (done current_flags, w) =
      if not (bit_and current_flags o_nonblock == 0)
      then (set true 0, w)
      else after_setfl (os.fcntl_setfl w fd (bit_or current_flags o_nonblock))

  unfoldable pub set_non_blocking : W → ℤ → NonBlockingResult × W
  set_non_blocking w fd = after_getfl fd (os.fcntl_getfl w fd)
