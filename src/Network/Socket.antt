-- ===== src/Network/Socket.antt =====
-- include/netpulse/network/socket.hpp and src/network/socket.cpp: the owner of a descriptor. A move
-- returns both objects; `close` is the system's.
use net_pulse.Base.{ℤ, negsuc, Bool, true, false, nonneg, ◌==ℤ◌, if◌then◌else◌}

pub record Socket : Type 0 where
  pub fd : ℤ

-- -1
abbrev pub no_fd : ℤ
no_fd = negsuc 0

unfoldable pub empty : Socket
empty = record { fd = no_fd }

unfoldable pub of_fd : ℤ → Socket
of_fd fd = record { fd = fd }

unfoldable pub valid : Socket → Bool
valid s = nonneg s.fd

-- The descriptor, and the socket without it.
unfoldable pub release : Socket → ℤ × Socket
release s = (s.fd, record { fd = no_fd })

-- The new owner, and the old one.
unfoldable pub move : Socket → Socket × Socket
unfolding release
move other = let (fd, other') = release other in (record { fd = fd }, other')

module _ {W : Type 0} (close : W → ℤ → W) where
  unfoldable pub reset : W → Socket → ℤ → Socket × W
  unfolding valid
  reset w s new_fd =
      if s.fd ==ℤ new_fd
      then (s, w)
      else (record { fd = new_fd }, (if valid s then close w s.fd else w))

  unfoldable pub destroy : W → Socket → W
  unfolding reset
  destroy w s = (reset w s no_fd).1

  -- `this != &other` is `same ≡ false`.
  unfoldable pub move_assign : Bool → W → Socket → Socket → Socket × Socket × W
  move_assign true w s other = (s, other, w)
  move_assign false w s other =
      let (fd, other') = release other in let (s', w') = reset w s fd in (s', other', w')
