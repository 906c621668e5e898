-- ===== src/Network/Ownership.antt =====
-- The destructors of `Socket`, `EventFd` and `Epoll`: each gives back the descriptor that its object has,
-- and no other.
use net_pulse.Base.{
  ℤ, ℕ, pos, ◌≡◌, inl, inr, List, ◌∷◌, nonneg, if◌then◌else◌, Bool-cases, refl, ◌∙◌,
}
use net_pulse.Os.Startup.{Startup, TableLaws}
use net_pulse.Os.Descriptors.{Descriptors}
use net_pulse.Network.Socket
use net_pulse.Network.Epoll
use net_pulse.Network.Epoll.{Epoll}
use net_pulse.Network.EventFd
use net_pulse.Network.EventFd.{EventFd}

-- A descriptor that is held if it is one.
abbrev pub push : ℤ → List ℤ → List ℤ
push fd held = if nonneg fd then fd ∷ held else held

module _ {W : Type 0} {os : Startup W} {close : W → ℤ → W} (table : TableLaws os close) where
  open table use {held}

  -- Destroying a connection gives its descriptor back.
  pub closes :
      (w : W) (n : ℕ) (rest : List ℤ)
      → held w ≡ pos n ∷ rest
      → held (Socket.destroy close w (Socket.of_fd (pos n))) ≡ rest
  unfolding Socket.destroy Socket.reset Socket.valid Socket.of_fd
  closes w n rest h = table.close_closes w (pos n) rest h

module _ {W : Type 0} {startup : Startup W} (os : Descriptors W)
    (table : TableLaws startup os.close) where
  open table use {held}

  pub eventfd-closes :
      (w : W) (e : EventFd) (rest : List ℤ)
      → held w ≡ push e.fd rest
      → held (EventFd.destroy os w e) ≡ rest
  unfolding EventFd.destroy EventFd.close_descriptor
  eventfd-closes w e rest h = elim (Bool-cases (nonneg e.fd)) [
    | inl real ↦
        rw (real, EventFd.destroy, EventFd.close_descriptor)
          (table.close_closes w e.fd rest (h ∙ rw real refl))
    | inr none ↦ rw (none, EventFd.destroy, EventFd.close_descriptor) (h ∙ rw none refl)
  ]

  pub epoll-closes :
      (w : W) (e : Epoll) (rest : List ℤ)
      → held w ≡ push e.fd rest
      → held (Epoll.destroy os w e) ≡ rest
  unfolding Epoll.destroy Epoll.valid
  epoll-closes w e rest h = elim (Bool-cases (nonneg e.fd)) [
    | inl real ↦ rw real (table.close_closes w e.fd rest (h ∙ rw real refl))
    | inr none ↦ rw none (h ∙ rw none refl)
  ]
