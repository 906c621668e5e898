-- ===== src/Server/EventLoop/Init/Cases.antt =====
-- A call in the constructor of the event loop succeeds, or it says why it does not.
use net_pulse.Base.{
  ℕ, ℤ, ◌≡◌, ◌≢◌, ◌⊎◌, inl, inr, refl, true, false, not, ◌||◌, some, bit_and, bit_or, ◌==◌, nonneg,
  arith, Bool-cases,
}
use net_pulse.Os.Errno.{o_nonblock}
use net_pulse.Os.Sockets.{SysResult, done, failed}
use net_pulse.Os.Descriptors.{Descriptors, ErrnoLaws, ctl_add}
use net_pulse.Network.Epoll
use net_pulse.Network.Epoll.{Epoll}
use net_pulse.Network.NonBlocking

module _ {W : Type 0} (os : Descriptors W) (laws : ErrnoLaws os) where
  -- An addition that fails says why.
  pub add-cases :
      (w : W) (e : Epoll) (fd : ℤ) (events : ℕ)
      → let (r, w') = Epoll.add os w e fd events in
        ((r.success ≡ false) × (r.error_number ≢ 0))
        ⊎ ((r.success ≡ true)
            × ((n : ℕ) × (os.epoll_ctl w e.fd ctl_add fd (some events) ≡ (done n, w'))))
  unfolding Epoll.add Epoll.guarded Epoll.control_epoll
  add-cases w e fd events = elim (Bool-cases (not (nonneg e.fd) || not (nonneg fd))) [
    | inl bad ↦ rw bad (inl (refl, omega arith))
    | inr good ↦ rw good (by_result (os.epoll_ctl w e.fd ctl_add fd (some events)) refl)
  ]
    where
      by_result :
          (res : SysResult × W)
          → os.epoll_ctl w e.fd ctl_add fd (some events) ≡ res
          → (((Epoll.ctl_result res).0.success ≡ false)
              × ((Epoll.ctl_result res).0.error_number ≢ 0))
            ⊎ (((Epoll.ctl_result res).0.success ≡ true)
                × ((n : ℕ) × (os.epoll_ctl w e.fd ctl_add fd (some events)
                      ≡ (done n, (Epoll.ctl_result res).1))))
      by_result (done n, w') h = inr (refl, (n, h))
      by_result (failed k, w') h = inl (refl, laws.ctl_fails w w' e.fd fd ctl_add (some events) k h)

  pub set_non_blocking-cases :
      (w : W) (fd : ℤ)
      → let (r, w') = NonBlocking.set_non_blocking os w fd in
        ((r.success ≡ false) × (r.error_number ≢ 0)) ⊎ (r.success ≡ true)
  unfolding NonBlocking.set_non_blocking
  set_non_blocking-cases w fd = by_flags (os.fcntl_getfl w fd) refl
    where
      by_set :
          (w1 : W) (flags : ℕ) (res : SysResult × W)
          → os.fcntl_setfl w1 fd flags ≡ res
          → let (r, w') = NonBlocking.after_setfl res in
            ((r.success ≡ false) × (r.error_number ≢ 0)) ⊎ (r.success ≡ true)
      by_set w1 flags (done n, w') h = inr refl
      by_set w1 flags (failed k, w') h = inl (refl, laws.setfl_fails w1 w' fd flags k h)

      by_flags :
          (res : SysResult × W)
          → os.fcntl_getfl w fd ≡ res
          → let (r, w') = NonBlocking.after_getfl os fd res in
            ((r.success ≡ false) × (r.error_number ≢ 0)) ⊎ (r.success ≡ true)
      by_flags (failed k, w') h = inl (refl, laws.getfl_fails w w' fd k h)
      by_flags (done flags, w') h = elim (Bool-cases (not (bit_and flags o_nonblock == 0))) [
        | inl already ↦ rw already (inr refl)
        | inr blocking ↦ rw blocking (
            by_set w' (bit_or flags o_nonblock) (os.fcntl_setfl w' fd (bit_or flags o_nonblock))
              refl)
      ]
