-- ===== src/Server/EventLoop/Interest.antt =====
-- The events that the epoll watches for a connection follow the bytes that it still has to send.
use net_pulse.Base.{
  ℕ, ℤ, ◌≡◌, ◌⊎◌, inl, inr, refl, ap, ◌∙◌, true, not, ◌||◌, none, some, nonneg, Bool-cases,
}
use net_pulse.Os.Errno.{epollin, epollout, epollrdhup}
use net_pulse.Os.Sockets.{SysResult, done, failed}
use net_pulse.Os.Descriptors.{EpollLaws, ctl_mod}
use net_pulse.Network.Epoll
use net_pulse.Network.Epoll.{Epoll}
use net_pulse.Server.Connection
use net_pulse.Server.Connection.{Connection, wants_write}
use net_pulse.Server.EventLoop.{
  EventLoop, Env, has_any, wanted_events, update_interest, update_or_close,
}
use net_pulse.Server.EventLoop.Connections.{client, Touches, update_or_close-cases}

module _ {W : Type 0} (env : Env W) (laws : EpollLaws env.descriptors) where
  open env use {descriptors}
  open laws use {interest}

  ctl_result-watched :
      (w : W) (epfd fd : ℤ) (events : ℕ) (res : SysResult × W)
      → descriptors.epoll_ctl w epfd ctl_mod fd (some events) ≡ res
      → (Epoll.ctl_result res).0.success ≡ true
      → interest (Epoll.ctl_result res).1 epfd fd ≡ some events
  ctl_result-watched w epfd fd events (done n, w') e s = laws.mod_done w w' epfd fd events n e
  ctl_result-watched w epfd fd events (failed k, w') e s = cc

  modify-watched :
      (w : W) (e : Epoll) (fd : ℤ) (events : ℕ)
      → (Epoll.modify descriptors w e fd events).0.success ≡ true
      → interest (Epoll.modify descriptors w e fd events).1 e.fd fd ≡ some events
  unfolding Epoll.modify Epoll.guarded Epoll.control_epoll
  modify-watched w e fd events s = elim (Bool-cases (not (nonneg e.fd) || not (nonneg fd))) [
    | inl bad ↦ cc (rw bad at s)
    | inr good ↦ rw good (
        ctl_result-watched w e.fd fd events (descriptors.epoll_ctl w e.fd ctl_mod fd (some events))
          refl (rw good at s))
  ]

  wanted_events-masks :
      (c : Connection)
      → (has_any (wanted_events c) epollin ≡ true)
        × (has_any (wanted_events c) epollrdhup ≡ true)
        × (has_any (wanted_events c) epollout ≡ wants_write c)
  wanted_events-masks c = elim (Bool-cases (wants_write c)) [
    | inl e ↦ rw e (refl, refl, refl)
    | inr e ↦ rw e (refl, refl, refl)
  ]

  -- `updateInterest`, with `closeConnection` where it fails, either leaves the loop as it is, and then the
  -- epoll watches the connection's descriptor for EPOLLIN and EPOLLRDHUP, and for EPOLLOUT
  -- exactly if the connection still has bytes to send; or it closes the connection at the given
  -- descriptor and touches no other.
  pub update_or_close-watched :
      (w : W) (l : EventLoop) (fd : ℤ) (c : Connection)
      → let (l', w') = update_or_close env w l fd c in
        ((l' ≡ l)
          × ((mask : ℕ) × (interest w' l.epoll.fd (Connection.fd c) ≡ some mask)
              × (has_any mask epollin ≡ true)
              × (has_any mask epollrdhup ≡ true)
              × (has_any mask epollout ≡ wants_write c)))
        ⊎ (Touches l l' fd × (client l' fd ≡ none))
  unfolding update_interest
  update_or_close-watched w l fd c = elim (update_or_close-cases env w l fd c) [
    | inr (_, t, gone) ↦ inr (t, gone)
    | inl (updated, same, same_world) ↦
        let (reads, hangs_up, writes) = wanted_events-masks c in
        inl (
          same,
          (
            wanted_events c,
            ap (λ k. interest k l.epoll.fd (Connection.fd c)) same_world
                ∙ modify-watched w l.epoll (Connection.fd c) (wanted_events c) updated,
            reads,
            hangs_up,
            writes,
          ),
        )
  ]
