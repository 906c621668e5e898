-- ===== src/Server/EventLoop/Accept.antt =====
-- `acceptReadyClients` returns, keeps the connections that there are, and gives the new ones fresh ids.
use net_pulse.Base.{
  ℕ, ℤ, pos, zero, suc, ◌+◌, ◌^◌, ◌<◌, ◌≤◌, ◌≡◌, ◌⊎◌, inl, inr, refl, sym, ap, ◌∙◌, Bool, true,
  false, Option, none, some, ◌==◌, arith, Bool-cases, Option-cases, not, ◌||◌, nonneg, ==_iff,
  le_refl,
}
use net_pulse.Os.Errno.{eintr}
use net_pulse.Os.Sockets.{SysResult, done, failed}
use net_pulse.Os.Descriptors.{AcceptLaws, ctl_add}
use net_pulse.Network.Io.{blocks}
use net_pulse.Network.Epoll
use net_pulse.Network.Epoll.{Epoll}
use net_pulse.Network.Socket
use net_pulse.Network.Socket.{Socket}
use net_pulse.Server.Connection
use net_pulse.Server.Clients.{ClientState, find}
use net_pulse.Server.EventLoop.{
  EventLoop, Env, client_events, erase_client, accept_client, after_accept, accept_ready_clients,
}
use net_pulse.Server.EventLoop.Connections.{client}
use net_pulse.Server.EventLoop.Ids.{IsValid, Enters, Enters-IsValid, accept_client-Enters}

-- Clients have been accepted: every connection is as it was, and each that is new has an id that the
-- counter had not yet reached.
pub record Accepts (l l' : EventLoop) : Type 0 where
  pub grows : l.next_connection_id ≤ l'.next_connection_id
  pub kept : (b : ℤ) (s : ClientState) → client l b ≡ some s → client l' b ≡ some s
  pub new :
      (b : ℤ) (s' : ClientState)
      → client l' b ≡ some s'
      → (client l b ≡ some s') ⊎ ((client l b ≡ none) × (l.next_connection_id ≤ s'.id))

Accepts-refl :
    (l l' : EventLoop)
    → l'.connections ≡ l.connections
    → l'.next_connection_id ≡ l.next_connection_id
    → Accepts l l'
Accepts-refl l l' same next = record {
  grows = omega arith;
  kept = λ b s e. ap (find b) same ∙ e;
  new = λ b s e. inl (ap (find b) (sym same) ∙ e);
}

Accepts-step : {l l' l'' : EventLoop} {fd : ℤ} → Enters l l' fd → Accepts l' l'' → Accepts l l''
Accepts-step {l} {l'} {l''} {fd} n a = record {
  grows = omega (arith, n.next, a.grows);
  kept = λ b s e. a.kept b s (n.kept b s e);
  new = λ b s e. elim (a.new b s e) [
    | inl f ↦ elim (n.new b s f) [
      | inl g ↦ inl g
      | inr (at_fd, free, i, _) ↦ inr (ap (client l) at_fd ∙ free, omega arith)
    ]
    | inr (f, fresh) ↦ elim (Option-cases (client l b)) [
      | inl g ↦ inr (g, omega (arith, n.next))
      | inr (r, g) ↦ absurd (cc (n.kept b r g))
    ]
  ];
}

module _ {W : Type 0} (env : Env W) (laws : AcceptLaws env.descriptors) where
  open env use {descriptors}
  open laws use {arrivals}

  destroy-calm : (w : W) (s : Socket) → arrivals (Socket.destroy descriptors.close w s) ≤ arrivals w
  unfolding Socket.destroy Socket.reset
  destroy-calm w s = ground (arith, laws.close_calm w s.fd)

  ctl_result-world : (res : SysResult × W) → (Epoll.ctl_result res).1 ≡ res.1
  ctl_result-world (done n, w) = refl
  ctl_result-world (failed e, w) = refl

  add-calm :
      (w : W) (e : Epoll) (fd : ℤ) (events : ℕ)
      → arrivals (Epoll.add descriptors w e fd events).1 ≤ arrivals w
  unfolding Epoll.add Epoll.guarded Epoll.control_epoll
  add-calm w e fd events = elim (Bool-cases (not (nonneg e.fd) || not (nonneg fd))) [
    | inl bad ↦ rw bad (le_refl (arrivals w))
    | inr good ↦
        let res = descriptors.epoll_ctl w e.fd ctl_add fd (some events) in
        rw good (
          omega (
            arith,
            ap arrivals (ctl_result-world res),
            laws.ctl_calm w e.fd fd ctl_add (some events),
          ))
  ]

  accept_client-calm :
      (w : W) (l : EventLoop) (fd : ℤ) → arrivals (accept_client env w l fd).1 ≤ arrivals w
  unfolding accept_client erase_client
  accept_client-calm w l fd = elim (Option-cases (client l fd)) [
    | inr (old, e) ↦ rw e (destroy-calm w (Socket.of_fd fd))
    | inl free ↦ elim (Bool-cases (Epoll.add descriptors w l.epoll fd client_events).0.success) [
      | inl added ↦ rw (free, added) (add-calm w l.epoll fd client_events)
      | inr refused ↦
          rw (free, refused)
            (omega (
              arith,
              destroy-calm (Epoll.add descriptors w l.epoll fd client_events).1
                  (Connection.init (Socket.of_fd fd)).socket,
              add-calm w l.epoll fd client_events,
            ))
    ]
  ]

  module _ (P : EventLoop → Type 0)
      (enters : (w : W) (l : EventLoop) (fd : ℤ)
        → l.next_connection_id + 1 < 2 ^ 64
        → P l
        → P (accept_client env w l fd).0)
      (marks : (l : EventLoop) (e : ℕ) → P l → P (record l { error_number = e })) where
    -- `P` is kept by the acceptance of a client, and does not depend on the error number.
    abbrev pub Returns : EventLoop → Option (Bool × EventLoop × W) → Type 0
    Returns l o =
        (ok : Bool) × (l' : EventLoop) × (w' : W) × (o ≡ some (ok, l', w')) × P l' × Accepts l l'

    abbrev Again : ℕ → Type 0
    Again fuel =
        (w : W) (l : EventLoop)
        → P l
        → l.next_connection_id + arrivals w < 2 ^ 64
        → arrivals w < fuel
        → Returns l (accept_ready_clients env fuel w l)

    stops :
        (l : EventLoop) (w : W) (ok : Bool) (errno : ℕ)
        → P l
        → Returns l (some (ok, record l { error_number = errno }, w))
    stops l w ok errno v = (
      ok,
      record l { error_number = errno },
      w,
      refl,
      marks l errno v,
      Accepts-refl l (record l { error_number = errno }) refl refl,
    )

    -- A round of the loop, by what `accept4` returned.
    after_accept-Returns :
        (fuel : ℕ) (w : W) (l : EventLoop)
        → Again fuel
        → P l
        → l.next_connection_id + arrivals w < 2 ^ 64
        → arrivals w < suc fuel
        → (res : SysResult × W) → descriptors.accept4 w (Socket.fd l.listener) ≡ res
        → Returns l (after_accept env (λ r. accept_ready_clients env fuel r.1 r.0) l res)
    after_accept-Returns fuel w l again v small enough (done n, w1) e =
        let fewer = laws.accept_done w w1 (Socket.fd l.listener) n e in
        let n' = accept_client-Enters env w1 l (pos n) (omega arith) in
        let (ok, l', w', eq, v', a) =
          again (accept_client env w1 l (pos n)).1 (accept_client env w1 l (pos n)).0
            (enters w1 l (pos n) (omega arith) v)
            (omega (arith, n'.next, accept_client-calm w1 l (pos n)))
            (omega (arith, accept_client-calm w1 l (pos n))) in
        (ok, l', w', eq, v', Accepts-step n' a)
    after_accept-Returns fuel w l again v small enough (failed errno, w1) e =
        elim (Bool-cases (errno == eintr)) [
          | inl signal ↦
              let fewer =
                laws.accept_interrupted w w1 (Socket.fd l.listener)
                  (e ∙ ap (λ k. (failed k, w1)) ((==_iff errno eintr).0 signal)) in
              rw signal (again w1 l v (omega arith) (omega arith))
          | inr other ↦ elim (Bool-cases (blocks errno)) [
            | inl none_left ↦ rw (other, none_left) (stops l w1 true l.error_number v)
            | inr broken ↦ rw (other, broken) (stops l w1 false errno v)
          ]
        ]

    pub accept_ready_clients-keeps :
        (fuel : ℕ) (w : W) (l : EventLoop)
        → P l
        → l.next_connection_id + arrivals w < 2 ^ 64
        → arrivals w < fuel
        → Returns l (accept_ready_clients env fuel w l)
    unfolding accept_ready_clients
    accept_ready_clients-keeps zero w l v small enough = absurd (omega arith)
    accept_ready_clients-keeps (suc fuel) w l v small enough =
        after_accept-Returns fuel w l (accept_ready_clients-keeps fuel) v small enough
          (descriptors.accept4 w (Socket.fd l.listener)) refl

  -- On a valid loop, while the 64-bit counter cannot run out, and with more fuel than clients and
  -- signals can arrive, `acceptReadyClients` returns. The loop is then valid: the ids are distinct,
  -- positive and below the counter, and each connection is at its own descriptor. Every connection that
  -- there was is as it was, and each new one has an id that the counter had not reached before.
  pub accept_ready_clients-total :
      (fuel : ℕ) (w : W) (l : EventLoop)
      → IsValid l
      → l.next_connection_id + arrivals w < 2 ^ 64
      → arrivals w < fuel
      → (ok : Bool) × (l' : EventLoop) × (w' : W) × (accept_ready_clients env fuel w l
          ≡ some (ok, l', w'))
        × IsValid l'
        × Accepts l l'
  accept_ready_clients-total fuel w l v small enough =
      accept_ready_clients-keeps IsValid
        (λ w1 l1 fd small1 v1. Enters-IsValid (accept_client-Enters env w1 l1 fd small1) v1)
        (λ l1 e v1. record {
          keyed = v1.keyed;
          issued = v1.issued;
          distinct = v1.distinct;
          positive = v1.positive;
        })
        fuel w l v small enough
