-- ===== src/Server/EventLoop/Connections.antt =====
-- Which connections an operation of the event loop touches, and how.
use net_pulse.Base.{
  ℤ, ◌≡◌, ◌≢◌, ◌⊎◌, inl, inr, refl, sym, ◌∙◌, true, false, Option, none, some, ◌==ℤ◌, ==ℤ_iff,
  ==ℤ_refl, arith, Bool-cases, Option-cases,
}
use net_pulse.Server.Connection.{Connection}
use net_pulse.Server.Clients.{ClientState, find, erase, store, find-erase, find-store}
use net_pulse.Server.EventLoop.{
  EventLoop, Env, with_connection, erase_client, close_connection, update_interest, update_or_close,
}

abbrev pub client : EventLoop → ℤ → Option ClientState
client l fd = find fd l.connections

-- A loop that differs from `l` at `fd` alone, and there at most in the connection's buffers; or the
-- connection there is closed.
pub record Touches (l l' : EventLoop) (fd : ℤ) : Type 0 where
  pub others : (b : ℤ) → fd ≢ b → client l' b ≡ client l b
  pub here :
      (client l' fd ≡ none)
      ⊎ ((s : ClientState) × (s' : ClientState) × (client l fd ≡ some s)
          × (client l' fd ≡ some s')
          × (s'.id ≡ s.id)
          × (s'.connection.socket ≡ s.connection.socket))
  pub same_next : l'.next_connection_id ≡ l.next_connection_id
  pub same_epoll : l'.epoll ≡ l.epoll
  pub same_listener : l'.listener ≡ l.listener

pub not-== : (a b : ℤ) → a ≢ b → (a ==ℤ b) ≡ false
not-== a b h = ground (arith, ==ℤ_iff a b)

pub Touches-refl : (l : EventLoop) (fd : ℤ) → Touches l l fd
Touches-refl l fd = record {
  others = λ b h. refl;
  here = elim (Option-cases (client l fd)) [
    | inl e ↦ inl e
    | inr (s, e) ↦ inr (s, s, e, e, refl, refl)
  ];
  same_next = refl;
  same_epoll = refl;
  same_listener = refl;
}

pub with_connection-Touches :
    (l : EventLoop) (fd : ℤ) (s : ClientState) (c : Connection)
    → client l fd ≡ some s
    → c.socket ≡ s.connection.socket
    → Touches l (with_connection l fd s.id c) fd
      × (client (with_connection l fd s.id c) fd ≡ some (record { id = s.id; connection = c }))
with_connection-Touches l fd s c e same =
    let v : ClientState = record { id = s.id; connection = c } in
    let stored : find fd (store fd v l.connections) ≡ some v =
      find-store fd fd v l.connections ∙ rw (==ℤ_refl fd, e) refl in
    (
      record {
        others = λ b h. find-store b fd v l.connections ∙ rw (not-== fd b h) refl;
        here = inr (s, v, e, stored, refl, same);
        same_next = refl;
        same_epoll = refl;
        same_listener = refl;
      },
      stored,
    )

pub Touches-trans :
    {l l' l'' : EventLoop} {fd : ℤ} → Touches l l' fd → Touches l' l'' fd → Touches l l'' fd
Touches-trans {l} {l'} {l''} {fd} t u = record {
  others = λ b h. u.others b h ∙ t.others b h;
  here = elim u.here [
    | inl e ↦ inl e
    | inr (s', s'', e, e', i, k) ↦ elim t.here [
      | inl f ↦ cc
      | inr (r, r', f, f', j, m) ↦
          let same : ◌≡◌ {A = Option ClientState} (some r') (some s') = sym f' ∙ e in
          inr (r, s'', f, e', ground arith, ground arith)
    ]
  ];
  same_next = u.same_next ∙ t.same_next;
  same_epoll = u.same_epoll ∙ t.same_epoll;
  same_listener = u.same_listener ∙ t.same_listener;
}

module _ {W : Type 0} (env : Env W) where
  open env use {descriptors}

  -- `closeConnection` leaves no connection at its descriptor, and every other as it was.
  pub close_connection-Touches :
      (w : W) (l : EventLoop) (fd : ℤ)
      → let l' = (close_connection env w l fd).0 in Touches l l' fd × (client l' fd ≡ none)
  unfolding close_connection erase_client
  close_connection-Touches w l fd = elim (Option-cases (client l fd)) [
    | inl e ↦ rw e (Touches-refl l fd, e)
    | inr (s, e) ↦
        let gone : find fd (erase fd l.connections) ≡ none =
          find-erase fd fd l.connections ∙ rw (==ℤ_refl fd) refl in
        rw e (
          record {
            others = λ b h. find-erase b fd l.connections ∙ rw (not-== fd b h) refl;
            here = inl gone;
            same_next = refl;
            same_epoll = refl;
            same_listener = refl;
          },
          gone,
        )
  ]

  -- `updateInterest` leaves the loop as it is; where it fails the connection is closed.
  pub update_or_close-cases :
      (w : W) (l : EventLoop) (fd : ℤ) (c : Connection)
      → let (l', w') = update_or_close env w l fd c in
        (((update_interest env w l c).0 ≡ true) × (l' ≡ l) × (w' ≡ (update_interest env w l c).1))
        ⊎ (((update_interest env w l c).0 ≡ false) × Touches l l' fd × (client l' fd ≡ none))
  unfolding update_or_close
  update_or_close-cases w l fd c = elim (Bool-cases (update_interest env w l c).0) [
    | inl e ↦ rw e (inl (refl, refl, refl))
    | inr e ↦
        let (t, gone) = close_connection-Touches (update_interest env w l c).1 l fd in
        rw e (inr (refl, t, gone))
  ]
