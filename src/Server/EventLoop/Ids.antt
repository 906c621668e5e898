-- ===== src/Server/EventLoop/Ids.antt =====
-- Connection ids: each is given once, so a descriptor that is used again has another id.
use net_pulse.Base.{
  ℤ, ◌+◌, ◌%◌, ◌^◌, ◌<◌, ◌≡◌, ◌⊎◌, inl, inr, refl, sym, ap, ◌∙◌, false, Option, none, some, ◌==ℤ◌,
  ==ℤ_iff, ==ℤ_refl, arith, Bool-cases, Option-cases, subst,
}
use net_pulse.Network.Epoll
use net_pulse.Network.Socket
use net_pulse.Server.Connection
use net_pulse.Server.Connection.{Connection}
use net_pulse.Server.Clients.{ClientState, find, erase, emplace, find-erase, find-emplace}
use net_pulse.Server.EventLoop.{EventLoop, Env, client_events, erase_client, accept_client}
use net_pulse.Server.EventLoop.Connections.{client, Touches}

pub record IsValid (l : EventLoop) : Type 0 where
  -- a connection stands at its own descriptor
  pub keyed : (fd : ℤ) (s : ClientState) → client l fd ≡ some s → Connection.fd s.connection ≡ fd
  -- its id has been given, and is not 0
  pub issued :
      (fd : ℤ) (s : ClientState) → client l fd ≡ some s → (0 < s.id) × (s.id < l.next_connection_id)
  -- and no other connection has it
  pub distinct :
      (a b : ℤ) (s t : ClientState)
      → client l a ≡ some s
      → client l b ≡ some t
      → s.id ≡ t.id
      → a ≡ b
  pub positive : 0 < l.next_connection_id

-- Every connection after an operation was there before, under its id and with its socket.
Touches-back :
    {l l' : EventLoop} {fd : ℤ}
    → Touches l l' fd
    → (b : ℤ) (s' : ClientState) → client l' b ≡ some s'
    → (s : ClientState) × (client l b ≡ some s)
      × (s'.id ≡ s.id)
      × (s'.connection.socket ≡ s.connection.socket)
Touches-back {l} {l'} {fd} t b s' e = elim (Bool-cases (fd ==ℤ b)) [
  | inl at_fd ↦
      let same : fd ≡ b = (==ℤ_iff fd b).0 at_fd in
      subst
        (λ x.
          (s : ClientState) × (client l x ≡ some s)
          × (s'.id ≡ s.id)
          × (s'.connection.socket ≡ s.connection.socket))
        same
        (elim t.here [
          | inl gone ↦ cc
          | inr (s, r, f, g, i, k) ↦
              let same_state : ◌≡◌ {A = Option ClientState} (some r) (some s') =
                sym g ∙ rw (← same) at e in
              (s, f, ground arith, ground arith)
        ])
  | inr elsewhere ↦ (s', sym (t.others b (λ h. cc (==ℤ_refl b))) ∙ e, refl, refl)
]

-- An operation that touches one connection keeps the ids.
pub Touches-IsValid : {l l' : EventLoop} {fd : ℤ} → Touches l l' fd → IsValid l → IsValid l'
Touches-IsValid {l} {l'} t v = record {
  keyed = λ b s' e. let (s, f, i, k) = Touches-back t b s' e in ap (λ x. x.fd) k ∙ v.keyed b s f;
  issued = λ b s' e.
      let (s, f, i, k) = Touches-back t b s' e in omega (arith, v.issued b s f, t.same_next);
  distinct = λ a b s' t' e e' same.
      let (s, f, i, k) = Touches-back t a s' e in
      let (r, g, j, m) = Touches-back t b t' e' in v.distinct a b s r f g (sym i ∙ same ∙ j);
  positive = omega (arith, v.positive, t.same_next);
}

-- What an accepted client changes: at most a new connection at its descriptor, with the next id.
pub record Enters (l l' : EventLoop) (fd : ℤ) : Type 0 where
  pub next : l'.next_connection_id ≡ l.next_connection_id + 1
  pub kept : (b : ℤ) (s : ClientState) → client l b ≡ some s → client l' b ≡ some s
  pub new :
      (b : ℤ) (s' : ClientState)
      → client l' b ≡ some s'
      → (client l b ≡ some s')
        ⊎ ((b ≡ fd)
            × (client l fd ≡ none)
            × (s'.id ≡ l.next_connection_id)
            × (s'.connection ≡ Connection.init (Socket.of_fd fd)))

pub same_state : (s r : ClientState) → ◌≡◌ {A = Option ClientState} (some s) (some r) → s ≡ r
same_state s r h = cc

find-emplace_ne :
    (b fd : ℤ) (s : ClientState) (l : EventLoop)
    → (fd ==ℤ b) ≡ false
    → find b (emplace fd s l.connections) ≡ client l b
find-emplace_ne b fd s l h = find-emplace b fd s l.connections ∙ rw h refl

find-withdrawn_ne :
    (b fd : ℤ) (s : ClientState) (l : EventLoop)
    → (fd ==ℤ b) ≡ false
    → find b (erase fd (emplace fd s l.connections)) ≡ client l b
find-withdrawn_ne b fd s l h =
    find-erase b fd (emplace fd s l.connections) ∙ rw h (find-emplace_ne b fd s l h)

abbrev numbered : EventLoop → EventLoop
numbered l = record l { next_connection_id = (l.next_connection_id + 1) % 2 ^ 64 }

-- The loop with a new connection at a descriptor that had none.
emplace-Enters :
    (l : EventLoop) (fd : ℤ) (s : ClientState)
    → l.next_connection_id + 1 < 2 ^ 64
    → client l fd ≡ none
    → s.id ≡ l.next_connection_id
    → s.connection ≡ Connection.init (Socket.of_fd fd)
    → Enters l (record (numbered l) { connections = emplace fd s l.connections }) fd
emplace-Enters l fd s small free i k = record {
  next = omega arith;
  kept = λ b r e. elim (Bool-cases (fd ==ℤ b)) [
    | inl at_fd ↦ cc (ap (λ x. find x l.connections) ((==ℤ_iff fd b).0 at_fd))
    | inr elsewhere ↦ find-emplace_ne b fd s l elsewhere ∙ e
  ];
  new = λ b r e. elim (Bool-cases (fd ==ℤ b)) [
    | inl at_fd ↦
        let same : ◌≡◌ {A = Option ClientState} (some s) (some r) =
          sym (find-emplace b fd s l.connections ∙ rw at_fd refl) ∙ e in
        inr (
          sym ((==ℤ_iff fd b).0 at_fd),
          free,
          ap (λ x. x.id) (sym (same_state s r same)) ∙ i,
          ap (λ x. x.connection) (sym (same_state s r same)) ∙ k,
        )
    | inr elsewhere ↦ inl (sym (find-emplace_ne b fd s l elsewhere) ∙ e)
  ];
}

-- The same, and then the new connection taken out again, since it could not be registered.
withdrawn-Enters :
    (l : EventLoop) (fd : ℤ) (s : ClientState)
    → l.next_connection_id + 1 < 2 ^ 64
    → client l fd ≡ none
    → Enters l (record (numbered l) { connections = erase fd (emplace fd s l.connections) }) fd
withdrawn-Enters l fd s small free = record {
  next = omega arith;
  kept = λ b r e. elim (Bool-cases (fd ==ℤ b)) [
    | inl at_fd ↦ cc (ap (λ x. find x l.connections) ((==ℤ_iff fd b).0 at_fd))
    | inr elsewhere ↦ find-withdrawn_ne b fd s l elsewhere ∙ e
  ];
  new = λ b r e. elim (Bool-cases (fd ==ℤ b)) [
    | inl at_fd ↦ cc (find-erase b fd (emplace fd s l.connections))
    | inr elsewhere ↦ inl (sym (find-withdrawn_ne b fd s l elsewhere) ∙ e)
  ];
}

fd-init : (fd : ℤ) → Connection.fd (Connection.init (Socket.of_fd fd)) ≡ fd
unfolding Connection.init Socket.of_fd
fd-init fd = refl

pub Enters-IsValid : {l l' : EventLoop} {fd : ℤ} → Enters l l' fd → IsValid l → IsValid l'
Enters-IsValid {l} {l'} {fd} n v = record {
  keyed = λ b s e. elim (n.new b s e) [
    | inl f ↦ v.keyed b s f
    | inr (at_fd, _, _, k) ↦ ap Connection.fd k ∙ fd-init fd ∙ sym at_fd
  ];
  issued = λ b s e. elim (n.new b s e) [
    | inl f ↦ omega (arith, v.issued b s f, n.next)
    | inr (_, _, i, _) ↦ omega (arith, n.next, v.positive)
  ];
  distinct = λ a b s t e f same. elim (n.new a s e) [
    | inl e' ↦ elim (n.new b t f) [
      | inl f' ↦ v.distinct a b s t e' f' same
      | inr (_, _, i, _) ↦ absurd (omega (arith, v.issued a s e'))
    ]
    | inr (at_fd, _, i, _) ↦ elim (n.new b t f) [
      | inl f' ↦ absurd (omega (arith, v.issued b t f'))
      | inr (at_fd', _, _, _) ↦ at_fd ∙ sym at_fd'
    ]
  ];
  positive = omega (arith, n.next);
}

module _ {W : Type 0} (env : Env W) where
  open env use {descriptors}

  -- While the 64-bit counter has not run out, accepting a client at a descriptor moves the counter on by
  -- one, keeps every connection as it was, and adds at most one connection: at that descriptor if it
  -- had none, as its socket's constructor makes it, and with the id that the counter showed.
  pub accept_client-Enters :
      (w : W) (l : EventLoop) (fd : ℤ)
      → l.next_connection_id + 1 < 2 ^ 64
      → Enters l (accept_client env w l fd).0 fd
  unfolding accept_client erase_client Connection.init Socket.of_fd
  accept_client-Enters w l fd small =
      let s : ClientState = record {
        id = l.next_connection_id;
        connection = Connection.init (Socket.of_fd fd);
      } in
      elim (Option-cases (client l fd)) [
        | inr (old, e) ↦
            rw e (record { next = omega arith; kept = λ b r f. f; new = λ b r f. inl f })
        | inl free ↦
            elim (Bool-cases (Epoll.add descriptors w l.epoll fd client_events).0.success) [
              | inl added ↦ rw (free, added) (emplace-Enters l fd s small free refl refl)
              | inr refused ↦ rw (free, refused) (withdrawn-Enters l fd s small free)
            ]
      ]
