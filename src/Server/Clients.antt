-- ===== src/Server/Clients.antt =====
-- `std::unordered_map<int, ClientState>` of include/netpulse/server/event_loop.hpp: an association list,
-- whose order nothing depends on.
use net_pulse.Base.{
  ℕ, ℤ, List, [], ◌∷◌, Option, none, some, ◌==ℤ◌, if◌then◌else◌, ◌≡◌, refl, arith, ◌==ℤ◌, ==ℤ_iff,
}
use net_pulse.Server.Connection.{Connection}

pub record ClientState : Type 0 where
  pub id : ℕ
  pub connection : Connection

abbrev pub Clients : Type 0
Clients = List (ℤ × ClientState)

unfoldable pub find : ℤ → Clients → Option ClientState
find fd [] = none
find fd ((k, s) ∷ m) = if k ==ℤ fd then some s else find fd m

unfoldable pub erase : ℤ → Clients → Clients
erase fd [] = []
erase fd ((k, s) ∷ m) = if k ==ℤ fd then erase fd m else (k, s) ∷ erase fd m

-- A change through a reference to the mapped value.
unfoldable pub store : ℤ → ClientState → Clients → Clients
store fd v [] = []
store fd v ((k, s) ∷ m) = if k ==ℤ fd then (k, v) ∷ store fd v m else (k, s) ∷ store fd v m

unfoldable pub emplace : ℤ → ClientState → Clients → Clients
emplace fd v m = (fd, v) ∷ m

pub find-erase : (a b : ℤ) (m : Clients) → find a (erase b m) ≡ (if b ==ℤ a then none else find a m)
unfolding find erase
find-erase a b [] = ground arith
find-erase a b ((k, s) ∷ m) =
    ground (arith, find-erase a b m, ==ℤ_iff k a, ==ℤ_iff k b, ==ℤ_iff b a)

pub find-store :
    (a b : ℤ) (v : ClientState) (m : Clients)
    → find a (store b v m)
      ≡ (if b ==ℤ a then elim (find a m) [ none ↦ none | some s ↦ some v ] else find a m)
unfolding find store
find-store a b v [] = ground arith
find-store a b v ((k, s) ∷ m) =
    ground (arith, find-store a b v m, ==ℤ_iff k a, ==ℤ_iff k b, ==ℤ_iff b a)

pub find-emplace :
    (a b : ℤ) (v : ClientState) (m : Clients)
    → find a (emplace b v m) ≡ (if b ==ℤ a then some v else find a m)
unfolding find emplace
find-emplace a b v m = refl
