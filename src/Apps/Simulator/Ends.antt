-- ===== src/Apps/Simulator/Ends.antt =====
-- How the device simulator ends.
use net_pulse.Base.{ℕ, ℤ, ◌≤◌, ◌≡◌, ◌⊎◌, List, [], ◌∷◌, Option, some, take}
use net_pulse.Os.Sockets.{Sockets, SendLaws}
use net_pulse.Os.Startup.{Startup, TableLaws}
use net_pulse.Protocol.Wire.{frame}
use net_pulse.Apps.Simulator.{
  Ended, Line, Failure, starting, connected, telemetry_sent, response, telemetry,
}

-- What `main` prints for the answer `p`.
abbrev pub transcript : List ℕ → List Line
transcript p = starting ∷ connected ∷ telemetry_sent telemetry ∷ response p ∷ []

-- `main` has ended with an error: what it printed before is a part of the transcript.
abbrev pub Fails : List ℕ → Ended → Type 0
Fails p e =
    (e.code ≡ 1)
    × ((f : Failure) × (e.err ≡ f ∷ []))
    × ((n : ℕ) × (n ≤ 3) × (e.out ≡ take n (transcript p)))

module _ {W : Type 0} {os : Startup W} {close : W → ℤ → W} {sockets : Sockets W}
    (table : TableLaws os close) (sending : SendLaws sockets) (p : List ℕ) where
  open table use {held}
  open sending use {wire}

  -- How `main` ends, from `w`.
  abbrev pub Ends : W → Ended → W → Type 0
  Ends w e w' =
      (held w' ≡ held w)
      × (((e.code ≡ 0)
            × (e.err ≡ [])
            × (e.out ≡ transcript p)
            × ((fd : ℤ) × (wire w' fd ≡ frame telemetry)))
          ⊎ Fails p e)

  abbrev pub Result : W → Option (Ended × W) → Type 0
  Result w o = (e : Ended) × (w' : W) × (o ≡ some (e, w')) × Ends w e w'
