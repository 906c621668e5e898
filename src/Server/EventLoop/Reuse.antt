-- ===== src/Server/EventLoop/Reuse.antt =====
-- A descriptor that is used again: results for its earlier connections do not reach the new one.
use net_pulse.Base.{
  ℕ, ℤ, ◌+◌, ◌^◌, ◌<◌, ◌≡◌, ◌≢◌, inl, inr, sym, ap, subst, ◌∙◌, List, [], ◌∷◌, none, some, ◌==ℤ◌,
  ==ℤ_iff, arith, Bool-cases,
}
use net_pulse.Server.Processing.{ProcessingResult}
use net_pulse.Server.Clients.{ClientState}
use net_pulse.Server.EventLoop.{EventLoop, Env, accept_client}
use net_pulse.Server.EventLoop.Handlers.{handle_result, handle_results}
use net_pulse.Server.EventLoop.Connections.{client}
use net_pulse.Server.EventLoop.Results.{handle_result-stale}
use net_pulse.Server.EventLoop.Delivery.{handle_result-Touches}
use net_pulse.Server.EventLoop.Ids.{accept_client-Enters}

-- Results of tasks that were submitted while the counter of connection ids was at most `n`.
abbrev pub AllBelow : ℕ → List ProcessingResult → Type 0
AllBelow n [] = Unit {0}
AllBelow n (r ∷ rs) = (r.connection_id < n) × AllBelow n rs

module _ {W : Type 0} (env : Env W) where
  handle_result-other :
      (w : W) (l : EventLoop) (r : ProcessingResult) (fd : ℤ) (s : ClientState)
      → client l fd ≡ some s
      → r.connection_id < s.id
      → client (handle_result env w l r).0 fd ≡ some s
  handle_result-other w l r fd s e older = elim (Bool-cases (r.client_fd ==ℤ fd)) [
    | inr elsewhere ↦
        (handle_result-Touches env w l r).others fd (λ h. cc ((==ℤ_iff r.client_fd fd).1 h)) ∙ e
    | inl at_fd ↦
        let same : r.client_fd ≡ fd = (==ℤ_iff _ _).0 at_fd in
        let id_differs : s.id ≢ r.connection_id = λ h. absurd (omega arith) in
        let unchanged =
          handle_result-stale env w l r (inr (s, ap (client l) same ∙ e, id_differs)) in
        ap (λ x. client x.0 fd) unchanged ∙ e
  ]

  handle_results-older :
      (w : W) (l : EventLoop) (rs : List ProcessingResult) (fd : ℤ) (s : ClientState)
      → client l fd ≡ some s
      → AllBelow s.id rs
      → client (handle_results env w l rs).0 fd ≡ some s
  unfolding handle_results
  handle_results-older w l [] fd s e older = e
  handle_results-older w l (r ∷ rs) fd s e (older, all) =
      handle_results-older (handle_result env w l r).1 (handle_result env w l r).0 rs fd s
        (handle_result-other w l r fd s e older) all

  -- Let a descriptor that has no connection be accepted, while the 64-bit counter has not run out, and
  -- then a batch of results be handled whose ids the counter had passed before, as those of every
  -- earlier connection at this descriptor are. Then the new connection at the descriptor is exactly as it
  -- was entered: it gets none of the responses, and none closes it.
  pub handle_results-reused :
      (w : W) (l : EventLoop) (fd : ℤ) (rs : List ProcessingResult) (s : ClientState)
      → client l fd ≡ none
      → l.next_connection_id + 1 < 2 ^ 64
      → AllBelow l.next_connection_id rs
      → client (accept_client env w l fd).0 fd ≡ some s
      → let (l', w') = accept_client env w l fd in
        client (handle_results env w' l' rs).0 fd ≡ some s
  handle_results-reused w l fd rs s free small older e =
      let fresh : s.id ≡ l.next_connection_id =
        elim ((accept_client-Enters env w l fd small).new fd s e) [
          | inl old ↦ cc
          | inr (_, _, i, _) ↦ i
        ] in
      handle_results-older (accept_client env w l fd).1 (accept_client env w l fd).0 rs fd s e
        (subst (λ n. AllBelow n rs) (sym fresh) older)
