-- ===== src/Server/EventLoop/Delivery.antt =====
-- A batch of results: each connection gets the responses made for it, in order, and no others.
use net_pulse.Base.{
  ℕ, ℤ, ◌≡◌, ◌⊎◌, inl, inr, refl, sym, ap, ◌∙◌, List, [], ◌∷◌, ◌++◌, ◌&&◌, none, some, ◌==◌, ◌==ℤ◌,
  ==ℤ_iff, ==_iff, if◌then◌else◌, arith, Bool-cases, Option-cases, append_assoc, append-nil, ap₂,
}
use net_pulse.Protocol.Wire.{frame}
use net_pulse.Protocol.FrameWriteBuffer.Queue.{pending}
use net_pulse.Protocol.FrameWriteBuffer.Queue
use net_pulse.Server.Connection.{queue_frame}
use net_pulse.Server.Connection.Decode.{encode, encode-append}
use net_pulse.Server.Processing.{ProcessingResult}
use net_pulse.Server.Clients.{ClientState}
use net_pulse.Server.EventLoop.{EventLoop, Env, with_connection}
use net_pulse.Server.EventLoop.Handlers.{handle_result, handle_results, was_queued}
use net_pulse.Server.EventLoop.Connections.{
  client, Touches, Touches-refl, Touches-trans, with_connection-Touches, close_connection-Touches,
  update_or_close-cases,
}
use net_pulse.Server.EventLoop.Results.{
  Refusal, Refusal-same, handle_result-stale, handle_result-delivers,
}

-- The responses for the connection `id` at `fd`, in order.
pub responses_for : ℤ → ℕ → List ProcessingResult → List (List ℕ)
responses_for fd id [] = []
responses_for fd id (r ∷ rs) =
    if r.client_fd ==ℤ fd && r.connection_id == id
    then r.response ∷ responses_for fd id rs
    else responses_for fd id rs

module _ {W : Type 0} (env : Env W) where
  -- A result touches at most the connection at its descriptor, on every branch.
  pub handle_result-Touches :
      (w : W) (l : EventLoop) (r : ProcessingResult)
      → Touches l (handle_result env w l r).0 r.client_fd
  unfolding handle_result queue_frame
  handle_result-Touches w l r = elim (Option-cases (client l r.client_fd)) [
    | inl e ↦ rw e (Touches-refl l r.client_fd)
    | inr (s, e) ↦ elim (Bool-cases (s.id == r.connection_id)) [
      | inr stale ↦ rw (e, stale) (Touches-refl l r.client_fd)
      | inl meant ↦ elim (Bool-cases (was_queued (queue_frame s.connection r.response).0)) [
        | inr refused ↦ rw (e, meant, refused) (close_connection-Touches env w l r.client_fd).0
        | inl taken ↦
            let c = (queue_frame s.connection r.response).1 in
            let (t, _) = with_connection-Touches l r.client_fd s c e refl in
            rw (e, meant, taken)
              (elim (update_or_close-cases env w (with_connection l r.client_fd s.id c) r.client_fd
                c) [ inl (_, same, _) ↦ rw same t | inr (_, u, _) ↦ Touches-trans t u ])
      ]
    ]
  ]

  stays_closed :
      (w : W) (l : EventLoop) (r : ProcessingResult) (fd : ℤ)
      → client l fd ≡ none
      → client (handle_result env w l r).0 fd ≡ none
  stays_closed w l r fd e = elim (Bool-cases (r.client_fd ==ℤ fd)) [
    | inl at_fd ↦
        let same : r.client_fd ≡ fd = (==ℤ_iff _ _).0 at_fd in
        ap (λ x. client x.0 fd) (handle_result-stale env w l r (inl (ap (client l) same ∙ e))) ∙ e
    | inr elsewhere ↦
        (handle_result-Touches w l r).others fd (λ h. cc ((==ℤ_iff r.client_fd fd).1 h)) ∙ e
  ]

  pub handle_results-closed :
      (w : W) (l : EventLoop) (rs : List ProcessingResult) (fd : ℤ)
      → client l fd ≡ none
      → client (handle_results env w l rs).0 fd ≡ none
  unfolding handle_results
  handle_results-closed w l [] fd e = e
  handle_results-closed w l (r ∷ rs) fd e =
      handle_results-closed (handle_result env w l r).1 (handle_result env w l r).0 rs fd
        (stays_closed w l r fd e)

  -- The connection `s` at `fd` has been sent exactly `responses`, or it has been closed for one of them.
  abbrev pub Sent : EventLoop → EventLoop → ℤ → ClientState → List (List ℕ) → Type 0
  Sent l l' fd s responses =
      ((client l' fd ≡ none)
        × ((sooner : List (List ℕ)) × (response : List ℕ) × (later : List (List ℕ)) × (responses
              ≡ sooner ++ response ∷ later)
            × Refusal env l.epoll s.connection.socket response))
      ⊎ ((s' : ClientState) × (client l' fd ≡ some s')
          × (s'.id ≡ s.id)
          × (s'.connection.socket ≡ s.connection.socket)
          × Queue.IsValid s'.connection.write_buffer
          × (pending s'.connection.write_buffer
              ≡ pending s.connection.write_buffer ++ encode responses))

  handle_result-Sent :
      (w : W) (l : EventLoop) (r : ProcessingResult) (fd : ℤ) (s : ClientState)
      → client l fd ≡ some s
      → Queue.IsValid s.connection.write_buffer
      → Sent l (handle_result env w l r).0 fd s (responses_for fd s.id (r ∷ []))
  unfolding responses_for
  handle_result-Sent w l r fd s e v = elim (Bool-cases (r.client_fd ==ℤ fd)) [
    | inr elsewhere ↦ rw elsewhere (
        inr (
          s,
          (handle_result-Touches w l r).others fd (λ h. cc ((==ℤ_iff r.client_fd fd).1 h)) ∙ e,
          refl,
          refl,
          v,
          sym (append-nil (pending s.connection.write_buffer)),
        ))
    | inl at_fd ↦
        let same : r.client_fd ≡ fd = (==ℤ_iff _ _).0 at_fd in
        elim (Bool-cases (r.connection_id == s.id)) [
          | inr other ↦
              let unchanged = handle_result-stale env w l r (
                inr
                  (s, ap (client l) same ∙ e, λ h. cc ((==_iff r.connection_id s.id).1 (sym h)))) in
              rw (at_fd, other)
                (inr (
                  s,
                  ap (λ x. client x.0 fd) unchanged ∙ e,
                  refl,
                  refl,
                  v,
                  sym (append-nil (pending s.connection.write_buffer)),
                ))
          | inl meant ↦
              let (_, sent) =
                handle_result-delivers env w l r s (ap (client l) same ∙ e)
                  (sym ((==_iff _ _).0 meant)) v in
              rw (at_fd, meant)
                (elim sent [
                  | inl (gone, why) ↦ inl (
                    ap (client (handle_result env w l r).0) (sym same) ∙ gone,
                    ([], r.response, [], refl, why),
                  )
                  | inr (s', f, i, k, _, v', p) ↦ inr (
                    s',
                    ap (client (handle_result env w l r).0) (sym same) ∙ f,
                    i,
                    k,
                    v',
                    p
                        ∙ ap (λ xs. pending s.connection.write_buffer ++ xs)
                            (sym (append-nil (frame r.response))),
                  )
                ])
        ]
  ]

  responses_for-cons :
      (fd : ℤ) (id : ℕ) (r : ProcessingResult) (rs : List ProcessingResult)
      → responses_for fd id (r ∷ rs) ≡ responses_for fd id (r ∷ []) ++ responses_for fd id rs
  unfolding responses_for
  responses_for-cons fd id r rs = ground arith

  -- For a connection with a valid write buffer, a batch of results either adds to the bytes that it
  -- still has to send exactly the frames of the responses that carry its descriptor and its id, in
  -- the order of the batch, and leaves its id and socket as they were; or the connection has been
  -- closed, and then one of these responses was longer than `max_payload_size`, or the system
  -- refused to change the events that the epoll watches for its socket.
  pub handle_results-delivers :
      (w : W) (l : EventLoop) (rs : List ProcessingResult) (fd : ℤ) (s : ClientState)
      → client l fd ≡ some s
      → Queue.IsValid s.connection.write_buffer
      → Sent l (handle_results env w l rs).0 fd s (responses_for fd s.id rs)
  unfolding handle_results
  handle_results-delivers w l [] fd s e v = inr (
    s,
    e,
    refl,
    refl,
    v,
    unfold responses_for in sym (append-nil (pending s.connection.write_buffer)),
  )
  handle_results-delivers w l (r ∷ rs) fd s e v = elim (handle_result-Sent w l r fd s e v) [
    | inl (gone, (sooner, response, later, split, why)) ↦ inl (
      handle_results-closed (handle_result env w l r).1 (handle_result env w l r).0 rs fd gone,
      (
        sooner,
        response,
        later ++ responses_for fd s.id rs,
        responses_for-cons fd s.id r rs
            ∙ ap (λ xs. xs ++ responses_for fd s.id rs) split
            ∙ append_assoc sooner (response ∷ later) (responses_for fd s.id rs),
        why,
      ),
    )
    | inr (s', f, i, k, v', p) ↦
        elim (handle_results-delivers (handle_result env w l r).1 (handle_result env w l r).0 rs fd
          s' f v') [
            | inl (gone, (sooner, response, later, split, why)) ↦
                let first = responses_for fd s.id (r ∷ []) in
                inl (
                  gone,
                  (
                    first ++ sooner,
                    response,
                    later,
                    responses_for-cons fd s.id r rs
                        ∙ ap (λ xs. first ++ xs) (ap (λ n. responses_for fd n rs) (sym i) ∙ split)
                        ∙ sym (append_assoc first sooner (response ∷ later)),
                    Refusal-same env response (handle_result-Touches w l r).same_epoll k why,
                  ),
                )
            | inr (s'', f', i', k', v'', p') ↦
                let first = responses_for fd s.id (r ∷ []) in
                let others = responses_for fd s.id rs in
                inr (
                  s'',
                  f',
                  i' ∙ i,
                  k' ∙ k,
                  v'',
                  p'
                      ∙ ap₂ (λ xs n. xs ++ encode (responses_for fd n rs)) p i
                      ∙ append_assoc (pending s.connection.write_buffer) (encode first)
                          (encode others)
                      ∙ ap (λ xs. pending s.connection.write_buffer ++ xs)
                          (sym (encode-append first others)
                            ∙ ap encode (sym (responses_for-cons fd s.id r rs))),
                )
          ]
  ]
