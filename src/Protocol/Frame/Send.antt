-- ===== src/Protocol/Frame/Send.antt =====
-- `sendFrame`: what it sends and what it reports.
use net_pulse.Base.{
  ℕ, ℤ, ◌+◌, ◌≤◌, ◌<◌, ◌≡◌, ◌≢◌, ◌⊎◌, inl, inr, refl, sym, ap, ap₂, ◌∙◌, List, ◌++◌, arith, false,
  some, length, take, ltb, Bool-cases, ltb→lt, not-ltb→le, append_assoc, take-take-drop,
  take-append, take-length, subst, take-append_self, drop-append_self,
}
use net_pulse.Os.Errno.{eagain}
use net_pulse.Os.Sockets.{Sockets, SendLaws}
use net_pulse.Network.Io.{IoResult, is_completed}
use net_pulse.Network.Io.Send.{SendEnds, send_all-total}
use net_pulse.Protocol.Wire.{max_payload_size, htonl, to_u32, frame, length-htonl, length-frame}
use net_pulse.Protocol.Frame.{
  SendFrameResult, completed, would_block, payload_too_large, io_error, to_frame_status,
  sent_result, send_payload, send_frame,
}

-- How a call that sends ends: `size` bytes were to be sent.
abbrev pub SendFrameEnds : ℕ → SendFrameResult → Type 0
SendFrameEnds size r =
    ((r.status ≡ completed) × (r.bytes_transferred ≡ size) × (r.error_number ≡ 0))
    ⊎ ((r.status ≡ would_block) × (r.bytes_transferred < size) × (r.error_number ≡ eagain))
    ⊎ ((r.status ≡ io_error)
        × (r.bytes_transferred < size)
        × (r.error_number ≢ 0)
        × (r.error_number ≢ eagain))

take-frame_header :
    (p : List ℕ) (n : ℕ) → n ≤ 4 → take n (frame p) ≡ take n (htonl (to_u32 (length p)))
unfolding frame
take-frame_header p n h =
    take-append n (htonl (to_u32 (length p))) p (omega (arith, length-htonl (to_u32 (length p))))

take-append_past : (n : ℕ) (xs ys : List ℕ) → take (length xs + n) (xs ++ ys) ≡ xs ++ take n ys
take-append_past n xs ys =
    sym (take-take-drop (length xs) n (xs ++ ys))
    ∙ ap₂ (λ a b. a ++ take n b) (take-append_self (length xs) xs ys refl)
        (drop-append_self (length xs) xs ys refl)

take-frame_payload :
    (p : List ℕ) (n : ℕ) → take (4 + n) (frame p) ≡ htonl (to_u32 (length p)) ++ take n p
unfolding frame
take-frame_payload p n =
    ap (λ k. take (k + n) (htonl (to_u32 (length p)) ++ p)) (sym (length-htonl (to_u32 (length p))))
    ∙ take-append_past n (htonl (to_u32 (length p))) p

-- The ends of `sendAll`, with `extra` bytes sent before it.
shifted-ends :
    (size extra : ℕ) (r : IoResult)
    → SendEnds size r
    → SendFrameEnds
        (extra + size)
        (sent_result (to_frame_status r.status) (extra + r.bytes_transferred) r.error_number)
unfolding to_frame_status
shifted-ends size extra r (inl (s, n, e)) = inl (rw s, omega arith, e)
shifted-ends size extra r (inr (inl (s, n, e))) = inr (inl (rw s, omega arith, e))
shifted-ends size extra r (inr (inr (s, n, e, e'))) = inr (inr (rw s, omega arith, e, e'))

module _ {W : Type 0} (os : Sockets W) (laws : SendLaws os) (fuel : ℕ) (fd : ℤ) (p : List ℕ) where
  open laws use {wire, signals}

  -- The call has gone from `w` to its end.
  record SendsFrame (w : W) (out : SendFrameResult × W) : Type 0 where
    within : out.0.bytes_transferred ≤ 4 + length p
    accepted : wire out.1 fd ≡ wire w fd ++ take out.0.bytes_transferred (frame p)
    calmer : signals out.1 ≤ signals w
    ends : SendFrameEnds (4 + length p) out.0

  abbrev header : List ℕ
  header = htonl (to_u32 (length p))

  -- The header did not go out whole.
  header_stop :
      (w w' : W) (r : IoResult)
      → is_completed r.status ≡ false
      → r.bytes_transferred ≤ 4
      → wire w' fd ≡ wire w fd ++ take r.bytes_transferred header
      → signals w' ≤ signals w
      → SendFrameEnds
          (4 + length p)
          (sent_result (to_frame_status r.status) r.bytes_transferred r.error_number)
      → (out : SendFrameResult × W) × (send_payload os fuel fd p r w' ≡ some out) × SendsFrame w out
  unfolding send_payload
  header_stop w w' r s within accepted calm ends = (
    (sent_result (to_frame_status r.status) r.bytes_transferred r.error_number, w'),
    rw s,
    record {
      within = omega arith;
      accepted =
          accepted
          ∙ ap (λ xs. wire w fd ++ xs) (sym (take-frame_header p r.bytes_transferred within));
      calmer = calm;
      ends = ends;
    },
  )

  send_payload-SendsFrame :
      (w w' : W) (r : IoResult)
      → 4 + length p + signals w < fuel
      → r.bytes_transferred ≤ 4
      → wire w' fd ≡ wire w fd ++ take r.bytes_transferred header
      → signals w' ≤ signals w
      → SendEnds 4 r
      → (out : SendFrameResult × W) × (send_payload os fuel fd p r w' ≡ some out) × SendsFrame w out
  unfolding send_payload to_frame_status
  send_payload-SendsFrame w w' r enough within accepted calm (inl (s, n, e)) =
      let (r', w'', eq, within', accepted', calm', ends) =
        send_all-total os laws fd p fuel w' (omega arith) in
      let whole : take r.bytes_transferred header ≡ header =
        take-length header r.bytes_transferred (omega (arith, length-htonl (to_u32 (length p)))) in
      (
        (
          sent_result (to_frame_status r'.status) (r.bytes_transferred + r'.bytes_transferred)
              r'.error_number,
          w'',
        ),
        rw (s, eq),
        record {
          within = omega arith;
          accepted =
              accepted'
              ∙ ap (λ xs. xs ++ take r'.bytes_transferred p)
                  (accepted ∙ ap (λ xs. wire w fd ++ xs) whole)
              ∙ append_assoc (wire w fd) header (take r'.bytes_transferred p)
              ∙ ap (λ xs. wire w fd ++ xs)
                  (sym (take-frame_payload p r'.bytes_transferred)
                    ∙ ap (λ k. take (k + r'.bytes_transferred) (frame p)) (sym n));
          calmer = omega arith;
          ends = rw n (shifted-ends (length p) 4 r' ends);
        },
      )
  send_payload-SendsFrame w w' r enough within accepted calm (inr (inl (s, n, e))) =
      header_stop w w' r (ap is_completed s) within accepted calm
        (inr (inl (ap to_frame_status s, omega arith, e)))
  send_payload-SendsFrame w w' r enough within accepted calm (inr (inr (s, n, e, e'))) =
      header_stop w w' r (ap is_completed s) within accepted calm
        (inr (inr (ap to_frame_status s, omega arith, e, e')))

  -- If the fuel exceeds the length of the frame plus the number of signals that may interrupt a
  -- call, `sendFrame` returns. A payload longer than `max_payload_size` is refused with
  -- `payload_too_large`, count 0 and error 0, and nothing is sent. For any other, the kernel has
  -- accepted for the descriptor, behind what it had accepted before, exactly as many first bytes of
  -- the payload's frame as the count says; and the result says `completed` with the whole frame
  -- sent and error 0, or `would_block` or `io_error` with less, the first with EAGAIN, the second
  -- with a nonzero error that is not EAGAIN.
  pub send_frame-total :
      (w : W)
      → 4 + length p + signals w < fuel
      → (r : SendFrameResult) × (w' : W) × (send_frame os fuel w fd p ≡ some (r, w'))
        × (((max_payload_size < length p) × (r ≡ sent_result payload_too_large 0 0) × (w' ≡ w))
            ⊎ ((length p ≤ max_payload_size)
                × (wire w' fd ≡ wire w fd ++ take r.bytes_transferred (frame p))
                × SendFrameEnds (length (frame p)) r))
  unfolding send_frame
  send_frame-total w enough = elim (Bool-cases (ltb max_payload_size (length p))) [
    | inl big ↦ (_, w, rw big, inl (ltb→lt _ _ big, refl, refl))
    | inr small ↦
        let (r, w', eq, within, accepted, calm, ends) =
          send_all-total os laws fd (htonl (to_u32 (length p))) fuel w
            (omega (arith, length-htonl (to_u32 (length p)))) in
        let (out, eq', s) =
          send_payload-SendsFrame w w' r enough (omega (arith, length-htonl (to_u32 (length p))))
            accepted calm (subst (λ n. SendEnds n r) (length-htonl (to_u32 (length p))) ends) in
        (
          out.0,
          out.1,
          rw (small, eq) eq',
          inr (not-ltb→le _ _ small, s.accepted, rw (length-frame p) s.ends),
        )
  ]
