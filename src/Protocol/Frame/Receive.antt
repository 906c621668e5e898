-- ===== src/Protocol/Frame/Receive.antt =====
-- `receiveFrame`: a frame that the peer sends is received as its payload.
use net_pulse.Base.{
  ℕ, ℤ, ◌+◌, ◌≤◌, ◌<◌, ◌≡◌, ◌⊎◌, inl, inr, refl, sym, ap, ◌∙◌, List, [], ◌++◌, arith, true, false,
  Option, some, length, take, drop, le→not-ltb, append_assoc, append-nil, length-append, replicate,
  length-replicate, take-append_self, drop-append_self, drop-length,
}
use net_pulse.Os.Sockets.{Sockets, RecvLaws}
use net_pulse.Network.Io.{IoResult, is_completed}
use net_pulse.Network.Io.Receive.{receive_exact-total}
use net_pulse.Network.Io.Receiving.{RecvEnds}
use net_pulse.Protocol.Wire.{
  max_payload_size, htonl, ntohl, to_u32, frame, length-htonl, length-frame, ntohl-htonl,
}
use net_pulse.Protocol.Frame.{
  FrameStatus, ReceiveFrameResult, completed, peer_closed, would_block, io_error, to_frame_status,
  received_result, receive_payload, after_header, receive_frame,
}

-- The call stopped before its end: the peer closed, nothing more has come yet, or an error.
abbrev pub IsCut : FrameStatus → Type 0
IsCut s = (s ≡ peer_closed) ⊎ (s ≡ would_block) ⊎ (s ≡ io_error)

-- The two parts of a list, when the first has a known length.
front-eq : (xs ys us vs : List ℕ) → length xs ≡ length us → xs ++ ys ≡ us ++ vs → xs ≡ us
front-eq xs ys us vs h e =
    sym (take-append_self (length xs) xs ys refl)
    ∙ ap (take (length xs)) e
    ∙ take-append_self (length xs) us vs h

back-eq : (xs ys us vs : List ℕ) → length xs ≡ length us → xs ++ ys ≡ us ++ vs → ys ≡ vs
back-eq xs ys us vs h e =
    sym (drop-append_self (length xs) xs ys refl)
    ∙ ap (drop (length xs)) e
    ∙ drop-append_self (length xs) us vs h

-- A buffer that has been filled holds what was read.
filled :
    (got : List ℕ) (size : ℕ)
    → length got ≡ size
    → got ++ drop (length got) (replicate size 0) ≡ got
filled got size h =
    ap (λ xs. got ++ xs)
      (drop-length (replicate size 0) (length got) (omega (arith, length-replicate {A = ℕ} size 0)))
    ∙ append-nil got

-- `receiveExact` ended full, or short for one of three reasons.
short-or-full :
    (size : ℕ) (r : IoResult)
    → RecvEnds size r
    → ((is_completed r.status ≡ true)
        × (to_frame_status r.status ≡ completed)
        × (r.bytes_transferred ≡ size)
        × (r.error_number ≡ 0))
      ⊎ ((is_completed r.status ≡ false)
          × IsCut (to_frame_status r.status)
          × (r.bytes_transferred < size))
unfolding to_frame_status
short-or-full size r (inl (s, n, e)) = inl (ap is_completed s, ap to_frame_status s, n, e)
short-or-full size r (inr (inl (s, n, e))) = inr (ap is_completed s, inl (ap to_frame_status s), n)
short-or-full size r (inr (inr (inl (s, n, e)))) =
    inr (ap is_completed s, inr (inl (ap to_frame_status s)), n)
short-or-full size r (inr (inr (inr (s, n, e, e')))) =
    inr (ap is_completed s, inr (inr (ap to_frame_status s)), n)

module _ {W : Type 0} (os : Sockets W) (laws : RecvLaws os) (fuel : ℕ) (fd : ℤ) where
  open laws use {inbound, signals}

  module _ (p rest : List ℕ) where
    -- The frame was received whole, or the call was cut short of it.
    abbrev pub Outcome : W → ReceiveFrameResult → W → Type 0
    Outcome w r w' =
        ((r ≡ received_result completed p (length (frame p)) 0) × (inbound w' fd ≡ rest))
        ⊎ (IsCut r.status
            × (r.bytes_transferred < length (frame p))
            × ((taken : List ℕ) × (length taken ≡ r.bytes_transferred)
                × (frame p ++ rest ≡ taken ++ inbound w' fd)))

    abbrev header : List ℕ
    header = htonl (to_u32 (length p))

    frame-split : frame p ++ rest ≡ header ++ (p ++ rest)
    unfolding frame
    frame-split = append_assoc header p rest

    payload-Outcome :
        (w : W) (r : IoResult)
        → r.bytes_transferred ≡ 4
        → inbound w fd ≡ p ++ rest
        → length p + signals w < fuel
        → (r' : ReceiveFrameResult) × (w' : W) × (receive_payload os fuel fd
              (length p)
              r.bytes_transferred
              w
            ≡ some (r', w'))
          × Outcome w r' w'
    unfolding receive_payload
    payload-Outcome w r n e enough =
        let (r', got, w', eq, count, within, read, calm, ends) =
          receive_exact-total os laws fd fuel w (replicate (length p) 0)
            (omega (arith, length-replicate {A = ℕ} (length p) 0)) in
        let size = length-replicate {A = ℕ} (length p) 0 in
        let both : p ++ rest ≡ got ++ inbound w' fd = sym e ∙ read in
        (
          received_result (to_frame_status r'.status)
              (got ++ drop (length got) (replicate (length p) 0))
              (r.bytes_transferred + r'.bytes_transferred) r'.error_number,
          w',
          rw eq,
          elim (short-or-full (length (replicate (length p) 0)) r' ends) [
            | inl (_, s, full, zero_error) ↦
                let len : length got ≡ length p = omega arith in
                let same : got ≡ p = sym (front-eq p rest got (inbound w' fd) (sym len) both) in
                inl (
                  (λ i.
                      received_result (s i) ((filled got (length p) len ∙ same) i)
                        (total r'.bytes_transferred (omega arith) i) (zero_error i)),
                  sym (back-eq p rest got (inbound w' fd) (sym len) both),
                )
            | inr (_, cut, short) ↦ inr (
              cut,
              omega (arith, length-frame p),
              (
                header ++ got,
                omega (arith, length-append header got, length-htonl (to_u32 (length p))),
                frame-split
                    ∙ ap (λ xs. header ++ xs) both
                    ∙ sym (append_assoc header got (inbound w' fd)),
              ),
            )
          ],
        )
      where
        total : (k : ℕ) → k ≡ length p → r.bytes_transferred + k ≡ length (frame p)
        total k h = omega (arith, length-frame p)

    abbrev pub Result : W → Option (ReceiveFrameResult × W) → Type 0
    Result w o = (r : ReceiveFrameResult) × (w' : W) × (o ≡ some (r, w')) × Outcome w r w'

    after_header-Outcome :
        (w w' : W) (r : IoResult) (got : List ℕ)
        → length p ≤ max_payload_size
        → length p + signals w' < fuel
        → r.bytes_transferred ≡ length got
        → frame p ++ rest ≡ got ++ inbound w' fd
        → RecvEnds 4 r
        → Result w (after_header os fuel fd r (got ++ drop (length got) (replicate 4 0)) w')
    unfolding after_header
    after_header-Outcome w w' r got small enough count read ends = elim (short-or-full 4 r ends) [
      | inl (full, s, n, zero_error) ↦
          let len : length got ≡ 4 = omega arith in
          let same_length : length got ≡ length header =
            omega (arith, length-htonl (to_u32 (length p))) in
          let split : got ++ inbound w' fd ≡ header ++ (p ++ rest) = sym read ∙ frame-split in
          let is_header : got ≡ header =
            front-eq got (inbound w' fd) header (p ++ rest) same_length split in
          let behind : inbound w' fd ≡ p ++ rest =
            back-eq got (inbound w' fd) header (p ++ rest) same_length split in
          let size : ntohl (got ++ drop (length got) (replicate 4 0)) ≡ length p =
            ap ntohl (filled got 4 len ∙ is_header ∙ sym (append-nil header))
            ∙ ntohl-htonl (to_u32 (length p)) [] (omega arith)
            ∙ omega arith in
          let (r', w'', eq, out) = payload-Outcome w' r n behind enough in
          (r', w'', rw (full, size, le→not-ltb _ _ small) eq, out)
      | inr (short, cut, less) ↦ (
        received_result (to_frame_status r.status) [] r.bytes_transferred r.error_number,
        w',
        rw short,
        inr (cut, omega (arith, length-frame p), (got, sym count, read)),
      )
    ]

    -- If the peer's next bytes are the frame of a payload of at most `max_payload_size` bytes, and
    -- the fuel exceeds the frame's length plus the number of signals that may interrupt a call,
    -- `receiveFrame` returns. Either the result is `completed` with exactly that payload, the
    -- length of the frame as its count and error 0, and the bytes behind the frame are what the
    -- peer sends next; or the status is `peer_closed`, `would_block` or `io_error`, the count is
    -- less than the length of the frame, and so many bytes have been read and no more.
    pub receive_frame-frame :
        (w : W)
        → length p ≤ max_payload_size
        → inbound w fd ≡ frame p ++ rest
        → length (frame p) + signals w < fuel
        → Result w (receive_frame os fuel w fd)
    unfolding receive_frame
    receive_frame-frame w small e enough =
        let (r, got, w', eq, count, within, read, calm, ends) =
          receive_exact-total os laws fd fuel w (replicate 4 0) (omega (arith, length-frame p)) in
        let (r', w'', eq', out) =
          after_header-Outcome w w' r got small (omega (arith, length-frame p)) count (sym e ∙ read)
            ends in
        (r', w'', rw eq eq', out)
