-- ===== src/Server/Connection/Deliver.antt =====
-- `readAvailable` against a peer that sends well-formed frames.
use net_pulse.Base.{
  ℕ, ◌+◌, ◌≤◌, ◌<◌, ◌≡◌, ◌≢◌, ◌⊎◌, inl, inr, refl, sym, ap, ap₂, ◌∙◌, List, [], ◌∷◌, ◌++◌, arith,
  some, length, append_assoc, append-nil, length-append,
}
use net_pulse.Os.Sockets.{Sockets, RecvLaws}
use net_pulse.Protocol.Wire.{max_payload_size, frame, IsBytes, length-frame}
use net_pulse.Protocol.FrameDecoder.{FrameDecoder}
use net_pulse.Protocol.FrameDecoder.View.{pending, incomplete, too_large, complete, next_frame}
use net_pulse.Protocol.FrameDecoder.NextFrame.{next_frame-frame, next_frame-append_big}
use net_pulse.Server.Connection.{
  Connection, ConnectionReadResult, protocol_error, fd, read_available,
}
use net_pulse.Server.Connection.Decode.{encode, AllLegal}
use net_pulse.Server.Connection.Read.{read_available-total}
use net_pulse.Server.Connection.Reading.{IsIdle, ReadEnds}

-- Two byte sequences that begin with a legal frame begin with the same one.
frame_unique :
    (p q xs ys : List ℕ)
    → length p ≤ max_payload_size
    → length q ≤ max_payload_size
    → frame p ++ xs ≡ frame q ++ ys
    → (p ≡ q) × (xs ≡ ys)
frame_unique p q xs ys hp hq e =
    let same : complete p xs ≡ complete q ys =
      sym (next_frame-frame p xs hp) ∙ ap next_frame e ∙ next_frame-frame q ys hq in
    (cc, cc)

next_frame-nil : next_frame [] ≡ incomplete
unfolding next_frame
next_frame-nil = refl

-- Frames at the front of a sequence of frames are its first ones.
pub encode-prefix :
    (ps qs : List (List ℕ)) (rest : List ℕ)
    → AllLegal ps
    → AllLegal qs
    → encode ps ≡ encode qs ++ rest
    → (later : List (List ℕ)) × (ps ≡ qs ++ later) × (rest ≡ encode later) × AllLegal later
encode-prefix ps [] rest hp hq e = (ps, refl, sym e, hp)
encode-prefix [] (q ∷ qs) rest hp hq e = absurd (
    omega (
      arith,
      ap length e,
      length-append (frame q ++ encode qs) rest,
      length-append (frame q) (encode qs),
      length-frame q,
    ))
encode-prefix (p ∷ ps) (q ∷ qs) rest hp hq e =
    let (same, behind) =
      frame_unique p q (encode ps) (encode qs ++ rest) hp.0 hq.0
        (e ∙ append_assoc (frame q) (encode qs) rest) in
    let (later, split, left, legal) = encode-prefix ps qs rest hp.1 hq.1 behind in
    (later, ap₂ ◌∷◌ same split, left, legal)

-- A sequence of legal frames never begins with an illegal header.
encode-ne-too_large : (ps : List (List ℕ)) → AllLegal ps → next_frame (encode ps) ≢ too_large
encode-ne-too_large [] h e = cc (next_frame-nil)
encode-ne-too_large (p ∷ ps) h e = cc (next_frame-frame p (encode ps) h.0)

-- Where a sequence of legal frames holds no whole frame, it is empty.
empty-of_incomplete :
    (ps : List (List ℕ)) → AllLegal ps → next_frame (encode ps) ≡ incomplete → ps ≡ []
empty-of_incomplete [] h e = refl
empty-of_incomplete (p ∷ ps) h e = cc (next_frame-frame p (encode ps) h.0)

not-poisoned :
    (r : ConnectionReadResult) (d : FrameDecoder) (coming : List ℕ) (later : List (List ℕ))
    → AllLegal later
    → pending d ++ coming ≡ encode later
    → ReadEnds r d
    → (r.status ≢ protocol_error) × (next_frame (pending d) ≡ incomplete)
not-poisoned r d coming later legal e (inl (s, big, _)) = absurd (
    encode-ne-too_large later legal
      (ap next_frame (sym e) ∙ next_frame-append_big (pending d) coming big))
not-poisoned r d coming later legal e (inr (inl (s, h, _))) = ((λ s'. cc), h)
not-poisoned r d coming later legal e (inr (inr (inl (s, h, _)))) = ((λ s'. cc), h)
not-poisoned r d coming later legal e (inr (inr (inr (s, h, _, _)))) = ((λ s'. cc), h)

all-delivered :
    (d : FrameDecoder) (coming : List ℕ) (later : List (List ℕ))
    → AllLegal later
    → pending d ++ coming ≡ encode later
    → next_frame (pending d) ≡ incomplete
    → (later ≡ []) ⊎ (coming ≢ [])
all-delivered d coming [] legal e h = inl refl
all-delivered d coming (p ∷ ps) legal e h = inr (λ none_left.
    let whole : pending d ≡ encode (p ∷ ps) =
      sym (append-nil (pending d)) ∙ ap (λ xs. pending d ++ xs) (sym none_left) ∙ e in
    cc (empty-of_incomplete (p ∷ ps) legal (ap next_frame (sym whole) ∙ h)))

module _ {W : Type 0} (os : Sockets W) (laws : RecvLaws os) where
  open laws use {inbound, signals}

  -- Let the bytes that an idle connection's decoder holds and then what the peer sends be exactly the
  -- frames of payloads `ps`, each of at most `max_payload_size` bytes, in whatever pieces the
  -- system hands them over, and let the fuel exceed the number of bytes that the peer sends plus the
  -- number of signals that may interrupt a call. Then `readAvailable` returns payloads that are
  -- the first of `ps`, in order and each once, and never `protocol_error`; the bytes that the
  -- decoder then holds and what the peer still sends are exactly the frames of the others, `later`, and
  -- the connection is idle again; and `later` is empty unless the peer still sends something.
  pub read_available-delivers :
      (fuel : ℕ) (w : W) (c : Connection) (ps : List (List ℕ))
      → IsIdle c.decoder
      → IsBytes (pending c.decoder)
      → IsBytes (inbound w (fd c))
      → AllLegal ps
      → pending c.decoder ++ inbound w (fd c) ≡ encode ps
      → length (inbound w (fd c)) + signals w < fuel
      → (r : ConnectionReadResult) × (c' : Connection) × (w' : W) × (later : List (List ℕ))
        × (read_available os fuel w c ≡ some (r, c', w'))
        × (ps ≡ r.frames ++ later)
        × (pending c'.decoder ++ inbound w' (fd c') ≡ encode later)
        × AllLegal later
        × IsIdle c'.decoder
        × (r.status ≢ protocol_error)
        × ((later ≡ []) ⊎ (inbound w' (fd c') ≢ []))
  read_available-delivers fuel w c ps idle ok inok legal sent enough =
      let (r, c', w', got, eq, read, exact, legal', v, same_socket, same_buffer, calm, ends) =
        read_available-total os laws fuel w c idle ok inok enough in
      let fd_same : fd c' ≡ fd c = ap (λ s. s.fd) same_socket in
      let split : encode ps ≡ encode r.frames ++ (pending c'.decoder ++ inbound w' (fd c)) =
        sym sent
        ∙ ap (λ xs. pending c.decoder ++ xs) read
        ∙ sym (append_assoc (pending c.decoder) got (inbound w' (fd c)))
        ∙ ap (λ xs. xs ++ inbound w' (fd c)) exact
        ∙ append_assoc (encode r.frames) (pending c'.decoder) (inbound w' (fd c)) in
      let (later, first, left, legal_later) =
        encode-prefix ps r.frames (pending c'.decoder ++ inbound w' (fd c)) legal legal' split in
      let left' : pending c'.decoder ++ inbound w' (fd c') ≡ encode later =
        ap (λ x. pending c'.decoder ++ inbound w' x) fd_same ∙ left in
      let (fine, waiting) =
        not-poisoned r c'.decoder (inbound w' (fd c')) later legal_later left' ends in
      (
        r,
        c',
        w',
        later,
        eq,
        first,
        left',
        legal_later,
        (v, waiting),
        fine,
        all-delivered c'.decoder (inbound w' (fd c')) later legal_later left' waiting,
      )
