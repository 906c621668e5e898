-- ===== src/Protocol/FrameDecoder/Frames.antt =====
-- What a call of `decodeNext` returns, in terms of the frames of the wire format.
use net_pulse.Base.{
  ℕ, ◌^◌, ◌≤◌, ◌<◌, ◌≡◌, ◌⊎◌, inl, inr, refl, sym, ap, ◌∙◌, List, ◌++◌, arith, length,
  length-append,
}
use net_pulse.Protocol.Wire.{max_payload_size, htonl, frame, IsBytes, length-htonl, ntohl-htonl}
use net_pulse.Protocol.FrameDecoder.{
  FrameDecodeResult, FrameDecoder, frame_ready, ready, waiting, oversized, decode_next,
}
use net_pulse.Protocol.FrameDecoder.View.{
  IsValid, pending, Next, incomplete, too_large, complete, next_frame, Answers, decode_next-Answers,
}
use net_pulse.Protocol.FrameDecoder.NextFrame.{
  IsPartial, next_frame-frame, next_frame-of_big, next_frame_sound, next_frame-big_sound,
  next_frame-IsPartial,
}

pub decode_next-of :
    (d : FrameDecoder) (n : Next)
    → IsValid d
    → next_frame (pending d) ≡ n
    → Answers d n (decode_next d)
decode_next-of d n v e = rw e at (decode_next-Answers d v)

-- The same, for the three answers with the result in hand.
pub Next-cases :
    (n : Next)
    → (n ≡ incomplete) ⊎ (n ≡ too_large) ⊎ ((p : List ℕ) × (rest : List ℕ) × (n ≡ complete p rest))
Next-cases incomplete = inl refl
Next-cases too_large = inr (inl refl)
Next-cases (complete p rest) = inr (inr (p, rest, refl))

-- If a whole frame of at most `max_payload_size` payload bytes stands at the front of the bytes that
-- a decoder holds, `decodeNext` returns `frame_ready` with exactly its payload, and the decoder then
-- holds exactly the bytes behind that frame, with its read offset inside its buffer.
pub decode_next-frame :
    (d : FrameDecoder) (p rest : List ℕ)
    → IsValid d
    → length p ≤ max_payload_size
    → pending d ≡ frame p ++ rest
    → let (r, d') = decode_next d in (r ≡ ready p) × (pending d' ≡ rest) × IsValid d'
decode_next-frame d p rest v h e =
    decode_next-of d (complete p rest) v (ap next_frame e ∙ next_frame-frame p rest h)

-- If the bytes that a decoder holds begin with the header of a length above `max_payload_size`,
-- `decodeNext` returns `payload_too_large` with no payload and leaves the decoder as it was.
pub decode_next-too_large :
    (d : FrameDecoder) (n : ℕ) (rest : List ℕ)
    → IsValid d
    → max_payload_size < n
    → n < 2 ^ 32
    → pending d ≡ htonl n ++ rest
    → decode_next d ≡ (oversized, d)
decode_next-too_large d n rest v big small e =
    let (r, s) = decode_next-of d too_large v (
      ap next_frame e
      ∙ next_frame-of_big (htonl n ++ rest)
          (omega (arith, length-append (htonl n) rest, length-htonl n))
          (rw (ntohl-htonl n rest small) big)) in
    λ i. (r i, s i)

-- Whatever `decodeNext` returns about a decoder that holds bytes (numbers below 256), it is right:
-- with `frame_ready` the bytes held were the returned payload's frame and then the bytes still held,
-- and the payload is at most `max_payload_size` long; with `payload_too_large` they begin with
-- the header of a length above the maximum; with `need_more_data` they are fewer than a header, or
-- a frame of legal length that lacks at least one byte. In the last two cases no payload is returned
-- and the decoder is as it was.
pub decode_next_sound :
    (d : FrameDecoder)
    → IsValid d
    → IsBytes (pending d)
    → let (r, d') = decode_next d in
      ((r.status ≡ frame_ready)
        × (pending d ≡ frame r.payload ++ pending d')
        × (length r.payload ≤ max_payload_size))
      ⊎ ((r ≡ oversized)
          × (d' ≡ d)
          × ((n : ℕ) × (rest : List ℕ) × (max_payload_size < n)
              × (n < 2 ^ 32)
              × (pending d ≡ htonl n ++ rest)))
      ⊎ ((r ≡ waiting) × (d' ≡ d) × IsPartial (pending d))
decode_next_sound d v ok = elim (Next-cases (next_frame (pending d))) [
  | inl e ↦
      let (r, s) = decode_next-of d incomplete v e in
      inr (inr (r, s, next_frame-IsPartial (pending d) ok e))
  | inr (inl e) ↦
      let (r, s) = decode_next-of d too_large v e in
      let (n, big, small, h) = next_frame-big_sound (pending d) ok e in
      inr (inl (r, s, (n, _, big, small, sym h)))
  | inr (inr (p, rest, e)) ↦
      let (r, s, _) = decode_next-of d (complete p rest) v e in
      let (h, small) = next_frame_sound (pending d) ok e in
      inl (ap (λ (x : FrameDecodeResult). x.status) r, (rw (r, s) (sym h)), (rw r small))
]
