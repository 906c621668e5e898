-- ===== src/Protocol/FrameDecoder/View.antt =====
-- A decoder seen as the bytes that it has not handed out yet, and its steps as steps on those.
use net_pulse.Base.{
  ℕ, ◌+◌, ◌≤◌, ◌≡◌, refl, sym, ap, ◌∙◌, List, ◌++◌, arith, length, take, drop, ltb, if◌then◌else◌,
  Bool-cases, inl, inr, drop-length, length-drop, drop-drop, drop-append, length-append,
}
use net_pulse.Protocol.Wire.{max_payload_size, ntohl}
use net_pulse.Protocol.FrameDecoder.{
  FrameDecodeResult, FrameDecoder, append, compact, buffered_bytes, waiting, oversized, ready,
  take_frame, decode_next,
}

-- The read offset lies inside the buffer.
abbrev pub IsValid : FrameDecoder → Type 0
IsValid d = d.read_offset ≤ length d.buffer

abbrev pub pending : FrameDecoder → List ℕ
pending d = drop d.read_offset d.buffer

pub buffered_bytes-pending : (d : FrameDecoder) → IsValid d → buffered_bytes d ≡ length (pending d)
unfolding buffered_bytes
buffered_bytes-pending d v = ground (arith, length-drop d.read_offset d.buffer)

pub compact-pending :
    (d : FrameDecoder) → IsValid d → IsValid (compact d) × (pending (compact d) ≡ pending d)
unfolding compact
compact-pending d v = ground (arith, drop-length d.buffer d.read_offset)

pub append-pending :
    (d : FrameDecoder) (bytes : List ℕ)
    → IsValid d
    → IsValid (append d bytes) × (pending (append d bytes) ≡ pending d ++ bytes)
unfolding append
append-pending d bytes v =
    (omega (arith, length-append d.buffer bytes), drop-append d.read_offset d.buffer bytes v)

-- What the next frame of a byte sequence is, with the bytes behind it.
pub data Next : Type 0 where
  incomplete : Next
  too_large : Next
  complete : List ℕ → List ℕ → Next

unfoldable pub next_frame : List ℕ → Next
next_frame bs =
    if ltb (length bs) 4
    then incomplete
    else if ltb max_payload_size (ntohl bs)
    then too_large
    else if ltb (length bs) (4 + ntohl bs)
    then incomplete
    else complete (take (ntohl bs) (drop 4 bs)) (drop (4 + ntohl bs) bs)

-- `decodeNext` answers as `next_frame` says of the pending bytes, and leaves the bytes behind.
abbrev pub Answers : FrameDecoder → Next → FrameDecodeResult × FrameDecoder → Type 0
Answers d incomplete (r, d') = (r ≡ waiting) × (d' ≡ d)
Answers d too_large (r, d') = (r ≡ oversized) × (d' ≡ d)
Answers d (complete payload rest) (r, d') = (r ≡ ready payload) × (pending d' ≡ rest) × IsValid d'

advance-pending :
    (d : FrameDecoder) (n : ℕ)
    → d.read_offset + n ≤ length d.buffer
    → let d' = compact (record d { read_offset = d.read_offset + n }) in
      (pending d' ≡ drop n (pending d)) × IsValid d'
advance-pending d n h =
    let (v, e) = compact-pending (record d { read_offset = d.read_offset + n }) h in
    (e ∙ sym (drop-drop n d.read_offset d.buffer), v)

take_frame-Answers :
    (d : FrameDecoder) (n : ℕ)
    → IsValid d
    → Answers d
        (if ltb (length (pending d)) (4 + n)
          then incomplete
          else complete (take n (drop 4 (pending d))) (drop (4 + n) (pending d)))
        (take_frame d n)
unfolding take_frame
take_frame-Answers d n v =
    rw (buffered_bytes-pending d v) (elim (Bool-cases (ltb (length (pending d)) (4 + n))) [
      | inl short ↦ rw short (refl, refl)
      | inr enough ↦
          let (e, w) =
            advance-pending d (4 + n) (ground (arith, length-drop d.read_offset d.buffer)) in
          rw enough (ap (λ xs. ready (take n xs)) (sym (drop-drop 4 d.read_offset d.buffer)), e, w)
    ])

pub decode_next-Answers :
    (d : FrameDecoder) → IsValid d → Answers d (next_frame (pending d)) (decode_next d)
unfolding decode_next next_frame
decode_next-Answers d v =
    rw (buffered_bytes-pending d v) (elim (Bool-cases (ltb (length (pending d)) 4)) [
      | inl short ↦ rw short (refl, refl)
      | inr header ↦ rw header (elim (Bool-cases (ltb max_payload_size (ntohl (pending d)))) [
        | inl big ↦ rw big (refl, refl)
        | inr fits ↦ rw fits (take_frame-Answers d (ntohl (pending d)) v)
      ])
    ])
