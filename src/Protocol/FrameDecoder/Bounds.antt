-- ===== src/Protocol/FrameDecoder/Bounds.antt =====
-- How much of its buffer a decoder may keep behind its read offset.
use net_pulse.Base.{
  ℕ, ◌+◌, ◌*◌, ◌≤◌, inl, inr, List, drop, ltb, length, arith, Bool-cases, length-append,
}
use net_pulse.Protocol.Wire.{max_payload_size, header_size, ntohl}
use net_pulse.Protocol.FrameDecoder.{
  FrameDecoder, append, buffered_bytes, compact, take_frame, decode_next,
}

-- The read offset is inside the buffer, and the bytes before it are at most half of the buffer and half
-- of the compaction threshold.
abbrev pub IsTight : FrameDecoder → Type 0
IsTight d = (d.read_offset ≤ length d.buffer) × (2 * d.read_offset ≤ length d.buffer + 4096)

pub append-IsTight : (d : FrameDecoder) (bytes : List ℕ) → IsTight d → IsTight (append d bytes)
unfolding append
append-IsTight d bytes t = omega (arith, length-append d.buffer bytes)

-- Compaction makes any decoder tight.
pub compact-IsTight : (d : FrameDecoder) → d.read_offset ≤ length d.buffer → IsTight (compact d)
unfolding compact
compact-IsTight d v = ground arith

take_frame-IsTight : (d : FrameDecoder) (n : ℕ) → IsTight d → IsTight (take_frame d n).1
unfolding take_frame buffered_bytes
take_frame-IsTight d n t =
    ground (arith, compact-IsTight (record d { read_offset = d.read_offset + (header_size + n) }))

pub decode_next-IsTight : (d : FrameDecoder) → IsTight d → IsTight (decode_next d).1
unfolding decode_next
decode_next-IsTight d t = elim (Bool-cases (ltb (buffered_bytes d) header_size)) [
  | inl short ↦ rw short t
  | inr header ↦ elim (Bool-cases (ltb max_payload_size (ntohl (drop d.read_offset d.buffer)))) [
    | inl big ↦ rw (header, big) t
    | inr fits ↦ rw (header, fits) (take_frame-IsTight d (ntohl (drop d.read_offset d.buffer)) t)
  ]
]
