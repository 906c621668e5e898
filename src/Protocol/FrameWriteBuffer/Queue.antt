-- ===== src/Protocol/FrameWriteBuffer/Queue.antt =====
-- The bytes that a write buffer still has to send, and what `enqueue` adds to them.
use net_pulse.Base.{
  ℕ, ◌≤◌, ◌<◌, ◌≡◌, ◌↔◌, ap, ◌∙◌, List, [], ◌++◌, true, arith, length, drop, ltb, ltb→lt,
  not-ltb→le, Bool-cases, ◌⊎◌, inl, inr, length-drop, length-append, drop-length, drop-append,
  append_assoc, empty-of_zero, ==_iff,
}
use net_pulse.Protocol.Wire.{max_payload_size, htonl, frame, to_u32}
use net_pulse.Protocol.FrameWriteBuffer.{
  FrameWriteBuffer, queued, payload_too_large, pending_bytes, is_empty, clear, compact, enqueue,
}

-- The write offset lies inside the buffer.
abbrev pub IsValid : FrameWriteBuffer → Type 0
IsValid b = b.write_offset ≤ length b.buffer

abbrev pub pending : FrameWriteBuffer → List ℕ
pending b = drop b.write_offset b.buffer

pub pending_bytes-pending :
    (b : FrameWriteBuffer) → IsValid b → pending_bytes b ≡ length (pending b)
unfolding pending_bytes
pending_bytes-pending b v = ground (arith, length-drop b.write_offset b.buffer)

-- `empty()` says that nothing is left to send.
pub is_empty_iff : (b : FrameWriteBuffer) → IsValid b → (is_empty b ≡ true) ↔ (pending b ≡ [])
unfolding is_empty
is_empty_iff b v = (
  (λ e.
      empty-of_zero (pending b)
        (omega (arith, (==_iff (pending_bytes b) 0).0 e, pending_bytes-pending b v))),
  (λ e. (==_iff (pending_bytes b) 0).1 (pending_bytes-pending b v ∙ ap length e)),
)

pub compact-pending :
    (b : FrameWriteBuffer) → IsValid b → IsValid (compact b) × (pending (compact b) ≡ pending b)
unfolding compact clear
compact-pending b v = ground (arith, drop-length b.buffer b.write_offset)

-- `enqueue` accepts a payload of at most `max_payload_size` bytes into a valid buffer: the bytes
-- still to be sent become what they were and then the payload's frame, and the buffer stays valid. It
-- refuses a longer payload, and then the buffer is as it was.
pub enqueue-pending :
    (b : FrameWriteBuffer) (p : List ℕ)
    → IsValid b
    → ((length p ≤ max_payload_size)
        × ((enqueue b p).0 ≡ queued)
        × (pending (enqueue b p).1 ≡ pending b ++ frame p)
        × IsValid (enqueue b p).1)
      ⊎ ((max_payload_size < length p) × (enqueue b p ≡ (payload_too_large, b)))
unfolding enqueue frame
enqueue-pending b p v = elim (Bool-cases (ltb max_payload_size (length p))) [
  | inl big ↦ inr (ltb→lt _ _ big, rw big)
  | inr small ↦
      let (v', e) = compact-pending b v in
      let c = compact b in
      let h = htonl (to_u32 (length p)) in
      inl (
        not-ltb→le _ _ small,
        rw small,
        rw small (
            ap (drop c.write_offset) (append_assoc c.buffer h p)
            ∙ drop-append c.write_offset c.buffer (h ++ p) v'
            ∙ ap (λ xs. xs ++ (h ++ p)) e),
        rw small (omega (arith, length-append (c.buffer ++ h) p, length-append c.buffer h)),
      )
]
