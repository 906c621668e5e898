-- ===== src/Tests/Decoding.antt =====
-- Frames and the decoder: tests/unit/frame_decoder_test.cpp at a small scale.
use net_pulse.Base.{ℕ, ◌^◌, ◌≤◌, ◌<◌, ◌≡◌, ◌⊎◌, refl, List, [], ◌∷◌, ◌++◌, arith, length}
use net_pulse.Protocol.Wire.{max_payload_size, htonl, ntohl, frame}
use net_pulse.Protocol.FrameDecoder.{
  FrameDecoder, frame_ready, ready, waiting, oversized, compact, take_frame, decode_next,
  buffered_bytes,
}
use net_pulse.Protocol.FrameDecoder.View.{IsValid, pending}
use net_pulse.Protocol.FrameDecoder.NextFrame.{IsPartial}
use net_pulse.Protocol.FrameDecoder.Frames.{
  decode_next-frame, decode_next-too_large, decode_next_sound,
}

-- "hi"
abbrev payload : List ℕ
payload = 104 ∷ 105 ∷ []

-- The frame of "hi" and a byte more.
abbrev decoder : FrameDecoder
decoder = record { buffer = 0 ∷ 0 ∷ 0 ∷ 2 ∷ 104 ∷ 105 ∷ 9 ∷ []; read_offset = 0 }

-- A header for 2 ^ 21 bytes.
abbrev poisoned : FrameDecoder
poisoned = record { buffer = 7 ∷ 0 ∷ 32 ∷ 0 ∷ 0 ∷ []; read_offset = 1 }

decode_hi :
    decode_next decoder ≡ (ready payload, record { buffer = decoder.buffer; read_offset = 6 })
unfolding decode_next take_frame compact buffered_bytes ntohl
decode_hi = refl

decode_half : (decode_next (record decoder { read_offset = 6 })).0 ≡ waiting
unfolding decode_next take_frame compact buffered_bytes ntohl
decode_half = refl

decode_next-frame_example :
    let (r, d) = decode_next decoder in (r ≡ ready payload) × (pending d ≡ 9 ∷ []) × IsValid d
unfolding frame
decode_next-frame_example =
    decode_next-frame decoder payload (9 ∷ []) (omega arith) (omega arith) refl

decode_next-too_large_example : decode_next poisoned ≡ (oversized, poisoned)
unfolding htonl
decode_next-too_large_example =
    decode_next-too_large poisoned (2 ^ 21) [] (omega arith) (omega arith) (omega arith) refl

decode_next_sound_example :
    let (r, d) = decode_next decoder in
    ((r.status ≡ frame_ready)
      × (pending decoder ≡ frame r.payload ++ pending d)
      × (length r.payload ≤ max_payload_size))
    ⊎ ((r ≡ oversized)
        × (d ≡ decoder)
        × ((n : ℕ) × (rest : List ℕ) × (max_payload_size < n)
            × (n < 2 ^ 32)
            × (pending decoder ≡ htonl n ++ rest)))
    ⊎ ((r ≡ waiting) × (d ≡ decoder) × IsPartial (pending decoder))
decode_next_sound_example = decode_next_sound decoder (omega arith) (omega arith)
