-- ===== src/Server/Connection/Bounds.antt =====
-- The memory of a connection's decoder stays bounded, whatever the peer sends.
use net_pulse.Base.{
  ℕ, zero, suc, ◌+◌, ◌*◌, ◌≤◌, ◌<◌, ◌≡◌, ◌⊎◌, inl, inr, ap, subst, List, [], ◌∷◌, ◌++◌, Option,
  none, some, length, arith, ltb, ◌==◌, Bool-cases, length-append, length-drop,
}
use net_pulse.Os.Errno.{eintr}
use net_pulse.Os.Sockets.{Sockets, RecvLaws, RecvResult, received, recv_failed}
use net_pulse.Network.Io.{blocks}
use net_pulse.Protocol.Wire.{max_payload_size, length-frame, IsBytes}
use net_pulse.Protocol.FrameDecoder.{
  FrameDecoder, FrameDecodeStatus, need_more_data, frame_ready, payload_too_large, append,
  decode_next, buffered_bytes,
}
use net_pulse.Protocol.FrameDecoder.View.{pending, incomplete, next_frame}
use net_pulse.Protocol.FrameDecoder.NextFrame.{next_frame-IsPartial}
use net_pulse.Protocol.FrameDecoder.Bounds.{IsTight, append-IsTight, decode_next-IsTight}
use net_pulse.Server.Connection.{
  Connection, ConnectionReadResult, protocol_error, fd, Decoded, waits, poisoned, Reads,
  after_decode, decode_loop, after_frames, after_recv, read_loop, read_available, read_buffer_size,
}
use net_pulse.Server.Connection.Decode.{IsBytes-rest}
use net_pulse.Server.Connection.Read.{read_available-total}
use net_pulse.Server.Connection.Reading.{IsIdle}

-- The decoder that the inner loop leaves.
abbrev Leaves : Option Decoded → Type 0
Leaves none = Unit {0}
Leaves (some (waits frames d)) = IsTight d
Leaves (some (poisoned frames d)) = IsTight d

after_decode-Leaves :
    (again : FrameDecoder → List (List ℕ) → Option Decoded)
    → ((d : FrameDecoder) (frames : List (List ℕ)) → IsTight d → Leaves (again d frames))
    → (frames : List (List ℕ)) (status : FrameDecodeStatus) (payload : List ℕ) (d : FrameDecoder)
    → IsTight d
    → Leaves (after_decode again frames status payload d)
unfolding after_decode
after_decode-Leaves again ih frames need_more_data payload d t = t
after_decode-Leaves again ih frames frame_ready payload d t = ih d (frames ++ payload ∷ []) t
after_decode-Leaves again ih frames payload_too_large payload d t = t

decode_loop-Leaves :
    (fuel : ℕ) (d : FrameDecoder) (frames : List (List ℕ))
    → IsTight d
    → Leaves (decode_loop fuel d frames)
unfolding decode_loop
decode_loop-Leaves zero d frames t = tt
decode_loop-Leaves (suc fuel) d frames t =
    after_decode-Leaves (λ d' frames'. decode_loop fuel d' frames') (decode_loop-Leaves fuel) frames
      (decode_next d).0.status (decode_next d).0.payload (decode_next d).1 (decode_next-IsTight d t)

idle_bounded :
    (d : FrameDecoder)
    → IsTight d
    → next_frame (pending d) ≡ incomplete
    → IsBytes (pending d)
    → length d.buffer ≤ 2 * (4 + max_payload_size) + 4096
idle_bounded d t e ok =
    let held : length (pending d) ≤ 4 + max_payload_size =
      elim (next_frame-IsPartial (pending d) ok e) [
        | inl short ↦ omega arith
        | inr (p, missing, _, legal, split) ↦
            omega (arith, ap length split, length-append (pending d) missing, length-frame p)
      ] in
    omega (arith, length-drop d.read_offset d.buffer)

module _ {W : Type 0} where
  -- The decoder that a read leaves.
  abbrev Keeps : Reads W → Type 0
  Keeps none = Unit {0}
  Keeps (some (r, c, w)) = IsTight c.decoder

  abbrev Again : (W → Connection → List (List ℕ) → Reads W) → Type 0
  Again again =
      (w : W) (c : Connection) (frames : List (List ℕ))
      → IsTight c.decoder
      → Keeps (again w c frames)

  after_frames-Keeps :
      (again : W → Connection → List (List ℕ) → Reads W) (c : Connection) (w : W)
      → Again again
      → (o : Option Decoded) → Leaves o
      → Keeps (after_frames again c w o)
  unfolding after_frames
  after_frames-Keeps again c w ih none t = tt
  after_frames-Keeps again c w ih (some (waits frames d)) t =
      ih w (record c { decoder = d }) frames t
  after_frames-Keeps again c w ih (some (poisoned frames d)) t = t

  after_recv-Keeps :
      (again : W → Connection → List (List ℕ) → Reads W) (c : Connection) (frames : List (List ℕ))
      → Again again
      → IsTight c.decoder
      → (res : RecvResult × W) → Keeps (after_recv again c frames res)
  unfolding after_recv
  after_recv-Keeps again c frames ih t (received bytes, w) =
      elim (Bool-cases (ltb 0 (length bytes))) [
        | inr closed ↦ rw closed t
        | inl some_read ↦
            let d = append c.decoder bytes in
            rw some_read (
              after_frames-Keeps again c w ih (decode_loop (suc (buffered_bytes d)) d frames) (
                decode_loop-Leaves (suc (buffered_bytes d)) d frames
                  (append-IsTight c.decoder bytes t)))
      ]
  after_recv-Keeps again c frames ih t (recv_failed e, w) = elim (Bool-cases (e == eintr)) [
    | inl interrupted ↦ rw interrupted (ih w c frames t)
    | inr other ↦ elim (Bool-cases (blocks e)) [
      | inl nothing ↦ rw (other, nothing) t
      | inr broken ↦ rw (other, broken) t
    ]
  ]

module _ {W : Type 0} (os : Sockets W) where
  read_loop-Keeps :
      (fuel : ℕ) (w : W) (c : Connection) (frames : List (List ℕ))
      → IsTight c.decoder
      → Keeps (read_loop os fuel w c frames)
  unfolding read_loop
  read_loop-Keeps zero w c frames t = tt
  read_loop-Keeps (suc fuel) w c frames t =
      after_recv-Keeps (read_loop os fuel) c frames (read_loop-Keeps fuel) t
        (os.recv w (fd c) read_buffer_size)

  module _ (laws : RecvLaws os) where
    open laws use {inbound, signals}

    -- Under the conditions in which `readAvailable` returns, and with a decoder whose read offset is
    -- within its buffer and at most half of the buffer's size and 2048 more: `readAvailable` leaves
    -- such a decoder, whatever the peer sends. Unless the status is `protocol_error`, the decoder's
    -- buffer is then at most twice as long as the longest frame, and 4096 bytes more.
    pub read_available-bounded :
        (fuel : ℕ) (w : W) (c : Connection)
        → IsIdle c.decoder
        → IsTight c.decoder
        → IsBytes (pending c.decoder)
        → IsBytes (inbound w (fd c))
        → length (inbound w (fd c)) + signals w < fuel
        → (r : ConnectionReadResult) × (c' : Connection) × (w' : W) × (read_available os fuel w c
            ≡ some (r, c', w'))
          × IsTight c'.decoder
          × ((r.status ≡ protocol_error)
              ⊎ (length c'.decoder.buffer ≤ 2 * (4 + max_payload_size) + 4096))
    unfolding read_available
    read_available-bounded fuel w c idle tight ok inok enough =
        let (r, c', w', got, eq, read, exact, _, valid, _, _, _, ends) =
          read_available-total os laws fuel w c idle ok inok enough in
        let tight' : IsTight c'.decoder = subst Keeps eq (read_loop-Keeps fuel w c [] tight) in
        (
          r,
          c',
          w',
          eq,
          tight',
          elim ends [
            | inl (broken, _, _) ↦ inl broken
            | inr rest ↦ inr (
                idle_bounded c'.decoder tight'
                  (elim rest [
                    | inl (_, e, _) ↦ e
                    | inr (inl (_, e, _)) ↦ e
                    | inr (inr (_, e, _, _)) ↦ e
                  ])
                  (IsBytes-rest (pending c.decoder) got (inbound w' (fd c)) (pending c'.decoder)
                    r.frames ok inok read exact))
          ],
        )
