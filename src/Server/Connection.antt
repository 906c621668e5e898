-- ===== src/Server/Connection.antt =====
-- include/netpulse/server/connection.hpp and src/server/connection.cpp. `none` means that the fuel of
-- the outer loop of `readAvailable`, or of the loop of `flush`, ran out. The inner loop, which takes
-- frames off the decoder, has one round of fuel for each byte that the decoder holds and one more.
pub mod Decode
pub mod Reading
pub mod Read
pub mod Keeps
pub mod Deliver
pub mod Bounds
use net_pulse.Base.{
  ℕ, ℤ, zero, suc, List, [], ◌∷◌, ◌++◌, Bool, true, false, not, Option, none, some, length, ltb,
  ◌==◌, if◌then◌else◌,
}
use net_pulse.Os.Errno.{eintr}
use net_pulse.Os.Sockets.{Sockets, RecvResult, received, recv_failed}
use net_pulse.Network.Socket
use net_pulse.Network.Socket.{Socket}
use net_pulse.Network.Io.{blocks}
use net_pulse.Protocol.FrameDecoder
use net_pulse.Protocol.FrameDecoder.{
  FrameDecoder, FrameDecodeResult, FrameDecodeStatus, need_more_data, frame_ready,
  payload_too_large, decode_next, buffered_bytes,
}
use net_pulse.Protocol.FrameWriteBuffer
use net_pulse.Protocol.FrameWriteBuffer.{FrameWriteBuffer, FrameQueueStatus, FrameFlushResult}

pub data ConnectionReadStatus : Type 0 where
  ready peer_closed protocol_error io_error : ConnectionReadStatus

pub record ConnectionReadResult : Type 0 where
  pub status : ConnectionReadStatus
  pub frames : List (List ℕ)
  pub error_number : ℕ

pub record Connection : Type 0 where
  pub socket : Socket
  pub decoder : FrameDecoder
  pub write_buffer : FrameWriteBuffer

unfoldable pub init : Socket → Connection
unfolding FrameDecoder.fresh FrameWriteBuffer.fresh
init socket = record {
  socket = socket;
  decoder = FrameDecoder.fresh;
  write_buffer = FrameWriteBuffer.fresh;
}

unfoldable pub valid : Connection → Bool
valid c = Socket.valid c.socket

abbrev pub fd : Connection → ℤ
fd c = c.socket.fd

-- How the inner loop left: `break`, or `return` with a protocol error.
pub data Decoded : Type 0 where
  waits : List (List ℕ) → FrameDecoder → Decoded
  poisoned : List (List ℕ) → FrameDecoder → Decoded

-- The body of the inner loop behind `decodeNext`; `again` is `continue`.
unfoldable pub after_decode :
    (FrameDecoder → List (List ℕ) → Option Decoded)
    → List (List ℕ)
    → FrameDecodeStatus
    → List ℕ
    → FrameDecoder
    → Option Decoded
after_decode again frames frame_ready payload d = again d (frames ++ payload ∷ [])
after_decode again frames payload_too_large payload d = some (poisoned frames d)
after_decode again frames need_more_data payload d = some (waits frames d)

unfoldable pub decode_loop : ℕ → FrameDecoder → List (List ℕ) → Option Decoded
decode_loop zero d frames = none
decode_loop (suc fuel) d frames =
    let again = λ (d' : FrameDecoder) (frames' : List (List ℕ)). decode_loop fuel d' frames' in
    let (r, d') = decode_next d in after_decode again frames r.status r.payload d'

abbrev pub read_buffer_size : ℕ
read_buffer_size = 4096

abbrev pub read_result : ConnectionReadStatus → List (List ℕ) → ℕ → ConnectionReadResult
read_result status frames errno = record { status = status; frames = frames; error_number = errno }

abbrev pub Reads : Type 0 → Type 0
Reads W = Option (ConnectionReadResult × Connection × W)

module _ {W : Type 0} where
  -- Behind the inner loop: the outer `continue`, or `return`.
  unfoldable pub after_frames :
      (W → Connection → List (List ℕ) → Reads W) → Connection → W → Option Decoded → Reads W
  after_frames again c w none = none
  after_frames again c w (some (waits frames d)) = again w (record c { decoder = d }) frames
  after_frames again c w (some (poisoned frames d)) =
      some (read_result protocol_error frames 0, record c { decoder = d }, w)

  -- The body of the outer loop behind `recv`; `again` is `continue`.
  unfoldable pub after_recv :
      (W → Connection → List (List ℕ) → Reads W)
      → Connection
      → List (List ℕ)
      → RecvResult × W
      → Reads W
  after_recv again c frames (received bytes, w) =
      if ltb 0 (length bytes)
      then (let d = FrameDecoder.append c.decoder bytes in
          after_frames again c w (decode_loop (suc (buffered_bytes d)) d frames))
      else some (read_result peer_closed frames 0, c, w)
  after_recv again c frames (recv_failed e, w) =
      if e == eintr
      then again w c frames
      else if blocks e
      then some (read_result ready frames 0, c, w)
      else some (read_result io_error frames e, c, w)

module _ {W : Type 0} (os : Sockets W) where
  unfoldable pub read_loop : ℕ → W → Connection → List (List ℕ) → Reads W
  read_loop zero w c frames = none
  read_loop (suc fuel) w c frames =
      let again =
        λ (w' : W) (c' : Connection) (frames' : List (List ℕ)). read_loop fuel w' c' frames' in
      after_recv again c frames (os.recv w (fd c) read_buffer_size)

  unfoldable pub read_available : ℕ → W → Connection → Reads W
  read_available fuel w c = read_loop fuel w c []

  -- The buffer of the connection as `flush` leaves it.
  abbrev pub with_buffer :
      Connection
      → Option (FrameFlushResult × FrameWriteBuffer × W)
      → Option (FrameFlushResult × Connection × W)
  with_buffer c none = none
  with_buffer c (some (r, b, w)) = some (r, record c { write_buffer = b }, w)

  unfoldable pub flush_writes : ℕ → W → Connection → Option (FrameFlushResult × Connection × W)
  flush_writes fuel w c = with_buffer c (FrameWriteBuffer.flush os fuel w (fd c) c.write_buffer)

unfoldable pub queue_frame : Connection → List ℕ → FrameQueueStatus × Connection
queue_frame c payload =
    let (status, b) = FrameWriteBuffer.enqueue c.write_buffer payload in
    (status, record c { write_buffer = b })

unfoldable pub wants_write : Connection → Bool
wants_write c = not (FrameWriteBuffer.is_empty c.write_buffer)
