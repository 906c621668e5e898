-- ===== src/Protocol/Frame.antt =====
-- include/netpulse/protocol/frame.hpp and src/protocol/frame.cpp. `none` means that the fuel of a
-- loop below ran out.
pub mod Send
pub mod Receive
pub mod Keeps
use net_pulse.Base.{
  ℕ, ℤ, ◌+◌, List, [], ◌++◌, Bool, Option, none, some, length, take, ltb, if◌then◌else◌, replicate,
}
use net_pulse.Os.Sockets.{Sockets}
use net_pulse.Network.Io.{IoStatus, IoResult, is_completed, send_all, receive_exact}
use net_pulse.Protocol.Wire.{max_payload_size, header_size, to_u32, htonl, ntohl}

pub data FrameStatus : Type 0 where
  completed peer_closed would_block payload_too_large io_error : FrameStatus

pub record SendFrameResult : Type 0 where
  pub status : FrameStatus
  pub bytes_transferred : ℕ
  pub error_number : ℕ

pub record ReceiveFrameResult : Type 0 where
  pub status : FrameStatus
  pub payload : List ℕ
  pub bytes_transferred : ℕ
  pub error_number : ℕ

unfoldable pub to_frame_status : IoStatus → FrameStatus
to_frame_status IoStatus.completed = completed
to_frame_status IoStatus.peer_closed = peer_closed
to_frame_status IoStatus.would_block = would_block
to_frame_status IoStatus.error = io_error

-- `SendFrameResult::completed()` and `ReceiveFrameResult::completed()`
abbrev pub frame_completed : FrameStatus → Bool
frame_completed completed = Bool.true
frame_completed _ = Bool.false

abbrev pub sent_result : FrameStatus → ℕ → ℕ → SendFrameResult
sent_result status count errno = record {
  status = status;
  bytes_transferred = count;
  error_number = errno;
}

abbrev pub received_result : FrameStatus → List ℕ → ℕ → ℕ → ReceiveFrameResult
received_result status payload count errno = record {
  status = status;
  payload = payload;
  bytes_transferred = count;
  error_number = errno;
}

infixl 5 ◌>>=◌
abbrev pub ◌>>=◌ : {A B : Type 0} → Option A → (A → Option B) → Option B
none >>= f = none
some a >>= f = f a

module _ {W : Type 0} (os : Sockets W) (fuel : ℕ) where
  -- Behind the header: send the payload.
  unfoldable pub send_payload : ℤ → List ℕ → IoResult → W → Option (SendFrameResult × W)
  send_payload fd payload header_result w =
      if is_completed header_result.status
      then (do
        (payload_result, w') ← send_all os fuel w fd payload
        some (
          sent_result (to_frame_status payload_result.status)
              (header_result.bytes_transferred + payload_result.bytes_transferred)
              payload_result.error_number,
          w',
        ))
      else some (
        sent_result (to_frame_status header_result.status) header_result.bytes_transferred
            header_result.error_number,
        w,
      )

  unfoldable pub send_frame : W → ℤ → List ℕ → Option (SendFrameResult × W)
  send_frame w fd payload =
      if ltb max_payload_size (length payload)
      then some (sent_result payload_too_large 0 0, w)
      else do
        (header_result, w') ← send_all os fuel w fd (htonl (to_u32 (length payload)))
        send_payload fd payload header_result w'

  -- Behind the header of a legal length: receive the payload into a vector of that length.
  unfoldable pub receive_payload : ℤ → ℕ → ℕ → W → Option (ReceiveFrameResult × W)
  receive_payload fd payload_size header_count w = do
    (payload_result, payload, w') ← receive_exact os fuel w fd (replicate payload_size 0)
    some (
      received_result (to_frame_status payload_result.status) payload
          (header_count + payload_result.bytes_transferred) payload_result.error_number,
      w',
    )

  unfoldable pub after_header : ℤ → IoResult → List ℕ → W → Option (ReceiveFrameResult × W)
  after_header fd header_result header w =
      if is_completed header_result.status
      then (let payload_size = ntohl header in
          if ltb max_payload_size payload_size
          then some (received_result payload_too_large [] (length header) 0, w)
          else receive_payload fd payload_size header_result.bytes_transferred w)
      else some (
        received_result (to_frame_status header_result.status) [] header_result.bytes_transferred
            header_result.error_number,
        w,
      )

  unfoldable pub receive_frame : W → ℤ → Option (ReceiveFrameResult × W)
  receive_frame w fd = do
    (header_result, header, w') ← receive_exact os fuel w fd (replicate header_size 0)
    after_header fd header_result header w'
