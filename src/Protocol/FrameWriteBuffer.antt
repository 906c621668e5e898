-- ===== src/Protocol/FrameWriteBuffer.antt =====
-- include/netpulse/protocol/frame_write_buffer.hpp and src/protocol/frame_write_buffer.cpp. `none`
-- means that the fuel of the loop of `flush` ran out.
pub mod Queue
pub mod Flush
use net_pulse.Base.{
  ℕ, ℤ, zero, suc, ◌+◌, ◌-◌, List, [], ◌++◌, Bool, Option, none, some, ◌||◌, length, drop, ltb,
  ◌==◌, if◌then◌else◌,
}
use net_pulse.Os.Errno.{eintr, epipe}
use net_pulse.Os.Sockets.{Sockets, SysResult, done, failed}
use net_pulse.Network.Io.{blocks}
use net_pulse.Protocol.Wire.{max_payload_size, to_u32, htonl}
use net_pulse.Protocol.FrameDecoder.{sub_size}

pub data FrameQueueStatus : Type 0 where
  queued payload_too_large : FrameQueueStatus

pub data FrameFlushStatus : Type 0 where
  drained would_block error : FrameFlushStatus

pub record FrameFlushResult : Type 0 where
  pub status : FrameFlushStatus
  pub bytes_transferred : ℕ
  pub error_number : ℕ

pub record FrameWriteBuffer : Type 0 where
  pub buffer : List ℕ
  pub write_offset : ℕ

-- A buffer as it is constructed.
unfoldable pub fresh : FrameWriteBuffer
fresh = record { buffer = []; write_offset = 0 }

unfoldable pub pending_bytes : FrameWriteBuffer → ℕ
pending_bytes b = sub_size (length b.buffer) b.write_offset

unfoldable pub is_empty : FrameWriteBuffer → Bool
is_empty b = pending_bytes b == 0

unfoldable pub clear : FrameWriteBuffer → FrameWriteBuffer
clear b = record { buffer = []; write_offset = 0 }

unfoldable pub compact : FrameWriteBuffer → FrameWriteBuffer
compact b =
    if b.write_offset == 0
    then b
    else if b.write_offset == length b.buffer
    then clear b
    else record { buffer = drop b.write_offset b.buffer; write_offset = 0 }

-- `resize` and the two `memcpy` put the header and the payload behind the old bytes.
unfoldable pub enqueue : FrameWriteBuffer → List ℕ → FrameQueueStatus × FrameWriteBuffer
enqueue b payload =
    if ltb max_payload_size (length payload)
    then (payload_too_large, b)
    else let c = compact b in
      (queued, record c { buffer = c.buffer ++ htonl (to_u32 (length payload)) ++ payload })

abbrev pub flushed : FrameFlushStatus → ℕ → ℕ → FrameFlushResult
flushed status count errno = record {
  status = status;
  bytes_transferred = count;
  error_number = errno;
}

-- The body of the loop of `flush` behind the call of `send`; `again` is `continue`.
unfoldable pub after_send {ℓ} :
    {W : Type ℓ}
    → (W → FrameWriteBuffer → ℕ → Option (FrameFlushResult × FrameWriteBuffer × W))
    → FrameWriteBuffer
    → ℕ
    → SysResult × W
    → Option (FrameFlushResult × FrameWriteBuffer × W)
after_send again b total_sent (done n, w) =
    if ltb 0 n
    then again w (record b { write_offset = b.write_offset + n }) (total_sent + n)
    else some (flushed error total_sent epipe, b, w)
after_send again b total_sent (failed e, w) =
    if e == eintr
    then again w b total_sent
    else if blocks e
    then some (flushed would_block total_sent e, b, w)
    else some (flushed error total_sent e, b, w)

module _ {W : Type 0} (os : Sockets W) where
  unfoldable pub flush_loop :
      ℕ → W → ℤ → FrameWriteBuffer → ℕ → Option (FrameFlushResult × FrameWriteBuffer × W)
  flush_loop zero w fd b total_sent = none
  flush_loop (suc fuel) w fd b total_sent =
      let again =
        λ (w' : W) (b' : FrameWriteBuffer) (total' : ℕ). flush_loop fuel w' fd b' total' in
      if ltb b.write_offset (length b.buffer)
      then after_send again b total_sent (os.send w fd (drop b.write_offset b.buffer))
      else some (flushed drained total_sent 0, clear b, w)

  unfoldable pub flush :
      ℕ → W → ℤ → FrameWriteBuffer → Option (FrameFlushResult × FrameWriteBuffer × W)
  flush fuel w fd b = flush_loop fuel w fd b 0
