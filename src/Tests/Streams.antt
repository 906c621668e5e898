-- ===== src/Tests/Streams.antt =====
-- Sending and receiving over a scripted system that is interrupted once and moves three bytes a call.
use net_pulse.Base.{
  ℕ, ℤ, pos, ◌+◌, ◌≤◌, ◌<◌, ◌≡◌, ◌⊎◌, refl, List, [], ◌∷◌, ◌++◌, some, arith, length, take,
}
use net_pulse.Os.Scripted.{World, sockets, descriptors, send_laws, recv_laws, eventfd_laws}
use net_pulse.Network.Io.{completed, result, send_loop, send_all, after_send}
use net_pulse.Network.EventFd.{
  EventFd, EventFdOperationResult, EventFdReadResult, notify, consume, valid,
}
use net_pulse.Network.EventFd.Counter.{Adds, Takes, notify-total, consume-total}
use net_pulse.Protocol.Wire.{max_payload_size, frame}
use net_pulse.Protocol.Frame.{
  SendFrameResult, ReceiveFrameResult, payload_too_large, sent_result, send_frame, receive_frame,
}
use net_pulse.Protocol.Frame.Send.{SendFrameEnds, send_frame-total}
use net_pulse.Protocol.Frame.Receive.{Outcome, receive_frame-frame}
use net_pulse.Protocol.FrameWriteBuffer.{
  FrameFlushResult, FrameWriteBuffer, FrameQueueStatus, queued, enqueue, flush,
}
use net_pulse.Protocol.FrameWriteBuffer.Queue.{IsValid, pending, enqueue-pending}
use net_pulse.Protocol.FrameWriteBuffer.Flush.{FlushEnds, flush-total, flush-eq-send_all, as_flush}
use mathlib.Core.Option

abbrev bytes : List ℕ
bytes = 1 ∷ 2 ∷ 3 ∷ 4 ∷ []

abbrev payload : List ℕ
payload = 104 ∷ 105 ∷ []

abbrev fd : ℤ
fd = pos 5

-- The peer sends the frame of "hi", and 9.
abbrev world : World
world = record {
  sent = [];
  to_read = 0 ∷ 0 ∷ 0 ∷ 2 ∷ 104 ∷ 105 ∷ 9 ∷ [];
  interrupts = 1;
  count = 0;
  waiting = 0;
}

abbrev buffer : FrameWriteBuffer
buffer = record { buffer = 8 ∷ 1 ∷ 2 ∷ 3 ∷ 4 ∷ []; write_offset = 1 }

abbrev notifier : EventFd
notifier = record { fd = pos 7; error_number = 0 }

send_four :
    send_all sockets 6 world fd bytes
    ≡ some (result completed 4 0, record world { sent = bytes; interrupts = 0 })
unfolding send_all send_loop after_send
send_four = refl

send_frame-total_example :
    (r : SendFrameResult) × (w' : World) × (send_frame sockets 8 world fd payload ≡ some (r, w'))
    × (((max_payload_size < 2) × (r ≡ sent_result payload_too_large 0 0) × (w' ≡ world))
        ⊎ ((2 ≤ max_payload_size)
            × (w'.sent ≡ [] ++ take r.bytes_transferred (frame payload))
            × SendFrameEnds (length (frame payload)) r))
send_frame-total_example = send_frame-total sockets send_laws 8 fd payload world (omega arith)

receive_frame-frame_example :
    (r : ReceiveFrameResult) × (w' : World) × (receive_frame sockets 8 world fd ≡ some (r, w'))
    × Outcome sockets recv_laws 8 fd payload (9 ∷ []) world r w'
unfolding frame
receive_frame-frame_example =
    receive_frame-frame sockets recv_laws 8 fd payload (9 ∷ []) world (omega arith) refl
      (omega arith)

enqueue-pending_example :
    ((2 ≤ max_payload_size)
      × ((enqueue buffer payload).0 ≡ queued)
      × (pending (enqueue buffer payload).1 ≡ bytes ++ frame payload)
      × IsValid (enqueue buffer payload).1)
    ⊎ ((max_payload_size < 2)
        × (enqueue buffer payload ≡ (FrameQueueStatus.payload_too_large, buffer)))
enqueue-pending_example = enqueue-pending buffer payload (omega arith)

flush-eq-send_all_example :
    flush sockets 6 world fd buffer
    ≡ Option.map (as_flush buffer) (send_all sockets 6 world fd bytes)
flush-eq-send_all_example = flush-eq-send_all sockets fd buffer (omega arith) 6 world

flush-total_example :
    (r : FrameFlushResult) × (b' : FrameWriteBuffer) × (w' : World) × (flush sockets 6 world fd
        buffer
      ≡ some (r, b', w'))
    × IsValid b'
    × (w'.sent ++ pending b' ≡ [] ++ bytes)
    × (r.bytes_transferred + length (pending b') ≡ 4)
    × (w'.interrupts ≤ 1)
    × FlushEnds r b'
flush-total_example = flush-total sockets fd buffer send_laws (omega arith) 6 world (omega arith)

notify-total_example :
    (out : EventFdOperationResult × World) × (notify descriptors 3 world notifier 1 ≡ some out)
    × Adds descriptors eventfd_laws world (pos 7) 1 out
unfolding valid
notify-total_example =
    notify-total descriptors eventfd_laws 3 world notifier 1 refl (omega arith) (omega arith)

consume-total_example :
    (out : EventFdReadResult × World) × (consume descriptors 3 world notifier ≡ some out)
    × Takes descriptors eventfd_laws world (pos 7) out
unfolding valid
consume-total_example = consume-total descriptors eventfd_laws 3 world notifier refl (omega arith)
