-- ===== src/Server/Connection/Keeps.antt =====
-- `readAvailable` calls nothing but `recv`, and `flushWrites` nothing but `send`: they keep what every such
-- call keeps.
use net_pulse.Base.{
  ℕ, zero, suc, inl, inr, sym, List, [], Option, none, some, length, ltb, ◌==◌, subst, Bool-cases,
}
use net_pulse.Os.Errno.{eintr}
use net_pulse.Os.Sockets.{Sockets, RecvResult, received, recv_failed}
use net_pulse.Network.Io.{IoResult, blocks, send_all}
use net_pulse.Network.Io.Keeps.{Holds, KeptBySend, KeptByRecv, send_loop-keeps}
use net_pulse.Protocol.FrameDecoder
use net_pulse.Protocol.FrameDecoder.{buffered_bytes}
use net_pulse.Protocol.FrameWriteBuffer.{FrameWriteBuffer, FrameFlushResult, flush}
use net_pulse.Protocol.FrameWriteBuffer.Queue
use net_pulse.Protocol.FrameWriteBuffer.Flush.{flush-eq-send_all, as_flush}
use net_pulse.Server.Connection.{
  Connection, Decoded, waits, poisoned, Reads, fd, read_buffer_size, decode_loop, after_frames,
  after_recv, read_loop, read_available, with_buffer, flush_writes,
}
use mathlib.Core.Option

module _ {W : Type 0} (os : Sockets W) (P : W → Type 0) where
  abbrev Next : (W → Connection → List (List ℕ) → Reads W) → Type 0
  Next again =
      (w : W) (c : Connection) (frames : List (List ℕ))
      → P w
      → Holds (λ out. P out.2) (again w c frames)

  after_frames-keeps :
      (again : W → Connection → List (List ℕ) → Reads W) (c : Connection) (w : W)
      (o : Option Decoded)
      → Next again
      → P w
      → Holds (λ out. P out.2) (after_frames again c w o)
  unfolding after_frames
  after_frames-keeps again c w none next h = tt
  after_frames-keeps again c w (some (waits frames d)) next h =
      next w (record c { decoder = d }) frames h
  after_frames-keeps again c w (some (poisoned frames d)) next h = h

  after_recv-keeps :
      (again : W → Connection → List (List ℕ) → Reads W) (c : Connection) (frames : List (List ℕ))
      (res : RecvResult × W)
      → Next again
      → P res.1
      → Holds (λ out. P out.2) (after_recv again c frames res)
  unfolding after_recv
  after_recv-keeps again c frames (received bytes, w) next h =
      elim (Bool-cases (ltb 0 (length bytes))) [
        | inl some_read ↦
            let d = FrameDecoder.append c.decoder bytes in
            rw some_read
              (after_frames-keeps again c w (decode_loop (suc (buffered_bytes d)) d frames) next h)
        | inr none_read ↦ rw none_read h
      ]
  after_recv-keeps again c frames (recv_failed e, w) next h = elim (Bool-cases (e == eintr)) [
    | inl signal ↦ rw signal (next w c frames h)
    | inr other ↦ elim (Bool-cases (blocks e)) [
      | inl later ↦ rw (other, later) h
      | inr bad ↦ rw (other, bad) h
    ]
  ]

  read_loop-keeps : KeptByRecv os P → (fuel : ℕ) → Next (read_loop os fuel)
  unfolding read_loop
  read_loop-keeps kept zero w c frames h = tt
  read_loop-keeps kept (suc fuel) w c frames h =
      after_recv-keeps (λ w' c' frames'. read_loop os fuel w' c' frames') c frames
        (os.recv w (fd c) read_buffer_size) (read_loop-keeps kept fuel)
        (kept w (fd c) read_buffer_size h)

  pub read_available-keeps :
      KeptByRecv os P
      → (fuel : ℕ) (w : W) (c : Connection) → P w
      → Holds (λ out. P out.2) (read_available os fuel w c)
  unfolding read_available
  read_available-keeps kept fuel w c h = read_loop-keeps kept fuel w c [] h

  as_flush-Holds :
      (b : FrameWriteBuffer) (o : Option (IoResult × W))
      → Holds (λ out. P out.1) o
      → Holds (λ out. P out.2) (Option.map (as_flush b) o)
  as_flush-Holds b none h = tt
  as_flush-Holds b (some (r, w)) h = h

  with_buffer-Holds :
      (c : Connection) (o : Option (FrameFlushResult × FrameWriteBuffer × W))
      → Holds (λ out. P out.2) o
      → Holds (λ out. P out.2) (with_buffer os c o)
  with_buffer-Holds c none h = tt
  with_buffer-Holds c (some (r, b, w)) h = h

  pub flush_writes-keeps :
      KeptBySend os P
      → (fuel : ℕ) (w : W) (c : Connection) → Queue.IsValid c.write_buffer
      → P w
      → Holds (λ out. P out.2) (flush_writes os fuel w c)
  unfolding flush_writes send_all
  flush_writes-keeps kept fuel w c v h =
      with_buffer-Holds c (flush os fuel w (fd c) c.write_buffer) (
        subst (Holds (λ out. P out.2)) (sym (flush-eq-send_all os (fd c) c.write_buffer v fuel w)) (
          as_flush-Holds c.write_buffer (send_all os fuel w (fd c) (Queue.pending c.write_buffer))
            (send_loop-keeps os P kept fuel w (fd c) (Queue.pending c.write_buffer) 0 h)))
