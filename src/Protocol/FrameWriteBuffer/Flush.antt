-- ===== src/Protocol/FrameWriteBuffer/Flush.antt =====
-- `flush` is `sendAll` of the bytes that are still to be sent, and loses none of them.
use mathlib.Core.Option
use net_pulse.Base.{
  ℕ, ℤ, zero, suc, ◌+◌, ◌≤◌, ◌<◌, ◌≡◌, ◌≢◌, ◌⊎◌, inl, inr, refl, sym, ap, ap₂, ◌∙◌, List, [], ◌++◌,
  arith, some, length, take, drop, ltb, ◌==◌, Bool-cases, length-drop, drop-drop, append_assoc,
  take-append-drop, drop-length, add_assoc, add-zero,
}
use net_pulse.Os.Errno.{eintr, eagain}
use net_pulse.Os.Sockets.{Sockets, SendLaws, SysResult, done, failed}
use net_pulse.Network.Io
use net_pulse.Network.Io.{IoStatus, IoResult, blocks, send_loop, send_all}
use net_pulse.Network.Io.Send.{SendEnds, send_all-total}
use net_pulse.Protocol.FrameWriteBuffer.{
  FrameFlushStatus, FrameFlushResult, FrameWriteBuffer, drained, would_block, error, flushed, clear,
  after_send, flush_loop, flush,
}
use net_pulse.Protocol.FrameWriteBuffer.Queue.{IsValid, pending}

abbrev pub to_flush_status : IoStatus → FrameFlushStatus
to_flush_status IoStatus.completed = drained
to_flush_status IoStatus.would_block = would_block
to_flush_status IoStatus.peer_closed = error
to_flush_status IoStatus.error = error

-- The buffer is cleared when all is sent, and else its write offset moves on by the count.
abbrev pub advance : FrameWriteBuffer → IoStatus → ℕ → FrameWriteBuffer
advance b IoStatus.completed n = record { buffer = []; write_offset = 0 }
advance b IoStatus.would_block n = record b { write_offset = b.write_offset + n }
advance b IoStatus.peer_closed n = record b { write_offset = b.write_offset + n }
advance b IoStatus.error n = record b { write_offset = b.write_offset + n }

-- A result of `sendAll` read as a result of `flush`.
abbrev pub as_flush {ℓ} :
    {W : Type ℓ} → FrameWriteBuffer → IoResult × W → FrameFlushResult × FrameWriteBuffer × W
as_flush b (r, w) = (
  flushed (to_flush_status r.status) r.bytes_transferred r.error_number,
  advance b r.status r.bytes_transferred,
  w,
)

-- How `flush` ends: with nothing left to send, with no room, or with an error.
abbrev pub FlushEnds : FrameFlushResult → FrameWriteBuffer → Type 0
FlushEnds r b' =
    ((r.status ≡ drained) × (pending b' ≡ []) × (r.error_number ≡ 0))
    ⊎ ((r.status ≡ would_block) × (pending b' ≢ []) × (r.error_number ≡ eagain))
    ⊎ ((r.status ≡ error) × (pending b' ≢ []) × (r.error_number ≢ 0) × (r.error_number ≢ eagain))

-- `sendAll`'s ends, read at the buffer that is left.
record Leaves (b : FrameWriteBuffer) (r : IoResult) (b' : FrameWriteBuffer) : Type 0 where
  valid : IsValid b'
  left : pending b' ≡ drop r.bytes_transferred (pending b)
  ends : FlushEnds (flushed (to_flush_status r.status) r.bytes_transferred r.error_number) b'

not-nil : {xs : List ℕ} → 0 < length xs → xs ≢ []
not-nil h e = omega (arith, ap length e)

moved :
    (b : FrameWriteBuffer) (n : ℕ)
    → IsValid b
    → n < length (pending b)
    → let b' = record b { write_offset = b.write_offset + n } in
      IsValid b' × (pending b' ≡ drop n (pending b)) × (pending b' ≢ [])
moved b n v h =
    let e : drop (b.write_offset + n) b.buffer ≡ drop n (pending b) =
      sym (drop-drop n b.write_offset b.buffer) in
    (
      omega (arith, length-drop b.write_offset b.buffer),
      e,
      not-nil (
          omega (
            arith,
            length-drop b.write_offset b.buffer,
            length-drop (b.write_offset + n) b.buffer,
          )),
    )

advance-Leaves :
    (b : FrameWriteBuffer) (s : IoStatus) (r : IoResult)
    → IsValid b
    → r.status ≡ s
    → SendEnds (length (pending b)) r
    → Leaves b r (advance b s r.bytes_transferred)
advance-Leaves b IoStatus.completed r v st (inl (e, all, zero_error)) = record {
  valid = omega arith;
  left = sym (drop-length (pending b) r.bytes_transferred (omega arith));
  ends = inl (ap to_flush_status st, refl, zero_error);
}
advance-Leaves b IoStatus.would_block r v st (inr (inl (e, less, again))) =
    let (v', l, ne) = moved b r.bytes_transferred v less in
    record { valid = v'; left = l; ends = inr (inl (ap to_flush_status st, ne, again)) }
advance-Leaves b IoStatus.error r v st (inr (inr (e, less, nonzero, other))) =
    let (v', l, ne) = moved b r.bytes_transferred v less in
    record { valid = v'; left = l; ends = inr (inr (ap to_flush_status st, ne, nonzero, other)) }
advance-Leaves b IoStatus.completed r v st (inr (inl (e, _, _))) = cc
advance-Leaves b IoStatus.completed r v st (inr (inr (e, _, _, _))) = cc
advance-Leaves b IoStatus.peer_closed r v st (inl (e, _, _)) = cc
advance-Leaves b IoStatus.peer_closed r v st (inr (inl (e, _, _))) = cc
advance-Leaves b IoStatus.peer_closed r v st (inr (inr (e, _, _, _))) = cc
advance-Leaves b IoStatus.would_block r v st (inl (e, _, _)) = cc
advance-Leaves b IoStatus.would_block r v st (inr (inr (e, _, _, _))) = cc
advance-Leaves b IoStatus.error r v st (inl (e, _, _)) = cc
advance-Leaves b IoStatus.error r v st (inr (inl (e, _, _))) = cc

module _ {W : Type 0} (os : Sockets W) (fd : ℤ) (b : FrameWriteBuffer) where
  abbrev at_total : ℕ → FrameWriteBuffer
  at_total total = record b { write_offset = b.write_offset + total }

  -- The two loops agree for this fuel.
  abbrev Agree : ℕ → Type 0
  Agree fuel =
      (w : W) (total : ℕ)
      → flush_loop os fuel w fd (at_total total) total
        ≡ Option.map (as_flush b) (send_loop os fuel w fd (pending b) total)

  after_send-Agree :
      (fuel : ℕ)
      → Agree fuel
      → (total : ℕ) (res : SysResult × W)
      → after_send (λ w' b' total'. flush_loop os fuel w' fd b' total') (at_total total) total res
        ≡ Option.map
            (as_flush b)
            (Io.after_send (λ w' total'. send_loop os fuel w' fd (pending b) total') total res)
  unfolding after_send Io.after_send
  after_send-Agree fuel again total (done n, w) = elim (Bool-cases (ltb 0 n)) [
    | inl some_sent ↦ rw some_sent (
        ap (λ k. flush_loop os fuel w fd (record b { write_offset = k }) (total + n))
          (add_assoc b.write_offset total n)
        ∙ again w (total + n))
    | inr nothing ↦ rw nothing
  ]
  after_send-Agree fuel again total (failed e, w) = elim (Bool-cases (e == eintr)) [
    | inl interrupted ↦ rw interrupted (again w total)
    | inr other ↦ elim (Bool-cases (blocks e)) [
      | inl full ↦ rw other (rw full)
      | inr broken ↦ rw other (rw broken)
    ]
  ]

  flush_loop-Agree : IsValid b → (fuel : ℕ) → Agree fuel
  unfolding flush_loop send_loop clear
  flush_loop-Agree v zero w total = refl
  flush_loop-Agree v (suc fuel) w total = elim (Bool-cases (ltb total (length (pending b)))) [
    | inl room ↦
        rw (room, same_test, room)
          (ap
              (λ xs.
                after_send (λ w' b' total'. flush_loop os fuel w' fd b' total') (at_total total)
                  total (os.send w fd xs))
              (sym (drop-drop total b.write_offset b.buffer))
            ∙ after_send-Agree fuel (flush_loop-Agree v fuel) total
                (os.send w fd (drop total (pending b))))
    | inr whole ↦ rw (whole, same_test, whole)
  ]
    where
      same_test : ltb (b.write_offset + total) (length b.buffer) ≡ ltb total (length (pending b))
      same_test = ground (arith, length-drop b.write_offset b.buffer)

  -- On a valid buffer `flush` does what `sendAll` does with the bytes still to be sent, for any
  -- socket and any fuel: the same calls of `send`, the same count and error, `drained` for
  -- `completed`; and it leaves the buffer cleared if all was sent, and else with its write
  -- offset moved on by the count.
  pub flush-eq-send_all :
      IsValid b
      → (fuel : ℕ) (w : W)
      → flush os fuel w fd b ≡ Option.map (as_flush b) (send_all os fuel w fd (pending b))
  unfolding flush send_all
  flush-eq-send_all v fuel w =
      ap (λ k. flush_loop os fuel w fd (record b { write_offset = k }) 0)
        (sym (add-zero b.write_offset))
      ∙ flush_loop-Agree v fuel w 0

  module _ (laws : SendLaws os) where
    open laws use {wire, signals}

    -- If the fuel exceeds the number of bytes still to be sent plus the number of signals that may
    -- interrupt a call, `flush` on a valid buffer returns and leaves a valid buffer. What the
    -- kernel has accepted for the descriptor and then what is still to be sent is, byte for byte,
    -- what it was before; the count says how many bytes went from the second to the first; and the
    -- result says `drained` with nothing left to send and error 0, or `would_block` or `error` with
    -- something left, the first with EAGAIN, the second with a nonzero error that is not EAGAIN.
    pub flush-total :
        IsValid b
        → (fuel : ℕ) (w : W) → length (pending b) + signals w < fuel
        → (r : FrameFlushResult) × (b' : FrameWriteBuffer) × (w' : W) × (flush os fuel w fd b
            ≡ some (r, b', w'))
          × IsValid b'
          × (wire w' fd ++ pending b' ≡ wire w fd ++ pending b)
          × (r.bytes_transferred + length (pending b') ≡ length (pending b))
          × (signals w' ≤ signals w)
          × FlushEnds r b'
    flush-total v fuel w enough =
        let (r, w', eq, within, accepted, calm, ends) =
          send_all-total os laws fd (pending b) fuel w enough in
        let l = advance-Leaves b r.status r v refl ends in
        let n = r.bytes_transferred in
        (
          _,
          _,
          w',
          flush-eq-send_all v fuel w ∙ ap (Option.map (as_flush b)) eq,
          l.valid,
          ap₂ ◌++◌ accepted l.left
              ∙ append_assoc (wire w fd) (take n (pending b)) (drop n (pending b))
              ∙ ap (◌++◌ (wire w fd)) (take-append-drop n (pending b)),
          omega (arith, ap length l.left, length-drop n (pending b)),
          calm,
          l.ends,
        )
