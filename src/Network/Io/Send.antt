-- ===== src/Network/Io/Send.antt =====
-- `sendAll`: it returns, and what the peer gets is what the result says.
use net_pulse.Base.{
  ℕ, ℤ, zero, suc, ◌+◌, ◌-◌, ◌≤◌, ◌<◌, ◌≡◌, ◌≢◌, ◌⊎◌, inl, inr, refl, sym, ap, ◌∙◌, List, ◌++◌,
  arith, Option, some, length, take, drop, ltb, ◌==◌, Bool-cases, ltb→lt, not-ltb→le, ==_iff,
  length-drop, take-take-drop, append_assoc, append-nil, drop-drop, add-zero,
}
use net_pulse.Os.Errno.{eintr, eagain, epipe}
use net_pulse.Os.Sockets.{Sockets, SendLaws, SysResult, done, failed}
use net_pulse.Network.Io.{
  IoResult, completed, would_block, error, result, blocks, after_send, send_loop, send_all,
}

-- The ways in which `sendAll` ends: all sent, no room, or an error; `size` is the length of the data.
abbrev pub SendEnds : ℕ → IoResult → Type 0
SendEnds size r =
    ((r.status ≡ completed) × (r.bytes_transferred ≡ size) × (r.error_number ≡ 0))
    ⊎ ((r.status ≡ would_block) × (r.bytes_transferred < size) × (r.error_number ≡ eagain))
    ⊎ ((r.status ≡ error)
        × (r.bytes_transferred < size)
        × (r.error_number ≢ 0)
        × (r.error_number ≢ eagain))

module _ {W : Type 0} (os : Sockets W) (laws : SendLaws os) (fd : ℤ) (bytes : List ℕ) where
  open laws use {wire, signals, send_done, send_failed, send_interrupted}

  -- The loop has gone from `w` with `total` bytes sent to an end.
  record Sends (w : W) (total : ℕ) (out : IoResult × W) : Type 0 where
    more : total ≤ out.0.bytes_transferred
    within : out.0.bytes_transferred ≤ length bytes
    accepted :
        wire out.1 fd ≡ wire w fd ++ take (out.0.bytes_transferred - total) (drop total bytes)
    calmer : signals out.1 ≤ signals w
    ends : SendEnds (length bytes) out.0

  -- With this much fuel the loop ends.
  abbrev Enough : ℕ → W → ℕ → Type 0
  Enough fuel w total = length bytes - total + signals w < fuel

  abbrev Ends : W → ℕ → Option (IoResult × W) → Type 0
  Ends w total o = (out : IoResult × W) × (o ≡ some out) × Sends w total out

  -- What a stop of the loop at `total` shows.
  stop :
      (w w' : W) (total : ℕ) (r : IoResult)
      → r.bytes_transferred ≡ total
      → total ≤ length bytes
      → wire w' fd ≡ wire w fd
      → signals w' ≤ signals w
      → SendEnds (length bytes) r
      → Sends w total (r, w')
  stop w w' total r e h same calm ends = record {
    more = omega arith;
    within = omega arith;
    accepted =
        same
        ∙ sym (append-nil (wire w fd))
        ∙ ap (λ n. wire w fd ++ take n (drop total bytes)) zero_more;
    calmer = calm;
    ends = ends;
  }
    where
      zero_more : 0 ≡ r.bytes_transferred - total
      zero_more = omega arith

  -- A round that sent `n` bytes, and then the rest of the loop.
  resume :
      (w w' : W) (total n : ℕ) (out : IoResult × W)
      → wire w' fd ≡ wire w fd ++ take n (drop total bytes)
      → signals w' ≤ signals w
      → Sends w' (total + n) out
      → Sends w total out
  resume w w' total n out sent calm s = record {
    more = omega (arith, s.more);
    within = s.within;
    accepted =
        s.accepted
        ∙ ap (λ xs. xs ++ take (k - (total + n)) (drop (total + n) bytes)) sent
        ∙ append_assoc (wire w fd) (take n (drop total bytes)) _
        ∙ ap (λ xs. wire w fd ++ (take n (drop total bytes) ++ take (k - (total + n)) xs))
            (sym (drop-drop n total bytes))
        ∙ ap (λ xs. wire w fd ++ xs) (take-take-drop n (k - (total + n)) (drop total bytes))
        ∙ ap (λ m. wire w fd ++ take m (drop total bytes)) together;
    calmer = omega (arith, s.calmer);
    ends = s.ends;
  }
    where
      k : ℕ
      k = out.0.bytes_transferred

      together : n + (k - (total + n)) ≡ k - total
      together = omega (arith, s.more)

  after_send-Ends :
      (fuel : ℕ) (w : W) (total : ℕ)
      → ((w' : W) (total' : ℕ)
          → total' ≤ length bytes
          → Enough fuel w' total'
          → Ends w' total' (send_loop os fuel w' fd bytes total'))
      → total < length bytes
      → Enough (suc fuel) w total
      → (res : SysResult × W) → os.send w fd (drop total bytes) ≡ res
      → Ends w total (after_send (λ w' total'. send_loop os fuel w' fd bytes total') total res)
  unfolding after_send
  after_send-Ends fuel w total again room enough (done n, w') e = elim (Bool-cases (ltb 0 n)) [
    | inl some_sent ↦
        let (fits, sent, calm) = send_done w w' fd (drop total bytes) n e in
        let (out, eq, s) =
          again w' (total + n) (omega (arith, length-drop total bytes))
            (omega (arith, ltb→lt 0 n some_sent, length-drop total bytes)) in
        rw some_sent (out, eq, resume w w' total n out sent calm s)
    | inr nothing ↦
        let (fits, sent, calm) = send_done w w' fd (drop total bytes) n e in
        let n0 : n ≡ 0 = omega (arith, not-ltb→le 0 n nothing) in
        let same : wire w' fd ≡ wire w fd =
          sent ∙ ap (λ m. wire w fd ++ take m (drop total bytes)) n0 ∙ append-nil (wire w fd) in
        rw nothing (
          _,
          refl,
          stop w w' total (result error total epipe) refl (omega arith) same calm
              (inr (inr (refl, room, omega arith, omega arith))),
        )
  ]
  after_send-Ends fuel w total again room enough (failed errno, w') e =
      elim (Bool-cases (errno == eintr)) [
        | inl interrupted ↦
            let (nonzero, same, calm) = send_failed w w' fd (drop total bytes) errno e in
            let isint : errno ≡ eintr = (==_iff errno eintr).0 interrupted in
            let fewer : signals w' < signals w =
              send_interrupted w w' fd (drop total bytes) (e ∙ ap (λ x. (failed x, w')) isint) in
            let (out, eq, s) = again w' total (omega arith) (omega arith) in
            rw interrupted (
              out,
              eq,
              resume w w' total 0 out (same ∙ sym (append-nil (wire w fd))) calm
                  (rw (add-zero total) s),
            )
        | inr other ↦ elim (Bool-cases (blocks errno)) [
          | inl full ↦
              let (nonzero, same, calm) = send_failed w w' fd (drop total bytes) errno e in
              rw other (
                rw full (
                  _,
                  refl,
                  stop w w' total (result would_block total errno) refl (omega arith) same calm
                      (inr (inl (refl, room, ground arith))),
                ))
          | inr broken ↦
              let (nonzero, same, calm) = send_failed w w' fd (drop total bytes) errno e in
              rw other (
                rw broken (
                  _,
                  refl,
                  stop w w' total (result error total errno) refl (omega arith) same calm
                      (inr (inr (refl, room, nonzero, ground arith))),
                ))
        ]
      ]

  send_loop-Ends :
      (fuel : ℕ) (w : W) (total : ℕ)
      → total ≤ length bytes
      → Enough fuel w total
      → Ends w total (send_loop os fuel w fd bytes total)
  unfolding send_loop
  send_loop-Ends zero w total h enough = absurd (omega arith)
  send_loop-Ends (suc fuel) w total h enough = elim (Bool-cases (ltb total (length bytes))) [
    | inl room ↦ rw room (
        after_send-Ends fuel w total
          (λ w' total' h' enough'. send_loop-Ends fuel w' total' h' enough') (ltb→lt _ _ room)
          enough _ refl)
    | inr whole ↦ rw whole (
      _,
      refl,
      stop w w total (result completed total 0) refl h refl (omega arith)
          (inl (refl, omega (arith, not-ltb→le _ _ whole), refl)),
    )
  ]

  pub send_all-total :
      (fuel : ℕ) (w : W)
      → length bytes + signals w < fuel
      → (r : IoResult) × (w' : W) × (send_all os fuel w fd bytes ≡ some (r, w'))
        × (r.bytes_transferred ≤ length bytes)
        × (wire w' fd ≡ wire w fd ++ take r.bytes_transferred bytes)
        × (signals w' ≤ signals w)
        × SendEnds (length bytes) r
  unfolding send_all
  send_all-total fuel w enough =
      let (out, eq, s) = send_loop-Ends fuel w 0 (omega arith) (omega arith) in
      (
        out.0,
        out.1,
        eq,
        s.within,
        s.accepted ∙ ap (λ n. wire w fd ++ take n bytes) (omega arith),
        s.calmer,
        s.ends,
      )
