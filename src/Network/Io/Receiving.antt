-- ===== src/Network/Io/Receiving.antt =====
-- What a round of `receiveExact` adds to the rounds before it.
use net_pulse.Base.{
  ℕ, ℤ, ◌+◌, ◌≤◌, ◌<◌, ◌≡◌, ◌≢◌, ◌⊎◌, sym, ap, ◌∙◌, List, [], ◌++◌, arith, Option, some, length,
  length-append, append_assoc, subst,
}
use net_pulse.Os.Errno.{eagain}
use net_pulse.Os.Sockets.{Sockets, RecvLaws}
use net_pulse.Network.Io.{IoResult, completed, peer_closed, would_block, error}
use net_pulse.Network.Io.Overwrite.{overwrite, length-overwrite, overwrite-nil, overwrite-overwrite}

-- The ways in which `receiveExact` ends; `size` is the size of the buffer.
abbrev pub RecvEnds : ℕ → IoResult → Type 0
RecvEnds size r =
    ((r.status ≡ completed) × (r.bytes_transferred ≡ size) × (r.error_number ≡ 0))
    ⊎ ((r.status ≡ peer_closed) × (r.bytes_transferred < size) × (r.error_number ≡ 0))
    ⊎ ((r.status ≡ would_block) × (r.bytes_transferred < size) × (r.error_number ≡ eagain))
    ⊎ ((r.status ≡ error)
        × (r.bytes_transferred < size)
        × (r.error_number ≢ 0)
        × (r.error_number ≢ eagain))

module _ {W : Type 0} (os : Sockets W) (laws : RecvLaws os) (fd : ℤ) where
  open laws use {inbound, signals, recv_received, recv_fails, recv_interrupted}

  -- The loop has gone from `w` and `buffer` with `total` bytes read to an end, having read `got`.
  pub record Receives (w : W) (buffer : List ℕ) (total : ℕ) (out : IoResult × List ℕ × W)
      : Type 0 where
    pub got : List ℕ
    pub count : out.0.bytes_transferred ≡ total + length got
    pub within : total + length got ≤ length buffer
    pub written : out.1 ≡ overwrite total got buffer
    pub read : inbound w fd ≡ got ++ inbound out.2 fd
    pub calmer : signals out.2 ≤ signals w
    pub ends : RecvEnds (length buffer) out.0

  abbrev pub Ends : W → List ℕ → ℕ → Option (IoResult × List ℕ × W) → Type 0
  Ends w buffer total o =
      (out : IoResult × List ℕ × W) × (o ≡ some out) × Receives w buffer total out

  pub stop :
      (w w' : W) (buffer : List ℕ) (total : ℕ) (r : IoResult)
      → r.bytes_transferred ≡ total
      → total ≤ length buffer
      → inbound w' fd ≡ inbound w fd
      → signals w' ≤ signals w
      → RecvEnds (length buffer) r
      → Receives w buffer total (r, buffer, w')
  stop w w' buffer total r e h same calm ends = record {
    got = [];
    count = omega arith;
    within = omega arith;
    written = sym (overwrite-nil total buffer);
    read = sym same;
    calmer = calm;
    ends = ends;
  }

  pub resume :
      (w w' : W) (buffer : List ℕ) (total : ℕ) (bytes : List ℕ) (out : IoResult × List ℕ × W)
      → total + length bytes ≤ length buffer
      → inbound w fd ≡ bytes ++ inbound w' fd
      → signals w' ≤ signals w
      → Receives w' (overwrite total bytes buffer) (total + length bytes) out
      → Receives w buffer total out
  resume w w' buffer total bytes out fits read calm s = record {
    got = bytes ++ s.got;
    count = omega (arith, s.count, length-append bytes s.got);
    within =
        omega
          (arith, s.within, length-append bytes s.got, length-overwrite total bytes buffer fits);
    written = s.written ∙ overwrite-overwrite total bytes s.got buffer fits;
    read = read ∙ ap (λ xs. bytes ++ xs) s.read ∙ sym (append_assoc bytes s.got (inbound out.2 fd));
    calmer = omega (arith, s.calmer);
    ends = subst (λ n. RecvEnds n out.0) (length-overwrite total bytes buffer fits) s.ends;
  }

  -- A round that a signal has interrupted, and then the rest of the loop.
  pub retried :
      (w w' : W) (buffer : List ℕ) (total : ℕ) (out : IoResult × List ℕ × W)
      → inbound w' fd ≡ inbound w fd
      → signals w' ≤ signals w
      → Receives w' buffer total out
      → Receives w buffer total out
  retried w w' buffer total out same calm s = record {
    got = s.got;
    count = s.count;
    within = s.within;
    written = s.written;
    read = sym same ∙ s.read;
    calmer = omega (arith, s.calmer);
    ends = s.ends;
  }
