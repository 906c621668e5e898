-- ===== src/Server/Connection/Reading.antt =====
-- What a round of `readAvailable` adds to the rounds before it.
use net_pulse.Base.{
  ℕ, ◌+◌, ◌≤◌, ◌<◌, ◌≡◌, ◌≢◌, ◌⊎◌, refl, sym, ap, ◌∙◌, subst, List, [], ◌++◌, arith, some, length,
  append_assoc, append-nil,
}
use net_pulse.Os.Errno.{eagain}
use net_pulse.Os.Sockets.{Sockets, RecvLaws}
use net_pulse.Protocol.Wire.{IsBytes}
use net_pulse.Protocol.FrameDecoder.{FrameDecoder}
use net_pulse.Protocol.FrameDecoder.View.{IsValid, pending, incomplete, too_large, next_frame}
use net_pulse.Server.Connection.{
  Connection, ConnectionReadResult, ready, peer_closed, protocol_error, io_error, fd, read_loop,
  Reads,
}
use net_pulse.Server.Connection.Decode.{encode, AllLegal-append, encode-append, Parsed}

-- The decoder holds no whole frame and no illegal header.
abbrev pub IsIdle : FrameDecoder → Type 0
IsIdle d = IsValid d × (next_frame (pending d) ≡ incomplete)

-- The status against what the decoder is left with.
abbrev pub ReadEnds : ConnectionReadResult → FrameDecoder → Type 0
ReadEnds r d =
    ((r.status ≡ protocol_error) × (next_frame (pending d) ≡ too_large) × (r.error_number ≡ 0))
    ⊎ ((r.status ≡ ready) × (next_frame (pending d) ≡ incomplete) × (r.error_number ≡ 0))
    ⊎ ((r.status ≡ peer_closed) × (next_frame (pending d) ≡ incomplete) × (r.error_number ≡ 0))
    ⊎ ((r.status ≡ io_error)
        × (next_frame (pending d) ≡ incomplete)
        × (r.error_number ≢ 0)
        × (r.error_number ≢ eagain))

-- Frames found in two parts of a stream are the frames of the whole.
pub Parsed-append :
    (bs more : List ℕ) (ps qs : List (List ℕ)) (d f : FrameDecoder)
    → Parsed bs ps d
    → Parsed (pending d ++ more) qs f
    → Parsed (bs ++ more) (ps ++ qs) f
Parsed-append bs more ps qs d f p q = record {
  exact =
      ap (λ xs. xs ++ more) p.exact
      ∙ append_assoc (encode ps) (pending d) more
      ∙ ap (λ xs. encode ps ++ xs) q.exact
      ∙ sym (append_assoc (encode ps) (encode qs) (pending f))
      ∙ ap (λ xs. xs ++ pending f) (sym (encode-append ps qs));
  legal = AllLegal-append ps qs p.legal q.legal;
  valid = q.valid;
}

module _ {W : Type 0} (os : Sockets W) (laws : RecvLaws os) where
  open laws use {inbound, signals, recv_received, recv_fails, recv_interrupted}

  -- A call that begins at `w` and `c`, with `seen` found before, has come to an end.
  pub record ReadsTo (w : W) (c : Connection) (seen : List (List ℕ))
      (out : ConnectionReadResult × Connection × W) : Type 0 where
    pub got : List ℕ
    pub found : List (List ℕ)
    pub frames : out.0.frames ≡ seen ++ found
    pub read : inbound w (fd c) ≡ got ++ inbound out.2 (fd c)
    pub parsed : Parsed (pending c.decoder ++ got) found out.1.decoder
    pub same_socket : out.1.socket ≡ c.socket
    pub same_buffer : out.1.write_buffer ≡ c.write_buffer
    pub calmer : signals out.2 ≤ signals w
    pub ends : ReadEnds out.0 out.1.decoder

  abbrev pub Goes : W → Connection → List (List ℕ) → Reads W → Type 0
  Goes w c seen o =
      (out : ConnectionReadResult × Connection × W) × (o ≡ some out) × ReadsTo w c seen out

  abbrev pub Loops : ℕ → Type 0
  Loops fuel =
      (w : W) (c : Connection) (seen : List (List ℕ))
      → IsIdle c.decoder
      → IsBytes (pending c.decoder)
      → IsBytes (inbound w (fd c))
      → length (inbound w (fd c)) + signals w < fuel
      → Goes w c seen (read_loop os fuel w c seen)

  -- The loop stops without having read anything in this round.
  pub stop :
      (w w' : W) (c : Connection) (seen : List (List ℕ)) (r : ConnectionReadResult)
      → r.frames ≡ seen
      → IsIdle c.decoder
      → inbound w' (fd c) ≡ inbound w (fd c)
      → signals w' ≤ signals w
      → ReadEnds r c.decoder
      → ReadsTo w c seen (r, c, w')
  stop w w' c seen r e idle same calm ends = record {
    got = [];
    found = [];
    frames = e ∙ sym (append-nil seen);
    read = sym same;
    parsed = record { exact = append-nil (pending c.decoder); legal = tt; valid = idle.0 };
    same_socket = refl;
    same_buffer = refl;
    calmer = calm;
    ends = ends;
  }

  -- A round that read `bytes` and found `ps` in them, and then the rest of the loop.
  pub resume :
      (w w' : W) (c : Connection) (seen ps : List (List ℕ)) (bytes : List ℕ) (d : FrameDecoder)
      (out : ConnectionReadResult × Connection × W)
      → inbound w (fd c) ≡ bytes ++ inbound w' (fd c)
      → signals w' ≤ signals w
      → Parsed (pending c.decoder ++ bytes) ps d
      → ReadsTo w' (record c { decoder = d }) (seen ++ ps) out
      → ReadsTo w c seen out
  resume w w' c seen ps bytes d out read calm parsed s = record {
    got = bytes ++ s.got;
    found = ps ++ s.found;
    frames = s.frames ∙ append_assoc seen ps s.found;
    read = read ∙ ap (λ xs. bytes ++ xs) s.read ∙ sym (append_assoc bytes s.got _);
    parsed =
        subst (λ xs. Parsed xs (ps ++ s.found) out.1.decoder)
          (append_assoc (pending c.decoder) bytes s.got)
          (Parsed-append (pending c.decoder ++ bytes) s.got ps s.found d out.1.decoder parsed
            s.parsed);
    same_socket = s.same_socket;
    same_buffer = s.same_buffer;
    calmer = omega (arith, s.calmer);
    ends = s.ends;
  }

  -- A round that a signal has interrupted, and then the rest of the loop.
  pub retried :
      (w w' : W) (c : Connection) (seen : List (List ℕ))
      (out : ConnectionReadResult × Connection × W)
      → inbound w' (fd c) ≡ inbound w (fd c)
      → signals w' ≤ signals w
      → ReadsTo w' c seen out
      → ReadsTo w c seen out
  retried w w' c seen out same calm s = record {
    got = s.got;
    found = s.found;
    frames = s.frames;
    read = sym same ∙ s.read;
    parsed = s.parsed;
    same_socket = s.same_socket;
    same_buffer = s.same_buffer;
    calmer = omega (arith, s.calmer);
    ends = s.ends;
  }
