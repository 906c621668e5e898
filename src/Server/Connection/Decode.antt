-- ===== src/Server/Connection/Decode.antt =====
-- The inner loop of `readAvailable`: it takes every whole frame off the decoder, and stops.
use net_pulse.Base.{
  ℕ, zero, suc, ◌≤◌, ◌<◌, ◌≡◌, inl, inr, refl, sym, ap, ◌∙◌, List, [], ◌∷◌, ◌++◌, arith, some,
  length, append_assoc, append-nil, subst,
}
use net_pulse.Protocol.Wire.{max_payload_size, frame, IsBytes}
use net_pulse.Protocol.FrameDecoder.{FrameDecoder, decode_next}
use net_pulse.Protocol.FrameDecoder.View.{
  IsValid, pending, incomplete, too_large, complete, next_frame,
}
use net_pulse.Protocol.FrameDecoder.NextFrame.{next_frame_sound, next_frame-shorter}
use net_pulse.Protocol.FrameDecoder.Frames.{decode_next-of, Next-cases}
use net_pulse.Server.Connection.{Decoded, waits, poisoned, after_decode, decode_loop}

-- The payloads as the wire carries them, frame after frame.
abbrev pub encode : List (List ℕ) → List ℕ
encode [] = []
encode (p ∷ ps) = frame p ++ encode ps

-- No payload exceeds the maximum.
abbrev pub AllLegal : List (List ℕ) → Type 0
AllLegal [] = Unit {0}
AllLegal (p ∷ ps) = (length p ≤ max_payload_size) × AllLegal ps

pub encode-append : (ps qs : List (List ℕ)) → encode (ps ++ qs) ≡ encode ps ++ encode qs
encode-append [] qs = refl
encode-append (p ∷ ps) qs =
    ap (λ xs. frame p ++ xs) (encode-append ps qs)
    ∙ sym (append_assoc (frame p) (encode ps) (encode qs))

pub AllLegal-append : (ps qs : List (List ℕ)) → AllLegal ps → AllLegal qs → AllLegal (ps ++ qs)
AllLegal-append [] qs hp hq = hq
AllLegal-append (p ∷ ps) qs hp hq = (hp.0, AllLegal-append ps qs hp.1 hq)

pub IsBytes-behind : (xs ys : List ℕ) → IsBytes (xs ++ ys) → IsBytes ys
IsBytes-behind [] ys h = h
IsBytes-behind (x ∷ xs) ys h = IsBytes-behind xs ys h.1

pub IsBytes-front : (xs ys : List ℕ) → IsBytes (xs ++ ys) → IsBytes xs
IsBytes-front [] ys h = tt
IsBytes-front (x ∷ xs) ys h = (h.0, IsBytes-front xs ys h.1)

pub IsBytes-append : (xs ys : List ℕ) → IsBytes xs → IsBytes ys → IsBytes (xs ++ ys)
IsBytes-append [] ys hx hy = hy
IsBytes-append (x ∷ xs) ys hx hy = (hx.0, IsBytes-append xs ys hx.1 hy)

-- What is left of held and read bytes behind some frames is bytes.
pub IsBytes-rest :
    (held got left rest : List ℕ) {sent : List ℕ} (frames : List (List ℕ))
    → IsBytes held
    → IsBytes sent
    → sent ≡ got ++ left
    → held ++ got ≡ encode frames ++ rest
    → IsBytes rest
IsBytes-rest held got left rest frames h s read exact = IsBytes-behind (encode frames) rest (
    subst IsBytes exact (IsBytes-append held got h (IsBytes-front got left (subst IsBytes read s))))

-- The loop has taken `frames` off `bs` and left `d`.
pub record Parsed (bs : List ℕ) (frames : List (List ℕ)) (d : FrameDecoder) : Type 0 where
  pub exact : bs ≡ encode frames ++ pending d
  pub legal : AllLegal frames
  pub valid : IsValid d

-- Where the loop stops: at a frame that is not complete, or at a header that is too large.
pub data Stops (bs : List ℕ) (seen : List (List ℕ)) : Decoded → Type 0 where
  at_end :
      (ps : List (List ℕ)) (d : FrameDecoder)
      → Parsed bs ps d
      → next_frame (pending d) ≡ incomplete
      → Stops bs seen (waits (seen ++ ps) d)
  at_poison :
      (ps : List (List ℕ)) (d : FrameDecoder)
      → Parsed bs ps d
      → next_frame (pending d) ≡ too_large
      → Stops bs seen (poisoned (seen ++ ps) d)

-- A frame more in front.
prepend :
    {bs rest : List ℕ} (p : List ℕ) (seen : List (List ℕ)) {out : Decoded}
    → length p ≤ max_payload_size
    → frame p ++ rest ≡ bs
    → Stops rest (seen ++ p ∷ []) out
    → Stops bs seen out
prepend {bs} {rest} p seen small e (at_end ps d parsed stop) =
    subst (λ xs. Stops bs seen (waits xs d)) (sym (append_assoc seen (p ∷ []) ps))
      (at_end (p ∷ ps) d
        (record {
          exact =
              sym e
              ∙ ap (λ xs. frame p ++ xs) parsed.exact
              ∙ sym (append_assoc (frame p) (encode ps) (pending d));
          legal = (small, parsed.legal);
          valid = parsed.valid;
        })
        stop)
prepend {bs} {rest} p seen small e (at_poison ps d parsed stop) =
    subst (λ xs. Stops bs seen (poisoned xs d)) (sym (append_assoc seen (p ∷ []) ps))
      (at_poison (p ∷ ps) d
        (record {
          exact =
              sym e
              ∙ ap (λ xs. frame p ++ xs) parsed.exact
              ∙ sym (append_assoc (frame p) (encode ps) (pending d));
          legal = (small, parsed.legal);
          valid = parsed.valid;
        })
        stop)

nothing-Parsed : (d : FrameDecoder) → IsValid d → Parsed (pending d) [] d
nothing-Parsed d v = record { exact = refl; legal = tt; valid = v }

-- With a round of fuel for each byte and one more the loop stops, and what it took off is exact.
pub decode_loop-Stops :
    (fuel : ℕ) (d : FrameDecoder) (seen : List (List ℕ))
    → IsValid d
    → IsBytes (pending d)
    → length (pending d) < fuel
    → (out : Decoded) × (decode_loop fuel d seen ≡ some out) × Stops (pending d) seen out
unfolding decode_loop after_decode
decode_loop-Stops zero d seen v ok h = absurd (omega arith)
decode_loop-Stops (suc fuel) d seen v ok h = elim (Next-cases (next_frame (pending d))) [
  | inl e ↦
      let (r, s) = decode_next-of d incomplete v e in
      (
        waits seen d,
        rw (r, s),
        subst (λ xs. Stops (pending d) seen (waits xs d)) (append-nil seen)
            (at_end [] d (nothing-Parsed d v) e),
      )
  | inr (inl e) ↦
      let (r, s) = decode_next-of d too_large v e in
      (
        poisoned seen d,
        rw (r, s),
        subst (λ xs. Stops (pending d) seen (poisoned xs d)) (append-nil seen)
            (at_poison [] d (nothing-Parsed d v) e),
      )
  | inr (inr (p, rest, e)) ↦
      let (r, s, v') = decode_next-of d (complete p rest) v e in
      let d' = (decode_next d).1 in
      let (exact, small) = next_frame_sound (pending d) ok e in
      let ok' : IsBytes (pending d') =
        subst IsBytes (sym s) (IsBytes-behind (frame p) rest (subst IsBytes (sym exact) ok)) in
      let shorter : length (pending d') < fuel =
        omega (arith, next_frame-shorter (pending d) e, ap length s) in
      let (out, eq, stops) = decode_loop-Stops fuel d' (seen ++ p ∷ []) v' ok' shorter in
      (
        out,
        rw r eq,
        prepend p seen small exact (subst (λ xs. Stops xs (seen ++ p ∷ []) out) s stops),
      )
]
