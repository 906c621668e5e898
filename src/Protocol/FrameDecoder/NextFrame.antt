-- ===== src/Protocol/FrameDecoder/NextFrame.antt =====
-- `next_frame` against the frames that `frame` writes.
use net_pulse.Base.{
  ℕ, ◌+◌, ◌-◌, ◌^◌, ◌≤◌, ◌<◌, ◌≡◌, ◌≢◌, refl, sym, ap, ap₂, ◌∙◌, List, [], ◌++◌, arith, length,
  take, drop, inl, inr, length-drop, length-take, drop-drop, drop-append, take-append,
  length-append, ◌⊎◌, append_assoc, take-append-drop, replicate, length-replicate, take-append_self,
  drop-append_self,
}
use net_pulse.Protocol.Wire.{
  max_payload_size, ntohl, htonl, frame, to_u32, IsBytes, length-frame, ntohl-htonl, htonl-ntohl,
  ntohl-lt, ntohl-append,
}
use net_pulse.Protocol.FrameDecoder.View.{Next, incomplete, too_large, complete, next_frame}

-- The three outcomes, each with what makes it.
pub next_frame-cases :
    (bs : List ℕ)
    → ((next_frame bs ≡ incomplete) × (length bs < 4))
      ⊎ ((next_frame bs ≡ too_large) × (4 ≤ length bs) × (max_payload_size < ntohl bs))
      ⊎ ((next_frame bs ≡ incomplete)
          × (4 ≤ length bs)
          × (ntohl bs ≤ max_payload_size)
          × (length bs < 4 + ntohl bs))
      ⊎ ((next_frame bs ≡ complete (take (ntohl bs) (drop 4 bs)) (drop (4 + ntohl bs) bs))
          × (ntohl bs ≤ max_payload_size)
          × (4 + ntohl bs ≤ length bs))
unfolding next_frame
next_frame-cases bs = ground arith

next_frame-of_fits :
    (bs : List ℕ)
    → ntohl bs ≤ max_payload_size
    → 4 + ntohl bs ≤ length bs
    → next_frame bs ≡ complete (take (ntohl bs) (drop 4 bs)) (drop (4 + ntohl bs) bs)
unfolding next_frame
next_frame-of_fits bs h k = ground arith

pub next_frame-of_big :
    (bs : List ℕ) → 4 ≤ length bs → max_payload_size < ntohl bs → next_frame bs ≡ too_large
unfolding next_frame
next_frame-of_big bs h k = ground arith

to_u32-small : (n : ℕ) → n ≤ max_payload_size → to_u32 n ≡ n
to_u32-small n h = omega arith

pub ntohl-frame :
    (p rest : List ℕ) → length p ≤ max_payload_size → ntohl (frame p ++ rest) ≡ length p
unfolding frame
ntohl-frame p rest h =
    ap ntohl (append_assoc (htonl (to_u32 (length p))) p rest)
    ∙ ntohl-htonl (to_u32 (length p)) (p ++ rest) (omega arith)
    ∙ to_u32-small (length p) h

drop-frame : (p rest : List ℕ) → drop 4 (frame p ++ rest) ≡ p ++ rest
unfolding frame
drop-frame p rest = refl

-- A frame at the front is found whole.
pub next_frame-frame :
    (p rest : List ℕ) → length p ≤ max_payload_size → next_frame (frame p ++ rest) ≡ complete p rest
next_frame-frame p rest h =
    next_frame-of_fits (frame p ++ rest) (rw e h)
      (rw e (omega (arith, length-append (frame p) rest, length-frame p)))
    ∙ ap₂ complete (ap₂ take e (drop-frame p rest) ∙ take-append_self (length p) p rest refl) (
        ap (λ n. drop (4 + n) (frame p ++ rest)) e
        ∙ drop-append_self (4 + length p) (frame p) rest (sym (length-frame p)))
  where
    e : ntohl (frame p ++ rest) ≡ length p
    e = ntohl-frame p rest h

frame-take :
    (bs : List ℕ)
    → IsBytes bs
    → ntohl bs ≤ max_payload_size
    → 4 + ntohl bs ≤ length bs
    → frame (take (ntohl bs) (drop 4 bs)) ++ drop (4 + ntohl bs) bs ≡ bs
unfolding frame
frame-take bs ok h k =
    let n = ntohl bs in
    let len : length (take n (drop 4 bs)) ≡ n =
      omega (arith, length-take n (drop 4 bs), length-drop 4 bs) in
    let hd : to_u32 (length (take n (drop 4 bs))) ≡ n = omega arith in
    append_assoc (htonl (to_u32 (length (take n (drop 4 bs))))) (take n (drop 4 bs))
      (drop (4 + n) bs)
    ∙ ap₂ (λ m xs. htonl m ++ (take n (drop 4 bs) ++ xs)) hd (sym (drop-drop n 4 bs))
    ∙ ap (λ xs. htonl n ++ xs) (take-append-drop n (drop 4 bs))
    ∙ htonl-ntohl bs ok (omega arith)

-- What is found complete is a frame in its wire format, and what is left is the bytes behind it.
pub next_frame_sound :
    (bs : List ℕ) {p rest : List ℕ}
    → IsBytes bs
    → next_frame bs ≡ complete p rest
    → (frame p ++ rest ≡ bs) × (length p ≤ max_payload_size)
next_frame_sound bs ok e = elim (next_frame-cases bs) [
  | inl (f, _) ↦ cc
  | inr (inl (f, _, _)) ↦ cc
  | inr (inr (inl (f, _, _, _))) ↦ cc
  | inr (inr (inr (f, small, long))) ↦
      ground (arith, frame-take bs ok small long, length-take (ntohl bs) (drop 4 bs))
]

-- A frame takes at least its header away.
pub next_frame-shorter :
    (bs : List ℕ) {p rest : List ℕ} → next_frame bs ≡ complete p rest → length rest < length bs
next_frame-shorter bs e = elim (next_frame-cases bs) [
  | inl (f, _) ↦ cc
  | inr (inl (f, _, _)) ↦ cc
  | inr (inr (inl (f, _, _, _))) ↦ cc
  | inr (inr (inr (f, small, long))) ↦ ground (arith, length-drop (4 + ntohl bs) bs)
]

-- Bytes that arrive later change nothing about a frame that is there.
pub next_frame-append :
    (bs ys : List ℕ) {p rest : List ℕ}
    → next_frame bs ≡ complete p rest
    → next_frame (bs ++ ys) ≡ complete p (rest ++ ys)
next_frame-append bs ys {p} {rest} e = elim (next_frame-cases bs) [
  | inl (f, _) ↦ cc
  | inr (inl (f, _, _)) ↦ cc
  | inr (inr (inl (f, _, _, _))) ↦ cc
  | inr (inr (inr (f, small, long))) ↦
      let same : ntohl (bs ++ ys) ≡ ntohl bs = ntohl-append bs ys (omega arith) in
      next_frame-of_fits (bs ++ ys) (rw same small) (rw same (omega (arith, length-append bs ys)))
      ∙ rw same (
          ap₂ complete
            (ap (take (ntohl bs)) (drop-append 4 bs ys (omega arith))
              ∙ take-append (ntohl bs) (drop 4 bs) ys (omega (arith, length-drop 4 bs)))
            (drop-append (4 + ntohl bs) bs ys long))
      ∙ ap (with_more ys) (sym f ∙ e)
]
  where
    with_more : List ℕ → Next → Next
    with_more ys incomplete = incomplete
    with_more ys too_large = too_large
    with_more ys (complete p rest) = complete p (rest ++ ys)

pub next_frame-append_big :
    (bs ys : List ℕ) → next_frame bs ≡ too_large → next_frame (bs ++ ys) ≡ too_large
next_frame-append_big bs ys e = elim (next_frame-cases bs) [
  | inl (f, _) ↦ cc
  | inr (inl (f, h, big)) ↦
      next_frame-of_big (bs ++ ys) (omega (arith, length-append bs ys))
        (rw (ntohl-append bs ys h) big)
  | inr (inr (inl (f, _, _, _))) ↦ cc
  | inr (inr (inr (f, small, long))) ↦ cc
]

-- What the decoder calls too large has a whole header that announces more than the maximum.
pub next_frame-big_sound :
    (bs : List ℕ)
    → IsBytes bs
    → next_frame bs ≡ too_large
    → (n : ℕ) × (max_payload_size < n) × (n < 2 ^ 32) × (htonl n ++ drop 4 bs ≡ bs)
next_frame-big_sound bs ok e = elim (next_frame-cases bs) [
  | inl (f, _) ↦ cc
  | inr (inl (f, h, big)) ↦ (ntohl bs, big, ntohl-lt bs ok, htonl-ntohl bs ok h)
  | inr (inr (inl (f, _, _, _))) ↦ cc
  | inr (inr (inr (f, small, long))) ↦ cc
]

-- A part of a header, or a whole header with a part of its payload.
abbrev pub IsPartial : List ℕ → Type 0
IsPartial bs =
    (length bs < 4)
    ⊎ ((p : List ℕ) × (missing : List ℕ) × (missing ≢ [])
        × (length p ≤ max_payload_size)
        × (frame p ≡ bs ++ missing))

-- Zeros for the part of the payload that has not come.
abbrev filler : List ℕ → List ℕ
filler bs = replicate (4 + ntohl bs - length bs) 0

length-filler : (bs : List ℕ) → length (filler bs) ≡ 4 + ntohl bs - length bs
length-filler bs = length-replicate {A = ℕ} (4 + ntohl bs - length bs) 0

frame-filler :
    (bs : List ℕ)
    → IsBytes bs
    → 4 ≤ length bs
    → length bs < 4 + ntohl bs
    → (length (drop 4 bs ++ filler bs) ≡ ntohl bs)
      × (frame (drop 4 bs ++ filler bs) ≡ bs ++ filler bs)
unfolding frame
frame-filler bs ok h short =
    let len : length (drop 4 bs ++ filler bs) ≡ ntohl bs =
      omega (arith, length-append (drop 4 bs) (filler bs), length-drop 4 bs, length-filler bs) in
    let hd : to_u32 (length (drop 4 bs ++ filler bs)) ≡ ntohl bs = omega (arith, ntohl-lt bs ok) in
    (
      len,
      ap (λ n. htonl n ++ (drop 4 bs ++ filler bs)) hd
          ∙ sym (append_assoc (htonl (ntohl bs)) (drop 4 bs) (filler bs))
          ∙ ap (λ xs. xs ++ filler bs) (htonl-ntohl bs ok h),
    )

pub next_frame-IsPartial : (bs : List ℕ) → IsBytes bs → next_frame bs ≡ incomplete → IsPartial bs
next_frame-IsPartial bs ok e = elim (next_frame-cases bs) [
  | inl (f, h) ↦ inl h
  | inr (inl (f, _, _)) ↦ cc
  | inr (inr (inl (f, h, small, short))) ↦
      let (len, e') = frame-filler bs ok h short in
      inr (
        drop 4 bs ++ filler bs,
        filler bs,
        (λ all_there. omega (arith, ap length all_there, length-filler bs)),
        omega arith,
        e',
      )
  | inr (inr (inr (f, small, long))) ↦ cc
]
