-- ===== src/Network/Io/Overwrite.antt =====
-- A part of a buffer written over.
use net_pulse.Base.{
  ℕ, ◌+◌, ◌≤◌, ◌≡◌, sym, ap, ap₂, ◌∙◌, List, [], ◌++◌, arith, length, take, drop, length-drop,
  length-take, length-append, append_assoc, append-nil, drop-drop, take-append-drop,
  take-append_self, drop-append_self, add-zero,
}

-- `bytes` written into `buffer` at `total`.
abbrev pub overwrite : ℕ → List ℕ → List ℕ → List ℕ
overwrite total bytes buffer = take total buffer ++ bytes ++ drop (total + length bytes) buffer

pub length-overwrite :
    (total : ℕ) (bytes buffer : List ℕ)
    → total + length bytes ≤ length buffer
    → length (overwrite total bytes buffer) ≡ length buffer
length-overwrite total bytes buffer h = omega (
  arith,
  length-append (take total buffer) (bytes ++ drop (total + length bytes) buffer),
  length-append (take total buffer ++ bytes) (drop (total + length bytes) buffer),
  length-append (take total buffer) bytes,
  length-append bytes (drop (total + length bytes) buffer),
  length-take total buffer,
  length-drop (total + length bytes) buffer,
)

pub overwrite-nil : (total : ℕ) (buffer : List ℕ) → overwrite total [] buffer ≡ buffer
overwrite-nil total buffer =
    ap (λ n. (take total buffer ++ []) ++ drop n buffer) (add-zero total)
    ∙ ap (λ xs. xs ++ drop total buffer) (append-nil (take total buffer))
    ∙ take-append-drop total buffer

-- Two writes, one behind the other, are one.
pub overwrite-overwrite :
    (total : ℕ) (xs ys buffer : List ℕ)
    → total + length xs ≤ length buffer
    → overwrite (total + length xs) ys (overwrite total xs buffer)
      ≡ overwrite total (xs ++ ys) buffer
overwrite-overwrite total xs ys buffer h =
    ap₂ (λ front back. (front ++ ys) ++ back)
      (take-append_self n (take total buffer ++ xs) (drop n buffer) len)
      (sym (drop-drop (length ys) n (overwrite total xs buffer))
        ∙ ap (drop (length ys)) (drop-append_self n (take total buffer ++ xs) (drop n buffer) len)
        ∙ drop-drop (length ys) n buffer
        ∙ ap (λ m. drop m buffer) (omega (arith, length-append xs ys)))
    ∙ ap (λ front. front ++ drop (total + length (xs ++ ys)) buffer)
        (append_assoc (take total buffer) xs ys)
  where
    n : ℕ
    n = total + length xs

    len : n ≡ length (take total buffer ++ xs)
    len = omega (arith, length-append (take total buffer) xs, length-take total buffer)
