-- ===== src/Protocol/Wire.antt =====
-- The frame header of include/netpulse/protocol/frame.hpp and the README: the payload's length as
-- four bytes, most significant first. A byte is a number; `IsBytes` says that it is below 256.
use net_pulse.Base.{
  ℕ, ◌+◌, ◌*◌, ◌/◌, ◌%◌, ◌^◌, ◌<◌, ◌≤◌, ◌≡◌, refl, List, [], ◌∷◌, ◌++◌, arith, length, drop,
}

-- `max_payload_size`
abbrev pub max_payload_size : ℕ
max_payload_size = 1024 * 1024

-- `sizeof(std::uint32_t)`, also `kFrameHeaderSize`
abbrev pub header_size : ℕ
header_size = 4

-- `static_cast<std::uint32_t>(n)`
abbrev pub to_u32 : ℕ → ℕ
to_u32 n = n % 2 ^ 32

-- The four bytes in memory of `htonl(n)`.
unfoldable pub htonl : ℕ → List ℕ
htonl n = (n / 2 ^ 24 % 256) ∷ (n / 2 ^ 16 % 256) ∷ (n / 2 ^ 8 % 256) ∷ (n % 256) ∷ []

-- `ntohl` of the word that `memcpy` takes from the first four bytes. The callers never read fewer.
unfoldable pub ntohl : List ℕ → ℕ
ntohl (a ∷ b ∷ c ∷ d ∷ _) = a * 2 ^ 24 + b * 2 ^ 16 + c * 2 ^ 8 + d
ntohl _ = 0

-- A whole frame: the header, then the payload.
unfoldable pub frame : List ℕ → List ℕ
unfolding htonl
frame payload = htonl (to_u32 (length payload)) ++ payload

abbrev pub IsBytes : List ℕ → Type 0
IsBytes [] = Unit {0}
IsBytes (b ∷ bs) = (b < 256) × IsBytes bs

pub length-htonl : (n : ℕ) → length (htonl n) ≡ 4
unfolding htonl
length-htonl n = refl

pub length-frame : (payload : List ℕ) → length (frame payload) ≡ 4 + length payload
unfolding frame
length-frame payload = omega arith

pub ntohl-htonl : (n : ℕ) (rest : List ℕ) → n < 2 ^ 32 → ntohl (htonl n ++ rest) ≡ n
unfolding ntohl htonl
ntohl-htonl n rest h = omega arith

pub htonl-ntohl : (bs : List ℕ) → IsBytes bs → 4 ≤ length bs → htonl (ntohl bs) ++ drop 4 bs ≡ bs
unfolding ntohl htonl
htonl-ntohl [] ok h = absurd (omega arith)
htonl-ntohl (a ∷ []) ok h = absurd (omega arith)
htonl-ntohl (a ∷ b ∷ []) ok h = absurd (omega arith)
htonl-ntohl (a ∷ b ∷ c ∷ []) ok h = absurd (omega arith)
htonl-ntohl (a ∷ b ∷ c ∷ d ∷ rest) ok h = ground arith

pub ntohl-lt : (bs : List ℕ) → IsBytes bs → ntohl bs < 2 ^ 32
unfolding ntohl
ntohl-lt [] ok = omega arith
ntohl-lt (a ∷ []) ok = omega arith
ntohl-lt (a ∷ b ∷ []) ok = omega arith
ntohl-lt (a ∷ b ∷ c ∷ []) ok = omega arith
ntohl-lt (a ∷ b ∷ c ∷ d ∷ rest) ok = omega arith

-- Appending changes no header that is already there.
pub ntohl-append : (bs ys : List ℕ) → 4 ≤ length bs → ntohl (bs ++ ys) ≡ ntohl bs
unfolding ntohl
ntohl-append [] ys h = absurd (omega arith)
ntohl-append (a ∷ []) ys h = absurd (omega arith)
ntohl-append (a ∷ b ∷ []) ys h = absurd (omega arith)
ntohl-append (a ∷ b ∷ c ∷ []) ys h = absurd (omega arith)
ntohl-append (a ∷ b ∷ c ∷ d ∷ rest) ys h = refl
