-- ===== src/Wire/Bytes.antt =====
-- The little-endian fields of wire_protocol.cpp: `put16`, `put32`, `put64` and `get16`, `get32`,
-- `get64`. A byte vector is a list of numbers; a pointer `p` is the list from `p` on.
pub mod RoundTrip
use fast_livo_ug.Base.{
  ℕ, zero, suc, ◌+◌, ◌*◌, ◌/◌, ◌%◌, ◌^◌, ◌<◌, List, [], ◌∷◌, ◌++◌, bit_or, get_or,
}

abbrev pub IsByte : ℕ → Type 0
IsByte b = b < 256

abbrev pub IsU16 : ℕ → Type 0
IsU16 v = v < 2 ^ 16

abbrev pub IsU32 : ℕ → Type 0
IsU32 v = v < 2 ^ 32

abbrev pub IsU64 : ℕ → Type 0
IsU64 v = v < 2 ^ 64

-- `p[i]`. The callers have checked the length.
abbrev pub byte_at : List ℕ → ℕ → ℕ
byte_at p i = get_or p i 0

unfoldable pub put16 : List ℕ → ℕ → List ℕ
put16 out value = (out ++ (value % 256 ∷ [])) ++ (value / 2 ^ 8 % 256 ∷ [])

-- `for (i = …; n rounds left) out.push_back(uint8_t(value >> (8 * i)))`
unfoldable pub put_bytes : ℕ → ℕ → List ℕ → ℕ → List ℕ
put_bytes zero i out value = out
put_bytes (suc n) i out value = put_bytes n (i + 1) (out ++ (value / 2 ^ (8 * i) % 256 ∷ [])) value

unfoldable pub put32 : List ℕ → ℕ → List ℕ
unfolding put_bytes
put32 out value = put_bytes 4 0 out value

unfoldable pub put64 : List ℕ → ℕ → List ℕ
unfolding put_bytes
put64 out value = put_bytes 8 0 out value

unfoldable pub get16 : List ℕ → ℕ
get16 p = bit_or (byte_at p 0) (byte_at p 1 * 2 ^ 8)

-- `for (i = …; n rounds left) value |= p[i] << (8 * i)`. A byte shifted by at most 24 (or 56)
-- fits the word, so nothing is cut off.
unfoldable pub get_bytes : ℕ → ℕ → ℕ → List ℕ → ℕ
get_bytes zero i value p = value
get_bytes (suc n) i value p = get_bytes n (i + 1) (bit_or value (byte_at p i * 2 ^ (8 * i))) p

unfoldable pub get32 : List ℕ → ℕ
unfolding get_bytes
get32 p = get_bytes 4 0 0 p

unfoldable pub get64 : List ℕ → ℕ
unfolding get_bytes
get64 p = get_bytes 8 0 0 p
