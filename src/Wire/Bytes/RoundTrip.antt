-- ===== src/Wire/Bytes/RoundTrip.antt =====
-- The fields of wire_protocol.cpp: each `get` on the bytes of its `put`.
use fast_livo_ug.Base.{
  ℕ, zero, suc, ◌+◌, ◌*◌, ◌/◌, ◌%◌, ◌^◌, ◌<◌, ◌≡◌, refl, sym, ap, ◌∙◌, List, [], ◌∷◌, ◌++◌, arith,
  length, All, append_assoc, append-nil,
}
use fast_livo_ug.Base.Bits.{bit_or-shift}
use fast_livo_ug.Wire.Bytes.{
  IsByte, IsU16, IsU32, IsU64, byte_at, put16, put_bytes, put32, put64, get16, get_bytes, get32,
  get64,
}
use native.Mathlib.Nat.{mul_comm, div-div-eq-div-mul}
use native.Mathlib.Numerals.{towards_suc}

-- The `n` bytes of `value`, lowest first.
abbrev pub le_bytes : ℕ → ℕ → List ℕ
le_bytes zero value = []
le_bytes (suc n) value = (value % 256) ∷ le_bytes n (value / 256)

-- The number that the bytes from index `i` on spell.
abbrev le_value : ℕ → ℕ → List ℕ → ℕ
le_value zero i p = 0
le_value (suc n) i p = byte_at p i + 256 * le_value n (i + 1) p

pow-next : (i : ℕ) → 2 ^ (8 * (i + 1)) ≡ 256 * 2 ^ (8 * i)
pow-next i = rw shift (simp towards_suc (omega arith))
  where
    shift : 8 * (i + 1) ≡ 8 * i + 8
    shift = omega arith

byte_at-IsByte : (p : List ℕ) (i : ℕ) → All IsByte p → IsByte (byte_at p i)
byte_at-IsByte [] i h = omega arith
byte_at-IsByte (x ∷ p) zero h = h.0
byte_at-IsByte (x ∷ p) (suc i) h = byte_at-IsByte p i h.1

fits_next : (value b w : ℕ) → value < w → b < 256 → value + b * w < 256 * w
fits_next value b w p q = grind arith

get_bytes-value :
    (n i value : ℕ) (p : List ℕ)
    → All IsByte p
    → value < 2 ^ (8 * i)
    → get_bytes n i value p ≡ value + le_value n i p * 2 ^ (8 * i)
unfolding get_bytes
get_bytes-value zero i value p h v = omega arith
get_bytes-value (suc n) i value p h v =
    rw (bit_or-shift (8 * i) value (byte_at p i) v)
      (get_bytes-value n (i + 1) (value + byte_at p i * 2 ^ (8 * i)) p h next ∙ regroup)
  where
    next : value + byte_at p i * 2 ^ (8 * i) < 2 ^ (8 * (i + 1))
    next = rw (pow-next i) (fits_next value (byte_at p i) (2 ^ (8 * i)) v (byte_at-IsByte p i h))

    regroup :
        value + byte_at p i * 2 ^ (8 * i) + le_value n (i + 1) p * 2 ^ (8 * (i + 1))
        ≡ value + (byte_at p i + 256 * le_value n (i + 1) p) * 2 ^ (8 * i)
    regroup = omega (arith, ap (λ (t : ℕ). le_value n (i + 1) p * t) (pow-next i))

-- On bytes the loop of `get32` gives the number that the first four bytes spell.
pub get32-value :
    (a b c d : ℕ) (rest : List ℕ)
    → All IsByte (a ∷ b ∷ c ∷ d ∷ rest)
    → get32 (a ∷ b ∷ c ∷ d ∷ rest) ≡ a + 256 * (b + 256 * (c + 256 * d))
unfolding get32
get32-value a b c d rest h =
    get_bytes-value 4 0 0 (a ∷ b ∷ c ∷ d ∷ rest) h (omega arith) ∙ omega arith

pub get16-value :
    (a b : ℕ) (rest : List ℕ) → All IsByte (a ∷ b ∷ rest) → get16 (a ∷ b ∷ rest) ≡ a + 256 * b
unfolding get16
get16-value a b rest h = omega (arith, bit_or-shift 8 a b (omega arith))

pub le_bytes-IsByte :
    (n value : ℕ) (rest : List ℕ) → All IsByte rest → All IsByte (le_bytes n value ++ rest)
le_bytes-IsByte zero value rest h = h
le_bytes-IsByte (suc n) value rest h = (omega arith, le_bytes-IsByte n (value / 256) rest h)

pub length-le_bytes : (n value : ℕ) → length (le_bytes n value) ≡ n
length-le_bytes zero value = refl
length-le_bytes (suc n) value = ap suc (length-le_bytes n (value / 256))

-- The loops of `put` append the bytes of the value, lowest first.
put_bytes-le_bytes :
    (n i value : ℕ) (out : List ℕ)
    → put_bytes n i out value ≡ out ++ le_bytes n (value / 2 ^ (8 * i))
unfolding put_bytes
put_bytes-le_bytes zero i value out = sym (append-nil out)
put_bytes-le_bytes (suc n) i value out =
    put_bytes-le_bytes n (i + 1) value (out ++ (value / 2 ^ (8 * i) % 256 ∷ []))
    ∙ append_assoc out _ _
    ∙ ap (λ t. out ++ (value / 2 ^ (8 * i) % 256 ∷ le_bytes n t)) divide
  where
    divide : value / 2 ^ (8 * (i + 1)) ≡ value / 2 ^ (8 * i) / 256
    divide = rw (pow-next i, mul_comm 256 (2 ^ (8 * i))) (sym (div-div-eq-div-mul _ _ _))

pub put32-le_bytes : (out : List ℕ) (value : ℕ) → put32 out value ≡ out ++ le_bytes 4 value
unfolding put32
put32-le_bytes out value =
    put_bytes-le_bytes 4 0 value out ∙ ap (λ (t : ℕ). out ++ le_bytes 4 t) (omega arith)

pub put64-le_bytes : (out : List ℕ) (value : ℕ) → put64 out value ≡ out ++ le_bytes 8 value
unfolding put64
put64-le_bytes out value =
    put_bytes-le_bytes 8 0 value out ∙ ap (λ (t : ℕ). out ++ le_bytes 8 t) (omega arith)

pub put16-le_bytes : (out : List ℕ) (value : ℕ) → put16 out value ≡ out ++ le_bytes 2 value
unfolding put16
put16-le_bytes out value = append_assoc out _ _

pub get16-le_bytes :
    (v : ℕ) (rest : List ℕ) → IsU16 v → All IsByte rest → get16 (le_bytes 2 v ++ rest) ≡ v
get16-le_bytes v rest hv h =
    get16-value (v % 256) (v / 256 % 256) rest (le_bytes-IsByte 2 v rest h) ∙ omega arith

pub get32-le_bytes :
    (v : ℕ) (rest : List ℕ) → IsU32 v → All IsByte rest → get32 (le_bytes 4 v ++ rest) ≡ v
get32-le_bytes v rest hv h =
    get32-value (v % 256) (v / 256 % 256) (v / 256 / 256 % 256) (v / 256 / 256 / 256 % 256) rest
      (le_bytes-IsByte 4 v rest h)
    ∙ omega arith

pub get64-le_bytes :
    (v : ℕ) (rest : List ℕ) → IsU64 v → All IsByte rest → get64 (le_bytes 8 v ++ rest) ≡ v
unfolding get64
get64-le_bytes v rest hv h =
    get_bytes-value 8 0 0 (le_bytes 8 v ++ rest) (le_bytes-IsByte 8 v rest h) (omega arith)
    ∙ omega arith
