-- ===== src/Wire/Crc/Detect.antt =====
-- `crc32c` on inputs that differ in a single byte.
use fast_livo_ug.Base.{
  ℕ, zero, suc, ◌-◌, ◌/◌, ◌%◌, ◌^◌, ◌<◌, ◌≡◌, ◌≢◌, refl, sym, ap, ◌∙◌, List, [], ◌∷◌, ◌++◌, arith,
  bit_and, bit_xor, All,
}
use fast_livo_ug.Base.Bits.{
  bit_and-one, bit_xor-lt, bit_xor_cancel_right, bit_xor_comm, bit_xor-shift, zero-bit_xor,
}
use fast_livo_ug.Wire.Bytes.{IsByte, IsU32}
use fast_livo_ug.Wire.Crc.{polynomial, crc_bit, crc_bits, crc_bytes, crc32c}

-- The mask selects the polynomial by the lowest bit.
masked : ℕ → ℕ
masked zero = 0
masked (suc x) = polynomial

crc_bit_lem : (crc : ℕ) → crc_bit crc ≡ bit_xor (crc / 2) (masked (crc % 2))
unfolding crc_bit masked
crc_bit_lem crc = rw (bit_and-one crc) (ap (bit_xor (crc / 2)) (mask (crc % 2) (omega arith)))
  where
    mask : (x : ℕ) → x < 2 → bit_and polynomial ((2 ^ 32 - x) % 2 ^ 32) ≡ masked x
    mask zero h = refl
    mask (suc zero) h = refl
    mask (suc (suc x)) h = absurd (omega arith)

masked-IsU32 : (x : ℕ) → IsU32 (masked x)
unfolding masked
masked-IsU32 zero = omega arith
masked-IsU32 (suc x) = omega arith

masked_top : (x : ℕ) → x < 2 → masked x / 2 ^ 31 ≡ x
unfolding masked
masked_top zero h = refl
masked_top (suc zero) h = refl
masked_top (suc (suc x)) h = absurd (omega arith)

pub crc_bit-IsU32 : (crc : ℕ) → IsU32 crc → IsU32 (crc_bit crc)
crc_bit-IsU32 crc h =
    rw crc_bit_lem (bit_xor-lt 32 (crc / 2) (masked (crc % 2)) (omega arith) (masked-IsU32 _))

-- The top bit of a round's result is the bit that was shifted out.
crc_bit_top : (crc : ℕ) → IsU32 crc → crc_bit crc / 2 ^ 31 ≡ crc % 2
crc_bit_top crc h =
    ap (λ (t : ℕ). t / 2 ^ 31) (crc_bit_lem crc)
    ∙ bit_xor-shift 31 (crc / 2) (masked (crc % 2))
    ∙ ap (λ (t : ℕ). bit_xor t (masked (crc % 2) / 2 ^ 31)) small
    ∙ zero-bit_xor _
    ∙ masked_top (crc % 2) (omega arith)
  where
    small : crc / 2 / 2 ^ 31 ≡ 0
    small = omega arith

crc_bit-injective : (a b : ℕ) → IsU32 a → IsU32 b → crc_bit a ≡ crc_bit b → a ≡ b
crc_bit-injective a b p q e = omega (arith, odd, halves)
  where
    odd : a % 2 ≡ b % 2
    odd = sym (crc_bit_top a p) ∙ ap (λ (t : ℕ). t / 2 ^ 31) e ∙ crc_bit_top b q

    halves : a / 2 ≡ b / 2
    halves =
        bit_xor_cancel_right 32 (a / 2) (b / 2) (masked (b % 2)) (omega arith) (omega arith)
          (masked-IsU32 _)
          (ap (λ t. bit_xor (a / 2) (masked t)) (sym odd) ∙ sym (crc_bit_lem a) ∙ e ∙ crc_bit_lem b)

crc_bits-IsU32 : (n crc : ℕ) → IsU32 crc → IsU32 (crc_bits n crc)
unfolding crc_bits
crc_bits-IsU32 zero crc h = h
crc_bits-IsU32 (suc n) crc h = crc_bits-IsU32 n (crc_bit crc) (crc_bit-IsU32 crc h)

crc_bits-injective : (n a b : ℕ) → IsU32 a → IsU32 b → crc_bits n a ≡ crc_bits n b → a ≡ b
unfolding crc_bits
crc_bits-injective zero a b p q e = e
crc_bits-injective (suc n) a b p q e =
    crc_bit-injective a b p q
      (crc_bits-injective n (crc_bit a) (crc_bit b) (crc_bit-IsU32 a p) (crc_bit-IsU32 b q) e)

byte_in : (crc b : ℕ) → IsU32 crc → IsByte b → IsU32 (bit_xor crc b)
byte_in crc b h hb = bit_xor-lt 32 crc b h (omega arith)

crc_bytes-IsU32 :
    (bytes : List ℕ) (crc : ℕ) → All IsByte bytes → IsU32 crc → IsU32 (crc_bytes crc bytes)
unfolding crc_bytes
crc_bytes-IsU32 [] crc hs h = h
crc_bytes-IsU32 (b ∷ bytes) crc hs h =
    crc_bytes-IsU32 bytes _ hs.1 (crc_bits-IsU32 8 _ (byte_in crc b h hs.0))

-- Different states stay different over any bytes.
crc_bytes-injective :
    (bytes : List ℕ) (a b : ℕ)
    → All IsByte bytes
    → IsU32 a
    → IsU32 b
    → crc_bytes a bytes ≡ crc_bytes b bytes
    → a ≡ b
unfolding crc_bytes
crc_bytes-injective [] a b hs p q e = e
crc_bytes-injective (x ∷ bytes) a b hs p q e = bit_xor_cancel_right 32 a b x p q (omega arith) (
    crc_bits-injective 8 _ _ ax bx
      (crc_bytes-injective bytes _ _ hs.1 (crc_bits-IsU32 8 _ ax) (crc_bits-IsU32 8 _ bx) e))
  where
    ax : IsU32 (bit_xor a x)
    ax = byte_in a x p hs.0

    bx : IsU32 (bit_xor b x)
    bx = byte_in b x q hs.0

one_byte :
    (front back : List ℕ) (x y crc : ℕ)
    → All IsByte (front ++ (x ∷ back))
    → IsByte y
    → IsU32 crc
    → crc_bytes crc (front ++ (x ∷ back)) ≡ crc_bytes crc (front ++ (y ∷ back))
    → x ≡ y
unfolding crc_bytes
one_byte [] back x y crc h hy hc e =
    bit_xor_cancel_right 32 x y crc (omega arith) (omega arith) hc
      (bit_xor_comm 32 x crc (omega arith) hc ∙ same ∙ bit_xor_comm 32 crc y hc (omega arith))
  where
    cx : IsU32 (bit_xor crc x)
    cx = byte_in crc x hc h.0

    cy : IsU32 (bit_xor crc y)
    cy = byte_in crc y hc hy

    same : bit_xor crc x ≡ bit_xor crc y
    same =
        crc_bits-injective 8 _ _ cx cy
          (crc_bytes-injective back _ _ h.1 (crc_bits-IsU32 8 _ cx) (crc_bits-IsU32 8 _ cy) e)
one_byte (z ∷ front) back x y crc h hy hc e =
    one_byte front back x y _ h.1 hy (crc_bits-IsU32 8 _ (byte_in crc z hc h.0)) e

-- The checksum of bytes fits 32 bits.
pub crc32c-IsU32 : (bytes : List ℕ) → IsU32 (crc32c bytes)
unfolding crc32c
crc32c-IsU32 bytes = omega arith

pub All-replace :
    (front back : List ℕ) (x y : ℕ)
    → All IsByte (front ++ (x ∷ back))
    → IsByte y
    → All IsByte (front ++ (y ∷ back))
All-replace [] back x y h hy = (hy, h.1)
All-replace (z ∷ front) back x y h hy = (h.0, All-replace front back x y h.1 hy)

-- crc32c differs on any two byte strings that differ in exactly one byte.
pub crc32c_detects :
    (front back : List ℕ) (x y : ℕ)
    → All IsByte (front ++ (x ∷ back))
    → IsByte y
    → x ≢ y
    → crc32c (front ++ (x ∷ back)) ≢ crc32c (front ++ (y ∷ back))
unfolding crc32c
crc32c_detects front back x y h hy ne e =
    ne (one_byte front back x y 0xffff_ffff h hy (omega arith) (omega (arith, before, after)))
  where
    before : IsU32 (crc_bytes 0xffff_ffff (front ++ (x ∷ back)))
    before = crc_bytes-IsU32 _ _ h (omega arith)

    after : IsU32 (crc_bytes 0xffff_ffff (front ++ (y ∷ back)))
    after = crc_bytes-IsU32 _ _ (All-replace front back x y h hy) (omega arith)
