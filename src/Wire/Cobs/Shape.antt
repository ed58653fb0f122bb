-- ===== src/Wire/Cobs/Shape.antt =====
-- The bytes and the length of what `cobsEncode` writes.
use fast_livo_ug.Base.{
  ℕ, ◌+◌, ◌/◌, ◌≤◌, ◌<◌, ◌≡◌, List, [], ◌∷◌, ◌++◌, arith, false, ◌==◌, length, All, Bool-cases, inl,
  inr, length-append, All-append, ==_iff,
}
use fast_livo_ug.Wire.Bytes.{IsByte}
use fast_livo_ug.Wire.Cobs.{cobs_encode}
use fast_livo_ug.Wire.Cobs.RoundTrip.{blocks, cobs_encode-blocks}

-- A byte that can stand inside a frame.
abbrev pub IsFrameByte : ℕ → Type 0
IsFrameByte b = (0 < b) × (b < 256)

grow_block :
    (block : List ℕ) (b : ℕ)
    → (length block == 253) ≡ false
    → length block ≤ 253
    → length (block ++ (b ∷ [])) ≤ 253
grow_block block b h p = ground (arith, length-append block (b ∷ []))

nonzero : (b : ℕ) → (b == 0) ≡ false → IsByte b → IsFrameByte b
nonzero b h p = (ground arith, p)

blocks-IsFrameByte :
    (input block : List ℕ)
    → length block ≤ 253
    → All IsFrameByte block
    → All IsByte input
    → All IsFrameByte (blocks block input)
unfolding blocks
blocks-IsFrameByte [] block p hb hi = ((omega arith, omega arith), hb)
blocks-IsFrameByte (b ∷ input) block p hb hi = elim (Bool-cases (b == 0)) [
  | inl h ↦ rw h (
    (omega arith, omega arith),
    All-append IsFrameByte block (blocks [] input) hb
        (blocks-IsFrameByte input [] (omega arith) tt hi.1),
  )
  | inr h ↦ elim (Bool-cases (length block == 253)) [
    | inl full ↦
        rw (h, full)
          (
            (omega arith, omega arith),
            All-append IsFrameByte (block ++ (b ∷ [])) (blocks [] input) (grown h)
                (blocks-IsFrameByte input [] (omega arith) tt hi.1),
          )
    | inr more ↦
        rw (h, more)
          (blocks-IsFrameByte input (block ++ (b ∷ [])) (grow_block block b more p) (grown h) hi.1)
  ]
]
  where
    grown : (b == 0) ≡ false → All IsFrameByte (block ++ (b ∷ []))
    grown h = All-append IsFrameByte block (b ∷ []) hb (nonzero b h hi.0, tt)

length-blocks :
    (input block : List ℕ)
    → length block ≤ 253
    → length (blocks block input)
      ≤ length block + length input + (length block + length input) / 254 + 1
unfolding blocks
length-blocks [] block p = omega arith
length-blocks (b ∷ input) block p = elim (Bool-cases (b == 0)) [
  | inl h ↦
      rw h
        (omega (arith, length-append block (blocks [] input), length-blocks input [] (omega arith)))
  | inr h ↦ elim (Bool-cases (length block == 253)) [
    | inl full ↦
        rw (h, full)
          (omega (
            arith,
            (==_iff _ _).0 full,
            length-append block (b ∷ []),
            length-append (block ++ (b ∷ [])) (blocks [] input),
            length-blocks input [] (omega arith),
          ))
    | inr more ↦
        rw (h, more)
          (omega (
            arith,
            length-append block (b ∷ []),
            length-blocks input (block ++ (b ∷ [])) (grow_block block b more p),
          ))
  ]
]

-- The encoding of bytes by cobsEncode holds bytes only, and no zero byte.
pub cobs_encode-IsFrameByte :
    (input : List ℕ) → All IsByte input → All IsFrameByte (cobs_encode input)
cobs_encode-IsFrameByte input h =
    rw cobs_encode-blocks (blocks-IsFrameByte input [] (omega arith) tt h)

-- The encoding has at most the length that cobsEncode reserves.
pub length-cobs_encode :
    (input : List ℕ) → length (cobs_encode input) ≤ length input + length input / 254 + 1
length-cobs_encode input =
    rw cobs_encode-blocks (omega (arith, length-blocks input [] (omega arith)))
