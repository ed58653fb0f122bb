-- ===== src/Wire/Cobs/RoundTrip.antt =====
-- `cobsEncode` and `cobsDecode`, block by block.
use fast_livo_ug.Base.{
  ℕ, zero, suc, ◌+◌, ◌-◌, ◌≤◌, ◌<◌, ◌≡◌, refl, sym, ap, ◌∙◌, List, [], ◌∷◌, ◌++◌, some, arith, true,
  false, not, ◌&&◌, ltb, not-ltb, lt→ltb, ltb→lt, ◌==◌, if◌then◌else◌, length, set, Bool-cases, inl,
  inr, length-append, set-append_length, take-append_length, drop-append_length, append_assoc,
  append-nil,
}
use fast_livo_ug.Wire.Cobs.{
  EncodeState, close_block, encode_byte, encode_bytes, cobs_encode, decode_blocks, cobs_decode,
}
use native.Mathlib.Nat.{le_refl}

-- The encoding of `input` by blocks, where `block` holds the bytes of the open block.
unfoldable pub blocks : List ℕ → List ℕ → List ℕ
blocks block [] = suc (length block) ∷ block
blocks block (b ∷ input) =
    let full = blocks [] input in
    let grown = blocks (block ++ (b ∷ [])) input in
    if b == 0
    then (suc (length block) ∷ block) ++ full
    else if length block == 253
    then (255 ∷ (block ++ (b ∷ []))) ++ full
    else grown

-- The state in which the encoder has written `done` and `block` is open.
abbrev open_block : List ℕ → List ℕ → EncodeState
open_block done block = record {
  output = done ++ (0 ∷ block);
  code_index = length done;
  code = suc (length block);
}

close_block-open :
    (done block : List ℕ) (code : ℕ)
    → close_block (open_block done block) code ≡ open_block (done ++ (code ∷ block)) []
unfolding close_block
close_block-open done block code = rw (set-append_length done block 0 code)

abbrev push_byte : EncodeState → ℕ → EncodeState
push_byte s b = record s { output = s.output ++ (b ∷ []); code = s.code + 1 }

push_byte-open :
    (done block : List ℕ) (b : ℕ)
    → push_byte (open_block done block) b ≡ open_block done (block ++ (b ∷ []))
push_byte-open done block b = cc (append_assoc done (0 ∷ block) (b ∷ []), size)
  where
    size : suc (length block) + 1 ≡ suc (length (block ++ (b ∷ [])))
    size = omega (arith, length-append block (b ∷ []))

encode_byte-zero :
    (done block : List ℕ) (b : ℕ)
    → (b == 0) ≡ true
    → encode_byte (open_block done block) b ≡ open_block (done ++ (suc (length block) ∷ block)) []
unfolding encode_byte
encode_byte-zero done block b h = rw h (close_block-open done block (suc (length block)))

encode_byte-full :
    (done block : List ℕ) (b : ℕ)
    → (b == 0) ≡ false
    → (length block == 253) ≡ true
    → encode_byte (open_block done block) b ≡ open_block (done ++ (255 ∷ (block ++ (b ∷ [])))) []
unfolding encode_byte
encode_byte-full done block b h full =
    rw (h, same)
      (ap (λ s. close_block s (suc (length block) + 1)) (push_byte-open done block b)
        ∙ close_block-open _ _ _
        ∙ ap (λ (t : ℕ). open_block (done ++ (t ∷ (block ++ (b ∷ [])))) []) size)
  where
    size : suc (length block) + 1 ≡ 255
    size = ground arith

    same : (suc (length block) + 1 == 0xff) ≡ true
    same = ground arith

encode_byte-grow :
    (done block : List ℕ) (b : ℕ)
    → (b == 0) ≡ false
    → (length block == 253) ≡ false
    → encode_byte (open_block done block) b ≡ open_block done (block ++ (b ∷ []))
unfolding encode_byte
encode_byte-grow done block b h more = rw (h, same) (push_byte-open done block b)
  where
    same : (suc (length block) + 1 == 0xff) ≡ false
    same = ground arith

finish : EncodeState → List ℕ
finish s = set s.output s.code_index s.code

-- The loop, from a state with an open block on, appends the blocks of what is left.
encode_bytes-blocks :
    (input done block : List ℕ)
    → finish (encode_bytes (open_block done block) input) ≡ done ++ blocks block input
unfolding encode_bytes finish blocks
encode_bytes-blocks [] done block = set-append_length done block 0 _
encode_bytes-blocks (b ∷ input) done block = elim (Bool-cases (b == 0)) [
  | inl h ↦ rw h (
      ap (λ s. finish (encode_bytes s input)) (encode_byte-zero done block b h)
      ∙ encode_bytes-blocks input (done ++ (suc (length block) ∷ block)) []
      ∙ append_assoc done _ _)
  | inr h ↦ elim (Bool-cases (length block == 253)) [
    | inl full ↦
        rw (h, full)
          (ap (λ s. finish (encode_bytes s input)) (encode_byte-full done block b h full)
            ∙ encode_bytes-blocks input (done ++ (255 ∷ (block ++ (b ∷ [])))) []
            ∙ append_assoc done _ _)
    | inr more ↦
        rw (h, more)
          (ap (λ s. finish (encode_bytes s input)) (encode_byte-grow done block b h more)
            ∙ encode_bytes-blocks input done (block ++ (b ∷ [])))
  ]
]

-- The encoder computes the encoding by blocks.
pub cobs_encode-blocks : (input : List ℕ) → cobs_encode input ≡ blocks [] input
unfolding cobs_encode finish
cobs_encode-blocks input = encode_bytes-blocks input [] []

-- One round of the decoder on a block that stands in front of `rest`.
decode_block :
    (fuel code : ℕ) (block rest output : List ℕ)
    → code ≡ suc (length block)
    → decode_blocks (suc fuel) (code ∷ (block ++ rest)) output
      ≡ decode_blocks fuel rest (
          if not (code == 0xff) && ltb 0 (length rest)
          then (output ++ block) ++ (0 ∷ [])
          else output ++ block)
unfolding decode_blocks
decode_block fuel code block rest output e =
    rw (some_code, count, enough, drop-append_length block rest, take-append_length block rest)
  where
    some_code : (code == 0) ≡ false
    some_code = ground arith

    count : code - 1 ≡ length block
    count = omega arith

    enough : ltb (length (block ++ rest)) (length block) ≡ false
    enough = not-ltb _ _ (omega (arith, length-append block rest))

blocks_pos : (block input : List ℕ) → ltb 0 (length (blocks block input)) ≡ true
unfolding blocks
blocks_pos block [] = lt→ltb 0 _ (omega arith)
blocks_pos block (b ∷ input) = elim (Bool-cases (b == 0)) [
  | inl h ↦ rw h (lt→ltb 0 _ (omega arith))
  | inr h ↦ elim (Bool-cases (length block == 253)) [
    | inl full ↦ rw (h, full) (lt→ltb 0 _ (omega arith))
    | inr more ↦ rw (h, more) (blocks_pos (block ++ (b ∷ [])) input)
  ]
]

short_code : (block : List ℕ) → length block ≤ 253 → (suc (length block) == 0xff) ≡ false
short_code block h = ground arith

decode_blocks-nil : (fuel : ℕ) (output : List ℕ) → decode_blocks fuel [] output ≡ some output
unfolding decode_blocks
decode_blocks-nil zero output = refl
decode_blocks-nil (suc fuel) output = refl

-- The decoder inverts the encoding by blocks: it restores the open block and what follows.
decode_blocks-blocks :
    (input block output : List ℕ) (fuel : ℕ)
    → length block ≤ 253
    → length (blocks block input) ≤ fuel
    → decode_blocks fuel (blocks block input) output ≡ some (output ++ (block ++ input))
unfolding blocks
decode_blocks-blocks [] block output zero hb hf = absurd (omega arith)
decode_blocks-blocks [] block output (suc fuel) hb hf =
    ap (λ t. decode_blocks (suc fuel) (suc (length block) ∷ t) output) (sym (append-nil block))
    ∙ decode_block fuel (suc (length block)) block [] output refl
    ∙ rw (short_code block hb, append-nil, decode_blocks-nil)
decode_blocks-blocks (b ∷ input) block output zero hb hf =
    absurd (omega (arith, ltb→lt 0 _ (blocks_pos block (b ∷ input))))
decode_blocks-blocks (b ∷ input) block output (suc fuel) hb hf = elim (Bool-cases (b == 0)) [
  | inl h ↦ rw h (
      decode_block fuel (suc (length block)) block (blocks [] input) output refl
      ∙ rw (short_code block hb, blocks_pos [] input)
          (decode_blocks-blocks input [] _ fuel (omega arith)
            (omega (arith, rw h at hf, length-append block (blocks [] input))))
      ∙ ap some (regroup (0 ∷ []) ∙ ap (λ (t : ℕ). output ++ (block ++ (t ∷ input))) (zero_of h)))
  | inr h ↦ elim (Bool-cases (length block == 253)) [
    | inl full ↦
        rw (h, full)
          (decode_block fuel 255 (block ++ (b ∷ [])) (blocks [] input) output (size full)
            ∙ decode_blocks-blocks input [] _ fuel (omega arith) (
                omega
                  (arith, rw (h, full) at hf, length-append (block ++ (b ∷ [])) (blocks [] input)))
            ∙ ap some (
                ap (λ t. t ++ input) (sym (append_assoc output block (b ∷ []))) ∙ regroup (b ∷ [])))
    | inr more ↦
        rw (h, more)
          (decode_blocks-blocks input (block ++ (b ∷ [])) output (suc fuel) (room more)
              (rw (h, more) at hf)
            ∙ ap (λ t. some (output ++ t)) (append_assoc block (b ∷ []) input))
  ]
]
  where
    regroup :
        (mid : List ℕ) → ((output ++ block) ++ mid) ++ input ≡ output ++ (block ++ (mid ++ input))
    regroup mid = simp append_assoc

    zero_of : (b == 0) ≡ true → 0 ≡ b
    zero_of h = ground arith

    size : (length block == 253) ≡ true → 255 ≡ suc (length (block ++ (b ∷ [])))
    size full = ground (arith, length-append block (b ∷ []))

    room : (length block == 253) ≡ false → length (block ++ (b ∷ [])) ≤ 253
    room more = ground (arith, length-append block (b ∷ []))

-- cobsDecode returns the input of cobsEncode, for every byte string.
pub cobs_decode-cobs_encode : (input : List ℕ) → cobs_decode (cobs_encode input) ≡ some input
unfolding cobs_decode
cobs_decode-cobs_encode input =
    rw (cobs_encode-blocks input)
      (decode_blocks-blocks input [] [] (length (blocks [] input)) (omega arith) (le_refl _))

pub cobs_encode_pos : (input : List ℕ) → 0 < length (cobs_encode input)
cobs_encode_pos input =
    rw (cobs_encode-blocks input) (ltb→lt 0 (length (blocks [] input)) (blocks_pos [] input))
