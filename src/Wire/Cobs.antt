-- ===== src/Wire/Cobs.antt =====
-- `cobsEncode` and `cobsDecode` of wire_protocol.cpp.
pub mod RoundTrip
pub mod Shape
use fast_livo_ug.Base.{
  ℕ, zero, suc, ◌+◌, ◌-◌, List, [], ◌∷◌, ◌++◌, Option, none, some, not, ◌&&◌, ltb, ◌==◌,
  if◌then◌else◌, length, set, take, drop,
}

-- The local variables of the encoder's loop.
pub record EncodeState : Type 0 where
  pub output : List ℕ
  pub code_index : ℕ
  pub code : ℕ

-- `output[code_index] = code; code_index = output.size(); output.push_back(0); code = 1;`
unfoldable pub close_block : EncodeState → ℕ → EncodeState
close_block s code =
    let patched = set s.output s.code_index code in
    record { output = patched ++ (0 ∷ []); code_index = length patched; code = 1 }

-- The loop's body. `++code` starts below 255, so the byte does not wrap.
unfoldable pub encode_byte : EncodeState → ℕ → EncodeState
unfolding close_block
encode_byte s byte =
    if byte == 0
    then close_block s s.code
    else (let code = s.code + 1 in
        let pushed : EncodeState = record s { output = s.output ++ (byte ∷ []); code = code } in
        if code == 0xff then close_block pushed code else pushed)

unfoldable pub encode_bytes : EncodeState → List ℕ → EncodeState
encode_bytes s [] = s
encode_bytes s (byte ∷ input) = encode_bytes (encode_byte s byte) input

abbrev pub encode_start : EncodeState
encode_start = record { output = 0 ∷ []; code_index = 0; code = 1 }

unfoldable pub cobs_encode : List ℕ → List ℕ
unfolding encode_bytes encode_byte
cobs_encode input = let s = encode_bytes encode_start input in set s.output s.code_index s.code

-- The decoder's loop; `data` is what stands from `index` on. `none` is `return false`, and also
-- the end of the fuel, which the `size` rounds given never reach: each round takes a byte.
unfoldable pub decode_blocks : ℕ → List ℕ → List ℕ → Option (List ℕ)
decode_blocks fuel [] output = some output
decode_blocks zero (code ∷ rest) output = none
decode_blocks (suc fuel) (code ∷ rest) output =
    let count = code - 1 in
    let after = drop count rest in
    let copied = output ++ take count rest in
    let next =
      decode_blocks fuel after
        (if not (code == 0xff) && ltb 0 (length after) then copied ++ (0 ∷ []) else copied) in
    if code == 0 then none else if ltb (length rest) count then none else next

unfoldable pub cobs_decode : List ℕ → Option (List ℕ)
unfolding decode_blocks
cobs_decode bytes = decode_blocks (length bytes) bytes []
