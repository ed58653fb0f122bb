-- ===== src/Wire/Event/Checks.antt =====
-- What `decodeWireEvent` accepts: the checks on the decoded frame, in both directions.
use fast_livo_ug.Base.{
  ℕ, ◌+◌, ◌-◌, ◌≤◌, ◌≡◌, refl, List, arith, Bool, true, false, not, ◌||◌, ltb, ◌==◌, ==_iff,
  if◌then◌else◌, length, take, drop,
}
use fast_livo_ug.Wire.Types.{
  WireEvent, protocol_magic, protocol_version, wire_header_length, max_decoded_frame_size,
  DecodeError, Decoded, ok, err,
}
use fast_livo_ug.Wire.Bytes.{byte_at, get16, get32}
use fast_livo_ug.Wire.Crc.{crc32c}
use fast_livo_ug.Wire.Event.{known_type, fill_event, parse_frame}

-- A decoded frame that passes every check.
pub record IsFrame (decoded : List ℕ) : Type 0 where
  pub long : wire_header_length + 4 ≤ length decoded
  pub short : length decoded ≤ 512
  pub magic : get32 decoded ≡ protocol_magic
  pub version : byte_at decoded 4 ≡ protocol_version
  pub type : known_type (byte_at decoded 5) ≡ true
  pub header : get16 (drop 6 decoded) ≡ wire_header_length
  pub payload : wire_header_length + get16 (drop 8 decoded) + 4 ≡ length decoded
  pub crc : crc32c (take (length decoded - 4) decoded) ≡ get32 (drop (length decoded - 4) decoded)

pub parse_frame-ok :
    (d : List ℕ)
    → IsFrame d
    → parse_frame d ≡ ok (fill_event d wire_header_length (get16 (drop 8 d)))
unfolding parse_frame
parse_frame-ok d f = ground arith

else_ok :
    (c : Bool) (x : DecodeError) (k : Decoded) {e : WireEvent}
    → (if c then err x else k) ≡ ok e
    → (c ≡ false) × (k ≡ ok e)
else_ok true x k h = cc
else_ok false x k h = (refl, h)

not-false : (b : Bool) → not b ≡ false → b ≡ true
not-false true h = cc
not-false false h = cc

same_of_test : (a b : ℕ) → not (a == b) ≡ false → a ≡ b
same_of_test a b h = (==_iff a b).0 (not-false (a == b) h)

le_of_test : (a b : ℕ) → ltb a b ≡ false → b ≤ a
le_of_test a b h = ground arith

or_false : (b c : Bool) → b || c ≡ false → (b ≡ false) × (c ≡ false)
or_false b c h = ground arith

pub parse_frame-inv : (d : List ℕ) (e : WireEvent) → parse_frame d ≡ ok e → IsFrame d
unfolding parse_frame
parse_frame-inv d e h =
    let h₁ = else_ok (ltb max_decoded_frame_size (length d)) _ _ h in
    let h₂ = else_ok (ltb (length d) 48) _ _ h₁.1 in
    let h₃ = else_ok (not (get32 d == protocol_magic)) _ _ h₂.1 in
    let h₄ = else_ok (not (byte_at d 4 == protocol_version)) _ _ h₃.1 in
    let h₅ = else_ok (not (known_type (byte_at d 5))) _ _ h₄.1 in
    let h₆ =
      else_ok
        (not (get16 (drop 6 d) == wire_header_length)
          || not (get16 (drop 6 d) + get16 (drop 8 d) + 4 == length d))
        _ _ h₅.1 in
    let h₇ =
      else_ok (not (crc32c (take (length d - 4) d) == get32 (drop (length d - 4) d))) _ _ h₆.1 in
    let h₈ =
      or_false (not (get16 (drop 6 d) == wire_header_length))
        (not (get16 (drop 6 d) + get16 (drop 8 d) + 4 == length d)) h₆.0 in
    let header : get16 (drop 6 d) ≡ wire_header_length = same_of_test _ _ h₈.0 in
    record {
      long = le_of_test _ _ h₂.0;
      short = le_of_test _ _ h₁.0;
      magic = same_of_test _ _ h₃.0;
      version = same_of_test _ _ h₄.0;
      type = not-false _ h₅.0;
      header = header;
      payload = rw header at (same_of_test _ _ h₈.1);
      crc = same_of_test _ _ h₇.0;
    }
