-- ===== src/Wire/Decoder.antt =====
-- `IncrementalDecoder` of wire_protocol.cpp: bytes in, events and errors out.
pub mod Bounds
pub mod Resync
pub mod Segments
use fast_livo_ug.Base.{
  ℕ, List, [], ◌∷◌, ◌++◌, Bool, true, false, not, ltb, ◌==◌, if◌then◌else◌, length,
}
use fast_livo_ug.Wire.Types.{DecodeError, WireEvent, Decoded, ok, err}
use fast_livo_ug.Wire.Event.{decode_wire_event}

pub record IncrementalDecoder : Type 0 where
  pub max_encoded_size : ℕ
  pub overflowed : Bool
  pub encoded : List ℕ

-- The decoder with the two vectors that `feed` appends to.
pub record Feed : Type 0 where
  pub decoder : IncrementalDecoder
  pub events : List WireEvent
  pub errors : List DecodeError

abbrev pub new_decoder : ℕ → IncrementalDecoder
new_decoder max_encoded_size = record {
  max_encoded_size = max_encoded_size;
  overflowed = false;
  encoded = [];
}

unfoldable pub reset : IncrementalDecoder → IncrementalDecoder
reset d = record d { encoded = []; overflowed = false }

-- A byte that is not zero.
unfoldable pub store_byte : IncrementalDecoder → ℕ → IncrementalDecoder
store_byte d byte =
    if not d.overflowed
    then (if ltb (length d.encoded) d.max_encoded_size
        then record d { encoded = d.encoded ++ (byte ∷ []) }
        else record d { overflowed = true })
    else d

-- The zero byte that ends a frame; the last two assignments are those of `reset`.
unfoldable pub end_frame : Feed → Feed
unfolding reset
end_frame s =
    let cleared : Feed = record s { decoder = reset s.decoder } in
    if s.decoder.overflowed
    then record cleared { errors = s.errors ++ (DecodeError.too_long ∷ []) }
    else if ltb 0 (length s.decoder.encoded)
    then elim (decode_wire_event s.decoder.encoded) [
      | ok event ↦ record cleared { events = s.events ++ (event ∷ []) }
      | err error ↦ record cleared { errors = s.errors ++ (error ∷ []) }
    ]
    else cleared

unfoldable pub feed_byte : Feed → ℕ → Feed
unfolding store_byte end_frame
feed_byte s byte =
    if not (byte == 0) then record s { decoder = store_byte s.decoder byte } else end_frame s

-- `for (size_t i = 0; i < size; ++i)`
unfoldable pub feed : Feed → List ℕ → Feed
feed s [] = s
feed s (byte ∷ bytes) = feed (feed_byte s byte) bytes
