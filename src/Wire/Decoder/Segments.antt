-- ===== src/Wire/Decoder/Segments.antt =====
-- `IncrementalDecoder::feed` beside a description that cuts the whole stream at its zero bytes.
use fast_livo_ug.Base.{
  ℕ, ◌≤◌, ◌<◌, ◌≡◌, refl, sym, ap, ◌∙◌, List, [], ◌∷◌, ◌++◌, arith, true, false, ltb, ◌==◌,
  if◌then◌else◌, length, length-append, append_assoc, append-nil, zero, suc, take,
  take-append_front, Bool-cases, inl, inr, not-ltb, lt→ltb,
}
use fast_livo_ug.Wire.Types.{WireEvent, DecodeError, Decoded, ok, err}
use fast_livo_ug.Wire.Event.{decode_wire_event}
use fast_livo_ug.Wire.Decoder.{
  IncrementalDecoder, Feed, new_decoder, reset, store_byte, end_frame, feed_byte, feed,
}

-- The pieces of a stream that a zero byte ends, and the piece behind the last one; `piece` stands
-- before the stream.
unfoldable pub pieces : List ℕ → List ℕ → List (List ℕ)
pieces piece [] = []
pieces piece (b ∷ bytes) =
    if b == 0 then piece ∷ pieces [] bytes else pieces (piece ++ (b ∷ [])) bytes

unfoldable pub last_piece : List ℕ → List ℕ → List ℕ
last_piece piece [] = piece
last_piece piece (b ∷ bytes) =
    if b == 0 then last_piece [] bytes else last_piece (piece ++ (b ∷ [])) bytes

-- The events of a decoded piece, and the errors.
abbrev event_of : Decoded → List WireEvent
event_of (ok e) = e ∷ []
event_of (err r) = []

abbrev error_of : Decoded → List DecodeError
error_of (ok e) = []
error_of (err r) = r ∷ []

-- An empty piece is nothing, and one above the limit is an error.
unfoldable pub piece_events : ℕ → List ℕ → List WireEvent
piece_events limit [] = []
piece_events limit (b ∷ piece) =
    if ltb limit (length (b ∷ piece)) then [] else event_of (decode_wire_event (b ∷ piece))

unfoldable pub piece_errors : ℕ → List ℕ → List DecodeError
piece_errors limit [] = []
piece_errors limit (b ∷ piece) =
    if ltb limit (length (b ∷ piece))
    then DecodeError.too_long ∷ []
    else error_of (decode_wire_event (b ∷ piece))

unfoldable pub all_events : ℕ → List (List ℕ) → List WireEvent
all_events limit [] = []
all_events limit (p ∷ rest) = piece_events limit p ++ all_events limit rest

unfoldable pub all_errors : ℕ → List (List ℕ) → List DecodeError
all_errors limit [] = []
all_errors limit (p ∷ rest) = piece_errors limit p ++ all_errors limit rest

-- The decoder in the middle of a piece: it keeps what fits.
unfoldable pub inside : ℕ → List ℕ → List WireEvent → List DecodeError → Feed
inside limit piece events errors = record {
  decoder = record {
    max_encoded_size = limit;
    overflowed = ltb limit (length piece);
    encoded = take limit piece;
  };
  events = events;
  errors = errors;
}

take_all : (n : ℕ) (xs : List ℕ) → length xs ≤ n → take n xs ≡ xs
take_all zero [] h = refl
take_all zero (x ∷ xs) h = ground (arith, h)
take_all (suc n) [] h = refl
take_all (suc n) (x ∷ xs) h = ap (λ t. x ∷ t) (take_all n xs (omega (arith, h)))

store-inside :
    (limit : ℕ) (piece : List ℕ) (b : ℕ) (events : List WireEvent) (errors : List DecodeError)
    → store_byte (inside limit piece events errors).decoder b
      ≡ (inside limit (piece ++ (b ∷ [])) events errors).decoder
unfolding store_byte inside
store-inside limit piece b events errors =
    let more = length-append piece (b ∷ []) in
    let all_before = take_all limit piece in
    let all_behind = take_all limit (piece ++ (b ∷ [])) in
    let cut = take-append_front limit piece (b ∷ []) in
    ground (arith, more, all_before, all_behind, cut)

-- The decoder between two pieces.
inside-empty :
    (limit : ℕ) (events : List WireEvent) (errors : List DecodeError)
    → inside limit [] events errors ≡ record {
      decoder = record { max_encoded_size = limit; overflowed = false; encoded = [] };
      events = events;
      errors = errors;
    }
unfolding inside
inside-empty limit events errors =
    rw (take_all limit [] (omega arith), not-ltb limit 0 (omega arith)) refl

end_decoded :
    (limit : ℕ) (encoded : List ℕ) (events : List WireEvent) (errors : List DecodeError)
    (d : Decoded)
    → decode_wire_event encoded ≡ d
    → 0 < length encoded
    → end_frame (record {
      decoder = record { max_encoded_size = limit; overflowed = false; encoded = encoded };
      events = events;
      errors = errors;
    })
      ≡ record {
        decoder = record { max_encoded_size = limit; overflowed = false; encoded = [] };
        events = events ++ event_of d;
        errors = errors ++ error_of d;
      }
unfolding end_frame reset
end_decoded limit encoded events errors (ok e) h some_byte =
    rw (lt→ltb 0 (length encoded) some_byte, h, append-nil errors) refl
end_decoded limit encoded events errors (err r) h some_byte =
    rw (lt→ltb 0 (length encoded) some_byte, h, append-nil events) refl

inside_short :
    (limit : ℕ) (piece : List ℕ) (events : List WireEvent) (errors : List DecodeError)
    → ltb limit (length piece) ≡ false
    → inside limit piece events errors ≡ record {
      decoder = record { max_encoded_size = limit; overflowed = false; encoded = piece };
      events = events;
      errors = errors;
    }
unfolding inside
inside_short limit piece events errors h = rw (h, take_all limit piece (ground (arith, h))) refl

end_long :
    (limit : ℕ) (piece : List ℕ) (events : List WireEvent) (errors : List DecodeError)
    → ltb limit (length piece) ≡ true
    → end_frame (inside limit piece events errors)
      ≡ inside limit [] events (errors ++ (DecodeError.too_long ∷ []))
unfolding end_frame reset
end_long limit piece events errors h =
    rw (inside-empty limit events (errors ++ (DecodeError.too_long ∷ [])))
      (unfold inside in rw h refl)

end-inside :
    (limit : ℕ) (piece : List ℕ) (events : List WireEvent) (errors : List DecodeError)
    → end_frame (inside limit piece events errors)
      ≡ inside limit [] (events ++ piece_events limit piece) (errors ++ piece_errors limit piece)
unfolding piece_events piece_errors
end-inside limit [] events errors =
    rw (append-nil events, append-nil errors, inside-empty limit events errors)
      (unfold end_frame reset in refl)
end-inside limit (b ∷ piece) events errors = elim (Bool-cases (ltb limit (length (b ∷ piece)))) [
  | inl long ↦ rw (long, append-nil events) (end_long limit (b ∷ piece) events errors long)
  | inr short ↦ rw short (
      ap end_frame (inside_short limit (b ∷ piece) events errors short)
      ∙ end_decoded limit (b ∷ piece) events errors (decode_wire_event (b ∷ piece)) refl
          (omega arith)
      ∙ sym (inside-empty limit _ _))
]

feed_byte-inside :
    (limit : ℕ) (piece : List ℕ) (b : ℕ) (events : List WireEvent) (errors : List DecodeError)
    → (b == 0) ≡ false
    → feed_byte (inside limit piece events errors) b
      ≡ inside limit (piece ++ (b ∷ [])) events errors
unfolding feed_byte inside
feed_byte-inside limit piece b events errors h = rw h (
    ap (λ (d : IncrementalDecoder). record { decoder = d; events = events; errors = errors })
      (store-inside limit piece b events errors))

feed_byte-zero :
    (limit : ℕ) (piece : List ℕ) (b : ℕ) (events : List WireEvent) (errors : List DecodeError)
    → (b == 0) ≡ true
    → feed_byte (inside limit piece events errors) b
      ≡ inside limit [] (events ++ piece_events limit piece) (errors ++ piece_errors limit piece)
feed_byte-zero limit piece b events errors h =
    unfold feed_byte in rw h (end-inside limit piece events errors)

feed-inside :
    (limit : ℕ) (bytes piece : List ℕ) (events : List WireEvent) (errors : List DecodeError)
    → feed (inside limit piece events errors) bytes
      ≡ inside limit
          (last_piece piece bytes)
          (events ++ all_events limit (pieces piece bytes))
          (errors ++ all_errors limit (pieces piece bytes))
unfolding feed last_piece pieces all_events all_errors
feed-inside limit [] piece events errors = rw (append-nil events, append-nil errors) refl
feed-inside limit (b ∷ bytes) piece events errors = elim (Bool-cases (b == 0)) [
  | inl is_zero ↦ rw is_zero (
      ap (λ s. feed s bytes) (feed_byte-zero limit piece b events errors is_zero)
      ∙ feed-inside limit bytes [] (events ++ piece_events limit piece)
          (errors ++ piece_errors limit piece)
      ∙ rw (append_assoc events _ _, append_assoc errors _ _) refl)
  | inr other ↦ rw other (
      ap (λ s. feed s bytes) (feed_byte-inside limit piece b events errors other)
      ∙ feed-inside limit bytes (piece ++ (b ∷ [])) events errors)
]

-- From a waiting decoder with any limit, feed gives what cutting the whole stream at its zero
-- bytes gives: in order, the event or the error of each nonempty piece that is within the limit, a
-- too-long error for each piece above it, and a decoder that keeps the bytes behind the last zero
-- that fit the limit and has overflowed exactly if there are more.
pub feed-pieces :
    (limit : ℕ) (bytes : List ℕ) (events : List WireEvent) (errors : List DecodeError)
    → feed (record { decoder = new_decoder limit; events = events; errors = errors }) bytes
      ≡ inside limit
          (last_piece [] bytes)
          (events ++ all_events limit (pieces [] bytes))
          (errors ++ all_errors limit (pieces [] bytes))
feed-pieces limit bytes events errors =
    ap (λ s. feed s bytes) (sym (inside-empty limit events errors))
    ∙ feed-inside limit bytes [] events errors
