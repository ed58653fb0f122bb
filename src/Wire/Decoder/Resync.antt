-- ===== src/Wire/Decoder/Resync.antt =====
-- `IncrementalDecoder::feed` on a frame behind a zero byte.
use fast_livo_ug.Base.{
  ℕ, ◌+◌, ◌≤◌, ◌<◌, ◌≡◌, refl, sym, ap, ◌∙◌, List, [], ◌∷◌, ◌++◌, arith, false, lt→ltb, length, All,
  length-append, append_assoc, append-nil,
}
use fast_livo_ug.Wire.Types.{WireEvent, DecodeError, ok}
use fast_livo_ug.Wire.Cobs.{cobs_encode}
use fast_livo_ug.Wire.Cobs.RoundTrip.{cobs_encode_pos}
use fast_livo_ug.Wire.Cobs.Shape.{IsFrameByte, cobs_encode-IsFrameByte, length-cobs_encode}
use fast_livo_ug.Wire.Event.{frame, encode_wire_event, decode_wire_event}
use fast_livo_ug.Wire.Event.Layout.{IsEvent}
use fast_livo_ug.Wire.Event.RoundTrip.{
  received, decode_wire_event-encode, frame-IsByte, length-frame,
}
use fast_livo_ug.Wire.Decoder.{
  IncrementalDecoder, Feed, reset, store_byte, end_frame, feed_byte, feed,
}
use fast_livo_ug.Wire.Decoder.Bounds.{end_frame-decoder, feed-append}

-- A decoder in the middle of a frame, and one that waits for a frame.
abbrev pub collecting : ℕ → List ℕ → List WireEvent → List DecodeError → Feed
collecting limit encoded events errors = record {
  decoder = record { max_encoded_size = limit; overflowed = false; encoded = encoded };
  events = events;
  errors = errors;
}

abbrev pub waiting : ℕ → List WireEvent → List DecodeError → Feed
waiting limit events errors = collecting limit [] events errors

module _ (limit : ℕ) (events : List WireEvent) (errors : List DecodeError) where
  feed_byte-collecting :
      (encoded : List ℕ) (b : ℕ)
      → 0 < b
      → length encoded < limit
      → feed_byte (collecting limit encoded events errors) b
        ≡ collecting limit (encoded ++ (b ∷ [])) events errors
  unfolding feed_byte
  feed_byte-collecting encoded b h room = ground arith

  feed-collecting :
      (bytes encoded : List ℕ)
      → All IsFrameByte bytes
      → length encoded + length bytes ≤ limit
      → feed (collecting limit encoded events errors) bytes
        ≡ collecting limit (encoded ++ bytes) events errors
  unfolding feed
  feed-collecting [] encoded h room = rw append-nil
  feed-collecting (b ∷ bytes) encoded h room =
      ap (λ s. feed s bytes) (feed_byte-collecting encoded b h.0.0 (omega arith))
      ∙ feed-collecting bytes (encoded ++ (b ∷ [])) h.1
          (omega (arith, length-append encoded (b ∷ [])))
      ∙ rw append_assoc

  end_frame-ok :
      (bytes : List ℕ) (e : WireEvent)
      → 0 < length bytes
      → decode_wire_event bytes ≡ ok e
      → feed_byte (collecting limit bytes events errors) 0
        ≡ waiting limit (events ++ (e ∷ [])) errors
  unfolding feed_byte
  end_frame-ok bytes e h d = rw (lt→ltb 0 (length bytes) h, d)

  -- A waiting decoder with a limit of at least 515 bytes that is fed an encoded event that fits
  -- the frame (IsEvent) appends that event, no error, and waits again.
  pub feed-encode :
      (e : WireEvent)
      → IsEvent e
      → 515 ≤ limit
      → feed (waiting limit events errors) (encode_wire_event e)
        ≡ waiting limit (events ++ (received e ∷ [])) errors
  unfolding encode_wire_event
  feed-encode e v room =
      feed-append code (0 ∷ []) (waiting limit events errors)
      ∙ ap (λ s. feed s (0 ∷ []))
          (feed-collecting code [] (cobs_encode-IsFrameByte (frame e) (frame-IsByte v)) fits)
      ∙ unfold feed in
        end_frame-ok code (received e) (cobs_encode_pos (frame e)) (decode_wire_event-encode v)
    where
      code : List ℕ
      code = cobs_encode (frame e)

      fits : 0 + length code ≤ limit
      fits = omega (arith, length-cobs_encode (frame e), length-frame v, v.size)

max-store_byte :
    (d : IncrementalDecoder) (b : ℕ) → (store_byte d b).max_encoded_size ≡ d.max_encoded_size
unfolding store_byte
max-store_byte d b = ground arith

max-feed_byte :
    (s : Feed) (b : ℕ) → (feed_byte s b).decoder.max_encoded_size ≡ s.decoder.max_encoded_size
unfolding feed_byte reset
max-feed_byte s b = ground (arith, max-store_byte s.decoder b, end_frame-decoder s)

max-feed :
    (bytes : List ℕ) (s : Feed)
    → (feed s bytes).decoder.max_encoded_size ≡ s.decoder.max_encoded_size
unfolding feed
max-feed [] s = refl
max-feed (b ∷ bytes) s = max-feed bytes (feed_byte s b) ∙ max-feed_byte s b

zero_waits :
    (m : Feed) → let t = feed_byte m 0 in t ≡ waiting m.decoder.max_encoded_size t.events t.errors
unfolding feed_byte reset
zero_waits m = λ i. record {
  decoder = end_frame-decoder m i;
  events = (end_frame m).events;
  errors = (end_frame m).errors;
}

-- After a zero byte the decoder waits, with the events and errors that it then has.
after_zero :
    (garbage : List ℕ) (s : Feed)
    → let t = feed s (garbage ++ (0 ∷ [])) in
      t ≡ waiting s.decoder.max_encoded_size t.events t.errors
unfolding feed
after_zero garbage s = rw (feed-append garbage (0 ∷ []) s) (
    zero_waits (feed s garbage)
    ∙ ap
        (λ (n : ℕ).
          waiting n (feed_byte (feed s garbage) 0).events (feed_byte (feed s garbage) 0).errors)
        (max-feed garbage s))

-- Whatever bytes came before a zero byte, an event that is encoded behind it by encodeWireEvent is
-- received by IncrementalDecoder::feed as the only new event, and with no new error. The event is
-- one that fits the frame (IsEvent), and the limit is at least 515 bytes.
pub feed_resync :
    (garbage : List ℕ) (s : Feed) (e : WireEvent)
    → IsEvent e
    → 515 ≤ s.decoder.max_encoded_size
    → let t = feed s (garbage ++ (0 ∷ [])) in
      feed s (garbage ++ (0 ∷ encode_wire_event e))
      ≡ record t { events = t.events ++ (received e ∷ []) }
feed_resync garbage s e v room =
    ap (feed s) (sym (append_assoc garbage (0 ∷ []) (encode_wire_event e)))
    ∙ feed-append (garbage ++ (0 ∷ [])) (encode_wire_event e) s
    ∙ ap (λ u. feed u (encode_wire_event e)) (after_zero garbage s)
    ∙ feed-encode s.decoder.max_encoded_size t.events t.errors e v room
    ∙ ap (λ (u : Feed). record u { events = t.events ++ (received e ∷ []) })
        (sym (after_zero garbage s))
  where
    t : Feed
    t = feed s (garbage ++ (0 ∷ []))
