-- ===== src/Wire/Decoder/Bounds.antt =====
-- `IncrementalDecoder::feed`: the size of the buffer, and streams in pieces.
use fast_livo_ug.Base.{ℕ, ◌≤◌, ◌≡◌, refl, List, [], ◌∷◌, ◌++◌, arith, length, length-append}
use fast_livo_ug.Wire.Decoder.{
  IncrementalDecoder, Feed, reset, store_byte, end_frame, feed_byte, feed,
}

abbrev pub IsBounded : IncrementalDecoder → Type 0
IsBounded d = length d.encoded ≤ d.max_encoded_size

store_byte-IsBounded : (d : IncrementalDecoder) (b : ℕ) → IsBounded d → IsBounded (store_byte d b)
unfolding store_byte
store_byte-IsBounded d b h = ground (arith, length-append d.encoded (b ∷ []))

-- The end of a frame clears the buffer on every branch, and keeps the limit.
pub end_frame-decoder : (s : Feed) → (end_frame s).decoder ≡ reset s.decoder
unfolding end_frame
end_frame-decoder s = ground arith

feed_byte-IsBounded : (s : Feed) (b : ℕ) → IsBounded s.decoder → IsBounded (feed_byte s b).decoder
unfolding feed_byte
feed_byte-IsBounded s b h = ground (arith, store_byte-IsBounded s.decoder b, end_frame-decoder s)

-- Feeding any bytes keeps the buffer of the decoder within max_encoded_size.
pub feed-IsBounded :
    (bytes : List ℕ) (s : Feed) → IsBounded s.decoder → IsBounded (feed s bytes).decoder
unfolding feed
feed-IsBounded [] s h = h
feed-IsBounded (b ∷ bytes) s h = feed-IsBounded bytes (feed_byte s b) (feed_byte-IsBounded s b h)

-- Feeding a stream of bytes in two pieces is feeding it whole.
pub feed-append : (a b : List ℕ) (s : Feed) → feed s (a ++ b) ≡ feed (feed s a) b
unfolding feed
feed-append [] b s = refl
feed-append (x ∷ a) b s = feed-append a b (feed_byte s x)
