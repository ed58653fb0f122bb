-- ===== src/Wire/Tests.antt =====
-- Runs of the wire protocol on concrete bytes and events.
use fast_livo_ug.Base.{
  ℕ, ◌+◌, ◌-◌, ◌%◌, ◌^◌, ◌≡◌, ◌≢◌, ◌≤◌, refl, List, [], ◌∷◌, ◌++◌, none, some, true, arith, length,
}
use fast_livo_ug.Wire.Types.{gnss_pps_capture, WireEvent, ok, QueuedWireEvent}
use fast_livo_ug.Wire.Bytes.{put16, put32, put64, get16, get32, get64}
use fast_livo_ug.Wire.Crc.{crc32c}
use fast_livo_ug.Wire.Crc.Detect.{crc32c_detects}
use fast_livo_ug.Wire.Cobs.{cobs_encode, cobs_decode}
use fast_livo_ug.Wire.Cobs.RoundTrip.{cobs_decode-cobs_encode}
use fast_livo_ug.Wire.Cobs.Shape.{length-cobs_encode}
use fast_livo_ug.Wire.Event.{
  known_type, message_type_of, source_sequence_of, dropped_count_of, frame_body, frame,
  encode_wire_event, decode_wire_event, parse_frame, fill_event,
}
use fast_livo_ug.Wire.Event.Layout.{IsEvent}
use fast_livo_ug.Wire.Event.RoundTrip.{received, decode_wire_event-encode}
use fast_livo_ug.Wire.Event.Corruption.{parse_frame_rejects}
use fast_livo_ug.Wire.Decoder.{Feed, feed}
use fast_livo_ug.Wire.Decoder.Bounds.{IsBounded, feed-IsBounded}
use fast_livo_ug.Wire.Decoder.Segments.{
  pieces, last_piece, all_events, all_errors, inside, feed-pieces,
}
use fast_livo_ug.Wire.Decoder.Resync.{waiting, feed-encode, feed_resync}
use fast_livo_ug.Wire.Queue.{BoundedWireEventQueue, set_capacity}
use fast_livo_ug.Wire.Queue.Bounds
use fast_livo_ug.Wire.Queue.Bounds.{IsValid, newest, push_lem, set_capacity_lem}
use fast_livo_ug.Wire.Sequence.{SequenceTracker}
use fast_livo_ug.Wire.Sequence.Order.{observe_all, observe_all_lem}

-- "123456789", the usual check input of a CRC.
crc32c_check : crc32c (49 ∷ 50 ∷ 51 ∷ 52 ∷ 53 ∷ 54 ∷ 55 ∷ 56 ∷ 57 ∷ []) ≡ 0xe306_9283
unfolding crc32c
crc32c_check = refl

cobs_encode_run : cobs_encode (0x11 ∷ 0x22 ∷ 0 ∷ 0x33 ∷ []) ≡ 3 ∷ 0x11 ∷ 0x22 ∷ 2 ∷ 0x33 ∷ []
unfolding cobs_encode
cobs_encode_run = refl

-- A block that claims more bytes than there are.
cobs_decode_short : cobs_decode (5 ∷ 1 ∷ []) ≡ none
unfolding cobs_decode
cobs_decode_short = refl

abbrev capture : WireEvent
capture = record {
  protocol_version = 1;
  message_type = gnss_pps_capture;
  flags = 1;
  mcu_boot_id = 77;
  event_sequence = 5;
  source_sequence = 9;
  local_tick = 1000;
  local_stamp_ns = 946684800000001000;
  local_tick_hz = 1000000000;
  mcu_dropped_event_count = 0;
  payload = 9 ∷ 0 ∷ 0 ∷ 0 ∷ [];
}

capture-IsEvent : IsEvent capture
capture-IsEvent = record {
  version = refl;
  flags = omega arith;
  boot_id = omega arith;
  sequence = omega arith;
  tick = omega arith;
  stamp = omega arith;
  tick_hz = omega arith;
  payload = omega arith;
  size = omega arith;
}

decode_wire_event-encode_example :
    decode_wire_event (cobs_encode (frame capture)) ≡ ok (received capture)
decode_wire_event-encode_example = decode_wire_event-encode capture-IsEvent

-- The frame of `capture`, cut at the lowest byte of its event sequence, which is 5.
abbrev before_sequence : List ℕ
before_sequence =
    83 ∷ 76 ∷ 84 ∷ 49 ∷ 1 ∷ 4 ∷ 44 ∷ 0 ∷ 4 ∷ 0 ∷ 1 ∷ 0 ∷ 77 ∷ 0 ∷ 0 ∷ 0 ∷ 0 ∷ 0 ∷ 0 ∷ 0 ∷ []

abbrev after_sequence : List ℕ
after_sequence =
    0 ∷ 0 ∷ 0 ∷ 232 ∷ 3 ∷ 0 ∷ 0 ∷ 0 ∷ 0 ∷ 0 ∷ 0 ∷ 232 ∷ 3 ∷ 67 ∷ 82 ∷ 207 ∷ 76 ∷ 35 ∷ 13 ∷ 0 ∷ 202
    ∷ 154 ∷ 59 ∷ 9 ∷ 0 ∷ 0 ∷ 0 ∷ 4 ∷ 98 ∷ 97 ∷ 25 ∷ []

captured_bytes : frame capture ≡ before_sequence ++ (5 ∷ after_sequence)
unfolding frame frame_body put16 put32 put64 crc32c
captured_bytes = refl

capture_accepted : parse_frame (before_sequence ++ (5 ∷ after_sequence)) ≡ ok capture
unfolding parse_frame fill_event known_type message_type_of source_sequence_of dropped_count_of
    get16 get32 get64 crc32c
capture_accepted = refl

parse_frame_rejects_example : parse_frame (before_sequence ++ (6 ∷ after_sequence)) ≢ ok capture
parse_frame_rejects_example =
    parse_frame_rejects before_sequence after_sequence 5 6 capture capture (omega arith)
      (omega arith) (omega arith) capture_accepted

crc32c_detects_example : crc32c (1 ∷ 3 ∷ 2 ∷ []) ≢ crc32c (1 ∷ 4 ∷ 2 ∷ [])
crc32c_detects_example =
    crc32c_detects (1 ∷ []) (2 ∷ []) 3 4 (omega arith) (omega arith) (omega arith)

cobs_decode-cobs_encode_example : cobs_decode (cobs_encode (0 ∷ 7 ∷ 0 ∷ [])) ≡ some (0 ∷ 7 ∷ 0 ∷ [])
cobs_decode-cobs_encode_example = cobs_decode-cobs_encode (0 ∷ 7 ∷ 0 ∷ [])

length-cobs_encode_example : length (cobs_encode (0 ∷ 7 ∷ 0 ∷ [])) ≤ 4
length-cobs_encode_example = length-cobs_encode (0 ∷ 7 ∷ 0 ∷ [])

-- A decoder that waits, with room for the largest encoded frame.
abbrev idle : Feed
idle = waiting 515 [] []

feed-IsBounded_example : IsBounded (feed idle (1 ∷ 2 ∷ 0 ∷ 3 ∷ [])).decoder
feed-IsBounded_example = feed-IsBounded (1 ∷ 2 ∷ 0 ∷ 3 ∷ []) idle (omega arith)

-- A limit of two bytes: a piece that is too short for a frame, an empty one, one above the limit,
-- and the start of the next.
feed-pieces_example :
    feed (waiting 2 [] []) (5 ∷ 0 ∷ 0 ∷ 1 ∷ 2 ∷ 3 ∷ 0 ∷ 7 ∷ [])
    ≡ inside 2
        (last_piece [] (5 ∷ 0 ∷ 0 ∷ 1 ∷ 2 ∷ 3 ∷ 0 ∷ 7 ∷ []))
        ([] ++ all_events 2 (pieces [] (5 ∷ 0 ∷ 0 ∷ 1 ∷ 2 ∷ 3 ∷ 0 ∷ 7 ∷ [])))
        ([] ++ all_errors 2 (pieces [] (5 ∷ 0 ∷ 0 ∷ 1 ∷ 2 ∷ 3 ∷ 0 ∷ 7 ∷ [])))
feed-pieces_example = feed-pieces 2 (5 ∷ 0 ∷ 0 ∷ 1 ∷ 2 ∷ 3 ∷ 0 ∷ 7 ∷ []) [] []

cut_at_zeros :
    pieces [] (5 ∷ 0 ∷ 0 ∷ 1 ∷ 2 ∷ 3 ∷ 0 ∷ 7 ∷ []) ≡ (5 ∷ []) ∷ [] ∷ (1 ∷ 2 ∷ 3 ∷ []) ∷ []
unfolding pieces
cut_at_zeros = refl

feed-encode_example : feed idle (encode_wire_event capture) ≡ waiting 515 (received capture ∷ []) []
feed-encode_example = feed-encode 515 [] [] capture capture-IsEvent (omega arith)

-- A truncated frame comes first.
feed_resync_example :
    feed idle ((1 ∷ 2 ∷ []) ++ (0 ∷ encode_wire_event capture))
    ≡ record (feed idle ((1 ∷ 2 ∷ []) ++ (0 ∷ []))) {
      events = (feed idle ((1 ∷ 2 ∷ []) ++ (0 ∷ []))).events ++ (received capture ∷ []);
    }
feed_resync_example = feed_resync (1 ∷ 2 ∷ []) idle capture capture-IsEvent (omega arith)

abbrev queued : ℕ → QueuedWireEvent
queued host_monotonic_ns = record { event = capture; host_monotonic_ns = host_monotonic_ns }

-- A full queue.
abbrev full : BoundedWireEventQueue
full = record { capacity = 2; events = queued 1 ∷ queued 2 ∷ [] }

set_capacity_lem_example :
    Bounds.IsValid (set_capacity full 0) × ((set_capacity full 0).events ≡ queued 2 ∷ [])
set_capacity_lem_example = set_capacity_lem full 0

-- A tracker at the last number before the wrap.
abbrev at_wrap : SequenceTracker
at_wrap = record { valid = true; boot_id = 77; sequence = 2 ^ 32 - 1 }

observe_all_lem_example :
    let (t', moved) = observe_all at_wrap 77 0 (0 ∷ 3 ∷ 1 ∷ []) in
    (t'.sequence ≡ (2 ^ 32 - 1 + moved) % 2 ^ 32) × (t'.boot_id ≡ 77)
observe_all_lem_example = observe_all_lem (0 ∷ 3 ∷ 1 ∷ []) at_wrap refl (omega arith) (omega arith)
