-- ===== src/Wire/Event.antt =====
-- `encodeWireEvent` and `decodeWireEvent` of wire_protocol.cpp.
pub mod Layout
pub mod Checks
pub mod RoundTrip
pub mod Corruption
use fast_livo_ug.Base.{
  ℕ, ◌+◌, ◌-◌, ◌%◌, ◌^◌, List, [], ◌∷◌, ◌++◌, Option, none, some, Bool, not, ◌&&◌, ◌||◌, ltb, leb,
  ◌==◌, if◌then◌else◌, length, take, drop,
}
use fast_livo_ug.Wire.Types.{
  protocol_magic, protocol_version, wire_header_length, max_decoded_frame_size, MessageType, boot,
  local_pps_output, camera_trigger, gnss_pps_capture, status, error, type_code, DecodeError,
  WireEvent, Decoded, ok, err,
}
use fast_livo_ug.Wire.Bytes.{byte_at, put16, put32, put64, get16, get32, get64}
use fast_livo_ug.Wire.Crc.{crc32c}
use fast_livo_ug.Wire.Cobs.{cobs_encode, cobs_decode}

-- The bytes before the checksum.
unfoldable pub frame_body : WireEvent → List ℕ
frame_body e =
    let decoded = put32 [] protocol_magic in
    let decoded = decoded ++ (e.protocol_version ∷ []) in
    let decoded = decoded ++ (type_code e.message_type ∷ []) in
    let decoded = put16 decoded wire_header_length in
    let decoded = put16 decoded (length e.payload % 2 ^ 16) in
    let decoded = put16 decoded e.flags in
    let decoded = put64 decoded e.mcu_boot_id in
    let decoded = put32 decoded e.event_sequence in
    let decoded = put64 decoded e.local_tick in
    let decoded = put64 decoded e.local_stamp_ns in
    let decoded = put32 decoded e.local_tick_hz in decoded ++ e.payload

-- The decoded frame: the body and its checksum.
unfoldable pub frame : WireEvent → List ℕ
frame e = let body = frame_body e in put32 body (crc32c body)

unfoldable pub encode_wire_event : WireEvent → List ℕ
encode_wire_event e = cobs_encode (frame e) ++ (0 ∷ [])

unfoldable pub known_type : ℕ → Bool
known_type code = leb (type_code boot) code && leb code (type_code error)

-- `static_cast<MessageType>(code)`, used where `known_type code` holds.
unfoldable pub message_type_of : ℕ → MessageType
message_type_of code =
    if code == 1
    then boot
    else if code == 2
    then local_pps_output
    else if code == 3
    then camera_trigger
    else if code == 4
    then gnss_pps_capture
    else if code == 5
    then status
    else error

-- The fields of `event` that are read from the payload.
unfoldable pub source_sequence_of : List ℕ → ℕ
source_sequence_of payload = if leb 4 (length payload) then get32 payload else 0

unfoldable pub dropped_count_of : MessageType → List ℕ → ℕ
dropped_count_of type payload =
    if type_code type == type_code status && leb 8 (length payload)
    then get32 (drop 4 payload)
    else 0

-- The assignments to `event` behind the last check.
unfoldable pub fill_event : List ℕ → ℕ → ℕ → WireEvent
fill_event decoded header_length payload_length =
    let payload = take payload_length (drop header_length decoded) in
    let type = message_type_of (byte_at decoded 5) in
    record {
      protocol_version = byte_at decoded 4;
      message_type = type;
      flags = get16 (drop 10 decoded);
      mcu_boot_id = get64 (drop 12 decoded);
      event_sequence = get32 (drop 20 decoded);
      source_sequence = source_sequence_of payload;
      local_tick = get64 (drop 24 decoded);
      local_stamp_ns = get64 (drop 32 decoded);
      local_tick_hz = get32 (drop 40 decoded);
      mcu_dropped_event_count = dropped_count_of type payload;
      payload = payload;
    }

-- The checks on the decoded frame, in the source's order.
unfoldable pub parse_frame : List ℕ → Decoded
parse_frame decoded =
    let size = length decoded in
    let header_length = get16 (drop 6 decoded) in
    let payload_length = get16 (drop 8 decoded) in
    let expected_crc = get32 (drop (size - 4) decoded) in
    if ltb max_decoded_frame_size size
    then err DecodeError.too_long
    else if ltb size (wire_header_length + 4)
    then err DecodeError.too_short
    else if not (get32 decoded == protocol_magic)
    then err DecodeError.magic
    else if not (byte_at decoded 4 == protocol_version)
    then err DecodeError.version
    else if not (known_type (byte_at decoded 5))
    then err DecodeError.type
    else if not (header_length == wire_header_length)
        || not (header_length + payload_length + 4 == size)
    then err DecodeError.length
    else if not (crc32c (take (size - 4) decoded) == expected_crc)
    then err DecodeError.crc
    else ok (fill_event decoded header_length payload_length)

unfoldable pub decode_wire_event : List ℕ → Decoded
decode_wire_event bytes = elim (cobs_decode bytes) [
  | none ↦ err DecodeError.cobs
  | some decoded ↦ parse_frame decoded
]
