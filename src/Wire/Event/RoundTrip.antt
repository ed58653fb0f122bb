-- ===== src/Wire/Event/RoundTrip.antt =====
-- `decodeWireEvent` on what `encodeWireEvent` wrote.
use fast_livo_ug.Base.{
  ℕ, ◌+◌, ◌-◌, ◌≡◌, refl, sym, ap, ◌∙◌, List, [], arith, true, length, take, drop, All,
  take-append_length, drop-append_length,
}
use fast_livo_ug.Wire.Types.{
  WireEvent, wire_header_length, MessageType, boot, local_pps_output, camera_trigger,
  gnss_pps_capture, status, error, type_code, ok,
}
use fast_livo_ug.Wire.Bytes.{IsByte, get32}
use fast_livo_ug.Wire.Bytes.RoundTrip.{le_bytes, le_bytes-IsByte, get32-le_bytes}
use fast_livo_ug.Wire.Crc.{crc32c}
use fast_livo_ug.Wire.Crc.Detect.{crc32c-IsU32}
use fast_livo_ug.Wire.Cobs.{cobs_encode}
use fast_livo_ug.Wire.Cobs.RoundTrip.{cobs_decode-cobs_encode}
use fast_livo_ug.Wire.Event.{
  frame, known_type, message_type_of, source_sequence_of, dropped_count_of, fill_event, parse_frame,
  decode_wire_event,
}
use fast_livo_ug.Wire.Event.Layout
use fast_livo_ug.Wire.Event.Layout.{IsEvent, layout}
use fast_livo_ug.Wire.Event.Checks.{IsFrame, parse_frame-ok}

-- The event that the receiver sees: two fields are taken from the payload.
unfoldable pub received : WireEvent → WireEvent
received e = record e {
  source_sequence = source_sequence_of e.payload;
  mcu_dropped_event_count = dropped_count_of e.message_type e.payload;
}

known_type-type_code : (t : MessageType) → known_type (type_code t) ≡ true
unfolding known_type
known_type-type_code boot = refl
known_type-type_code local_pps_output = refl
known_type-type_code camera_trigger = refl
known_type-type_code gnss_pps_capture = refl
known_type-type_code status = refl
known_type-type_code error = refl

message_type_of-type_code : (t : MessageType) → message_type_of (type_code t) ≡ t
unfolding message_type_of
message_type_of-type_code boot = refl
message_type_of-type_code local_pps_output = refl
message_type_of-type_code camera_trigger = refl
message_type_of-type_code gnss_pps_capture = refl
message_type_of-type_code status = refl
message_type_of-type_code error = refl

module _ {e : WireEvent} (v : IsEvent e) (rest : List ℕ) (bytes : All IsByte rest) where
  fill_event-layout : fill_event (layout e rest) wire_header_length (length e.payload) ≡ received e
  unfolding fill_event layout received
  fill_event-layout = rw (
    Layout.flags_read v rest bytes,
    Layout.boot_id_read v rest bytes,
    Layout.sequence_read v rest bytes,
    Layout.tick_read v rest bytes,
    Layout.stamp_read v rest bytes,
    Layout.tick_hz_read v rest bytes,
    take-append_length e.payload rest,
    message_type_of-type_code e.message_type,
  )

  size-sub : length rest ≡ 4 → length (layout e rest) - 4 ≡ length (layout e [])
  size-sub h = omega (arith, Layout.length-layout e rest, Layout.length-layout e [])

  body_read : length rest ≡ 4 → take (length (layout e rest) - 4) (layout e rest) ≡ layout e []
  body_read h =
      ap (λ (n : ℕ). take n (layout e rest)) (size-sub h)
      ∙ ap (take (length (layout e []))) (sym (Layout.layout-append e rest))
      ∙ take-append_length (layout e []) rest

  crc_read : length rest ≡ 4 → drop (length (layout e rest) - 4) (layout e rest) ≡ rest
  crc_read h =
      ap (λ (n : ℕ). drop n (layout e rest)) (size-sub h)
      ∙ ap (drop (length (layout e []))) (sym (Layout.layout-append e rest))
      ∙ drop-append_length (layout e []) rest

module _ {e : WireEvent} (v : IsEvent e) where
  abbrev tail : List ℕ
  tail = le_bytes 4 (crc32c (layout e []))

  tail-IsByte : All IsByte tail
  tail-IsByte = le_bytes-IsByte 4 (crc32c (layout e [])) [] tt

  layout-IsFrame : IsFrame (layout e tail)
  layout-IsFrame =
      let size = Layout.length-layout e tail in
      let bytes = tail-IsByte in
      record {
        long = omega (arith, size);
        short = omega (arith, size, v.size);
        magic = Layout.magic_read v tail bytes;
        version = unfold layout in v.version;
        type = unfold layout in known_type-type_code e.message_type;
        header = Layout.header_length_read v tail bytes;
        payload = omega (arith, size, Layout.payload_length_read v tail bytes);
        crc =
            ap crc32c (body_read v tail bytes refl)
            ∙ sym (
                ap get32 (crc_read v tail bytes refl)
                ∙ get32-le_bytes (crc32c (layout e [])) [] (crc32c-IsU32 (layout e [])) tt);
      }

  frame-tail : frame e ≡ layout e tail
  frame-tail =
      Layout.frame-layout e
      ∙ ap (λ b. layout e (le_bytes 4 (crc32c b))) (Layout.frame_body-layout e)

  pub parse_frame-frame : parse_frame (frame e) ≡ ok (received e)
  parse_frame-frame =
      ap parse_frame frame-tail
      ∙ parse_frame-ok (layout e tail) layout-IsFrame
      ∙ ap (λ (n : ℕ). ok (fill_event (layout e tail) wire_header_length n))
          (Layout.payload_length_read v tail tail-IsByte)
      ∙ ap ok (fill_event-layout v tail tail-IsByte)

  pub frame-IsByte : All IsByte (frame e)
  frame-IsByte = rw frame-tail (Layout.layout-IsByte v tail tail-IsByte)

  pub length-frame : length (frame e) ≡ 48 + length e.payload
  length-frame = rw frame-tail (omega (arith, Layout.length-layout e tail))

-- decodeWireEvent reads back from the encoded frame every event that fits it (IsEvent: the version
-- of the protocol, fields and bytes in range, at most 464 bytes of payload); two fields are those
-- that the payload determines.
pub decode_wire_event-encode :
    {e : WireEvent} → IsEvent e → decode_wire_event (cobs_encode (frame e)) ≡ ok (received e)
unfolding decode_wire_event
decode_wire_event-encode {e} v =
    rw (cobs_decode-cobs_encode (frame e), decode_wire_event) (parse_frame-frame v)
