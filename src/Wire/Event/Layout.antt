-- ===== src/Wire/Event/Layout.antt =====
-- Where `encodeWireEvent` puts each field of the frame, and where `decodeWireEvent` reads it.
use fast_livo_ug.Base.{
  ℕ, ◌+◌, ◌%◌, ◌^◌, ◌≤◌, ◌≡◌, ap, ◌∙◌, List, [], ◌∷◌, ◌++◌, arith, length, drop, All, All-append,
  All-drop, length-append, append-nil,
}
use fast_livo_ug.Wire.Types.{
  WireEvent, protocol_magic, protocol_version, wire_header_length, MessageType, boot,
  local_pps_output, camera_trigger, gnss_pps_capture, status, error, type_code,
}
use fast_livo_ug.Wire.Bytes.{IsByte, IsU16, IsU32, IsU64, get16, get32, get64}
use fast_livo_ug.Wire.Bytes.RoundTrip.{
  le_bytes, put16-le_bytes, put32-le_bytes, put64-le_bytes, get16-le_bytes, get32-le_bytes,
  get64-le_bytes,
}
use fast_livo_ug.Wire.Crc.{crc32c}
use fast_livo_ug.Wire.Event.{frame_body, frame}

-- What fits the fields of the frame, with a payload that fits the largest frame.
pub record IsEvent (e : WireEvent) : Type 0 where
  pub version : e.protocol_version ≡ protocol_version
  pub flags : IsU16 e.flags
  pub boot_id : IsU64 e.mcu_boot_id
  pub sequence : IsU32 e.event_sequence
  pub tick : IsU64 e.local_tick
  pub stamp : IsU64 e.local_stamp_ns
  pub tick_hz : IsU32 e.local_tick_hz
  pub payload : All IsByte e.payload
  pub size : length e.payload ≤ 464

abbrev header : WireEvent → List ℕ
header e =
    le_bytes 4 protocol_magic
    ++ (e.protocol_version
        ∷ (type_code e.message_type
            ∷ (le_bytes 2 wire_header_length
                ++ (le_bytes 2 (length e.payload % 2 ^ 16)
                    ++ (le_bytes 2 e.flags
                        ++ (le_bytes 8 e.mcu_boot_id
                            ++ (le_bytes 4 e.event_sequence
                                ++ (le_bytes 8 e.local_tick
                                    ++ (le_bytes 8 e.local_stamp_ns
                                        ++ le_bytes 4 e.local_tick_hz)))))))))

-- The header, then the payload, then `rest`.
unfoldable pub layout : WireEvent → List ℕ → List ℕ
layout e rest = header e ++ (e.payload ++ rest)

pub layout-append : (e : WireEvent) (rest : List ℕ) → layout e [] ++ rest ≡ layout e rest
unfolding layout
layout-append e rest = rw append-nil

pub frame_body-layout : (e : WireEvent) → frame_body e ≡ layout e []
unfolding frame_body layout
frame_body-layout e = simp (put16-le_bytes, put32-le_bytes, put64-le_bytes, append-nil)

pub frame-layout : (e : WireEvent) → frame e ≡ layout e (le_bytes 4 (crc32c (frame_body e)))
unfolding frame
frame-layout e =
    put32-le_bytes (frame_body e) (crc32c (frame_body e))
    ∙ ap (λ t. t ++ le_bytes 4 (crc32c (frame_body e))) (frame_body-layout e)
    ∙ layout-append e _

pub length-layout :
    (e : WireEvent) (rest : List ℕ) → length (layout e rest) ≡ 44 + length e.payload + length rest
unfolding layout
length-layout e rest = omega (arith, length-append e.payload rest)

type_code-IsByte : (t : MessageType) → IsByte (type_code t)
type_code-IsByte boot = omega arith
type_code-IsByte local_pps_output = omega arith
type_code-IsByte camera_trigger = omega arith
type_code-IsByte gnss_pps_capture = omega arith
type_code-IsByte status = omega arith
type_code-IsByte error = omega arith

header-IsByte : {e : WireEvent} → IsEvent e → All IsByte (header e)
header-IsByte {e} v = omega (arith, type_code-IsByte e.message_type)

module _ {e : WireEvent} (v : IsEvent e) (rest : List ℕ) (bytes : All IsByte rest) where
  pub layout-IsByte : All IsByte (layout e rest)
  unfolding layout
  layout-IsByte =
      All-append IsByte (header e) (e.payload ++ rest) (header-IsByte v)
        (All-append IsByte e.payload rest v.payload bytes)

  pub magic_read : get32 (layout e rest) ≡ protocol_magic
  unfolding layout
  magic_read =
      get32-le_bytes protocol_magic (drop 4 (layout e rest)) (omega arith)
        (All-drop IsByte 4 (layout e rest) layout-IsByte)

  pub header_length_read : get16 (drop 6 (layout e rest)) ≡ wire_header_length
  unfolding layout
  header_length_read =
      get16-le_bytes wire_header_length (drop 8 (layout e rest)) (omega arith)
        (All-drop IsByte 8 (layout e rest) layout-IsByte)

  pub payload_length_read : get16 (drop 8 (layout e rest)) ≡ length e.payload
  unfolding layout
  payload_length_read =
      get16-le_bytes (length e.payload % 2 ^ 16) (drop 10 (layout e rest)) (omega arith)
        (All-drop IsByte 10 (layout e rest) layout-IsByte)
      ∙ omega (arith, v.size)

  pub flags_read : get16 (drop 10 (layout e rest)) ≡ e.flags
  unfolding layout
  flags_read =
      get16-le_bytes e.flags (drop 12 (layout e rest)) v.flags
        (All-drop IsByte 12 (layout e rest) layout-IsByte)

  pub boot_id_read : get64 (drop 12 (layout e rest)) ≡ e.mcu_boot_id
  unfolding layout
  boot_id_read =
      get64-le_bytes e.mcu_boot_id (drop 20 (layout e rest)) v.boot_id
        (All-drop IsByte 20 (layout e rest) layout-IsByte)

  pub sequence_read : get32 (drop 20 (layout e rest)) ≡ e.event_sequence
  unfolding layout
  sequence_read =
      get32-le_bytes e.event_sequence (drop 24 (layout e rest)) v.sequence
        (All-drop IsByte 24 (layout e rest) layout-IsByte)

  pub tick_read : get64 (drop 24 (layout e rest)) ≡ e.local_tick
  unfolding layout
  tick_read =
      get64-le_bytes e.local_tick (drop 32 (layout e rest)) v.tick
        (All-drop IsByte 32 (layout e rest) layout-IsByte)

  pub stamp_read : get64 (drop 32 (layout e rest)) ≡ e.local_stamp_ns
  unfolding layout
  stamp_read =
      get64-le_bytes e.local_stamp_ns (drop 40 (layout e rest)) v.stamp
        (All-drop IsByte 40 (layout e rest) layout-IsByte)

  pub tick_hz_read : get32 (drop 40 (layout e rest)) ≡ e.local_tick_hz
  unfolding layout
  tick_hz_read =
      get32-le_bytes e.local_tick_hz (e.payload ++ rest) v.tick_hz
        (All-drop IsByte 44 (layout e rest) layout-IsByte)
