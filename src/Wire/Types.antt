-- ===== src/Wire/Types.antt =====
-- The data types of wire_protocol.h.
use Prim.Native.Nat.{ℕ}
use mathlib.Core.List.{List}
use mathlib.Core.Bool.{Bool}

abbrev pub protocol_magic : ℕ
protocol_magic = 0x31544c53

abbrev pub protocol_version : ℕ
protocol_version = 1

abbrev pub wire_header_length : ℕ
wire_header_length = 44

abbrev pub max_decoded_frame_size : ℕ
max_decoded_frame_size = 512

pub data MessageType : Type 0 where
  boot local_pps_output camera_trigger gnss_pps_capture status error : MessageType

-- `static_cast<uint8_t>(type)`
abbrev pub type_code : MessageType → ℕ
type_code boot = 1
type_code local_pps_output = 2
type_code camera_trigger = 3
type_code gnss_pps_capture = 4
type_code status = 5
type_code error = 6

-- The errors of `DecodeError`. Its NONE is the constructor `ok` of `Decoded`.
pub data DecodeError : Type 0 where
  cobs too_long too_short magic version type length crc : DecodeError

pub record WireEvent : Type 0 where
  pub protocol_version : ℕ
  pub message_type : MessageType
  pub flags : ℕ
  pub mcu_boot_id : ℕ
  pub event_sequence : ℕ
  pub source_sequence : ℕ
  pub local_tick : ℕ
  pub local_stamp_ns : ℕ
  pub local_tick_hz : ℕ
  pub mcu_dropped_event_count : ℕ
  pub payload : List ℕ

-- What `decodeWireEvent` returns, with the event that it fills in.
pub data Decoded : Type 0 where
  ok : WireEvent → Decoded
  err : DecodeError → Decoded

pub record QueuedWireEvent : Type 0 where
  pub event : WireEvent
  pub host_monotonic_ns : ℕ

pub record SequenceResult : Type 0 where
  pub accept : Bool
  pub duplicate : Bool
  pub old : Bool
  pub gap : ℕ
