-- ===== src/Wire.antt =====
-- The serial wire protocol of the time bridge: sensor_time_bridge/src/wire_protocol.cpp and its
-- header, one child module for each part.
pub mod Bytes
pub mod Cobs
pub mod Crc
pub mod Types
pub mod Event
pub mod Decoder
pub mod Queue
pub mod Sequence
mod Tests
