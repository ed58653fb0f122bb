-- ===== src/Mapping.antt =====
-- sensor_time_bridge/src/time_mapping.cpp and time_mapping.h: the affine map from local time to
-- UTC, its fit, and the state machine that keeps it.
pub mod Types
pub mod Convert
pub mod Fit
pub mod Machine
pub mod Host
mod Tests
