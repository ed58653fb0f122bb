-- ===== src/Mapping/Types.antt =====
-- The data types of time_mapping.h.
use fast_livo_ug.Base.{ℕ, ◌-◌, ◌^◌, Bool, false}
use fast_livo_ug.Float.{Float}

pub data TimeState : Type 0 where
  local_only acquiring locked holdover relocking invalid : TimeState

abbrev pub state_code : TimeState → ℕ
state_code local_only = 0
state_code acquiring = 1
state_code locked = 2
state_code holdover = 3
state_code relocking = 4
state_code invalid = 5

pub record TimePair : Type 0 where
  pub local_ns : ℕ
  pub utc_ns : ℕ
  pub uncertainty_ns : ℕ

abbrev pub zero_pair : TimePair
zero_pair = record { local_ns = 0; utc_ns = 0; uncertainty_ns = 0 }

-- `std::numeric_limits<uint64_t>::max()`
abbrev pub uint64_max : ℕ
uint64_max = 2 ^ 64 - 1

pub record MappingParameters (F : Float) : Type 0 where
  pub mapping_window_size : ℕ
  pub min_pps_pairs : ℕ
  pub min_fit_span_ns : ℕ
  pub max_pps_residual_ns : F.Double
  pub max_scale_ppm : F.Double
  pub pps_timeout_ns : ℕ
  pub holdover_invalid_timeout_ns : ℕ
  pub relock_confirm_count : ℕ
  pub max_pair_interval_error_ns : ℕ
  pub max_relock_step_ns : ℕ
  pub mapping_history_size : ℕ
  pub holdover_uncertainty_growth_ns_per_s : F.Double

pub record AffineMapping (F : Float) : Type 0 where
  pub valid : Bool
  pub local_reference_ns : ℕ
  pub utc_reference_ns : ℕ
  pub utc_ns_per_local_ns : F.Double
  pub slope_ppm : F.Double
  pub valid_from_local_ns : ℕ
  pub fit_span_ns : ℕ
  pub sample_count : ℕ
  pub residual_rms_ns : F.Double
  pub residual_max_ns : F.Double
  pub time_uncertainty_ns : ℕ

pub record MappingSnapshot (F : Float) : Type 0 where
  pub version : ℕ
  pub mapping : AffineMapping F

-- `AffineMapping{}`
abbrev pub no_mapping : (F : Float) → AffineMapping F
no_mapping F = record {
  valid = false;
  local_reference_ns = 0;
  utc_reference_ns = 0;
  utc_ns_per_local_ns = F.decimal 1 0;
  slope_ppm = F.decimal 0 0;
  valid_from_local_ns = 0;
  fit_span_ns = 0;
  sample_count = 0;
  residual_rms_ns = F.decimal 0 0;
  residual_max_ns = F.decimal 0 0;
  time_uncertainty_ns = 0;
}
