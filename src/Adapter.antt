-- ===== src/Adapter.antt =====
-- `GnssAdapter` of src/FAST_LIVO2/src/gnss_adapter.cpp and its header: its configuration, its state,
-- the messages it takes and what it gives for one. A time is a number of nanoseconds, 0 is `isZero`.
pub mod FixedState
pub mod Average
pub mod Quality
pub mod Output
pub mod Stages
pub mod Config
pub mod Tracked
pub mod Confirmation
pub mod Measure
pub mod Process
pub mod Pose
pub mod Calls
pub mod Invariant
pub mod Kept
pub mod Locked
pub mod Sound
pub mod Accepted
pub mod Ordered
pub mod Spaced
pub mod Unfixed
pub mod Degraded
mod Scenario
mod Tests
use fast_livo_ug.Base.{ℕ, List, [], Option, none, Bool, false, ℤ, ◌==◌}
use fast_livo_ug.Float.{Float}
use fast_livo_ug.Gnss.{GnssPvtSolnMsg}
use fast_livo_ug.Gnss.Geodesy.{Vector3}

pub data GnssQuality : Type 0 where
  invalid single differential rtk_float rtk_fixed recovering : GnssQuality

unfoldable pub quality_code : GnssQuality → ℕ
quality_code invalid = 0
quality_code single = 1
quality_code differential = 2
quality_code rtk_float = 3
quality_code rtk_fixed = 4
quality_code recovering = 5

abbrev pub same_quality : GnssQuality → GnssQuality → Bool
same_quality a b = quality_code a == quality_code b

pub record GnssAdapterConfig (F : Float) : Type 0 where
  pub enable : Bool
  pub input_mode : List ℕ
  pub input_topic : List ℕ
  pub output_odom_topic : List ℕ
  pub output_status_topic : List ℕ
  pub publish_local_enu_odometry : Bool
  pub pose_input_quality : ℤ
  pub pose_input_num_sv : ℤ
  pub gnss_pose_covariance_authoritative : Bool
  pub origin_mode : List ℕ
  pub origin_lla : Vector3 F
  pub origin_average_count : ℤ
  pub origin_average_max_gap_s : Float.Double F
  pub min_num_sv : ℤ
  pub max_num_sv : ℤ
  pub max_pdop : Float.Double F
  pub max_h_acc_m : Float.Double F
  pub max_v_acc_m : Float.Double F
  pub max_vel_acc_mps : Float.Double F
  pub reject_nonpositive_pdop : Bool
  pub reject_nonpositive_vel_acc : Bool
  pub min_sigma_xy_m : Float.Double F
  pub min_sigma_z_m : Float.Double F
  pub max_sigma_xy_m : Float.Double F
  pub max_sigma_z_m : Float.Double F
  pub min_sigma_vel_mps : Float.Double F
  pub fixed_confirm_count : ℤ
  pub fixed_lost_count : ℤ
  pub recovery_confirm_count : ℤ
  pub max_time_gap_s : Float.Double F
  pub require_monotonic_time : Bool
  pub accept_rtk_fixed : Bool
  pub accept_rtk_float : Bool
  pub accept_differential : Bool
  pub accept_single : Bool
  pub frame_id : List ℕ
  pub child_frame_id : List ℕ
  pub log_interval_s : Float.Double F

-- The texts of the reject, skip and reset reasons.
pub data Reason : Type 0 where
  invalid_latitude invalid_longitude invalid_ellipsoid_height invalid_msl_height : Reason
  invalid_position_accuracy invalid_p_dop invalid_velocity invalid_velocity_accuracy : Reason
  nonpositive_p_dop nonpositive_velocity_accuracy invalid_fix fix_type_below_3d : Reason
  unsupported_fix_type invalid_carrier_solution num_sv_too_low num_sv_out_of_range : Reason
  p_dop_too_large h_acc_too_large v_acc_too_large vel_acc_too_large invalid_gps_time : Reason
  adapter_disabled zero_measurement_timestamp local_measurement_time_invalid : Reason
  invalid_for_fusion duplicate_gnss_time non_monotonic_time invalid_ecef_result : Reason
  invalid_enu_result time_gap_too_large gnss_recovering rtk_not_confirmed : Reason
  quality_not_enabled origin_not_initialized invalid_enu_position : Reason
  invalid_position_covariance not_origin_candidate duplicate_origin_candidate : Reason
  time_regression valid_fixed_gap source_epoch_changed : Reason

pub data Warning : Type 0 where
  nonpositive_p_dop_ignored nonpositive_velocity_accuracy_ignored : Warning

pub data TrackingState : Type 0 where
  waiting active_fixed lost recovering : TrackingState

-- The members of the adapter that `updateFixedState` reads and writes.
pub record Tracking : Type 0 where
  pub tracking_state : TrackingState
  pub was_active_once : Bool
  pub consecutive_fixed_count : ℕ
  pub consecutive_lost_count : ℕ

-- The members of the adapter that belong to the origin.
pub record Origin (F : Float) : Type 0 where
  pub origin_initialized : Bool
  pub origin_lla : Vector3 F
  pub origin_ecef : Vector3 F
  pub origin_ecef_samples : List (Vector3 F)
  pub have_last_origin_candidate_time : Bool
  pub last_origin_candidate_time_ns : ℕ

pub record GnssAdapter (F : Float) : Type 0 where
  pub config : GnssAdapterConfig F
  pub tracking : Tracking
  pub have_last_measurement_time : Bool
  pub last_measurement_time_ns : ℕ
  pub have_source_identity : Bool
  pub last_session_id : ℕ
  pub last_writer_epoch : ℕ
  pub origin : Origin F

-- The fields of `gnss_comm::GnssPVTSolnMsg` behind those of `GnssPvtSolnMsg`.
pub record PvtFields (F : Float) : Type 0 where
  pub num_sv : ℕ
  pub latitude : Float.Double F
  pub longitude : Float.Double F
  pub altitude : Float.Double F
  pub height_msl : Float.Double F
  pub h_acc : Float.Double F
  pub v_acc : Float.Double F
  pub p_dop : Float.Double F
  pub vel_n : Float.Double F
  pub vel_e : Float.Double F
  pub vel_d : Float.Double F
  pub vel_acc : Float.Double F

abbrev pub Pvt : Float → Type 0
Pvt F = GnssPvtSolnMsg F (PvtFields F)

-- `gnss_serial_driver::GnssPvtStamped`, with the fields that the adapter reads.
pub record GnssPvtStamped (F : Float) : Type 0 where
  pub stamp : ℕ
  pub session_id : ℕ
  pub writer_epoch : ℕ
  pub pvt : Pvt F
  pub local_measurement_time_valid : Bool
  pub valid_for_fusion : Bool

-- `geometry_msgs::PoseWithCovarianceStamped`, less its orientation, which is overwritten.
pub record PoseMessage (F : Float) : Type 0 where
  pub stamp : ℕ
  pub position : Vector3 F
  pub covariance : List (Float.Double F)

-- `fast_livo::GnssStatus`; a reject reason of `none` is the empty text.
pub record GnssStatus (F : Float) : Type 0 where
  pub stamp : ℕ
  pub frame_id : List ℕ
  pub raw_quality : GnssQuality
  pub filtered_quality : GnssQuality
  pub valid_fix : Bool
  pub diff_soln : Bool
  pub fix_type : ℕ
  pub carr_soln : ℕ
  pub num_sv : ℕ
  pub h_acc : Float.Double F
  pub v_acc : Float.Double F
  pub p_dop : Float.Double F
  pub vel_acc : Float.Double F
  pub origin_initialized : Bool
  pub accepted : Bool
  pub covariance_authoritative : Bool
  pub consecutive_fixed_count : ℕ
  pub consecutive_lost_count : ℕ
  pub reject_reason : Option Reason

-- `nav_msgs::Odometry`; the orientation has x, y and z before w.
pub record Odometry (F : Float) : Type 0 where
  pub stamp : ℕ
  pub frame_id : List ℕ
  pub child_frame_id : List ℕ
  pub position : Vector3 F
  pub orientation : Vector3 F
  pub orientation_w : Float.Double F
  pub pose_covariance : List (Float.Double F)
  pub velocity : Vector3 F
  pub twist_covariance : List (Float.Double F)

-- The `origin_average_…` members of the result.
pub record AverageNote (F : Float) : Type 0 where
  pub accepted : Bool
  pub skipped : Bool
  pub was_reset : Bool
  pub count : ℕ
  pub old_count : ℕ
  pub gap_s : Float.Double F
  pub skip_reason : Option Reason
  pub reset_reason : Option Reason

-- `GnssAdapterResult`; an odometry of `none` is `publish_odometry = false`.
pub record GnssAdapterResult (F : Float) : Type 0 where
  pub status : GnssStatus F
  pub odometry : Option (Odometry F)
  pub origin_initialized_now : Bool
  pub average : AverageNote F
  pub warnings : List Warning

unfoldable pub new_note : {F : Float} → AverageNote F
new_note {F} = record {
  accepted = false;
  skipped = false;
  was_reset = false;
  count = 0;
  old_count = 0;
  gap_s = Float.decimal F 0 0;
  skip_reason = none;
  reset_reason = none;
}
