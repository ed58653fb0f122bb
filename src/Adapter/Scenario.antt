-- ===== src/Adapter/Scenario.antt =====
-- Messages, a configuration and an adapter to run the code on.
use fast_livo_ug.Base.{ℕ, ◌*◌, ◌^◌, List, [], ◌∷◌, map, true, false, pos}
use fast_livo_ug.Float.{Float}
use fast_livo_ug.Float.Fixed.{fixed}
use fast_livo_ug.Adapter.{GnssAdapterConfig, GnssAdapter, GnssAdapterResult, Pvt, PvtFields}
use fast_livo_ug.Adapter.Average.{first_fixed}
use fast_livo_ug.Adapter.Config.{GnssFusionPolicy, stamped_local}
use fast_livo_ug.Adapter.Stages.{new_adapter}
use fast_livo_ug.Adapter.Calls.{Message, stamped, process_all}

abbrev pub d : ℕ → Float.Double fixed
d n = Float.double fixed n

abbrev pub config : GnssAdapterConfig fixed
config = record {
  enable = true;
  input_mode = stamped_local;
  input_topic = b'p' ∷ [];
  output_odom_topic = b'o' ∷ [];
  output_status_topic = b's' ∷ [];
  publish_local_enu_odometry = true;
  pose_input_quality = pos 3;
  pose_input_num_sv = pos 0;
  gnss_pose_covariance_authoritative = false;
  origin_mode = first_fixed;
  origin_lla = record { x = d 0; y = d 0; z = d 0 };
  origin_average_count = pos 30;
  origin_average_max_gap_s = d 2;
  min_num_sv = pos 10;
  max_num_sv = pos 100;
  max_pdop = d 3;
  max_h_acc_m = d 1;
  max_v_acc_m = d 1;
  max_vel_acc_mps = d 1;
  reject_nonpositive_pdop = true;
  reject_nonpositive_vel_acc = true;
  min_sigma_xy_m = d 1;
  min_sigma_z_m = d 1;
  max_sigma_xy_m = d 2;
  max_sigma_z_m = d 3;
  min_sigma_vel_mps = d 1;
  fixed_confirm_count = pos 2;
  fixed_lost_count = pos 2;
  recovery_confirm_count = pos 3;
  max_time_gap_s = d 5;
  require_monotonic_time = true;
  accept_rtk_fixed = true;
  accept_rtk_float = false;
  accept_differential = false;
  accept_single = false;
  frame_id = b'm' ∷ [];
  child_frame_id = b'g' ∷ [];
  log_interval_s = d 1;
}

abbrev pub fields : PvtFields fixed
fields = record {
  num_sv = 20;
  latitude = d 22;
  longitude = d 114;
  altitude = d 40;
  height_msl = d 42;
  h_acc = Float.decimal fixed 2 2;
  v_acc = Float.decimal fixed 3 2;
  p_dop = d 1;
  vel_n = d 1;
  vel_e = d 0;
  vel_d = d 0;
  vel_acc = Float.decimal fixed 1 1;
}

-- A fixed solution at a time of week.
abbrev pub solution : ℕ → Pvt fixed
solution tow = record {
  week = 2200;
  tow = d tow;
  fix_type = 3;
  valid_fix = true;
  diff_soln = true;
  carr_soln = 2;
  rest = fields;
}

abbrev pub second : ℕ
second = 10 ^ 9

-- The message of the n-th second.
abbrev pub at_second : ℕ → Message fixed
at_second n = stamped (record {
  stamp = n * second;
  session_id = 1;
  writer_epoch = 1;
  pvt = solution n;
  local_measurement_time_valid = true;
  valid_for_fusion = true;
})

abbrev pub policy : GnssFusionPolicy
policy = record { managed = false; enabled = false }

abbrev pub from_sec : Float.Double fixed → ℕ
from_sec x = x.units

abbrev pub start : GnssAdapter fixed
start = new_adapter config

abbrev pub run : List ℕ → GnssAdapter fixed × List (GnssAdapterResult fixed)
run seconds = process_all from_sec (map at_second seconds) start
