-- ===== src/Adapter/Pose.antt =====
-- `process` of a pose with its covariance.
use fast_livo_ug.Base.{
  ℕ, [], Option, none, some, true, false, not, ◌&&◌, ◌||◌, ltb, leb, ◌==◌, ℤ, pos, negsuc, to_word,
  get_or, if◌then◌else◌,
}
use fast_livo_ug.Float.{Float}
use fast_livo_ug.Gnss.Geodesy.{finite_vector}
use fast_livo_ug.Adapter
use fast_livo_ug.Adapter.{
  GnssQuality, rtk_fixed, same_quality, GnssAdapterConfig, Reason, TrackingState, waiting, lost,
  Tracking, Origin, GnssAdapter, Pvt, GnssPvtStamped, PoseMessage, GnssStatus, Odometry,
  AverageNote, GnssAdapterResult, Warning, new_note, quality_code,
}
use fast_livo_ug.Adapter.Average.{distance, timestamp_tolerance_ns, zero_vector}
use fast_livo_ug.Adapter.Quality.{quality_accepted}
use fast_livo_ug.Adapter.Output.{maximum, set_orientation_variance, zeros}

-- `static_cast<GnssQuality>` of the configuration's number; `validateConfig` admits 1 to 4.
unfoldable pub pose_quality : ℤ → GnssQuality
pose_quality (pos n) =
    if n == 1
    then Adapter.single
    else if n == 2
    then Adapter.differential
    else if n == 3
    then Adapter.rtk_float
    else if n == 4
    then rtk_fixed
    else if n == 5
    then GnssQuality.recovering
    else Adapter.invalid
pose_quality (negsuc n) = Adapter.invalid

module _ {F : Float} where
  open F use {Double, decimal, le, sqrt, is_finite}

  abbrev covariance_at : PoseMessage F → ℕ → Double
  covariance_at m i = get_or m.covariance i (decimal 0 0)

  -- The guards of `process` of a pose, in order.
  unfoldable pub pose_defect : GnssAdapter F → PoseMessage F → Option Reason
  pose_defect a m =
      let x = covariance_at m 0 in
      let y = covariance_at m 7 in
      let z = covariance_at m 14 in
      let last = a.last_measurement_time_ns in
      if not a.config.enable
      then some Adapter.adapter_disabled
      else if m.stamp == 0
      then some Adapter.zero_measurement_timestamp
      else if not (finite_vector F m.position)
      then some Adapter.invalid_enu_position
      else if not (is_finite x)
          || not (is_finite y)
          || not (is_finite z)
          || le x (decimal 0 0)
          || le y (decimal 0 0)
          || le z (decimal 0 0)
      then some Adapter.invalid_position_covariance
      else if a.have_last_measurement_time && leb (distance m.stamp last) timestamp_tolerance_ns
      then some Adapter.duplicate_gnss_time
      else if a.have_last_measurement_time && ltb m.stamp last && a.config.require_monotonic_time
      then some Adapter.non_monotonic_time
      else none

  unfoldable pub pose_status : GnssAdapterConfig F → PoseMessage F → GnssStatus F
  pose_status c m = record {
    stamp = m.stamp;
    frame_id = c.frame_id;
    raw_quality = Adapter.invalid;
    filtered_quality = Adapter.invalid;
    valid_fix = false;
    diff_soln = false;
    fix_type = 0;
    carr_soln = 0;
    num_sv = to_word 8 c.pose_input_num_sv;
    h_acc = decimal 0 0;
    v_acc = decimal 0 0;
    p_dop = decimal 0 0;
    vel_acc = decimal 0 0;
    origin_initialized = true;
    accepted = false;
    covariance_authoritative = c.gnss_pose_covariance_authoritative;
    consecutive_fixed_count = 0;
    consecutive_lost_count = 0;
    reject_reason = none;
  }

  unfoldable pub pose_odometry : GnssAdapterConfig F → PoseMessage F → Odometry F
  pose_odometry c m = record {
    stamp = m.stamp;
    frame_id = c.frame_id;
    child_frame_id = c.child_frame_id;
    position = m.position;
    orientation = zero_vector;
    orientation_w = decimal 1 0;
    pose_covariance = m.covariance;
    velocity = zero_vector;
    twist_covariance = set_orientation_variance F (zeros F 36);
  }

  abbrev pub pose_result : GnssStatus F → Option (Odometry F) → GnssAdapterResult F
  pose_result s o = record {
    status = s;
    odometry = o;
    origin_initialized_now = false;
    average = new_note;
    warnings = [];
  }

  -- `process` of a pose behind its guards.
  unfoldable pub accept_pose : GnssAdapterConfig F → PoseMessage F → GnssAdapterResult F
  unfolding pose_status pose_odometry
  accept_pose c m =
      let quality = pose_quality c.pose_input_quality in
      let status : GnssStatus F = record (pose_status c m) {
        raw_quality = quality;
        filtered_quality = quality;
        valid_fix = true;
        diff_soln = not (same_quality quality Adapter.single);
        fix_type = 3;
        carr_soln =
            if same_quality quality rtk_fixed
            then 2
            else if same_quality quality Adapter.rtk_float
            then 1
            else 0;
        h_acc = sqrt (maximum F (covariance_at m 0) (covariance_at m 7));
        v_acc = sqrt (covariance_at m 14);
      } in
      if quality_accepted c quality
      then pose_result (record status { accepted = true }) (some (pose_odometry c m))
      else pose_result (record status { reject_reason = some Adapter.quality_not_enabled }) none

  -- `process` of a pose.
  unfoldable pub process_pose : PoseMessage F → GnssAdapter F → GnssAdapter F × GnssAdapterResult F
  unfolding pose_defect accept_pose
  process_pose m a = elim (pose_defect a m) [
    | some reason ↦
        (a, pose_result (record (pose_status a.config m) { reject_reason = some reason }) none)
    | none ↦ (
      record a { have_last_measurement_time = true; last_measurement_time_ns = m.stamp },
      accept_pose a.config m,
    )
  ]
