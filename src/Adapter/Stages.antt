-- ===== src/Adapter/Stages.antt =====
-- The constructor, and `processPvt` up to its look at the time of the message.
use fast_livo_ug.Base.{
  ℕ, ◌+◌, [], Option, none, some, true, false, not, ◌&&◌, ◌||◌, ltb, leb, ◌==◌, if◌then◌else◌,
}
use fast_livo_ug.Float.{Float}
use fast_livo_ug.Adapter
use fast_livo_ug.Adapter.{
  GnssQuality, rtk_fixed, same_quality, GnssAdapterConfig, Reason, TrackingState, waiting, lost,
  Tracking, Origin, GnssAdapter, Pvt, GnssPvtStamped, PoseMessage, GnssStatus, Odometry,
  AverageNote, GnssAdapterResult, Warning, new_note, quality_code,
}
use fast_livo_ug.Adapter.FixedState.{new_tracking}
use fast_livo_ug.Adapter.Average.{
  distance, elapsed_s, timestamp_tolerance_ns, average_origin_pending, mark_origin_average_skip,
  reset_origin_average, new_origin,
}

-- What the time of a message says, beside the time of the last one.
pub data Timing : Type 0 where
  refused : Reason → Timing
  timely gap : Timing

module _ {F : Float} where
  open F use {Double, decimal, sub, lt, le, sqrt, is_finite}

  -- The constructor with a configuration: `resetRuntimeState`.
  unfoldable pub new_adapter : GnssAdapterConfig F → GnssAdapter F
  unfolding new_origin
  new_adapter c = record {
    config = c;
    tracking = new_tracking;
    have_last_measurement_time = false;
    last_measurement_time_ns = 0;
    have_source_identity = false;
    last_session_id = 0;
    last_writer_epoch = 0;
    origin = new_origin c;
  }

  unfoldable pub pvt_status : GnssAdapterConfig F → Pvt F → ℕ → GnssStatus F
  pvt_status c m stamp = record {
    stamp = stamp;
    frame_id = c.frame_id;
    raw_quality = Adapter.invalid;
    filtered_quality = Adapter.invalid;
    valid_fix = m.valid_fix;
    diff_soln = m.diff_soln;
    fix_type = m.fix_type;
    carr_soln = m.carr_soln;
    num_sv = m.rest.num_sv;
    h_acc = m.rest.h_acc;
    v_acc = m.rest.v_acc;
    p_dop = m.rest.p_dop;
    vel_acc = m.rest.vel_acc;
    origin_initialized = false;
    accepted = false;
    covariance_authoritative = false;
    consecutive_fixed_count = 0;
    consecutive_lost_count = 0;
    reject_reason = none;
  }

  -- `reject_without_state_change`
  unfoldable pub reject :
      GnssAdapter F → AverageNote F → GnssStatus F → Reason → GnssAdapter F × GnssAdapterResult F
  reject a n s reason = (
    a,
    record {
      status = record s {
        raw_quality = Adapter.invalid;
        filtered_quality = Adapter.invalid;
        origin_initialized = a.origin.origin_initialized;
        accepted = false;
        consecutive_fixed_count = a.tracking.consecutive_fixed_count;
        consecutive_lost_count = a.tracking.consecutive_lost_count;
        reject_reason = some reason;
      };
      odometry = none;
      origin_initialized_now = false;
      average = mark_origin_average_skip a.config a.origin (some reason) n;
      warnings = [];
    },
  )

  -- The tracking starts again, with no last measurement.
  unfoldable pub restart :
      Reason → Double → GnssAdapter F → AverageNote F → GnssAdapter F × AverageNote F
  restart reason gap_s a n =
      let (o, n') = reset_origin_average a.config reason gap_s a.origin n in
      (
        record a {
          origin = o;
          tracking = new_tracking;
          have_last_measurement_time = false;
          last_measurement_time_ns = 0;
        },
        n',
      )

  -- A message that names its source.
  unfoldable pub check_source :
      Option (ℕ × ℕ) → GnssAdapter F → AverageNote F → GnssAdapter F × AverageNote F
  unfolding restart
  check_source none a n = (a, n)
  check_source (some (session_id, writer_epoch)) a n =
      let source_changed =
        a.have_source_identity
        && (not (session_id == a.last_session_id) || not (writer_epoch == a.last_writer_epoch)) in
      let (a', n') =
        if source_changed && average_origin_pending a.config a.origin
        then restart Adapter.source_epoch_changed (decimal 0 0) a n
        else (a, n) in
      (
        record a' {
          have_source_identity = true;
          last_session_id = session_id;
          last_writer_epoch = writer_epoch;
        },
        n',
      )

  -- A time before the last candidate of the average.
  unfoldable pub check_regression :
      ℕ → GnssAdapter F → AverageNote F → GnssAdapter F × AverageNote F
  unfolding restart
  check_regression now a n =
      let last = a.origin.last_origin_candidate_time_ns in
      if average_origin_pending a.config a.origin
        && a.origin.have_last_origin_candidate_time
        && ltb (now + timestamp_tolerance_ns) last
      then restart Adapter.time_regression (elapsed_s F now last) a n
      else (a, n)

  unfoldable pub check_time : ℕ → GnssAdapter F → Timing
  unfolding elapsed_s
  check_time now a =
      let delta_s = elapsed_s F now a.last_measurement_time_ns in
      if not a.have_last_measurement_time
      then timely
      else if leb (distance now a.last_measurement_time_ns) timestamp_tolerance_ns
      then refused Adapter.duplicate_gnss_time
      else if lt delta_s (decimal 0 0) && a.config.require_monotonic_time
      then refused Adapter.non_monotonic_time
      else if lt a.config.max_time_gap_s delta_s
      then gap
      else timely
