-- ===== src/Adapter/Measure.antt =====
-- `processPvt` behind its look at the time: the quality, the position, the origin and the answer.
use fast_livo_ug.Base.{ℕ, [], Option, none, some, Bool, true, false, not, ◌&&◌, ◌||◌, if◌then◌else◌}
use fast_livo_ug.Float.{Float}
use fast_livo_ug.Gnss.Geodesy.{Vector3, finite_vector, geodetic_to_ecef, ecef_delta_to_enu}
use fast_livo_ug.Adapter
use fast_livo_ug.Adapter.{
  GnssQuality, rtk_fixed, same_quality, GnssAdapterConfig, Reason, TrackingState, waiting, lost,
  Tracking, Origin, GnssAdapter, Pvt, GnssPvtStamped, PoseMessage, GnssStatus, Odometry,
  AverageNote, GnssAdapterResult, Warning, new_note, quality_code,
}
use fast_livo_ug.Adapter.FixedState.{limits, update_fixed_state}
use fast_livo_ug.Adapter.Average.{zero_vector, mark_origin_average_skip, update_origin}
use fast_livo_ug.Adapter.Quality.{classify, failed_gate, gate_warnings, quality_accepted}
use fast_livo_ug.Adapter.Output.{fill_odometry}
use fast_livo_ug.Adapter.Stages.{pvt_status}

-- The tracking after a gap in time.
unfoldable pub gap_tracking : Tracking → Tracking
gap_tracking t = record t {
  tracking_state = if t.was_active_once then lost else waiting;
  consecutive_fixed_count = 0;
  consecutive_lost_count = 0;
}

-- `filtered_quality`, before the look at the position.
unfoldable pub filter_quality : GnssQuality → GnssQuality → Bool → GnssQuality
filter_quality raw fixed_state gates_passed =
    if same_quality raw rtk_fixed
    then fixed_state
    else if same_quality fixed_state rtk_fixed || same_quality fixed_state GnssQuality.recovering
    then fixed_state
    else if not (same_quality raw Adapter.invalid) && gates_passed
    then raw
    else Adapter.invalid

-- What `processPvt` finds out about a measurement, before it looks at the origin.
pub record Finding (F : Float) : Type 0 where
  pub raw_quality : GnssQuality
  pub fixed_state_quality : GnssQuality
  pub filtered_quality : GnssQuality
  pub gates_passed : Bool
  pub fixed_measurement_usable : Bool
  pub lla : Vector3 F
  pub ecef : Vector3 F
  pub reject_reason : Option Reason

module _ {F : Float} where
  open F use {sub}

  unfoldable pub find_position : GnssAdapterConfig F → Pvt F → Finding F → Finding F
  find_position c m f =
      let lla : Vector3 F = record {
        x = m.rest.latitude;
        y = m.rest.longitude;
        z = m.rest.altitude;
      } in
      let ecef = geodetic_to_ecef F lla in
      let located : Finding F = record f { lla = lla; ecef = ecef } in
      if not c.publish_local_enu_odometry || same_quality f.raw_quality Adapter.invalid
      then f
      else if finite_vector F ecef
      then located
      else record located {
        gates_passed = false;
        fixed_measurement_usable = false;
        filtered_quality = Adapter.invalid;
        reject_reason = some Adapter.invalid_ecef_result;
      }

  -- The finding, with the quality that `updateFixedState` has given.
  unfoldable pub find : GnssAdapterConfig F → Pvt F → GnssQuality → Finding F
  unfolding filter_quality find_position
  find c m fixed_state =
      let (raw, reason) = classify c m in
      let gate = failed_gate c m.rest in
      let gates_passed =
        not (same_quality raw Adapter.invalid) && elim gate [ none ↦ true | some r ↦ false ] in
      find_position c m (record {
        raw_quality = raw;
        fixed_state_quality = fixed_state;
        filtered_quality = filter_quality raw fixed_state gates_passed;
        gates_passed = gates_passed;
        fixed_measurement_usable = same_quality raw rtk_fixed && gates_passed;
        lla = zero_vector;
        ecef = zero_vector;
        reject_reason = if same_quality raw Adapter.invalid then reason else gate;
      })

  -- `current_quality_enabled`
  unfoldable pub quality_enabled : GnssAdapterConfig F → Finding F → Bool
  quality_enabled c f =
      if same_quality f.raw_quality rtk_fixed
      then f.fixed_measurement_usable
        && same_quality f.fixed_state_quality rtk_fixed
        && c.accept_rtk_fixed
      else if not (same_quality f.raw_quality Adapter.invalid)
      then f.gates_passed
        && quality_accepted c f.raw_quality
        && not (same_quality f.fixed_state_quality GnssQuality.recovering)
      else false

  -- `updateOrigin`, where `processPvt` calls it.
  unfoldable pub find_origin :
      GnssAdapterConfig F
      → Finding F
      → ℕ
      → Origin F
      → AverageNote F
      → Origin F × AverageNote F × Bool
  find_origin c f now o n =
      if c.publish_local_enu_odometry && f.fixed_measurement_usable
      then update_origin c f.fixed_state_quality f.lla f.ecef now o n
      else (o, n, false)

  -- The reason of a measurement that is not accepted.
  unfoldable pub final_reason : Bool → Bool → Bool → Finding F → Option Reason
  final_reason time_gap enabled origin_initialized f =
      if time_gap then some Adapter.time_gap_too_large else elim f.reject_reason [
        | some r ↦ some r
        | none ↦
            if same_quality f.fixed_state_quality GnssQuality.recovering
            then some Adapter.gnss_recovering
            else if same_quality f.raw_quality rtk_fixed
                && same_quality f.filtered_quality Adapter.invalid
            then some Adapter.rtk_not_confirmed
            else if not enabled
            then some Adapter.quality_not_enabled
            else if not origin_initialized
            then some Adapter.origin_not_initialized
            else none
      ]

  -- The odometry of a measurement that is accepted so far; `none` is a position that is not finite.
  unfoldable pub local_odometry :
      GnssAdapterConfig F → Pvt F → ℕ → Origin F → Finding F → Option (Odometry F)
  local_odometry c m stamp o f =
      let delta : Vector3 F = record {
        x = sub f.ecef.x o.origin_ecef.x;
        y = sub f.ecef.y o.origin_ecef.y;
        z = sub f.ecef.z o.origin_ecef.z;
      } in
      let enu = ecef_delta_to_enu F o.origin_lla delta in
      if finite_vector F enu then some (fill_odometry F c m stamp enu) else none

  -- The end of `processPvt`: the answer to a finding.
  unfoldable pub answer :
      GnssAdapterConfig F
      → Pvt F
      → ℕ
      → Bool
      → Tracking
      → Origin F
      → Finding F
      → GnssStatus F × Option (Odometry F)
  unfolding quality_enabled local_odometry final_reason
  answer c m stamp time_gap t o f =
      let origin_initialized = not c.publish_local_enu_odometry || o.origin_initialized in
      let enabled = quality_enabled c f in
      let status : GnssStatus F = record (pvt_status c m stamp) {
        raw_quality = f.raw_quality;
        filtered_quality = f.filtered_quality;
        origin_initialized = origin_initialized;
        consecutive_fixed_count = t.consecutive_fixed_count;
        consecutive_lost_count = t.consecutive_lost_count;
      } in
      let accepted : GnssStatus F = record status {
        accepted = true;
        reject_reason = f.reject_reason;
      } in
      let refused : GnssStatus F = record status {
        reject_reason = final_reason time_gap enabled o.origin_initialized f;
      } in
      let off : GnssStatus F = record status { reject_reason = some Adapter.invalid_enu_result } in
      if not (enabled && origin_initialized && not time_gap)
      then (refused, none)
      else if not c.publish_local_enu_odometry
      then (accepted, none)
      else elim (local_odometry c m stamp o f) [
        | none ↦ (off, none)
        | some odometry ↦ (accepted, some odometry)
      ]

  -- The tracking behind `updateFixedState`, and what that returns.
  abbrev pub track : Bool → Pvt F → GnssAdapter F → Tracking × GnssQuality
  track time_gap m a =
      let tracking = if time_gap then gap_tracking a.tracking else a.tracking in
      update_fixed_state (limits a.config) tracking (same_quality (classify a.config m).0 rtk_fixed)

  -- `processPvt` behind its look at the time.
  unfoldable pub measure :
      Bool → Pvt F → ℕ → GnssAdapter F → AverageNote F → GnssAdapter F × GnssAdapterResult F
  unfolding gap_tracking find find_origin answer
  measure time_gap m stamp a n =
      let (t, fixed_state) = track time_gap m a in
      let f = find a.config m fixed_state in
      let (o, n', now) = find_origin a.config f stamp a.origin n in
      let (status, odometry) = answer a.config m stamp time_gap t o f in
      (
        record a {
          tracking = t;
          origin = o;
          have_last_measurement_time = true;
          last_measurement_time_ns = stamp;
        },
        record {
          status = status;
          odometry = odometry;
          origin_initialized_now = now;
          average = mark_origin_average_skip a.config o status.reject_reason n';
          warnings =
              if same_quality f.raw_quality Adapter.invalid
              then []
              else gate_warnings a.config m.rest;
        },
      )
