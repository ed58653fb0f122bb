-- ===== src/Adapter/Process.antt =====
-- `processPvt` and the two `process` that call it. The lock is held for a whole call.
use fast_livo_ug.Base.{ℕ, Option, none, some, Bool, true, false, not, ◌==◌, if◌then◌else◌}
use fast_livo_ug.Float.{Float}
use fast_livo_ug.Gnss.{gps_to_utc_stamp_ns}
use fast_livo_ug.Adapter
use fast_livo_ug.Adapter.{
  GnssQuality, rtk_fixed, same_quality, GnssAdapterConfig, Reason, TrackingState, waiting, lost,
  Tracking, Origin, GnssAdapter, Pvt, GnssPvtStamped, PoseMessage, GnssStatus, Odometry,
  AverageNote, GnssAdapterResult, Warning, new_note, quality_code,
}
use fast_livo_ug.Adapter.Stages.{
  pvt_status, reject, check_source, check_regression, Timing, refused, timely, gap, check_time,
}
use fast_livo_ug.Adapter.Measure.{measure}

module _ {F : Float} where
  open F use {Double}

  unfoldable pub process_timed :
      Timing → Pvt F → ℕ → GnssAdapter F → AverageNote F → GnssAdapter F × GnssAdapterResult F
  unfolding measure
  process_timed (refused reason) m stamp a n = reject a n (pvt_status a.config m stamp) reason
  process_timed timely m stamp a n = measure false m stamp a n
  process_timed gap m stamp a n = measure true m stamp a n

  -- `processPvt` behind `check_source`.
  unfoldable pub process_checked :
      Bool → Bool → Pvt F → ℕ → GnssAdapter F → AverageNote F → GnssAdapter F × GnssAdapterResult F
  unfolding process_timed
  process_checked local_time_valid valid_for_fusion m stamp a n =
      let status = pvt_status a.config m stamp in
      let (a', n') = check_regression stamp a n in
      if not a.config.enable
      then reject a n status Adapter.adapter_disabled
      else if stamp == 0
      then reject a n status Adapter.zero_measurement_timestamp
      else if not local_time_valid
      then reject a n status Adapter.local_measurement_time_invalid
      else if not valid_for_fusion
      then reject a' n' status Adapter.invalid_for_fusion
      else process_timed (check_time stamp a') m stamp a' n'

  -- `processPvt`; a source of `none` is `source_identity_available = false`.
  unfoldable pub process_pvt :
      Bool → Bool → Option (ℕ × ℕ) → Pvt F → ℕ → GnssAdapter F → GnssAdapter F × GnssAdapterResult F
  unfolding process_checked
  process_pvt local_time_valid valid_for_fusion source m stamp a =
      let (a', n) = check_source source a new_note in
      process_checked local_time_valid valid_for_fusion m stamp a' n

  -- `process` of a stamped message.
  unfoldable pub process_stamped :
      GnssPvtStamped F → GnssAdapter F → GnssAdapter F × GnssAdapterResult F
  unfolding process_pvt
  process_stamped m a =
      process_pvt m.local_measurement_time_valid m.valid_for_fusion
        (some (m.session_id, m.writer_epoch)) m.pvt m.stamp a

  -- `process` of a message without a stamp. `from_sec` is `ros::Time::fromSec` with `toNSec`.
  unfoldable pub process_legacy :
      (Double → ℕ) → Pvt F → ℕ → GnssAdapter F → GnssAdapter F × GnssAdapterResult F
  unfolding process_pvt
  process_legacy from_sec m callback_time a = elim (gps_to_utc_stamp_ns F from_sec m.week m.tow) [
    | none ↦ reject a new_note (pvt_status a.config m callback_time) Adapter.invalid_gps_time
    | some stamp ↦ process_pvt true true none m stamp a
  ]
