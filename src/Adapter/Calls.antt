-- ===== src/Adapter/Calls.antt =====
-- Any sequence of messages to one adapter, and what such a sequence keeps.
use fast_livo_ug.Base.{
  ℕ, List, [], ◌∷◌, Option, none, some, Bool, true, false, not, ◌&&◌, ◌||◌, ltb, ◌==◌, ◌+◌, ◌≡◌,
  refl, arith, if◌then◌else◌,
}
use fast_livo_ug.Float.{Float}
use fast_livo_ug.Gnss.{gps_to_utc_stamp_ns}
use fast_livo_ug.Adapter
use fast_livo_ug.Adapter.{
  GnssAdapter, Pvt, GnssPvtStamped, PoseMessage, AverageNote, GnssAdapterResult, Reason, new_note,
}
use fast_livo_ug.Adapter.Average.{average_origin_pending, timestamp_tolerance_ns}
use fast_livo_ug.Adapter.Stages.{
  reject, restart, check_source, check_regression, check_time, Timing, refused, timely, gap,
  pvt_status,
}
use fast_livo_ug.Adapter.Measure.{measure}
use fast_livo_ug.Adapter.Process.{
  process_timed, process_checked, process_pvt, process_stamped, process_legacy,
}
use fast_livo_ug.Adapter.Pose.{pose_defect, pose_status, pose_result, accept_pose, process_pose}

-- A message, with the time of its callback where that is read.
pub data Message (F : Float) : Type 0 where
  legacy : Pvt F → ℕ → Message F
  stamped : GnssPvtStamped F → Message F
  pose : PoseMessage F → Message F

module _ {F : Float} (from_sec : Float.Double F → ℕ) where
  unfoldable pub process : Message F → GnssAdapter F → GnssAdapter F × GnssAdapterResult F
  unfolding process_legacy process_stamped process_pose
  process (legacy m callback_time) a = process_legacy from_sec m callback_time a
  process (stamped m) a = process_stamped m a
  process (pose m) a = process_pose m a

  unfoldable pub process_all :
      List (Message F) → GnssAdapter F → GnssAdapter F × List (GnssAdapterResult F)
  process_all [] a = (a, [])
  process_all (m ∷ messages) a =
      let (b, result) = process m a in
      let (c, results) = process_all messages b in (c, result ∷ results)

all_of_three : (x y z : Bool) → x && y && z ≡ true → z ≡ true
all_of_three x y z h = ground arith

first_of_three : (x y z : Bool) → x && y && z ≡ true → x ≡ true
first_of_three x y z h = ground arith

-- What every step of a call keeps, a call keeps.
module _ {F : Float} (P : GnssAdapter F → Type 0)
    (restarts : (reason : Reason) (gap_s : Float.Double F) (a : GnssAdapter F) (n : AverageNote F)
      → average_origin_pending a.config a.origin ≡ true
      → P a
      → P (restart reason gap_s a n).0)
    (sources : (session_id writer_epoch : ℕ) (a : GnssAdapter F)
      → P a
      → P (record a {
        have_source_identity = true;
        last_session_id = session_id;
        last_writer_epoch = writer_epoch;
      }))
    (measures : (time_gap : Bool) (m : Pvt F) (stamp : ℕ) (a : GnssAdapter F) (n : AverageNote F)
      → P a
      → P (measure time_gap m stamp a n).0)
    (poses : (stamp : ℕ) (a : GnssAdapter F)
      → P a
      → P (record a { have_last_measurement_time = true; last_measurement_time_ns = stamp })) where
  pending_restart :
      (b : Bool) (reason : Reason) (gap_s : Float.Double F) (a : GnssAdapter F) (n : AverageNote F)
      → (b ≡ true → average_origin_pending a.config a.origin ≡ true)
      → P a
      → P (if b then restart reason gap_s a n else (a, n)).0
  pending_restart true reason gap_s a n h p = restarts reason gap_s a n (h refl) p
  pending_restart false reason gap_s a n h p = p

  check_source_keeps :
      (source : Option (ℕ × ℕ)) (a : GnssAdapter F) (n : AverageNote F)
      → P a
      → P (check_source source a n).0
  unfolding check_source
  check_source_keeps none a n p = p
  check_source_keeps (some (s, e)) a n p = sources s e _ (
      pending_restart _ _ _ a n
        (λ h.
          all_of_three a.have_source_identity
            (not (s == a.last_session_id) || not (e == a.last_writer_epoch)) _ h)
        p)

  check_regression_keeps :
      (now : ℕ) (a : GnssAdapter F) (n : AverageNote F) → P a → P (check_regression now a n).0
  unfolding check_regression
  check_regression_keeps now a n p =
      pending_restart _ _ _ a n
        (λ h.
          first_of_three (average_origin_pending a.config a.origin)
            a.origin.have_last_origin_candidate_time
            (ltb (now + timestamp_tolerance_ns) a.origin.last_origin_candidate_time_ns) h)
        p

  process_timed_keeps :
      (t : Timing) (m : Pvt F) (stamp : ℕ) (a : GnssAdapter F) (n : AverageNote F)
      → P a
      → P (process_timed t m stamp a n).0
  unfolding process_timed reject
  process_timed_keeps (refused r) m stamp a n p = p
  process_timed_keeps timely m stamp a n p = measures false m stamp a n p
  process_timed_keeps gap m stamp a n p = measures true m stamp a n p

  pick_kept :
      (b : Bool) (x y : GnssAdapter F × GnssAdapterResult F)
      → P x.0
      → P y.0
      → P (if b then x else y).0
  pick_kept true x y p q = p
  pick_kept false x y p q = q

  process_checked_keeps :
      (local_time_valid valid_for_fusion : Bool) (m : Pvt F) (stamp : ℕ) (a : GnssAdapter F)
      (n : AverageNote F)
      → P a
      → P (process_checked local_time_valid valid_for_fusion m stamp a n).0
  unfolding process_checked reject
  process_checked_keeps l v m stamp a n p =
      let (a', n') = check_regression stamp a n in
      let q : P a' = check_regression_keeps stamp a n p in
      pick_kept (not a.config.enable) _ _ p (
        pick_kept (stamp == 0) _ _ p (
          pick_kept (not l) _ _ p
            (pick_kept (not v) _ _ q (process_timed_keeps (check_time stamp a') m stamp a' n' q))))

  process_pvt_keeps :
      (local_time_valid valid_for_fusion : Bool) (source : Option (ℕ × ℕ)) (m : Pvt F) (stamp : ℕ)
      (a : GnssAdapter F)
      → P a
      → P (process_pvt local_time_valid valid_for_fusion source m stamp a).0
  unfolding process_pvt
  process_pvt_keeps l v source m stamp a p =
      let (a', n) = check_source source a new_note in
      process_checked_keeps l v m stamp a' n (check_source_keeps source a new_note p)

  process_legacy_keeps :
      (time : Option ℕ) (m : Pvt F) (callback_time : ℕ) (a : GnssAdapter F)
      → P a
      → P
          (elim time as (λ t. GnssAdapter F × GnssAdapterResult F) [
            | none ↦
                reject a new_note (pvt_status a.config m callback_time) Adapter.invalid_gps_time
            | some stamp ↦ process_pvt true true none m stamp a
          ]).0
  unfolding reject
  process_legacy_keeps none m callback_time a p = p
  process_legacy_keeps (some stamp) m callback_time a p =
      process_pvt_keeps true true none m stamp a p

  process_pose_keeps :
      (d : Option Reason) (m : PoseMessage F) (a : GnssAdapter F)
      → P a
      → P
          (elim d as (λ t. GnssAdapter F × GnssAdapterResult F) [
            | some reason ↦ (
              a,
              pose_result (record (pose_status a.config m) { reject_reason = some reason }) none,
            )
            | none ↦ (
              record a { have_last_measurement_time = true; last_measurement_time_ns = m.stamp },
              accept_pose a.config m,
            )
          ]).0
  process_pose_keeps (some reason) m a p = p
  process_pose_keeps none m a p = poses m.stamp a p

  pub process_keeps :
      (from_sec : Float.Double F → ℕ) (m : Message F) (a : GnssAdapter F)
      → P a
      → P (process from_sec m a).0
  unfolding process process_legacy process_stamped process_pose
  process_keeps from_sec (legacy m callback_time) a p =
      process_legacy_keeps (gps_to_utc_stamp_ns F from_sec m.week m.tow) m callback_time a p
  process_keeps from_sec (stamped m) a p = process_pvt_keeps _ _ _ m.pvt m.stamp a p
  process_keeps from_sec (pose m) a p = process_pose_keeps (pose_defect a m) m a p

  pub process_all_keeps :
      (from_sec : Float.Double F → ℕ) (messages : List (Message F)) (a : GnssAdapter F)
      → P a
      → P (process_all from_sec messages a).0
  unfolding process_all
  process_all_keeps from_sec [] a p = p
  process_all_keeps from_sec (m ∷ messages) a p =
      process_all_keeps from_sec messages _ (process_keeps from_sec m a p)
