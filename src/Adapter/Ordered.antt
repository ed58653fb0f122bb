-- ===== src/Adapter/Ordered.antt =====
-- What each call says of the time of the last measurement.
use fast_livo_ug.Base.{
  ℕ, ◌+◌, ◌-◌, ◌≡◌, ◌<◌, ◌≤◌, ◌⊎◌, inl, inr, refl, sym, ap, Bool, true, false, not, arith,
  if◌then◌else◌, Option, none, some, ◌==◌, if_keeps,
}
use mathlib.Core.Path.{subst}
use fast_livo_ug.Float.{Float}
use fast_livo_ug.Gnss.{gps_to_utc_stamp_ns}
use fast_livo_ug.Adapter
use fast_livo_ug.Adapter.{
  GnssAdapterConfig, GnssAdapter, GnssAdapterResult, Pvt, PoseMessage, Tracking, Origin,
  AverageNote, Reason, GnssQuality, new_note,
}
use fast_livo_ug.Adapter.Average.{elapsed_s, timestamp_tolerance_ns, average_origin_pending}
use fast_livo_ug.Adapter.Stages.{
  Timing, refused, timely, gap, check_time, check_regression, check_source, pvt_status, reject,
  restart,
}
use fast_livo_ug.Adapter.Measure.{Finding, find, find_origin, track, answer, measure}
use fast_livo_ug.Adapter.Process.{
  process_timed, process_checked, process_pvt, process_legacy, process_stamped,
}
use fast_livo_ug.Adapter.Pose.{pose_defect, pose_status, pose_result, accept_pose, process_pose}
use fast_livo_ug.Adapter.Calls.{Message, legacy, stamped, pose, process}

-- The time of the last measurement, if there is one.
abbrev pub last_time : {F : Float} → GnssAdapter F → Option ℕ
last_time a = if a.have_last_measurement_time then some a.last_measurement_time_ns else none

-- A time behind the last one by more than the tolerance.
unfoldable pub IsLater : Option ℕ → ℕ → Type 0
IsLater none stamp = 0 ≤ stamp
IsLater (some last) stamp = last + timestamp_tolerance_ns < stamp

-- Whether a message goes on behind the look at its time.
abbrev passes : Timing → Bool
passes (refused r) = false
passes timely = true
passes gap = true

module _ {F : Float} where
  -- What an answer says of the last time.
  unfoldable pub Advances : GnssAdapter F → GnssAdapter F × GnssAdapterResult F → Type 0
  Advances a r =
      ((r.1.status.accepted ≡ false) × (last_time r.0 ≡ last_time a))
      ⊎ ((last_time r.0 ≡ some r.1.status.stamp) × IsLater (last_time a) r.1.status.stamp)

  answer_stamp :
      (c : GnssAdapterConfig F) (m : Pvt F) (stamp : ℕ) (time_gap : Bool) (t : Tracking)
      (o : Origin F) (f : Finding F)
      → (answer c m stamp time_gap t o f).0.stamp ≡ stamp
  unfolding answer Adapter.Stages.pvt_status
  answer_stamp c m stamp time_gap t o f = ground arith

  measure-Advances :
      (time_gap : Bool) (m : Pvt F) (stamp : ℕ) (a : GnssAdapter F) (n : AverageNote F)
      → IsLater (last_time a) stamp
      → Advances a (measure time_gap m stamp a n)
  unfolding Advances measure
  measure-Advances time_gap m stamp a n h =
      let moved = track time_gap m a in
      let f = find a.config m moved.1 in
      let e =
        answer_stamp a.config m stamp time_gap moved.0 (find_origin a.config f stamp a.origin n).0
          f in
      inr (ap some (sym e), subst (IsLater (last_time a)) (sym e) h)

  -- No origin is averaged, and time may not go back.
  abbrev pub Settled : GnssAdapter F → Type 0
  Settled a =
      (average_origin_pending a.config a.origin ≡ false) × (a.config.require_monotonic_time ≡ true)

  -- Before its look at the time, a settled adapter keeps all but the source of a message.
  abbrev Waits : GnssAdapter F → GnssAdapter F → Type 0
  Waits a b = (last_time b ≡ last_time a) × (b.config ≡ a.config) × (b.origin ≡ a.origin)

  check_source-Waits :
      (source : Option (ℕ × ℕ)) (a : GnssAdapter F) (n : AverageNote F)
      → Settled a
      → Waits a (check_source source a n).0
  unfolding check_source
  check_source-Waits none a n h = (refl, refl, refl)
  check_source-Waits (some s) a n h = ground (arith, h)

  check_regression-Waits :
      (now : ℕ) (a : GnssAdapter F) (n : AverageNote F)
      → Settled a
      → Waits a (check_regression now a n).0
  unfolding check_regression
  check_regression-Waits now a n h = ground (arith, h)

  Waits-Settled : (a b : GnssAdapter F) → Waits a b → Settled a → Settled b
  Waits-Settled a b w h = rw w.1 (rw w.2 h)

  Waits-Advances :
      (a b : GnssAdapter F) (r : GnssAdapter F × GnssAdapterResult F)
      → Waits a b
      → Advances b r
      → Advances a r
  unfolding Advances
  Waits-Advances a b r w h = rw (sym w.0) h

module _ {F : Float}
    (negative : (n : ℕ)
      → timestamp_tolerance_ns < n
      → Float.lt F
          (Float.mul F (Float.neg F (Float.double F n)) (Float.decimal F 1 9))
          (Float.decimal F 0 0)
        ≡ true) where
  check_time_lem :
      (now : ℕ) (a : GnssAdapter F)
      → a.config.require_monotonic_time ≡ true
      → passes (check_time now a) ≡ true
      → IsLater (last_time a) now
  unfolding check_time elapsed_s IsLater
  check_time_lem now a mono h = ground (arith, negative (a.last_measurement_time_ns - now))

  timed-Advances :
      (t : Timing) (m : Pvt F) (stamp : ℕ) (a : GnssAdapter F) (n : AverageNote F)
      → (passes t ≡ true → IsLater (last_time a) stamp)
      → Advances a (process_timed t m stamp a n)
  unfolding Advances process_timed reject
  timed-Advances (refused r) m stamp a n h = inl (refl, refl)
  timed-Advances timely m stamp a n h = measure-Advances false m stamp a n (h refl)
  timed-Advances gap m stamp a n h = measure-Advances true m stamp a n (h refl)

  checked-Advances :
      (l v : Bool) (m : Pvt F) (stamp : ℕ) (a : GnssAdapter F) (n : AverageNote F)
      → Settled a
      → Advances a (process_checked l v m stamp a n)
  unfolding process_checked reject Advances
  checked-Advances l v m stamp a n h =
      let (a', n') = check_regression stamp a n in
      let w = check_regression-Waits stamp a n h in
      let h' = Waits-Settled a a' w h in
      let K : GnssAdapter F × GnssAdapterResult F → Type 0 = Advances a in
      if_keeps K (not a.config.enable) _ _ (λ e. inl (refl, refl))
        (λ on.
          if_keeps K (stamp == 0) _ _ (λ e. inl (refl, refl))
            (λ nonzero.
              if_keeps K (not l) _ _ (λ e. inl (refl, refl))
                (λ local_time.
                  if_keeps K (not v) _ _ (λ e. inl (refl, w.0))
                    (λ fusion.
                      Waits-Advances a a' (process_timed (check_time stamp a') m stamp a' n') w (
                        timed-Advances (check_time stamp a') m stamp a' n'
                          (check_time_lem stamp a' h'.1))))))

  pvt-Advances :
      (l v : Bool) (source : Option (ℕ × ℕ)) (m : Pvt F) (stamp : ℕ) (a : GnssAdapter F)
      → Settled a
      → Advances a (process_pvt l v source m stamp a)
  unfolding process_pvt
  pvt-Advances l v source m stamp a h =
      let (a', n) = check_source source a new_note in
      let w = check_source-Waits source a new_note h in
      Waits-Advances a a' _ w (checked-Advances l v m stamp a' n (Waits-Settled a a' w h))

  legacy-Advances :
      (time : Option ℕ) (m : Pvt F) (callback_time : ℕ) (a : GnssAdapter F)
      → Settled a
      → Advances a (elim time as (λ t. GnssAdapter F × GnssAdapterResult F) [
        | none ↦ reject a new_note (pvt_status a.config m callback_time) Adapter.invalid_gps_time
        | some stamp ↦ process_pvt true true none m stamp a
      ])
  unfolding Advances reject
  legacy-Advances none m callback_time a h = inl (refl, refl)
  legacy-Advances (some stamp) m callback_time a h = (pvt-Advances true true none m stamp a h)

  pose_stamp :
      (c : GnssAdapterConfig F) (m : PoseMessage F) → (accept_pose c m).status.stamp ≡ m.stamp
  unfolding accept_pose pose_status
  pose_stamp c m = ground arith

  pose-IsLater :
      (m : PoseMessage F) (a : GnssAdapter F)
      → pose_defect a m ≡ none
      → a.config.require_monotonic_time ≡ true
      → IsLater (last_time a) m.stamp
  unfolding pose_defect IsLater
  pose-IsLater m a e mono = ground arith

  pose-Advances :
      (d : Option Reason) (m : PoseMessage F) (a : GnssAdapter F)
      → pose_defect a m ≡ d
      → Settled a
      → Advances a (elim d as (λ t. GnssAdapter F × GnssAdapterResult F) [
        | some reason ↦
            (a, pose_result (record (pose_status a.config m) { reject_reason = some reason }) none)
        | none ↦ (
          record a { have_last_measurement_time = true; last_measurement_time_ns = m.stamp },
          accept_pose a.config m,
        )
      ])
  unfolding Advances pose_status
  pose-Advances (some reason) m a e h = inl (refl, refl)
  pose-Advances none m a e h =
      let stamp = pose_stamp a.config m in
      inr (ap some (sym stamp), subst (IsLater (last_time a)) (sym stamp) (pose-IsLater m a e h.1))

  pub process-Advances :
      (from_sec : Float.Double F → ℕ) (m : Message F) (a : GnssAdapter F)
      → Settled a
      → Advances a (process from_sec m a)
  unfolding process process_legacy process_stamped process_pose
  process-Advances from_sec (legacy m callback_time) a h =
      legacy-Advances (gps_to_utc_stamp_ns F from_sec m.week m.tow) m callback_time a h
  process-Advances from_sec (stamped m) a h =
      pvt-Advances m.local_measurement_time_valid m.valid_for_fusion
        (some (m.session_id, m.writer_epoch)) m.pvt m.stamp a h
  process-Advances from_sec (pose m) a h = pose-Advances (pose_defect a m) m a refl h
