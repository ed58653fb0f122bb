-- ===== src/Adapter/Accepted.antt =====
-- What an accepted measurement has passed.
use fast_livo_ug.Base.{
  ℕ, ◌≡◌, ◌≢◌, ◌⊎◌, refl, ap, ◌∙◌, Bool, true, false, not, ◌||◌, arith, Option, none, some, ◌==◌,
  if_keeps,
}
use mathlib.Core.Path.{subst}
use fast_livo_ug.Float.{Float}
use fast_livo_ug.Adapter
use fast_livo_ug.Adapter.{
  GnssAdapterConfig, GnssAdapter, GnssAdapterResult, Pvt, Tracking, TrackingState, waiting,
  active_fixed, lost, Origin, AverageNote, Reason, GnssQuality, rtk_fixed, same_quality, GnssStatus,
  Odometry, new_note,
}
use fast_livo_ug.Adapter.Stages.{
  Timing, refused, timely, gap, check_time, check_regression, check_source, reject,
}
use fast_livo_ug.Adapter.Quality.{defect, solution_quality, failed_gate, quality_accepted}
use fast_livo_ug.Adapter.Measure.{
  Finding, find, find_origin, track, quality_enabled, answer, measure,
}
use fast_livo_ug.Adapter.Process.{process_timed, process_checked, process_pvt}
use fast_livo_ug.Adapter.Sound.{fixed_confirmed, enabled-IsSound}

module _ {F : Float} where
  answer_lem :
      (c : GnssAdapterConfig F) (m : Pvt F) (stamp : ℕ) (time_gap : Bool) (t : Tracking)
      (o : Origin F) (f : Finding F)
      → (answer c m stamp time_gap t o f).0.accepted ≡ true
      → (quality_enabled c f ≡ true)
        × (time_gap ≡ false)
        × ((not c.publish_local_enu_odometry || o.origin_initialized) ≡ true)
        × ((answer c m stamp time_gap t o f).0.reject_reason ≡ f.reject_reason)
  unfolding answer Adapter.Stages.pvt_status
  answer_lem c m stamp time_gap t o f h = ground arith

  -- What an accepted measurement has passed, and what has come of it.
  pub record IsAcceptance (local_time_valid valid_for_fusion : Bool) (m : Pvt F) (stamp : ℕ)
      (c : GnssAdapterConfig F) (r : GnssAdapter F × GnssAdapterResult F) : Type 0 where
    pub enabled : c.enable ≡ true
    pub stamped : stamp ≢ 0
    pub local_time : local_time_valid ≡ true
    pub fusion : valid_for_fusion ≡ true
    pub well_formed : defect c m ≡ none
    pub gated : failed_gate c m.rest ≡ none
    pub quality : quality_accepted c (solution_quality m) ≡ true
    pub confirmed : (solution_quality m ≢ rtk_fixed) ⊎ (r.0.tracking.tracking_state ≡ active_fixed)
    pub located : (c.publish_local_enu_odometry ≡ false) ⊎ (r.0.origin.origin_initialized ≡ true)
    pub last : r.0.last_measurement_time_ns ≡ stamp
    pub reason : r.1.status.reject_reason ≡ none

  measure_accepted :
      (l v time_gap : Bool) (m : Pvt F) (stamp : ℕ) (a : GnssAdapter F) (n : AverageNote F)
      → a.config.enable ≡ true
      → stamp ≢ 0
      → l ≡ true
      → v ≡ true
      → (measure time_gap m stamp a n).1.status.accepted ≡ true
      → IsAcceptance l v m stamp a.config (measure time_gap m stamp a n)
  unfolding measure
  measure_accepted l v time_gap m stamp a n on nonzero local_time fusion h =
      let moved = track time_gap m a in
      let f = find a.config m moved.1 in
      let k =
        answer_lem a.config m stamp time_gap moved.0 (find_origin a.config f stamp a.origin n).0 f
          h in
      let s = enabled-IsSound a.config m moved.1 k.0 in
      record {
        enabled = on;
        stamped = nonzero;
        local_time = local_time;
        fusion = fusion;
        well_formed = s.0.well_formed;
        gated = s.0.gated;
        quality = s.0.enabled;
        confirmed = fixed_confirmed _ _ _ _ s.0.graded s.0.confirmed;
        located = ground (arith, k.2);
        last = refl;
        reason = k.3 ∙ s.1;
      }

  timed_accepted :
      (l v : Bool) (t : Timing) (m : Pvt F) (stamp : ℕ) (a : GnssAdapter F) (n : AverageNote F)
      → a.config.enable ≡ true
      → stamp ≢ 0
      → l ≡ true
      → v ≡ true
      → (process_timed t m stamp a n).1.status.accepted ≡ true
      → IsAcceptance l v m stamp a.config (process_timed t m stamp a n)
  unfolding process_timed reject
  timed_accepted l v (refused r) m stamp a n on nonzero e f h = ground (arith, h)
  timed_accepted l v timely m stamp a n on nonzero e f h =
      measure_accepted l v false m stamp a n on nonzero e f h
  timed_accepted l v gap m stamp a n on nonzero e f h =
      measure_accepted l v true m stamp a n on nonzero e f h

  check_regression_config :
      (now : ℕ) (a : GnssAdapter F) (n : AverageNote F)
      → (check_regression now a n).0.config ≡ a.config
  unfolding check_regression Adapter.Stages.restart
  check_regression_config now a n = ground arith

  check_source_config :
      (source : Option (ℕ × ℕ)) (a : GnssAdapter F) (n : AverageNote F)
      → (check_source source a n).0.config ≡ a.config
  unfolding check_source Adapter.Stages.restart
  check_source_config none a n = refl
  check_source_config (some s) a n = ground arith

  checked_accepted :
      (l v : Bool) (m : Pvt F) (stamp : ℕ) (a : GnssAdapter F) (n : AverageNote F)
      → (process_checked l v m stamp a n).1.status.accepted ≡ true
      → IsAcceptance l v m stamp a.config (process_checked l v m stamp a n)
  unfolding process_checked reject
  checked_accepted l v m stamp a n =
      let (a', n') = check_regression stamp a n in
      let same : a'.config ≡ a.config = check_regression_config stamp a n in
      let K : GnssAdapter F × GnssAdapterResult F → Type 0 =
        λ r. r.1.status.accepted ≡ true → IsAcceptance l v m stamp a.config r in
      if_keeps K (not a.config.enable) _ _ (λ e h. ground (arith, h))
        (λ on.
          if_keeps K (stamp == 0) _ _ (λ e h. ground (arith, h))
            (λ nonzero.
              if_keeps K (not l) _ _ (λ e h. ground (arith, h))
                (λ local_time.
                  if_keeps K (not v) _ _ (λ e h. ground (arith, h))
                    (λ fusion h.
                      subst
                        (λ c.
                          IsAcceptance l v m stamp c
                            (process_timed (check_time stamp a') m stamp a' n'))
                        same
                        (timed_accepted l v (check_time stamp a') m stamp a' n'
                          (ap (λ c. c.enable) same ∙ ground (arith, on)) (ground (arith, nonzero))
                          (ground (arith, local_time)) (ground (arith, fusion)) h)))))

  -- If processPvt answers a message with accepted, the adapter is enabled, the stamp is not 0, its
  -- local time is valid and it is valid for fusion, the message has passed every check of classify
  -- and every gate, its quality is one that the configuration accepts, a fixed solution has met
  -- the active state, the origin is set if local odometry is published, the stamp is the last
  -- measurement time now, and no reject reason is given.
  pub process_pvt-IsAcceptance :
      (l v : Bool) (source : Option (ℕ × ℕ)) (m : Pvt F) (stamp : ℕ) (a : GnssAdapter F)
      → (process_pvt l v source m stamp a).1.status.accepted ≡ true
      → IsAcceptance l v m stamp a.config (process_pvt l v source m stamp a)
  unfolding process_pvt
  process_pvt-IsAcceptance l v source m stamp a h =
      let (a', n) = check_source source a new_note in
      subst (λ c. IsAcceptance l v m stamp c (process_checked l v m stamp a' n))
        (check_source_config source a new_note) (checked_accepted l v m stamp a' n h)
