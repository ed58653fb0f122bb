-- ===== src/Adapter/Unfixed.antt =====
-- The adapter on a message that is no fixed solution.
use fast_livo_ug.Base.{
  ℕ, ◌+◌, ◌&&◌, ltb, ◌≡◌, ◌≢◌, sym, ◌∙◌, refl, ap, inl, inr, ◌⊎◌, Bool, true, false, not, arith,
  Option, none, some, ◌==◌, if_keeps,
}
use fast_livo_ug.Float.{Float}
use fast_livo_ug.Adapter
use fast_livo_ug.Adapter.{
  GnssAdapterConfig, GnssAdapter, GnssAdapterResult, GnssStatus, Pvt, PvtFields, Tracking, Origin,
  AverageNote, Reason, GnssQuality, rtk_fixed, same_quality, new_note, TrackingState, waiting,
  active_fixed, lost,
}
use fast_livo_ug.Adapter.FixedState.{Limits, limits, update_fixed_state, lose}
use fast_livo_ug.Adapter.Average.{
  average_origin_pending, clear_origin_average_state, reset_origin_average, timestamp_tolerance_ns,
}
use fast_livo_ug.Adapter.Stages.{
  restart, Timing, refused, timely, gap, check_time, check_regression, check_source, reject,
  pvt_status,
}
use fast_livo_ug.Adapter.Quality.{classify}
use fast_livo_ug.Adapter.Measure.{
  Finding, find, find_position, find_origin, gap_tracking, track, answer, measure,
}
use fast_livo_ug.Adapter.Process.{process_timed, process_checked, process_pvt}

not_same : (q : GnssQuality) → q ≢ rtk_fixed → same_quality q rtk_fixed ≡ false
unfolding Adapter.quality_code
not_same Adapter.invalid h = refl
not_same Adapter.single h = refl
not_same Adapter.differential h = refl
not_same Adapter.rtk_float h = refl
not_same Adapter.rtk_fixed h = ground (arith, h)
not_same Adapter.GnssQuality.recovering h = refl

pub active_or_not : (s : TrackingState) → (s ≢ active_fixed) ⊎ (s ≡ active_fixed)
active_or_not waiting = inl (λ x. cc)
active_or_not active_fixed = inr refl
active_or_not lost = inl (λ x. cc)
active_or_not TrackingState.recovering = inl (λ x. cc)

pub passed_on {ℓ} : {A B C : Type ℓ} → A ⊎ B → ((B → ⊥) ⊎ C) → A ⊎ C
passed_on (inl a) r = inl a
passed_on (inr b) (inr c) = inr c
passed_on (inr b) (inl n) = elim (n b) [ ]

gap_inactive {ℓ} : {A : Type ℓ} (t : Tracking) → (gap_tracking t).tracking_state ≡ active_fixed → A
unfolding gap_tracking
gap_inactive t e = ground (arith, e)

lose-inactive :
    (l : Limits) (s : TrackingState) (t : Tracking)
    → t.tracking_state ≡ s
    → ((update_fixed_state l t false).0.tracking_state ≢ active_fixed) ⊎ (s ≡ active_fixed)
unfolding update_fixed_state lose
lose-inactive l waiting t e = inl (rw e (λ x. cc))
lose-inactive l active_fixed t e = inr refl
lose-inactive l lost t e = inl (rw e (λ x. cc))
lose-inactive l TrackingState.recovering t e = inl (rw e (λ x. ground arith))

module _ {F : Float} where
  -- No configuration sees a fixed solution in the message.
  abbrev pub NotFixed : Pvt F → Type 0
  NotFixed m = (c : GnssAdapterConfig F) → (classify c m).0 ≢ rtk_fixed

  -- What a step may make of the adapter: the raw quality of its answer is not that of a fixed
  -- solution, the origin is not set or lost, and the state does not become active.
  pub record IsUnfixed (a : GnssAdapter F) (r : GnssAdapter F × GnssAdapterResult F) : Type 0 where
    pub raw : r.1.status.raw_quality ≢ rtk_fixed
    pub origin : r.0.origin.origin_initialized ≡ a.origin.origin_initialized
    pub state :
        (r.0.tracking.tracking_state ≢ active_fixed) ⊎ (a.tracking.tracking_state ≡ active_fixed)

  answer_raw :
      (c : GnssAdapterConfig F) (m : Pvt F) (stamp : ℕ) (time_gap : Bool) (t : Tracking)
      (o : Origin F) (f : Finding F)
      → (answer c m stamp time_gap t o f).0.raw_quality ≡ f.raw_quality
  unfolding answer
  answer_raw c m stamp time_gap t o f = ground arith

  find_raw :
      (c : GnssAdapterConfig F) (m : Pvt F) (s : GnssQuality)
      → (find c m s).raw_quality ≡ (classify c m).0
  unfolding find find_position
  find_raw c m s = ground arith

  unusable :
      (c : GnssAdapterConfig F) (m : Pvt F) (s : GnssQuality)
      → same_quality (classify c m).0 rtk_fixed ≡ false
      → (find c m s).fixed_measurement_usable ≡ false
  unfolding find find_position
  unusable c m s h = ground arith

  find_origin-unfixed :
      (c : GnssAdapterConfig F) (m : Pvt F) (s : GnssQuality) (stamp : ℕ) (o : Origin F)
      (n : AverageNote F)
      → (classify c m).0 ≢ rtk_fixed
      → (find_origin c (find c m s) stamp o n).0 ≡ o
  unfolding find_origin
  find_origin-unfixed c m s stamp o n h = ground (arith, unusable c m s (not_same _ h))

  track-inactive :
      (time_gap : Bool) (m : Pvt F) (a : GnssAdapter F)
      → same_quality (classify a.config m).0 rtk_fixed ≡ false
      → ((track time_gap m a).0.tracking_state ≢ active_fixed)
        ⊎ (a.tracking.tracking_state ≡ active_fixed)
  track-inactive false m a h = rw h (lose-inactive (limits a.config) _ a.tracking refl)
  track-inactive true m a h =
      rw h (elim (lose-inactive (limits a.config) _ (gap_tracking a.tracking) refl) [
        | inl off ↦ inl off
        | inr on ↦ gap_inactive a.tracking on
      ])

  measure-IsUnfixed :
      (time_gap : Bool) (m : Pvt F) (stamp : ℕ) (a : GnssAdapter F) (n : AverageNote F)
      → NotFixed m
      → IsUnfixed a (measure time_gap m stamp a n)
  unfolding measure
  measure-IsUnfixed time_gap m stamp a n h =
      let moved = track time_gap m a in
      let f = find a.config m moved.1 in
      let raw =
        answer_raw a.config m stamp time_gap moved.0 (find_origin a.config f stamp a.origin n).0
          f in
      record {
        raw = λ e. h a.config (sym (find_raw a.config m moved.1) ∙ sym raw ∙ e);
        origin =
            ap (λ o. o.origin_initialized)
              (find_origin-unfixed a.config m moved.1 stamp a.origin n (h a.config));
        state = track-inactive time_gap m a (not_same _ (h a.config));
      }

  -- What the look at the last candidate of the average may make of the adapter.
  abbrev Keeps : GnssAdapter F → GnssAdapter F → Type 0
  Keeps a b =
      (b.origin.origin_initialized ≡ a.origin.origin_initialized)
      × ((b.tracking.tracking_state ≢ active_fixed) ⊎ (a.tracking.tracking_state ≡ active_fixed))

  Keeps-refl : (a : GnssAdapter F) → Keeps a a
  Keeps-refl a = (refl, active_or_not a.tracking.tracking_state)

  Keeps-IsUnfixed :
      (a b : GnssAdapter F) (r : GnssAdapter F × GnssAdapterResult F)
      → Keeps a b
      → IsUnfixed b r
      → IsUnfixed a r
  Keeps-IsUnfixed a b r k u = record {
    raw = u.raw;
    origin = u.origin ∙ k.0;
    state = passed_on u.state k.1;
  }

  reset_kept :
      (c : GnssAdapterConfig F) (r : Reason) (g : Float.Double F) (o : Origin F) (n : AverageNote F)
      → (reset_origin_average c r g o n).0.origin_initialized ≡ o.origin_initialized
  unfolding reset_origin_average clear_origin_average_state
  reset_kept c r g o n = ground arith

  regression-Keeps :
      (now : ℕ) (a : GnssAdapter F) (n : AverageNote F) → Keeps a (check_regression now a n).0
  unfolding check_regression restart
  regression-Keeps now a n =
      if_keeps (λ (r : GnssAdapter F × AverageNote F). Keeps a r.0)
        (average_origin_pending a.config a.origin
          && a.origin.have_last_origin_candidate_time
          && ltb (now + timestamp_tolerance_ns) a.origin.last_origin_candidate_time_ns)
        _ _ (λ e. (reset_kept a.config _ _ a.origin n, inl (λ x. cc))) (λ e. Keeps-refl a)

  reject-IsUnfixed :
      (a b : GnssAdapter F) (n : AverageNote F) (s : GnssStatus F) (r : Reason)
      → Keeps a b
      → IsUnfixed a (reject b n s r)
  unfolding reject
  reject-IsUnfixed a b n s r k = record { raw = λ e. cc; origin = k.0; state = k.1 }

  timed-IsUnfixed :
      (t : Timing) (m : Pvt F) (stamp : ℕ) (a : GnssAdapter F) (n : AverageNote F)
      → NotFixed m
      → IsUnfixed a (process_timed t m stamp a n)
  unfolding process_timed
  timed-IsUnfixed (refused r) m stamp a n h = reject-IsUnfixed a a n _ r (Keeps-refl a)
  timed-IsUnfixed timely m stamp a n h = measure-IsUnfixed false m stamp a n h
  timed-IsUnfixed gap m stamp a n h = measure-IsUnfixed true m stamp a n h

  checked-IsUnfixed :
      (l v : Bool) (m : Pvt F) (stamp : ℕ) (a : GnssAdapter F) (n : AverageNote F)
      → NotFixed m
      → IsUnfixed a (process_checked l v m stamp a n)
  unfolding process_checked
  checked-IsUnfixed l v m stamp a n h =
      let (a', n') = check_regression stamp a n in
      let k = regression-Keeps stamp a n in
      let K = IsUnfixed a in
      let status = pvt_status a.config m stamp in
      let same = Keeps-refl a in
      if_keeps K (not a.config.enable) _ _ (λ e. reject-IsUnfixed a a n status _ same)
        (λ on.
          if_keeps K (stamp == 0) _ _ (λ e. reject-IsUnfixed a a n status _ same)
            (λ nonzero.
              if_keeps K (not l) _ _ (λ e. reject-IsUnfixed a a n status _ same)
                (λ local_time.
                  if_keeps K (not v) _ _ (λ e. reject-IsUnfixed a a' n' status _ k)
                    (λ fusion.
                      Keeps-IsUnfixed a a' (process_timed (check_time stamp a') m stamp a' n') k
                        (timed-IsUnfixed (check_time stamp a') m stamp a' n' h)))))

  pub legacy-IsUnfixed :
      (time : Option ℕ) (m : Pvt F) (callback_time : ℕ) (a : GnssAdapter F)
      → NotFixed m
      → IsUnfixed a (elim time as (λ t. GnssAdapter F × GnssAdapterResult F) [
        | none ↦ reject a new_note (pvt_status a.config m callback_time) Adapter.invalid_gps_time
        | some stamp ↦ process_pvt true true none m stamp a
      ])
  unfolding process_pvt check_source
  legacy-IsUnfixed none m callback_time a h = reject-IsUnfixed a a new_note _ _ (Keeps-refl a)
  legacy-IsUnfixed (some stamp) m callback_time a h =
      checked-IsUnfixed true true m stamp a new_note h
