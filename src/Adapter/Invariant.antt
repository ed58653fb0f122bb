-- ===== src/Adapter/Invariant.antt =====
-- The invariant of the adapter: `update_origin` and the resets on the origin.
use fast_livo_ug.Base.{
  ℕ, ◌≤◌, ◌<◌, ◌≡◌, refl, [], ◌∷◌, ◌++◌, Bool, true, false, not, ◌&&◌, arith, ltb, ◌==◌, length,
  length-append, if_keeps, ltb→lt, same_text, same_text-eq, to_word,
}
use fast_livo_ug.Float.{Float}
use fast_livo_ug.Gnss.Geodesy.{Vector3, finite_vector}
use fast_livo_ug.Adapter.{
  GnssAdapterConfig, Origin, AverageNote, Reason, GnssQuality, time_regression, valid_fixed_gap,
}
use fast_livo_ug.Adapter.Average.{
  manual, first_fixed, average_fixed, average_origin_pending, clear_origin_average_state,
  reset_origin_average, finish_average, add_sample, update_average, update_origin, new_origin,
  elapsed_s,
}

module _ {F : Float} where
  -- What holds of the origin between two messages.
  pub record IsOrigin (c : GnssAdapterConfig F) (o : Origin F) : Type 0 where
    -- Samples are kept only until the origin is set, and only in the mode that averages them.
    pub settled : o.origin_initialized ≡ true → length o.origin_ecef_samples ≡ 0
    pub averaging : same_text c.origin_mode average_fixed ≡ false → length o.origin_ecef_samples ≡ 0
    pub waiting : length o.origin_ecef_samples < to_word 64 c.origin_average_count
    -- The time of the last candidate is the time of the last sample.
    pub timed : o.have_last_origin_candidate_time ≡ not (length o.origin_ecef_samples == 0)

  clear-IsOrigin :
      (c : GnssAdapterConfig F) (o : Origin F)
      → 1 ≤ to_word 64 c.origin_average_count
      → IsOrigin c (clear_origin_average_state o)
  unfolding clear_origin_average_state
  clear-IsOrigin c o h = record {
    settled = λ e. refl;
    averaging = λ e. refl;
    waiting = h;
    timed = refl;
  }

  pub reset-IsOrigin :
      (c : GnssAdapterConfig F) (r : Reason) (g : Float.Double F) (o : Origin F) (n : AverageNote F)
      → 1 ≤ to_word 64 c.origin_average_count
      → IsOrigin c o
      → IsOrigin c (reset_origin_average c r g o n).0
  unfolding reset_origin_average
  reset-IsOrigin c r g o n h i =
      if_keeps {A = Origin F × AverageNote F} (λ r. IsOrigin c r.0)
        (not (average_origin_pending c o)) _ _ (λ e. i) (λ e. clear-IsOrigin c o h)

  add-IsOrigin :
      (c : GnssAdapterConfig F) (v : Vector3 F) (now : ℕ) (o : Origin F) (n : AverageNote F)
      → 1 ≤ to_word 64 c.origin_average_count
      → same_text c.origin_mode average_fixed ≡ true
      → o.origin_initialized ≡ false
      → IsOrigin c (add_sample c v now o n).0
  unfolding add_sample finish_average clear_origin_average_state
  add-IsOrigin c v now o n h mode unset =
      let more = length-append o.origin_ecef_samples (v ∷ []) in
      if_keeps {A = Origin F × AverageNote F × Bool} (λ r. IsOrigin c r.0)
        (ltb (length (o.origin_ecef_samples ++ (v ∷ []))) (to_word 64 c.origin_average_count)) _ _
        (λ e. record {
          settled = λ s. ground (arith, s, unset);
          averaging = λ a. ground (arith, a, mode);
          waiting = ltb→lt _ _ e;
          timed = ground (arith, more);
        })
        (λ e. record { settled = λ s. refl; averaging = λ a. refl; waiting = h; timed = refl })

  -- An origin that a reset leaves unset is still unset.
  reset_unset :
      (c : GnssAdapterConfig F) (r : Reason) (g : Float.Double F) (o : Origin F) (n : AverageNote F)
      → o.origin_initialized ≡ false
      → (reset_origin_average c r g o n).0.origin_initialized ≡ false
  unfolding reset_origin_average clear_origin_average_state
  reset_unset c r g o n e =
      if_keeps {A = Origin F × AverageNote F} (λ r. r.0.origin_initialized ≡ false)
        (not (average_origin_pending c o)) _ _ (λ b. e) (λ b. e)

  average-IsOrigin :
      (c : GnssAdapterConfig F) (v : Vector3 F) (now : ℕ) (o : Origin F) (n : AverageNote F)
      → 1 ≤ to_word 64 c.origin_average_count
      → same_text c.origin_mode average_fixed ≡ true
      → o.origin_initialized ≡ false
      → IsOrigin c o
      → IsOrigin c (update_average c v now o n).0
  unfolding update_average
  average-IsOrigin c v now o n h mode unset i =
      let delta_s = elapsed_s F now o.last_origin_candidate_time_ns in
      let plain = add-IsOrigin c v now o n h mode unset in
      let back = reset_origin_average c time_regression delta_s o n in
      let gap = reset_origin_average c valid_fixed_gap delta_s o n in
      let restarted = add-IsOrigin c v now back.0 back.1 h mode (reset_unset c _ _ o n unset) in
      let resumed = add-IsOrigin c v now gap.0 gap.1 h mode (reset_unset c _ _ o n unset) in
      ground (arith, plain, restarted, resumed, i)

  first-IsOrigin :
      (c : GnssAdapterConfig F) (lla ecef : Vector3 F) (o : Origin F)
      → same_text c.origin_mode first_fixed ≡ true
      → IsOrigin c o
      → IsOrigin c (record o { origin_lla = lla; origin_ecef = ecef; origin_initialized = true })
  unfolding same_text
  first-IsOrigin c lla ecef o e i =
      let other : same_text c.origin_mode average_fixed ≡ false =
        rw (same_text-eq c.origin_mode first_fixed e) refl in
      record {
        settled = λ s. i.averaging other;
        averaging = i.averaging;
        waiting = i.waiting;
        timed = i.timed;
      }

  pub update-IsOrigin :
      (c : GnssAdapterConfig F) (q : GnssQuality) (lla ecef : Vector3 F) (now : ℕ) (o : Origin F)
      (n : AverageNote F)
      → 1 ≤ to_word 64 c.origin_average_count
      → IsOrigin c o
      → IsOrigin c (update_origin c q lla ecef now o n).0
  unfolding update_origin
  update-IsOrigin c q lla ecef now o n h i =
      let averaged : same_text c.origin_mode average_fixed ≡ true
          → o.origin_initialized ≡ false
          → IsOrigin c (update_average c ecef now o n).0 =
        λ a e. average-IsOrigin c ecef now o n h a e i in
      let first : same_text c.origin_mode first_fixed ≡ true
          → IsOrigin c
              (record o { origin_lla = lla; origin_ecef = ecef; origin_initialized = true }) =
        λ e. first-IsOrigin c lla ecef o e i in
      ground (arith, averaged, first, i)

  pub new-IsOrigin :
      (c : GnssAdapterConfig F) → 1 ≤ to_word 64 c.origin_average_count → IsOrigin c (new_origin c)
  unfolding new_origin
  new-IsOrigin c h =
      if_keeps (λ o. IsOrigin c o) (same_text c.origin_mode manual && finite_vector F c.origin_lla)
        _ _ (λ e. record { settled = λ s. refl; averaging = λ a. refl; waiting = h; timed = refl })
        (λ e. record { settled = λ s. refl; averaging = λ a. refl; waiting = h; timed = refl })
