-- ===== src/Adapter/Kept.antt =====
-- The invariant of the whole adapter, from `initialize` over any messages.
use fast_livo_ug.Base.{
  ℕ, ◌^◌, ◌≤◌, ◌<◌, ◌≡◌, refl, sym, List, Bool, true, false, not, ◌&&◌, ◌||◌, arith, if◌then◌else◌,
  if_keeps, test-some, to_word, some, ℤ, pos, negsuc, less,
}
use fast_livo_ug.Float.{Float}
use fast_livo_ug.Adapter.{
  GnssAdapterConfig, GnssAdapter, Tracking, Pvt, Origin, AverageNote, Reason, rtk_fixed,
  same_quality,
}
use fast_livo_ug.Adapter.FixedState.{Limits, limits}
use fast_livo_ug.Adapter.Config.{
  GnssFusionPolicy, component_enabled, validate_config, valid_modes, valid_counts, initialize,
}
use fast_livo_ug.Adapter.Stages.{restart, new_adapter}
use fast_livo_ug.Adapter.Quality.{classify}
use fast_livo_ug.Adapter.Measure.{Finding, gap_tracking, find_origin, find, track, measure}
use fast_livo_ug.Adapter.Tracked.{IsLimits, IsTracking, new_tracking-IsTracking, update-IsTracking}
use fast_livo_ug.Adapter.Calls.{Message, process_all, process_all_keeps}
use fast_livo_ug.Adapter.Invariant.{IsOrigin, reset-IsOrigin, update-IsOrigin, new-IsOrigin}

-- A value of a C++ `int`.
unfoldable pub IsInt : ℤ → Type 0
IsInt (pos n) = n < 2 ^ 31
IsInt (negsuc n) = n < 2 ^ 31

positive_count :
    (z : ℤ) → IsInt z → less z (pos 1) ≡ false → (1 ≤ to_word 32 z) × (to_word 32 z < 2 ^ 32)
unfolding IsInt less to_word
positive_count (pos n) i e = ground arith
positive_count (negsuc n) i e = ground arith

positive_long : (z : ℤ) → IsInt z → less z (pos 1) ≡ false → 1 ≤ to_word 64 z
unfolding IsInt less to_word
positive_long (pos n) i e = ground arith
positive_long (negsuc n) i e = ground arith

no_test :
    (p q r s t : Bool)
    → not (p || q || r || s) && t ≡ true
    → (p ≡ false) × (q ≡ false) × (r ≡ false) × (s ≡ false)
no_test p q r s t h = ground arith

second_test : (x y z w : Bool) → x && y && z && w ≡ true → y ≡ true
second_test x y z w h = ground arith

gap_tracking-IsTracking :
    (l : Limits) (t : Tracking) → IsLimits l → IsTracking l t → IsTracking l (gap_tracking t)
unfolding gap_tracking
gap_tracking-IsTracking l t h i = ground arith

module _ {F : Float} where
  -- What holds of an adapter between two messages.
  pub record IsAdapter (a : GnssAdapter F) : Type 0 where
    pub counts : IsLimits (limits a.config)
    pub average_count : 1 ≤ to_word 64 a.config.origin_average_count
    pub tracking : IsTracking (limits a.config) a.tracking
    pub origin : IsOrigin a.config a.origin

  find_origin-IsOrigin :
      (c : GnssAdapterConfig F) (f : Finding F) (now : ℕ) (o : Origin F) (n : AverageNote F)
      → 1 ≤ to_word 64 c.origin_average_count
      → IsOrigin c o
      → IsOrigin c (find_origin c f now o n).0
  unfolding find_origin
  find_origin-IsOrigin c f now o n h i =
      let updated = update-IsOrigin c f.fixed_state_quality f.lla f.ecef now o n h i in
      ground (arith, updated, i)

  measure-IsAdapter :
      (time_gap : Bool) (m : Pvt F) (stamp : ℕ) (a : GnssAdapter F) (n : AverageNote F)
      → IsAdapter a
      → IsAdapter (measure time_gap m stamp a n).0
  unfolding measure
  measure-IsAdapter time_gap m stamp a n i =
      let t = if time_gap then gap_tracking a.tracking else a.tracking in
      let t_valid : IsTracking (limits a.config) t =
        if_keeps (IsTracking (limits a.config)) time_gap _ _
          (λ e. gap_tracking-IsTracking _ _ i.counts i.tracking) (λ e. i.tracking) in
      let fixed = same_quality (classify a.config m).0 rtk_fixed in
      record {
        counts = i.counts;
        average_count = i.average_count;
        tracking = update-IsTracking _ _ t fixed refl i.counts t_valid;
        origin =
            find_origin-IsOrigin a.config (find a.config m (track time_gap m a).1) stamp a.origin n
              i.average_count i.origin;
      }

  restart-IsAdapter :
      (reason : Reason) (gap_s : Float.Double F) (a : GnssAdapter F) (n : AverageNote F)
      → IsAdapter a
      → IsAdapter (restart reason gap_s a n).0
  unfolding restart
  restart-IsAdapter reason gap_s a n i = record {
    counts = i.counts;
    average_count = i.average_count;
    tracking = new_tracking-IsTracking _ i.counts;
    origin = reset-IsOrigin a.config reason gap_s a.origin n i.average_count i.origin;
  }

  -- The members that the invariant does not speak of.
  other-IsAdapter :
      (timed : Bool) (time : ℕ) (sourced : Bool) (session_id writer_epoch : ℕ) (a : GnssAdapter F)
      → IsAdapter a
      → IsAdapter (record a {
        have_last_measurement_time = timed;
        last_measurement_time_ns = time;
        have_source_identity = sourced;
        last_session_id = session_id;
        last_writer_epoch = writer_epoch;
      })
  other-IsAdapter timed time sourced session_id writer_epoch a i = record {
    counts = i.counts;
    average_count = i.average_count;
    tracking = i.tracking;
    origin = i.origin;
  }

  -- The counts of a loaded configuration are C++ integers.
  pub record IsLoaded (c : GnssAdapterConfig F) : Type 0 where
    pub average : IsInt c.origin_average_count
    pub confirm : IsInt c.fixed_confirm_count
    pub lost : IsInt c.fixed_lost_count
    pub recovery : IsInt c.recovery_confirm_count

  -- What a configuration that `validateConfig` admits says of its counts.
  valid_counts_lem :
      (c : GnssAdapterConfig F)
      → validate_config c ≡ true
      → (less c.origin_average_count (pos 1) ≡ false)
        × (less c.fixed_confirm_count (pos 1) ≡ false)
        × (less c.fixed_lost_count (pos 1) ≡ false)
        × (less c.recovery_confirm_count (pos 1) ≡ false)
  unfolding validate_config valid_counts
  valid_counts_lem c h = no_test _ _ _ _ _ (second_test (valid_modes c) (valid_counts c) _ _ h)

  new-IsAdapter :
      (c : GnssAdapterConfig F) (on : Bool)
      → IsLoaded c
      → validate_config c ≡ true
      → IsAdapter (new_adapter (record c { enable = on }))
  unfolding new_adapter
  new-IsAdapter c on i h =
      let v = valid_counts_lem c h in
      let x = positive_count c.fixed_confirm_count i.confirm v.1 in
      let y = positive_count c.fixed_lost_count i.lost v.2 in
      let z = positive_count c.recovery_confirm_count i.recovery v.3 in
      let limited : IsLimits (limits c) = record {
        confirm = x.0;
        lost = y.0;
        recovery = z.0;
        confirm_word = x.1;
        lost_word = y.1;
        recovery_word = z.1;
      } in
      let average = positive_long c.origin_average_count i.average v.0 in
      record {
        counts = limited;
        average_count = average;
        tracking = new_tracking-IsTracking (limits c) limited;
        origin = new-IsOrigin (record c { enable = on }) average;
      }

  initialize-IsAdapter :
      (c : GnssAdapterConfig F) (policy : GnssFusionPolicy) (a : GnssAdapter F)
      → IsLoaded c
      → initialize c policy ≡ some a
      → IsAdapter a
  unfolding initialize
  initialize-IsAdapter c policy a i e =
      let (h, made) = test-some (validate_config c) _ e in
      rw (sym made) (new-IsAdapter c (component_enabled policy c.enable) i h)

  -- After initialize with a configuration whose counts are C++ integers, any messages keep the
  -- invariant of the adapter: the counters fit 32 bits and the limits of the state, one of them is
  -- 0, the samples of the origin are fewer than wanted, none once it is set, and none in the other
  -- modes.
  pub process_all-IsAdapter :
      (from_sec : Float.Double F → ℕ) (c : GnssAdapterConfig F) (policy : GnssFusionPolicy)
      (a : GnssAdapter F) (messages : List (Message F))
      → IsLoaded c
      → initialize c policy ≡ some a
      → IsAdapter (process_all from_sec messages a).0
  process_all-IsAdapter from_sec c policy a messages i e =
      process_all_keeps IsAdapter (λ reason gap_s a n pending. restart-IsAdapter reason gap_s a n)
        (λ s w a.
          other-IsAdapter a.have_last_measurement_time a.last_measurement_time_ns true s w a)
        measure-IsAdapter
        (λ t a.
          other-IsAdapter true t a.have_source_identity a.last_session_id a.last_writer_epoch a)
        from_sec messages a (initialize-IsAdapter c policy a i e)
