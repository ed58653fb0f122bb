-- ===== src/Adapter/Average.antt =====
-- The origin of the local coordinates: `averageOriginPending` to `updateOrigin`, and the part of
-- `resetRuntimeState` that is about it.
use fast_livo_ug.Base.{
  ℕ, ◌-◌, ◌%◌, ◌^◌, List, [], ◌∷◌, ◌++◌, Option, none, some, Bool, true, false, not, ◌&&◌, ◌||◌,
  ltb, leb, length, same_text, to_word, if◌then◌else◌,
}
use fast_livo_ug.Float.{Float}
use fast_livo_ug.Gnss.Geodesy.{Vector3, finite_vector, geodetic_to_ecef, ecef_to_geodetic}
use fast_livo_ug.Adapter.{
  GnssQuality, rtk_fixed, same_quality, GnssAdapterConfig, Origin, AverageNote, Reason,
  not_origin_candidate, duplicate_origin_candidate, time_regression, valid_fixed_gap,
}

abbrev pub manual : List ℕ
manual = b'm' ∷ b'a' ∷ b'n' ∷ b'u' ∷ b'a' ∷ b'l' ∷ []

abbrev pub first_fixed : List ℕ
first_fixed = b'f' ∷ b'i' ∷ b'r' ∷ b's' ∷ b't' ∷ b'_' ∷ b'f' ∷ b'i' ∷ b'x' ∷ b'e' ∷ b'd' ∷ []

abbrev pub average_fixed : List ℕ
average_fixed =
    b'a' ∷ b'v' ∷ b'e' ∷ b'r' ∷ b'a' ∷ b'g' ∷ b'e' ∷ b'_' ∷ b'f' ∷ b'i' ∷ b'x' ∷ b'e' ∷ b'd' ∷ []

-- `kTimestampEqualityToleranceNs`
abbrev pub timestamp_tolerance_ns : ℕ
timestamp_tolerance_ns = 1000

-- `std::abs(now - last)`
abbrev pub distance : ℕ → ℕ → ℕ
distance now last = if ltb now last then last - now else now - last

-- `static_cast<double>(now - last) * 1e-9`
unfoldable pub elapsed_s : (F : Float) → ℕ → ℕ → Float.Double F
elapsed_s F now last =
    Float.mul F
      (if ltb now last
        then Float.neg F (Float.double F (last - now))
        else Float.double F (now - last))
      (Float.decimal F 1 9)

module _ {F : Float} where
  open F use {Double, decimal, double, add, div, lt}

  abbrev pub zero_vector : Vector3 F
  zero_vector = record { x = decimal 0 0; y = decimal 0 0; z = decimal 0 0 }

  unfoldable pub average_origin_pending : GnssAdapterConfig F → Origin F → Bool
  average_origin_pending c o = not o.origin_initialized && same_text c.origin_mode average_fixed

  unfoldable pub mark_origin_average_skip :
      GnssAdapterConfig F → Origin F → Option Reason → AverageNote F → AverageNote F
  unfolding average_origin_pending
  mark_origin_average_skip c o reason n =
      if not (average_origin_pending c o) || n.accepted then n else record n {
        skipped = true;
        count = length o.origin_ecef_samples % 2 ^ 32;
        skip_reason = elim reason [ none ↦ some not_origin_candidate | some r ↦ some r ];
      }

  unfoldable pub clear_origin_average_state : Origin F → Origin F
  clear_origin_average_state o = record o {
    origin_ecef_samples = [];
    have_last_origin_candidate_time = false;
    last_origin_candidate_time_ns = 0;
  }

  unfoldable pub reset_origin_average :
      GnssAdapterConfig F → Reason → Double → Origin F → AverageNote F → Origin F × AverageNote F
  unfolding average_origin_pending clear_origin_average_state
  reset_origin_average c reason gap_s o n = if not (average_origin_pending c o) then (o, n) else (
    clear_origin_average_state o,
    record n {
      was_reset = true;
      old_count = length o.origin_ecef_samples % 2 ^ 32;
      reset_reason = some reason;
      gap_s = gap_s;
      count = 0;
    },
  )

  unfoldable pub sum_samples : List (Vector3 F) → Vector3 F → Vector3 F
  sum_samples [] v = v
  sum_samples (s ∷ samples) v =
      sum_samples samples (record { x = add v.x s.x; y = add v.y s.y; z = add v.z s.z })

  -- `updateOrigin` when it has the samples that it waits for.
  unfoldable pub finish_average : Origin F → Origin F
  unfolding sum_samples clear_origin_average_state
  finish_average o =
      let n = double (length o.origin_ecef_samples) in
      let sum = sum_samples o.origin_ecef_samples zero_vector in
      let ecef : Vector3 F = record { x = div sum.x n; y = div sum.y n; z = div sum.z n } in
      let lla = ecef_to_geodetic F ecef in
      clear_origin_average_state (record o {
        origin_ecef = ecef;
        origin_lla = lla;
        origin_initialized = finite_vector F lla && finite_vector F ecef;
      })

  -- `updateOrigin` behind the look at the last candidate.
  unfoldable pub add_sample :
      GnssAdapterConfig F
      → Vector3 F
      → ℕ
      → Origin F
      → AverageNote F
      → Origin F × AverageNote F × Bool
  unfolding finish_average
  add_sample c ecef measurement_time_ns o n =
      let o' : Origin F = record o {
        origin_ecef_samples = o.origin_ecef_samples ++ (ecef ∷ []);
        have_last_origin_candidate_time = true;
        last_origin_candidate_time_ns = measurement_time_ns;
      } in
      let n' : AverageNote F = record n {
        accepted = true;
        count = length o'.origin_ecef_samples % 2 ^ 32;
      } in
      let done = finish_average o' in
      if ltb (length o'.origin_ecef_samples) (to_word 64 c.origin_average_count)
      then (o', n', false)
      else (done, n', done.origin_initialized)

  -- `updateOrigin` in the mode `average_fixed`.
  unfoldable pub update_average :
      GnssAdapterConfig F
      → Vector3 F
      → ℕ
      → Origin F
      → AverageNote F
      → Origin F × AverageNote F × Bool
  unfolding mark_origin_average_skip reset_origin_average add_sample elapsed_s
  update_average c ecef now o n =
      let delta_s = elapsed_s F now o.last_origin_candidate_time_ns in
      let back = reset_origin_average c time_regression delta_s o n in
      let gap = reset_origin_average c valid_fixed_gap delta_s o n in
      if not o.have_last_origin_candidate_time
      then add_sample c ecef now o n
      else if leb (distance now o.last_origin_candidate_time_ns) timestamp_tolerance_ns
      then (o, mark_origin_average_skip c o (some duplicate_origin_candidate) n, false)
      else if lt delta_s (decimal 0 0)
      then add_sample c ecef now (back.0) (back.1)
      else if lt c.origin_average_max_gap_s delta_s
      then add_sample c ecef now (gap.0) (gap.1)
      else add_sample c ecef now o n

  -- `updateOrigin`; the last part of its result says whether it has set the origin.
  unfoldable pub update_origin :
      GnssAdapterConfig F
      → GnssQuality
      → Vector3 F
      → Vector3 F
      → ℕ
      → Origin F
      → AverageNote F
      → Origin F × AverageNote F × Bool
  unfolding update_average
  update_origin c filtered_quality lla ecef now o n =
      if o.origin_initialized || not (same_quality filtered_quality rtk_fixed)
      then (o, n, false)
      else if same_text c.origin_mode first_fixed
      then (record o { origin_lla = lla; origin_ecef = ecef; origin_initialized = true }, n, true)
      else if not (same_text c.origin_mode average_fixed)
      then (o, n, false)
      else update_average c ecef now o n

  -- `resetRuntimeState` on these members.
  unfoldable pub new_origin : GnssAdapterConfig F → Origin F
  new_origin c =
      let cleared : Origin F = record {
        origin_initialized = false;
        origin_lla = zero_vector;
        origin_ecef = zero_vector;
        origin_ecef_samples = [];
        have_last_origin_candidate_time = false;
        last_origin_candidate_time_ns = 0;
      } in
      let ecef = geodetic_to_ecef F c.origin_lla in
      if same_text c.origin_mode manual && finite_vector F c.origin_lla
      then record cleared {
        origin_lla = c.origin_lla;
        origin_ecef = ecef;
        origin_initialized = finite_vector F ecef;
      }
      else cleared
