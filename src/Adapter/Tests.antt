-- ===== src/Adapter/Tests.antt =====
-- Runs of the adapter over concrete messages.
use fast_livo_ug.Base.{
  ℕ, ◌*◌, ◌≡◌, ◌≤◌, ◌<◌, ◌≢◌, if◌then◌else◌, refl, arith, [], ◌∷◌, map, All, some, true, false,
  less, same_text, to_word,
}
use fast_livo_ug.Float.{Float}
use fast_livo_ug.Float.Fixed.{fixed}
use fast_livo_ug.Fault.Step.{interval}
use fast_livo_ug.Fault.Run
use fast_livo_ug.Fault.Run.{output_all}
use fast_livo_ug.Fault.{GnssFaultInjectorCore, no_counts, GnssFaultMode, is_passthrough}
use fast_livo_ug.Fault.Reference.{covers, stamp_of}
use fast_livo_ug.Gnss.{gps_to_utc_stamp_ns, gps_week_tow_to_unix_utc, find_leap}
use fast_livo_ug.Gnss.Geodesy.{finite_vector, geodetic_to_ecef, ecef_delta_to_enu}
use fast_livo_ug.Adapter.{GnssAdapter, PvtFields, quality_code, active_fixed}
use fast_livo_ug.Adapter.FixedState.{
  Limits, limits, new_tracking, increment_saturated, update_fixed_state, gain, lose, confirm,
}
use fast_livo_ug.Adapter.Average.{
  average_origin_pending, update_origin, new_origin, elapsed_s, timestamp_tolerance_ns,
}
use fast_livo_ug.Adapter.Config.{
  component_enabled, validate_config, valid_modes, valid_counts, valid_limits, initialize,
}
use fast_livo_ug.Adapter.Stages.{
  new_adapter, pvt_status, check_source, check_regression, check_time,
}
use fast_livo_ug.Adapter.Quality.{classify, defect, solution_quality, failed_gate, quality_accepted}
use fast_livo_ug.Adapter.Output.{fill_odometry}
use fast_livo_ug.Adapter.Measure.{
  gap_tracking, filter_quality, find_position, find, quality_enabled, find_origin, local_odometry,
  answer, measure,
}
use fast_livo_ug.Adapter.Process.{process_timed, process_checked, process_pvt, process_stamped}
use fast_livo_ug.Adapter.Calls.{legacy, process, process_all}
use fast_livo_ug.Adapter.Tracked.{IsLimits, new_tracking-IsTracking, tracked}
use fast_livo_ug.Adapter.Confirmation.{fixed_run, copies, tracking_settles, activation_needs_run}
use fast_livo_ug.Adapter.Kept.{IsInt, IsLoaded, IsAdapter, process_all-IsAdapter}
use fast_livo_ug.Adapter.Locked.{origin_locked}
use fast_livo_ug.Adapter.Accepted.{IsAcceptance, process_pvt-IsAcceptance}
use fast_livo_ug.Adapter.Ordered.{last_time}
use fast_livo_ug.Adapter.Spaced.{accepted_stamps, AreSpaced, accepted_stamps-AreSpaced}
use fast_livo_ug.Adapter.Degraded.{AllUnfixed, degraded-AllUnfixed}
use fast_livo_ug.Adapter.Scenario.{
  config, solution, second, at_second, policy, from_sec, start, run,
}

initialize_run : initialize config policy ≡ some start
unfolding initialize component_enabled validate_config valid_modes valid_counts valid_limits
    same_text less finite_vector new_adapter new_origin
initialize_run = refl

loaded : IsLoaded config
unfolding IsInt
loaded = record {
  average = omega arith;
  confirm = omega arith;
  lost = omega arith;
  recovery = omega arith;
}

process_all-IsAdapter_example : IsAdapter (run (1 ∷ 2 ∷ 3 ∷ [])).0
process_all-IsAdapter_example =
    process_all-IsAdapter from_sec config policy start (map at_second (1 ∷ 2 ∷ 3 ∷ [])) loaded
      initialize_run

-- Two fixed solutions activate; the third is accepted.
run_accepts : accepted_stamps (run (1 ∷ 2 ∷ 3 ∷ [])).1 ≡ 2 * second ∷ 3 * second ∷ []
unfolding accepted_stamps process_all process process_stamped process_pvt process_checked
    process_timed check_source check_regression check_time measure gap_tracking find find_position
    find_origin classify defect solution_quality failed_gate filter_quality update_fixed_state
    increment_saturated gain lose confirm update_origin answer quality_enabled quality_accepted
    local_odometry same_text less to_word quality_code finite_vector geodetic_to_ecef
    ecef_delta_to_enu fill_odometry average_origin_pending new_adapter new_origin pvt_status
    elapsed_s
run_accepts = refl

two : GnssAdapter fixed
two = (run (1 ∷ 2 ∷ [])).0

two_set : two.origin.origin_initialized ≡ true
unfolding two process_all process process_stamped process_pvt process_checked process_timed
    check_source check_regression check_time measure gap_tracking find find_position find_origin
    classify defect solution_quality failed_gate filter_quality update_fixed_state
    increment_saturated gain lose confirm update_origin answer quality_enabled quality_accepted
    local_odometry same_text less to_word quality_code finite_vector geodetic_to_ecef
    ecef_delta_to_enu fill_odometry average_origin_pending new_adapter new_origin pvt_status
    elapsed_s
two_set = refl

two_pending : average_origin_pending two.config two.origin ≡ false
unfolding two process_all process process_stamped process_pvt process_checked process_timed
    check_source check_regression check_time measure gap_tracking find find_position find_origin
    classify defect solution_quality failed_gate filter_quality update_fixed_state
    increment_saturated gain lose confirm update_origin answer quality_enabled quality_accepted
    local_odometry same_text less to_word quality_code finite_vector geodetic_to_ecef
    ecef_delta_to_enu fill_odometry average_origin_pending new_adapter new_origin pvt_status
    elapsed_s
two_pending = refl

two_monotonic : two.config.require_monotonic_time ≡ true
unfolding two process_all process process_stamped process_pvt process_checked process_timed
    check_source check_regression check_time measure gap_tracking find find_position find_origin
    classify defect solution_quality failed_gate filter_quality update_fixed_state
    increment_saturated gain lose confirm update_origin answer quality_enabled quality_accepted
    local_odometry same_text less to_word quality_code finite_vector geodetic_to_ecef
    ecef_delta_to_enu fill_odometry average_origin_pending new_adapter new_origin pvt_status
    elapsed_s
two_monotonic = refl

three_accepted :
    (process_pvt true true (some (1, 1)) (solution 3) (3 * second) two).1.status.accepted ≡ true
unfolding two process_all process process_stamped process_pvt process_checked process_timed
    check_source check_regression check_time measure gap_tracking find find_position find_origin
    classify defect solution_quality failed_gate filter_quality update_fixed_state
    increment_saturated gain lose confirm update_origin answer quality_enabled quality_accepted
    local_odometry same_text less to_word quality_code finite_vector geodetic_to_ecef
    ecef_delta_to_enu fill_odometry average_origin_pending new_adapter new_origin pvt_status
    elapsed_s
three_accepted = refl

origin_locked_example :
    ((process_all from_sec (map at_second (3 ∷ 4 ∷ [])) two).0.origin ≡ two.origin)
    × ((process_all from_sec (map at_second (3 ∷ 4 ∷ [])) two).0.config ≡ two.config)
origin_locked_example = origin_locked from_sec (map at_second (3 ∷ 4 ∷ [])) two two_set

process_pvt-IsAcceptance_example :
    IsAcceptance true true
      (solution 3)
      (3 * second)
      two.config
      (process_pvt true true (some (1, 1)) (solution 3) (3 * second) two)
process_pvt-IsAcceptance_example =
    process_pvt-IsAcceptance true true (some (1, 1)) (solution 3) (3 * second) two three_accepted

negative :
    (n : ℕ)
    → timestamp_tolerance_ns < n
    → Float.lt fixed
        (Float.mul fixed (Float.neg fixed (Float.double fixed n)) (Float.decimal fixed 1 9))
        (Float.decimal fixed 0 0)
      ≡ true
negative n h = ground arith

-- The second message repeats, and one is late.
accepted_stamps-AreSpaced_example :
    AreSpaced
      (last_time two)
      (accepted_stamps (process_all from_sec (map at_second (3 ∷ 3 ∷ 1 ∷ 4 ∷ [])) two).1)
accepted_stamps-AreSpaced_example =
    accepted_stamps-AreSpaced negative from_sec (map at_second (3 ∷ 3 ∷ 1 ∷ 4 ∷ [])) two two_pending
      two_monotonic

abbrev counts : Limits
counts = limits config

counts-IsLimits : IsLimits counts
unfolding to_word
counts-IsLimits = record {
  confirm = omega arith;
  lost = omega arith;
  recovery = omega arith;
  confirm_word = omega arith;
  lost_word = omega arith;
  recovery_word = omega arith;
}

counts_confirm : counts.confirm ≤ 3
unfolding to_word
counts_confirm = omega arith

counts_recovery : counts.recovery ≤ 3
unfolding to_word
counts_recovery = omega arith

counts_lost : counts.lost ≤ 3
unfolding to_word
counts_lost = omega arith

tracking_settles_example :
    ((tracked counts new_tracking (copies 3 true)).tracking_state ≡ active_fixed)
    × ((tracked counts new_tracking (copies 3 false)).tracking_state ≢ active_fixed)
tracking_settles_example =
    tracking_settles counts new_tracking 3 counts-IsLimits
      (new_tracking-IsTracking counts counts-IsLimits) counts_confirm counts_recovery counts_lost

one_fixed : (tracked counts new_tracking (true ∷ [])).tracking_state ≢ active_fixed
unfolding tracked update_fixed_state increment_saturated gain confirm to_word
one_fixed e = cc

two_fixed : (tracked counts new_tracking (true ∷ true ∷ [])).tracking_state ≡ active_fixed
unfolding tracked update_fixed_state increment_saturated gain confirm to_word
two_fixed = refl

activation_needs_run_example :
    (if (tracked counts new_tracking (true ∷ [])).was_active_once
      then counts.recovery
      else counts.confirm)
    ≤ fixed_run (true ∷ true ∷ [])
activation_needs_run_example =
    activation_needs_run counts true (true ∷ []) counts-IsLimits one_fixed two_fixed

-- An interval over the three messages.
abbrev floating : GnssFaultInjectorCore
floating = record {
  mode = GnssFaultMode.float;
  start_stamp_ns = 1646524783 * second;
  end_stamp_ns = 1646524790 * second;
  counters = no_counts;
  have_first_fault_stamp = false;
  have_first_recovered_stamp = false;
  first_fault_stamp_ns = 0;
  last_fault_stamp_ns = 0;
  first_recovered_stamp_ns = 0;
}

solutions_covered :
    All
      (λ m. covers (interval floating) (stamp_of fixed (PvtFields fixed) from_sec m) ≡ true)
      (solution 2 ∷ solution 3 ∷ solution 4 ∷ [])
unfolding covers gps_to_utc_stamp_ns gps_week_tow_to_unix_utc find_leap is_passthrough
solutions_covered = (refl, (refl, (refl, tt)))

degraded-AllUnfixed_example : AllUnfixed two (
    process_all from_sec
      (map
        (λ m. legacy m 0)
        (output_all
          (Run.process_all fixed
            (PvtFields fixed)
            from_sec
            floating
            (solution 2 ∷ solution 3 ∷ solution 4 ∷ [])).1))
      two)
degraded-AllUnfixed_example =
    degraded-AllUnfixed from_sec floating (solution 2 ∷ solution 3 ∷ solution 4 ∷ []) 0 two
      solutions_covered
