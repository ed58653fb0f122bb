-- ===== src/Mapping/Tests.antt =====
-- Runs of the time mapping, on pairs that a whole-number arithmetic fits exactly.
use fast_livo_ug.Base.{
  ℕ, ◌+◌, ◌*◌, ◌%◌, ◌^◌, ◌≡◌, ◌≤◌, refl, List, [], ◌∷◌, All, none, some, true, arith,
}
use fast_livo_ug.Float.Whole.{whole}
use fast_livo_ug.Mapping.Types.{locked, relocking, TimePair, MappingParameters, AffineMapping}
use fast_livo_ug.Mapping.Convert.{median, clamp_u64, local_to_utc}
use fast_livo_ug.Mapping.Fit.{minimum_uncertainty, reweigh, robust_affine_fit}
use fast_livo_ug.Mapping.Fit.Result.{IsFitOf, robust_affine_fit-IsFitOf}
use fast_livo_ug.Mapping.Machine.{
  MappingStateMachine, candidate_vector, candidate_ready, relock_continuous, add_pair, update,
  append_checked, appended, check_pair, distance,
}
use fast_livo_ug.Mapping.Machine.Invariant
use fast_livo_ug.Mapping.Machine.Invariant.{IsValid, new_machine-IsValid, needs_mapping}
use fast_livo_ug.Mapping.Machine.Preserve.{add_pair-IsValid, update-IsValid}
use fast_livo_ug.Mapping.Machine.Relock.{add_pairs, relock_step, relock_stalls}
use fast_livo_ug.Mapping.Machine.Offset.{IsLaterOn}

abbrev settings : MappingParameters whole
settings = record {
  mapping_window_size = 3;
  min_pps_pairs = 3;
  min_fit_span_ns = 2000000000;
  max_pps_residual_ns = 5000;
  max_scale_ppm = 200;
  pps_timeout_ns = 2500000000;
  holdover_invalid_timeout_ns = 60000000000;
  relock_confirm_count = 3;
  max_pair_interval_error_ns = 1000000;
  max_relock_step_ns = 1000000;
  mapping_history_size = 2;
  holdover_uncertainty_growth_ns_per_s = 1000;
}

-- The pair of second `n`, 100 s apart in the two clocks.
abbrev pair_at : ℕ → TimePair
pair_at n = record {
  local_ns = n * 1000000000;
  utc_ns = (n + 100) * 1000000000;
  uncertainty_ns = 10;
}

abbrev three_pairs : List TimePair
three_pairs = pair_at 1 ∷ pair_at 2 ∷ pair_at 3 ∷ []

-- The line through the three pairs.
abbrev first_line : AffineMapping whole
first_line = record {
  valid = true;
  local_reference_ns = 2000000000;
  utc_reference_ns = 102000000000;
  utc_ns_per_local_ns = 1;
  slope_ppm = 0;
  valid_from_local_ns = 1000000000;
  fit_span_ns = 2000000000;
  sample_count = 3;
  residual_rms_ns = 0;
  residual_max_ns = 0;
  time_uncertainty_ns = 10;
}

three_pairs_fit : robust_affine_fit whole three_pairs 5000 ≡ some first_line
unfolding robust_affine_fit minimum_uncertainty reweigh median clamp_u64
three_pairs_fit = refl

robust_affine_fit-IsFitOf_example : IsFitOf whole three_pairs first_line
robust_affine_fit-IsFitOf_example = robust_affine_fit-IsFitOf whole three_pairs 5000 three_pairs_fit

appended_third :
    append_checked 3 1000000 (pair_at 1 ∷ pair_at 2 ∷ []) (pair_at 3) ≡ appended three_pairs
unfolding append_checked
appended_third = refl

-- Two candidate pairs behind a mapping that is still in use.
abbrev relocking_machine : MappingStateMachine whole
relocking_machine = record {
  parameters = settings;
  state = relocking;
  active = first_line;
  history = [];
  pairs = [];
  candidate_pairs = pair_at 1 ∷ pair_at 2 ∷ [];
  mapping_version = 1;
  accepted_pair_count = 5;
  rejected_pair_count = 0;
  last_pair_local_ns = 2000000000;
  holdover_start_local_ns = 1000000000;
  have_last_pair = true;
}

relocking_machine-IsValid : Invariant.IsValid whole relocking_machine
relocking_machine-IsValid = record {
  window = omega arith;
  history_limit = omega arith;
  pairs = (tt, omega arith);
  candidates = (omega arith, omega arith);
  history = omega arith;
  active = λ _. refl;
}

relocks : (add_pair whole relocking_machine (pair_at 3)).0.state ≡ locked
unfolding add_pair candidate_vector candidate_ready robust_affine_fit minimum_uncertainty reweigh
    median clamp_u64 relock_continuous local_to_utc
relocks = refl

relocked_line : (add_pair whole relocking_machine (pair_at 3)).0.active ≡ first_line
unfolding add_pair candidate_vector candidate_ready robust_affine_fit minimum_uncertainty reweigh
    median clamp_u64 relock_continuous local_to_utc
relocked_line = refl

third_utc : local_to_utc whole first_line 3000000000 ≡ some 103000000000
unfolding local_to_utc
third_utc = refl

relock_step_example : distance 103000000000 103000000000 ≤ 1000000
relock_step_example =
    relock_step whole relocking_machine (pair_at 3) 103000000000 103000000000 refl refl relocks
      third_utc (rw relocked_line third_utc)

add_pair-IsValid_example : Invariant.IsValid whole (add_pair whole relocking_machine (pair_at 3)).0
add_pair-IsValid_example =
    add_pair-IsValid whole relocking_machine (pair_at 3) relocking_machine-IsValid

update-IsValid_example : Invariant.IsValid whole (update whole relocking_machine 90000000000)
update-IsValid_example =
    update-IsValid whole relocking_machine 90000000000 relocking_machine-IsValid

-- A pair whose UTC second is one too many, as the first candidate.
abbrev outlier : TimePair
outlier = record { local_ns = 1000000000; utc_ns = 102000000000; uncertainty_ns = 10 }

abbrev stuck_machine : MappingStateMachine whole
stuck_machine = record relocking_machine { candidate_pairs = outlier ∷ [] }

-- The next two seconds, on the line of the mapping.
third_on_line : IsLaterOn 100000000000 outlier (pair_at 3)
third_on_line = record { line = refl; later = omega arith; later_utc = omega arith }

fourth_on_line : IsLaterOn 100000000000 outlier (pair_at 4)
fourth_on_line = record { line = refl; later = omega arith; later_utc = omega arith }

relock_stalls_example :
    let m = add_pairs whole stuck_machine (pair_at 3 ∷ pair_at 4 ∷ []) in
    (m.state ≡ relocking)
    × (m.candidate_pairs ≡ outlier ∷ [])
    × (m.active ≡ first_line)
    × (m.accepted_pair_count ≡ 5)
    × (m.rejected_pair_count % 2 ^ 32 ≡ 2)
    × All (λ p. check_pair 1000000 [] p ≡ none) (pair_at 3 ∷ pair_at 4 ∷ [])
relock_stalls_example =
    relock_stalls whole stuck_machine outlier [] (pair_at 3 ∷ pair_at 4 ∷ []) 100000000000 refl refl
      (omega arith) (third_on_line, (fourth_on_line, tt))
