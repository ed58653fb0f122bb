-- ===== src/Fault/Tests.antt =====
-- A run of the injector over messages before, in and behind its interval.
use fast_livo_ug.Base.{
  ℕ, ◌*◌, ◌%◌, ◌^◌, ◌≡◌, refl, List, [], ◌∷◌, some, true, false, not, ◌==◌, min, length, get_or,
}
use fast_livo_ug.Float.Whole.{whole}
use fast_livo_ug.Gnss.{GnssPvtSolnMsg, gps_to_utc_stamp_ns, gps_week_tow_to_unix_utc, find_leap}
use fast_livo_ug.Fault.{
  GnssFaultMode, drop, float, GnssFaultInjectorCore, new_injector, is_passthrough,
  conservation_delta, no_counts,
}
use fast_livo_ug.Fault.Reference.{
  Interval, outcomes, outcome, covers, degrade, fault_stamps, last_or,
}
use fast_livo_ug.Fault.Step.{one_if}
use fast_livo_ug.Fault.Run.{
  output_all, process_all, count_started, count_recovered, output_all-process_all,
  process_all_conserves,
}
use fast_livo_ug.Fault.Marks.{faults_flagged_once}

abbrev nanoseconds : ℕ → ℕ
nanoseconds s = s * 1000000000

abbrev message : ℕ → ℕ → GnssPvtSolnMsg whole ℕ
message week tow = record {
  week = week;
  tow = tow;
  fix_type = 3;
  valid_fix = true;
  diff_soln = true;
  carr_soln = 2;
  rest = tow;
}

-- 18 leap seconds by then.
stamp_run : gps_to_utc_stamp_ns whole nanoseconds 2200 1018 ≡ some 1646525800000000000
unfolding gps_to_utc_stamp_ns gps_week_tow_to_unix_utc find_leap
stamp_run = refl

abbrev start : ℕ
start = 1646525800000000000

abbrev end : ℕ
end = 1646525802000000000

-- One before the interval, two in it, one behind it, and one with no time.
abbrev messages : List (GnssPvtSolnMsg whole ℕ)
messages =
    message 2200 1017
    ∷ message 2200 1018
    ∷ message 2200 1019
    ∷ message 2200 1020
    ∷ message 0 1021
    ∷ []

abbrev core : GnssFaultMode → GnssFaultInjectorCore
core mode = record {
  mode = mode;
  start_stamp_ns = start;
  end_stamp_ns = end;
  counters = no_counts;
  have_first_fault_stamp = false;
  have_first_recovered_stamp = false;
  first_fault_stamp_ns = 0;
  last_fault_stamp_ns = 0;
  first_recovered_stamp_ns = 0;
}

abbrev gap : Interval
gap = record { mode = drop; start_stamp_ns = start; end_stamp_ns = end }

drop_run :
    outcomes whole ℕ nanoseconds gap messages
    ≡ message 2200 1017 ∷ message 2200 1020 ∷ message 0 1021 ∷ []
unfolding outcomes outcome covers degrade is_passthrough gps_to_utc_stamp_ns
    gps_week_tow_to_unix_utc find_leap
drop_run = refl

output_all-process_all_example :
    output_all (process_all whole ℕ nanoseconds (core drop) messages).1
    ≡ outcomes whole ℕ nanoseconds gap messages
output_all-process_all_example = output_all-process_all whole ℕ nanoseconds (core drop) messages

process_all_conserves_example :
    let c = (process_all whole ℕ nanoseconds (core drop) messages).0 in
    (conservation_delta c ≡ 0)
    × (c.counters.received % 2 ^ 64 ≡ length messages % 2 ^ 64)
    × (c.counters.passed % 2 ^ 64 ≡ length (outcomes whole ℕ nanoseconds gap messages) % 2 ^ 64)
unfolding new_injector is_passthrough
process_all_conserves_example =
    process_all_conserves whole ℕ nanoseconds drop start end (core drop) messages refl

faults_flagged_once_example :
    let (c, decisions) = process_all whole ℕ nanoseconds (core float) messages in
    let stamps =
      fault_stamps whole ℕ nanoseconds
        (record { mode = float; start_stamp_ns = start; end_stamp_ns = end })
        messages in
    (count_started decisions ≡ min 1 (length stamps))
    × (c.have_first_fault_stamp ≡ not (length stamps == 0))
    × (c.first_fault_stamp_ns ≡ get_or stamps 0 0)
    × (c.last_fault_stamp_ns ≡ last_or 0 stamps)
    × (count_recovered decisions ≡ one_if c.have_first_recovered_stamp)
    × (c.have_first_recovered_stamp ≡ true → c.have_first_fault_stamp ≡ true)
unfolding new_injector is_passthrough
faults_flagged_once_example =
    faults_flagged_once whole ℕ nanoseconds float start end (core float) messages refl

abbrev drop_text : List ℕ
drop_text = b'd' ∷ b'r' ∷ b'o' ∷ b'p' ∷ []
