-- ===== src/Fault.antt =====
-- `GnssFaultInjectorCore` of src/FAST_LIVO2/src/gnss_fault_injector.cpp and its header: a filter on the
-- GNSS solutions that drops or degrades those in an interval of message time.
pub mod Reference
pub mod Step
pub mod Run
pub mod Marks
pub mod Names
mod Tests
use fast_livo_ug.Base.{
  ℕ, ◌+◌, ◌-◌, ◌%◌, ◌^◌, List, [], ◌∷◌, Option, none, some, Bool, true, false, not, ◌&&◌, ltb, leb,
  if◌then◌else◌,
}
use fast_livo_ug.Float.{Float}
use fast_livo_ug.Gnss.{GnssPvtSolnMsg, gps_to_utc_stamp_ns}

pub data GnssFaultMode : Type 0 where
  passthrough drop float invalid : GnssFaultMode

pub data GnssFaultAction : Type 0 where
  passed dropped modified_to_float modified_to_invalid invalid_time_passed : GnssFaultAction

pub record GnssFaultCounters : Type 0 where
  pub received : ℕ
  pub passed : ℕ
  pub dropped : ℕ
  pub modified_to_float : ℕ
  pub modified_to_invalid : ℕ
  pub invalid_time : ℕ

pub record GnssFaultDecision (F : Float) (Rest : Type 0) : Type 0 where
  pub message : GnssPvtSolnMsg F Rest
  pub action : GnssFaultAction
  pub publish : Bool
  pub valid_time : Bool
  pub in_fault_window : Bool
  pub fault_started_now : Bool
  pub recovered_now : Bool
  pub stamp_ns : ℕ

pub record GnssFaultInjectorCore : Type 0 where
  pub mode : GnssFaultMode
  pub start_stamp_ns : ℕ
  pub end_stamp_ns : ℕ
  pub counters : GnssFaultCounters
  pub have_first_fault_stamp : Bool
  pub have_first_recovered_stamp : Bool
  pub first_fault_stamp_ns : ℕ
  pub last_fault_stamp_ns : ℕ
  pub first_recovered_stamp_ns : ℕ

unfoldable pub is_passthrough : GnssFaultMode → Bool
is_passthrough passthrough = true
is_passthrough drop = false
is_passthrough float = false
is_passthrough invalid = false

abbrev pub no_counts : GnssFaultCounters
no_counts = record {
  received = 0;
  passed = 0;
  dropped = 0;
  modified_to_float = 0;
  modified_to_invalid = 0;
  invalid_time = 0;
}

-- The constructor; `none` is its `std::invalid_argument`.
unfoldable pub new_injector : GnssFaultMode → ℕ → ℕ → Option GnssFaultInjectorCore
unfolding is_passthrough
new_injector mode start_stamp_ns end_stamp_ns =
    if not (is_passthrough mode) && leb end_stamp_ns start_stamp_ns
    then none
    else some (record {
      mode = mode;
      start_stamp_ns = start_stamp_ns;
      end_stamp_ns = end_stamp_ns;
      counters = no_counts;
      have_first_fault_stamp = false;
      have_first_recovered_stamp = false;
      first_fault_stamp_ns = 0;
      last_fault_stamp_ns = 0;
      first_recovered_stamp_ns = 0;
    })

-- `++counter` on `uint64_t`.
abbrev pub increment : ℕ → ℕ
increment n = (n + 1) % 2 ^ 64

-- `++counters_.passed; return result;`
unfoldable pub pass :
    {F : Float} {Rest : Type 0}
    → GnssFaultInjectorCore
    → GnssFaultDecision F Rest
    → GnssFaultInjectorCore × GnssFaultDecision F Rest
pass c d = (record c { counters = record c.counters { passed = increment c.counters.passed } }, d)

-- The `switch` on the mode, with the return behind it.
unfoldable pub apply_mode :
    {F : Float} {Rest : Type 0}
    → GnssFaultMode
    → GnssFaultInjectorCore
    → GnssFaultDecision F Rest
    → GnssFaultInjectorCore × GnssFaultDecision F Rest
unfolding pass
apply_mode passthrough c d = pass c d
apply_mode drop c d = (
  record c { counters = record c.counters { dropped = increment c.counters.dropped } },
  record d { action = dropped; publish = false },
)
apply_mode float c d =
    pass
      (record c {
        counters = record c.counters { modified_to_float = increment c.counters.modified_to_float };
      })
      (record d {
        action = modified_to_float;
        message = record d.message {
          valid_fix = true;
          fix_type = 3;
          diff_soln = true;
          carr_soln = 1;
        };
      })
apply_mode invalid c d =
    pass
      (record c {
        counters = record c.counters {
          modified_to_invalid = increment c.counters.modified_to_invalid;
        };
      })
      (record d {
        action = modified_to_invalid;
        message = record d.message {
          valid_fix = false;
          fix_type = 0;
          diff_soln = false;
          carr_soln = 0;
        };
      })

unfoldable pub in_window : GnssFaultInjectorCore → ℕ → Bool
unfolding is_passthrough
in_window c stamp_ns =
    not (is_passthrough c.mode) && leb c.start_stamp_ns stamp_ns && ltb stamp_ns c.end_stamp_ns

-- A message in the interval.
unfoldable pub process_fault :
    {F : Float} {Rest : Type 0}
    → GnssFaultInjectorCore
    → GnssFaultDecision F Rest
    → GnssFaultInjectorCore × GnssFaultDecision F Rest
unfolding apply_mode
process_fault c d =
    let first = not c.have_first_fault_stamp in
    apply_mode c.mode
      (record c {
        have_first_fault_stamp = true;
        first_fault_stamp_ns = if first then d.stamp_ns else c.first_fault_stamp_ns;
        last_fault_stamp_ns = d.stamp_ns;
      })
      (record d { fault_started_now = first })

-- A message with a time outside the interval.
unfoldable pub process_outside :
    {F : Float} {Rest : Type 0}
    → GnssFaultInjectorCore
    → GnssFaultDecision F Rest
    → GnssFaultInjectorCore × GnssFaultDecision F Rest
unfolding pass
process_outside c d =
    if c.have_first_fault_stamp && not c.have_first_recovered_stamp && leb c.end_stamp_ns d.stamp_ns
    then pass
        (record c { have_first_recovered_stamp = true; first_recovered_stamp_ns = d.stamp_ns })
        (record d { recovered_now = true })
    else pass c d

unfoldable pub process_stamped :
    {F : Float} {Rest : Type 0}
    → GnssFaultInjectorCore
    → GnssFaultDecision F Rest
    → Option ℕ
    → GnssFaultInjectorCore × GnssFaultDecision F Rest
unfolding pass in_window process_fault process_outside
process_stamped c d none =
    pass
      (record c {
        counters = record c.counters { invalid_time = increment c.counters.invalid_time };
      })
      (record d { action = invalid_time_passed })
process_stamped c d (some stamp_ns) =
    let inside = in_window c stamp_ns in
    let d' = record d { valid_time = true; stamp_ns = stamp_ns; in_fault_window = inside } in
    if inside then process_fault c d' else process_outside c d'

-- `GnssFaultDecision result; result.message = message;`
abbrev pub new_decision :
    {F : Float} {Rest : Type 0} → GnssPvtSolnMsg F Rest → GnssFaultDecision F Rest
new_decision m = record {
  message = m;
  action = passed;
  publish = true;
  valid_time = false;
  in_fault_window = false;
  fault_started_now = false;
  recovered_now = false;
  stamp_ns = 0;
}

module _ (F : Float) (Rest : Type 0) (from_sec : Float.Double F → ℕ) where
  unfoldable pub process :
      GnssFaultInjectorCore
      → GnssPvtSolnMsg F Rest
      → GnssFaultInjectorCore × GnssFaultDecision F Rest
  unfolding process_stamped
  process c m =
      process_stamped
        (record c { counters = record c.counters { received = increment c.counters.received } })
        (new_decision m) (gps_to_utc_stamp_ns F from_sec m.week m.tow)

-- The two's complement bits of `conservationDelta`.
unfoldable pub conservation_delta : GnssFaultInjectorCore → ℕ
conservation_delta c =
    (c.counters.received
      + (2 ^ 64 - c.counters.passed % 2 ^ 64)
      + (2 ^ 64 - c.counters.dropped % 2 ^ 64))
    % 2 ^ 64
