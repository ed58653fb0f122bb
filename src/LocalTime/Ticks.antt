-- ===== src/LocalTime/Ticks.antt =====
-- `tickToLocalNs` and `extendCounter16Snapshot` of local_time.cpp.
use fast_livo_ug.Base.{ℕ, ◌+◌, ◌-◌, ◌*◌, ◌/◌, ◌^◌, ◌≤◌, ◌<◌, ◌≡◌, arith}
use fast_livo_ug.LocalTime.{synthetic_epoch_ns, local_ns, tick_to_local_ns}
use native.Mathlib.Nat.{div-mul-le_self, lt-div-mul-add, le-div_iff_mul-le}

tick_to_local_ns_cases :
    (tick hz ns : ℕ)
    → tick_to_local_ns tick hz ≡ local_ns ns
    → (0 < hz) × (ns < 2 ^ 64) × (ns ≡ synthetic_epoch_ns + tick * 1000000000 / hz)
unfolding tick_to_local_ns
tick_to_local_ns_cases tick hz ns h = ground arith

-- A stamp that tickToLocalNs gives fits 64 bits, is not before the epoch, and is the exact time of
-- the tick rounded down.
pub tick_to_local_ns_bounds :
    (tick hz ns : ℕ)
    → tick_to_local_ns tick hz ≡ local_ns ns
    → (synthetic_epoch_ns ≤ ns)
      × (ns < 2 ^ 64)
      × ((ns - synthetic_epoch_ns) * hz ≤ tick * 1000000000)
      × (tick * 1000000000 < (ns - synthetic_epoch_ns + 1) * hz)
tick_to_local_ns_bounds tick hz ns h =
    let c = tick_to_local_ns_cases tick hz ns h in
    let elapsed : ns - synthetic_epoch_ns ≡ tick * 1000000000 / hz = omega (arith, c.2) in
    (
      omega (arith, c.2),
      c.1,
      rw elapsed (div-mul-le_self (tick * 1000000000) hz),
      rw elapsed (omega (arith, lt-div-mul-add {a = tick * 1000000000} c.0)),
    )

-- Later ticks of one clock have stamps that are not earlier.
pub tick_to_local_ns_mono :
    (a b hz x y : ℕ)
    → a < b
    → tick_to_local_ns a hz ≡ local_ns x
    → tick_to_local_ns b hz ≡ local_ns y
    → x ≤ y
tick_to_local_ns_mono a b hz x y lt p q =
    let c = tick_to_local_ns_cases a hz x p in
    let d = tick_to_local_ns_cases b hz y q in omega (arith, c.2, d.2, ordered c.0)
  where
    floor : a * 1000000000 / hz * hz ≤ a * 1000000000
    floor = div-mul-le_self (a * 1000000000) hz

    ordered : 0 < hz → a * 1000000000 / hz ≤ b * 1000000000 / hz
    ordered pos = (le-div_iff_mul-le pos).1 (omega (arith, floor))

-- Of two ticks of one clock of at most 10^9 Hz, the later has the later stamp.
tick_to_local_ns_strict :
    (a b hz x y : ℕ)
    → a < b
    → hz ≤ 1000000000
    → tick_to_local_ns a hz ≡ local_ns x
    → tick_to_local_ns b hz ≡ local_ns y
    → x < y
tick_to_local_ns_strict a b hz x y lt slow p q =
    let c = tick_to_local_ns_cases a hz x p in
    let d = tick_to_local_ns_cases b hz y q in omega (arith, c.2, d.2, apart c.0)
  where
    floor : a * 1000000000 / hz * hz ≤ a * 1000000000
    floor = div-mul-le_self (a * 1000000000) hz

    apart : 0 < hz → a * 1000000000 / hz + 1 ≤ b * 1000000000 / hz
    apart pos = (le-div_iff_mul-le pos).1 (omega (arith, floor))
