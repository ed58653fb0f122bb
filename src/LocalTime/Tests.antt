-- ===== src/LocalTime/Tests.antt =====
-- Runs of the local clock's conversions and of the stream gate.
use fast_livo_ug.Base.{ℕ, ◌+◌, ◌-◌, ◌*◌, ◌^◌, ◌≡◌, ◌≤◌, ◌<◌, refl, [], ◌∷◌, arith}
use fast_livo_ug.LocalTime.{
  synthetic_epoch_ns, tick_to_local_ns, local_ns, failed, overflow, gate_reset, accept,
  enter_session, find_entry, finish_accept,
}
use fast_livo_ug.LocalTime.Ticks.{tick_to_local_ns_bounds, tick_to_local_ns_mono}
use fast_livo_ug.LocalTime.Streams.{
  last_stamp, accepted_stamps, IsIncreasing, accepted_stamps-IsIncreasing,
}

-- The stamps of ticks 3 and 4 of a clock of 2 Hz.
abbrev third : ℕ
third = 946684801500000000

abbrev fourth : ℕ
fourth = 946684802000000000

third_stamp : tick_to_local_ns 3 2 ≡ local_ns third
unfolding tick_to_local_ns
third_stamp = refl

fourth_stamp : tick_to_local_ns 4 2 ≡ local_ns fourth
unfolding tick_to_local_ns
fourth_stamp = refl

late_tick : tick_to_local_ns (2 ^ 64 - 1) 1 ≡ failed overflow
unfolding tick_to_local_ns
late_tick = refl

tick_to_local_ns_bounds_example :
    (synthetic_epoch_ns ≤ third)
    × (third < 2 ^ 64)
    × ((third - synthetic_epoch_ns) * 2 ≤ 3 * 1000000000)
    × (3 * 1000000000 < (third - synthetic_epoch_ns + 1) * 2)
tick_to_local_ns_bounds_example = tick_to_local_ns_bounds 3 2 third third_stamp

tick_to_local_ns_mono_example : third ≤ fourth
tick_to_local_ns_mono_example =
    tick_to_local_ns_mono 3 4 2 third fourth (omega arith) third_stamp fourth_stamp

-- Streams 1 and 2 of session 4; the second stamp of stream 1 is too early.
accepted_stamps-IsIncreasing_example :
    IsIncreasing
      (last_stamp (enter_session gate_reset 4).entries 1)
      (accepted_stamps gate_reset 4 1 ((1, 10) ∷ (2, 50) ∷ (1, 9) ∷ (1, 11) ∷ []))
accepted_stamps-IsIncreasing_example =
    accepted_stamps-IsIncreasing ((1, 10) ∷ (2, 50) ∷ (1, 9) ∷ (1, 11) ∷ []) gate_reset 4 1

accepted_stamps_run :
    accepted_stamps gate_reset 4 1 ((1, 10) ∷ (2, 50) ∷ (1, 9) ∷ (1, 11) ∷ []) ≡ 10 ∷ 11 ∷ []
unfolding accepted_stamps accept find_entry finish_accept enter_session
accepted_stamps_run = refl
