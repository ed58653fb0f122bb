-- ===== src/Bridge/Tests.antt =====
-- Runs of the bridge over two boots.
use fast_livo_ug.Mapping.Machine.Relock.{add_pairs}
use fast_livo_ug.Base.{ℕ, ◌+◌, List, ◌%◌, ◌^◌, ◌⊎◌, ◌≡◌, refl, [], ◌∷◌, true, false, inr}
use fast_livo_ug.Float.Whole.{whole}
use fast_livo_ug.LocalTime.{gate_reset}
use fast_livo_ug.Wire.Types.{boot, QueuedWireEvent}
use fast_livo_ug.Wire.Sequence.{reset}
use fast_livo_ug.Mapping.Types.{local_only, no_mapping}
use fast_livo_ug.Base.{arith}
use fast_livo_ug.Mapping.Machine.Invariant.{IsValid}
use fast_livo_ug.Bridge.Observations.{
  UtcObservation, used_pairs, count_unassociated, observe_all, observe_all-add_pairs,
}
use fast_livo_ug.Bridge.{contains, BridgeNode, process_all}
use fast_livo_ug.Bridge.Boots.{IsFresh}
use fast_livo_ug.Bridge.Sessions.{process_all-retired}

-- Boot 77 is current, and boot 5 is retired.
abbrev node : BridgeNode whole
node = record {
  sequence_tracker = reset;
  monotonic_gate = gate_reset;
  mapping = record {
    parameters = record {
      mapping_window_size = 3;
      min_pps_pairs = 3;
      min_fit_span_ns = 2000000000;
      max_pps_residual_ns = 5000;
      max_scale_ppm = 200;
      pps_timeout_ns = 2500000000;
      holdover_invalid_timeout_ns = 60000000000;
      relock_confirm_count = 3;
      max_pair_interval_error_ns = 1000000;
      max_relock_step_ns = 1000000;
      mapping_history_size = 2;
      holdover_uncertainty_growth_ns_per_s = 1000;
    };
    state = local_only;
    active = no_mapping whole;
    history = [];
    pairs = [];
    candidate_pairs = [];
    mapping_version = 0;
    accepted_pair_count = 0;
    rejected_pair_count = 0;
    last_pair_local_ns = 0;
    holdover_start_local_ns = 0;
    have_last_pair = false;
  };
  host_mapper = record { window_size = 3; pairs = []; mapping = no_mapping whole };
  retired_boot_ids = 5 ∷ [];
  writer_epoch = 1;
  mcu_boot_id = 77;
  session_id = 1;
  latest_local_ns = 0;
  event_gap_count = 0;
  frame_error_count = 0;
  duplicate_event_count = 0;
  mcu_dropped_event_count = 0;
  rejected_observation_count = 0;
  last_event_sequence = 0;
  continuous_events = 0;
  have_boot = true;
  local_ready = false;
}

-- The announcement of a boot at tick 1000 of a 1 GHz clock.
abbrev announcement : ℕ → QueuedWireEvent
announcement boot_id = record {
  event = record {
    protocol_version = 1;
    message_type = boot;
    flags = 0;
    mcu_boot_id = boot_id;
    event_sequence = 0;
    source_sequence = 0;
    local_tick = 1000;
    local_stamp_ns = 946684800000001000;
    local_tick_hz = 1000000000;
    mcu_dropped_event_count = 0;
    payload = [];
  };
  host_monotonic_ns = 50;
}

node-IsFresh : IsFresh node
unfolding contains
node-IsFresh = inr (refl, refl)

abbrev boots : List QueuedWireEvent
boots = announcement 78 ∷ announcement 5 ∷ announcement 77 ∷ []

process_all-retired_example :
    IsFresh (process_all whole node boots)
    × ((contains node.retired_boot_ids 5 ≡ false)
        ⊎ (contains (process_all whole node boots).retired_boot_ids 5 ≡ true))
    × ((node.have_boot ≡ false)
        ⊎ ((process_all whole node boots).mcu_boot_id ≡ node.mcu_boot_id)
        ⊎ (contains (process_all whole node boots).retired_boot_ids node.mcu_boot_id ≡ true))
process_all-retired_example = process_all-retired whole boots node 5 node-IsFresh

node_mapping-IsValid : IsValid whole node.mapping
node_mapping-IsValid = record {
  window = omega arith;
  history_limit = omega arith;
  pairs = (tt, omega arith);
  candidates = (tt, omega arith);
  history = omega arith;
  active = λ h. cc;
}

-- A hardware PPS of the current session.
abbrev observation : UtcObservation
observation = record {
  valid = true;
  session_id = 1;
  association_type = 2;
  local_stamp_ns = 1000000000;
  utc_stamp_ns = 101000000000;
  time_uncertainty_ns = 10;
}

-- One that counts, one of another session, and one without a pulse.
abbrev observations : List UtcObservation
observations =
    observation
    ∷ record observation { session_id = 9; local_stamp_ns = 1500000000 }
    ∷ record observation { association_type = 1; local_stamp_ns = 2000000000 }
    ∷ []

pairs_run :
    (used_pairs 1 observations
      ≡ record { local_ns = 1000000000; utc_ns = 101000000000; uncertainty_ns = 10 } ∷ [])
    × (count_unassociated 1 observations ≡ 1)
unfolding used_pairs count_unassociated
pairs_run = (refl, refl)

observe_all-add_pairs_example :
    ((observe_all whole node observations).mapping
      ≡ add_pairs whole node.mapping (used_pairs 1 observations))
    × ((observe_all whole node observations).rejected_observation_count % 2 ^ 32
        ≡ (0 + count_unassociated 1 observations) % 2 ^ 32)
    × IsValid whole (observe_all whole node observations).mapping
observe_all-add_pairs_example = observe_all-add_pairs whole observations node node_mapping-IsValid
