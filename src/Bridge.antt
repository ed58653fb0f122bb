-- ===== src/Bridge.antt =====
-- `BridgeNode` of sensor_time_bridge/src/bridge_node.cpp: the events of the microcontroller's boots,
-- and the sessions that they open. The messages' headers and the texts of `last_detail_` are left
-- out, and `publishMapping` and `publishStatus` only report.
pub mod Boots
pub mod Sessions
pub mod Observations
mod Tests
use fast_livo_ug.Base.{
  ℕ, zero, suc, ◌+◌, ◌*◌, ◌/◌, ◌%◌, ◌^◌, List, [], ◌∷◌, Option, none, some, Bool, true, false, not,
  ◌&&◌, ◌||◌, max, bit_xor, ltb, leb, ◌==◌, if◌then◌else◌,
}
use fast_livo_ug.Float.{Float}
use fast_livo_ug.LocalTime.{
  synthetic_epoch_ns, tick_to_local_ns, TickResult, local_ns, failed, StreamMonotonicGate,
  gate_reset, accept,
}
use fast_livo_ug.Wire.Types.{protocol_version, boot, type_code, WireEvent, QueuedWireEvent}
use fast_livo_ug.Wire.Sequence
use fast_livo_ug.Wire.Sequence.{SequenceTracker, observe}
use fast_livo_ug.Mapping.Types.{TimePair}
use fast_livo_ug.Mapping.Machine
use fast_livo_ug.Mapping.Machine.{MappingStateMachine, Reason, add_pair}
use fast_livo_ug.Mapping.Host.{HostMonotonicMapper, add_host, reset_host}

-- The loop of `fnv1a`, with the rounds left.
unfoldable pub fnv_rounds : ℕ → ℕ → ℕ → ℕ → ℕ
fnv_rounds zero i value hash = hash
fnv_rounds (suc n) i value hash =
    fnv_rounds n (i + 1) value (bit_xor hash (value / 2 ^ (8 * i) % 256) * 1099511628211 % 2 ^ 64)

unfoldable pub fnv1a : ℕ → ℕ → ℕ
unfolding fnv_rounds
fnv1a value seed = let hash = fnv_rounds 8 0 value seed in if hash == 0 then 1 else hash

-- `set.count(id) != 0`, of a set as the list of what was inserted.
unfoldable pub contains : List ℕ → ℕ → Bool
contains [] id = false
contains (x ∷ ids) id = x == id || contains ids id

-- `++counter` on `uint64_t`.
abbrev next64 : ℕ → ℕ
next64 n = (n + 1) % 2 ^ 64

pub record BridgeNode (F : Float) : Type 0 where
  pub sequence_tracker : SequenceTracker
  pub monotonic_gate : StreamMonotonicGate
  pub mapping : MappingStateMachine F
  pub host_mapper : HostMonotonicMapper F
  pub retired_boot_ids : List ℕ
  pub writer_epoch : ℕ
  pub mcu_boot_id : ℕ
  pub session_id : ℕ
  pub latest_local_ns : ℕ
  pub event_gap_count : ℕ
  pub frame_error_count : ℕ
  pub duplicate_event_count : ℕ
  pub mcu_dropped_event_count : ℕ
  pub rejected_observation_count : ℕ
  pub last_event_sequence : ℕ
  pub continuous_events : ℕ
  pub have_boot : Bool
  pub local_ready : Bool

-- The message that `processEvent` publishes, without its header.
pub record McuEvent : Type 0 where
  pub session_id : ℕ
  pub mcu_boot_id : ℕ
  pub writer_epoch : ℕ
  pub protocol_version : ℕ
  pub event_sequence : ℕ
  pub message_type : ℕ
  pub source_sequence : ℕ
  pub local_tick : ℕ
  pub local_tick_hz : ℕ
  pub local_stamp_ns : ℕ
  pub host_receive_monotonic_ns : ℕ
  pub time_uncertainty_ns : ℕ
  pub flags : ℕ

module _ (F : Float) where
  unfoldable pub begin_session : BridgeNode F → ℕ → BridgeNode F
  begin_session n boot_id = record n {
    have_boot = true;
    mcu_boot_id = boot_id;
    session_id =
        fnv1a synthetic_epoch_ns (fnv1a protocol_version (fnv1a boot_id 1469598103934665603));
    continuous_events = 0;
    local_ready = false;
    latest_local_ns = 0;
    sequence_tracker = Sequence.reset;
    monotonic_gate = gate_reset;
    host_mapper = reset_host F n.host_mapper;
    mapping = Machine.reset F n.mapping;
  }

  -- The first part of `processEvent`: it returns, or goes on.
  pub data Checked : Type 0 where
    stop : BridgeNode F → Checked
    go : BridgeNode F → Checked

  unfoldable pub check_boot : BridgeNode F → WireEvent → Checked
  check_boot n wire =
      let is_boot = type_code wire.message_type == type_code boot in
      if n.have_boot && not (wire.mcu_boot_id == n.mcu_boot_id)
      then (if not is_boot || contains n.retired_boot_ids wire.mcu_boot_id
          then stop (record n { duplicate_event_count = next64 n.duplicate_event_count })
          else go (
              begin_session (record n { retired_boot_ids = n.mcu_boot_id ∷ n.retired_boot_ids })
                wire.mcu_boot_id))
      else if not n.have_boot
      then (if not is_boot
          then stop (record n { frame_error_count = next64 n.frame_error_count })
          else go (begin_session n wire.mcu_boot_id))
      else go n

  -- The stamp computed from the tick, if it is the stamp sent.
  unfoldable pub check_stamp : WireEvent → Option ℕ
  check_stamp wire = elim (tick_to_local_ns wire.local_tick wire.local_tick_hz) [
    | failed error ↦ none
    | local_ns calculated_ns ↦
        if not (calculated_ns == wire.local_stamp_ns) then none else some calculated_ns
  ]

  -- The assignments behind the last check.
  unfoldable pub note_event : BridgeNode F → QueuedWireEvent → ℕ → BridgeNode F
  note_event n received calculated_ns =
      let continuous =
        if ltb n.continuous_events 3 then n.continuous_events + 1 else n.continuous_events in
      record n {
        latest_local_ns = calculated_ns;
        last_event_sequence = received.event.event_sequence;
        mcu_dropped_event_count =
            max n.mcu_dropped_event_count received.event.mcu_dropped_event_count;
        host_mapper = (add_host F n.host_mapper received.host_monotonic_ns calculated_ns).0;
        continuous_events = continuous;
        local_ready = leb 3 continuous;
      }

  unfoldable pub message_of : BridgeNode F → QueuedWireEvent → ℕ → McuEvent
  message_of n received calculated_ns = record {
    session_id = n.session_id;
    mcu_boot_id = n.mcu_boot_id;
    writer_epoch = n.writer_epoch;
    protocol_version = received.event.protocol_version;
    event_sequence = received.event.event_sequence;
    message_type = type_code received.event.message_type;
    source_sequence = received.event.source_sequence;
    local_tick = received.event.local_tick;
    local_tick_hz = received.event.local_tick_hz;
    local_stamp_ns = calculated_ns;
    host_receive_monotonic_ns = received.host_monotonic_ns;
    time_uncertainty_ns = 1000;
    flags = received.event.flags;
  }

  unfoldable pub accept_stream : BridgeNode F → QueuedWireEvent → ℕ → BridgeNode F × Option McuEvent
  unfolding note_event message_of
  accept_stream n received calculated_ns =
      let (gate, fresh) =
        accept n.monotonic_gate n.session_id (type_code received.event.message_type)
          calculated_ns in
      let m : BridgeNode F = record n { monotonic_gate = gate } in
      if not fresh
      then (record m { frame_error_count = next64 m.frame_error_count }, none)
      else (note_event m received calculated_ns, some (message_of m received calculated_ns))

  unfoldable pub accept_sequence :
      BridgeNode F → QueuedWireEvent → ℕ → BridgeNode F × Option McuEvent
  unfolding accept_stream
  accept_sequence n received calculated_ns =
      let (tracker, sequence) =
        observe n.sequence_tracker received.event.mcu_boot_id received.event.event_sequence in
      let m : BridgeNode F = record n { sequence_tracker = tracker } in
      if not sequence.accept
      then (record m { duplicate_event_count = next64 m.duplicate_event_count }, none)
      else accept_stream
          (record m { event_gap_count = (m.event_gap_count + sequence.gap) % 2 ^ 64 }) received
          calculated_ns

  -- `processEvent` behind the check of the boot.
  unfoldable pub process_checked : BridgeNode F → QueuedWireEvent → BridgeNode F × Option McuEvent
  unfolding check_stamp accept_sequence
  process_checked n received = elim (check_stamp received.event) [
    | none ↦ (record n { frame_error_count = next64 n.frame_error_count }, none)
    | some calculated_ns ↦ accept_sequence n received calculated_ns
  ]

  -- The node, and the event that is published.
  unfoldable pub process_event : BridgeNode F → QueuedWireEvent → BridgeNode F × Option McuEvent
  unfolding check_boot process_checked
  process_event n received = elim (check_boot n received.event) [
    | stop m ↦ (m, none)
    | go m ↦ process_checked m received
  ]

  -- The loop of `drain` over the events that it pops, in order.
  unfoldable pub process_all : BridgeNode F → List QueuedWireEvent → BridgeNode F
  process_all n [] = n
  process_all n (received ∷ rest) = process_all (process_event n received).0 rest
