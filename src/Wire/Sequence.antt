-- ===== src/Wire/Sequence.antt =====
-- `SequenceTracker` of wire_protocol.cpp: 32-bit event sequence numbers with wrap-around.
pub mod Order
use fast_livo_ug.Base.{
  ℕ, ◌+◌, ◌-◌, ◌%◌, ◌^◌, Bool, true, false, not, ◌||◌, leb, ◌==◌, if◌then◌else◌,
}
use fast_livo_ug.Wire.Types.{SequenceResult}

pub record SequenceTracker : Type 0 where
  pub valid : Bool
  pub boot_id : ℕ
  pub sequence : ℕ

abbrev pub reset : SequenceTracker
reset = record { valid = false; boot_id = 0; sequence = 0 }

-- `const uint32_t delta = sequence - sequence_`
abbrev pub delta_of : ℕ → ℕ → ℕ
delta_of sequence last = (sequence + 2 ^ 32 - last) % 2 ^ 32

abbrev accepted : ℕ → SequenceResult
accepted gap = record { accept = true; duplicate = false; old = false; gap = gap }

unfoldable pub observe : SequenceTracker → ℕ → ℕ → SequenceTracker × SequenceResult
observe t boot_id sequence =
    let delta = delta_of sequence t.sequence in
    if not t.valid || not (boot_id == t.boot_id)
    then (record { valid = true; boot_id = boot_id; sequence = sequence }, accepted 0)
    else if delta == 0
    then (t, record { accept = false; duplicate = true; old = false; gap = 0 })
    else if leb 0x8000_0000 delta
    then (t, record { accept = false; duplicate = false; old = true; gap = 0 })
    else (record t { sequence = sequence }, accepted (delta - 1))
