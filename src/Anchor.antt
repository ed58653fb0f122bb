-- ===== src/Anchor.antt =====
-- The shared-memory time anchor of src/livox_ros_driver2/src/imu_time_anchor.cpp and its header: the
-- memory, what a write stores and a read loads, one access at a time.
pub mod Writer
pub mod Schedule
pub mod Snapshot
pub mod Seqlock
pub mod Reading
pub mod Chain
pub mod Continuity
mod Tests
use fast_livo_ug.Base.{
  ℕ, zero, suc, ◌+◌, ◌*◌, ◌%◌, ◌^◌, List, [], ◌∷◌, ◌++◌, Option, none, some, Bool, true, false, not,
  ◌&&◌, ◌||◌, bit_and, ◌==◌, if◌then◌else◌,
}

abbrev pub anchor_magic : ℕ
anchor_magic = 0x31414d49

abbrev pub anchor_version : ℕ
anchor_version = 1

-- `ImuTimeAnchorClockSource`
abbrev pub clock_unknown : ℕ
clock_unknown = 0

abbrev pub device_ptp : ℕ
device_ptp = 1

abbrev pub device_gps : ℕ
device_gps = 2

pub record ImuTimeAnchorState : Type 0 where
  pub magic : ℕ
  pub version : ℕ
  pub writer_epoch : ℕ
  pub write_sequence : ℕ
  pub imu_stamp_ns : ℕ
  pub host_monotonic_ns : ℕ
  pub update_monotonic_ns : ℕ
  pub clock_source : ℕ
  pub ready : ℕ
  pub uncertainty_ns : ℕ

pub record ImuTimeAnchorSnapshot : Type 0 where
  pub magic : ℕ
  pub version : ℕ
  pub writer_epoch : ℕ
  pub write_sequence : ℕ
  pub imu_stamp_ns : ℕ
  pub host_monotonic_ns : ℕ
  pub update_monotonic_ns : ℕ
  pub clock_source : ℕ
  pub ready : Bool
  pub uncertainty_ns : ℕ

-- The arguments of `WriteImuTimeAnchorState` behind the pointer.
pub record Anchor : Type 0 where
  pub writer_epoch : ℕ
  pub imu_stamp_ns : ℕ
  pub host_monotonic_ns : ℕ
  pub update_monotonic_ns : ℕ
  pub clock_source : ℕ
  pub ready : Bool
  pub uncertainty_ns : ℕ

pub data Field : Type 0 where
  magic version writer_epoch imu_stamp_ns host_monotonic_ns : Field
  update_monotonic_ns clock_source ready uncertainty_ns : Field

-- One `__atomic_store_n`.
pub data Store : Type 0 where
  sequence : ℕ → Store
  field : Field → ℕ → Store

unfoldable pub set_field : Field → ℕ → ImuTimeAnchorState → ImuTimeAnchorState
set_field magic v m = record m { magic = v }
set_field version v m = record m { version = v }
set_field writer_epoch v m = record m { writer_epoch = v }
set_field imu_stamp_ns v m = record m { imu_stamp_ns = v }
set_field host_monotonic_ns v m = record m { host_monotonic_ns = v }
set_field update_monotonic_ns v m = record m { update_monotonic_ns = v }
set_field clock_source v m = record m { clock_source = v }
set_field ready v m = record m { ready = v }
set_field uncertainty_ns v m = record m { uncertainty_ns = v }

unfoldable pub store : Store → ImuTimeAnchorState → ImuTimeAnchorState
unfolding set_field
store (sequence n) m = record m { write_sequence = n }
store (field f v) m = set_field f v m

unfoldable pub store_all : List Store → ImuTimeAnchorState → ImuTimeAnchorState
store_all [] m = m
store_all (x ∷ stores) m = store_all stores (store x m)

-- `sequence & 1U`
abbrev pub odd : ℕ → Bool
odd n = not (bit_and n 1 == 0)

-- The odd number that opens a write.
unfoldable pub opening : ℕ → ℕ
opening n = (if odd n then n + 2 else n + 1) % 2 ^ 64

-- The stores between the first and the last.
abbrev pub field_stores : Anchor → List Store
field_stores a =
    field magic anchor_magic
    ∷ field version anchor_version
    ∷ field writer_epoch a.writer_epoch
    ∷ field imu_stamp_ns a.imu_stamp_ns
    ∷ field host_monotonic_ns a.host_monotonic_ns
    ∷ field update_monotonic_ns a.update_monotonic_ns
    ∷ field clock_source a.clock_source
    ∷ field ready (if a.ready then 1 else 0)
    ∷ field uncertainty_ns a.uncertainty_ns
    ∷ []

-- The stores of `WriteImuTimeAnchorState`, in order, after its load of the sequence `n`.
unfoldable pub write_stores : ℕ → Anchor → List Store
write_stores n a =
    sequence (opening n) ∷ (field_stores a ++ (sequence ((opening n + 1) % 2 ^ 64) ∷ []))

-- `WriteImuTimeAnchorState`, with nothing in between.
unfoldable pub write_state : ImuTimeAnchorState → Anchor → ImuTimeAnchorState
unfolding store_all write_stores
write_state m a = store_all (write_stores m.write_sequence a) m

pub data ImuTimeAnchorReadResult : Type 0 where
  read_ok inconsistent bad_protocol not_ready empty : ImuTimeAnchorReadResult

-- `ImuTimeAnchorSnapshot candidate;`
abbrev pub no_snapshot : ImuTimeAnchorSnapshot
no_snapshot = record {
  magic = 0;
  version = 0;
  writer_epoch = 0;
  write_sequence = 0;
  imu_stamp_ns = 0;
  host_monotonic_ns = 0;
  update_monotonic_ns = 0;
  clock_source = clock_unknown;
  ready = false;
  uncertainty_ns = 0;
}

-- One `candidate.f = __atomic_load_n(&state->f, …)`.
unfoldable pub load : Field → ImuTimeAnchorState → ImuTimeAnchorSnapshot → ImuTimeAnchorSnapshot
load magic m c = record c { magic = m.magic }
load version m c = record c { version = m.version }
load writer_epoch m c = record c { writer_epoch = m.writer_epoch }
load imu_stamp_ns m c = record c { imu_stamp_ns = m.imu_stamp_ns }
load host_monotonic_ns m c = record c { host_monotonic_ns = m.host_monotonic_ns }
load update_monotonic_ns m c = record c { update_monotonic_ns = m.update_monotonic_ns }
load clock_source m c = record c { clock_source = m.clock_source }
load ready m c = record c { ready = not (m.ready == 0) }
load uncertainty_ns m c = record c { uncertainty_ns = m.uncertainty_ns }

-- The loads of one attempt, in order.
abbrev pub all_fields : List Field
all_fields =
    magic ∷ version ∷ writer_epoch ∷ imu_stamp_ns ∷ host_monotonic_ns ∷ update_monotonic_ns
    ∷ clock_source ∷ ready ∷ uncertainty_ns ∷ []

-- The result for a consistent candidate.
unfoldable pub classify : ImuTimeAnchorSnapshot → ImuTimeAnchorReadResult
classify c =
    if not (c.magic == anchor_magic) || not (c.version == anchor_version)
    then bad_protocol
    else if c.writer_epoch == 0 || not c.ready
    then not_ready
    else if c.imu_stamp_ns == 0 || c.host_monotonic_ns == 0
    then empty
    else read_ok

-- Where `ReadImuTimeAnchorState` stands: before an attempt, with the attempts left; in an attempt,
-- with the fields still to load; or returned, with the snapshot if one is written.
pub data Reader : Type 0 where
  attempt : ℕ → Reader
  loading : ℕ → ℕ → List Field → ImuTimeAnchorSnapshot → Reader
  returned : ImuTimeAnchorReadResult → Option ImuTimeAnchorSnapshot → Reader

-- The comparison at the end of an attempt.
unfoldable pub end_attempt : ℕ → ℕ → ℕ → ImuTimeAnchorSnapshot → Reader
unfolding classify
end_attempt left begin end_sequence c =
    let candidate = record c { write_sequence = end_sequence } in
    if not (begin == end_sequence) || odd end_sequence
    then attempt left
    else returned (classify candidate) (some candidate)

-- The reader after its next load.
unfoldable pub read_step : ImuTimeAnchorState → Reader → Reader
unfolding load end_attempt
read_step m (attempt zero) = returned inconsistent none
read_step m (attempt (suc left)) =
    if odd m.write_sequence
    then attempt left
    else loading left m.write_sequence all_fields no_snapshot
read_step m (loading left begin [] c) = end_attempt left begin m.write_sequence c
read_step m (loading left begin (f ∷ fields) c) = loading left begin fields (load f m c)
read_step m (returned r c) = returned r c
