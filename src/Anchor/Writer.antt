-- ===== src/Anchor/Writer.antt =====
-- `ImuTimeAnchorWriter` of imu_time_anchor.cpp. The clock's value at a call is an argument, and so
-- is what the calls of the operating system give in `Open`.
use fast_livo_ug.Base.{
  ℕ, ◌+◌, ◌-◌, ◌%◌, ◌^◌, List, [], ◌∷◌, Option, none, some, Bool, false, not, ◌&&◌, max, ltb, leb,
  ◌==◌, if◌then◌else◌,
}
use fast_livo_ug.Anchor.{
  ImuTimeAnchorState, Anchor, write_state, clock_unknown, device_ptp, device_gps, Reader, returned,
  inconsistent, attempt,
}

pub record ImuTimeAnchorWriterConfig : Type 0 where
  pub min_ready_samples : ℕ
  pub max_stamp_step_ns : ℕ
  pub uncertainty_ns : ℕ

pub record ImuTimeAnchorWriterStats : Type 0 where
  pub accepted : ℕ
  pub invalid_stamp : ℕ
  pub invalid_host_time : ℕ
  pub invalid_clock_source : ℕ
  pub backward : ℕ
  pub duplicate : ℕ
  pub jump : ℕ
  pub clock_source_change : ℕ

pub record ImuTimeAnchorWriter : Type 0 where
  pub config : ImuTimeAnchorWriterConfig
  pub stats : ImuTimeAnchorWriterStats
  -- The mapped memory; `none` is the null pointer.
  pub state : Option ImuTimeAnchorState
  pub path : List ℕ
  pub writer_epoch : ℕ
  pub last_imu_stamp_ns : ℕ
  pub last_host_monotonic_ns : ℕ
  pub last_clock_source : ℕ
  pub consecutive_samples : ℕ
  pub ready : Bool

abbrev no_stats : ImuTimeAnchorWriterStats
no_stats = record {
  accepted = 0;
  invalid_stamp = 0;
  invalid_host_time = 0;
  invalid_clock_source = 0;
  backward = 0;
  duplicate = 0;
  jump = 0;
  clock_source_change = 0;
}

unfoldable pub new_writer : ImuTimeAnchorWriterConfig → ImuTimeAnchorWriter
new_writer c = record {
  config = record {
    min_ready_samples = max 2 c.min_ready_samples;
    max_stamp_step_ns = max 1 c.max_stamp_step_ns;
    uncertainty_ns = max 1 c.uncertainty_ns;
  };
  stats = no_stats;
  state = none;
  path = [];
  writer_epoch = 0;
  last_imu_stamp_ns = 0;
  last_host_monotonic_ns = 0;
  last_clock_source = clock_unknown;
  consecutive_samples = 0;
  ready = false;
}

unfoldable pub reset_continuity : ImuTimeAnchorWriter → ImuTimeAnchorWriter
reset_continuity w = record w {
  last_imu_stamp_ns = 0;
  last_host_monotonic_ns = 0;
  last_clock_source = clock_unknown;
  consecutive_samples = 0;
  ready = false;
}

-- `WriteImuTimeAnchorState` returns at once on a null pointer.
unfoldable pub write_mapped : Option ImuTimeAnchorState → Anchor → Option ImuTimeAnchorState
write_mapped none a = none
write_mapped (some m) a = some (write_state m a)

unfoldable pub commit : ImuTimeAnchorWriter → ℕ → ℕ → ℕ → ℕ → Bool → ImuTimeAnchorWriter
unfolding write_mapped
commit w imu_stamp_ns host_monotonic_ns update_monotonic_ns clock_source ready = record w {
  state = write_mapped w.state (record {
    writer_epoch = w.writer_epoch;
    imu_stamp_ns = imu_stamp_ns;
    host_monotonic_ns = host_monotonic_ns;
    update_monotonic_ns = update_monotonic_ns;
    clock_source = clock_source;
    ready = ready;
    uncertainty_ns = w.config.uncertainty_ns;
  });
}

unfoldable pub invalidate : ImuTimeAnchorWriter → ℕ → ImuTimeAnchorWriter
unfolding reset_continuity commit
invalidate w update_monotonic_ns =
    commit (reset_continuity w) 0 0 update_monotonic_ns clock_unknown false

-- `Close`, with the time of its call. The memory that it leaves behind is the second part.
unfoldable pub close : ImuTimeAnchorWriter → ℕ → ImuTimeAnchorWriter × Option ImuTimeAnchorState
unfolding invalidate
close w now = elim w.state [
  | none ↦ (w, none)
  | some m ↦
      let v = invalidate w now in (record v { state = none; path = []; writer_epoch = 0 }, v.state)
]

-- What `open`, `ftruncate` and `mmap` give: the first that fails, or the mapped memory.
pub data Mapping : Type 0 where
  open_failed ftruncate_failed mmap_failed : Mapping
  mapped : ImuTimeAnchorState → Mapping

-- The texts that `Open` puts in `error`.
pub data OpenError : Type 0 where
  path_not_absolute epoch_zero open_error ftruncate_error mmap_error : OpenError

unfoldable pub is_absolute : List ℕ → Bool
is_absolute [] = false
is_absolute (c ∷ path) = c == b'/'

unfoldable pub map_state :
    ImuTimeAnchorWriter → List ℕ → ℕ → ℕ → Mapping → ImuTimeAnchorWriter × Option OpenError
unfolding reset_continuity commit
map_state w path epoch now open_failed = (w, some open_error)
map_state w path epoch now ftruncate_failed = (w, some ftruncate_error)
map_state w path epoch now mmap_failed = (w, some mmap_error)
map_state w path epoch now (mapped m) = (
  commit (reset_continuity (record w { state = some m; path = path; writer_epoch = epoch })) 0 0 now
      clock_unknown false,
  none,
)

-- `Open`; `none` is `return true`. `closing` is the time of its `Close`.
unfoldable pub open_writer :
    ImuTimeAnchorWriter → List ℕ → ℕ → ℕ → ℕ → Mapping → ImuTimeAnchorWriter × Option OpenError
unfolding close is_absolute map_state
open_writer w path epoch closing now mapping =
    let v = (close w closing).0 in
    if not (is_absolute path)
    then (v, some path_not_absolute)
    else if epoch == 0
    then (v, some epoch_zero)
    else map_state v path epoch now mapping

pub record Sample : Type 0 where
  pub imu_stamp_ns : ℕ
  pub host_monotonic_ns : ℕ
  pub clock_source : ℕ
  pub update_monotonic_ns : ℕ

-- `++counter` on `uint64_t`, made if the test holds.
abbrev pub count_if : Bool → ℕ → ℕ
count_if b n = if b then (n + 1) % 2 ^ 64 else n

-- The tests of `Observe` behind its early returns, each of which clears `continuous`.
pub record Breaks : Type 0 where
  pub source_change : Bool
  pub duplicate : Bool
  pub backward : Bool
  pub jump : Bool
  pub host : Bool
  pub continuous : Bool

unfoldable pub find_breaks : ImuTimeAnchorWriter → Sample → Breaks
find_breaks w s =
    let continuous = not (w.consecutive_samples == 0) in
    let source_change = continuous && not (s.clock_source == w.last_clock_source) in
    let continuous = continuous && not source_change in
    let duplicate = continuous && s.imu_stamp_ns == w.last_imu_stamp_ns in
    let backward = continuous && not duplicate && ltb s.imu_stamp_ns w.last_imu_stamp_ns in
    let jump =
      continuous
      && not duplicate
      && not backward
      && ltb w.config.max_stamp_step_ns (s.imu_stamp_ns - w.last_imu_stamp_ns) in
    let continuous = continuous && not duplicate && not backward && not jump in
    let host = continuous && leb s.host_monotonic_ns w.last_host_monotonic_ns in
    record {
      source_change = source_change;
      duplicate = duplicate;
      backward = backward;
      jump = jump;
      host = host;
      continuous = continuous && not host;
    }

-- `Observe` behind its early returns.
unfoldable pub accept_sample : ImuTimeAnchorWriter → Sample → ImuTimeAnchorWriter
unfolding find_breaks commit
accept_sample w s =
    let b = find_breaks w s in
    let consecutive = if b.continuous then (w.consecutive_samples + 1) % 2 ^ 32 else 1 in
    let ready = leb w.config.min_ready_samples consecutive in
    let stats = record w.stats {
      clock_source_change = count_if b.source_change w.stats.clock_source_change;
      duplicate = count_if b.duplicate w.stats.duplicate;
      backward = count_if b.backward w.stats.backward;
      jump = count_if b.jump w.stats.jump;
      invalid_host_time = count_if b.host w.stats.invalid_host_time;
      accepted = (w.stats.accepted + 1) % 2 ^ 64;
    } in
    commit
      (record w {
        stats = stats;
        consecutive_samples = consecutive;
        last_imu_stamp_ns = s.imu_stamp_ns;
        last_host_monotonic_ns = s.host_monotonic_ns;
        last_clock_source = s.clock_source;
        ready = ready;
      })
      s.imu_stamp_ns s.host_monotonic_ns s.update_monotonic_ns s.clock_source ready

-- `Observe` on a writer that is open. Its result is `ready`.
unfoldable pub observe_open : ImuTimeAnchorWriter → Sample → ImuTimeAnchorWriter
unfolding invalidate accept_sample
observe_open w s =
    let st = w.stats in
    if s.imu_stamp_ns == 0
    then invalidate
        (record w { stats = record st { invalid_stamp = (st.invalid_stamp + 1) % 2 ^ 64 } })
        s.update_monotonic_ns
    else if s.host_monotonic_ns == 0
    then invalidate
        (record w { stats = record st { invalid_host_time = (st.invalid_host_time + 1) % 2 ^ 64 } })
        s.update_monotonic_ns
    else if not (s.clock_source == device_ptp) && not (s.clock_source == device_gps)
    then invalidate
        (record w {
          stats = record st { invalid_clock_source = (st.invalid_clock_source + 1) % 2 ^ 64 };
        })
        s.update_monotonic_ns
    else accept_sample w s

unfoldable pub observe : ImuTimeAnchorWriter → Sample → ImuTimeAnchorWriter × Bool
unfolding observe_open
observe w s = elim w.state [ none ↦ (w, false) | some m ↦ let v = observe_open w s in (v, v.ready) ]

-- `ReadSnapshot`, before its first load; the attempts are the default of the header.
unfoldable pub read_snapshot : ImuTimeAnchorWriter → Reader
read_snapshot w = elim w.state [ none ↦ returned inconsistent none | some m ↦ attempt 8 ]
