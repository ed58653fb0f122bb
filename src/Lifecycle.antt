-- ===== src/Lifecycle.antt =====
-- `LivoScanLifecycle` of src/FAST_LIVO2/include/livo_scan_lifecycle.h: the checks on what happens to one
-- LiDAR scan. A call gives the state it leaves and the `std::logic_error` that it throws, if any.
pub mod Checks
pub mod Scans
mod Tests
use fast_livo_ug.Base.{
  ℕ, ◌+◌, ◌%◌, ◌^◌, List, [], ◌∷◌, Option, none, some, Bool, true, false, not, ◌||◌, ltb, ◌==◌,
  if◌then◌else◌,
}
use fast_livo_ug.Float.{Float}

pub record LivoScanContractSnapshot (F : Float) : Type 0 where
  pub scan_id : ℕ
  pub scan_begin_time : Float.Double F
  pub scan_end_time : Float.Double F
  pub raw_point_count : ℕ
  pub image_events : ℕ
  pub lio_transactions : ℕ
  pub map_insertions : ℕ
  pub measurement_required : Bool
  pub state_time_monotonic : Bool

pub record LivoScanLifecycle (F : Float) : Type 0 where
  pub active : Bool
  pub last_state_time : Float.Double F
  pub snapshot : LivoScanContractSnapshot F

-- The texts of the exceptions.
pub data LogicError : Type 0 where
  invalid_scan no_active_scan time_backwards second_lio lio_off_endpoint : LogicError
  insertion_without_lio second_insertion not_one_lio many_insertions not_monotonic : LogicError

-- The arguments of `begin`.
pub record Scan (F : Float) : Type 0 where
  pub scan_id : ℕ
  pub scan_begin_time : Float.Double F
  pub scan_end_time : Float.Double F
  pub raw_point_count : ℕ
  pub measurement_required : Bool
  pub state_time : Float.Double F

-- One call that changes the state.
pub data Call (F : Float) : Type 0 where
  begin : Scan F → Call F
  note_image : Float.Double F → Call F
  note_lio_transaction : Float.Double F → Call F
  note_map_insertion : Call F

-- `++counter` on `uint64_t`.
abbrev pub increment : ℕ → ℕ
increment n = (n + 1) % 2 ^ 64

-- `kTimeEpsilon`
abbrev pub time_epsilon : (F : Float) → Float.Double F
time_epsilon F = Float.decimal F 1 6

module _ {F : Float} where
  open F use {Double, decimal, add, sub, le, lt}

  -- The next statement, unless the one before it threw.
  unfoldable pub and_then :
      LivoScanLifecycle F × Option LogicError
      → (LivoScanLifecycle F → LivoScanLifecycle F × Option LogicError)
      → LivoScanLifecycle F × Option LogicError
  and_then (l, none) next = next l
  and_then (l, some e) next = (l, some e)

  unfoldable pub new_lifecycle : LivoScanLifecycle F
  new_lifecycle = record {
    active = false;
    last_state_time = sub (decimal 0 0) (decimal 1 0);
    snapshot = record {
      scan_id = 0;
      scan_begin_time = decimal 0 0;
      scan_end_time = decimal 0 0;
      raw_point_count = 0;
      image_events = 0;
      lio_transactions = 0;
      map_insertions = 0;
      measurement_required = false;
      state_time_monotonic = true;
    };
  }

  unfoldable pub require_active : LivoScanLifecycle F → LivoScanLifecycle F × Option LogicError
  require_active l = if l.active then (l, none) else (l, some no_active_scan)

  unfoldable pub validate_completed : LivoScanLifecycle F → Option LogicError
  validate_completed l =
      if not l.active || not l.snapshot.measurement_required
      then none
      else if not (l.snapshot.lio_transactions == 1)
      then some not_one_lio
      else if ltb 1 l.snapshot.map_insertions
      then some many_insertions
      else if not l.snapshot.state_time_monotonic
      then some not_monotonic
      else none

  unfoldable pub note_state_time :
      Double → LivoScanLifecycle F → LivoScanLifecycle F × Option LogicError
  note_state_time timestamp l =
      if lt timestamp (sub l.last_state_time (time_epsilon F))
      then (
        record l { snapshot = record l.snapshot { state_time_monotonic = false } },
        some time_backwards,
      )
      else if lt l.last_state_time timestamp
      then (record l { last_state_time = timestamp }, none)
      else (l, none)

  -- `begin` behind its `validateCompleted`.
  unfoldable pub start_scan : Scan F → LivoScanLifecycle F → LivoScanLifecycle F × Option LogicError
  start_scan s l =
      if le s.scan_end_time s.scan_begin_time || s.raw_point_count == 0
      then (l, some invalid_scan)
      else (
        record {
          active = true;
          last_state_time = s.state_time;
          snapshot = record {
            scan_id = s.scan_id;
            scan_begin_time = s.scan_begin_time;
            scan_end_time = s.scan_end_time;
            raw_point_count = s.raw_point_count;
            image_events = 0;
            lio_transactions = 0;
            map_insertions = 0;
            measurement_required = s.measurement_required;
            state_time_monotonic = true;
          };
        },
        none,
      )

  unfoldable pub count_image : LivoScanLifecycle F → LivoScanLifecycle F × Option LogicError
  count_image l = (
    record l { snapshot = record l.snapshot { image_events = increment l.snapshot.image_events } },
    none,
  )

  -- `noteLioTransaction` behind the two calls that it starts with.
  unfoldable pub count_lio : Double → LivoScanLifecycle F → LivoScanLifecycle F × Option LogicError
  count_lio timestamp l =
      let n = increment l.snapshot.lio_transactions in
      let counted = record l { snapshot = record l.snapshot { lio_transactions = n } } in
      if not (n == 1)
      then (counted, some second_lio)
      else if lt timestamp (sub l.snapshot.scan_end_time (time_epsilon F))
          || lt (add l.snapshot.scan_end_time (time_epsilon F)) timestamp
      then (counted, some lio_off_endpoint)
      else (counted, none)

  -- `noteMapInsertion` behind its `requireActive`.
  unfoldable pub count_insertion : LivoScanLifecycle F → LivoScanLifecycle F × Option LogicError
  count_insertion l =
      let n = increment l.snapshot.map_insertions in
      let counted = record l { snapshot = record l.snapshot { map_insertions = n } } in
      if not (l.snapshot.lio_transactions == 1)
      then (l, some insertion_without_lio)
      else if not (n == 1)
      then (counted, some second_insertion)
      else (counted, none)

  unfoldable pub call : Call F → LivoScanLifecycle F → LivoScanLifecycle F × Option LogicError
  unfolding and_then require_active validate_completed note_state_time start_scan count_image
      count_lio count_insertion
  call (begin s) l = and_then (l, validate_completed l) (start_scan s)
  call (note_image t) l = and_then (and_then (require_active l) (note_state_time t)) count_image
  call (note_lio_transaction t) l =
      and_then (and_then (require_active l) (note_state_time t)) (count_lio t)
  call note_map_insertion l = and_then (require_active l) count_insertion

  -- Calls one after another, up to the first that throws.
  unfoldable pub calls :
      List (Call F) → LivoScanLifecycle F → LivoScanLifecycle F × Option LogicError
  unfolding call
  calls [] l = (l, none)
  calls (c ∷ cs) l = and_then (call c l) (calls cs)
