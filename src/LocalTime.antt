-- ===== src/LocalTime.antt =====
-- sensor_time_bridge/src/local_time.cpp: ticks to nanoseconds, the 16-bit counter, and the gate
-- that keeps each stream's stamps increasing.
pub mod Ticks
pub mod Streams
mod Tests
use fast_livo_ug.Base.{
  ℕ, ◌+◌, ◌*◌, ◌/◌, ◌^◌, List, [], ◌∷◌, ◌++◌, Option, none, some, Bool, true, false, not, ◌&&◌,
  ◌||◌, ltb, leb, ◌==◌, if◌then◌else◌, bit_or, length,
}

abbrev pub synthetic_epoch_ns : ℕ
synthetic_epoch_ns = 946684800000000000

-- The texts that `tickToLocalNs` puts in `error`.
pub data TickError : Type 0 where
  zero_tick_hz overflow : TickError

pub data TickResult : Type 0 where
  local_ns : ℕ → TickResult
  failed : TickError → TickResult

-- The source computes in 128 bits, which a 64-bit tick times 10^9 fits.
unfoldable pub tick_to_local_ns : ℕ → ℕ → TickResult
tick_to_local_ns local_tick local_tick_hz =
    let scaled = local_tick * 1000000000 in
    let elapsed = scaled / local_tick_hz in
    let result = synthetic_epoch_ns + elapsed in
    if local_tick_hz == 0
    then failed zero_tick_hz
    else if leb (2 ^ 64) result
    then failed overflow
    else local_ns result

-- `none` is `return false`: the high word changed during the snapshot.
unfoldable pub extend_counter16_snapshot : ℕ → ℕ → Bool → ℕ → Option ℕ
extend_counter16_snapshot high_before counter update_pending high_after =
    let high = if update_pending && ltb counter 0x8000 then high_before + 1 else high_before in
    if not (high_before == high_after) then none else some (bit_or (high * 2 ^ 16) counter)

pub record Entry : Type 0 where
  pub stream_id : ℕ
  pub stamp_ns : ℕ

-- `entries` is the filled part of the array, `entries_[0 .. entry_count_)`.
pub record StreamMonotonicGate : Type 0 where
  pub session_id : ℕ
  pub have_session : Bool
  pub entries : List Entry

abbrev pub max_entries : ℕ
max_entries = 16

abbrev pub gate_reset : StreamMonotonicGate
gate_reset = record { session_id = 0; have_session = false; entries = [] }

-- What the search loop over the entries found.
pub data Found : Type 0 where
  missing : Found
  stale : Found
  updated : List Entry → Found

-- `entry` put back before the part of the array that was searched.
abbrev keep_entry : Entry → Found → Found
keep_entry entry missing = missing
keep_entry entry stale = stale
keep_entry entry (updated entries) = updated (entry ∷ entries)

unfoldable pub find_entry : List Entry → ℕ → ℕ → Found
find_entry [] stream_id stamp_ns = missing
find_entry (entry ∷ entries) stream_id stamp_ns =
    let rest = keep_entry entry (find_entry entries stream_id stamp_ns) in
    if not (entry.stream_id == stream_id)
    then rest
    else if leb stamp_ns entry.stamp_ns
    then stale
    else updated (record entry { stamp_ns = stamp_ns } ∷ entries)

-- The gate after the session check.
unfoldable pub enter_session : StreamMonotonicGate → ℕ → StreamMonotonicGate
enter_session g session_id =
    if not g.have_session || not (session_id == g.session_id)
    then record gate_reset { have_session = true; session_id = session_id }
    else g

-- What `accept` does with the result of the search; a new stream needs a free entry.
unfoldable pub finish_accept : StreamMonotonicGate → ℕ → ℕ → Found → StreamMonotonicGate × Bool
finish_accept g stream_id stamp_ns stale = (g, false)
finish_accept g stream_id stamp_ns (updated entries) = (record g { entries = entries }, true)
finish_accept g stream_id stamp_ns missing =
    if leb max_entries (length g.entries) then (g, false) else (
      record g {
        entries = g.entries ++ (record { stream_id = stream_id; stamp_ns = stamp_ns } ∷ []);
      },
      true,
    )

unfoldable pub accept : StreamMonotonicGate → ℕ → ℕ → ℕ → StreamMonotonicGate × Bool
unfolding enter_session find_entry finish_accept
accept gate session_id stream_id stamp_ns =
    let g = enter_session gate session_id in
    finish_accept g stream_id stamp_ns (find_entry g.entries stream_id stamp_ns)
