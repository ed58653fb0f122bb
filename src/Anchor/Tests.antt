-- ===== src/Anchor/Tests.antt =====
-- Runs of the anchor: a write that overtakes a read, a lone read, and a writer that becomes ready.
use fast_livo_ug.Base.{
  ℕ, zero, suc, ◌≡◌, refl, List, [], ◌∷◌, ◌++◌, Option, none, some, true, arith, leb, if◌then◌else◌,
}
use fast_livo_ug.Anchor.{
  ImuTimeAnchorState, ImuTimeAnchorSnapshot, Anchor, Store, store, store_all, write_stores,
  write_state, classify, ImuTimeAnchorReadResult, read_ok, inconsistent, Reader, attempt, returned,
  read_step, device_ptp, device_gps, set_field, opening, load, end_attempt,
}
use fast_livo_ug.Anchor.Schedule.{
  idle, storing, System, Reach, here, begin_write, next_store, end_write, next_load,
}
use fast_livo_ug.Anchor.Snapshot.{Committed, snapshot_of}
use fast_livo_ug.Anchor.Seqlock.{reader_sees_whole_writes}
use fast_livo_ug.Anchor.Reading.{
  published, read_steps, read_alone, read_state, reader_returns, read_state-write_state,
}
use fast_livo_ug.Anchor.Writer.{ImuTimeAnchorWriter, Sample, new_writer, is_absolute}
use fast_livo_ug.Anchor.Chain.{chain}
use fast_livo_ug.Anchor.Continuity.{after, ready_after_samples, ready_after_run}

abbrev fresh : ImuTimeAnchorState
fresh = record {
  magic = 0;
  version = 0;
  writer_epoch = 0;
  write_sequence = 0;
  imu_stamp_ns = 0;
  host_monotonic_ns = 0;
  update_monotonic_ns = 0;
  clock_source = 0;
  ready = 0;
  uncertainty_ns = 0;
}

abbrev first_anchor : Anchor
first_anchor = record {
  writer_epoch = 7;
  imu_stamp_ns = 1000;
  host_monotonic_ns = 2000;
  update_monotonic_ns = 2005;
  clock_source = device_ptp;
  ready = true;
  uncertainty_ns = 50;
}

abbrev start : System
start = record { memory = fresh; writer = idle; reader = attempt 8 }

-- The loads of the reader while the writer waits.
unfoldable load_times : ℕ → System → System
load_times zero s = s
load_times (suc n) s = load_times n (record s { reader = read_step s.memory s.reader })

next_loads : {m : ℕ} (n : ℕ) (s : System) → Reach start m s → Reach start m (load_times n s)
unfolding load_times
next_loads zero s reach = reach
next_loads (suc n) s reach = next_loads n _ (next_load reach)

-- The rest of a write while the reader waits.
next_stores :
    {n : ℕ} (r : Reader) (stores : List Store) (m : ImuTimeAnchorState)
    → Reach start n (record { memory = m; writer = storing stores; reader = r })
    → Reach start n (record { memory = store_all stores m; writer = idle; reader = r })
unfolding store_all
next_stores r [] m reach = end_write reach refl
next_stores r (x ∷ stores) m reach =
    next_stores r stores (store x m) (next_store reach x stores refl)

-- The reader loads five times from the old memory, then meets the new one, and tries again.
abbrev overtaken : System
overtaken = record (load_times 5 start) { memory = write_state fresh first_anchor }

overtaken-Reach : Reach start 1 overtaken
unfolding write_state load_times
overtaken-Reach =
    next_stores _ (write_stores 0 first_anchor) fresh
      (begin_write (next_loads 5 start here) first_anchor refl)

reader_sees_whole_writes_example :
    (m : ImuTimeAnchorState) × Committed fresh m
    × (published 2 first_anchor ≡ snapshot_of m)
    × (read_ok ≡ classify (published 2 first_anchor))
unfolding load_times read_step load end_attempt write_state store_all write_stores store set_field
    opening classify published
reader_sees_whole_writes_example =
    reader_sees_whole_writes start (load_times 17 overtaken) 1 8 read_ok (published 2 first_anchor)
      refl refl (omega arith) (next_loads 17 overtaken overtaken-Reach) refl

-- The memory of a process that stopped in the middle of a write.
abbrev torn : ImuTimeAnchorState
torn = record fresh { write_sequence = 7; imu_stamp_ns = 1 }

torn_read : read_state torn 8 ≡ returned inconsistent none
unfolding read_alone read_step
torn_read = refl

reader_returns_example :
    (x : ImuTimeAnchorReadResult) × (c : Option ImuTimeAnchorSnapshot) × (read_steps
        (fresh ∷ torn ∷ fresh ∷ fresh ∷ torn ∷ fresh ∷ torn ∷ torn ∷ fresh ∷ torn ∷ torn ∷ fresh
          ∷ [])
        (attempt 1)
      ≡ returned x c)
reader_returns_example =
    reader_returns
      (fresh ∷ torn ∷ fresh ∷ fresh ∷ torn ∷ fresh ∷ torn ∷ torn ∷ fresh ∷ torn ∷ torn ∷ fresh ∷ [])
      1 (omega arith)

read_state-write_state_example :
    read_state (write_state torn first_anchor) 8
    ≡ returned
        (classify (published (write_state torn first_anchor).write_sequence first_anchor))
        (some (published (write_state torn first_anchor).write_sequence first_anchor))
read_state-write_state_example = read_state-write_state torn first_anchor 8 (omega arith)

abbrev writer : ImuTimeAnchorWriter
writer =
    new_writer (record { min_ready_samples = 3; max_stamp_step_ns = 20000000; uncertainty_ns = 50 })

abbrev sample : ℕ → ℕ → Sample
sample imu host = record {
  imu_stamp_ns = imu;
  host_monotonic_ns = host;
  clock_source = device_gps;
  update_monotonic_ns = host;
}

-- The newest first; the second of them in time goes backward.
abbrev run : List Sample
run = sample 15005000 15006000 ∷ sample 10005000 10006000 ∷ sample 5000 6000 ∷ []

abbrev samples : List Sample
samples = run ++ (sample 5000000000 5000 ∷ [])

abbrev at_run : ImuTimeAnchorWriter
at_run = after writer (b'/' ∷ []) 9 0 1 fresh samples

ready_after_samples_example :
    (at_run.ready
      ≡ leb writer.config.min_ready_samples (chain writer.config.max_stamp_step_ns samples))
    × (m : ImuTimeAnchorState) × (at_run.state ≡ some m)
    × (m.ready ≡ (
        if leb writer.config.min_ready_samples (chain writer.config.max_stamp_step_ns samples)
        then 1
        else 0))
unfolding is_absolute new_writer
ready_after_samples_example =
    ready_after_samples writer (b'/' ∷ []) 9 0 1 fresh refl (ground arith) (omega arith) samples
      (omega arith)

ready_after_run_example : at_run.ready ≡ true
unfolding is_absolute new_writer
ready_after_run_example =
    ready_after_run writer (b'/' ∷ []) 9 0 1 fresh refl (ground arith) (omega arith) run
      (sample 5000000000 5000 ∷ []) (refl, refl, (refl, refl, refl)) (omega arith) (omega arith)
