-- ===== src/Anchor/Reading.antt =====
-- How long `ReadImuTimeAnchorState` runs, and what it returns when no writer interferes.
use fast_livo_ug.Base.{
  ℕ, zero, suc, ◌+◌, ◌-◌, ◌*◌, ◌%◌, ◌^◌, ◌≤◌, ◌<◌, ◌≡◌, refl, ap, List, [], ◌∷◌, Option, some, Bool,
  true, false, not, ◌||◌, arith, ◌==◌, if◌then◌else◌, length, ==_refl,
}
use fast_livo_ug.Anchor.{
  anchor_magic, anchor_version, ImuTimeAnchorState, ImuTimeAnchorSnapshot, Anchor, odd, opening,
  write_state, store, no_snapshot, all_fields, classify, ImuTimeAnchorReadResult, load, Reader,
  attempt, loading, returned, end_attempt, read_step,
}
use fast_livo_ug.Anchor.Snapshot.{load_all, snapshot_of, odd-mod}

-- The loads left at most.
abbrev loads_left : Reader → ℕ
loads_left (attempt left) = 11 * left + 1
loads_left (loading left begin fields c) = 11 * left + 2 + length fields
loads_left (returned r c) = 0

loads_left-end_attempt :
    (left begin n : ℕ) (c : ImuTimeAnchorSnapshot)
    → loads_left (end_attempt left begin n c) ≤ 11 * left + 1
unfolding end_attempt
loads_left-end_attempt left begin n c =
    elim (not (begin == n) || odd n)
      as (λ b.
        loads_left (
          if b
          then attempt left
          else returned (classify (record c { write_sequence = n }))
              (some (record c { write_sequence = n })))
        ≤ 11 * left + 1) [ true ↦ omega arith | false ↦ omega arith ]

loads_left-start :
    (m : ImuTimeAnchorState) (left : ℕ)
    → loads_left (
        if odd m.write_sequence
        then attempt left
        else loading left m.write_sequence all_fields no_snapshot)
      ≤ 11 * left + 11
loads_left-start m left =
    elim (odd m.write_sequence)
      as (λ b.
        loads_left
          (if b then attempt left else loading left m.write_sequence all_fields no_snapshot)
        ≤ 11 * left + 11) [ true ↦ omega arith | false ↦ omega arith ]

loads_left-read_step :
    (m : ImuTimeAnchorState) (r : Reader) → loads_left (read_step m r) ≤ loads_left r - 1
unfolding read_step
loads_left-read_step m (attempt zero) = omega arith
loads_left-read_step m (attempt (suc left)) = omega (arith, loads_left-start m left)
loads_left-read_step m (loading left begin [] c) =
    omega (arith, loads_left-end_attempt left begin m.write_sequence c)
loads_left-read_step m (loading left begin (f ∷ fields) c) = omega arith
loads_left-read_step m (returned r c) = omega arith

-- The reader after one load from each of these memories, in order.
unfoldable pub read_steps : List ImuTimeAnchorState → Reader → Reader
read_steps [] r = r
read_steps (m ∷ memories) r = read_steps memories (read_step m r)

loads_left-read_steps :
    (memories : List ImuTimeAnchorState) (r : Reader)
    → loads_left (read_steps memories r) ≤ loads_left r - length memories
unfolding read_steps
loads_left-read_steps [] r = omega arith
loads_left-read_steps (m ∷ memories) r =
    omega (arith, loads_left-read_steps memories (read_step m r), loads_left-read_step m r)

returned_of :
    (r : Reader)
    → loads_left r ≤ 0
    → (x : ImuTimeAnchorReadResult) × (c : Option ImuTimeAnchorSnapshot) × (r ≡ returned x c)
returned_of (attempt left) h = absurd (omega arith)
returned_of (loading left begin fields c) h = absurd (omega arith)
returned_of (returned x c) h = (x, c, refl)

-- ReadImuTimeAnchorState with the given number of attempts has returned after 11 loads for each
-- attempt and one step more, whatever the memory holds at each load.
pub reader_returns :
    (memories : List ImuTimeAnchorState) (attempts : ℕ)
    → 11 * attempts + 1 ≤ length memories
    → (x : ImuTimeAnchorReadResult) × (c : Option ImuTimeAnchorSnapshot) × (read_steps memories
          (attempt attempts)
        ≡ returned x c)
reader_returns memories attempts h =
    returned_of _ (omega (arith, loads_left-read_steps memories (attempt attempts)))

-- `ReadImuTimeAnchorState` on a memory that nobody writes: `loads` loads of it.
unfoldable pub read_alone : ℕ → ImuTimeAnchorState → Reader → Reader
read_alone zero m r = r
read_alone (suc loads) m r = read_alone loads m (read_step m r)

abbrev pub read_state : ImuTimeAnchorState → ℕ → Reader
read_state m attempts = read_alone (11 * attempts + 1) m (attempt attempts)

-- What the arguments of a write say, with the sequence that the write leaves.
unfoldable pub published : ℕ → Anchor → ImuTimeAnchorSnapshot
published n a = record {
  magic = anchor_magic;
  version = anchor_version;
  writer_epoch = a.writer_epoch;
  write_sequence = n;
  imu_stamp_ns = a.imu_stamp_ns;
  host_monotonic_ns = a.host_monotonic_ns;
  update_monotonic_ns = a.update_monotonic_ns;
  clock_source = a.clock_source;
  ready = a.ready;
  uncertainty_ns = a.uncertainty_ns;
}

read_alone-returned :
    (loads : ℕ) (m : ImuTimeAnchorState) (r : ImuTimeAnchorReadResult)
    (c : Option ImuTimeAnchorSnapshot)
    → read_alone loads m (returned r c) ≡ returned r c
unfolding read_alone read_step
read_alone-returned zero m r c = refl
read_alone-returned (suc loads) m r c = read_alone-returned loads m r c

-- One attempt on a memory whose sequence is even.
one_attempt :
    (loads left : ℕ) (m : ImuTimeAnchorState)
    → odd m.write_sequence ≡ false
    → read_alone (11 + loads) m (attempt (suc left))
      ≡ returned (classify (snapshot_of m)) (some (snapshot_of m))
unfolding read_alone read_step end_attempt snapshot_of load_all
one_attempt loads left m h =
    let e : 11 + loads ≡ suc (suc (suc (suc (suc (suc (suc (suc (suc (suc (suc loads)))))))))) =
      omega arith in
    rw (e, h, ==_refl m.write_sequence, h) (read_alone-returned loads m _ _)

snapshot_of-write_state :
    (m : ImuTimeAnchorState) (a : Anchor)
    → snapshot_of (write_state m a) ≡ published (write_state m a).write_sequence a
unfolding snapshot_of write_state published load_all store load
snapshot_of-write_state m a =
    ap (λ b. record (published ((opening m.write_sequence + 1) % 2 ^ 64) a) { ready = b })
      (flag a.ready)
  where
    flag : (b : Bool) → not ((if b then 1 else 0) == 0) ≡ b
    flag true = refl
    flag false = refl

even-write_state :
    (m : ImuTimeAnchorState) (a : Anchor) → odd (write_state m a).write_sequence ≡ false
unfolding write_state store opening
even-write_state m a =
    rw (odd-mod ((opening m.write_sequence + 1) % 2 ^ 64)) (parity m.write_sequence)
  where
    parity : (n : ℕ) → ((opening n + 1) % 2 ^ 64 % 2 == 1) ≡ false
    parity n = rw (opening, odd-mod n) (ground arith)

-- With at least one attempt and no writer at work, ReadImuTimeAnchorState behind
-- WriteImuTimeAnchorState returns what was written, also if the memory held a write that had
-- stopped halfway, and the result that fits it.
pub read_state-write_state :
    (m : ImuTimeAnchorState) (a : Anchor) (attempts : ℕ)
    → 0 < attempts
    → let n = (write_state m a).write_sequence in
      read_state (write_state m a) attempts
      ≡ returned (classify (published n a)) (some (published n a))
read_state-write_state m a zero pos = absurd (omega arith)
read_state-write_state m a (suc left) pos =
    let e : 11 * suc left + 1 ≡ 11 + (11 * left + 1) = omega arith in
    rw (← snapshot_of-write_state m a, e)
      (one_attempt (11 * left + 1) left (write_state m a) (even-write_state m a))
