-- ===== src/Anchor/Seqlock.antt =====
-- The sequence lock: what a reader can return while a writer writes.
mod Writes
mod Loads
use fast_livo_ug.Base.{
  ℕ, zero, suc, ◌+◌, ◌*◌, ◌%◌, ◌^◌, ◌≤◌, ◌<◌, ◌≡◌, ◌≢◌, ◌⊎◌, refl, sym, ap, ◌∙◌, inl, inr, List, [],
  ◌∷◌, ◌++◌, Option, none, some, Bool, true, false, not, ◌&&◌, ◌||◌, bit_and, arith, ◌==◌,
  if◌then◌else◌, Bool-cases, All,
}
use fast_livo_ug.Base.Bits.{bit_and-one}
use mathlib.Core.Path.{subst}
use fast_livo_ug.Anchor.{
  ImuTimeAnchorState, ImuTimeAnchorSnapshot, Anchor, Field, magic, version, writer_epoch,
  imu_stamp_ns, host_monotonic_ns, update_monotonic_ns, clock_source, ready, uncertainty_ns, Store,
  sequence, field, set_field, store, store_all, odd, opening, field_stores, write_stores,
  write_state, ImuTimeAnchorReadResult, inconsistent, no_snapshot, load, all_fields, classify,
  Reader, attempt, loading, returned, end_attempt, read_step,
}
use fast_livo_ug.Anchor.Schedule.{
  Writer, idle, storing, System, Reach, here, begin_write, next_store, end_write, next_load,
}
use fast_livo_ug.Anchor.Snapshot.{Committed, initial, written, load_all, snapshot_of, odd-mod}
use fast_livo_ug.Anchor.Seqlock.Writes.{Phase, resting, begin-Phase, end-Phase, store-Phase, Moves}
use fast_livo_ug.Anchor.Seqlock.Loads.{View, moved-View, read-View}

abbrev Inv : System → ℕ → System → Type 0
Inv s₀ n s = Phase s₀.memory n s.memory s.writer × View s₀.memory s.memory s.reader

Reach-Inv :
    (s₀ : System) (n k attempts : ℕ) (s : System)
    → s₀.writer ≡ idle
    → s₀.reader ≡ attempt attempts
    → s₀.memory.write_sequence + 3 * k < 2 ^ 64
    → n ≤ k
    → Reach s₀ n s
    → Inv s₀ n s
Reach-Inv s₀ n k attempts s w r small le here = (resting w initial (omega arith), rw r tt)
Reach-Inv s₀ n k attempts s w r small le (begin_write reach a i) =
    let (p, v) = Reach-Inv s₀ _ k attempts _ w r small (omega arith) reach in
    (begin-Phase s₀.memory _ _ _ a i p, v)
Reach-Inv s₀ n k attempts s w r small le (next_store reach x rest i) =
    let (p, v) = Reach-Inv s₀ n k attempts _ w r small le reach in
    let (q, mv) = store-Phase s₀.memory n _ _ x rest (omega arith) i p in
    (q, moved-View s₀.memory _ _ _ mv v)
Reach-Inv s₀ n k attempts s w r small le (end_write reach i) =
    let (p, v) = Reach-Inv s₀ n k attempts _ w r small le reach in
    (end-Phase s₀.memory n _ _ i p, v)
Reach-Inv s₀ n k attempts s w r small le (next_load reach) =
    let (p, v) = Reach-Inv s₀ n k attempts _ w r small le reach in
    (p, read-View s₀.memory n _ _ _ p v)

-- Let a reader start beside an idle writer, in any order of their single accesses, each of which
-- takes effect at once in program order, while the writer begins n writes, where the first
-- sequence plus 3 n is below 2^64. If the reader returns a snapshot, it is the one of the first
-- memory or of a memory that whole writes left of it, never a mix of two, and the result fits that
-- snapshot.
pub reader_sees_whole_writes :
    (s₀ s : System) (n attempts : ℕ) (r : ImuTimeAnchorReadResult) (c : ImuTimeAnchorSnapshot)
    → s₀.writer ≡ idle
    → s₀.reader ≡ attempt attempts
    → s₀.memory.write_sequence + 3 * n < 2 ^ 64
    → Reach s₀ n s
    → s.reader ≡ returned r (some c)
    → (m : ImuTimeAnchorState) × Committed s₀.memory m × (c ≡ snapshot_of m) × (r ≡ classify c)
reader_sees_whole_writes s₀ s n attempts r c w start small reach e =
    subst (View s₀.memory s.memory) e
      (Reach-Inv s₀ n n attempts s w start small (omega arith) reach).1
