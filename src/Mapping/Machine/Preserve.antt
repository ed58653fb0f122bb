-- ===== src/Mapping/Machine/Preserve.antt =====
-- `addPair` and `update` on valid machines.
use fast_livo_ug.Base.{
  ℕ, ◌≡◌, refl, List, Option, none, some, Bool, true, false, arith, not, ◌||◌, ◌&&◌, ltb, [],
  if◌then◌else◌, Bool-cases, inl, inr,
}
use fast_livo_ug.Float.{Float}
use fast_livo_ug.Mapping.Types.{
  TimeState, local_only, acquiring, locked, holdover, relocking, invalid, TimePair, AffineMapping,
}
use fast_livo_ug.Mapping.Machine.{
  ◌is◌, next32, Append, appended, refused, MappingStateMachine, candidate_vector, candidate_ready,
  relock_continuous, start_relock, set_target, note_pair, settle, add_appended, add_pair, lose_pps,
  lose_holdover, update, mapping_usable,
}
use fast_livo_ug.Mapping.Machine.Pairs.{append_checked-appended}
use fast_livo_ug.Mapping.Machine.Invariant
use fast_livo_ug.Mapping.Machine.Invariant.{IsValid, IsWindow, needs_mapping}

usable_states :
    (s : TimeState) (valid : Bool)
    → (needs_mapping s ≡ true → valid ≡ true)
    → (valid && (s is locked || s is holdover || s is relocking)) ≡ needs_mapping s
usable_states locked valid h = rw (h refl) refl
usable_states holdover valid h = rw (h refl) refl
usable_states relocking valid h = rw (h refl) refl
usable_states local_only true h = refl
usable_states local_only false h = refl
usable_states acquiring true h = refl
usable_states acquiring false h = refl
usable_states invalid true h = refl
usable_states invalid false h = refl

module _ (F : Float) where
  count_rejected :
      (m : MappingStateMachine F) (n : ℕ)
      → IsValid F m
      → IsValid F (record m { rejected_pair_count = n })
  count_rejected m n v = record {
    window = v.window;
    history_limit = v.history_limit;
    pairs = v.pairs;
    candidates = v.candidates;
    history = v.history;
    active = v.active;
  }

  settle-IsValid :
      (m : MappingStateMachine F) (local_ns : ℕ) (o : Option (AffineMapping F))
      → candidate_ready F m ≡ o
      → IsValid F m
      → IsValid F (settle F m local_ns o).0
  unfolding settle
  settle-IsValid m local_ns none e v = elim (Bool-cases (m.state is locked)) [
    | inl now ↦ rw now (Invariant.refresh-IsValid F m v)
    | inr other ↦ rw other v
  ]
  settle-IsValid m local_ns (some fit) e v =
      elim (Bool-cases (m.state is relocking && not (relock_continuous F m fit local_ns))) [
        | inl step ↦ rw step (count_rejected m (next32 m.rejected_pair_count) v)
        | inr fine ↦
            rw fine
              (Invariant.lock_on-IsValid F m fit (Invariant.candidate_ready-IsFitOf F m e).valid v)
      ]

  candidate_vector-IsWindow :
      (m : MappingStateMachine F)
      → IsValid F m
      → IsWindow m.parameters.mapping_window_size (candidate_vector F m)
  unfolding candidate_vector
  candidate_vector-IsWindow m v = elim (Bool-cases (m.state is relocking)) [
    | inl now ↦ rw now v.candidates
    | inr other ↦ rw other v.pairs
  ]

  add_appended-IsValid :
      (m : MappingStateMachine F) (p : TimePair) (a : Append)
      → ((after : List TimePair)
          → a ≡ appended after
          → IsWindow m.parameters.mapping_window_size after)
      → IsValid F m
      → IsValid F (add_appended F m p a).0
  unfolding add_appended
  add_appended-IsValid m p (refused reason) h v = count_rejected m (next32 m.rejected_pair_count) v
  add_appended-IsValid m p (appended after) h v =
      let n = note_pair F (set_target F m after) p in
      settle-IsValid n p.local_ns (candidate_ready F n) refl (
        Invariant.note_pair-IsValid F (set_target F m after) p
          (Invariant.set_target-IsValid F m after (h after refl) v))

  -- addPair keeps the invariant of the mapping state machine: bounded, ascending windows, a
  -- bounded history, and a valid mapping in LOCKED, HOLDOVER and RELOCKING.
  pub add_pair-IsValid :
      (m : MappingStateMachine F) (p : TimePair) → IsValid F m → IsValid F (add_pair F m p).0
  unfolding add_pair
  add_pair-IsValid m p v =
      add_appended-IsValid n p _
        (λ after e.
          append_checked-appended n.parameters.mapping_window_size
            n.parameters.max_pair_interval_error_ns (candidate_vector F n) after p
            (candidate_vector-IsWindow n w).0 e)
        w
    where
      n : MappingStateMachine F
      n = start_relock F m

      w : IsValid F n
      w = Invariant.start_relock-IsValid F m v

  enter_holdover-IsValid :
      (m : MappingStateMachine F)
      → IsValid F m
      → m.active.valid ≡ true
      → IsValid F (record m { state = holdover; holdover_start_local_ns = m.last_pair_local_ns })
  enter_holdover-IsValid m v valid = record {
    window = v.window;
    history_limit = v.history_limit;
    pairs = v.pairs;
    candidates = v.candidates;
    history = v.history;
    active = λ _. valid;
  }

  leave_acquiring-IsValid :
      (m : MappingStateMachine F)
      → IsValid F m
      → IsValid F (record m { state = local_only; pairs = [] })
  leave_acquiring-IsValid m v = record {
    window = v.window;
    history_limit = v.history_limit;
    pairs = (tt, omega arith);
    candidates = v.candidates;
    history = v.history;
    active = λ h. cc;
  }

  timed_out-IsValid :
      (m : MappingStateMachine F)
      → IsValid F m
      → (b : Bool) → m.active.valid ≡ b
      → IsValid F (
          if b
          then record m { state = holdover; holdover_start_local_ns = m.last_pair_local_ns }
          else record m { state = local_only; pairs = [] })
  timed_out-IsValid m v true e = enter_holdover-IsValid m v e
  timed_out-IsValid m v false e = leave_acquiring-IsValid m v

  invalidate-IsValid :
      (m : MappingStateMachine F) → IsValid F m → IsValid F (record m { state = invalid })
  invalidate-IsValid m v = record {
    window = v.window;
    history_limit = v.history_limit;
    pairs = v.pairs;
    candidates = v.candidates;
    history = v.history;
    active = λ h. cc;
  }

  lose_pps-IsValid :
      (m : MappingStateMachine F) (since : ℕ) → IsValid F m → IsValid F (lose_pps F m since)
  unfolding lose_pps
  lose_pps-IsValid m since v =
      elim (Bool-cases
        ((m.state is locked || m.state is acquiring) && ltb m.parameters.pps_timeout_ns since)) [
          | inr kept ↦ rw kept v
          | inl late ↦ rw late (timed_out-IsValid m v m.active.valid refl)
        ]

  lose_holdover-IsValid :
      (m : MappingStateMachine F) (since : ℕ) → IsValid F m → IsValid F (lose_holdover F m since)
  unfolding lose_holdover
  lose_holdover-IsValid m since v =
      elim (Bool-cases (
        (m.state is holdover || m.state is relocking)
        && ltb m.parameters.holdover_invalid_timeout_ns since)) [
          | inr kept ↦ rw kept v
          | inl late ↦ rw late (invalidate-IsValid m v)
        ]

  -- update keeps the invariant of the mapping state machine.
  pub update-IsValid :
      (m : MappingStateMachine F) (now : ℕ) → IsValid F m → IsValid F (update F m now)
  unfolding update
  update-IsValid m now v = elim (Bool-cases (not m.have_last_pair)) [
    | inl never ↦ rw never v
    | inr some_pair ↦ rw some_pair (lose_holdover-IsValid _ _ (lose_pps-IsValid m _ v))
  ]

  -- In a valid machine mappingUsable holds in exactly the states LOCKED, HOLDOVER and RELOCKING.
  mapping_usable-needs_mapping :
      (m : MappingStateMachine F) → IsValid F m → mapping_usable F m ≡ needs_mapping m.state
  unfolding mapping_usable
  mapping_usable-needs_mapping m v = usable_states m.state m.active.valid v.active
