-- ===== src/Mapping/Machine/Relock.antt =====
-- Relocking: what `addPair` does between HOLDOVER and LOCKED.
use fast_livo_ug.Base.{
  ℕ, ◌≤◌, ◌<◌, ◌+◌, ◌%◌, ◌^◌, ◌++◌, length, ◌≡◌, refl, sym, ap, ◌∙◌, List, [], ◌∷◌, Option, none,
  some, Bool, true, false, arith, not, ◌||◌, if◌then◌else◌, Bool-cases, inl, inr, All, some_inj,
}
use fast_livo_ug.Float.{Float}
use fast_livo_ug.Mapping.Types.{
  TimeState, local_only, acquiring, locked, holdover, relocking, invalid, state_code, TimePair,
  AffineMapping,
}
use fast_livo_ug.Mapping.Convert.{local_to_utc}
use fast_livo_ug.Mapping.Machine.{
  ◌is◌, next32, distance, Reason, would_step, interval_mismatch, Append, appended, refused,
  check_pair, append_checked, MappingStateMachine, candidate_vector, candidate_ready, small_step,
  relock_continuous, install, start_relock, set_target, note_pair, lock_on, settle, add_appended,
  add_pair,
}
use fast_livo_ug.Mapping.Machine.Offset.{IsLaterOn, check_pair-clash, good_alone}

absurd_state {ℓ} : {A : Type ℓ} (s : TimeState) → s ≡ relocking → s ≡ locked → A
absurd_state s a b =
    let e : state_code relocking ≡ state_code locked = ap state_code (sym a ∙ b) in cc

or_not : (v b : Bool) → v ≡ true → (not v || b) ≡ true → b ≡ true
or_not true b v h = h
or_not false b v h = cc

module _ (F : Float) where
  small_step-le :
      (limit : ℕ) (a b : Option ℕ) (x y : ℕ)
      → small_step F limit a b ≡ true
      → a ≡ some x
      → b ≡ some y
      → distance x y ≤ limit
  unfolding small_step
  small_step-le limit (some a) (some b) x y h ea eb =
      let e : a ≡ x = some_inj ea in let e' : b ≡ y = some_inj eb in ground arith
  small_step-le limit none b x y h ea eb = cc
  small_step-le limit (some a) none x y h ea eb = cc

  relock_continuous-le :
      (m : MappingStateMachine F) (fit : AffineMapping F) (t x y : ℕ)
      → m.active.valid ≡ true
      → relock_continuous F m fit t ≡ true
      → local_to_utc F m.active t ≡ some x
      → local_to_utc F fit t ≡ some y
      → distance x y ≤ m.parameters.max_relock_step_ns
  unfolding relock_continuous
  relock_continuous-le m fit t x y v h old new =
      small_step-le _ _ _ x y (or_not m.active.valid _ v h) old new

  -- A lock from RELOCKING.
  data Settled (m : MappingStateMachine F) (t : ℕ)
      : MappingStateMachine F × Option Reason → Type 0 where
    waits : Settled m t (m, none)
    steps :
        Settled m t
          (record m { rejected_pair_count = next32 m.rejected_pair_count }, some would_step)
    locks :
        (fit : AffineMapping F)
        → relock_continuous F m fit t ≡ true
        → Settled m t (lock_on F m fit, none)

  settle-Settled :
      (m : MappingStateMachine F) (t : ℕ) (o : Option (AffineMapping F))
      → m.state ≡ relocking
      → Settled m t (settle F m t o)
  unfolding settle
  settle-Settled m t none s = let e : (m.state is locked) ≡ false = rw s refl in rw e waits
  settle-Settled m t (some fit) s =
      let e : (m.state is relocking) ≡ true = rw s refl in
      rw e (
        elim (relock_continuous F m fit t)
            as (λ b.
              relock_continuous F m fit t ≡ b
              → Settled m t (
                  if not b
                  then (
                    record m { rejected_pair_count = next32 m.rejected_pair_count },
                    some would_step,
                  )
                  else (lock_on F m fit, none))) [ true ↦ λ h. locks fit h | false ↦ λ h. steps ]
          refl)

  -- The machine that `candidateReady` sees when a pair is appended in RELOCKING.
  noted : MappingStateMachine F → List TimePair → TimePair → MappingStateMachine F
  noted m after p = record m {
    state = relocking;
    candidate_pairs = after;
    accepted_pair_count = next32 m.accepted_pair_count;
    last_pair_local_ns = p.local_ns;
    have_last_pair = true;
  }

  note_relocking :
      (m : MappingStateMachine F) (after : List TimePair) (p : TimePair)
      → m.state ≡ relocking
      → note_pair F (set_target F m after) p ≡ noted m after p
  unfolding note_pair set_target noted
  note_relocking m after p s =
      let e : (m.state is relocking) ≡ true = rw s refl in
      rw e
        (ap (λ z. record (noted m after p) { state = if z is local_only then acquiring else z }) s)

  locked_step :
      (m : MappingStateMachine F) (t x y : ℕ) (r : MappingStateMachine F × Option Reason)
      → Settled m t r
      → m.state ≡ relocking
      → m.active.valid ≡ true
      → r.0.state ≡ locked
      → local_to_utc F m.active t ≡ some x
      → local_to_utc F r.0.active t ≡ some y
      → distance x y ≤ m.parameters.max_relock_step_ns
  unfolding lock_on
  locked_step m t x y r waits s v now old new = absurd_state m.state s now
  locked_step m t x y r steps s v now old new = absurd_state m.state s now
  locked_step m t x y r (locks fit fine) s v now old new =
      relock_continuous-le m fit t x y v fine old (unfold install in new)

  add_appended_step :
      (m : MappingStateMachine F) (p : TimePair) (a : Append) (x y : ℕ)
      → m.state ≡ relocking
      → m.active.valid ≡ true
      → (add_appended F m p a).0.state ≡ locked
      → local_to_utc F m.active p.local_ns ≡ some x
      → local_to_utc F (add_appended F m p a).0.active p.local_ns ≡ some y
      → distance x y ≤ m.parameters.max_relock_step_ns
  unfolding add_appended noted
  add_appended_step m p (refused r) x y s v now old new = absurd_state m.state s now
  add_appended_step m p (appended after) x y s v now old new =
      locked_step k p.local_ns x y _ (settle-Settled k p.local_ns (candidate_ready F k) refl) refl v
        (rw (note_relocking m after p s) at now) old (rw (note_relocking m after p s) at new)
    where
      k : MappingStateMachine F
      k = noted m after p

  start_relock-holdover :
      (m : MappingStateMachine F)
      → (m.state is holdover) ≡ true
      → start_relock F m ≡ record m { state = relocking; candidate_pairs = [] }
  unfolding start_relock
  start_relock-holdover m h = rw h refl

  start_relock-other :
      (m : MappingStateMachine F) → (m.state is holdover) ≡ false → start_relock F m ≡ m
  unfolding start_relock
  start_relock-other m h = rw h refl

  is_relocking :
      (s : TimeState)
      → (s is holdover || s is relocking) ≡ true
      → (s is holdover) ≡ false
      → s ≡ relocking
  is_relocking relocking h other = refl
  is_relocking holdover h other = cc
  is_relocking locked h other = cc
  is_relocking local_only h other = cc
  is_relocking acquiring h other = cc
  is_relocking invalid h other = cc

  -- If addPair takes a machine with a valid mapping from HOLDOVER or RELOCKING to LOCKED, the UTC
  -- times that the old and the new mapping give for the pair differ by at most max_relock_step_ns.
  pub relock_step :
      (m : MappingStateMachine F) (p : TimePair) (x y : ℕ)
      → (m.state is holdover || m.state is relocking) ≡ true
      → m.active.valid ≡ true
      → (add_pair F m p).0.state ≡ locked
      → local_to_utc F m.active p.local_ns ≡ some x
      → local_to_utc F (add_pair F m p).0.active p.local_ns ≡ some y
      → distance x y ≤ m.parameters.max_relock_step_ns
  unfolding add_pair
  relock_step m p x y s v now old new = elim (Bool-cases (m.state is holdover)) [
    | inl held ↦
        let e = start_relock-holdover m held in
        add_appended_step (record m { state = relocking; candidate_pairs = [] }) p _ x y refl v
          (rw e at now) old (rw e at new)
    | inr other ↦
        let e = start_relock-other m other in
        add_appended_step m p _ x y (is_relocking m.state s other) v (rw e at now) old (rw e at new)
  ]

  abbrev reject : MappingStateMachine F → MappingStateMachine F
  reject m = record m { rejected_pair_count = next32 m.rejected_pair_count }

  append_checked-refused :
      (window max_error : ℕ) (pairs : List TimePair) (p : TimePair) (r : Reason)
      → check_pair max_error pairs p ≡ some r
      → append_checked window max_error pairs p ≡ refused r
  unfolding append_checked
  append_checked-refused window max_error pairs p r h = rw (append_checked, h) refl

  add_pair-refused :
      (m : MappingStateMachine F) (p : TimePair) (r : Reason)
      → m.state ≡ relocking
      → check_pair m.parameters.max_pair_interval_error_ns m.candidate_pairs p ≡ some r
      → add_pair F m p ≡ (reject m, some r)
  unfolding add_pair add_appended candidate_vector
  add_pair-refused m p r s h =
      let e = start_relock-other m (rw s refl) in
      let c = candidates m s in
      rw e (
        rw c (
          rw
            (append_checked-refused m.parameters.mapping_window_size
              m.parameters.max_pair_interval_error_ns m.candidate_pairs p r h)
            refl))
    where
      candidates :
          (m : MappingStateMachine F)
          → m.state ≡ relocking
          → candidate_vector F m ≡ m.candidate_pairs
      candidates m s = let e : (m.state is relocking) ≡ true = rw s refl in rw e refl

  -- `addPair` on each pair in order.
  unfoldable pub add_pairs : MappingStateMachine F → List TimePair → MappingStateMachine F
  add_pairs m [] = m
  add_pairs m (p ∷ pairs) = add_pairs (add_pair F m p).0 pairs

  add_pairs-rejected :
      (m : MappingStateMachine F) (bad : TimePair) (before pairs : List TimePair) (offset : ℕ)
      → m.candidate_pairs ≡ before ++ (bad ∷ [])
      → m.state ≡ relocking
      → m.parameters.max_pair_interval_error_ns < distance (bad.local_ns + offset) bad.utc_ns
      → All (IsLaterOn offset bad) pairs
      → ((add_pairs m pairs).state ≡ relocking)
        × ((add_pairs m pairs).candidate_pairs ≡ m.candidate_pairs)
        × ((add_pairs m pairs).active ≡ m.active)
        × ((add_pairs m pairs).accepted_pair_count ≡ m.accepted_pair_count)
        × ((add_pairs m pairs).rejected_pair_count % 2 ^ 32
            ≡ (m.rejected_pair_count + length pairs) % 2 ^ 32)
  unfolding add_pairs
  add_pairs-rejected m bad before [] offset c s off h = (s, refl, refl, refl, omega arith)
  add_pairs-rejected m bad before (p ∷ pairs) offset c s off h =
      let clash =
        check_pair-clash m.parameters.max_pair_interval_error_ns before bad p offset off h.0 in
      let r = add_pair-refused m p interval_mismatch s (rw c clash) in
      let (a, b, d, e, f) = add_pairs-rejected (reject m) bad before pairs offset c s off h.1 in
      rw (add_pairs, r) (a, b, d, e, omega (arith, f))

  -- In RELOCKING, if the last candidate is off the line UTC = local + offset by more than
  -- max_pair_interval_error_ns, then addPair refuses every one of any pairs on that line that come
  -- later in both clocks: state, candidates, mapping and the count of accepted pairs stay, and the
  -- count of rejected pairs grows, modulo 2^32, by their number. Behind an empty window,
  -- appendChecked would refuse none of them.
  pub relock_stalls :
      (m : MappingStateMachine F) (bad : TimePair) (before pairs : List TimePair) (offset : ℕ)
      → m.candidate_pairs ≡ before ++ (bad ∷ [])
      → m.state ≡ relocking
      → m.parameters.max_pair_interval_error_ns < distance (bad.local_ns + offset) bad.utc_ns
      → All (IsLaterOn offset bad) pairs
      → ((add_pairs m pairs).state ≡ relocking)
        × ((add_pairs m pairs).candidate_pairs ≡ m.candidate_pairs)
        × ((add_pairs m pairs).active ≡ m.active)
        × ((add_pairs m pairs).accepted_pair_count ≡ m.accepted_pair_count)
        × ((add_pairs m pairs).rejected_pair_count % 2 ^ 32
            ≡ (m.rejected_pair_count + length pairs) % 2 ^ 32)
        × All (λ p. check_pair m.parameters.max_pair_interval_error_ns [] p ≡ none) pairs
  relock_stalls m bad before pairs offset c s off h =
      let (a, b, d, e, f) = add_pairs-rejected m bad before pairs offset c s off h in
      (a, b, d, e, f, good_alone m.parameters.max_pair_interval_error_ns bad pairs offset h)
