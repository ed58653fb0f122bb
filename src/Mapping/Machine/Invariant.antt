-- ===== src/Mapping/Machine/Invariant.antt =====
-- The invariant of the mapping state machine: bounded, ascending windows, a bounded history, and a
-- valid mapping in every state that publishes one.
use fast_livo_ug.Base.{
  ℕ, ◌+◌, ◌-◌, ◌%◌, ◌^◌, ◌≤◌, ◌≡◌, refl, sym, ◌∙◌, List, Option, none, some, Bool, true, false,
  arith, ◌&&◌, ltb, ◌==◌, if◌then◌else◌, length, Bool-cases, inl, inr, guard-some, step-some,
}
use mathlib.Core.Path.{subst}
use fast_livo_ug.Float.{Float}
use fast_livo_ug.Mapping.Types.{
  TimeState, local_only, acquiring, locked, holdover, relocking, invalid, TimePair,
  MappingParameters, AffineMapping,
}
use fast_livo_ug.Mapping.Fit.{robust_affine_fit, front, back}
use fast_livo_ug.Mapping.Fit.Result.{IsFitOf, robust_affine_fit-IsFitOf}
use fast_livo_ug.Mapping.Machine.{
  ◌is◌, MappingStateMachine, reset, new_machine, candidate_vector, accept_fit, candidate_ready,
  install, start_relock, set_target, note_pair, lock_on, refresh,
}
use fast_livo_ug.Mapping.Machine.Pairs.{IsAscending, length-trim_front}

-- The states in which a mapping is published as usable.
abbrev pub needs_mapping : TimeState → Bool
needs_mapping local_only = false
needs_mapping acquiring = false
needs_mapping locked = true
needs_mapping holdover = true
needs_mapping relocking = true
needs_mapping invalid = false

holdover_needs : (s : TimeState) → (s is holdover) ≡ true → needs_mapping s ≡ true
holdover_needs s h = ground arith

locked_needs : (s : TimeState) → (s is locked) ≡ true → needs_mapping s ≡ true
locked_needs s h = ground arith

abbrev pub IsWindow : ℕ → List TimePair → Type 0
IsWindow limit pairs = IsAscending pairs × (length pairs ≤ limit)

module _ (F : Float) where
  pub record IsValid (m : MappingStateMachine F) : Type 0 where
    pub window : 2 ≤ m.parameters.mapping_window_size
    pub history_limit : 1 ≤ m.parameters.mapping_history_size
    pub pairs : IsWindow m.parameters.mapping_window_size m.pairs
    pub candidates : IsWindow m.parameters.mapping_window_size m.candidate_pairs
    pub history : length m.history ≤ m.parameters.mapping_history_size
    pub active : needs_mapping m.state ≡ true → m.active.valid ≡ true

  -- A new machine satisfies the invariant, whatever its parameters.
  pub new_machine-IsValid : (p : MappingParameters F) → IsValid (new_machine F p)
  unfolding new_machine
  new_machine-IsValid p = record {
    window = omega arith;
    history_limit = omega arith;
    pairs = (tt, omega arith);
    candidates = (tt, omega arith);
    history = omega arith;
    active = λ h. cc;
  }

  pub reset-IsValid : (m : MappingStateMachine F) → IsValid m → IsValid (reset F m)
  unfolding reset
  reset-IsValid m v = record {
    window = v.window;
    history_limit = v.history_limit;
    pairs = (tt, omega arith);
    candidates = (tt, omega arith);
    history = omega arith;
    active = λ h. cc;
  }

  pub start_relock-IsValid : (m : MappingStateMachine F) → IsValid m → IsValid (start_relock F m)
  unfolding start_relock
  start_relock-IsValid m v = elim (Bool-cases (m.state is holdover)) [
    | inr other ↦ rw other v
    | inl held ↦ rw held (record {
      window = v.window;
      history_limit = v.history_limit;
      pairs = v.pairs;
      candidates = (tt, omega arith);
      history = v.history;
      active = λ h. v.active (holdover_needs m.state held);
    })
  ]

  install-IsValid :
      (m : MappingStateMachine F) (fit : AffineMapping F)
      → fit.valid ≡ true
      → IsValid m
      → IsValid (install F m fit)
  unfolding install
  install-IsValid m fit h v = record {
    window = v.window;
    history_limit = v.history_limit;
    pairs = v.pairs;
    candidates = v.candidates;
    history = length-trim_front m.parameters.mapping_history_size _;
    active = λ _. h;
  }

  pub set_target-IsValid :
      (m : MappingStateMachine F) (target : List TimePair)
      → IsWindow m.parameters.mapping_window_size target
      → IsValid m
      → IsValid (set_target F m target)
  unfolding set_target
  set_target-IsValid m target t v = elim (Bool-cases (m.state is relocking)) [
    | inl now ↦ rw now (record {
      window = v.window;
      history_limit = v.history_limit;
      pairs = v.pairs;
      candidates = t;
      history = v.history;
      active = v.active;
    })
    | inr other ↦ rw other (record {
      window = v.window;
      history_limit = v.history_limit;
      pairs = t;
      candidates = v.candidates;
      history = v.history;
      active = v.active;
    })
  ]

  note_state : TimeState → TimeState
  note_state s = if s is local_only then acquiring else s

  needs_mapping-note_state : (s : TimeState) → needs_mapping (note_state s) ≡ needs_mapping s
  unfolding note_state
  needs_mapping-note_state s = ground arith

  pub note_pair-IsValid :
      (m : MappingStateMachine F) (p : TimePair) → IsValid m → IsValid (note_pair F m p)
  unfolding note_pair note_state
  note_pair-IsValid m p v = record {
    window = v.window;
    history_limit = v.history_limit;
    pairs = v.pairs;
    candidates = v.candidates;
    history = v.history;
    active = λ h. v.active (sym (needs_mapping-note_state m.state) ∙ h);
  }

  pub lock_on-IsValid :
      (m : MappingStateMachine F) (fit : AffineMapping F)
      → fit.valid ≡ true
      → IsValid m
      → IsValid (lock_on F m fit)
  unfolding lock_on
  lock_on-IsValid m fit h v =
      let w = install-IsValid m fit h v in
      let n = install F m fit in
      record {
        window = w.window;
        history_limit = w.history_limit;
        pairs =
            elim (length n.candidate_pairs == 0)
              as (λ b.
                IsWindow n.parameters.mapping_window_size
                  (if b then n.pairs else n.candidate_pairs)) [
                    | true ↦ w.pairs
                    | false ↦ w.candidates
                  ];
        candidates = (tt, omega (arith, w.window));
        history = w.history;
        active = λ _. unfold install in h;
      }

  pub refresh-IsValid : (m : MappingStateMachine F) → IsValid m → IsValid (refresh F m)
  unfolding refresh
  refresh-IsValid m v = cases (robust_affine_fit F m.pairs m.parameters.max_pps_residual_ns) refl
    where
      cases :
          (o : Option (AffineMapping F))
          → robust_affine_fit F m.pairs m.parameters.max_pps_residual_ns ≡ o
          → IsValid (elim o [
            | none ↦ m
            | some fit ↦
                if F.le (F.fabs fit.slope_ppm) m.parameters.max_scale_ppm
                  && F.le fit.residual_rms_ns m.parameters.max_pps_residual_ns
                then install F m fit
                else m
          ])
      cases none e = v
      cases (some fit) e =
          elim (F.le (F.fabs fit.slope_ppm) m.parameters.max_scale_ppm
              && F.le fit.residual_rms_ns m.parameters.max_pps_residual_ns)
            as (λ b. IsValid (if b then install F m fit else m)) [
              | true ↦ install-IsValid m fit (robust_affine_fit-IsFitOf F m.pairs _ e).valid v
              | false ↦ v
            ]

  accept_fit-some :
      (p : MappingParameters F) (found fit : AffineMapping F)
      → accept_fit F p found ≡ some fit
      → found ≡ fit
  unfolding accept_fit
  accept_fit-some p found fit h = ground arith

  -- A candidate that is ready is a fit of the window, and it is valid.
  pub candidate_ready-IsFitOf :
      (m : MappingStateMachine F) {fit : AffineMapping F}
      → candidate_ready F m ≡ some fit
      → IsFitOf F (candidate_vector F m) fit
  unfolding candidate_ready
  candidate_ready-IsFitOf m {fit} h =
      let (_, h₁) =
        guard-some
          (ltb (length (candidate_vector F m)) (
            if m.state is relocking
            then m.parameters.relock_confirm_count
            else m.parameters.min_pps_pairs))
          _ h in
      let (_, h₂) =
        guard-some
          (ltb
            (((back (candidate_vector F m)).local_ns
                + 2 ^ 64
                - (front (candidate_vector F m)).local_ns)
              % 2 ^ 64)
            m.parameters.min_fit_span_ns)
          (elim (robust_affine_fit F (candidate_vector F m) m.parameters.max_pps_residual_ns) [
            | none ↦ none
            | some fit ↦ accept_fit F m.parameters fit
          ])
          h₁ in
      let (found, fitted, kept) =
        step-some (robust_affine_fit F (candidate_vector F m) m.parameters.max_pps_residual_ns)
          (accept_fit F m.parameters) h₂ in
      subst (IsFitOf F (candidate_vector F m)) (accept_fit-some m.parameters found fit kept)
        (robust_affine_fit-IsFitOf F (candidate_vector F m) _ fitted)
