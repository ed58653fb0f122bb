-- ===== src/Mapping/Machine.antt =====
-- `MappingStateMachine` of time_mapping.cpp.
pub mod Pairs
pub mod Invariant
pub mod Preserve
pub mod Offset
pub mod Relock
use fast_livo_ug.Base.{
  ℕ, ◌+◌, ◌-◌, ◌*◌, ◌/◌, ◌%◌, ◌^◌, ◌≤◌, List, [], ◌∷◌, ◌++◌, Option, none, some, Bool, true, false,
  not, ◌&&◌, ◌||◌, max, ltb, leb, ◌==◌, if◌then◌else◌, length,
}
use fast_livo_ug.Float.{Float}
use fast_livo_ug.Mapping.Types.{
  TimeState, local_only, acquiring, locked, holdover, relocking, invalid, state_code, TimePair,
  MappingParameters, AffineMapping, MappingSnapshot, no_mapping, uint64_max,
}
use fast_livo_ug.Mapping.Convert.{clamp_u64, local_to_utc}
use fast_livo_ug.Mapping.Fit.{front, back, robust_affine_fit}

-- `state_ == TimeState::…`
infix 50 ◌is◌
abbrev pub ◌is◌ : TimeState → TimeState → Bool
s is t = state_code s == state_code t

-- The texts that `addPair` puts in `reason`.
pub data Reason : Type 0 where
  zero_timestamp non_monotonic interval_mismatch would_step : Reason

-- The source's `a > b ? a - b : b - a`.
abbrev pub distance : ℕ → ℕ → ℕ
distance a b = if ltb b a then a - b else b - a

-- `while (items.size() > limit) items.pop_front();`
unfoldable pub trim_front {ℓ} : {A : Type ℓ} → ℕ → List A → List A
trim_front limit [] = []
trim_front limit (x ∷ items) =
    let rest = trim_front limit items in if ltb limit (length (x ∷ items)) then rest else x ∷ items

-- A deque of pairs after `appendChecked`, or the reason for which it returned false.
pub data Append : Type 0 where
  appended : List TimePair → Append
  refused : Reason → Append

-- The checks of `appendChecked` against `pairs.back()`.
unfoldable pub check_pair : ℕ → List TimePair → TimePair → Option Reason
check_pair max_error pairs pair =
    let previous = back pairs in
    let local_delta = pair.local_ns - previous.local_ns in
    let utc_delta = pair.utc_ns - previous.utc_ns in
    if pair.local_ns == 0 || pair.utc_ns == 0
    then some zero_timestamp
    else if length pairs == 0
    then none
    else if leb pair.local_ns previous.local_ns || leb pair.utc_ns previous.utc_ns
    then some non_monotonic
    else if ltb max_error (distance local_delta utc_delta)
    then some interval_mismatch
    else none

unfoldable pub append_checked : ℕ → ℕ → List TimePair → TimePair → Append
unfolding check_pair trim_front
append_checked window max_error pairs pair = elim (check_pair max_error pairs pair) [
  | some reason ↦ refused reason
  | none ↦ appended (trim_front window (pairs ++ (pair ∷ [])))
]

pub record MappingStateMachine (F : Float) : Type 0 where
  pub parameters : MappingParameters F
  pub state : TimeState
  pub active : AffineMapping F
  pub history : List (MappingSnapshot F)
  pub pairs : List TimePair
  pub candidate_pairs : List TimePair
  pub mapping_version : ℕ
  pub accepted_pair_count : ℕ
  pub rejected_pair_count : ℕ
  pub last_pair_local_ns : ℕ
  pub holdover_start_local_ns : ℕ
  pub have_last_pair : Bool

-- `++counter` on `uint32_t`.
abbrev pub next32 : ℕ → ℕ
next32 n = (n + 1) % 2 ^ 32

module _ (F : Float) where
  open F use {le, mul, fabs, decimal, add_long, mul_long, div_long, widen, long}

  -- The constructor's limits on the parameters.
  unfoldable pub limit_parameters : MappingParameters F → MappingParameters F
  limit_parameters p = record p {
    mapping_window_size = max 2 p.mapping_window_size;
    min_pps_pairs = max 2 p.min_pps_pairs;
    relock_confirm_count = max 2 p.relock_confirm_count;
    mapping_history_size = max 1 p.mapping_history_size;
  }

  -- `reset()`: everything but the parameters.
  unfoldable pub reset : MappingStateMachine F → MappingStateMachine F
  reset m = record {
    parameters = m.parameters;
    state = local_only;
    active = no_mapping F;
    history = [];
    pairs = [];
    candidate_pairs = [];
    mapping_version = 0;
    accepted_pair_count = 0;
    rejected_pair_count = 0;
    last_pair_local_ns = 0;
    holdover_start_local_ns = 0;
    have_last_pair = false;
  }

  unfoldable pub new_machine : MappingParameters F → MappingStateMachine F
  unfolding limit_parameters
  new_machine p = record {
    parameters = limit_parameters p;
    state = local_only;
    active = no_mapping F;
    history = [];
    pairs = [];
    candidate_pairs = [];
    mapping_version = 0;
    accepted_pair_count = 0;
    rejected_pair_count = 0;
    last_pair_local_ns = 0;
    holdover_start_local_ns = 0;
    have_last_pair = false;
  }

  unfoldable pub candidate_vector : MappingStateMachine F → List TimePair
  candidate_vector m = if m.state is relocking then m.candidate_pairs else m.pairs

  -- The limits on the fit's slope and residuals.
  unfoldable pub accept_fit : MappingParameters F → AffineMapping F → Option (AffineMapping F)
  accept_fit p fit =
      if le (fabs fit.slope_ppm) p.max_scale_ppm
        && le fit.residual_rms_ns p.max_pps_residual_ns
        && le fit.residual_max_ns (mul p.max_pps_residual_ns (decimal 4 0))
      then some fit
      else none

  -- `none` is `return false`.
  unfoldable pub candidate_ready : MappingStateMachine F → Option (AffineMapping F)
  unfolding candidate_vector accept_fit
  candidate_ready m =
      let p = m.parameters in
      let candidate = candidate_vector m in
      let required = if m.state is relocking then p.relock_confirm_count else p.min_pps_pairs in
      let span = ((back candidate).local_ns + 2 ^ 64 - (front candidate).local_ns) % 2 ^ 64 in
      if ltb (length candidate) required
      then none
      else if ltb span p.min_fit_span_ns
      then none
      else elim (robust_affine_fit F candidate p.max_pps_residual_ns) [
        | none ↦ none
        | some fit ↦ accept_fit p fit
      ]

  -- The comparison at the end of `relockContinuous`.
  unfoldable pub small_step : ℕ → Option ℕ → Option ℕ → Bool
  small_step max_step (some old_utc_ns) (some candidate_utc_ns) =
      leb (distance old_utc_ns candidate_utc_ns) max_step
  small_step max_step (some old_utc_ns) none = false
  small_step max_step none candidate = false

  unfoldable pub relock_continuous : MappingStateMachine F → AffineMapping F → ℕ → Bool
  unfolding small_step
  relock_continuous m candidate local_ns =
      not m.active.valid
      || small_step m.parameters.max_relock_step_ns (local_to_utc F m.active local_ns)
          (local_to_utc F candidate local_ns)

  unfoldable pub install : MappingStateMachine F → AffineMapping F → MappingStateMachine F
  unfolding trim_front
  install m mapping =
      let version = next32 m.mapping_version in
      record m {
        active = mapping;
        mapping_version = version;
        history =
            trim_front m.parameters.mapping_history_size
              (m.history ++ (record { version = version; mapping = mapping } ∷ []));
      }

  -- A pair that arrives in HOLDOVER starts a new candidate sequence.
  unfoldable pub start_relock : MappingStateMachine F → MappingStateMachine F
  start_relock m =
      if m.state is holdover then record m { state = relocking; candidate_pairs = [] } else m

  -- `*target` replaced by the deque that `appendChecked` left.
  unfoldable pub set_target : MappingStateMachine F → List TimePair → MappingStateMachine F
  set_target m target =
      if m.state is relocking
      then record m { candidate_pairs = target }
      else record m { pairs = target }

  -- The assignments behind a successful `appendChecked`.
  unfoldable pub note_pair : MappingStateMachine F → TimePair → MappingStateMachine F
  note_pair m pair = record m {
    accepted_pair_count = next32 m.accepted_pair_count;
    last_pair_local_ns = pair.local_ns;
    have_last_pair = true;
    state = if m.state is local_only then acquiring else m.state;
  }

  -- `install(fit)`, LOCKED, and the candidates as the new window.
  unfoldable pub lock_on : MappingStateMachine F → AffineMapping F → MappingStateMachine F
  unfolding install
  lock_on m fit =
      let n = install m fit in
      record n {
        state = locked;
        pairs = if length n.candidate_pairs == 0 then n.pairs else n.candidate_pairs;
        candidate_pairs = [];
      }

  -- The branch of `addPair` for a LOCKED machine whose candidate is not ready.
  unfoldable pub refresh : MappingStateMachine F → MappingStateMachine F
  unfolding install
  refresh m =
      let p = m.parameters in
      elim (robust_affine_fit F m.pairs p.max_pps_residual_ns) [
        | none ↦ m
        | some fit ↦
            if le (fabs fit.slope_ppm) p.max_scale_ppm
              && le fit.residual_rms_ns p.max_pps_residual_ns
            then install m fit
            else m
      ]

  -- `addPair` behind `candidateReady(fit)`.
  unfoldable pub settle :
      MappingStateMachine F → ℕ → Option (AffineMapping F) → MappingStateMachine F × Option Reason
  unfolding lock_on refresh
  settle m local_ns (some fit) =
      if m.state is relocking && not (relock_continuous m fit local_ns)
      then (record m { rejected_pair_count = next32 m.rejected_pair_count }, some would_step)
      else (lock_on m fit, none)
  settle m local_ns none = if m.state is locked then (refresh m, none) else (m, none)

  -- `addPair` behind `appendChecked`.
  unfoldable pub add_appended :
      MappingStateMachine F → TimePair → Append → MappingStateMachine F × Option Reason
  unfolding set_target note_pair settle
  add_appended m pair (refused reason) =
      (record m { rejected_pair_count = next32 m.rejected_pair_count }, some reason)
  add_appended m pair (appended target) =
      let n = note_pair (set_target m target) pair in settle n pair.local_ns (candidate_ready n)

  -- `addPair`; the reason is `none` where it returns true.
  unfoldable pub add_pair : MappingStateMachine F → TimePair → MappingStateMachine F × Option Reason
  unfolding start_relock add_appended append_checked
  add_pair m pair =
      let n = start_relock m in
      let p = n.parameters in
      add_appended n pair (
        append_checked p.mapping_window_size p.max_pair_interval_error_ns (candidate_vector n) pair)

  -- The two tests of `update`, in order.
  unfoldable pub lose_pps : MappingStateMachine F → ℕ → MappingStateMachine F
  lose_pps m since =
      if (m.state is locked || m.state is acquiring) && ltb m.parameters.pps_timeout_ns since
      then (if m.active.valid
          then record m { state = holdover; holdover_start_local_ns = m.last_pair_local_ns }
          else record m { state = local_only; pairs = [] })
      else m

  unfoldable pub lose_holdover : MappingStateMachine F → ℕ → MappingStateMachine F
  lose_holdover m since =
      if (m.state is holdover || m.state is relocking)
        && ltb m.parameters.holdover_invalid_timeout_ns since
      then record m { state = invalid }
      else m

  unfoldable pub update : MappingStateMachine F → ℕ → MappingStateMachine F
  unfolding lose_pps lose_holdover
  update m current_local_ns =
      let since =
        if ltb m.last_pair_local_ns current_local_ns
        then current_local_ns - m.last_pair_local_ns
        else 0 in
      if not m.have_last_pair then m else lose_holdover (lose_pps m since) since

  unfoldable pub seconds_since_last_pair : MappingStateMachine F → ℕ → ℕ
  seconds_since_last_pair m current_local_ns =
      if not m.have_last_pair || leb current_local_ns m.last_pair_local_ns
      then 0
      else (current_local_ns - m.last_pair_local_ns) / 1000000000

  unfoldable pub uncertainty : MappingStateMachine F → ℕ → ℕ
  uncertainty m current_local_ns =
      let start = long m.active.time_uncertainty_ns in
      let elapsed =
        if ltb m.holdover_start_local_ns current_local_ns
        then current_local_ns - m.holdover_start_local_ns
        else 0 in
      let growth =
        mul_long (widen m.parameters.holdover_uncertainty_growth_ns_per_s)
          (div_long (long elapsed) (long 1000000000)) in
      if not m.active.valid
      then uint64_max
      else clamp_u64 F
          (if m.state is holdover || m.state is relocking then add_long start growth else start)

  unfoldable pub mapping_usable : MappingStateMachine F → Bool
  mapping_usable m =
      m.active.valid && (m.state is locked || m.state is holdover || m.state is relocking)
