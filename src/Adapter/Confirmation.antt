-- ===== src/Adapter/Confirmation.antt =====
-- The confirmation of fixed solutions over any sequence of measurements.
use fast_livo_ug.Base.{
  ℕ, zero, suc, ◌+◌, ◌≤◌, ◌≡◌, ◌≢◌, ◌⊎◌, refl, List, [], ◌∷◌, Bool, true, false, arith,
  if◌then◌else◌,
}
use fast_livo_ug.Adapter.{TrackingState, waiting, active_fixed, lost, Tracking}
use fast_livo_ug.Adapter.FixedState.{
  Limits, new_tracking, increment_saturated, lose, gain, confirm, update_fixed_state,
}
use fast_livo_ug.Adapter.Tracked.{
  IsLimits, IsTracking, new_tracking-IsTracking, tracked, tracked-IsTracking,
}

-- How many of the newest measurements are fixed solutions.
unfoldable pub fixed_run : List Bool → ℕ
fixed_run [] = 0
fixed_run (false ∷ older) = 0
fixed_run (true ∷ older) = let n = fixed_run older in n + 1

abbrev pub copies : ℕ → Bool → List Bool
copies zero b = []
copies (suc n) b = b ∷ copies n b

-- After `k` fixed solutions in a row.
abbrev Gaining : ℕ → Tracking → Type 0
Gaining k t =
    (t.tracking_state ≡ active_fixed)
    ⊎ ((t.tracking_state ≡ waiting) × (k ≤ t.consecutive_fixed_count))
    ⊎ ((t.tracking_state ≡ TrackingState.recovering) × (k ≤ t.consecutive_fixed_count))
    ⊎ ((t.tracking_state ≡ lost) × (k ≡ 0))

Gaining-start : (s : TrackingState) (t : Tracking) → t.tracking_state ≡ s → Gaining 0 t
Gaining-start waiting t e = ground arith
Gaining-start active_fixed t e = ground arith
Gaining-start lost t e = ground arith
Gaining-start TrackingState.recovering t e = ground arith

Gaining-step :
    (l : Limits) (s : TrackingState) (k : ℕ) (t : Tracking)
    → t.tracking_state ≡ s
    → IsLimits l
    → IsTracking l t
    → Gaining k t
    → Gaining (suc k) (update_fixed_state l t true).0
unfolding update_fixed_state gain confirm increment_saturated
Gaining-step l waiting k t e h i g = rw e (ground arith)
Gaining-step l active_fixed k t e h i g = rw e (ground arith)
Gaining-step l lost k t e h i g = rw e (ground arith)
Gaining-step l TrackingState.recovering k t e h i g = rw e (ground arith)

Gaining-run :
    (l : Limits) (n : ℕ) (t : Tracking)
    → IsLimits l
    → IsTracking l t
    → Gaining n (tracked l t (copies n true))
unfolding tracked
Gaining-run l zero t h i = Gaining-start _ t refl
Gaining-run l (suc n) t h i =
    Gaining-step l _ n _ refl h (tracked-IsTracking l t (copies n true) h i) (Gaining-run l n t h i)

Gaining-active :
    (l : Limits) (n : ℕ) (t : Tracking)
    → IsTracking l t
    → l.confirm ≤ n
    → l.recovery ≤ n
    → 1 ≤ n
    → Gaining n t
    → t.tracking_state ≡ active_fixed
Gaining-active l n t i c r one g = ground arith

-- After `k` measurements in a row that are no fixed solutions.
abbrev Losing : ℕ → Tracking → Type 0
Losing k t = t.tracking_state ≡ active_fixed → k ≤ t.consecutive_lost_count

Losing-step :
    (l : Limits) (s : TrackingState) (k : ℕ) (t : Tracking)
    → t.tracking_state ≡ s
    → IsLimits l
    → IsTracking l t
    → Losing k t
    → Losing (suc k) (update_fixed_state l t false).0
unfolding update_fixed_state lose increment_saturated
Losing-step l waiting k t e h i g = rw e (ground arith)
Losing-step l active_fixed k t e h i g = rw e (λ a. ground (arith, g e))
Losing-step l lost k t e h i g = rw e (ground arith)
Losing-step l TrackingState.recovering k t e h i g = rw e (ground arith)

Losing-run :
    (l : Limits) (n : ℕ) (t : Tracking)
    → IsLimits l
    → IsTracking l t
    → Losing n (tracked l t (copies n false))
unfolding tracked
Losing-run l zero t h i = λ a. omega arith
Losing-run l (suc n) t h i =
    Losing-step l _ n _ refl h (tracked-IsTracking l t (copies n false) h i) (Losing-run l n t h i)

-- From a valid tracking, with limits that are positive and fit 32 bits, n fixed solutions in a row
-- end in the active state and n other measurements in a row do not, if n is at least each of the
-- limits.
pub tracking_settles :
    (l : Limits) (t : Tracking) (n : ℕ)
    → IsLimits l
    → IsTracking l t
    → l.confirm ≤ n
    → l.recovery ≤ n
    → l.lost ≤ n
    → ((tracked l t (copies n true)).tracking_state ≡ active_fixed)
      × ((tracked l t (copies n false)).tracking_state ≢ active_fixed)
tracking_settles l t n h i c r enough = (
  Gaining-active l n _ (tracked-IsTracking l t (copies n true) h i) c r (omega (arith, h.confirm))
      (Gaining-run l n t h i),
  λ active.
      let steady = tracked-IsTracking l t (copies n false) h i in
      omega (arith, Losing-run l n t h i active, steady.active active),
)

-- The count of fixed solutions never runs ahead of the measurements.
count-fixed_run :
    (l : Limits) (s : TrackingState) (t : Tracking) (n : ℕ) (fixed : Bool)
    → t.tracking_state ≡ s
    → IsTracking l t
    → t.consecutive_fixed_count ≤ n
    → (update_fixed_state l t fixed).0.consecutive_fixed_count ≤ (if fixed then n + 1 else 0)
unfolding update_fixed_state lose gain confirm increment_saturated
count-fixed_run l waiting t n false e i h = rw e (ground arith)
count-fixed_run l active_fixed t n false e i h = rw e (ground arith)
count-fixed_run l lost t n false e i h = rw e (ground arith)
count-fixed_run l TrackingState.recovering t n false e i h = rw e (ground arith)
count-fixed_run l waiting t n true e i h = rw e (ground arith)
count-fixed_run l active_fixed t n true e i h = rw e (ground arith)
count-fixed_run l lost t n true e i h = rw e (ground arith)
count-fixed_run l TrackingState.recovering t n true e i h = rw e (ground arith)

fixed_run_step :
    (f : Bool) (older : List Bool) → fixed_run (f ∷ older) ≡ (if f then fixed_run older + 1 else 0)
unfolding fixed_run
fixed_run_step true older = refl
fixed_run_step false older = refl

tracked-fixed_run :
    (l : Limits) (flags : List Bool)
    → IsLimits l
    → (tracked l new_tracking flags).consecutive_fixed_count ≤ fixed_run flags
unfolding tracked
tracked-fixed_run l [] h = omega arith
tracked-fixed_run l (f ∷ older) h = rw (fixed_run_step f older) (
    count-fixed_run l _ _ (fixed_run older) f refl
      (tracked-IsTracking l new_tracking older h (new_tracking-IsTracking l h))
      (tracked-fixed_run l older h))

-- What a step that makes the state active has seen.
activates :
    (l : Limits) (s : TrackingState) (t : Tracking) (fixed : Bool)
    → t.tracking_state ≡ s
    → IsLimits l
    → IsTracking l t
    → t.tracking_state ≢ active_fixed
    → (update_fixed_state l t fixed).0.tracking_state ≡ active_fixed
    → (if t.was_active_once then l.recovery else l.confirm)
      ≤ (update_fixed_state l t fixed).0.consecutive_fixed_count
unfolding update_fixed_state lose gain confirm increment_saturated
activates l waiting t false e h i n = rw e (λ a. ground arith)
activates l active_fixed t false e h i n = λ a. ground (arith, n e)
activates l lost t false e h i n = rw e (λ a. ground arith)
activates l TrackingState.recovering t false e h i n = rw e (λ a. ground arith)
activates l waiting t true e h i n = rw e (λ a. ground arith)
activates l active_fixed t true e h i n = λ a. ground (arith, n e)
activates l lost t true e h i n = rw e (λ a. ground arith)
activates l TrackingState.recovering t true e h i n = rw e (λ a. ground arith)

-- If the limits are positive and fit 32 bits, and a tracking that started new becomes active with
-- a measurement, then the newest measurements are fixed solutions in a row, as many as the confirm
-- count, or as the recovery count if the state was active before.
pub activation_needs_run :
    (l : Limits) (fixed : Bool) (older : List Bool)
    → IsLimits l
    → (tracked l new_tracking older).tracking_state ≢ active_fixed
    → (tracked l new_tracking (fixed ∷ older)).tracking_state ≡ active_fixed
    → (if (tracked l new_tracking older).was_active_once then l.recovery else l.confirm)
      ≤ fixed_run (fixed ∷ older)
unfolding tracked fixed_run
activation_needs_run l fixed older h not_yet now =
    let i = tracked-IsTracking l new_tracking older h (new_tracking-IsTracking l h) in
    let run = tracked-fixed_run l (fixed ∷ older) h in
    let seen = activates l _ _ fixed refl h i not_yet (unfold tracked in now) in
    omega (arith, run, seen)
