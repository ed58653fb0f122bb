-- ===== src/Adapter/Tracked.antt =====
-- What holds of the tracking between two measurements.
use fast_livo_ug.Base.{◌^◌, ◌≤◌, ◌<◌, ◌≡◌, ◌⊎◌, refl, List, [], ◌∷◌, Bool, true, false, arith}
use fast_livo_ug.Adapter.{TrackingState, waiting, active_fixed, lost, Tracking}
use fast_livo_ug.Adapter.FixedState.{
  Limits, new_tracking, increment_saturated, lose, gain, confirm, update_fixed_state,
}

-- Limits that fit the counters and are at least one.
pub record IsLimits (l : Limits) : Type 0 where
  pub confirm : 1 ≤ l.confirm
  pub lost : 1 ≤ l.lost
  pub recovery : 1 ≤ l.recovery
  pub confirm_word : l.confirm < 2 ^ 32
  pub lost_word : l.lost < 2 ^ 32
  pub recovery_word : l.recovery < 2 ^ 32

-- What holds of the tracking between two measurements.
pub record IsTracking (l : Limits) (t : Tracking) : Type 0 where
  pub one_count : (t.consecutive_fixed_count ≡ 0) ⊎ (t.consecutive_lost_count ≡ 0)
  pub fixed_word : t.consecutive_fixed_count < 2 ^ 32
  pub lost_word : t.consecutive_lost_count < 2 ^ 32
  pub new : t.tracking_state ≡ waiting → t.consecutive_fixed_count < l.confirm
  pub active : t.tracking_state ≡ active_fixed → t.consecutive_lost_count < l.lost
  pub gone : t.tracking_state ≡ lost → t.consecutive_fixed_count ≡ 0
  pub recovering_fixed :
      t.tracking_state ≡ TrackingState.recovering → t.consecutive_fixed_count < l.recovery
  pub recovering_lost :
      t.tracking_state ≡ TrackingState.recovering → t.consecutive_lost_count < l.lost
  pub fresh : t.tracking_state ≡ waiting → t.was_active_once ≡ false
  pub was_active : t.was_active_once ≡ false → t.tracking_state ≡ waiting

pub new_tracking-IsTracking : (l : Limits) → IsLimits l → IsTracking l new_tracking
new_tracking-IsTracking l h = ground arith

pub update-IsTracking :
    (l : Limits) (s : TrackingState) (t : Tracking) (fixed : Bool)
    → t.tracking_state ≡ s
    → IsLimits l
    → IsTracking l t
    → IsTracking l (update_fixed_state l t fixed).0
unfolding update_fixed_state lose gain confirm increment_saturated
update-IsTracking l waiting t false e h i = rw e (ground arith)
update-IsTracking l active_fixed t false e h i = rw e (ground arith)
update-IsTracking l lost t false e h i = rw e (ground arith)
update-IsTracking l TrackingState.recovering t false e h i = rw e (ground arith)
update-IsTracking l waiting t true e h i = rw e (ground arith)
update-IsTracking l active_fixed t true e h i = rw e (ground arith)
update-IsTracking l lost t true e h i = rw e (ground arith)
update-IsTracking l TrackingState.recovering t true e h i = rw e (ground arith)

-- The tracking after measurements, of which the newest stands first.
unfoldable pub tracked : Limits → Tracking → List Bool → Tracking
tracked l t [] = t
tracked l t (fixed ∷ older) = (update_fixed_state l (tracked l t older) fixed).0

pub tracked-IsTracking :
    (l : Limits) (t : Tracking) (flags : List Bool)
    → IsLimits l
    → IsTracking l t
    → IsTracking l (tracked l t flags)
unfolding tracked
tracked-IsTracking l t [] h i = i
tracked-IsTracking l t (f ∷ older) h i =
    update-IsTracking l _ (tracked l t older) f refl h (tracked-IsTracking l t older h i)
