-- ===== src/Adapter/FixedState.antt =====
-- `updateFixedState`: when a fixed solution is confirmed, lost and recovered.
use fast_livo_ug.Base.{ℕ, ◌+◌, ◌-◌, ◌^◌, Bool, true, false, leb, ◌==◌, to_word, if◌then◌else◌}
use fast_livo_ug.Float.{Float}
use fast_livo_ug.Adapter.{
  GnssQuality, invalid, rtk_fixed, TrackingState, waiting, active_fixed, lost, Tracking,
  GnssAdapterConfig,
}

unfoldable pub increment_saturated : ℕ → ℕ
increment_saturated value = if value == 2 ^ 32 - 1 then value else value + 1

-- The counts of the configuration as the code compares them.
pub record Limits : Type 0 where
  pub confirm : ℕ
  pub lost : ℕ
  pub recovery : ℕ

abbrev pub limits : {F : Float} → GnssAdapterConfig F → Limits
limits c = record {
  confirm = to_word 32 c.fixed_confirm_count;
  lost = to_word 32 c.fixed_lost_count;
  recovery = to_word 32 c.recovery_confirm_count;
}

-- `resetRuntimeState` on these members.
abbrev pub new_tracking : Tracking
new_tracking = record {
  tracking_state = waiting;
  was_active_once = false;
  consecutive_fixed_count = 0;
  consecutive_lost_count = 0;
}

-- A measurement that is no fixed solution, by the state.
unfoldable pub lose : Limits → TrackingState → Tracking → Tracking × GnssQuality
lose l waiting t = (t, invalid)
lose l active_fixed t =
    if leb l.lost t.consecutive_lost_count
    then (record t { tracking_state = lost }, invalid)
    else (t, rtk_fixed)
lose l TrackingState.lost t = (t, invalid)
lose l TrackingState.recovering t =
    if leb l.lost t.consecutive_lost_count
    then (record t { tracking_state = lost }, invalid)
    else (t, GnssQuality.recovering)

-- The end of a chain of fixed solutions that `needed` of them confirm.
unfoldable pub confirm : ℕ → GnssQuality → Tracking → Tracking × GnssQuality
confirm needed otherwise t =
    if leb needed t.consecutive_fixed_count
    then (record t { tracking_state = active_fixed; was_active_once = true }, rtk_fixed)
    else (t, otherwise)

-- A fixed solution, by the state.
unfoldable pub gain : Limits → TrackingState → Tracking → Tracking × GnssQuality
unfolding confirm
gain l waiting t = confirm l.confirm invalid t
gain l active_fixed t = (t, rtk_fixed)
gain l TrackingState.lost t =
    confirm l.recovery GnssQuality.recovering
      (record t { tracking_state = TrackingState.recovering; consecutive_fixed_count = 1 })
gain l TrackingState.recovering t = confirm l.recovery GnssQuality.recovering t

unfoldable pub update_fixed_state : Limits → Tracking → Bool → Tracking × GnssQuality
unfolding increment_saturated lose gain
update_fixed_state l t false = lose l t.tracking_state (record t {
  consecutive_fixed_count = 0;
  consecutive_lost_count = increment_saturated t.consecutive_lost_count;
})
update_fixed_state l t true = gain l t.tracking_state (record t {
  consecutive_lost_count = 0;
  consecutive_fixed_count = increment_saturated t.consecutive_fixed_count;
})
