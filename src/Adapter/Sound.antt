-- ===== src/Adapter/Sound.antt =====
-- What the quality of a measurement that may be accepted is made of.
use fast_livo_ug.Base.{
  ◌≡◌, ◌≢◌, ◌⊎◌, inl, inr, refl, sym, ap, ◌∙◌, true, false, not, ◌&&◌, arith, if◌then◌else◌, Option,
  none, some,
}
use fast_livo_ug.Float.{Float}
use fast_livo_ug.Adapter
use fast_livo_ug.Adapter.{
  GnssAdapterConfig, GnssAdapter, GnssAdapterResult, Pvt, Tracking, TrackingState, waiting,
  active_fixed, lost, Origin, AverageNote, Reason, GnssQuality, rtk_fixed, same_quality, GnssStatus,
  Odometry, new_note,
}
use fast_livo_ug.Adapter.FixedState.{Limits, update_fixed_state, gain, confirm}
use fast_livo_ug.Adapter.Quality.{defect, classify, solution_quality, failed_gate, quality_accepted}
use fast_livo_ug.Adapter.Measure.{Finding, find, find_position, quality_enabled}

-- A fixed solution has the quality of one only while the state is active.
fixed_active :
    (l : Limits) (s : TrackingState) (t : Tracking)
    → t.tracking_state ≡ s
    → (update_fixed_state l t true).1 ≡ rtk_fixed
    → (update_fixed_state l t true).0.tracking_state ≡ active_fixed
unfolding update_fixed_state gain confirm
fixed_active l waiting t e = rw e (λ a. ground arith)
fixed_active l active_fixed t e = rw e (λ a. ground (arith, e))
fixed_active l lost t e = rw e (λ a. ground arith)
fixed_active l TrackingState.recovering t e = rw e (λ a. ground arith)

pub fixed_confirmed :
    (l : Limits) (t : Tracking) (raw q : GnssQuality)
    → raw ≡ q
    → (q ≡ rtk_fixed → (update_fixed_state l t (same_quality raw rtk_fixed)).1 ≡ rtk_fixed)
    → (q ≢ rtk_fixed)
      ⊎ ((update_fixed_state l t (same_quality raw rtk_fixed)).0.tracking_state ≡ active_fixed)
unfolding Adapter.quality_code
fixed_confirmed l t raw rtk_fixed e = rw e (λ h. inr (fixed_active l _ t refl (h refl)))
fixed_confirmed l t raw Adapter.invalid e = λ h. inl (λ x. cc)
fixed_confirmed l t raw Adapter.single e = λ h. inl (λ x. cc)
fixed_confirmed l t raw Adapter.differential e = λ h. inl (λ x. cc)
fixed_confirmed l t raw Adapter.rtk_float e = λ h. inl (λ x. cc)
fixed_confirmed l t raw Adapter.GnssQuality.recovering e = λ h. inl (λ x. cc)

module _ {F : Float} where
  -- What the quality of a measurement that may be accepted is made of.
  pub record IsSound (c : GnssAdapterConfig F) (m : Pvt F) (fixed_state : GnssQuality)
      : Type 0 where
    pub well_formed : defect c m ≡ none
    pub graded : (classify c m).0 ≡ solution_quality m
    pub gated : failed_gate c m.rest ≡ none
    pub enabled : quality_accepted c (solution_quality m) ≡ true
    pub confirmed : solution_quality m ≡ rtk_fixed → fixed_state ≡ rtk_fixed

  position_enabled :
      (c : GnssAdapterConfig F) (m : Pvt F) (f : Finding F)
      → quality_enabled c (find_position c m f) ≡ true
      → (quality_enabled c f ≡ true) × ((find_position c m f).reject_reason ≡ f.reject_reason)
  unfolding quality_enabled find_position
  position_enabled c m f h = ground arith

  graded_enabled :
      (c : GnssAdapterConfig F) (raw : GnssQuality) (gate : Option Reason) (f : Finding F)
      → f.raw_quality ≡ raw
      → f.gates_passed
        ≡ (not (same_quality raw Adapter.invalid) && elim gate [ none ↦ true | some r ↦ false ])
      → f.fixed_measurement_usable ≡ (same_quality raw rtk_fixed && f.gates_passed)
      → quality_enabled c f ≡ true
      → (gate ≡ none)
        × (same_quality raw Adapter.invalid ≡ false)
        × (quality_accepted c raw ≡ true)
        × (raw ≡ rtk_fixed → f.fixed_state_quality ≡ rtk_fixed)
  unfolding quality_enabled quality_accepted Adapter.quality_code
  graded_enabled c Adapter.invalid gate f e p u h = ground arith
  graded_enabled c Adapter.single gate f e p u h = ground arith
  graded_enabled c Adapter.differential gate f e p u h = ground arith
  graded_enabled c Adapter.rtk_float gate f e p u h = ground arith
  graded_enabled c Adapter.rtk_fixed gate f e p u h = ground arith
  graded_enabled c Adapter.GnssQuality.recovering gate f e p u h = ground arith

  classified :
      (c : GnssAdapterConfig F) (m : Pvt F)
      → same_quality (classify c m).0 Adapter.invalid ≡ false
      → (defect c m ≡ none) × ((classify c m).0 ≡ solution_quality m)
  unfolding classify Adapter.quality_code
  classified c m h = ground arith

  pub enabled-IsSound :
      (c : GnssAdapterConfig F) (m : Pvt F) (s : GnssQuality)
      → quality_enabled c (find c m s) ≡ true
      → IsSound c m s × ((find c m s).reject_reason ≡ none)
  unfolding find
  enabled-IsSound c m s h =
      let p = position_enabled c m _ h in
      let g = graded_enabled c (classify c m).0 (failed_gate c m.rest) _ refl refl refl p.0 in
      let k = classified c m g.1 in
      (
        record {
          well_formed = k.0;
          graded = k.1;
          gated = g.0;
          enabled = rw (sym k.1) g.2;
          confirmed = λ e. g.3 (k.1 ∙ e);
        },
        p.1 ∙ ap (λ b. if b then (classify c m).1 else failed_gate c m.rest) g.1 ∙ g.0,
      )
