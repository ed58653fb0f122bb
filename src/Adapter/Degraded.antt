-- ===== src/Adapter/Degraded.antt =====
-- The adapter behind the fault injector: what the injector has degraded, and what becomes of it.
use fast_livo_ug.Base.{
  ℕ, ◌≡◌, ◌≢◌, sym, ◌∙◌, refl, ◌⊎◌, List, [], ◌∷◌, map, All, All-append, true, false, arith,
  if◌then◌else◌, Option, none, some,
}
use mathlib.Core.Path.{subst}
use fast_livo_ug.Float.{Float}
use fast_livo_ug.Gnss.{gps_to_utc_stamp_ns}
use fast_livo_ug.Fault.{GnssFaultInjectorCore, GnssFaultMode, is_passthrough}
use fast_livo_ug.Fault.Step.{interval}
use fast_livo_ug.Fault.Run
use fast_livo_ug.Fault.Run.{output_all}
use fast_livo_ug.Fault.Reference.{Interval, degrade, covers, stamp_of, outcome, outcomes}
use fast_livo_ug.Adapter.{GnssAdapter, GnssAdapterResult, Pvt, PvtFields, rtk_fixed, active_fixed}
use fast_livo_ug.Adapter.Quality.{classify, solution_quality}
use fast_livo_ug.Adapter.Process.{process_legacy}
use fast_livo_ug.Adapter.Calls.{legacy, process, process_all}
use fast_livo_ug.Adapter.Unfixed.{NotFixed, active_or_not, passed_on, legacy-IsUnfixed}

covering : (i : Interval) (t : Option ℕ) → covers i t ≡ true → is_passthrough i.mode ≡ false
unfolding covers
covering i none h = cc
covering i (some t) h = ground arith

module _ {F : Float} where
  not_fixed : (m : Pvt F) → solution_quality m ≢ rtk_fixed → NotFixed m
  unfolding classify
  not_fixed m h c = ground (arith, h)

  degrade-NotFixed :
      (mode : GnssFaultMode) (m : Pvt F)
      → is_passthrough mode ≡ false
      → All NotFixed (degrade mode m)
  unfolding degrade is_passthrough solution_quality
  degrade-NotFixed GnssFaultMode.passthrough m e = cc
  degrade-NotFixed GnssFaultMode.drop m e = tt
  degrade-NotFixed GnssFaultMode.float m e = (not_fixed _ (λ x. cc), tt)
  degrade-NotFixed GnssFaultMode.invalid m e = (not_fixed _ (λ x. cc), tt)

  outcomes-NotFixed :
      (from_sec : Float.Double F → ℕ) (i : Interval) (messages : List (Pvt F))
      → All (λ m. covers i (stamp_of F (PvtFields F) from_sec m) ≡ true) messages
      → All NotFixed (outcomes F (PvtFields F) from_sec i messages)
  unfolding outcomes outcome
  outcomes-NotFixed from_sec i [] h = tt
  outcomes-NotFixed from_sec i (m ∷ messages) h =
      All-append NotFixed _ _
        (subst (λ b. All NotFixed (if b then degrade i.mode m else m ∷ [])) (sym h.0)
          (degrade-NotFixed i.mode m (covering i (stamp_of F (PvtFields F) from_sec m) h.0)))
        (outcomes-NotFixed from_sec i messages h.1)

  -- The same over messages.
  abbrev pub AllUnfixed : GnssAdapter F → GnssAdapter F × List (GnssAdapterResult F) → Type 0
  AllUnfixed a r =
      All (λ result. result.status.raw_quality ≢ rtk_fixed) r.1
      × (r.0.origin.origin_initialized ≡ a.origin.origin_initialized)
      × ((r.0.tracking.tracking_state ≢ active_fixed) ⊎ (a.tracking.tracking_state ≡ active_fixed))

  messages-AllUnfixed :
      (from_sec : Float.Double F → ℕ) (messages : List (Pvt F)) (callback_time : ℕ)
      (a : GnssAdapter F)
      → All NotFixed messages
      → AllUnfixed a (process_all from_sec (map (λ m. legacy m callback_time) messages) a)
  unfolding process_all process process_legacy
  messages-AllUnfixed from_sec [] t a h = (tt, refl, active_or_not a.tracking.tracking_state)
  messages-AllUnfixed from_sec (m ∷ messages) t a h =
      let u = legacy-IsUnfixed (gps_to_utc_stamp_ns F from_sec m.week m.tow) m t a h.0 in
      let b = (process from_sec (legacy m t) a).0 in
      let rest = messages-AllUnfixed from_sec messages t b h.1 in
      ((u.raw, rest.0), rest.1 ∙ u.origin, passed_on rest.2 u.state)

  -- If every one of some messages has a valid time in the interval of a fault injector, and what
  -- the injector sends of them goes, without a stamp, to the adapter, then no answer has the raw
  -- quality of a fixed solution, the origin is initialized behind them exactly if it was before,
  -- and the fixed state is active behind them only if it was before. The filtered quality of an
  -- answer is not covered.
  pub degraded-AllUnfixed :
      (from_sec : Float.Double F → ℕ) (c : GnssFaultInjectorCore) (messages : List (Pvt F))
      (callback_time : ℕ) (a : GnssAdapter F)
      → All (λ m. covers (interval c) (stamp_of F (PvtFields F) from_sec m) ≡ true) messages
      → AllUnfixed a (
          process_all from_sec
            (map
              (λ m. legacy m callback_time)
              (output_all (Run.process_all F (PvtFields F) from_sec c messages).1))
            a)
  degraded-AllUnfixed from_sec c messages callback_time a h =
      messages-AllUnfixed from_sec _ callback_time a (
        subst (All NotFixed) (sym (Run.output_all-process_all F (PvtFields F) from_sec c messages))
          (outcomes-NotFixed from_sec (interval c) messages h))
