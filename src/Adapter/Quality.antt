-- ===== src/Adapter/Quality.antt =====
-- `classify`, `passesQualityGates` and `qualityAccepted`.
use fast_livo_ug.Base.{
  List, [], ◌∷◌, ◌++◌, Option, none, some, Bool, false, not, ◌&&◌, ◌||◌, ltb, ◌==◌, pos, less,
  if◌then◌else◌,
}
use fast_livo_ug.Float.{Float}
use fast_livo_ug.Adapter

module _ {F : Float} where
  open F use {Double, decimal, lt, le, neg, is_finite}

  unfoldable pub solution_quality : Adapter.Pvt F → Adapter.GnssQuality
  solution_quality m =
      if not m.diff_soln
      then Adapter.single
      else if m.carr_soln == 2
      then Adapter.rtk_fixed
      else if m.carr_soln == 1
      then Adapter.rtk_float
      else Adapter.differential

  -- The first test of `classify` that a message fails.
  unfoldable pub defect : Adapter.GnssAdapterConfig F → Adapter.Pvt F → Option Adapter.Reason
  defect c m =
      let f = m.rest in
      if not (is_finite f.latitude)
        || lt f.latitude (neg (decimal 90 0))
        || lt (decimal 90 0) f.latitude
      then some Adapter.invalid_latitude
      else if not (is_finite f.longitude)
          || lt f.longitude (neg (decimal 180 0))
          || lt (decimal 180 0) f.longitude
      then some Adapter.invalid_longitude
      else if not (is_finite f.altitude)
      then some Adapter.invalid_ellipsoid_height
      else if not (is_finite f.height_msl)
      then some Adapter.invalid_msl_height
      else if not (is_finite f.h_acc)
          || le f.h_acc (decimal 0 0)
          || not (is_finite f.v_acc)
          || le f.v_acc (decimal 0 0)
      then some Adapter.invalid_position_accuracy
      else if not (is_finite f.p_dop)
      then some Adapter.invalid_p_dop
      else if not (is_finite f.vel_n) || not (is_finite f.vel_e) || not (is_finite f.vel_d)
      then some Adapter.invalid_velocity
      else if not (is_finite f.vel_acc)
      then some Adapter.invalid_velocity_accuracy
      else if le f.p_dop (decimal 0 0) && c.reject_nonpositive_pdop
      then some Adapter.nonpositive_p_dop
      else if le f.vel_acc (decimal 0 0) && c.reject_nonpositive_vel_acc
      then some Adapter.nonpositive_velocity_accuracy
      else if not m.valid_fix
      then some Adapter.invalid_fix
      else if ltb m.fix_type 3
      then some Adapter.fix_type_below_3d
      else if not (m.fix_type == 3)
      then some Adapter.unsupported_fix_type
      else if ltb 2 m.carr_soln
      then some Adapter.invalid_carrier_solution
      else none

  -- `classify`, with the reason that it leaves.
  unfoldable pub classify :
      Adapter.GnssAdapterConfig F → Adapter.Pvt F → Adapter.GnssQuality × Option Adapter.Reason
  unfolding solution_quality defect
  classify c m = elim (defect c m) [
    | none ↦ (solution_quality m, none)
    | some reason ↦ (Adapter.invalid, some reason)
  ]

  -- The first test of `passesQualityGates` that a message fails.
  unfoldable pub failed_gate :
      Adapter.GnssAdapterConfig F → Adapter.PvtFields F → Option Adapter.Reason
  failed_gate c f =
      if less (pos f.num_sv) c.min_num_sv
      then some Adapter.num_sv_too_low
      else if less c.max_num_sv (pos f.num_sv)
      then some Adapter.num_sv_out_of_range
      else if lt (decimal 0 0) f.p_dop && lt c.max_pdop f.p_dop
      then some Adapter.p_dop_too_large
      else if lt c.max_h_acc_m f.h_acc
      then some Adapter.h_acc_too_large
      else if lt c.max_v_acc_m f.v_acc
      then some Adapter.v_acc_too_large
      else if lt (decimal 0 0) f.vel_acc && lt c.max_vel_acc_mps f.vel_acc
      then some Adapter.vel_acc_too_large
      else none

  -- The warnings that `passesQualityGates` leaves: the first test of them stands behind three gates.
  unfoldable pub gate_warnings :
      Adapter.GnssAdapterConfig F → Adapter.PvtFields F → List Adapter.Warning
  gate_warnings c f =
      let early =
        less (pos f.num_sv) c.min_num_sv
        || less c.max_num_sv (pos f.num_sv)
        || lt (decimal 0 0) f.p_dop && lt c.max_pdop f.p_dop in
      let late =
        lt c.max_h_acc_m f.h_acc
        || lt c.max_v_acc_m f.v_acc
        || lt (decimal 0 0) f.vel_acc && lt c.max_vel_acc_mps f.vel_acc in
      let dop =
        if le f.p_dop (decimal 0 0) && not c.reject_nonpositive_pdop
        then Adapter.nonpositive_p_dop_ignored ∷ []
        else [] in
      let velocity =
        if le f.vel_acc (decimal 0 0) && not c.reject_nonpositive_vel_acc
        then Adapter.nonpositive_velocity_accuracy_ignored ∷ []
        else [] in
      if early then [] else if late then dop else dop ++ velocity

  unfoldable pub quality_accepted : Adapter.GnssAdapterConfig F → Adapter.GnssQuality → Bool
  quality_accepted c Adapter.rtk_fixed = c.accept_rtk_fixed
  quality_accepted c Adapter.rtk_float = c.accept_rtk_float
  quality_accepted c Adapter.differential = c.accept_differential
  quality_accepted c Adapter.single = c.accept_single
  quality_accepted c Adapter.invalid = false
  quality_accepted c Adapter.GnssQuality.recovering = false
