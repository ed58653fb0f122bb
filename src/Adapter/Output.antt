-- ===== src/Adapter/Output.antt =====
-- `fillOdometry`.
use fast_livo_ug.Base.{ℕ, zero, suc, List, [], ◌∷◌, set, if◌then◌else◌}
use fast_livo_ug.Float.{Float}
use fast_livo_ug.Gnss.Geodesy.{Vector3}
use fast_livo_ug.Adapter.{GnssAdapterConfig, Pvt, Odometry}

module _ (F : Float) where
  open F use {Double, decimal, mul, neg, lt}

  -- `std::max` and `std::min`
  abbrev pub maximum : Double → Double → Double
  maximum a b = if lt a b then b else a

  abbrev pub minimum : Double → Double → Double
  minimum a b = if lt b a then b else a

  abbrev pub clamp_value : Double → Double → Double → Double
  clamp_value value lower upper = maximum lower (minimum value upper)

  unfoldable pub zeros : ℕ → List Double
  zeros zero = []
  zeros (suc n) = decimal 0 0 ∷ zeros n

  -- The three entries of a covariance that stand for the unknown orientation.
  unfoldable pub set_orientation_variance : List Double → List Double
  set_orientation_variance c = let u = decimal 1000000 0 in set (set (set c 21 u) 28 u) 35 u

  unfoldable pub fill_odometry : GnssAdapterConfig F → Pvt F → ℕ → Vector3 F → Odometry F
  unfolding zeros set_orientation_variance
  fill_odometry c m stamp enu =
      let f = m.rest in
      let sigma_xy = clamp_value f.h_acc c.min_sigma_xy_m c.max_sigma_xy_m in
      let sigma_z = clamp_value f.v_acc c.min_sigma_z_m c.max_sigma_z_m in
      let usable_vel_acc = if lt (decimal 0 0) f.vel_acc then f.vel_acc else decimal 0 0 in
      let sigma_vel = maximum usable_vel_acc c.min_sigma_vel_mps in
      let velocity_variance = mul sigma_vel sigma_vel in
      record {
        stamp = stamp;
        frame_id = c.frame_id;
        child_frame_id = c.child_frame_id;
        position = enu;
        orientation = record { x = decimal 0 0; y = decimal 0 0; z = decimal 0 0 };
        orientation_w = decimal 1 0;
        pose_covariance = set_orientation_variance (
            set (set (set (zeros 36) 0 (mul sigma_xy sigma_xy)) 7 (mul sigma_xy sigma_xy)) 14
              (mul sigma_z sigma_z));
        velocity = record { x = f.vel_e; y = f.vel_n; z = neg f.vel_d };
        twist_covariance = set_orientation_variance (
            set (set (set (zeros 36) 0 velocity_variance) 7 velocity_variance) 14
              velocity_variance);
      }
