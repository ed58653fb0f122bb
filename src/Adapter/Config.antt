-- ===== src/Adapter/Config.antt =====
-- `validateConfig`, and what `initialize` makes of a loaded configuration.
use fast_livo_ug.Base.{
  ℕ, List, [], ◌∷◌, Option, none, some, Bool, true, false, not, ◌&&◌, ◌||◌, pos, less, same_text,
  if◌then◌else◌,
}
use fast_livo_ug.Float.{Float}
use fast_livo_ug.Gnss.Geodesy.{finite_vector}
use fast_livo_ug.Adapter.{GnssAdapterConfig, GnssAdapter}
use fast_livo_ug.Adapter.Average.{manual, first_fixed, average_fixed}
use fast_livo_ug.Adapter.Stages.{new_adapter}

abbrev pub legacy_gnss_comm : List ℕ
legacy_gnss_comm =
    b'l' ∷ b'e' ∷ b'g' ∷ b'a' ∷ b'c' ∷ b'y' ∷ b'_' ∷ b'g' ∷ b'n' ∷ b's' ∷ b's' ∷ b'_' ∷ b'c' ∷ b'o'
    ∷ b'm' ∷ b'm' ∷ []

abbrev pub stamped_local : List ℕ
stamped_local =
    b's' ∷ b't' ∷ b'a' ∷ b'm' ∷ b'p' ∷ b'e' ∷ b'd' ∷ b'_' ∷ b'l' ∷ b'o' ∷ b'c' ∷ b'a' ∷ b'l' ∷ []

abbrev pub pose_with_covariance_stamped : List ℕ
pose_with_covariance_stamped =
    b'p' ∷ b'o' ∷ b's' ∷ b'e' ∷ b'_' ∷ b'w' ∷ b'i' ∷ b't' ∷ b'h' ∷ b'_' ∷ b'c' ∷ b'o' ∷ b'v' ∷ b'a'
    ∷ b'r' ∷ b'i' ∷ b'a' ∷ b'n' ∷ b'c' ∷ b'e' ∷ b'_' ∷ b's' ∷ b't' ∷ b'a' ∷ b'm' ∷ b'p' ∷ b'e'
    ∷ b'd' ∷ []

-- `GnssFusionPolicy` of gnss_fusion_policy.h.
pub record GnssFusionPolicy : Type 0 where
  pub managed : Bool
  pub enabled : Bool

unfoldable pub component_enabled : GnssFusionPolicy → Bool → Bool
component_enabled p configured = configured && (not p.managed || p.enabled)

abbrev pub is_empty : List ℕ → Bool
is_empty [] = true
is_empty (x ∷ xs) = false

module _ {F : Float} where
  open F use {Double, decimal, lt, le, neg}

  -- The tests of the texts and of the pose input.
  unfoldable pub valid_modes : GnssAdapterConfig F → Bool
  valid_modes c =
      (same_text c.input_mode legacy_gnss_comm
        || same_text c.input_mode stamped_local
        || same_text c.input_mode pose_with_covariance_stamped)
      && not (
          less c.pose_input_quality (pos 1)
          || less (pos 4) c.pose_input_quality
          || less c.pose_input_num_sv (pos 0)
          || less (pos 255) c.pose_input_num_sv)
      && not
          (same_text c.input_mode pose_with_covariance_stamped && not c.publish_local_enu_odometry)
      && (same_text c.origin_mode manual
          || same_text c.origin_mode first_fixed
          || same_text c.origin_mode average_fixed)
      && not (
          same_text c.origin_mode manual
          && (not (finite_vector F c.origin_lla)
              || lt c.origin_lla.x (neg (decimal 90 0))
              || lt (decimal 90 0) c.origin_lla.x
              || lt c.origin_lla.y (neg (decimal 180 0))
              || lt (decimal 180 0) c.origin_lla.y))

  -- The tests of the counts.
  unfoldable pub valid_counts : GnssAdapterConfig F → Bool
  valid_counts c =
      not (
        less c.origin_average_count (pos 1)
        || less c.fixed_confirm_count (pos 1)
        || less c.fixed_lost_count (pos 1)
        || less c.recovery_confirm_count (pos 1))
      && not (
          less c.min_num_sv (pos 0)
          || less (pos 255) c.max_num_sv
          || less c.max_num_sv c.min_num_sv)

  -- The tests of the limits.
  unfoldable pub valid_limits : GnssAdapterConfig F → Bool
  valid_limits c =
      let positive : Double → Bool = λ x. lt (decimal 0 0) x in
      positive c.max_pdop
      && positive c.max_h_acc_m
      && positive c.max_v_acc_m
      && positive c.max_vel_acc_mps
      && positive c.min_sigma_xy_m
      && positive c.min_sigma_z_m
      && positive c.min_sigma_vel_mps
      && le c.min_sigma_xy_m c.max_sigma_xy_m
      && le c.min_sigma_z_m c.max_sigma_z_m
      && positive c.origin_average_max_gap_s
      && positive c.max_time_gap_s
      && positive c.log_interval_s

  unfoldable pub validate_config : GnssAdapterConfig F → Bool
  unfolding valid_modes valid_counts valid_limits
  validate_config c =
      valid_modes c
      && valid_counts c
      && valid_limits c
      && not (
          is_empty c.input_topic
          || c.publish_local_enu_odometry && is_empty c.output_odom_topic
          || is_empty c.output_status_topic
          || is_empty c.frame_id
          || is_empty c.child_frame_id)

  -- `initialize`, given the loaded configuration and policy.
  unfoldable pub initialize : GnssAdapterConfig F → GnssFusionPolicy → Option (GnssAdapter F)
  unfolding validate_config component_enabled
  initialize c policy =
      if validate_config c
      then some (new_adapter (record c { enable = component_enabled policy c.enable }))
      else none
