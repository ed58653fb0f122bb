-- ===== src/Gnss/Geodesy.antt =====
-- The coordinates of src/gnss_serial_driver/src/gnss_math.cpp: `geodeticToEcef`, `ecefToGeodetic` and
-- `ecefDeltaToEnu`.
use fast_livo_ug.Base.{Bool, not, ◌&&◌, ◌||◌, if◌then◌else◌}
use fast_livo_ug.Float.{Float}

-- `Eigen::Vector3d`
pub record Vector3 (F : Float) : Type 0 where
  pub x : Float.Double F
  pub y : Float.Double F
  pub z : Float.Double F

module _ (F : Float) where
  open F use {
    Double, decimal, add, sub, mul, div, lt, fabs, sqrt, neg, sin, cos, hypot, atan2, is_finite,
    nan,
  }

  abbrev one : Double
  one = decimal 1 0

  abbrev pub degrees_to_radians : Double
  degrees_to_radians = div (decimal 314159265358979323846 20) (decimal 180 0)

  abbrev pub radians_to_degrees : Double
  radians_to_degrees = div (decimal 180 0) (decimal 314159265358979323846 20)

  abbrev pub semi_major_axis : Double
  semi_major_axis = decimal 6378137 0

  abbrev pub flattening : Double
  flattening = div one (decimal 298257223563 9)

  abbrev pub eccentricity_squared : Double
  eccentricity_squared = mul flattening (sub (decimal 2 0) flattening)

  abbrev pub semi_minor_axis : Double
  semi_minor_axis = mul semi_major_axis (sub one flattening)

  abbrev pub second_eccentricity_squared : Double
  second_eccentricity_squared =
      div (sub (mul semi_major_axis semi_major_axis) (mul semi_minor_axis semi_minor_axis))
        (mul semi_minor_axis semi_minor_axis)

  abbrev pub invalid_vector : Vector3 F
  invalid_vector = record { x = nan; y = nan; z = nan }

  unfoldable pub finite_vector : Vector3 F → Bool
  finite_vector v = is_finite v.x && is_finite v.y && is_finite v.z

  -- The guard of two of the functions on a latitude, a longitude and a height.
  abbrev pub bad_coordinates : Vector3 F → Bool
  bad_coordinates v =
      not (finite_vector v) || lt (decimal 90 0) (fabs v.x) || lt (decimal 180 0) (fabs v.y)

  -- The radius of curvature of the ellipsoid at a latitude with this sine.
  abbrev pub normal_radius : Double → Double
  normal_radius s = div semi_major_axis (sqrt (sub one (mul (mul eccentricity_squared s) s)))

  unfoldable pub geodetic_to_ecef : Vector3 F → Vector3 F
  geodetic_to_ecef v =
      let latitude = mul v.x degrees_to_radians in
      let longitude = mul v.y degrees_to_radians in
      let height = v.z in
      let sin_latitude = sin latitude in
      let cos_latitude = cos latitude in
      let radius = normal_radius sin_latitude in
      if bad_coordinates v then invalid_vector else record {
        x = mul (mul (add radius height) cos_latitude) (cos longitude);
        y = mul (mul (add radius height) cos_latitude) (sin longitude);
        z = mul (add (mul radius (sub one eccentricity_squared)) height) sin_latitude;
      }

  -- `ecefToGeodetic` behind its guards.
  unfoldable pub bowring : Vector3 F → Double → Vector3 F
  bowring v horizontal =
      let longitude = atan2 v.y v.x in
      let angle = atan2 (mul v.z semi_major_axis) (mul horizontal semi_minor_axis) in
      let s = sin angle in
      let c = cos angle in
      let latitude =
        atan2 (add v.z (mul (mul (mul (mul second_eccentricity_squared semi_minor_axis) s) s) s))
          (sub horizontal (mul (mul (mul (mul eccentricity_squared semi_major_axis) c) c) c)) in
      let height = sub (div horizontal (cos latitude)) (normal_radius (sin latitude)) in
      record {
        x = mul latitude radians_to_degrees;
        y = mul longitude radians_to_degrees;
        z = height;
      }

  unfoldable pub ecef_to_geodetic : Vector3 F → Vector3 F
  unfolding finite_vector bowring
  ecef_to_geodetic v =
      let horizontal = hypot v.x v.y in
      if not (finite_vector v)
      then invalid_vector
      else if lt horizontal (decimal 1 9)
      then (if lt (fabs v.z) (decimal 1 9) then invalid_vector else record {
        x = if lt v.z (decimal 0 0) then neg (decimal 90 0) else decimal 90 0;
        y = decimal 0 0;
        z = sub (fabs v.z) semi_minor_axis;
      })
      else bowring v horizontal

  unfoldable pub ecef_delta_to_enu : Vector3 F → Vector3 F → Vector3 F
  unfolding finite_vector
  ecef_delta_to_enu reference delta =
      let latitude = mul reference.x degrees_to_radians in
      let longitude = mul reference.y degrees_to_radians in
      let sin_latitude = sin latitude in
      let cos_latitude = cos latitude in
      let sin_longitude = sin longitude in
      let cos_longitude = cos longitude in
      if not (finite_vector reference)
        || not (finite_vector delta)
        || lt (decimal 90 0) (fabs reference.x)
        || lt (decimal 180 0) (fabs reference.y)
      then invalid_vector
      else record {
        x = add (mul (neg sin_longitude) delta.x) (mul cos_longitude delta.y);
        y =
            add
              (sub (mul (mul (neg sin_latitude) cos_longitude) delta.x)
                (mul (mul sin_latitude sin_longitude) delta.y))
              (mul cos_latitude delta.z);
        z =
            add
              (add (mul (mul cos_latitude cos_longitude) delta.x)
                (mul (mul cos_latitude sin_longitude) delta.y))
              (mul sin_latitude delta.z);
      }
