-- ===== src/PointSplit.antt =====
-- `appendLivoTimeSplit` of src/FAST_LIVO2/include/livo_point_time_split.h: the points of a scan before
-- and behind the time of the image. `Rest` is what a point has beside its curvature, and `float` the
-- rounding of `static_cast<float>`.
pub mod Contract
mod Tests
use fast_livo_ug.Base.{List, [], ◌∷◌, ◌++◌, Option, none, some, Bool, not, ◌||◌, if◌then◌else◌}
use fast_livo_ug.Float.{Float}

pub record Point (F : Float) (Rest : Type 0) : Type 0 where
  pub curvature : Float.Double F
  pub rest : Rest

-- The texts of the exceptions.
pub data InvalidArgument : Type 0 where
  invalid_split non_finite_timestamp : InvalidArgument

pub record Interval (F : Float) : Type 0 where
  pub source_epoch_s : Float.Double F
  pub begin_s : Float.Double F
  pub end_s : Float.Double F

-- The two outputs, and the exception that the call ends with.
pub record Split (F : Float) (Rest : Type 0) : Type 0 where
  pub current : List (Point F Rest)
  pub pending : List (Point F Rest)
  pub thrown : Option InvalidArgument

module _ {F : Float} where
  open F use {Double, decimal, add, sub, mul}

  abbrev pub duration_ms : Interval F → Double
  duration_ms i = mul (sub i.end_s i.begin_s) (decimal 1000 0)

  abbrev pub offset_ms : {Rest : Type 0} → Interval F → Point F Rest → Double
  offset_ms i p = add p.curvature (mul (sub i.source_epoch_s i.begin_s) (decimal 1000 0))

module _ {F : Float} {Rest : Type 0} (float : Float.Double F → Float.Double F) where
  open F use {Double, sub, lt, le, is_finite}

  -- `adjusted`, for either output.
  abbrev pub early_point : Interval F → Point F Rest → Point F Rest
  early_point i p = record p { curvature = float (offset_ms i p) }

  abbrev pub late_point : Interval F → Point F Rest → Point F Rest
  late_point i p = record p { curvature = float (sub (offset_ms i p) (duration_ms i)) }

  -- The loop.
  unfoldable pub split_points :
      Interval F → List (Point F Rest) → List (Point F Rest) → List (Point F Rest) → Split F Rest
  split_points i [] current pending = record { current = current; pending = pending; thrown = none }
  split_points i (p ∷ input) current pending =
      let is_early = lt (offset_ms i p) (duration_ms i) in
      let rest =
        split_points i input (if is_early then current ++ (early_point i p ∷ []) else current)
          (if is_early then pending else pending ++ (late_point i p ∷ [])) in
      if not (is_finite (offset_ms i p))
      then record {
        current = current;
        pending = pending;
        thrown = some InvalidArgument.non_finite_timestamp;
      }
      else rest

  -- `aliased` says whether two of the three containers are one.
  unfoldable pub append_livo_time_split :
      Bool
      → Interval F
      → List (Point F Rest)
      → List (Point F Rest)
      → List (Point F Rest)
      → Split F Rest
  unfolding split_points
  append_livo_time_split aliased i input current pending =
      if not (is_finite i.source_epoch_s)
        || not (is_finite i.begin_s)
        || not (is_finite i.end_s)
        || le i.end_s i.begin_s
        || aliased
      then record {
        current = current;
        pending = pending;
        thrown = some InvalidArgument.invalid_split;
      }
      else split_points i input current pending
