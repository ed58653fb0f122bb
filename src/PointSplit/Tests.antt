-- ===== src/PointSplit/Tests.antt =====
-- A scan that is split in its middle.
use fast_livo_ug.Base.{ℕ, ◌≡◌, refl, List, [], ◌∷◌, none, some, false, if◌then◌else◌}
use fast_livo_ug.Float.{Float}
use fast_livo_ug.Float.Fixed.{fixed}
use fast_livo_ug.PointSplit.{Point, Interval, InvalidArgument, append_livo_time_split, split_points}
use fast_livo_ug.PointSplit.Contract.{is_split, split_of, append_livo_time_split_lem}

abbrev point : ℕ → Point fixed ℕ
point ms = record { curvature = Float.double fixed ms; rest = ms }

-- 25 ms from the first second.
abbrev interval : Interval fixed
interval = record {
  source_epoch_s = Float.double fixed 1;
  begin_s = Float.double fixed 1;
  end_s = Float.decimal fixed 1025 3;
}

abbrev same : Float.Double fixed → Float.Double fixed
same x = x

abbrev scan : List (Point fixed ℕ)
scan = point 0 ∷ point 30 ∷ point 20 ∷ point 25 ∷ []

-- The points at 30 and 25 ms wait, 5 and 0 ms behind the end.
split_run : append_livo_time_split same false interval scan [] [] ≡ record {
  current = point 0 ∷ point 20 ∷ [];
  pending =
      record (point 30) { curvature = Float.double fixed 5 }
      ∷ record (point 25) { curvature = Float.double fixed 0 }
      ∷ [];
  thrown = none;
}
unfolding append_livo_time_split split_points
split_run = refl

append_livo_time_split_lem_example :
    append_livo_time_split same false interval scan (point 7 ∷ []) [] ≡ (
      if is_split false interval then split_of same interval scan (point 7 ∷ []) [] else record {
        current = point 7 ∷ [];
        pending = [];
        thrown = some InvalidArgument.invalid_split;
      })
append_livo_time_split_lem_example =
    append_livo_time_split_lem same false interval scan (point 7 ∷ []) []
