-- ===== src/Mapping/Fit.antt =====
-- `robustAffineFit`: a weighted line through time pairs, with outliers weighted down and cut off.
pub mod Result
use fast_livo_ug.Base.{
  ℕ, zero, suc, ◌+◌, ◌-◌, ◌*◌, ◌/◌, ◌%◌, ◌^◌, List, [], ◌∷◌, map, Option, none, some, Bool, true,
  not, ◌&&◌, ◌||◌, min, max, ltb, leb, ◌==◌, if◌then◌else◌, length, get_or, last?,
}
use mathlib.Core.Option.{get_or as value_or}
use fast_livo_ug.Float.{Float}
use fast_livo_ug.Mapping.Types.{TimePair, zero_pair, AffineMapping, uint64_max}
use fast_livo_ug.Mapping.Convert.{clamp_u64, median}

-- `pairs.front()` and `pairs.back()`, of vectors that are not empty.
abbrev pub front : List TimePair → TimePair
front pairs = get_or pairs 0 zero_pair

abbrev pub back : List TimePair → TimePair
back pairs = get_or pairs (length pairs - 1) zero_pair

-- `pairs[pairs.size() / 2]`
abbrev pub reference_pair : List TimePair → TimePair
reference_pair pairs = get_or pairs (length pairs / 2) zero_pair

-- The loop for `minimum_uncertainty_ns`.
unfoldable pub minimum_uncertainty : ℕ → List TimePair → ℕ
minimum_uncertainty least [] = least
minimum_uncertainty least (p ∷ pairs) =
    minimum_uncertainty (min least (max 1 p.uncertainty_ns)) pairs

-- The elements at one index of the vectors x, y, base_weights and weights.
pub record Row (F : Float) : Type 0 where
  pub x : F.Long
  pub y : F.Long
  pub base_weight : F.Double
  pub weight : F.Double

pub record Sums (F : Float) : Type 0 where
  pub sw : F.Long
  pub sx : F.Long
  pub sy : F.Long
  pub sxx : F.Long
  pub sxy : F.Long

pub record Line (F : Float) : Type 0 where
  pub slope : F.Long
  pub intercept : F.Long

module _ (F : Float) where
  open F use {
    Double, Long, decimal, double, add, sub, mul, div, le, lt, fabs, sqrt, ceil, is_finite,
    truncate, long, widen, narrow, add_long, sub_long, mul_long, div_long, le_long, lt_long,
    fabs_long,
  }

  -- `std::max` on doubles.
  unfoldable pub max_double : Double → Double → Double
  max_double a b = if lt a b then b else a

  unfoldable pub make_row : TimePair → ℕ → TimePair → Row F
  make_row reference least p =
      let sigma = double (max 1 p.uncertainty_ns) in
      let relative_sigma = div (double least) sigma in
      let base = mul relative_sigma relative_sigma in
      record {
        x = sub_long (long p.local_ns) (long reference.local_ns);
        y = sub_long (long p.utc_ns) (long reference.utc_ns);
        base_weight = base;
        weight = base;
      }

  unfoldable pub add_row : Sums F → Row F → Sums F
  add_row s r =
      let w = widen r.weight in
      record {
        sw = add_long s.sw w;
        sx = add_long s.sx (mul_long w r.x);
        sy = add_long s.sy (mul_long w r.y);
        sxx = add_long s.sxx (mul_long (mul_long w r.x) r.x);
        sxy = add_long s.sxy (mul_long (mul_long w r.x) r.y);
      }

  unfoldable pub sum_rows : Sums F → List (Row F) → Sums F
  sum_rows s [] = s
  sum_rows s (r ∷ rows) = sum_rows (add_row s r) rows

  -- The lambda `fit`. `none` is `return false`, after which the caller returns false too.
  unfoldable pub fit : List (Row F) → Option (Line F)
  unfolding sum_rows add_row
  fit rows =
      let s =
        sum_rows (record { sw = long 0; sx = long 0; sy = long 0; sxx = long 0; sxy = long 0 })
          rows in
      let denominator = sub_long (mul_long s.sw s.sxx) (mul_long s.sx s.sx) in
      let slope = div_long (sub_long (mul_long s.sw s.sxy) (mul_long s.sx s.sy)) denominator in
      let intercept = div_long (sub_long s.sy (mul_long slope s.sx)) s.sw in
      if le_long s.sw (long 0) || lt_long (fabs_long denominator) (long 1)
      then none
      else if lt_long (long 0) slope && is_finite (narrow slope)
      then some (record { slope = slope; intercept = intercept })
      else none

  unfoldable pub residual : Line F → Row F → Double
  residual line r = narrow (sub_long r.y (add_long line.intercept (mul_long line.slope r.x)))

  -- `center` and `robust_sigma` of the residuals.
  unfoldable pub robust_scale : List Double → Double × Double
  unfolding max_double
  robust_scale residuals =
      let center = median F residuals in
      let absolute = map (λ r. fabs (sub r center)) residuals in
      (center, max_double (decimal 1 0) (mul (decimal 14826 4) (median F absolute)))

  unfoldable pub huber_row : Line F → Double → Double → Row F → Row F
  unfolding residual
  huber_row line center limit r =
      let abs_residual = fabs (sub (residual line r) center) in
      let huber_weight = if le abs_residual limit then decimal 1 0 else div limit abs_residual in
      record r { weight = mul r.base_weight huber_weight }

  -- One round of the loop behind its `fit`.
  unfoldable pub reweigh : Double → Line F → List (Row F) → List (Row F)
  unfolding robust_scale huber_row
  reweigh huber_limit_ns line rows =
      let (center, robust_sigma) = robust_scale (map (residual line) rows) in
      let limit =
        max_double (mul robust_sigma (decimal 15 1)) (max_double (decimal 1 0) huber_limit_ns) in
      map (huber_row line center limit) rows

  -- `for (int iteration = 0; iteration < 8; ++iteration)`, with the rounds left.
  unfoldable pub iterate : ℕ → Double → Line F → List (Row F) → Option (Line F × List (Row F))
  iterate zero huber_limit_ns line rows = some (line, rows)
  iterate (suc n) huber_limit_ns line rows = elim (fit rows) [
    | none ↦ none
    | some next ↦ iterate n huber_limit_ns next (reweigh huber_limit_ns next rows)
  ]

  unfoldable pub is_inlier : Line F → Double → Double → Row F → Bool
  is_inlier line center limit r = le (fabs (sub (residual line r) center)) limit

  unfoldable pub cut_row : Line F → Double → Double → Row F → Row F
  unfolding is_inlier
  cut_row line center limit r = record r {
    weight = if is_inlier line center limit r then r.base_weight else decimal 0 0;
  }

  unfoldable pub count_inliers : Line F → Double → Double → List (Row F) → ℕ
  unfolding is_inlier
  count_inliers line center limit [] = 0
  count_inliers line center limit (r ∷ rows) =
      let rest = count_inliers line center limit rows in
      if is_inlier line center limit r then suc rest else rest

  -- The last loop: `squared_sum` and `max_abs` over the rows with a positive weight.
  unfoldable pub residual_sums : Line F → Long → Double → List (Row F) → Long × Double
  unfolding max_double residual
  residual_sums line squared_sum max_abs [] = (squared_sum, max_abs)
  residual_sums line squared_sum max_abs (r ∷ rows) =
      let v = residual line r in
      let skip = le r.weight (decimal 0 0) in
      residual_sums line
        (if skip then squared_sum else add_long squared_sum (mul_long (widen v) (widen v)))
        (if skip then max_abs else max_double max_abs (fabs v)) rows

  -- The assignments to `mapping`.
  unfoldable pub fill_mapping :
      List TimePair → TimePair → Line F → ℕ → ℕ → Long × Double → AffineMapping F
  fill_mapping pairs reference line utc_reference_ns inlier_count (squared_sum, max_abs) =
      let slope = narrow line.slope in
      let rms = sqrt (narrow (div_long squared_sum (long inlier_count))) in
      record {
        valid = true;
        local_reference_ns = reference.local_ns;
        utc_reference_ns = utc_reference_ns;
        utc_ns_per_local_ns = slope;
        slope_ppm = mul (sub slope (decimal 1 0)) (decimal 1000000 0);
        valid_from_local_ns = (front pairs).local_ns;
        fit_span_ns = ((back pairs).local_ns + 2 ^ 64 - (front pairs).local_ns) % 2 ^ 64;
        sample_count = inlier_count % 2 ^ 32;
        residual_rms_ns = rms;
        residual_max_ns = max_abs;
        time_uncertainty_ns = truncate (ceil (max_double rms (double reference.uncertainty_ns)));
      }

  -- What follows the second `fit`.
  unfoldable pub finish_fit :
      List TimePair → TimePair → Line F → ℕ → List (Row F) → Option (AffineMapping F)
  unfolding residual_sums fill_mapping
  finish_fit pairs reference line inlier_count rows =
      let sums = residual_sums line (long 0) (decimal 0 0) rows in
      let utc_reference_ns = clamp_u64 F (add_long (long reference.utc_ns) line.intercept) in
      if utc_reference_ns == uint64_max
      then none
      else some (fill_mapping pairs reference line utc_reference_ns inlier_count sums)

  -- What follows the loop: the outliers are cut off, and the rest is fitted again.
  unfoldable pub fit_inliers :
      List TimePair → TimePair → Double → Line F → List (Row F) → Option (AffineMapping F)
  unfolding robust_scale max_double cut_row count_inliers fit finish_fit
  fit_inliers pairs reference huber_limit_ns line rows =
      let (center, robust_sigma) = robust_scale (map (residual line) rows) in
      let inlier_limit =
        max_double (max_double (decimal 1 0) huber_limit_ns) (mul robust_sigma (decimal 4 0)) in
      let cut = map (cut_row line center inlier_limit) rows in
      let inlier_count = count_inliers line center inlier_limit rows in
      if ltb inlier_count 2 then none else elim (fit cut) [
        | none ↦ none
        | some last ↦ finish_fit pairs reference last inlier_count cut
      ]

  -- `none` is `return false`, which leaves `mapping` as it was.
  unfoldable pub robust_affine_fit : List TimePair → Double → Option (AffineMapping F)
  unfolding make_row iterate fit_inliers
  robust_affine_fit pairs huber_limit_ns =
      let reference = reference_pair pairs in
      let least = minimum_uncertainty uint64_max pairs in
      let rows = map (make_row reference least) pairs in
      let start : Line F = record { slope = long 1; intercept = long 0 } in
      if ltb (length pairs) 2 then none else elim (iterate 8 huber_limit_ns start rows) [
        | none ↦ none
        | some (line, weighted) ↦ fit_inliers pairs reference huber_limit_ns line weighted
      ]
