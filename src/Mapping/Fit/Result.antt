-- ===== src/Mapping/Fit/Result.antt =====
-- The mapping that `robustAffineFit` leaves.
use fast_livo_ug.Base.{
  ℕ, zero, suc, ◌+◌, ◌-◌, ◌%◌, ◌^◌, ◌≤◌, ◌≡◌, ◌≢◌, refl, sym, ap, ◌∙◌, List, [], ◌∷◌, map, Option,
  none, some, true, false, arith, ltb, ◌==◌, length, guard-some, step-some, some_inj,
}
use fast_livo_ug.Float.{Float}
use fast_livo_ug.Mapping.Types.{TimePair, AffineMapping, uint64_max}
use fast_livo_ug.Mapping.Convert.{clamp_u64}
use fast_livo_ug.Mapping.Fit.{
  Row, Line, front, back, reference_pair, make_row, minimum_uncertainty, fit, reweigh, iterate,
  count_inliers, cut_row, robust_scale, residual, max_double, finish_fit, fit_inliers, fill_mapping,
  residual_sums, robust_affine_fit,
}
use mathlib.Core.Path.{subst}

at_least : (k : ℕ) → ltb k 2 ≡ false → 2 ≤ k
at_least k h = ground arith

length-map : {A B : Type 0} (f : A → B) (xs : List A) → length (map f xs) ≡ length xs
length-map f [] = refl
length-map f (x ∷ xs) = ap suc (length-map f xs)

module _ (F : Float) where
  length-iterate :
      (n : ℕ) (limit : F.Double) (line : Line F) (rows : List (Row F)) {last : Line F}
      {out : List (Row F)}
      → iterate F n limit line rows ≡ some (last, out)
      → length out ≡ length rows
  unfolding iterate reweigh
  length-iterate zero limit line rows h = ap length (sym (pair_out h))
    where
      pair_out :
          {l l' : Line F} {r r' : List (Row F)}
          → ◌≡◌ {A = Option (Line F × List (Row F))} (some (l, r)) (some (l', r'))
          → r ≡ r'
      pair_out e = cc
  length-iterate (suc n) limit line rows h =
      let (next, found, rest) =
        step-some (fit F rows) (λ next. iterate F n limit next (reweigh F limit next rows)) h in
      length-iterate n limit next (reweigh F limit next rows) rest ∙ length-map _ rows

  count_inliers-le :
      (line : Line F) (center limit : F.Double) (rows : List (Row F))
      → count_inliers F line center limit rows ≤ length rows
  unfolding count_inliers
  count_inliers-le line center limit [] = omega arith
  count_inliers-le line center limit (r ∷ rows) =
      ground (arith, count_inliers-le line center limit rows)

  -- The mapping that a fit through `pairs` reports.
  pub record IsFitOf (pairs : List TimePair) (m : AffineMapping F) : Type 0 where
    pub valid : m.valid ≡ true
    pub enough : 2 ≤ length pairs
    pub reference : m.local_reference_ns ≡ (reference_pair pairs).local_ns
    pub utc_range : m.utc_reference_ns ≢ uint64_max
    pub from : m.valid_from_local_ns ≡ (front pairs).local_ns
    pub span : m.fit_span_ns ≡ ((back pairs).local_ns + 2 ^ 64 - (front pairs).local_ns) % 2 ^ 64
    pub samples : (k : ℕ) × (m.sample_count ≡ k % 2 ^ 32) × (2 ≤ k) × (k ≤ length pairs)

  finish_fit-IsFitOf :
      (pairs : List TimePair) (line : Line F) (k : ℕ) (rows : List (Row F)) {m : AffineMapping F}
      → 2 ≤ length pairs
      → 2 ≤ k
      → k ≤ length pairs
      → finish_fit F pairs (reference_pair pairs) line k rows ≡ some m
      → IsFitOf pairs m
  unfolding finish_fit fill_mapping
  finish_fit-IsFitOf pairs line k rows en lo hi h =
      let (range, made) =
        guard-some (utc == uint64_max)
          (some (fill_mapping F pairs (reference_pair pairs) line utc k sums)) h in
      subst (IsFitOf pairs) (some_inj made) (record {
        valid = refl;
        enough = en;
        reference = refl;
        utc_range = ground arith;
        from = refl;
        span = refl;
        samples = (k, refl, lo, hi);
      })
    where
      utc : ℕ
      utc = clamp_u64 F (F.add_long (F.long (reference_pair pairs).utc_ns) line.intercept)

      sums : F.Long × F.Double
      sums = residual_sums F line (F.long 0) (F.decimal 0 0) rows

  fit_inliers-IsFitOf :
      (pairs : List TimePair) (limit : F.Double) (line : Line F) (rows : List (Row F))
      {m : AffineMapping F}
      → 2 ≤ length pairs
      → length rows ≡ length pairs
      → fit_inliers F pairs (reference_pair pairs) limit line rows ≡ some m
      → IsFitOf pairs m
  unfolding fit_inliers
  fit_inliers-IsFitOf pairs limit line rows en size h =
      let (enough, rest) =
        guard-some (ltb k 2)
          (elim (fit F cut) [
            | none ↦ none
            | some last ↦ finish_fit F pairs (reference_pair pairs) last k cut
          ])
          h in
      let (last, _, made) =
        step-some (fit F cut) (λ last. finish_fit F pairs (reference_pair pairs) last k cut) rest in
      finish_fit-IsFitOf pairs last k cut en (at_least k enough)
        (omega (arith, size, count_inliers-le line scale.0 bound rows)) made
    where
      scale : F.Double × F.Double
      scale = robust_scale F (map (residual F line) rows)

      bound : F.Double
      bound = max_double F (max_double F (F.decimal 1 0) limit) (F.mul scale.1 (F.decimal 4 0))

      cut : List (Row F)
      cut = map (cut_row F line scale.0 bound) rows

      k : ℕ
      k = count_inliers F line scale.0 bound rows

  -- A mapping that robustAffineFit produces is valid, comes from at least two pairs, is anchored
  -- at the middle pair, spans the pairs and counts between two and all pairs as inliers.
  pub robust_affine_fit-IsFitOf :
      (pairs : List TimePair) (limit : F.Double) {m : AffineMapping F}
      → robust_affine_fit F pairs limit ≡ some m
      → IsFitOf pairs m
  unfolding robust_affine_fit
  robust_affine_fit-IsFitOf pairs limit h =
      let (enough, rest) = guard-some (ltb (length pairs) 2) _ h in
      let ((line, weighted), iterated, made) =
        step-some (iterate F 8 limit start rows)
          (λ r. fit_inliers F pairs (reference_pair pairs) limit r.0 r.1) rest in
      fit_inliers-IsFitOf pairs limit line weighted (at_least (length pairs) enough)
        (length-iterate 8 limit start rows iterated
          ∙ length-map (make_row F (reference_pair pairs) (minimum_uncertainty uint64_max pairs))
              pairs)
        made
    where
      start : Line F
      start = record { slope = F.long 1; intercept = F.long 0 }

      rows : List (Row F)
      rows = map (make_row F (reference_pair pairs) (minimum_uncertainty uint64_max pairs)) pairs
