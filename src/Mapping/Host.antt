-- ===== src/Mapping/Host.antt =====
-- `HostMonotonicMapper` of time_mapping.cpp: host time to local time, by the same fit.
use fast_livo_ug.Base.{
  ℕ, List, [], ◌∷◌, ◌++◌, Option, none, some, Bool, true, false, ◌&&◌, ◌||◌, max, ltb, leb,
  if◌then◌else◌, length,
}
use fast_livo_ug.Float.{Float}
use fast_livo_ug.Mapping.Types.{TimePair, AffineMapping, no_mapping}
use fast_livo_ug.Mapping.Convert.{local_to_utc}
use fast_livo_ug.Mapping.Fit.{back, robust_affine_fit}
use fast_livo_ug.Mapping.Machine.{trim_front}

pub record HostMonotonicMapper (F : Float) : Type 0 where
  pub window_size : ℕ
  pub pairs : List TimePair
  pub mapping : AffineMapping F

module _ (F : Float) where
  unfoldable pub new_mapper : ℕ → HostMonotonicMapper F
  new_mapper window_size = record {
    window_size = max 3 window_size;
    pairs = [];
    mapping = no_mapping F;
  }

  -- The pairs behind `push_back` and the loop.
  unfoldable pub add_host_pair : HostMonotonicMapper F → ℕ → ℕ → List TimePair
  add_host_pair m host_monotonic_ns local_ns = trim_front m.window_size (
      m.pairs
      ++ (record { local_ns = host_monotonic_ns; utc_ns = local_ns; uncertainty_ns = 1000000 }
          ∷ []))

  -- `add`, behind its guard; a fit that fails leaves the mapping.
  unfoldable pub fit_host : HostMonotonicMapper F → List TimePair → HostMonotonicMapper F × Bool
  fit_host m pairs =
      if ltb (length pairs) 3
      then (record m { pairs = pairs }, true)
      else elim (robust_affine_fit F pairs (F.decimal 5000000 0)) [
        | none ↦ (record m { pairs = pairs }, false)
        | some mapping ↦ (record m { pairs = pairs; mapping = mapping }, true)
      ]

  unfoldable pub add_host : HostMonotonicMapper F → ℕ → ℕ → HostMonotonicMapper F × Bool
  unfolding add_host_pair fit_host
  add_host m host_monotonic_ns local_ns =
      let last = back m.pairs in
      if ltb 0 (length m.pairs) && (leb host_monotonic_ns last.local_ns || leb local_ns last.utc_ns)
      then (m, false)
      else fit_host m (add_host_pair m host_monotonic_ns local_ns)

  -- The local time and its uncertainty.
  unfoldable pub to_local : HostMonotonicMapper F → ℕ → Option (ℕ × ℕ)
  to_local m host_monotonic_ns = elim (local_to_utc F m.mapping host_monotonic_ns) [
    | none ↦ none
    | some local_ns ↦ some (local_ns, max 1000000 m.mapping.time_uncertainty_ns)
  ]

  unfoldable pub reset_host : HostMonotonicMapper F → HostMonotonicMapper F
  reset_host m = record m { pairs = []; mapping = no_mapping F }
