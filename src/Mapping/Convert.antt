-- ===== src/Mapping/Convert.antt =====
-- `clampU64`, `median`, `AffineMapping::localToUtc` and `AffineMapping::utcToLocal`.
use fast_livo_ug.Base.{
  ℕ, ◌-◌, ◌/◌, ◌%◌, List, [], ◌∷◌, Option, none, some, Bool, not, ◌||◌, ◌==◌, if◌then◌else◌, length,
  get_or,
}
use fast_livo_ug.Float.{Float}
use fast_livo_ug.Mapping.Types.{AffineMapping, uint64_max}

module _ (F : Float) where
  open F use {
    Double, Long, decimal, add, mul, le, lt, is_finite, long, widen, add_long, sub_long, mul_long,
    div_long, le_long, lt_long, llround,
  }

  unfoldable pub clamp_u64 : Long → ℕ
  clamp_u64 value =
      if not (le_long (long 0) value) || lt_long (long uint64_max) value
      then uint64_max
      else llround value

  -- `std::nth_element` puts at an index the value that sorting would put there.
  unfoldable pub insert_sorted : Double → List Double → List Double
  insert_sorted v [] = v ∷ []
  insert_sorted v (w ∷ ws) =
      let rest = insert_sorted v ws in if lt w v then w ∷ rest else v ∷ w ∷ ws

  unfoldable pub sort : List Double → List Double
  sort [] = []
  sort (v ∷ values) = insert_sorted v (sort values)

  unfoldable pub median : List Double → Double
  unfolding sort insert_sorted
  median values =
      let middle = length values / 2 in
      let sorted = sort values in
      let upper = get_or sorted middle (decimal 0 0) in
      if length values == 0
      then decimal 0 0
      else if not (length values % 2 == 0)
      then upper
      else mul (decimal 5 1) (add upper (get_or sorted (middle - 1) (decimal 0 0)))

  -- The guard that both conversions share.
  unfoldable pub unusable : AffineMapping F → Bool
  unusable m =
      not m.valid || not (is_finite m.utc_ns_per_local_ns) || le m.utc_ns_per_local_ns (decimal 0 0)

  unfoldable pub local_to_utc : AffineMapping F → ℕ → Option ℕ
  unfolding unusable clamp_u64
  local_to_utc m local_ns =
      let delta = sub_long (long local_ns) (long m.local_reference_ns) in
      let result =
        add_long (long m.utc_reference_ns) (mul_long (widen m.utc_ns_per_local_ns) delta) in
      let converted = clamp_u64 result in
      if unusable m then none else if converted == uint64_max then none else some converted

  unfoldable pub utc_to_local : AffineMapping F → ℕ → Option ℕ
  unfolding unusable clamp_u64
  utc_to_local m utc_ns =
      let delta = sub_long (long utc_ns) (long m.utc_reference_ns) in
      let result =
        add_long (long m.local_reference_ns) (div_long delta (widen m.utc_ns_per_local_ns)) in
      let converted = clamp_u64 result in
      if unusable m then none else if converted == uint64_max then none else some converted
