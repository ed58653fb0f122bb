-- ===== src/Mapping/Machine/Offset.antt =====
-- `checkPair` on pairs with a constant offset between the clocks, behind a pair without it.
use fast_livo_ug.Base.{
  ℕ, ◌<◌, ◌+◌, ◌++◌, length, length-append, get_or, ◌≡◌, refl, ap, ◌∙◌, List, [], ◌∷◌, none, some,
  arith, All,
}
use fast_livo_ug.Mapping.Types.{TimePair}
use fast_livo_ug.Mapping.Machine.{distance, interval_mismatch, back, check_pair}

-- A pair behind `bad` in both clocks whose UTC is the local time and the offset.
pub record IsLaterOn (offset : ℕ) (bad p : TimePair) : Type 0 where
  pub line : p.utc_ns ≡ p.local_ns + offset
  pub later : bad.local_ns < p.local_ns
  pub later_utc : bad.utc_ns < p.utc_ns

get_or-append :
    (before : List TimePair) (x none_there : TimePair)
    → get_or (before ++ (x ∷ [])) (length before) none_there ≡ x
get_or-append [] x d = refl
get_or-append (y ∷ before) x d = get_or-append before x d

back-append : (before : List TimePair) (bad : TimePair) → back (before ++ (bad ∷ [])) ≡ bad
back-append before bad =
    ap
      (λ n.
        get_or (before ++ (bad ∷ [])) n (record { local_ns = 0; utc_ns = 0; uncertainty_ns = 0 }))
      (omega (arith, length-append before (bad ∷ [])))
    ∙ get_or-append before bad _

-- Behind a pair off the line, one on the line has another interval in the two clocks.
pub check_pair-clash :
    (max_error : ℕ) (before : List TimePair) (bad p : TimePair) (offset : ℕ)
    → max_error < distance (bad.local_ns + offset) bad.utc_ns
    → IsLaterOn offset bad p
    → check_pair max_error (before ++ (bad ∷ [])) p ≡ some interval_mismatch
unfolding check_pair
check_pair-clash max_error before bad p offset off h =
    let last = back-append before bad in
    let size = length-append before (bad ∷ []) in
    rw last (ground (arith, size, off, h.line, h.later, h.later_utc))

-- Without a candidate before it, the pair is good.
check_pair-good :
    (max_error : ℕ) (bad p : TimePair) (offset : ℕ)
    → IsLaterOn offset bad p
    → check_pair max_error [] p ≡ none
unfolding check_pair
check_pair-good max_error bad p offset h = ground (arith, h.later, h.later_utc)

pub good_alone :
    (max_error : ℕ) (bad : TimePair) (pairs : List TimePair) (offset : ℕ)
    → All (IsLaterOn offset bad) pairs
    → All (λ p. check_pair max_error [] p ≡ none) pairs
good_alone max_error bad [] offset h = tt
good_alone max_error bad (p ∷ pairs) offset h =
    (check_pair-good max_error bad p offset h.0, good_alone max_error bad pairs offset h.1)
