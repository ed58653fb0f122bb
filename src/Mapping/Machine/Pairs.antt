-- ===== src/Mapping/Machine/Pairs.antt =====
-- The pairs that `appendChecked` keeps.
use fast_livo_ug.Base.{
  ℕ, suc, ◌-◌, ◌≤◌, ◌<◌, ◌≡◌, refl, sym, List, [], ◌∷◌, ◌++◌, Option, none, some, false, arith, ltb,
  length, Bool-cases, inl, inr,
}
use fast_livo_ug.Mapping.Types.{TimePair}
use fast_livo_ug.Mapping.Fit.{back}
use fast_livo_ug.Mapping.Machine.{
  Reason, distance, trim_front, appended, refused, check_pair, append_checked,
}

-- Both clocks advance.
abbrev pub Before : TimePair → TimePair → Type 0
Before a b = (a.local_ns < b.local_ns) × (a.utc_ns < b.utc_ns)

abbrev pub IsAscending : List TimePair → Type 0
IsAscending [] = Unit {0}
IsAscending (a ∷ []) = Unit {0}
IsAscending (a ∷ b ∷ pairs) = Before a b × IsAscending (b ∷ pairs)

module _ {ℓ} {A : Type ℓ} where
  pub length-trim_front : (limit : ℕ) (xs : List A) → length (trim_front limit xs) ≤ limit
  unfolding trim_front
  length-trim_front limit [] = omega arith
  length-trim_front limit (x ∷ xs) = elim (Bool-cases (ltb limit (suc (length xs)))) [
    | inl over ↦ rw over (length-trim_front limit xs)
    | inr fits ↦ rw fits (within fits)
  ]
    where
      within : ltb limit (suc (length xs)) ≡ false → suc (length xs) ≤ limit
      within fits = ground arith

IsAscending-tail :
    (a : TimePair) (pairs : List TimePair) → IsAscending (a ∷ pairs) → IsAscending pairs
IsAscending-tail a [] h = tt
IsAscending-tail a (b ∷ pairs) h = h.1

trim_front-IsAscending :
    (limit : ℕ) (pairs : List TimePair) → IsAscending pairs → IsAscending (trim_front limit pairs)
unfolding trim_front
trim_front-IsAscending limit [] h = tt
trim_front-IsAscending limit (a ∷ pairs) h = elim (Bool-cases (ltb limit (suc (length pairs)))) [
  | inl over ↦ rw over (trim_front-IsAscending limit pairs (IsAscending-tail a pairs h))
  | inr fits ↦ rw fits h
]

back-cons : (a b : TimePair) (pairs : List TimePair) → back (a ∷ b ∷ pairs) ≡ back (b ∷ pairs)
back-cons a b pairs =
    let e : suc (suc (length pairs)) - 1 ≡ suc (suc (length pairs) - 1) = omega arith in rw e

IsAscending-append :
    (pairs : List TimePair) (p : TimePair)
    → IsAscending pairs
    → (0 < length pairs → Before (back pairs) p)
    → IsAscending (pairs ++ (p ∷ []))
IsAscending-append [] p h later = tt
IsAscending-append (a ∷ []) p h later = (later (omega arith), tt)
IsAscending-append (a ∷ b ∷ pairs) p h later = (
  h.0,
  IsAscending-append (b ∷ pairs) p h.1 (λ _. rw (back-cons a b pairs) at (later (omega arith))),
)

-- A pair that passes the checks has two stamps, and is later than the last pair in both clocks by
-- nearly the same time.
pub check_pair-none :
    (max_error : ℕ) (pairs : List TimePair) (p : TimePair)
    → check_pair max_error pairs p ≡ none
    → (0 < p.local_ns)
      × (0 < p.utc_ns)
      × (0 < length pairs
          → Before (back pairs) p
            × (distance (p.local_ns - (back pairs).local_ns) (p.utc_ns - (back pairs).utc_ns)
                ≤ max_error))
unfolding check_pair
check_pair-none max_error pairs p h =
    (ground arith, ground arith, λ pos. ((ground arith, ground arith), ground arith))

appended_inv :
    (o : Option Reason) (x after : List TimePair)
    → (elim o [ some r ↦ refused r | none ↦ appended x ]) ≡ appended after
    → (o ≡ none) × (x ≡ after)
appended_inv none x after h = (refl, cc)
appended_inv (some r) x after h = cc

-- What appendChecked leaves of an ascending deque is ascending in both clocks and fits the window.
pub append_checked-appended :
    (window max_error : ℕ) (pairs after : List TimePair) (p : TimePair)
    → IsAscending pairs
    → append_checked window max_error pairs p ≡ appended after
    → IsAscending after × (length after ≤ window)
unfolding append_checked
append_checked-appended window max_error pairs after p h e =
    let (fine, kept) =
      appended_inv (check_pair max_error pairs p) (trim_front window (pairs ++ (p ∷ []))) after e in
    let later = (check_pair-none max_error pairs p fine).2 in
    rw (sym kept) (
      trim_front-IsAscending window (pairs ++ (p ∷ []))
          (IsAscending-append pairs p h (λ pos. (later pos).0)),
      length-trim_front window (pairs ++ (p ∷ [])),
    )
