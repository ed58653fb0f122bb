-- ===== src/Lifecycle/Scans.antt =====
-- What a run of calls that throws nothing says of each scan.
use fast_livo_ug.Base.{
  ℕ, ◌+◌, ◌≤◌, ◌≡◌, refl, sym, ap, ◌∙◌, List, [], ◌∷◌, ◌++◌, Option, none, some, true, arith, All,
}
use mathlib.Core.Path.{subst}
use fast_livo_ug.Float.{Float}
use fast_livo_ug.Lifecycle.{
  LivoScanLifecycle, LogicError, Scan, Call, begin, note_image, note_lio_transaction,
  note_map_insertion, and_then, validate_completed, start_scan, call, calls,
}
use fast_livo_ug.Lifecycle.Checks.{
  IsEndpoint, Inside, and_then-none, ok_inj, require_active-none, count_image-Inside,
  count_lio-Inside, count_insertion-Inside, opening-Inside, start_scan-Inside,
  validate_completed-none,
}

module _ {F : Float} where
  open F use {Double}

  abbrev pub lio_times : List (Call F) → List Double
  lio_times [] = []
  lio_times (begin s ∷ cs) = lio_times cs
  lio_times (note_image t ∷ cs) = lio_times cs
  lio_times (note_lio_transaction t ∷ cs) = t ∷ lio_times cs
  lio_times (note_map_insertion ∷ cs) = lio_times cs

  abbrev pub lio_count : List (Call F) → ℕ
  lio_count [] = 0
  lio_count (begin s ∷ cs) = lio_count cs
  lio_count (note_image t ∷ cs) = lio_count cs
  lio_count (note_lio_transaction t ∷ cs) = lio_count cs + 1
  lio_count (note_map_insertion ∷ cs) = lio_count cs

  abbrev pub insertion_count : List (Call F) → ℕ
  insertion_count [] = 0
  insertion_count (begin s ∷ cs) = insertion_count cs
  insertion_count (note_image t ∷ cs) = insertion_count cs
  insertion_count (note_lio_transaction t ∷ cs) = insertion_count cs
  insertion_count (note_map_insertion ∷ cs) = insertion_count cs + 1

  -- Calls that start no scan.
  abbrev pub IsBody : List (Call F) → Type 0
  IsBody [] = Unit {0}
  IsBody (begin s ∷ cs) = ⊥
  IsBody (note_image t ∷ cs) = IsBody cs
  IsBody (note_lio_transaction t ∷ cs) = IsBody cs
  IsBody (note_map_insertion ∷ cs) = IsBody cs

  and_then_assoc :
      (r : LivoScanLifecycle F × Option LogicError)
      (f g : LivoScanLifecycle F → LivoScanLifecycle F × Option LogicError)
      → and_then (and_then r f) g ≡ and_then r (λ l. and_then (f l) g)
  unfolding and_then
  and_then_assoc (l, none) f g = refl
  and_then_assoc (l, some x) f g = refl

  and_then_ext :
      (r : LivoScanLifecycle F × Option LogicError)
      (f g : LivoScanLifecycle F → LivoScanLifecycle F × Option LogicError)
      → ((l : LivoScanLifecycle F) → f l ≡ g l)
      → and_then r f ≡ and_then r g
  unfolding and_then
  and_then_ext (l, none) f g h = h l
  and_then_ext (l, some x) f g h = refl

  calls-append :
      (cs ds : List (Call F)) (l : LivoScanLifecycle F)
      → calls (cs ++ ds) l ≡ and_then (calls cs l) (calls ds)
  unfolding calls and_then
  calls-append [] ds l = refl
  calls-append (c ∷ cs) ds l =
      and_then_ext (call c l) _ _ (λ m. calls-append cs ds m)
      ∙ sym (and_then_assoc (call c l) (calls cs) (calls ds))

  body-Inside :
      (s : Scan F) (body : List (Call F)) (n k : ℕ) (l m : LivoScanLifecycle F)
      → IsBody body
      → calls body l ≡ (m, none)
      → Inside s n k l
      → Inside s (n + lio_count body) (k + insertion_count body) m
        × All (IsEndpoint F s.scan_end_time) (lio_times body)
  unfolding calls call
  body-Inside s [] n k l m h e i =
      let same : n + 0 ≡ n = omega arith in
      let same' : k + 0 ≡ k = omega arith in
      (rw (same, same') (subst (Inside s n k) (ok_inj e) i), tt)
  body-Inside s (begin s' ∷ cs) n k l m h e i = absurd h
  body-Inside s (note_image t ∷ cs) n k l m h e i =
      let (l₁, now, later) = and_then-none _ _ _ e in
      let (l₂, a, b) = and_then-none _ _ _ now in
      body-Inside s cs n k l₁ m h later
        (count_image-Inside s n k l₂ l₁ b (opening-Inside t s n k l l₂ a i))
  body-Inside s (note_lio_transaction t ∷ cs) n k l m h e i =
      let (l₁, now, later) = and_then-none _ _ _ e in
      let (l₂, a, b) = and_then-none _ _ _ now in
      let (inside, near) = count_lio-Inside t s n k l₂ l₁ b (opening-Inside t s n k l l₂ a i) in
      let (rest, all) = body-Inside s cs (n + 1) k l₁ m h later inside in
      let sum : n + 1 + lio_count cs ≡ n + (lio_count cs + 1) = omega arith in
      (rw sum at rest, (near, all))
  body-Inside s (note_map_insertion ∷ cs) n k l m h e i =
      let (l₁, now, later) = and_then-none _ _ _ e in
      let (l₂, a, b) = and_then-none _ _ _ now in
      let inside =
        count_insertion-Inside s n k l₂ l₁ b
          (subst (Inside s n k) (require_active-none l l₂ a) i) in
      let (rest, all) = body-Inside s cs n (k + 1) l₁ m h later inside in
      let sum : k + 1 + insertion_count cs ≡ k + (insertion_count cs + 1) = omega arith in
      (rw sum at rest, all)

  begin-none :
      (s : Scan F) (l m : LivoScanLifecycle F)
      → call (begin s) l ≡ (m, none)
      → (validate_completed l ≡ none) × (start_scan s l ≡ (m, none))
  unfolding call
  begin-none s l m e =
      let (k, checked, started) = and_then-none (l, validate_completed l) (start_scan s) m e in
      (ap (λ r. r.1) checked, ap (start_scan s) (ap (λ r. r.0) checked) ∙ started)

  -- If calls that begin one scan, go through its body and begin the next throw nothing, then the
  -- scan had at most one LIO transaction, exactly one if a measurement was required, no more map
  -- insertions than transactions, and no transaction more than the tolerance off the end of the
  -- scan.
  pub scan_contract :
      (s s' : Scan F) (body rest : List (Call F)) (l l' : LivoScanLifecycle F)
      → IsBody body
      → calls (begin s ∷ (body ++ (begin s' ∷ rest))) l ≡ (l', none)
      → (lio_count body ≤ 1)
        × (insertion_count body ≤ lio_count body)
        × (s.measurement_required ≡ true → lio_count body ≡ 1)
        × All (IsEndpoint F s.scan_end_time) (lio_times body)
  unfolding calls
  scan_contract s s' body rest l l' h e =
      let more = begin s' ∷ rest in
      let (l₁, now, later) = and_then-none (call (begin s) l) (calls (body ++ more)) l' e in
      let start = start_scan-Inside s l l₁ (begin-none s l l₁ now).1 in
      let (l₂, inside, after) =
        and_then-none (calls body l₁) (calls more) l' (sym (calls-append body more l₁) ∙ later) in
      let (i, all) = body-Inside s body 0 0 l₁ l₂ h inside start in
      let (l₃, next, others) = and_then-none (call (begin s') l₂) (calls rest) l' after in
      let plain : 0 + lio_count body ≡ lio_count body = omega arith in
      let plain' : 0 + insertion_count body ≡ insertion_count body = omega arith in
      let i' = rw (plain, plain') at i in
      (i'.once, i'.ordered, validate_completed-none s _ _ l₂ i' (begin-none s' l₂ l₃ next).0, all)
