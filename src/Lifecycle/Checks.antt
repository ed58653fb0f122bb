-- ===== src/Lifecycle/Checks.antt =====
-- What each call that throws nothing does inside a scan.
use fast_livo_ug.Base.{
  ℕ, ◌+◌, ◌≤◌, ◌≡◌, refl, sym, ap, ◌∙◌, Option, none, some, Bool, true, false, not, ◌||◌, ◌==◌,
  if◌then◌else◌, Bool-cases, inl, inr, arith,
}
use mathlib.Core.Path.{subst}
use fast_livo_ug.Float.{Float}
use fast_livo_ug.Lifecycle.{
  increment, LivoScanLifecycle, LogicError, no_active_scan, time_backwards, second_lio,
  lio_off_endpoint, insertion_without_lio, second_insertion, invalid_scan, not_one_lio, Scan,
  time_epsilon, and_then, require_active, validate_completed, note_state_time, start_scan,
  count_image, count_lio, count_insertion,
}

-- The timestamp is not off the end of the scan.
abbrev pub IsEndpoint : (F : Float) → Float.Double F → Float.Double F → Type 0
IsEndpoint F end t =
    (Float.lt F t (Float.sub F end (time_epsilon F)) ≡ false)
    × (Float.lt F (Float.add F end (time_epsilon F)) t ≡ false)

counted_one : (n : ℕ) → not (increment n == 1) ≡ false → n ≤ 1 → n ≡ 0
counted_one n h small = ground arith

or-false : (a b : Bool) → (a || b) ≡ false → (a ≡ false) × (b ≡ false)
or-false a b h = ground arith

exactly_one :
    (active required : Bool) (n : ℕ) (others : Option LogicError)
    → active ≡ true
    → required ≡ true
    → (if not active || not required
        then none
        else if not (n == 1)
        then some not_one_lio
        else others)
      ≡ none
    → n ≡ 1
exactly_one active required n others on need e = elim (Bool-cases (n == 1)) [
  | inl one ↦ ground arith
  | inr other ↦ let k = rw (on, need, other) at e in cc
]

module _ {F : Float} where
  open F use {Double, add, sub, le, lt}

  pub and_then-none :
      (r : LivoScanLifecycle F × Option LogicError)
      (next : LivoScanLifecycle F → LivoScanLifecycle F × Option LogicError)
      (l' : LivoScanLifecycle F)
      → and_then r next ≡ (l', none)
      → (l : LivoScanLifecycle F) × (r ≡ (l, none)) × (next l ≡ (l', none))
  unfolding and_then
  and_then-none (l, none) next l' e = (l, refl, e)
  and_then-none (l, some x) next l' e = let k = ap (λ r. r.1) e in cc

  -- Inversion of an `if … throw`.
  throw-none :
      (b : Bool) (a l : LivoScanLifecycle F) (x : LogicError)
      (r : LivoScanLifecycle F × Option LogicError)
      → (if b then (a, some x) else r) ≡ (l, none)
      → (b ≡ false) × (r ≡ (l, none))
  throw-none true a l x r e = let k = ap (λ z. z.1) e in cc
  throw-none false a l x r e = (refl, e)

  -- The state inside the scan `s` after `n` transactions and `k` insertions.
  pub record Inside (s : Scan F) (n k : ℕ) (l : LivoScanLifecycle F) : Type 0 where
    pub active : l.active ≡ true
    pub endpoint : l.snapshot.scan_end_time ≡ s.scan_end_time
    pub required : l.snapshot.measurement_required ≡ s.measurement_required
    pub transactions : l.snapshot.lio_transactions ≡ n
    pub insertions : l.snapshot.map_insertions ≡ k
    pub once : n ≤ 1
    pub ordered : k ≤ n

  pub ok_inj :
      {l m : LivoScanLifecycle F}
      → ◌≡◌ {A = LivoScanLifecycle F × Option LogicError} (l, none) (m, none)
      → l ≡ m
  ok_inj e = ap (λ r. r.0) e

  pub require_active-none : (l m : LivoScanLifecycle F) → require_active l ≡ (m, none) → l ≡ m
  unfolding require_active
  require_active-none l m e = check l.active e
    where
      check :
          (b : Bool)
          → ◌≡◌ {A = LivoScanLifecycle F × Option LogicError}
              (if b then (l, none) else (l, some no_active_scan))
              (m, none)
          → l ≡ m
      check true e = ok_inj e
      check false e = let k = ap (λ r. r.1) e in cc

  note_state_time-none :
      (t : Double) (l m : LivoScanLifecycle F)
      → note_state_time t l ≡ (m, none)
      → (m.snapshot ≡ l.snapshot) × (m.active ≡ l.active)
  unfolding note_state_time
  note_state_time-none t l m e = early (lt t (sub l.last_state_time (time_epsilon F))) e
    where
      later :
          (b : Bool)
          → ◌≡◌ {A = LivoScanLifecycle F × Option LogicError}
              (if b then (record l { last_state_time = t }, none) else (l, none))
              (m, none)
          → (m.snapshot ≡ l.snapshot) × (m.active ≡ l.active)
      later true e = let k = ok_inj e in (sym (ap (λ x. x.snapshot) k), sym (ap (λ x. x.active) k))
      later false e = let k = ok_inj e in (sym (ap (λ x. x.snapshot) k), sym (ap (λ x. x.active) k))

      early :
          (b : Bool)
          → ◌≡◌ {A = LivoScanLifecycle F × Option LogicError}
              (if b
                then (
                  record l { snapshot = record l.snapshot { state_time_monotonic = false } },
                  some time_backwards,
                )
                else if lt l.last_state_time t
                then (record l { last_state_time = t }, none)
                else (l, none))
              (m, none)
          → (m.snapshot ≡ l.snapshot) × (m.active ≡ l.active)
      early true e = let k = ap (λ r. r.1) e in cc
      early false e = later (lt l.last_state_time t) e

  -- The two calls that an image and a transaction start with.
  opening-none :
      (t : Double) (l m : LivoScanLifecycle F)
      → and_then (require_active l) (note_state_time t) ≡ (m, none)
      → (m.snapshot ≡ l.snapshot) × (m.active ≡ l.active)
  opening-none t l m e =
      let (l₁, a, b) = and_then-none _ _ _ e in
      let k = require_active-none l l₁ a in
      let (same, on) = note_state_time-none t l₁ m b in
      (same ∙ sym (ap (λ x. x.snapshot) k), on ∙ sym (ap (λ x. x.active) k))

  pub count_image-Inside :
      (s : Scan F) (n k : ℕ) (l m : LivoScanLifecycle F)
      → count_image l ≡ (m, none)
      → Inside s n k l
      → Inside s n k m
  unfolding count_image
  count_image-Inside s n k l m e i = subst (Inside s n k) (ok_inj e) (record {
    active = i.active;
    endpoint = i.endpoint;
    required = i.required;
    transactions = i.transactions;
    insertions = i.insertions;
    once = i.once;
    ordered = i.ordered;
  })

  pub count_lio-Inside :
      (t : Double) (s : Scan F) (n k : ℕ) (l m : LivoScanLifecycle F)
      → count_lio t l ≡ (m, none)
      → Inside s n k l
      → Inside s (n + 1) k m × IsEndpoint F s.scan_end_time t
  unfolding count_lio
  count_lio-Inside t s n k l m e i =
      let next = increment l.snapshot.lio_transactions in
      let counted : LivoScanLifecycle F = record l {
        snapshot = record l.snapshot { lio_transactions = next };
      } in
      let end = l.snapshot.scan_end_time in
      let off = lt t (sub end (time_epsilon F)) || lt (add end (time_epsilon F)) t in
      let (one, e₁) =
        throw-none (not (next == 1)) counted m second_lio
          (if off then (counted, some lio_off_endpoint) else (counted, none)) e in
      let (near, e₂) = throw-none off counted m lio_off_endpoint (counted, none) e₁ in
      let first : n ≡ 0 = counted_one n (rw i.transactions at one) i.once in
      let inside : Inside s (n + 1) k counted = record {
        active = i.active;
        endpoint = i.endpoint;
        required = i.required;
        transactions = rw (i.transactions, first) refl;
        insertions = i.insertions;
        once = omega arith;
        ordered = omega (arith, i.ordered);
      } in
      (subst (Inside s (n + 1) k) (ok_inj e₂) inside, rw (sym i.endpoint) (or-false _ _ near))

  pub count_insertion-Inside :
      (s : Scan F) (n k : ℕ) (l m : LivoScanLifecycle F)
      → count_insertion l ≡ (m, none)
      → Inside s n k l
      → Inside s n (k + 1) m
  unfolding count_insertion
  count_insertion-Inside s n k l m e i =
      let next = increment l.snapshot.map_insertions in
      let counted : LivoScanLifecycle F = record l {
        snapshot = record l.snapshot { map_insertions = next };
      } in
      let (lio, e₁) =
        throw-none (not (l.snapshot.lio_transactions == 1)) l m insertion_without_lio
          (if not (next == 1) then (counted, some second_insertion) else (counted, none)) e in
      let (one, e₂) = throw-none (not (next == 1)) counted m second_insertion (counted, none) e₁ in
      let first : k ≡ 0 =
        counted_one k (rw i.insertions at one) (omega (arith, i.ordered, i.once)) in
      let inside : Inside s n (k + 1) counted = record {
        active = i.active;
        endpoint = i.endpoint;
        required = i.required;
        transactions = i.transactions;
        insertions = rw (i.insertions, first) refl;
        once = i.once;
        ordered = positive n first (rw i.transactions at lio);
      } in
      subst (Inside s n (k + 1)) (ok_inj e₂) inside
    where
      positive : (n : ℕ) → k ≡ 0 → not (n == 1) ≡ false → k + 1 ≤ n
      positive n first h = ground arith

  pub opening-Inside :
      (t : Double) (s : Scan F) (n k : ℕ) (l m : LivoScanLifecycle F)
      → and_then (require_active l) (note_state_time t) ≡ (m, none)
      → Inside s n k l
      → Inside s n k m
  opening-Inside t s n k l m e i =
      let (same, on) = opening-none t l m e in
      record {
        active = on ∙ i.active;
        endpoint = ap (λ x. x.scan_end_time) same ∙ i.endpoint;
        required = ap (λ x. x.measurement_required) same ∙ i.required;
        transactions = ap (λ x. x.lio_transactions) same ∙ i.transactions;
        insertions = ap (λ x. x.map_insertions) same ∙ i.insertions;
        once = i.once;
        ordered = i.ordered;
      }

  pub start_scan-Inside :
      (s : Scan F) (l m : LivoScanLifecycle F) → start_scan s l ≡ (m, none) → Inside s 0 0 m
  unfolding start_scan
  start_scan-Inside s l m e =
      let made : LivoScanLifecycle F = record {
        active = true;
        last_state_time = s.state_time;
        snapshot = record {
          scan_id = s.scan_id;
          scan_begin_time = s.scan_begin_time;
          scan_end_time = s.scan_end_time;
          raw_point_count = s.raw_point_count;
          image_events = 0;
          lio_transactions = 0;
          map_insertions = 0;
          measurement_required = s.measurement_required;
          state_time_monotonic = true;
        };
      } in
      let (fine, made_it) =
        throw-none (le s.scan_end_time s.scan_begin_time || s.raw_point_count == 0) l m invalid_scan
          (made, none) e in
      subst (Inside s 0 0) (ok_inj made_it) (record {
        active = refl;
        endpoint = refl;
        required = refl;
        transactions = refl;
        insertions = refl;
        once = omega arith;
        ordered = omega arith;
      })

  pub validate_completed-none :
      (s : Scan F) (n k : ℕ) (l : LivoScanLifecycle F)
      → Inside s n k l
      → validate_completed l ≡ none
      → s.measurement_required ≡ true
      → n ≡ 1
  unfolding validate_completed
  validate_completed-none s n k l i e r =
      sym i.transactions
      ∙ exactly_one l.active l.snapshot.measurement_required l.snapshot.lio_transactions _ i.active
          (i.required ∙ r) e
