-- ===== src/Fault/Step.antt =====
-- One call of the injector, whatever its branch, against the reference.
use fast_livo_ug.Base.{
  ℕ, ◌+◌, ◌-◌, ◌%◌, ◌^◌, ◌≡◌, refl, sym, ap, ◌∙◌, List, [], ◌∷◌, Option, none, some, Bool, true,
  false, not, ◌&&◌, ◌||◌, leb, if◌then◌else◌, Bool-cases, inl, inr, arith, length,
}
use fast_livo_ug.Float.{Float}
use fast_livo_ug.Gnss.{GnssPvtSolnMsg}
use fast_livo_ug.Fault.{
  GnssFaultMode, passthrough, drop, float, invalid, GnssFaultInjectorCore, GnssFaultDecision, pass,
  apply_mode, in_window, process_fault, process_outside, process_stamped, new_decision,
}
use fast_livo_ug.Fault.Reference.{Interval, degrade, covers, fault_stamp, last_or}

abbrev pub interval : GnssFaultInjectorCore → Interval
interval c = record {
  mode = c.mode;
  start_stamp_ns = c.start_stamp_ns;
  end_stamp_ns = c.end_stamp_ns;
}

-- What the node publishes for a decision.
unfoldable pub output :
    {F : Float} {Rest : Type 0} → GnssFaultDecision F Rest → List (GnssPvtSolnMsg F Rest)
output d = if d.publish then d.message ∷ [] else []

module _ {F : Float} {Rest : Type 0} where
  -- What the end of a call does: one of the counters moves, and the message is degraded as `mode` says.
  record Ends (mode : GnssFaultMode) (c : GnssFaultInjectorCore) (d : GnssFaultDecision F Rest)
      (r : GnssFaultInjectorCore × GnssFaultDecision F Rest) : Type 0 where
    kept : record (r.0) { counters = c.counters } ≡ c
    received : (r.0).counters.received ≡ c.counters.received
    passed : (r.0).counters.passed % 2 ^ 64 ≡ (c.counters.passed + length (output (r.1))) % 2 ^ 64
    dropped :
        (r.0).counters.dropped % 2 ^ 64
        ≡ (c.counters.dropped + (1 - length (output (r.1)))) % 2 ^ 64
    goes_out : output (r.1) ≡ degrade mode d.message
    started : (r.1).fault_started_now ≡ d.fault_started_now
    recovered : (r.1).recovered_now ≡ d.recovered_now

  apply_mode-Ends :
      (mode : GnssFaultMode) (c : GnssFaultInjectorCore) (d : GnssFaultDecision F Rest)
      → d.publish ≡ true
      → Ends mode c d (apply_mode mode c d)
  unfolding apply_mode pass output degrade
  apply_mode-Ends passthrough c d on = record {
    kept = refl;
    received = refl;
    passed = rw on (omega arith);
    dropped = rw on (omega arith);
    goes_out = rw on refl;
    started = refl;
    recovered = refl;
  }
  apply_mode-Ends drop c d on = record {
    kept = refl;
    received = refl;
    passed = omega arith;
    dropped = omega arith;
    goes_out = refl;
    started = refl;
    recovered = refl;
  }
  apply_mode-Ends float c d on = record {
    kept = refl;
    received = refl;
    passed = rw on (omega arith);
    dropped = rw on (omega arith);
    goes_out = rw on refl;
    started = refl;
    recovered = refl;
  }
  apply_mode-Ends invalid c d on = record {
    kept = refl;
    received = refl;
    passed = rw on (omega arith);
    dropped = rw on (omega arith);
    goes_out = rw on refl;
    started = refl;
    recovered = refl;
  }

abbrev pub one_if : Bool → ℕ
one_if b = if b then 1 else 0

-- The marks of a core: whether a fault and a recovery were seen, and the stamps of the first and the last fault.
pub record Marks : Type 0 where
  pub faulted : Bool
  pub recovered : Bool
  pub first : ℕ
  pub last : ℕ

abbrev pub marks : GnssFaultInjectorCore → Marks
marks c = record {
  faulted = c.have_first_fault_stamp;
  recovered = c.have_first_recovered_stamp;
  first = c.first_fault_stamp_ns;
  last = c.last_fault_stamp_ns;
}

-- The marks after faults with the stamps `ts`, and a recovery if `r` holds.
unfoldable pub mark : Marks → List ℕ → Bool → Marks
mark k [] r = record k { recovered = k.recovered || r }
mark k (t ∷ ts) r = record k {
  faulted = true;
  recovered = k.recovered || r;
  first = if k.faulted then k.first else t;
  last = last_or t ts;
}

if_not {ℓ} : {A : Type ℓ} (b : Bool) (x y : A) → (if not b then x else y) ≡ (if b then y else x)
if_not true x y = refl
if_not false x y = refl

pub or_true : (b : Bool) → (b || true) ≡ true
or_true true = refl
or_true false = refl

pub or_false : (b : Bool) → (b || false) ≡ b
or_false true = refl
or_false false = refl

fault_stamp-outside : (i : Interval) (o : Option ℕ) → covers i o ≡ false → fault_stamp i o ≡ []
unfolding fault_stamp
fault_stamp-outside i none h = refl
fault_stamp-outside i (some t) h = rw h refl

module _ {F : Float} {Rest : Type 0} where
  pub record Steps (c : GnssFaultInjectorCore) (m : GnssPvtSolnMsg F Rest) (o : Option ℕ)
      (r : GnssFaultInjectorCore × GnssFaultDecision F Rest) : Type 0 where
    pub same : interval (r.0) ≡ interval c
    pub received : (r.0).counters.received ≡ c.counters.received
    pub passed :
        (r.0).counters.passed % 2 ^ 64 ≡ (c.counters.passed + length (output (r.1))) % 2 ^ 64
    pub dropped :
        (r.0).counters.dropped % 2 ^ 64
        ≡ (c.counters.dropped + (1 - length (output (r.1)))) % 2 ^ 64
    pub goes_out : output (r.1) ≡ (if covers (interval c) o then degrade c.mode m else m ∷ [])
    pub started : (r.1).fault_started_now ≡ (covers (interval c) o && not c.have_first_fault_stamp)
    pub marked : marks (r.0) ≡ mark (marks c) (fault_stamp (interval c) o) (r.1).recovered_now
    pub recovery :
        ((r.1).recovered_now ≡ true)
        → (c.have_first_fault_stamp ≡ true) × (c.have_first_recovered_stamp ≡ false)

  process_fault-Steps :
      (c : GnssFaultInjectorCore) (d : GnssFaultDecision F Rest) (t : ℕ)
      → d.publish ≡ true
      → d.recovered_now ≡ false
      → d.stamp_ns ≡ t
      → covers (interval c) (some t) ≡ true
      → Steps c d.message (some t) (process_fault c d)
  unfolding process_fault fault_stamp mark
  process_fault-Steps c d t on calm at inside =
      let c' = record c {
        have_first_fault_stamp = true;
        first_fault_stamp_ns =
            if not c.have_first_fault_stamp then d.stamp_ns else c.first_fault_stamp_ns;
        last_fault_stamp_ns = d.stamp_ns;
      } in
      let e =
        apply_mode-Ends c.mode c' (record d { fault_started_now = not c.have_first_fault_stamp })
          on in
      record {
        same = ap interval e.kept;
        received = e.received;
        passed = e.passed;
        dropped = e.dropped;
        goes_out = rw inside e.goes_out;
        started = rw inside e.started;
        marked = rw inside (
            ap marks e.kept
            ∙ rw (e.recovered, calm, or_false c.have_first_recovered_stamp, at)
                (ap (λ f. record (marks c) { faulted = true; first = f; last = t })
                  (if_not c.have_first_fault_stamp t c.first_fault_stamp_ns)));
        recovery = λ r. let k : true ≡ false = sym r ∙ e.recovered ∙ calm in cc;
      }

  process_outside-Steps :
      (c : GnssFaultInjectorCore) (d : GnssFaultDecision F Rest) (o : Option ℕ)
      → d.publish ≡ true
      → d.recovered_now ≡ false
      → d.fault_started_now ≡ false
      → covers (interval c) o ≡ false
      → Steps c d.message o (process_outside c d)
  unfolding process_outside mark pass output
  process_outside-Steps c d o on calm not_yet outside =
      let none_here = fault_stamp-outside (interval c) o outside in
      elim (Bool-cases (
        c.have_first_fault_stamp
        && not c.have_first_recovered_stamp
        && leb c.end_stamp_ns d.stamp_ns)) [
          | inl back ↦ rw back (record {
            same = refl;
            received = refl;
            passed = rw on (omega arith);
            dropped = rw on (omega arith);
            goes_out = rw (on, outside) refl;
            started = rw (not_yet, outside) refl;
            marked = rw none_here (
                ap (λ b. record (marks c) { recovered = b })
                  (sym (or_true c.have_first_recovered_stamp)));
            recovery = λ r. (ground arith, ground arith);
          })
          | inr other ↦ rw other (record {
            same = refl;
            received = refl;
            passed = rw on (omega arith);
            dropped = rw on (omega arith);
            goes_out = rw (on, outside) refl;
            started = rw (not_yet, outside) refl;
            marked =
                rw (none_here, calm)
                  (ap (λ b. record (marks c) { recovered = b })
                    (sym (or_false c.have_first_recovered_stamp)));
            recovery = λ r. let k : true ≡ false = sym r ∙ calm in cc;
          })
        ]

  process_none-Steps :
      (c : GnssFaultInjectorCore) (d : GnssFaultDecision F Rest)
      → d.publish ≡ true
      → d.recovered_now ≡ false
      → d.fault_started_now ≡ false
      → Steps c d.message none (process_stamped c d none)
  unfolding process_stamped covers fault_stamp mark pass output
  process_none-Steps c d on calm not_yet = record {
    same = refl;
    received = refl;
    passed = rw on (omega arith);
    dropped = rw on (omega arith);
    goes_out = rw on refl;
    started = rw not_yet refl;
    marked = rw calm (
        ap (λ b. record (marks c) { recovered = b }) (sym (or_false c.have_first_recovered_stamp)));
    recovery = λ r. let k : true ≡ false = sym r ∙ calm in cc;
  }

  process_some-Steps :
      (c : GnssFaultInjectorCore) (d : GnssFaultDecision F Rest) (t : ℕ)
      → d.publish ≡ true
      → d.recovered_now ≡ false
      → d.fault_started_now ≡ false
      → Steps c d.message (some t) (process_stamped c d (some t))
  unfolding process_stamped covers in_window
  process_some-Steps c d t on calm not_yet = elim (Bool-cases (in_window c t)) [
    | inl inside ↦ rw inside (
        process_fault-Steps c (record d { valid_time = true; stamp_ns = t; in_fault_window = true })
          t on calm refl inside)
    | inr outside ↦ rw outside (
        process_outside-Steps c
          (record d { valid_time = true; stamp_ns = t; in_fault_window = false }) (some t) on calm
          not_yet outside)
  ]

  pub process_stamped-Steps :
      (c : GnssFaultInjectorCore) (m : GnssPvtSolnMsg F Rest) (o : Option ℕ)
      → Steps c m o (process_stamped c (new_decision m) o)
  process_stamped-Steps c m none = process_none-Steps c (new_decision m) refl refl refl
  process_stamped-Steps c m (some t) = process_some-Steps c (new_decision m) t refl refl refl
