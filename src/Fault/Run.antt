-- ===== src/Fault/Run.antt =====
-- The injector over any sequence of messages, against the reference.
use fast_livo_ug.Base.{
  ℕ, ◌+◌, ◌-◌, ◌%◌, ◌^◌, ◌≤◌, ◌≡◌, refl, sym, ap, List, [], ◌∷◌, ◌++◌, some, false, arith, length,
  length-append, guard-some, some_inj,
}
use fast_livo_ug.Float.{Float}
use fast_livo_ug.Gnss.{GnssPvtSolnMsg}
use fast_livo_ug.Fault.{
  GnssFaultMode, GnssFaultInjectorCore, GnssFaultDecision, process, conservation_delta,
  new_injector, increment, no_counts,
}
use fast_livo_ug.Fault.Reference.{stamp_of, outcome, outcomes}
use fast_livo_ug.Fault.Step.{interval, output, one_if, Marks, marks, Steps, process_stamped-Steps}

module _ {F : Float} {Rest : Type 0} where
  unfoldable pub output_all : List (GnssFaultDecision F Rest) → List (GnssPvtSolnMsg F Rest)
  output_all [] = []
  output_all (d ∷ decisions) = output d ++ output_all decisions

  unfoldable pub count_started : List (GnssFaultDecision F Rest) → ℕ
  count_started [] = 0
  count_started (d ∷ decisions) = one_if d.fault_started_now + count_started decisions

  unfoldable pub count_recovered : List (GnssFaultDecision F Rest) → ℕ
  count_recovered [] = 0
  count_recovered (d ∷ decisions) = one_if d.recovered_now + count_recovered decisions

abbrev pub no_marks : Marks
no_marks = record { faulted = false; recovered = false; first = 0; last = 0 }

module _ (F : Float) (Rest : Type 0) (from_sec : Float.Double F → ℕ) where
  unfoldable pub process_all :
      GnssFaultInjectorCore
      → List (GnssPvtSolnMsg F Rest)
      → GnssFaultInjectorCore × List (GnssFaultDecision F Rest)
  process_all c [] = (c, [])
  process_all c (m ∷ messages) =
      let (c', d) = process F Rest from_sec c m in
      let (c'', decisions) = process_all c' messages in (c'', d ∷ decisions)

  pub process-Steps :
      (c : GnssFaultInjectorCore) (m : GnssPvtSolnMsg F Rest)
      → Steps
          (record c { counters = record c.counters { received = increment c.counters.received } })
          m
          (stamp_of F Rest from_sec m)
          (process F Rest from_sec c m)
  unfolding process
  process-Steps c m = process_stamped-Steps _ m _

  -- What the injector sends for any messages is what a filter without memory sends: a message with
  -- a valid time in the interval is dropped or degraded as the mode says, and every other one goes
  -- out unchanged, in order.
  pub output_all-process_all :
      (c : GnssFaultInjectorCore) (messages : List (GnssPvtSolnMsg F Rest))
      → output_all (process_all c messages).1 ≡ outcomes F Rest from_sec (interval c) messages
  unfolding process_all output_all outcomes outcome
  output_all-process_all c [] = refl
  output_all-process_all c (m ∷ messages) =
      let s = process-Steps c m in
      let rest = output_all-process_all (process F Rest from_sec c m).0 messages in
      rw (s.goes_out, rest, s.same) refl

  length-output : (d : GnssFaultDecision F Rest) → length (output d) ≤ 1
  unfolding output
  length-output d = ground arith

  record Counted (c c' : GnssFaultInjectorCore) (n sent : ℕ) : Type 0 where
    received : c'.counters.received % 2 ^ 64 ≡ (c.counters.received + n) % 2 ^ 64
    passed : c'.counters.passed % 2 ^ 64 ≡ (c.counters.passed + sent) % 2 ^ 64
    dropped : c'.counters.dropped % 2 ^ 64 ≡ (c.counters.dropped + (n - sent)) % 2 ^ 64
    bound : sent ≤ n

  process_all-Counted :
      (c : GnssFaultInjectorCore) (messages : List (GnssPvtSolnMsg F Rest))
      → let r = process_all c messages in
        Counted c (r.0) (length messages) (length (output_all (r.1)))
  unfolding process_all output_all
  process_all-Counted c [] = record {
    received = omega arith;
    passed = omega arith;
    dropped = omega arith;
    bound = omega arith;
  }
  process_all-Counted c (m ∷ messages) =
      let s = process-Steps c m in
      let (c', d) = process F Rest from_sec c m in
      let k = process_all-Counted c' messages in
      let one = length-output d in
      let sum = length-append (output d) (output_all (process_all c' messages).1) in
      record {
        received = omega (arith, s.received, k.received);
        passed = rw sum (omega (arith, s.passed, k.passed));
        dropped = rw sum (omega (arith, s.dropped, k.dropped, k.bound, one));
        bound = rw sum (omega (arith, k.bound, one));
      }

  pub fresh :
      (mode : GnssFaultMode) (start end : ℕ) (c : GnssFaultInjectorCore)
      → new_injector mode start end ≡ some c
      → (marks c ≡ no_marks)
        × (c.counters ≡ no_counts)
        × (interval c ≡ record { mode = mode; start_stamp_ns = start; end_stamp_ns = end })
  unfolding new_injector
  fresh mode start end c e =
      let made = sym (some_inj (guard-some _ _ e).1) in
      (ap marks made, ap (λ x. x.counters) made, ap interval made)

  -- After any messages, a new injector has a conservation delta of 0, and modulo 2^64 it has
  -- received all messages and passed those that its reference filter sends.
  pub process_all_conserves :
      (mode : GnssFaultMode) (start end : ℕ) (c : GnssFaultInjectorCore)
      (messages : List (GnssPvtSolnMsg F Rest))
      → new_injector mode start end ≡ some c
      → let c' = (process_all c messages).0 in
        let sent =
          outcomes F Rest from_sec
            (record { mode = mode; start_stamp_ns = start; end_stamp_ns = end })
            messages in
        (conservation_delta c' ≡ 0)
        × (c'.counters.received % 2 ^ 64 ≡ length messages % 2 ^ 64)
        × (c'.counters.passed % 2 ^ 64 ≡ length sent % 2 ^ 64)
  unfolding conservation_delta
  process_all_conserves mode start end c messages e =
      let (clear, counts, same) = fresh mode start end c e in
      let k = process_all-Counted c messages in
      let out = output_all-process_all c messages in
      let zero_received = ap (λ x. x.received) counts in
      let zero_passed = ap (λ x. x.passed) counts in
      let zero_dropped = ap (λ x. x.dropped) counts in
      (
        omega (
          arith, k.received, k.passed, k.dropped, k.bound, zero_received, zero_passed, zero_dropped,
        ),
        omega (arith, k.received, zero_received),
        rw (← same, ← out) (omega (arith, k.passed, zero_passed)),
      )
