-- ===== src/Fault/Marks.antt =====
-- Which messages the injector flags as the first fault and the recovery, and the stamps it keeps.
use fast_livo_ug.Base.{
  ℕ, ◌+◌, ◌≡◌, refl, sym, ap, ◌∙◌, List, [], ◌∷◌, ◌++◌, append-nil, Option, none, some, Bool, true,
  false, not, ◌&&◌, ◌||◌, ◌==◌, min, if◌then◌else◌, arith, length, get_or,
}
use fast_livo_ug.Float.{Float}
use fast_livo_ug.Gnss.{GnssPvtSolnMsg}
use fast_livo_ug.Fault.{
  GnssFaultMode, GnssFaultInjectorCore, GnssFaultDecision, process, new_injector,
}
use fast_livo_ug.Fault.Reference.{Interval, covers, fault_stamp, fault_stamps, last_or}
use fast_livo_ug.Fault.Step.{interval, one_if, Marks, marks, mark, or_false}
use fast_livo_ug.Fault.Run.{
  count_started, count_recovered, no_marks, process_all, process-Steps, fresh,
}

or_assoc : (a b c : Bool) → ((a || b) || c) ≡ (a || (b || c))
or_assoc true b c = refl
or_assoc false b c = refl

last_or-append :
    (d : ℕ) (ts : List ℕ) (u : ℕ) (us : List ℕ) → last_or d (ts ++ (u ∷ us)) ≡ last_or u us
last_or-append d [] u us = refl
last_or-append d (t ∷ ts) u us = last_or-append t ts u us

-- With at most one recovery, and none before a fault.
one_recovery :
    (faulted recovered now : Bool)
    → ((now ≡ true) → (faulted ≡ true) × (recovered ≡ false))
    → (recovered ≡ true → faulted ≡ true)
    → (one_if recovered + one_if now ≡ one_if (recovered || now))
      × ((recovered || now) ≡ true → faulted ≡ true)
one_recovery faulted true true back ordered = let k = (back refl).1 in cc
one_recovery faulted true false back ordered = (omega arith, ordered)
one_recovery faulted false true back ordered = (omega arith, λ h. (back refl).0)
one_recovery faulted false false back ordered = (omega arith, ordered)

mark-no_marks :
    (ts : List ℕ) (r : Bool)
    → ((mark no_marks ts r).faulted ≡ not (length ts == 0))
      × ((mark no_marks ts r).first ≡ get_or ts 0 0)
      × ((mark no_marks ts r).last ≡ last_or 0 ts)
unfolding mark
mark-no_marks [] r = (refl, refl, refl)
mark-no_marks (t ∷ ts) r = (ground arith, refl, refl)

mark-append :
    (k : Marks) (ts us : List ℕ) (r q : Bool) → mark (mark k ts r) us q ≡ mark k (ts ++ us) (r || q)
unfolding mark
mark-append k [] [] r q = ap (λ b. record k { recovered = b }) (or_assoc k.recovered r q)
mark-append k [] (u ∷ us) r q =
    ap
      (λ b. record k {
        faulted = true;
        recovered = b;
        first = if k.faulted then k.first else u;
        last = last_or u us;
      })
      (or_assoc k.recovered r q)
mark-append k (t ∷ ts) [] r q = rw (append-nil ts) (
    ap
      (λ b. record k {
        faulted = true;
        recovered = b;
        first = if k.faulted then k.first else t;
        last = last_or t ts;
      })
      (or_assoc k.recovered r q))
mark-append k (t ∷ ts) (u ∷ us) r q = rw (last_or-append t ts u us) (
    ap
      (λ b. record k {
        faulted = true;
        recovered = b;
        first = if k.faulted then k.first else t;
        last = last_or u us;
      })
      (or_assoc k.recovered r q))

module _ (F : Float) (Rest : Type 0) (from_sec : Float.Double F → ℕ) where
  unfoldable any_recovered : List (GnssFaultDecision F Rest) → Bool
  any_recovered [] = false
  any_recovered (d ∷ decisions) = d.recovered_now || any_recovered decisions

  marks-process_all :
      (c : GnssFaultInjectorCore) (messages : List (GnssPvtSolnMsg F Rest))
      → let r = process_all F Rest from_sec c messages in
        marks (r.0)
        ≡ mark (marks c) (fault_stamps F Rest from_sec (interval c) messages) (any_recovered (r.1))
  unfolding process_all fault_stamps any_recovered mark
  marks-process_all c [] =
      ap (λ b. record (marks c) { recovered = b }) (sym (or_false c.have_first_recovered_stamp))
  marks-process_all c (m ∷ messages) =
      let s = process-Steps F Rest from_sec c m in
      let (c', d) = process F Rest from_sec c m in
      let k = marks-process_all c' messages in
      rw (k, s.marked, s.same) (mark-append (marks c) _ _ _ _)

  started_step :
      (c c' : GnssFaultInjectorCore) (here later : List ℕ) (d : GnssFaultDecision F Rest) (rest : ℕ)
      → marks c' ≡ mark (marks c) here d.recovered_now
      → d.fault_started_now ≡ (not (length here == 0) && not c.have_first_fault_stamp)
      → rest ≡ (if c'.have_first_fault_stamp then 0 else min 1 (length later))
      → one_if d.fault_started_now + rest
        ≡ (if c.have_first_fault_stamp then 0 else min 1 (length (here ++ later)))
  unfolding mark
  started_step c c' [] later d rest e s r = rw (s, r, ap (λ k. k.faulted) e) (omega arith)
  started_step c c' (t ∷ ts) later d rest e s r = rw (s, r, ap (λ k. k.faulted) e) (ground (arith))

  fault_stamp-covers :
      (i : Interval) (o : Option ℕ) → covers i o ≡ not (length (fault_stamp i o) == 0)
  unfolding fault_stamp covers
  fault_stamp-covers i none = refl
  fault_stamp-covers i (some t) = ground arith

  count_started_lem :
      (c : GnssFaultInjectorCore) (messages : List (GnssPvtSolnMsg F Rest))
      → count_started (process_all F Rest from_sec c messages).1 ≡ (
          if c.have_first_fault_stamp
          then 0
          else min 1 (length (fault_stamps F Rest from_sec (interval c) messages)))
  unfolding process_all fault_stamps count_started
  count_started_lem c [] = ground arith
  count_started_lem c (m ∷ messages) =
      let s = process-Steps F Rest from_sec c m in
      let (c', d) = process F Rest from_sec c m in
      let k = count_started_lem c' messages in
      started_step c c' _ _ d _ s.marked
        (s.started ∙ ap (λ b. b && not c.have_first_fault_stamp) (fault_stamp-covers _ _))
        (rw s.same at k)

  -- A recovery comes after a fault.
  abbrev InOrder : GnssFaultInjectorCore → Type 0
  InOrder c = c.have_first_recovered_stamp ≡ true → c.have_first_fault_stamp ≡ true

  recovered_step :
      (c c' : GnssFaultInjectorCore) (here : List ℕ) (d : GnssFaultDecision F Rest)
      → marks c' ≡ mark (marks c) here d.recovered_now
      → ((d.recovered_now ≡ true)
          → (c.have_first_fault_stamp ≡ true) × (c.have_first_recovered_stamp ≡ false))
      → InOrder c
      → (one_if c.have_first_recovered_stamp + one_if d.recovered_now
          ≡ one_if c'.have_first_recovered_stamp)
        × InOrder c'
  unfolding mark
  recovered_step c c' [] d e back ordered =
      let (sum, next) = one_recovery c.have_first_fault_stamp _ _ back ordered in
      let r = ap (λ k. k.recovered) e in (rw r sum, λ h. ap (λ k. k.faulted) e ∙ next (sym r ∙ h))
  recovered_step c c' (t ∷ ts) d e back ordered =
      let (sum, next) = one_recovery c.have_first_fault_stamp _ _ back ordered in
      (rw (ap (λ k. k.recovered) e) sum, λ h. ap (λ k. k.faulted) e)

  count_recovered_lem :
      (c : GnssFaultInjectorCore) (messages : List (GnssPvtSolnMsg F Rest))
      → InOrder c
      → let r = process_all F Rest from_sec c messages in
        (one_if c.have_first_recovered_stamp + count_recovered (r.1)
          ≡ one_if (r.0).have_first_recovered_stamp)
        × InOrder (r.0)
  unfolding process_all count_recovered
  count_recovered_lem c [] ordered = (omega arith, ordered)
  count_recovered_lem c (m ∷ messages) ordered =
      let s = process-Steps F Rest from_sec c m in
      let (c', d) = process F Rest from_sec c m in
      let (one, next) = recovered_step c c' _ d s.marked s.recovery ordered in
      let (rest, last) = count_recovered_lem c' messages next in (omega (arith, one, rest), last)

  -- Over any messages, a new injector flags the begin of the fault once if a message lies in the
  -- interval and never otherwise, keeps the stamps of the first and the last such message, and
  -- flags the recovery at most once, and not without a fault.
  pub faults_flagged_once :
      (mode : GnssFaultMode) (start end : ℕ) (c : GnssFaultInjectorCore)
      (messages : List (GnssPvtSolnMsg F Rest))
      → new_injector mode start end ≡ some c
      → let (c', decisions) = process_all F Rest from_sec c messages in
        let stamps =
          fault_stamps F Rest from_sec
            (record { mode = mode; start_stamp_ns = start; end_stamp_ns = end })
            messages in
        (count_started decisions ≡ min 1 (length stamps))
        × (c'.have_first_fault_stamp ≡ not (length stamps == 0))
        × (c'.first_fault_stamp_ns ≡ get_or stamps 0 0)
        × (c'.last_fault_stamp_ns ≡ last_or 0 stamps)
        × (count_recovered decisions ≡ one_if c'.have_first_recovered_stamp)
        × (c'.have_first_recovered_stamp ≡ true → c'.have_first_fault_stamp ≡ true)
  faults_flagged_once mode start end c messages e =
      let (clear, counts, same) = fresh F Rest from_sec mode start end c e in
      let quiet : c.have_first_recovered_stamp ≡ false = ap (λ k. k.recovered) clear in
      let seen = marks-process_all c messages in
      let (faulted, first, last) =
        mark-no_marks (fault_stamps F Rest from_sec (interval c) messages)
          (any_recovered (process_all F Rest from_sec c messages).1) in
      let (once, ordered) =
        count_recovered_lem c messages (λ h. let k : true ≡ false = sym h ∙ quiet in cc) in
      rw (← same) (
        count_started_lem c messages
            ∙ ap
                (λ b.
                  if b
                  then 0
                  else min 1 (length (fault_stamps F Rest from_sec (interval c) messages)))
                (ap (λ k. k.faulted) clear),
        ap (λ k. k.faulted) (rw clear at seen) ∙ faulted,
        ap (λ k. k.first) (rw clear at seen) ∙ first,
        ap (λ k. k.last) (rw clear at seen) ∙ last,
        omega (arith, once, ap one_if quiet),
        ordered,
      )
