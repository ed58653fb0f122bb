-- ===== src/Wire/Sequence/Order.antt =====
-- `SequenceTracker::observe` and the gaps that it reports.
use fast_livo_ug.Base.{
  ℕ, ◌+◌, ◌-◌, ◌%◌, ◌^◌, ◌≤◌, ◌<◌, ◌≡◌, refl, List, [], ◌∷◌, arith, true, false, if◌then◌else◌, All,
}
use fast_livo_ug.Wire.Bytes.{IsU32}
use fast_livo_ug.Wire.Sequence.{SequenceTracker, observe}

-- In a valid tracker and for its boot, a number d ahead of the one kept, from 1 to 2^31 - 1 and
-- across the wrap too, is accepted with a gap of d - 1 and becomes the number kept.
observe_ahead :
    (t : SequenceTracker) (d : ℕ)
    → t.valid ≡ true
    → IsU32 t.sequence
    → 1 ≤ d
    → d < 2 ^ 31
    → let next = (t.sequence + d) % 2 ^ 32 in
      let (t', r) = observe t t.boot_id next in
      (r.accept ≡ true) × (r.gap + 1 ≡ d) × (t'.sequence ≡ next) × (t'.boot_id ≡ t.boot_id)
unfolding observe
observe_ahead t d v h lo hi = ground arith

-- In a valid tracker and for its boot, a number d behind the one kept, from 0 to 2^31, is refused
-- and leaves the tracker as it is.
observe_behind :
    (t : SequenceTracker) (d : ℕ)
    → t.valid ≡ true
    → IsU32 t.sequence
    → d ≤ 2 ^ 31
    → let (t', r) = observe t t.boot_id ((t.sequence + 2 ^ 32 - d) % 2 ^ 32) in
      (r.accept ≡ false) × (t' ≡ t)
unfolding observe
observe_behind t d v h hi = ground arith

-- The tracker and the sum of `gap + 1` over the accepted numbers of one boot.
pub observe_all : SequenceTracker → ℕ → ℕ → List ℕ → SequenceTracker × ℕ
observe_all t boot_id moved [] = (t, moved)
observe_all t boot_id moved (s ∷ rest) =
    let (t', r) = observe t boot_id s in
    observe_all t' boot_id (if r.accept then moved + r.gap + 1 else moved) rest

record IsTracking (t : SequenceTracker) (boot_id start moved : ℕ) : Type 0 where
  valid : t.valid ≡ true
  boot : t.boot_id ≡ boot_id
  range : IsU32 t.sequence
  place : t.sequence ≡ (start + moved) % 2 ^ 32

observe-IsTracking :
    (t : SequenceTracker) (boot_id start moved s : ℕ)
    → IsU32 s
    → IsTracking t boot_id start moved
    → let (t', r) = observe t boot_id s in
      IsTracking t' boot_id start (if r.accept then moved + r.gap + 1 else moved)
unfolding observe
observe-IsTracking t boot_id start moved s h v = ground arith

observe_all-IsTracking :
    (rest : List ℕ) (t : SequenceTracker) (boot_id start moved : ℕ)
    → All IsU32 rest
    → IsTracking t boot_id start moved
    → let (t', moved') = observe_all t boot_id moved rest in IsTracking t' boot_id start moved'
unfolding observe_all
observe_all-IsTracking [] t boot_id start moved h v = v
observe_all-IsTracking (s ∷ rest) t boot_id start moved h v =
    observe_all-IsTracking rest (observe t boot_id s).0 boot_id start _ h.1
      (observe-IsTracking t boot_id start moved s h.0 v)

-- Over any 32-bit sequence numbers of the boot of the tracker, the number that a valid tracker
-- keeps has moved, modulo 2^32, by the sum of gap + 1 over the accepted numbers.
pub observe_all_lem :
    (rest : List ℕ) (t : SequenceTracker)
    → t.valid ≡ true
    → IsU32 t.sequence
    → All IsU32 rest
    → let (t', moved) = observe_all t t.boot_id 0 rest in
      (t'.sequence ≡ (t.sequence + moved) % 2 ^ 32) × (t'.boot_id ≡ t.boot_id)
observe_all_lem rest t v h hs = (end.place, end.boot)
  where
    end :
        let (t', moved) = observe_all t t.boot_id 0 rest in IsTracking t' t.boot_id t.sequence moved
    end =
        observe_all-IsTracking rest t t.boot_id t.sequence 0 hs
          (record { valid = v; boot = refl; range = h; place = omega arith })
