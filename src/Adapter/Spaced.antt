-- ===== src/Adapter/Spaced.antt =====
-- The order of the measurements that are accepted.
use fast_livo_ug.Base.{
  ℕ, ◌≡◌, ◌<◌, ◌≤◌, inl, inr, List, [], ◌∷◌, Bool, true, false, arith, if◌then◌else◌, Option, none,
  some,
}
use mathlib.Core.Path.{subst}
use fast_livo_ug.Float.{Float}
use fast_livo_ug.Adapter.{
  GnssAdapterConfig, GnssAdapter, GnssAdapterResult, Pvt, Origin, AverageNote,
}
use fast_livo_ug.Adapter.Average.{timestamp_tolerance_ns, average_origin_pending, update_origin}
use fast_livo_ug.Adapter.Measure.{Finding, find, find_origin, track, measure}
use fast_livo_ug.Adapter.Calls.{Message, process, process_all, process_keeps}
use fast_livo_ug.Adapter.Ordered.{last_time, IsLater, Settled, Advances, process-Advances}

-- The stamps of the accepted measurements, in the order of the answers.
unfoldable pub accepted_stamps : {F : Float} → List (GnssAdapterResult F) → List ℕ
accepted_stamps [] = []
accepted_stamps (r ∷ results) =
    let stamps = accepted_stamps results in
    if r.status.accepted then r.status.stamp ∷ stamps else stamps

-- Each stamp is behind the one before it by more than the tolerance.
unfoldable pub AreSpaced : Option ℕ → List ℕ → Type 0
unfolding IsLater
AreSpaced last [] = 0 ≤ 0
AreSpaced last (stamp ∷ stamps) = IsLater last stamp × AreSpaced (some stamp) stamps

AreSpaced-later :
    (last : Option ℕ) (s : ℕ) (stamps : List ℕ)
    → IsLater last s
    → AreSpaced (some s) stamps
    → AreSpaced last stamps
unfolding AreSpaced IsLater
AreSpaced-later last s [] l h = h
AreSpaced-later none s (t ∷ stamps) l h = (omega arith, h.1)
AreSpaced-later (some last) s (t ∷ stamps) l h = (omega (arith, l, h.0), h.1)

spaced_if :
    (b : Bool) (last : Option ℕ) (s : ℕ) (stamps : List ℕ)
    → IsLater last s
    → AreSpaced (some s) stamps
    → AreSpaced last (if b then s ∷ stamps else stamps)
unfolding AreSpaced
spaced_if true last s stamps l h = (l, h)
spaced_if false last s stamps l h = AreSpaced-later last s stamps l h

module _ {F : Float} where
  find_origin_pending :
      (c : GnssAdapterConfig F) (f : Finding F) (now : ℕ) (o : Origin F) (n : AverageNote F)
      → average_origin_pending c o ≡ false
      → average_origin_pending c (find_origin c f now o n).0 ≡ false
  unfolding find_origin update_origin average_origin_pending
  find_origin_pending c f now o n h = ground arith

  measure-Settled :
      (time_gap : Bool) (m : Pvt F) (stamp : ℕ) (a : GnssAdapter F) (n : AverageNote F)
      → Settled a
      → Settled (measure time_gap m stamp a n).0
  unfolding measure
  measure-Settled time_gap m stamp a n h = (
    find_origin_pending a.config (find a.config m (track time_gap m a).1) stamp a.origin n h.0,
    h.1,
  )

  process-Settled :
      (from_sec : Float.Double F → ℕ) (m : Message F) (a : GnssAdapter F)
      → Settled a
      → Settled (process from_sec m a).0
  process-Settled from_sec m a h =
      process_keeps Settled (λ reason gap_s b n pending p. ground (arith, pending, p.0))
        (λ s w b p. p) measure-Settled (λ t b p. p) from_sec m a h

  spaced_step :
      (a : GnssAdapter F) (r : GnssAdapter F × GnssAdapterResult F)
      (results : List (GnssAdapterResult F))
      → Advances a r
      → AreSpaced (last_time r.0) (accepted_stamps results)
      → AreSpaced (last_time a) (accepted_stamps (r.1 ∷ results))
  unfolding accepted_stamps Advances
  spaced_step a r results (inl h) i =
      rw h.0 (subst (λ last. AreSpaced last (accepted_stamps results)) h.1 i)
  spaced_step a r results (inr h) i =
      spaced_if r.1.status.accepted (last_time a) r.1.status.stamp (accepted_stamps results) h.1
        (subst (λ last. AreSpaced last (accepted_stamps results)) h.0 i)

module _ {F : Float}
    (negative : (n : ℕ)
      → timestamp_tolerance_ns < n
      → Float.lt F
          (Float.mul F (Float.neg F (Float.double F n)) (Float.decimal F 1 9))
          (Float.decimal F 0 0)
        ≡ true) where
  -- Over any messages, stamped or not or poses, to an adapter that waits for no average origin and
  -- requires monotonic time, every accepted stamp is more than the tolerance of 1000 ns behind the
  -- accepted one before it, and the first one behind the last measurement. The condition on the
  -- arithmetic is that a negative time of more than 1000 ns, turned into seconds, is below 0.
  pub accepted_stamps-AreSpaced :
      (from_sec : Float.Double F → ℕ) (messages : List (Message F)) (a : GnssAdapter F)
      → average_origin_pending a.config a.origin ≡ false
      → a.config.require_monotonic_time ≡ true
      → AreSpaced (last_time a) (accepted_stamps (process_all from_sec messages a).1)
  unfolding process_all accepted_stamps AreSpaced
  accepted_stamps-AreSpaced from_sec [] a p mono = omega arith
  accepted_stamps-AreSpaced from_sec (m ∷ messages) a p mono =
      let r = process from_sec m a in
      let next = process-Settled from_sec m a (p, mono) in
      spaced_step a r (process_all from_sec messages r.0).1
        (process-Advances negative from_sec m a (p, mono))
        (accepted_stamps-AreSpaced from_sec messages r.0 next.0 next.1)
