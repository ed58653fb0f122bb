-- ===== src/Adapter/Locked.antt =====
-- The origin after it has been set.
use fast_livo_ug.Base.{ℕ, ◌≡◌, refl, ap, ◌∙◌, List, Bool, true, false, arith}
use fast_livo_ug.Float.{Float}
use fast_livo_ug.Adapter.{GnssAdapterConfig, GnssAdapter, Pvt, Origin, AverageNote, Reason}
use fast_livo_ug.Adapter.Average.{average_origin_pending, update_origin}
use fast_livo_ug.Adapter.Stages.{restart}
use fast_livo_ug.Adapter.Measure.{Finding, find, find_origin, track, measure}
use fast_livo_ug.Adapter.Calls.{Message, process_all, process_all_keeps}

module _ {F : Float} where
  set_pending :
      (c : GnssAdapterConfig F) (o : Origin F)
      → o.origin_initialized ≡ true
      → average_origin_pending c o ≡ true
      → false ≡ true
  unfolding average_origin_pending
  set_pending c o e h = ground arith

  find_origin_set :
      (c : GnssAdapterConfig F) (f : Finding F) (now : ℕ) (o : Origin F) (n : AverageNote F)
      → o.origin_initialized ≡ true
      → (find_origin c f now o n).0 ≡ o
  unfolding find_origin update_origin
  find_origin_set c f now o n e = ground arith

  restart_set :
      (o : Origin F) (c : GnssAdapterConfig F) (reason : Reason) (gap_s : Float.Double F)
      (b : GnssAdapter F) (n : AverageNote F)
      → o.origin_initialized ≡ true
      → average_origin_pending b.config b.origin ≡ true
      → (b.origin ≡ o) × (b.config ≡ c)
      → ((restart reason gap_s b n).0.origin ≡ o) × ((restart reason gap_s b n).0.config ≡ c)
  restart_set o c reason gap_s b n e pending p =
      ground (arith, set_pending b.config b.origin (ap (λ o. o.origin_initialized) p.0 ∙ e) pending)

  measure_set :
      (o : Origin F) (c : GnssAdapterConfig F) (time_gap : Bool) (m : Pvt F) (stamp : ℕ)
      (b : GnssAdapter F) (n : AverageNote F)
      → o.origin_initialized ≡ true
      → (b.origin ≡ o) × (b.config ≡ c)
      → ((measure time_gap m stamp b n).0.origin ≡ o)
        × ((measure time_gap m stamp b n).0.config ≡ c)
  unfolding measure
  measure_set o c time_gap m stamp b n e p = (
    find_origin_set b.config (find b.config m (track time_gap m b).1) stamp b.origin n
          (ap (λ o. o.origin_initialized) p.0 ∙ e)
        ∙ p.0,
    p.1,
  )

  -- Once the origin is set, any messages leave the origin and the configuration as they are.
  pub origin_locked :
      (from_sec : Float.Double F → ℕ) (messages : List (Message F)) (a : GnssAdapter F)
      → a.origin.origin_initialized ≡ true
      → ((process_all from_sec messages a).0.origin ≡ a.origin)
        × ((process_all from_sec messages a).0.config ≡ a.config)
  origin_locked from_sec messages a e =
      process_all_keeps (λ b. (b.origin ≡ a.origin) × (b.config ≡ a.config))
        (λ r g b n pending p. restart_set a.origin a.config r g b n e pending p) (λ s w b p. p)
        (λ t m stamp b n p. measure_set a.origin a.config t m stamp b n e p) (λ t b p. p) from_sec
        messages a (refl, refl)
