-- ===== src/Anchor/Continuity.antt =====
-- When the anchor is ready: the samples that continue one another.
mod Preserve
use fast_livo_ug.Base.{
  ℕ, ◌+◌, ◌-◌, ◌%◌, ◌^◌, ◌≤◌, ◌<◌, ◌≡◌, ◌≢◌, refl, sym, ◌∙◌, List, [], ◌∷◌, ◌++◌, Option, none,
  some, Bool, true, false, not, ◌&&◌, ◌||◌, arith, ltb, leb, ◌==◌, if◌then◌else◌, Bool-cases, inl,
  inr, length, ◌⊎◌,
}
use fast_livo_ug.Anchor.{
  ImuTimeAnchorState, Anchor, device_ptp, device_gps, write_state, store_all, write_stores, store,
}
use fast_livo_ug.Anchor.Writer.{
  ImuTimeAnchorWriterStats, ImuTimeAnchorWriterConfig, ImuTimeAnchorWriter, Sample, mapped,
  is_absolute, reset_continuity, write_mapped, commit, invalidate, open_writer, map_state, close,
  find_breaks, accept_sample, observe_open, observe,
}
use fast_livo_ug.Anchor.Chain.{
  is_sample, continues, chain, observed, IsRun, chain-le-length, chain-invalid, chain_pos,
  chain-IsRun,
}
use fast_livo_ug.Anchor.Continuity.Preserve.{Tracks, write_mapped-ready, observed-Tracks}

map_state-Tracks :
    (w : ImuTimeAnchorWriter) (path : List ℕ) (epoch now : ℕ) (m : ImuTimeAnchorState)
    → 1 ≤ w.config.min_ready_samples
    → Tracks w.config [] (map_state w path epoch now (mapped m)).0
unfolding map_state reset_continuity commit chain
map_state-Tracks w path epoch now m least = record {
  config = refl;
  remembers = refl;
  count = refl;
  ready = ground arith;
  memory = write_mapped-ready _ m _ refl;
}

close-config : (w : ImuTimeAnchorWriter) (now : ℕ) → (close w now).0.config ≡ w.config
unfolding close invalidate reset_continuity commit
close-config w now =
    elim w.state
      as (λ o.
        (elim o as (λ _. ImuTimeAnchorWriter × Option ImuTimeAnchorState) [
          | none ↦ (w, none)
          | some m ↦ (
            record (invalidate w now) { state = none; path = []; writer_epoch = 0 },
            (invalidate w now).state,
          )
        ]).0.config
        ≡ w.config) [ none ↦ refl | some m ↦ refl ]

open_writer-mapped :
    (w : ImuTimeAnchorWriter) (path : List ℕ) (epoch closing now : ℕ) (m : ImuTimeAnchorState)
    → is_absolute path ≡ true
    → epoch ≢ 0
    → open_writer w path epoch closing now (mapped m)
      ≡ map_state (close w closing).0 path epoch now (mapped m)
unfolding open_writer
open_writer-mapped w path epoch closing now m h e =
    let nonzero : (epoch == 0) ≡ false = ground arith in rw (h, nonzero) refl

reached : (least n : ℕ) → least ≤ n → leb least n ≡ true
reached least n h = ground arith

-- What a writer opened on the memory `m` is after the samples.
abbrev pub after :
    ImuTimeAnchorWriter
    → List ℕ
    → ℕ
    → ℕ
    → ℕ
    → ImuTimeAnchorState
    → List Sample
    → ImuTimeAnchorWriter
after w path epoch closing now m samples =
    observed (open_writer w path epoch closing now (mapped m)).0 samples

module _ (w : ImuTimeAnchorWriter) (path : List ℕ) (epoch closing now : ℕ) (m : ImuTimeAnchorState)
    (absolute : is_absolute path ≡ true) (nonzero : epoch ≢ 0)
    (least : 1 ≤ w.config.min_ready_samples) where
  after-Tracks :
      (samples : List Sample)
      → length samples < 2 ^ 32
      → Tracks w.config samples (after w path epoch closing now m samples)
  after-Tracks samples small =
      let same = close-config w closing in
      rw (open_writer-mapped w path epoch closing now m absolute nonzero) (
        observed-Tracks _ w.config samples least small
          (rw same at (map_state-Tracks (close w closing).0 path epoch now m (rw same least))))

  -- Let a writer with a positive min_ready_samples be opened on a memory, with an absolute path
  -- and an epoch that is not 0, and let it observe fewer than 2^32 samples. It is ready exactly if
  -- at least min_ready_samples of the newest samples continue one another, and the memory says the
  -- same.
  pub ready_after_samples :
      (samples : List Sample)
      → length samples < 2 ^ 32
      → let v = after w path epoch closing now m samples in
        let ready = leb w.config.min_ready_samples (chain w.config.max_stamp_step_ns samples) in
        (v.ready ≡ ready)
        × (m' : ImuTimeAnchorState) × (v.state ≡ some m')
        × (m'.ready ≡ (if ready then 1 else 0))
  ready_after_samples samples small =
      let t = after-Tracks samples small in
      let (m', e, f) = t.memory in (t.ready, m', e, rw (sym t.ready) f)

  -- A writer with a positive min_ready_samples that is opened on a memory, with an absolute path
  -- and an epoch that is not 0, is ready after any samples that end in a run of at least
  -- min_ready_samples that continue one another, of fewer than 2^32 samples in all.
  pub ready_after_run :
      (run older : List Sample)
      → IsRun w.config.max_stamp_step_ns run
      → w.config.min_ready_samples ≤ length run
      → length (run ++ older) < 2 ^ 32
      → (after w path epoch closing now m (run ++ older)).ready ≡ true
  ready_after_run run older steady enough small =
      let t = after-Tracks (run ++ older) small in
      let long = chain-IsRun w.config.max_stamp_step_ns run older steady in
      t.ready ∙ reached w.config.min_ready_samples _ (omega (arith, long))
