-- ===== src/Anchor/Continuity/Preserve.antt =====
-- That each `Observe` keeps the writer and its memory in step with the chain of the samples.
use fast_livo_ug.Base.{
  ◌+◌, ◌-◌, ◌%◌, ◌^◌, ◌≤◌, ◌<◌, ◌≡◌, refl, sym, List, [], ◌∷◌, Option, none, some, Bool, true,
  false, not, ◌&&◌, arith, ltb, leb, ◌==◌, if◌then◌else◌, Bool-cases, inl, inr, length, ◌⊎◌,
}
use fast_livo_ug.Anchor.{
  ImuTimeAnchorState, Anchor, device_ptp, device_gps, write_state, store_all, write_stores, store,
}
use fast_livo_ug.Anchor.Writer.{
  ImuTimeAnchorWriterStats, ImuTimeAnchorWriterConfig, ImuTimeAnchorWriter, Sample,
  reset_continuity, write_mapped, commit, invalidate, find_breaks, accept_sample, observe_open,
  observe,
}
use fast_livo_ug.Anchor.Chain.{
  is_sample, continues, chain, observed, chain-le-length, chain-invalid, chain_pos,
}

-- The newest sample as the writer remembers it.
abbrev Remembers : ImuTimeAnchorWriter → List Sample → Type 0
Remembers w [] = w.consecutive_samples ≡ 0
Remembers w (s ∷ older) =
    ((is_sample s ≡ false) × (w.consecutive_samples ≡ 0))
    ⊎ ((is_sample s ≡ true)
        × (0 < w.consecutive_samples)
        × (w.last_imu_stamp_ns ≡ s.imu_stamp_ns)
        × (w.last_host_monotonic_ns ≡ s.host_monotonic_ns)
        × (w.last_clock_source ≡ s.clock_source))

pub record Tracks (c : ImuTimeAnchorWriterConfig) (samples : List Sample) (w : ImuTimeAnchorWriter)
    : Type 0 where
  pub config : w.config ≡ c
  pub remembers : Remembers w samples
  pub count : w.consecutive_samples ≡ chain c.max_stamp_step_ns samples
  pub ready : w.ready ≡ leb c.min_ready_samples (chain c.max_stamp_step_ns samples)
  pub memory :
      (m : ImuTimeAnchorState) × (w.state ≡ some m) × (m.ready ≡ (if w.ready then 1 else 0))

find_breaks-continuous :
    (w : ImuTimeAnchorWriter) (s : Sample)
    → (find_breaks w s).continuous ≡ (
        not (w.consecutive_samples == 0)
        && s.clock_source == w.last_clock_source
        && ltb w.last_imu_stamp_ns s.imu_stamp_ns
        && leb (s.imu_stamp_ns - w.last_imu_stamp_ns) w.config.max_stamp_step_ns
        && ltb w.last_host_monotonic_ns s.host_monotonic_ns)
unfolding find_breaks
find_breaks-continuous w s = ground arith

find_breaks-continues :
    (w : ImuTimeAnchorWriter) (c : ImuTimeAnchorWriterConfig) (p s : Sample)
    → w.config ≡ c
    → 0 < w.consecutive_samples
    → w.last_imu_stamp_ns ≡ p.imu_stamp_ns
    → w.last_host_monotonic_ns ≡ p.host_monotonic_ns
    → w.last_clock_source ≡ p.clock_source
    → (find_breaks w s).continuous ≡ continues c.max_stamp_step_ns p s
find_breaks-continues w c p s config pos li lh lc =
    let some_yet : (w.consecutive_samples == 0) ≡ false = ground arith in
    rw (find_breaks-continuous w s, some_yet, li, lh, lc, config) refl

next_count :
    (w : ImuTimeAnchorWriter) (c : ImuTimeAnchorWriterConfig) (s : Sample) (older : List Sample)
    → length older + 1 < 2 ^ 32
    → is_sample s ≡ true
    → Tracks c older w
    → (if (find_breaks w s).continuous then (w.consecutive_samples + 1) % 2 ^ 32 else 1)
      ≡ chain c.max_stamp_step_ns (s ∷ older)
unfolding chain
next_count w c s [] small h t = rw (find_breaks-continuous w s, t.remembers, h) refl
next_count w c s (p ∷ older) small h t = elim (t.remembers) [
  | inl (bad, gone) ↦ rw (find_breaks-continuous w s, gone, h, bad) refl
  | inr (good, pos, li, lh, lc) ↦
      let e = find_breaks-continues w c p s t.config pos li lh lc in
      rw (e, h, good)
        (elim (Bool-cases (continues c.max_stamp_step_ns p s)) [
          | inl on ↦ rw on (omega (arith, t.count, chain-le-length c.max_stamp_step_ns (p ∷ older)))
          | inr off ↦ rw off refl
        ])
]

observe_open-invalid :
    (w : ImuTimeAnchorWriter) (s : Sample)
    → is_sample s ≡ false
    → (observe_open w s).consecutive_samples ≡ 0
unfolding observe_open invalidate commit reset_continuity
observe_open-invalid w s h = ground arith

pub write_mapped-ready :
    (o : Option ImuTimeAnchorState) (m : ImuTimeAnchorState) (a : Anchor)
    → o ≡ some m
    → (m' : ImuTimeAnchorState) × (write_mapped o a ≡ some m')
      × (m'.ready ≡ (if a.ready then 1 else 0))
unfolding write_mapped write_state store_all write_stores store
write_mapped-ready o m a e = (write_state m a, rw e refl, refl)

module _ (w : ImuTimeAnchorWriter) (c : ImuTimeAnchorWriterConfig) (s : Sample)
    (older : List Sample) where
  invalidate-Tracks :
      (stats : ImuTimeAnchorWriterStats)
      → 1 ≤ c.min_ready_samples
      → is_sample s ≡ false
      → Tracks c older w
      → Tracks c (s ∷ older) (invalidate (record w { stats = stats }) s.update_monotonic_ns)
  unfolding invalidate reset_continuity commit
  invalidate-Tracks stats least bad t =
      let none_left = chain-invalid c.max_stamp_step_ns s older bad in
      let (m, e, f) = t.memory in
      record {
        config = t.config;
        remembers = inl (bad, refl);
        count = sym none_left;
        ready = rw none_left (ground arith);
        memory = write_mapped-ready _ m _ e;
      }

  accept_sample-Tracks :
      length older + 1 < 2 ^ 32
      → is_sample s ≡ true
      → Tracks c older w
      → Tracks c (s ∷ older) (accept_sample w s)
  unfolding commit accept_sample
  accept_sample-Tracks small good t =
      let n = next_count w c s older small good t in
      let (m, e, f) = t.memory in
      record {
        config = t.config;
        remembers = inr (good, rw n (chain_pos c.max_stamp_step_ns s older good), refl, refl, refl);
        count = n;
        ready = rw (n, t.config) refl;
        memory = write_mapped-ready _ m _ e;
      }

  observe_open-Tracks :
      1 ≤ c.min_ready_samples
      → length older + 1 < 2 ^ 32
      → Tracks c older w
      → Tracks c (s ∷ older) (observe_open w s)
  unfolding observe_open
  observe_open-Tracks least small t = elim (Bool-cases (s.imu_stamp_ns == 0)) [
    | inl zero_stamp ↦ rw zero_stamp (invalidate-Tracks _ least (ground arith) t)
    | inr stamp ↦ rw stamp (elim (Bool-cases (s.host_monotonic_ns == 0)) [
      | inl zero_host ↦ rw zero_host (invalidate-Tracks _ least (ground arith) t)
      | inr host ↦
          rw host
            (elim (Bool-cases
              (not (s.clock_source == device_ptp) && not (s.clock_source == device_gps))) [
                | inl foreign ↦ rw foreign (invalidate-Tracks _ least (ground arith) t)
                | inr clock ↦ rw clock (accept_sample-Tracks small (ground arith) t)
              ])
    ])
  ]

opened :
    (w v : ImuTimeAnchorWriter) (o : Option ImuTimeAnchorState) (m : ImuTimeAnchorState)
    → o ≡ some m
    → (elim o as (λ _. ImuTimeAnchorWriter × Bool) [ none ↦ (w, false) | some m ↦ (v, v.ready) ]).0
      ≡ v
opened w v none m e = cc
opened w v (some x) m e = refl

observe-open :
    (w : ImuTimeAnchorWriter) (s : Sample) (m : ImuTimeAnchorState)
    → w.state ≡ some m
    → (observe w s).0 ≡ observe_open w s
unfolding observe
observe-open w s m e = opened w (observe_open w s) w.state m e

pub observed-Tracks :
    (w : ImuTimeAnchorWriter) (c : ImuTimeAnchorWriterConfig) (samples : List Sample)
    → 1 ≤ c.min_ready_samples
    → length samples < 2 ^ 32
    → Tracks c [] w
    → Tracks c samples (observed w samples)
unfolding observed
observed-Tracks w c [] least small t = t
observed-Tracks w c (s ∷ older) least small t =
    let before = observed-Tracks w c older least (omega arith) t in
    let (m, e, f) = before.memory in
    rw (observe-open (observed w older) s m e)
      (observe_open-Tracks (observed w older) c s older least (omega arith) before)
