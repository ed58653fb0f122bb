-- ===== src/Anchor/Chain.antt =====
-- How many of the newest samples continue one another.
use fast_livo_ug.Base.{
  ℕ, ◌+◌, ◌-◌, ◌≤◌, ◌<◌, ◌≡◌, refl, List, [], ◌∷◌, ◌++◌, Bool, true, false, not, ◌&&◌, ◌||◌, arith,
  ltb, leb, ◌==◌, if◌then◌else◌, length,
}
use fast_livo_ug.Anchor.{device_ptp, device_gps}
use fast_livo_ug.Anchor.Writer.{ImuTimeAnchorWriter, Sample, observe}

abbrev pub is_sample : Sample → Bool
is_sample s =
    not (s.imu_stamp_ns == 0)
    && not (s.host_monotonic_ns == 0)
    && (s.clock_source == device_ptp || s.clock_source == device_gps)

-- `s` continues `p`: one clock, both times later, and the stamp by a step of at most `max_step`.
abbrev pub continues : ℕ → Sample → Sample → Bool
continues max_step p s =
    s.clock_source == p.clock_source
    && ltb p.imu_stamp_ns s.imu_stamp_ns
    && leb (s.imu_stamp_ns - p.imu_stamp_ns) max_step
    && ltb p.host_monotonic_ns s.host_monotonic_ns

-- How many of the newest samples continue one another. The newest stands first.
unfoldable pub chain : ℕ → List Sample → ℕ
chain max_step [] = 0
chain max_step (s ∷ []) = if is_sample s then 1 else 0
chain max_step (s ∷ p ∷ older) =
    let before = chain max_step (p ∷ older) in
    if not (is_sample s) then 0 else if is_sample p && continues max_step p s then before + 1 else 1

-- The writer after the samples, of which the newest stands first.
unfoldable pub observed : ImuTimeAnchorWriter → List Sample → ImuTimeAnchorWriter
observed w [] = w
observed w (s ∷ older) = (observe (observed w older) s).0

pub chain-le-length :
    (max_step : ℕ) (samples : List Sample) → chain max_step samples ≤ length samples
unfolding chain
chain-le-length max_step [] = omega arith
chain-le-length max_step (s ∷ []) = ground arith
chain-le-length max_step (s ∷ p ∷ older) = ground (arith, chain-le-length max_step (p ∷ older))

pub chain-invalid :
    (max_step : ℕ) (s : Sample) (older : List Sample)
    → is_sample s ≡ false
    → chain max_step (s ∷ older) ≡ 0
unfolding chain
chain-invalid max_step s [] h = rw h refl
chain-invalid max_step s (p ∷ older) h = rw h refl

pub chain_pos :
    (max_step : ℕ) (s : Sample) (older : List Sample)
    → is_sample s ≡ true
    → 0 < chain max_step (s ∷ older)
unfolding chain
chain_pos max_step s [] h = rw h (omega arith)
chain_pos max_step s (p ∷ older) h = rw h (ground arith)

chain_step :
    (max_step : ℕ) (s p : Sample) (older : List Sample)
    → is_sample s ≡ true
    → is_sample p ≡ true
    → continues max_step p s ≡ true
    → chain max_step (s ∷ p ∷ older) ≡ chain max_step (p ∷ older) + 1
unfolding chain
chain_step max_step s p older h k l = rw (h, k, l) refl

-- Samples, the newest first, each of which continues the one before it.
abbrev pub IsRun : ℕ → List Sample → Type 0
IsRun max_step [] = Unit {0}
IsRun max_step (s ∷ []) = is_sample s ≡ true
IsRun max_step (s ∷ p ∷ older) =
    (is_sample s ≡ true) × (continues max_step p s ≡ true) × IsRun max_step (p ∷ older)

IsRun-is_sample :
    (max_step : ℕ) (s : Sample) (older : List Sample)
    → IsRun max_step (s ∷ older)
    → is_sample s ≡ true
IsRun-is_sample max_step s [] h = h
IsRun-is_sample max_step s (p ∷ older) h = h.0

pub chain-IsRun :
    (max_step : ℕ) (run older : List Sample)
    → IsRun max_step run
    → length run ≤ chain max_step (run ++ older)
chain-IsRun max_step [] older h = omega arith
chain-IsRun max_step (s ∷ []) older h = omega (arith, chain_pos max_step s older h)
chain-IsRun max_step (s ∷ p ∷ run) older h = omega (
  arith,
  chain_step max_step s p (run ++ older) h.0 (IsRun-is_sample max_step p run h.2) h.1,
  chain-IsRun max_step (p ∷ run) older h.2,
)
