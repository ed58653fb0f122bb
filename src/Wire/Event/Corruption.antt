-- ===== src/Wire/Event/Corruption.antt =====
-- `decodeWireEvent` on frames that differ in one byte.
use fast_livo_ug.Base.{
  ℕ, suc, ◌+◌, ◌-◌, ◌≤◌, ◌<◌, ◌≡◌, ◌≢◌, sym, ap, ◌∙◌, List, [], ◌∷◌, ◌++◌, arith, length, take,
  drop, All, All-take, All-drop, length-append, length-drop, take-append_front, drop-append_front,
  take-append_back, drop-append_back,
}
use fast_livo_ug.Wire.Types.{WireEvent, ok}
use fast_livo_ug.Wire.Bytes.{IsByte, get32}
use fast_livo_ug.Wire.Bytes.RoundTrip.{get32-value}
use fast_livo_ug.Wire.Crc.{crc32c}
use fast_livo_ug.Wire.Crc.Detect.{crc32c_detects}
use fast_livo_ug.Wire.Event.{parse_frame}
use fast_livo_ug.Wire.Event.Checks.{IsFrame, parse_frame-inv}
use native.Mathlib.Decide.{dec_lt}

-- `get32` tells two four-byte strings apart that differ in one byte.
get32_detects :
    (front back : List ℕ) (x y : ℕ)
    → length (front ++ (x ∷ back)) ≡ 4
    → All IsByte (front ++ (x ∷ back))
    → IsByte y
    → get32 (front ++ (x ∷ back)) ≡ get32 (front ++ (y ∷ back))
    → x ≡ y
get32_detects [] (b ∷ c ∷ d ∷ []) x y n h hy e =
    omega (arith, get32-value x b c d [] h, get32-value y b c d [] (hy, h.1))
get32_detects (a ∷ []) (c ∷ d ∷ []) x y n h hy e =
    omega (arith, get32-value a x c d [] h, get32-value a y c d [] (h.0, (hy, h.1.1)))
get32_detects (a ∷ b ∷ []) (d ∷ []) x y n h hy e =
    omega (arith, get32-value a b x d [] h, get32-value a b y d [] (h.0, (h.1.0, (hy, h.1.1.1))))
get32_detects (a ∷ b ∷ c ∷ []) [] x y n h hy e = omega (
  arith,
  get32-value a b c x [] h,
  get32-value a b c y [] (h.0, (h.1.0, (h.1.1.0, (hy, h.1.1.1.1)))),
)
get32_detects front back x y n h hy e = absurd (omega (arith, length-append front (x ∷ back)))

module _ (front back : List ℕ) (x y : ℕ) (h : All IsByte (front ++ (x ∷ back))) (hy : IsByte y)
    (ne : x ≢ y) (m : ℕ) (size : length (front ++ (x ∷ back)) ≡ m + 4) where
  -- The change is in the checksummed part.
  changed_body :
      length front < m
      → crc32c (take m (front ++ (x ∷ back))) ≡ get32 (drop m (front ++ (x ∷ back)))
      → crc32c (take m (front ++ (y ∷ back))) ≢ get32 (drop m (front ++ (y ∷ back)))
  changed_body lt before after = crc32c_detects front (take k back) x y bytes hy ne (
      ap crc32c (sym (cut x))
      ∙ before
      ∙ ap get32 (rest x ∙ sym (rest y))
      ∙ sym after
      ∙ ap crc32c (cut y))
    where
      k : ℕ
      k = m - length front - 1

      split : m ≡ length front + suc k
      split = omega arith

      cut : (z : ℕ) → take m (front ++ (z ∷ back)) ≡ front ++ (z ∷ take k back)
      cut z = take-append_back m (suc k) front (z ∷ back) split

      rest : (z : ℕ) → drop m (front ++ (z ∷ back)) ≡ drop k back
      rest z = drop-append_back m (suc k) front (z ∷ back) split

      bytes : All IsByte (front ++ (x ∷ take k back))
      bytes = rw (cut x) at (All-take IsByte m (front ++ (x ∷ back)) h)

  -- The change is in the checksum.
  changed_crc :
      m ≤ length front
      → crc32c (take m (front ++ (x ∷ back))) ≡ get32 (drop m (front ++ (x ∷ back)))
      → crc32c (take m (front ++ (y ∷ back))) ≢ get32 (drop m (front ++ (y ∷ back)))
  changed_crc le before after = ne (
      get32_detects (drop m front) back x y four bytes hy (
        ap get32 (sym (rest x))
        ∙ sym before
        ∙ ap crc32c (cut x ∙ sym (cut y))
        ∙ after
        ∙ ap get32 (rest y)))
    where
      cut : (z : ℕ) → take m (front ++ (z ∷ back)) ≡ take m front
      cut z = take-append_front m front (z ∷ back) le

      rest : (z : ℕ) → drop m (front ++ (z ∷ back)) ≡ drop m front ++ (z ∷ back)
      rest z = drop-append_front m front (z ∷ back) le

      four : length (drop m front ++ (x ∷ back)) ≡ 4
      four = ap length (sym (rest x)) ∙ omega (arith, length-drop m (front ++ (x ∷ back)))

      bytes : All IsByte (drop m front ++ (x ∷ back))
      bytes = rw (rest x) at (All-drop IsByte m (front ++ (x ∷ back)) h)

  mismatch :
      crc32c (take m (front ++ (x ∷ back))) ≡ get32 (drop m (front ++ (x ∷ back)))
      → crc32c (take m (front ++ (y ∷ back))) ≢ get32 (drop m (front ++ (y ∷ back)))
  mismatch = elim (dec_lt (length front) m) [
    | yes lt ↦ changed_body lt
    | no ge ↦ changed_crc (omega arith)
  ]

-- If decodeWireEvent accepts a decoded frame of bytes, it accepts no frame of bytes that differs
-- from it in exactly one byte.
pub parse_frame_rejects :
    (front back : List ℕ) (x y : ℕ) (e e' : WireEvent)
    → All IsByte (front ++ (x ∷ back))
    → IsByte y
    → x ≢ y
    → parse_frame (front ++ (x ∷ back)) ≡ ok e
    → parse_frame (front ++ (y ∷ back)) ≢ ok e'
parse_frame_rejects front back x y e e' h hy ne before after =
    mismatch front back x y h hy ne m (omega (arith, f.long)) f.crc (rw same at g.crc)
  where
    f : IsFrame (front ++ (x ∷ back))
    f = parse_frame-inv _ e before

    g : IsFrame (front ++ (y ∷ back))
    g = parse_frame-inv _ e' after

    m : ℕ
    m = length (front ++ (x ∷ back)) - 4

    same : length (front ++ (y ∷ back)) ≡ length (front ++ (x ∷ back))
    same = omega (arith, length-append front (x ∷ back), length-append front (y ∷ back))
