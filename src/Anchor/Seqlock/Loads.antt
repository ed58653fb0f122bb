-- ===== src/Anchor/Seqlock/Loads.antt =====
-- What an attempt has loaded, whatever the writer stores in between.
use fast_livo_ug.Base.{
  ℕ, zero, suc, ◌%◌, ◌<◌, ◌≡◌, ◌⊎◌, refl, sym, ap, ◌∙◌, inl, inr, [], ◌∷◌, Option, none, some, true,
  false, not, ◌||◌, arith, ◌==◌, if◌then◌else◌, Bool-cases,
}
use fast_livo_ug.Anchor.{
  ImuTimeAnchorState, ImuTimeAnchorSnapshot, odd, ImuTimeAnchorReadResult, inconsistent,
  no_snapshot, all_fields, classify, Reader, attempt, loading, returned, end_attempt, read_step,
}
use fast_livo_ug.Anchor.Schedule.{Writer}
use fast_livo_ug.Anchor.Snapshot.{Committed, load_all, snapshot_of, odd-mod}
use fast_livo_ug.Anchor.Seqlock.Writes.{Phase, Moves, even-Committed}

module _ (m₀ : ImuTimeAnchorState) where
  -- What a returned snapshot is.
  abbrev pub Outcome : ImuTimeAnchorReadResult → Option ImuTimeAnchorSnapshot → Type 0
  Outcome r none = r ≡ inconsistent
  Outcome r (some c) =
      (m : ImuTimeAnchorState) × Committed m₀ m × (c ≡ snapshot_of m) × (r ≡ classify c)

  -- An attempt has loaded what the memory still holds, or the sequence has moved on.
  abbrev pub View : ImuTimeAnchorState → Reader → Type 0
  View m (attempt left) = Unit {0}
  View m (loading left begin fields c) =
      (begin % 2 ≡ 0)
      × (((m.write_sequence ≡ begin) × (load_all fields m c ≡ load_all all_fields m no_snapshot))
          ⊎ (begin < m.write_sequence))
  View m (returned r o) = Outcome r o

  pub moved-View : (m m' : ImuTimeAnchorState) (r : Reader) → Moves m m' → View m r → View m' r
  moved-View m m' (attempt left) mv v = tt
  moved-View m m' (loading left begin fields c) (inl up) (e, inl (k, l)) = (e, inr (omega arith))
  moved-View m m' (loading left begin fields c) (inr (o, same)) (e, inl (k, l)) =
      absurd (omega arith)
  moved-View m m' (loading left begin fields c) (inl up) (e, inr past) = (e, inr (omega arith))
  moved-View m m' (loading left begin fields c) (inr (o, same)) (e, inr past) =
      (e, inr (omega arith))
  moved-View m m' (returned r o) mv v = v

  end-View :
      (m : ImuTimeAnchorState) (left begin : ℕ) (c : ImuTimeAnchorSnapshot)
      → Committed m₀ m
      → m.write_sequence ≡ begin
      → begin % 2 ≡ 0
      → c ≡ load_all all_fields m no_snapshot
      → View m (end_attempt left begin m.write_sequence c)
  unfolding end_attempt snapshot_of
  end-View m left begin c k e even l =
      let candidate : ImuTimeAnchorSnapshot = record c { write_sequence = m.write_sequence } in
      elim (not (begin == m.write_sequence) || odd m.write_sequence)
        as (λ b.
          View m (if b then attempt left else returned (classify candidate) (some candidate))) [
            | true ↦ tt
            | false ↦ (
              m,
              k,
              ap {A = ImuTimeAnchorSnapshot} (λ z. record z { write_sequence = m.write_sequence })
                  l,
              refl,
            )
          ]

  past-View :
      (m : ImuTimeAnchorState) (left begin : ℕ) (c : ImuTimeAnchorSnapshot)
      → begin < m.write_sequence
      → View m (end_attempt left begin m.write_sequence c)
  unfolding end_attempt
  past-View m left begin c h = let e : (begin == m.write_sequence) ≡ false = ground arith in rw e tt

  start-View :
      (m : ImuTimeAnchorState) (left : ℕ)
      → View m (
          if odd m.write_sequence
          then attempt left
          else loading left m.write_sequence all_fields no_snapshot)
  start-View m left = elim (Bool-cases (odd m.write_sequence)) [
    | inl held ↦ rw held tt
    | inr free ↦ rw free (ground (arith, sym (odd-mod m.write_sequence) ∙ free), inl (refl, refl))
  ]

  pub read-View :
      (n : ℕ) (m : ImuTimeAnchorState) (w : Writer) (r : Reader)
      → Phase m₀ n m w
      → View m r
      → View m (read_step m r)
  unfolding read_step
  read-View n m w (attempt zero) p v = refl
  read-View n m w (attempt (suc left)) p v = start-View m left
  read-View n m w (loading left begin [] c) p (e, inl (k, l)) =
      end-View m left begin c (even-Committed m₀ n m w (omega arith) p) k e (unfold load_all in l)
  read-View n m w (loading left begin [] c) p (e, inr past) = past-View m left begin c past
  read-View n m w (loading left begin (f ∷ fields) c) p (e, inl (k, l)) =
      (e, inl (k, unfold load_all in l))
  read-View n m w (loading left begin (f ∷ fields) c) p (e, inr past) = (e, inr past)
  read-View n m w (returned r o) p v = v
