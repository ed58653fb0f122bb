-- ===== src/Anchor/Seqlock/Writes.antt =====
-- Where a write stands, and that every store of it keeps to its place.
use fast_livo_ug.Base.{
  ℕ, suc, ◌+◌, ◌*◌, ◌%◌, ◌^◌, ◌≤◌, ◌<◌, ◌≡◌, ◌⊎◌, refl, sym, ap, ◌∙◌, inl, inr, List, [], ◌∷◌, ◌++◌,
  arith, All,
}
use mathlib.Core.Path.{subst}
use fast_livo_ug.Anchor.{
  ImuTimeAnchorState, Anchor, Field, magic, version, writer_epoch, imu_stamp_ns, host_monotonic_ns,
  update_monotonic_ns, clock_source, ready, uncertainty_ns, Store, sequence, field, store,
  store_all, opening, field_stores, write_stores, write_state,
}
use fast_livo_ug.Anchor.Schedule.{Writer, idle, storing}
use fast_livo_ug.Anchor.Snapshot.{Committed, written, odd-mod}

abbrev IsFieldStore : Store → Type 0
IsFieldStore (sequence n) = ⊥
IsFieldStore (field f v) = Unit {0}

store-field-sequence :
    (f : Field) (v : ℕ) (m : ImuTimeAnchorState)
    → (store (field f v) m).write_sequence ≡ m.write_sequence
unfolding store
store-field-sequence magic v m = refl
store-field-sequence version v m = refl
store-field-sequence writer_epoch v m = refl
store-field-sequence imu_stamp_ns v m = refl
store-field-sequence host_monotonic_ns v m = refl
store-field-sequence update_monotonic_ns v m = refl
store-field-sequence clock_source v m = refl
store-field-sequence ready v m = refl
store-field-sequence uncertainty_ns v m = refl

opening_lem : (n : ℕ) → n + 3 < 2 ^ 64 → (n < opening n) × (opening n ≤ n + 2) × (opening n % 2 ≡ 1)
unfolding opening
opening_lem n small = rw (odd-mod n) (ground arith)

-- Where the writer is, with a bound on the sequence after `n` writes begun from `m₀`.
pub data Phase (m₀ : ImuTimeAnchorState) (n : ℕ) (m : ImuTimeAnchorState) (w : Writer)
    : Type 0 where
  resting :
      w ≡ idle → Committed m₀ m → m.write_sequence ≤ m₀.write_sequence + 3 * n → Phase m₀ n m w
  opened :
      (a : Anchor)
      → w ≡ storing (write_stores m.write_sequence a)
      → Committed m₀ m
      → m.write_sequence + 3 ≤ m₀.write_sequence + 3 * n
      → Phase m₀ n m w
  inside :
      (base : ImuTimeAnchorState) (a : Anchor) (fields : List Store)
      → w ≡ storing (fields ++ (sequence (m.write_sequence + 1) ∷ []))
      → All IsFieldStore fields
      → Committed m₀ base
      → store_all (fields ++ (sequence (m.write_sequence + 1) ∷ [])) m ≡ write_state base a
      → m.write_sequence % 2 ≡ 1
      → m.write_sequence + 1 ≤ m₀.write_sequence + 3 * n
      → Phase m₀ n m w
  closed :
      w ≡ storing []
      → Committed m₀ m
      → m.write_sequence ≤ m₀.write_sequence + 3 * n
      → Phase m₀ n m w

pending : Writer → List Store
pending idle = []
pending (storing stores) = stores

storing_inj : {a b : List Store} → storing a ≡ storing b → a ≡ b
unfolding pending
storing_inj e = ap pending e

cons_inj : {x y : Store} {xs ys : List Store} → x ∷ xs ≡ y ∷ ys → (x ≡ y) × (xs ≡ ys)
cons_inj e = (cc, cc)

-- A store either moves the sequence on, or comes while it is odd and leaves it.
abbrev pub Moves : ImuTimeAnchorState → ImuTimeAnchorState → Type 0
Moves m m' =
    (m.write_sequence < m'.write_sequence)
    ⊎ ((m.write_sequence % 2 ≡ 1) × (m'.write_sequence ≡ m.write_sequence))

module _ (m₀ : ImuTimeAnchorState) where
  pub begin-Phase :
      (n : ℕ) (m : ImuTimeAnchorState) (w : Writer) (a : Anchor)
      → w ≡ idle
      → Phase m₀ n m w
      → Phase m₀ (suc n) m (storing (write_stores m.write_sequence a))
  begin-Phase n m w a i (resting e c b) = opened a refl c (omega arith)
  begin-Phase n m w a i (opened a' e c b) = cc
  begin-Phase n m w a i (inside base a' fields e f c t o b) = cc
  begin-Phase n m w a i (closed e c b) = cc

  pub end-Phase :
      (n : ℕ) (m : ImuTimeAnchorState) (w : Writer)
      → w ≡ storing []
      → Phase m₀ n m w
      → Phase m₀ n m idle
  unfolding write_stores
  end-Phase n m w i (resting e c b) = cc
  end-Phase n m w i (opened a e c b) = let k = storing_inj (sym i ∙ e) in cc
  end-Phase n m w i (inside base a [] e f c t o b) = let k = storing_inj (sym i ∙ e) in cc
  end-Phase n m w i (inside base a (x ∷ fields) e f c t o b) = let k = storing_inj (sym i ∙ e) in cc
  end-Phase n m w i (closed e c b) = resting refl c b

  first_store :
      (n : ℕ) (m : ImuTimeAnchorState) (a : Anchor)
      → m₀.write_sequence + 3 * n < 2 ^ 64
      → Committed m₀ m
      → m.write_sequence + 3 ≤ m₀.write_sequence + 3 * n
      → let o = opening m.write_sequence in
        Phase m₀ n
          (store (sequence o) m)
          (storing (field_stores a ++ (sequence ((o + 1) % 2 ^ 64) ∷ [])))
        × Moves m (store (sequence o) m)
  unfolding store write_state
  first_store n m a small c b =
      let (up, near, o) = opening_lem m.write_sequence (omega arith) in
      let e : (opening m.write_sequence + 1) % 2 ^ 64 ≡ opening m.write_sequence + 1 =
        omega arith in
      (
        inside m a (field_stores a) (rw e refl) (omega arith) c
            (ap
              (λ k.
                store_all (field_stores a ++ (sequence k ∷ []))
                  (store (sequence (opening m.write_sequence)) m))
              (sym e))
            o (omega arith),
        inl up,
      )

  last_store :
      (n : ℕ) (m base : ImuTimeAnchorState) (a : Anchor)
      → Committed m₀ base
      → store_all (sequence (m.write_sequence + 1) ∷ []) m ≡ write_state base a
      → m.write_sequence + 1 ≤ m₀.write_sequence + 3 * n
      → Phase m₀ n (store (sequence (m.write_sequence + 1)) m) (storing [])
        × Moves m (store (sequence (m.write_sequence + 1)) m)
  unfolding store store_all
  last_store n m base a c t b =
      (closed refl (subst (Committed m₀) (sym t) (written base a c)) b, inl (omega arith))

  field_store :
      (n : ℕ) (m base : ImuTimeAnchorState) (a : Anchor) (x : Store) (fields : List Store)
      → IsFieldStore x
      → All IsFieldStore fields
      → Committed m₀ base
      → store_all (x ∷ (fields ++ (sequence (m.write_sequence + 1) ∷ []))) m ≡ write_state base a
      → m.write_sequence % 2 ≡ 1
      → m.write_sequence + 1 ≤ m₀.write_sequence + 3 * n
      → Phase m₀ n (store x m) (storing (fields ++ (sequence (m.write_sequence + 1) ∷ [])))
        × Moves m (store x m)
  unfolding store_all store
  field_store n m base a (sequence k) fields h f c t o b = absurd h
  field_store n m base a (field g v) fields h f c t o b =
      let same = store-field-sequence g v m in
      (inside base a fields (rw same refl) f c (rw same t) (rw same o) (rw same b), inr (o, same))

  pub store-Phase :
      (n : ℕ) (m : ImuTimeAnchorState) (w : Writer) (x : Store) (rest : List Store)
      → m₀.write_sequence + 3 * n < 2 ^ 64
      → w ≡ storing (x ∷ rest)
      → Phase m₀ n m w
      → Phase m₀ n (store x m) (storing rest) × Moves m (store x m)
  unfolding write_stores
  store-Phase n m w x rest small i (resting e c b) = cc
  store-Phase n m w x rest small i (opened a e c b) =
      let (ex, er) = cons_inj (storing_inj (sym i ∙ e)) in rw (ex, er) (first_store n m a small c b)
  store-Phase n m w x rest small i (inside base a [] e f c t o b) =
      let (ex, er) = cons_inj (storing_inj (sym i ∙ e)) in rw (ex, er) (last_store n m base a c t b)
  store-Phase n m w x rest small i (inside base a (y ∷ fields) e f c t o b) =
      let (ex, er) = cons_inj (storing_inj (sym i ∙ e)) in
      rw (ex, er) (field_store n m base a y fields f.0 f.1 c t o b)
  store-Phase n m w x rest small i (closed e c b) = let k = storing_inj (sym i ∙ e) in cc

  pub even-Committed :
      (n : ℕ) (m : ImuTimeAnchorState) (w : Writer)
      → m.write_sequence % 2 ≡ 0
      → Phase m₀ n m w
      → Committed m₀ m
  even-Committed n m w h (resting e c b) = c
  even-Committed n m w h (opened a e c b) = c
  even-Committed n m w h (inside base a fields e f c t o b) = absurd (omega arith)
  even-Committed n m w h (closed e c b) = c
