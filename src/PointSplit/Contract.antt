-- ===== src/PointSplit/Contract.antt =====
-- What the split of the points is, without a loop over both outputs.
use fast_livo_ug.Base.{
  ◌≡◌, refl, ap, ◌∙◌, List, [], ◌∷◌, ◌++◌, append-nil, append_assoc, none, some, Bool, true, false,
  not, ◌||◌, ◌&&◌, arith, if◌then◌else◌,
}
use fast_livo_ug.Float.{Float}
use fast_livo_ug.PointSplit.{
  Point, Interval, InvalidArgument, Split, duration_ms, early_point, late_point, offset_ms,
  split_points, append_livo_time_split,
}

-- Whether every point has a finite time.
unfoldable pub all_finite : {F : Float} {Rest : Type 0} → Interval F → List (Point F Rest) → Bool
all_finite i [] = true
all_finite {F} i (p ∷ input) =
    let rest = all_finite i input in Float.is_finite F (offset_ms i p) && rest

-- Whether the call is one that may split.
unfoldable pub is_split : {F : Float} → Bool → Interval F → Bool
is_split {F} aliased i =
    Float.is_finite F i.source_epoch_s
    && Float.is_finite F i.begin_s
    && Float.is_finite F i.end_s
    && not (Float.le F i.end_s i.begin_s)
    && not aliased

guarded {ℓ} :
    {A : Type ℓ} (s b e empty aliased : Bool) (x y z : A)
    → y ≡ z
    → (if not s || not b || not e || empty || aliased then x else y)
      ≡ (if s && b && e && not empty && not aliased then z else x)
guarded s b e empty aliased x y z h = ground (arith, h)

module _ {F : Float} {Rest : Type 0} (float : Float.Double F → Float.Double F) where
  open F use {is_finite, lt}

  -- The points before the end of the interval, of those before the first without a finite time.
  unfoldable pub early_points : Interval F → List (Point F Rest) → List (Point F Rest)
  early_points i [] = []
  early_points i (p ∷ input) =
      let rest = early_points i input in
      if not (is_finite (offset_ms i p))
      then []
      else if lt (offset_ms i p) (duration_ms i)
      then early_point float i p ∷ rest
      else rest

  -- The other ones of them.
  unfoldable pub late_points : Interval F → List (Point F Rest) → List (Point F Rest)
  late_points i [] = []
  late_points i (p ∷ input) =
      let rest = late_points i input in
      if not (is_finite (offset_ms i p))
      then []
      else if lt (offset_ms i p) (duration_ms i)
      then rest
      else late_point float i p ∷ rest

  unfoldable pub split_of :
      Interval F → List (Point F Rest) → List (Point F Rest) → List (Point F Rest) → Split F Rest
  split_of i input current pending = record {
    current = current ++ early_points i input;
    pending = pending ++ late_points i input;
    thrown = if all_finite i input then none else some InvalidArgument.non_finite_timestamp;
  }

  abbrev outcome : Bool → List (Point F Rest) → List (Point F Rest) → Split F Rest
  outcome ok current pending = record {
    current = current;
    pending = pending;
    thrown = if ok then none else some InvalidArgument.non_finite_timestamp;
  }

  split_step :
      (finite early ok : Bool) (e l : Point F Rest) (current pending es ls : List (Point F Rest))
      (r : Split F Rest)
      → r
        ≡ outcome ok
            ((if early then current ++ (e ∷ []) else current) ++ es)
            ((if early then pending else pending ++ (l ∷ [])) ++ ls)
      → ◌≡◌ {A = Split F Rest} (if not finite then outcome false current pending else r) (
          outcome
            (finite && ok)
            (current ++ (if not finite then [] else if early then e ∷ es else es))
            (pending ++ (if not finite then [] else if early then ls else l ∷ ls)))
  split_step false early ok e l current pending es ls r h =
      rw (append-nil current, append-nil pending) refl
  split_step true true ok e l current pending es ls r h =
      h ∙ ap (λ c. outcome ok c (pending ++ ls)) (append_assoc current (e ∷ []) es)
  split_step true false ok e l current pending es ls r h =
      h ∙ ap (λ p. outcome ok (current ++ es) p) (append_assoc pending (l ∷ []) ls)

  split_points-of :
      (i : Interval F) (input current pending : List (Point F Rest))
      → split_points float i input current pending ≡ split_of i input current pending
  unfolding split_points split_of early_points late_points all_finite
  split_points-of i [] current pending = rw (append-nil current, append-nil pending) refl
  split_points-of i (p ∷ input) current pending =
      let early = lt (offset_ms i p) (duration_ms i) in
      split_step (is_finite (offset_ms i p)) early (all_finite i input) (early_point float i p)
        (late_point float i p) current pending (early_points i input) (late_points i input) _
        (split_points-of i input
          (if early then current ++ (early_point float i p ∷ []) else current)
          (if early then pending else pending ++ (late_point float i p ∷ [])))

  -- appendLivoTimeSplit throws and leaves both outputs as they are if a time is not finite, the
  -- interval is empty or two containers are one. Otherwise it appends to current the points before
  -- the end of the interval and to pending the other ones, in order and with their shifted times,
  -- of those before the first point with a time that is not finite, and throws exactly if there is
  -- such a point.
  pub append_livo_time_split_lem :
      (aliased : Bool) (i : Interval F) (input current pending : List (Point F Rest))
      → append_livo_time_split float aliased i input current pending ≡ (
          if is_split aliased i then split_of i input current pending else record {
            current = current;
            pending = pending;
            thrown = some InvalidArgument.invalid_split;
          })
  unfolding append_livo_time_split is_split
  append_livo_time_split_lem aliased i input current pending =
      guarded (is_finite i.source_epoch_s) (is_finite i.begin_s) (is_finite i.end_s)
        (Float.le F i.end_s i.begin_s) aliased _ _ _ (split_points-of i input current pending)
