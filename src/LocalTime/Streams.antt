-- ===== src/LocalTime/Streams.antt =====
-- `StreamMonotonicGate` of local_time.cpp: what is accepted per stream.
use fast_livo_ug.Base.{
  ℕ, ◌<◌, ◌≡◌, refl, ◌∙◌, inl, inr, List, [], ◌∷◌, ◌++◌, Option, none, some, Bool, true, false,
  ◌&&◌, arith, leb, ◌==◌, ==_iff, if◌then◌else◌, length, Bool-cases,
}
use mathlib.Core.Path.{subst}
use fast_livo_ug.LocalTime.{
  Entry, StreamMonotonicGate, max_entries, Found, missing, stale, updated, keep_entry, find_entry,
  finish_accept, enter_session, accept,
}

-- The last stamp that a stream's entry holds.
pub last_stamp : List Entry → ℕ → Option ℕ
last_stamp [] stream = none
last_stamp (e ∷ entries) stream =
    if e.stream_id == stream then some e.stamp_ns else last_stamp entries stream

keep_entry-updated :
    (e : Entry) (r : Found) (after : List Entry)
    → keep_entry e r ≡ updated after
    → (rest : List Entry) × (r ≡ updated rest) × (after ≡ e ∷ rest)
keep_entry-updated e missing after h = cc
keep_entry-updated e stale after h = cc
keep_entry-updated e (updated rest) after h = (rest, refl, cc)

newer_updated :
    (b : Bool) (x after : List Entry)
    → (if b then stale else updated x) ≡ updated after
    → (b ≡ false) × (after ≡ x)
newer_updated true x after h = cc
newer_updated false x after h = (refl, cc)

-- An update sets the stream's stamp, which was earlier, and no other stream's.
find_entry-updated :
    (entries after : List Entry) (stream stamp : ℕ)
    → find_entry entries stream stamp ≡ updated after
    → (k : ℕ)
    → (last_stamp after k ≡ (if stream == k then some stamp else last_stamp entries k))
      × ((u : ℕ) → last_stamp entries stream ≡ some u → u < stamp)
unfolding find_entry last_stamp
find_entry-updated [] after stream stamp h k = cc
find_entry-updated (e ∷ entries) after stream stamp h k =
    elim (Bool-cases (e.stream_id == stream)) [
      | inl here ↦
          let (later, e') = newer_updated (leb stamp e.stamp_ns) _ after (rw here at h) in
          (rw e' (ground arith), λ u q. ground arith)
      | inr other ↦
          let (rest, found, e') = keep_entry-updated e _ after (rw other at h) in
          let ih = find_entry-updated entries rest stream stamp found k in
          (rw e' (ground (arith, ih.0)), λ u q. ih.1 u (rw other at q))
    ]

find_entry-missing :
    (entries : List Entry) (stream stamp : ℕ)
    → find_entry entries stream stamp ≡ missing
    → last_stamp entries stream ≡ none
unfolding find_entry last_stamp
find_entry-missing [] stream stamp h = refl
find_entry-missing (e ∷ entries) stream stamp h =
    ground (arith, find_entry-missing entries stream stamp)

last_stamp-append :
    (entries : List Entry) (stream stamp k : ℕ)
    → last_stamp entries stream ≡ none
    → last_stamp (entries ++ (record { stream_id = stream; stamp_ns = stamp } ∷ [])) k
      ≡ (if stream == k then some stamp else last_stamp entries k)
unfolding last_stamp
last_stamp-append [] stream stamp k h = refl
last_stamp-append (e ∷ entries) stream stamp k h =
    ground (arith, last_stamp-append entries stream stamp k)

-- The effect of a call on the entries of its session.
abbrev Effect : List Entry → ℕ → ℕ → StreamMonotonicGate × Bool → Type 0
Effect before stream stamp (g', accepted) =
    (accepted ≡ true
      → (k : ℕ)
      → (last_stamp g'.entries k ≡ (if stream == k then some stamp else last_stamp before k))
        × ((u : ℕ) → last_stamp before stream ≡ some u → u < stamp))
    × (accepted ≡ false → g'.entries ≡ before)

finish_accept-Effect :
    (g : StreamMonotonicGate) (stream stamp : ℕ) (f : Found)
    → find_entry g.entries stream stamp ≡ f
    → Effect g.entries stream stamp (finish_accept g stream stamp f)
unfolding finish_accept
finish_accept-Effect g stream stamp stale h = (λ e. cc, λ e. refl)
finish_accept-Effect g stream stamp (updated after) h =
    (λ e k. find_entry-updated g.entries after stream stamp h k, λ e. cc)
finish_accept-Effect g stream stamp missing h =
    elim (Bool-cases (leb max_entries (length g.entries))) [
      | inl full ↦ rw full (λ e. cc, λ e. refl)
      | inr room ↦ rw room (
        λ e k. (last_stamp-append g.entries stream stamp k none_yet, λ u q. cc (none_yet)),
        λ e. cc,
      )
    ]
  where
    none_yet : last_stamp g.entries stream ≡ none
    none_yet = find_entry-missing g.entries stream stamp h

-- A call that is accepted sets the stream's stamp, which was earlier in this session, and no
-- other; a call that is refused leaves the entries of the session as they were.
pub accept_lem :
    (g : StreamMonotonicGate) (session stream stamp : ℕ)
    → Effect (enter_session g session).entries stream stamp (accept g session stream stamp)
unfolding accept
accept_lem g session stream stamp =
    finish_accept-Effect (enter_session g session) stream stamp _ refl

session-finish_accept :
    (g : StreamMonotonicGate) (stream stamp : ℕ) (f : Found)
    → ((finish_accept g stream stamp f).0.session_id ≡ g.session_id)
      × ((finish_accept g stream stamp f).0.have_session ≡ g.have_session)
unfolding finish_accept
session-finish_accept g stream stamp stale = (refl, refl)
session-finish_accept g stream stamp (updated after) = (refl, refl)
session-finish_accept g stream stamp missing = ground arith

session-enter_session :
    (g : StreamMonotonicGate) (session : ℕ)
    → ((enter_session g session).session_id ≡ session)
      × ((enter_session g session).have_session ≡ true)
unfolding enter_session
session-enter_session g session = ground arith

-- A session that goes on keeps its entries.
enter_session_again :
    (g : StreamMonotonicGate) (session : ℕ)
    → g.session_id ≡ session
    → g.have_session ≡ true
    → enter_session g session ≡ g
unfolding enter_session
enter_session_again g session p q = ground arith

-- The stamps of stream `k` that are accepted, over the calls of one session.
unfoldable pub accepted_stamps : StreamMonotonicGate → ℕ → ℕ → List (ℕ × ℕ) → List ℕ
accepted_stamps g session k [] = []
accepted_stamps g session k ((stream, stamp) ∷ calls) =
    let (g', ok) = accept g session stream stamp in
    let rest = accepted_stamps g' session k calls in
    if ok && stream == k then stamp ∷ rest else rest

abbrev After : Option ℕ → ℕ → Type 0
After none x = Unit {0}
After (some u) x = u < x

-- Each number is greater than the one before it.
abbrev pub IsIncreasing : Option ℕ → List ℕ → Type 0
IsIncreasing bound [] = Unit {0}
IsIncreasing bound (x ∷ xs) = After bound x × IsIncreasing (some x) xs

-- The next call of the session finds the entries that this one left.
enter_session-accept :
    (g : StreamMonotonicGate) (session stream stamp : ℕ)
    → let g' = (accept g session stream stamp).0 in enter_session g' session ≡ g'
unfolding accept
enter_session-accept g session stream stamp =
    let e = session-enter_session g session in
    let f =
      session-finish_accept (enter_session g session) stream stamp
        (find_entry (enter_session g session).entries stream stamp) in
    enter_session_again _ session (f.0 ∙ e.0) (f.1 ∙ e.1)

After-last : (o : Option ℕ) (x : ℕ) → ((u : ℕ) → o ≡ some u → u < x) → After o x
After-last none x h = tt
After-last (some u) x h = h u refl

-- Over any calls of StreamMonotonicGate::accept in one session, the accepted stamps of every
-- stream strictly increase, from the last stamp that the session has for it.
pub accepted_stamps-IsIncreasing :
    (calls : List (ℕ × ℕ)) (g : StreamMonotonicGate) (session k : ℕ)
    → IsIncreasing
        (last_stamp (enter_session g session).entries k)
        (accepted_stamps g session k calls)
unfolding accepted_stamps
accepted_stamps-IsIncreasing [] g session k = tt
accepted_stamps-IsIncreasing ((stream, stamp) ∷ calls) g session k =
    let call = accept g session stream stamp in
    let effect = accept_lem g session stream stamp in
    let ih =
      rw (enter_session-accept g session stream stamp) at
        (accepted_stamps-IsIncreasing calls call.0 session k) in
    elim (Bool-cases call.1) [
      | inr refused ↦ rw refused (rw (effect.1 refused) at ih)
      | inl done ↦ elim (Bool-cases (stream == k)) [
        | inl same ↦
            rw (done, same)
              (
                subst (λ (j : ℕ). After (last_stamp (enter_session g session).entries j) stamp)
                    ((==_iff stream k).0 same) (After-last _ stamp (effect.0 done k).1),
                rw ((effect.0 done k).0, same) at ih,
              )
        | inr other ↦ rw (done, other) (rw ((effect.0 done k).0, other) at ih)
      ]
    ]
