-- ===== src/Fault/Reference.antt =====
-- What the injector is for, said of each message alone: no counters and no memory of earlier messages.
use fast_livo_ug.Base.{
  ℕ, List, [], ◌∷◌, ◌++◌, Option, none, some, Bool, true, false, not, ◌&&◌, ltb, leb, if◌then◌else◌,
}
use fast_livo_ug.Float.{Float}
use fast_livo_ug.Gnss.{GnssPvtSolnMsg, gps_to_utc_stamp_ns}
use fast_livo_ug.Fault.{GnssFaultMode, passthrough, drop, float, invalid, is_passthrough}

pub record Interval : Type 0 where
  pub mode : GnssFaultMode
  pub start_stamp_ns : ℕ
  pub end_stamp_ns : ℕ

-- What goes out for a message of the interval.
unfoldable pub degrade :
    {F : Float} {Rest : Type 0}
    → GnssFaultMode
    → GnssPvtSolnMsg F Rest
    → List (GnssPvtSolnMsg F Rest)
degrade passthrough m = m ∷ []
degrade drop m = []
degrade float m = record m { valid_fix = true; fix_type = 3; diff_soln = true; carr_soln = 1 } ∷ []
degrade invalid m =
    record m { valid_fix = false; fix_type = 0; diff_soln = false; carr_soln = 0 } ∷ []

unfoldable pub covers : Interval → Option ℕ → Bool
covers i none = false
covers i (some t) = not (is_passthrough i.mode) && leb i.start_stamp_ns t && ltb t i.end_stamp_ns

-- The stamp, if the message lies in the interval.
unfoldable pub fault_stamp : Interval → Option ℕ → List ℕ
unfolding covers
fault_stamp i none = []
fault_stamp i (some t) = if covers i (some t) then t ∷ [] else []

-- The last of the list, or `d`.
abbrev pub last_or : ℕ → List ℕ → ℕ
last_or d [] = d
last_or d (t ∷ ts) = last_or t ts

module _ (F : Float) (Rest : Type 0) (from_sec : Float.Double F → ℕ) where
  abbrev pub stamp_of : GnssPvtSolnMsg F Rest → Option ℕ
  stamp_of m = gps_to_utc_stamp_ns F from_sec m.week m.tow

  -- What goes out for a message.
  unfoldable pub outcome : Interval → GnssPvtSolnMsg F Rest → List (GnssPvtSolnMsg F Rest)
  unfolding degrade covers
  outcome i m = if covers i (stamp_of m) then degrade i.mode m else m ∷ []

  unfoldable pub outcomes : Interval → List (GnssPvtSolnMsg F Rest) → List (GnssPvtSolnMsg F Rest)
  outcomes i [] = []
  outcomes i (m ∷ messages) = outcome i m ++ outcomes i messages

  -- The stamps of the messages in the interval, in order.
  unfoldable pub fault_stamps : Interval → List (GnssPvtSolnMsg F Rest) → List ℕ
  fault_stamps i [] = []
  fault_stamps i (m ∷ messages) = fault_stamp i (stamp_of m) ++ fault_stamps i messages
