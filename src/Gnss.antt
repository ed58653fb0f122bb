-- ===== src/Gnss.antt =====
-- The GNSS solution message and its time: `gpsWeekTowToUnixUtc` of
-- src/gnss_serial_driver/src/gnss_math.cpp, and `gpsToUtcStampNs` of src/FAST_LIVO2/src/gnss_fault_injector.cpp.
pub mod Geodesy
use fast_livo_ug.Base.{
  ℕ, ◌-◌, ◌^◌, List, [], ◌∷◌, Option, none, some, Bool, not, ◌||◌, ltb, ◌==◌, if◌then◌else◌,
}
use fast_livo_ug.Float.{Float}

-- `gnss_comm::GnssPVTSolnMsg`; `Rest` is its fields that the code only copies.
pub record GnssPvtSolnMsg (F : Float) (Rest : Type 0) : Type 0 where
  pub week : ℕ
  pub tow : Float.Double F
  pub fix_type : ℕ
  pub valid_fix : Bool
  pub diff_soln : Bool
  pub carr_soln : ℕ
  pub rest : Rest

pub record LeapSecond : Type 0 where
  pub utc_effective_unix_seconds : ℕ
  pub gps_minus_utc_seconds : ℕ

abbrev leap : ℕ → ℕ → LeapSecond
leap t n = record { utc_effective_unix_seconds = t; gps_minus_utc_seconds = n }

-- `kLeapSeconds`
abbrev pub leap_seconds : List LeapSecond
leap_seconds =
    leap 1483228800 18
    ∷ leap 1435708800 17
    ∷ leap 1341100800 16
    ∷ leap 1230768000 15
    ∷ leap 1136073600 14
    ∷ leap 915148800 13
    ∷ leap 867715200 12
    ∷ leap 820454400 11
    ∷ leap 773020800 10
    ∷ leap 741484800 9
    ∷ leap 709948800 8
    ∷ leap 662688000 7
    ∷ leap 631152000 6
    ∷ leap 567993600 5
    ∷ leap 489024000 4
    ∷ leap 425865600 3
    ∷ leap 394329600 2
    ∷ leap 362793600 1
    ∷ []

-- `kMaxSupportedGpsWeek`
abbrev pub max_supported_gps_week : ℕ
max_supported_gps_week = 7000

module _ (F : Float) where
  open F use {Double, decimal, double, add, sub, mul, le, lt, is_finite, nan}

  abbrev pub gps_week_seconds : Double
  gps_week_seconds = decimal 604800 0

  abbrev pub gps_epoch_unix_seconds : Double
  gps_epoch_unix_seconds = decimal 315964800 0

  -- The loop over the table.
  unfoldable pub find_leap : List LeapSecond → Double → Double
  find_leap [] gps_as_unix = gps_as_unix
  find_leap (l ∷ leaps) gps_as_unix =
      let later = find_leap leaps gps_as_unix in
      let utc = sub gps_as_unix (double l.gps_minus_utc_seconds) in
      if le (decimal l.utc_effective_unix_seconds 0) utc then utc else later

  -- The test that both functions make of a time of week.
  abbrev pub bad_tow : Double → Bool
  bad_tow tow = not (is_finite tow) || lt tow (decimal 0 0) || le gps_week_seconds tow

  unfoldable pub gps_week_tow_to_unix_utc : ℕ → Double → Double
  unfolding find_leap
  gps_week_tow_to_unix_utc week tow =
      if bad_tow tow
      then nan
      else find_leap leap_seconds
          (add (add gps_epoch_unix_seconds (mul (double week) gps_week_seconds)) tow)

  -- `from_sec` is `ros::Time::fromSec` with `toNSec`; `isZero` says that this is 0.
  unfoldable pub gps_to_utc_stamp_ns : (Double → ℕ) → ℕ → Double → Option ℕ
  unfolding gps_week_tow_to_unix_utc
  gps_to_utc_stamp_ns from_sec week tow =
      let unix_utc = gps_week_tow_to_unix_utc week tow in
      if week == 0 || ltb max_supported_gps_week week || bad_tow tow
      then none
      else if not (is_finite unix_utc)
          || le unix_utc (decimal 0 0)
          || lt (double (2 ^ 32 - 1)) unix_utc
      then none
      else if from_sec unix_utc == 0
      then none
      else some (from_sec unix_utc)
