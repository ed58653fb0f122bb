-- ===== src/Float.antt =====
-- The floating-point numbers that the code computes with, as an interface: the operations it calls,
-- with no law.
pub mod Whole
pub mod Fixed
use Prim.Native.Nat.{ℕ}
use mathlib.Core.Bool.{Bool}

-- `Double` is `double` and `Long` is `long double`.
pub record Float : Type 1 where
  pub Double : Type 0
  pub Long : Type 0
  -- `decimal a b` is the literal a / 10^b, and `double` the conversion of an integer.
  pub decimal : ℕ → ℕ → Double
  pub double : ℕ → Double
  pub add : Double → Double → Double
  pub sub : Double → Double → Double
  pub mul : Double → Double → Double
  pub div : Double → Double → Double
  pub le : Double → Double → Bool
  pub lt : Double → Double → Bool
  pub fabs : Double → Double
  pub sqrt : Double → Double
  pub neg : Double → Double
  pub sin : Double → Double
  pub cos : Double → Double
  pub hypot : Double → Double → Double
  pub atan2 : Double → Double → Double
  pub ceil : Double → Double
  pub is_finite : Double → Bool
  -- `std::numeric_limits<double>::quiet_NaN()`.
  pub nan : Double
  -- `static_cast<uint64_t>`.
  pub truncate : Double → ℕ
  pub long : ℕ → Long
  pub widen : Double → Long
  pub narrow : Long → Double
  pub add_long : Long → Long → Long
  pub sub_long : Long → Long → Long
  pub mul_long : Long → Long → Long
  pub div_long : Long → Long → Long
  pub le_long : Long → Long → Bool
  pub lt_long : Long → Long → Bool
  pub fabs_long : Long → Long
  -- `static_cast<uint64_t>(std::llround(value))`.
  pub llround : Long → ℕ
