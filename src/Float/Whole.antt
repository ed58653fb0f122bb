-- ===== src/Float/Whole.antt =====
-- An arithmetic on which the code can be run: the tests use it. Nothing of the program.
use fast_livo_ug.Base.{ℕ, ◌+◌, ◌-◌, ◌*◌, ◌/◌, ◌^◌, true, ltb, leb}
use fast_livo_ug.Float.{Float}

-- Whole numbers in place of floating-point ones, with a subtraction that stops at 0.
abbrev pub whole : Float
whole = record {
  Double = ℕ;
  Long = ℕ;
  decimal = λ a b. a / 10 ^ b;
  double = λ n. n;
  add = ◌+◌;
  sub = ◌-◌;
  mul = ◌*◌;
  div = ◌/◌;
  le = leb;
  lt = ltb;
  fabs = λ x. x;
  sqrt = λ x. x;
  neg = λ x. x;
  sin = λ x. x;
  cos = λ x. x;
  hypot = ◌+◌;
  atan2 = ◌+◌;
  ceil = λ x. x;
  is_finite = λ x. true;
  nan = 0;
  truncate = λ x. x;
  long = λ n. n;
  widen = λ x. x;
  narrow = λ x. x;
  add_long = ◌+◌;
  sub_long = ◌-◌;
  mul_long = ◌*◌;
  div_long = ◌/◌;
  le_long = leb;
  lt_long = ltb;
  fabs_long = λ x. x;
  llround = λ x. x;
}
