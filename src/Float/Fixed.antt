-- ===== src/Float/Fixed.antt =====
-- A signed arithmetic on which the code can be run: the tests use it. Nothing of the program.
use fast_livo_ug.Base.{
  ℕ, ◌+◌, ◌-◌, ◌*◌, ◌/◌, ◌^◌, Bool, true, false, not, ◌&&◌, ◌||◌, ltb, leb, ◌==◌, if◌then◌else◌,
}
use fast_livo_ug.Float.{Float}

-- A multiple of 10^-9, with its sign.
pub record Signed : Type 0 where
  pub minus : Bool
  pub units : ℕ

abbrev unit : ℕ
unit = 10 ^ 9

abbrev plus : ℕ → Signed
plus n = record { minus = false; units = n }

abbrev negate : Signed → Signed
negate x = record x { minus = not x.minus }

abbrev sum : Signed → Signed → Signed
sum x y =
    if x.minus && y.minus || not x.minus && not y.minus
    then record x { units = x.units + y.units }
    else if leb y.units x.units
    then record x { units = x.units - y.units }
    else record y { units = y.units - x.units }

abbrev product : Signed → Signed → Signed
product x y = record {
  minus = x.minus && not y.minus || not x.minus && y.minus;
  units = x.units * y.units / unit;
}

abbrev quotient : Signed → Signed → Signed
quotient x y = record {
  minus = x.minus && not y.minus || not x.minus && y.minus;
  units = x.units * unit / y.units;
}

abbrev below : Signed → Signed → Bool
below x y =
    if x.units == 0 && y.units == 0
    then false
    else if x.minus
    then (if y.minus then ltb y.units x.units else true)
    else if y.minus
    then false
    else ltb x.units y.units

-- Signed fixed-point numbers in place of floating-point ones.
abbrev pub fixed : Float
fixed = record {
  Double = Signed;
  Long = Signed;
  decimal = λ a b. plus (a * unit / 10 ^ b);
  double = λ n. plus (n * unit);
  add = sum;
  sub = λ x y. sum x (negate y);
  mul = product;
  div = quotient;
  le = λ x y. not (below y x);
  lt = below;
  fabs = λ x. record x { minus = false };
  sqrt = λ x. x;
  neg = negate;
  sin = λ x. x;
  cos = λ x. plus unit;
  hypot = sum;
  atan2 = λ x y. x;
  ceil = λ x. x;
  is_finite = λ x. true;
  nan = plus 0;
  truncate = λ x. x.units / unit;
  long = λ n. plus (n * unit);
  widen = λ x. x;
  narrow = λ x. x;
  add_long = sum;
  sub_long = λ x y. sum x (negate y);
  mul_long = product;
  div_long = quotient;
  le_long = λ x y. not (below y x);
  lt_long = below;
  fabs_long = λ x. record x { minus = false };
  llround = λ x. x.units / unit;
}
