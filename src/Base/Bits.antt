-- ===== src/Base/Bits.antt =====
-- Laws of bitwise operations at variables: a helper module. The native operations are a recursion on
-- binary digits, and the laws are inductions on the number of digits.
use Prim.Native.Nat.{
  ℕ, zero, suc, ◌+◌, ◌*◌, ◌/◌, ◌%◌, ◌^◌, ◌≤◌, ◌<◌, min, max, bit_and, bit_or, bit_xor, digits,
  bitwise, differ, bit_and-bitwise, bit_or-bitwise, bit_xor-bitwise,
}
use mathlib.Core.Path.{◌≡◌, refl, sym, ap, ap₂, ◌∙◌}
use native.Mathlib.Nat.{le_refl, pow-suc, mul_comm, div-div-eq-div-mul}
use native.Mathlib.Omega.{arith}

-- More fuel than the number has digits changes nothing, so the first digit can be split off.
module _ (low : ℕ → ℕ) (op : ℕ → ℕ → ℕ) where
  no_digits : (fuel b : ℕ) → digits low op fuel 0 b ≡ low b
  no_digits (suc fuel) b = refl
  no_digits zero b = refl

  less_fuel :
      (a b more less : ℕ) → a ≤ less → less ≤ more → digits low op more a b ≡ digits low op less a b
  less_fuel zero b more less enough order = no_digits more b ∙ sym (no_digits less b)
  less_fuel (suc a) b (suc more) (suc less) enough order =
      let rest = less_fuel (suc a / 2) (b / 2) more less (omega arith) (omega arith) in rw rest refl
  less_fuel (suc a) b more zero enough order = absurd (omega arith)
  less_fuel (suc a) b zero (suc less) enough order = absurd (omega arith)

  first_digit :
      (n b : ℕ)
      → bitwise low op (suc n) b ≡ op (suc n % 2) (b % 2) + 2 * bitwise low op (suc n / 2) (b / 2)
  first_digit n b =
      omega (arith, less_fuel (suc n / 2) (b / 2) n (suc n / 2) (le_refl _) (omega arith))

pub bit_or_step : (a b : ℕ) → bit_or a b ≡ bit_or (a / 2) (b / 2) * 2 + max (a % 2) (b % 2)
bit_or_step (suc n) b = simp bit_or-bitwise (omega (arith, first_digit (λ k. k) max n b))
bit_or_step zero b = simp bit_or-bitwise (omega arith)

xor_digits : (a b : ℕ) → bit_xor a b ≡ bit_xor (a / 2) (b / 2) * 2 + differ (a % 2) (b % 2)
xor_digits (suc n) b = simp bit_xor-bitwise (omega (arith, first_digit (λ k. k) differ n b))
xor_digits zero b = simp bit_xor-bitwise (omega arith)

differ_bits : (x y : ℕ) → x < 2 → y < 2 → differ x y ≡ (x + y) % 2
differ_bits zero y p q = omega arith
differ_bits (suc zero) zero p q = refl
differ_bits (suc zero) (suc zero) p q = refl
differ_bits (suc zero) (suc (suc y)) p q = absurd (omega arith)
differ_bits (suc (suc x)) y p q = absurd (omega arith)

pub bit_xor_step : (a b : ℕ) → bit_xor a b ≡ bit_xor (a / 2) (b / 2) * 2 + (a % 2 + b % 2) % 2
bit_xor_step a b =
    omega (arith, xor_digits a b, differ_bits (a % 2) (b % 2) (omega arith) (omega arith))

-- One digit less on both sides.
pub bit_xor-half : (a b : ℕ) → bit_xor a b / 2 ≡ bit_xor (a / 2) (b / 2)
bit_xor-half a b = omega (arith, bit_xor_step a b)

half-lt : (k a : ℕ) → a < 2 ^ suc k → a / 2 < 2 ^ k
half-lt k a h = omega (arith, pow-suc 2 k)

-- The result has no more digits than its arguments.
pub bit_xor-lt : (k a b : ℕ) → a < 2 ^ k → b < 2 ^ k → bit_xor a b < 2 ^ k
bit_xor-lt zero a b p q =
    let za : a ≡ 0 = omega arith in let zb : b ≡ 0 = omega arith in rw (za, zb) (omega arith)
bit_xor-lt (suc k) a b p q = omega (
  arith,
  pow-suc 2 k,
  bit_xor_step a b,
  bit_xor-lt k (a / 2) (b / 2) (half-lt k a p) (half-lt k b q),
)

-- Exclusive or with the same number twice changes nothing.
pub bit_xor-bit_xor : (k a b : ℕ) → a < 2 ^ k → b < 2 ^ k → bit_xor (bit_xor a b) b ≡ a
bit_xor-bit_xor zero a b p q =
    let za : a ≡ 0 = omega arith in let zb : b ≡ 0 = omega arith in rw (za, zb) refl
bit_xor-bit_xor (suc k) a b p q = omega (
  arith,
  bit_xor_step a b,
  bit_xor_step (bit_xor a b) b,
  ap (λ (t : ℕ). bit_xor t (b / 2)) (bit_xor-half a b),
  bit_xor-bit_xor k (a / 2) (b / 2) (half-lt k a p) (half-lt k b q),
)

pub bit_xor_cancel_right :
    (k a b c : ℕ) → a < 2 ^ k → b < 2 ^ k → c < 2 ^ k → bit_xor a c ≡ bit_xor b c → a ≡ b
bit_xor_cancel_right k a b c p q r e =
    sym (bit_xor-bit_xor k a c p r) ∙ ap (λ t. bit_xor t c) e ∙ bit_xor-bit_xor k b c q r

pub bit_xor_comm : (k a b : ℕ) → a < 2 ^ k → b < 2 ^ k → bit_xor a b ≡ bit_xor b a
bit_xor_comm zero a b p q =
    let za : a ≡ 0 = omega arith in let zb : b ≡ 0 = omega arith in rw (za, zb) refl
bit_xor_comm (suc k) a b p q = omega (
  arith,
  bit_xor_step a b,
  bit_xor_step b a,
  bit_xor_comm k (a / 2) (b / 2) (half-lt k a p) (half-lt k b q),
)

-- `|` with the fields of a number: `r` below `2 ^ k`, and `q` shifted over it.
pub bit_or-shift : (k r q : ℕ) → r < 2 ^ k → bit_or r (q * 2 ^ k) ≡ r + q * 2 ^ k
bit_or-shift zero r q h = let zr : r ≡ 0 = omega arith in rw zr (bit_or_from_zero (q * 2 ^ 0))
  where
    bit_or_from_zero : (b : ℕ) → bit_or 0 b ≡ 0 + b
    bit_or_from_zero b = simp bit_or-bitwise (omega arith)
bit_or-shift (suc k) r q h = omega (
  arith,
  bit_or_step r (q * 2 ^ suc k),
  ap (λ (t : ℕ). bit_or (r / 2) t) halved,
  shifted,
  bit_or-shift k (r / 2) q (half-lt k r h),
)
  where
    shifted : q * 2 ^ suc k ≡ 2 * (q * 2 ^ k)
    shifted = omega (arith, ap (λ (t : ℕ). q * t) (pow-suc 2 k))

    halved : q * 2 ^ suc k / 2 ≡ q * 2 ^ k
    halved = omega (arith, shifted)

pub zero-bit_xor : (b : ℕ) → bit_xor 0 b ≡ b
zero-bit_xor b = simp bit_xor-bitwise (omega arith)

-- The digits from the `k`-th on are those of the shifted arguments.
pub bit_xor-shift : (k a b : ℕ) → bit_xor a b / 2 ^ k ≡ bit_xor (a / 2 ^ k) (b / 2 ^ k)
bit_xor-shift zero a b = omega (arith, ap₂ bit_xor (div_one a) (div_one b))
  where
    div_one : (n : ℕ) → n / 2 ^ 0 ≡ n
    div_one n = omega arith
bit_xor-shift (suc k) a b =
    split (bit_xor a b)
    ∙ ap (λ (t : ℕ). t / 2 ^ k) (bit_xor-half a b)
    ∙ bit_xor-shift k (a / 2) (b / 2)
    ∙ sym (ap₂ bit_xor (split a) (split b))
  where
    split : (n : ℕ) → n / 2 ^ suc k ≡ n / 2 / 2 ^ k
    split n = rw (pow-suc 2 k, mul_comm (2 ^ k) 2) (sym (div-div-eq-div-mul n 2 (2 ^ k)))

and_digits : (a b : ℕ) → bit_and a b ≡ bit_and (a / 2) (b / 2) * 2 + min (a % 2) (b % 2)
and_digits (suc n) b = simp bit_and-bitwise (omega (arith, first_digit (λ k. 0) min n b))
and_digits zero b = simp bit_and-bitwise (omega arith)

bit_and-zero_below : (n a : ℕ) → a ≤ n → bit_and a 0 ≡ 0
bit_and-zero_below n zero h = refl
bit_and-zero_below zero (suc a) h = absurd (omega arith)
bit_and-zero_below (suc n) (suc a) h =
    omega (arith, and_digits (suc a) 0, bit_and-zero_below n (suc a / 2) (omega arith))

-- `a & 1` is the lowest digit.
pub bit_and-one : (a : ℕ) → bit_and a 1 ≡ a % 2
bit_and-one a = omega (arith, and_digits a 1, bit_and-zero_below (a / 2) (a / 2) (le_refl _))

bit_or_comm_below : (n a b : ℕ) → a ≤ n → b ≤ n → bit_or a b ≡ bit_or b a
bit_or_comm_below zero a b p q =
    let za : a ≡ 0 = omega arith in let zb : b ≡ 0 = omega arith in rw (za, zb) refl
bit_or_comm_below (suc n) a b p q = omega (
  arith,
  bit_or_step a b,
  bit_or_step b a,
  bit_or_comm_below n (a / 2) (b / 2) (omega arith) (omega arith),
)

pub bit_or_comm : (a b : ℕ) → bit_or a b ≡ bit_or b a
bit_or_comm a b = bit_or_comm_below (a + b) a b (omega arith) (omega arith)
