-- ===== src/Prelude/Fields.antt =====
-- `x | y` of two numbers with no digit in common is their sum.
use Prim.Native.Nat.{
  ℕ, zero, suc, ◌+◌, ◌*◌, ◌/◌, ◌%◌, ◌^◌, ◌≤◌, ◌<◌, max, digits, bit_or, bit_or-bitwise,
}
use mathlib.Core.Path.{◌≡◌, refl, ap}
use native.Mathlib.Nat.{pow-suc}
use native.Mathlib.Omega.{arith}

abbrev disjunction : ℕ → ℕ → ℕ → ℕ
disjunction steps x y = digits (λ rest. rest) max steps x y

-- The steps may be any number that is not below the first operand.
steps_free : (x y i j : ℕ) → x ≤ i → x ≤ j → disjunction i x y ≡ disjunction j x y
steps_free zero y zero zero hi hj = refl
steps_free zero y zero (suc j) hi hj = refl
steps_free zero y (suc i) zero hi hj = refl
steps_free zero y (suc i) (suc j) hi hj = refl
steps_free (suc x) y zero j hi hj = absurd (omega arith)
steps_free (suc x) y (suc i) zero hi hj = absurd (omega arith)
steps_free (suc x) y (suc i) (suc j) hi hj =
    let halves = steps_free (suc x / 2) (y / 2) i j (omega arith) (omega arith) in
    ap (λ (t : ℕ). t * 2 + max (suc x % 2) (y % 2)) halves

-- The lowest digit of `x | y`, and the rest.
pub bit_or_step : (x y : ℕ) → bit_or x y ≡ bit_or (x / 2) (y / 2) * 2 + max (x % 2) (y % 2)
bit_or_step zero y = omega (arith, bit_or-bitwise 0 (y / 2), bit_or-bitwise 0 y)
bit_or_step (suc x) y =
    let h = suc x / 2 in
    let k = y / 2 in
    omega (
      arith,
      steps_free h k x h (omega arith) (omega arith),
      bit_or-bitwise h k,
      bit_or-bitwise (suc x) y,
    )

pub zero-bit_or : (y : ℕ) → bit_or 0 y ≡ y
zero-bit_or y = bit_or-bitwise 0 y

or_zero_from : (bound x : ℕ) → x ≤ bound → bit_or x 0 ≡ x
or_zero_from bound zero h = bit_or-bitwise 0 0
or_zero_from zero (suc x) h = absurd (omega arith)
or_zero_from (suc bound) (suc x) h =
    let half = or_zero_from bound (suc x / 2) (omega arith) in
    omega (arith, half, bit_or_step (suc x) 0)

pub bit_or-zero : (x : ℕ) → bit_or x 0 ≡ x
bit_or-zero x = or_zero_from x x (omega arith)

twice_power : (q k : ℕ) → q * 2 ^ suc k ≡ q * 2 ^ k * 2
twice_power q k = omega (arith, ap (λ (m : ℕ). q * m) (pow-suc 2 k))

-- High digits, and low digits below the power.
pub bit_or_high_low : (k q r : ℕ) → r < 2 ^ k → bit_or (q * 2 ^ k) r ≡ q * 2 ^ k + r
bit_or_high_low zero q r h = omega (arith, ap (bit_or (q * 1)) (no_digit r h), bit_or-zero (q * 1))
  where
    no_digit : (r : ℕ) → r < 1 → r ≡ 0
    no_digit r h = omega arith
bit_or_high_low (suc k) q r h = omega (
  arith,
  bit_or_step (q * 2 ^ suc k) r,
  twice_power q k,
  pow-suc 2 k,
  bit_or_high_low k q (r / 2) (omega (arith, pow-suc 2 k)),
  ap (λ (m : ℕ). bit_or m (r / 2)) half,
)
  where
    half : q * 2 ^ suc k / 2 ≡ q * 2 ^ k
    half = omega (arith, twice_power q k)

pub bit_or_low_high : (k q r : ℕ) → r < 2 ^ k → bit_or r (q * 2 ^ k) ≡ q * 2 ^ k + r
bit_or_low_high zero q r h =
    omega (arith, ap (λ (m : ℕ). bit_or m (q * 1)) (no_digit r h), zero-bit_or (q * 1))
  where
    no_digit : (r : ℕ) → r < 1 → r ≡ 0
    no_digit r h = omega arith
bit_or_low_high (suc k) q r h = omega (
  arith,
  bit_or_step r (q * 2 ^ suc k),
  twice_power q k,
  pow-suc 2 k,
  bit_or_low_high k q (r / 2) (omega (arith, pow-suc 2 k)),
  ap (bit_or (r / 2)) half,
)
  where
    half : q * 2 ^ suc k / 2 ≡ q * 2 ^ k
    half = omega (arith, twice_power q k)
