-- ===== src/Prelude/Bits.antt =====
-- `x & mask` with a mask of low ones is the remainder by a power of two.
use Prim.Native.Nat.{
  ℕ, zero, suc, ◌+◌, ◌-◌, ◌*◌, ◌/◌, ◌%◌, ◌^◌, ◌≤◌, min, digits, bit_and, bit_and-bitwise,
}
use mathlib.Core.Path.{◌≡◌, refl, ap}
use native.Mathlib.Nat.{pow-suc, one-le-pow, mod-add-div, div-div-eq-div-mul, mul_comm}
use native.Mathlib.Omega.{arith}

abbrev conjunction : ℕ → ℕ → ℕ → ℕ
conjunction steps x y = digits (λ rest. 0) min steps x y

-- The steps may be any number that is not below the first operand.
steps_free : (x y i j : ℕ) → x ≤ i → x ≤ j → conjunction i x y ≡ conjunction j x y
steps_free zero y zero zero hi hj = refl
steps_free zero y zero (suc j) hi hj = refl
steps_free zero y (suc i) zero hi hj = refl
steps_free zero y (suc i) (suc j) hi hj = refl
steps_free (suc x) y zero j hi hj = absurd (omega arith)
steps_free (suc x) y (suc i) zero hi hj = absurd (omega arith)
steps_free (suc x) y (suc i) (suc j) hi hj =
    let halves = steps_free (suc x / 2) (y / 2) i j (omega arith) (omega arith) in
    ap (λ (t : ℕ). t * 2 + min (suc x % 2) (y % 2)) halves

-- The lowest digit of `x & y`, and the rest.
pub bit_and_step : (x y : ℕ) → bit_and x y ≡ bit_and (x / 2) (y / 2) * 2 + min (x % 2) (y % 2)
bit_and_step zero y =
    let none_left = bit_and-bitwise 0 (y / 2) in omega (arith, none_left, bit_and-bitwise 0 y)
bit_and_step (suc x) y =
    let h = suc x / 2 in
    let k = y / 2 in
    omega (
      arith,
      steps_free h k x h (omega arith) (omega arith),
      bit_and-bitwise h k,
      bit_and-bitwise (suc x) y,
    )

zero_from : (bound x : ℕ) → x ≤ bound → bit_and x 0 ≡ 0
zero_from bound zero le = bit_and-bitwise 0 0
zero_from zero (suc x) le = absurd (omega arith)
zero_from (suc bound) (suc x) le =
    let half = zero_from bound (suc x / 2) (omega arith) in
    omega (arith, half, bit_and_step (suc x) 0)

pub bit_and-zero : (x : ℕ) → bit_and x 0 ≡ 0
bit_and-zero x = zero_from x x (omega arith)

-- The remainder by `2 ^ (k + 1)` from that of the half.
mod-pow-suc : (k a : ℕ) → a % 2 ^ suc k ≡ (a / 2 % 2 ^ k) * 2 + a % 2
mod-pow-suc k a = omega (
  arith,
  ap (λ (m : ℕ). a % m) (pow-suc 2 k),
  mod-add-div a (2 ^ k * 2),
  mod-add-div (a / 2) (2 ^ k),
  ap (λ (q : ℕ). 2 ^ k * q) (div-div-eq-div-mul a 2 (2 ^ k)),
  ap (λ (m : ℕ). a / m) (mul_comm 2 (2 ^ k)),
  ap (λ (m : ℕ). 2 ^ k * (a / m)) (mul_comm 2 (2 ^ k)),
)

pub bit_and_mask : (k a : ℕ) → bit_and a (2 ^ k - 1) ≡ a % 2 ^ k
bit_and_mask zero a = omega (arith, bit_and-zero a)
bit_and_mask (suc k) a = omega (
  arith,
  bit_and_step a (2 ^ suc k - 1),
  pow-suc 2 k,
  one-le-pow k 2,
  mod-pow-suc k a,
  ap (bit_and (a / 2)) half_mask,
  bit_and_mask k (a / 2),
)
  where
    half_mask : (2 ^ suc k - 1) / 2 ≡ 2 ^ k - 1
    half_mask = omega (arith, pow-suc 2 k, one-le-pow k 2)
