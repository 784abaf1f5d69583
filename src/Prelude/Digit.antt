-- ===== src/Prelude/Digit.antt =====
-- The binary digits of `x & y`, `x | y`, a power and a complement.
use Prim.Native.Nat.{ℕ, zero, suc, ◌-◌, ◌/◌, ◌%◌, ◌^◌, ◌<◌, min, max, bit_and, bit_or}
use mathlib.Core.Path.{◌≡◌, refl, ap, ap₂, sym, ◌∙◌}
use native.Mathlib.Nat.{pow-suc, div-div-eq-div-mul, mul_comm, zero-div}
use native.Mathlib.Omega.{arith}
use native.Mathlib.Decide.{ℕ_discrete}
use code_analyze.Prelude.Bits.{bit_and_step}
use code_analyze.Prelude.Fields.{bit_or_step}

abbrev pub digit : ℕ → ℕ → ℕ
digit b x = x / 2 ^ b % 2

pub half_digit : (b x : ℕ) → digit (suc b) x ≡ digit b (x / 2)
half_digit b x =
    ap (λ (q : ℕ). q % 2)
      (ap (λ (m : ℕ). x / m) (pow-suc 2 b ∙ mul_comm (2 ^ b) 2)
        ∙ sym (div-div-eq-div-mul x 2 (2 ^ b)))

pub digit-bit_and : (b x y : ℕ) → digit b (bit_and x y) ≡ min (digit b x) (digit b y)
digit-bit_and zero x y = omega (arith, bit_and_step x y)
digit-bit_and (suc b) x y =
    half_digit b (bit_and x y)
    ∙ ap (digit b) (half x y)
    ∙ digit-bit_and b (x / 2) (y / 2)
    ∙ ap₂ min (sym (half_digit b x)) (sym (half_digit b y))
  where
    half : (x y : ℕ) → bit_and x y / 2 ≡ bit_and (x / 2) (y / 2)
    half x y = omega (arith, bit_and_step x y)

pub digit-bit_or : (b x y : ℕ) → digit b (bit_or x y) ≡ max (digit b x) (digit b y)
digit-bit_or zero x y = omega (arith, bit_or_step x y)
digit-bit_or (suc b) x y =
    half_digit b (bit_or x y)
    ∙ ap (digit b) (half x y)
    ∙ digit-bit_or b (x / 2) (y / 2)
    ∙ ap₂ max (sym (half_digit b x)) (sym (half_digit b y))
  where
    half : (x y : ℕ) → bit_or x y / 2 ≡ bit_or (x / 2) (y / 2)
    half x y = omega (arith, bit_or_step x y)

half_power : (c : ℕ) → 2 ^ suc c / 2 ≡ 2 ^ c
half_power c = omega (arith, pow-suc 2 c)

pub digit_power_same : (b : ℕ) → digit b (2 ^ b) ≡ 1
digit_power_same zero = refl
digit_power_same (suc b) =
    half_digit b (2 ^ suc b) ∙ ap (digit b) (half_power b) ∙ digit_power_same b

zero_digit : (b : ℕ) → digit b 0 ≡ 0
zero_digit b = ap (λ (q : ℕ). q % 2) (zero-div (2 ^ b))

pub digit_power_other : (b c : ℕ) → (b ≡ c → ⊥) → digit b (2 ^ c) ≡ 0
digit_power_other zero zero ne = absurd (ne refl)
digit_power_other zero (suc c) ne = omega (arith, pow-suc 2 c)
digit_power_other (suc b) zero ne = half_digit b 1 ∙ zero_digit b
digit_power_other (suc b) (suc c) ne =
    half_digit b (2 ^ suc c)
    ∙ ap (digit b) (half_power c)
    ∙ digit_power_other b c (λ e. ne (ap suc e))

pub digit_complement : (k b x : ℕ) → x < 2 ^ k → b < k → digit b (2 ^ k - 1 - x) ≡ 1 - digit b x
digit_complement zero b x h hb = absurd (omega (arith, hb))
digit_complement (suc k) zero x h hb = omega (arith, h, pow-suc 2 k)
digit_complement (suc k) (suc b) x h hb =
    half_digit b (2 ^ suc k - 1 - x)
    ∙ ap (digit b) half
    ∙ digit_complement k b (x / 2) (omega (arith, h, pow-suc 2 k)) (omega (arith, hb))
    ∙ ap (λ (d : ℕ). 1 - d) (sym (half_digit b x))
  where
    half : (2 ^ suc k - 1 - x) / 2 ≡ 2 ^ k - 1 - x / 2
    half = omega (arith, h, pow-suc 2 k)

-- A number other than 0 has a digit that is 1.
pub some_digit : (k x : ℕ) → x < 2 ^ k → 0 < x → (b : ℕ) × (b < k) × (digit b x ≡ 1)
some_digit zero x h p = absurd (omega (arith, h, p))
some_digit (suc k) x h p = elim (ℕ_discrete (x % 2) 1) [
  | yes odd ↦ (0, omega arith, odd_digit x odd)
  | no even ↦
      let (b, hb, one) =
        some_digit k (x / 2) (omega (arith, h, pow-suc 2 k)) (omega (arith, p, even)) in
      (suc b, omega (arith, hb), half_digit b x ∙ one)
]
  where
    odd_digit : (x : ℕ) → x % 2 ≡ 1 → digit 0 x ≡ 1
    odd_digit x odd = omega (arith, odd)
