-- ===== src/Irq/Bitmap/HighestBit.antt =====
-- fls of bitmap.h: the place of the highest bit of a value of 32 bits.
use code_analyze.Prelude.{
  ℕ, zero, suc, ◌+◌, ◌-◌, ◌*◌, ◌/◌, ◌%◌, ◌^◌, ◌<◌, ◌≤◌, ◌≡◌, refl, ap, ap₂, sym, ◌∙◌, arith,
  bit_and, ◌==◌, true, false, Bool-cases, if◌then◌else◌, inl, inr, ◌⊎◌,
}
use native.Mathlib.Nat.{
  pow-suc, pow-le-pow_right, one-le-pow, div-div-eq-div-mul, mul_comm, mul_assoc, mul-le-mul_right,
  mod-eq_of_lt, div-lt_iff_lt-mul, mul-le-mul_right, lt-div-mul-add, suc-mul, div-mul-le_self,
}
use native.Mathlib.Numerals.{unary_clauses}
use code_analyze.Prelude.Bits.{bit_and_step, bit_and_mask}
use code_analyze.Irq.Bitmap.{narrow, fls}

narrow-le : (t : ℕ) (p : ℕ × ℕ) → (narrow t p).1 ≤ p.1
unfolding narrow
narrow-le t (x, r) = elim (Bool-cases (bit_and x (2 ^ 32 - 2 ^ (32 - t)) == 0)) [
  | inl e ↦ simp (narrow, e) (omega arith)
  | inr e ↦ simp (narrow, e) (omega arith)
]

pub fls-le : (x : ℕ) → fls x ≤ 32
unfolding fls
fls-le x = elim (Bool-cases (x == 0)) [
  | inl e ↦ simp (fls, e) (omega arith)
  | inr e ↦
      let five = narrow-le 16 (x, 32) in
      let four = narrow-le 8 (narrow 16 (x, 32)) in
      let three = narrow-le 4 (narrow 8 (narrow 16 (x, 32))) in
      let two = narrow-le 2 (narrow 4 (narrow 8 (narrow 16 (x, 32)))) in
      let one = narrow-le 1 (narrow 2 (narrow 4 (narrow 8 (narrow 16 (x, 32))))) in
      simp (fls, e) (omega (arith, five, four, three, two, one))
]

-- `&` with a mask that has nothing in the lower digits.
bit_and_upper : (k a n : ℕ) → bit_and a (n * 2 ^ k) ≡ bit_and (a / 2 ^ k) n * 2 ^ k
bit_and_upper zero a n = omega (arith, ap₂ bit_and (same a) (whole n))
  where
    same : (a : ℕ) → a ≡ a / 1
    same a = omega arith

    whole : (n : ℕ) → n * 1 ≡ n
    whole n = omega arith
bit_and_upper (suc k) a n = omega (
  arith,
  bit_and_step a (n * 2 ^ suc k),
  ap (bit_and (a / 2)) half,
  bit_and_upper k (a / 2) n,
  ap (λ (q : ℕ). bit_and q n * 2 ^ suc k) (quotient a),
  twice (bit_and (a / 2 / 2 ^ k) n),
  twice n,
)
  where
    twice : (q : ℕ) → q * 2 ^ suc k ≡ q * 2 ^ k * 2
    twice q = omega (arith, ap (λ (m : ℕ). q * m) (pow-suc 2 k))

    half : n * 2 ^ suc k / 2 ≡ n * 2 ^ k
    half = omega (arith, twice n)

    quotient : (a : ℕ) → a / 2 / 2 ^ k ≡ a / 2 ^ suc k
    quotient a =
        div-div-eq-div-mul a 2 (2 ^ k)
        ∙ ap (λ (m : ℕ). a / m) (mul_comm 2 (2 ^ k) ∙ sym (pow-suc 2 k))

pow_pos : (k : ℕ) → 1 ≤ 2 ^ k
pow_pos k = one-le-pow k 2 (omega arith)

pow_sub : (t k : ℕ) → t ≤ k → 2 ^ (k - t) * 2 ^ t ≡ 2 ^ k
pow_sub zero k h = ap (λ (m : ℕ). 2 ^ m * 1) (whole k) ∙ once (2 ^ k)
  where
    whole : (k : ℕ) → k - 0 ≡ k
    whole k = omega arith

    once : (m : ℕ) → m * 1 ≡ m
    once m = omega arith
pow_sub (suc t) zero h = absurd (omega (arith, h))
pow_sub (suc t) (suc k) h =
    ap₂ (λ (d m : ℕ). 2 ^ d * m) (less k t) (pow-suc 2 t)
    ∙ sym (mul_assoc (2 ^ (k - t)) (2 ^ t) 2)
    ∙ ap (λ (m : ℕ). m * 2) (pow_sub t k (omega (arith, h)))
    ∙ sym (pow-suc 2 k)
  where
    less : (k t : ℕ) → suc k - suc t ≡ k - t
    less k t = omega arith

pred_mul : (p a : ℕ) → 1 ≤ p → (p - 1) * a ≡ p * a - a
pred_mul zero a h = absurd (omega (arith, h))
pred_mul (suc p) a h = simp unary_clauses (omega arith)

le_multiple : (q a : ℕ) → (q * a ≡ 0) ⊎ (a ≤ q * a)
le_multiple zero a = inl (omega arith)
le_multiple (suc q) a = inr (omega (arith, suc-mul q a))

-- The test of a step looks at the upper digits.
test_upper :
    (t y : ℕ)
    → t ≤ 32
    → y < 2 ^ 32
    → bit_and y (2 ^ 32 - 2 ^ (32 - t)) ≡ y / 2 ^ (32 - t) * 2 ^ (32 - t)
test_upper t y h b =
    ap (bit_and y) mask
    ∙ bit_and_upper (32 - t) y (2 ^ t - 1)
    ∙ ap (λ (q : ℕ). q * 2 ^ (32 - t)) (bit_and_mask t (y / 2 ^ (32 - t)) ∙ mod-eq_of_lt few)
  where
    mask : 2 ^ 32 - 2 ^ (32 - t) ≡ (2 ^ t - 1) * 2 ^ (32 - t)
    mask = omega (
      arith,
      pred_mul (2 ^ t) (2 ^ (32 - t)) (pow_pos t),
      pow_sub t 32 h,
      mul_comm (2 ^ t) (2 ^ (32 - t)),
    )

    few : y / 2 ^ (32 - t) < 2 ^ t
    few =
        (div-lt_iff_lt-mul (pow_pos (32 - t))).1
          (omega (arith, b, pow_sub t 32 h, mul_comm (2 ^ t) (2 ^ (32 - t))))

test_clear :
    (t y : ℕ)
    → t ≤ 32
    → y < 2 ^ 32
    → (bit_and y (2 ^ 32 - 2 ^ (32 - t)) == 0) ≡ true
    → y < 2 ^ (32 - t)
test_clear t y h b e =
    ground (arith, e, test_upper t y h b, lt-div-mul-add {a = y} (pow_pos (32 - t)))

test_set :
    (t y : ℕ)
    → t ≤ 32
    → y < 2 ^ 32
    → (bit_and y (2 ^ 32 - 2 ^ (32 - t)) == 0) ≡ false
    → 2 ^ (32 - t) ≤ y
test_set t y h b e = ground (
  arith,
  e,
  test_upper t y h b,
  div-mul-le_self y (2 ^ (32 - t)),
  le_multiple (y / 2 ^ (32 - t)) (2 ^ (32 - t)),
)

-- The value and the counter between two steps, of which the first has shifted by u.
record Narrowed (x u : ℕ) (p : ℕ × ℕ) : Type 0 where
  below : p.0 < 2 ^ 32
  above : 2 ^ (32 - u) ≤ p.0
  room : u ≤ p.1
  scaled : p.0 * 2 ^ p.1 ≡ x * 2 ^ 32

shifted_below : (t y : ℕ) → t ≤ 32 → y < 2 ^ (32 - t) → y * 2 ^ t % 2 ^ 32 ≡ y * 2 ^ t
shifted_below t y h b =
    let fits : suc y * 2 ^ t ≤ 2 ^ (32 - t) * 2 ^ t = mul-le-mul_right (2 ^ t) b in
    let next : suc y * 2 ^ t ≡ y * 2 ^ t + 2 ^ t = suc-mul y (2 ^ t) in
    mod-eq_of_lt (omega (arith, fits, next, pow_pos t, pow_sub t 32 h))

shifted_above : (t y : ℕ) → 2 * t ≤ 32 → 2 ^ (32 - 2 * t) ≤ y → 2 ^ (32 - t) ≤ y * 2 ^ t
shifted_above t y h b =
    let least : 2 ^ (32 - 2 * t) * 2 ^ t ≤ y * 2 ^ t = mul-le-mul_right (2 ^ t) b in
    let power : 2 ^ (32 - t - t) * 2 ^ t ≡ 2 ^ (32 - t) = pow_sub t (32 - t) (omega (arith, h)) in
    let same : 2 ^ (32 - 2 * t) ≡ 2 ^ (32 - t - t) = ap (λ (k : ℕ). 2 ^ k) (omega arith) in
    omega (arith, least, power, ap (λ (a : ℕ). a * 2 ^ t) same)

narrow-Narrowed :
    (x t : ℕ) (p : ℕ × ℕ) → 2 * t ≤ 32 → Narrowed x (2 * t) p → Narrowed x t (narrow t p)
unfolding narrow
narrow-Narrowed x t (y, r) h n = elim (Bool-cases (bit_and y (2 ^ 32 - 2 ^ (32 - t)) == 0)) [
  | inl e ↦
      let small = test_clear t y (omega (arith, h)) n.below e in
      let same = shifted_below t y (omega (arith, h)) small in
      simp (narrow, e)
        (record {
          below = omega arith;
          above = omega (arith, same, shifted_above t y h n.above);
          room = omega (arith, n.room);
          scaled =
              ap (λ (m : ℕ). m * 2 ^ (r - t)) same
              ∙ mul_assoc y (2 ^ t) (2 ^ (r - t))
              ∙ ap (λ (m : ℕ). y * m)
                  (mul_comm (2 ^ t) (2 ^ (r - t)) ∙ pow_sub t r (omega (arith, n.room)))
              ∙ n.scaled;
        })
  | inr e ↦
      simp (narrow, e)
        (record {
          below = n.below;
          above = test_set t y (omega (arith, h)) n.below e;
          room = omega (arith, n.room);
          scaled = n.scaled;
        })
]

narrow_all :
    (x : ℕ)
    → 1 ≤ x
    → x < 2 ^ 32
    → Narrowed x 1 (narrow 1 (narrow 2 (narrow 4 (narrow 8 (narrow 16 (x, 32))))))
narrow_all x h b =
    narrow-Narrowed x 1 (narrow 2 (narrow 4 (narrow 8 (narrow 16 (x, 32))))) (omega arith) (
      narrow-Narrowed x 2 (narrow 4 (narrow 8 (narrow 16 (x, 32)))) (omega arith) (
        narrow-Narrowed x 4 (narrow 8 (narrow 16 (x, 32))) (omega arith) (
          narrow-Narrowed x 8 (narrow 16 (x, 32)) (omega arith) (
            narrow-Narrowed x 16 (x, 32) (omega arith)
              (record { below = b; above = h; room = omega arith; scaled = refl })))))

-- Shifted up until the highest bit is that of 2 ^ 31, the value tells the place of that bit.
highest :
    (x y r : ℕ) → y < 2 ^ 32 → 2 ^ 31 ≤ y → y * 2 ^ r ≡ x * 2 ^ 32 → (x < 2 ^ r) × (2 ^ r ≤ 2 * x)
highest x y r below above scaled =
    let most : suc y * 2 ^ r ≤ 2 ^ 32 * 2 ^ r = mul-le-mul_right (2 ^ r) below in
    let next : suc y * 2 ^ r ≡ y * 2 ^ r + 2 ^ r = suc-mul y (2 ^ r) in
    let least : 2 ^ 31 * 2 ^ r ≤ y * 2 ^ r = mul-le-mul_right (2 ^ r) above in
    (omega (arith, most, next, scaled, pow_pos r), omega (arith, least, scaled))

-- A number of digits: the value is below that power of two and not below half of it, or both are 0.
HasDigits : ℕ → ℕ → Type 0
HasDigits x r = (x < 2 ^ r) × ((2 ^ r ≤ 2 * x) ⊎ ((x ≡ 0) × (r ≡ 0)))

fls-HasDigits : (x : ℕ) → x < 2 ^ 32 → HasDigits x (fls x)
unfolding fls HasDigits
fls-HasDigits x b = elim (Bool-cases (x == 0)) [
  | inl e ↦ let z : x ≡ 0 = ground (arith, e) in simp (fls, e) (omega (arith, z), inr (z, refl))
  | inr e ↦
      let n = narrow_all x (ground (arith, e)) b in
      let p = narrow 1 (narrow 2 (narrow 4 (narrow 8 (narrow 16 (x, 32))))) in
      let d = highest x p.0 p.1 n.below n.above n.scaled in simp (fls, e) (d.0, inl d.1)
]

-- The number of binary digits, digit by digit.
abbrev digit_count : ℕ → ℕ → ℕ
digit_count zero n = 0
digit_count (suc f) n = let rest = digit_count f (n / 2) in if n == 0 then 0 else suc rest

digit_count-HasDigits : (f n : ℕ) → n < 2 ^ f → HasDigits n (digit_count f n)
unfolding HasDigits
digit_count-HasDigits zero n h = (h, inr (omega (arith, h), refl))
digit_count-HasDigits (suc f) n h =
    let (below, half) = digit_count-HasDigits f (n / 2) (omega (arith, h, pow-suc 2 f)) in
    elim (Bool-cases (n == 0)) [
      | inl e ↦ simp e (ground (arith, e), inr (ground (arith, e), refl))
      | inr e ↦
          let more : 2 ^ suc (digit_count f (n / 2)) ≡ 2 ^ digit_count f (n / 2) * 2 =
            pow-suc 2 (digit_count f (n / 2)) in
          simp e (
            omega (arith, below, more),
            inl (elim half [
              | inl least ↦ omega (arith, least, more)
              | inr none_left ↦
                  let one_digit : 2 ^ digit_count f (n / 2) ≡ 1 =
                    ap (λ (r : ℕ). 2 ^ r) none_left.1 in
                  ground (arith, one_digit, more, e)
            ]),
          )
    ]

shorter : (x a b : ℕ) → x < 2 ^ a → 2 ^ b ≤ 2 * x → b ≤ a
shorter x a b below least = elim (split_le b a) [
  | inl h ↦ h
  | inr h ↦
      let power : 2 ^ suc a ≤ 2 ^ b = pow-le-pow_right (omega arith) h in
      absurd (omega (arith, power, pow-suc 2 a, below, least))
]
  where
    split_le : (b a : ℕ) → (b ≤ a) ⊎ (suc a ≤ b)
    split_le b a = ground arith

HasDigits-unique : (x a b : ℕ) → HasDigits x a → HasDigits x b → a ≡ b
unfolding HasDigits
HasDigits-unique x a b (ha, inr (z, za)) (hb, inr (z', zb)) = za ∙ sym zb
HasDigits-unique x a b (ha, inr (z, za)) (hb, inl lb) = absurd (omega (arith, z, lb, pow_pos b))
HasDigits-unique x a b (ha, inl la) (hb, inr (z, zb)) = absurd (omega (arith, z, la, pow_pos a))
HasDigits-unique x a b (ha, inl la) (hb, inl lb) =
    omega (arith, shorter x a b ha lb, shorter x b a hb la)

-- On every value of 32 bits, fls finds the number of binary digits that counting them one by one gives.
pub fls-digit_count : (x : ℕ) → x < 2 ^ 32 → fls x ≡ digit_count 32 x
fls-digit_count x h =
    HasDigits-unique x (fls x) (digit_count 32 x) (fls-HasDigits x h) (digit_count-HasDigits 32 x h)
