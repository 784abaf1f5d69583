-- ===== src/Irq/Cpumask/Sets.antt =====
-- The masks of cpumask.h as sets of CPUs.
use code_analyze.Prelude.{
  ℕ, zero, suc, ◌+◌, ◌-◌, ◌*◌, ◌/◌, ◌%◌, ◌^◌, ◌<◌, ◌≤◌, ◌≡◌, ◌↔◌, inl, inr, refl, ap, sym, ◌∙◌,
  Bool, true, false, not, ◌&&◌, ◌||◌, [], ◌∷◌, length, All, arith, bit_and, ◌==◌, Bool-cases,
  ℕ_discrete, subst,
}
use Prim.Native.Nat.{bit_or, bit_and-bitwise}
use native.Mathlib.Nat.{zero-div}
use code_analyze.Prelude.Bits.{bit_and_step}
use code_analyze.Prelude.Digit.{
  digit, digit-bit_and, digit-bit_or, digit_power_same, digit_power_other, digit_complement,
  some_digit,
}
use code_analyze.Irq.Cpumask.{
  Cpumask, mask_words, cpus_and, cpus_or, cpus_andnot, cpus_intersects, cpus_complement, set_word,
  cpu_set, test_word, cpu_isset,
}

-- The bit that is tested.
tested : (b w : ℕ) → bit_and 1 (w / 2 ^ b) ≡ digit b w
tested b w = omega (arith, bit_and_step 1 (w / 2 ^ b), zero-and (w / 2 ^ b / 2))
  where
    zero-and : (x : ℕ) → bit_and 0 x ≡ 0
    zero-and x = bit_and-bitwise 0 x

and_false : (a : Bool) → false ≡ (a && false)
and_false true = refl
and_false false = refl

test_word-cpus_and :
    (k b : ℕ) (m n : Cpumask) → test_word k b (cpus_and m n) ≡ (test_word k b m && test_word k b n)
unfolding test_word cpus_and
test_word-cpus_and k b [] n = refl
test_word-cpus_and k b (v ∷ vs) [] = and_false (test_word k b (v ∷ vs))
test_word-cpus_and zero b (v ∷ vs) (w ∷ ws) =
    ground (arith, tested b (bit_and v w), tested b v, tested b w, digit-bit_and b v w)
test_word-cpus_and (suc k) b (v ∷ vs) (w ∷ ws) = test_word-cpus_and k b vs ws

test_word-cpus_or :
    (k b : ℕ) (m n : Cpumask)
    → length m ≡ length n
    → test_word k b (cpus_or m n) ≡ (test_word k b m || test_word k b n)
unfolding test_word cpus_or
test_word-cpus_or k b [] [] h = refl
test_word-cpus_or k b [] (w ∷ ws) h = absurd (omega (arith, h))
test_word-cpus_or k b (v ∷ vs) [] h = absurd (omega (arith, h))
test_word-cpus_or zero b (v ∷ vs) (w ∷ ws) h =
    ground (arith, tested b (bit_or v w), tested b v, tested b w, digit-bit_or b v w)
test_word-cpus_or (suc k) b (v ∷ vs) (w ∷ ws) h = test_word-cpus_or k b vs ws (omega (arith, h))

test_word-cpus_andnot :
    (k b : ℕ) (m n : Cpumask)
    → b < 64
    → length m ≡ length n
    → All (λ w. w < 2 ^ 64) n
    → test_word k b (cpus_andnot m n) ≡ (test_word k b m && not (test_word k b n))
unfolding test_word cpus_andnot
test_word-cpus_andnot k b [] [] hb h words = refl
test_word-cpus_andnot k b [] (w ∷ ws) hb h words = absurd (omega (arith, h))
test_word-cpus_andnot k b (v ∷ vs) [] hb h words = absurd (omega (arith, h))
test_word-cpus_andnot zero b (v ∷ vs) (w ∷ ws) hb h words = ground (
  arith,
  tested b (bit_and v (2 ^ 64 - 1 - w)),
  tested b v,
  tested b w,
  digit-bit_and b v (2 ^ 64 - 1 - w),
  digit_complement 64 b w words.0 hb,
)
test_word-cpus_andnot (suc k) b (v ∷ vs) (w ∷ ws) hb h words =
    test_word-cpus_andnot k b vs ws hb (omega (arith, h)) words.1

test_word-complement :
    (k b : ℕ) (m : Cpumask)
    → b < 64
    → k < length m
    → All (λ w. w < 2 ^ 64) m
    → test_word k b (cpus_complement m) ≡ not (test_word k b m)
unfolding test_word cpus_complement
test_word-complement k b [] hb h words = absurd (omega (arith, h))
test_word-complement zero b (w ∷ ws) hb h words =
    ground (arith, tested b (2 ^ 64 - 1 - w), tested b w, digit_complement 64 b w words.0 hb)
test_word-complement (suc k) b (w ∷ ws) hb h words =
    test_word-complement k b ws hb (omega (arith, h)) words.1

test_word-set_word :
    (k b i j : ℕ) (m : Cpumask)
    → i < length m
    → test_word k b (set_word i j m) ≡ ((k == i) && (b == j) || test_word k b m)
unfolding test_word set_word
test_word-set_word k b i j [] h = absurd (omega (arith, h))
test_word-set_word zero b zero j (w ∷ ws) h = elim (ℕ_discrete b j) [
  | yes e ↦ ground (
    arith,
    e,
    tested b (bit_or w (2 ^ j)),
    tested b w,
    digit-bit_or b w (2 ^ j),
    ap (λ (c : ℕ). digit c (2 ^ j)) e ∙ digit_power_same j,
  )
  | no ne ↦ ground (
    arith,
    ne,
    tested b (bit_or w (2 ^ j)),
    tested b w,
    digit-bit_or b w (2 ^ j),
    digit_power_other b j ne,
  )
]
test_word-set_word zero b (suc i) j (w ∷ ws) h = ground arith
test_word-set_word (suc k) b zero j (w ∷ ws) h = ground arith
test_word-set_word (suc k) b (suc i) j (w ∷ ws) h =
    ground (arith, test_word-set_word k b i j ws (omega (arith, h)))

bit_and-le : (bound x y : ℕ) → x ≤ bound → bit_and x y ≤ x
bit_and-le bound zero y h = omega (arith, bit_and-bitwise 0 y)
bit_and-le zero (suc x) y h = absurd (omega (arith, h))
bit_and-le (suc bound) (suc x) y h =
    omega (arith, bit_and_step (suc x) y, bit_and-le bound (suc x / 2) (y / 2) (omega (arith, h)))

-- A word in common has a CPU in common.
common_cpu :
    (m n : Cpumask)
    → All (λ w. w < 2 ^ 64) m
    → cpus_intersects m n ≡ true
    → (k : ℕ) × (b : ℕ) × (b < 64) × (test_word k b m ≡ true) × (test_word k b n ≡ true)
unfolding test_word cpus_intersects
common_cpu [] n words e = absurd cc
common_cpu (v ∷ vs) [] words e = absurd cc
common_cpu (v ∷ vs) (w ∷ ws) words e = elim (Bool-cases (bit_and v w == 0)) [
  | inr f ↦
      let (b, hb, one) =
        some_digit 64 (bit_and v w) (omega (arith, bit_and-le v v w (omega arith), words.0))
          (ground (arith, f)) in
      (
        0,
        b,
        hb,
        ground (arith, tested b v, digit-bit_and b v w, one),
        ground (arith, tested b w, digit-bit_and b v w, one),
      )
  | inl f ↦
      let (k, b, hb, hm, hn) = common_cpu vs ws words.1 (ground (arith, e, f)) in
      (suc k, b, hb, hm, hn)
]

intersects_at :
    (k b : ℕ) (m n : Cpumask)
    → test_word k b m ≡ true
    → test_word k b n ≡ true
    → cpus_intersects m n ≡ true
unfolding test_word cpus_intersects
intersects_at k b [] n hm hn = absurd cc
intersects_at k b (v ∷ vs) [] hm hn = absurd cc
intersects_at zero b (v ∷ vs) (w ∷ ws) hm hn = elim (Bool-cases (bit_and v w == 0)) [
  | inr f ↦ ground (arith, f)
  | inl f ↦
      let none_left : digit b (bit_and v w) ≡ 0 =
        ap (digit b) (ground (arith, f)) ∙ ap (λ (q : ℕ). q % 2) (zero-div (2 ^ b)) in
      absurd (ground (arith, hm, hn, none_left, tested b v, tested b w, digit-bit_and b v w))
]
intersects_at (suc k) b (v ∷ vs) (w ∷ ws) hm hn = ground (arith, intersects_at k b vs ws hm hn)

-- On masks of NR_CPUS bits a CPU is in the result of cpus_and, cpus_or, cpus_andnot, cpus_complement and
-- cpu_set exactly when it is in the intersection, the union, the difference, the complement and the set
-- with the CPU added.
pub cpu_isset_operations :
    (m n : Cpumask) (c d : ℕ)
    → length m ≡ mask_words
    → length n ≡ mask_words
    → All (λ w. w < 2 ^ 64) n
    → c < 4096
    → d < 4096
    → (cpu_isset c (cpus_and m n) ≡ (cpu_isset c m && cpu_isset c n))
      × (cpu_isset c (cpus_or m n) ≡ (cpu_isset c m || cpu_isset c n))
      × (cpu_isset c (cpus_andnot m n) ≡ (cpu_isset c m && not (cpu_isset c n)))
      × (cpu_isset c (cpus_complement n) ≡ not (cpu_isset c n))
      × (cpu_isset c (cpu_set d m) ≡ ((c == d) || cpu_isset c m))
unfolding cpu_isset cpu_set
cpu_isset_operations m n c d hm hn words hc hd =
    let same : length m ≡ length n = hm ∙ sym hn in
    let bit : c % 64 < 64 = omega arith in
    (
      test_word-cpus_and (c / 64) (c % 64) m n,
      test_word-cpus_or (c / 64) (c % 64) m n same,
      test_word-cpus_andnot (c / 64) (c % 64) m n bit same words,
      test_word-complement (c / 64) (c % 64) n bit (omega (arith, hn, hc)) words,
      test_word-set_word (c / 64) (c % 64) (d / 64) (d % 64) m (omega (arith, hm, hd))
          ∙ ap (λ b. b || test_word (c / 64) (c % 64) m) (same_bit c d),
    )
  where
    same_bit : (c d : ℕ) → ((c / 64 == d / 64) && (c % 64 == d % 64)) ≡ (c == d)
    same_bit c d = ground arith

-- cpus_intersects answers 1 exactly when there is a CPU in both masks.
pub cpus_intersects_lem :
    (m n : Cpumask)
    → All (λ w. w < 2 ^ 64) m
    → (cpus_intersects m n ≡ true) ↔ ((c : ℕ) × (cpu_isset c m ≡ true) × (cpu_isset c n ≡ true))
unfolding cpu_isset
cpus_intersects_lem m n words = (there, λ c. intersects_at (c.0 / 64) (c.0 % 64) m n c.1 c.2)
  where
    at :
        (k b : ℕ)
        → b < 64
        → (l : Cpumask) → test_word k b l ≡ true
        → test_word ((k * 64 + b) / 64) ((k * 64 + b) % 64) l ≡ true
    at k b hb l h =
        subst (λ i. test_word i ((k * 64 + b) % 64) l ≡ true) (omega (arith, hb))
          (subst (λ j. test_word k j l ≡ true) (omega (arith, hb)) h)

    there : cpus_intersects m n ≡ true → (c : ℕ) × (cpu_isset c m ≡ true) × (cpu_isset c n ≡ true)
    there e =
        let (k, b, hb, hm, hn) = common_cpu m n words e in
        (k * 64 + b, at k b hb m hm, at k b hb n hn)
