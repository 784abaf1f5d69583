-- ===== src/Irq/Cpumask.antt =====
-- The masks of cpumask.h over bitmap.c, as the lists of their words. NR_CPUS is 4096, a multiple of
-- the 64 bits of a word, so the loops of bitmap.c run over whole words.
pub mod Sets
use code_analyze.Prelude.{
  ℕ, zero, suc, ◌-◌, ◌/◌, ◌%◌, ◌^◌, Bool, true, false, not, ◌&&◌, ◌||◌, List, [], ◌∷◌, map, bit_and,
  ◌==◌,
}
use Prim.Native.Nat.{bit_or}

abbrev pub Cpumask : Type 0
Cpumask = List ℕ

abbrev pub bits_per_long : ℕ
bits_per_long = 64

-- `BITS_TO_LONGS(NR_CPUS)`.
abbrev pub mask_words : ℕ
mask_words = 4096 / bits_per_long

abbrev pub replicate : ℕ → ℕ → Cpumask
replicate zero w = []
replicate (suc n) w = w ∷ replicate n w

unfoldable pub cpus_clear : Cpumask
cpus_clear = replicate mask_words 0

unfoldable pub cpus_setall : Cpumask
cpus_setall = replicate mask_words (2 ^ 64 - 1)

unfoldable pub cpus_empty : Cpumask → Bool
cpus_empty [] = true
cpus_empty (w ∷ ws) = (w == 0) && cpus_empty ws

unfoldable pub cpus_and : Cpumask → Cpumask → Cpumask
cpus_and (v ∷ vs) (w ∷ ws) = bit_and v w ∷ cpus_and vs ws
cpus_and _ _ = []

unfoldable pub cpus_or : Cpumask → Cpumask → Cpumask
cpus_or (v ∷ vs) (w ∷ ws) = bit_or v w ∷ cpus_or vs ws
cpus_or _ _ = []

unfoldable pub cpus_andnot : Cpumask → Cpumask → Cpumask
cpus_andnot (v ∷ vs) (w ∷ ws) = bit_and v (2 ^ 64 - 1 - w) ∷ cpus_andnot vs ws
cpus_andnot _ _ = []

unfoldable pub cpus_intersects : Cpumask → Cpumask → Bool
cpus_intersects (v ∷ vs) (w ∷ ws) = not (bit_and v w == 0) || cpus_intersects vs ws
cpus_intersects _ _ = false

unfoldable pub cpus_equal : Cpumask → Cpumask → Bool
cpus_equal (v ∷ vs) (w ∷ ws) = (v == w) && cpus_equal vs ws
cpus_equal _ _ = true

unfoldable pub cpus_complement : Cpumask → Cpumask
cpus_complement ws = map (λ w. 2 ^ 64 - 1 - w) ws

-- `set_bit`: a bit past the last word is outside the mask, and changes nothing here.
unfoldable pub set_word : ℕ → ℕ → Cpumask → Cpumask
set_word k bit [] = []
set_word zero bit (w ∷ ws) = bit_or w (2 ^ bit) ∷ ws
set_word (suc k) bit (w ∷ ws) = w ∷ set_word k bit ws

unfoldable pub cpu_set : ℕ → Cpumask → Cpumask
unfolding set_word
cpu_set cpu m = set_word (cpu / bits_per_long) (cpu % bits_per_long) m

-- `test_bit`.
unfoldable pub test_word : ℕ → ℕ → Cpumask → Bool
test_word k bit [] = false
test_word zero bit (w ∷ ws) = bit_and 1 (w / 2 ^ bit) == 1
test_word (suc k) bit (w ∷ ws) = test_word k bit ws

unfoldable pub cpu_isset : ℕ → Cpumask → Bool
unfolding test_word
cpu_isset cpu m = test_word (cpu / bits_per_long) (cpu % bits_per_long) m
