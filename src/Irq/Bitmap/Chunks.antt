-- ===== src/Irq/Bitmap/Chunks.antt =====
-- A mask as the list of its chunks of 32 bits, the lowest first.
use Prim.Native.Nat.{bit_or}
use code_analyze.Prelude.{
  ℕ, zero, suc, ◌+◌, ◌*◌, ◌/◌, ◌%◌, ◌^◌, ◌<◌, ◌≡◌, refl, ap, ap₂, sym, ◌∙◌, subst, List, [], ◌∷◌,
  length, All, arith,
}
use native.Mathlib.Nat.{zero-div}
use code_analyze.Prelude.Bits.{bit_and_mask}
use code_analyze.Prelude.Fields.{bit_or_high_low, bit_or_low_high}
use code_analyze.Irq.Cpumask.{Cpumask}
use code_analyze.Irq.Bitmap.{word_at, shift_words, take_words, shift_left, or_low, chunk_at}

abbrev pub AreWords : Cpumask → Type 0
AreWords = All (λ w. w < 2 ^ 64)

abbrev pub chunks : Cpumask → List ℕ
chunks [] = []
chunks (w ∷ ws) = w % 2 ^ 32 ∷ w / 2 ^ 32 ∷ chunks ws

-- The list with x in front and without its last element: a shift by one place.
abbrev pub shift_in : ℕ → List ℕ → List ℕ
shift_in x [] = []
shift_in x (y ∷ l) = x ∷ shift_in y l

shifted_word :
    (below w : ℕ)
    → below < 2 ^ 64
    → bit_or (below / 2 ^ 32) ((w * 2 ^ 32) % 2 ^ 64) ≡ (w % 2 ^ 32) * 2 ^ 32 + below / 2 ^ 32
shifted_word below w b =
    ap (bit_or (below / 2 ^ 32)) (upper w)
    ∙ bit_or_low_high 32 (w % 2 ^ 32) (below / 2 ^ 32) (omega (arith, b))
  where
    upper : (w : ℕ) → (w * 2 ^ 32) % 2 ^ 64 ≡ (w % 2 ^ 32) * 2 ^ 32
    upper w = omega arith

parts :
    (w lo : ℕ)
    → lo < 2 ^ 32
    → (l : List ℕ)
    → (let x = (w % 2 ^ 32) * 2 ^ 32 + lo in x % 2 ^ 32 ∷ x / 2 ^ 32 ∷ l) ≡ lo ∷ w % 2 ^ 32 ∷ l
parts w lo h l = ap₂ (λ (a b : ℕ). a ∷ b ∷ l) (omega (arith, h)) (omega (arith, h))

chunks-shift_words :
    (below : ℕ) (m : Cpumask)
    → below < 2 ^ 64
    → AreWords m
    → chunks (shift_words 32 below m) ≡ shift_in (below / 2 ^ 32) (chunks m)
unfolding shift_words
chunks-shift_words below [] b h = refl
chunks-shift_words below (w ∷ ws) b h =
    let word = shifted_word below w b in
    ap₂ (λ x (l : List ℕ). x % 2 ^ 32 ∷ x / 2 ^ 32 ∷ l) word (chunks-shift_words w ws h.0 h.1)
    ∙ parts w (below / 2 ^ 32) (omega (arith, b)) (shift_in (w / 2 ^ 32) (chunks ws))

shift_words-AreWords :
    (below : ℕ) (m : Cpumask) → below < 2 ^ 64 → AreWords m → AreWords (shift_words 32 below m)
unfolding shift_words
shift_words-AreWords below [] b h = tt
shift_words-AreWords below (w ∷ ws) b h =
    (omega (arith, shifted_word below w b, b), shift_words-AreWords w ws h.0 h.1)

length-shift_words : (rem below : ℕ) (m : Cpumask) → length (shift_words rem below m) ≡ length m
unfolding shift_words
length-shift_words rem below [] = refl
length-shift_words rem below (w ∷ ws) = ap suc (length-shift_words rem w ws)

take_words_all : (n : ℕ) (m : Cpumask) → length m ≡ n → take_words n m ≡ m
unfolding take_words
take_words_all zero [] h = refl
take_words_all zero (w ∷ ws) h = absurd (omega (arith, h))
take_words_all (suc n) [] h = refl
take_words_all (suc n) (w ∷ ws) h = ap (λ l. w ∷ l) (take_words_all n ws (omega (arith, h)))

pub shift_left_lem : (m : Cpumask) → shift_left 32 m ≡ shift_words 32 0 m
unfolding shift_left
shift_left_lem m = take_words_all (length m) (shift_words 32 0 m) (length-shift_words 32 0 m)

low_word :
    (c w : ℕ)
    → c < 2 ^ 32
    → bit_or (bit_or (0 / 2 ^ 32) ((w * 2 ^ 32) % 2 ^ 64)) c ≡ (w % 2 ^ 32) * 2 ^ 32 + c
low_word c w b =
    ap (λ (x : ℕ). bit_or x c) (shifted_word 0 w (omega arith) ∙ omega arith)
    ∙ bit_or_high_low 32 (w % 2 ^ 32) c b

low_chunk :
    (c : ℕ) (m : Cpumask)
    → c < 2 ^ 32
    → AreWords m
    → (chunks (or_low c (shift_words 32 0 m)) ≡ shift_in c (chunks m))
      × AreWords (or_low c (shift_words 32 0 m))
      × (length (or_low c (shift_words 32 0 m)) ≡ length m)
unfolding or_low shift_words
low_chunk c [] b h = (refl, tt, refl)
low_chunk c (w ∷ ws) b h =
    let word = low_word c w b in
    (
      ap₂ (λ x (l : List ℕ). x % 2 ^ 32 ∷ x / 2 ^ 32 ∷ l) word (chunks-shift_words w ws h.0 h.1)
          ∙ parts w c b (shift_in (w / 2 ^ 32) (chunks ws)),
      (omega (arith, word, b), shift_words-AreWords w ws h.0 h.1),
      ap suc (length-shift_words 32 w ws),
    )

-- A chunk that is or-ed to the shifted mask comes in front of its chunks.
pub chunks-or_low :
    (c : ℕ) (m : Cpumask)
    → c < 2 ^ 32
    → AreWords m
    → (chunks (or_low c (shift_left 32 m)) ≡ shift_in c (chunks m))
      × AreWords (or_low c (shift_left 32 m))
      × (length (or_low c (shift_left 32 m)) ≡ length m)
chunks-or_low c m b h =
    subst
      (λ x.
        (chunks (or_low c x) ≡ shift_in c (chunks m))
        × AreWords (or_low c x)
        × (length (or_low c x) ≡ length m))
      (sym (shift_left_lem m)) (low_chunk c m b h)

chunk_at_lem :
    (k : ℕ) (m : Cpumask) → chunk_at k m ≡ (word_at (k * 32 / 64) m / 2 ^ (k * 32 % 64)) % 2 ^ 32
chunk_at_lem k m = bit_and_mask 32 (word_at (k * 32 / 64) m / 2 ^ (k * 32 % 64))

-- The element at a place, and 0 past the end.
abbrev pub nth : ℕ → List ℕ → ℕ
nth k [] = 0
nth zero (x ∷ l) = x
nth (suc k) (x ∷ l) = nth k l

word_at-nth :
    (k : ℕ) (m : Cpumask)
    → AreWords m
    → (word_at (k * 32 / 64) m / 2 ^ (k * 32 % 64)) % 2 ^ 32 ≡ nth k (chunks m)
unfolding word_at
word_at-nth k [] h = nothing (k * 32 % 64)
  where
    nothing : (e : ℕ) → (0 / 2 ^ e) % 2 ^ 32 ≡ 0
    nothing e = ap (λ (x : ℕ). x % 2 ^ 32) (zero-div (2 ^ e))
word_at-nth zero (w ∷ ws) h = omega arith
word_at-nth (suc zero) (w ∷ ws) h = omega (arith, h.0)
word_at-nth (suc (suc k)) (w ∷ ws) h =
    ap₂ (λ (i e : ℕ). (word_at i (w ∷ ws) / 2 ^ e) % 2 ^ 32)
      (let up : suc (suc k) * 32 / 64 ≡ suc (k * 32 / 64) = omega arith in up)
      (let same : suc (suc k) * 32 % 64 ≡ k * 32 % 64 = omega arith in same)
    ∙ word_at-nth k ws h.1

pub chunk_at-nth : (k : ℕ) (m : Cpumask) → AreWords m → chunk_at k m ≡ nth k (chunks m)
chunk_at-nth k m h = chunk_at_lem k m ∙ word_at-nth k m h
