-- ===== src/Irq/Bitmap/RoundTrip.antt =====
-- The mask that __bitmap_parse makes of what bitmap_scnprintf prints.
use code_analyze.Prelude.{
  ℕ, zero, suc, ◌*◌, ◌/◌, ◌%◌, ◌^◌, ◌<◌, ◌≤◌, ◌≡◌, refl, ap, ap₂, sym, ◌∙◌, subst, List, [], ◌∷◌,
  ◌++◌, length, arith, true,
}
use code_analyze.Irq.Cpumask.{Cpumask, replicate, cpus_clear, mask_words}
use code_analyze.Irq.Bitmap.{
  Code, success, parse_from, parsing_start, bitmap_parse, print_from, bitmap_scnprintf,
}
use code_analyze.Irq.Bitmap.Chunks.{AreWords, chunks, shift_in, nth}
use code_analyze.Irq.Bitmap.Pending.{push_all, seq_down, Fresh}
use code_analyze.Irq.Bitmap.Printed.{Parsed, parse_first}

abbrev from_place : ℕ → List ℕ → List ℕ
from_place zero l = l
from_place (suc k) [] = []
from_place (suc k) (x ∷ l) = from_place k l

from_place-nth :
    (k : ℕ) (l : List ℕ) → k < length l → nth k l ∷ from_place (suc k) l ≡ from_place k l
from_place-nth k [] h = absurd (omega (arith, h))
from_place-nth zero (x ∷ l) h = refl
from_place-nth (suc k) (x ∷ l) h = from_place-nth k l (omega (arith, h))

from_place_end : (l : List ℕ) → from_place (length l) l ≡ []
from_place_end [] = refl
from_place_end (x ∷ l) = from_place_end l

shift_in_zeros :
    (x k : ℕ) (t : List ℕ) → shift_in x (t ++ replicate (suc k) 0) ≡ x ∷ t ++ replicate k 0
shift_in_zeros x zero [] = refl
shift_in_zeros x (suc k) [] = ap (λ (l : List ℕ). x ∷ l) (shift_in_zeros 0 k [])
shift_in_zeros x k (y ∷ t) = ap (λ (l : List ℕ). x ∷ l) (shift_in_zeros y k t)

no_more : (l : List ℕ) → l ++ replicate 0 0 ≡ l
no_more [] = refl
no_more (x ∷ l) = ap (λ (t : List ℕ). x ∷ t) (no_more l)

-- From the highest chunk down, each pushes those above it up by a place.
push_all-seq_down :
    (k : ℕ) (l : List ℕ)
    → k ≤ length l
    → push_all (seq_down k l) (from_place k l ++ replicate k 0) ≡ l
push_all-seq_down zero l h = no_more l
push_all-seq_down (suc k) l h =
    ap (push_all (seq_down k l)) (
      shift_in_zeros (nth k l) k (from_place (suc k) l)
      ∙ ap (λ (t : List ℕ). t ++ replicate k 0) (from_place-nth k l (omega (arith, h))))
    ∙ push_all-seq_down k l (omega (arith, h))

push_all-zeros : (k : ℕ) (l : List ℕ) → length l ≡ k → push_all (seq_down k l) (replicate k 0) ≡ l
push_all-zeros k l h =
    ap (λ (t : List ℕ). push_all (seq_down k l) (t ++ replicate k 0))
      (sym (ap (λ i. from_place i l) (sym h) ∙ from_place_end l))
    ∙ push_all-seq_down k l (omega (arith, h))

length-chunks : (m : Cpumask) → length (chunks m) ≡ 2 * length m
length-chunks [] = refl
length-chunks (w ∷ ws) = omega (arith, length-chunks ws)

head_of : ℕ → List ℕ → ℕ
head_of d [] = d
head_of d (x ∷ l) = x

-- A mask is determined by its chunks.
chunks_injective : (m n : Cpumask) → chunks m ≡ chunks n → m ≡ n
chunks_injective [] [] e = refl
chunks_injective [] (w ∷ ws) e =
    absurd (let l : 0 ≡ suc (suc (length (chunks ws))) = ap length e in omega (arith, l))
chunks_injective (v ∷ vs) [] e =
    absurd (let l : suc (suc (length (chunks vs))) ≡ 0 = ap length e in omega (arith, l))
chunks_injective (v ∷ vs) (w ∷ ws) e =
    let low : v % 2 ^ 32 ≡ w % 2 ^ 32 = ap (nth 0) e in
    let high : v / 2 ^ 32 ≡ w / 2 ^ 32 = ap (nth 1) e in
    ap₂ (λ x (l : Cpumask). x ∷ l) (omega (arith, low, high))
      (chunks_injective vs ws (ap (from_place 2) e))

shift_in_clear : shift_in 0 (replicate 128 0) ≡ replicate 128 0
shift_in_clear = refl

zeros-AreWords : (n : ℕ) → AreWords (replicate n 0)
zeros-AreWords zero = tt
zeros-AreWords (suc n) = (omega arith, zeros-AreWords n)

clear-Fresh : Fresh parsing_start 128 (replicate 128 0)
unfolding cpus_clear
clear-Fresh = record {
  chunk = refl;
  digits = refl;
  no_space = refl;
  room = omega arith;
  mask = refl;
  words = zeros-AreWords mask_words;
}

printed_Parsed :
    (m : Cpumask)
    → length m ≡ mask_words
    → AreWords m
    → Parsed (bitmap_parse (bitmap_scnprintf m)) (chunks m)
unfolding bitmap_parse bitmap_scnprintf
printed_Parsed m h w =
    subst (Parsed (parse_from (print_from 128 true m) parsing_start))
      (push_all-zeros 128 (chunks m) (omega (arith, length-chunks m, h)))
      (parse_first 127 m parsing_start (replicate 128 0) w clear-Fresh shift_in_clear)

-- What is read from the printed text of a mask of NR_CPUS bits is that mask, and the code is that of a
-- success.
pub bitmap_parse-bitmap_scnprintf :
    (m : Cpumask)
    → length m ≡ mask_words
    → AreWords m
    → bitmap_parse (bitmap_scnprintf m) ≡ (m, success)
bitmap_parse-bitmap_scnprintf m h w =
    let p = printed_Parsed m h w in
    ap₂ (λ (n : Cpumask) (c : Code). (n, c))
      (chunks_injective (bitmap_parse (bitmap_scnprintf m)).0 m p.mask) p.code
