-- ===== src/Irq/Bitmap/Pending.antt =====
-- The state of __bitmap_parse between two chunks, and what the end of a chunk makes of it.
use code_analyze.Prelude.{
  ℕ, zero, suc, ◌+◌, ◌*◌, ◌^◌, ◌<◌, ◌≤◌, ◌≡◌, ◌⊎◌, inl, inr, refl, ap₂, sym, ◌∙◌, List, [], ◌∷◌,
  arith, false, ◌&&◌, Bool-cases, ltb, ◌==◌,
}
use code_analyze.Irq.Text.{isspace}
use code_analyze.Irq.Bitmap.{nr_cpus, Parsing, put_chunk}
use code_analyze.Irq.Bitmap.HighestBit.{fls-le}
use code_analyze.Irq.Bitmap.Chunks.{AreWords, chunks, shift_in, chunks-or_low, nth}

-- The chunks that a text gives, from the highest on.
abbrev pub push_all : List ℕ → List ℕ → List ℕ
push_all [] l = l
push_all (v ∷ vs) l = push_all vs (shift_in v l)

abbrev pub seq_down : ℕ → List ℕ → List ℕ
seq_down zero l = []
seq_down (suc k) l = nth k l ∷ seq_down k l

-- The digits of a chunk are read, with k chunks to come: the chunk is not skipped, or it is the last and a
-- mask of zeros.
pub record Pending (p : Parsing) (v k : ℕ) (l : List ℕ) : Type 0 where
  pub chunk : p.chunk ≡ v
  pub small : v < 2 ^ 32
  pub digits : (p.ndigits == 0) ≡ false
  pub no_space : isspace p.c ≡ false
  pub kept : ((p.nchunks == 0 && v == 0) ≡ false) ⊎ ((k ≡ 0) × (shift_in v l ≡ l))
  pub room : p.nbits + 32 * suc k ≤ nr_cpus
  pub mask : chunks p.maskp ≡ l
  pub words : AreWords p.maskp

-- A chunk is to be read, with k to come.
pub record Fresh (p : Parsing) (k : ℕ) (l : List ℕ) : Type 0 where
  pub chunk : p.chunk ≡ 0
  pub digits : p.ndigits ≡ 0
  pub no_space : isspace p.c ≡ false
  pub room : p.nbits + 32 * k ≤ nr_cpus
  pub mask : chunks p.maskp ≡ l
  pub words : AreWords p.maskp

-- The variables after the chunk.
pub record Put (p q : Parsing) (v k : ℕ) (l : List ℕ) : Type 0 where
  pub fresh : Fresh q k (shift_in v l)
  pub busy : ((p.nchunks == 0 && v == 0) ≡ false) → (q.nchunks == 0) ≡ false
  pub within : ltb nr_cpus q.nbits ≡ false

pub put_chunk-Put :
    (p : Parsing) (v k : ℕ) (l : List ℕ) → Pending p v k l → Put p (put_chunk p) v k l
unfolding put_chunk
put_chunk-Put p v k l h = elim (Bool-cases (p.nchunks == 0 && p.chunk == 0)) [
  | inl skipped ↦
      let (none_left, same) : (k ≡ 0) × (shift_in v l ≡ l) = elim h.kept [
        | inl keep ↦ absurd (ground (arith, keep, skipped, h.chunk))
        | inr s ↦ s
      ] in
      simp (put_chunk, skipped)
        record {
          fresh = record {
            chunk = refl;
            digits = refl;
            no_space = h.no_space;
            room = omega (arith, h.room);
            mask = h.mask ∙ sym same;
            words = h.words;
          };
          busy = λ b. absurd (ground (arith, b, skipped, h.chunk));
          within = ground (arith, h.room);
        }
  | inr keep ↦
      let low = chunks-or_low p.chunk p.maskp (omega (arith, h.chunk, h.small)) h.words in
      let bits = fls-le p.chunk in
      simp (put_chunk, keep)
        record {
          fresh = record {
            chunk = refl;
            digits = refl;
            no_space = h.no_space;
            room = ground (arith, h.room, bits);
            mask = low.0 ∙ ap₂ shift_in h.chunk h.mask;
            words = low.1;
          };
          busy = λ b. ground arith;
          within = ground (arith, h.room, bits);
        }
]
