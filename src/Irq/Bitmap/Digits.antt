-- ===== src/Irq/Bitmap/Digits.antt =====
-- How __bitmap_parse reads the digits of a chunk.
use Prim.Native.Nat.{bit_or}
use code_analyze.Prelude.{
  ℕ, zero, suc, ◌+◌, ◌*◌, ◌/◌, ◌%◌, ◌^◌, ◌<◌, ◌≡◌, refl, ap₂, sym, ◌∙◌, ◌∷◌, arith, Bool, true,
  false, not, ◌&&◌, ◌||◌, leb, ◌==◌,
}
use code_analyze.Prelude.Fields.{bit_or_high_low}
use code_analyze.Irq.Text.{Bytes, isspace}
use code_analyze.Irq.Bitmap.{Parsing, put_digit, parse_from, hex_digit, unhex, isxdigit, print_hex}

pub no_embedded :
    (p : Parsing) (c : ℕ)
    → isspace p.c ≡ false
    → (not (p.totaldigits == 0) && not (c == 0) && isspace p.c) ≡ false
no_embedded p c h = both (not (p.totaldigits == 0)) (not (c == 0)) (isspace p.c) h
  where
    both : (a b d : Bool) → d ≡ false → (a && b && d) ≡ false
    both true true d h = h
    both true false d h = refl
    both false b d h = refl

byte_step :
    (c : ℕ) (out : Bytes) (p : Parsing)
    → isspace c ≡ false
    → isspace p.c ≡ false
    → (c == 0 || c == 44) ≡ false
    → isxdigit c ≡ true
    → leb (2 ^ 28) p.chunk ≡ false
    → parse_from (c ∷ out) p ≡ parse_from out (put_digit c p)
unfolding parse_from
byte_step c out p space before more hex fits =
    simp (parse_from, space, no_embedded p c before, more, hex, fits) refl

digit_step :
    (d : ℕ) (out : Bytes) (p : Parsing)
    → d < 16
    → isspace p.c ≡ false
    → p.chunk < 2 ^ 28
    → parse_from (hex_digit d ∷ out) p ≡ parse_from out (put_digit (hex_digit d) p)
digit_step d out p b c h =
    let space : isspace (hex_digit d) ≡ false = ground (arith, b) in
    let more : (hex_digit d == 0 || hex_digit d == 44) ≡ false = ground (arith, b) in
    let hex : isxdigit (hex_digit d) ≡ true = ground (arith, b) in
    let fits : leb (2 ^ 28) p.chunk ≡ false = ground (arith, h) in
    byte_step (hex_digit d) out p space c more hex fits

-- What a chunk of digits leaves of the variables.
pub record Read (p q : Parsing) (v n : ℕ) : Type 0 where
  pub chunk : q.chunk ≡ v
  pub digits : q.ndigits ≡ p.ndigits + n
  pub no_space : isspace q.c ≡ false
  pub nchunks : q.nchunks ≡ p.nchunks
  pub nbits : q.nbits ≡ p.nbits
  pub maskp : q.maskp ≡ p.maskp

-- The number has that many digits at most.
abbrev pub Small : ℕ → ℕ → Type 0
Small zero v = v ≡ 0
Small (suc n) v = Small n (v / 16)

unhex-hex_digit : (d : ℕ) → d < 16 → unhex (hex_digit d) ≡ d
unhex-hex_digit d h = ground (arith, h)

digit_value :
    (v : ℕ) (q : Parsing) → q.chunk ≡ v / 16 → (put_digit (hex_digit (v % 16)) q).chunk ≡ v
digit_value v q h =
    ap₂ (λ (a b : ℕ). bit_or (a * 2 ^ 4) b) h (unhex-hex_digit (v % 16) (omega arith))
    ∙ bit_or_high_low 4 (v / 16) (v % 16) (omega arith)
    ∙ omega arith

pub print_hex-Read :
    (n v : ℕ) (out : Bytes) (p : Parsing)
    → Small n v
    → v < 2 ^ 32
    → p.chunk ≡ 0
    → isspace p.c ≡ false
    → (q : Parsing) × Read p q v n × (parse_from (print_hex n v out) p ≡ parse_from out q)
unfolding print_hex
print_hex-Read zero v out p s b h c = (
  p,
  record {
    chunk = h ∙ sym s;
    digits = omega arith;
    no_space = c;
    nchunks = refl;
    nbits = refl;
    maskp = refl;
  },
  refl,
)
print_hex-Read (suc n) v out p s b h c =
    let (q, r, e) =
      print_hex-Read n (v / 16) (hex_digit (v % 16) ∷ out) p s (omega (arith, b)) h c in
    (
      put_digit (hex_digit (v % 16)) q,
      record {
        chunk = digit_value v q r.chunk;
        digits = omega (arith, r.digits);
        no_space = ground arith;
        nchunks = r.nchunks;
        nbits = r.nbits;
        maskp = r.maskp;
      },
      e ∙ digit_step (v % 16) out q (omega arith) r.no_space (omega (arith, r.chunk, b)),
    )

pub Small-chunk : (v : ℕ) → v < 2 ^ 32 → Small 8 v
Small-chunk v h = omega (arith, h)
