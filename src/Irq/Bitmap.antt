-- ===== src/Irq/Bitmap.antt =====
-- The parsing and the printing of bitmap.c, on masks of NR_CPUS bits, which are whole words. What a
-- caller gets is the mask; the code that is returned has no use in the daemon.
pub mod Chunks
pub mod Digits
pub mod Pending
pub mod Printed
pub mod RoundTrip
pub mod HighestBit
use Prim.Native.Nat.{bit_or}
use code_analyze.Prelude.{
  ℕ, zero, suc, ◌+◌, ◌-◌, ◌*◌, ◌/◌, ◌%◌, ◌^◌, Bool, true, false, not, ◌&&◌, ◌||◌, Option, none,
  some, List, [], ◌∷◌, ◌++◌, ltb, leb, ◌==◌, if◌then◌else◌, bit_and, length,
}
use code_analyze.Irq.Cpumask.{Cpumask, replicate, cpus_clear, bits_per_long}
use code_analyze.Irq.Text.{Bytes, isspace, isdigit}

abbrev pub nr_cpus : ℕ
nr_cpus = 4096

abbrev pub chunk_size : ℕ
chunk_size = 32

-- `bitmap[k]`, and 0 past the end, where no call reads.
unfoldable pub word_at : ℕ → Cpumask → ℕ
word_at k [] = 0
word_at zero (w ∷ ws) = w
word_at (suc k) (w ∷ ws) = word_at k ws

-- The words of __bitmap_shift_left from `below` up: the upper bits of a word go to the next one. A
-- shift by whole words has no lower part.
unfoldable pub shift_words : ℕ → ℕ → Cpumask → Cpumask
shift_words rem below [] = []
shift_words rem below (w ∷ ws) =
    bit_or (if rem == 0 then 0 else below / 2 ^ (bits_per_long - rem))
      ((w * 2 ^ rem) % 2 ^ bits_per_long)
    ∷ shift_words rem w ws

unfoldable pub take_words : ℕ → Cpumask → Cpumask
take_words zero ws = []
take_words (suc n) [] = []
take_words (suc n) (w ∷ ws) = w ∷ take_words n ws

unfoldable pub shift_left : ℕ → Cpumask → Cpumask
shift_left shift m =
    take_words (length m)
      (replicate (shift / bits_per_long) 0 ++ shift_words (shift % bits_per_long) 0 m)

-- `*maskp |= chunk`.
unfoldable pub or_low : ℕ → Cpumask → Cpumask
or_low chunk [] = []
or_low chunk (w ∷ ws) = bit_or w chunk ∷ ws

abbrev pub isxdigit : ℕ → Bool
isxdigit c = isdigit c || leb 65 c && leb c 70 || leb 97 c && leb c 102

abbrev pub unhex : ℕ → ℕ
unhex c = if isdigit c then c - 48 else if leb 97 c then c - 87 else c - 55

-- A step of `fls`: the value is shifted up where its upper `shift` bits of 32 are clear.
unfoldable pub narrow : ℕ → ℕ × ℕ → ℕ × ℕ
narrow shift (x, r) =
    if bit_and x (2 ^ 32 - 2 ^ (32 - shift)) == 0
    then (x * 2 ^ shift % 2 ^ 32, r - shift)
    else (x, r)

-- On the value of `x` as an unsigned number.
unfoldable pub fls : ℕ → ℕ
fls x = if x == 0 then 0 else (narrow 1 (narrow 2 (narrow 4 (narrow 8 (narrow 16 (x, 32)))))).1

pub data Code : Type 0 where
  success einval eoverflow : Code

-- The variables of __bitmap_parse.
pub record Parsing : Type 0 where
  pub c : ℕ
  pub totaldigits : ℕ
  pub ndigits : ℕ
  pub chunk : ℕ
  pub nchunks : ℕ
  pub nbits : ℕ
  pub maskp : Cpumask

abbrev pub put_digit : ℕ → Parsing → Parsing
put_digit c p = record p {
  c = c;
  chunk = bit_or (p.chunk * 2 ^ 4) (unhex c);
  ndigits = p.ndigits + 1;
  totaldigits = p.totaldigits + 1;
}

-- A chunk goes at the low end of the mask, unless it is a leading 0. The next chunk is begun.
unfoldable pub put_chunk : Parsing → Parsing
put_chunk p =
    if p.nchunks == 0 && p.chunk == 0 then record p { chunk = 0; ndigits = 0 } else record p {
      chunk = 0;
      ndigits = 0;
      maskp = or_low p.chunk (shift_left chunk_size p.maskp);
      nchunks = p.nchunks + 1;
      nbits = p.nbits + (if p.nchunks == 0 then fls p.chunk else chunk_size);
    }

-- What the do-while loop does at the end of a chunk; `again` is the rest of it.
unfoldable pub end_chunk : Parsing → (Parsing → Cpumask × Code) → Bool → Cpumask × Code
end_chunk p again more =
    if p.ndigits == 0
    then (p.maskp, einval)
    else (let q = put_chunk p in
        if ltb nr_cpus q.nbits
        then (q.maskp, eoverflow)
        else elim more [ true ↦ again q | false ↦ (q.maskp, success) ])

abbrev pub nonempty : Bytes → Bool
nonempty [] = false
nonempty (c ∷ cs) = true

-- Both loops, character by character. A chunk ends at a comma, at a 0 and at the end of the buffer.
unfoldable pub parse_from : Bytes → Parsing → Cpumask × Code
parse_from [] p = end_chunk p (λ q. (q.maskp, success)) false
parse_from (c ∷ cs) p = elim (isspace c) [
  | true ↦ parse_from cs (record p { c = c })
  | false ↦ elim (not (p.totaldigits == 0) && not (c == 0) && isspace p.c) [
    | true ↦ (p.maskp, success)
    | false ↦ elim (c == 0 || c == 44) [
      | true ↦ end_chunk (record p { c = c }) (parse_from cs) (c == 44 && nonempty cs)
      | false ↦ elim (isxdigit c) [
        | false ↦ (p.maskp, einval)
        | true ↦ elim (leb (2 ^ 28) p.chunk) [
          | true ↦ (p.maskp, eoverflow)
          | false ↦ parse_from cs (put_digit c p)
        ]
      ]
    ]
  ]
]

abbrev pub parsing_start : Parsing
parsing_start = record {
  c = 0;
  totaldigits = 0;
  ndigits = 0;
  chunk = 0;
  nchunks = 0;
  nbits = 0;
  maskp = cpus_clear;
}

unfoldable pub bitmap_parse : Bytes → Cpumask × Code
bitmap_parse buf = parse_from buf parsing_start

abbrev pub hex_digit : ℕ → ℕ
hex_digit d = if ltb d 10 then 48 + d else 87 + d

-- `%0*lx`, for a number of that many digits at most.
unfoldable pub print_hex : ℕ → ℕ → Bytes → Bytes
print_hex zero v out = out
print_hex (suc n) v out = print_hex n (v / 16) (hex_digit (v % 16) ∷ out)

abbrev pub chunk_at : ℕ → Cpumask → ℕ
chunk_at k m =
    bit_and (word_at (k * chunk_size / bits_per_long) m / 2 ^ (k * chunk_size % bits_per_long))
      (2 ^ chunk_size - 1)

abbrev pub separator : Bool → Bytes → Bytes
separator true s = s
separator false s = 44 ∷ s

-- The rounds from `i = (k - 1) * CHUNKSZ` on. The buffers of the daemon have room for the whole text.
unfoldable pub print_from : ℕ → Bool → Cpumask → Bytes
print_from zero first m = []
print_from (suc k) first m =
    let val = chunk_at k m in
    let skipped = print_from k first m in
    let rest = print_from k false m in
    if not (val == 0) || not first || k == 0
    then separator first (print_hex 8 val rest)
    else skipped

unfoldable pub bitmap_scnprintf : Cpumask → Bytes
bitmap_scnprintf m = print_from (nr_cpus / chunk_size) true m
