-- ===== src/Irq/Text.antt =====
-- What the daemon uses of the C library on strings. A string is the list of its bytes, without the
-- one that ends it.
pub mod Decimal
use code_analyze.Prelude.{
  ℕ, ◌+◌, ◌-◌, ◌*◌, ◌%◌, ◌^◌, min, Bool, true, false, ◌&&◌, ◌||◌, Option, none, some, List, [], ◌∷◌,
  ◌++◌, leb, ◌==◌, if◌then◌else◌,
}

abbrev pub Bytes : Type 0
Bytes = List ℕ

abbrev pub tolower : ℕ → ℕ
tolower c = if leb 65 c && leb c 90 then c + 32 else c

abbrev pub isspace : ℕ → Bool
isspace c = c == 32 || leb 9 c && leb c 13

abbrev pub isdigit : ℕ → Bool
isdigit c = leb 48 c && leb c 57

-- The digits of strtoul in base 10, with ULONG_MAX where the number is too large.
unfoldable pub read_digits : Bytes → ℕ → ℕ
read_digits [] acc = acc
read_digits (c ∷ cs) acc =
    if isdigit c then read_digits cs (min (acc * 10 + (c - 48)) (2 ^ 64)) else acc

unfoldable pub read_sign : Bytes → ℕ
read_sign [] = 0
read_sign (c ∷ cs) =
    if c == 45
    then (2 ^ 64 - min (read_digits cs 0) (2 ^ 64 - 1)) % 2 ^ 64
    else if c == 43
    then min (read_digits cs 0) (2 ^ 64 - 1)
    else min (read_digits (c ∷ cs) 0) (2 ^ 64 - 1)

unfoldable pub strtoul : Bytes → ℕ
strtoul [] = 0
strtoul (c ∷ cs) = if isspace c then strtoul cs else read_sign (c ∷ cs)

-- An unsigned long as an int, with `none` for -1.
abbrev pub to_int : ℕ → Option ℕ
to_int n = if n % 2 ^ 32 == 2 ^ 32 - 1 then none else some (n % 2 ^ 32)

-- The digits at the front, with the number, which stays at 2 ^ 64 where it is larger, and what follows.
unfoldable pub digits_end : Bytes → ℕ → ℕ × Bytes
digits_end [] acc = (acc, [])
digits_end (c ∷ cs) acc =
    if isdigit c then digits_end cs (min (acc * 10 + (c - 48)) (2 ^ 64)) else (acc, c ∷ cs)

abbrev pub starts_digit : Bytes → Bool
starts_digit [] = false
starts_digit (c ∷ cs) = isdigit c

-- A number of digits in a uint64_t, negated or not; `none` where there is no digit.
unfoldable pub unsigned_at : Bool → Bytes → Option (ℕ × Bytes)
unsigned_at negative s =
    if starts_digit s
    then (let r = digits_end s 0 in
        let n = min r.0 (2 ^ 64 - 1) in some (if negative then (2 ^ 64 - n) % 2 ^ 64 else n, r.1))
    else none

unfoldable pub signed_at : Bytes → Option (ℕ × Bytes)
signed_at [] = none
signed_at (c ∷ cs) =
    if c == 45
    then unsigned_at true cs
    else if c == 43
    then unsigned_at false cs
    else unsigned_at false (c ∷ cs)

-- `strtoull(s, &end, 10)`: the number and what `end` points at, and `none` where that is `s`.
unfoldable pub strtoull : Bytes → Option (ℕ × Bytes)
strtoull [] = none
strtoull (c ∷ cs) = if isspace c then strtoull cs else signed_at (c ∷ cs)

-- `strchr(s, b)`: what stands before and behind the first `b`.
unfoldable pub split_at : ℕ → Bytes → Option (Bytes × Bytes)
split_at b [] = none
split_at b (c ∷ cs) =
    if c == b
    then some ([], cs)
    else elim (split_at b cs) [ none ↦ none | some (before, behind) ↦ some (c ∷ before, behind) ]

unfoldable pub is_prefix : Bytes → Bytes → Bool
is_prefix [] s = true
is_prefix (x ∷ xs) [] = false
is_prefix (x ∷ xs) (y ∷ ys) = (x == y) && is_prefix xs ys

-- Whether `strstr(s, word)` finds the word.
unfoldable pub strstr : Bytes → Bytes → Bool
strstr [] word = is_prefix word []
strstr (c ∷ cs) word = is_prefix word (c ∷ cs) || strstr cs word
