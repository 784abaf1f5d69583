-- ===== src/Irq/Text/Decimal.antt =====
-- Decimal numbers as printf prints them, and how strtoull and strtoul read them.
use code_analyze.Prelude.{
  ℕ, zero, suc, ◌+◌, ◌*◌, ◌/◌, ◌%◌, ◌^◌, ◌<◌, ◌≤◌, ◌≡◌, ◌⊎◌, refl, ◌∙◌, min, true, false, some, [],
  ◌∷◌, ◌++◌, ◌==◌, if◌then◌else◌, arith, ◌-◌, Bool-cases, inl, inr, All,
}
use code_analyze.Irq.Text.{
  Bytes, isdigit, digits_end, starts_digit, unsigned_at, signed_at, strtoull, strtoul, read_digits,
  read_sign, split_at,
}

print_digits : ℕ → ℕ → Bytes → Bytes
print_digits zero n out = out
print_digits (suc f) n out =
    let more = print_digits f (n / 10) ((48 + n % 10) ∷ out) in if n == 0 then out else more

-- `%u` of printf.
pub decimal : ℕ → Bytes
unfolding print_digits
decimal n = if n == 0 then 48 ∷ [] else print_digits n n []

-- A field width is filled with spaces at the left.
abbrev pub spaces : ℕ → Bytes → Bytes
spaces zero s = s
spaces (suc k) s = 32 ∷ spaces k s

digits_end-print_digits :
    (f n : ℕ) (out rest : Bytes)
    → n ≤ f
    → n < 2 ^ 64
    → digits_end (print_digits f n out ++ rest) 0 ≡ digits_end (out ++ rest) n
unfolding print_digits digits_end
digits_end-print_digits zero n out rest h b = ground (arith)
digits_end-print_digits (suc f) n out rest h b =
    ground (arith, digits_end-print_digits f (n / 10) ((48 + n % 10) ∷ out) rest)

print_digits_digit :
    (f n : ℕ) (out rest : Bytes)
    → (0 < n) ⊎ (starts_digit (out ++ rest) ≡ true)
    → n ≤ f
    → starts_digit (print_digits f n out ++ rest) ≡ true
unfolding print_digits
print_digits_digit zero n out rest h b = ground arith
print_digits_digit (suc f) n out rest h b =
    ground (arith, print_digits_digit f (n / 10) ((48 + n % 10) ∷ out) rest)

pub decimal_digit : (n : ℕ) (rest : Bytes) → starts_digit (decimal n ++ rest) ≡ true
unfolding decimal
decimal_digit n rest = ground (arith, print_digits_digit n n [] rest)

digits_end_stop : (n : ℕ) (rest : Bytes) → starts_digit rest ≡ false → digits_end rest n ≡ (n, rest)
unfolding digits_end
digits_end_stop n [] h = refl
digits_end_stop n (c ∷ cs) h = ground (arith, h)

digits_end-decimal :
    (n : ℕ) (rest : Bytes)
    → n < 2 ^ 64
    → starts_digit rest ≡ false
    → digits_end (decimal n ++ rest) 0 ≡ (n, rest)
unfolding decimal digits_end
digits_end-decimal n rest b h =
    ground (arith, digits_end-print_digits n n [] rest, digits_end_stop n rest)

unsigned_at-decimal :
    (n : ℕ) (rest : Bytes)
    → n < 2 ^ 64
    → starts_digit rest ≡ false
    → unsigned_at false (decimal n ++ rest) ≡ some (n, rest)
unfolding unsigned_at
unsigned_at-decimal n rest b h =
    rw (decimal_digit n rest, digits_end-decimal n rest b h) (ground (arith, b))

-- A text that begins with a digit begins with no space and no sign.
strtoull_digit : (s : Bytes) → starts_digit s ≡ true → strtoull s ≡ unsigned_at false s
unfolding strtoull signed_at
strtoull_digit [] h = absurd (ground (arith, h))
strtoull_digit (c ∷ cs) h = ground (arith, h)

pub strtoull-decimal :
    (k n : ℕ) (rest : Bytes)
    → n < 2 ^ 64
    → starts_digit rest ≡ false
    → strtoull (spaces k (decimal n ++ rest)) ≡ some (n, rest)
unfolding strtoull
strtoull-decimal zero n rest b h =
    strtoull_digit (decimal n ++ rest) (decimal_digit n rest) ∙ unsigned_at-decimal n rest b h
strtoull-decimal (suc k) n rest b h = strtoull-decimal k n rest b h

read_digits-digits_end : (s : Bytes) (acc : ℕ) → read_digits s acc ≡ (digits_end s acc).0
unfolding read_digits digits_end
read_digits-digits_end [] acc = refl
read_digits-digits_end (c ∷ cs) acc =
    ground (arith, read_digits-digits_end cs (min (acc * 10 + (c - 48)) (2 ^ 64)))

strtoul_digit :
    (s : Bytes) → starts_digit s ≡ true → strtoul s ≡ min (digits_end s 0).0 (2 ^ 64 - 1)
unfolding strtoul read_sign
strtoul_digit [] h = absurd (ground (arith, h))
strtoul_digit (c ∷ cs) h = ground (arith, h, read_digits-digits_end (c ∷ cs) 0)

pub strtoul-decimal :
    (k n : ℕ) (rest : Bytes)
    → n < 2 ^ 64
    → starts_digit rest ≡ false
    → strtoul (spaces k (decimal n ++ rest)) ≡ n
unfolding strtoul
strtoul-decimal zero n rest b h =
    strtoul_digit (decimal n ++ rest) (decimal_digit n rest)
    ∙ rw (digits_end-decimal n rest b h) (omega arith)
strtoul-decimal (suc k) n rest b h = strtoul-decimal k n rest b h

abbrev pub AllDigits : Bytes → Type 0
AllDigits = All (λ c. isdigit c ≡ true)

print_digits-AllDigits : (f n : ℕ) (out : Bytes) → AllDigits out → AllDigits (print_digits f n out)
unfolding print_digits
print_digits-AllDigits zero n out h = h
print_digits-AllDigits (suc f) n out h = elim (Bool-cases (n == 0)) [
  | inl e ↦ rw e h
  | inr e ↦ rw e (print_digits-AllDigits f (n / 10) ((48 + n % 10) ∷ out) (ground arith, h))
]

decimal-AllDigits : (n : ℕ) → AllDigits (decimal n)
unfolding decimal
decimal-AllDigits n = elim (Bool-cases (n == 0)) [
  | inl e ↦ rw e (refl, tt)
  | inr e ↦ rw e (print_digits-AllDigits n n [] tt)
]

split_at_digits :
    (s rest : Bytes) (b : ℕ)
    → AllDigits s
    → isdigit b ≡ false
    → split_at b (s ++ b ∷ rest) ≡ some (s, rest)
unfolding split_at
split_at_digits [] rest b h nb = ground arith
split_at_digits (c ∷ cs) rest b h nb =
    let differs : (c == b) ≡ false = ground (arith, h.0, nb) in
    rw (differs, split_at_digits cs rest b h.1 nb) refl

-- The text before the first `b`, where that follows a number.
pub split_at-decimal :
    (k n b : ℕ) (rest : Bytes)
    → isdigit b ≡ false
    → (b == 32) ≡ false
    → split_at b (spaces k (decimal n ++ b ∷ rest)) ≡ some (spaces k (decimal n), rest)
unfolding split_at
split_at-decimal zero n b rest nb ns = split_at_digits (decimal n) rest b (decimal-AllDigits n) nb
split_at-decimal (suc k) n b rest nb ns =
    let differs : (32 == b) ≡ false = ground (arith, ns) in
    rw (differs, split_at-decimal k n b rest nb ns) refl
