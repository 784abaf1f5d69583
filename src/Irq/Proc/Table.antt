-- ===== src/Irq/Proc/Table.antt =====
-- /proc/interrupts as the kernel prints it, and what parse_proc_interrupts reads of it.
use code_analyze.Prelude.{
  ℕ, zero, suc, ◌+◌, ◌%◌, ◌^◌, ◌<◌, ◌≤◌, ◌≡◌, refl, ◌∙◌, Bool, true, false, none, some, List, [],
  ◌∷◌, ◌++◌, if◌then◌else◌, arith, length, length-append, ap, subst, All, map, Bool-cases, inl, inr,
}
use code_analyze.Irq.Text.{Bytes, starts_digit, strtoull, strtoul}
use code_analyze.Irq.Text.Decimal.{
  decimal, decimal_digit, split_at-decimal, spaces, strtoull-decimal, strtoul-decimal,
}
use code_analyze.Irq.Types.{add64}
use code_analyze.Irq.Proc.{
  ProcInts, is_numeric, line_number, scan_counts, line_counts, note_line, note_msi, read_line,
  read_lines, parse_proc_interrupts,
}

-- A row: the number of the interrupt, its count on each CPU with the spaces before it, but one, and the
-- names that follow.
pub record Row : Type 0 where
  pub pad : ℕ
  pub number : ℕ
  pub counts : List (ℕ × ℕ)
  pub names : Bytes

abbrev pub print_counts : List (ℕ × ℕ) → Bytes → Bytes
print_counts [] rest = rest
print_counts ((k, n) ∷ cs) rest = spaces (suc k) (decimal n ++ print_counts cs rest)

abbrev pub print_row : Row → Bytes
print_row r = spaces r.pad (decimal r.number ++ 58 ∷ print_counts r.counts (32 ∷ r.names))

-- The sum of the counts in 64 bits.
abbrev pub sum_counts : ℕ → List (ℕ × ℕ) → ℕ
sum_counts acc [] = acc
sum_counts acc ((k, n) ∷ cs) = sum_counts (add64 acc n) cs

-- The numbers fit their types, and the names do not begin with a number.
pub record IsRow (r : Row) : Type 0 where
  pub number_fits : r.number < 2 ^ 32
  pub counts_fit : All (λ c. c.1 < 2 ^ 64) r.counts
  pub names_follow : strtoull r.names ≡ none

print_counts_nodigit :
    (cs : List (ℕ × ℕ)) (rest : Bytes) → starts_digit (print_counts cs (32 ∷ rest)) ≡ false
print_counts_nodigit [] rest = ground arith
print_counts_nodigit ((k, n) ∷ cs) rest = ground arith

strtoull_space : (names : Bytes) → strtoull (32 ∷ names) ≡ strtoull names
unfolding strtoull
strtoull_space names = refl

scan_counts-print_counts :
    (fuel : ℕ) (cs : List (ℕ × ℕ)) (names : Bytes) (count cpunr : ℕ)
    → length cs < fuel
    → All (λ c. c.1 < 2 ^ 64) cs
    → strtoull names ≡ none
    → scan_counts fuel (print_counts cs (32 ∷ names)) count cpunr
      ≡ (sum_counts count cs, cpunr + length cs)
unfolding scan_counts
scan_counts-print_counts zero cs names count cpunr h b e = absurd (omega (arith, h))
scan_counts-print_counts (suc f) [] names count cpunr h b e =
    rw (scan_counts, strtoull_space names, e) (ground arith)
scan_counts-print_counts (suc f) ((k, n) ∷ cs) names count cpunr h b e =
    rw
      (
        scan_counts,
        strtoull-decimal (suc k) n (print_counts cs (32 ∷ names)) b.0
            (print_counts_nodigit cs names),
      )
      (scan_counts-print_counts f cs names (add64 count n) (cpunr + 1) (omega (arith, h)) b.1 e
        ∙ ground arith)

-- The text is longer than the list of its counts.
length-print_counts : (cs : List (ℕ × ℕ)) (rest : Bytes) → length cs ≤ length (print_counts cs rest)
length-print_counts [] rest = omega arith
length-print_counts ((k, n) ∷ cs) rest = omega (
  arith,
  length-print_counts cs rest,
  length-spaces k (decimal n ++ print_counts cs rest),
  length-append (decimal n) (print_counts cs rest),
)
  where
    length-spaces : (k : ℕ) (s : Bytes) → length s ≤ length (spaces k s)
    length-spaces zero s = omega arith
    length-spaces (suc k) s = omega (arith, length-spaces k s)

line_counts-print_counts :
    (cs : List (ℕ × ℕ)) (names : Bytes)
    → All (λ c. c.1 < 2 ^ 64) cs
    → strtoull names ≡ none
    → line_counts (print_counts cs (32 ∷ names)) ≡ (sum_counts 0 cs, length cs)
unfolding line_counts
line_counts-print_counts cs names b e =
    let text = print_counts cs (32 ∷ names) in
    scan_counts-print_counts (length text + 1) cs names 0 0
      (omega (arith, length-print_counts cs (32 ∷ names))) b e
    ∙ ground arith

is_numeric-digit : (s : Bytes) → starts_digit s ≡ true → is_numeric s ≡ true
unfolding is_numeric
is_numeric-digit [] h = absurd (ground (arith, h))
is_numeric-digit (c ∷ cs) h = ground (arith, h)

is_numeric-spaces : (k : ℕ) (s : Bytes) → starts_digit s ≡ true → is_numeric (spaces k s) ≡ true
unfolding is_numeric
is_numeric-spaces zero s h = is_numeric-digit s h
is_numeric-spaces (suc k) s h = is_numeric-spaces k s h

append_nil : (s : Bytes) → s ++ [] ≡ s
append_nil [] = refl
append_nil (c ∷ cs) = ap (λ t. c ∷ t) (append_nil cs)

line_number-decimal : (k n : ℕ) → n < 2 ^ 32 → line_number (spaces k (decimal n)) ≡ n
line_number-decimal k n b =
    let read = strtoul-decimal k n [] (omega (arith, b)) refl in
    subst (λ s. strtoul (spaces k s) % 2 ^ 32 ≡ n) (append_nil (decimal n))
      (rw read (omega (arith, b)))

-- What the code does with the values of a row.
abbrev pub note_row : Row → ProcInts → ProcInts × Bool
note_row r p =
    note_line r.number (sum_counts 0 r.counts) (length r.counts) (note_msi (print_row r) p)

read_line-print_row : (r : Row) (p : ProcInts) → IsRow r → read_line (print_row r) p ≡ note_row r p
unfolding read_line
read_line-print_row r p v =
    let rest = print_counts r.counts (32 ∷ r.names) in
    rw
      (
        is_numeric-spaces r.pad (decimal r.number ++ 58 ∷ rest)
            (decimal_digit r.number (58 ∷ rest)),
        split_at-decimal r.pad r.number 58 rest refl refl,
        line_number-decimal r.pad r.number v.number_fits,
        line_counts-print_counts r.counts r.names v.counts_fit v.names_follow,
      )
      refl

abbrev pub note_rows : List Row → ProcInts → ProcInts
note_rows [] p = p
note_rows (r ∷ rs) p =
    let n = note_row r p in let more = note_rows rs n.0 in if n.1 then more else n.0

read_last :
    (last : Bytes) (p : ProcInts)
    → is_numeric last ≡ false
    → (read_lines (last ∷ []) p).state ≡ p.state
unfolding read_lines read_line
read_last last p e = rw (read_lines, read_line, e) refl

read_lines-print_row :
    (rs : List Row) (last : Bytes) (p : ProcInts)
    → All IsRow rs
    → is_numeric last ≡ false
    → (read_lines (map print_row rs ++ last ∷ []) p).state ≡ (note_rows rs p).state
unfolding read_lines
read_lines-print_row [] last p h e = read_last last p e
read_lines-print_row (r ∷ rs) last p h e =
    rw (read_lines, read_line-print_row r p h.0)
      (elim (Bool-cases (note_row r p).1) [
        | inl more ↦ rw more (read_lines-print_row rs last (note_row r p).0 h.1 e)
        | inr stop ↦ rw stop refl
      ])

-- The rows of a table whose last line is not one of an interrupt are read back as the kernel printed them:
-- each in order comes to note_line, with its number, the sum of its counts in 64 bits and how many they are,
-- until one asks for a rescan. This holds for rows whose numbers fit their types and whose names do not
-- begin with a number.
pub parse_proc_interrupts-print_row :
    (head : Bytes) (rs : List Row) (last : Bytes) (p : ProcInts)
    → All IsRow rs
    → is_numeric last ≡ false
    → (parse_proc_interrupts (some (head ∷ map print_row rs ++ last ∷ [])) p).state
      ≡ (note_rows rs p).state
unfolding parse_proc_interrupts
parse_proc_interrupts-print_row head rs last p h e = read_lines-print_row rs last p h e
