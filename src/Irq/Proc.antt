-- ===== src/Irq/Proc.antt =====
-- /proc/interrupts in procinterrupts.c: parse_proc_interrupts and collect_full_irq_list. A file is
-- what the buffer `line` holds after each call of getline, the last call before feof included.
pub mod Collect
pub mod Table
pub mod Shape
use code_analyze.Prelude.{
  ℕ, zero, suc, ◌+◌, ◌%◌, ◌^◌, Bool, true, false, not, ◌&&◌, ◌||◌, Option, none, some, List, [],
  ◌∷◌, ltb, ◌==◌, if◌then◌else◌, length,
}
use code_analyze.Irq.Text.{Bytes, isdigit, strtoul, strtoull, split_at, strstr}
use code_analyze.Irq.Types.{Ptr, IrqType, msi, msix, IrqInfo, State, set_irq, add64}
use code_analyze.Irq.Db.{get_irq_info}

-- The state with the two static flags of the file.
pub record ProcInts : Type 0 where
  pub state : State
  pub proc_int_has_msi : Bool
  pub msi_found_in_sysfs : Bool

abbrev pub isblank : ℕ → Bool
isblank c = c == 32 || c == 9

-- Whether the first character that is not blank is a digit.
unfoldable pub is_numeric : Bytes → Bool
is_numeric [] = false
is_numeric (c ∷ cs) = if isblank c then is_numeric cs else isdigit c

-- An int is kept as its 32 bits.
abbrev pub line_number : Bytes → ℕ
line_number s = strtoul s % 2 ^ 32

-- The inner loop, from `count` and `cpunr` on. Each round reads a digit at least, so the length of the
-- text is fuel enough.
unfoldable pub scan_counts : ℕ → Bytes → ℕ → ℕ → ℕ × ℕ
scan_counts zero c count cpunr = (count, cpunr)
scan_counts (suc fuel) c count cpunr = elim (strtoull c) [
  | none ↦ (count, cpunr)
  | some (n, c2) ↦ scan_counts fuel c2 (add64 count n) (cpunr + 1)
]

unfoldable pub line_counts : Bytes → ℕ × ℕ
unfolding scan_counts
line_counts c = scan_counts (length c + 1) c 0 0

abbrev pub is_msi : IrqType → Bool
is_msi msi = true
is_msi msix = true
is_msi _ = false

abbrev pub ask_rescan : ProcInts → ProcInts
ask_rescan p = record p { state = record (p.state) { need_rescan = true } }

abbrev pub note_count : Ptr → ℕ → State → State
note_count q count s =
    set_irq q (record (s.irqs q) { last_irq_count = (s.irqs q).irq_count; irq_count = count }) s

-- What is done with the number, the sum and the number of CPUs of a line, and whether the loop goes on.
unfoldable pub note_line : ℕ → ℕ → ℕ → ProcInts → ProcInts × Bool
note_line number count cpunr p = elim (get_irq_info number p.state) [
  | none ↦ (ask_rescan p, false)
  | some q ↦
      if not (cpunr == p.state.core_count)
      then (ask_rescan p, false)
      else if ltb count (p.state.irqs q).irq_count
      then (ask_rescan p, false)
      else (
        record p {
          state = note_count q count p.state;
          msi_found_in_sysfs = p.msi_found_in_sysfs || is_msi (p.state.irqs q).irq_type;
        },
        true,
      )
]

-- "MSI".
abbrev pub msi_word : Bytes
msi_word = 77 ∷ 83 ∷ 73 ∷ []

abbrev pub note_msi : Bytes → ProcInts → ProcInts
note_msi line p = record p { proc_int_has_msi = p.proc_int_has_msi || strstr line msi_word }

unfoldable pub read_line : Bytes → ProcInts → ProcInts × Bool
read_line line before =
    let p = note_msi line before in
    if not (is_numeric line) then (p, false) else elim (split_at 58 line) [
      | none ↦ (p, true)
      | some (front, c) ↦
          let counts = line_counts c in note_line (line_number front) counts.0 counts.1 p
    ]

unfoldable pub read_lines : List Bytes → ProcInts → ProcInts
read_lines [] p = p
read_lines (line ∷ lines) p =
    let r = read_line line p in let more = read_lines lines r.0 in if r.1 then more else r.0

-- The warning is given once.
abbrev pub warn_msi : ProcInts → ProcInts
warn_msi p = record p {
  msi_found_in_sysfs = p.msi_found_in_sysfs || p.proc_int_has_msi && not p.state.need_rescan;
}

-- `none` is a file that cannot be opened; the first line is the head of the table.
unfoldable pub parse_proc_interrupts : Option (List Bytes) → ProcInts → ProcInts
parse_proc_interrupts none p = p
parse_proc_interrupts (some []) p = p
parse_proc_interrupts (some (head ∷ lines)) p = warn_msi (read_lines lines p)
