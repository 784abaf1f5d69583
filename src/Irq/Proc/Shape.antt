-- ===== src/Irq/Proc/Shape.antt =====
-- What parse_proc_interrupts changes.
use code_analyze.Prelude.{
  ℕ, refl, not, Option, none, some, List, [], ◌∷◌, ltb, ◌==◌, Bool-cases, Option-cases, inl, inr,
}
use code_analyze.Irq.Text.{Bytes, split_at}
use code_analyze.Irq.Db.{get_irq_info}
use code_analyze.Irq.Load.Shape.{OnlyLoads, OnlyLoads-refl, OnlyLoads-trans, set_irq-OnlyLoads}
use code_analyze.Irq.Proc.{
  ProcInts, ask_rescan, note_line, note_msi, is_numeric, line_number, line_counts, read_line,
  read_lines, parse_proc_interrupts,
}

ask_rescan-OnlyLoads : (p : ProcInts) → OnlyLoads p.state (ask_rescan p).state
ask_rescan-OnlyLoads p = record {
  rest = refl;
  asks = λ h. refl;
  objs_same = λ o. refl;
  irqs_same = λ q. refl;
}

note_line-OnlyLoads :
    (number count cpunr : ℕ) (p : ProcInts)
    → OnlyLoads p.state (note_line number count cpunr p).0.state
unfolding note_line
note_line-OnlyLoads number count cpunr p = elim (Option-cases (get_irq_info number p.state)) [
  | inl e ↦ rw (note_line, e) (ask_rescan-OnlyLoads p)
  | inr (q, e) ↦ elim (Bool-cases (not (cpunr == p.state.core_count))) [
    | inl short ↦ rw (note_line, e, short) (ask_rescan-OnlyLoads p)
    | inr full ↦ elim (Bool-cases (ltb count (p.state.irqs q).irq_count)) [
      | inl back ↦ rw (note_line, e, full, back) (ask_rescan-OnlyLoads p)
      | inr forth ↦ rw (note_line, e, full, forth) (set_irq-OnlyLoads q _ p.state refl)
    ]
  ]
]

read_line-OnlyLoads : (line : Bytes) (p : ProcInts) → OnlyLoads p.state (read_line line p).0.state
unfolding read_line
read_line-OnlyLoads line p = elim (Bool-cases (not (is_numeric line))) [
  | inl e ↦ rw (read_line, e) (OnlyLoads-refl p.state)
  | inr e ↦ elim (Option-cases (split_at 58 line)) [
    | inl c ↦ rw (read_line, e, c) (OnlyLoads-refl p.state)
    | inr ((front, c), at) ↦
        rw (read_line, e, at)
          (note_line-OnlyLoads (line_number front) (line_counts c).0 (line_counts c).1
            (note_msi line p))
  ]
]

read_lines-OnlyLoads :
    (lines : List Bytes) (p : ProcInts) → OnlyLoads p.state (read_lines lines p).state
unfolding read_lines
read_lines-OnlyLoads [] p = OnlyLoads-refl p.state
read_lines-OnlyLoads (line ∷ lines) p =
    let first = read_line-OnlyLoads line p in
    elim (Bool-cases (read_line line p).1) [
      | inl more ↦
          rw (read_lines, more)
            (OnlyLoads-trans _ _ _ first (read_lines-OnlyLoads lines (read_line line p).0))
      | inr stop ↦ rw (read_lines, stop) first
    ]

pub parse_proc_interrupts-OnlyLoads :
    (file : Option (List Bytes)) (p : ProcInts)
    → OnlyLoads p.state (parse_proc_interrupts file p).state
unfolding parse_proc_interrupts
parse_proc_interrupts-OnlyLoads none p = OnlyLoads-refl p.state
parse_proc_interrupts-OnlyLoads (some []) p = OnlyLoads-refl p.state
parse_proc_interrupts-OnlyLoads (some (head ∷ lines)) p = read_lines-OnlyLoads lines p
