-- ===== src/Irq/Proc/Collect.antt =====
-- collect_full_irq_list of procinterrupts.c.
use code_analyze.Prelude.{ℕ, zero, suc, not, Option, none, some, List, [], ◌∷◌, ◌==◌, if◌then◌else◌}
use code_analyze.Irq.Text.{Bytes, split_at, strstr}
use code_analyze.Irq.Types.{IrqInfo, HintPolicy, virt_event, State}
use code_analyze.Irq.Db.{new_irq}
use code_analyze.Irq.Proc.{is_numeric, line_number}

-- The first n bytes.
unfoldable pub take_bytes : ℕ → Bytes → Bytes
take_bytes zero s = []
take_bytes (suc n) [] = []
take_bytes (suc n) (c ∷ cs) = c ∷ take_bytes n cs

abbrev pub close_token : Bytes → List Bytes → List Bytes
close_token [] ts = ts
close_token (c ∷ cs) ts = (c ∷ cs) ∷ ts

-- The tokens of strtok_r with " ": the first is still open where the text is in one.
unfoldable pub tokens_open : Bytes → Bytes × List Bytes
tokens_open [] = ([], [])
tokens_open (c ∷ cs) =
    let r = tokens_open cs in if c == 32 then ([], close_token r.0 r.1) else (c ∷ r.0, r.1)

unfoldable pub tokens : Bytes → List Bytes
unfolding tokens_open
tokens s = let r = tokens_open s in close_token r.0 r.1

-- `irq_name`: the token before the last, or the only one.
unfoldable pub irq_name : List Bytes → Bytes
irq_name [] = []
irq_name (t ∷ []) = t
irq_name (t ∷ u ∷ []) = t
irq_name (t ∷ u ∷ v ∷ ts) = irq_name (u ∷ v ∷ ts)

-- "xen-dyn-event".
abbrev pub xen_word : Bytes
xen_word = 120 ∷ 101 ∷ 110 ∷ 45 ∷ 100 ∷ 121 ∷ 110 ∷ 45 ∷ 101 ∷ 118 ∷ 101 ∷ 110 ∷ 116 ∷ []

abbrev pub irq_virt_event : ℕ
irq_virt_event = 7

abbrev pub saved_size : ℕ
saved_size = 1024

unfoldable pub collected : HintPolicy → Bytes → ℕ → IrqInfo
collected policy line number =
    if strstr (irq_name (tokens (take_bytes saved_size line))) xen_word
    then record (new_irq number) {
      irq_type = virt_event;
      class = irq_virt_event;
      hint_policy = policy;
    }
    else record (new_irq number) { hint_policy = policy }

unfoldable pub collect_lines : HintPolicy → List Bytes → List IrqInfo
collect_lines policy [] = []
collect_lines policy (line ∷ lines) =
    let rest = collect_lines policy lines in
    if not (is_numeric line) then [] else elim (split_at 58 line) [
      | none ↦ rest
      | some (front, c) ↦ collected policy line (line_number front) ∷ rest
    ]

unfoldable pub collect_full_irq_list : Option (List Bytes) → State → List IrqInfo
collect_full_irq_list none s = []
collect_full_irq_list (some []) s = []
collect_full_irq_list (some (head ∷ lines)) s = collect_lines s.global_hint_policy lines
