-- ===== src/Irq/Load.antt =====
-- parse_proc_stat of procinterrupts.c: the loads of the CPUs, and the shares of the interrupts.
pub mod Shape
pub mod Changes
pub mod Returns
pub mod Slices
pub mod Gains
use code_analyze.Prelude.{
  ℕ, zero, suc, ◌+◌, ◌*◌, ◌/◌, ◌%◌, ◌^◌, Bool, true, false, not, Option, none, some, List, [], ◌∷◌,
  ◌==◌, if◌then◌else◌, length,
}
use code_analyze.Irq.Text.{Bytes, strtoul, strstr}
use code_analyze.Irq.Cpumask.{cpu_isset}
use code_analyze.Irq.Types.{
  Ptr, IrqInfo, TopoObj, State, set_irq, set_obj, crash, add64, sub64, u64_mod,
}
use code_analyze.Irq.Lists.{for_each}

-- `find_cpu_core(cpunr)` of cputree.c, on an int as its 32 bits.
unfoldable pub find_number : (Ptr → TopoObj) → ℕ → List Ptr → Option Ptr
find_number objs n [] = none
find_number objs n (o ∷ os) = elim ((objs o).number) [
  | none ↦ find_number objs n os
  | some m ↦ elim (m == n) [ true ↦ some o | false ↦ find_number objs n os ]
]

unfoldable pub find_cpu_core : ℕ → State → Option Ptr
find_cpu_core n s = find_number s.objs n s.cpus

abbrev pub get_cpu_count : State → ℕ
get_cpu_count s = length s.cpus

-- What is outside of the program: `nanoseconds n` is the product of n and NSEC_PER_SEC / HZ, which are
-- doubles, as a uint64_t; `loads` is what sscanf reads of the irq and the softirq time of a line, and
-- `none` where it reads less than both.
pub record Jiffies : Type 0 where
  pub nanoseconds : ℕ → ℕ
  pub loads : Bytes → Option (ℕ × ℕ)

-- "cpu".
abbrev pub cpu_word : Bytes
cpu_word = 99 ∷ 112 ∷ 117 ∷ []

-- `&line[3]`.
abbrev pub behind_cpu : Bytes → Bytes
behind_cpu (a ∷ b ∷ c ∷ s) = s
behind_cpu _ = []

unfoldable pub set_cpu_load : Jiffies → ℕ → Ptr → State → State
set_cpu_load j total cpu s =
    let d = s.objs cpu in
    set_obj cpu
      (record d {
        load = if s.cycle_count == 0 then d.load else j.nanoseconds (sub64 total d.last_load);
        last_load = total;
      })
      s

-- The loop over the lines; `cpucount` and whether there are more rounds are returned.
unfoldable pub read_stat : Jiffies → Bytes → State × ℕ → (State × ℕ) × Bool
read_stat j line (s, cpucount) =
    let cpunr = strtoul (behind_cpu line) % 2 ^ 32 in
    if not (strstr line cpu_word)
    then ((s, cpucount), false)
    else if cpu_isset cpunr s.banned_cpus
    then ((s, cpucount), true)
    else elim (j.loads line) [
      | none ↦ ((s, cpucount), false)
      | some (irq_load, softirq_load) ↦ elim (find_cpu_core cpunr s) [
        | none ↦ ((s, cpucount), false)
        | some cpu ↦ ((set_cpu_load j (add64 irq_load softirq_load) cpu s, cpucount + 1), true)
      ]
    ]

unfoldable pub read_stats : Jiffies → List Bytes → State × ℕ → State × ℕ
read_stats j [] v = v
read_stats j (line ∷ lines) v =
    let r = read_stat j line v in let more = read_stats j lines r.0 in if r.1 then more else r.0

-- The recursion to the parents has the given depth at most: past it the stack is exhausted.
unfoldable pub reset_load : ℕ → Ptr → State → State
reset_load zero d s = crash s
reset_load (suc depth) d s =
    let above : State = elim ((s.objs d).parent) [ none ↦ s | some up ↦ reset_load depth up s ] in
    set_obj d (record (above.objs d) { load = 0 }) above

abbrev pub irq_diff : IrqInfo → ℕ
irq_diff i = sub64 i.irq_count i.last_irq_count

unfoldable pub accumulate_irq_count : State → Ptr → ℕ → ℕ
accumulate_irq_count s p acc = add64 acc (irq_diff (s.irqs p))

-- `none` is a division by 0, and the end of the stack.
unfoldable pub get_parent_branch_irq_count_share : ℕ → State → Ptr → Option ℕ
get_parent_branch_irq_count_share zero s d = none
get_parent_branch_irq_count_share (suc depth) s d =
    let here =
      λ (total : ℕ). some (for_each (s.objs d).interrupts (accumulate_irq_count s) total) in
    elim ((s.objs d).parent) [
      | none ↦ here 0
      | some up ↦ elim (get_parent_branch_irq_count_share depth s up) [
        | none ↦ none
        | some total ↦
            if length (s.objs up).children == 0
            then none
            else here (total / length (s.objs up).children)
      ]
    ]

abbrev pub at_least_one : ℕ → ℕ
at_least_one n = if n == 0 then 1 else n

unfoldable pub assign_load_slice : ℕ → Ptr → State → State
assign_load_slice load_slice p s =
    set_irq p
      (record (s.irqs p) { load = at_least_one ((irq_diff (s.irqs p) * load_slice) % u64_mod) }) s

abbrev pub slice_of : ℕ → ℕ → ℕ
slice_of load local_irq_counts = if local_irq_counts == 0 then 1 else load / local_irq_counts

unfoldable pub add_to_parent : Ptr → State → State
add_to_parent d s = elim ((s.objs d).parent) [
  | none ↦ s
  | some up ↦ set_obj up (record (s.objs up) { load = add64 (s.objs up).load (s.objs d).load }) s
]

-- The slices of the interrupts of an object, if there are any.
unfoldable pub assign_slices : ℕ → Ptr → State → State
assign_slices depth d s =
    if length (s.objs d).interrupts == 0
    then s
    else elim (get_parent_branch_irq_count_share depth s d) [
      | none ↦ crash s
      | some local_irq_counts ↦
          for_each (s.objs d).interrupts
            (assign_load_slice (slice_of (s.objs d).load local_irq_counts)) s
    ]

unfoldable pub compute_irq_branch_load_share : ℕ → Ptr → State → State
compute_irq_branch_load_share depth d s =
    let divisor = at_least_one (length (s.objs d).children) in
    let divided = set_obj d (record (s.objs d) { load = (s.objs d).load / divisor }) s in
    add_to_parent d (assign_slices depth d divided)

-- The levels from the CPUs to the nodes.
abbrev pub tree_depth : ℕ
tree_depth = 4

unfoldable pub share_loads : State → State
share_loads s =
    let a = for_each s.cache_domains (reset_load tree_depth) s in
    let b = for_each a.cpus (compute_irq_branch_load_share tree_depth) a in
    let c = for_each b.cache_domains (compute_irq_branch_load_share tree_depth) b in
    let d = for_each c.packages (compute_irq_branch_load_share tree_depth) c in
    for_each d.numa_nodes (compute_irq_branch_load_share tree_depth) d

-- `none` is a file that cannot be opened; the first line is the sum over the CPUs.
unfoldable pub parse_proc_stat : Jiffies → Option (List Bytes) → State → State
parse_proc_stat j none s = s
parse_proc_stat j (some []) s = s
parse_proc_stat j (some (sum ∷ lines)) s =
    let r = read_stats j lines (s, 0) in if r.1 == get_cpu_count r.0 then share_loads r.0 else r.0
