-- ===== src/Irq/Tests/Measure.antt =====
-- The measurement at concrete files, on a tree with one CPU.
use code_analyze.Prelude.{
  ℕ, ◌+◌, ◌*◌, ◌%◌, ◌<◌, ◌≤◌, ◌≡◌, refl, false, Option, none, some, List, [], ◌∷◌, ◌++◌, map, count,
  All, arith, ◌==◌, if◌then◌else◌,
}
use code_analyze.Irq.Types.{
  Ptr, ObjType, obj_cpu, obj_cache, obj_package, obj_node, TopoObj, State, u64_mod,
}
use code_analyze.Irq.Lists.{for_each}
use code_analyze.Irq.Load.{
  Jiffies, get_parent_branch_irq_count_share, accumulate_irq_count, compute_irq_branch_load_share,
  parse_proc_stat,
}
use code_analyze.Irq.Load.Returns.{Levels, parse_proc_stat_returns}
use code_analyze.Irq.Load.Slices.{total_load, share_bounds}
use code_analyze.Irq.Load.Gains.{OneLevel, handed_on, share_loop_gains}
use code_analyze.Irq.Proc.{ProcInts, is_numeric, parse_proc_interrupts}
use code_analyze.Irq.Proc.Table.{Row, IsRow, print_row, note_rows, parse_proc_interrupts-print_row}
use code_analyze.Irq.Text.{Bytes, strtoull, signed_at, unsigned_at}
use code_analyze.Irq.Tests.{node_with, two_irqs, state_with, placed_state}

-- The CPU at 1 has both interrupts; 2 is its cache domain, 3 its package and 4 its node.
abbrev level_at : ℕ → ObjType
level_at o =
    if o == 1
    then obj_cpu
    else if o == 2
    then obj_cache
    else if o == 3
    then obj_package
    else obj_node

abbrev parent_at : ℕ → Option Ptr
parent_at o = if o == 1 then some 2 else if o == 2 then some 3 else if o == 3 then some 4 else none

abbrev children_at : ℕ → List Ptr
children_at o = if o == 2 then 1 ∷ [] else if o == 3 then 2 ∷ [] else if o == 4 then 3 ∷ [] else []

abbrev tree_object : Ptr → TopoObj
tree_object o = record (node_with two_irqs o) {
  load = 100;
  obj_type = level_at o;
  number = some o;
  parent = parent_at o;
  children = children_at o;
  interrupts = if o == 1 then two_irqs else [];
}

abbrev tree : State
tree = record (state_with (some 1) two_irqs []) {
  objs = tree_object;
  cpus = 1 ∷ [];
  cache_domains = 2 ∷ [];
  packages = 3 ∷ [];
  numa_nodes = 4 ∷ [];
}

tree-Levels : Levels tree
tree-Levels = record {
  higher = λ o p h. ground (arith, h);
  has_children = λ o p h. ground (arith, h);
}

abbrev jiffies : Jiffies
jiffies = record { nanoseconds = λ n. n * 10000000; loads = λ line. some (1, 2) }

-- "cpu0 1 2\n", "cpu1 1 2\n" and "intr\n".
abbrev stat_lines : List Bytes
stat_lines =
    (99 ∷ 112 ∷ 117 ∷ 10 ∷ [])
    ∷ (99 ∷ 112 ∷ 117 ∷ 49 ∷ 32 ∷ 49 ∷ 32 ∷ 50 ∷ 10 ∷ [])
    ∷ (105 ∷ 110 ∷ 116 ∷ 114 ∷ 10 ∷ [])
    ∷ []

parse_proc_stat_returns_example : (parse_proc_stat jiffies (some stat_lines) tree).crashed ≡ false
parse_proc_stat_returns_example = parse_proc_stat_returns jiffies (some stat_lines) tree tree-Levels

-- Each of the interrupts of the CPU has come ten times.
branch_count : get_parent_branch_irq_count_share 4 tree 1 ≡ some 20
unfolding get_parent_branch_irq_count_share accumulate_irq_count for_each
branch_count = refl

share_bounds_example :
    let t = compute_irq_branch_load_share 4 1 tree in
    ((p : Ptr) → 0 < count p two_irqs → 0 < (t.irqs p).load)
    × (total_load t.irqs two_irqs ≤ 100 + 2)
share_bounds_example = share_bounds 4 1 tree 20 branch_count (omega arith)

tree-OneLevel : OneLevel tree.objs (1 ∷ [])
tree-OneLevel = record { once = λ q. ground arith; apart = λ d q hd hq. ground (arith, hd, hq) }

share_loop_gains_example :
    (((for_each (1 ∷ []) (compute_irq_branch_load_share 4) tree).objs 2).load) % u64_mod
    ≡ (100 + handed_on tree.objs 2 (1 ∷ [])) % u64_mod
share_loop_gains_example = share_loop_gains 4 (1 ∷ []) 2 tree tree-OneLevel (omega arith)

-- Two rows of counts on two CPUs.
abbrev rows : List Row
rows =
    record { pad = 2; number = 1; counts = (3, 15) ∷ (8, 15) ∷ []; names = 32 ∷ 73 ∷ 79 ∷ 10 ∷ [] }
    ∷ record {
      pad = 2;
      number = 2;
      counts = (3, 20) ∷ (8, 20) ∷ [];
      names = 32 ∷ 73 ∷ 79 ∷ 10 ∷ [];
    }
    ∷ []

names_follow : strtoull (32 ∷ 73 ∷ 79 ∷ 10 ∷ []) ≡ none
unfolding strtoull signed_at unsigned_at
names_follow = refl

rows-IsRow : All IsRow rows
rows-IsRow = (
  record { number_fits = omega arith; counts_fit = omega arith; names_follow = names_follow },
  (record { number_fits = omega arith; counts_fit = omega arith; names_follow = names_follow }, tt),
)

-- "ERR: 0\n".
abbrev err_line : Bytes
err_line = 69 ∷ 82 ∷ 82 ∷ 58 ∷ 32 ∷ 48 ∷ 10 ∷ []

err_line_last : is_numeric err_line ≡ false
unfolding is_numeric
err_line_last = refl

abbrev before : ProcInts
before = record { state = placed_state; proc_int_has_msi = false; msi_found_in_sysfs = false }

parse_proc_interrupts-print_row_example :
    (parse_proc_interrupts (some ([] ∷ map print_row rows ++ err_line ∷ [])) before).state
    ≡ (note_rows rows before).state
parse_proc_interrupts-print_row_example =
    parse_proc_interrupts-print_row [] rows err_line before rows-IsRow err_line_last
