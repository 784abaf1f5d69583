-- ===== src/Irq/Numa.antt =====
-- numa.c: the list of the nodes, and the lookup of a node by its number.
use code_analyze.Prelude.{
  ℕ, ◌+◌, ◌++◌, Bool, true, false, Option, none, some, List, [], ◌∷◌, ◌==◌, if◌then◌else◌,
}
use code_analyze.Irq.Cpumask.{Cpumask, cpus_setall}
use code_analyze.Irq.Types.{Ptr, TopoObj, obj_node, State, set_obj}
use code_analyze.Irq.Lists.{for_each}

-- `&unspecified_node`.
abbrev pub unspecified_node : Ptr
unspecified_node = 0

-- The int of a node number, `none` for -1.
abbrev pub same_number : Option ℕ → Option ℕ → Bool
same_number none none = true
same_number (some a) (some b) = a == b
same_number _ _ = false

-- `g_list_find_custom(nodes, &find, compare_node)`.
unfoldable pub find_node : (Ptr → TopoObj) → Option ℕ → List Ptr → Option Ptr
find_node objs n [] = none
find_node objs n (o ∷ os) = if same_number (objs o).number n then some o else find_node objs n os

unfoldable pub get_numa_node : Option ℕ → State → Option Ptr
get_numa_node nodeid s =
    if s.numa_avail
    then elim nodeid [
      | none ↦ some unspecified_node
      | some n ↦ find_node s.objs (some n) s.numa_nodes
    ]
    else some unspecified_node

abbrev pub node_object : Option ℕ → Cpumask → TopoObj
node_object number mask = record {
  load = 0;
  last_load = 0;
  obj_type = obj_node;
  number = number;
  powersave_mode = false;
  mask = mask;
  interrupts = [];
  parent = none;
  children = [];
}

-- A directory of SYSFS_NODE_PATH whose name has "node", with the number behind it; `cpumap` is `none`
-- where that file cannot be opened, and no CPU where it cannot be read.
pub record NodeEntry : Type 0 where
  pub number : ℕ
  pub cpumap : Option Cpumask

unfoldable pub add_one_node : NodeEntry → State → State
add_one_node entry s = elim entry.cpumap [
  | none ↦ s
  | some mask ↦ record (set_obj s.next_obj (node_object (some entry.number) mask) s) {
    next_obj = s.next_obj + 1;
    numa_nodes = s.numa_nodes ++ s.next_obj ∷ [];
  }
]

-- `none` is a directory that cannot be opened.
unfoldable pub build_numa_node_list : Option (List NodeEntry) → State → State
build_numa_node_list dir s =
    let t = record (set_obj unspecified_node (node_object none cpus_setall) s) {
      numa_nodes = s.numa_nodes ++ unspecified_node ∷ [];
    } in
    if s.numa_avail
    then elim dir [ none ↦ t | some entries ↦ for_each entries add_one_node t ]
    else t

-- An object that is freed holds nothing.
abbrev pub freed : TopoObj
freed = record (node_object none []) { number = some 0 }

unfoldable pub free_numa_node : Ptr → State → State
free_numa_node o s =
    if o == unspecified_node
    then set_obj o (record (s.objs o) { children = []; interrupts = [] }) s
    else set_obj o freed s

unfoldable pub free_numa_node_list : State → State
free_numa_node_list s = record (for_each s.numa_nodes free_numa_node s) { numa_nodes = [] }
