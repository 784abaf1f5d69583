-- ===== src/Irq/Topology/Cpu.antt =====
-- do_one_cpu of cputree.c, and add_package_to_node of numa.c, which it calls.
pub mod Tree
pub mod Count
use code_analyze.Prelude.{
  ℕ, ◌+◌, Bool, true, false, Option, none, some, List, [], ◌∷◌, ◌++◌, ◌==◌, if◌then◌else◌, update,
}
use code_analyze.Irq.Cpumask.{Cpumask, cpus_clear, cpu_set, cpus_and, cpus_intersects}
use code_analyze.Irq.Types.{Ptr, obj_cpu, TopoObj, State, set_obj}
use code_analyze.Irq.Numa.{get_numa_node}
use code_analyze.Irq.Topology.{new_domain, add_cpu_to_cache_domain, add_cache_domain_to_package}

-- What sysfs says of a CPU: `offline` is whether the line of `online` begins with 0; `caches` has what
-- each of the files shared_cpu_map from index1 on has, up to the first that is missing; `stack_mask` is
-- what the variable `package_mask`, which is not initialised, has.
pub record CpuFiles : Type 0 where
  pub number : ℕ
  pub offline : Bool
  pub stack_mask : Cpumask
  pub core_siblings : Option Cpumask
  pub physical_package_id : Option ℕ
  pub caches : List (Option Cpumask)
  pub node : Option ℕ

abbrev pub or_mask : Option Cpumask → Cpumask → Cpumask
or_mask none m = m
or_mask (some n) m = n

abbrev pub or_number : Option ℕ → ℕ
or_number none = 0
or_number (some n) = n

-- The file of the last index that the loop over `cache_index` finds.
unfoldable pub last_cache : ℕ → ℕ → Option Cpumask → List (Option Cpumask) → Option Cpumask
last_cache deepest cache_index found [] = found
last_cache deepest cache_index found (c ∷ cs) =
    if cache_index == deepest then c else last_cache deepest (cache_index + 1) c cs

unfoldable pub add_package_to_node : Ptr → Option ℕ → State → State
add_package_to_node p nodeid s = elim (get_numa_node nodeid s) [
  | none ↦ s
  | some node ↦ elim (s.objs p).parent [
    | some o ↦ s
    | none ↦
        let t =
          set_obj node (record (s.objs node) { children = (s.objs node).children ++ p ∷ [] }) s in
        set_obj p (record (t.objs p) { parent = some node }) t
  ]
]

-- The CPU as it is allocated.
unfoldable pub new_cpu : ℕ → State → State
new_cpu number s =
    record (set_obj s.next_obj (new_domain obj_cpu number (cpu_set number cpus_clear)) s) {
      next_obj = s.next_obj + 1;
      cpu_possible_map = cpu_set number s.cpu_possible_map;
    }

-- A CPU that is neither offline nor banned.
unfoldable pub add_cpu : CpuFiles → State → State
add_cpu files s =
    let cpu = s.next_obj in
    let own = cpu_set files.number cpus_clear in
    let package_mask = or_mask files.core_siblings (cpu_set files.number files.stack_mask) in
    let cache_mask = or_mask (last_cache s.deepest_cache 1 none files.caches) own in
    let a =
      add_cpu_to_cache_domain cpu (cpus_and cache_mask s.unbanned_cpus) (new_cpu files.number s) in
    let b =
      add_cache_domain_to_package a.0 (or_number files.physical_package_id)
        (cpus_and package_mask s.unbanned_cpus) a.1 in
    let c = add_package_to_node b.0 (if s.numa_avail then files.node else none) b.1 in
    record c { cpus = c.cpus ++ cpu ∷ []; core_count = c.core_count + 1 }

unfoldable pub do_one_cpu : CpuFiles → State → State
do_one_cpu files s =
    if files.offline
    then s
    else if cpus_intersects (cpu_set files.number cpus_clear) s.banned_cpus
    then record s {
      core_count = s.core_count + 1;
      cpu_possible_map = cpu_set files.number s.cpu_possible_map;
    }
    else add_cpu files s
