-- ===== src/Irq/Topology.antt =====
-- cputree.c: the domains of the topology, each with its mask, and the joining of a CPU to them.
pub mod Domains
pub mod Joining
pub mod Cpu
pub mod Release
use code_analyze.Prelude.{
  ℕ, ◌+◌, Bool, true, false, Option, none, some, List, [], ◌∷◌, ◌++◌, elem, ◌==◌, if◌then◌else◌,
  update,
}
use code_analyze.Irq.Cpumask.{Cpumask, cpus_equal}
use code_analyze.Irq.Types.{Ptr, ObjType, obj_cache, obj_package, TopoObj, State, set_obj}

-- A domain as it comes from calloc, with the fields that are then set.
unfoldable pub new_domain : ObjType → ℕ → Cpumask → TopoObj
new_domain type number mask = record {
  load = 0;
  last_load = 0;
  obj_type = type;
  number = some number;
  powersave_mode = false;
  mask = mask;
  interrupts = [];
  parent = none;
  children = [];
}

-- The walks over `packages` and `cache_domains` up to the first domain with the mask.
unfoldable pub find_mask : Cpumask → (Ptr → TopoObj) → List Ptr → Option Ptr
find_mask mask objs [] = none
find_mask mask objs (c ∷ cs) =
    if cpus_equal mask (objs c).mask then some c else find_mask mask objs cs

-- The child is put at the end of the children, unless it is there.
unfoldable pub add_child : Ptr → Ptr → State → State
add_child parent child s =
    if elem child (s.objs parent).children
    then s
    else let t =
        set_obj parent
          (record (s.objs parent) { children = (s.objs parent).children ++ child ∷ [] }) s in
      set_obj child (record (t.objs child) { parent = some parent }) t

unfoldable pub new_package : ℕ → Cpumask → State → State
new_package packageid package_mask s =
    record (set_obj s.next_obj (new_domain obj_package packageid package_mask) s) {
      next_obj = s.next_obj + 1;
      packages = s.packages ++ s.next_obj ∷ [];
      package_count = s.package_count + 1;
    }

unfoldable pub add_cache_domain_to_package : Ptr → ℕ → Cpumask → State → Ptr × State
add_cache_domain_to_package cache packageid package_mask s =
    elim (find_mask package_mask s.objs s.packages) [
      | none ↦ (s.next_obj, add_child s.next_obj cache (new_package packageid package_mask s))
      | some found ↦ (found, add_child found cache s)
    ]

unfoldable pub new_cache_domain : Cpumask → State → State
new_cache_domain cache_mask s =
    record (set_obj s.next_obj (new_domain obj_cache s.cache_domain_count cache_mask) s) {
      next_obj = s.next_obj + 1;
      cache_domains = s.cache_domains ++ s.next_obj ∷ [];
      cache_domain_count = s.cache_domain_count + 1;
    }

unfoldable pub add_cpu_to_cache_domain : Ptr → Cpumask → State → Ptr × State
add_cpu_to_cache_domain cpu cache_mask s = elim (find_mask cache_mask s.objs s.cache_domains) [
  | none ↦ (s.next_obj, add_child s.next_obj cpu (new_cache_domain cache_mask s))
  | some cache ↦ (cache, add_child cache cpu s)
]
