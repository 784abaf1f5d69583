-- ===== src/Irq/Tests/Cpus.antt =====
-- The tree of the CPUs at concrete files.
use code_analyze.Prelude.{◌<◌, ◌≡◌, refl, false, none, some, [], ◌∷◌, count, arith, if◌then◌else◌}
use code_analyze.Irq.Cpumask.{cpus_intersects, cpu_set, cpus_clear}
use code_analyze.Irq.Types.{Ptr, State}
use code_analyze.Irq.Lists.{Place, rebalance, interrupts_of, get_list}
use code_analyze.Irq.Cycle.Start.{Fresh}
use code_analyze.Irq.Topology.Domains.{OnePerMask}
use code_analyze.Irq.Topology.Cpu.{CpuFiles, do_one_cpu}
use code_analyze.Irq.Topology.Cpu.Tree.{Tree, do_one_cpu-Tree}
use code_analyze.Irq.Topology.Cpu.Count.{do_one_cpu_lem}
use code_analyze.Irq.Tests.Database.{one_device}
use code_analyze.Irq.Cycle.{Sysfs, build_object_tree}
use code_analyze.Irq.Cycle.Bare.{Bare}
use code_analyze.Irq.Cycle.Built.{build_object_tree-Fresh}
use code_analyze.Irq.Tests.{two_once, state_with}

-- The tree and the database before the first placement.
abbrev pub new_state : State
new_state = state_with none [] []

new_listed : (at : Place) (p : Ptr) → count p (get_list at new_state) ≡ 0
unfolding get_list
new_listed rebalance p = refl
new_listed (interrupts_of o) p = ground arith

pub new_state-Fresh : Fresh new_state
new_state-Fresh = record {
  empty = new_listed;
  unassigned = λ p. refl;
  once = two_once;
  distinct = λ p q hp hq e. e;
}

-- The object at 2 is a cache domain, and the one at 1 a package.
abbrev tree_state : State
tree_state = record new_state {
  cache_domains = 2 ∷ [];
  cache_domain_count = 1;
  packages = 1 ∷ [];
  package_count = 1;
}

one_domain : (a : Ptr) → a < 3 → OnePerMask tree_state.objs 3 (a ∷ [])
one_domain a small = record {
  below = λ c h. ground (arith, h, small);
  distinct = λ x y hx hy e. ground (arith, hx, hy);
}

tree_state-Tree : Tree tree_state
tree_state-Tree = record {
  caches = record { one_each = one_domain 2 (omega arith); counted = refl };
  packages = record { one_each = one_domain 1 (omega arith); counted = refl };
}

-- CPU 1, which shares a cache and a package with CPU 0.
abbrev second_cpu : CpuFiles
second_cpu = record {
  number = 1;
  offline = false;
  stack_mask = 8 ∷ [];
  core_siblings = some (3 ∷ []);
  physical_package_id = some 0;
  caches = some (2 ∷ []) ∷ some (3 ∷ []) ∷ [];
  node = some 1;
}

do_one_cpu-Tree_example : Tree (do_one_cpu second_cpu tree_state)
do_one_cpu-Tree_example = do_one_cpu-Tree second_cpu tree_state tree_state-Tree

do_one_cpu_lem_example :
    ((do_one_cpu second_cpu tree_state).core_count ≡ 3)
    × ((do_one_cpu second_cpu tree_state).cpus
        ≡ (if cpus_intersects (cpu_set 1 cpus_clear) (0 ∷ []) then 1 ∷ [] else 1 ∷ 3 ∷ []))
do_one_cpu_lem_example = do_one_cpu_lem second_cpu tree_state

pub new_state-Bare : Bare (λ n. ⊥) new_state
new_state-Bare = record {
  objs_empty = λ o. ground arith;
  unassigned = λ p. refl;
  none_waits = refl;
  cl_old = λ p h. absurd (omega (arith, h));
  bans = λ n never. absurd never;
}

-- One node, of the first CPU, and the CPU itself; the database is that of one device.
abbrev small_system : Sysfs
small_system = record {
  node_dir = some (record { number = 0; cpumap = some (cpu_set 1 cpus_clear) } ∷ []);
  cpu_dir = some (second_cpu ∷ []);
  devices = one_device;
}

build_object_tree-Fresh_example : Fresh (build_object_tree small_system none new_state)
build_object_tree-Fresh_example = build_object_tree-Fresh small_system none new_state new_state-Bare
