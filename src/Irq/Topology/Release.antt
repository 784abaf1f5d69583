-- ===== src/Irq/Topology/Release.antt =====
-- cputree.c: parse_cpu_tree, clear_cpu_tree and clear_work_stats.
use code_analyze.Prelude.{ℕ, zero, suc, Option, none, some, List, []}
use code_analyze.Irq.Cpumask.{cpus_complement}
use code_analyze.Irq.Types.{Ptr, State, set_irq, set_obj, crash}
use code_analyze.Irq.Lists.{for_each, for_each_irq}
use code_analyze.Irq.Numa.{freed}
use code_analyze.Irq.Topology.Cpu.{CpuFiles, do_one_cpu}

-- The entries of /sys/devices/system/cpu that are CPUs; `none` is a directory that cannot be opened.
unfoldable pub parse_cpu_tree : Option (List CpuFiles) → State → State
parse_cpu_tree dir s =
    let t = record s { unbanned_cpus = cpus_complement s.banned_cpus } in
    elim dir [ none ↦ t | some entries ↦ for_each entries do_one_cpu t ]

abbrev pub free_object : Ptr → State → State
free_object o s = set_obj o freed s

-- The loops that take the first item off each list until it is empty.
unfoldable pub clear_packages : State → State
clear_packages s = record (for_each s.packages free_object s) { packages = []; package_count = 0 }

unfoldable pub clear_cache_domains : State → State
clear_cache_domains s = record (for_each s.cache_domains free_object s) {
  cache_domains = [];
  cache_domain_count = 0;
}

unfoldable pub clear_cpus : State → State
clear_cpus s = record (for_each s.cpus free_object s) { cpus = []; core_count = 0 }

unfoldable pub clear_cpu_tree : State → State
clear_cpu_tree s = clear_cpus (clear_cache_domains (clear_packages s))

unfoldable pub clear_irq_stats : Ptr → State → State
clear_irq_stats p s = set_irq p (record (s.irqs p) { load = 0 }) s

-- The recursion to the children has the given depth at most: past it the stack is exhausted. An object
-- with no interrupts hands NULL to for_each_irq, which then takes the whole database.
unfoldable pub clear_obj_stats : ℕ → Ptr → State → State
clear_obj_stats zero d s = crash s
clear_obj_stats (suc depth) d s =
    let below = for_each (s.objs d).children (clear_obj_stats depth) s in
    for_each_irq below.interrupts_db (below.objs d).interrupts clear_irq_stats below

-- The levels from the nodes to the CPUs.
abbrev pub stats_depth : ℕ
stats_depth = 4

unfoldable pub clear_work_stats : State → State
clear_work_stats s = for_each s.numa_nodes (clear_obj_stats stats_depth) s
