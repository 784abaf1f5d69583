-- ===== src/Irq/Cycle/NewTree.antt =====
-- The tree that is built, of numa.c and cputree.c, has no interrupts.
use code_analyze.Prelude.{ℕ, refl, Option, List, [], ◌∷◌, ◌++◌, Option-cases, inl, inr, elem}
use code_analyze.Irq.Cpumask.{Cpumask, cpu_set, cpus_clear, cpus_intersects}
use code_analyze.Irq.Types.{Ptr, State, set_obj}
use code_analyze.Irq.Numa.{NodeEntry, add_one_node, build_numa_node_list, get_numa_node}
use code_analyze.Irq.Topology.{
  add_child, add_cache_domain_to_package, add_cpu_to_cache_domain, new_package, new_cache_domain,
  new_domain, find_mask,
}
use code_analyze.Irq.Topology.Cpu.{CpuFiles, add_package_to_node, new_cpu, add_cpu, do_one_cpu}
use code_analyze.Irq.Topology.Release.{parse_cpu_tree}
use code_analyze.Irq.Cycle.Bare.{Bare, set_obj-Bare, for_each-Bare, if-Bare, option-Bare}

-- The nodes.
add_one_node-Bare :
    {Ban : ℕ → Type 0} (entry : NodeEntry) (s : State)
    → Bare Ban s
    → Bare Ban (add_one_node entry s)
unfolding add_one_node
add_one_node-Bare entry s b =
    option-Bare entry.cpumap _ _ b (λ mask. set_obj-Bare s.next_obj _ s refl b)

pub build_numa_node_list-Bare :
    {Ban : ℕ → Type 0} (dir : Option (List NodeEntry)) (s : State)
    → Bare Ban s
    → Bare Ban (build_numa_node_list dir s)
unfolding build_numa_node_list
build_numa_node_list-Bare dir s b =
    let first = set_obj-Bare 0 _ s refl b in
    if-Bare s.numa_avail _ _
      (option-Bare dir _ _ first
        (λ entries. for_each-Bare add_one_node add_one_node-Bare entries _ first))
      first

-- The tree of the CPUs.
add_child-Bare :
    {Ban : ℕ → Type 0} (parent child : Ptr) (s : State)
    → Bare Ban s
    → Bare Ban (add_child parent child s)
unfolding add_child
add_child-Bare parent child s b =
    let t =
      set_obj parent (record (s.objs parent) { children = (s.objs parent).children ++ child ∷ [] })
        s in
    let bt : Bare _ t = set_obj-Bare parent _ s (b.objs_empty parent) b in
    if-Bare (elem child (s.objs parent).children) _ _ b
      (set_obj-Bare child _ t (bt.objs_empty child) bt)

new_package-Bare :
    {Ban : ℕ → Type 0} (id : ℕ) (mask : Cpumask) (s : State)
    → Bare Ban s
    → Bare Ban (new_package id mask s)
unfolding new_package new_domain
new_package-Bare id mask s b = set_obj-Bare s.next_obj _ s refl b

new_cache_domain-Bare :
    {Ban : ℕ → Type 0} (mask : Cpumask) (s : State)
    → Bare Ban s
    → Bare Ban (new_cache_domain mask s)
unfolding new_cache_domain new_domain
new_cache_domain-Bare mask s b = set_obj-Bare s.next_obj _ s refl b

add_cpu_to_cache_domain-Bare :
    {Ban : ℕ → Type 0} (cpu : Ptr) (mask : Cpumask) (s : State)
    → Bare Ban s
    → Bare Ban (add_cpu_to_cache_domain cpu mask s).1
unfolding add_cpu_to_cache_domain
add_cpu_to_cache_domain-Bare cpu mask s b =
    elim (Option-cases (find_mask mask s.objs s.cache_domains)) [
      | inl e ↦
          simp (add_cpu_to_cache_domain, e)
            (add_child-Bare s.next_obj cpu _ (new_cache_domain-Bare mask s b))
      | inr (c, e) ↦ simp (add_cpu_to_cache_domain, e) (add_child-Bare c cpu s b)
    ]

add_cache_domain_to_package-Bare :
    {Ban : ℕ → Type 0} (cache : Ptr) (id : ℕ) (mask : Cpumask) (s : State)
    → Bare Ban s
    → Bare Ban (add_cache_domain_to_package cache id mask s).1
unfolding add_cache_domain_to_package
add_cache_domain_to_package-Bare cache id mask s b =
    elim (Option-cases (find_mask mask s.objs s.packages)) [
      | inl e ↦
          simp (add_cache_domain_to_package, e)
            (add_child-Bare s.next_obj cache _ (new_package-Bare id mask s b))
      | inr (c, e) ↦ simp (add_cache_domain_to_package, e) (add_child-Bare c cache s b)
    ]

add_package_to_node-Bare :
    {Ban : ℕ → Type 0} (p : Ptr) (nodeid : Option ℕ) (s : State)
    → Bare Ban s
    → Bare Ban (add_package_to_node p nodeid s)
unfolding add_package_to_node
add_package_to_node-Bare p nodeid s b = elim (Option-cases (get_numa_node nodeid s)) [
  | inl e ↦ rw (add_package_to_node, e) b
  | inr (n, e) ↦ elim (Option-cases (s.objs p).parent) [
    | inr (o, f) ↦ rw (add_package_to_node, e, f) b
    | inl f ↦
        let t = set_obj n (record (s.objs n) { children = (s.objs n).children ++ p ∷ [] }) s in
        let bt : Bare _ t = set_obj-Bare n _ s (b.objs_empty n) b in
        rw (add_package_to_node, e, f) (set_obj-Bare p _ t (bt.objs_empty p) bt)
  ]
]

do_one_cpu-Bare :
    {Ban : ℕ → Type 0} (files : CpuFiles) (s : State) → Bare Ban s → Bare Ban (do_one_cpu files s)
unfolding do_one_cpu add_cpu new_cpu new_domain
do_one_cpu-Bare files s b =
    let new = set_obj-Bare s.next_obj _ s refl b in
    if-Bare files.offline _ _ b (
      if-Bare (cpus_intersects (cpu_set files.number cpus_clear) s.banned_cpus) _ _
        (record {
          objs_empty = b.objs_empty;
          unassigned = b.unassigned;
          none_waits = b.none_waits;
          cl_old = b.cl_old;
          bans = b.bans;
        })
        (add_package_to_node-Bare _ _ _ (
          add_cache_domain_to_package-Bare _ _ _ _
            (add_cpu_to_cache_domain-Bare s.next_obj _ (new_cpu files.number s) new))))

pub parse_cpu_tree-Bare :
    {Ban : ℕ → Type 0} (dir : Option (List CpuFiles)) (s : State)
    → Bare Ban s
    → Bare Ban (parse_cpu_tree dir s)
unfolding parse_cpu_tree
parse_cpu_tree-Bare dir s b =
    option-Bare dir _ _ b (λ entries. for_each-Bare do_one_cpu do_one_cpu-Bare entries _ b)
