-- ===== src/Irq/Topology/Cpu/Count.antt =====
-- Which CPUs do_one_cpu puts on the list, and which it counts.
use code_analyze.Prelude.{
  ℕ, ◌+◌, ◌≡◌, refl, ap, ◌∙◌, ◌||◌, Option, List, [], ◌∷◌, ◌++◌, elem, if◌then◌else◌, Bool-cases,
  Option-cases, inl, inr,
}
use code_analyze.Irq.Cpumask.{Cpumask, cpus_clear, cpu_set, cpus_intersects}
use code_analyze.Irq.Types.{Ptr, State}
use code_analyze.Irq.Numa.{get_numa_node}
use code_analyze.Irq.Topology.{
  find_mask, add_child, new_package, add_cache_domain_to_package, new_cache_domain,
  add_cpu_to_cache_domain,
}
use code_analyze.Irq.Topology.Cpu.{CpuFiles, add_package_to_node, new_cpu, add_cpu, do_one_cpu}

-- The list of CPUs and the number of them.
cpus_of : State → List Ptr × ℕ
cpus_of s = (s.cpus, s.core_count)

add_child_cpus : (o c : Ptr) (s : State) → cpus_of (add_child o c s) ≡ cpus_of s
unfolding cpus_of add_child
add_child_cpus o c s = elim (Bool-cases (elem c (s.objs o).children)) [
  | inl e ↦ simp (add_child, e) refl
  | inr e ↦ simp (add_child, e) refl
]

add_cpu_to_cache_domain_cpus :
    (cpu : Ptr) (m : Cpumask) (s : State) → cpus_of (add_cpu_to_cache_domain cpu m s).1 ≡ cpus_of s
unfolding add_cpu_to_cache_domain cpus_of new_cache_domain
add_cpu_to_cache_domain_cpus cpu m s = elim (Option-cases (find_mask m s.objs s.cache_domains)) [
  | inl h ↦
      simp (add_cpu_to_cache_domain, h)
        (add_child_cpus s.next_obj cpu (new_cache_domain m s) ∙ made)
  | inr (c, h) ↦ simp (add_cpu_to_cache_domain, h) (add_child_cpus c cpu s)
]
  where
    made : cpus_of (new_cache_domain m s) ≡ cpus_of s
    made = refl

add_cache_domain_to_package_cpus :
    (cache : Ptr) (id : ℕ) (m : Cpumask) (s : State)
    → cpus_of (add_cache_domain_to_package cache id m s).1 ≡ cpus_of s
unfolding add_cache_domain_to_package cpus_of new_package
add_cache_domain_to_package_cpus cache id m s =
    elim (Option-cases (find_mask m s.objs s.packages)) [
      | inl h ↦
          simp (add_cache_domain_to_package, h)
            (add_child_cpus s.next_obj cache (new_package id m s) ∙ made)
      | inr (c, h) ↦ simp (add_cache_domain_to_package, h) (add_child_cpus c cache s)
    ]
  where
    made : cpus_of (new_package id m s) ≡ cpus_of s
    made = refl

add_package_to_node_cpus :
    (p : Ptr) (n : Option ℕ) (s : State) → cpus_of (add_package_to_node p n s) ≡ cpus_of s
unfolding cpus_of add_package_to_node
add_package_to_node_cpus p n s = elim (Option-cases (get_numa_node n s)) [
  | inl e ↦ simp (add_package_to_node, e) refl
  | inr (o, e) ↦ elim (Option-cases (s.objs p).parent) [
    | inr (x, has) ↦ simp (add_package_to_node, e, has) refl
    | inl orphan ↦ simp (add_package_to_node, e, orphan) refl
  ]
]

add_cpu_cpus :
    (files : CpuFiles) (s : State)
    → cpus_of (add_cpu files s) ≡ (s.cpus ++ s.next_obj ∷ [], s.core_count + 1)
unfolding add_cpu cpus_of new_cpu
add_cpu_cpus files s =
    ap (λ x. (x.0 ++ s.next_obj ∷ [], x.1 + 1))
      (add_package_to_node_cpus _ _ _
        ∙ add_cache_domain_to_package_cpus _ _ _ _
        ∙ add_cpu_to_cache_domain_cpus _ _ (new_cpu files.number s))

-- do_one_cpu counts every CPU that is not offline, the banned ones included, and puts the new CPU at
-- the end of the list of CPUs exactly when it is neither offline nor banned.
pub do_one_cpu_lem :
    (files : CpuFiles) (s : State)
    → ((do_one_cpu files s).core_count ≡ (if files.offline then s.core_count else s.core_count + 1))
      × ((do_one_cpu files s).cpus ≡ (
          if files.offline || cpus_intersects (cpu_set files.number cpus_clear) s.banned_cpus
          then s.cpus
          else s.cpus ++ s.next_obj ∷ []))
unfolding cpus_of do_one_cpu
do_one_cpu_lem files s = elim (Bool-cases files.offline) [
  | inl e ↦ simp (do_one_cpu, e) (refl, refl)
  | inr e ↦ elim (Bool-cases (cpus_intersects (cpu_set files.number cpus_clear) s.banned_cpus)) [
    | inl b ↦ simp (do_one_cpu, e, b) (refl, refl)
    | inr b ↦
        simp (do_one_cpu, e, b)
          (ap (λ x. x.1) (add_cpu_cpus files s), ap (λ x. x.0) (add_cpu_cpus files s))
  ]
]
