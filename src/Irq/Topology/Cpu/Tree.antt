-- ===== src/Irq/Topology/Cpu/Tree.antt =====
-- The tree of domains under do_one_cpu.
use code_analyze.Prelude.{
  ℕ, ◌+◌, ◌≡◌, refl, sym, ◌∙◌, subst, Option, some, List, [], ◌∷◌, ◌++◌, arith, Bool-cases,
  Option-cases, inl, inr, ℕ_discrete, update,
}
use code_analyze.Irq.Cpumask.{Cpumask, cpus_clear, cpu_set, cpus_intersects}
use code_analyze.Irq.Types.{Ptr, TopoObj, State, obj_cache, obj_package, set_obj}
use code_analyze.Irq.Numa.{get_numa_node}
use code_analyze.Irq.Topology.{
  new_domain, find_mask, add_child, new_package, add_cache_domain_to_package, new_cache_domain,
  add_cpu_to_cache_domain,
}
use code_analyze.Irq.Topology.Domains.{same-OnePerMask, grow-OnePerMask}
use code_analyze.Irq.Topology.Joining.{
  Domains, add_child-SameLists, add_child-Domains, add_cpu_to_cache_domain_joins,
  add_cache_domain_to_package_joins,
}
use code_analyze.Irq.Topology.Cpu.{CpuFiles, add_package_to_node, new_cpu, add_cpu, do_one_cpu}

-- One cache domain for each mask and one package for each mask, and as many as the counters say.
pub record Tree (s : State) : Type 0 where
  pub caches : Domains s.objs s.next_obj s.cache_domains s.cache_domain_count
  pub packages : Domains s.objs s.next_obj s.packages s.package_count

grow-Domains :
    (s : State) (l : List Ptr) (n : ℕ) (d : TopoObj)
    → Domains s.objs s.next_obj l n
    → Domains (update s.objs s.next_obj d) (s.next_obj + 1) l n
grow-Domains s l n d v = record {
  one_each = grow-OnePerMask s.objs s.next_obj l d v.one_each;
  counted = v.counted;
}

new_cpu-Tree : (n : ℕ) (s : State) → Tree s → Tree (new_cpu n s)
unfolding new_cpu
new_cpu-Tree n s v = record {
  caches = grow-Domains s s.cache_domains s.cache_domain_count _ v.caches;
  packages = grow-Domains s s.packages s.package_count _ v.packages;
}

-- The lists of the state after add_child, from those of the state before.
relist-packages :
    (o c : Ptr) (t : State) (l : List Ptr) (n : ℕ)
    → t.packages ≡ l
    → t.package_count ≡ n
    → Domains t.objs t.next_obj l n
    → let u = add_child o c t in Domains u.objs u.next_obj u.packages u.package_count
relist-packages o c t l n list number v =
    let u = add_child o c t in
    let same = add_child-SameLists o c t in
    subst (λ x. Domains u.objs u.next_obj x u.package_count) (sym (same.packages_same ∙ list))
      (subst (λ x. Domains u.objs u.next_obj l x) (sym (same.package_count_same ∙ number))
        (add_child-Domains o c t l n v))

relist-caches :
    (o c : Ptr) (t : State) (l : List Ptr) (n : ℕ)
    → t.cache_domains ≡ l
    → t.cache_domain_count ≡ n
    → Domains t.objs t.next_obj l n
    → let u = add_child o c t in Domains u.objs u.next_obj u.cache_domains u.cache_domain_count
relist-caches o c t l n list number v =
    let u = add_child o c t in
    let same = add_child-SameLists o c t in
    subst (λ x. Domains u.objs u.next_obj x u.cache_domain_count) (sym (same.domains_same ∙ list))
      (subst (λ x. Domains u.objs u.next_obj l x) (sym (same.domain_count_same ∙ number))
        (add_child-Domains o c t l n v))

cpu-packages :
    (cpu : Ptr) (m : Cpumask) (s : State)
    → Domains s.objs s.next_obj s.packages s.package_count
    → let t = (add_cpu_to_cache_domain cpu m s).1 in
      Domains t.objs t.next_obj t.packages t.package_count
unfolding add_cpu_to_cache_domain new_cache_domain
cpu-packages cpu m s v = elim (Option-cases (find_mask m s.objs s.cache_domains)) [
  | inl h ↦
      simp (add_cpu_to_cache_domain, h)
        (relist-packages s.next_obj cpu (new_cache_domain m s) s.packages s.package_count refl refl
          (grow-Domains s s.packages s.package_count (new_domain obj_cache s.cache_domain_count m)
            v))
  | inr (c, h) ↦
      simp (add_cpu_to_cache_domain, h)
        (relist-packages c cpu s s.packages s.package_count refl refl v)
]

package-caches :
    (cache : Ptr) (id : ℕ) (m : Cpumask) (s : State)
    → Domains s.objs s.next_obj s.cache_domains s.cache_domain_count
    → let t = (add_cache_domain_to_package cache id m s).1 in
      Domains t.objs t.next_obj t.cache_domains t.cache_domain_count
unfolding add_cache_domain_to_package new_package
package-caches cache id m s v = elim (Option-cases (find_mask m s.objs s.packages)) [
  | inl h ↦
      simp (add_cache_domain_to_package, h)
        (relist-caches s.next_obj cache (new_package id m s) s.cache_domains s.cache_domain_count
          refl refl
          (grow-Domains s s.cache_domains s.cache_domain_count (new_domain obj_package id m) v))
  | inr (c, h) ↦
      simp (add_cache_domain_to_package, h)
        (relist-caches c cache s s.cache_domains s.cache_domain_count refl refl v)
]

cpu-Tree : (cpu : Ptr) (m : Cpumask) (s : State) → Tree s → Tree (add_cpu_to_cache_domain cpu m s).1
cpu-Tree cpu m s v = record {
  caches = (add_cpu_to_cache_domain_joins cpu m s v.caches).domains;
  packages = cpu-packages cpu m s v.packages;
}

package-Tree :
    (cache : Ptr) (id : ℕ) (m : Cpumask) (s : State)
    → Tree s
    → Tree (add_cache_domain_to_package cache id m s).1
package-Tree cache id m s v = record {
  caches = package-caches cache id m s v.caches;
  packages = (add_cache_domain_to_package_joins cache id m s v.packages).domains;
}

node_masks :
    (p : Ptr) (o : Ptr) (s : State) (q : Ptr)
    → let t = set_obj o (record (s.objs o) { children = (s.objs o).children ++ p ∷ [] }) s in
      ((set_obj p (record (t.objs p) { parent = some o }) t).objs q).mask ≡ (s.objs q).mask
node_masks p o s q = elim (ℕ_discrete q p) [
  | yes same ↦ elim (ℕ_discrete q o) [
    | yes here ↦ ground (arith, same, here)
    | no ne ↦ ground (arith, same, ne)
  ]
  | no other ↦ elim (ℕ_discrete q o) [
    | yes here ↦ ground (arith, other, here)
    | no ne ↦ ground (arith, other, ne)
  ]
]

node-Tree : (p : Ptr) (n : Option ℕ) (s : State) → Tree s → Tree (add_package_to_node p n s)
unfolding add_package_to_node
node-Tree p n s v = elim (Option-cases (get_numa_node n s)) [
  | inl e ↦ simp (add_package_to_node, e) v
  | inr (o, e) ↦ elim (Option-cases (s.objs p).parent) [
    | inr (x, has) ↦ simp (add_package_to_node, e, has) v
    | inl orphan ↦
        simp (add_package_to_node, e, orphan)
          record {
            caches = record {
              one_each =
                  same-OnePerMask s.objs _ s.next_obj s.cache_domains (node_masks p o s)
                    v.caches.one_each;
              counted = v.caches.counted;
            };
            packages = record {
              one_each =
                  same-OnePerMask s.objs _ s.next_obj s.packages (node_masks p o s)
                    v.packages.one_each;
              counted = v.packages.counted;
            };
          }
  ]
]

add_cpu-Tree : (files : CpuFiles) (s : State) → Tree s → Tree (add_cpu files s)
unfolding add_cpu
add_cpu-Tree files s v =
    let placed =
      node-Tree _ _ _ (package-Tree _ _ _ _ (cpu-Tree _ _ _ (new_cpu-Tree files.number s v))) in
    record { caches = placed.caches; packages = placed.packages }

-- When there is one cache domain and one package for each mask, and as many as the counters say, this is
-- so after do_one_cpu, for a CPU that is offline, banned or added, and whatever `package_mask` held.
pub do_one_cpu-Tree : (files : CpuFiles) (s : State) → Tree s → Tree (do_one_cpu files s)
unfolding do_one_cpu
do_one_cpu-Tree files s v = elim (Bool-cases files.offline) [
  | inl e ↦ simp (do_one_cpu, e) v
  | inr e ↦ elim (Bool-cases (cpus_intersects (cpu_set files.number cpus_clear) s.banned_cpus)) [
    | inl b ↦ simp (do_one_cpu, e, b) record { caches = v.caches; packages = v.packages }
    | inr b ↦ simp (do_one_cpu, e, b) (add_cpu-Tree files s v)
  ]
]
