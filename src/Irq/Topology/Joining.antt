-- ===== src/Irq/Topology/Joining.antt =====
-- What the functions of cputree.c that join a CPU or a cache domain to its domain leave.
use code_analyze.Prelude.{
  ℕ, ◌+◌, ◌<◌, ◌≤◌, ◌≡◌, refl, sym, subst, true, none, some, List, [], ◌∷◌, ◌++◌, count,
  count-append, length, length-append, elem, arith, Bool-cases, Option-cases, inl, inr, ℕ_discrete,
  update, update_self,
}
use code_analyze.Irq.Cpumask.{Cpumask, cpus_equal}
use code_analyze.Irq.Types.{Ptr, TopoObj, State, obj_cache, obj_package}
use code_analyze.Irq.Topology.{
  new_domain, find_mask, add_child, new_package, add_cache_domain_to_package, new_cache_domain,
  add_cpu_to_cache_domain,
}
use code_analyze.Irq.Topology.Domains.{
  OnePerMask, same-OnePerMask, new-OnePerMask, add_child_masks, find_mask-none, find_mask-some,
  cpus_equal_refl, elem-count,
}

-- The domain has the mask and the child.
pub record HasChild (mask : Cpumask) (child : Ptr) (domain : Ptr) (t : State) : Type 0 where
  pub same_mask : cpus_equal mask (t.objs domain).mask ≡ true
  pub joined : 0 < count child (t.objs domain).children

-- add_child leaves the lists of domains and the counts.
pub record SameLists (s t : State) : Type 0 where
  pub next_same : t.next_obj ≡ s.next_obj
  pub packages_same : t.packages ≡ s.packages
  pub package_count_same : t.package_count ≡ s.package_count
  pub domains_same : t.cache_domains ≡ s.cache_domains
  pub domain_count_same : t.cache_domain_count ≡ s.cache_domain_count

pub add_child-SameLists : (o c : Ptr) (s : State) → SameLists s (add_child o c s)
unfolding add_child
add_child-SameLists o c s = elim (Bool-cases (elem c (s.objs o).children)) [
  | inl e ↦ simp e record {
    next_same = refl;
    packages_same = refl;
    package_count_same = refl;
    domains_same = refl;
    domain_count_same = refl;
  }
  | inr e ↦ simp e record {
    next_same = refl;
    packages_same = refl;
    package_count_same = refl;
    domains_same = refl;
    domain_count_same = refl;
  }
]

add_child_joins : (o c : Ptr) (s : State) → 0 < count c ((add_child o c s).objs o).children
unfolding add_child
add_child_joins o c s = elim (Bool-cases (elem c (s.objs o).children)) [
  | inl e ↦ simp e (elem-count c (s.objs o).children e)
  | inr e ↦ elim (ℕ_discrete o c) [
    | yes same ↦ ground (arith, e, same, count-append c (s.objs o).children (c ∷ []))
    | no ne ↦ ground (arith, e, ne, count-append c (s.objs o).children (c ∷ []))
  ]
]

-- The domains of one kind: one for each mask, and as many as the counter says.
pub record Domains (objs : Ptr → TopoObj) (next : Ptr) (l : List Ptr) (number : ℕ) : Type 0 where
  pub one_each : OnePerMask objs next l
  pub counted : number ≡ length l

pub add_child-Domains :
    (o c : Ptr) (s : State) (l : List Ptr) (n : ℕ)
    → Domains s.objs s.next_obj l n
    → Domains (add_child o c s).objs (add_child o c s).next_obj l n
add_child-Domains o c s l n v =
    let same = add_child-SameLists o c s in
    record {
      one_each =
          subst (λ k. OnePerMask (add_child o c s).objs k l) (sym same.next_same)
            (same-OnePerMask s.objs (add_child o c s).objs s.next_obj l (add_child_masks o c s)
              v.one_each);
      counted = v.counted;
    }

new-Domains :
    (s : State) (d : TopoObj) (l : List Ptr) (n : ℕ)
    → Domains s.objs s.next_obj l n
    → find_mask d.mask s.objs l ≡ none
    → Domains (update s.objs s.next_obj d) (s.next_obj + 1) (l ++ s.next_obj ∷ []) (n + 1)
new-Domains s d l n v h = record {
  one_each = new-OnePerMask s.objs s.next_obj l d v.one_each (find_mask-none d.mask s.objs l h);
  counted = omega (arith, v.counted, length-append l (s.next_obj ∷ []));
}

-- The child is in the domain, which is one of the later list; no domain has gone from the list; and
-- the later list has one domain for each mask, and as many as the counter says.
pub record Joined (mask : Cpumask) (child domain : Ptr) (t : State) (before after : List Ptr)
    (number : ℕ) : Type 0 where
  pub has_child : HasChild mask child domain t
  pub domain_listed : 0 < count domain after
  pub none_gone : (d : Ptr) → count d before ≤ count d after
  pub domains : Domains t.objs t.next_obj after number

found_joins :
    (m : Cpumask) (o c : Ptr) (s : State) (l : List Ptr) (n : ℕ)
    → Domains s.objs s.next_obj l n
    → find_mask m s.objs l ≡ some o
    → Joined m c o (add_child o c s) l l n
found_joins m o c s l n v h =
    let found = find_mask-some m s.objs l o h in
    record {
      has_child = record {
        same_mask = subst (λ x. cpus_equal m x ≡ true) (sym (add_child_masks o c s o)) found.1;
        joined = add_child_joins o c s;
      };
      domain_listed = found.0;
      none_gone = λ d. omega arith;
      domains = add_child-Domains o c s l n v;
    }

-- `t` has the new domain `d` at the next address of `s`.
made_joins :
    (d : TopoObj) (c : Ptr) (s t : State) (l : List Ptr) (n : ℕ)
    → Domains s.objs s.next_obj l n
    → find_mask d.mask s.objs l ≡ none
    → t.objs ≡ update s.objs s.next_obj d
    → t.next_obj ≡ s.next_obj + 1
    → Joined d.mask c s.next_obj (add_child s.next_obj c t) l (l ++ s.next_obj ∷ []) (n + 1)
made_joins d c s t l n v h objs next =
    let o = s.next_obj in
    record {
      has_child = record {
        same_mask =
            subst (λ x. cpus_equal d.mask x ≡ true) (sym (add_child_masks o c t o))
              (subst (λ f. cpus_equal d.mask (f o).mask ≡ true) (sym objs)
                (subst (λ x. cpus_equal d.mask x.mask ≡ true) (sym (update_self s.objs o d))
                  (cpus_equal_refl d.mask)));
        joined = add_child_joins o c t;
      };
      domain_listed = ground (arith, count-append o l (o ∷ []));
      none_gone = λ x. omega (arith, count-append x l (o ∷ []));
      domains = add_child-Domains o c t (l ++ o ∷ []) (n + 1) (
          subst (λ f. Domains f t.next_obj (l ++ o ∷ []) (n + 1)) (sym objs)
            (subst (λ k. Domains (update s.objs o d) k (l ++ o ∷ []) (n + 1)) (sym next)
              (new-Domains s d l n v h)));
    }

-- The same, with the lists of the state that add_child leaves.
relist :
    (m : Cpumask) (c o : Ptr) (t : State) (before a b : List Ptr) (k n : ℕ)
    → b ≡ a
    → n ≡ k
    → Joined m c o t before a k
    → Joined m c o t before b n
relist m c o t before a b k n same_list same_count j =
    subst (λ x. Joined m c o t before x n) (sym same_list)
      (subst (λ x. Joined m c o t before a x) (sym same_count) j)

-- When there is one cache domain for each mask, and as many as the counter says, add_cpu_to_cache_domain
-- returns a cache domain of the list with the mask and with the CPU among its children; no cache domain
-- goes from the list; and there is again one for each mask, and as many as the counter says.
pub add_cpu_to_cache_domain_joins :
    (cpu : Ptr) (m : Cpumask) (s : State)
    → Domains s.objs s.next_obj s.cache_domains s.cache_domain_count
    → let r = add_cpu_to_cache_domain cpu m s in
      Joined m cpu r.0 r.1 s.cache_domains r.1.cache_domains r.1.cache_domain_count
unfolding add_cpu_to_cache_domain new_cache_domain new_domain
add_cpu_to_cache_domain_joins cpu m s v = elim (Option-cases (find_mask m s.objs s.cache_domains)) [
  | inl h ↦
      simp (add_cpu_to_cache_domain, h)
        (let same = add_child-SameLists s.next_obj cpu (new_cache_domain m s) in
          relist _ _ _ _ _ _ _ _ _ same.domains_same same.domain_count_same (
            made_joins (new_domain obj_cache s.cache_domain_count m) cpu s (new_cache_domain m s)
              s.cache_domains s.cache_domain_count v h refl refl))
  | inr (c, h) ↦
      simp (add_cpu_to_cache_domain, h)
        (let same = add_child-SameLists c cpu s in
          relist _ _ _ _ _ _ _ _ _ same.domains_same same.domain_count_same
            (found_joins m c cpu s s.cache_domains s.cache_domain_count v h))
]

-- When there is one package for each mask, and as many as the counter says, add_cache_domain_to_package
-- returns a package of the list with the mask and with the cache domain among its children; no package
-- goes from the list; and there is again one for each mask, and as many as the counter says.
pub add_cache_domain_to_package_joins :
    (cache : Ptr) (id : ℕ) (m : Cpumask) (s : State)
    → Domains s.objs s.next_obj s.packages s.package_count
    → let r = add_cache_domain_to_package cache id m s in
      Joined m cache r.0 r.1 s.packages r.1.packages r.1.package_count
unfolding add_cache_domain_to_package new_package new_domain
add_cache_domain_to_package_joins cache id m s v =
    elim (Option-cases (find_mask m s.objs s.packages)) [
      | inl h ↦
          simp (add_cache_domain_to_package, h)
            (let same = add_child-SameLists s.next_obj cache (new_package id m s) in
              relist _ _ _ _ _ _ _ _ _ same.packages_same same.package_count_same (
                made_joins (new_domain obj_package id m) cache s (new_package id m s) s.packages
                  s.package_count v h refl refl))
      | inr (c, h) ↦
          simp (add_cache_domain_to_package, h)
            (let same = add_child-SameLists c cache s in
              relist _ _ _ _ _ _ _ _ _ same.packages_same same.package_count_same
                (found_joins m c cache s s.packages s.package_count v h))
    ]
