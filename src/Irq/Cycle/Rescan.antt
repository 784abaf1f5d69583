-- ===== src/Irq/Cycle/Rescan.antt =====
-- irqbalance.c: what a rescan leaves of the old tree and database, and what it puts there.
use code_analyze.Prelude.{
  ◌≡◌, refl, sym, ap, ◌∙◌, List, [], ◌∷◌, ◌++◌, false, true, ◌==◌, arith, Bool-cases, Option-cases,
  inl, inr, ℕ_discrete,
}
use code_analyze.Irq.Types.{Ptr, IrqInfo, TopoObj, State, set_irq, balance_none}
use code_analyze.Irq.Lists.{
  Place, rebalance, interrupts_of, get_list, set_list, find_irq, delete_irq, migrate_irq, for_each,
  for_each_irq,
}
use code_analyze.Irq.Numa.{free_numa_node_list}
use code_analyze.Irq.Topology.Release.{
  free_object, clear_packages, clear_cache_domains, clear_cpus, clear_cpu_tree, clear_work_stats,
}
use code_analyze.Irq.Db.Rebuild.{free_irq_db}
use code_analyze.Irq.Load.{Jiffies}
use code_analyze.Irq.Load.Shape.{OnlyLoads, OnlyLoads-trans}
use code_analyze.Irq.Proc.{ProcInts}
use code_analyze.Irq.Cycle.Measured.{measure-OnlyLoads, parse_proc-OnlyLoads}
use code_analyze.Irq.Cycle.{
  Inputs, unassign, force_rebalance_irq, force_rebalance_all, build_object_tree, free_object_tree,
  parse_proc, rescan,
}

-- No object of the tree is left, and no interrupt.
pub record Emptied (s : State) : Type 0 where
  pub numa_nodes : s.numa_nodes ≡ []
  pub packages : s.packages ≡ []
  pub cache_domains : s.cache_domains ≡ []
  pub cpus : s.cpus ≡ []
  pub core_count : s.core_count ≡ 0
  pub interrupts_db : s.interrupts_db ≡ []
  pub banned_irqs : s.banned_irqs ≡ []
  pub rebalance_irq_list : s.rebalance_irq_list ≡ []

-- The same tree, with its masks, and the same database, with its numbers.
pub record SameTree (s t : State) : Type 0 where
  pub numa_nodes : t.numa_nodes ≡ s.numa_nodes
  pub packages : t.packages ≡ s.packages
  pub cache_domains : t.cache_domains ≡ s.cache_domains
  pub cpus : t.cpus ≡ s.cpus
  pub core_count : t.core_count ≡ s.core_count
  pub interrupts_db : t.interrupts_db ≡ s.interrupts_db
  pub banned_irqs : t.banned_irqs ≡ s.banned_irqs
  pub numbers : (p : Ptr) → (t.irqs p).irq ≡ (s.irqs p).irq
  pub children : (o : Ptr) → (t.objs o).children ≡ (s.objs o).children
  pub masks : (o : Ptr) → (t.objs o).mask ≡ (s.objs o).mask

SameTree-refl : (s : State) → SameTree s s
SameTree-refl s = record {
  numa_nodes = refl;
  packages = refl;
  cache_domains = refl;
  cpus = refl;
  core_count = refl;
  interrupts_db = refl;
  banned_irqs = refl;
  numbers = λ p. refl;
  children = λ o. refl;
  masks = λ o. refl;
}

SameTree-trans : (a b c : State) → SameTree a b → SameTree b c → SameTree a c
SameTree-trans a b c v w = record {
  numa_nodes = w.numa_nodes ∙ v.numa_nodes;
  packages = w.packages ∙ v.packages;
  cache_domains = w.cache_domains ∙ v.cache_domains;
  cpus = w.cpus ∙ v.cpus;
  core_count = w.core_count ∙ v.core_count;
  interrupts_db = w.interrupts_db ∙ v.interrupts_db;
  banned_irqs = w.banned_irqs ∙ v.banned_irqs;
  numbers = λ p. w.numbers p ∙ v.numbers p;
  children = λ o. w.children o ∙ v.children o;
  masks = λ o. w.masks o ∙ v.masks o;
}

OnlyLoads-SameTree : (s t : State) → OnlyLoads s t → SameTree s t
OnlyLoads-SameTree s t v = record {
  numa_nodes = ap (λ (x : State). x.numa_nodes) v.rest;
  packages = ap (λ (x : State). x.packages) v.rest;
  cache_domains = ap (λ (x : State). x.cache_domains) v.rest;
  cpus = ap (λ (x : State). x.cpus) v.rest;
  core_count = ap (λ (x : State). x.core_count) v.rest;
  interrupts_db = ap (λ (x : State). x.interrupts_db) v.rest;
  banned_irqs = ap (λ (x : State). x.banned_irqs) v.rest;
  numbers = λ p. ap (λ (i : IrqInfo). i.irq) (v.irqs_same p);
  children = λ o. ap (λ (d : TopoObj). d.children) (v.objs_same o);
  masks = λ o. ap (λ (d : TopoObj). d.mask) (v.objs_same o);
}

set_irq-SameTree :
    (p : Ptr) (i : IrqInfo) (s : State) → i.irq ≡ (s.irqs p).irq → SameTree s (set_irq p i s)
set_irq-SameTree p i s same = record {
  numa_nodes = refl;
  packages = refl;
  cache_domains = refl;
  cpus = refl;
  core_count = refl;
  interrupts_db = refl;
  banned_irqs = refl;
  numbers = λ q. elim (ℕ_discrete q p) [
    | yes e ↦ ground (arith, e, same, ap (λ x. (s.irqs x).irq) e)
    | no ne ↦ ground (arith, ne)
  ];
  children = λ o. refl;
  masks = λ o. refl;
}

waiting-SameTree : (l : List Ptr) (s : State) → SameTree s (record s { rebalance_irq_list = l })
waiting-SameTree l s = record {
  numa_nodes = refl;
  packages = refl;
  cache_domains = refl;
  cpus = refl;
  core_count = refl;
  interrupts_db = refl;
  banned_irqs = refl;
  numbers = λ p. refl;
  children = λ o. refl;
  masks = λ o. refl;
}

set_list-SameTree : (at : Place) (l : List Ptr) (s : State) → SameTree s (set_list at l s)
unfolding set_list
set_list-SameTree rebalance l s = waiting-SameTree l s
set_list-SameTree (interrupts_of o) l s = record {
  numa_nodes = refl;
  packages = refl;
  cache_domains = refl;
  cpus = refl;
  core_count = refl;
  interrupts_db = refl;
  banned_irqs = refl;
  numbers = λ p. refl;
  children = λ q. elim (ℕ_discrete q o) [
    | yes e ↦ ground (arith, e, ap (λ x. (s.objs x).children) e)
    | no ne ↦ ground (arith, ne)
  ];
  masks = λ q. elim (ℕ_discrete q o) [
    | yes e ↦ ground (arith, e, ap (λ x. (s.objs x).mask) e)
    | no ne ↦ ground (arith, ne)
  ];
}

migrate_irq-SameTree :
    (from to : Place) (p : Ptr) (s : State) → SameTree s (migrate_irq from to p s)
unfolding migrate_irq
migrate_irq-SameTree from to p s =
    elim (Option-cases (find_irq s.irqs (s.irqs p).irq (get_list from s))) [
      | inl e ↦ rw (migrate_irq, e) (SameTree-refl s)
      | inr (tmp, e) ↦
          let taken = set_list from (delete_irq s.irqs (s.irqs p).irq (get_list from s)) s in
          let given = set_list to (get_list to taken ++ tmp ∷ []) taken in
          let lists =
            SameTree-trans s taken given (set_list-SameTree from _ s)
              (set_list-SameTree to _ taken) in
          rw (migrate_irq, e)
            (SameTree-trans s given (set_irq p (record (s.irqs p) { moved = true }) given) lists (
              set_irq-SameTree p (record (s.irqs p) { moved = true }) given
                (sym (lists.numbers p))))
    ]

force_rebalance_irq-SameTree : (p : Ptr) (s : State) → SameTree s (force_rebalance_irq p s)
unfolding force_rebalance_irq unassign
force_rebalance_irq-SameTree p s = elim (Bool-cases ((s.irqs p).level == balance_none)) [
  | inl stays ↦ rw (force_rebalance_irq, stays) (SameTree-refl s)
  | inr moves ↦ elim (Option-cases (s.irqs p).assigned_obj) [
    | inl nowhere ↦
        let t = record s { rebalance_irq_list = s.rebalance_irq_list ++ p ∷ [] } in
        rw (force_rebalance_irq, moves, nowhere)
          (SameTree-trans s t _ (waiting-SameTree (s.rebalance_irq_list ++ p ∷ []) s)
            (set_irq-SameTree p _ t refl))
    | inr (o, on) ↦
        let m = migrate_irq (interrupts_of o) rebalance p s in
        rw (force_rebalance_irq, moves, on)
          (SameTree-trans s m _ (migrate_irq-SameTree (interrupts_of o) rebalance p s)
            (set_irq-SameTree p _ m refl))
  ]
]

force_loop-SameTree : (l : List Ptr) (s : State) → SameTree s (for_each l force_rebalance_irq s)
unfolding for_each
force_loop-SameTree [] s = SameTree-refl s
force_loop-SameTree (p ∷ ps) s =
    SameTree-trans s (force_rebalance_irq p s) _ (force_rebalance_irq-SameTree p s)
      (force_loop-SameTree ps (force_rebalance_irq p s))

force_rebalance_all-SameTree : (s : State) → SameTree s (force_rebalance_all s)
unfolding force_rebalance_all for_each_irq
force_rebalance_all-SameTree s = force_loop-SameTree s.interrupts_db s

free_objects_rest :
    (l : List Ptr) (s : State)
    → for_each l free_object s ≡ record s { objs = (for_each l free_object s).objs }
unfolding for_each
free_objects_rest [] s = refl
free_objects_rest (o ∷ os) s = free_objects_rest os (free_object o s)

clear_packages_lem :
    (s : State)
    → ((clear_packages s).packages ≡ []) × ((clear_packages s).numa_nodes ≡ s.numa_nodes)
unfolding clear_packages
clear_packages_lem s = (refl, ap (λ (x : State). x.numa_nodes) (free_objects_rest s.packages s))

clear_cache_domains_lem :
    (s : State)
    → ((clear_cache_domains s).cache_domains ≡ [])
      × ((clear_cache_domains s).packages ≡ s.packages)
      × ((clear_cache_domains s).numa_nodes ≡ s.numa_nodes)
unfolding clear_cache_domains
clear_cache_domains_lem s =
    let rest = free_objects_rest s.cache_domains s in
    (refl, ap (λ (x : State). x.packages) rest, ap (λ (x : State). x.numa_nodes) rest)

clear_cpus_lem :
    (s : State)
    → ((clear_cpus s).cpus ≡ [])
      × ((clear_cpus s).core_count ≡ 0)
      × ((clear_cpus s).cache_domains ≡ s.cache_domains)
      × ((clear_cpus s).packages ≡ s.packages)
      × ((clear_cpus s).numa_nodes ≡ s.numa_nodes)
unfolding clear_cpus
clear_cpus_lem s =
    let rest = free_objects_rest s.cpus s in
    (
      refl,
      refl,
      ap (λ (x : State). x.cache_domains) rest,
      ap (λ (x : State). x.packages) rest,
      ap (λ (x : State). x.numa_nodes) rest,
    )

free_object_tree-Emptied : (s : State) → Emptied (free_object_tree s)
unfolding free_object_tree free_irq_db clear_cpu_tree free_numa_node_list
free_object_tree-Emptied s =
    let n = free_numa_node_list s in
    let p = clear_packages n in
    let c = clear_cache_domains p in
    let packages = clear_packages_lem n in
    let caches = clear_cache_domains_lem p in
    let cpus = clear_cpus_lem c in
    record {
      numa_nodes = cpus.4 ∙ caches.2 ∙ packages.1;
      packages = cpus.3 ∙ caches.1 ∙ packages.0;
      cache_domains = cpus.2 ∙ caches.0;
      cpus = cpus.0;
      core_count = cpus.1;
      interrupts_db = refl;
      banned_irqs = refl;
      rebalance_irq_list = refl;
    }

-- A rescan builds the tree and the database from a state with none: but for loads, counts and lists of
-- interrupts, they are what build_object_tree makes.
pub rescan-SameTree :
    (j : Jiffies) (i : Inputs) (p : ProcInts)
    → (e : State) × Emptied e
      × SameTree (build_object_tree i.sys i.collected e) (rescan j i p).state
unfolding rescan
rescan-SameTree j i p =
    let a = record (p.state) { need_rescan = false; cycle_count = 0 } in
    let e = free_object_tree (clear_work_stats a) in
    let b = build_object_tree i.sys i.collected e in
    let first = parse_proc j i.first (record p { state = force_rebalance_all b }) in
    let loads =
      OnlyLoads-trans _ first.state _
        (parse_proc-OnlyLoads j i.first (record p { state = force_rebalance_all b }))
        (measure-OnlyLoads j i.second first) in
    (
      e,
      free_object_tree-Emptied (clear_work_stats a),
      SameTree-trans b (force_rebalance_all b) _ (force_rebalance_all-SameTree b)
          (OnlyLoads-SameTree _ _ loads),
    )
