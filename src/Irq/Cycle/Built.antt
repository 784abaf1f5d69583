-- ===== src/Irq/Cycle/Built.antt =====
-- irqbalance.c: the tree and the database that build_object_tree makes are new.
use code_analyze.Prelude.{
  sym, ◌∙◌, ◌≢◌, ℕ, ◌<◌, ◌≡◌, ap, Option, none, some, List, [], ◌∷◌, count, count-append, arith,
  Bool-cases, Option-cases, inl, inr, All,
}
use code_analyze.Irq.Text.{Bytes, split_at, strstr}
use code_analyze.Irq.Types.{Ptr, HintPolicy, State}
use code_analyze.Irq.Lists.{Place, rebalance, interrupts_of, get_list}
use code_analyze.Irq.Numa.{build_numa_node_list}
use code_analyze.Irq.Topology.Release.{parse_cpu_tree}
use code_analyze.Irq.Db.Valid.{known, DbValid}
use code_analyze.Irq.Db.Complete.{rebuild_irq_db-DbValid}
use code_analyze.Irq.Proc.Collect.{
  collected, collect_lines, collect_full_irq_list, irq_name, tokens, take_bytes, saved_size,
  xen_word,
}
use code_analyze.Irq.Proc.{is_numeric, line_number}
use code_analyze.Irq.Cycle.{Sysfs, build_object_tree}
use code_analyze.Irq.Cycle.Start.{Fresh}
use code_analyze.Irq.Cycle.Bare.{Bare}
use code_analyze.Irq.Cycle.NewTree.{build_numa_node_list-Bare, parse_cpu_tree-Bare}
use code_analyze.Irq.Cycle.NewDatabase.{rebuild_irq_db-Bare}

collected_class : (policy : HintPolicy) (line : Bytes) (n : ℕ) → (collected policy line n).class < 8
unfolding collected
collected_class policy line n =
    elim (Bool-cases (strstr (irq_name (tokens (take_bytes saved_size line))) xen_word)) [
      | inl e ↦ rw (collected, e) (omega arith)
      | inr e ↦ rw (collected, e) (omega arith)
    ]

collect_lines_classes :
    (policy : HintPolicy) (lines : List Bytes) → All (λ i. i.class < 8) (collect_lines policy lines)
unfolding collect_lines
collect_lines_classes policy [] = tt
collect_lines_classes policy (line ∷ lines) =
    let rest = collect_lines_classes policy lines in
    elim (Bool-cases (is_numeric line)) [
      | inr e ↦ rw (collect_lines, e) tt
      | inl e ↦ elim (Option-cases (split_at 58 line)) [
        | inl f ↦ rw (collect_lines, e, f) rest
        | inr (r, f) ↦
            rw (collect_lines, e, f) (collected_class policy line (line_number r.0), rest)
      ]
    ]

collect_classes :
    (table : Option (List Bytes)) (s : State)
    → All (λ i. i.class < 8) (collect_full_irq_list table s)
unfolding collect_full_irq_list
collect_classes none s = tt
collect_classes (some []) s = tt
collect_classes (some (head ∷ lines)) s = collect_lines_classes s.global_hint_policy lines

Valid-Fresh : {Ban : ℕ → Type 0} (s : State) → Bare Ban s → DbValid s → Fresh s
unfolding get_list
Valid-Fresh s b v = record {
  empty = empty;
  unassigned = b.unassigned;
  once = λ p. omega (arith, v.once p, count-append p s.interrupts_db s.banned_irqs);
  distinct = λ p q hp hq. v.distinct p q (in_known p hp) (in_known q hq);
}
  where
    empty : (at : Place) (p : Ptr) → count p (get_list at s) ≡ 0
    empty rebalance p = ap (count p) b.none_waits
    empty (interrupts_of o) p = ap (count p) (b.objs_empty o)

    in_known : (p : Ptr) → 0 < count p s.interrupts_db → 0 < count p (known s)
    in_known p h = omega (arith, h, count-append p s.interrupts_db s.banned_irqs)

built_tree-Bare :
    {Ban : ℕ → Type 0} (sys : Sysfs) (s : State)
    → Bare Ban s
    → Bare Ban (parse_cpu_tree sys.cpu_dir (build_numa_node_list sys.node_dir s))
built_tree-Bare sys s b =
    parse_cpu_tree-Bare sys.cpu_dir (build_numa_node_list sys.node_dir s)
      (build_numa_node_list-Bare sys.node_dir s b)

build_object_tree-Bare :
    {Ban : ℕ → Type 0} (sys : Sysfs) (table : Option (List Bytes)) (s : State)
    → Bare Ban s
    → Bare Ban (build_object_tree sys table s)
unfolding build_object_tree
build_object_tree-Bare sys table s b = rebuild_irq_db-Bare sys.devices _ _ (built_tree-Bare sys s b)

build_object_tree-DbValid :
    {Ban : ℕ → Type 0} (sys : Sysfs) (table : Option (List Bytes)) (s : State)
    → Bare Ban s
    → DbValid (build_object_tree sys table s)
unfolding build_object_tree
build_object_tree-DbValid sys table s b =
    let t = parse_cpu_tree sys.cpu_dir (build_numa_node_list sys.node_dir s) in
    (rebuild_irq_db-DbValid sys.devices (collect_full_irq_list table t) t
      (built_tree-Bare sys s b).cl_old (collect_classes table t)).0

-- build_object_tree makes a tree and a database in which no object has an interrupt, none is assigned, and
-- no two interrupts have the same number, whatever the files have, from a state in which none is placed and
-- the interrupts banned on the command line have been allocated.
pub build_object_tree-Fresh :
    {Ban : ℕ → Type 0} (sys : Sysfs) (table : Option (List Bytes)) (s : State)
    → Bare Ban s
    → Fresh (build_object_tree sys table s)
build_object_tree-Fresh sys table s b =
    Valid-Fresh (build_object_tree sys table s) (build_object_tree-Bare sys table s b)
      (build_object_tree-DbValid sys table s b)

-- And no interrupt of the database has a number that is banned on the command line.
pub build_object_tree_bans :
    {Ban : ℕ → Type 0} (sys : Sysfs) (table : Option (List Bytes)) (s : State)
    → Bare Ban s
    → (n : ℕ) → Ban n
    → (p : Ptr) → 0 < count p (build_object_tree sys table s).interrupts_db
    → ((build_object_tree sys table s).irqs p).irq ≢ n
build_object_tree_bans sys table s b n ban p h e =
    let (q, listed, number) = (build_object_tree-Bare sys table s b).bans n ban in
    (build_object_tree-DbValid sys table s b).cl_apart p q h listed (e ∙ sym number)
