-- ===== src/Irq/Load/Returns.antt =====
-- The recursions of parse_proc_stat to the parents end on a tree of four levels.
use code_analyze.Prelude.{
  ℕ, zero, suc, ◌+◌, ◌/◌, ◌%◌, ◌^◌, not, ◌<◌, ◌≤◌, ◌≡◌, refl, ap, sym, ◌∙◌, subst, false, Option,
  none, some, List, [], ◌∷◌, ◌==◌, arith, length, Bool-cases, Option-cases, inl, inr,
}
use code_analyze.Irq.Types.{Ptr, ObjType, obj_cpu, obj_cache, obj_package, obj_node, TopoObj, State}
use code_analyze.Irq.Text.{Bytes, strtoul, strstr}
use code_analyze.Irq.Cpumask.{cpu_isset}
use code_analyze.Irq.Lists.{for_each}
use code_analyze.Irq.Load.{
  Jiffies, cpu_word, behind_cpu, find_cpu_core, reset_load, accumulate_irq_count,
  get_parent_branch_irq_count_share, assign_load_slice, slice_of, add_to_parent, assign_slices,
  compute_irq_branch_load_share, tree_depth, share_loads, parse_proc_stat, read_stat, read_stats,
  set_cpu_load, get_cpu_count,
}
use code_analyze.Irq.Load.Shape.{OnlyLoads, set_obj-OnlyLoads}
use code_analyze.Irq.Load.Changes.{
  reset_load-OnlyLoads, share-OnlyLoads, read_stats-OnlyLoads, reset_loop, share_loop,
}

abbrev pub rank : ObjType → ℕ
rank obj_cpu = 0
rank obj_cache = 1
rank obj_package = 2
rank obj_node = 3

-- A parent is of a higher level, and has children.
pub record Levels (s : State) : Type 0 where
  pub higher :
      (o p : Ptr) → (s.objs o).parent ≡ some p → rank (s.objs o).obj_type < rank (s.objs p).obj_type
  pub has_children :
      (o p : Ptr) → (s.objs o).parent ≡ some p → (length (s.objs p).children == 0) ≡ false

pub OnlyLoads-Levels : (s t : State) → OnlyLoads s t → Levels s → Levels t
OnlyLoads-Levels s t v w = record {
  higher = λ o p h.
      subst (λ x. x < rank (t.objs p).obj_type) (sym (level o))
        (subst (λ x. rank (s.objs o).obj_type < x) (sym (level p)) (w.higher o p (before o p h)));
  has_children = λ o p h.
      subst (λ x. (length x == 0) ≡ false) (sym (ap (λ (d : TopoObj). d.children) (v.objs_same p)))
        (w.has_children o p (before o p h));
}
  where
    level : (o : Ptr) → rank (t.objs o).obj_type ≡ rank (s.objs o).obj_type
    level o = ap (λ (d : TopoObj). rank d.obj_type) (v.objs_same o)

    before : (o p : Ptr) → (t.objs o).parent ≡ some p → (s.objs o).parent ≡ some p
    before o p h = sym (ap (λ (d : TopoObj). d.parent) (v.objs_same o)) ∙ h

rank-le : (t : ObjType) → rank t ≤ 3
rank-le obj_cpu = omega arith
rank-le obj_cache = omega arith
rank-le obj_package = omega arith
rank-le obj_node = omega arith

share_returns :
    (depth : ℕ) (s : State) (d : Ptr)
    → Levels s
    → 3 < depth + rank (s.objs d).obj_type
    → (n : ℕ) × (get_parent_branch_irq_count_share depth s d ≡ some n)
unfolding get_parent_branch_irq_count_share
share_returns zero s d v h = absurd (omega (arith, h, rank-le (s.objs d).obj_type))
share_returns (suc k) s d v h = elim (Option-cases (s.objs d).parent) [
  | inl top ↦ (
    for_each (s.objs d).interrupts (accumulate_irq_count s) 0,
    rw (get_parent_branch_irq_count_share, top) refl,
  )
  | inr (up, e) ↦
      let (total, above) = share_returns k s up v (omega (arith, h, v.higher d up e)) in
      (
        for_each (s.objs d).interrupts (accumulate_irq_count s)
            (total / length (s.objs up).children),
        rw (get_parent_branch_irq_count_share, e, above, v.has_children d up e) refl,
      )
]

-- The mark of a crash is as before.
abbrev Sound : State → State → Type 0
Sound s t = t.crashed ≡ s.crashed

reset_load-Sound :
    (depth : ℕ) (d : Ptr) (s : State)
    → Levels s
    → 3 < depth + rank (s.objs d).obj_type
    → Sound s (reset_load depth d s)
unfolding reset_load
reset_load-Sound zero d s v h = absurd (omega (arith, h, rank-le (s.objs d).obj_type))
reset_load-Sound (suc k) d s v h = elim (Option-cases (s.objs d).parent) [
  | inl top ↦ rw (reset_load, top) refl
  | inr (up, e) ↦ rw (reset_load, e) (reset_load-Sound k up s v (omega (arith, h, v.higher d up e)))
]

deep_enough : (s : State) (d : Ptr) → 3 < tree_depth + rank (s.objs d).obj_type
deep_enough s d = omega arith

assign_loop-Sound :
    (n : ℕ) (l : List Ptr) (s : State) → Sound s (for_each l (assign_load_slice n) s)
unfolding for_each assign_load_slice
assign_loop-Sound n [] s = refl
assign_loop-Sound n (p ∷ ps) s = assign_loop-Sound n ps (assign_load_slice n p s)

assign_slices-Sound : (d : Ptr) (s : State) → Levels s → Sound s (assign_slices tree_depth d s)
unfolding assign_slices
assign_slices-Sound d s v = elim (Bool-cases (length (s.objs d).interrupts == 0)) [
  | inl e ↦ rw (assign_slices, e) refl
  | inr e ↦
      let (n, r) = share_returns tree_depth s d v (deep_enough s d) in
      rw (assign_slices, e, r)
        (assign_loop-Sound (slice_of (s.objs d).load n) (s.objs d).interrupts s)
]

add_to_parent-Sound : (d : Ptr) (s : State) → Sound s (add_to_parent d s)
unfolding add_to_parent
add_to_parent-Sound d s = elim (Option-cases (s.objs d).parent) [
  | inl top ↦ rw (add_to_parent, top) refl
  | inr (up, e) ↦ rw (add_to_parent, e) refl
]

share-Sound :
    (d : Ptr) (s : State) → Levels s → Sound s (compute_irq_branch_load_share tree_depth d s)
unfolding compute_irq_branch_load_share
share-Sound d s v =
    add_to_parent-Sound d _
    ∙ assign_slices-Sound d _ (OnlyLoads-Levels _ _ (set_obj-OnlyLoads d _ s refl) v)

-- A loop whose body wants the levels.
for_each_tree :
    (cb : Ptr → State → State)
    → ((d : Ptr) (s : State) → OnlyLoads s (cb d s))
    → ((d : Ptr) (s : State) → Levels s → Sound s (cb d s))
    → (l : List Ptr) (s : State) → Levels s
    → Sound s (for_each l cb s)
unfolding for_each
for_each_tree cb loads body [] s v = refl
for_each_tree cb loads body (d ∷ ds) s v =
    for_each_tree cb loads body ds (cb d s) (OnlyLoads-Levels _ _ (loads d s) v) ∙ body d s v

share_level :
    (l : List Ptr) (s : State)
    → Levels s
    → Sound s (for_each l (compute_irq_branch_load_share tree_depth) s)
share_level = for_each_tree _ (share-OnlyLoads tree_depth) share-Sound

share_loads-Sound : (s : State) → Levels s → Sound s (share_loads s)
unfolding share_loads
share_loads-Sound s v =
    let share = compute_irq_branch_load_share tree_depth in
    let s1 = for_each s.cache_domains (reset_load tree_depth) s in
    let v1 = OnlyLoads-Levels s s1 (reset_loop s.cache_domains s) v in
    let s2 = for_each s1.cpus share s1 in
    let v2 = OnlyLoads-Levels s1 s2 (share_loop s1.cpus s1) v1 in
    let s3 = for_each s2.cache_domains share s2 in
    let v3 = OnlyLoads-Levels s2 s3 (share_loop s2.cache_domains s2) v2 in
    let s4 = for_each s3.packages share s3 in
    let v4 = OnlyLoads-Levels s3 s4 (share_loop s3.packages s3) v3 in
    share_level s4.numa_nodes s4 v4
    ∙ share_level s3.packages s3 v3
    ∙ share_level s2.cache_domains s2 v2
    ∙ share_level s1.cpus s1 v1
    ∙ for_each_tree (reset_load tree_depth) (reset_load-OnlyLoads tree_depth)
        (λ d t w. reset_load-Sound tree_depth d t w (deep_enough t d)) s.cache_domains s v

read_stat-Sound : (j : Jiffies) (line : Bytes) (v : State × ℕ) → Sound v.0 (read_stat j line v).0.0
unfolding read_stat set_cpu_load
read_stat-Sound j line (s, n) = elim (Bool-cases (not (strstr line cpu_word))) [
  | inl e ↦ rw (read_stat, e) refl
  | inr e ↦ elim (Bool-cases (cpu_isset (strtoul (behind_cpu line) % 2 ^ 32) s.banned_cpus)) [
    | inl b ↦ rw (read_stat, e, b) refl
    | inr b ↦ elim (Option-cases (j.loads line)) [
      | inl l ↦ rw (read_stat, e, b, l) refl
      | inr ((irq_load, softirq_load), l) ↦
          elim (Option-cases (find_cpu_core (strtoul (behind_cpu line) % 2 ^ 32) s)) [
            | inl c ↦ rw (read_stat, e, b, l, c) refl
            | inr (cpu, c) ↦ rw (read_stat, e, b, l, c) refl
          ]
    ]
  ]
]

read_stats-Sound :
    (j : Jiffies) (lines : List Bytes) (v : State × ℕ) → Sound v.0 (read_stats j lines v).0
unfolding read_stats
read_stats-Sound j [] v = refl
read_stats-Sound j (line ∷ lines) v =
    let first = read_stat-Sound j line v in
    elim (Bool-cases (read_stat j line v).1) [
      | inl more ↦ rw (read_stats, more) (read_stats-Sound j lines (read_stat j line v).0 ∙ first)
      | inr stop ↦ rw (read_stats, stop) first
    ]

-- When every parent is of a higher level than its child and has children, parse_proc_stat returns without
-- a division by 0 and without a recursion past four levels, whatever the file has: the mark of a crash is
-- as before.
pub parse_proc_stat_returns :
    (j : Jiffies) (file : Option (List Bytes)) (s : State)
    → Levels s
    → (parse_proc_stat j file s).crashed ≡ s.crashed
unfolding parse_proc_stat
parse_proc_stat_returns j none s v = refl
parse_proc_stat_returns j (some []) s v = refl
parse_proc_stat_returns j (some (sum ∷ lines)) s v =
    let t = (read_stats j lines (s, 0)).0 in
    let read = read_stats-Sound j lines (s, 0) in
    elim (Bool-cases ((read_stats j lines (s, 0)).1 == get_cpu_count t)) [
      | inl e ↦
          rw (parse_proc_stat, e)
            (share_loads-Sound t (OnlyLoads-Levels _ _ (read_stats-OnlyLoads j lines (s, 0)) v)
              ∙ read)
      | inr e ↦ rw (parse_proc_stat, e) read
    ]
