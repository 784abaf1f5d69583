-- ===== src/Irq/Load/Changes.antt =====
-- parse_proc_stat changes loads only.
use code_analyze.Prelude.{
  ℕ, zero, suc, ◌%◌, ◌^◌, not, refl, Option, none, some, List, [], ◌∷◌, ◌==◌, length, Bool-cases,
  Option-cases, inl, inr,
}
use code_analyze.Irq.Types.{Ptr, State}
use code_analyze.Irq.Text.{Bytes, strtoul, strstr}
use code_analyze.Irq.Cpumask.{cpu_isset}
use code_analyze.Irq.Lists.{for_each}
use code_analyze.Irq.Load.{
  Jiffies, cpu_word, behind_cpu, find_cpu_core, reset_load, get_parent_branch_irq_count_share,
  assign_load_slice, slice_of, add_to_parent, assign_slices, compute_irq_branch_load_share,
  tree_depth, share_loads, parse_proc_stat, read_stat, read_stats, set_cpu_load, get_cpu_count,
}
use code_analyze.Irq.Load.Shape.{
  OnlyLoads, OnlyLoads-refl, OnlyLoads-trans, set_obj-OnlyLoads, set_irq-OnlyLoads, crash-OnlyLoads,
  for_each-OnlyLoads,
}

pub reset_load-OnlyLoads : (depth : ℕ) (d : Ptr) (s : State) → OnlyLoads s (reset_load depth d s)
unfolding reset_load
reset_load-OnlyLoads zero d s = crash-OnlyLoads s
reset_load-OnlyLoads (suc k) d s = elim (Option-cases (s.objs d).parent) [
  | inl top ↦ rw (reset_load, top) (set_obj-OnlyLoads d _ s refl)
  | inr (up, e) ↦
      rw (reset_load, e)
        (OnlyLoads-trans _ _ _ (reset_load-OnlyLoads k up s)
          (set_obj-OnlyLoads d _ (reset_load k up s) refl))
]

assign_load_slice-OnlyLoads : (n : ℕ) (p : Ptr) (s : State) → OnlyLoads s (assign_load_slice n p s)
unfolding assign_load_slice
assign_load_slice-OnlyLoads n p s = set_irq-OnlyLoads p _ s refl

add_to_parent-OnlyLoads : (d : Ptr) (s : State) → OnlyLoads s (add_to_parent d s)
unfolding add_to_parent
add_to_parent-OnlyLoads d s = elim (Option-cases (s.objs d).parent) [
  | inl top ↦ rw (add_to_parent, top) (OnlyLoads-refl s)
  | inr (up, e) ↦ rw (add_to_parent, e) (set_obj-OnlyLoads up _ s refl)
]

assign_slices-OnlyLoads : (depth : ℕ) (d : Ptr) (s : State) → OnlyLoads s (assign_slices depth d s)
unfolding assign_slices
assign_slices-OnlyLoads depth d s = elim (Bool-cases (length (s.objs d).interrupts == 0)) [
  | inl e ↦ rw (assign_slices, e) (OnlyLoads-refl s)
  | inr e ↦ elim (Option-cases (get_parent_branch_irq_count_share depth s d)) [
    | inl lost ↦ rw (assign_slices, e, lost) (crash-OnlyLoads s)
    | inr (n, r) ↦
        rw (assign_slices, e, r)
          (for_each-OnlyLoads _ (assign_load_slice-OnlyLoads (slice_of (s.objs d).load n))
            (s.objs d).interrupts s)
  ]
]

pub share-OnlyLoads :
    (depth : ℕ) (d : Ptr) (s : State) → OnlyLoads s (compute_irq_branch_load_share depth d s)
unfolding compute_irq_branch_load_share
share-OnlyLoads depth d s =
    OnlyLoads-trans _ _ _ (set_obj-OnlyLoads d _ s refl)
      (OnlyLoads-trans _ _ _ (assign_slices-OnlyLoads depth d _) (add_to_parent-OnlyLoads d _))

pub reset_loop : (l : List Ptr) (s : State) → OnlyLoads s (for_each l (reset_load tree_depth) s)
reset_loop = for_each-OnlyLoads (reset_load tree_depth) (reset_load-OnlyLoads tree_depth)

pub share_loop :
    (l : List Ptr) (s : State)
    → OnlyLoads s (for_each l (compute_irq_branch_load_share tree_depth) s)
share_loop =
    for_each-OnlyLoads (compute_irq_branch_load_share tree_depth) (share-OnlyLoads tree_depth)

pub share_loads-OnlyLoads : (s : State) → OnlyLoads s (share_loads s)
unfolding share_loads
share_loads-OnlyLoads s = OnlyLoads-trans _ _ _ (reset_loop s.cache_domains s) (
    OnlyLoads-trans _ _ _ (share_loop _ _) (
      OnlyLoads-trans _ _ _ (share_loop _ _)
        (OnlyLoads-trans _ _ _ (share_loop _ _) (share_loop _ _))))

pub read_stat-OnlyLoads :
    (j : Jiffies) (line : Bytes) (v : State × ℕ) → OnlyLoads v.0 (read_stat j line v).0.0
unfolding read_stat set_cpu_load
read_stat-OnlyLoads j line (s, n) = elim (Bool-cases (not (strstr line cpu_word))) [
  | inl e ↦ rw (read_stat, e) (OnlyLoads-refl s)
  | inr e ↦ elim (Bool-cases (cpu_isset (strtoul (behind_cpu line) % 2 ^ 32) s.banned_cpus)) [
    | inl b ↦ rw (read_stat, e, b) (OnlyLoads-refl s)
    | inr b ↦ elim (Option-cases (j.loads line)) [
      | inl l ↦ rw (read_stat, e, b, l) (OnlyLoads-refl s)
      | inr ((irq_load, softirq_load), l) ↦
          elim (Option-cases (find_cpu_core (strtoul (behind_cpu line) % 2 ^ 32) s)) [
            | inl c ↦ rw (read_stat, e, b, l, c) (OnlyLoads-refl s)
            | inr (cpu, c) ↦ rw (read_stat, e, b, l, c) (set_obj-OnlyLoads cpu _ s refl)
          ]
    ]
  ]
]

pub read_stats-OnlyLoads :
    (j : Jiffies) (lines : List Bytes) (v : State × ℕ) → OnlyLoads v.0 (read_stats j lines v).0
unfolding read_stats
read_stats-OnlyLoads j [] v = OnlyLoads-refl v.0
read_stats-OnlyLoads j (line ∷ lines) v =
    let first = read_stat-OnlyLoads j line v in
    elim (Bool-cases (read_stat j line v).1) [
      | inl more ↦
          rw (read_stats, more)
            (OnlyLoads-trans _ _ _ first (read_stats-OnlyLoads j lines (read_stat j line v).0))
      | inr stop ↦ rw (read_stats, stop) first
    ]

pub parse_proc_stat-OnlyLoads :
    (j : Jiffies) (file : Option (List Bytes)) (s : State) → OnlyLoads s (parse_proc_stat j file s)
unfolding parse_proc_stat
parse_proc_stat-OnlyLoads j none s = OnlyLoads-refl s
parse_proc_stat-OnlyLoads j (some []) s = OnlyLoads-refl s
parse_proc_stat-OnlyLoads j (some (sum ∷ lines)) s =
    let t = (read_stats j lines (s, 0)).0 in
    let read = read_stats-OnlyLoads j lines (s, 0) in
    elim (Bool-cases ((read_stats j lines (s, 0)).1 == get_cpu_count t)) [
      | inl e ↦ rw (parse_proc_stat, e) (OnlyLoads-trans _ _ _ read (share_loads-OnlyLoads t))
      | inr e ↦ rw (parse_proc_stat, e) read
    ]
