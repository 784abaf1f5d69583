-- ===== src/Irq/Placement/Ownership.antt =====
-- The placement and the ownership of interrupts.
use code_analyze.Prelude.{
  ℕ, ◌+◌, ◌<◌, ◌≡◌, ◌≢◌, refl, ap, ◌∙◌, count, ltb, ◌==◌, length, ltb→lt, not, ◌||◌, ◌&&◌,
  Bool-cases, Option-cases, inl, inr,
}
use code_analyze.Irq.Types.{Ptr, State, set_obj, crash, add64, balance_none}
use code_analyze.Irq.Cpumask.{cpus_empty, cpus_intersects}
use code_analyze.Irq.Lists.{
  Place, rebalance, interrupts_of, get_list, for_each, for_each_irq, GList, sort_irq_list,
}
use code_analyze.Irq.Lists.Ownership.{Owned, move, move_others, assign}
use code_analyze.Irq.Lists.Kept.{
  Kept, Kept-refl, Kept-trans, crash-Kept, KeptBody, for_each_object-Kept, for_each_irq-Kept,
  move-Kept, sort_irq_list-Kept, set_obj-Kept, get_list-set_obj, get_list-crash,
}
use code_analyze.Irq.Placement.{
  ObjPlacement, asign_of, scan, place_on, place_best, find_best_object_for_irq, place_irq_in_object,
  place_irq_in_node, place_all, calculate_placement, level_of, no_number,
}

-- What one call may do to the lists: nothing is lost, and the other interrupts stay.
pub record Moved (p : Ptr) (s t : State) : Type 0 where
  pub kept : Kept s t
  pub others : (at : Place) (q : Ptr) → q ≢ p → count q (get_list at t) ≡ count q (get_list at s)

Moved-refl : (p : Ptr) (s : State) → Owned s → Moved p s s
Moved-refl p s v = record { kept = Kept-refl s v; others = λ at q ne. refl }

Moved-crash : (p : Ptr) (s : State) → Owned s → Moved p s (crash s)
Moved-crash p s v = record {
  kept = crash-Kept s v;
  others = λ at q ne. ap (count q) (get_list-crash at s);
}

pub place_on-Moved :
    (from : Place) (a : Ptr) (extra : ℕ) (p : Ptr) (s : State)
    → Owned s
    → 0 < count p (get_list from s)
    → Moved p s (place_on from a extra p s)
unfolding place_on assign
place_on-Moved from a extra p s v h =
    let n = move from (interrupts_of a) p s in
    let x = add64 (n.objs a).load ((n.irqs p).load + extra) in
    let moved = move-Kept s from (interrupts_of a) p v h in
    record {
      kept =
          Kept-trans s n (set_obj a (record (n.objs a) { load = x }) n) moved
            (set_obj-Kept a (record (n.objs a) { load = x }) n refl moved.owned);
      others = λ at q ne.
          ap (count q) (get_list-set_obj at a (record (n.objs a) { load = x }) n refl)
          ∙ move_others s from (interrupts_of a) p v h at q ne;
    }

place_best-Moved :
    (from : Place) (p : Ptr) (place : ObjPlacement) (s : State)
    → Owned s
    → 0 < count p (get_list from s)
    → Moved p s (place_best from p place s)
unfolding place_best asign_of
place_best-Moved from p place s v h = elim (Bool-cases place.fault) [
  | inl f ↦ rw f (Moved-crash p s v)
  | inr f ↦ elim (Option-cases (asign_of place)) [
    | inl e ↦ rw (f, e) (Moved-refl p s v)
    | inr (a, e) ↦ rw (f, e) (place_on-Moved from a 0 p s v h)
  ]
]

find_best_object_for_irq-Moved :
    (d p : Ptr) (s : State)
    → Owned s
    → 0 < count p (get_list (interrupts_of d) s)
    → Moved p s (find_best_object_for_irq d p s)
unfolding find_best_object_for_irq
find_best_object_for_irq-Moved d p s v h =
    elim (Bool-cases (not (s.irqs p).moved || (s.irqs p).level == level_of (s.objs d).obj_type)) [
      | inl e ↦ rw e (Moved-refl p s v)
      | inr e ↦
          rw e (place_best-Moved (interrupts_of d) p (scan s (s.irqs p) (s.objs d).children) s v h)
    ]

place_irq_in_node-Moved :
    (p : Ptr) (s : State)
    → Owned s
    → 0 < count p (get_list rebalance s)
    → Moved p s (place_irq_in_node p s)
unfolding place_irq_in_node
place_irq_in_node-Moved p s v h =
    elim (Bool-cases ((s.irqs p).level == balance_none && cpus_empty s.banned_cpus)) [
      | inl e ↦ rw e (Moved-refl p s v)
      | inr e ↦ elim (Option-cases (s.irqs p).numa_node) [
        | inl no_node ↦ rw (e, no_node) (Moved-crash p s v)
        | inr (n, is_n) ↦
            elim (Bool-cases (
              no_number (s.objs n).number
              || not (cpus_intersects (s.objs n).mask s.unbanned_cpus))) [
                | inl far ↦
                    rw (e, is_n, far)
                      (place_best-Moved rebalance p (scan s (s.irqs p) s.numa_nodes) s v h)
                | inr near ↦ rw (e, is_n, near) (place_on-Moved rebalance n 1 p s v h)
              ]
      ]
    ]

-- Placing the interrupts of an object on its children keeps ownership, and no interrupt is lost.
pub place_irq_in_object-Kept : (d : Ptr) (s : State) → Owned s → Kept s (place_irq_in_object d s)
unfolding place_irq_in_object get_list
place_irq_in_object-Kept d s v = elim (Bool-cases (ltb 0 (length (s.objs d).interrupts))) [
  | inl some_irqs ↦ rw some_irqs (
      for_each_irq-Kept (λ t. t) (interrupts_of d) (find_best_object_for_irq d) body s.interrupts_db
        (s.objs d).interrupts s v refl (ltb→lt 0 (length (s.objs d).interrupts) some_irqs))
  | inr no_irqs ↦ rw no_irqs (Kept-refl s v)
]
  where
    body : KeptBody (λ t. t) (interrupts_of d) (find_best_object_for_irq d)
    body = record {
      kept = λ p t w h. (find_best_object_for_irq-Moved d p t w h).kept;
      others = λ p t w h. (find_best_object_for_irq-Moved d p t w h).others;
    }

place_all-Kept : (s : State) → Owned s → 0 < length s.rebalance_irq_list → Kept s (place_all s)
unfolding place_all get_list
place_all-Kept s v h =
    let a = for_each_irq s.interrupts_db s.rebalance_irq_list place_irq_in_node s in
    let b = for_each a.numa_nodes place_irq_in_object a in
    let c = for_each b.packages place_irq_in_object b in
    let first =
      for_each_irq-Kept (λ t. t) rebalance place_irq_in_node body s.interrupts_db
        s.rebalance_irq_list s v refl h in
    let second =
      for_each_object-Kept (λ t. t) place_irq_in_object place_irq_in_object-Kept a.numa_nodes a
        first.owned in
    let third =
      for_each_object-Kept (λ t. t) place_irq_in_object place_irq_in_object-Kept b.packages b
        second.owned in
    let last =
      for_each_object-Kept (λ t. t) place_irq_in_object place_irq_in_object-Kept c.cache_domains c
        third.owned in
    Kept-trans s a (place_all s) first
      (Kept-trans a b (place_all s) second (Kept-trans b c (place_all s) third last))
  where
    body : KeptBody (λ t. t) rebalance place_irq_in_node
    body = record {
      kept = λ p t w k. (place_irq_in_node-Moved p t w k).kept;
      others = λ p t w k. (place_irq_in_node-Moved p t w k).others;
    }

-- calculate_placement keeps ownership intact: an interrupt on an object's list has that object as its
-- `assigned_obj`, an interrupt on the rebalance list has none, and no list has one twice; and every
-- interrupt that was on a list is on one.
pub calculate_placement-Kept : (g : GList) (s : State) → Owned s → Kept s (calculate_placement g s)
unfolding calculate_placement
calculate_placement-Kept g s v =
    let sorted = sort_irq_list g rebalance s in
    let first = sort_irq_list-Kept g rebalance s v in
    elim (Bool-cases (ltb 0 (length sorted.rebalance_irq_list))) [
      | inl e ↦ rw e (
          Kept-trans s sorted (place_all sorted) first
            (place_all-Kept sorted first.owned (ltb→lt 0 (length sorted.rebalance_irq_list) e)))
      | inr e ↦ rw e first
    ]
