-- ===== src/Irq/Placement/Node.antt =====
-- place_irq_in_node: where an interrupt goes.
use code_analyze.Prelude.{
  ℕ, ◌+◌, ◌<◌, ◌≡◌, refl, sym, ◌∙◌, subst, Bool, true, false, not, ◌&&◌, ◌||◌, some, count, ◌==◌,
  arith, Bool-cases, Option-cases, inl, inr,
}
use code_analyze.Irq.Cpumask.{cpus_intersects}
use code_analyze.Irq.Types.{
  Ptr, IrqInfo, TopoObj, ObjType, obj_node, obj_cpu, obj_cache, obj_package, State, is_node, add64,
  ullong_max, balance_none,
}
use code_analyze.Irq.Lists.{Place, rebalance, interrupts_of, get_list}
use code_analyze.Irq.Lists.Ownership.{Owned, move, move_arrives, assign}
use code_analyze.Irq.Lists.Kept.{get_list-set_obj}
use code_analyze.Irq.Placement.{
  ObjPlacement, unsuitable, asign_of, scan, place_on, place_best, place_irq_in_node, no_number,
}
use code_analyze.Irq.Placement.Best.{scan_best}

-- The interrupt is on the list of this node, which has a CPU that is not banned.
pub record OnNode (p a : Ptr) (s t : State) : Type 0 where
  pub on : 0 < count p (get_list (interrupts_of a) t)
  pub usable : cpus_intersects (s.objs a).mask s.unbanned_cpus ≡ true

place_on_arrives :
    (a : Ptr) (extra : ℕ) (p : Ptr) (s : State)
    → Owned s
    → 0 < count p (get_list rebalance s)
    → 0 < count p (get_list (interrupts_of a) (place_on rebalance a extra p s))
unfolding place_on assign
place_on_arrives a extra p s v h =
    let n = move rebalance (interrupts_of a) p s in
    let x = add64 (n.objs a).load ((n.irqs p).load + extra) in
    subst (λ l. 0 < count p l)
      (sym (get_list-set_obj (interrupts_of a) a (record (n.objs a) { load = x }) n refl))
      (move_arrives s rebalance (interrupts_of a) p v h)

suitable_usable :
    (s : State) (info : IrqInfo) (d : TopoObj)
    → d.obj_type ≡ obj_node
    → unsuitable s info d ≡ false
    → cpus_intersects d.mask s.unbanned_cpus ≡ true
unfolding unsuitable
suitable_usable s info d is_a e =
    node_of d.obj_type (cpus_intersects d.mask s.unbanned_cpus) is_a (ground (arith, e))
  where
    node_of : (t : ObjType) (b : Bool) → t ≡ obj_node → is_node t && not b ≡ false → b ≡ true
    node_of obj_node b h k = ground arith
    node_of obj_cpu b h k = cc
    node_of obj_cache b h k = cc
    node_of obj_package b h k = cc

place_best_chosen :
    (from : Place) (p a : Ptr) (place : ObjPlacement) (s : State)
    → place.fault ≡ false
    → asign_of place ≡ some a
    → place_best from p place s ≡ place_on from a 0 p s
unfolding place_best
place_best_chosen from p a place s ok e = simp (ok, e)

node_near :
    (p n : Ptr) (s : State)
    → ((s.irqs p).level == balance_none) ≡ false
    → (s.irqs p).numa_node ≡ some n
    → no_number (s.objs n).number || not (cpus_intersects (s.objs n).mask s.unbanned_cpus) ≡ false
    → place_irq_in_node p s ≡ place_on rebalance n 1 p s
unfolding place_irq_in_node
node_near p n s level is_n near = rw (level, is_n, near) refl

node_far :
    (p n : Ptr) (s : State)
    → ((s.irqs p).level == balance_none) ≡ false
    → (s.irqs p).numa_node ≡ some n
    → no_number (s.objs n).number || not (cpus_intersects (s.objs n).mask s.unbanned_cpus) ≡ true
    → place_irq_in_node p s ≡ place_best rebalance p (scan s (s.irqs p) s.numa_nodes) s
unfolding place_irq_in_node
node_far p n s level is_n far = simp (level, is_n, far)

placed_on :
    (a : Ptr) (extra : ℕ) (p : Ptr) (s t : State)
    → Owned s
    → 0 < count p (get_list rebalance s)
    → cpus_intersects (s.objs a).mask s.unbanned_cpus ≡ true
    → t ≡ place_on rebalance a extra p s
    → OnNode p a s t
placed_on a extra p s t v here usable e = record {
  on =
      subst (λ x. 0 < count p (get_list (interrupts_of a) x)) (sym e)
        (place_on_arrives a extra p s v here);
  usable = usable;
}

-- An interrupt of the rebalance list goes on the list of a node with a CPU that is not banned, when it
-- has a node, its level is not BALANCE_NONE, and one of the nodes is not skipped, for nodes with a load
-- below ULLONG_MAX.
pub place_irq_in_node_places :
    (p n d : Ptr) (s : State)
    → Owned s
    → 0 < count p s.rebalance_irq_list
    → ((s.irqs p).level == balance_none) ≡ false
    → (s.irqs p).numa_node ≡ some n
    → ((b : Ptr)
        → 0 < count b s.numa_nodes
        → ((s.objs b).obj_type ≡ obj_node) × ((s.objs b).load < ullong_max))
    → 0 < count d s.numa_nodes
    → unsuitable s (s.irqs p) (s.objs d) ≡ false
    → (a : Ptr) × OnNode p a s (place_irq_in_node p s)
unfolding get_list
place_irq_in_node_places p n d s v here level is_n nodes listed suitable =
    elim (Bool-cases
      (no_number (s.objs n).number || not (cpus_intersects (s.objs n).mask s.unbanned_cpus))) [
        | inr near ↦ (
          n,
          placed_on n 1 p s (place_irq_in_node p s) v here (ground (arith, near))
              (node_near p n s level is_n near),
        )
        | inl far ↦
            let found = scan_best s (s.irqs p) s.numa_nodes (λ b h. (nodes b h).1) in
            elim (Option-cases (asign_of (scan s (s.irqs p) s.numa_nodes))) [
              | inl nothing ↦ absurd (cc (found.2 nothing d listed, suitable))
              | inr (a, chosen) ↦
                  let fits = found.1 a chosen in
                  (
                    a,
                    placed_on a 0 p s (place_irq_in_node p s) v here
                        (suitable_usable s (s.irqs p) (s.objs a) (nodes a fits.0).0 fits.1)
                        (node_far p n s level is_n far
                          ∙ place_best_chosen rebalance p a (scan s (s.irqs p) s.numa_nodes) s
                              found.0 chosen),
                  )
            ]
      ]
