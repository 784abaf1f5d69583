-- ===== src/Irq/Placement.antt =====
-- placement.c: where the interrupts of the rebalance list go, level by level down the tree.
pub mod Best
pub mod Ownership
pub mod Node
pub mod Validate
use code_analyze.Prelude.{
  ℕ, ◌+◌, Bool, true, false, ◌&&◌, ◌||◌, not, Option, none, some, List, [], ◌∷◌, ltb, ◌==◌,
  if◌then◌else◌, length,
}
use code_analyze.Irq.Cpumask.{cpus_empty, cpus_and, cpus_intersects}
use code_analyze.Irq.Types.{
  Ptr, IrqInfo, TopoObj, ObjType, obj_cpu, obj_cache, obj_package, obj_node, State, set_obj,
  set_irq, crash, is_subset, is_node, add64, ullong_max, balance_none, balance_package,
  balance_cache, balance_core,
}
use code_analyze.Irq.Lists.{
  Place, rebalance, interrupts_of, migrate_irq, for_each, for_each_irq, GList, sort_irq_list,
}

-- struct obj_placement, less its `info`; `fault` is set where the code follows `best` when it is NULL.
pub record ObjPlacement : Type 0 where
  pub best : Option Ptr
  pub least_irqs : Option Ptr
  pub best_cost : ℕ
  pub fault : Bool

abbrev pub no_number : Option ℕ → Bool
no_number none = true
no_number (some n) = false

-- The returns of find_best_object before it looks at the load.
unfoldable pub unsuitable : State → IrqInfo → TopoObj → Bool
unsuitable s info d =
    s.numa_avail && is_node d.obj_type && no_number d.number
    || is_node d.obj_type && not (cpus_intersects d.mask s.unbanned_cpus)
    || is_subset info.hint_policy
      && not (cpus_empty info.affinity_hint)
      && cpus_empty (cpus_and info.affinity_hint d.mask)
    || d.powersave_mode

unfoldable pub take_best : Ptr → ℕ → ObjPlacement → ObjPlacement
take_best d newload place =
    if ltb newload place.best_cost
    then record { best = some d; least_irqs = none; best_cost = newload; fault = place.fault }
    else place

unfoldable pub take_least : State → Ptr → ℕ → ObjPlacement → ObjPlacement
take_least s d newload place =
    if newload == place.best_cost
    then elim place.best [
      | none ↦ record place { fault = true }
      | some b ↦
          if ltb (length (s.objs d).interrupts) (length (s.objs b).interrupts)
          then record place { least_irqs = some d }
          else place
    ]
    else place

unfoldable pub find_best_object : State → IrqInfo → Ptr → ObjPlacement → ObjPlacement
find_best_object s info d place =
    let newload = (s.objs d).load in
    if unsuitable s info (s.objs d)
    then place
    else take_least s d newload (take_best d newload place)

abbrev pub no_placement : ObjPlacement
no_placement = record { best = none; least_irqs = none; best_cost = ullong_max; fault = false }

-- `place.least_irqs ? place.least_irqs : place.best`.
unfoldable pub asign_of : ObjPlacement → Option Ptr
asign_of place = elim place.least_irqs [ none ↦ place.best | some l ↦ some l ]

-- The scan of a list of objects for one interrupt.
unfoldable pub scan : State → IrqInfo → List Ptr → ObjPlacement
scan s info ds = for_each ds (find_best_object s info) no_placement

-- The move of an interrupt to an object: migrate_irq, its new `assigned_obj`, and the load.
unfoldable pub place_on : Place → Ptr → ℕ → Ptr → State → State
place_on from a extra p s =
    let m = migrate_irq from (interrupts_of a) p s in
    let n = set_irq p (record (m.irqs p) { assigned_obj = some a }) m in
    set_obj a (record (n.objs a) { load = add64 (n.objs a).load ((n.irqs p).load + extra) }) n

-- What find_best_object_for_irq and place_irq_in_node do with the result of the scan.
unfoldable pub place_best : Place → Ptr → ObjPlacement → State → State
place_best from p place s =
    if place.fault
    then crash s
    else elim (asign_of place) [ none ↦ s | some a ↦ place_on from a 0 p s ]

-- The level at which an interrupt on an object of this type stays.
abbrev pub level_of : ObjType → ℕ
level_of obj_node = balance_none
level_of obj_package = balance_package
level_of obj_cache = balance_cache
level_of obj_cpu = balance_core

unfoldable pub find_best_object_for_irq : Ptr → Ptr → State → State
find_best_object_for_irq d p s =
    let info = s.irqs p in
    if not info.moved || info.level == level_of (s.objs d).obj_type
    then s
    else place_best (interrupts_of d) p (scan s info (s.objs d).children) s

unfoldable pub place_irq_in_object : Ptr → State → State
place_irq_in_object d s =
    if ltb 0 (length (s.objs d).interrupts)
    then for_each_irq s.interrupts_db (s.objs d).interrupts (find_best_object_for_irq d) s
    else s

-- An interrupt has no node where get_numa_node found none; the code reads the node's number then.
unfoldable pub place_irq_in_node : Ptr → State → State
place_irq_in_node p s =
    let info = s.irqs p in
    if info.level == balance_none && cpus_empty s.banned_cpus then s else elim info.numa_node [
      | none ↦ crash s
      | some n ↦
          if no_number (s.objs n).number || not (cpus_intersects (s.objs n).mask s.unbanned_cpus)
          then place_best rebalance p (scan s info s.numa_nodes) s
          else place_on rebalance n 1 p s
    ]

-- The body of the if of calculate_placement.
unfoldable pub place_all : State → State
place_all s =
    let a = for_each_irq s.interrupts_db s.rebalance_irq_list place_irq_in_node s in
    let b = for_each a.numa_nodes place_irq_in_object a in
    let c = for_each b.packages place_irq_in_object b in
    for_each c.cache_domains place_irq_in_object c

unfoldable pub calculate_placement : GList → State → State
calculate_placement g s0 =
    let s = sort_irq_list g rebalance s0 in
    if ltb 0 (length s.rebalance_irq_list) then place_all s else s

abbrev pub points_to : Ptr → Option Ptr → Bool
points_to o none = false
points_to o (some a) = a == o

-- The number of messages that validate_irq, validate_object and validate_object_tree_placement log.
unfoldable pub validate_irq : State → Ptr → Ptr → ℕ → ℕ
validate_irq s d p n = if points_to d (s.irqs p).assigned_obj then n else n + 1

unfoldable pub validate_object : State → Ptr → ℕ → ℕ
validate_object s d n =
    if ltb 0 (length (s.objs d).interrupts)
    then for_each_irq s.interrupts_db (s.objs d).interrupts (validate_irq s d) n
    else n

unfoldable pub validate_object_tree_placement : State → ℕ
validate_object_tree_placement s =
    for_each s.cpus (validate_object s)
      (for_each s.cache_domains (validate_object s) (for_each s.packages (validate_object s) 0))
