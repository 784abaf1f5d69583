-- ===== src/Irq/Tests.antt =====
-- Concrete states of the daemon, and the theorems at them.
mod Database
mod Cpus
mod Masks
mod Measure
mod Rounds
mod Start
use code_analyze.Prelude.{
  ℕ, ◌+◌, ◌-◌, ◌*◌, ◌/◌, ◌%◌, ◌^◌, ◌<◌, ◌≤◌, ◌≡◌, ◌≢◌, refl, Bool, true, false, ◌&&◌, Option, none,
  some, List, [], ◌∷◌, count, All, arith, leb, ◌==◌, if◌then◌else◌, length,
}
use code_analyze.Irq.Cpumask.{cpus_empty, cpus_intersects, cpu_set, cpus_clear}
use code_analyze.Irq.Types.{
  Ptr, legacy, ignore, TopoObj, obj_node, IrqInfo, State, ullong_max, balance_none,
}
use code_analyze.Irq.Lists.{Place, GList, rebalance, interrupts_of, get_list, for_each}
use code_analyze.Irq.Lists.Ownership.{Owned, owner_of}
use code_analyze.Irq.Lists.Kept.{Listed, Kept}
use code_analyze.Irq.Placement.{
  scan, asign_of, unsuitable, place_irq_in_node, calculate_placement,
  validate_object_tree_placement,
}
use code_analyze.Irq.Placement.Best.{scan_best}
use code_analyze.Irq.Placement.Node.{OnNode, place_irq_in_node_places}
use code_analyze.Irq.Placement.Ownership.{calculate_placement-Kept}
use code_analyze.Irq.Placement.Validate.{calculate_placement_validates}
use code_analyze.Irq.Balance.{
  LongDouble, Balancing, no_info, take_off, load_stats, move_candidate_irqs,
  update_migration_status,
}
use code_analyze.Irq.Balance.Candidate.{Candidate}
use code_analyze.Irq.Balance.Ownership.{update_migration_status-Kept}
use code_analyze.Irq.Balance.Fairness.{
  Balanced, move_candidate_irqs-Balanced, move_candidate_irqs_moves,
}
use code_analyze.Irq.Balance.Stats.{Least, behind_zero, total_of, load_stats_lem}
use code_analyze.Irq.Activate.{Affinity, activate_mappings}
use code_analyze.Irq.Activate.Written.{Allowed, activate_mappings-Allowed}
use code_analyze.Irq.Cycle.{force_rebalance_all}
use code_analyze.Irq.Cycle.Start.{Fresh, force_rebalance_all-Owned}
use code_analyze.Irq.Topology.{add_cpu_to_cache_domain, add_cache_domain_to_package}
use code_analyze.Irq.Topology.Domains.{OnePerMask}
use code_analyze.Irq.Topology.Joining.{
  Joined, add_cpu_to_cache_domain_joins, add_cache_domain_to_package_joins,
}
use code_analyze.Irq.Topology.Cpu.{CpuFiles, do_one_cpu}
use code_analyze.Irq.Topology.Cpu.Tree.{Tree, do_one_cpu-Tree}
use code_analyze.Irq.Topology.Cpu.Count.{do_one_cpu_lem}
use code_analyze.Irq.Db.{Outside, class_number, get_irq_info, new_irq}
use code_analyze.Irq.Db.Rebuild.{rebuild_irq_db}
use code_analyze.Irq.Db.Valid.{DbValid}
use code_analyze.Irq.Db.Complete.{rebuild_irq_db-DbValid}

-- Sorting by insertion.
insert : (Ptr → Ptr → Bool) → Ptr → List Ptr → List Ptr
insert behind x [] = x ∷ []
insert behind x (y ∷ ys) = if behind x y then y ∷ insert behind x ys else x ∷ y ∷ ys

insertion_sort : (Ptr → Ptr → Bool) → List Ptr → List Ptr
insertion_sort behind [] = []
insertion_sort behind (x ∷ xs) = insert behind x (insertion_sort behind xs)

count-insert :
    (behind : Ptr → Ptr → Bool) (x : Ptr) (l : List Ptr) (p : Ptr)
    → count p (insert behind x l) ≡ (if x == p then 1 else 0) + count p l
unfolding insert
count-insert behind x [] p = refl
count-insert behind x (y ∷ ys) p = ground (arith, count-insert behind x ys p)

count-insertion_sort :
    (behind : Ptr → Ptr → Bool) (l : List Ptr) (p : Ptr)
    → count p (insertion_sort behind l) ≡ count p l
unfolding insertion_sort
count-insertion_sort behind [] p = refl
count-insertion_sort behind (x ∷ xs) p =
    omega
      (arith, count-insert behind x (insertion_sort behind xs) p, count-insertion_sort behind xs p)

abbrev sorting : GList
sorting = record { sort = insertion_sort; sort_count = count-insertion_sort }

-- Exact arithmetic on square roots: the value is the square.
abbrev exact_roots : LongDouble
exact_roots = record {
  Value = ℕ;
  zero_value = 0;
  sqrt = λ n. n;
  sum_at_most = λ x d y. leb x y && leb d ((y - x) * (y - x));
  difference_at_least = λ x d y. leb y x && leb d ((x - y) * (x - y));
}

abbrev irq_at : Option Ptr → ℕ → Ptr → IrqInfo
irq_at o w p = record {
  irq = p;
  class = 4;
  irq_type = legacy;
  level = 3;
  banned = false;
  numa_node = some 1;
  cpumask = 3 ∷ [];
  affinity_hint = 0 ∷ [];
  hint_policy = ignore;
  irq_count = 20;
  last_irq_count = 10;
  load = w;
  moved = true;
  assigned_obj = o;
}

abbrev node_with : List Ptr → Ptr → TopoObj
node_with l o = record {
  load = 100;
  last_load = 0;
  obj_type = obj_node;
  number = some o;
  powersave_mode = false;
  mask = 3 ∷ [];
  interrupts = if o == 1 then l else [];
  parent = none;
  children = [];
}

abbrev two_irqs : List Ptr
two_irqs = 1 ∷ 2 ∷ []

abbrev state_with : Option Ptr → List Ptr → List Ptr → State
state_with o listed waiting = record {
  irqs = irq_at o 10;
  objs = node_with listed;
  next_irq = 3;
  next_obj = 3;
  interrupts_db = two_irqs;
  banned_irqs = [];
  cl_banned_irqs = [];
  rebalance_irq_list = waiting;
  numa_nodes = 1 ∷ 2 ∷ [];
  packages = [];
  cache_domains = [];
  cpus = 1 ∷ [];
  package_count = 0;
  cache_domain_count = 0;
  core_count = 2;
  banned_cpus = 0 ∷ [];
  unbanned_cpus = 3 ∷ [];
  cpu_possible_map = 3 ∷ [];
  numa_avail = true;
  need_rescan = false;
  cycle_count = 1;
  power_thresh = ullong_max;
  deepest_cache = 0;
  global_hint_policy = ignore;
  crashed = false;
}

-- Both interrupts wait on the rebalance list.
abbrev waiting_state : State
waiting_state = state_with none [] two_irqs

-- Both interrupts are on the object at 1.
abbrev placed_state : State
placed_state = state_with (some 1) two_irqs []

waiting_listed :
    (at : Place) (p : Ptr)
    → (count p (get_list at waiting_state) ≤ count p two_irqs)
      × (0 < count p (get_list at waiting_state) → none ≡ owner_of at)
unfolding get_list
waiting_listed rebalance p = (omega arith, λ h. refl)
waiting_listed (interrupts_of o) p = (ground arith, λ h. absurd (ground arith))

placed_listed :
    (at : Place) (p : Ptr)
    → (count p (get_list at placed_state) ≤ count p two_irqs)
      × (0 < count p (get_list at placed_state) → some 1 ≡ owner_of at)
unfolding get_list
placed_listed rebalance p = (ground arith, λ h. absurd (ground arith))
placed_listed (interrupts_of o) p = (ground arith, λ h. ground arith)

two_once : (p : Ptr) → count p two_irqs ≤ 1
two_once p = ground arith

waiting_state-Owned : Owned waiting_state
waiting_state-Owned = record {
  owner = λ at p h. (waiting_listed at p).1 h;
  once = λ at p. omega (arith, (waiting_listed at p).0, two_once p);
  known = λ at p h. omega (arith, h, (waiting_listed at p).0);
  distinct = λ p q hp hq e. e;
}

placed_state-Owned : Owned placed_state
placed_state-Owned = record {
  owner = λ at p h. (placed_listed at p).1 h;
  once = λ at p. omega (arith, (placed_listed at p).0, two_once p);
  known = λ at p h. omega (arith, h, (placed_listed at p).0);
  distinct = λ p q hp hq e. e;
}

nodes_small :
    (d : Ptr) → 0 < count d waiting_state.numa_nodes → (waiting_state.objs d).load < ullong_max
nodes_small d h = omega arith

calculate_placement-Kept_example : Kept waiting_state (calculate_placement sorting waiting_state)
calculate_placement-Kept_example =
    calculate_placement-Kept sorting waiting_state waiting_state-Owned

calculate_placement_validates_example :
    validate_object_tree_placement (calculate_placement sorting waiting_state) ≡ 0
calculate_placement_validates_example =
    calculate_placement_validates sorting waiting_state waiting_state-Owned

scan_best_example :
    ((scan waiting_state (irq_at none 10 1) (1 ∷ 2 ∷ [])).fault ≡ false)
    × ((a : Ptr)
        → asign_of (scan waiting_state (irq_at none 10 1) (1 ∷ 2 ∷ [])) ≡ some a
        → (0 < count a (1 ∷ 2 ∷ []))
          × (unsuitable waiting_state (irq_at none 10 1) (waiting_state.objs a) ≡ false)
          × ((d : Ptr)
              → 0 < count d (1 ∷ 2 ∷ [])
              → unsuitable waiting_state (irq_at none 10 1) (waiting_state.objs d) ≡ false
              → (waiting_state.objs a).load ≤ (waiting_state.objs d).load))
    × (asign_of (scan waiting_state (irq_at none 10 1) (1 ∷ 2 ∷ [])) ≡ none
        → (d : Ptr) → 0 < count d (1 ∷ 2 ∷ [])
        → unsuitable waiting_state (irq_at none 10 1) (waiting_state.objs d) ≡ true)
scan_best_example = scan_best waiting_state (irq_at none 10 1) (1 ∷ 2 ∷ []) nodes_small

node_two_suitable : unsuitable waiting_state (waiting_state.irqs 1) (waiting_state.objs 2) ≡ false
unfolding unsuitable cpus_intersects cpus_empty
node_two_suitable = refl

place_irq_in_node_places_example :
    (a : Ptr) × OnNode 1 a waiting_state (place_irq_in_node 1 waiting_state)
place_irq_in_node_places_example =
    place_irq_in_node_places 1 1 2 waiting_state waiting_state-Owned (omega arith) refl refl
      (λ b h. (refl, nodes_small b h)) (omega arith) node_two_suitable

update_migration_status-Kept_example :
    Kept placed_state (update_migration_status exact_roots sorting placed_state)
update_migration_status-Kept_example =
    update_migration_status-Kept exact_roots sorting placed_state placed_state-Owned

abbrev balancing : Balancing ℕ
balancing = record {
  lb = record (no_info exact_roots) { adjustment_load = 100; min_load = 20 };
  state = placed_state;
}

balancing-Balanced : Balanced 120 balancing
balancing-Balanced = record { conserved = refl; ordered = omega arith }

move_candidate_irqs-Balanced_example :
    Balanced 120 (for_each two_irqs move_candidate_irqs balancing)
move_candidate_irqs-Balanced_example =
    move_candidate_irqs-Balanced two_irqs balancing 120 balancing-Balanced (omega arith)
      (omega arith)

taken_off :
    ((move_candidate_irqs 1 balancing).state.irqs 1).assigned_obj
    ≢ (balancing.state.irqs 1).assigned_obj
unfolding move_candidate_irqs cpus_empty take_off
taken_off e = ground (arith, e)

load_stats_lem_example :
    ((load_stats exact_roots two_irqs placed_state).total_load
      ≡ total_of placed_state two_irqs % 2 ^ 64)
    × ((load_stats exact_roots two_irqs placed_state).avg_load
        ≡ (total_of placed_state two_irqs % 2 ^ 64)
          / (if length two_irqs == 0 then 1 else length two_irqs))
    × Least placed_state
        (behind_zero placed_state [] two_irqs)
        (load_stats exact_roots two_irqs placed_state).min_load
load_stats_lem_example = load_stats_lem exact_roots two_irqs placed_state

-- Each file reads as no CPU, and can be written.
abbrev affinity_files : Affinity
affinity_files = record { readable = λ n. some (0 ∷ []); writable = λ n. true }

activate_mappings-Allowed_example :
    All
      (Allowed affinity_files placed_state)
      (activate_mappings affinity_files record { state = placed_state; written = [] }).written
activate_mappings-Allowed_example = activate_mappings-Allowed affinity_files placed_state
