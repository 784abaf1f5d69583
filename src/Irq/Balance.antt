-- ===== src/Irq/Balance.antt =====
-- irqlist.c: which interrupts leave the objects that are loaded too much.
pub mod Candidate
pub mod Ownership
pub mod Fairness
pub mod Stats
use code_analyze.Prelude.{
  ℕ, ◌+◌, ◌-◌, ◌*◌, ◌/◌, ◌%◌, ◌^◌, Bool, true, false, ◌&&◌, ◌||◌, not, Option, none, some, List,
  ltb, leb, ◌==◌, if◌then◌else◌, length,
}
use code_analyze.Irq.Cpumask.{cpus_empty}
use code_analyze.Irq.Types.{
  Ptr, IrqInfo, TopoObj, State, set_obj, set_irq, crash, is_exact, add64, sub64, u64_mod,
  ullong_max, balance_none,
}
use code_analyze.Irq.Lists.{
  Place, rebalance, interrupts_of, migrate_irq, for_each, for_each_irq, GList, sort_irq_list,
}

-- The long double arithmetic and the square root of the machine: `sum_at_most x d y` is
-- `x + d <= y`, and `difference_at_least x d y` is `x - d >= y`.
pub record LongDouble : Type 1 where
  pub Value : Type 0
  pub zero_value : Value
  pub sqrt : ℕ → Value
  pub sum_at_most : ℕ → Value → ℕ → Bool
  pub difference_at_least : ℕ → Value → ℕ → Bool

pub record LoadBalanceInfo (V : Type 0) : Type 0 where
  pub total_load : ℕ
  pub avg_load : ℕ
  pub min_load : ℕ
  pub adjustment_load : ℕ
  pub load_sources : ℕ
  pub deviations : ℕ
  pub std_deviation : V
  pub num_over : ℕ
  pub num_under : ℕ
  pub num_powersave : ℕ
  pub powersave : Option Ptr

-- A `struct load_balance_info` with the global state that the functions change beside it.
pub record Balancing (V : Type 0) : Type 0 where
  pub lb : LoadBalanceInfo V
  pub state : State

abbrev pub inc_uint : ℕ → ℕ
inc_uint n = (n + 1) % 2 ^ 32

-- `load_sources` is an int, and counts the objects of a list.
unfoldable pub gather_load_stats :
    {V : Type 0} → State → Ptr → LoadBalanceInfo V → LoadBalanceInfo V
gather_load_stats s o info =
    let load = (s.objs o).load in
    record info {
      min_load = if info.min_load == 0 || ltb load info.min_load then load else info.min_load;
      total_load = add64 info.total_load load;
      load_sources = info.load_sources + 1;
    }

unfoldable pub compute_deviations :
    {V : Type 0} → State → Ptr → LoadBalanceInfo V → LoadBalanceInfo V
compute_deviations s o info =
    let load = (s.objs o).load in
    let deviation = if ltb info.avg_load load then load - info.avg_load else info.avg_load - load in
    record info { deviations = add64 info.deviations (deviation * deviation) }

-- The interrupt leaves the list of an object for the rebalance list.
unfoldable pub take_off : Ptr → Ptr → State → State
take_off o p s =
    let m = migrate_irq (interrupts_of o) rebalance p s in
    set_irq p (record (m.irqs p) { assigned_obj = none }) m

-- The move of an interrupt, and of its load.
abbrev pub relieved : {V : Type 0} → Ptr → Ptr → Balancing V → Balancing V
relieved o p b =
    let load = (b.state.irqs p).load in
    record {
      lb = record b.lb {
        adjustment_load = sub64 b.lb.adjustment_load load;
        min_load = add64 b.lb.min_load load;
      };
      state = take_off o p b.state;
    }

-- `(adjustment_load - load) > (min_load + load)`.
abbrev pub is_lighter : {V : Type 0} → Ptr → Balancing V → Bool
is_lighter p b =
    let load = (b.state.irqs p).load in
    ltb (add64 b.lb.min_load load) (sub64 b.lb.adjustment_load load)

unfoldable pub move_candidate_irqs : {V : Type 0} → Ptr → Balancing V → Balancing V
move_candidate_irqs p b =
    let info = b.state.irqs p in
    if is_exact info.hint_policy && not (cpus_empty info.affinity_hint)
    then b
    else if info.level == balance_none
    then b
    else elim info.assigned_obj [
      | none ↦ record b { state = crash b.state }
      | some o ↦
          if leb (length (b.state.objs o).interrupts) 1
          then b
          else if leb info.load 1
          then b
          else if is_lighter p b
          then relieved o p b
          else b
    ]

-- The counters of migrate_overloaded_irqs for one object, and the object that may save power.
unfoldable pub count_object :
    (f : LongDouble) → State → Ptr → LoadBalanceInfo f.Value → LoadBalanceInfo f.Value
count_object f s o info0 =
    let obj = s.objs o in
    let info = record info0 {
      num_powersave =
          if obj.powersave_mode then inc_uint info0.num_powersave else info0.num_powersave;
    } in
    if f.sum_at_most obj.load info.std_deviation info.avg_load
    then record info {
      num_under = inc_uint info.num_under;
      powersave = elim info.powersave [
        | some q ↦ some q
        | none ↦
            if not (s.power_thresh == ullong_max) && not obj.powersave_mode then some o else none
      ];
    }
    else if f.difference_at_least obj.load info.std_deviation info.avg_load
    then record info { num_over = inc_uint info.num_over }
    else info

unfoldable pub migrate_overloaded_irqs :
    (f : LongDouble) → GList → Ptr → Balancing f.Value → Balancing f.Value
migrate_overloaded_irqs f g o b =
    let obj = b.state.objs o in
    let info = count_object f b.state o b.lb in
    if ltb info.min_load obj.load && ltb 1 (length obj.interrupts)
    then (let s = sort_irq_list g (interrupts_of o) b.state in
        for_each_irq s.interrupts_db (s.objs o).interrupts move_candidate_irqs
          record { lb = record info { adjustment_load = obj.load }; state = s })
    else record b { lb = info }

unfoldable pub force_irq_migration : Ptr → State → State
force_irq_migration p s = elim (s.irqs p).assigned_obj [ none ↦ crash s | some o ↦ take_off o p s ]

unfoldable pub clear_powersave_mode : Ptr → State → State
clear_powersave_mode o s = set_obj o (record (s.objs o) { powersave_mode = false }) s

-- `memset(info, 0, ...)`.
abbrev pub no_info : (f : LongDouble) → LoadBalanceInfo f.Value
no_info f = record {
  total_load = 0;
  avg_load = 0;
  min_load = 0;
  adjustment_load = 0;
  load_sources = 0;
  deviations = 0;
  std_deviation = f.zero_value;
  num_over = 0;
  num_under = 0;
  num_powersave = 0;
  powersave = none;
}

-- The number of sources, 1 for none, and the average.
unfoldable pub set_average : {V : Type 0} → LoadBalanceInfo V → LoadBalanceInfo V
set_average info =
    let sources = if info.load_sources == 0 then 1 else info.load_sources in
    record info { load_sources = sources; avg_load = info.total_load / sources }

-- The statistics of find_overloaded_objs, before it moves interrupts.
unfoldable pub load_stats : (f : LongDouble) → List Ptr → State → LoadBalanceInfo f.Value
load_stats f name s =
    let gathered = for_each name (gather_load_stats s) (no_info f) in
    let info = for_each name (compute_deviations s) (set_average gathered) in
    record info {
      std_deviation =
          if info.load_sources == 1
          then f.zero_value
          else f.sqrt (info.deviations / (info.load_sources - 1));
    }

unfoldable pub find_overloaded_objs :
    (f : LongDouble) → GList → List Ptr → State → Balancing f.Value
find_overloaded_objs f g name s =
    for_each name (migrate_overloaded_irqs f g) record { lb = load_stats f name s; state = s }

-- A CPU enters power save mode, and its interrupts leave it.
unfoldable pub enter_powersave : Ptr → State → State
enter_powersave o s0 =
    let s = set_obj o (record (s0.objs o) { powersave_mode = true }) s0 in
    if ltb 0 (length (s.objs o).interrupts)
    then for_each_irq s.interrupts_db (s.objs o).interrupts force_irq_migration s
    else s

-- All CPUs leave power save mode when some are overloaded.
unfoldable pub wake_cpus : {V : Type 0} → Balancing V → State
wake_cpus b =
    if not (b.lb.num_over == 0) && not (b.lb.num_powersave == 0)
    then for_each b.state.cpus clear_powersave_mode b.state
    else b.state

-- What update_migration_status does with the statistics of the CPUs.
unfoldable pub update_powersave : {V : Type 0} → Balancing V → State
update_powersave b =
    let s = b.state in
    if not (s.power_thresh == ullong_max) && ltb 5 s.cycle_count
    then elim b.lb.powersave [
      | none ↦ wake_cpus b
      | some o ↦
          if b.lb.num_over == 0 && leb s.power_thresh b.lb.num_under
          then enter_powersave o s
          else wake_cpus b
    ]
    else s

unfoldable pub update_migration_status : LongDouble → GList → State → State
update_migration_status f g s =
    let a = update_powersave (find_overloaded_objs f g s.cpus s) in
    let b = (find_overloaded_objs f g a.cache_domains a).state in
    let c = (find_overloaded_objs f g b.packages b).state in
    (find_overloaded_objs f g c.numa_nodes c).state
