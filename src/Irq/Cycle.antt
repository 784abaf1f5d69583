-- ===== src/Irq/Cycle.antt =====
-- irqbalance.c: how the interrupts first come on the rebalance list, and the cycle of the main loop.
pub mod Bare
pub mod NewTree
pub mod NewDatabase
pub mod Built
pub mod Start
pub mod Measured
pub mod Loop
pub mod Rescan
pub mod Ending
use code_analyze.Prelude.{
  ℕ, ◌+◌, ◌%◌, Bool, true, false, ltb, Option, none, some, List, [], ◌∷◌, ◌++◌, ◌==◌, if◌then◌else◌,
}
use code_analyze.Irq.Cpumask.{Cpumask}
use code_analyze.Irq.Types.{Ptr, IrqInfo, TopoObj, State, set_irq, u64_mod, balance_none}
use code_analyze.Irq.Lists.{rebalance, interrupts_of, migrate_irq, for_each_irq, GList}
use code_analyze.Irq.Balance.{LongDouble, update_migration_status}
use code_analyze.Irq.Placement.{calculate_placement}
use code_analyze.Irq.Activate.{Affinity, activate_mappings}
use code_analyze.Irq.Text.{Bytes}
use code_analyze.Irq.Numa.{NodeEntry, build_numa_node_list, free_numa_node_list}
use code_analyze.Irq.Topology.Cpu.{CpuFiles}
use code_analyze.Irq.Topology.Release.{parse_cpu_tree, clear_cpu_tree, clear_work_stats}
use code_analyze.Irq.Db.{Outside}
use code_analyze.Irq.Db.Rebuild.{free_irq_db, rebuild_irq_db}
use code_analyze.Irq.Proc.{ProcInts, parse_proc_interrupts}
use code_analyze.Irq.Proc.Collect.{collect_full_irq_list}
use code_analyze.Irq.Load.{Jiffies, parse_proc_stat}

-- The last line of force_rebalance_irq.
unfoldable pub unassign : Ptr → State → State
unassign p s = set_irq p (record (s.irqs p) { assigned_obj = none }) s

unfoldable pub force_rebalance_irq : Ptr → State → State
force_rebalance_irq p s =
    if (s.irqs p).level == balance_none then s else elim (s.irqs p).assigned_obj [
      | none ↦ unassign p (record s { rebalance_irq_list = s.rebalance_irq_list ++ p ∷ [] })
      | some o ↦ unassign p (migrate_irq (interrupts_of o) rebalance p s)
    ]

-- `for_each_irq(NULL, force_rebalance_irq, NULL)`.
unfoldable pub force_rebalance_all : State → State
force_rebalance_all s = for_each_irq s.interrupts_db [] force_rebalance_irq s

-- The directories and files from which the tree and the database are built.
pub record Sysfs : Type 0 where
  pub node_dir : Option (List NodeEntry)
  pub cpu_dir : Option (List CpuFiles)
  pub devices : Outside

unfoldable pub build_object_tree : Sysfs → Option (List Bytes) → State → State
build_object_tree sys table s =
    let t = parse_cpu_tree sys.cpu_dir (build_numa_node_list sys.node_dir s) in
    rebuild_irq_db sys.devices (collect_full_irq_list table t) t

unfoldable pub free_object_tree : State → State
free_object_tree s = free_irq_db (clear_cpu_tree (free_numa_node_list s))

-- The files of a measurement: /proc/interrupts and /proc/stat.
pub record ProcFiles : Type 0 where
  pub interrupts : Option (List Bytes)
  pub stat : Option (List Bytes)

unfoldable pub parse_proc : Jiffies → ProcFiles → ProcInts → ProcInts
parse_proc j files p =
    let q = parse_proc_interrupts files.interrupts p in
    record q { state = parse_proc_stat j files.stat q.state }

unfoldable pub measure : Jiffies → ProcFiles → ProcInts → ProcInts
measure j files p = parse_proc j files (record p { state = clear_work_stats p.state })

-- What the signal handlers and main share, and the options that the loop reads.
pub record Daemon : Type 0 where
  pub ints : ProcInts
  pub keep_going : Bool
  pub one_shot_mode : Bool

abbrev pub state_of : Daemon → State
state_of d = d.ints.state

abbrev pub set_state : State → Daemon → Daemon
set_state s d = record d { ints = record (d.ints) { state = s } }

-- The handlers of SIGINT and of SIGHUP.
unfoldable pub handler : Daemon → Daemon
handler d = record d { keep_going = false }

unfoldable pub force_rescan : Daemon → Daemon
force_rescan d =
    if (state_of d).cycle_count == 0
    then d
    else set_state (record (state_of d) { need_rescan = true }) d

-- What a cycle finds outside: whether the signals come while it sleeps, the files, and, where the tree
-- is built anew, the directories and the files at the three times that these are read.
pub record Inputs : Type 0 where
  pub interrupted : Bool
  pub hangup : Bool
  pub measured : ProcFiles
  pub sys : Sysfs
  pub collected : Option (List Bytes)
  pub first : ProcFiles
  pub second : ProcFiles
  pub affinity : Affinity

unfoldable pub signals : Inputs → Daemon → Daemon
signals i d =
    let e = if i.interrupted then handler d else d in if i.hangup then force_rescan e else e

unfoldable pub rescan : Jiffies → Inputs → ProcInts → ProcInts
rescan j i p =
    let a = record (p.state) { need_rescan = false; cycle_count = 0 } in
    let b = build_object_tree i.sys i.collected (free_object_tree (clear_work_stats a)) in
    measure j i.second (parse_proc j i.first (record p { state = force_rebalance_all b }))

-- The rest of a cycle, with the masks that it writes.
unfoldable pub rebalance_cycle : LongDouble → GList → Affinity → State → List (ℕ × Cpumask) × State
rebalance_cycle f g files a =
    let b = if a.cycle_count == 0 then a else update_migration_status f g a in
    let c = activate_mappings files record { state = calculate_placement g b; written = [] } in
    (c.written, record (c.state) { cycle_count = (c.state.cycle_count + 1) % u64_mod })

-- The measured state with which the cycle goes on.
unfoldable pub measured_state : Jiffies → Inputs → Daemon → ProcInts
measured_state j i d =
    let m = measure j i.measured d.ints in if m.state.need_rescan then rescan j i m else m

-- One round of the main loop.
unfoldable pub main_cycle :
    LongDouble → GList → Jiffies → Inputs → Daemon → List (ℕ × Cpumask) × Daemon
main_cycle f g j i d =
    let e = signals i d in
    let m = measured_state j i e in
    let r = rebalance_cycle f g i.affinity m.state in
    (
      r.0,
      record e {
        ints = record m { state = r.1 };
        keep_going = if e.one_shot_mode then false else e.keep_going;
      },
    )

-- The masks that each round of the loop writes, and the daemon after it.
abbrev pub Ended : Type 0
Ended = List (List (ℕ × Cpumask)) × Daemon

abbrev pub add_round : List (ℕ × Cpumask) → Option Ended → Option Ended
add_round masks none = none
add_round masks (some (rounds, d)) = some (masks ∷ rounds, d)

-- The tree is freed after the loop.
unfoldable pub finish : Daemon → Ended
finish d = ([], set_state (free_object_tree (state_of d)) d)

-- `while (keep_going)`, over what its rounds find: `none` where it has not ended with the last of these.
unfoldable pub main_loop : LongDouble → GList → Jiffies → List Inputs → Daemon → Option Ended
main_loop f g j [] d = if d.keep_going then none else some (finish d)
main_loop f g j (i ∷ is) d =
    let r = main_cycle f g j i d in
    let rest = main_loop f g j is r.1 in
    if d.keep_going then add_round r.0 rest else some (finish d)

-- The interrupts that want balancing go on the rebalance list, and the files are read.
unfoldable pub first_measured : Jiffies → ProcFiles → Daemon → Daemon
first_measured j files d = record d {
  ints = parse_proc j files (record (d.ints) { state = force_rebalance_all (state_of d) });
}

-- What main does before the loop, from the state that the options leave; `none` is the exit on a system
-- with fewer than two CPUs.
unfoldable pub start : Jiffies → Sysfs → Option (List Bytes) → ProcFiles → Daemon → Option Daemon
start j sys table files d =
    let e = set_state (build_object_tree sys table (state_of d)) d in
    if ltb (state_of e).core_count 2 then none else some (first_measured j files e)
