-- ===== src/Irq/Cycle/Measured.antt =====
-- The measurement of a cycle changes loads and counts only.
use code_analyze.Prelude.{ℕ, zero, suc, refl, List, [], ◌∷◌}
use code_analyze.Irq.Types.{Ptr, State}
use code_analyze.Irq.Lists.{for_each_irq}
use code_analyze.Irq.Load.{Jiffies}
use code_analyze.Irq.Load.Shape.{
  OnlyLoads, OnlyLoads-trans, set_irq-OnlyLoads, for_each-OnlyLoads, crash-OnlyLoads,
}
use code_analyze.Irq.Load.Changes.{parse_proc_stat-OnlyLoads}
use code_analyze.Irq.Proc.{ProcInts}
use code_analyze.Irq.Proc.Shape.{parse_proc_interrupts-OnlyLoads}
use code_analyze.Irq.Topology.Release.{
  clear_irq_stats, clear_obj_stats, stats_depth, clear_work_stats,
}
use code_analyze.Irq.Cycle.{ProcFiles, parse_proc, measure}

clear_irq_stats-OnlyLoads : (p : Ptr) (s : State) → OnlyLoads s (clear_irq_stats p s)
unfolding clear_irq_stats
clear_irq_stats-OnlyLoads p s = set_irq-OnlyLoads p _ s refl

clear_irqs-OnlyLoads :
    (db l : List Ptr) (s : State) → OnlyLoads s (for_each_irq db l clear_irq_stats s)
unfolding for_each_irq
clear_irqs-OnlyLoads db [] s = for_each-OnlyLoads clear_irq_stats clear_irq_stats-OnlyLoads db s
clear_irqs-OnlyLoads db (p ∷ ps) s =
    for_each-OnlyLoads clear_irq_stats clear_irq_stats-OnlyLoads (p ∷ ps) s

clear_obj_stats-OnlyLoads :
    (depth : ℕ) (d : Ptr) (s : State) → OnlyLoads s (clear_obj_stats depth d s)
unfolding clear_obj_stats
clear_obj_stats-OnlyLoads zero d s = crash-OnlyLoads s
clear_obj_stats-OnlyLoads (suc k) d s =
    OnlyLoads-trans _ _ _
      (for_each-OnlyLoads (clear_obj_stats k) (clear_obj_stats-OnlyLoads k) (s.objs d).children s)
      (clear_irqs-OnlyLoads _ _ _)

clear_work_stats-OnlyLoads : (s : State) → OnlyLoads s (clear_work_stats s)
unfolding clear_work_stats
clear_work_stats-OnlyLoads s =
    for_each-OnlyLoads (clear_obj_stats stats_depth) (clear_obj_stats-OnlyLoads stats_depth)
      s.numa_nodes s

pub parse_proc-OnlyLoads :
    (j : Jiffies) (files : ProcFiles) (p : ProcInts)
    → OnlyLoads p.state (parse_proc j files p).state
unfolding parse_proc
parse_proc-OnlyLoads j files p =
    OnlyLoads-trans _ _ _ (parse_proc_interrupts-OnlyLoads files.interrupts p)
      (parse_proc_stat-OnlyLoads j files.stat _)

pub measure-OnlyLoads :
    (j : Jiffies) (files : ProcFiles) (p : ProcInts) → OnlyLoads p.state (measure j files p).state
unfolding measure
measure-OnlyLoads j files p =
    OnlyLoads-trans _ _ _ (clear_work_stats-OnlyLoads p.state) (parse_proc-OnlyLoads j files _)
