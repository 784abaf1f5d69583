-- ===== src/Irq/Tests/Rounds.antt =====
-- The main loop at concrete files.
use code_analyze.Prelude.{◌*◌, ◌<◌, ◌≡◌, refl, Bool, true, false, none, some, [], ◌∷◌, count, ◌==◌}
use code_analyze.Irq.Types.{Ptr, balance_none}
use code_analyze.Irq.Lists.{get_list, for_each}
use code_analyze.Irq.Lists.Ownership.{Owned}
use code_analyze.Irq.Lists.Kept.{Listed}
use code_analyze.Irq.Cycle.{force_rebalance_all}
use code_analyze.Irq.Cycle.Loop.{begun, cycled, Reached-Owned}
use code_analyze.Irq.Db.{get_irq_info}
use code_analyze.Irq.Tests.{sorting, exact_roots, affinity_files}
use code_analyze.Irq.Tests.Cpus.{new_state, new_state-Bare}
use code_analyze.Irq.Load.{Jiffies}
use code_analyze.Irq.Text.{Bytes}
use code_analyze.Irq.Cycle.Rescan.{Emptied, SameTree}
use code_analyze.Irq.Types.{State}
use code_analyze.Irq.Cycle.{Sysfs, set_state, start, build_object_tree}
use code_analyze.Irq.Numa.{build_numa_node_list, add_one_node}
use code_analyze.Irq.Topology.Release.{parse_cpu_tree}
use code_analyze.Irq.Db.{is_banned_irq, alloc_irq}
use code_analyze.Irq.Db.Add.{
  describe, classify, class_of, check_for_irq_ban, add_one_irq_to_db, get_irq_user_policy,
  add_missing_irq, add_new_irq, add_allowed, override_found, override_irq,
}
use code_analyze.Irq.Db.Rebuild.{
  rebuild_irq_db, free_irq_db, build_dev_entries, add_collected, add_missing_irqs,
}
use code_analyze.Irq.Proc.Collect.{
  collect_full_irq_list, collect_lines, collected, irq_name, tokens, take_bytes,
}
use code_analyze.Irq.Cycle.{
  Daemon, Inputs, ProcFiles, state_of, signals, measure, measured_state, first_measured, main_cycle,
  main_loop,
}
use code_analyze.Irq.Cycle.Ending.{Ends, main_loop-Ends, hangup_rescans}
use code_analyze.Irq.Tests.Database.{one_device}
use code_analyze.Irq.Cycle.{parse_proc, force_rebalance_irq, force_rescan, handler, unassign}
use code_analyze.Irq.Load.{parse_proc_stat}
use code_analyze.Irq.Proc.{
  parse_proc_interrupts, read_lines, read_line, is_numeric, note_line, line_counts, scan_counts,
}
use code_analyze.Irq.Text.{
  split_at, digits_end, is_prefix, read_digits, read_sign, signed_at, strstr, strtoul, strtoull,
  unsigned_at,
}
use code_analyze.Irq.Lists.{find_irq, for_each_irq, delete_irq, migrate_irq, set_list}
use code_analyze.Irq.Topology.Release.{clear_work_stats, clear_irq_stats, clear_obj_stats}

-- "  1: 15 15 x\n" and "  2: 20 20 x\n".
abbrev first_row : Bytes
first_row = 32 ∷ 49 ∷ 58 ∷ 32 ∷ 49 ∷ 53 ∷ 32 ∷ 49 ∷ 53 ∷ 32 ∷ 120 ∷ 10 ∷ []

abbrev second_row : Bytes
second_row = 32 ∷ 50 ∷ 58 ∷ 32 ∷ 50 ∷ 48 ∷ 32 ∷ 50 ∷ 48 ∷ 32 ∷ 120 ∷ 10 ∷ []

abbrev proc_files : ProcFiles
proc_files = record {
  interrupts = some ((10 ∷ []) ∷ first_row ∷ second_row ∷ (69 ∷ 10 ∷ []) ∷ []);
  stat = none;
}

abbrev jiffies : Jiffies
jiffies = record { nanoseconds = λ n. n * 10000000; loads = λ line. some (1, 2) }

abbrev new_daemon : Daemon
new_daemon = record {
  ints = record { state = new_state; proc_int_has_msi = false; msi_found_in_sysfs = false };
  keep_going = true;
  one_shot_mode = false;
}

-- A cycle in which a signal comes, or not.
abbrev inputs : Bool → Bool → Inputs
inputs int hup = record {
  interrupted = int;
  hangup = hup;
  measured = proc_files;
  sys = record { node_dir = none; cpu_dir = none; devices = one_device };
  collected = none;
  first = proc_files;
  second = proc_files;
  affinity = affinity_files;
}

-- Nothing but the rows of /proc/interrupts: the database has both interrupts.
abbrev rows_only : Sysfs
rows_only = record {
  node_dir = none;
  cpu_dir = none;
  devices = record one_device { devices = some [] };
}

abbrev built_state : State
built_state = build_object_tree rows_only proc_files.interrupts new_state

abbrev first_daemon : Daemon
first_daemon = first_measured jiffies proc_files (set_state built_state new_daemon)

starts : start jiffies rows_only proc_files.interrupts proc_files new_daemon ≡ some first_daemon
unfolding start find_irq for_each get_irq_info is_numeric split_at is_prefix strstr strtoul
    read_digits read_sign build_object_tree build_numa_node_list add_one_node parse_cpu_tree
    rebuild_irq_db free_irq_db build_dev_entries add_collected add_missing_irqs add_missing_irq
    add_new_irq add_allowed override_found override_irq check_for_irq_ban add_one_irq_to_db
    get_irq_user_policy is_banned_irq alloc_irq collect_full_irq_list collect_lines collected
    irq_name tokens take_bytes describe classify class_of
starts = refl

built_rows : built_state.interrupts_db ≡ 3 ∷ 4 ∷ []
unfolding start find_irq for_each get_irq_info is_numeric split_at is_prefix strstr strtoul
    read_digits read_sign build_object_tree build_numa_node_list add_one_node parse_cpu_tree
    rebuild_irq_db free_irq_db build_dev_entries add_collected add_missing_irqs add_missing_irq
    add_new_irq add_allowed override_found override_irq check_for_irq_ban add_one_irq_to_db
    get_irq_user_policy is_banned_irq alloc_irq collect_full_irq_list collect_lines collected
    irq_name tokens take_bytes describe classify class_of
built_rows = refl

calm :
    (measure jiffies proc_files (signals (inputs false false) first_daemon).ints).state.need_rescan
    ≡ false
unfolding measure parse_proc signals first_measured force_rebalance_all force_rebalance_irq
    force_rescan handler unassign parse_proc_stat parse_proc_interrupts read_lines read_line
    is_numeric note_line line_counts scan_counts split_at digits_end is_prefix read_digits read_sign
    signed_at strstr strtoul strtoull unsigned_at find_irq for_each for_each_irq delete_irq get_list
    migrate_irq set_list clear_work_stats clear_irq_stats clear_obj_stats get_irq_info
    build_object_tree build_numa_node_list add_one_node parse_cpu_tree rebuild_irq_db free_irq_db
    build_dev_entries add_collected add_missing_irqs add_missing_irq add_new_irq add_allowed
    override_found override_irq check_for_irq_ban add_one_irq_to_db get_irq_user_policy
    is_banned_irq alloc_irq collect_full_irq_list collect_lines collected irq_name tokens take_bytes
    describe classify class_of
calm = refl

Reached-Owned_example :
    let d = (main_cycle exact_roots sorting jiffies (inputs false false) first_daemon).1 in
    Owned (state_of d)
    × ((p : Ptr)
        → 0 < count p built_state.interrupts_db
        → ((built_state.irqs p).level == balance_none) ≡ false
        → Listed p (state_of d))
Reached-Owned_example =
    Reached-Owned exact_roots sorting jiffies rows_only proc_files.interrupts proc_files new_daemon
      first_daemon _ new_state-Bare starts (cycled (inputs false false) calm begun)

-- SIGINT comes in the second round.
main_loop-Ends_example :
    Ends
      (main_loop exact_roots sorting jiffies
        (inputs false false ∷ inputs true false ∷ [])
        first_daemon)
      2
main_loop-Ends_example =
    main_loop-Ends exact_roots sorting jiffies (inputs false false ∷ []) (inputs true false) []
      first_daemon refl

-- A daemon after its first cycle.
abbrev running : Daemon
running = record new_daemon {
  ints = record (new_daemon.ints) { state = record new_state { cycle_count = 1 } };
}

hangup_rescans_example :
    (e : State) × Emptied e
    × SameTree
        (build_object_tree (inputs false true).sys none e)
        (measured_state jiffies (inputs false true) (signals (inputs false true) running)).state
hangup_rescans_example = hangup_rescans jiffies (inputs false true) running refl refl
