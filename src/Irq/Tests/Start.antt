-- ===== src/Irq/Tests/Start.antt =====
-- The options at a concrete command line.
use code_analyze.Prelude.{
  ◌<◌, ◌≡◌, ◌≢◌, inl, inr, refl, false, none, some, [], ◌∷◌, count, arith, true,
}
use code_analyze.Irq.Types.{State}
use code_analyze.Irq.Cycle.{Sysfs, build_object_tree}
use code_analyze.Irq.Options.{
  CommandOption, banirq, oneshot, Settings, Environment, parse_command_line, parse_option,
  parse_banirq, read_environment, ban_cpus,
}
use code_analyze.Irq.Options.Banned.{Bans, banirq_stays_out}
use code_analyze.Irq.Tests.Cpus.{new_state, new_state-Bare}
use code_analyze.Irq.Tests.Database.{one_device}
use code_analyze.Irq.Db.{add_cl_banned_irq, add_banned_irq, alloc_irq, get_irq_info}
use code_analyze.Prelude.{List, ◌+◌}
use code_analyze.Irq.Lists.{find_irq}
use code_analyze.Irq.Numa.{build_numa_node_list}
use code_analyze.Irq.Topology.Release.{parse_cpu_tree}
use code_analyze.Irq.Proc.Collect.{collect_full_irq_list}
use code_analyze.Irq.Db.{is_banned_irq}
use code_analyze.Irq.Db.Add.{check_for_irq_ban, add_one_irq_to_db, get_irq_user_policy}
use code_analyze.Irq.Db.Rebuild.{
  rebuild_irq_db, free_irq_db, build_dev_entries, build_one_dev_entry, add_msi_irqs, add_dev_irq,
  add_typed, set_type, add_collected,
}
use code_analyze.Irq.Text.{strtoul, read_sign, read_digits}

abbrev before : Settings
before = record {
  state = new_state;
  one_shot_mode = false;
  debug_mode = false;
  foreground_mode = false;
  polscript = none;
  pidfile = none;
}

-- `-o -i 40`.
abbrev arguments : List CommandOption
arguments = oneshot ∷ banirq (52 ∷ 48 ∷ []) ∷ []

abbrev environment : Environment
environment = record { banned_cpus = none; oneshot = false; debug = false; numa_available = false }

abbrev after : Settings
after = record before { state = add_cl_banned_irq 40 new_state; one_shot_mode = true }

accepted : parse_command_line arguments before ≡ some after
unfolding parse_command_line parse_option parse_banirq strtoul read_sign read_digits
accepted = refl

number_banned : Bans arguments 40
unfolding Bans strtoul read_sign read_digits
number_banned = inr (inl refl)

-- The database has interrupt 41 of the device.
abbrev devices_only : Sysfs
devices_only = record { node_dir = none; cpu_dir = none; devices = one_device }

abbrev started_state : State
started_state = build_object_tree devices_only none (read_environment environment after).state

in_database : 0 < count (new_state.next_irq + 2) started_state.interrupts_db
unfolding build_object_tree read_environment ban_cpus rebuild_irq_db free_irq_db build_dev_entries
    build_one_dev_entry add_msi_irqs add_dev_irq get_irq_info find_irq check_for_irq_ban
    add_banned_irq alloc_irq add_cl_banned_irq add_typed add_one_irq_to_db set_type is_banned_irq
    parse_cpu_tree build_numa_node_list collect_full_irq_list get_irq_user_policy add_collected
in_database = omega arith

banirq_stays_out_example : (started_state.irqs (new_state.next_irq + 2)).irq ≢ 40
banirq_stays_out_example =
    banirq_stays_out arguments before after environment devices_only none new_state-Bare accepted 40
      number_banned (new_state.next_irq + 2) in_database
