-- ===== src/Irq/Activate.antt =====
-- activate.c: the masks that are written for the interrupts that have moved.
pub mod Written
use code_analyze.Prelude.{
  ℕ, Bool, true, false, not, ◌&&◌, Option, none, some, List, [], ◌∷◌, if◌then◌else◌, update,
}
use code_analyze.Irq.Cpumask.{Cpumask, cpus_empty, cpus_and, cpus_intersects, cpus_equal}
use code_analyze.Irq.Types.{Ptr, IrqInfo, State, set_irq, is_exact, is_subset}
use code_analyze.Irq.Lists.{for_each_irq}

-- The smp_affinity files: `readable` has `none` for a file that cannot be opened or read, and else
-- what cpumask_parse_user makes of its line; `writable` is whether a file can be opened for writing.
pub record Affinity : Type 0 where
  pub readable : ℕ → Option Cpumask
  pub writable : ℕ → Bool

-- The state, and the masks written so far, the last one first.
pub record Activating : Type 0 where
  pub state : State
  pub written : List (ℕ × Cpumask)

unfoldable pub check_affinity : Affinity → IrqInfo → Cpumask → Bool
check_affinity files info applied_mask = elim (files.readable info.irq) [
  | none ↦ true
  | some current_mask ↦ cpus_equal applied_mask current_mask
]

-- The mask of an object for an interrupt, if it is valid.
unfoldable pub object_mask : State → IrqInfo → Ptr → Option Cpumask
object_mask s info o =
    let mask = (s.objs o).mask in
    if is_subset info.hint_policy && not (cpus_empty info.affinity_hint)
    then if cpus_intersects (cpus_and mask info.affinity_hint) s.unbanned_cpus
      then some (cpus_and mask info.affinity_hint)
      else none
    else some mask

-- `applied_mask`, where `valid_mask` is 1.
unfoldable pub applied_mask_of : State → IrqInfo → Option Cpumask
applied_mask_of s info =
    if is_exact info.hint_policy && not (cpus_empty info.affinity_hint)
    then if cpus_intersects info.affinity_hint s.banned_cpus then none else some info.affinity_hint
    else elim info.assigned_obj [ none ↦ none | some o ↦ object_mask s info o ]

abbrev pub has_object : Option Ptr → Bool
has_object none = false
has_object (some o) = true

unfoldable pub write_mask : Ptr → Cpumask → Activating → Activating
write_mask p m a = record {
  state = set_irq p (record (a.state.irqs p) { moved = false }) a.state;
  written = ((a.state.irqs p).irq, m) ∷ a.written;
}

unfoldable pub activate_mapping : Affinity → Ptr → Activating → Activating
activate_mapping files p a =
    let info = a.state.irqs p in
    if info.moved
    then elim (applied_mask_of a.state info) [
      | none ↦ a
      | some m ↦
          if not (check_affinity files info m)
            && has_object info.assigned_obj
            && files.writable info.irq
          then write_mask p m a
          else a
    ]
    else a

unfoldable pub activate_mappings : Affinity → Activating → Activating
activate_mappings files a = for_each_irq a.state.interrupts_db [] (activate_mapping files) a
