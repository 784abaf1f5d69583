-- ===== src/Irq/Db/Rebuild.antt =====
-- build_one_dev_entry, free_irq_db and rebuild_irq_db of classify.c.
use code_analyze.Prelude.{ℕ, ◌||◌, Option, none, some, List, [], ◌∷◌, ◌==◌, if◌then◌else◌}
use code_analyze.Irq.Types.{Ptr, IrqType, legacy, msix, IrqInfo, State, set_irq}
use code_analyze.Irq.Db.{DevPath, device, irq_file, Outside, add_banned_irq, get_irq_info}
use code_analyze.Irq.Db.Add.{
  add_one_irq_to_db, get_irq_user_policy, check_for_irq_ban, is_banned, add_missing_irq,
}

-- `new->type = type`, where an interrupt was added.
unfoldable pub set_type : IrqType → Option Ptr → State → State
set_type t none s = s
set_type t (some p) s = set_irq p (record (s.irqs p) { irq_type = t }) s

unfoldable pub add_typed : Outside → DevPath → IrqType → ℕ → State → State
add_typed out devpath t n s =
    let r = add_one_irq_to_db out devpath n (get_irq_user_policy out devpath n s) s in
    set_type t r.0 r.1

-- The steps for one interrupt of a device. The ban script is called with the path `ban_path`.
unfoldable pub add_dev_irq : Outside → DevPath → DevPath → IrqType → ℕ → State → State
add_dev_irq out devpath ban_path t n s = if n == 0 then s else elim (get_irq_info n s) [
  | some p ↦ s
  | none ↦
      let pol = get_irq_user_policy out devpath n s in
      if is_banned pol.ban || check_for_irq_ban out (some ban_path) n s
      then add_banned_irq n s
      else add_typed out devpath t n s
]

unfoldable pub add_msi_irqs : Outside → DevPath → List ℕ → State → State
add_msi_irqs out devpath [] s = s
add_msi_irqs out devpath (n ∷ ns) s =
    add_msi_irqs out devpath ns (add_dev_irq out devpath devpath msix n s)

unfoldable pub build_one_dev_entry : Outside → ℕ → State → State
build_one_dev_entry out dirname s = elim (out.msi_irqs dirname) [
  | some ns ↦ add_msi_irqs out (device dirname) ns s
  | none ↦ elim (out.irq_number dirname) [
    | none ↦ s
    | some n ↦ add_dev_irq out (device dirname) (irq_file dirname) legacy n s
  ]
]

unfoldable pub build_dev_entries : Outside → List ℕ → State → State
build_dev_entries out [] s = s
build_dev_entries out (d ∷ ds) s = build_dev_entries out ds (build_one_dev_entry out d s)

-- The freed interrupts are at addresses that are not given out again.
unfoldable pub free_irq_db : State → State
free_irq_db s = record s { interrupts_db = []; banned_irqs = []; rebalance_irq_list = [] }

unfoldable pub add_missing_irqs : Outside → List IrqInfo → State → State
add_missing_irqs out [] s = s
add_missing_irqs out (i ∷ is) s = add_missing_irqs out is (add_missing_irq out i s)

-- `for_each_irq(tmp_irqs, add_missing_irq, NULL)`: an empty list is NULL, and stands for the database,
-- whose interrupts are all known.
unfoldable pub add_collected : Outside → List IrqInfo → State → State
add_collected out [] s = s
add_collected out (i ∷ is) s = add_missing_irqs out (i ∷ is) s

-- `tmp_irqs` is what collect_full_irq_list makes of /proc/interrupts.
unfoldable pub rebuild_irq_db : Outside → List IrqInfo → State → State
rebuild_irq_db out tmp_irqs s = elim out.devices [
  | none ↦ free_irq_db s
  | some ds ↦ add_collected out tmp_irqs (build_dev_entries out ds (free_irq_db s))
]
