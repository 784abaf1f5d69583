-- ===== src/Irq/Db.antt =====
-- classify.c: the database of interrupts, filled from sysfs, the policy script and /proc/interrupts.
pub mod Policy
pub mod Add
pub mod Rebuild
pub mod Valid
pub mod Grown
pub mod Complete
use code_analyze.Prelude.{
  ℕ, ◌+◌, ◌/◌, ◌^◌, Bool, true, false, ◌||◌, Option, none, some, List, [], ◌∷◌, ◌++◌, update, leb,
  ◌==◌, if◌then◌else◌, get_elem?,
}
use code_analyze.Irq.Cpumask.{Cpumask, cpus_clear, cpus_setall}
use code_analyze.Irq.Types.{
  Ptr, IrqType, legacy, msix, HintPolicy, ignore, exact, IrqInfo, State, set_irq, crash, irq_other,
  irq_legacy, irq_scsi, irq_video, irq_eth, balance_package, balance_cache, balance_core,
}
use code_analyze.Irq.Lists.{find_irq}

-- `/sys`, a device of SYSDEV_DIR, or the `irq` file of one.
pub data DevPath : Type 0 where
  sys : DevPath
  device : ℕ → DevPath
  irq_file : ℕ → DevPath

-- What reading the number of a class file comes to.
pub data ReadClass : Type 0 where
  no_file no_number at_end : ReadClass
  class_number : ℕ → ReadClass

-- The files and scripts that classify.c reads. Masks are what cpumask_parse_user makes of their lines;
-- node numbers have `none` for -1, which stands also for a file that cannot be read.
pub record Outside : Type 0 where
  pub class_file : DevPath → ReadClass
  pub numa_node_file : DevPath → Option ℕ
  pub local_cpus : DevPath → Option Cpumask
  pub affinity_hint : ℕ → Option Cpumask
  pub polscript : Option (DevPath → ℕ → List (List ℕ))
  pub banscript : Option (DevPath → ℕ → Option ℕ)
  pub msi_irqs : ℕ → Option (List ℕ)
  pub irq_number : ℕ → Option ℕ
  pub devices : Option (List ℕ)

abbrev pub map_class_to_level : List ℕ
map_class_to_level =
    balance_package ∷ balance_cache ∷ balance_core ∷ balance_core ∷ balance_core ∷ balance_core
    ∷ balance_core ∷ balance_core ∷ []

abbrev pub max_class : ℕ
max_class = 18

abbrev pub class_codes : List ℕ
class_codes =
    irq_other ∷ irq_scsi ∷ irq_eth ∷ irq_video ∷ irq_other ∷ irq_other ∷ irq_legacy ∷ irq_other
    ∷ irq_other ∷ irq_legacy ∷ irq_other ∷ irq_other ∷ irq_legacy ∷ irq_eth ∷ irq_scsi ∷ irq_other
    ∷ irq_other ∷ irq_other ∷ []

-- An interrupt as `calloc` leaves it, with its number.
abbrev pub new_irq : ℕ → IrqInfo
new_irq n = record {
  irq = n;
  class = irq_other;
  irq_type = legacy;
  level = 0;
  banned = false;
  numa_node = none;
  cpumask = cpus_clear;
  affinity_hint = cpus_clear;
  hint_policy = ignore;
  irq_count = 0;
  last_irq_count = 0;
  load = 0;
  moved = false;
  assigned_obj = none;
}

-- `calloc` and the initialisation of what it returns.
unfoldable pub alloc_irq : IrqInfo → State → State
alloc_irq i s = record (set_irq s.next_irq i s) { next_irq = s.next_irq + 1 }

-- add_banned_irq, with the list and the state before and after.
unfoldable pub add_banned_irq : ℕ → State → State
add_banned_irq n s = elim (find_irq s.irqs n s.banned_irqs) [
  | some p ↦ s
  | none ↦
      let t = alloc_irq (record (new_irq n) { banned = true; hint_policy = exact }) s in
      record t { banned_irqs = t.banned_irqs ++ s.next_irq ∷ [] }
]

unfoldable pub add_cl_banned_irq : ℕ → State → State
add_cl_banned_irq n s = elim (find_irq s.irqs n s.cl_banned_irqs) [
  | some p ↦ s
  | none ↦
      let t = alloc_irq (record (new_irq n) { banned = true; hint_policy = exact }) s in
      record t { cl_banned_irqs = t.cl_banned_irqs ++ s.next_irq ∷ [] }
]

abbrev pub is_some : {A : Type 0} → Option A → Bool
is_some none = false
is_some (some a) = true

unfoldable pub is_banned_irq : ℕ → State → Bool
is_banned_irq n s = is_some (find_irq s.irqs n s.banned_irqs)

unfoldable pub get_irq_info : ℕ → State → Option Ptr
get_irq_info n s = elim (find_irq s.irqs n s.interrupts_db) [
  | some p ↦ some p
  | none ↦ find_irq s.irqs n s.banned_irqs
]
