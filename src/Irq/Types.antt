-- ===== src/Irq/Types.antt =====
-- types.h and the globals of irqbalance.h: interrupts and topology objects at addresses, and the
-- lists that hold those addresses.
use code_analyze.Prelude.{ℕ, ◌-◌, ◌+◌, ◌%◌, ◌^◌, Bool, true, false, Option, List, update}
use code_analyze.Irq.Cpumask.{Cpumask}

abbrev pub Ptr : Type 0
Ptr = ℕ

abbrev pub u64_mod : ℕ
u64_mod = 2 ^ 64

abbrev pub add64 : ℕ → ℕ → ℕ
add64 a b = (a + b) % u64_mod

abbrev pub sub64 : ℕ → ℕ → ℕ
sub64 a b = (a + u64_mod - b) % u64_mod

-- `ULLONG_MAX`, and `ULONG_MAX` where a long has 64 bits.
abbrev pub ullong_max : ℕ
ullong_max = u64_mod - 1

-- The `BALANCE_` levels.
abbrev pub balance_none : ℕ
balance_none = 0

abbrev pub balance_package : ℕ
balance_package = 1

abbrev pub balance_cache : ℕ
balance_cache = 2

abbrev pub balance_core : ℕ
balance_core = 3

-- The `IRQ_` classes that the code assigns.
abbrev pub irq_other : ℕ
irq_other = 0

abbrev pub irq_legacy : ℕ
irq_legacy = 1

abbrev pub irq_scsi : ℕ
irq_scsi = 2

abbrev pub irq_video : ℕ
irq_video = 3

abbrev pub irq_eth : ℕ
irq_eth = 4

-- The `IRQ_TYPE_` values.
pub data IrqType : Type 0 where
  legacy msi msix virt_event : IrqType

pub data HintPolicy : Type 0 where
  ignore subset exact : HintPolicy

pub data ObjType : Type 0 where
  obj_cpu obj_cache obj_package obj_node : ObjType

-- `none` is the number -1 of the node that stands for no node.
pub record TopoObj : Type 0 where
  pub load : ℕ
  pub last_load : ℕ
  pub obj_type : ObjType
  pub number : Option ℕ
  pub powersave_mode : Bool
  pub mask : Cpumask
  pub interrupts : List Ptr
  pub parent : Option Ptr
  pub children : List Ptr

-- `banned` is IRQ_FLAG_BANNED, the one flag.
pub record IrqInfo : Type 0 where
  pub irq : ℕ
  pub class : ℕ
  pub irq_type : IrqType
  pub level : ℕ
  pub banned : Bool
  pub numa_node : Option Ptr
  pub cpumask : Cpumask
  pub affinity_hint : Cpumask
  pub hint_policy : HintPolicy
  pub irq_count : ℕ
  pub last_irq_count : ℕ
  pub load : ℕ
  pub moved : Bool
  pub assigned_obj : Option Ptr

-- The global state. `next_irq` and `next_obj` are the addresses that `calloc` returns next; the
-- object at 0 is `unspecified_node`; `crashed` is set where the code follows a null pointer.
pub record State : Type 0 where
  pub irqs : Ptr → IrqInfo
  pub objs : Ptr → TopoObj
  pub next_irq : Ptr
  pub next_obj : Ptr
  pub interrupts_db : List Ptr
  pub banned_irqs : List Ptr
  pub cl_banned_irqs : List Ptr
  pub rebalance_irq_list : List Ptr
  pub numa_nodes : List Ptr
  pub packages : List Ptr
  pub cache_domains : List Ptr
  pub cpus : List Ptr
  pub package_count : ℕ
  pub cache_domain_count : ℕ
  pub core_count : ℕ
  pub banned_cpus : Cpumask
  pub unbanned_cpus : Cpumask
  pub cpu_possible_map : Cpumask
  pub numa_avail : Bool
  pub need_rescan : Bool
  pub cycle_count : ℕ
  pub power_thresh : ℕ
  pub deepest_cache : ℕ
  pub global_hint_policy : HintPolicy
  pub crashed : Bool

abbrev pub set_irq : Ptr → IrqInfo → State → State
set_irq p i s = record s { irqs = update s.irqs p i }

abbrev pub set_obj : Ptr → TopoObj → State → State
set_obj o t s = record s { objs = update s.objs o t }

abbrev pub crash : State → State
crash s = record s { crashed = true }

abbrev pub is_exact : HintPolicy → Bool
is_exact exact = true
is_exact _ = false

abbrev pub is_subset : HintPolicy → Bool
is_subset subset = true
is_subset _ = false

abbrev pub is_node : ObjType → Bool
is_node obj_node = true
is_node _ = false
