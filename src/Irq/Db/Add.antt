-- ===== src/Irq/Db/Add.antt =====
-- add_one_irq_to_db, check_for_irq_ban and add_new_irq of classify.c.
use code_analyze.Prelude.{
  ℕ, zero, suc, ◌/◌, ◌^◌, Bool, true, false, not, ◌||◌, Option, none, some, List, [], ◌∷◌, ◌++◌,
  leb, ◌==◌, if◌then◌else◌,
}
use code_analyze.Irq.Cpumask.{Cpumask, cpus_clear, cpus_setall}
use code_analyze.Irq.Types.{Ptr, IrqInfo, State, set_irq}
use code_analyze.Irq.Lists.{find_irq}
use code_analyze.Irq.Numa.{get_numa_node}
use code_analyze.Irq.Db.{
  DevPath, sys, ReadClass, no_file, no_number, at_end, class_number, Outside, map_class_to_level,
  max_class, class_codes, new_irq, alloc_irq, add_banned_irq, is_banned_irq, is_some, get_irq_info,
}
use code_analyze.Irq.Db.Policy.{UserIrqPolicy, no_policy, parse_lines}

-- The number that the class is read as; the code goes on with 0 at the end of the file.
unfoldable pub class_of : ReadClass → Option ℕ
class_of no_file = none
class_of no_number = none
class_of at_end = some 0
class_of (class_number c) = some c

-- An entry of a table of the file; class_of and the test of max_class keep the index in bounds.
abbrev pub nth : List ℕ → ℕ → ℕ
nth [] k = 0
nth (x ∷ xs) zero = x
nth (x ∷ xs) (suc k) = nth xs k

-- `class >>= 16`, the test of MAX_CLASS, and the class and the level.
unfoldable pub classify : UserIrqPolicy → Option ℕ → IrqInfo → IrqInfo
classify pol none new = new
classify pol (some c) new =
    let class = c / 2 ^ 16 in
    if leb max_class class then new else record new {
      class = nth class_codes class;
      level = elim pol.level [ some l ↦ l | none ↦ nth map_class_to_level (nth class_codes class) ];
    }

-- The node of the policy, or else that of the device.
unfoldable pub node_of : Outside → DevPath → UserIrqPolicy → State → Option Ptr
node_of out devpath pol s =
    let read = if s.numa_avail then out.numa_node_file devpath else none in
    if pol.numa_node_set then get_numa_node pol.numa_node s else get_numa_node read s

abbrev pub or_else : Option Cpumask → Cpumask → Cpumask
or_else none m = m
or_else (some k) m = k

-- The fields of a new interrupt, up to its return.
unfoldable pub describe : Outside → DevPath → ℕ → UserIrqPolicy → State → IrqInfo
describe out devpath n pol s =
    let new = record (new_irq n) { hint_policy = pol.hintpolicy } in
    record (classify pol (class_of (out.class_file devpath)) new) {
      numa_node = node_of out devpath pol s;
      cpumask = or_else (out.local_cpus devpath) cpus_setall;
      affinity_hint = or_else (out.affinity_hint n) cpus_clear;
    }

-- The interrupt added, or NULL.
unfoldable pub add_one_irq_to_db :
    Outside → DevPath → ℕ → UserIrqPolicy → State → Option Ptr × State
add_one_irq_to_db out devpath n pol s = elim (find_irq s.irqs n s.interrupts_db) [
  | some p ↦ (none, s)
  | none ↦
      if is_banned_irq n s
      then (none, s)
      else (let t = alloc_irq (describe out devpath n pol s) s in
          (some s.next_irq, record t { interrupts_db = t.interrupts_db ++ s.next_irq ∷ [] }))
]

unfoldable pub get_irq_user_policy : Outside → DevPath → ℕ → State → UserIrqPolicy
get_irq_user_policy out path n s = elim out.polscript [
  | none ↦ no_policy s
  | some script ↦ parse_lines s (script path n) (no_policy s)
]

-- The script's exit status, where `system` does not fail; NULL is no path.
unfoldable pub check_for_irq_ban : Outside → Option DevPath → ℕ → State → Bool
check_for_irq_ban out path n s =
    if is_some (find_irq s.irqs n s.cl_banned_irqs) then true else elim out.banscript [
      | none ↦ false
      | some script ↦ elim path [
        | none ↦ false
        | some p ↦ elim (script p n) [ none ↦ false | some status ↦ not (status == 0) ]
      ]
    ]

abbrev pub is_banned : Option Bool → Bool
is_banned (some true) = true
is_banned _ = false

abbrev pub override : Option IrqInfo → IrqInfo → IrqInfo
override none new = new
override (some hint) new = record new { irq_type = hint.irq_type; class = hint.class }

-- The type and class of the hint, and the level of the class, over those of the new interrupt.
unfoldable pub override_irq : Option IrqInfo → Ptr → State → State
override_irq hint p s =
    let new = override hint (s.irqs p) in
    set_irq p (record new { level = nth map_class_to_level new.class }) s

unfoldable pub override_found : Option IrqInfo → Option Ptr → State → State
override_found hint none s = s
override_found hint (some p) s = override_irq hint p s

-- add_new_irq for a number that get_irq_info does not find: the banned case, and the other.
unfoldable pub add_banned : ℕ → Option IrqInfo → State → State
add_banned n hint s = let t = add_banned_irq n s in override_found hint (get_irq_info n t) t

unfoldable pub add_allowed : Outside → ℕ → Option IrqInfo → State → State
add_allowed out n hint s =
    let r = add_one_irq_to_db out sys n (get_irq_user_policy out sys n s) s in
    override_found hint r.0 r.1

unfoldable pub add_new_irq : Outside → ℕ → Option IrqInfo → State → State
add_new_irq out n hint s = elim (get_irq_info n s) [
  | some p ↦ s
  | none ↦
      let pol = get_irq_user_policy out sys n s in
      if is_banned pol.ban || check_for_irq_ban out none n s
      then add_banned n hint s
      else add_allowed out n hint s
]

-- `info` is an interrupt of /proc/interrupts, which is in no list of the state.
unfoldable pub add_missing_irq : Outside → IrqInfo → State → State
add_missing_irq out info s = elim (get_irq_info info.irq s) [
  | some p ↦ s
  | none ↦ add_new_irq out info.irq (some info) s
]
