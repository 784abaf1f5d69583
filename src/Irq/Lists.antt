-- ===== src/Irq/Lists.antt =====
-- The list functions of classify.c: for_each_irq, migrate_irq and sort_irq_list, over places that
-- hold a list of interrupts. A GList is the list of its data.
pub mod Ownership
pub mod Kept
use code_analyze.Prelude.{
  ℕ, ◌<◌, ◌≡◌, Bool, true, false, ◌||◌, Option, none, some, List, [], ◌∷◌, ◌++◌, update, ltb, ◌==◌,
  if◌then◌else◌, count,
}
use code_analyze.Irq.Types.{Ptr, IrqInfo, TopoObj, State, set_irq, set_obj}

-- `&rebalance_irq_list`, or `&obj->interrupts`.
pub data Place : Type 0 where
  rebalance : Place
  interrupts_of : Ptr → Place

unfoldable pub get_list : Place → State → List Ptr
get_list rebalance s = s.rebalance_irq_list
get_list (interrupts_of o) s = (s.objs o).interrupts

unfoldable pub set_list : Place → List Ptr → State → State
set_list rebalance l s = record s { rebalance_irq_list = l }
set_list (interrupts_of o) l s = set_obj o (record (s.objs o) { interrupts = l }) s

-- `g_list_find_custom(list, &find, compare_ints)`: the first entry with this interrupt number.
unfoldable pub find_irq : (Ptr → IrqInfo) → ℕ → List Ptr → Option Ptr
find_irq irqs n [] = none
find_irq irqs n (p ∷ ps) = if (irqs p).irq == n then some p else find_irq irqs n ps

-- `g_list_delete_link` of that entry.
unfoldable pub delete_irq : (Ptr → IrqInfo) → ℕ → List Ptr → List Ptr
delete_irq irqs n [] = []
delete_irq irqs n (p ∷ ps) = if (irqs p).irq == n then ps else p ∷ delete_irq irqs n ps

unfoldable pub migrate_irq : Place → Place → Ptr → State → State
migrate_irq from to p s =
    let n = (s.irqs p).irq in
    elim (find_irq s.irqs n (get_list from s)) [
      | none ↦ s
      | some tmp ↦
          let taken = set_list from (delete_irq s.irqs n (get_list from s)) s in
          let given = set_list to (get_list to taken ++ tmp ∷ []) taken in
          set_irq p (record (s.irqs p) { moved = true }) given
    ]

-- for_each_irq and for_each_object over a list that is not NULL: the callback removes at most the
-- entry that it is called on, and `next` is read before the call, so the calls are made on the
-- entries that the list has at the start.
unfoldable pub for_each : {S A : Type 0} → List A → (A → S → S) → S → S
for_each [] cb s = s
for_each (p ∷ ps) cb s = for_each ps cb (cb p s)

-- for_each_irq takes NULL, which an empty list is, for the interrupt database `db`.
unfoldable pub for_each_irq : {S : Type 0} → (db : List Ptr) → List Ptr → (Ptr → S → S) → S → S
unfolding for_each
for_each_irq db [] cb s = for_each db cb s
for_each_irq db (p ∷ ps) cb s = for_each (p ∷ ps) cb s

-- `sort_irqs(a, b) > 0`: pointers are compared last.
unfoldable pub sort_irqs : (Ptr → IrqInfo) → Ptr → Ptr → Bool
sort_irqs irqs a b = ltb (irqs a).class (irqs b).class || ltb (irqs a).load (irqs b).load || ltb a b

-- `g_list_sort` of GLib, given whether the first of two entries goes behind the second; it returns
-- the entries of its argument in some order.
pub record GList : Type 0 where
  pub sort : (Ptr → Ptr → Bool) → List Ptr → List Ptr
  pub sort_count :
      (behind : Ptr → Ptr → Bool) (l : List Ptr) (p : Ptr) → count p (sort behind l) ≡ count p l

unfoldable pub sort_irq_list : GList → Place → State → State
sort_irq_list g at s = set_list at (g.sort (sort_irqs s.irqs) (get_list at s)) s
