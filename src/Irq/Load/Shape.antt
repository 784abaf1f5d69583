-- ===== src/Irq/Load/Shape.antt =====
-- What the measurement of procinterrupts.c may change.
use code_analyze.Prelude.{
  ◌≡◌, refl, true, ap, sym, ◌∙◌, subst, List, [], ◌∷◌, count, ℕ_discrete, update, update_self,
  update_ne,
}
use code_analyze.Irq.Types.{Ptr, IrqInfo, TopoObj, State, set_irq, set_obj, crash}
use code_analyze.Irq.Lists.{Place, rebalance, interrupts_of, get_list, for_each}
use code_analyze.Irq.Lists.Ownership.{Owned}
use code_analyze.Irq.Lists.Kept.{Kept, same-Kept}

abbrev pub SameObj : TopoObj → TopoObj → Type 0
SameObj d e = e ≡ record d { load = e.load; last_load = e.last_load }

abbrev pub SameIrq : IrqInfo → IrqInfo → Type 0
SameIrq i j =
    j ≡ record i { load = j.load; irq_count = j.irq_count; last_irq_count = j.last_irq_count }

-- Loads and counts may differ, and the marks of a rescan and of a crash; nothing else does.
pub record OnlyLoads (s t : State) : Type 0 where
  pub rest :
      t
      ≡ record s { irqs = t.irqs; objs = t.objs; need_rescan = t.need_rescan; crashed = t.crashed }
  -- A rescan that is asked for stays so.
  pub asks : s.need_rescan ≡ true → t.need_rescan ≡ true
  pub objs_same : (o : Ptr) → SameObj (s.objs o) (t.objs o)
  pub irqs_same : (p : Ptr) → SameIrq (s.irqs p) (t.irqs p)

pub OnlyLoads-refl : (s : State) → OnlyLoads s s
OnlyLoads-refl s = record {
  rest = refl;
  asks = λ h. h;
  objs_same = λ o. refl;
  irqs_same = λ p. refl;
}

pub OnlyLoads-trans : (a b c : State) → OnlyLoads a b → OnlyLoads b c → OnlyLoads a c
OnlyLoads-trans a b c v w = record {
  rest =
      w.rest
      ∙ ap
          (λ (x : State). record x {
            irqs = c.irqs;
            objs = c.objs;
            need_rescan = c.need_rescan;
            crashed = c.crashed;
          })
          v.rest;
  asks = λ h. w.asks (v.asks h);
  objs_same = λ o.
      w.objs_same o
      ∙ ap (λ (x : TopoObj). record x { load = (c.objs o).load; last_load = (c.objs o).last_load })
          (v.objs_same o);
  irqs_same = λ p.
      w.irqs_same p
      ∙ ap
          (λ (x : IrqInfo). record x {
            load = (c.irqs p).load;
            irq_count = (c.irqs p).irq_count;
            last_irq_count = (c.irqs p).last_irq_count;
          })
          (v.irqs_same p);
}

pub set_obj-OnlyLoads :
    (o : Ptr) (d : TopoObj) (s : State) → SameObj (s.objs o) d → OnlyLoads s (set_obj o d s)
set_obj-OnlyLoads o d s h = record {
  rest = refl;
  asks = λ h. h;
  objs_same = λ q. elim (ℕ_discrete q o) [
    | yes e ↦
        subst (λ x. SameObj (s.objs q) x) (sym (ap (update s.objs o d) e ∙ update_self s.objs o d))
          (subst (λ x. SameObj (s.objs x) d) (sym e) h)
    | no ne ↦ subst (λ x. SameObj (s.objs q) x) (sym (update_ne s.objs o q d ne)) refl
  ];
  irqs_same = λ p. refl;
}

pub set_irq-OnlyLoads :
    (p : Ptr) (i : IrqInfo) (s : State) → SameIrq (s.irqs p) i → OnlyLoads s (set_irq p i s)
set_irq-OnlyLoads p i s h = record {
  rest = refl;
  asks = λ h. h;
  objs_same = λ o. refl;
  irqs_same = λ q. elim (ℕ_discrete q p) [
    | yes e ↦
        subst (λ x. SameIrq (s.irqs q) x) (sym (ap (update s.irqs p i) e ∙ update_self s.irqs p i))
          (subst (λ x. SameIrq (s.irqs x) i) (sym e) h)
    | no ne ↦ subst (λ x. SameIrq (s.irqs q) x) (sym (update_ne s.irqs p q i ne)) refl
  ];
}

pub for_each-OnlyLoads :
    (cb : Ptr → State → State)
    → ((p : Ptr) (s : State) → OnlyLoads s (cb p s))
    → (l : List Ptr) (s : State) → OnlyLoads s (for_each l cb s)
unfolding for_each
for_each-OnlyLoads cb body [] s = OnlyLoads-refl s
for_each-OnlyLoads cb body (p ∷ ps) s =
    OnlyLoads-trans _ _ _ (body p s) (for_each-OnlyLoads cb body ps (cb p s))

pub crash-OnlyLoads : (s : State) → OnlyLoads s (crash s)
crash-OnlyLoads s = record {
  rest = refl;
  asks = λ h. h;
  objs_same = λ o. refl;
  irqs_same = λ p. refl;
}

-- The lists and the assignments agree afterwards as before.
pub OnlyLoads-Kept : (s t : State) → OnlyLoads s t → Owned s → Kept s t
unfolding get_list
OnlyLoads-Kept s t v w =
    same-Kept s t lists
      (λ q. (
        ap (λ (i : IrqInfo). i.irq) (v.irqs_same q),
        ap (λ (i : IrqInfo). i.assigned_obj) (v.irqs_same q),
      ))
      (λ q. ap (λ (x : State). count q x.interrupts_db) v.rest) w
  where
    lists : (at : Place) (q : Ptr) → count q (get_list at t) ≡ count q (get_list at s)
    lists rebalance q = ap (λ (x : State). count q x.rebalance_irq_list) v.rest
    lists (interrupts_of o) q = ap (λ (d : TopoObj). count q d.interrupts) (v.objs_same o)
