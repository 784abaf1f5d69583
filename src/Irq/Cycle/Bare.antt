-- ===== src/Irq/Cycle/Bare.antt =====
-- The states in which no interrupt is placed.
use code_analyze.Prelude.{
  sym, ◌∙◌, ℕ, ◌<◌, ◌≡◌, ap, Bool, true, false, Option, none, some, List, [], ◌∷◌, count, arith,
  inl, inr, ◌⊎◌, ℕ_discrete, if◌then◌else◌,
}
use code_analyze.Irq.Types.{Ptr, IrqInfo, TopoObj, State, set_irq, set_obj}
use code_analyze.Irq.Lists.{for_each}

-- No object has an interrupt, and no interrupt has an object; the interrupts that are banned on the command
-- line are at addresses that have been given out, and the numbers in Ban are among theirs.
pub record Unplaced (Ban : ℕ → Type 0) (irqs : Ptr → IrqInfo) (objs : Ptr → TopoObj)
    (waiting : List Ptr) (cl_banned : List Ptr) (next_irq : Ptr) : Type 0 where
  pub objs_empty : (o : Ptr) → (objs o).interrupts ≡ []
  pub unassigned : (p : Ptr) → (irqs p).assigned_obj ≡ none
  pub none_waits : waiting ≡ []
  pub cl_old : (p : Ptr) → 0 < count p cl_banned → p < next_irq
  pub bans : (n : ℕ) → Ban n → (p : Ptr) × (0 < count p cl_banned) × ((irqs p).irq ≡ n)

abbrev pub Bare : (ℕ → Type 0) → State → Type 0
Bare Ban s = Unplaced Ban s.irqs s.objs s.rebalance_irq_list s.cl_banned_irqs s.next_irq

pub set_obj-Bare :
    {Ban : ℕ → Type 0} (o : Ptr) (t : TopoObj) (s : State)
    → t.interrupts ≡ []
    → Bare Ban s
    → Bare Ban (set_obj o t s)
set_obj-Bare o t s e b = record {
  objs_empty = λ q. elim (ℕ_discrete q o) [
    | yes same ↦ ground (arith, same, e)
    | no ne ↦ ground (arith, ne, b.objs_empty q)
  ];
  unassigned = b.unassigned;
  none_waits = b.none_waits;
  cl_old = b.cl_old;
  bans = b.bans;
}

set_irq-number :
    (p q : Ptr) (i : IrqInfo) (s : State)
    → (p ≡ q → i.irq ≡ (s.irqs p).irq)
    → ((set_irq p i s).irqs q).irq ≡ (s.irqs q).irq
set_irq-number p q i s same = elim (ℕ_discrete q p) [
  | yes e ↦ ground (arith, e, same (sym e), ap (λ x. (s.irqs x).irq) e)
  | no ne ↦ ground (arith, ne)
]

-- The interrupt is new, or it keeps its number.
pub set_irq-Bare :
    {Ban : ℕ → Type 0} (p : Ptr) (i : IrqInfo) (s : State)
    → (p ≡ s.next_irq) ⊎ (i.irq ≡ (s.irqs p).irq)
    → i.assigned_obj ≡ none
    → Bare Ban s
    → Bare Ban (set_irq p i s)
set_irq-Bare p i s kind e b = record {
  objs_empty = b.objs_empty;
  unassigned = λ q. elim (ℕ_discrete q p) [
    | yes same ↦ ground (arith, same, e)
    | no ne ↦ ground (arith, ne, b.unassigned q)
  ];
  none_waits = b.none_waits;
  cl_old = b.cl_old;
  bans = λ n ban.
      let (q, listed, number) = b.bans n ban in
      (q, listed, set_irq-number p q i s (kept q listed) ∙ number);
}
  where
    kept : (q : Ptr) → 0 < count q s.cl_banned_irqs → p ≡ q → i.irq ≡ (s.irqs p).irq
    kept q listed same = elim kind [
      | inl new ↦ absurd (omega (arith, new, same, b.cl_old q listed))
      | inr old ↦ old
    ]

pub for_each-Bare :
    {Ban : ℕ → Type 0} {A : Type 0} (cb : A → State → State)
    → ((a : A) (s : State) → Bare Ban s → Bare Ban (cb a s))
    → (l : List A) (s : State) → Bare Ban s
    → Bare Ban (for_each l cb s)
unfolding for_each
for_each-Bare cb body [] s b = b
for_each-Bare cb body (a ∷ rest) s b = for_each-Bare cb body rest (cb a s) (body a s b)

pub if-Bare :
    {Ban : ℕ → Type 0} (c : Bool) (s t : State)
    → Bare Ban s
    → Bare Ban t
    → Bare Ban (if c then s else t)
if-Bare true s t bs bt = bs
if-Bare false s t bs bt = bt

pub option-Bare :
    {Ban : ℕ → Type 0} {A : Type 0} (m : Option A) (n : State) (f : A → State)
    → Bare Ban n
    → ((a : A) → Bare Ban (f a))
    → Bare Ban (elim m [ none ↦ n | some a ↦ f a ])
option-Bare none n f bn bf = bn
option-Bare (some a) n f bn bf = bf a
