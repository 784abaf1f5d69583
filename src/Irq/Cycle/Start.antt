-- ===== src/Irq/Cycle/Start.antt =====
-- irqbalance.c: the first filling of the rebalance list.
use code_analyze.Prelude.{
  ◌+◌, ◌<◌, ◌≤◌, ◌≡◌, refl, sym, ap, ◌∙◌, subst, false, none, List, [], ◌∷◌, count, count-append,
  ◌==◌, arith, Bool-cases, inl, inr, ℕ_discrete,
}
use code_analyze.Irq.Types.{Ptr, State, balance_none}
use code_analyze.Irq.Lists.{Place, rebalance, interrupts_of, get_list, for_each, for_each_irq}
use code_analyze.Irq.Lists.Ownership.{Owned, owner_of}
use code_analyze.Irq.Cycle.{unassign, force_rebalance_irq, force_rebalance_all}

-- The state that the building of the tree and of the database leaves: no list has an interrupt, and
-- none is assigned.
pub record Fresh (s : State) : Type 0 where
  pub empty : (at : Place) (p : Ptr) → count p (get_list at s) ≡ 0
  pub unassigned : (p : Ptr) → (s.irqs p).assigned_obj ≡ none
  pub once : (p : Ptr) → count p s.interrupts_db ≤ 1
  pub distinct :
      (p q : Ptr)
      → 0 < count p s.interrupts_db
      → 0 < count q s.interrupts_db
      → (s.irqs p).irq ≡ (s.irqs q).irq
      → p ≡ q

-- The loop has put the interrupts that want balancing, and are not to come, on the rebalance list.
record Started (s : State) (rest : List Ptr) (t : State) : Type 0 where
  irqs_same : (q : Ptr) → ((t.irqs q).irq ≡ (s.irqs q).irq) × ((t.irqs q).level ≡ (s.irqs q).level)
  none_assigned : (q : Ptr) → (t.irqs q).assigned_obj ≡ none
  db_same : t.interrupts_db ≡ s.interrupts_db
  others_empty : (o : Ptr) (q : Ptr) → count q (t.objs o).interrupts ≡ 0
  listed : (q : Ptr) → count q t.rebalance_irq_list + count q rest ≤ count q s.interrupts_db
  done :
      (q : Ptr)
      → 0 < count q s.interrupts_db
      → ((s.irqs q).level == balance_none) ≡ false
      → 0 < count q t.rebalance_irq_list + count q rest

start_step :
    (s : State) (p : Ptr) (rest : List Ptr) (t : State)
    → Started s (p ∷ rest) t
    → Started s rest (force_rebalance_irq p t)
unfolding force_rebalance_irq unassign
start_step s p rest t v = elim (Bool-cases ((t.irqs p).level == balance_none)) [
  | inl stays ↦ simp stays record {
    irqs_same = v.irqs_same;
    none_assigned = v.none_assigned;
    db_same = v.db_same;
    others_empty = v.others_empty;
    listed = λ q. omega (arith, v.listed q);
    done = λ q h l. elim (ℕ_discrete p q) [
      | yes e ↦
          let level_q : (t.irqs p).level ≡ (s.irqs q).level =
            ap (λ x. (t.irqs x).level) e ∙ (v.irqs_same q).1 in
          absurd (ground (arith, stays, level_q, l))
      | no ne ↦ ground (arith, v.done q h l)
    ];
  }
  | inr moves ↦
      simp (moves, v.none_assigned p)
        record {
          irqs_same = λ q. (ground (arith, (v.irqs_same q).0), ground (arith, (v.irqs_same q).1));
          none_assigned = λ q. ground (arith, v.none_assigned q);
          db_same = v.db_same;
          others_empty = v.others_empty;
          listed = λ q. omega (arith, v.listed q, count-append q t.rebalance_irq_list (p ∷ []));
          done = λ q h l. omega (arith, v.done q h l, count-append q t.rebalance_irq_list (p ∷ []));
        }
]

start_loop :
    (s : State) (l : List Ptr) (t : State)
    → Started s l t
    → Started s [] (for_each l force_rebalance_irq t)
unfolding for_each
start_loop s [] t v = v
start_loop s (p ∷ ps) t v = start_loop s ps (force_rebalance_irq p t) (start_step s p ps t v)

Fresh-Started : (s : State) → Fresh s → Started s s.interrupts_db s
unfolding get_list
Fresh-Started s v = record {
  irqs_same = λ q. (refl, refl);
  none_assigned = v.unassigned;
  db_same = refl;
  others_empty = λ o q. v.empty (interrupts_of o) q;
  listed = λ q. omega (arith, v.empty rebalance q);
  done = λ q h l. omega arith;
}

Started-Owned : (s t : State) → Fresh s → Started s [] t → Owned t
unfolding get_list
Started-Owned s t v w = record {
  owner = owner;
  once = once;
  known = λ at p h. subst (λ l. 0 < count p l) (sym w.db_same) (known at p h);
  distinct = λ p q hp hq e.
      v.distinct p q (subst (λ l. 0 < count p l) w.db_same hp)
        (subst (λ l. 0 < count q l) w.db_same hq) (sym (w.irqs_same p).0 ∙ e ∙ (w.irqs_same q).0);
}
  where
    at_most : (at : Place) (p : Ptr) → count p (get_list at t) ≤ count p s.interrupts_db
    at_most rebalance p = omega (arith, w.listed p)
    at_most (interrupts_of o) p = omega (arith, w.others_empty o p)

    owner :
        (at : Place) (p : Ptr) → 0 < count p (get_list at t) → (t.irqs p).assigned_obj ≡ owner_of at
    owner rebalance p h = w.none_assigned p
    owner (interrupts_of o) p h = absurd (omega (arith, h, w.others_empty o p))

    once : (at : Place) (p : Ptr) → count p (get_list at t) ≤ 1
    once at p = omega (arith, at_most at p, v.once p)

    known : (at : Place) (p : Ptr) → 0 < count p (get_list at t) → 0 < count p s.interrupts_db
    known at p h = omega (arith, h, at_most at p)

-- At the start the lists and assignments agree, and every interrupt of the database whose level is not
-- BALANCE_NONE is on the rebalance list, when the tree and the database are new.
pub force_rebalance_all-Owned :
    (s : State)
    → Fresh s
    → Owned (force_rebalance_all s)
      × ((p : Ptr)
          → 0 < count p s.interrupts_db
          → ((s.irqs p).level == balance_none) ≡ false
          → 0 < count p (force_rebalance_all s).rebalance_irq_list)
unfolding force_rebalance_all for_each_irq
force_rebalance_all-Owned s v =
    let t = for_each s.interrupts_db force_rebalance_irq s in
    let w = start_loop s s.interrupts_db s (Fresh-Started s v) in
    (Started-Owned s t v w, λ p h l. omega (arith, w.done p h l))
