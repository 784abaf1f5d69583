-- ===== src/Irq/Lists/Kept.antt =====
-- Loops over a list of interrupts whose body moves the interrupt it is called on.
use code_analyze.Prelude.{
  ◌≤◌, ◌<◌, ◌≡◌, ◌≢◌, refl, ap, sym, subst, List, [], ◌∷◌, count, arith, ℕ_discrete, length,
}
use code_analyze.Irq.Types.{Ptr, State, TopoObj, crash, set_obj}
use code_analyze.Irq.Lists.{
  Place, rebalance, interrupts_of, get_list, for_each, for_each_irq, GList, sort_irq_list,
  sort_irqs,
}
use code_analyze.Irq.Lists.Ownership.{
  Owned, same-Owned, count-set_list, set_list_rest, same_place-count, move, move-Owned, move_others,
  move_arrives,
}

-- The interrupt is on some list.
unfoldable pub Listed : Ptr → State → Type 0
Listed p s = (at : Place) × (0 < count p (get_list at s))

-- Ownership is intact in the later state, and no interrupt has gone off the lists.
pub record Kept (s t : State) : Type 0 where
  pub owned : Owned t
  pub listed : (q : Ptr) → Listed q s → Listed q t

pub Kept-refl : (s : State) → Owned s → Kept s s
Kept-refl s v = record { owned = v; listed = λ q h. h }

pub Kept-trans : (a b c : State) → Kept a b → Kept b c → Kept a c
Kept-trans a b c v w = record { owned = w.owned; listed = λ q h. w.listed q (v.listed q h) }

-- A step that leaves the lists, numbers, assignments and the database as they are.
pub same-Kept :
    (s t : State)
    → ((at : Place) (q : Ptr) → count q (get_list at t) ≡ count q (get_list at s))
    → ((q : Ptr)
        → ((t.irqs q).irq ≡ (s.irqs q).irq) × ((t.irqs q).assigned_obj ≡ (s.irqs q).assigned_obj))
    → ((q : Ptr) → count q t.interrupts_db ≡ count q s.interrupts_db)
    → Owned s
    → Kept s t
unfolding Listed
same-Kept s t lists irqs db v = record {
  owned = same-Owned s t lists irqs db v;
  listed = λ q (at, k). (at, subst (λ n. 0 < n) (sym (lists at q)) k);
}

pub get_list-crash : (at : Place) (s : State) → get_list at (crash s) ≡ get_list at s
unfolding get_list
get_list-crash rebalance s = refl
get_list-crash (interrupts_of o) s = refl

pub crash-Kept : (s : State) → Owned s → Kept s (crash s)
crash-Kept s v =
    same-Kept s (crash s) (λ at q. ap (count q) (get_list-crash at s)) (λ q. (refl, refl))
      (λ q. refl) v

-- Loops whose variable holds the state.
module _ {S : Type 0} (st : S → State) where
  -- The body for one interrupt of the list: the others stay where they are.
  pub record KeptBody (from : Place) (cb : Ptr → S → S) : Type 0 where
    pub kept :
        (p : Ptr) (s : S)
        → Owned (st s)
        → 0 < count p (get_list from (st s))
        → Kept (st s) (st (cb p s))
    pub others :
        (p : Ptr) (s : S)
        → Owned (st s)
        → 0 < count p (get_list from (st s))
        → (at : Place) (q : Ptr) → q ≢ p
        → count q (get_list at (st (cb p s))) ≡ count q (get_list at (st s))

  pub for_each-Kept :
      (from : Place) (cb : Ptr → S → S)
      → KeptBody from cb
      → (l : List Ptr) (s : S) → Owned (st s)
      → ((q : Ptr) → count q l ≤ 1)
      → ((q : Ptr) → 0 < count q l → 0 < count q (get_list from (st s)))
      → Kept (st s) (st (for_each l cb s))
  unfolding for_each
  for_each-Kept from cb body [] s v once sub = Kept-refl (st s) v
  for_each-Kept from cb body (x ∷ xs) s v once sub =
      let here : 0 < count x (get_list from (st s)) = sub x (ground arith) in
      let first = body.kept x s v here in
      Kept-trans (st s) (st (cb x s)) (st (for_each xs cb (cb x s))) first (
        for_each-Kept from cb body xs (cb x s) first.owned (λ q. omega (arith, once q))
          (λ q h. ground (arith, sub q, once q, body.others x s v here from q)))

  -- for_each_object with a body that keeps ownership whatever it is called on.
  pub for_each_object-Kept :
      (cb : Ptr → S → S)
      → ((p : Ptr) (s : S) → Owned (st s) → Kept (st s) (st (cb p s)))
      → (l : List Ptr) (s : S) → Owned (st s)
      → Kept (st s) (st (for_each l cb s))
  unfolding for_each
  for_each_object-Kept cb body [] s v = Kept-refl (st s) v
  for_each_object-Kept cb body (x ∷ xs) s v =
      Kept-trans (st s) (st (cb x s)) (st (for_each xs cb (cb x s))) (body x s v)
        (for_each_object-Kept cb body xs (cb x s) (body x s v).owned)

  -- for_each_irq over the list at a place that is not empty.
  pub for_each_irq-Kept :
      (from : Place) (cb : Ptr → S → S)
      → KeptBody from cb
      → (db : List Ptr) (l : List Ptr) (s : S) → Owned (st s)
      → l ≡ get_list from (st s)
      → 0 < length l
      → Kept (st s) (st (for_each_irq db l cb s))
  unfolding for_each_irq for_each
  for_each_irq-Kept from cb body db [] s v e h = absurd (omega arith)
  for_each_irq-Kept from cb body db (x ∷ xs) s v e h =
      for_each-Kept from cb body (x ∷ xs) s v
        (λ q. subst (λ l. count q l ≤ 1) (sym e) (v.once from q))
        (λ q. subst (λ l. 0 < count q l → 0 < count q (get_list from (st s))) (sym e) (λ k. k))

pub move-Kept :
    (s : State) (from to : Place) (p : Ptr)
    → Owned s
    → 0 < count p (get_list from s)
    → Kept s (move from to p s)
unfolding Listed
move-Kept s from to p v h = record {
  owned = move-Owned s from to p v h;
  listed = λ q (at, k). elim (ℕ_discrete q p) [
    | yes e ↦ subst (λ x. Listed x (move from to p s)) (sym e) (to, move_arrives s from to p v h)
    | no ne ↦ (at, subst (λ n. 0 < n) (sym (move_others s from to p v h at q ne)) k)
  ];
}

-- Sorting one list changes no count on any.
sort_counts :
    (g : GList) (at there : Place) (s : State) (q : Ptr)
    → count q (get_list there (sort_irq_list g at s)) ≡ count q (get_list there s)
unfolding sort_irq_list
sort_counts g at there s q = ground (
  arith,
  count-set_list there at (g.sort (sort_irqs s.irqs) (get_list at s)) s q,
  g.sort_count (sort_irqs s.irqs) (get_list at s) q,
  same_place-count there at q s,
)

pub sort_irq_list-Kept :
    (g : GList) (at : Place) (s : State) → Owned s → Kept s (sort_irq_list g at s)
unfolding sort_irq_list
sort_irq_list-Kept g at s v =
    let rest = set_list_rest at (g.sort (sort_irqs s.irqs) (get_list at s)) s in
    same-Kept s (sort_irq_list g at s) (λ there q. sort_counts g at there s q)
      (λ q. rw rest.0 (refl, refl)) (λ q. rw rest.1 refl) v

head_counted : (l : List Ptr) → 0 < length l → (q : Ptr) × (0 < count q l)
head_counted [] h = absurd (omega arith)
head_counted (x ∷ xs) h = (x, ground arith)

counted_length : (q : Ptr) (l : List Ptr) → 0 < count q l → 0 < length l
counted_length q [] h = absurd (omega arith)
counted_length q (x ∷ xs) h = omega arith

pub sort_irq_list-length :
    (g : GList) (at : Place) (s : State)
    → 0 < length (get_list at s)
    → 0 < length (get_list at (sort_irq_list g at s))
sort_irq_list-length g at s h =
    let (q, k) = head_counted (get_list at s) h in
    counted_length q (get_list at (sort_irq_list g at s))
      (subst (λ n. 0 < n) (sym (sort_counts g at at s q)) k)

pub get_list-set_obj :
    (at : Place) (o : Ptr) (t : TopoObj) (s : State)
    → t.interrupts ≡ (s.objs o).interrupts
    → get_list at (set_obj o t s) ≡ get_list at s
unfolding get_list
get_list-set_obj rebalance o t s e = refl
get_list-set_obj (interrupts_of b) o t s e = ground (arith, e)

-- A new object with the interrupts of the old one.
pub set_obj-Kept :
    (o : Ptr) (t : TopoObj) (s : State)
    → t.interrupts ≡ (s.objs o).interrupts
    → Owned s
    → Kept s (set_obj o t s)
set_obj-Kept o t s e v =
    same-Kept s (set_obj o t s) (λ at q. ap (count q) (get_list-set_obj at o t s e))
      (λ q. (refl, refl)) (λ q. refl) v
