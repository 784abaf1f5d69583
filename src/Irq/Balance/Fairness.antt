-- ===== src/Irq/Balance/Fairness.antt =====
-- The loads that move_candidate_irqs keeps.
use code_analyze.Prelude.{
  ℕ, ◌+◌, ◌<◌, ◌≤◌, ◌≡◌, refl, ap, ◌∙◌, true, none, some, List, [], ◌∷◌, ◌++◌, arith, update,
  update_ne, ◌≢◌, ◌⊎◌, ℕ_discrete, Option-cases, inl, inr,
}
use code_analyze.Irq.Types.{Ptr, IrqInfo, State, u64_mod}
use code_analyze.Irq.Lists.{
  Place, rebalance, interrupts_of, get_list, for_each, migrate_irq, set_list, find_irq, delete_irq,
}
use code_analyze.Irq.Lists.Ownership.{set_list_rest}
use code_analyze.Irq.Balance.Candidate.{Candidate, candidate_cases}
use code_analyze.Irq.Balance.{Balancing, take_off, relieved, move_candidate_irqs}

-- The load of a list of interrupts.
abbrev pub load_sum : (Ptr → IrqInfo) → List Ptr → ℕ
load_sum irqs [] = 0
load_sum irqs (p ∷ ps) = (irqs p).load + load_sum irqs ps

update_load :
    (a : Ptr → IrqInfo) (p q : Ptr) (i : IrqInfo)
    → i.load ≡ (a p).load
    → (update a p i q).load ≡ (a q).load
update_load a p q i e = ground (arith, e)

-- migrate_irq writes `moved`, and nothing else of the interrupts.
migrate_irqs :
    (from to : Place) (p : Ptr) (s : State)
    → ((migrate_irq from to p s).irqs ≡ s.irqs)
      ⊎ ((migrate_irq from to p s).irqs ≡ update s.irqs p (record (s.irqs p) { moved = true }))
unfolding migrate_irq
migrate_irqs from to p s = elim (Option-cases (find_irq s.irqs (s.irqs p).irq (get_list from s))) [
  | inl e ↦ inl (missed e)
  | inr (t, e) ↦
      let taken = set_list from (delete_irq s.irqs (s.irqs p).irq (get_list from s)) s in
      let given = set_list to (get_list to taken ++ t ∷ []) taken in
      let same : given.irqs ≡ s.irqs =
        (set_list_rest to (get_list to taken ++ t ∷ []) taken).0
        ∙ (set_list_rest from (delete_irq s.irqs (s.irqs p).irq (get_list from s)) s).0 in
      inr (
        found t e
        ∙ ap (λ (a : Ptr → IrqInfo). update a p (record (s.irqs p) { moved = true })) same)
]
  where
    missed :
        find_irq s.irqs (s.irqs p).irq (get_list from s) ≡ none
        → (migrate_irq from to p s).irqs ≡ s.irqs
    missed e = rw (e, migrate_irq) refl

    found :
        (t : Ptr)
        → find_irq s.irqs (s.irqs p).irq (get_list from s) ≡ some t
        → (migrate_irq from to p s).irqs
          ≡ update
              (set_list to
                (get_list to (set_list from (delete_irq s.irqs (s.irqs p).irq (get_list from s)) s)
                  ++ t ∷ [])
                (set_list from (delete_irq s.irqs (s.irqs p).irq (get_list from s)) s)).irqs
              p
              (record (s.irqs p) { moved = true })
    found t e = rw (e, migrate_irq) refl

migrate_load :
    (from to : Place) (p q : Ptr) (s : State)
    → ((migrate_irq from to p s).irqs q).load ≡ (s.irqs q).load
migrate_load from to p q s = elim (migrate_irqs from to p s) [
  | inl e ↦ ap (λ (a : Ptr → IrqInfo). (a q).load) e
  | inr e ↦
      ap (λ (a : Ptr → IrqInfo). (a q).load) e
      ∙ update_load s.irqs p q (record (s.irqs p) { moved = true }) refl
]

take_off_load : (o p q : Ptr) (s : State) → ((take_off o p s).irqs q).load ≡ (s.irqs q).load
unfolding take_off
take_off_load o p q s =
    let m = migrate_irq (interrupts_of o) rebalance p s in
    update_load m.irqs p q (record (m.irqs p) { assigned_obj = none }) refl
    ∙ migrate_load (interrupts_of o) rebalance p q s

take_off_other : (o p q : Ptr) (s : State) → q ≢ p → (take_off o p s).irqs q ≡ s.irqs q
unfolding take_off
take_off_other o p q s ne =
    let m = migrate_irq (interrupts_of o) rebalance p s in
    update_ne m.irqs p q (record (m.irqs p) { assigned_obj = none }) ne
    ∙ elim (migrate_irqs (interrupts_of o) rebalance p s) [
      | inl e ↦ ap (λ (a : Ptr → IrqInfo). a q) e
      | inr e ↦
          ap (λ (a : Ptr → IrqInfo). a q) e
          ∙ update_ne s.irqs p q (record (s.irqs p) { moved = true }) ne
    ]

load_sum_same :
    (a b : Ptr → IrqInfo) (l : List Ptr)
    → ((q : Ptr) → (a q).load ≡ (b q).load)
    → load_sum a l ≡ load_sum b l
load_sum_same a b [] h = refl
load_sum_same a b (x ∷ xs) h = omega (arith, h x, load_sum_same a b xs h)

module _ {V : Type 0} where
  -- What is left of the object's load and the smallest load, after some interrupts: their sum is what
  -- it was, and the smallest load has not passed the object's.
  pub record Balanced (total : ℕ) (b : Balancing V) : Type 0 where
    pub conserved : b.lb.adjustment_load + b.lb.min_load ≡ total
    pub ordered : b.lb.min_load ≤ b.lb.adjustment_load

  candidate_load :
      (p q : Ptr) (b : Balancing V)
      → ((move_candidate_irqs p b).state.irqs q).load ≡ (b.state.irqs q).load
  candidate_load p q b =
      candidate_cases (λ c. (c.state.irqs q).load ≡ (b.state.irqs q).load) p b refl (λ e. refl)
        (λ o run. take_off_load o p q b.state)

  candidate-Balanced :
      (p : Ptr) (b : Balancing V) (total : ℕ)
      → Balanced total b
      → total < u64_mod
      → (b.state.irqs p).load ≤ b.lb.adjustment_load
      → Balanced total (move_candidate_irqs p b)
        × (b.lb.adjustment_load
            ≤ (move_candidate_irqs p b).lb.adjustment_load + (b.state.irqs p).load)
  candidate-Balanced p b total v bound h =
      candidate_cases
        (λ c.
          Balanced total c × (b.lb.adjustment_load ≤ c.lb.adjustment_load + (b.state.irqs p).load))
        p b (v, omega arith)
        (λ e. (record { conserved = v.conserved; ordered = v.ordered }, omega arith))
        (λ o run. (
          record {
            conserved = ground (arith, run.lighter, v.conserved);
            ordered = ground (arith, run.lighter);
          },
          ground (arith, v.conserved),
        ))

  -- The calls of move_candidate_irqs on interrupts whose loads add up to no more than what is left of
  -- the object's load, where nothing wraps: the load that the object loses is what the smallest load
  -- gains, and afterwards the smallest load is still not above the object's, so migration never turns
  -- the imbalance round.
  pub move_candidate_irqs-Balanced :
      (l : List Ptr) (b : Balancing V) (total : ℕ)
      → Balanced total b
      → total < u64_mod
      → load_sum b.state.irqs l ≤ b.lb.adjustment_load
      → Balanced total (for_each l move_candidate_irqs b)
  unfolding for_each
  move_candidate_irqs-Balanced [] b total v bound h = v
  move_candidate_irqs-Balanced (x ∷ xs) b total v bound h =
      let first = candidate-Balanced x b total v bound (omega arith) in
      let c = move_candidate_irqs x b in
      let same = load_sum_same c.state.irqs b.state.irqs xs (λ q. candidate_load x q b) in
      move_candidate_irqs-Balanced xs c total first.0 bound (omega (arith, same, first.1))

  moved_self :
      (o q : Ptr) {p : Ptr} {b : Balancing V}
      → Candidate o p b
      → ((relieved o p b).state.irqs q).assigned_obj ≢ (b.state.irqs q).assigned_obj
      → q ≡ p
  moved_self o q {p = p} {b = b} run ne = elim (ℕ_discrete q p) [
    | yes e ↦ e
    | no other ↦
        absurd (ne (ap (λ (i : IrqInfo). i.assigned_obj) (take_off_other o p q b.state other)))
  ]

  -- An interrupt that move_candidate_irqs takes off an object is the one it is called on, and it may
  -- be moved: its hint is not exact or is empty, its level is not BALANCE_NONE, its load is above 1, and it is not
  -- alone on the object.
  pub move_candidate_irqs_moves :
      (p q : Ptr) (b : Balancing V)
      → ((move_candidate_irqs p b).state.irqs q).assigned_obj ≢ (b.state.irqs q).assigned_obj
      → (q ≡ p) × ((o : Ptr) × Candidate o p b)
  move_candidate_irqs_moves p q b =
      candidate_cases
        (λ c.
          (c.state.irqs q).assigned_obj ≢ (b.state.irqs q).assigned_obj
          → (q ≡ p) × ((o : Ptr) × Candidate o p b))
        p b (λ ne. absurd (ne refl)) (λ e ne. absurd (ne refl))
        (λ o run ne. (moved_self o q run ne, (o, run)))
