-- ===== src/Irq/Placement/Best.antt =====
-- find_best_object: what the scan of a list of objects finds.
use code_analyze.Prelude.{
  ℕ, ◌<◌, ◌≤◌, ◌≡◌, refl, sym, true, false, none, some, List, [], ◌∷◌, count, ltb, arith, length,
  dec_lt, ℕ_discrete, Option-cases, inl, inr, subst, Bool-cases,
}
use code_analyze.Irq.Types.{Ptr, IrqInfo, State, ullong_max}
use code_analyze.Irq.Lists.{for_each}
use code_analyze.Irq.Placement.{
  ObjPlacement, unsuitable, take_best, take_least, find_best_object, no_placement, asign_of, scan,
}

module _ (s : State) (info : IrqInfo) (l : List Ptr) where
  -- An object of the list that the interrupt may go to, whose load is `cost`.
  pub record Fits (cost : ℕ) (d : Ptr) : Type 0 where
    pub listed : 0 < count d l
    pub suitable : unsuitable s info (s.objs d) ≡ false
    pub costs : (s.objs d).load ≡ cost

  pub record GoodPlacement (place : ObjPlacement) : Type 0 where
    pub no_fault : place.fault ≡ false
    pub best_fits : (b : Ptr) → place.best ≡ some b → Fits place.best_cost b
    pub least_fits : (b : Ptr) → place.least_irqs ≡ some b → Fits place.best_cost b
    pub no_best : place.best ≡ none → (place.best_cost ≡ ullong_max) × (place.least_irqs ≡ none)

  take_best_good :
      (d : Ptr) (place : ObjPlacement)
      → Fits (s.objs d).load d
      → GoodPlacement place
      → GoodPlacement (take_best d (s.objs d).load place)
        × ((take_best d (s.objs d).load place).best_cost ≤ place.best_cost)
        × ((take_best d (s.objs d).load place).best_cost ≤ (s.objs d).load)
  unfolding take_best
  take_best_good d place fits v = elim (dec_lt (s.objs d).load place.best_cost) [
    | yes lt ↦
        let taken : ObjPlacement = record {
          best = some d;
          least_irqs = none;
          best_cost = (s.objs d).load;
          fault = place.fault;
        } in
        let good : GoodPlacement taken = record {
          no_fault = v.no_fault;
          best_fits = λ b e. subst (Fits (s.objs d).load) (ground arith) fits;
          least_fits = λ b e. absurd (ground arith);
          no_best = λ e. absurd (ground arith);
        } in
        let same : take_best d (s.objs d).load place ≡ taken = ground arith in
        rw same (good, omega arith, omega arith)
    | no ge ↦
        let same : take_best d (s.objs d).load place ≡ place = ground arith in
        rw same (v, omega arith, omega arith)
  ]

  take_least_good :
      (d : Ptr) (place : ObjPlacement)
      → Fits (s.objs d).load d
      → (s.objs d).load < ullong_max
      → GoodPlacement place
      → GoodPlacement (take_least s d (s.objs d).load place)
        × ((take_least s d (s.objs d).load place).best_cost ≡ place.best_cost)
  unfolding take_least
  take_least_good d place fits bound v = elim (ℕ_discrete (s.objs d).load place.best_cost) [
    | no ne ↦
        let same : take_least s d (s.objs d).load place ≡ place = ground arith in rw same (v, refl)
    | yes e ↦ elim (Option-cases place.best) [
      | inl no_b ↦ absurd (omega (arith, (v.no_best no_b).0))
      | inr (b, is_b) ↦
          elim (Bool-cases (ltb (length (s.objs d).interrupts) (length (s.objs b).interrupts))) [
            | inl fewer ↦
                let taken : ObjPlacement = record place { least_irqs = some d } in
                let good : GoodPlacement taken = record {
                  no_fault = v.no_fault;
                  best_fits = v.best_fits;
                  least_fits = λ c h.
                      subst (Fits place.best_cost) (ground arith) (subst (λ x. Fits x d) e fits);
                  no_best = λ h. absurd (ground arith);
                } in
                let same : take_least s d (s.objs d).load place ≡ taken = ground arith in
                rw same (good, refl)
            | inr not_fewer ↦
                let same : take_least s d (s.objs d).load place ≡ place = ground arith in
                rw same (v, refl)
          ]
    ]
  ]

  step_good :
      (d : Ptr) (place : ObjPlacement)
      → 0 < count d l
      → (s.objs d).load < ullong_max
      → GoodPlacement place
      → GoodPlacement (find_best_object s info d place)
        × ((find_best_object s info d place).best_cost ≤ place.best_cost)
        × (unsuitable s info (s.objs d) ≡ false
            → (find_best_object s info d place).best_cost ≤ (s.objs d).load)
  unfolding find_best_object
  step_good d place h bound v = elim (Bool-cases (unsuitable s info (s.objs d))) [
    | inl skipped ↦ rw skipped (v, omega arith, λ e. absurd (cc))
    | inr u ↦
        let fits : Fits (s.objs d).load d = record { listed = h; suitable = u; costs = refl } in
        let first = take_best_good d place fits v in
        let second = take_least_good d (take_best d (s.objs d).load place) fits bound first.0 in
        rw u (second.0, omega (arith, second.1, first.1), λ _. omega (arith, second.1, first.1))
  ]

  scan_good :
      (ds : List Ptr) (place : ObjPlacement)
      → ((d : Ptr) → 0 < count d ds → 0 < count d l)
      → ((d : Ptr) → 0 < count d ds → (s.objs d).load < ullong_max)
      → GoodPlacement place
      → GoodPlacement (for_each ds (find_best_object s info) place)
        × ((for_each ds (find_best_object s info) place).best_cost ≤ place.best_cost)
        × ((d : Ptr)
            → 0 < count d ds
            → unsuitable s info (s.objs d) ≡ false
            → (for_each ds (find_best_object s info) place).best_cost ≤ (s.objs d).load)
  unfolding for_each
  scan_good [] place sub bound v = (v, omega arith, λ d h. absurd (omega arith))
  scan_good (x ∷ xs) place sub bound v =
      let first = step_good x place (sub x (ground arith)) (bound x (ground arith)) v in
      let rest =
        scan_good xs (find_best_object s info x place) (λ d h. sub d (omega arith))
          (λ d h. bound d (omega arith)) first.0 in
      (
        rest.0,
        omega (arith, rest.1, first.1),
        λ d h u. elim (ℕ_discrete x d) [
          | yes e ↦
              let at_x = first.2 (subst (λ y. unsuitable s info (s.objs y) ≡ false) (sym e) u) in
              subst
                (λ y.
                  (for_each xs (find_best_object s info)
                    (find_best_object s info x place)).best_cost
                  ≤ (s.objs y).load)
                e (omega (arith, at_x, rest.1))
          | no ne ↦ rest.2 d (ground arith) u
        ],
      )

  chosen-Fits :
      (place : ObjPlacement)
      → GoodPlacement place
      → (a : Ptr) → asign_of place ≡ some a
      → Fits place.best_cost a
  unfolding asign_of
  chosen-Fits place v a e = elim (Option-cases place.least_irqs) [
    | inl no_l ↦ v.best_fits a (ground (arith, no_l))
    | inr (c, is_c) ↦ v.least_fits a (ground (arith, is_c))
  ]

  unchosen :
      (place : ObjPlacement)
      → GoodPlacement place
      → asign_of place ≡ none
      → place.best_cost ≡ ullong_max
  unfolding asign_of
  unchosen place v e = elim (Option-cases place.least_irqs) [
    | inl no_l ↦ (v.no_best (ground (arith, no_l))).0
    | inr (c, is_c) ↦ absurd (ground (arith, is_c))
  ]

  no_placement_good : GoodPlacement no_placement
  no_placement_good = record {
    no_fault = refl;
    best_fits = λ b e. absurd (ground arith);
    least_fits = λ b e. absurd (ground arith);
    no_best = λ e. (refl, refl);
  }

-- What the scan of a list of objects for an interrupt chooses, when no load is ULLONG_MAX: NULL is not
-- followed; a chosen object is one of the list that find_best_object does not skip, and none of those
-- has a smaller load; and nothing is chosen only where all are skipped.
pub scan_best :
    (s : State) (info : IrqInfo) (ds : List Ptr)
    → ((d : Ptr) → 0 < count d ds → (s.objs d).load < ullong_max)
    → ((scan s info ds).fault ≡ false)
      × ((a : Ptr)
          → asign_of (scan s info ds) ≡ some a
          → (0 < count a ds)
            × (unsuitable s info (s.objs a) ≡ false)
            × ((d : Ptr)
                → 0 < count d ds
                → unsuitable s info (s.objs d) ≡ false
                → (s.objs a).load ≤ (s.objs d).load))
      × (asign_of (scan s info ds) ≡ none
          → (d : Ptr) → 0 < count d ds
          → unsuitable s info (s.objs d) ≡ true)
unfolding scan
scan_best s info ds bound =
    let good = scan_good s info ds ds no_placement (λ d h. h) bound (no_placement_good s info ds) in
    (
      good.0.no_fault,
      λ a e.
          let fits = chosen-Fits s info ds (scan s info ds) good.0 a e in
          (fits.listed, fits.suitable, λ d h u. omega (arith, good.2 d h u, fits.costs)),
      λ e d h. elim (Bool-cases (unsuitable s info (s.objs d))) [
        | inl u ↦ u
        | inr u ↦
            absurd
              (omega (arith, good.2 d h u, unchosen s info ds (scan s info ds) good.0 e, bound d h))
      ],
    )
