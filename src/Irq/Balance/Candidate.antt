-- ===== src/Irq/Balance/Candidate.antt =====
-- The cases of move_candidate_irqs.
use code_analyze.Prelude.{
  ◌<◌, ◌≡◌, true, false, not, ◌&&◌, none, some, leb, ◌==◌, arith, length, Bool-cases, Option-cases,
  inl, inr,
}
use code_analyze.Irq.Cpumask.{cpus_empty}
use code_analyze.Irq.Types.{Ptr, is_exact, balance_none, crash}
use code_analyze.Irq.Balance.{Balancing, relieved, is_lighter, move_candidate_irqs}

-- What holds where the interrupt is moved off the object.
pub record Candidate {V : Type 0} (o p : Ptr) (b : Balancing V) : Type 0 where
  pub assigned : (b.state.irqs p).assigned_obj ≡ some o
  pub movable :
      (is_exact (b.state.irqs p).hint_policy && not (cpus_empty (b.state.irqs p).affinity_hint))
      ≡ false
  pub balanced_level : ((b.state.irqs p).level == balance_none) ≡ false
  pub not_alone : 1 < length (b.state.objs o).interrupts
  pub has_load : 1 < (b.state.irqs p).load
  pub lighter : is_lighter p b ≡ true

-- move_candidate_irqs does nothing, follows a null `assigned_obj`, or moves a candidate.
pub candidate_cases :
    {V : Type 0} (P : Balancing V → Type 0) (p : Ptr) (b : Balancing V)
    → P b
    → ((b.state.irqs p).assigned_obj ≡ none → P record b { state = crash b.state })
    → ((o : Ptr) → Candidate o p b → P (relieved o p b))
    → P (move_candidate_irqs p b)
unfolding move_candidate_irqs
candidate_cases P p b stay fault moved =
    let info = b.state.irqs p in
    elim (Bool-cases (is_exact info.hint_policy && not (cpus_empty info.affinity_hint))) [
      | inl e ↦ simp e stay
      | inr e ↦ elim (Bool-cases (info.level == balance_none)) [
        | inl l ↦ simp (e, l) stay
        | inr l ↦ elim (Option-cases info.assigned_obj) [
          | inl a ↦ simp (e, l, a) (fault a)
          | inr (o, a) ↦ elim (Bool-cases (leb (length (b.state.objs o).interrupts) 1)) [
            | inl n ↦ simp (e, l, a, n) stay
            | inr n ↦ elim (Bool-cases (leb info.load 1)) [
              | inl m ↦ simp (e, l, a, n, m) stay
              | inr m ↦ elim (Bool-cases (is_lighter p b)) [
                | inr k ↦ simp (e, l, a, n, m, k) stay
                | inl k ↦
                    simp (e, l, a, n, m, k)
                      (moved o record {
                        assigned = a;
                        movable = e;
                        balanced_level = l;
                        not_alone = ground (arith, n);
                        has_load = ground (arith, m);
                        lighter = k;
                      })
              ]
            ]
          ]
        ]
      ]
    ]
