-- ===== src/Irq/Balance/Ownership.antt =====
-- The migration and the ownership of interrupts.
use code_analyze.Prelude.{
  ◌<◌, ◌≡◌, ◌≢◌, refl, sym, subst, true, false, not, ◌&&◌, some, List, count, ltb, leb, ◌==◌, arith,
  length, ltb→lt, Bool-cases, Option-cases, inl, inr,
}
use code_analyze.Irq.Types.{Ptr, State, set_obj, ullong_max}
use code_analyze.Irq.Lists.{
  Place, rebalance, interrupts_of, get_list, for_each_irq, GList, sort_irq_list,
}
use code_analyze.Irq.Lists.Ownership.{Owned, move_others, assign}
use code_analyze.Irq.Lists.Kept.{
  Kept, Kept-refl, Kept-trans, KeptBody, for_each_object-Kept, for_each_irq-Kept, move-Kept,
  sort_irq_list-Kept, sort_irq_list-length, set_obj-Kept,
}
use code_analyze.Irq.Balance.Candidate.{candidate_cases}
use code_analyze.Irq.Balance.{
  LongDouble, Balancing, take_off, move_candidate_irqs, count_object, migrate_overloaded_irqs,
  force_irq_migration, clear_powersave_mode, load_stats, find_overloaded_objs, enter_powersave,
  update_powersave, wake_cpus, update_migration_status,
}

-- What one call may do to the lists of one interrupt.
record Left (p : Ptr) (s t : State) : Type 0 where
  kept : Kept s t
  others : (at : Place) (q : Ptr) → q ≢ p → count q (get_list at t) ≡ count q (get_list at s)

Left-refl : (p : Ptr) (s : State) → Owned s → Left p s s
Left-refl p s v = record { kept = Kept-refl s v; others = λ at q ne. refl }

take_off-Left :
    (o p : Ptr) (s : State)
    → Owned s
    → 0 < count p (get_list (interrupts_of o) s)
    → Left p s (take_off o p s)
unfolding take_off assign
take_off-Left o p s v h = record {
  kept = move-Kept s (interrupts_of o) rebalance p v h;
  others = λ at q ne. move_others s (interrupts_of o) rebalance p v h at q ne;
}

-- An interrupt on the list of an object has the object as its `assigned_obj`.
owner_eq :
    (o p : Ptr) (s : State)
    → Owned s
    → 0 < count p (get_list (interrupts_of o) s)
    → (s.irqs p).assigned_obj ≡ some o
owner_eq o p s v h = v.owner (interrupts_of o) p h

forced :
    (o p : Ptr) (s : State)
    → (s.irqs p).assigned_obj ≡ some o
    → force_irq_migration p s ≡ take_off o p s
unfolding force_irq_migration
forced o p s e = rw (e, force_irq_migration) refl

force-Left :
    (o p : Ptr) (s : State)
    → Owned s
    → 0 < count p (get_list (interrupts_of o) s)
    → Left p s (force_irq_migration p s)
force-Left o p s v h =
    subst (Left p s) (sym (forced o p s (owner_eq o p s v h))) (take_off-Left o p s v h)

module _ {V : Type 0} where
  candidate-Left :
      (o p : Ptr) (b : Balancing V)
      → Owned b.state
      → 0 < count p (get_list (interrupts_of o) b.state)
      → Left p b.state (move_candidate_irqs p b).state
  candidate-Left o p b v h =
      candidate_cases (λ c. Left p b.state c.state) p b (Left-refl p b.state v)
        (λ e. absurd (ground (arith, e, owner_eq o p b.state v h)))
        (λ d run. take_off-Left d p b.state v (
          subst (λ x. 0 < count p (get_list (interrupts_of x) b.state))
            (ground (arith, run.assigned, owner_eq o p b.state v h)) h))

module _ (f : LongDouble) (g : GList) where
  candidate_body :
      (o : Ptr)
      → KeptBody {S = Balancing f.Value} (λ b. b.state) (interrupts_of o) move_candidate_irqs
  candidate_body o = record {
    kept = λ p b v h. (candidate-Left o p b v h).kept;
    others = λ p b v h. (candidate-Left o p b v h).others;
  }

  migrate_overloaded_irqs-Kept :
      (o : Ptr) (b : Balancing f.Value)
      → Owned b.state
      → Kept b.state (migrate_overloaded_irqs f g o b).state
  unfolding migrate_overloaded_irqs get_list
  migrate_overloaded_irqs-Kept o b v =
      let obj = b.state.objs o in
      let info = count_object f b.state o b.lb in
      let s = sort_irq_list g (interrupts_of o) b.state in
      let sorted = sort_irq_list-Kept g (interrupts_of o) b.state v in
      elim (Bool-cases (ltb info.min_load obj.load && ltb 1 (length obj.interrupts))) [
        | inr e ↦ simp e (Kept-refl b.state v)
        | inl e ↦ simp e (
            Kept-trans b.state s
              (for_each_irq s.interrupts_db (s.objs o).interrupts move_candidate_irqs
                (record { lb = record info { adjustment_load = obj.load }; state = s })).state
              sorted
              (for_each_irq-Kept (λ c. c.state) (interrupts_of o) move_candidate_irqs
                (candidate_body o) s.interrupts_db (s.objs o).interrupts
                (record { lb = record info { adjustment_load = obj.load }; state = s }) sorted.owned
                refl (sort_irq_list-length g (interrupts_of o) b.state (ground (arith, e)))))
      ]

  find_overloaded_objs-Kept :
      (name : List Ptr) (s : State) → Owned s → Kept s (find_overloaded_objs f g name s).state
  unfolding find_overloaded_objs
  find_overloaded_objs-Kept name s v =
      for_each_object-Kept (λ b. b.state) (migrate_overloaded_irqs f g) migrate_overloaded_irqs-Kept
        name (record { lb = load_stats f name s; state = s }) v

clear_powersave_mode-Kept : (o : Ptr) (s : State) → Owned s → Kept s (clear_powersave_mode o s)
unfolding clear_powersave_mode
clear_powersave_mode-Kept o s v =
    set_obj-Kept o (record (s.objs o) { powersave_mode = false }) s refl v

force_body : (o : Ptr) → KeptBody (λ s. s) (interrupts_of o) force_irq_migration
force_body o = record {
  kept = λ p s v h. (force-Left o p s v h).kept;
  others = λ p s v h. (force-Left o p s v h).others;
}

enter_powersave-Kept : (o : Ptr) (s : State) → Owned s → Kept s (enter_powersave o s)
unfolding enter_powersave get_list
enter_powersave-Kept o s v =
    let t = set_obj o (record (s.objs o) { powersave_mode = true }) s in
    let set = set_obj-Kept o (record (s.objs o) { powersave_mode = true }) s refl v in
    elim (Bool-cases (ltb 0 (length (t.objs o).interrupts))) [
      | inl e ↦ simp e (
          Kept-trans s t (for_each_irq t.interrupts_db (t.objs o).interrupts force_irq_migration t)
            set
            (for_each_irq-Kept (λ x. x) (interrupts_of o) force_irq_migration (force_body o)
              t.interrupts_db (t.objs o).interrupts t set.owned refl
              (ltb→lt 0 (length (t.objs o).interrupts) e)))
      | inr e ↦ simp e set
    ]

module _ {V : Type 0} where
  wake_cpus-Kept : (b : Balancing V) → Owned b.state → Kept b.state (wake_cpus b)
  unfolding wake_cpus
  wake_cpus-Kept b v =
      elim (Bool-cases (not (b.lb.num_over == 0) && not (b.lb.num_powersave == 0))) [
        | inl e ↦ simp e (
            for_each_object-Kept (λ s. s) clear_powersave_mode clear_powersave_mode-Kept
              b.state.cpus b.state v)
        | inr e ↦ simp e (Kept-refl b.state v)
      ]

  update_powersave-Kept : (b : Balancing V) → Owned b.state → Kept b.state (update_powersave b)
  unfolding update_powersave
  update_powersave-Kept b v =
      elim (Bool-cases (not (b.state.power_thresh == ullong_max) && ltb 5 b.state.cycle_count)) [
        | inr e ↦ simp e (Kept-refl b.state v)
        | inl e ↦ elim (Option-cases b.lb.powersave) [
          | inl nobody ↦ simp (e, nobody) (wake_cpus-Kept b v)
          | inr (o, is_o) ↦
              elim (Bool-cases (b.lb.num_over == 0 && leb b.state.power_thresh b.lb.num_under)) [
                | inl sleep ↦ simp (e, is_o, sleep) (enter_powersave-Kept o b.state v)
                | inr stay ↦ simp (e, is_o, stay) (wake_cpus-Kept b v)
              ]
        ]
      ]

-- update_migration_status keeps ownership intact, and every interrupt that was on a list is on one: it
-- stays on its object, or it is on the rebalance list with no `assigned_obj`. The power save decision
-- and the order of the tree's levels are included.
pub update_migration_status-Kept :
    (f : LongDouble) (g : GList) (s : State) → Owned s → Kept s (update_migration_status f g s)
unfolding update_migration_status
update_migration_status-Kept f g s v =
    let of_cpus = find_overloaded_objs f g s.cpus s in
    let a = update_powersave of_cpus in
    let b = (find_overloaded_objs f g a.cache_domains a).state in
    let c = (find_overloaded_objs f g b.packages b).state in
    let d = (find_overloaded_objs f g c.numa_nodes c).state in
    let s_kept = find_overloaded_objs-Kept f g s.cpus s v in
    let a_kept = update_powersave-Kept of_cpus s_kept.owned in
    let b_kept = find_overloaded_objs-Kept f g a.cache_domains a a_kept.owned in
    let c_kept = find_overloaded_objs-Kept f g b.packages b b_kept.owned in
    let d_kept = find_overloaded_objs-Kept f g c.numa_nodes c c_kept.owned in
    Kept-trans s of_cpus.state d s_kept (
      Kept-trans of_cpus.state a d a_kept
        (Kept-trans a b d b_kept (Kept-trans b c d c_kept d_kept)))
