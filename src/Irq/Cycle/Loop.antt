-- ===== src/Irq/Cycle/Loop.antt =====
-- The states that the main loop of irqbalance.c reaches from the start of main up to the first rescan.
use code_analyze.Prelude.{
  ℕ, ◌+◌, ◌%◌, ◌<◌, ◌≡◌, refl, Bool, true, subst, false, List, [], ◌∷◌, count, ◌==◌, if◌then◌else◌,
  arith, Bool-cases, inl, inr, ℕ_discrete, ltb, Option, some,
}
use code_analyze.Irq.Cpumask.{Cpumask}
use code_analyze.Irq.Types.{Ptr, State, u64_mod, balance_none}
use code_analyze.Irq.Lists.{
  Place, rebalance, interrupts_of, get_list, for_each, for_each_irq, GList,
}
use code_analyze.Irq.Lists.Ownership.{Owned}
use code_analyze.Irq.Lists.Kept.{Listed, Kept, Kept-refl, Kept-trans, same-Kept}
use code_analyze.Irq.Balance.{LongDouble, update_migration_status}
use code_analyze.Irq.Balance.Ownership.{update_migration_status-Kept}
use code_analyze.Irq.Placement.{calculate_placement}
use code_analyze.Irq.Placement.Ownership.{calculate_placement-Kept}
use code_analyze.Irq.Activate.{
  Affinity, Activating, write_mask, activate_mapping, activate_mappings,
}
use code_analyze.Irq.Activate.Written.{activate_mapping_cases}
use code_analyze.Irq.Load.{Jiffies}
use code_analyze.Irq.Load.Shape.{OnlyLoads, OnlyLoads-refl, OnlyLoads-trans, OnlyLoads-Kept}
use code_analyze.Irq.Cycle.Measured.{measure-OnlyLoads, parse_proc-OnlyLoads}
use code_analyze.Irq.Cycle.{
  Daemon, Inputs, ProcFiles, state_of, handler, force_rescan, signals, measured_state, main_cycle,
  first_measured, force_rebalance_all, Sysfs, set_state, start, build_object_tree, measure,
  rebalance_cycle,
}
use code_analyze.Irq.Text.{Bytes}
use code_analyze.Irq.Cycle.Bare.{Bare}
use code_analyze.Irq.Cycle.Built.{build_object_tree-Fresh}
use code_analyze.Irq.Cycle.Start.{Fresh, force_rebalance_all-Owned}

write_mask-Kept :
    (p : Ptr) (m : Cpumask) (a : Activating) → Owned a.state → Kept a.state (write_mask p m a).state
unfolding write_mask get_list
write_mask-Kept p m a v = same-Kept a.state (write_mask p m a).state lists irqs (λ q. refl) v
  where
    lists :
        (at : Place) (q : Ptr)
        → count q (get_list at (write_mask p m a).state) ≡ count q (get_list at a.state)
    lists rebalance q = refl
    lists (interrupts_of o) q = refl

    irqs :
        (q : Ptr)
        → (((write_mask p m a).state.irqs q).irq ≡ (a.state.irqs q).irq)
          × (((write_mask p m a).state.irqs q).assigned_obj ≡ (a.state.irqs q).assigned_obj)
    irqs q = elim (ℕ_discrete q p) [
      | yes e ↦ (ground arith, ground arith)
      | no ne ↦ (ground arith, ground arith)
    ]

activate-Kept :
    (files : Affinity) (l : List Ptr) (a : Activating)
    → Owned a.state
    → Kept a.state (for_each l (activate_mapping files) a).state
unfolding for_each
activate-Kept files [] a v = Kept-refl a.state v
activate-Kept files (p ∷ ps) a v =
    let step : Kept a.state (activate_mapping files p a).state =
      activate_mapping_cases files (λ b. Kept a.state b.state) p a (Kept-refl a.state v)
        (λ m moved may. write_mask-Kept p m a v) in
    Kept-trans _ _ _ step (activate-Kept files ps (activate_mapping files p a) step.owned)

activate_mappings-Kept :
    (files : Affinity) (a : Activating)
    → Owned a.state
    → Kept a.state (activate_mappings files a).state
unfolding activate_mappings for_each_irq
activate_mappings-Kept files a v = activate-Kept files a.state.interrupts_db a v

count_cycle-Kept : (n : ℕ) (s t : State) → Kept s t → Kept s (record t { cycle_count = n })
unfolding get_list
count_cycle-Kept n s t k =
    Kept-trans s t (record t { cycle_count = n }) k
      (same-Kept t (record t { cycle_count = n }) lists (λ q. (refl, refl)) (λ q. refl) k.owned)
  where
    lists :
        (at : Place) (q : Ptr)
        → count q (get_list at (record t { cycle_count = n })) ≡ count q (get_list at t)
    lists rebalance q = refl
    lists (interrupts_of o) q = refl

update-Kept :
    (f : LongDouble) (g : GList) (a : State)
    → Owned a
    → Kept a (if a.cycle_count == 0 then a else update_migration_status f g a)
update-Kept f g a v = elim (Bool-cases (a.cycle_count == 0)) [
  | inl e ↦ rw e (Kept-refl a v)
  | inr e ↦ rw e (update_migration_status-Kept f g a v)
]

-- The rest of a cycle keeps the agreement of the lists with the assignments, and every interrupt that was
-- on a list is on a list after it.
pub rebalance_cycle-Kept :
    (f : LongDouble) (g : GList) (files : Affinity) (a : State)
    → Owned a
    → Kept a (rebalance_cycle f g files a).1
unfolding rebalance_cycle
rebalance_cycle-Kept f g files a v =
    let b = if a.cycle_count == 0 then a else update_migration_status f g a in
    let c = calculate_placement g b in
    let d = activate_mappings files record { state = c; written = [] } in
    let b_kept = update-Kept f g a v in
    let c_kept = calculate_placement-Kept g b b_kept.owned in
    let d_kept = activate_mappings-Kept files (record { state = c; written = [] }) c_kept.owned in
    count_cycle-Kept ((d.state.cycle_count + 1) % u64_mod) a d.state
      (Kept-trans a b d.state b_kept (Kept-trans b c d.state c_kept d_kept))

force_rescan-OnlyLoads : (d : Daemon) → OnlyLoads (state_of d) (state_of (force_rescan d))
unfolding force_rescan
force_rescan-OnlyLoads d = elim (Bool-cases ((state_of d).cycle_count == 0)) [
  | inl e ↦ rw (force_rescan, e) (OnlyLoads-refl (state_of d))
  | inr e ↦
      simp (force_rescan, e)
        record { rest = refl; asks = λ h. refl; objs_same = λ o. refl; irqs_same = λ q. refl }
]

handled : (b : Bool) (d : Daemon) → state_of (if b then handler d else d) ≡ state_of d
unfolding handler
handled true d = refl
handled false d = refl

signals-OnlyLoads : (i : Inputs) (d : Daemon) → OnlyLoads (state_of d) (state_of (signals i d))
unfolding signals
signals-OnlyLoads i d =
    let e = if i.interrupted then handler d else d in
    subst (λ s. OnlyLoads s (state_of (signals i d))) (handled i.interrupted d)
      (elim (Bool-cases i.hangup) [
        | inl h ↦ rw (signals, h) (force_rescan-OnlyLoads e)
        | inr h ↦ rw (signals, h) (OnlyLoads-refl (state_of e))
      ])

-- The state with which a cycle goes on, where nothing asks for a rescan.
measured-OnlyLoads :
    (j : Jiffies) (i : Inputs) (d : Daemon)
    → (measure j i.measured d.ints).state.need_rescan ≡ false
    → OnlyLoads (state_of d) (measured_state j i d).state
unfolding measured_state
measured-OnlyLoads j i d h = simp (measured_state, h) (measure-OnlyLoads j i.measured d.ints)

main_cycle-Kept :
    (f : LongDouble) (g : GList) (j : Jiffies) (i : Inputs) (d : Daemon)
    → (measure j i.measured (signals i d).ints).state.need_rescan ≡ false
    → Owned (state_of d)
    → Kept (state_of d) (state_of (main_cycle f g j i d).1)
unfolding main_cycle
main_cycle-Kept f g j i d h v =
    let m = (measured_state j i (signals i d)).state in
    let loads =
      OnlyLoads-trans _ _ m (signals-OnlyLoads i d) (measured-OnlyLoads j i (signals i d) h) in
    let kept = OnlyLoads-Kept (state_of d) m loads v in
    Kept-trans (state_of d) m _ kept (rebalance_cycle-Kept f g i.affinity m kept.owned)

-- The states of the daemon from the one before the loop on, over what its cycles find outside, up to the
-- first measurement that asks for a rescan.
pub data Reached (f : LongDouble) (g : GList) (j : Jiffies) (d : Daemon) : Daemon → Type 0 where
  begun : Reached f g j d d
  cycled :
      {e : Daemon} (i : Inputs)
      → (measure j i.measured (signals i e).ints).state.need_rescan ≡ false
      → Reached f g j d e
      → Reached f g j d (main_cycle f g j i e).1

first_measured-Kept :
    (j : Jiffies) (files : ProcFiles) (d : Daemon)
    → Fresh (state_of d)
    → Kept (force_rebalance_all (state_of d)) (state_of (first_measured j files d))
unfolding first_measured
first_measured-Kept j files d v =
    OnlyLoads-Kept (force_rebalance_all (state_of d)) _
      (parse_proc-OnlyLoads j files (record (d.ints) { state = force_rebalance_all (state_of d) }))
      (force_rebalance_all-Owned (state_of d) v).0

start-Listed :
    (s : State)
    → Fresh s
    → (p : Ptr) → 0 < count p s.interrupts_db
    → ((s.irqs p).level == balance_none) ≡ false
    → Listed p (force_rebalance_all s)
unfolding Listed get_list force_rebalance_all
start-Listed s v p h l = (rebalance, (force_rebalance_all-Owned s v).1 p h l)

Reached-Kept :
    (f : LongDouble) (g : GList) (j : Jiffies) (d e : Daemon)
    → Owned (state_of d)
    → Reached f g j d e
    → Kept (state_of d) (state_of e)
Reached-Kept f g j d _ v begun = Kept-refl (state_of d) v
Reached-Kept f g j d _ v (cycled {e = u} i calm r) =
    let before = Reached-Kept f g j d u v r in
    Kept-trans _ (state_of u) _ before (main_cycle-Kept f g j i u calm before.owned)

-- Where the start does not exit, the loop begins with the first measurement of what is built.
started :
    (j : Jiffies) (sys : Sysfs) (table : Option (List Bytes)) (files : ProcFiles) (d e : Daemon)
    → start j sys table files d ≡ some e
    → first_measured j files (set_state (build_object_tree sys table (state_of d)) d) ≡ e
unfolding start
started j sys table files d e h =
    elim (Bool-cases (ltb (build_object_tree sys table (state_of d)).core_count 2)) [
      | inl few ↦ absurd (ground (arith, h, few))
      | inr enough ↦ ground (arith, h, enough)
    ]

-- From a state in which no interrupt is placed and the interrupts banned on the command line have been
-- allocated, in every state that the loop reaches from the start of main up to the first measurement that
-- asks for a rescan the lists and the assignments agree, and every interrupt of the database that was built
-- whose level was not BALANCE_NONE is on a list.
pub Reached-Owned :
    {Ban : ℕ → Type 0} (f : LongDouble) (g : GList) (j : Jiffies) (sys : Sysfs)
    (table : Option (List Bytes)) (files : ProcFiles) (d e u : Daemon)
    → Bare Ban (state_of d)
    → start j sys table files d ≡ some e
    → Reached f g j e u
    → Owned (state_of u)
      × ((p : Ptr)
          → 0 < count p (build_object_tree sys table (state_of d)).interrupts_db
          → (((build_object_tree sys table (state_of d)).irqs p).level == balance_none) ≡ false
          → Listed p (state_of u))
Reached-Owned f g j sys table files d e u bare h r =
    let b = build_object_tree sys table (state_of d) in
    let fresh = build_object_tree-Fresh sys table (state_of d) bare in
    let first : Kept (force_rebalance_all b) (state_of e) =
      subst (λ x. Kept (force_rebalance_all b) (state_of x)) (started j sys table files d e h)
        (first_measured-Kept j files (set_state b d) fresh) in
    let k = Kept-trans _ (state_of e) _ first (Reached-Kept f g j e u first.owned r) in
    (k.owned, λ p listed l. k.listed p (start-Listed b fresh p listed l))
