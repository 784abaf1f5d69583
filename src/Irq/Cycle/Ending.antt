-- ===== src/Irq/Cycle/Ending.antt =====
-- How the main loop of irqbalance.c ends, and how it comes to a rescan.
use code_analyze.Prelude.{
  ℕ, suc, ◌≤◌, ◌≡◌, refl, true, false, Option, some, List, [], ◌∷◌, ◌++◌, length, ◌==◌, arith,
  Bool-cases, inl, inr, ap, subst,
}
use code_analyze.Irq.Types.{State}
use code_analyze.Irq.Proc.{ProcInts}
use code_analyze.Irq.Cycle.Rescan.{Emptied, SameTree, rescan-SameTree}
use code_analyze.Irq.Lists.{GList}
use code_analyze.Irq.Balance.{LongDouble}
use code_analyze.Irq.Load.{Jiffies}
use code_analyze.Irq.Cycle.Measured.{measure-OnlyLoads}
use code_analyze.Irq.Cycle.{
  Daemon, Inputs, state_of, handler, force_rescan, signals, measure, measured_state, rescan,
  build_object_tree, main_cycle, main_loop, Ended, finish, add_round,
}

-- The loop returns after a number of rounds.
pub record Ends (o : Option Ended) (rounds : ℕ) : Type 0 where
  pub ended : Ended
  pub returns : o ≡ some ended
  pub within : length ended.0 ≤ rounds

done : (d : Daemon) (n : ℕ) → length (finish d).0 ≤ n
unfolding finish
done d n = omega arith

force_rescan_goes : (d : Daemon) → (force_rescan d).keep_going ≡ d.keep_going
unfolding force_rescan
force_rescan_goes d = elim (Bool-cases ((state_of d).cycle_count == 0)) [
  | inl e ↦ simp (force_rescan, e) refl
  | inr e ↦ simp (force_rescan, e) refl
]

signals_stop : (i : Inputs) (d : Daemon) → i.interrupted ≡ true → (signals i d).keep_going ≡ false
unfolding signals handler
signals_stop i d h = elim (Bool-cases i.hangup) [
  | inl e ↦ simp (signals, h, e) (force_rescan_goes (handler d))
  | inr e ↦ simp (signals, h, e) refl
]

signals_ask :
    (i : Inputs) (d : Daemon)
    → ((state_of d).cycle_count == 0) ≡ false
    → i.hangup ≡ true
    → (state_of (signals i d)).need_rescan ≡ true
unfolding signals handler force_rescan
signals_ask i d c h = elim (Bool-cases i.interrupted) [
  | inl e ↦ simp (signals, force_rescan, c, h, e) refl
  | inr e ↦ simp (signals, force_rescan, c, h, e) refl
]

goes_to_rescan :
    (j : Jiffies) (i : Inputs) (d : Daemon)
    → ((state_of d).cycle_count == 0) ≡ false
    → i.hangup ≡ true
    → rescan j i (measure j i.measured (signals i d).ints) ≡ measured_state j i (signals i d)
unfolding measured_state
goes_to_rescan j i d c h =
    let asked = (measure-OnlyLoads j i.measured (signals i d).ints).asks (signals_ask i d c h) in
    simp (measured_state, asked) refl

-- After the first cycle, a round in which SIGHUP comes goes on, whatever the files of its measurement have,
-- with a tree and a database that build_object_tree makes from a state with no node, package, cache domain,
-- CPU or interrupt: the lists of objects, their children and masks, the list of interrupts and their numbers
-- are those.
pub hangup_rescans :
    (j : Jiffies) (i : Inputs) (d : Daemon)
    → ((state_of d).cycle_count == 0) ≡ false
    → i.hangup ≡ true
    → (e : State) × Emptied e
      × SameTree (build_object_tree i.sys i.collected e) (measured_state j i (signals i d)).state
hangup_rescans j i d c h =
    subst
      (λ (m : ProcInts).
        (e : State) × Emptied e × SameTree (build_object_tree i.sys i.collected e) m.state)
      (goes_to_rescan j i d c h) (rescan-SameTree j i (measure j i.measured (signals i d).ints))

module _ (f : LongDouble) (g : GList) (j : Jiffies) where
  stopped :
      (is : List Inputs) (d : Daemon) (n : ℕ) → d.keep_going ≡ false → Ends (main_loop f g j is d) n
  unfolding main_loop
  stopped [] d n h = record {
    ended = finish d;
    returns = simp (main_loop, h) refl;
    within = done d n;
  }
  stopped (i ∷ is) d n h = record {
    ended = finish d;
    returns = simp (main_loop, h) refl;
    within = done d n;
  }

  one_round :
      (i : Inputs) (is : List Inputs) (d : Daemon) (n : ℕ)
      → Ends (main_loop f g j is (main_cycle f g j i d).1) n
      → Ends (main_loop f g j (i ∷ is) d) (suc n)
  unfolding main_loop
  one_round i is d n v = elim (Bool-cases d.keep_going) [
    | inr h ↦ stopped (i ∷ is) d (suc n) h
    | inl h ↦ record {
      ended = ((main_cycle f g j i d).0 ∷ v.ended.0, v.ended.1);
      returns = simp (main_loop, h) (ap (add_round (main_cycle f g j i d).0) v.returns);
      within = omega (arith, v.within);
    }
  ]

  interrupted_stops :
      (i : Inputs) (d : Daemon) → i.interrupted ≡ true → (main_cycle f g j i d).1.keep_going ≡ false
  unfolding main_cycle
  interrupted_stops i d h = elim (Bool-cases (signals i d).one_shot_mode) [
    | inl o ↦ simp o refl
    | inr o ↦ simp o (signals_stop i d h)
  ]

  -- The loop returns with the round in which SIGINT comes, at the latest, whatever the rounds find.
  pub main_loop-Ends :
      (before : List Inputs) (i : Inputs) (after : List Inputs) (d : Daemon)
      → i.interrupted ≡ true
      → Ends (main_loop f g j (before ++ i ∷ after) d) (suc (length before))
  main_loop-Ends [] i after d h =
      one_round i after d 0 (stopped after _ 0 (interrupted_stops i d h))
  main_loop-Ends (b ∷ bs) i after d h =
      one_round b (bs ++ i ∷ after) d (suc (length bs)) (main_loop-Ends bs i after _ h)
