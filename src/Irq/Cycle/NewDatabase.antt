-- ===== src/Irq/Cycle/NewDatabase.antt =====
-- The database that is built, of classify.c, has no placed interrupt.
use code_analyze.Prelude.{
  ℕ, ◌≡◌, refl, Option, none, some, List, [], ◌∷◌, ◌==◌, arith, Bool-cases, Option-cases, inl, inr,
}
use code_analyze.Irq.Types.{Ptr, IrqInfo, State, IrqType}
use code_analyze.Irq.Lists.{find_irq}
use code_analyze.Irq.Db.{Outside, DevPath, alloc_irq, add_banned_irq, is_banned_irq, get_irq_info}
use code_analyze.Irq.Db.Policy.{UserIrqPolicy}
use code_analyze.Irq.Db.Add.{
  classify, describe, class_of, add_one_irq_to_db, override, override_irq, override_found,
  add_banned, add_allowed, add_new_irq, add_missing_irq,
}
use code_analyze.Irq.Db.Rebuild.{
  set_type, add_typed, add_dev_irq, add_msi_irqs, build_one_dev_entry, build_dev_entries,
  free_irq_db, add_missing_irqs, add_collected, rebuild_irq_db,
}
use code_analyze.Irq.Cycle.Bare.{Bare, set_irq-Bare, if-Bare, option-Bare}

-- The database.
pub alloc_irq-Bare :
    {Ban : ℕ → Type 0} (i : IrqInfo) (s : State)
    → i.assigned_obj ≡ none
    → Bare Ban s
    → Bare Ban (alloc_irq i s)
unfolding alloc_irq
alloc_irq-Bare i s e b =
    let t = set_irq-Bare s.next_irq i s (inl refl) e b in
    record {
      objs_empty = t.objs_empty;
      unassigned = t.unassigned;
      none_waits = t.none_waits;
      cl_old = λ p h. omega (arith, b.cl_old p h);
      bans = t.bans;
    }

add_banned_irq-Bare :
    {Ban : ℕ → Type 0} (n : ℕ) (s : State) → Bare Ban s → Bare Ban (add_banned_irq n s)
unfolding add_banned_irq
add_banned_irq-Bare n s b = elim (Option-cases (find_irq s.irqs n s.banned_irqs)) [
  | inl e ↦ simp (add_banned_irq, e) (alloc_irq-Bare _ s refl b)
  | inr (p, e) ↦ rw (add_banned_irq, e) b
]

classify_unassigned :
    (pol : UserIrqPolicy) (c : Option ℕ) (i : IrqInfo)
    → i.assigned_obj ≡ none
    → (classify pol c i).assigned_obj ≡ none
unfolding classify
classify_unassigned pol none i e = e
classify_unassigned pol (some c) i e = ground (arith, e)

add_one_irq_to_db-Bare :
    {Ban : ℕ → Type 0} (out : Outside) (path : DevPath) (n : ℕ) (pol : UserIrqPolicy) (s : State)
    → Bare Ban s
    → Bare Ban (add_one_irq_to_db out path n pol s).1
unfolding add_one_irq_to_db describe
add_one_irq_to_db-Bare out path n pol s b =
    elim (Option-cases (find_irq s.irqs n s.interrupts_db)) [
      | inr (p, e) ↦ rw (add_one_irq_to_db, e) b
      | inl e ↦ elim (Bool-cases (is_banned_irq n s)) [
        | inl f ↦ rw (add_one_irq_to_db, e, f) b
        | inr f ↦
            simp (add_one_irq_to_db, e, f)
              (alloc_irq-Bare (describe out path n pol s) s
                (classify_unassigned pol (class_of (out.class_file path)) _ refl) b)
      ]
    ]

override_unassigned :
    (hint : Option IrqInfo) (i : IrqInfo)
    → i.assigned_obj ≡ none
    → (override hint i).assigned_obj ≡ none
override_unassigned none i e = e
override_unassigned (some h) i e = e

override_number : (hint : Option IrqInfo) (i : IrqInfo) → (override hint i).irq ≡ i.irq
override_number none i = refl
override_number (some h) i = refl

override_found-Bare :
    {Ban : ℕ → Type 0} (hint : Option IrqInfo) (p : Option Ptr) (s : State)
    → Bare Ban s
    → Bare Ban (override_found hint p s)
unfolding override_found override_irq
override_found-Bare hint none s b = b
override_found-Bare hint (some p) s b =
    set_irq-Bare p _ s (inr (override_number hint (s.irqs p)))
      (override_unassigned hint (s.irqs p) (b.unassigned p)) b

set_type-Bare :
    {Ban : ℕ → Type 0} (t : IrqType) (p : Option Ptr) (s : State)
    → Bare Ban s
    → Bare Ban (set_type t p s)
unfolding set_type
set_type-Bare t none s b = b
set_type-Bare t (some p) s b = set_irq-Bare p _ s (inr refl) (b.unassigned p) b

add_new_irq-Bare :
    {Ban : ℕ → Type 0} (out : Outside) (n : ℕ) (hint : Option IrqInfo) (s : State)
    → Bare Ban s
    → Bare Ban (add_new_irq out n hint s)
unfolding add_new_irq add_banned add_allowed
add_new_irq-Bare out n hint s b = elim (Option-cases (get_irq_info n s)) [
  | inr (p, e) ↦ rw (add_new_irq, e) b
  | inl e ↦
      rw (add_new_irq, e)
        (if-Bare _ _ _ (override_found-Bare hint _ _ (add_banned_irq-Bare n s b))
          (override_found-Bare hint _ _ (add_one_irq_to_db-Bare out _ n _ s b)))
]

add_missing_irq-Bare :
    {Ban : ℕ → Type 0} (out : Outside) (i : IrqInfo) (s : State)
    → Bare Ban s
    → Bare Ban (add_missing_irq out i s)
unfolding add_missing_irq
add_missing_irq-Bare out i s b =
    option-Bare (get_irq_info i.irq s) _ _ (add_new_irq-Bare out i.irq (some i) s b) (λ p. b)

add_missing_irqs-Bare :
    {Ban : ℕ → Type 0} (out : Outside) (is : List IrqInfo) (s : State)
    → Bare Ban s
    → Bare Ban (add_missing_irqs out is s)
unfolding add_missing_irqs
add_missing_irqs-Bare out [] s b = b
add_missing_irqs-Bare out (i ∷ is) s b =
    add_missing_irqs-Bare out is _ (add_missing_irq-Bare out i s b)

add_dev_irq-Bare :
    {Ban : ℕ → Type 0} (out : Outside) (path ban_path : DevPath) (t : IrqType) (n : ℕ) (s : State)
    → Bare Ban s
    → Bare Ban (add_dev_irq out path ban_path t n s)
unfolding add_dev_irq add_typed
add_dev_irq-Bare out path ban_path t n s b = elim (Option-cases (get_irq_info n s)) [
  | inr (p, e) ↦ rw (add_dev_irq, e) (if-Bare (n == 0) _ _ b b)
  | inl e ↦
      rw (add_dev_irq, e)
        (if-Bare (n == 0) _ _ b (
          if-Bare _ _ _ (add_banned_irq-Bare n s b)
            (set_type-Bare t _ _ (add_one_irq_to_db-Bare out path n _ s b))))
]

add_msi_irqs-Bare :
    {Ban : ℕ → Type 0} (out : Outside) (path : DevPath) (ns : List ℕ) (s : State)
    → Bare Ban s
    → Bare Ban (add_msi_irqs out path ns s)
unfolding add_msi_irqs
add_msi_irqs-Bare out path [] s b = b
add_msi_irqs-Bare out path (n ∷ ns) s b =
    add_msi_irqs-Bare out path ns _ (add_dev_irq-Bare out path path _ n s b)

build_dev_entries-Bare :
    {Ban : ℕ → Type 0} (out : Outside) (ds : List ℕ) (s : State)
    → Bare Ban s
    → Bare Ban (build_dev_entries out ds s)
unfolding build_dev_entries build_one_dev_entry
build_dev_entries-Bare out [] s b = b
build_dev_entries-Bare out (d ∷ ds) s b = build_dev_entries-Bare out ds _ (
    option-Bare (out.msi_irqs d) _ _
      (option-Bare (out.irq_number d) _ _ b (λ n. add_dev_irq-Bare out _ _ _ n s b))
      (λ ns. add_msi_irqs-Bare out _ ns s b))

pub rebuild_irq_db-Bare :
    {Ban : ℕ → Type 0} (out : Outside) (tmp_irqs : List IrqInfo) (s : State)
    → Bare Ban s
    → Bare Ban (rebuild_irq_db out tmp_irqs s)
unfolding rebuild_irq_db free_irq_db add_collected
rebuild_irq_db-Bare out tmp_irqs s b =
    let f : Bare _ (free_irq_db s) = record {
      objs_empty = b.objs_empty;
      unassigned = b.unassigned;
      none_waits = refl;
      cl_old = b.cl_old;
      bans = b.bans;
    } in
    option-Bare out.devices _ _ f (λ ds. missing tmp_irqs _ (build_dev_entries-Bare out ds _ f))
  where
    missing :
        {Ban : ℕ → Type 0} (is : List IrqInfo) (t : State)
        → Bare Ban t
        → Bare Ban (add_collected out is t)
    missing [] t b = b
    missing (i ∷ is) t b = add_missing_irqs-Bare out (i ∷ is) t b
