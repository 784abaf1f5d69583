-- ===== src/Irq/Db/Complete.antt =====
-- Building the database from sysfs and /proc/interrupts: well formed and complete.
use code_analyze.Prelude.{
  ℕ, ◌<◌, ◌≡◌, refl, sym, ap, subst, ◌||◌, Option, none, some, List, [], ◌∷◌, count, All, ◌==◌,
  arith, Bool-cases, Option-cases, inl, inr,
}
use code_analyze.Irq.Types.{Ptr, IrqType, IrqInfo, State, set_irq, legacy, msix}
use code_analyze.Irq.Lists.{find_irq}
use code_analyze.Irq.Db.{DevPath, sys, device, irq_file, Outside, add_banned_irq, get_irq_info}
use code_analyze.Irq.Db.Add.{
  add_one_irq_to_db, get_irq_user_policy, check_for_irq_ban, is_banned, override_found, add_banned,
  add_allowed, add_new_irq, add_missing_irq,
}
use code_analyze.Irq.Db.Rebuild.{
  set_type, add_typed, add_dev_irq, add_msi_irqs, build_one_dev_entry, build_dev_entries,
  free_irq_db, add_missing_irqs, add_collected, rebuild_irq_db,
}
use code_analyze.Irq.Db.Valid.{known, DbValid, Known, Grown, Grown-refl, Grown-trans, set_irq-Grown}
use code_analyze.Irq.Db.Grown.{
  Known-found, Known-at, found_Known, add_banned_irq-Grown, add_one-Grown, override_found-Grown,
  not_cl_banned,
}

module _ (out : Outside) where
  override_found_known :
      (n : ℕ) (hint : Option IrqInfo) (o : Option Ptr) (p : Ptr) (s t : State)
      → o ≡ some p
      → Grown s t
      → 0 < count p (known t)
      → ((h : IrqInfo) → hint ≡ some h → h.class < 8)
      → Known n t
      → Grown s (override_found hint o t) × Known n (override_found hint o t)
  override_found_known n hint o p s t e grown h ok is_known =
      let after = override_found-Grown hint p t grown.valid h ok in
      subst (λ x. Grown s (override_found hint x t) × Known n (override_found hint x t)) (sym e)
        (Grown-trans s t (override_found hint (some p) t) grown after, after.known_still n is_known)

  module _ (n : ℕ) (hint : Option IrqInfo) (s : State) (v : DbValid s)
      (ok : (h : IrqInfo) → hint ≡ some h → h.class < 8) where
    add_banned-Grown :
        get_irq_info n s ≡ none → Grown s (add_banned n hint s) × Known n (add_banned n hint s)
    unfolding add_banned
    add_banned-Grown new =
        let t = add_banned_irq n s in
        let grown = add_banned_irq-Grown n s v new in
        let found = Known-found n t grown.1 in
        override_found_known n hint (get_irq_info n t) found.0 s t found.1 grown.0
          (found_Known n t found.0 found.1).0 ok grown.1

    add_allowed-Grown :
        get_irq_info n s ≡ none
        → find_irq s.irqs n s.cl_banned_irqs ≡ none
        → Grown s (add_allowed out n hint s) × Known n (add_allowed out n hint s)
    unfolding add_allowed
    add_allowed-Grown new cl =
        let pol = get_irq_user_policy out sys n s in
        let r = add_one_irq_to_db out sys n pol s in
        let grown = add_one-Grown n s v new out sys pol cl in
        override_found_known n hint r.0 s.next_irq s r.1 grown.2 grown.0 grown.3 ok grown.1

    -- add_new_irq keeps the database well formed, and afterwards the number is known.
    pub add_new_irq-Grown : Grown s (add_new_irq out n hint s) × Known n (add_new_irq out n hint s)
    unfolding add_new_irq
    add_new_irq-Grown = elim (Option-cases (get_irq_info n s)) [
      | inr (p, found) ↦ simp (found, add_new_irq) (Grown-refl s v, Known-at n s p found)
      | inl new ↦
          elim (Bool-cases
            (is_banned (get_irq_user_policy out sys n s).ban || check_for_irq_ban out none n s)) [
              | inl ban ↦ simp (new, ban, add_new_irq) (add_banned-Grown new)
              | inr free ↦
                  simp (new, free, add_new_irq)
                    (add_allowed-Grown new (not_cl_banned out none n s (ground (arith, free))))
            ]
    ]

  abbrev class_or : IrqInfo → Option IrqInfo → ℕ
  class_or i none = i.class
  class_or i (some h) = h.class

  add_missing_irq-Grown :
      (info : IrqInfo) (s : State)
      → DbValid s
      → info.class < 8
      → Grown s (add_missing_irq out info s) × Known info.irq (add_missing_irq out info s)
  unfolding add_missing_irq
  add_missing_irq-Grown info s v ok = elim (Option-cases (get_irq_info info.irq s)) [
    | inr (p, found) ↦ simp (found, add_missing_irq) (Grown-refl s v, Known-at info.irq s p found)
    | inl new ↦
        let same : add_missing_irq out info s ≡ add_new_irq out info.irq (some info) s =
          rw (new, add_missing_irq) refl in
        subst (λ t. Grown s t × Known info.irq t) (sym same)
          (add_new_irq-Grown info.irq (some info) s v
            (λ h e. subst (λ c. c < 8) (ap (class_or info) e) ok))
  ]

  add_missing_irqs-Grown :
      (l : List IrqInfo) (s : State)
      → DbValid s
      → All (λ i. i.class < 8) l
      → Grown s (add_missing_irqs out l s) × All (λ i. Known i.irq (add_missing_irqs out l s)) l
  unfolding add_missing_irqs
  add_missing_irqs-Grown [] s v ok = (Grown-refl s v, tt)
  add_missing_irqs-Grown (i ∷ is) s v ok =
      let t = add_missing_irq out i s in
      let first = add_missing_irq-Grown i s v ok.0 in
      let rest = add_missing_irqs-Grown is t first.0.valid ok.1 in
      (
        Grown-trans s t (add_missing_irqs out is t) first.0 rest.0,
        (rest.0.known_still i.irq first.1, rest.1),
      )

  set_type-Grown :
      (t : IrqType) (p : Ptr) (o : Option Ptr) (s u : State)
      → o ≡ some p
      → Grown s u
      → 0 < count p (known u)
      → Grown s (set_type t o u)
  unfolding set_type
  set_type-Grown t p o s u e grown h =
      subst (λ x. Grown s (set_type t x u)) (sym e)
        (Grown-trans s u (set_irq p (record (u.irqs p) { irq_type = t }) u) grown (
          set_irq-Grown p (record (u.irqs p) { irq_type = t }) u grown.valid h refl refl
            (grown.valid.classes p h)))

  add_typed-Grown :
      (devpath : DevPath) (t : IrqType) (n : ℕ) (s : State)
      → DbValid s
      → get_irq_info n s ≡ none
      → find_irq s.irqs n s.cl_banned_irqs ≡ none
      → Grown s (add_typed out devpath t n s)
  unfolding add_typed
  add_typed-Grown devpath t n s v new cl =
      let pol = get_irq_user_policy out devpath n s in
      let r = add_one_irq_to_db out devpath n pol s in
      let grown = add_one-Grown n s v new out devpath pol cl in
      set_type-Grown t s.next_irq r.0 s r.1 grown.2 grown.0 grown.3

  add_dev_irq-Grown :
      (devpath ban_path : DevPath) (t : IrqType) (n : ℕ) (s : State)
      → DbValid s
      → Grown s (add_dev_irq out devpath ban_path t n s)
  unfolding add_dev_irq
  add_dev_irq-Grown devpath ban_path t n s v = elim (Bool-cases (n == 0)) [
    | inl z ↦ simp z (Grown-refl s v)
    | inr nz ↦ elim (Option-cases (get_irq_info n s)) [
      | inr (p, found) ↦ simp (nz, found) (Grown-refl s v)
      | inl new ↦
          elim (Bool-cases (
            is_banned (get_irq_user_policy out devpath n s).ban
            || check_for_irq_ban out (some ban_path) n s)) [
              | inl ban ↦ simp (nz, new, ban) (add_banned_irq-Grown n s v new).0
              | inr free ↦
                  simp (nz, new, free)
                    (add_typed-Grown devpath t n s v new
                      (not_cl_banned out (some ban_path) n s (ground (arith, free))))
            ]
    ]
  ]

  add_msi_irqs-Grown :
      (devpath : DevPath) (ns : List ℕ) (s : State)
      → DbValid s
      → Grown s (add_msi_irqs out devpath ns s)
  unfolding add_msi_irqs
  add_msi_irqs-Grown devpath [] s v = Grown-refl s v
  add_msi_irqs-Grown devpath (n ∷ ns) s v =
      let t = add_dev_irq out devpath devpath msix n s in
      let first = add_dev_irq-Grown devpath devpath msix n s v in
      Grown-trans s t (add_msi_irqs out devpath ns t) first
        (add_msi_irqs-Grown devpath ns t first.valid)

  build_one_dev_entry-Grown :
      (d : ℕ) (s : State) → DbValid s → Grown s (build_one_dev_entry out d s)
  unfolding build_one_dev_entry
  build_one_dev_entry-Grown d s v = elim (Option-cases (out.msi_irqs d)) [
    | inr (ns, msi) ↦ simp (msi, build_one_dev_entry) (add_msi_irqs-Grown (device d) ns s v)
    | inl no_msi ↦ elim (Option-cases (out.irq_number d)) [
      | inl e ↦
          let same : build_one_dev_entry out d s ≡ s =
            rw (no_msi, build_one_dev_entry) (rw e refl) in
          subst (Grown s) (sym same) (Grown-refl s v)
      | inr (n, e) ↦
          let same : build_one_dev_entry out d s
              ≡ add_dev_irq out (device d) (irq_file d) legacy n s =
            rw (no_msi, build_one_dev_entry) (rw e refl) in
          subst (Grown s) (sym same) (add_dev_irq-Grown (device d) (irq_file d) legacy n s v)
    ]
  ]

  build_dev_entries-Grown :
      (ds : List ℕ) (s : State) → DbValid s → Grown s (build_dev_entries out ds s)
  unfolding build_dev_entries
  build_dev_entries-Grown [] s v = Grown-refl s v
  build_dev_entries-Grown (d ∷ ds) s v =
      let t = build_one_dev_entry out d s in
      let first = build_one_dev_entry-Grown d s v in
      Grown-trans s t (build_dev_entries out ds t) first (build_dev_entries-Grown ds t first.valid)

freed_valid :
    (s : State)
    → ((p : Ptr) → 0 < count p s.cl_banned_irqs → p < s.next_irq)
    → DbValid (free_irq_db s)
unfolding free_irq_db
freed_valid s cl = record {
  old = λ p h. absurd (omega arith);
  once = λ p. omega arith;
  distinct = λ p q hp hq e. absurd (omega arith);
  allowed = λ p h. absurd (omega arith);
  classes = λ p h. absurd (omega arith);
  cl_old = λ p h. (cl p h, refl);
  cl_apart = λ p q hp hq. absurd (omega arith);
}

add_collected-Grown :
    (out : Outside) (l : List IrqInfo) (s : State)
    → DbValid s
    → All (λ i. i.class < 8) l
    → Grown s (add_collected out l s) × All (λ i. Known i.irq (add_collected out l s)) l
unfolding add_collected
add_collected-Grown out [] s v ok = (Grown-refl s v, tt)
add_collected-Grown out (i ∷ is) s v ok = add_missing_irqs-Grown out (i ∷ is) s v ok

All-found :
    (s : State) (l : List IrqInfo)
    → All (λ i. Known i.irq s) l
    → All (λ i. (p : Ptr) × (get_irq_info i.irq s ≡ some p)) l
All-found s [] a = tt
All-found s (i ∷ is) a = (Known-found i.irq s a.0, All-found s is a.1)

-- rebuild_irq_db makes a well-formed database from whatever state, when the addresses of the
-- interrupts banned on the command line have been given out and the classes of the interrupts of
-- /proc/interrupts are those that the code assigns: no two interrupts have the same number, none in
-- the database is banned, and every class has a level. Where the devices can be listed, get_irq_info
-- then finds every interrupt of /proc/interrupts.
pub rebuild_irq_db-DbValid :
    (out : Outside) (tmp_irqs : List IrqInfo) (s : State)
    → ((p : Ptr) → 0 < count p s.cl_banned_irqs → p < s.next_irq)
    → All (λ i. i.class < 8) tmp_irqs
    → DbValid (rebuild_irq_db out tmp_irqs s)
      × ((ds : List ℕ)
          → out.devices ≡ some ds
          → All
              (λ i. (p : Ptr) × (get_irq_info i.irq (rebuild_irq_db out tmp_irqs s) ≡ some p))
              tmp_irqs)
unfolding rebuild_irq_db
rebuild_irq_db-DbValid out tmp_irqs s cl ok = elim (Option-cases out.devices) [
  | inl nothing ↦ (
    subst DbValid (sym (no_devices nothing)) (freed_valid s cl),
    λ ds e. absurd (ground (arith, nothing, e)),
  )
  | inr (ds, e) ↦
      let f = free_irq_db s in
      let built = build_dev_entries out ds f in
      let building = build_dev_entries-Grown out ds f (freed_valid s cl) in
      let adding = add_collected-Grown out tmp_irqs built building.valid ok in
      (
        subst DbValid (sym (devices ds e)) adding.0.valid,
        λ ds2 e2.
            subst (λ t. All (λ i. (p : Ptr) × (get_irq_info i.irq t ≡ some p)) tmp_irqs)
              (sym (devices ds e)) (All-found (add_collected out tmp_irqs built) tmp_irqs adding.1),
      )
]
  where
    no_devices : out.devices ≡ none → rebuild_irq_db out tmp_irqs s ≡ free_irq_db s
    no_devices e = rw (e, rebuild_irq_db) refl

    devices :
        (ds : List ℕ)
        → out.devices ≡ some ds
        → rebuild_irq_db out tmp_irqs s
          ≡ add_collected out tmp_irqs (build_dev_entries out ds (free_irq_db s))
    devices ds e = simp (e, rebuild_irq_db)
