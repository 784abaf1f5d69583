-- ===== src/Irq/Activate/Written.antt =====
-- What activate_mappings writes.
use code_analyze.Prelude.{
  ℕ, ◌≡◌, ◌⊎◌, refl, sym, ap, ◌∙◌, subst, Bool, true, false, not, ◌&&◌, some, List, [], ◌∷◌, All,
  arith, ℕ_discrete, Bool-cases, Option-cases, inl, inr, update_self, update_ne,
}
use code_analyze.Irq.Cpumask.{Cpumask, cpus_empty, cpus_and, cpus_intersects}
use code_analyze.Irq.Types.{
  Ptr, IrqInfo, HintPolicy, exact, subset, ignore, State, set_irq, is_exact, is_subset,
}
use code_analyze.Irq.Lists.{for_each, for_each_irq}
use code_analyze.Irq.Activate.{
  Affinity, Activating, check_affinity, object_mask, applied_mask_of, has_object, write_mask,
  activate_mapping, activate_mappings,
}

-- The mask that each hint policy allows: with a hint that is not empty, the policy exact allows the hint
-- itself, where it is free of banned CPUs, and the policy subset the part of the object's mask in the hint,
-- where it has a CPU that is not banned; otherwise it is the mask of the object.
abbrev pub MaskOf : State → IrqInfo → Ptr → Cpumask → Type 0
MaskOf s i o m =
    ((i.hint_policy ≡ exact)
      × (cpus_empty i.affinity_hint ≡ false)
      × (m ≡ i.affinity_hint)
      × (cpus_intersects m s.banned_cpus ≡ false))
    ⊎ (((i.hint_policy ≡ subset)
          × (cpus_empty i.affinity_hint ≡ false)
          × (m ≡ cpus_and (s.objs o).mask i.affinity_hint)
          × (cpus_intersects m s.unbanned_cpus ≡ true))
        ⊎ (((i.hint_policy ≡ ignore) ⊎ (cpus_empty i.affinity_hint ≡ true))
            × (m ≡ (s.objs o).mask)))

-- A number and a mask that may be written for an interrupt on an object; the file did not read as the
-- mask, and can be written.
abbrev pub MayWrite : Affinity → State → IrqInfo → ℕ × Cpumask → Type 0
MayWrite files s i w =
    (o : Ptr) × (i.assigned_obj ≡ some o)
    × (i.irq ≡ w.0)
    × MaskOf s i o w.1
    × (check_affinity files i w.1 ≡ false)
    × (files.writable w.0 ≡ true)

pub Allowed : Affinity → State → ℕ × Cpumask → Type 0
Allowed files s w = (p : Ptr) × ((s.irqs p).moved ≡ true) × MayWrite files s (s.irqs p) w

policy_cases :
    (h : HintPolicy) (empty : Bool)
    → ((h ≡ exact) × (empty ≡ false) × ((is_exact h && not empty) ≡ true))
      ⊎ (((h ≡ subset)
            × (empty ≡ false)
            × ((is_exact h && not empty) ≡ false)
            × ((is_subset h && not empty) ≡ true))
          ⊎ (((h ≡ ignore) ⊎ (empty ≡ true))
              × ((is_exact h && not empty) ≡ false)
              × ((is_subset h && not empty) ≡ false)))
policy_cases exact false = inl (refl, refl, refl)
policy_cases subset false = inr (inl (refl, refl, refl, refl))
policy_cases ignore false = inr (inr (inl refl, refl, refl))
policy_cases exact true = inr (inr (inr refl, refl, refl))
policy_cases subset true = inr (inr (inr refl, refl, refl))
policy_cases ignore true = inr (inr (inr refl, refl, refl))

subset_case :
    (s : State) (info : IrqInfo) (o : Ptr) (m : Cpumask)
    → (is_subset info.hint_policy && not (cpus_empty info.affinity_hint)) ≡ true
    → object_mask s info o ≡ some m
    → (m ≡ cpus_and (s.objs o).mask info.affinity_hint) × (cpus_intersects m s.unbanned_cpus ≡ true)
unfolding object_mask
subset_case s info o m b e =
    elim (Bool-cases
      (cpus_intersects (cpus_and (s.objs o).mask info.affinity_hint) s.unbanned_cpus)) [
        | inr k ↦ absurd (ground (arith, e, b, k))
        | inl k ↦
            let same : cpus_and (s.objs o).mask info.affinity_hint ≡ m = ground (arith, e, b, k) in
            (sym same, subst (λ x. cpus_intersects x s.unbanned_cpus ≡ true) same k)
      ]

plain_case :
    (s : State) (info : IrqInfo) (o : Ptr) (m : Cpumask)
    → (is_subset info.hint_policy && not (cpus_empty info.affinity_hint)) ≡ false
    → object_mask s info o ≡ some m
    → m ≡ (s.objs o).mask
unfolding object_mask
plain_case s info o m b e = ground (arith, e, b)

exact_case :
    (s : State) (i : IrqInfo) (m : Cpumask)
    → (is_exact i.hint_policy && not (cpus_empty i.affinity_hint)) ≡ true
    → applied_mask_of s i ≡ some m
    → (m ≡ i.affinity_hint) × (cpus_intersects m s.banned_cpus ≡ false)
unfolding applied_mask_of
exact_case s i m b e = elim (Bool-cases (cpus_intersects i.affinity_hint s.banned_cpus)) [
  | inl k ↦ absurd (ground (arith, e, b, k))
  | inr k ↦
      let same : i.affinity_hint ≡ m = ground (arith, e, b, k) in
      (sym same, subst (λ x. cpus_intersects x s.banned_cpus ≡ false) same k)
]

object_case :
    (s : State) (i : IrqInfo) (o : Ptr) (m : Cpumask)
    → i.assigned_obj ≡ some o
    → (is_exact i.hint_policy && not (cpus_empty i.affinity_hint)) ≡ false
    → applied_mask_of s i ≡ some m
    → object_mask s i o ≡ some m
unfolding applied_mask_of
object_case s i o m on b e = ground (arith, e, b, on)

mask_cases :
    (s : State) (i : IrqInfo) (o : Ptr) (m : Cpumask)
    → i.assigned_obj ≡ some o
    → applied_mask_of s i ≡ some m
    → MaskOf s i o m
mask_cases s i o m on e = elim (policy_cases i.hint_policy (cpus_empty i.affinity_hint)) [
  | inl (h, some_cpu, test) ↦
      let (is_m, free) = exact_case s i m test e in inl (h, some_cpu, is_m, free)
  | inr (inl (h, some_cpu, other, test)) ↦
      let (is_m, open_cpu) = subset_case s i o m test (object_case s i o m on other e) in
      inr (inl (h, some_cpu, is_m, open_cpu))
  | inr (inr (h, other, test)) ↦
      inr (inr (h, plain_case s i o m test (object_case s i o m on other e)))
]

-- Interrupts that differ in `moved` only, which is taken back at most, and the same objects and bans.
pub record SameButMoved (s t : State) : Type 0 where
  pub irqs : (p : Ptr) → record (t.irqs p) { moved = false } ≡ record (s.irqs p) { moved = false }
  pub moved : (p : Ptr) → (t.irqs p).moved ≡ true → (s.irqs p).moved ≡ true
  pub objs : t.objs ≡ s.objs
  pub banned : t.banned_cpus ≡ s.banned_cpus
  pub unbanned : t.unbanned_cpus ≡ s.unbanned_cpus

MayWrite-back :
    (files : Affinity) (s t : State) (p : Ptr) (w : ℕ × Cpumask)
    → SameButMoved s t
    → MayWrite files t (t.irqs p) w
    → MayWrite files s (s.irqs p) w
unfolding check_affinity
MayWrite-back files s t p w same h =
    subst (λ x. MayWrite files (record s { unbanned_cpus = x }) (s.irqs p) w) same.unbanned
      (subst
        (λ x.
          MayWrite files (record s { banned_cpus = x; unbanned_cpus = t.unbanned_cpus }) (s.irqs p)
            w)
        same.banned
        (subst
          (λ x.
            MayWrite files
              (record s { objs = x; banned_cpus = t.banned_cpus; unbanned_cpus = t.unbanned_cpus })
              (s.irqs p) w)
          same.objs (subst (λ i. MayWrite files t i w) (same.irqs p) h)))

pub activate_mapping_cases :
    (files : Affinity) (P : Activating → Type 0) (p : Ptr) (a : Activating)
    → P a
    → ((m : Cpumask)
        → (a.state.irqs p).moved ≡ true
        → MayWrite files a.state (a.state.irqs p) ((a.state.irqs p).irq, m)
        → P (write_mask p m a))
    → P (activate_mapping files p a)
unfolding activate_mapping
activate_mapping_cases files P p a stay wrote =
    let i = a.state.irqs p in
    elim (Bool-cases i.moved) [
      | inr e ↦ simp e stay
      | inl e ↦ elim (Option-cases (applied_mask_of a.state i)) [
        | inl nothing ↦ simp (e, nothing) stay
        | inr (m, is_m) ↦
            elim (Bool-cases (
              not (check_affinity files i m)
              && has_object i.assigned_obj
              && files.writable i.irq)) [
                | inr b ↦ simp (e, is_m, b) stay
                | inl b ↦ elim (Option-cases i.assigned_obj) [
                  | inl nowhere ↦ absurd (ground (arith, b, nowhere))
                  | inr (o, on) ↦
                      simp (e, is_m, b)
                        (wrote m e (
                          o,
                          on,
                          refl,
                          mask_cases a.state i o m on is_m,
                          ground (arith, b),
                          ground (arith, b, on),
                        ))
                ]
              ]
      ]
    ]

write_SameButMoved :
    (s : State) (p : Ptr) (m : Cpumask) (a : Activating)
    → SameButMoved s a.state
    → SameButMoved s (write_mask p m a).state
unfolding write_mask
write_SameButMoved s p m a same = record {
  irqs = λ q. unmoved q ∙ same.irqs q;
  moved = λ q h. same.moved q (still q h);
  objs = same.objs;
  banned = same.banned;
  unbanned = same.unbanned;
}
  where
    still :
        (q : Ptr)
        → ((set_irq p (record (a.state.irqs p) { moved = false }) a.state).irqs q).moved ≡ true
        → (a.state.irqs q).moved ≡ true
    still q h = elim (ℕ_discrete q p) [
      | yes e ↦ absurd (ground (arith, e, h))
      | no ne ↦ ground (arith, ne, h)
    ]

    unmoved :
        (q : Ptr)
        → record ((set_irq p (record (a.state.irqs p) { moved = false }) a.state).irqs q) {
          moved = false;
        }
          ≡ record (a.state.irqs q) { moved = false }
    unmoved q = elim (ℕ_discrete q p) [
      | yes e ↦
          ap
            (λ x. record ((set_irq p (record (a.state.irqs p) { moved = false }) a.state).irqs x) {
              moved = false;
            })
            e
          ∙ ap (λ (i : IrqInfo). record i { moved = false })
              (update_self a.state.irqs p (record (a.state.irqs p) { moved = false }))
          ∙ ap (λ x. record (a.state.irqs x) { moved = false }) (sym e)
      | no ne ↦
          ap (λ (i : IrqInfo). record i { moved = false })
            (update_ne a.state.irqs p q (record (a.state.irqs p) { moved = false }) ne)
    ]

activate-All :
    (files : Affinity) (s : State) (l : List Ptr) (a : Activating)
    → SameButMoved s a.state
    → All (Allowed files s) a.written
    → All (Allowed files s) (for_each l (activate_mapping files) a).written
unfolding for_each Allowed write_mask
activate-All files s [] a same h = h
activate-All files s (p ∷ ps) a same h =
    let step =
      activate_mapping_cases files (λ b. SameButMoved s b.state × All (Allowed files s) b.written) p
        a (same, h)
        (λ m moved may. (
          write_SameButMoved s p m a same,
          (
            (
              p,
              same.moved p moved,
              MayWrite-back files s a.state p ((a.state.irqs p).irq, m) same may,
            ),
            h,
          ),
        )) in
    activate-All files s ps (activate_mapping files p a) step.0 step.1

-- Every mask that activate_mappings writes is for an interrupt that has moved and is on an object, and is
-- the one that its hint policy allows: with a hint that is not empty, for exact the hint, free of banned
-- CPUs, and for subset the part of the object's mask in the hint, with a CPU that is not banned; for ignore
-- or an empty hint the mask of the object. The file did not read as this mask, and can be written.
pub activate_mappings-Allowed :
    (files : Affinity) (s : State)
    → All (Allowed files s) (activate_mappings files record { state = s; written = [] }).written
unfolding activate_mappings for_each_irq
activate_mappings-Allowed files s =
    activate-All files s s.interrupts_db (record { state = s; written = [] })
      (record { irqs = λ p. refl; moved = λ p h. h; objs = refl; banned = refl; unbanned = refl })
      tt
