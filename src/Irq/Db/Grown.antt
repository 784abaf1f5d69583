-- ===== src/Irq/Db/Grown.antt =====
-- Building the database keeps it well formed and complete.
use code_analyze.Prelude.{
  ℕ, zero, suc, ◌/◌, ◌^◌, ◌<◌, ◌≡◌, ◌≢◌, refl, sym, ◌∙◌, subst, Bool, true, false, Option, none,
  some, List, [], ◌∷◌, count, count-append, All, leb, ltb, arith, Bool-cases, Option-cases, inl,
  inr,
}
use code_analyze.Irq.Types.{Ptr, IrqInfo, State, exact}
use code_analyze.Irq.Lists.{find_irq}
use code_analyze.Irq.Db.{
  DevPath, Outside, map_class_to_level, max_class, class_codes, new_irq, alloc_irq, add_banned_irq,
  is_banned_irq, get_irq_info,
}
use code_analyze.Irq.Db.Policy.{UserIrqPolicy}
use code_analyze.Irq.Db.Add.{
  class_of, nth, classify, describe, add_one_irq_to_db, check_for_irq_ban, override_irq,
  override_found,
}
use code_analyze.Irq.Db.Valid.{
  known, DbValid, Known, Grown, find_none, find_some, push, push_fields, push_irqs, push-Grown,
  set_irq-Grown,
}

pub unknown_finds :
    (n : ℕ) (s : State)
    → get_irq_info n s ≡ none
    → (find_irq s.irqs n s.interrupts_db ≡ none) × (find_irq s.irqs n s.banned_irqs ≡ none)
unfolding get_irq_info
unknown_finds n s e = elim (Option-cases (find_irq s.irqs n s.interrupts_db)) [
  | inl d ↦ (d, ground (arith, e, d))
  | inr (p, d) ↦ absurd (ground (arith, e, d))
]

-- get_irq_info finds no number that is not known.
pub unknown :
    (n : ℕ) (s : State)
    → get_irq_info n s ≡ none
    → (p : Ptr) → 0 < count p (known s)
    → (s.irqs p).irq ≢ n
unknown n s e p h =
    let finds = unknown_finds n s e in
    elim (Bool-cases (ltb 0 (count p s.interrupts_db))) [
      | inl d ↦ find_none s.irqs n s.interrupts_db finds.0 p (ground (arith, d))
      | inr d ↦
          find_none s.irqs n s.banned_irqs finds.1 p
            (ground (arith, d, count-append p s.interrupts_db s.banned_irqs))
    ]

-- What get_irq_info finds is known, with the number.
pub found_Known :
    (n : ℕ) (s : State) (p : Ptr)
    → get_irq_info n s ≡ some p
    → (0 < count p (known s)) × ((s.irqs p).irq ≡ n)
unfolding get_irq_info
found_Known n s p e = elim (Option-cases (find_irq s.irqs n s.interrupts_db)) [
  | inl d ↦
      let f = find_some s.irqs n s.banned_irqs p (ground (arith, e, d)) in
      (omega (arith, f.0, count-append p s.interrupts_db s.banned_irqs), f.1)
  | inr (q, d) ↦
      let same : q ≡ p = ground (arith, e, d) in
      let f = find_some s.irqs n s.interrupts_db q d in
      (
        subst (λ x. 0 < count x (known s)) same
            (omega (arith, f.0, count-append q s.interrupts_db s.banned_irqs)),
        subst (λ x. (s.irqs x).irq ≡ n) same f.1,
      )
]

pub Known-at : (n : ℕ) (s : State) (p : Ptr) → get_irq_info n s ≡ some p → Known n s
unfolding Known
Known-at n s p e = (p, (found_Known n s p e).0, (found_Known n s p e).1)

-- And a known number is found.
pub Known-found : (n : ℕ) (s : State) → Known n s → (p : Ptr) × (get_irq_info n s ≡ some p)
unfolding Known
Known-found n s (q, h, e) = elim (Option-cases (get_irq_info n s)) [
  | inl nothing ↦ absurd (unknown n s nothing q h e)
  | inr found ↦ found
]

add_banned_eq :
    (n : ℕ) (s : State)
    → find_irq s.irqs n s.banned_irqs ≡ none
    → add_banned_irq n s ≡ push false (record (new_irq n) { banned = true; hint_policy = exact }) s
unfolding add_banned_irq alloc_irq
add_banned_eq n s e = rw (e, add_banned_irq) refl

add_one_eq :
    (out : Outside) (devpath : DevPath) (n : ℕ) (pol : UserIrqPolicy) (s : State)
    → get_irq_info n s ≡ none
    → add_one_irq_to_db out devpath n pol s
      ≡ (some s.next_irq, push true (describe out devpath n pol s) s)
unfolding add_one_irq_to_db is_banned_irq alloc_irq
add_one_eq out devpath n pol s e =
    let finds = unknown_finds n s e in
    rw (finds.0, add_one_irq_to_db) (rw (finds.1, is_banned_irq) refl)

nth_below : (l : List ℕ) (k b : ℕ) → 0 < b → All (λ x. x < b) l → nth l k < b
nth_below [] k b h a = h
nth_below (x ∷ xs) zero b h a = a.0
nth_below (x ∷ xs) (suc k) b h a = nth_below xs k b h a.1

classify_fields :
    (pol : UserIrqPolicy) (c : Option ℕ) (i : IrqInfo)
    → i.class < 8
    → ((classify pol c i).class < 8)
      × ((classify pol c i).irq ≡ i.irq)
      × ((classify pol c i).banned ≡ i.banned)
unfolding classify
classify_fields pol none i h = (h, refl, refl)
classify_fields pol (some c) i h = elim (Bool-cases (leb max_class (c / 2 ^ 16))) [
  | inl e ↦ simp e (h, refl, refl)
  | inr e ↦ simp e (nth_below class_codes (c / 2 ^ 16) 8 (omega arith) (ground arith), refl, refl)
]

module _ (n : ℕ) (s : State) (v : DbValid s) (new : get_irq_info n s ≡ none) where
  new_counted : (b : Bool) (i : IrqInfo) → 0 < count s.next_irq (known (push b i s))
  new_counted b i = ground (arith, (push_fields b i s s.next_irq).0)

  pushed_Known : (b : Bool) (i : IrqInfo) → i.irq ≡ n → Known n (push b i s)
  unfolding Known
  pushed_Known b i e =
      (s.next_irq, new_counted b i, (push_irqs (λ x. x.irq) b i s s.next_irq).0 refl ∙ e)

  pub add_banned_irq-Grown : Grown s (add_banned_irq n s) × Known n (add_banned_irq n s)
  add_banned_irq-Grown =
      let i : IrqInfo = record (new_irq n) { banned = true; hint_policy = exact } in
      subst (λ t. Grown s t × Known n t) (sym (add_banned_eq n s (unknown_finds n s new).1))
        (
          push-Grown false i s v (unknown n s new) (omega arith) (λ e. absurd (cc e)),
          pushed_Known false i refl,
        )

  module _ (out : Outside) (devpath : DevPath) (pol : UserIrqPolicy) where
    describe_fields :
        ((describe out devpath n pol s).class < 8)
        × ((describe out devpath n pol s).irq ≡ n)
        × ((describe out devpath n pol s).banned ≡ false)
    unfolding describe
    describe_fields =
        classify_fields pol (class_of (out.class_file devpath))
          (record (new_irq n) { hint_policy = pol.hintpolicy }) (omega arith)

    pub add_one-Grown :
        find_irq s.irqs n s.cl_banned_irqs ≡ none
        → Grown s (add_one_irq_to_db out devpath n pol s).1
          × Known n (add_one_irq_to_db out devpath n pol s).1
          × ((add_one_irq_to_db out devpath n pol s).0 ≡ some s.next_irq)
          × (0 < count s.next_irq (known (add_one_irq_to_db out devpath n pol s).1))
    add_one-Grown cl =
        let i = describe out devpath n pol s in
        let fields = describe_fields in
        subst
          (λ (r : Option Ptr × State).
            Grown s r.1
            × Known n r.1
            × (r.0 ≡ some s.next_irq)
            × (0 < count s.next_irq (known r.1)))
          (sym (add_one_eq out devpath n pol s new))
          (
            push-Grown true i s v (λ q h e. unknown n s new q h (e ∙ fields.1)) fields.0
                (λ e. (
                  fields.2,
                  λ q h same. find_none s.irqs n s.cl_banned_irqs cl q h (sym same ∙ fields.1),
                )),
            pushed_Known true i fields.1,
            refl,
            new_counted true i,
          )

-- A found interrupt gets the type and class of the hint.
pub override_found-Grown :
    (hint : Option IrqInfo) (p : Ptr) (s : State)
    → DbValid s
    → 0 < count p (known s)
    → ((h : IrqInfo) → hint ≡ some h → h.class < 8)
    → Grown s (override_found hint (some p) s)
unfolding override_found override_irq
override_found-Grown none p s v h ok =
    set_irq-Grown p (record (s.irqs p) { level = nth map_class_to_level (s.irqs p).class }) s v h
      refl refl (v.classes p h)
override_found-Grown (some i) p s v h ok =
    set_irq-Grown p
      (record (s.irqs p) {
        irq_type = i.irq_type;
        class = i.class;
        level = nth map_class_to_level i.class;
      })
      s v h refl refl (ok i refl)

pub not_cl_banned :
    (out : Outside) (path : Option DevPath) (n : ℕ) (s : State)
    → check_for_irq_ban out path n s ≡ false
    → find_irq s.irqs n s.cl_banned_irqs ≡ none
unfolding check_for_irq_ban
not_cl_banned out path n s e = elim (Option-cases (find_irq s.irqs n s.cl_banned_irqs)) [
  | inl nothing ↦ nothing
  | inr (p, found) ↦ absurd (ground (arith, e, found))
]
