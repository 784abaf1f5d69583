-- ===== src/Irq/Db/Valid.antt =====
-- The database of interrupts is well formed: the invariant, and the steps that keep it.
use code_analyze.Prelude.{
  ℕ, ◌+◌, ◌<◌, ◌≤◌, ◌≡◌, ◌≢◌, ◌⊎◌, refl, sym, ap, ◌∙◌, subst, Bool, true, false, ◌&&◌, none, some,
  List, [], ◌∷◌, ◌++◌, count, count-append, ◌==◌, if◌then◌else◌, arith, Bool-cases, inl, inr,
  ℕ_discrete,
}
use code_analyze.Irq.Types.{Ptr, IrqInfo, State, set_irq}
use code_analyze.Irq.Lists.{find_irq}
use code_analyze.Irq.Db.{alloc_irq}

-- The interrupts that get_irq_info looks through.
abbrev pub known : State → List Ptr
known s = s.interrupts_db ++ s.banned_irqs

-- Interrupts lie below the address given out next, and no two of the database and the banned ones
-- have the same number; those of the database are not flagged as banned; a class is an index of
-- map_class_to_level; and no number banned on the command line is in the database.
pub record DbValid (s : State) : Type 0 where
  pub old : (p : Ptr) → 0 < count p (known s) → p < s.next_irq
  pub once : (p : Ptr) → count p (known s) ≤ 1
  pub distinct :
      (p q : Ptr)
      → 0 < count p (known s)
      → 0 < count q (known s)
      → (s.irqs p).irq ≡ (s.irqs q).irq
      → p ≡ q
  pub allowed : (p : Ptr) → 0 < count p s.interrupts_db → (s.irqs p).banned ≡ false
  pub classes : (p : Ptr) → 0 < count p (known s) → (s.irqs p).class < 8
  pub cl_old : (p : Ptr) → 0 < count p s.cl_banned_irqs → (p < s.next_irq) × (count p (known s) ≡ 0)
  pub cl_apart :
      (p q : Ptr)
      → 0 < count p s.interrupts_db
      → 0 < count q s.cl_banned_irqs
      → (s.irqs p).irq ≢ (s.irqs q).irq

-- An interrupt with this number is known.
unfoldable pub Known : ℕ → State → Type 0
Known n s = (p : Ptr) × (0 < count p (known s)) × ((s.irqs p).irq ≡ n)

-- A step that keeps the invariant and loses no number.
pub record Grown (s t : State) : Type 0 where
  pub valid : DbValid t
  pub known_still : (n : ℕ) → Known n s → Known n t

pub Grown-refl : (s : State) → DbValid s → Grown s s
Grown-refl s v = record { valid = v; known_still = λ n k. k }

pub Grown-trans : (a b c : State) → Grown a b → Grown b c → Grown a c
Grown-trans a b c v w = record {
  valid = w.valid;
  known_still = λ n k. w.known_still n (v.known_still n k);
}

pub find_none :
    (irqs : Ptr → IrqInfo) (n : ℕ) (l : List Ptr)
    → find_irq irqs n l ≡ none
    → (p : Ptr) → 0 < count p l
    → (irqs p).irq ≢ n
unfolding find_irq
find_none irqs n [] e p h = absurd (omega arith)
find_none irqs n (x ∷ xs) e p h = elim (ℕ_discrete (irqs x).irq n) [
  | yes hit ↦ absurd (ground (arith, e, hit))
  | no ne ↦ elim (ℕ_discrete x p) [
    | yes same ↦ subst (λ y. (irqs y).irq ≢ n) same ne
    | no other ↦ find_none irqs n xs (ground (arith, e)) p (ground arith)
  ]
]

pub find_some :
    (irqs : Ptr → IrqInfo) (n : ℕ) (l : List Ptr) (p : Ptr)
    → find_irq irqs n l ≡ some p
    → (0 < count p l) × ((irqs p).irq ≡ n)
unfolding find_irq
find_some irqs n [] p e = absurd (ground (arith, e))
find_some irqs n (x ∷ xs) p e = elim (ℕ_discrete (irqs x).irq n) [
  | yes hit ↦
      let same : x ≡ p = ground (arith, e, hit) in
      (ground arith, subst (λ y. (irqs y).irq ≡ n) same hit)
  | no ne ↦ let rest = find_some irqs n xs p (ground (arith, e)) in (omega (arith, rest.0), rest.1)
]

-- A new interrupt at the end of the database, or of the banned ones.
abbrev pub push : Bool → IrqInfo → State → State
push true i s = record (alloc_irq i s) { interrupts_db = s.interrupts_db ++ s.next_irq ∷ [] }
push false i s = record (alloc_irq i s) { banned_irqs = s.banned_irqs ++ s.next_irq ∷ [] }

pub push_fields :
    (b : Bool) (i : IrqInfo) (s : State) (q : Ptr)
    → (count q (known (push b i s)) ≡ count q (known s) + (if s.next_irq == q then 1 else 0))
      × (count q (push b i s).interrupts_db
          ≡ count q s.interrupts_db + (if b && s.next_irq == q then 1 else 0))
      × ((push b i s).irqs q ≡ (if q == s.next_irq then i else s.irqs q))
unfolding alloc_irq
push_fields true i s q = (
  omega (
    arith,
    count-append q (s.interrupts_db ++ s.next_irq ∷ []) s.banned_irqs,
    count-append q s.interrupts_db (s.next_irq ∷ []),
    count-append q s.interrupts_db s.banned_irqs,
  ),
  omega (arith, count-append q s.interrupts_db (s.next_irq ∷ [])),
  refl,
)
push_fields false i s q = (
  omega (
    arith,
    count-append q s.interrupts_db (s.banned_irqs ++ s.next_irq ∷ []),
    count-append q s.banned_irqs (s.next_irq ∷ []),
    count-append q s.interrupts_db s.banned_irqs,
  ),
  omega arith,
  refl,
)

push_rest :
    (b : Bool) (i : IrqInfo) (s : State)
    → ((push b i s).next_irq ≡ s.next_irq + 1) × ((push b i s).cl_banned_irqs ≡ s.cl_banned_irqs)
unfolding alloc_irq
push_rest true i s = (refl, refl)
push_rest false i s = (refl, refl)

-- A field of an interrupt after the push.
pub push_irqs :
    {A : Type 0} (F : IrqInfo → A) (b : Bool) (i : IrqInfo) (s : State) (q : Ptr)
    → (q ≡ s.next_irq → F ((push b i s).irqs q) ≡ F i)
      × (q ≢ s.next_irq → F ((push b i s).irqs q) ≡ F (s.irqs q))
push_irqs F b i s q =
    let at = (push_fields b i s q).2 in
    (λ e. ap F (at ∙ ground (arith, e)), λ ne. ap F (at ∙ ground (arith, ne)))

module _ (b : Bool) (i : IrqInfo) (s : State) (v : DbValid s) where
  -- Known before, or the new one.
  pushed_cases :
      (q : Ptr)
      → 0 < count q (known (push b i s))
      → (q ≡ s.next_irq) ⊎ ((q ≢ s.next_irq) × (0 < count q (known s)))
  pushed_cases q h = elim (ℕ_discrete q s.next_irq) [
    | yes e ↦ inl e
    | no ne ↦ inr (ne, ground (arith, (push_fields b i s q).0))
  ]

  pushed_count : (q : Ptr) → count q (known (push b i s)) ≤ 1
  pushed_count q = ground (arith, (push_fields b i s q).0, v.once q, v.old q)

  listed_old : (q : Ptr) → 0 < count q s.interrupts_db → 0 < count q (known s)
  listed_old q h = omega (arith, h, count-append q s.interrupts_db s.banned_irqs)

  db_cases :
      (q : Ptr)
      → 0 < count q (push b i s).interrupts_db
      → ((b ≡ true) × (q ≡ s.next_irq)) ⊎ ((q ≢ s.next_irq) × (0 < count q s.interrupts_db))
  db_cases q h = elim (ℕ_discrete q s.next_irq) [
    | yes e ↦ elim (Bool-cases b) [
      | inl db ↦ inl (db, e)
      | inr not_db ↦ absurd (ground (arith, not_db, (push_fields b i s q).1, v.old q, listed_old q))
    ]
    | no ne ↦ inr (ne, ground (arith, (push_fields b i s q).1))
  ]

  cl_same : (q : Ptr) → 0 < count q (push b i s).cl_banned_irqs → 0 < count q s.cl_banned_irqs
  cl_same q h = subst (λ l. 0 < count q l) (push_rest b i s).1 h

  -- A new interrupt, with a number that is not known, keeps the database well formed.
  pub push-Grown :
      ((q : Ptr) → 0 < count q (known s) → (s.irqs q).irq ≢ i.irq)
      → i.class < 8
      → (b ≡ true
          → (i.banned ≡ false)
            × ((q : Ptr) → 0 < count q s.cl_banned_irqs → i.irq ≢ (s.irqs q).irq))
      → Grown s (push b i s)
  unfolding Known
  push-Grown fresh class_ok in_db = record {
    valid = record {
      old = λ p h. elim (pushed_cases p h) [
        | inl e ↦ omega (arith, e, (push_rest b i s).0)
        | inr (ne, k) ↦ omega (arith, v.old p k, (push_rest b i s).0)
      ];
      once = pushed_count;
      distinct = λ p q hp hq e. elim (pushed_cases p hp) [
        | inl ep ↦ elim (pushed_cases q hq) [
          | inl eq ↦ ep ∙ sym eq
          | inr (nq, kq) ↦ absurd (fresh q kq (sym ((number q).1 nq) ∙ sym e ∙ (number p).0 ep))
        ]
        | inr (np, kp) ↦ elim (pushed_cases q hq) [
          | inl eq ↦ absurd (fresh p kp (sym ((number p).1 np) ∙ e ∙ (number q).0 eq))
          | inr (nq, kq) ↦ v.distinct p q kp kq (sym ((number p).1 np) ∙ e ∙ (number q).1 nq)
        ]
      ];
      allowed = λ p h. elim (db_cases p h) [
        | inl (db, e) ↦ (push_irqs (λ x. x.banned) b i s p).0 e ∙ (in_db db).0
        | inr (ne, k) ↦ (push_irqs (λ x. x.banned) b i s p).1 ne ∙ v.allowed p k
      ];
      classes = λ p h. elim (pushed_cases p h) [
        | inl e ↦ subst (λ c. c < 8) (sym ((push_irqs (λ x. x.class) b i s p).0 e)) class_ok
        | inr (ne, k) ↦
            subst (λ c. c < 8) (sym ((push_irqs (λ x. x.class) b i s p).1 ne)) (v.classes p k)
      ];
      cl_old = λ p h.
          let k = v.cl_old p (cl_same p h) in
          (
            omega (arith, k.0, (push_rest b i s).0),
            ground (arith, k.0, k.1, (push_fields b i s p).0),
          );
      cl_apart = λ p q hp hq.
          let is_cl = cl_same q hq in
          let q_old = (number q).1 (ground (arith, (v.cl_old q is_cl).0)) in
          elim (db_cases p hp) [
            | inl (db, e) ↦ λ same. (in_db db).1 q is_cl (sym ((number p).0 e) ∙ same ∙ q_old)
            | inr (ne, k) ↦ λ same. v.cl_apart p q k is_cl (sym ((number p).1 ne) ∙ same ∙ q_old)
          ];
    };
    known_still = λ n (p, h, e). (
      p,
      omega (arith, h, (push_fields b i s p).0),
      (push_irqs (λ x. x.irq) b i s p).1 (ground (arith, v.old p h)) ∙ e,
    );
  }
    where
      number :
          (p : Ptr)
          → (p ≡ s.next_irq → ((push b i s).irqs p).irq ≡ i.irq)
            × (p ≢ s.next_irq → ((push b i s).irqs p).irq ≡ (s.irqs p).irq)
      number p = push_irqs (λ x. x.irq) b i s p

-- A change of the fields that the invariant does not read, with a class in range.
pub set_irq-Grown :
    (p : Ptr) (i : IrqInfo) (s : State)
    → DbValid s
    → 0 < count p (known s)
    → i.irq ≡ (s.irqs p).irq
    → i.banned ≡ (s.irqs p).banned
    → i.class < 8
    → Grown s (set_irq p i s)
unfolding Known
set_irq-Grown p i s v h same_irq same_banned class_ok = record {
  valid = record {
    old = v.old;
    once = v.once;
    distinct = λ a b ha hb e. v.distinct a b ha hb (sym (number a) ∙ e ∙ number b);
    allowed = λ q k. flag q ∙ v.allowed q k;
    classes = λ q k. elim (ℕ_discrete q p) [
      | yes e ↦ subst (λ c. c < 8) (ground (arith, e)) class_ok
      | no ne ↦ subst (λ c. c < 8) (ground (arith, ne)) (v.classes q k)
    ];
    cl_old = v.cl_old;
    cl_apart = λ a b ha hb e. v.cl_apart a b ha hb (sym (number a) ∙ e ∙ number b);
  };
  known_still = λ n (q, k, e). (q, k, number q ∙ e);
}
  where
    number : (q : Ptr) → ((set_irq p i s).irqs q).irq ≡ (s.irqs q).irq
    number q = ground (arith, same_irq)

    flag : (q : Ptr) → ((set_irq p i s).irqs q).banned ≡ (s.irqs q).banned
    flag q = ground (arith, same_banned)
