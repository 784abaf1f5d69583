-- ===== src/Irq/Topology/Domains.antt =====
-- Lists of domains of cputree.c, told apart by their masks.
use code_analyze.Prelude.{
  ℕ, ◌+◌, ◌<◌, ◌≡◌, ◌⊎◌, refl, sym, ap, ◌∙◌, subst, true, false, none, some, List, [], ◌∷◌, ◌++◌,
  count, count-append, elem, ◌==◌, arith, Bool-cases, inl, inr, ℕ_discrete, update, update_self,
  update_ne,
}
use code_analyze.Irq.Cpumask.{Cpumask, cpus_equal}
use code_analyze.Irq.Types.{Ptr, TopoObj, State}
use code_analyze.Irq.Topology.{find_mask, add_child}

pub cpus_equal_refl : (m : Cpumask) → cpus_equal m m ≡ true
unfolding cpus_equal
cpus_equal_refl [] = refl
cpus_equal_refl (w ∷ ws) = ground (arith, cpus_equal_refl ws)

cpus_equal_sym : (m n : Cpumask) → cpus_equal m n ≡ cpus_equal n m
unfolding cpus_equal
cpus_equal_sym [] [] = refl
cpus_equal_sym [] (w ∷ ws) = refl
cpus_equal_sym (v ∷ vs) [] = refl
cpus_equal_sym (v ∷ vs) (w ∷ ws) = ground (arith, cpus_equal_sym vs ws)

pub elem-count : (a : ℕ) (l : List ℕ) → elem a l ≡ true → 0 < count a l
elem-count a [] h = absurd (ground (arith, h))
elem-count a (x ∷ xs) h = elim (Bool-cases (x == a)) [
  | inl e ↦ ground (arith, e)
  | inr e ↦ let rest = elem-count a xs (ground (arith, e, h)) in omega (arith, rest)
]

pub find_mask-none :
    (m : Cpumask) (objs : Ptr → TopoObj) (l : List Ptr)
    → find_mask m objs l ≡ none
    → (c : Ptr) → 0 < count c l
    → cpus_equal m (objs c).mask ≡ false
unfolding find_mask
find_mask-none m objs [] h c k = absurd (omega (arith, k))
find_mask-none m objs (x ∷ xs) h c k = elim (Bool-cases (cpus_equal m (objs x).mask)) [
  | inl e ↦ absurd (ground (arith, h, e))
  | inr e ↦ elim (ℕ_discrete x c) [
    | yes same ↦ subst (λ y. cpus_equal m (objs y).mask ≡ false) same e
    | no ne ↦ find_mask-none m objs xs (ground (arith, h, e)) c (ground (arith, k, ne))
  ]
]

pub find_mask-some :
    (m : Cpumask) (objs : Ptr → TopoObj) (l : List Ptr) (c : Ptr)
    → find_mask m objs l ≡ some c
    → (0 < count c l) × (cpus_equal m (objs c).mask ≡ true)
unfolding find_mask
find_mask-some m objs [] c h = absurd (ground (arith, h))
find_mask-some m objs (x ∷ xs) c h = elim (Bool-cases (cpus_equal m (objs x).mask)) [
  | inl e ↦
      let same : x ≡ c = ground (arith, h, e) in
      (ground (arith, same), subst (λ y. cpus_equal m (objs y).mask ≡ true) same e)
  | inr e ↦
      let rest = find_mask-some m objs xs c (ground (arith, h, e)) in
      (omega (arith, rest.0), rest.1)
]

-- The addresses of the list are in use, and no two domains of it have the same mask.
pub record OnePerMask (objs : Ptr → TopoObj) (next : Ptr) (l : List Ptr) : Type 0 where
  pub below : (c : Ptr) → 0 < count c l → c < next
  pub distinct :
      (a b : Ptr)
      → 0 < count a l
      → 0 < count b l
      → cpus_equal (objs a).mask (objs b).mask ≡ true
      → a ≡ b

-- The masks are the same, where the domains of the list are.
pub same-OnePerMask :
    (f g : Ptr → TopoObj) (next : Ptr) (l : List Ptr)
    → ((q : Ptr) → (g q).mask ≡ (f q).mask)
    → OnePerMask f next l
    → OnePerMask g next l
same-OnePerMask f g next l same v = record {
  below = v.below;
  distinct = λ a b ha hb e. v.distinct a b ha hb (
      subst (λ y. cpus_equal (f a).mask y ≡ true) (same b)
        (subst (λ y. cpus_equal y (g b).mask ≡ true) (same a) e));
}

pub new-OnePerMask :
    (objs : Ptr → TopoObj) (next : Ptr) (l : List Ptr) (d : TopoObj)
    → OnePerMask objs next l
    → ((c : Ptr) → 0 < count c l → cpus_equal d.mask (objs c).mask ≡ false)
    → OnePerMask (update objs next d) (next + 1) (l ++ next ∷ [])
new-OnePerMask objs next l d v new = record {
  below = λ c h. elim (split c h) [ inl k ↦ omega (arith, v.below c k) | inr e ↦ omega (arith, e) ];
  distinct = λ a b ha hb e. elim (split a ha) [
    | inl ka ↦ elim (split b hb) [
      | inl kb ↦ v.distinct a b ka kb (equal a b (objs a) (objs b) (old a ka) (old b kb) e)
      | inr is_b ↦ absurd (clash a ka (equal a b (objs a) d (old a ka) (newest b is_b) e))
    ]
    | inr is_a ↦ elim (split b hb) [
      | inl kb ↦ absurd (
          clash b kb (
            cpus_equal_sym (objs b).mask d.mask
            ∙ equal a b d (objs b) (newest a is_a) (old b kb) e))
      | inr is_b ↦ is_a ∙ sym is_b
    ]
  ];
}
  where
    old : (c : Ptr) → 0 < count c l → update objs next d c ≡ objs c
    old c k = update_ne objs next c d (λ q. omega (arith, q, v.below c k))

    newest : (c : Ptr) → c ≡ next → update objs next d c ≡ d
    newest c e = ap (update objs next d) e ∙ update_self objs next d

    equal :
        (a b : Ptr) (x y : TopoObj)
        → update objs next d a ≡ x
        → update objs next d b ≡ y
        → cpus_equal (update objs next d a).mask (update objs next d b).mask ≡ true
        → cpus_equal x.mask y.mask ≡ true
    equal a b x y is_x is_y e =
        subst (λ u. cpus_equal u.mask y.mask ≡ true) is_x
          (subst (λ w. cpus_equal (update objs next d a).mask w.mask ≡ true) is_y e)

    clash : (c : Ptr) → 0 < count c l → ¬ (cpus_equal (objs c).mask d.mask ≡ true)
    clash c k e = ground (arith, new c k, cpus_equal_sym d.mask (objs c).mask, e)

    split : (c : Ptr) → 0 < count c (l ++ next ∷ []) → (0 < count c l) ⊎ (c ≡ next)
    split c h = elim (ℕ_discrete c next) [
      | yes e ↦ inr e
      | no ne ↦ inl (ground (arith, h, ne, count-append c l (next ∷ [])))
    ]

-- A new object that is not on the list.
pub grow-OnePerMask :
    (objs : Ptr → TopoObj) (next : Ptr) (l : List Ptr) (d : TopoObj)
    → OnePerMask objs next l
    → OnePerMask (update objs next d) (next + 1) l
grow-OnePerMask objs next l d v = record {
  below = λ c h. omega (arith, v.below c h);
  distinct = λ a b ha hb e. v.distinct a b ha hb (
      subst (λ u. cpus_equal u.mask (objs b).mask ≡ true) (old a ha)
        (subst (λ w. cpus_equal (update objs next d a).mask w.mask ≡ true) (old b hb) e));
}
  where
    old : (c : Ptr) → 0 < count c l → update objs next d c ≡ objs c
    old c k = update_ne objs next c d (λ q. omega (arith, q, v.below c k))

-- add_child leaves the masks.
pub add_child_masks :
    (o c : Ptr) (s : State) (q : Ptr) → ((add_child o c s).objs q).mask ≡ (s.objs q).mask
unfolding add_child
add_child_masks o c s q = elim (Bool-cases (elem c (s.objs o).children)) [
  | inl e ↦ ground (arith, e)
  | inr e ↦ elim (ℕ_discrete q c) [
    | yes same ↦ elim (ℕ_discrete q o) [
      | yes here ↦ ground (arith, e, same, here)
      | no ne ↦ ground (arith, e, same, ne)
    ]
    | no other ↦ elim (ℕ_discrete q o) [
      | yes here ↦ ground (arith, e, other, here)
      | no ne ↦ ground (arith, e, other, ne)
    ]
  ]
]
