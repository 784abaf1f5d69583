-- ===== src/Irq/Lists/Ownership.antt =====
-- Which list an interrupt is on, and what its `assigned_obj` says.
use code_analyze.Prelude.{
  ℕ, ◌+◌, ◌≤◌, ◌<◌, ◌≡◌, refl, ap, ◌∙◌, sym, subst, ◌≢◌, dec_lt, Bool, true, false, Option, none,
  some, List, [], ◌∷◌, ◌++◌, ◌&&◌, arith, count, ℕ_discrete, count-append, ◌==◌, if◌then◌else◌,
}
use code_analyze.Irq.Types.{Ptr, IrqInfo, State, set_irq}
use code_analyze.Irq.Lists.{
  Place, rebalance, interrupts_of, get_list, set_list, find_irq, delete_irq, migrate_irq,
}

-- The first entry with the number of `p` is `p`, and deleting it takes out one `p`.
find_delete :
    (irqs : Ptr → IrqInfo) (p : Ptr) (l : List Ptr)
    → ((q : Ptr) → 0 < count q l → (irqs q).irq ≡ (irqs p).irq → q ≡ p)
    → 0 < count p l
    → (find_irq irqs (irqs p).irq l ≡ some p)
      × ((q : Ptr)
          → count q (delete_irq irqs (irqs p).irq l) + (if p == q then 1 else 0) ≡ count q l)
unfolding find_irq delete_irq
find_delete irqs p [] distinct h = absurd (omega arith)
find_delete irqs p (x ∷ xs) distinct h = elim (ℕ_discrete (irqs x).irq (irqs p).irq) [
  | yes e ↦ let x_is_p : x ≡ p = distinct x (ground arith) e in (ground arith, λ q. ground arith)
  | no ne ↦
      let rest = find_delete irqs p xs (λ q hq. distinct q (omega arith)) (ground arith) in
      (ground (arith, rest.0), λ q. ground (arith, rest.1 q))
]

abbrev pub same_place : Place → Place → Bool
same_place rebalance rebalance = true
same_place (interrupts_of a) (interrupts_of b) = a == b
same_place _ _ = false

-- The object that an interrupt on this list is assigned to.
abbrev pub owner_of : Place → Option Ptr
owner_of rebalance = none
owner_of (interrupts_of o) = some o

unfoldable pub assign : Option Ptr → Ptr → State → State
assign a p s = set_irq p (record (s.irqs p) { assigned_obj = a }) s

count-snoc :
    (q p : Ptr) (l : List Ptr) → count q (l ++ p ∷ []) ≡ count q l + (if p == q then 1 else 0)
count-snoc q p l = omega (arith, count-append q l (p ∷ []))

module _ (s : State) (from to : Place) (p : Ptr) where
  -- The lists after the interrupt is taken from the one, and given to the other.
  taken : State
  taken = set_list from (delete_irq s.irqs (s.irqs p).irq (get_list from s)) s

  given : State
  given = set_list to (get_list to taken ++ p ∷ []) taken

  migrate_eq :
      find_irq s.irqs (s.irqs p).irq (get_list from s) ≡ some p
      → migrate_irq from to p s ≡ set_irq p (record (s.irqs p) { moved = true }) given
  unfolding migrate_irq taken given
  migrate_eq found = rw (found, migrate_irq)

pub count-set_list :
    (at there : Place) (l : List Ptr) (s : State) (q : Ptr)
    → count q (get_list at (set_list there l s))
      ≡ (if same_place at there then count q l else count q (get_list at s))
unfolding get_list set_list
count-set_list rebalance rebalance l s q = refl
count-set_list rebalance (interrupts_of b) l s q = refl
count-set_list (interrupts_of a) rebalance l s q = refl
count-set_list (interrupts_of a) (interrupts_of b) l s q = ground arith

same_place_eq : (a b : Place) → same_place a b ≡ true → a ≡ b
same_place_eq rebalance rebalance e = refl
same_place_eq rebalance (interrupts_of b) e = cc
same_place_eq (interrupts_of a) rebalance e = cc
same_place_eq (interrupts_of a) (interrupts_of b) e = ground arith

same_place_refl : (a : Place) → same_place a a ≡ true
same_place_refl rebalance = refl
same_place_refl (interrupts_of a) = ground arith

get_list-set_irq :
    (at : Place) (p : Ptr) (i : IrqInfo) (s : State) → get_list at (set_irq p i s) ≡ get_list at s
unfolding get_list
get_list-set_irq rebalance p i s = refl
get_list-set_irq (interrupts_of o) p i s = refl

abbrev pub at_one : Bool → Ptr → Ptr → ℕ
at_one b p q = if b && p == q then 1 else 0

same_place_trans : (a b c : Place) → same_place a b ≡ true → same_place a c ≡ same_place b c
same_place_trans a b c e = rw (same_place_eq a b e)

pub same_place-count :
    (a b : Place) (q : Ptr) (s : State)
    → same_place a b ≡ true
    → count q (get_list a s) ≡ count q (get_list b s)
same_place-count a b q s e = ap (λ x. count q (get_list x s)) (same_place_eq a b e)

-- The moved interrupt is counted once less on the list that it leaves, once more on the other.
given_counts :
    (s : State) (from to at : Place) (p q : Ptr)
    → count q (delete_irq s.irqs (s.irqs p).irq (get_list from s)) + at_one true p q
      ≡ count q (get_list from s)
    → count q (get_list at (given s from to p)) + at_one (same_place at from) p q
      ≡ count q (get_list at s) + at_one (same_place at to) p q
unfolding given taken
given_counts s from to at p q deleted = ground (
  arith,
  count-set_list at to (get_list to (taken s from to p) ++ p ∷ []) (taken s from to p) q,
  count-snoc q p (get_list to (taken s from to p)),
  count-set_list at from (delete_irq s.irqs (s.irqs p).irq (get_list from s)) s q,
  count-set_list to from (delete_irq s.irqs (s.irqs p).irq (get_list from s)) s q,
  same_place_trans at to from,
  same_place-count at to q s,
  same_place-count at from q s,
  same_place-count to from q s,
)

-- An interrupt on the list of an object is assigned to it, which is what validate_irq checks, and
-- one on the rebalance list to none; no list has it twice; listed interrupts are in the database,
-- where no two have the same number.
pub record Owned (s : State) : Type 0 where
  pub owner :
      (at : Place) (p : Ptr) → 0 < count p (get_list at s) → (s.irqs p).assigned_obj ≡ owner_of at
  pub once : (at : Place) (p : Ptr) → count p (get_list at s) ≤ 1
  pub known : (at : Place) (p : Ptr) → 0 < count p (get_list at s) → 0 < count p s.interrupts_db
  pub distinct :
      (p q : Ptr)
      → 0 < count p s.interrupts_db
      → 0 < count q s.interrupts_db
      → (s.irqs p).irq ≡ (s.irqs q).irq
      → p ≡ q

same_place_owner : (a b : Place) → owner_of a ≡ owner_of b → same_place a b ≡ true
same_place_owner rebalance rebalance e = refl
same_place_owner rebalance (interrupts_of b) e = cc
same_place_owner (interrupts_of a) rebalance e = cc
same_place_owner (interrupts_of a) (interrupts_of b) e = ground arith

pub set_list_rest :
    (at : Place) (l : List Ptr) (s : State)
    → ((set_list at l s).irqs ≡ s.irqs) × ((set_list at l s).interrupts_db ≡ s.interrupts_db)
unfolding set_list
set_list_rest rebalance l s = (refl, refl)
set_list_rest (interrupts_of o) l s = (refl, refl)

given_rest :
    (s : State) (from to : Place) (p : Ptr)
    → ((given s from to p).irqs ≡ s.irqs) × ((given s from to p).interrupts_db ≡ s.interrupts_db)
unfolding given taken
given_rest s from to p =
    let t = taken s from to p in
    let second = set_list_rest to (get_list to t ++ p ∷ []) t in
    let first = set_list_rest from (delete_irq s.irqs (s.irqs p).irq (get_list from s)) s in
    (second.0 ∙ first.0, second.1 ∙ first.1)

-- The move of an interrupt between lists, with its new assignment.
abbrev pub move : Place → Place → Ptr → State → State
move from to p s = assign (owner_of to) p (migrate_irq from to p s)

module _ (s : State) (from to : Place) (p : Ptr) (v : Owned s)
    (here : 0 < count p (get_list from s)) where
  listed :
      (find_irq s.irqs (s.irqs p).irq (get_list from s) ≡ some p)
      × ((q : Ptr)
          → count q (delete_irq s.irqs (s.irqs p).irq (get_list from s)) + at_one true p q
            ≡ count q (get_list from s))
  listed =
      find_delete s.irqs p (get_list from s)
        (λ q hq e. v.distinct q p (v.known from q hq) (v.known from p here) e) here

  -- Every list before and after.
  pub move_counts :
      (at : Place) (q : Ptr)
      → count q (get_list at (move from to p s)) + at_one (same_place at from) p q
        ≡ count q (get_list at s) + at_one (same_place at to) p q
  unfolding assign
  move_counts at q =
      subst
        (λ (l : List Ptr).
          count q l + at_one (same_place at from) p q
          ≡ count q (get_list at s) + at_one (same_place at to) p q)
        (sym same_list) (given_counts s from to at p q (listed.1 q))
    where
      m : State
      m = migrate_irq from to p s

      same_list : get_list at (move from to p s) ≡ get_list at (given s from to p)
      same_list =
          get_list-set_irq at p (record (m.irqs p) { assigned_obj = owner_of to }) m
          ∙ ap (get_list at) (migrate_eq s from to p listed.0)
          ∙ get_list-set_irq at p (record (s.irqs p) { moved = true }) (given s from to p)

  pub move_irq :
      (q : Ptr)
      → (((move from to p s).irqs q).irq ≡ (s.irqs q).irq)
        × (((move from to p s).irqs q).assigned_obj
            ≡ (if q == p then owner_of to else (s.irqs q).assigned_obj))
        × (((move from to p s).irqs q).moved ≡ (if q == p then true else (s.irqs q).moved))
  unfolding assign
  move_irq q = rw (migrate_eq s from to p listed.0, (given_rest s from to p).0) (ground arith)

  pub move_db : (move from to p s).interrupts_db ≡ s.interrupts_db
  unfolding assign
  move_db = rw (migrate_eq s from to p listed.0) (given_rest s from to p).1

  elsewhere : (at : Place) → same_place at from ≡ false → count p (get_list at s) ≡ 0
  elsewhere at ne = elim (dec_lt 0 (count p (get_list at s))) [
    | yes h ↦ let same = same_place_owner at from (sym (v.owner at p h) ∙ v.owner from p here) in cc
    | no h ↦ omega arith
  ]

  -- A listed interrupt that moves to another list, and is assigned to that list's object, keeps
  -- ownership intact.
  pub move-Owned : Owned (move from to p s)
  move-Owned = record {
    owner = λ at q h. ground (
      arith,
      move_irq q,
      move_counts at q,
      elsewhere at,
      v.owner at q,
      v.once at q,
      same_place_trans at to from,
      ap owner_of {x = at} {y = to},
      same_place_eq at to,
      same_place_eq at from,
    );
    once = λ at q. ground (arith, move_counts at q, elsewhere at, v.once at q);
    known = λ at q h.
        subst (λ (l : List Ptr). 0 < count q l) (sym move_db)
          (ground (arith, move_counts at q, v.known at q, v.known from p here));
    distinct = λ a b ha hb e.
        v.distinct a b (subst (λ (l : List Ptr). 0 < count a l) move_db ha)
          (subst (λ (l : List Ptr). 0 < count b l) move_db hb)
          (sym (move_irq a).0 ∙ e ∙ (move_irq b).0);
  }

  -- Only the moved interrupt changes lists, and it is on one afterwards.
  pub move_others :
      (at : Place) (q : Ptr)
      → q ≢ p
      → count q (get_list at (move from to p s)) ≡ count q (get_list at s)
  move_others at q ne = ground (arith, move_counts at q)

  pub move_arrives : 0 < count p (get_list to (move from to p s))
  move_arrives = ground (
    arith,
    move_counts to p,
    same_place_refl to,
    same_place_eq to from,
    same_place-count to from p s,
  )

-- A state with the lists, numbers and assignments of one with intact ownership has it too.
pub same-Owned :
    (s t : State)
    → ((at : Place) (q : Ptr) → count q (get_list at t) ≡ count q (get_list at s))
    → ((q : Ptr)
        → ((t.irqs q).irq ≡ (s.irqs q).irq) × ((t.irqs q).assigned_obj ≡ (s.irqs q).assigned_obj))
    → ((q : Ptr) → count q t.interrupts_db ≡ count q s.interrupts_db)
    → Owned s
    → Owned t
same-Owned s t lists irqs db v = record {
  owner = λ at q h. (irqs q).1 ∙ v.owner at q (subst (λ n. 0 < n) (lists at q) h);
  once = λ at q. omega (arith, v.once at q, lists at q);
  known =
      λ at q h. subst (λ n. 0 < n) (sym (db q)) (v.known at q (subst (λ n. 0 < n) (lists at q) h));
  distinct = λ a b ha hb e.
      v.distinct a b (subst (λ n. 0 < n) (db a) ha) (subst (λ n. 0 < n) (db b) hb)
        (sym (irqs a).0 ∙ e ∙ (irqs b).0);
}
