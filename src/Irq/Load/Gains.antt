-- ===== src/Irq/Load/Gains.antt =====
-- How the loads of a level of the tree add up in their parents.
use code_analyze.Prelude.{
  ℕ, ◌+◌, ◌/◌, ◌%◌, ◌<◌, ◌≤◌, ◌≡◌, ◌≢◌, refl, ap, sym, ◌∙◌, subst, Bool, true, false, Option, none,
  some, List, [], ◌∷◌, ◌==◌, if◌then◌else◌, arith, length, count, Bool-cases, Option-cases, inl,
  inr, ℕ_discrete, update, update_self, update_ne,
}
use code_analyze.Irq.Types.{Ptr, TopoObj, State, set_obj, u64_mod, add64}
use code_analyze.Irq.Lists.{for_each}
use code_analyze.Irq.Load.{
  get_parent_branch_irq_count_share, assign_load_slice, slice_of, add_to_parent, assign_slices,
  compute_irq_branch_load_share, at_least_one,
}

abbrev pub is_parent : Option Ptr → Ptr → Bool
is_parent none u = false
is_parent (some p) u = p == u

-- The load of an object over the number of its children, if there are any.
abbrev pub share_of : TopoObj → ℕ
share_of d = d.load / at_least_one (length d.children)

-- What the objects of a list that have the parent u hand on to it.
abbrev pub handed_on : (Ptr → TopoObj) → Ptr → List Ptr → ℕ
handed_on objs u [] = 0
handed_on objs u (d ∷ ds) =
    (if is_parent (objs d).parent u then share_of (objs d) else 0) + handed_on objs u ds

assign_loop_objs :
    (n : ℕ) (l : List Ptr) (s : State) → (for_each l (assign_load_slice n) s).objs ≡ s.objs
unfolding for_each assign_load_slice
assign_loop_objs n [] s = refl
assign_loop_objs n (p ∷ ps) s = assign_loop_objs n ps (assign_load_slice n p s)

assign_slices_objs : (depth : ℕ) (d : Ptr) (s : State) → (assign_slices depth d s).objs ≡ s.objs
unfolding assign_slices
assign_slices_objs depth d s = elim (Bool-cases (length (s.objs d).interrupts == 0)) [
  | inl e ↦ rw (assign_slices, e) refl
  | inr e ↦ elim (Option-cases (get_parent_branch_irq_count_share depth s d)) [
    | inl lost ↦ rw (assign_slices, e, lost) refl
    | inr (n, found) ↦
        rw (assign_slices, e, found)
          (assign_loop_objs (slice_of (s.objs d).load n) (s.objs d).interrupts s)
  ]
]

-- The objects after add_to_parent, from those before.
abbrev handed : (Ptr → TopoObj) → Ptr → Ptr → TopoObj
handed objs d q =
    if is_parent (objs d).parent q
    then record (objs q) { load = add64 (objs q).load (objs d).load }
    else objs q

add_to_parent_objs : (d q : Ptr) (s : State) → (add_to_parent d s).objs q ≡ handed s.objs d q
unfolding add_to_parent
add_to_parent_objs d q s = elim (Option-cases (s.objs d).parent) [
  | inl top ↦ rw (add_to_parent, top) refl
  | inr (up, e) ↦
      rw (add_to_parent, e)
        (elim (ℕ_discrete q up) [ yes same ↦ ground (arith, same) | no ne ↦ ground (arith, ne) ])
]

abbrev divided_objs : Ptr → (Ptr → TopoObj) → Ptr → TopoObj
divided_objs d objs = update objs d (record (objs d) { load = share_of (objs d) })

share_objs :
    (depth : ℕ) (d q : Ptr) (s : State)
    → (compute_irq_branch_load_share depth d s).objs q ≡ handed (divided_objs d s.objs) d q
unfolding compute_irq_branch_load_share
share_objs depth d q s =
    let u = set_obj d (record (s.objs d) { load = share_of (s.objs d) }) s in
    add_to_parent_objs d q (assign_slices depth d u)
    ∙ ap (λ (f : Ptr → TopoObj). handed f d q) (assign_slices_objs depth d u)

-- Another object after the body for d.
step_other :
    (depth : ℕ) (d q : Ptr) (s : State)
    → q ≢ d
    → ((compute_irq_branch_load_share depth d s).objs q) ≡ (
        if is_parent (s.objs d).parent q
        then record (s.objs q) { load = add64 (s.objs q).load (share_of (s.objs d)) }
        else s.objs q)
step_other depth d q s ne =
    share_objs depth d q s
    ∙ rw
        (
          update_self s.objs d (record (s.objs d) { load = share_of (s.objs d) }),
          update_ne s.objs d q (record (s.objs d) { load = share_of (s.objs d) }) ne,
        )
        refl

-- The members of the list are different, and none is the parent of another.
pub record OneLevel (objs : Ptr → TopoObj) (l : List Ptr) : Type 0 where
  pub once : (q : Ptr) → count q l ≤ 1
  pub apart : (d q : Ptr) → 0 < count d l → 0 < count q l → is_parent (objs d).parent q ≡ false

handed_on_same :
    (f g : Ptr → TopoObj) (u : Ptr) (l : List Ptr)
    → ((q : Ptr) → 0 < count q l → g q ≡ f q)
    → handed_on g u l ≡ handed_on f u l
handed_on_same f g u [] h = refl
handed_on_same f g u (d ∷ ds) h = rw (h d (ground arith)) (
    ap (λ (n : ℕ). (if is_parent (f d).parent u then share_of (f d) else 0) + n)
      (handed_on_same f g u ds (λ q k. h q (omega (arith, k)))))

count_head : (d q : Ptr) (l : List Ptr) → q ≡ d → count q (d ∷ l) ≡ 1 + count q l
count_head d q l e = ground (arith, e)

count_tail : (d q : Ptr) (l : List Ptr) → count q l ≤ count q (d ∷ l)
count_tail d q l = omega arith

add_up :
    (b : Bool) (o : TopoObj) (share last next with_next with_o : ℕ)
    → last % u64_mod ≡ (next + with_next) % u64_mod
    → with_next ≡ with_o
    → next ≡ (if b then record o { load = add64 o.load share } else o).load
    → last % u64_mod ≡ (o.load + ((if b then share else 0) + with_o)) % u64_mod
add_up true o share last next with_next with_o rest same here = omega (arith, rest, same, here)
add_up false o share last next with_next with_o rest same here = omega (arith, rest, same, here)

-- When the objects of a level are different and none is the parent of another, the loop of parse_proc_stat
-- over the level adds to the load of any object outside of it, in 64 bits, the loads of its children in
-- the level, each over the number of its own children where it has any.
pub share_loop_gains :
    (depth : ℕ) (l : List Ptr) (u : Ptr) (s : State)
    → OneLevel s.objs l
    → count u l ≡ 0
    → (((for_each l (compute_irq_branch_load_share depth) s).objs u).load) % u64_mod
      ≡ ((s.objs u).load + handed_on s.objs u l) % u64_mod
unfolding for_each
share_loop_gains depth [] u s v out = omega arith
share_loop_gains depth (d ∷ ds) u s v out =
    let t = compute_irq_branch_load_share depth d s in
    let other : (q : Ptr) → 0 < count q ds → t.objs q ≡ s.objs q = λ q k.
      step_other depth d q s (λ e. omega (arith, v.once q, k, e, count_head d q ds e))
      ∙ rw
          (v.apart d q (omega (arith, count_head d d ds refl))
            (omega (arith, k, count_tail d q ds)))
          refl in
    let level : OneLevel t.objs ds = record {
      once = λ q. omega (arith, v.once q, count_tail d q ds);
      apart = λ a q ka kq.
          subst (λ (x : TopoObj). is_parent x.parent q ≡ false) (sym (other a ka))
            (v.apart a q (omega (arith, ka, count_tail d a ds))
              (omega (arith, kq, count_tail d q ds)));
    } in
    let rest = share_loop_gains depth ds u t level (omega (arith, out)) in
    let same = handed_on_same s.objs t.objs u ds other in
    let here =
      ap (λ (x : TopoObj). x.load)
        (step_other depth d u s (λ e. omega (arith, out, count_head d u ds e))) in
    add_up (is_parent (s.objs d).parent u) (s.objs u) (share_of (s.objs d)) _ _ _ _ rest same here
