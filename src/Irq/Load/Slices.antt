-- ===== src/Irq/Load/Slices.antt =====
-- The slices of an object's load that its interrupts get.
use code_analyze.Prelude.{
  ℕ, zero, suc, ◌+◌, ◌*◌, ◌/◌, ◌%◌, ◌<◌, ◌≤◌, ◌≡◌, refl, ap, ap₂, sym, ◌∙◌, subst, true, false,
  some, List, [], ◌∷◌, ◌==◌, if◌then◌else◌, arith, length, count, Bool-cases, Option-cases, inl,
  inr, ℕ_discrete, update_self,
}
use code_analyze.Irq.Types.{Ptr, IrqInfo, TopoObj, State, set_obj, u64_mod, add64}
use code_analyze.Irq.Lists.{for_each}
use native.Mathlib.Nat.{mod-add-div}
use code_analyze.Irq.Load.Shape.{SameObj, set_obj-OnlyLoads}
use code_analyze.Irq.Load.{
  accumulate_irq_count, get_parent_branch_irq_count_share, assign_load_slice, slice_of,
  add_to_parent, assign_slices, compute_irq_branch_load_share, at_least_one, irq_diff,
}

-- How often the interrupts of a list have come since the last measurement, together.
abbrev pub total_diff : (Ptr → IrqInfo) → List Ptr → ℕ
total_diff irqs [] = 0
total_diff irqs (p ∷ ps) = irq_diff (irqs p) + total_diff irqs ps

-- The loads of the interrupts of a list, together.
abbrev pub total_load : (Ptr → IrqInfo) → List Ptr → ℕ
total_load irqs [] = 0
total_load irqs (p ∷ ps) = (irqs p).load + total_load irqs ps

abbrev slice_load : ℕ → IrqInfo → ℕ
slice_load n i = at_least_one ((irq_diff i * n) % u64_mod)

assign_step :
    (n : ℕ) (p q : Ptr) (s : State)
    → (irq_diff ((assign_load_slice n p s).irqs q) ≡ irq_diff (s.irqs q))
      × (((assign_load_slice n p s).irqs q).load
          ≡ (if p == q then slice_load n (s.irqs q) else (s.irqs q).load))
unfolding assign_load_slice
assign_step n p q s = elim (ℕ_discrete q p) [
  | yes e ↦ (ground (arith, e), ground (arith, e))
  | no ne ↦ (ground (arith, ne), ground (arith, ne))
]

-- The loop gives each interrupt of the list the load that its counts say.
assign_loop :
    (n : ℕ) (l : List Ptr) (q : Ptr) (s : State)
    → (irq_diff ((for_each l (assign_load_slice n) s).irqs q) ≡ irq_diff (s.irqs q))
      × (((for_each l (assign_load_slice n) s).irqs q).load
          ≡ (if count q l == 0 then (s.irqs q).load else slice_load n (s.irqs q)))
unfolding for_each
assign_loop n [] q s = (refl, ground arith)
assign_loop n (p ∷ ps) q s =
    let step = assign_step n p q s in
    let rest = assign_loop n ps q (assign_load_slice n p s) in
    (rest.0 ∙ step.0, rest.1 ∙ rw step.0 (rw step.1 (ground arith)))

-- Each load is at least 1, and at most 1 above the exact product.
slice_load_bounds :
    (n : ℕ) (i : IrqInfo) → (0 < slice_load n i) × (slice_load n i ≤ irq_diff i * n + 1)
slice_load_bounds n i = generic (irq_diff i * n)
  where
    generic : (x : ℕ) → (0 < at_least_one (x % u64_mod)) × (at_least_one (x % u64_mod) ≤ x + 1)
    generic x = ground arith

assigned_load :
    (n : ℕ) (l : List Ptr) (q : Ptr) (s : State)
    → 0 < count q l
    → ((for_each l (assign_load_slice n) s).irqs q).load ≡ slice_load n (s.irqs q)
assigned_load n l q s h =
    let some_count : (count q l == 0) ≡ false = ground (arith, h) in
    (assign_loop n l q s).1 ∙ rw some_count refl

add_times : (a b n : ℕ) → (a + b) * n ≡ a * n + b * n
add_times a b n = grind arith

total_load_bound :
    (n : ℕ) (s t : State) (l : List Ptr)
    → ((q : Ptr) → 0 < count q l → (t.irqs q).load ≡ slice_load n (s.irqs q))
    → total_load t.irqs l ≤ total_diff s.irqs l * n + length l
total_load_bound n s t [] h = omega arith
total_load_bound n s t (p ∷ ps) h =
    let rest = total_load_bound n s t ps (λ q k. h q (omega (arith, k))) in
    let here = h p (ground arith) in
    let bound = (slice_load_bounds n (s.irqs p)).1 in
    let spread = add_times (irq_diff (s.irqs p)) (total_diff s.irqs ps) n in
    omega (arith, rest, here, bound, spread)

-- A slice for each of at most `count` comings is not more than the load.
slice_total : (load n d : ℕ) → d ≤ n → d * slice_of load n ≤ load
slice_total load n d h = elim (Bool-cases (n == 0)) [
  | inl e ↦ rw (slice_of, e) (ground (arith, e, h))
  | inr e ↦
      rw (slice_of, e) (below_product load n d (load / n) h (omega (arith, mod-add-div load n)))
]
  where
    below_product : (load n d q : ℕ) → d ≤ n → n * q ≤ load → d * q ≤ load
    below_product load n d q h k = grind arith

-- The branch of an object counts on the shape of the tree and the counts of the interrupts only.
share_same :
    (depth : ℕ) (s t : State) (e : Ptr)
    → t.irqs ≡ s.irqs
    → ((o : Ptr) → SameObj (s.objs o) (t.objs o))
    → get_parent_branch_irq_count_share depth t e ≡ get_parent_branch_irq_count_share depth s e
unfolding get_parent_branch_irq_count_share accumulate_irq_count
share_same zero s t e irqs objs = refl
share_same (suc k) s t e irqs objs =
    let parent : (t.objs e).parent ≡ (s.objs e).parent = ap (λ (d : TopoObj). d.parent) (objs e) in
    elim (Option-cases (s.objs e).parent) [
      | inl top ↦ rw (get_parent_branch_irq_count_share, parent ∙ top, top) (ap some (here 0))
      | inr (up, on) ↦
          let above = share_same k s t up irqs objs in
          let kids : length (t.objs up).children ≡ length (s.objs up).children =
            ap (λ (d : TopoObj). length d.children) (objs up) in
          elim (Option-cases (get_parent_branch_irq_count_share k s up)) [
            | inl lost ↦
                rw (get_parent_branch_irq_count_share, parent ∙ on, on, above ∙ lost, lost) refl
            | inr (total, found) ↦ elim (Bool-cases (length (s.objs up).children == 0)) [
              | inl zero_kids ↦
                  rw
                    (
                      get_parent_branch_irq_count_share,
                      parent ∙ on,
                      on,
                      above ∙ found,
                      found,
                      kids,
                      zero_kids,
                    )
                    refl
              | inr some_kids ↦
                  rw
                    (
                      get_parent_branch_irq_count_share,
                      parent ∙ on,
                      on,
                      above ∙ found,
                      found,
                      kids,
                      some_kids,
                    )
                    (ap some (here (total / length (s.objs up).children)))
            ]
          ]
    ]
  where
    here :
        (x : ℕ)
        → for_each (t.objs e).interrupts (accumulate_irq_count t) x
          ≡ for_each (s.objs e).interrupts (accumulate_irq_count s) x
    here x =
        ap₂
          (λ (l : List Ptr) (f : Ptr → IrqInfo).
            for_each l (λ (p : Ptr) (acc : ℕ). add64 acc (irq_diff (f p))) x)
          (ap (λ (d : TopoObj). d.interrupts) (objs e)) irqs

-- The object with its load divided, as compute_irq_branch_load_share has it.
abbrev divided : Ptr → State → State
divided d s =
    set_obj d
      (record (s.objs d) { load = (s.objs d).load / at_least_one (length (s.objs d).children) }) s

add_to_parent_irqs : (d : Ptr) (s : State) → (add_to_parent d s).irqs ≡ s.irqs
unfolding add_to_parent
add_to_parent_irqs d s = elim (Option-cases (s.objs d).parent) [
  | inl top ↦ rw (add_to_parent, top) refl
  | inr (up, e) ↦ rw (add_to_parent, e) refl
]

empty_list : (l : List Ptr) → (length l == 0) ≡ true → l ≡ []
empty_list [] h = refl
empty_list (p ∷ ps) h = absurd (ground (arith, h))

-- What the interrupts of an object with this load have.
record Sliced (irqs : Ptr → IrqInfo) (l : List Ptr) (load : ℕ) : Type 0 where
  above_zero : (p : Ptr) → 0 < count p l → 0 < (irqs p).load
  bounded : total_load irqs l ≤ load + length l

assign_bounds :
    (depth : ℕ) (d : Ptr) (u : State) (n : ℕ)
    → get_parent_branch_irq_count_share depth u d ≡ some n
    → total_diff u.irqs (u.objs d).interrupts ≤ n
    → Sliced (assign_slices depth d u).irqs (u.objs d).interrupts (u.objs d).load
unfolding assign_slices
assign_bounds depth d u n h fits =
    let l = (u.objs d).interrupts in
    let slice = slice_of (u.objs d).load n in
    elim (Bool-cases (length l == 0)) [
      | inl e ↦
          rw (assign_slices, e)
            (subst (λ k. Sliced u.irqs k (u.objs d).load) (sym (empty_list l e))
              (record { above_zero = λ p k. absurd (omega (arith, k)); bounded = omega arith }))
      | inr e ↦
          rw (assign_slices, e, h)
            record {
              above_zero = λ p k.
                  subst (λ x. 0 < x) (sym (assigned_load slice l p u k))
                    (slice_load_bounds slice (u.irqs p)).0;
              bounded = omega (
                arith,
                total_load_bound slice u (for_each l (assign_load_slice slice) u) l
                    (λ q k. assigned_load slice l q u k),
                slice_total (u.objs d).load n (total_diff u.irqs l) fits,
              );
            }
    ]

-- When the count of an object's branch is returned and is not below what the object's own interrupts add to
-- it, which it is not unless the sum exceeds 64 bits, then compute_irq_branch_load_share gives each of these
-- interrupts a load above 0, and together they get at most the load of the object over the number of its
-- children, and 1 for each of them.
pub share_bounds :
    (depth : ℕ) (d : Ptr) (s : State) (n : ℕ)
    → get_parent_branch_irq_count_share depth s d ≡ some n
    → total_diff s.irqs (s.objs d).interrupts ≤ n
    → let t = compute_irq_branch_load_share depth d s in
      let l = (s.objs d).interrupts in
      ((p : Ptr) → 0 < count p l → 0 < (t.irqs p).load)
      × (total_load t.irqs l
          ≤ (s.objs d).load / at_least_one (length (s.objs d).children) + length l)
unfolding compute_irq_branch_load_share
share_bounds depth d s n h fits =
    let u = divided d s in
    let here : u.objs d
        ≡ record (s.objs d) { load = (s.objs d).load / at_least_one (length (s.objs d).children) } =
      update_self s.objs d _ in
    let ints : (u.objs d).interrupts ≡ (s.objs d).interrupts =
      ap (λ (x : TopoObj). x.interrupts) here in
    let load : (u.objs d).load ≡ (s.objs d).load / at_least_one (length (s.objs d).children) =
      ap (λ (x : TopoObj). x.load) here in
    let sliced =
      assign_bounds depth d u n
        (share_same depth s u d refl (set_obj-OnlyLoads d _ s refl).objs_same ∙ h)
        (subst (λ l. total_diff s.irqs l ≤ n) (sym ints) fits) in
    let there =
      subst
        (λ k.
          Sliced k (s.objs d).interrupts
            ((s.objs d).load / at_least_one (length (s.objs d).children)))
        (sym (add_to_parent_irqs d (assign_slices depth d u)))
        (subst (λ x. Sliced (assign_slices depth d u).irqs (s.objs d).interrupts x) load
          (subst (λ l. Sliced (assign_slices depth d u).irqs l (u.objs d).load) ints sliced)) in
    (there.above_zero, there.bounded)
