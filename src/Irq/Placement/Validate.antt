-- ===== src/Irq/Placement/Validate.antt =====
-- validate_object_tree_placement, the check of the tree that follows the placement in debug mode.
use code_analyze.Prelude.{
  ℕ, ◌+◌, ◌<◌, ◌≡◌, refl, ap, ◌∙◌, some, List, [], ◌∷◌, count, ltb, ◌==◌, if◌then◌else◌, arith,
  length, lt→ltb,
}
use code_analyze.Irq.Types.{Ptr, State}
use code_analyze.Irq.Lists.{interrupts_of, get_list, for_each, for_each_irq, GList}
use code_analyze.Irq.Lists.Ownership.{Owned}
use code_analyze.Irq.Placement.{
  validate_irq, validate_object, validate_object_tree_placement, calculate_placement,
}
use code_analyze.Irq.Placement.Ownership.{calculate_placement-Kept}

module _ (s : State) (v : Owned s) where
  irq_quiet : (d p : Ptr) (n : ℕ) → (s.irqs p).assigned_obj ≡ some d → validate_irq s d p n ≡ n
  unfolding validate_irq
  irq_quiet d p n e = rw e (if_self d)
    where
      if_self : (d : Ptr) → (if d == d then n else n + 1) ≡ n
      if_self d = ground arith

  irqs_quiet :
      (d : Ptr) (l : List Ptr) (n : ℕ)
      → ((p : Ptr) → 0 < count p l → (s.irqs p).assigned_obj ≡ some d)
      → for_each l (validate_irq s d) n ≡ n
  unfolding for_each validate_irq
  irqs_quiet d [] n h = refl
  irqs_quiet d (x ∷ xs) n h =
      ap (for_each xs (validate_irq s d)) (irq_quiet d x n (h x (ground arith)))
      ∙ irqs_quiet d xs n (λ p k. h p (omega arith))

  object_quiet : (d : Ptr) (n : ℕ) → validate_object s d n ≡ n
  unfolding validate_object for_each_irq for_each get_list validate_irq
  object_quiet d n = go (s.objs d).interrupts (λ p h. v.owner (interrupts_of d) p h)
    where
      go :
          (l : List Ptr)
          → ((p : Ptr) → 0 < count p l → (s.irqs p).assigned_obj ≡ some d)
          → (if ltb 0 (length l) then for_each_irq s.interrupts_db l (validate_irq s d) n else n)
            ≡ n
      go [] h = refl
      go (x ∷ xs) h = rw (lt→ltb 0 (length (x ∷ xs)) (omega arith)) (irqs_quiet d (x ∷ xs) n h)

  objects_quiet : (l : List Ptr) (n : ℕ) → for_each l (validate_object s) n ≡ n
  unfolding for_each
  objects_quiet [] n = refl
  objects_quiet (x ∷ xs) n =
      ap (for_each xs (validate_object s)) (object_quiet x n) ∙ objects_quiet xs n

-- With ownership intact before calculate_placement, its check of the tree logs no message afterwards.
pub calculate_placement_validates :
    (g : GList) (s : State) → Owned s → validate_object_tree_placement (calculate_placement g s) ≡ 0
unfolding validate_object_tree_placement
calculate_placement_validates g s v =
    let t = calculate_placement g s in
    let w = (calculate_placement-Kept g s v).owned in
    objects_quiet t w t.cpus
      (for_each t.cache_domains (validate_object t) (for_each t.packages (validate_object t) 0))
    ∙ objects_quiet t w t.cache_domains (for_each t.packages (validate_object t) 0)
    ∙ objects_quiet t w t.packages 0
