-- ===== src/Irq/Balance/Stats.antt =====
-- The statistics of find_overloaded_objs.
use code_analyze.Prelude.{
  ℕ, ◌+◌, ◌/◌, ◌%◌, ◌<◌, ◌≤◌, ◌≡◌, refl, sym, ap, ap₂, ◌∙◌, subst, List, [], ◌∷◌, count, ◌==◌,
  if◌then◌else◌, arith, length, ℕ_discrete, ◌++◌, ◌⊎◌, inl, inr, count-append, ltb, ◌||◌,
  Bool-cases,
}
use code_analyze.Irq.Types.{Ptr, State, u64_mod}
use code_analyze.Irq.Lists.{for_each}
use code_analyze.Irq.Balance.{
  LongDouble, LoadBalanceInfo, gather_load_stats, compute_deviations, no_info, set_average,
  load_stats,
}

-- The sum of the loads of a list of objects.
abbrev pub total_of : State → List Ptr → ℕ
total_of s [] = 0
total_of s (o ∷ os) = (s.objs o).load + total_of s os

module _ (s : State) where
  -- The smallest load of the list, which one of its objects has; 0 for no object.
  pub record Least (l : List Ptr) (m : ℕ) : Type 0 where
    pub lower : (o : Ptr) → 0 < count o l → m ≤ (s.objs o).load
    pub attained : ((l ≡ []) × (m ≡ 0)) ⊎ ((o : Ptr) × (0 < count o l) × ((s.objs o).load ≡ m))

  -- The objects of a list behind the last one whose load is 0, after those kept of what stands before.
  abbrev pub behind_zero : List Ptr → List Ptr → List Ptr
  behind_zero kept [] = kept
  behind_zero kept (x ∷ xs) = behind_zero (if (s.objs x).load == 0 then [] else kept ++ x ∷ []) xs

  abbrev Loaded : List Ptr → Type 0
  Loaded l = (o : Ptr) → 0 < count o l → 0 < (s.objs o).load

  snoc-Loaded : (l : List Ptr) (x : Ptr) → Loaded l → 0 < (s.objs x).load → Loaded (l ++ x ∷ [])
  snoc-Loaded l x h hx o k = elim (ℕ_discrete x o) [
    | yes e ↦ subst (λ y. 0 < (s.objs y).load) e hx
    | no ne ↦ h o (ground (arith, k, ne, count-append o l (x ∷ [])))
  ]

  abbrev lesser : ℕ → ℕ → ℕ
  lesser load m = if m == 0 || ltb load m then load else m

  snoc-lower :
      (l : List Ptr) (x : Ptr) (r : ℕ)
      → ((o : Ptr) → 0 < count o l → r ≤ (s.objs o).load)
      → r ≤ (s.objs x).load
      → (o : Ptr) → 0 < count o (l ++ x ∷ [])
      → r ≤ (s.objs o).load
  snoc-lower l x r h hx o k = elim (ℕ_discrete x o) [
    | yes e ↦ subst (λ y. r ≤ (s.objs y).load) e hx
    | no ne ↦ h o (ground (arith, k, ne, count-append o l (x ∷ [])))
  ]

  snoc-last : (l : List Ptr) (x : Ptr) → 0 < count x (l ++ x ∷ [])
  snoc-last l x = ground (arith, count-append x l (x ∷ []))

  snoc-Least :
      (l : List Ptr) (x : Ptr) (m : ℕ)
      → Least l m
      → Loaded l
      → Least (l ++ x ∷ []) (lesser (s.objs x).load m)
  snoc-Least l x m v h = elim v.attained [
    | inl (empty, zero_m) ↦
        let same : lesser (s.objs x).load m ≡ (s.objs x).load = ground (arith, zero_m) in
        subst (Least (l ++ x ∷ [])) (sym same) (record {
          lower =
              snoc-lower l x (s.objs x).load
                (λ o k.
                  absurd (let no : count o l ≡ 0 = ap (count o) empty in omega (arith, k, no)))
                (omega arith);
          attained = inr (x, snoc-last l x, refl);
        })
    | inr (p, k, e) ↦
        let loaded = h p k in
        elim (Bool-cases (ltb (s.objs x).load m)) [
          | inl less ↦
              let same : lesser (s.objs x).load m ≡ (s.objs x).load = ground (arith, less) in
              subst (Least (l ++ x ∷ [])) (sym same) (record {
                lower =
                    snoc-lower l x (s.objs x).load (λ o q. ground (arith, less, v.lower o q))
                      (omega arith);
                attained = inr (x, snoc-last l x, refl);
              })
          | inr not_less ↦
              let same : lesser (s.objs x).load m ≡ m = ground (arith, not_less, loaded, e) in
              subst (Least (l ++ x ∷ [])) (sym same) (record {
                lower = snoc-lower l x m v.lower (ground (arith, not_less));
                attained = inr (p, omega (arith, k, count-append p l (x ∷ [])), e);
              })
        ]
  ]

  none-Least : Least [] 0
  none-Least = record { lower = λ o k. absurd (omega (arith, k)); attained = inl (refl, refl) }

  none-Loaded : Loaded []
  none-Loaded o k = absurd (omega (arith, k))

module _ {V : Type 0} (s : State) where
  gather_total :
      (l : List Ptr) (info : LoadBalanceInfo V)
      → ((for_each l (gather_load_stats s) info).total_load % u64_mod
          ≡ (info.total_load + total_of s l) % u64_mod)
        × ((for_each l (gather_load_stats s) info).load_sources ≡ info.load_sources + length l)
  unfolding for_each gather_load_stats
  gather_total [] info = (omega arith, omega arith)
  gather_total (x ∷ xs) info =
      let rest = gather_total xs (gather_load_stats s x info) in
      (omega (arith, rest.0), omega (arith, rest.1))

  gather_bounded :
      (l : List Ptr) (info : LoadBalanceInfo V)
      → info.total_load < u64_mod
      → (for_each l (gather_load_stats s) info).total_load < u64_mod
  unfolding for_each gather_load_stats
  gather_bounded [] info h = h
  gather_bounded (x ∷ xs) info h = gather_bounded xs (gather_load_stats s x info) (omega arith)

  -- The smallest load so far is that of the objects kept, and stays so.
  gather-Least :
      (l kept : List Ptr) (info : LoadBalanceInfo V)
      → Least s kept info.min_load
      → Loaded s kept
      → Least s (behind_zero s kept l) (for_each l (gather_load_stats s) info).min_load
  unfolding for_each gather_load_stats
  gather-Least [] kept info v h = v
  gather-Least (x ∷ xs) kept info v h = elim (Bool-cases ((s.objs x).load == 0)) [
    | inl zero_load ↦
        let z : (s.objs x).load ≡ 0 = ground (arith, zero_load) in
        let new : (gather_load_stats s x info).min_load ≡ 0 = ground (arith, z) in
        subst
          (λ k.
            Least s (behind_zero s k xs)
              (for_each xs (gather_load_stats s) (gather_load_stats s x info)).min_load)
          (let cut : [] ≡ (if (s.objs x).load == 0 then [] else kept ++ x ∷ []) =
              ground (arith, zero_load) in
            cut)
          (gather-Least xs [] (gather_load_stats s x info)
            (subst (Least s []) (sym new) (none-Least s)) (none-Loaded s))
    | inr loaded ↦
        subst
          (λ k.
            Least s (behind_zero s k xs)
              (for_each xs (gather_load_stats s) (gather_load_stats s x info)).min_load)
          (let keep : kept ++ x ∷ [] ≡ (if (s.objs x).load == 0 then [] else kept ++ x ∷ []) =
              ground (arith, loaded) in
            keep)
          (gather-Least xs (kept ++ x ∷ []) (gather_load_stats s x info)
            (snoc-Least s kept x info.min_load v h)
            (snoc-Loaded s kept x h (ground (arith, loaded))))
  ]

  -- compute_deviations writes the deviations only.
  deviations_only :
      (l : List Ptr) (info : LoadBalanceInfo V)
      → ((for_each l (compute_deviations s) info).total_load ≡ info.total_load)
        × ((for_each l (compute_deviations s) info).avg_load ≡ info.avg_load)
        × ((for_each l (compute_deviations s) info).min_load ≡ info.min_load)
        × ((for_each l (compute_deviations s) info).load_sources ≡ info.load_sources)
  unfolding for_each compute_deviations
  deviations_only [] info = (refl, refl, refl, refl)
  deviations_only (x ∷ xs) info = deviations_only xs (compute_deviations s x info)

-- The statistics over a list of objects: the total is the sum of the loads, modulo 2 ^ 64, the average is
-- the total divided by the number of objects (by 1 for none), and the smallest load is that of the objects
-- behind the last one whose load is 0: one of these has it and none has less, and it is 0 where there are
-- none. A load of 0 makes it forget the objects before.
pub load_stats_lem :
    (f : LongDouble) (l : List Ptr) (s : State)
    → ((load_stats f l s).total_load ≡ total_of s l % u64_mod)
      × ((load_stats f l s).avg_load
          ≡ (total_of s l % u64_mod) / (if length l == 0 then 1 else length l))
      × Least s (behind_zero s [] l) (load_stats f l s).min_load
unfolding load_stats set_average
load_stats_lem f l s =
    let gathered = for_each l (gather_load_stats s) (no_info f) in
    let total = gather_total s l (no_info f) in
    let bounded = gather_bounded s l (no_info f) (omega arith) in
    let only = deviations_only s l (set_average gathered) in
    let is_total : gathered.total_load ≡ total_of s l % u64_mod = omega (arith, total.0, bounded) in
    let is_sources : gathered.load_sources ≡ length l = omega (arith, total.1) in
    (
      only.0 ∙ is_total,
      only.1 ∙ ap₂ (λ x y. x / (if y == 0 then 1 else y)) is_total is_sources,
      subst (Least s (behind_zero s [] l)) (sym only.2)
          (gather-Least s l [] (no_info f) (none-Least s) (none-Loaded s)),
    )

append-nil : (l : List Ptr) → l ++ [] ≡ l
append-nil [] = refl
append-nil (x ∷ xs) = ap (λ (t : List Ptr). x ∷ t) (append-nil xs)

append-snoc : (l : List Ptr) (x : Ptr) (xs : List Ptr) → (l ++ x ∷ []) ++ xs ≡ l ++ x ∷ xs
append-snoc [] x xs = refl
append-snoc (y ∷ l) x xs = ap (λ (t : List Ptr). y ∷ t) (append-snoc l x xs)

all_behind : (s : State) (l kept : List Ptr) → Loaded s l → behind_zero s kept l ≡ kept ++ l
all_behind s [] kept h = sym (append-nil kept)
all_behind s (x ∷ xs) kept h =
    let loaded : 0 < (s.objs x).load = h x (ground arith) in
    let keep : (if (s.objs x).load == 0 then [] else kept ++ x ∷ []) ≡ kept ++ x ∷ [] =
      ground (arith, loaded) in
    ap (λ k. behind_zero s k xs) keep
    ∙ all_behind s xs (kept ++ x ∷ []) (λ o k. h o (omega arith))
    ∙ append-snoc kept x xs

-- Where all loads are above 0, it is the smallest of all.
pub load_stats-Least :
    (f : LongDouble) (l : List Ptr) (s : State) → Loaded s l → Least s l (load_stats f l s).min_load
load_stats-Least f l s h =
    subst (λ k. Least s k (load_stats f l s).min_load) (all_behind s l [] h)
      (load_stats_lem f l s).2
