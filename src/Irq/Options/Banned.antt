-- ===== src/Irq/Options/Banned.antt =====
-- The interrupts that the option --banirq keeps out of the database.
use code_analyze.Prelude.{
  ℕ, ◌<◌, ◌≡◌, ◌≢◌, ◌⊎◌, inl, inr, refl, ◌∙◌, subst, true, Option, none, some, List, [], ◌∷◌, count,
  count-append, arith, ◌==◌, ltb, ◌||◌, Option-cases, Bool-cases,
}
use code_analyze.Irq.Text.{Bytes, strtoul}
use code_analyze.Irq.Types.{Ptr, State, exact, subset, ignore}
use code_analyze.Irq.Db.Policy.{value_exact, value_subset, value_ignore}
use code_analyze.Irq.Lists.{find_irq}
use code_analyze.Irq.Db.{add_cl_banned_irq, alloc_irq, new_irq}
use code_analyze.Irq.Db.Valid.{find_some}
use code_analyze.Irq.Cycle.{Sysfs, build_object_tree}
use code_analyze.Irq.Cycle.Bare.{Bare}
use code_analyze.Irq.Cycle.NewDatabase.{alloc_irq-Bare}
use code_analyze.Irq.Cycle.Built.{build_object_tree_bans}
use code_analyze.Irq.Options.{
  CommandOption, banirq, Settings, int_of, ulong_max, abbreviates, value_off, unknown, oneshot,
  debug, foreground, hintpolicy, powerthresh, banscript, deepestcache, policyscript, pid, set_hint,
  parse_hint, parse_cache, parse_banirq, set_threshold, parse_threshold, parse_option,
  parse_command_line, Environment, ban_cpus, read_environment,
}

Both : (ℕ → Type 0) → (ℕ → Type 0) → ℕ → Type 0
Both P Q n = P n ⊎ Q n

add_cl_banned_irq-Bare :
    {Ban : ℕ → Type 0} (n : ℕ) (s : State)
    → Bare Ban s
    → Bare (Both Ban (λ m. n ≡ m)) (add_cl_banned_irq n s)
unfolding add_cl_banned_irq Both alloc_irq
add_cl_banned_irq-Bare n s b = elim (Option-cases (find_irq s.irqs n s.cl_banned_irqs)) [
  | inr (p, e) ↦
      rw (add_cl_banned_irq, e)
        (record {
          objs_empty = b.objs_empty;
          unassigned = b.unassigned;
          none_waits = b.none_waits;
          cl_old = b.cl_old;
          bans = λ m ban. elim ban [
            | inl old ↦ b.bans m old
            | inr same ↦ let f = find_some s.irqs n s.cl_banned_irqs p e in (p, f.0, f.1 ∙ same)
          ];
        })
  | inl e ↦
      let t = alloc_irq-Bare (record (new_irq n) { banned = true; hint_policy = exact }) s refl b in
      simp (add_cl_banned_irq, e)
        (record {
          objs_empty = t.objs_empty;
          unassigned = t.unassigned;
          none_waits = t.none_waits;
          cl_old = λ p h.
              ground (arith, h, b.cl_old p, count-append p s.cl_banned_irqs (s.next_irq ∷ []));
          bans = λ m ban. elim ban [
            | inl old ↦
                let (q, listed, number) = t.bans m old in
                (
                  q,
                  omega (arith, listed, count-append q s.cl_banned_irqs (s.next_irq ∷ [])),
                  number,
                )
            | inr same ↦ (
              s.next_irq,
              ground (arith, count-append s.next_irq s.cl_banned_irqs (s.next_irq ∷ [])),
              ground (arith, same),
            )
          ];
        })
]

-- Where there is a result, it has the property.
OnSome : (Settings → Type 0) → Option Settings → Type 0
OnSome P none = Unit {0}
OnSome P (some c) = P c

some-OnSome : (P : Settings → Type 0) (c : Settings) → P c → OnSome P (some c)
unfolding OnSome
some-OnSome P c h = h

none-OnSome : (P : Settings → Type 0) → OnSome P none
unfolding OnSome
none-OnSome P = tt

-- The number that an option bans.
abbrev pub BansNumber : CommandOption → ℕ → Type 0
BansNumber (banirq optarg) n = int_of (strtoul optarg) ≡ n
BansNumber _ n = ⊥

unfoldable pub Bans : List CommandOption → ℕ → Type 0
Bans [] n = ⊥
Bans (o ∷ os) n = BansNumber o n ⊎ Bans os n

fewer : {P Q : ℕ → Type 0} (s : State) → ((n : ℕ) → Q n → P n) → Bare P s → Bare Q s
fewer s sub b = record {
  objs_empty = b.objs_empty;
  unassigned = b.unassigned;
  none_waits = b.none_waits;
  cl_old = b.cl_old;
  bans = λ n ban. b.bans n (sub n ban);
}

no_more : {Ban : ℕ → Type 0} (s : State) → Bare Ban s → Bare (Both Ban (λ n. ⊥)) s
unfolding Both
no_more s b = fewer s (λ n ban. elim ban [ inl old ↦ old | inr never ↦ absurd never ]) b

abbrev NoMore : (ℕ → Type 0) → Settings → Type 0
NoMore Ban d = Bare (Both Ban (λ n. ⊥)) d.state

parse_hint-NoMore :
    (Ban : ℕ → Type 0) (a : Bytes) (c : Settings)
    → Bare Ban c.state
    → OnSome (NoMore Ban) (parse_hint a c)
unfolding parse_hint set_hint
parse_hint-NoMore Ban a c b =
    let same = no_more c.state b in
    elim (Bool-cases (abbreviates a value_exact)) [
      | inl e ↦ rw (parse_hint, e) (some-OnSome (NoMore Ban) (set_hint exact c) same)
      | inr e ↦ elim (Bool-cases (abbreviates a value_subset)) [
        | inl f ↦ rw (parse_hint, e, f) (some-OnSome (NoMore Ban) (set_hint subset c) same)
        | inr f ↦ elim (Bool-cases (abbreviates a value_ignore)) [
          | inl g ↦ rw (parse_hint, e, f, g) (some-OnSome (NoMore Ban) (set_hint ignore c) same)
          | inr g ↦ rw (parse_hint, e, f, g) (none-OnSome (NoMore Ban))
        ]
      ]
    ]

parse_cache-NoMore :
    (Ban : ℕ → Type 0) (a : Bytes) (c : Settings)
    → Bare Ban c.state
    → OnSome (NoMore Ban) (parse_cache a c)
unfolding parse_cache
parse_cache-NoMore Ban a c b = elim (Bool-cases (strtoul a == ulong_max || ltb (strtoul a) 1)) [
  | inl e ↦ rw (parse_cache, e) (none-OnSome (NoMore Ban))
  | inr e ↦ rw (parse_cache, e) (some-OnSome (NoMore Ban) _ (no_more c.state b))
]

parse_threshold-NoMore :
    (Ban : ℕ → Type 0) (a : Bytes) (c : Settings)
    → Bare Ban c.state
    → OnSome (NoMore Ban) (parse_threshold a c)
unfolding parse_threshold set_threshold
parse_threshold-NoMore Ban a c b =
    let same = no_more c.state b in
    elim (Bool-cases (abbreviates a value_off)) [
      | inl e ↦ rw (parse_threshold, e) (some-OnSome (NoMore Ban) (set_threshold ulong_max c) same)
      | inr e ↦ elim (Bool-cases (strtoul a == ulong_max)) [
        | inl f ↦ rw (parse_threshold, e, f) (none-OnSome (NoMore Ban))
        | inr f ↦
            rw (parse_threshold, e, f) (some-OnSome (NoMore Ban) (set_threshold (strtoul a) c) same)
      ]
    ]

parse_banirq-Bare :
    (Ban : ℕ → Type 0) (a : Bytes) (c : Settings)
    → Bare Ban c.state
    → OnSome (λ d. Bare (Both Ban (λ n. int_of (strtoul a) ≡ n)) d.state) (parse_banirq a c)
unfolding parse_banirq
parse_banirq-Bare Ban a c b = elim (Bool-cases (strtoul a == ulong_max)) [
  | inl e ↦
      rw (parse_banirq, e)
        (none-OnSome (λ d. Bare (Both Ban (λ n. int_of (strtoul a) ≡ n)) d.state))
  | inr e ↦
      rw (parse_banirq, e)
        (some-OnSome (λ d. Bare (Both Ban (λ n. int_of (strtoul a) ≡ n)) d.state) _
          (add_cl_banned_irq-Bare (int_of (strtoul a)) c.state b))
]

parse_option-Bare :
    (Ban : ℕ → Type 0) (o : CommandOption) (c : Settings)
    → Bare Ban c.state
    → OnSome (λ d. Bare (Both Ban (BansNumber o)) d.state) (parse_option o c)
unfolding parse_option
parse_option-Bare Ban unknown c b = none-OnSome _
parse_option-Bare Ban (banscript a) c b = none-OnSome _
parse_option-Bare Ban (deepestcache a) c b = parse_cache-NoMore Ban a c b
parse_option-Bare Ban debug c b = some-OnSome _ _ (no_more c.state b)
parse_option-Bare Ban foreground c b = some-OnSome _ _ (no_more c.state b)
parse_option-Bare Ban (hintpolicy a) c b = parse_hint-NoMore Ban a c b
parse_option-Bare Ban (banirq a) c b = parse_banirq-Bare Ban a c b
parse_option-Bare Ban (policyscript a) c b = some-OnSome _ _ (no_more c.state b)
parse_option-Bare Ban (powerthresh a) c b = parse_threshold-NoMore Ban a c b
parse_option-Bare Ban oneshot c b = some-OnSome _ _ (no_more c.state b)
parse_option-Bare Ban (pid a) c b = some-OnSome _ _ (no_more c.state b)

parsed-Bare :
    (Ban : ℕ → Type 0) (o : CommandOption) (c d : Settings)
    → Bare Ban c.state
    → parse_option o c ≡ some d
    → Bare (Both Ban (BansNumber o)) d.state
unfolding OnSome
parsed-Bare Ban o c d b e =
    subst (OnSome (λ d. Bare (Both Ban (BansNumber o)) d.state)) e (parse_option-Bare Ban o c b)

regroup : (P Q R : ℕ → Type 0) (n : ℕ) → Both P (λ m. Q m ⊎ R m) n → Both (Both P Q) R n
unfolding Both
regroup P Q R n (inl p) = inl (inl p)
regroup P Q R n (inr (inl q)) = inl (inr q)
regroup P Q R n (inr (inr r)) = inr r

some_injective : (c d : Settings) → (◌≡◌ {A = Option Settings} (some c) (some d)) → c ≡ d
some_injective c d e = cc

parse_command_line-Bare :
    (Ban : ℕ → Type 0) (os : List CommandOption) (c t : Settings)
    → Bare Ban c.state
    → parse_command_line os c ≡ some t
    → Bare (Both Ban (Bans os)) t.state
unfolding parse_command_line Bans
parse_command_line-Bare Ban [] c t b h =
    no_more t.state (subst (λ x. Bare Ban x.state) (some_injective c t h) b)
parse_command_line-Bare Ban (o ∷ os) c t b h = elim (Option-cases (parse_option o c)) [
  | inl e ↦ absurd (ground (arith, h, e))
  | inr (d, e) ↦
      let rest =
        parse_command_line-Bare (Both Ban (BansNumber o)) os d t (parsed-Bare Ban o c d b e)
          (ground (arith, h, e)) in
      fewer t.state (regroup Ban (BansNumber o) (Bans os)) rest
]

read_environment-Bare :
    {Ban : ℕ → Type 0} (env : Environment) (c : Settings)
    → Bare Ban c.state
    → Bare Ban (read_environment env c).state
unfolding read_environment ban_cpus
read_environment-Bare env c b = banned env.banned_cpus b
  where
    banned :
        {Ban : ℕ → Type 0} (m : Option Bytes) → Bare Ban c.state → Bare Ban (ban_cpus m c.state)
    banned none h = h
    banned (some buf) h = fewer c.state (λ n ban. ban) h

-- Where the command line is accepted, no interrupt of the database that is then built has a number that an
-- option --banirq gives, whatever the environment and the files have, from a state in which no interrupt
-- is placed.
pub banirq_stays_out :
    (os : List CommandOption) (c t : Settings) (env : Environment) (sys : Sysfs)
    (table : Option (List Bytes))
    → Bare (λ n. ⊥) c.state
    → parse_command_line os c ≡ some t
    → (n : ℕ) → Bans os n
    → (p : Ptr)
    → 0 < count p (build_object_tree sys table (read_environment env t).state).interrupts_db
    → ((build_object_tree sys table (read_environment env t).state).irqs p).irq ≢ n
unfolding Both
banirq_stays_out os c t env sys table b h n ban p listed =
    let parsed = parse_command_line-Bare (λ n. ⊥) os c t b h in
    build_object_tree_bans sys table (read_environment env t).state
      (read_environment-Bare env t parsed) n (inr ban) p listed
