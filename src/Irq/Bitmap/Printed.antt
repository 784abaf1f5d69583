-- ===== src/Irq/Bitmap/Printed.antt =====
-- __bitmap_parse on the chunks that bitmap_scnprintf prints, one by one.
use code_analyze.Prelude.{
  ℕ, zero, suc, ◌^◌, ◌<◌, ◌≡◌, ◌⊎◌, inl, inr, refl, ap, sym, ◌∙◌, subst, List, [], ◌∷◌, arith, true,
  false, not, ◌&&◌, ◌||◌, Bool-cases, ltb, if◌then◌else◌, ◌==◌,
}
use code_analyze.Irq.Text.{Bytes, isspace}
use code_analyze.Irq.Cpumask.{Cpumask}
use code_analyze.Irq.Bitmap.{
  nr_cpus, Parsing, Code, success, put_chunk, end_chunk, parse_from, print_hex, print_from,
  nonempty,
}
use code_analyze.Irq.Bitmap.Chunks.{AreWords, chunks, shift_in, nth, chunk_at-nth}
use code_analyze.Irq.Bitmap.Digits.{print_hex-Read, Small-chunk, no_embedded}
use code_analyze.Irq.Bitmap.Pending.{push_all, seq_down, Pending, Fresh, put_chunk-Put}

nth-chunks-lt : (k : ℕ) (m : Cpumask) → AreWords m → nth k (chunks m) < 2 ^ 32
nth-chunks-lt k [] h = omega arith
nth-chunks-lt zero (w ∷ ws) h = omega arith
nth-chunks-lt (suc zero) (w ∷ ws) h = omega (arith, h.0)
nth-chunks-lt (suc (suc k)) (w ∷ ws) h = nth-chunks-lt k ws h.1

-- The text of a chunk behind another, with those that follow.
print_next :
    (k : ℕ) (m : Cpumask)
    → AreWords m
    → print_from (suc k) false m ≡ 44 ∷ print_hex 8 (nth k (chunks m)) (print_from k false m)
unfolding print_from
print_next k m h =
    simp (print_from, chunk_at-nth k m h) (pick (print_from k false m) (nth k (chunks m)) k)
  where
    pick :
        {a : Bytes} (b : Bytes) (v k : ℕ)
        → (if not (v == 0) || not false || k == 0 then a else b) ≡ a
    pick b v k = elim (Bool-cases (v == 0)) [ inl e ↦ simp e refl | inr e ↦ simp e refl ]

-- The digits of a chunk, in the state before it.
read_chunk :
    (v k : ℕ) (out : Bytes) (q : Parsing) (l : List ℕ)
    → v < 2 ^ 32
    → Fresh q (suc k) l
    → ((q.nchunks == 0 && v == 0) ≡ false) ⊎ ((k ≡ 0) × (shift_in v l ≡ l))
    → (r : Parsing) × Pending r v k l
      × (r.nchunks ≡ q.nchunks)
      × (parse_from (print_hex 8 v out) q ≡ parse_from out r)
read_chunk v k out q l small f kept =
    let (r, d, e) = print_hex-Read 8 v out q (Small-chunk v small) small f.chunk f.no_space in
    (
      r,
      record {
        chunk = d.chunk;
        small = small;
        digits = ground (arith, d.digits, f.digits);
        no_space = d.no_space;
        kept =
            subst (λ n. ((n == 0 && v == 0) ≡ false) ⊎ ((k ≡ 0) × (shift_in v l ≡ l)))
              (sym d.nchunks) kept;
        room = omega (arith, d.nbits, f.room);
        mask = ap chunks d.maskp ∙ f.mask;
        words = subst AreWords (sym d.maskp) f.words;
      },
      d.nchunks,
      e,
    )

pub record Parsed (r : Cpumask × Code) (l : List ℕ) : Type 0 where
  pub mask : chunks r.0 ≡ l
  pub words : AreWords r.0
  pub code : r.1 ≡ success

-- A comma ends a chunk, and the loop goes on.
parse_comma :
    (t : Bytes) (p : Parsing)
    → nonempty t ≡ true
    → isspace p.c ≡ false
    → (p.ndigits == 0) ≡ false
    → ltb nr_cpus (put_chunk (record p { c = 44 })).nbits ≡ false
    → parse_from (44 ∷ t) p ≡ parse_from t (put_chunk (record p { c = 44 }))
unfolding parse_from end_chunk
parse_comma t p more space digits within =
    let embedded : (not (p.totaldigits == 0) && true && isspace p.c) ≡ false =
      no_embedded p 44 space in
    rw (parse_from, embedded, more, end_chunk, digits, within) refl

nonempty-print_hex : (v : ℕ) (out : Bytes) → nonempty (print_hex 8 v out) ≡ true
unfolding print_hex
nonempty-print_hex v out = refl

parse_end :
    (p : Parsing)
    → (p.ndigits == 0) ≡ false
    → ltb nr_cpus (put_chunk p).nbits ≡ false
    → parse_from [] p ≡ ((put_chunk p).maskp, success)
unfolding parse_from end_chunk
parse_end p digits within = simp (parse_from, end_chunk, digits, within) refl

comma-Pending :
    (p : Parsing) (v k : ℕ) (l : List ℕ) → Pending p v k l → Pending (record p { c = 44 }) v k l
comma-Pending p v k l h = record {
  chunk = h.chunk;
  small = h.small;
  digits = h.digits;
  no_space = refl;
  kept = h.kept;
  room = h.room;
  mask = h.mask;
  words = h.words;
}

-- The chunk that is pending, and the k that are printed behind it.
parse-Pending :
    (k : ℕ) (m : Cpumask) (p : Parsing) (v : ℕ) (l : List ℕ)
    → AreWords m
    → Pending p v k l
    → Parsed (parse_from (print_from k false m) p) (push_all (v ∷ seq_down k (chunks m)) l)
unfolding print_from
parse-Pending zero m p v l w h =
    let put = put_chunk-Put p v 0 l h in
    subst (λ r. Parsed r (shift_in v l)) (sym (parse_end p h.digits put.within))
      (record { mask = put.fresh.mask; words = put.fresh.words; code = refl })
parse-Pending (suc k) m p v l w h =
    let p' = record p { c = 44 } in
    let put = put_chunk-Put p' v (suc k) l (comma-Pending p v (suc k) l h) in
    let u = nth k (chunks m) in
    let kept : (p.nchunks == 0 && v == 0) ≡ false = elim h.kept [
      | inl b ↦ b
      | inr s ↦ absurd (omega (arith, s.0))
    ] in
    let (r, pending, same, e) =
      read_chunk u k (print_from k false m) (put_chunk p') (shift_in v l) (nth-chunks-lt k m w)
        put.fresh (inl (ground (arith, put.busy kept))) in
    subst (λ x. Parsed x (push_all (v ∷ u ∷ seq_down k (chunks m)) l))
      (sym (
        ap (λ t. parse_from t p) (print_next k m w)
        ∙ parse_comma (print_hex 8 u (print_from k false m)) p
            (nonempty-print_hex u (print_from k false m)) h.no_space h.digits put.within
        ∙ e))
      (parse-Pending k m r u (shift_in v l) w pending)

-- A round before a chunk is printed.
print_step :
    (k : ℕ) (m : Cpumask)
    → AreWords m
    → print_from (suc k) true m ≡ (
        if not (nth k (chunks m) == 0) || not true || k == 0
        then print_hex 8 (nth k (chunks m)) (print_from k false m)
        else print_from k true m)
unfolding print_from
print_step k m w =
    ap
      (λ v.
        if not (v == 0) || not true || k == 0
        then print_hex 8 v (print_from k false m)
        else print_from k true m)
      (chunk_at-nth k m w)

-- A chunk of zeros before the first that is printed is left out, unless it is the last.
print_skipped :
    (k : ℕ) (m : Cpumask)
    → AreWords m
    → nth (suc k) (chunks m) ≡ 0
    → print_from (suc (suc k)) true m ≡ print_from (suc k) true m
print_skipped k m w z =
    print_step (suc k) m w
    ∙ leave (print_hex 8 (nth (suc k) (chunks m)) (print_from (suc k) false m))
        (print_from (suc k) true m) (nth (suc k) (chunks m)) k z
  where
    leave :
        (a b : Bytes) (v k : ℕ)
        → v ≡ 0
        → (if not (v == 0) || not true || suc k == 0 then a else b) ≡ b
    leave a b v k z = ground (arith, z)

print_first :
    (k : ℕ) (m : Cpumask)
    → AreWords m
    → ((nth k (chunks m) == 0) ≡ false) ⊎ (k ≡ 0)
    → print_from (suc k) true m ≡ print_hex 8 (nth k (chunks m)) (print_from k false m)
print_first k m w first =
    print_step k m w
    ∙ pick (print_hex 8 (nth k (chunks m)) (print_from k false m)) (print_from k true m)
        (nth k (chunks m)) k first
  where
    pick :
        (a b : Bytes) (v k : ℕ)
        → ((v == 0) ≡ false) ⊎ (k ≡ 0)
        → (if not (v == 0) || not true || k == 0 then a else b) ≡ a
    pick a b v k (inl e) = ground (arith, e)
    pick a b v k (inr e) = ground (arith, e)

parse_shown :
    (k : ℕ) (m : Cpumask) (p : Parsing) (l : List ℕ)
    → AreWords m
    → Fresh p (suc k) l
    → ((nth k (chunks m) == 0) ≡ false) ⊎ ((k ≡ 0) × (shift_in (nth k (chunks m)) l ≡ l))
    → Parsed (parse_from (print_from (suc k) true m) p) (push_all (seq_down (suc k) (chunks m)) l)
parse_shown k m p l w f shown =
    let u = nth k (chunks m) in
    let kept : ((p.nchunks == 0 && u == 0) ≡ false) ⊎ ((k ≡ 0) × (shift_in u l ≡ l)) = elim shown [
      | inl e ↦ inl (ground (arith, e))
      | inr e ↦ inr e
    ] in
    let first : ((u == 0) ≡ false) ⊎ (k ≡ 0) = elim shown [ inl e ↦ inl e | inr e ↦ inr e.0 ] in
    let (r, pending, same, e) =
      read_chunk u k (print_from k false m) p l (nth-chunks-lt k m w) f kept in
    subst (λ x. Parsed x (push_all (u ∷ seq_down k (chunks m)) l))
      (sym (ap (λ t. parse_from t p) (print_first k m w first) ∙ e))
      (parse-Pending k m r u l w pending)

less_room : {p : Parsing} {k : ℕ} {l : List ℕ} → Fresh p (suc k) l → Fresh p k l
less_room f = record {
  chunk = f.chunk;
  digits = f.digits;
  no_space = f.no_space;
  room = omega (arith, f.room);
  mask = f.mask;
  words = f.words;
}

-- The chunks before the first that is printed are 0, and the mask is still one of zeros.
pub parse_first :
    (k : ℕ) (m : Cpumask) (p : Parsing) (l : List ℕ)
    → AreWords m
    → Fresh p (suc k) l
    → shift_in 0 l ≡ l
    → Parsed (parse_from (print_from (suc k) true m) p) (push_all (seq_down (suc k) (chunks m)) l)
parse_first zero m p l w f zeros = elim (Bool-cases (nth 0 (chunks m) == 0)) [
  | inl e ↦ parse_shown 0 m p l w f (inr (refl, ap (λ v. shift_in v l) (ground (arith, e)) ∙ zeros))
  | inr e ↦ parse_shown 0 m p l w f (inl e)
]
parse_first (suc k) m p l w f zeros = elim (Bool-cases (nth (suc k) (chunks m) == 0)) [
  | inl e ↦
      let z : nth (suc k) (chunks m) ≡ 0 = ground (arith, e) in
      subst (λ x. Parsed (parse_from x p) (push_all (seq_down (suc (suc k)) (chunks m)) l))
        (sym (print_skipped k m w z))
        (subst
          (λ x.
            Parsed (parse_from (print_from (suc k) true m) p)
              (push_all (seq_down (suc k) (chunks m)) x))
          (sym (ap (λ v. shift_in v l) z ∙ zeros)) (parse_first k m p l w (less_room f) zeros))
  | inr e ↦ parse_shown (suc k) m p l w f (inl e)
]
