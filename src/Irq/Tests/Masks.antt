-- ===== src/Irq/Tests/Masks.antt =====
-- The parsing and the printing of a concrete mask.
use code_analyze.Prelude.{
  ℕ, zero, suc, ◌+◌, ◌^◌, ◌≡◌, ◌↔◌, true, not, ◌&&◌, ◌||◌, ◌==◌, refl, [], ◌∷◌, arith,
}
use code_analyze.Irq.Cpumask.{
  Cpumask, replicate, cpus_clear, cpu_isset, cpus_and, cpus_or, cpus_andnot, cpus_complement,
  cpu_set, cpus_intersects,
}
use code_analyze.Irq.Cpumask.Sets.{cpu_isset_operations, cpus_intersects_lem}
use code_analyze.Irq.Bitmap.{
  success, bitmap_parse, bitmap_scnprintf, print_from, word_at, print_hex, parse_from, fls,
}
use code_analyze.Irq.Bitmap.HighestBit.{fls-digit_count}
use code_analyze.Irq.Bitmap.Chunks.{AreWords}
use code_analyze.Irq.Bitmap.RoundTrip.{bitmap_parse-bitmap_scnprintf}

-- The CPUs 0, 1, 36 and 67.
abbrev four_cpus : Cpumask
four_cpus = (2 ^ 36 + 3) ∷ 8 ∷ replicate 62 0

-- `8,00000010,00000003`, with the zeros in front.
four_cpus_text :
    bitmap_scnprintf four_cpus
    ≡ 48 ∷ 48 ∷ 48 ∷ 48 ∷ 48 ∷ 48 ∷ 48 ∷ 56 ∷ 44 ∷ 48 ∷ 48 ∷ 48 ∷ 48 ∷ 48 ∷ 48 ∷ 49 ∷ 48 ∷ 44 ∷ 48
      ∷ 48 ∷ 48 ∷ 48 ∷ 48 ∷ 48 ∷ 48 ∷ 51 ∷ []
unfolding bitmap_scnprintf print_from word_at print_hex
four_cpus_text = refl

zeros-AreWords : (n : ℕ) → AreWords (replicate n 0)
zeros-AreWords zero = tt
zeros-AreWords (suc n) = (omega arith, zeros-AreWords n)

bitmap_parse-bitmap_scnprintf_example :
    bitmap_parse (bitmap_scnprintf four_cpus) ≡ (four_cpus, success)
bitmap_parse-bitmap_scnprintf_example =
    bitmap_parse-bitmap_scnprintf four_cpus refl (omega arith, (omega arith, zeros-AreWords 62))

-- `12 34`: the first chunk is lost at the space, and the code is that of a success.
embedded_space : bitmap_parse (49 ∷ 50 ∷ 32 ∷ 51 ∷ 52 ∷ []) ≡ (cpus_clear, success)
unfolding bitmap_parse parse_from
embedded_space = refl

fls-digit_count_example : fls 40 ≡ 6
fls-digit_count_example = fls-digit_count 40 (omega arith)

-- CPU 36 is in both masks.
abbrev one_cpu : Cpumask
one_cpu = 2 ^ 36 ∷ replicate 63 0

cpu_isset_operations_example :
    (cpu_isset 36 (cpus_and four_cpus one_cpu) ≡ (cpu_isset 36 four_cpus && cpu_isset 36 one_cpu))
    × (cpu_isset 36 (cpus_or four_cpus one_cpu) ≡ (cpu_isset 36 four_cpus || cpu_isset 36 one_cpu))
    × (cpu_isset 36 (cpus_andnot four_cpus one_cpu)
        ≡ (cpu_isset 36 four_cpus && not (cpu_isset 36 one_cpu)))
    × (cpu_isset 36 (cpus_complement one_cpu) ≡ not (cpu_isset 36 one_cpu))
    × (cpu_isset 36 (cpu_set 5 four_cpus) ≡ ((36 == 5) || cpu_isset 36 four_cpus))
cpu_isset_operations_example =
    cpu_isset_operations four_cpus one_cpu 36 5 refl refl (omega arith, zeros-AreWords 63)
      (omega arith) (omega arith)

cpus_intersects_lem_example :
    (cpus_intersects four_cpus one_cpu ≡ true)
    ↔ ((c : ℕ) × (cpu_isset c four_cpus ≡ true) × (cpu_isset c one_cpu ≡ true))
cpus_intersects_lem_example =
    cpus_intersects_lem four_cpus one_cpu (omega arith, (omega arith, zeros-AreWords 62))
