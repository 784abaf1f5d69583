-- ===== src/Prelude/Heap.antt =====
-- Arrays and heaps as functions of the index, and the update of one place.
use Prim.Native.Nat.{ℕ}
use mathlib.Core.Path.{◌≡◌}
use mathlib.Core.Logic.{◌≢◌}
use native.Mathlib.Omega.{arith}
use code_analyze.Prelude.Tests.{◌==◌, if◌then◌else◌}

module _ {ℓ} {A : Type ℓ} where
  -- `a[p] = v`.
  abbrev pub update : (ℕ → A) → ℕ → A → ℕ → A
  update a p v q = if q == p then v else a q

  pub update_self : (a : ℕ → A) (p : ℕ) (v : A) → update a p v p ≡ v
  update_self a p v = ground arith

  pub update_ne : (a : ℕ → A) (p q : ℕ) (v : A) → q ≢ p → update a p v q ≡ a q
  update_ne a p q v h = ground arith
