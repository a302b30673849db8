-- ===== src/Base/Descending.antt =====
-- Python's `sorted(..., reverse=True)` of distinct numbers.
use Prim.Native.Nat.{ℕ, ◌<◌}
use mathlib.Core.Path.{◌≡◌}
use mathlib.Core.Logic.{inl, inr}
use mathlib.Core.Bool.{Bool}
use mathlib.Core.List.{List, [], ◌∷◌}
use native.Mathlib.Omega.{arith}
use fleet_lambda_platform.Base.Tests.{leb, leb→le, Bool-cases}
use fleet_lambda_platform.Base.Equality.{nat_eq, In-elem}
use fleet_lambda_platform.Base.Lists.{In, All, All_weaken}
use fleet_lambda_platform.Base.Sort.{insert_by, sort_by, sort_by-In, All-insert_by}
use fleet_lambda_platform.Base.Grouping.{IsDistinct}

-- Each number is above all that follow it.
abbrev pub Descending : List ℕ → Type 0
Descending [] = Unit
Descending (n ∷ ns) = All (λ m. m < n) ns × Descending ns

module _ (le : ℕ → ℕ → Bool) (falls : (a b : ℕ) → le a b ≡ leb b a) where
  insert_by-Descending :
      (n : ℕ) (ns : List ℕ) → ¬ (In n ns) → Descending ns → Descending (insert_by le n ns)
  unfolding insert_by
  insert_by-Descending n [] new d = (tt, tt)
  insert_by-Descending n (m ∷ ns) new (below, d) = elim (Bool-cases (leb m n)) [
    | inl p ↦
        let other : ¬ (n ≡ m) = λ same. new (inl same) in
        let less : m < n = omega (arith, leb→le m n p, other) in
        rw (falls n m, p)
          (
            (less, All_weaken (λ k. k < m) (λ k. k < n) ns (λ k h. omega (arith, h, less)) below),
            (below, d),
          )
    | inr q ↦
        let more : n < m = ground arith in
        rw (falls n m, q)
          (
            All-insert_by le (λ k. k < m) n ns more below,
            insert_by-Descending n ns (λ i. new (inr i)) d,
          )
  ]

  pub sort_by-Descending : (ns : List ℕ) → IsDistinct ns → Descending (sort_by le ns)
  unfolding sort_by
  sort_by-Descending [] d = tt
  sort_by-Descending (n ∷ ns) (new, d) =
      insert_by-Descending n (sort_by le ns)
        (λ i. let there = In-elem n ns (sort_by-In le n ns i) in cc (new, there))
        (sort_by-Descending ns d)
