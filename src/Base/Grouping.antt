-- ===== src/Base/Grouping.antt =====
-- GROUP BY: what the groups of a list add up to.
use Prim.Native.Nat.{ℕ, ◌+◌}
use mathlib.Core.Path.{◌≡◌, refl, ◌∙◌}
use mathlib.Core.Logic.{inl, inr}
use mathlib.Core.Bool.{true, false}
use mathlib.Core.List.{List, [], ◌∷◌}
use native.Mathlib.Omega.{arith}
use fleet_lambda_platform.Base.Tests.{if◌then◌else◌, Bool-cases}
use fleet_lambda_platform.Base.Equality.{Eq, ◌==◌, elem}
use fleet_lambda_platform.Base.Lists.{All, keep, length, sum_by, sum_by_ext}
use fleet_lambda_platform.Base.Tables.{distinct}

pub length-sum_by : {A : Type 0} (xs : List A) → length xs ≡ sum_by (λ x. 1) xs
length-sum_by [] = refl
length-sum_by (x ∷ xs) = omega (arith, length-sum_by xs)

sum_by-add :
    {A : Type 0} (f g : A → ℕ) (xs : List A)
    → sum_by (λ x. f x + g x) xs ≡ sum_by f xs + sum_by g xs
sum_by-add f g [] = refl
sum_by-add f g (x ∷ xs) = omega (arith, sum_by-add f g xs)

sum_by-zero : {A : Type 0} (xs : List A) → sum_by (λ x. 0) xs ≡ 0
sum_by-zero [] = refl
sum_by-zero (x ∷ xs) = omega (arith, sum_by-zero xs)

module _ {K : Type 0} ⦃e : Eq K⦄ where
  -- No value stands twice.
  abbrev pub IsDistinct : List K → Type 0
  IsDistinct [] = Unit
  IsDistinct (k ∷ ks) = (elem k ks ≡ false) × IsDistinct ks

  pub distinct-IsDistinct : (ks : List K) → IsDistinct (distinct ks)
  unfolding distinct
  distinct-IsDistinct [] = tt
  distinct-IsDistinct (k ∷ ks) = elim (Bool-cases (elem k (distinct ks))) [
    | inl p ↦ rw p (distinct-IsDistinct ks)
    | inr q ↦ rw q (q, distinct-IsDistinct ks)
  ]

  abbrev at_key : K → ℕ → K → ℕ
  at_key a n k = if a == k then n else 0

  sum_by-at_key_none :
      (a : K) (n : ℕ) (ks : List K) → elem a ks ≡ false → sum_by (at_key a n) ks ≡ 0
  sum_by-at_key_none a n [] h = refl
  sum_by-at_key_none a n (k ∷ ks) h = ground (arith, sum_by-at_key_none a n ks)

  sum_by-at_key :
      (a : K) (n : ℕ) (ks : List K) → IsDistinct ks → elem a ks ≡ true → sum_by (at_key a n) ks ≡ n
  sum_by-at_key a n [] d h = cc
  sum_by-at_key a n (k ∷ ks) (new, d) h = elim (Bool-cases (a == k)) [
    | inl p ↦
        let none_left : elem a ks ≡ false = rw ((e.beq_iff a k).0 p) new in
        rw p (omega (arith, sum_by-at_key_none a n ks none_left))
    | inr q ↦ rw q (omega (arith, sum_by-at_key a n ks d (rw q at h)))
  ]

module _ {A K : Type 0} ⦃e : Eq K⦄ (f : A → ℕ) (key : A → K) where
  abbrev group_sum : List A → K → ℕ
  group_sum xs k = sum_by f (keep (λ x. key x == k) xs)

  group_sum-cons :
      (x : A) (xs : List A) (k : K) → group_sum (x ∷ xs) k ≡ at_key (key x) (f x) k + group_sum xs k
  group_sum-cons x xs k = ground arith

  -- With the key of each element among the distinct keys, the groups add up to the list.
  pub sum_by-group_sum :
      (ks : List K) (xs : List A)
      → IsDistinct ks
      → All (λ x. elem (key x) ks ≡ true) xs
      → sum_by (λ k. sum_by f (keep (λ x. key x == k) xs)) ks ≡ sum_by f xs
  sum_by-group_sum ks [] d h = sum_by-zero ks
  sum_by-group_sum ks (x ∷ xs) d (here, h) =
      sum_by_ext (group_sum (x ∷ xs)) (λ k. at_key (key x) (f x) k + group_sum xs k) ks
        (group_sum-cons x xs)
      ∙ (sum_by-add (at_key (key x) (f x)) (group_sum xs) ks
          ∙ omega (arith, sum_by-at_key (key x) (f x) ks d here, sum_by-group_sum ks xs d h))
