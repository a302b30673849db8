-- ===== src/Base/Sort.antt =====
-- Python's stable `sorted` with a key comparison, and what it keeps of a list.
use Prim.Native.Nat.{ℕ, ◌+◌}
use mathlib.Core.Path.{◌≡◌, refl}
use mathlib.Core.Bool.{Bool}
use mathlib.Core.Logic.{◌⊎◌, inl, inr}
use mathlib.Core.List.{List, [], ◌∷◌}
use native.Mathlib.Omega.{arith}
use fleet_lambda_platform.Base.Tests.{if◌then◌else◌, Bool-cases}
use fleet_lambda_platform.Base.Lists.{sum_by, All, In, length}

module _ {A : Type 0} (le : A → A → Bool) where
  unfoldable pub insert_by : A → List A → List A
  insert_by x [] = x ∷ []
  insert_by x (y ∷ ys) = if le x y then x ∷ y ∷ ys else y ∷ insert_by x ys

  unfoldable pub sort_by : List A → List A
  unfolding insert_by
  sort_by [] = []
  sort_by (x ∷ xs) = insert_by x (sort_by xs)

  sum_by-insert_by :
      (f : A → ℕ) (x : A) (xs : List A) → sum_by f (insert_by x xs) ≡ f x + sum_by f xs
  unfolding insert_by
  sum_by-insert_by f x [] = refl
  sum_by-insert_by f x (y ∷ ys) = ground (arith, sum_by-insert_by f x ys)

  pub sum_by-sort_by : (f : A → ℕ) (xs : List A) → sum_by f (sort_by xs) ≡ sum_by f xs
  unfolding sort_by
  sum_by-sort_by f [] = refl
  sum_by-sort_by f (x ∷ xs) = omega (arith, sum_by-insert_by f x (sort_by xs), sum_by-sort_by f xs)

  pub All-insert_by {κ} :
      (P : A → Type κ) (x : A) (xs : List A) → P x → All P xs → All P (insert_by x xs)
  unfolding insert_by
  All-insert_by P x [] p h = (p, tt)
  All-insert_by P x (y ∷ ys) p h = ground (arith, All-insert_by P x ys p h.1)

  pub All-sort_by {κ} : (P : A → Type κ) (xs : List A) → All P xs → All P (sort_by xs)
  unfolding sort_by
  All-sort_by P [] h = tt
  All-sort_by P (x ∷ xs) h = All-insert_by P x (sort_by xs) h.0 (All-sort_by P xs h.1)

  In-insert_by_self : (x : A) (xs : List A) → In x (insert_by x xs)
  unfolding insert_by
  In-insert_by_self x [] = inl refl
  In-insert_by_self x (y ∷ ys) = ground (arith, In-insert_by_self x ys)

  In-insert_by : (a x : A) (xs : List A) → In a xs → In a (insert_by x xs)
  unfolding insert_by
  In-insert_by a x [] m = absurd m
  In-insert_by a x (y ∷ ys) (inl e) = ground arith
  In-insert_by a x (y ∷ ys) (inr m) = ground (arith, In-insert_by a x ys m)

  pub In-sort_by : (a : A) (xs : List A) → In a xs → In a (sort_by xs)
  unfolding sort_by
  In-sort_by a [] m = absurd m
  In-sort_by a (x ∷ xs) (inl e) = rw e (In-insert_by_self x (sort_by xs))
  In-sort_by a (x ∷ xs) (inr m) = In-insert_by a x (sort_by xs) (In-sort_by a xs m)

  insert_by-In : (a x : A) (xs : List A) → In a (insert_by x xs) → (a ≡ x) ⊎ In a xs
  unfolding insert_by
  insert_by-In a x [] m = m
  insert_by-In a x (y ∷ ys) m = elim (Bool-cases (le x y)) [
    | inl p ↦ rw p at m
    | inr q ↦
        let later : In a (y ∷ insert_by x ys) = rw q at m in
        elim later [
          | inl e ↦ inr (inl e)
          | inr r ↦ elim (insert_by-In a x ys r) [ inl e ↦ inl e | inr k ↦ inr (inr k) ]
        ]
  ]

  pub sort_by-In : (a : A) (xs : List A) → In a (sort_by xs) → In a xs
  unfolding sort_by
  sort_by-In a [] m = absurd m
  sort_by-In a (x ∷ xs) m = elim (insert_by-In a x (sort_by xs) m) [
    | inl e ↦ inl e
    | inr k ↦ inr (sort_by-In a xs k)
  ]

  length-insert_by : (x : A) (xs : List A) → length (insert_by x xs) ≡ length xs + 1
  unfolding insert_by
  length-insert_by x [] = refl
  length-insert_by x (y ∷ ys) = ground (arith, length-insert_by x ys)

  pub length-sort_by : (xs : List A) → length (sort_by xs) ≡ length xs
  unfolding sort_by
  length-sort_by [] = refl
  length-sort_by (x ∷ xs) = omega (arith, length-insert_by x (sort_by xs), length-sort_by xs)
