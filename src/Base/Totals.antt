-- ===== src/Base/Totals.antt =====
-- Bounds on sums over selected, distinct and inserted rows.
use Prim.Native.Nat.{ℕ, ◌+◌, ◌≤◌}
use mathlib.Core.Path.{◌≡◌, refl, ap}
use mathlib.Core.Logic.{inl, inr}
use mathlib.Core.Bool.{Bool, ◌&&◌, not}
use mathlib.Core.List.{List, [], ◌∷◌, map}
use native.Mathlib.Omega.{arith}
use fleet_lambda_platform.Base.Tests.{Bool-cases, Option-cases}
use fleet_lambda_platform.Base.Equality.{Eq, ◌==◌, elem}
use fleet_lambda_platform.Base.Lists.{keep, length, sum_by}
use fleet_lambda_platform.Base.Dict.{lookup, insert, sum_by-insert_new}
use fleet_lambda_platform.Base.Tables.{insert_rows, distinct, distinct_on}

pub length-map : {A B : Type 0} (f : A → B) (xs : List A) → length (map f xs) ≡ length xs
length-map f [] = refl
length-map f (x ∷ xs) = omega (arith, length-map f xs)

pub sum_by-keep :
    {A : Type 0} (f : A → ℕ) (test : A → Bool) (xs : List A) → sum_by f (keep test xs) ≤ sum_by f xs
sum_by-keep f test [] = omega arith
sum_by-keep f test (x ∷ xs) = elim (Bool-cases (test x)) [
  | inl p ↦ rw p (omega (arith, sum_by-keep f test xs))
  | inr q ↦ rw q (omega (arith, sum_by-keep f test xs))
]

pub sum_by-distinct_on :
    {A K : Type 0} ⦃e : Eq K⦄ (f : A → ℕ) (key : A → K) (xs : List A)
    → sum_by f (distinct_on key xs) ≤ sum_by f xs
unfolding distinct_on
sum_by-distinct_on f key [] = omega arith
sum_by-distinct_on f key (x ∷ xs) = omega (
  arith,
  sum_by-keep f (λ y. not (key y == key x)) (distinct_on key xs),
  sum_by-distinct_on f key xs,
)

pub length-distinct : {A : Type 0} ⦃e : Eq A⦄ (xs : List A) → length (distinct xs) ≤ length xs
unfolding distinct
length-distinct [] = omega arith
length-distinct (x ∷ xs) = elim (Bool-cases (elem x (distinct xs))) [
  | inl p ↦ rw p (omega (arith, length-distinct xs))
  | inr q ↦ rw q (omega (arith, length-distinct xs))
]

pub sum_by-insert_rows :
    {K V : Type 0} ⦃e : Eq K⦄ (f : V → ℕ) (rows d : List (K × V))
    → sum_by (λ x. f x.1) (insert_rows rows d) ≤ sum_by (λ x. f x.1) rows + sum_by (λ x. f x.1) d
unfolding insert_rows
sum_by-insert_rows f [] d = omega arith
sum_by-insert_rows f ((k, v) ∷ rows) d = elim (Option-cases (lookup k d)) [
  | inl p ↦
      rw p (omega (arith, sum_by-insert_rows f rows (insert k v d), sum_by-insert_new f k v d p))
  | inr (w, p) ↦ rw p (omega (arith, sum_by-insert_rows f rows d))
]

pub keep-map-keep :
    {A B : Type 0} (f : A → B) (test : B → Bool) (here : A → Bool) (xs : List A)
    → keep test (map f (keep here xs)) ≡ map f (keep (λ x. here x && test (f x)) xs)
keep-map-keep f test here [] = refl
keep-map-keep f test here (x ∷ xs) = elim (Bool-cases (here x)) [
  | inr out ↦ rw out (keep-map-keep f test here xs)
  | inl inside ↦ elim (Bool-cases (test (f x))) [
    | inr fails ↦ rw (inside, fails) (keep-map-keep f test here xs)
    | inl passes ↦ rw (inside, passes) (ap (◌∷◌ (f x)) (keep-map-keep f test here xs))
  ]
]
