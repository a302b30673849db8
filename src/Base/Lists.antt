-- ===== src/Base/Lists.antt =====
-- Lists measured by native numbers, filtered by Boolean tests, and predicates on their elements.
use Prim.Native.Nat.{ℕ, zero, suc, ◌+◌, ◌≤◌, max, min}
use mathlib.Core.Path.{◌≡◌, refl, ap}
use mathlib.Core.Logic.{◌⊎◌, inl, inr}
use mathlib.Core.Option.{Option, none, some}
use mathlib.Core.Bool.{Bool, true, false, ◌&&◌, ◌||◌}
use mathlib.Core.List.{List, [], ◌∷◌, ◌++◌, map}
use native.Mathlib.Omega.{arith}
use fleet_lambda_platform.Base.Tests.{Bool-cases, if◌then◌else◌}

module _ {ℓ} {A : Type ℓ} where
  abbrev pub length : List A → ℕ
  length [] = 0
  length (x ∷ xs) = suc (length xs)

  pub length-append : (xs ys : List A) → length (xs ++ ys) ≡ length xs + length ys
  length-append [] ys = omega arith
  length-append (x ∷ xs) ys = omega (arith, length-append xs ys)

  -- [x for x in xs if test(x)]
  abbrev pub keep : (A → Bool) → List A → List A
  keep test [] = []
  keep test (x ∷ xs) = let rest = keep test xs in if test x then x ∷ rest else rest

  abbrev pub any : (A → Bool) → List A → Bool
  any test [] = false
  any test (x ∷ xs) = test x || any test xs

  abbrev pub all : (A → Bool) → List A → Bool
  all test [] = true
  all test (x ∷ xs) = test x && all test xs

  abbrev pub sum_by : (A → ℕ) → List A → ℕ
  sum_by f [] = 0
  sum_by f (x ∷ xs) = f x + sum_by f xs

  abbrev pub All {κ} : (A → Type κ) → List A → Type κ
  All P [] = Unit
  All P (x ∷ xs) = P x × All P xs

  pub keep_none : (test : A → Bool) (xs : List A) → All (λ x. test x ≡ false) xs → keep test xs ≡ []
  keep_none test [] h = refl
  keep_none test (x ∷ xs) h = rw (h.0) (keep_none test xs h.1)

  pub keep-All : (test : A → Bool) (xs : List A) → All (λ x. test x ≡ true) xs → keep test xs ≡ xs
  keep-All test [] h = refl
  keep-All test (x ∷ xs) h = rw (h.0) (ap (◌∷◌ x) (keep-All test xs h.1))

  pub length-keep-le : (test : A → Bool) (xs : List A) → length (keep test xs) ≤ length xs
  length-keep-le test [] = omega arith
  length-keep-le test (x ∷ xs) = ground (arith, length-keep-le test xs)

module _ {A : Type 0} where
  -- Membership by recursion, with the place kept.
  abbrev pub In : A → List A → Type 0
  In a [] = ⊥
  In a (x ∷ xs) = (a ≡ x) ⊎ In a xs

  pub All-In {κ} : (P : A → Type κ) (a : A) (xs : List A) → All P xs → In a xs → P a
  All-In P a [] h m = absurd m
  All-In P a (x ∷ xs) h (inl e) = rw e h.0
  All-In P a (x ∷ xs) h (inr m) = All-In P a xs h.1 m

  pub All_weaken {κ κ'} :
      (P : A → Type κ) (Q : A → Type κ') (xs : List A) → ((a : A) → P a → Q a) → All P xs → All Q xs
  All_weaken P Q [] f h = tt
  All_weaken P Q (x ∷ xs) f h = (f x h.0, All_weaken P Q xs f h.1)

  pub All-of_In {κ} : (P : A → Type κ) (xs : List A) → ((a : A) → In a xs → P a) → All P xs
  All-of_In P [] h = tt
  All-of_In P (x ∷ xs) h = (h x (inl refl), All-of_In P xs (λ a m. h a (inr m)))

pub List-cases {ℓ} :
    {A : Type ℓ} (xs : List A) → (xs ≡ []) ⊎ ((x : A) × (rest : List A) × (xs ≡ x ∷ rest))
List-cases [] = inl refl
List-cases (x ∷ xs) = inr (x, xs, refl)

module _ {A : Type 0} where
  pub In-keep :
      (test : A → Bool) (a : A) (xs : List A) → In a xs → test a ≡ true → In a (keep test xs)
  In-keep test a [] m h = absurd m
  In-keep test a (x ∷ xs) (inl e) h = rw (rw e at h) (inl e)
  In-keep test a (x ∷ xs) (inr m) h = ground (arith, In-keep test a xs m h)

  pub keep-In :
      (test : A → Bool) (a : A) (xs : List A) → In a (keep test xs) → In a xs × (test a ≡ true)
  keep-In test a [] m = absurd m
  keep-In test a (x ∷ xs) m = ground (arith, λ (h : In a (keep test xs)). keep-In test a xs h)

  pub In-append : (a : A) (xs ys : List A) → In a (xs ++ ys) → In a xs ⊎ In a ys
  In-append a [] ys m = inr m
  In-append a (x ∷ xs) ys (inl e) = inl (inl e)
  In-append a (x ∷ xs) ys (inr m) = elim (In-append a xs ys m) [
    | inl l ↦ inl (inr l)
    | inr r ↦ inr r
  ]

  pub append-In_left : (a : A) (xs ys : List A) → In a xs → In a (xs ++ ys)
  append-In_left a [] ys m = absurd m
  append-In_left a (x ∷ xs) ys (inl e) = inl e
  append-In_left a (x ∷ xs) ys (inr m) = inr (append-In_left a xs ys m)

  pub append-In_right : (a : A) (xs ys : List A) → In a ys → In a (xs ++ ys)
  append-In_right a [] ys m = m
  append-In_right a (x ∷ xs) ys m = inr (append-In_right a xs ys m)

  pub In-map : {B : Type 0} (f : A → B) (a : A) (xs : List A) → In a xs → In (f a) (map f xs)
  In-map f a [] m = absurd m
  In-map f a (x ∷ xs) (inl e) = inl (ap f e)
  In-map f a (x ∷ xs) (inr m) = inr (In-map f a xs m)

  pub map-In :
      {B : Type 0} (f : A → B) (b : B) (xs : List A)
      → In b (map f xs)
      → (a : A) × In a xs × (b ≡ f a)
  map-In f b [] m = absurd m
  map-In f b (x ∷ xs) (inl e) = (x, inl refl, e)
  map-In f b (x ∷ xs) (inr m) = let (a, i, e) = map-In f b xs m in (a, inr i, e)

  pub In-any :
      (test : A → Bool) (a : A) (xs : List A) → In a xs → test a ≡ true → any test xs ≡ true
  In-any test a [] m h = absurd m
  In-any test a (x ∷ xs) (inl e) h = rw (rw e at h)
  In-any test a (x ∷ xs) (inr m) h = ground (arith, In-any test a xs m h)

  pub any-In :
      (test : A → Bool) (xs : List A) → any test xs ≡ true → (a : A) × In a xs × (test a ≡ true)
  any-In test [] h = cc
  any-In test (x ∷ xs) h = elim (Bool-cases (test x)) [
    | inl p ↦ (x, inl refl, p)
    | inr q ↦ let (a, m, p) = any-In test xs (rw q at h) in (a, inr m, p)
  ]

  pub any-false :
      (test : A → Bool) (xs : List A) → All (λ x. test x ≡ false) xs → any test xs ≡ false
  any-false test [] h = refl
  any-false test (x ∷ xs) h = rw (h.0) (any-false test xs h.1)

  pub false-any :
      (test : A → Bool) (xs : List A) → any test xs ≡ false → All (λ x. test x ≡ false) xs
  false-any test [] h = tt
  false-any test (x ∷ xs) h = (ground arith, false-any test xs (ground arith))

  pub all-All : (test : A → Bool) (xs : List A) → all test xs ≡ true → All (λ x. test x ≡ true) xs
  all-All test [] h = tt
  all-All test (x ∷ xs) h = (ground arith, all-All test xs (ground arith))

  pub All-all : (test : A → Bool) (xs : List A) → All (λ x. test x ≡ true) xs → all test xs ≡ true
  All-all test [] h = refl
  All-all test (x ∷ xs) h = rw (h.0) (All-all test xs h.1)

  pub All-map {κ} :
      {B : Type 0} (P : B → Type κ) (f : A → B) (xs : List A)
      → All (λ x. P (f x)) xs
      → All P (map f xs)
  All-map P f [] h = tt
  All-map P f (x ∷ xs) h = (h.0, All-map P f xs h.1)

module _ {A : Type 0} where
  pub sum_by-map :
      {B : Type 0} (f : B → ℕ) (g : A → B) (xs : List A)
      → sum_by f (map g xs) ≡ sum_by (λ x. f (g x)) xs
  sum_by-map f g [] = refl
  sum_by-map f g (x ∷ xs) = omega (arith, sum_by-map f g xs)

  pub sum_by_ext : (f g : A → ℕ) (xs : List A) → ((x : A) → f x ≡ g x) → sum_by f xs ≡ sum_by g xs
  sum_by_ext f g [] h = refl
  sum_by_ext f g (x ∷ xs) h = omega (arith, h x, sum_by_ext f g xs h)

  pub sum_by-append : (f : A → ℕ) (xs ys : List A) → sum_by f (xs ++ ys) ≡ sum_by f xs + sum_by f ys
  sum_by-append f [] ys = omega arith
  sum_by-append f (x ∷ xs) ys = omega (arith, sum_by-append f xs ys)

-- the values that are not null
abbrev pub present {ℓ} : {A : Type ℓ} → List (Option A) → List A
present [] = []
present (none ∷ os) = present os
present (some a ∷ os) = a ∷ present os

pub In-present : {A : Type 0} (a : A) (os : List (Option A)) → In (some a) os → In a (present os)
In-present a [] m = absurd m
In-present a (none ∷ os) (inl e) = cc
In-present a (none ∷ os) (inr m) = In-present a os m
In-present a (some b ∷ os) (inl e) = inl cc
In-present a (some b ∷ os) (inr m) = inr (In-present a os m)

pub present-In : {A : Type 0} (a : A) (os : List (Option A)) → In a (present os) → In (some a) os
present-In a [] m = absurd m
present-In a (none ∷ os) m = inr (present-In a os m)
present-In a (some b ∷ os) (inl e) = inl (ap some e)
present-In a (some b ∷ os) (inr m) = inr (present-In a os m)

abbrev pub larger : ℕ → Option ℕ → ℕ
larger n none = n
larger n (some m) = max n m

-- max(...) over the rows, null if there is none
unfoldable pub greatest : List ℕ → Option ℕ
greatest [] = none
greatest (n ∷ ns) = some (larger n (greatest ns))

abbrev pub smaller : ℕ → Option ℕ → ℕ
smaller n none = n
smaller n (some m) = min n m

-- min(...) over the rows, null if there is none
unfoldable pub least : List ℕ → Option ℕ
least [] = none
least (n ∷ ns) = some (smaller n (least ns))

-- UNION ALL
abbrev pub concat {ℓ} : {A : Type ℓ} → List (List A) → List A
concat [] = []
concat (xs ∷ xss) = xs ++ concat xss

pub In-concat :
    {A : Type 0} (a : A) (xs : List A) (xss : List (List A))
    → In xs xss
    → In a xs
    → In a (concat xss)
In-concat a xs [] m n = absurd m
In-concat a xs (ys ∷ xss) (inl same) n = append-In_left a ys (concat xss) (rw (← same) n)
In-concat a xs (ys ∷ xss) (inr m) n = append-In_right a ys (concat xss) (In-concat a xs xss m n)

pub concat-In :
    {A : Type 0} (a : A) (xss : List (List A))
    → In a (concat xss)
    → (xs : List A) × In xs xss × In a xs
concat-In a [] m = absurd m
concat-In a (xs ∷ xss) m = elim (In-append a xs (concat xss) m) [
  | inl here ↦ (xs, inl refl, here)
  | inr there ↦ let (ys, i, j) = concat-In a xss there in (ys, inr i, j)
]

pub length-keep-map :
    {A B : Type 0} (test : B → Bool) (f : A → B) (xs : List A)
    → length (keep test (map f xs)) ≡ length (keep (λ x. test (f x)) xs)
length-keep-map test f [] = refl
length-keep-map test f (x ∷ xs) = ground (arith, length-keep-map test f xs)

-- xs[:n]
abbrev pub take {ℓ} : {A : Type ℓ} → ℕ → List A → List A
take zero xs = []
take (suc n) [] = []
take (suc n) (x ∷ xs) = x ∷ take n xs
