-- ===== src/Base/Tables.antt =====
-- SQL on tables: rows inserted unless their key is there, distinct values, and one row per key.
use Prim.Native.Nat.{ℕ, ◌≤◌}
use mathlib.Core.Path.{◌≡◌, ◌∙◌, sym, refl}
use mathlib.Core.Logic.{◌⊎◌, inl, inr}
use mathlib.Core.Bool.{true, false, not}
use mathlib.Core.Option.{Option, none, some}
use mathlib.Core.List.{List, [], ◌∷◌}
use native.Mathlib.Omega.{arith}
use fleet_lambda_platform.Base.Tests.{if◌then◌else◌, Bool-cases, Option-cases, ltb}
use fleet_lambda_platform.Base.Equality.{Eq, ◌==◌, elem, elem-In}
use fleet_lambda_platform.Base.Lists.{In, All, keep, length, In-keep, keep-In}
use fleet_lambda_platform.Base.Dict.{
  lookup, insert, All-insert, lookup-insert_ne, lookup-insert_self, lookup-insert,
}

module _ {K V : Type 0} ⦃e : Eq K⦄ where
  abbrev insert_at : Option V → K → V → List (K × V) → List (K × V)
  insert_at none k v d = insert k v d
  insert_at (some _) k v d = d

  -- INSERT ... ON CONFLICT DO NOTHING, of one row
  abbrev pub insert_new : K → V → List (K × V) → List (K × V)
  insert_new k v d = insert_at (lookup k d) k v d

  -- INSERT ... SELECT ... ON CONFLICT DO NOTHING
  unfoldable pub insert_rows : List (K × V) → List (K × V) → List (K × V)
  insert_rows [] d = d
  insert_rows ((k, v) ∷ rows) d = insert_rows rows (insert_new k v d)

  All-insert_at {κ} :
      (P : K × V → Type κ) (o : Option V) (k : K) (v : V) (d : List (K × V))
      → P (k, v)
      → All P d
      → All P (insert_at o k v d)
  All-insert_at P none k v d p h = All-insert P k v d p h
  All-insert_at P (some _) k v d p h = h

  pub All-insert_rows {κ} :
      (P : K × V → Type κ) (rows d : List (K × V))
      → All P rows
      → All P d
      → All P (insert_rows rows d)
  unfolding insert_rows
  All-insert_rows P [] d p h = h
  All-insert_rows P ((k, v) ∷ rows) d p h =
      All-insert_rows P rows (insert_new k v d) p.1 (All-insert_at P (lookup k d) k v d p.0 h)

  -- An insertion leaves what is there.
  insert_new_kept :
      (j k : K) (u v : V) (d : List (K × V))
      → lookup j d ≡ some u
      → lookup j (insert_new k v d) ≡ some u
  insert_new_kept j k u v d h = elim (Option-cases (lookup k d)) [
    | inr (w, p) ↦ rw p h
    | inl p ↦ rw p (lookup-insert_ne j k v d (λ same. cc (h, p, same)) ∙ h)
  ]

  pub insert_rows_kept :
      (j : K) (u : V) (rows d : List (K × V))
      → lookup j d ≡ some u
      → lookup j (insert_rows rows d) ≡ some u
  unfolding insert_rows
  insert_rows_kept j u [] d h = h
  insert_rows_kept j u ((k, v) ∷ rows) d h =
      insert_rows_kept j u rows (insert_new k v d) (insert_new_kept j k u v d h)

  insert_new_there :
      (k : K) (v : V) (d : List (K × V)) → (u : V) × (lookup k (insert_new k v d) ≡ some u)
  insert_new_there k v d = elim (Option-cases (lookup k d)) [
    | inr (w, p) ↦ (w, rw (p, p) refl)
    | inl p ↦ (v, rw p (lookup-insert_self k v d))
  ]

  -- After an insertion the key is there.
  pub insert_rows_there :
      (k : K) (v : V) (rows d : List (K × V))
      → In (k, v) rows
      → (u : V) × (lookup k (insert_rows rows d) ≡ some u)
  unfolding insert_rows
  insert_rows_there k v [] d m = absurd m
  insert_rows_there k v ((j, w) ∷ rows) d (inl same) =
      let (u, h) = insert_new_there j w d in
      let here : k ≡ j = cc (same) in (u, rw here (insert_rows_kept j u rows (insert_new j w d) h))
  insert_rows_there k v ((j, w) ∷ rows) d (inr m) = insert_rows_there k v rows (insert_new j w d) m

  insert_new-In :
      (j k : K) (u v : V) (d : List (K × V))
      → lookup j (insert_new k v d) ≡ some u
      → (lookup j d ≡ some u) ⊎ (◌≡◌ {A = K × V} (j, u) (k, v))
  insert_new-In j k u v d h = elim (Option-cases (lookup k d)) [
    | inr (w, p) ↦ inl (rw p at h)
    | inl p ↦ elim (Bool-cases (j == k)) [
      | inl same ↦
          let eq = (e.beq_iff j k).0 same in
          let value : u ≡ v = cc (lookup-insert_self k v d, rw (p, eq) at h) in
          inr (rw (eq, value) refl)
      | inr other ↦ inl (cc (lookup-insert j k v d, rw p at h, other))
    ]
  ]

  -- What a table holds after an insertion was there or was inserted.
  pub lookup-insert_rows :
      (j : K) (u : V) (rows d : List (K × V))
      → lookup j (insert_rows rows d) ≡ some u
      → (lookup j d ≡ some u) ⊎ In (j, u) rows
  unfolding insert_rows
  lookup-insert_rows j u [] d h = inl h
  lookup-insert_rows j u ((k, v) ∷ rows) d h =
      elim (lookup-insert_rows j u rows (insert_new k v d) h) [
        | inr m ↦ inr (inr m)
        | inl before ↦ elim (insert_new-In j k u v d before) [
          | inl there ↦ inl there
          | inr same ↦ inr (inl same)
        ]
      ]

module _ {A : Type 0} ⦃e : Eq A⦄ where
  abbrev unless_there : A → List A → List A
  unless_there x xs = if elem x xs then xs else x ∷ xs

  unless_there-In : (a x : A) (xs : List A) → In a (unless_there x xs) → (a ≡ x) ⊎ In a xs
  unless_there-In a x xs m = elim (Bool-cases (elem x xs)) [
    | inl p ↦ inr (rw p at m)
    | inr q ↦ rw q at m
  ]

  -- SELECT DISTINCT
  unfoldable pub distinct : List A → List A
  distinct [] = []
  distinct (x ∷ xs) = unless_there x (distinct xs)

  -- count(DISTINCT ...)
  abbrev pub count_distinct : List A → ℕ
  count_distinct xs = length (distinct xs)

  pub In-distinct : (a : A) (xs : List A) → In a xs → In a (distinct xs)
  unfolding distinct
  In-distinct a [] m = absurd m
  In-distinct a (x ∷ xs) m = elim (Bool-cases (elem x (distinct xs))) [
    | inl p ↦
        rw p
          (elim m [ inl same ↦ rw same (elem-In x (distinct xs) p) | inr r ↦ In-distinct a xs r ])
    | inr q ↦ rw q (elim m [ inl same ↦ inl same | inr r ↦ inr (In-distinct a xs r) ])
  ]

  one_value : (a b : A) (xs : List A) → length xs ≤ 1 → In a xs → In b xs → a ≡ b
  one_value a b [] h m n = absurd m
  one_value a b (x ∷ []) h (inl p) (inl q) = p ∙ sym q
  one_value a b (x ∷ []) h (inr m) n = absurd m
  one_value a b (x ∷ []) h m (inr n) = absurd n
  one_value a b (x ∷ y ∷ xs) h m n = ground arith

  -- With one distinct value, all values are the same.
  pub count_distinct-eq :
      (a b : A) (xs : List A) → ltb 1 (count_distinct xs) ≡ false → In a xs → In b xs → a ≡ b
  count_distinct-eq a b xs h m n =
      one_value a b (distinct xs) (ground arith) (In-distinct a xs m) (In-distinct b xs n)

  pub distinct-In : (a : A) (xs : List A) → In a (distinct xs) → In a xs
  unfolding distinct
  distinct-In a [] m = absurd m
  distinct-In a (x ∷ xs) m = elim (Bool-cases (elem x (distinct xs))) [
    | inl p ↦ inr (distinct-In a xs (rw p at m))
    | inr q ↦ elim (unless_there-In a x (distinct xs) m) [
      | inl same ↦ inl same
      | inr later ↦ inr (distinct-In a xs later)
    ]
  ]

  distinct_same :
      (a : A) (xs : List A) → All (λ x. x ≡ a) xs → (distinct xs ≡ []) ⊎ (distinct xs ≡ a ∷ [])
  unfolding distinct
  distinct_same a [] h = inl refl
  distinct_same a (x ∷ xs) (same, h) = elim (distinct_same a xs h) [
    | inl none_there ↦ inr (rw (none_there, same) refl)
    | inr one_there ↦ inr (rw (one_there, same, (e.beq_iff a a).1 refl) refl)
  ]

  -- Values that are all the same are one distinct value at most.
  pub count_distinct_same :
      (a : A) (xs : List A) → All (λ x. x ≡ a) xs → ltb 1 (count_distinct xs) ≡ false
  count_distinct_same a xs h = elim (distinct_same a xs h) [ inl p ↦ rw p refl | inr p ↦ rw p refl ]

module _ {A K : Type 0} ⦃e : Eq K⦄ (key : A → K) where
  -- SELECT DISTINCT ON (key), of sorted rows
  unfoldable pub distinct_on : List A → List A
  distinct_on [] = []
  distinct_on (x ∷ xs) = x ∷ keep (λ y. not (key y == key x)) (distinct_on xs)

  pub distinct_on-In : (a : A) (xs : List A) → In a (distinct_on xs) → In a xs
  unfolding distinct_on
  distinct_on-In a [] m = absurd m
  distinct_on-In a (x ∷ xs) (inl p) = inl p
  distinct_on-In a (x ∷ xs) (inr m) =
      inr (distinct_on-In a xs (keep-In (λ y. not (key y == key x)) a (distinct_on xs) m).0)

  -- Each row's key has a row.
  pub In-distinct_on :
      (a : A) (xs : List A) → In a xs → (b : A) × In b (distinct_on xs) × (key b ≡ key a)
  unfolding distinct_on
  In-distinct_on a [] m = absurd m
  In-distinct_on a (x ∷ xs) (inl p) = (x, inl refl, rw p)
  In-distinct_on a (x ∷ xs) (inr m) =
      let (b, i, same) = In-distinct_on a xs m in
      elim (Bool-cases (key b == key x)) [
        | inl p ↦ (x, inl refl, sym ((e.beq_iff (key b) (key x)).0 p) ∙ same)
        | inr q ↦ (b, inr (In-keep (λ y. not (key y == key x)) b (distinct_on xs) i (rw q)), same)
      ]

  keep_same :
      (k : K) (x : A) (xs : List A)
      → (key x == k) ≡ true
      → keep (λ y. key y == k) (keep (λ y. not (key y == key x)) xs) ≡ []
  keep_same k x [] h = refl
  keep_same k x (y ∷ xs) h = ground (
    arith,
    keep_same k x xs h,
    e.beq_iff (key x) k,
    e.beq_iff (key y) k,
    e.beq_iff (key y) (key x),
  )

  keep_fewer :
      (k : K) (x : A) (xs : List A)
      → length (keep (λ y. key y == k) (keep (λ y. not (key y == key x)) xs))
        ≤ length (keep (λ y. key y == k) xs)
  keep_fewer k x [] = omega arith
  keep_fewer k x (y ∷ xs) = ground (arith, keep_fewer k x xs)

  -- A key has one row at most.
  pub distinct_on-once :
      (k : K) (xs : List A) → length (keep (λ y. key y == k) (distinct_on xs)) ≤ 1
  unfolding distinct_on
  distinct_on-once k [] = omega arith
  distinct_on-once k (x ∷ xs) = elim (Bool-cases (key x == k)) [
    | inl p ↦ rw (p, keep_same k x (distinct_on xs) p) (omega arith)
    | inr q ↦ rw q (omega (arith, keep_fewer k x (distinct_on xs), distinct_on-once k xs))
  ]
