-- ===== src/Base/Dict.antt =====
-- A Python dict, or a table with a primary key: an association list in insertion order.
use fleet_lambda_platform.Base.Equality.{Eq, ◌==◌, elem, eq_self}
use fleet_lambda_platform.Base.Tests.{if◌then◌else◌, Bool-cases}
use fleet_lambda_platform.Base.Lists.{In, All, All-In, all, sum_by, length}
use Prim.Native.Nat.{ℕ, ◌+◌}
use mathlib.Core.Path.{◌≡◌, refl}
use mathlib.Core.Logic.{◌≢◌, inl, inr}
use mathlib.Core.Bool.{Bool, true, false}
use mathlib.Core.Option.{Option, none, some}
use mathlib.Core.List.{List, [], ◌∷◌}
use native.Mathlib.Omega.{arith}

module _ {ℓ κ} {K : Type ℓ} {V : Type κ} ⦃e : Eq K⦄ where
  -- d.get(k)
  abbrev pub lookup : K → List (K × V) → Option V
  lookup k [] = none
  lookup k ((here, v) ∷ rest) = if k == here then some v else lookup k rest

  -- k in d
  abbrev pub contains : K → List (K × V) → Bool
  contains k d = elim (lookup k d) [ some _ ↦ true | none ↦ false ]

  -- d[k] = v, and INSERT ... ON CONFLICT DO UPDATE
  abbrev pub insert : K → V → List (K × V) → List (K × V)
  insert k v [] = (k, v) ∷ []
  insert k v ((j, w) ∷ d) = if k == j then (j, v) ∷ d else (j, w) ∷ insert k v d

  pub contains-none : (k : K) (d : List (K × V)) → lookup k d ≡ none → contains k d ≡ false
  contains-none k d h = ground (arith, h)

  pub lookup-insert_self : (k : K) (v : V) (d : List (K × V)) → lookup k (insert k v d) ≡ some v
  lookup-insert_self k v [] = rw ((e.beq_iff k k).1 refl)
  lookup-insert_self k v ((j, w) ∷ d) = ground (arith, lookup-insert_self k v d)

  pub lookup-insert_ne :
      (j k : K) (v : V) (d : List (K × V)) → j ≢ k → lookup j (insert k v d) ≡ lookup j d
  lookup-insert_ne j k v [] h = ground (arith, e.beq_iff j k)
  lookup-insert_ne j k v ((i, w) ∷ d) h =
      ground (arith, lookup-insert_ne j k v d h, e.beq_iff k i, e.beq_iff j i)

module _ {K V : Type 0} ⦃e : Eq K⦄ where
  -- d.keys()
  abbrev pub keys : List (K × V) → List K
  keys [] = []
  keys ((k, _) ∷ d) = k ∷ keys d

  pub lookup-In : (k : K) (v : V) (d : List (K × V)) → lookup k d ≡ some v → In (k, v) d
  lookup-In k v [] h = cc
  lookup-In k v ((j, w) ∷ d) h = elim (Bool-cases (k == j)) [
    | inl p ↦ inl (ground (arith, e.beq_iff k j))
    | inr q ↦ inr (lookup-In k v d (rw q at h))
  ]

  pub elem-keys-lookup :
      (k : K) (d : List (K × V)) → elem k (keys d) ≡ true → (v : V) × (lookup k d ≡ some v)
  elem-keys-lookup k [] h = cc
  elem-keys-lookup k ((j, w) ∷ d) h = elim (Bool-cases (k == j)) [
    | inl p ↦ (w, rw p)
    | inr q ↦ rw q (elem-keys-lookup k d (rw q at h))
  ]

  pub All-insert {κ} :
      (P : K × V → Type κ) (k : K) (v : V) (d : List (K × V))
      → P (k, v)
      → All P d
      → All P (insert k v d)
  All-insert P k v [] p h = (p, tt)
  All-insert P k v ((j, w) ∷ d) p h = elim (Bool-cases (k == j)) [
    | inl e' ↦ rw e' (rw (← (e.beq_iff k j).0 e') p, h.1)
    | inr ne ↦ rw ne (h.0, All-insert P k v d p h.1)
  ]

  pub lookup-All {κ} :
      (P : K × V → Type κ) (k : K) (v : V) (d : List (K × V))
      → All P d
      → lookup k d ≡ some v
      → P (k, v)
  lookup-All P k v d h e = All-In P (k, v) d h (lookup-In k v d e)

  pub all-keys : (test : K → Bool) (d : List (K × V)) → all (λ e'. test e'.0) d ≡ all test (keys d)
  all-keys test [] = refl
  all-keys test ((k, v) ∷ d) = rw (all-keys test d)

-- what a key contributes to a sum
abbrev pub share {ℓ} : {V : Type ℓ} → (V → ℕ) → Option V → ℕ
share f none = 0
share f (some v) = f v

module _ {K V : Type 0} ⦃e : Eq K⦄ where
  -- No key stands twice.
  abbrev pub NodupKeys : List (K × V) → Type 0
  NodupKeys [] = Unit
  NodupKeys ((k, v) ∷ d) = (lookup k d ≡ none) × NodupKeys d

  pub In-lookup :
      (k : K) (v : V) (d : List (K × V)) → NodupKeys d → In (k, v) d → lookup k d ≡ some v
  In-lookup k v [] h m = absurd m
  In-lookup k v ((j, w) ∷ d) h (inl same) = ground (arith, e.beq_iff k j)
  In-lookup k v ((j, w) ∷ d) h (inr m) = ground (arith, e.beq_iff k j, In-lookup k v d h.1 m)

  pub insert-NodupKeys : (k : K) (v : V) (d : List (K × V)) → NodupKeys d → NodupKeys (insert k v d)
  insert-NodupKeys k v [] h = (refl, tt)
  insert-NodupKeys k v ((j, w) ∷ d) h =
      ground
        (arith, e.beq_iff k j, e.beq_iff j k, insert-NodupKeys k v d h.1, lookup-insert_ne j k v d)

  pub lookup-insert :
      (j k : K) (v : V) (d : List (K × V))
      → lookup j (insert k v d) ≡ (if j == k then some v else lookup j d)
  lookup-insert j k v d = elim (Bool-cases (j == k)) [
    | inl p ↦ rw (p, (e.beq_iff j k).0 p) (lookup-insert_self k v d)
    | inr q ↦ rw q (lookup-insert_ne j k v d (λ same. cc (q, (e.beq_iff j k).1 same)))
  ]

  pub sum_by-insert_new :
      (f : V → ℕ) (k : K) (v : V) (d : List (K × V))
      → lookup k d ≡ none
      → sum_by (λ x. f x.1) (insert k v d) ≡ sum_by (λ x. f x.1) d + f v
  sum_by-insert_new f k v [] h = omega arith
  sum_by-insert_new f k v ((j, w) ∷ d) h = elim (Bool-cases (k == j)) [
    | inl p ↦ cc (rw p at h)
    | inr q ↦ rw q (omega (arith, sum_by-insert_new f k v d (rw q at h)))
  ]

  pub sum_by-insert :
      (f : V → ℕ) (k : K) (v : V) (d : List (K × V))
      → sum_by (λ x. f x.1) (insert k v d) + share f (lookup k d) ≡ sum_by (λ x. f x.1) d + f v
  sum_by-insert f k v [] = omega arith
  sum_by-insert f k v ((j, w) ∷ d) = elim (Bool-cases (k == j)) [
    | inl p ↦ rw p (omega arith)
    | inr q ↦ rw q (omega (arith, sum_by-insert f k v d))
  ]

  pub length-insert_new :
      (k : K) (v : V) (d : List (K × V)) → lookup k d ≡ none → length (insert k v d) ≡ length d + 1
  length-insert_new k v [] h = refl
  length-insert_new k v ((j, w) ∷ d) h = elim (Bool-cases (k == j)) [
    | inl p ↦ cc (rw p at h)
    | inr q ↦ rw q (omega (arith, length-insert_new k v d (rw q at h)))
  ]

  pub elem-keys-none : (k : K) (d : List (K × V)) → lookup k d ≡ none → elem k (keys d) ≡ false
  elem-keys-none k [] h = refl
  elem-keys-none k ((j, w) ∷ d) h = ground (arith, elem-keys-none k d)

  pub lookup_not_key : (k : K) (d : List (K × V)) → elem k (keys d) ≡ false → lookup k d ≡ none
  lookup_not_key k [] h = refl
  lookup_not_key k ((j, w) ∷ d) h = ground (arith, lookup_not_key k d)

  share_later :
      (f : V → ℕ) (k : K) (v : V) (d : List (K × V)) (js : List K)
      → elem k js ≡ false
      → sum_by (λ j. share f (lookup j ((k, v) ∷ d))) js ≡ sum_by (λ j. share f (lookup j d)) js
  share_later f k v d [] h = refl
  share_later f k v d (j ∷ js) h =
      ground (arith, share_later f k v d js, e.beq_iff k j, e.beq_iff j k)

  -- Summing over the keys is summing over the entries.
  pub sum_by-keys :
      (f : V → ℕ) (d : List (K × V))
      → NodupKeys d
      → sum_by (λ k. share f (lookup k d)) (keys d) ≡ sum_by (λ x. f x.1) d
  sum_by-keys f [] h = refl
  sum_by-keys f ((k, v) ∷ d) (absent, h) =
      rw (eq_self k)
        (omega (arith, sum_by-keys f d h, share_later f k v d (keys d) (elem-keys-none k d absent)))
