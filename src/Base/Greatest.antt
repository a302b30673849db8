-- ===== src/Base/Greatest.antt =====
-- What the greatest of a list of numbers is.
use Prim.Native.Nat.{ℕ, ◌≤◌}
use mathlib.Core.Path.{◌≡◌, refl}
use mathlib.Core.Logic.{◌⊎◌, inl, inr}
use mathlib.Core.Option.{Option, none, some}
use mathlib.Core.List.{List, [], ◌∷◌}
use native.Mathlib.Omega.{arith}
use fleet_lambda_platform.Base.Tests.{leb, Bool-cases}
use fleet_lambda_platform.Base.Lists.{In, larger, greatest}

larger-cases :
    (n : ℕ) (o : Option ℕ) → (larger n o ≡ n) ⊎ ((k : ℕ) × (o ≡ some k) × (larger n o ≡ k))
larger-cases n none = inl refl
larger-cases n (some k) = elim (Bool-cases (leb n k)) [
  | inl le ↦ inr (k, refl, ground arith)
  | inr gt ↦ inl (ground arith)
]

pub greatest-In : (ns : List ℕ) (m : ℕ) → greatest ns ≡ some m → In m ns
unfolding greatest
greatest-In [] m h = cc
greatest-In (n ∷ ns) m h = elim (larger-cases n (greatest ns)) [
  | inl e ↦ inl (cc (h, e))
  | inr (k, e, f) ↦ inr (greatest-In ns m (cc (h, e, f)))
]

le-larger : (n k : ℕ) → (n ≤ larger n (some k)) × (k ≤ larger n (some k))
le-larger n k = (omega arith, omega arith)

pub le-greatest : (n m : ℕ) (ns : List ℕ) → In n ns → greatest ns ≡ some m → n ≤ m
unfolding greatest
le-greatest n m [] i h = absurd i
le-greatest n m (k ∷ []) (inl e) h = let same : k ≡ m = cc (h) in omega (arith, e, same)
le-greatest n m (k ∷ []) (inr i) h = absurd i
le-greatest n m (k ∷ j ∷ ns) i h =
    let rest : ℕ = larger j (greatest ns) in
    let same : larger k (some rest) ≡ m = cc (h) in
    elim i [
      | inl e ↦ omega (arith, e, same, (le-larger k rest).0)
      | inr later ↦
          omega (arith, same, (le-larger k rest).1, le-greatest n rest (j ∷ ns) later refl)
    ]
