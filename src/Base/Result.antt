-- ===== src/Base/Result.antt =====
-- A Python function that may raise: its value, or the exception.
use Prim.Native.String.{String}
use mathlib.Core.Path.{◌≡◌, refl}
use mathlib.Core.Logic.{◌⊎◌, inl, inr}
use mathlib.Core.Bool.{Bool, true, false}

pub data Exn : Type 0 where
  value_error : String → Exn
  type_error : String → Exn
  key_error : String → Exn
  index_error : String → Exn
  runtime_error : String → Exn
  overflow_error : String → Exn
  decimal_overflow : Exn
  invalid_operation : Exn
  os_error : String → Exn
  operational_error : Exn

pub data Result {ℓ} (A : Type ℓ) : Type ℓ where
  err : Exn → Result A
  ok : A → Result A

module _ {ℓ κ} {A : Type ℓ} {B : Type κ} where
  infixl 5 ◌>>=◌
  -- a call and what is done with its value
  abbrev pub ◌>>=◌ : Result A → (A → Result B) → Result B
  err raised >>= next = err raised
  ok value >>= next = next value

  -- Inversion of a chain that did not raise.
  pub >>=-eq-ok :
      (call : Result A) (next : A → Result B) {out : B}
      → call >>= next ≡ ok out
      → (value : A) × (call ≡ ok value) × (next value ≡ ok out)
  >>=-eq-ok (err raised) next h = cc
  >>=-eq-ok (ok value) next h = (value, refl, h)

module _ {ℓ} {B : Type ℓ} where
  infixl 5 ◌>>◌
  abbrev pub ◌>>◌ : Result (Unit {0}) → Result B → Result B
  check >> after = check >>= λ _. after

-- if c: raise e
abbrev pub raise_if : Bool → Exn → Result (Unit {0})
raise_if true e = err e
raise_if false e = ok tt

pub raise_if-ok : (c : Bool) (e : Exn) (u : Unit) → raise_if c e ≡ ok u → c ≡ false
raise_if-ok true e u h = cc
raise_if-ok false e u h = refl

pub ok-injective {ℓ} : {A : Type ℓ} {a b : A} → ok a ≡ ok b → a ≡ b
ok-injective h = cc

pub Result-cases {ℓ} :
    {A : Type ℓ} (r : Result A) → ((a : A) × (r ≡ ok a)) ⊎ ((e : Exn) × (r ≡ err e))
Result-cases (ok a) = inl (a, refl)
Result-cases (err e) = inr (e, refl)
