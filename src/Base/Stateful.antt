-- ===== src/Base/Stateful.antt =====
-- Steps on a state that may raise: the state is kept also where a step raises.
use mathlib.Core.Path.{◌≡◌, refl}
use mathlib.Core.Logic.{◌⊎◌, inl, inr}
use mathlib.Core.Option.{Option, none, some}
use fleet_lambda_platform.Base.Result.{Result, Exn, ok, err}

-- The answer of a step, and the state after it.
abbrev pub After : Type 0 → Type 0 → Type 0
After W A = Result A × W

infixl 5 ◌>>>◌
abbrev pub ◌>>>◌ : {W A B : Type 0} → After W A → (A → W → After W B) → After W B
◌>>>◌ (err e, w) next = (err e, w)
◌>>>◌ (ok a, w) next = next a w

-- A step that an exception from outside may replace: it then changes nothing.
abbrev pub unless_raised : {W A : Type 0} → Option Exn → (W → After W A) → W → After W A
unless_raised none step w = step w
unless_raised (some e) step w = (err e, w)

pub unless_raised-ok :
    {W A : Type 0} (fault : Option Exn) (step : W → After W A) (w : W) {a : A} {v : W}
    → unless_raised fault step w ≡ (ok a, v)
    → step w ≡ (ok a, v)
unless_raised-ok none step w h = h
unless_raised-ok (some e) step w h = cc

module _ {W A B : Type 0} where
  pub >>>-ok :
      (call : After W A) (next : A → W → After W B) {b : B} {w' : W}
      → call >>> next ≡ (ok b, w')
      → (a : A) × (v : W) × (call ≡ (ok a, v)) × (next a v ≡ (ok b, w'))
  >>>-ok (err e, w) next h = cc
  >>>-ok (ok a, w) next h = (a, w, refl, h)

  -- What every step keeps, their composition keeps, however it ends.
  pub >>>-keeps {κ} :
      (P : W → Type κ) (call : After W A) (next : A → W → After W B)
      → P call.1
      → ((a : A) (w : W) → P w → P (next a w).1)
      → P (call >>> next).1
  >>>-keeps P (err e, w) next p keep = p
  >>>-keeps P (ok a, w) next p keep = keep a w p

  pub >>>-err :
      (call : After W A) (next : A → W → After W B) {e : Exn} {w' : W}
      → call >>> next ≡ (err e, w')
      → (call ≡ (err e, w')) ⊎ ((a : A) × (v : W) × (call ≡ (ok a, v)) × (next a v ≡ (err e, w')))
  >>>-err (err e, w) next h = inl cc
  >>>-err (ok a, w) next h = inr (a, w, refl, h)
