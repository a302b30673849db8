-- ===== src/Common/Domain/Values.antt =====
-- The checks of single fields in `validate_event` of common/domain.py, read backwards.
use fleet_lambda_platform.Base.{
  ℕ, ◌^◌, String, Bool, true, false, all, elem, ◌≡◌, ap, inl, inr, ltb, Bool-cases, string_eq,
}
use fleet_lambda_platform.Base.Int.{pos, negsuc}
use fleet_lambda_platform.Base.Paths.{codes}
use fleet_lambda_platform.Base.Result.{ok, ok-injective}
use fleet_lambda_platform.Common.Domain.{
  Value, null, boolean, integer, dyadic, not_finite, text, container, statuses, is_space,
  nonempty_text, valid_status, valid_fare, valid_completed,
}

-- a text that is not blank
abbrev pub IsText : Value → String → Type 0
IsText v s = (v ≡ text s) × (all is_space (codes s) ≡ false)

pub nonempty_text-IsText : (v : Value) (s : String) → nonempty_text v ≡ ok s → IsText v s
nonempty_text-IsText (text t) s h = elim (Bool-cases (all is_space (codes t))) [
  | inl blank ↦ cc (rw blank at h)
  | inr full ↦ let e : t ≡ s = ok-injective (rw full at h) in (ap text e, rw (← e) full)
]
nonempty_text-IsText null s h = cc
nonempty_text-IsText (boolean b) s h = cc
nonempty_text-IsText (integer z) s h = cc
nonempty_text-IsText (dyadic m k) s h = cc
nonempty_text-IsText not_finite s h = cc
nonempty_text-IsText container s h = cc

pub status-inverse :
    (v : Value) (s : String) → valid_status v ≡ ok s → (v ≡ text s) × (elem s statuses ≡ true)
status-inverse (text t) s h = elim (Bool-cases (elem t statuses)) [
  | inl known ↦ let e : t ≡ s = ok-injective (rw known at h) in (ap text e, rw (← e) known)
  | inr other ↦ cc (rw other at h)
]
status-inverse null s h = cc
status-inverse (boolean b) s h = cc
status-inverse (integer z) s h = cc
status-inverse (dyadic m k) s h = cc
status-inverse not_finite s h = cc
status-inverse container s h = cc

pub fare-inverse :
    (v : Value) (n : ℕ) → valid_fare v ≡ ok n → (v ≡ integer (pos n)) × (ltb n (2 ^ 63) ≡ true)
fare-inverse (integer (pos m)) n h = elim (Bool-cases (ltb m (2 ^ 63))) [
  | inl small ↦
      let e : m ≡ n = ok-injective (rw small at h) in (ap (λ x. integer (pos x)) e, rw (← e) small)
  | inr large ↦ cc (rw large at h)
]
fare-inverse (integer (negsuc m)) n h = cc
fare-inverse (text t) n h = cc
fare-inverse null n h = cc
fare-inverse (boolean b) n h = cc
fare-inverse (dyadic m k) n h = cc
fare-inverse not_finite n h = cc
fare-inverse container n h = cc

pub completed-inverse : (v : Value) (b : Bool) → valid_completed v ≡ ok b → v ≡ boolean b
completed-inverse (boolean c) b h = ap boolean (ok-injective h)
completed-inverse (integer z) b h = cc
completed-inverse (text t) b h = cc
completed-inverse null b h = cc
completed-inverse (dyadic m k) b h = cc
completed-inverse not_finite b h = cc
completed-inverse container b h = cc
