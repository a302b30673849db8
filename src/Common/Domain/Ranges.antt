-- ===== src/Common/Domain/Ranges.antt =====
-- What the range checks of `validate_event` of common/domain.py say of a number.
use fleet_lambda_platform.Base.{
  ℕ, zero, suc, ◌+◌, ◌*◌, ◌-◌, ◌^◌, ◌≤◌, true, false, ◌&&◌, ◌≡◌, ◌⊎◌, refl, inl, inr, arith, leb,
}
use fleet_lambda_platform.Base.Int.{ℤ, pos, negsuc, pos_part, neg_part}
use fleet_lambda_platform.Common.Domain.{
  Value, null, boolean, integer, dyadic, not_finite, text, container, in_range,
}

pub power_pos : (k : ℕ) → 1 ≤ 2 ^ k
power_pos zero = omega arith
power_pos (suc k) = omega (arith, power_pos k)

-- A number from -bound to bound, written as an integer or as the fraction m / 2^k.
abbrev pub IsWithin : ℕ → Value → Type 0
IsWithin bound v =
    ((z : ℤ) × (v ≡ integer z) × (neg_part z ≤ bound) × (pos_part z ≤ bound))
    ⊎ ((m : ℤ) × (k : ℕ) × (v ≡ dyadic m k)
        × (neg_part m ≤ bound * 2 ^ k)
        × (pos_part m ≤ bound * 2 ^ k))

-- A number from 0 to bound.
abbrev pub IsUpTo : ℕ → Value → Type 0
IsUpTo bound v =
    ((n : ℕ) × (v ≡ integer (pos n)) × (n ≤ bound))
    ⊎ ((n : ℕ) × (k : ℕ) × (v ≡ dyadic (pos n) k) × (n ≤ bound * 2 ^ k))

-- the two tests of a range about 0, on the parts of a number
within-parts :
    (z : ℤ) (x : ℕ)
    → (leb (0 + neg_part z) (pos_part z + x) && leb (pos_part z + 0) (x + neg_part z)) ≡ true
    → (neg_part z ≤ x) × (pos_part z ≤ x)
within-parts (pos n) x h = (omega arith, ground arith)
within-parts (negsuc n) x h = (ground arith, omega arith)

parts-within :
    (z : ℤ) (x : ℕ)
    → neg_part z ≤ x
    → pos_part z ≤ x
    → (leb (0 + neg_part z) (pos_part z + x) && leb (pos_part z + 0) (x + neg_part z)) ≡ true
parts-within (pos n) x h k = ground arith
parts-within (negsuc n) x h k = ground arith

below_power : (b k : ℕ) → suc ((b + 1) * 2 ^ k - 1) ≡ suc b * 2 ^ k
below_power b k = grind (arith, power_pos k)

pub in_range-IsWithin :
    (b : ℕ) (v : Value) → in_range (negsuc b) (pos (suc b)) v ≡ true → IsWithin (suc b) v
in_range-IsWithin b (integer z) h =
    let (low, high) = within-parts z (suc b) h in inl (z, refl, low, high)
in_range-IsWithin b (dyadic m k) h =
    let (low, high) = within-parts m (suc b * 2 ^ k) (rw (below_power b k) at h) in
    inr (m, k, refl, low, high)
in_range-IsWithin b null h = cc
in_range-IsWithin b (boolean c) h = cc
in_range-IsWithin b not_finite h = cc
in_range-IsWithin b (text t) h = cc
in_range-IsWithin b container h = cc

pub IsWithin-in_range :
    (b : ℕ) (v : Value) → IsWithin (suc b) v → in_range (negsuc b) (pos (suc b)) v ≡ true
IsWithin-in_range b v (inl (z, same, low, high)) = rw same (parts-within z (suc b) low high)
IsWithin-in_range b v (inr (m, k, same, low, high)) =
    rw same (rw (below_power b k) (parts-within m (suc b * 2 ^ k) low high))

pub in_range-IsUpTo : (b : ℕ) (v : Value) → in_range (pos 0) (pos b) v ≡ true → IsUpTo b v
in_range-IsUpTo b (integer (pos n)) h = inl (n, refl, ground arith)
in_range-IsUpTo b (integer (negsuc n)) h = cc (negative n h)
  where
    negative : (n : ℕ) → (leb (0 + suc n) 0 && leb 0 (b + suc n)) ≡ true → true ≡ false
    negative n h = ground arith
in_range-IsUpTo b (dyadic (pos n) k) h = inr (n, k, refl, ground arith)
in_range-IsUpTo b (dyadic (negsuc n) k) h = cc (negative n h)
  where
    negative :
        (n : ℕ) → (leb (0 * 2 ^ k + suc n) 0 && leb 0 (b * 2 ^ k + suc n)) ≡ true → true ≡ false
    negative n h = ground arith
in_range-IsUpTo b null h = cc
in_range-IsUpTo b (boolean c) h = cc
in_range-IsUpTo b not_finite h = cc
in_range-IsUpTo b (text t) h = cc
in_range-IsUpTo b container h = cc

pub IsUpTo-in_range : (b : ℕ) (v : Value) → IsUpTo b v → in_range (pos 0) (pos b) v ≡ true
IsUpTo-in_range b v (inl (n, same, high)) = rw same (ground arith)
IsUpTo-in_range b v (inr (n, k, same, high)) = rw same (ground arith)
