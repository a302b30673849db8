-- ===== src/Batch/Reconcile/Catchup/Dates.antt =====
-- The dates that `run_available` of batch/reconcile.py runs, and their order.
use fleet_lambda_platform.Base.{
  ℕ, zero, suc, ◌+◌, ◌-◌, ◌/◌, ◌≤◌, ◌<◌, String, Option, none, some, List, [], ◌∷◌, map, In,
  In-append, In-map, map-In, present, In-present, present-In, greatest, append-In_left,
  append-In_right, ◌≡◌, refl, sym, subst, ◌⊎◌, ◌↔◌, inl, inr, arith, nat_eq, leb, leb→le, Bool,
  Bool-cases,
}
use fleet_lambda_platform.Base.Dict.{keys}
use fleet_lambda_platform.Base.Tables.{distinct, In-distinct, distinct-In}
use fleet_lambda_platform.Base.Grouping.{distinct-IsDistinct}
use fleet_lambda_platform.Base.Greatest.{greatest-In, le-greatest}
use fleet_lambda_platform.Base.Descending.{Descending, sort_by-Descending}
use fleet_lambda_platform.Base.Sort.{sort_by-In, In-sort_by}
use fleet_lambda_platform.Streaming.Serving.{day_length}
use fleet_lambda_platform.Batch.Reconcile.{LedgerRow, World, Tools}
use fleet_lambda_platform.Batch.Reconcile.Catchup.{
  days_from, report_dates, newer_first, newest_first, dates_of,
}

pub newest_first-Descending : (dates : List ℕ) → Descending (newest_first dates)
unfolding newest_first
newest_first-Descending dates =
    sort_by-Descending newer_first (λ a b. refl) (distinct dates) (distinct-IsDistinct dates)

pub newest_first-In : (dates : List ℕ) (day : ℕ) → In day (newest_first dates) ↔ In day dates
unfolding newest_first
newest_first-In dates day = (
  λ m. distinct-In day dates (sort_by-In newer_first day (distinct dates) m),
  λ m. In-sort_by newer_first day (distinct dates) (In-distinct day dates m),
)

days_from-In : (first n day : ℕ) → In day (days_from first n) → (first ≤ day) × (day < first + n)
unfolding days_from
days_from-In first zero day m = absurd m
days_from-In first (suc n) day (inl e) = (omega (arith, e), omega (arith, e))
days_from-In first (suc n) day (inr m) =
    let (a, b) = days_from-In (suc first) n day m in (omega (arith, a), omega (arith, b))

In-days_from : (first n day : ℕ) → first ≤ day → day < first + n → In day (days_from first n)
unfolding days_from
In-days_from first zero day a b = absurd (omega (arith, a, b))
In-days_from first (suc n) day a b = elim (Bool-cases (leb day first)) [
  | inl p ↦ inl (omega (arith, a, leb→le day first p))
  | inr q ↦ inr (In-days_from (suc first) n day (ground arith) (omega (arith, b)))
]

before_end : (first day last : ℕ) → first ≤ day → day < first + (last - first) → day < last
before_end first day last a b = omega (arith, a, b)

up_to : (first day last : ℕ) → day < last → day < first + (last - first)
up_to first day last a = omega (arith, a)

later_day : (s t day : ℕ) → s ≤ t → day < s / day_length → day < t / day_length
later_day s t day a b = omega (arith, a, b)

no_time : (n : ℕ) (ns : List ℕ) → In n ns → ¬ (greatest ns ≡ none)
unfolding greatest
no_time n [] i h = absurd i
no_time n (m ∷ ns) i h = cc

-- A report date: a landed date, or a day from the first simulated one that an event of a later day
-- shows to be over.
abbrev pub IsReportDate : ℕ → List LedgerRow → World → ℕ → Type 0
IsReportDate sim_day batches w day =
    In day (keys w.landing)
    ⊎ ((sim_day ≤ day)
        × (b : LedgerRow) × (ts : ℕ) × In b batches
        × (b.max_event_ts ≡ some ts)
        × (day < ts / day_length))

module _ (tools : Tools) (run_id : ℕ → String) (is_locked : ℕ → Bool) (now budget sim_day : ℕ)
    (batches : List LedgerRow) (w : World) (day : ℕ) where
  abbrev times : List ℕ
  times = present (map (λ b. b.max_event_ts) batches)

  time-In : (b : LedgerRow) (ts : ℕ) → In b batches → b.max_event_ts ≡ some ts → In ts times
  time-In b ts i e = In-present ts (map (λ (x : LedgerRow). x.max_event_ts) batches) (
      subst (λ o. In o (map (λ (x : LedgerRow). x.max_event_ts) batches)) e
        (In-map (λ (x : LedgerRow). x.max_event_ts) b batches i))

  report_dates-IsReportDate :
      (newest : Option ℕ)
      → newest ≡ greatest times
      → In day (report_dates sim_day newest (keys w.landing)) ↔ IsReportDate sim_day batches w day
  report_dates-IsReportDate none h = (
    λ m. inl m,
    λ r. elim r [
      | inl landed ↦ landed
      | inr (_, b, ts, i, e, _) ↦ absurd (no_time ts times (time-In b ts i e) (sym h))
    ],
  )
  report_dates-IsReportDate (some t) h = (
    λ m. elim (In-append day (keys w.landing) (days_from sim_day (t / day_length - sim_day)) m) [
      | inl landed ↦ inl landed
      | inr i ↦
          let (a, b) = days_from-In sim_day (t / day_length - sim_day) day i in
          let (r, j, e) =
            map-In (λ (x : LedgerRow). x.max_event_ts) (some t) batches
              (present-In t _ (greatest-In times t (sym h))) in
          inr (a, r, t, j, sym e, before_end sim_day day (t / day_length) a b)
    ],
    λ r. elim r [
      | inl landed ↦ append-In_left day (keys w.landing) _ landed
      | inr (a, b, ts, i, e, lt) ↦
          let most : ts ≤ t = le-greatest ts t times (time-In b ts i e) (sym h) in
          append-In_right day (keys w.landing) _ (
            In-days_from sim_day (t / day_length - sim_day) day a
              (up_to sim_day day (t / day_length) (later_day ts t day most lt)))
    ],
  )

  pub dates_of-IsReportDate :
      In day (dates_of tools run_id is_locked now budget sim_day batches w)
      ↔ IsReportDate sim_day batches w day
  dates_of-IsReportDate = report_dates-IsReportDate (greatest times) refl
