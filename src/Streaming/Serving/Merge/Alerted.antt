-- ===== src/Streaming/Serving/Merge/Alerted.antt =====
-- The idle alerts that `merge_staged` of streaming/staged_sink.py leaves.
use fleet_lambda_platform.Base.{
  ℕ, ◌+◌, ◌≤◌, String, Bool, true, false, ◌&&◌, not, Option, List, [], ◌∷◌, ◌++◌, map, keep, any,
  length, ◌≡◌, refl, subst, inl, inr, arith, Bool-cases, ◌==◌, string_eq, length-keep-map, greatest,
}
use fleet_lambda_platform.Base.Tables.{distinct_on, distinct_on-once}
use fleet_lambda_platform.Base.Sort.{sort_by}
use fleet_lambda_platform.Base.Result.{ok}
use fleet_lambda_platform.Streaming.Serving.{Staged, Serving, VehicleState, Alert}
use fleet_lambda_platform.Streaming.Serving.Conflicts.{of_run}
use fleet_lambda_platform.Streaming.Serving.States.{state_candidates, state_candidate, newest_first}
use fleet_lambda_platform.Streaming.Serving.Alerts.{
  is_open, is_overdue, raised, raise_alerts, is_over, resolve_alerts,
}
use fleet_lambda_platform.Streaming.Serving.Merge.{merge_staged, commit, is_stale, kept_states}
use fleet_lambda_platform.Streaming.Serving.Merge.Outcome.{ids, bad, accepted, merge_rows-ok}

-- the alerts of a vehicle that are open
abbrev pub open_count : String → List Alert → ℕ
open_count v alerts = length (keep (is_open v) alerts)

open_count-append :
    (v : String) (xs ys : List Alert) → open_count v (xs ++ ys) ≡ open_count v xs + open_count v ys
open_count-append v [] ys = omega arith
open_count-append v (x ∷ xs) ys = ground (arith, open_count-append v xs ys)

no_open :
    (v : String) (alerts : List Alert) → any (is_open v) alerts ≡ false → open_count v alerts ≡ 0
no_open v [] h = refl
no_open v (a ∷ alerts) h = ground (arith, no_open v alerts)

module _ (minutes : ℕ) (reference : Option ℕ) (v : String) (alerts : List Alert) where
  abbrev is_eligible : String × VehicleState → Bool
  is_eligible c = is_overdue minutes reference c.1.idle_since && not (any (is_open c.0) alerts)

  abbrev new_alerts : List (String × VehicleState) → List Alert
  new_alerts candidates =
      map (λ c. raised minutes reference c.1.idle_since c.0) (keep is_eligible candidates)

  -- A vehicle gets at most as many alerts as it has candidates, and none where one is open.
  new_alerts-open_count :
      (candidates : List (String × VehicleState))
      → open_count v (new_alerts candidates) ≤ length (keep (λ c. c.0 == v) candidates)
  new_alerts-open_count [] = omega arith
  new_alerts-open_count (c ∷ candidates) = ground (arith, new_alerts-open_count candidates)

  no_new_alert :
      (candidates : List (String × VehicleState))
      → any (is_open v) alerts ≡ true
      → open_count v (new_alerts candidates) ≡ 0
  no_new_alert [] h = refl
  no_new_alert ((u, s) ∷ candidates) h = elim (Bool-cases (u == v)) [
    | inl p ↦
        let same = (string_eq.beq_iff u v).0 p in
        rw (same, h) (ground (arith, no_new_alert candidates h))
    | inr q ↦ ground (arith, no_new_alert candidates h)
  ]

  raise_alerts-open_count :
      (candidates : List (String × VehicleState))
      → open_count v alerts ≤ 1
      → length (keep (λ c. c.0 == v) candidates) ≤ 1
      → open_count v (raise_alerts minutes reference candidates alerts) ≤ 1
  unfolding raise_alerts
  raise_alerts-open_count candidates few one =
      let sum = open_count-append v (new_alerts candidates) alerts in
      elim (Bool-cases (any (is_open v) alerts)) [
        | inl p ↦ omega (arith, sum, no_new_alert candidates p)
        | inr q ↦ omega (arith, sum, no_open v alerts q, new_alerts-open_count candidates)
      ]

-- Resolving closes alerts and opens none.
resolve_alerts-open_count :
    (v : String) (candidates : List (String × VehicleState)) (alerts : List Alert)
    → open_count v (resolve_alerts candidates alerts) ≤ open_count v alerts
unfolding resolve_alerts
resolve_alerts-open_count v candidates [] = omega arith
resolve_alerts-open_count v candidates (a ∷ alerts) =
    let rest = resolve_alerts-open_count v candidates alerts in
    elim (Bool-cases (is_over candidates a)) [
      | inl p ↦ rw p (ground (arith, rest))
      | inr q ↦ rw q (ground (arith, rest))
    ]

-- A vehicle has at most one candidate.
one_candidate :
    (after : String → String → Bool) (rows : List Staged) (states : List (String × VehicleState))
    (v : String)
    → length (keep (λ c. c.0 == v) (state_candidates after rows states)) ≤ 1
unfolding state_candidates state_candidate
one_candidate after rows states v =
    let chosen =
      distinct_on (λ (s : Staged). s.item.vehicle_id) (sort_by (newest_first after) rows) in
    omega (
      arith,
      length-keep-map (λ (c : String × VehicleState). c.0 == v) (state_candidate after rows states)
          chosen,
      distinct_on-once (λ (s : Staged). s.item.vehicle_id) v (sort_by (newest_first after) rows),
    )

-- When each vehicle has at most one unresolved idle alert, so it has after every merge that commits.
pub merge_staged-OneAlert :
    (after : String → String → Bool) (minutes batch_id now n : ℕ) (run_id v : String)
    (db db' : Serving)
    → open_count v db.alerts ≤ 1
    → merge_staged after minutes run_id batch_id now db ≡ ok (n, db')
    → open_count v db'.alerts ≤ 1
unfolding merge_staged commit
merge_staged-OneAlert after minutes batch_id now n run_id v db db' few h =
    let stage = keep (λ s. not (is_stale now s)) db.stage in
    let rows = of_run run_id stage in
    let (completed, done, same) =
      merge_rows-ok rows db after minutes run_id batch_id n stage db' h in
    let known = kept_states (ids rows db) (bad rows db) db.event_keys db.states in
    let candidates = state_candidates after (accepted rows db) known in
    let reference = greatest (map (λ s. s.item.event_ts) (accepted rows db)) in
    let raised_ones = raise_alerts minutes reference candidates db.alerts in
    subst (λ d. open_count v d.alerts ≤ 1) same
      (omega (
        arith,
        resolve_alerts-open_count v candidates raised_ones,
        raise_alerts-open_count minutes reference v db.alerts candidates few
            (one_candidate after (accepted rows db) known v),
      ))
