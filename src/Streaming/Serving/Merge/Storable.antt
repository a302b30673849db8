-- ===== src/Streaming/Serving/Merge/Storable.antt =====
-- When the rows that `merge_staged` of streaming/staged_sink.py and `bulk_serve` of streaming/sink.py
-- store fit the columns and meet the check of sql/001_schema.sql and sql/004_plan_tables.sql.
use fleet_lambda_platform.Base.{
  ℕ, ◌+◌, ◌<◌, ◌≤◌, String, Bool, true, not, List, [], ◌∷◌, map, keep, length, sum_by, sum_by-map,
  lt→ltb, ◌==◌, pair_eq, nat_eq, string_eq, length-keep-le, In, All, ◌≡◌, refl, ◌⊎◌, inl, inr,
  arith,
}
use fleet_lambda_platform.Base.Tables.{insert_rows}
use fleet_lambda_platform.Base.Grouping.{length-sum_by}
use fleet_lambda_platform.Base.Totals.{length-map, length-distinct, sum_by-keep, sum_by-insert_rows}
use fleet_lambda_platform.Streaming.Serving.{
  Staged, MetricEvent, ZoneMetric, VehicleState, Serving, is_idle,
}
use fleet_lambda_platform.Streaming.Serving.Windows.{
  vehicles_with, recount, fits_columns, fit_columns, is_discredited,
}
use fleet_lambda_platform.Streaming.Serving.States.{is_status, have_status}
use fleet_lambda_platform.Streaming.Serving.Merge.{new_metric_events, kept_events}

-- The status is one that a vehicle can have.
abbrev pub HasStatus : Staged → Type 0
HasStatus s = (s.item.status ≡ "idle") ⊎ ((s.item.status ≡ "enroute") ⊎ (s.item.status ≡ "on_trip"))

-- The rows can be stored beside the metric events: their statuses are known, their number with those
-- is an integer, and the sum of all fares is a bigint.
pub record IsServable (rows : List Staged) (db : Serving) : Type 0 where
  pub statuses : All HasStatus rows
  pub counts : length db.metric_events + length rows < 2147483648
  pub fares :
      sum_by (λ e. e.1.fare_cents) db.metric_events + sum_by (λ s. s.item.fare_cents) rows
      < 9223372036854775808

pub HasStatus-is_status : (s : Staged) → HasStatus s → is_status s.item.status ≡ true
HasStatus-is_status s (inl h) = rw h refl
HasStatus-is_status s (inr (inl h)) = rw h refl
HasStatus-is_status s (inr (inr h)) = rw h refl

fits_columns-lt :
    (m : ZoneMetric)
    → m.reporting_vehicles < 2147483648
    → m.active_vehicles < 2147483648
    → m.trips < 2147483648
    → m.earnings_cents < 9223372036854775808
    → fits_columns m ≡ true
fits_columns-lt m a b c d =
    rw
      (
        lt→ltb m.reporting_vehicles _ a,
        lt→ltb m.active_vehicles _ b,
        lt→ltb m.trips _ c,
        lt→ltb m.earnings_cents _ d,
      )
      refl

module _ (table : List (String × MetricEvent)) where
  vehicles_with-le :
      (test : MetricEvent → Bool) (events : List MetricEvent)
      → vehicles_with test events ≤ length events
  vehicles_with-le test events =
      let vehicles = map (λ (e : MetricEvent). e.vehicle_id) (keep test events) in
      omega (
        arith,
        length-distinct vehicles,
        length-map (λ (e : MetricEvent). e.vehicle_id) (keep test events),
        length-keep-le test events,
      )

  recount-fits :
      (window : ℕ × String)
      → length table < 2147483648
      → sum_by (λ e. e.1.fare_cents) table < 9223372036854775808
      → fits_columns (recount table window) ≡ true
  unfolding recount
  recount-fits window few small =
      let here = keep (λ (e : String × MetricEvent). e.1.window == window) table in
      let events = map (λ (e : String × MetricEvent). e.1) here in
      let number : length events ≤ length table = omega (
        arith,
        length-map (λ (e : String × MetricEvent). e.1) here,
        length-keep-le (λ (e : String × MetricEvent). e.1.window == window) table,
      ) in
      let fares : sum_by (λ e. e.fare_cents) events ≤ sum_by (λ e. e.1.fare_cents) table = omega (
        arith,
        sum_by-map (λ (e : MetricEvent). e.fare_cents) (λ (e : String × MetricEvent). e.1) here,
        sum_by-keep (λ (e : String × MetricEvent). e.1.fare_cents)
            (λ (e : String × MetricEvent). e.1.window == window) table,
      ) in
      let completed = λ (e : MetricEvent). e.trip_completed in
      fits_columns-lt (recount table window) (omega (arith, vehicles_with-le (λ e. true) events))
        (omega (arith, vehicles_with-le (λ e. not (is_idle e.status)) events))
        (omega (arith, length-keep-le completed events))
        (omega (arith, sum_by-keep (λ (e : MetricEvent). e.fare_cents) completed events))

pub fit_columns-all :
    (windows : List (ℕ × String)) (table : List (String × MetricEvent))
    → length table < 2147483648
    → sum_by (λ e. e.1.fare_cents) table < 9223372036854775808
    → fit_columns windows table ≡ true
unfolding fit_columns
fit_columns-all [] table few small = refl
fit_columns-all (w ∷ windows) table few small =
    rw (recount-fits table w few small) (fit_columns-all windows table few small)

-- The metric events after the insertion of some of the rows fit in any windows.
pub metric_events-fit :
    (rows accepted : List Staged) (db : Serving) (ids bad : List String)
    (windows : List (ℕ × String))
    → IsServable rows db
    → length accepted ≤ length rows
    → sum_by (λ s. s.item.fare_cents) accepted ≤ sum_by (λ s. s.item.fare_cents) rows
    → fit_columns windows
        (insert_rows (new_metric_events accepted) (kept_events ids bad db.metric_events))
      ≡ true
metric_events-fit rows accepted db ids bad windows ok few small =
    let new = new_metric_events accepted in
    let kept = kept_events ids bad db.metric_events in
    let total = insert_rows new kept in
    let kept_test : String × MetricEvent → Bool = λ e. not (is_discredited ids bad e) in
    fit_columns-all windows total
      (omega (
        arith,
        length-sum_by total,
        length-sum_by new,
        length-sum_by kept,
        sum_by-insert_rows (λ (e : MetricEvent). 1) new kept,
        length-keep-le kept_test db.metric_events,
        length-map _ accepted,
        ok.counts,
      ))
      (omega (
        arith,
        sum_by-insert_rows (λ (e : MetricEvent). e.fare_cents) new kept,
        sum_by-keep (λ (e : String × MetricEvent). e.1.fare_cents) kept_test db.metric_events,
        sum_by-map (λ (e : String × MetricEvent). e.1.fare_cents) _ accepted,
        ok.fares,
      ))

pub have_status-all :
    (states : List (String × VehicleState))
    → ((v : String × VehicleState) → In v states → is_status v.1.status ≡ true)
    → have_status states ≡ true
unfolding have_status
have_status-all [] h = refl
have_status-all (v ∷ states) h = rw (h v (inl refl)) (have_status-all states (λ u m. h u (inr m)))
