-- ===== src/Streaming/Serving/Windows.antt =====
-- The zone metrics of streaming/staged_sink.py: the windows that a merge recomputes, and the windows
-- that Spark has aggregated (`metrics_partition`).
use fleet_lambda_platform.Base.{
  ℕ, String, Bool, true, false, ◌&&◌, ◌||◌, not, ltb, all, Option, none, some, List, [], ◌∷◌, ◌++◌,
  map, keep, elem, sum_by, length, ◌==◌, if◌then◌else◌, eqb, string_eq, nat_eq, pair_eq, bool_eq,
}
use fleet_lambda_platform.Base.Dict.{lookup, insert}
use fleet_lambda_platform.Base.Tables.{distinct, count_distinct}
use fleet_lambda_platform.Streaming.Serving.{
  Staged, signature_eq, MetricEvent, ZoneMetric, minute_of, is_idle,
}
use fleet_lambda_platform.Streaming.Serving.Conflicts.{trip_in, is_rejected}

-- the window of a row
abbrev pub window_of : Staged → ℕ × String
window_of s = (minute_of s.item.event_ts, s.item.zone)

abbrev pub is_discredited : List String → List String → String × MetricEvent → Bool
is_discredited ids bad e = elem e.0 ids || trip_in e.1.trip_id bad

-- stage_affected_windows
unfoldable pub affected_windows :
    List String → List String → List Staged → List (String × MetricEvent) → List (ℕ × String)
unfolding distinct
affected_windows ids bad rows events = distinct (
    map (λ e. e.1.window) (keep (is_discredited ids bad) events)
    ++ map window_of (keep (is_rejected ids bad) rows))

-- count(DISTINCT vehicle_id) FILTER(...)
abbrev pub vehicles_with : (MetricEvent → Bool) → List MetricEvent → ℕ
vehicles_with test events = count_distinct (map (λ e. e.vehicle_id) (keep test events))

-- a / NULLIF(b, 0)
abbrev pub ratio : ℕ → ℕ → Option (ℕ × ℕ)
ratio a b = if eqb b 0 then none else some (a, b)

-- one row of the query that recomputes an affected window
unfoldable pub recount : List (String × MetricEvent) → ℕ × String → ZoneMetric
unfolding distinct
recount table window =
    let events = map (λ e. e.1) (keep (λ e. e.1.window == window) table) in
    let reporting = vehicles_with (λ e. true) events in
    record {
      reporting_vehicles = reporting;
      active_vehicles = vehicles_with (λ e. not (is_idle e.status)) events;
      idle_ratio = ratio (vehicles_with (λ e. is_idle e.status) events) reporting;
      trips = length (keep (λ e. e.trip_completed) events);
      earnings_cents = sum_by (λ e. e.fare_cents) (keep (λ e. e.trip_completed) events);
      authoritative_corrected = true;
    }

-- the integer and bigint columns of rt_zone_metrics
abbrev pub fits_columns : ZoneMetric → Bool
fits_columns m =
    ltb m.reporting_vehicles 2147483648
    && ltb m.active_vehicles 2147483648
    && ltb m.trips 2147483648
    && ltb m.earnings_cents 9223372036854775808

unfoldable pub fit_columns : List (ℕ × String) → List (String × MetricEvent) → Bool
unfolding recount
fit_columns windows events = all (λ w. fits_columns (recount events w)) windows

-- ON CONFLICT(window_start,zone) DO UPDATE
unfoldable pub correct_windows :
    List (ℕ × String)
    → List (String × MetricEvent)
    → List ((ℕ × String) × ZoneMetric)
    → List ((ℕ × String) × ZoneMetric)
unfolding recount
correct_windows [] events metrics = metrics
correct_windows (window ∷ windows) events metrics =
    correct_windows windows events (insert window (recount events window) metrics)

-- a row of a window that Spark has aggregated
pub record WindowRow : Type 0 where
  pub window : ℕ × String
  pub reporting : ℕ
  pub active_vehicles : ℕ
  pub idle_ratio : Option (ℕ × ℕ)
  pub trips : ℕ
  pub earnings_cents : ℕ

abbrev pub aggregated : WindowRow → ZoneMetric
aggregated r = record {
  reporting_vehicles = r.reporting;
  active_vehicles = r.active_vehicles;
  idle_ratio = r.idle_ratio;
  trips = r.trips;
  earnings_cents = r.earnings_cents;
  authoritative_corrected = false;
}

-- ON CONFLICT(window_start,zone) DO UPDATE ... WHERE NOT rt_zone_metrics.authoritative_corrected
abbrev pub may_overwrite : Option ZoneMetric → Bool
may_overwrite none = true
may_overwrite (some m) = not m.authoritative_corrected

abbrev pub upsert_window :
    WindowRow → List ((ℕ × String) × ZoneMetric) → List ((ℕ × String) × ZoneMetric)
upsert_window r metrics =
    if may_overwrite (lookup r.window metrics)
    then insert r.window (aggregated r) metrics
    else metrics

unfoldable pub metrics_partition :
    List WindowRow → List ((ℕ × String) × ZoneMetric) → List ((ℕ × String) × ZoneMetric)
metrics_partition [] metrics = metrics
metrics_partition (r ∷ rows) metrics = metrics_partition rows (upsert_window r metrics)
