-- ===== src/Batch/Aggregate.antt =====
-- `aggregate` of batch/spark_reconcile.py: the rows of a report date, the coverage and the zone totals,
-- from the rows of the committed archives. A Spark frame is a list of rows. The arithmetic of floating
-- point is taken as exact: the step between two observations is `step.0 / step.1` microseconds. Spark's
-- to_json of an event's fields and its approximate count are the parameters `to_json` and
-- `approx_count`. margin_pct and the zone of the coverage are left out.
pub mod Totals
pub mod Withheld
mod Tests
use fleet_lambda_platform.Base.{
  ℕ, ◌+◌, ◌*◌, ◌-◌, ◌/◌, String, Bool, true, false, ◌&&◌, ◌||◌, not, Option, none, some, List, [],
  ◌∷◌, ◌++◌, map, keep, any, elem, sum_by, length, greatest, least, ◌==◌, if◌then◌else◌, ltb, leb,
  is_none, string_eq, nat_eq, pair_eq, option_eq,
}
use fleet_lambda_platform.Base.Int.{ℤ, pos, negsuc, ◌-ℤ◌, leb_ℤ, ltb_ℤ, sub_ℕ}
use fleet_lambda_platform.Base.Dict.{lookup}
use fleet_lambda_platform.Base.Tables.{distinct, count_distinct, distinct_on}
use fleet_lambda_platform.Base.Sort.{sort_by}
use fleet_lambda_platform.Base.Result.{Result, ok, err, value_error}
use fleet_lambda_platform.Common.Domain.{Expense, ReportRow, costs_of, name_le, profit_of}
use fleet_lambda_platform.Streaming.Serving.{Signature, signature_eq, day_length}
use fleet_lambda_platform.Streaming.Serving.Conflicts.{trip_in}
use fleet_lambda_platform.Batch.Reconcile.{Coverage, ZoneTotal, Output}

-- a row of a committed archive, with the columns that this module reads by name
pub record ArchiveRow : Type 0 where
  pub event_id : String
  pub trip_id : Option String
  pub vehicle_id : String
  pub fare_cents : ℕ
  pub trip_completed : Bool
  pub zone : String
  pub event_time : Option ℕ
  pub other_fields : List String

abbrev pub time_of : ArchiveRow → ℕ
time_of r = elim r.event_time [ none ↦ 0 | some t ↦ t ]

module _ (to_json : ArchiveRow → String) (blocked_event_ids blocked_trip_ids : List String)
    (raw : List ArchiveRow) where
  -- an event with two contents, or one that is blocked
  unfoldable pub is_bad_event : String → Bool
  unfolding distinct
  is_bad_event id =
      ltb 1 (count_distinct (map to_json (keep (λ r. r.event_id == id) raw)))
      || elem id blocked_event_ids

  abbrev pub event_conflicts : List ArchiveRow
  event_conflicts = keep (λ r. is_bad_event r.event_id) raw

  -- one row for each of the other events
  unfoldable pub clean : List ArchiveRow
  unfolding is_bad_event distinct_on
  clean = distinct_on (λ r. r.event_id) (keep (λ r. not (is_bad_event r.event_id)) raw)

  abbrev pub completed : List ArchiveRow
  completed = keep (λ r. r.trip_completed) clean

  abbrev pub signature : ArchiveRow → Signature
  signature r = record {
    vehicle_id = r.vehicle_id;
    fare_cents = r.fare_cents;
    event_ts = time_of r;
    zone = r.zone;
  }

  abbrev pub is_bad_trip_id : String → Bool
  is_bad_trip_id t =
      ltb 1 (count_distinct (map signature (keep (λ r. trip_in r.trip_id (t ∷ [])) completed)))
      || elem t blocked_trip_ids

  -- a null trip joins with no bad trip
  unfoldable pub is_bad_trip : Option String → Bool
  unfolding distinct clean
  is_bad_trip none = false
  is_bad_trip (some t) = is_bad_trip_id t

  unfoldable pub conflicted : List String
  unfolding is_bad_trip clean
  conflicted =
      map (λ r. r.vehicle_id) (event_conflicts ++ keep (λ r. is_bad_trip r.trip_id) completed)

  -- one row for each of the other trips
  unfoldable pub trips : List ArchiveRow
  unfolding is_bad_trip distinct_on clean
  trips = distinct_on (λ r. r.trip_id) (keep (λ r. not (is_bad_trip r.trip_id)) completed)

abbrev pub of_vehicle : String → List ArchiveRow → List ArchiveRow
of_vehicle v rows = keep (λ r. r.vehicle_id == v) rows

abbrev pub of_zone : String → List ArchiveRow → List ArchiveRow
of_zone z rows = keep (λ r. r.zone == z) rows

-- the differences to the row before, in the order of time
unfoldable pub gaps : List ℕ → List ℕ
gaps [] = []
gaps (t ∷ []) = []
gaps (t ∷ u ∷ ts) = (u - t) ∷ gaps (u ∷ ts)

abbrev pub or_zero : Option ℕ → ℕ
or_zero none = 0
or_zero (some n) = n

-- ceil(t / step)
abbrev pub ceil_steps : ℕ × ℕ → ℤ → ℤ
ceil_steps step (pos n) = pos ((n * step.1 + step.0 - 1) / step.0)
ceil_steps step (negsuc n) = sub_ℕ 0 ((n + 1) * step.1 / step.0)

module _ (step : ℕ × ℕ) (sim_start start : ℕ) where
  abbrev pub expected_observations : ℤ
  expected_observations =
      ceil_steps step (pos (start + day_length) -ℤ pos sim_start)
      -ℤ ceil_steps step (pos start -ℤ pos sim_start)

  -- seconds <= step + 0.001
  abbrev pub within_step : ℕ → Bool
  within_step micros = leb (micros * step.1) (step.0 + 1000 * step.1)

  -- The vehicle's observations begin and end with the day, and leave no gap of 1.5 steps.
  unfoldable pub is_complete : List (ℕ × String) → Bool
  unfolding sort_by gaps greatest least
  is_complete seen =
      let times = sort_by leb (map (λ s. s.0) seen) in
      let first = or_zero (least times) in
      let last = or_zero (greatest times) in
      within_step (first - start)
      && within_step (start + day_length - last)
      && leb (2 * or_zero (greatest (gaps times)) * step.1) (3 * step.0)
      && leb_ℤ expected_observations (pos (length seen))

  abbrev pub coverage_of : Bool → List (ℕ × String) → Coverage
  coverage_of conflict [] = record { complete = false; observations = 0; conflict = conflict }
  coverage_of conflict (s ∷ seen) = record {
    complete = is_complete (s ∷ seen);
    observations = length (s ∷ seen);
    conflict = conflict;
  }

-- the column reconciliation_status
abbrev pub status_of : Coverage → Option Expense → String
status_of c cost =
    if c.conflict
    then "conflicting_events"
    else if not c.complete
    then "incomplete_telemetry"
    else if is_none cost
    then "missing_expenses"
    else "complete"

abbrev pub profit_when : String → ℕ → Option Expense → Option ℤ
profit_when status revenue none = none
profit_when status revenue (some cost) =
    if status == "complete" then some (profit_of revenue cost) else none

abbrev pub is_negative : Option ℤ → Option Bool
is_negative none = none
is_negative (some p) = some (ltb_ℤ p (pos 0))

abbrev pub report_row : String → ℕ → ℕ → Option Expense → Coverage → ReportRow
report_row v count revenue cost c = record {
  vehicle_id = v;
  trips = count;
  revenue_cents = revenue;
  cost = cost;
  profit_cents = profit_when (status_of c cost) revenue cost;
  is_unprofitable = is_negative (profit_when (status_of c cost) revenue cost);
  reconciliation_status = status_of c cost;
}

module _ (counted : List ArchiveRow) (approx_count : List String → ℕ) where
  abbrev pub zone_total : String → String × ZoneTotal
  zone_total z = (
    z,
    record {
      trips = length (of_zone z counted);
      revenue_cents = sum_by (λ r. r.fare_cents) (of_zone z counted);
      vehicles = approx_count (map (λ r. r.vehicle_id) (of_zone z counted));
    },
  )

  unfoldable pub zone_totals : List (String × ZoneTotal)
  unfolding distinct
  zone_totals = map zone_total (distinct (map (λ r. r.zone) counted))

  -- a row of the join of the known vehicles with their totals, costs and coverage
  abbrev pub vehicle_row : (String → Coverage) → List (String × Expense) → String → ReportRow
  vehicle_row cover costs v =
      report_row v (length (of_vehicle v counted))
        (sum_by (λ r. r.fare_cents) (of_vehicle v counted)) (lookup v costs) (cover v)

module _ (to_json : ArchiveRow → String) (approx_count : List String → ℕ) (step : ℕ × ℕ)
    (sim_start report_date : ℕ) (known_vehicles : List String) where
  abbrev pub is_outside : Option ℕ → Bool
  is_outside none = true
  is_outside (some t) =
      ltb t (report_date * day_length) || leb (report_date * day_length + day_length) t

  -- each vehicle once in the order of names
  abbrev pub sorted_vehicles : List String
  sorted_vehicles = sort_by name_le known_vehicles

  abbrev pub uncovered : Coverage
  uncovered = record { complete = false; observations = 0; conflict = false }

  -- without archive files: only unknowns
  unfoldable pub aggregate_nothing : List Expense → Output
  unfolding sort_by
  aggregate_nothing expenses = record {
    vehicles =
        map (λ v. report_row v 0 0 (lookup v (costs_of expenses [])) uncovered) sorted_vehicles;
    coverage = map (λ v. (v, uncovered)) known_vehicles;
    zones = [];
  }

  module _ (blocked_event_ids blocked_trip_ids : List String) (raw : List ArchiveRow) where
    abbrev pub sightings : String → List (ℕ × String)
    sightings v = distinct (
        map (λ r. (time_of r, r.zone))
          (of_vehicle v (clean to_json blocked_event_ids blocked_trip_ids raw)))

    unfoldable pub cover : String → Coverage
    unfolding conflicted clean distinct is_complete
    cover v =
        coverage_of step sim_start (report_date * day_length)
          (elem v (conflicted to_json blocked_event_ids blocked_trip_ids raw)) (sightings v)

    unfoldable pub aggregate_rows : List Expense → Output
    unfolding cover trips zone_totals sort_by
    aggregate_rows expenses =
        let counted = trips to_json blocked_event_ids blocked_trip_ids raw in
        record {
          vehicles =
              map (vehicle_row counted approx_count cover (costs_of expenses [])) sorted_vehicles;
          coverage = map (λ v. (v, cover v)) known_vehicles;
          zones = zone_totals counted approx_count;
        }

  -- `paths` are the files, and `read` gives their rows
  unfoldable pub aggregate :
      {File : Type 0}
      → (List File → List ArchiveRow)
      → List File
      → List Expense
      → List String
      → List String
      → Result Output
  unfolding aggregate_rows aggregate_nothing
  aggregate read [] expenses events trip_ids = ok (aggregate_nothing expenses)
  aggregate read (p ∷ paths) expenses events trip_ids =
      let raw = read (p ∷ paths) in
      if any (λ r. is_outside r.event_time) raw
      then err (value_error "Archive timestamp does not match its date partition")
      else if any (λ r. not (elem r.vehicle_id known_vehicles)) raw
      then err (value_error "Unknown vehicle in committed archive")
      else ok (aggregate_rows events trip_ids raw expenses)
