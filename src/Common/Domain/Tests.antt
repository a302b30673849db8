-- ===== src/Common/Domain/Tests.antt =====
-- Runs of `reconcile` of common/domain.py on three events, one of them a retry, and the theorems of
-- Valid and Report at such inputs.
use fleet_lambda_platform.Base.{String, true, Option, none, some, List, [], ◌∷◌, ◌≡◌, ◌↔◌, refl}
use fleet_lambda_platform.Base.Int.{pos, negsuc, ◌-ℤ◌}
use fleet_lambda_platform.Base.Result.{ok, err, value_error}
use fleet_lambda_platform.Common.Domain.{
  Value, boolean, integer, dyadic, text, Object, Stamp, Event, Expense, ReportRow, validate_event,
  reconcile,
}
use fleet_lambda_platform.Common.Domain.Valid.{IsValid, validate_event_iff}
use fleet_lambda_platform.Common.Domain.Report.{CountsOnce, reconcile-CountsOnce}

-- Any text names the same instant.
abbrev fromisoformat : Value → Option Stamp
fromisoformat (text s) = some (record { has_zone = true; instant = pos 63907920000000000 })
fromisoformat _ = none

abbrev event : String → String → Object
event id trip =
    ("event_id", text id)
    ∷ ("trip_id", text trip)
    ∷ ("vehicle_id", text "VH-01")
    ∷ ("driver_id", text "DR-01")
    ∷ ("lat", dyadic (pos 13) 1)
    ∷ ("lon", integer (pos 80))
    ∷ ("speed_kmph", integer (pos 40))
    ∷ ("status", text "idle")
    ∷ ("fare_cents", integer (pos 500))
    ∷ ("trip_completed", boolean true)
    ∷ ("zone", text "Fort")
    ∷ ("event_ts", text "2026-03-01T00:00:00Z")
    ∷ ("ingest_ts", text "2026-03-01T00:00:00Z")
    ∷ ("trace_id", text "T")
    ∷ []

abbrev events : List Object
events = event "E1" "T1" ∷ event "E1" "T1" ∷ event "E2" "T2" ∷ []

abbrev expenses : List Expense
expenses = record { vehicle_id = "VH-01"; fuel_cents = 700; maintenance_cents = 400 } ∷ []

abbrev rows : List ReportRow
rows =
    record {
      vehicle_id = "VH-01";
      trips = 2;
      revenue_cents = 1000;
      cost = some (record { vehicle_id = "VH-01"; fuel_cents = 700; maintenance_cents = 400 });
      profit_cents = some (negsuc 99);
      is_unprofitable = some true;
      reconciliation_status = "complete";
    }
    ∷ []

reconciles : reconcile fromisoformat 739675 events expenses ≡ ok rows
unfolding reconcile ◌-ℤ◌
reconciles = refl

misses_fields :
    validate_event fromisoformat (("event_id", text "E1") ∷ [])
    ≡ err (value_error "Missing event fields")
unfolding validate_event
misses_fields = refl

reconcile-CountsOnce_example : CountsOnce fromisoformat 739675 events rows
reconcile-CountsOnce_example =
    reconcile-CountsOnce fromisoformat 739675 events expenses rows reconciles

abbrev first : Event
first = record {
  event_id = "E1";
  trip_id = some "T1";
  vehicle_id = "VH-01";
  driver_id = "DR-01";
  status = "idle";
  fare_cents = 500;
  trip_completed = true;
  zone = "Fort";
  event_ts = 63907920000000000;
  ingest_ts = 63907920000000000;
  trace_id = "T";
}

validate_event_iff_example :
    (validate_event fromisoformat (event "E1" "T1") ≡ ok first)
    ↔ IsValid fromisoformat (event "E1" "T1") first
validate_event_iff_example = validate_event_iff fromisoformat (event "E1" "T1") first
