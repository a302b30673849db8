-- ===== src/Streaming/Serving/Samples.antt =====
-- Small tables for runs of `merge_staged` of streaming/staged_sink.py and of `bulk_serve` of
-- streaming/sink.py.
use fleet_lambda_platform.Base.{ℕ, ◌*◌, String, Bool, true, false, Option, none, some, [], ◌∷◌}
use fleet_lambda_platform.Streaming.Serving.{
  Details, Item, Staged, EventKey, Serving, MetricEvent, VehicleState,
}

abbrev pub minute : ℕ
minute = 60000000

abbrev pub details : Details
details = record { driver_id = "d"; lat = "6.9"; lon = "79.8"; speed_kmph = "0"; ingest_ts = 0 }

abbrev pub item : ℕ → String → Option String → String → String → Bool → ℕ → Item
item o id trip vehicle status done ts = record {
  partition = 0;
  offset = o;
  event_id = id;
  trip_id = trip;
  vehicle_id = vehicle;
  status = status;
  fare_cents = 500;
  trip_completed = done;
  zone = "z";
  event_ts = ts;
  time_of_day_bucket = "am";
  trace_id = "t";
  details = details;
}

abbrev pub staged : Item → String → Staged
staged i print = record {
  run_id = "run";
  spark_batch_id = 7;
  item = i;
  fingerprint = print;
  staged_at = 0;
}

-- A copy of a known event with other contents, a known event again, an idle vehicle, and a new trip.
abbrev pub copy : Staged
copy = staged (item 1 "e1" (some "t1") "v1" "on_trip" true (2 * minute)) "other"

abbrev pub again : Staged
again = staged (item 2 "e2" none "v2" "enroute" false (3 * minute)) "print2"

abbrev pub parked : Staged
parked = staged (item 3 "e3" none "v3" "idle" false (4 * minute)) "print3"

abbrev pub moved : Staged
moved = staged (item 4 "e44" (some "t4") "v2" "on_trip" true (90 * minute)) "print4"

abbrev pub key : String → Option String → String → ℕ → EventKey
key print trip vehicle ts = record {
  fingerprint = print;
  event_ts = ts;
  vehicle_id = vehicle;
  trip_id = trip;
  batch_id = 6;
}

abbrev pub state : String → String → ℕ → VehicleState
state id status ts = record {
  zone = "z";
  status = status;
  idle_since = none;
  event_ts = ts;
  event_id = id;
  trace_id = "t";
}

abbrev pub metric_event : Option String → String → String → ℕ → MetricEvent
metric_event trip print vehicle window = record {
  trip_id = trip;
  fingerprint = print;
  window = (window, "z");
  vehicle_id = vehicle;
  status = "on_trip";
  trip_completed = true;
  fare_cents = 500;
}

abbrev pub before : Serving
before = record {
  stage = copy ∷ again ∷ parked ∷ moved ∷ [];
  event_keys =
      ("e1", key "print1" (some "t1") "v1" (2 * minute))
      ∷ ("e2", key "print2" none "v2" (3 * minute))
      ∷ [];
  conflicts = [];
  metric_events = ("e1", metric_event (some "t1") "print1" "v1" (2 * minute)) ∷ [];
  metrics = [];
  states =
      ("v1", state "e1" "on_trip" (2 * minute)) ∷ ("v2", state "e2" "enroute" (3 * minute)) ∷ [];
  trips =
      (
        "t1",
        record {
          vehicle_id = "v1";
          zone = "z";
          fare_cents = 500;
          completed_at = 2 * minute;
          time_of_day_bucket = "am";
          trace_id = "t";
        },
      )
      ∷ [];
  alerts = [];
}
