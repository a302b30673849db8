-- ===== src/Streaming/Serving/Merge.antt =====
-- `merge_staged` of streaming/staged_sink.py: the statements of the transaction, in their order.
-- A statement that stores rows is a function on its table; a temporary table is a list. A transaction
-- that a constraint of a table refuses leaves the tables as they were.
pub mod Storable
pub mod Outcome
pub mod Quarantine
pub mod Accounted
pub mod Vehicles
pub mod Alerted
pub mod Recounted
pub mod Corrected
mod Tests
use fleet_lambda_platform.Base.{
  ℕ, ◌+◌, ◌-◌, String, Bool, true, false, ◌&&◌, ◌||◌, not, Option, none, some, List, [], ◌∷◌, map,
  keep, elem, length, greatest, ◌==◌, if◌then◌else◌, ltb, leb, string_eq, nat_eq, pair_eq, bool_eq,
}
use fleet_lambda_platform.Base.Dict.{contains}
use fleet_lambda_platform.Base.Tables.{insert_rows, distinct_on}
use fleet_lambda_platform.Base.Sort.{sort_by}
use fleet_lambda_platform.Base.Result.{Result, ok, err, ◌>>=◌, raise_if, operational_error}
use fleet_lambda_platform.Streaming.Serving.{
  Staged, EventKey, signature_eq, Conflict, ConflictKey, conflict_key_eq, MetricEvent, VehicleState,
  CompletedTrip, Serving, day_length,
}
use fleet_lambda_platform.Streaming.Serving.Conflicts.{
  trip_in, of_run, conflict_ids, conflicting_keys, bad_trips, is_rejected, staged_conflicts,
  prior_events, prior_trips,
}
use fleet_lambda_platform.Streaming.Serving.Windows.{
  window_of, is_discredited, affected_windows, fit_columns, correct_windows,
}
use fleet_lambda_platform.Streaming.Serving.States.{have_status, state_candidates, upsert_states}
use fleet_lambda_platform.Streaming.Serving.Alerts.{raise_alerts, resolve_alerts}

-- the three DELETE statements
abbrev pub kept_trips : List String → List (String × CompletedTrip) → List (String × CompletedTrip)
kept_trips bad trips = keep (λ t. not (elem t.0 bad)) trips

abbrev pub keys_of_trips : List String → List (String × EventKey) → List String
keys_of_trips bad keys = map (λ k. k.0) (keep (λ k. trip_in k.1.trip_id bad) keys)

abbrev pub kept_states :
    List String
    → List String
    → List (String × EventKey)
    → List (String × VehicleState)
    → List (String × VehicleState)
kept_states ids bad keys states =
    keep (λ v. not (elem v.1.event_id ids || elem v.1.event_id (keys_of_trips bad keys))) states

abbrev pub kept_events :
    List String → List String → List (String × MetricEvent) → List (String × MetricEvent)
kept_events ids bad events = keep (λ e. not (is_discredited ids bad e)) events

-- ORDER BY event_ts,kafka_partition,kafka_offset
abbrev pub staged_le : Staged → Staged → Bool
staged_le a b =
    if ltb a.item.event_ts b.item.event_ts
    then true
    else if ltb b.item.event_ts a.item.event_ts
    then false
    else if ltb a.item.partition b.item.partition
    then true
    else if ltb b.item.partition a.item.partition
    then false
    else leb a.item.offset b.item.offset

abbrev pub is_accepted : List String → List String → List (String × EventKey) → Staged → Bool
is_accepted ids bad keys s = not (is_rejected ids bad s) && not (contains s.item.event_id keys)

-- stage_accepted
unfoldable pub accepted_rows :
    List String → List String → List (String × EventKey) → List Staged → List Staged
unfolding sort_by distinct_on
accepted_rows ids bad keys rows =
    distinct_on (λ s. s.item.event_id) (sort_by staged_le (keep (is_accepted ids bad keys) rows))

abbrev pub new_metric_events : List Staged → List (String × MetricEvent)
new_metric_events accepted =
    map
      (λ s. (
        s.item.event_id,
        record {
          trip_id = s.item.trip_id;
          fingerprint = s.fingerprint;
          window = window_of s;
          vehicle_id = s.item.vehicle_id;
          status = s.item.status;
          trip_completed = s.item.trip_completed;
          fare_cents = s.item.fare_cents;
        },
      ))
      accepted

abbrev pub completed_trip : Staged → CompletedTrip
completed_trip s = record {
  vehicle_id = s.item.vehicle_id;
  zone = s.item.zone;
  fare_cents = s.item.fare_cents;
  completed_at = s.item.event_ts;
  time_of_day_bucket = s.item.time_of_day_bucket;
  trace_id = s.item.trace_id;
}

abbrev pub add_trip :
    Option String → Staged → List (String × CompletedTrip) → Result (List (String × CompletedTrip))
add_trip none s rest = err operational_error
add_trip (some t) s rest = ok ((t, completed_trip s) ∷ rest)

-- the rows of completed_trips; a null in its primary key is refused
unfoldable pub trip_rows : List Staged → Result (List (String × CompletedTrip))
trip_rows [] = ok []
trip_rows (s ∷ rows) = trip_rows rows >>= λ rest. add_trip s.item.trip_id s rest

abbrev pub new_keys : ℕ → List Staged → List (String × EventKey)
new_keys batch_id accepted =
    map
      (λ s. (
        s.item.event_id,
        record {
          fingerprint = s.fingerprint;
          event_ts = s.item.event_ts;
          vehicle_id = s.item.vehicle_id;
          trip_id = s.item.trip_id;
          batch_id = batch_id;
        },
      ))
      accepted

-- WHERE staged_at < now()-interval '1 day'
abbrev pub is_stale : ℕ → Staged → Bool
is_stale now s = ltb (s.staged_at + day_length) now

-- the three statements that store into stream_conflicts
unfoldable pub add_conflicts :
    ℕ → List String → List String → List Staged → Serving → List (ConflictKey × Conflict)
unfolding insert_rows
add_conflicts batch_id ids bad rows db =
    insert_rows (prior_trips batch_id (keep (λ t. elem t.0 bad) db.trips)) (
      insert_rows (prior_events batch_id (conflicting_keys rows db ids))
        (insert_rows (staged_conflicts batch_id (keep (is_rejected ids bad) rows)) db.conflicts))

-- Whether the constraints of rt_zone_metrics and rt_vehicle_state hold of the rows that are stored.
unfoldable pub is_storable :
    (String → String → Bool)
    → List String
    → List String
    → List Staged
    → List Staged
    → Serving
    → Bool
unfolding affected_windows fit_columns state_candidates have_status insert_rows
is_storable after ids bad rows accepted db =
    let events = insert_rows (new_metric_events accepted) (kept_events ids bad db.metric_events) in
    fit_columns (affected_windows ids bad rows db.metric_events) events
    && have_status (state_candidates after accepted (kept_states ids bad db.event_keys db.states))

module _ (after : String → String → Bool) (idle_alert_minutes : ℕ) (run_id : String)
    (batch_id : ℕ) where
  -- the tables after the transaction
  unfoldable pub commit :
      List String
      → List String
      → List Staged
      → List Staged
      → List Staged
      → List (String × CompletedTrip)
      → Serving
      → Serving
  unfolding add_conflicts affected_windows correct_windows state_candidates upsert_states
      insert_rows raise_alerts resolve_alerts greatest
  commit ids bad stage rows accepted completed db =
      let events =
        insert_rows (new_metric_events accepted) (kept_events ids bad db.metric_events) in
      let known_states = kept_states ids bad db.event_keys db.states in
      let candidates = state_candidates after accepted known_states in
      let reference = greatest (map (λ s. s.item.event_ts) accepted) in
      record {
        stage = keep (λ s. not (s.run_id == run_id)) stage;
        event_keys = insert_rows (new_keys batch_id accepted) db.event_keys;
        conflicts = add_conflicts batch_id ids bad rows db;
        metric_events = events;
        metrics =
            correct_windows (affected_windows ids bad rows db.metric_events) events db.metrics;
        states = upsert_states after candidates known_states;
        trips = insert_rows completed (kept_trips bad db.trips);
        alerts =
            resolve_alerts candidates
              (raise_alerts idle_alert_minutes reference candidates db.alerts);
      }

  unfoldable pub merge_rows : List Staged → List Staged → Serving → Result (ℕ × Serving)
  unfolding commit conflict_ids bad_trips accepted_rows trip_rows is_storable
  merge_rows stage rows db =
      let ids = conflict_ids rows db in
      let bad = bad_trips rows db ids in
      let accepted = accepted_rows ids bad db.event_keys rows in
      trip_rows (keep (λ s. s.item.trip_completed) accepted) >>= λ completed.
      raise_if (not (is_storable after ids bad rows accepted db)) operational_error >>= λ _.
      ok (length ids, commit ids bad stage rows accepted completed db)

  unfoldable pub merge_staged : ℕ → Serving → Result (ℕ × Serving)
  unfolding merge_rows
  merge_staged now db =
      let stage = keep (λ s. not (is_stale now s)) db.stage in
      merge_rows stage (of_run run_id stage) db
