-- ===== src/Streaming/Serving/Bulk.antt =====
-- `bulk_serve` and `_reconcile_metric_events` of streaming/sink.py: one batch of events served in a
-- transaction, which leaves the tables as they were if it raises. The order of event ids in Python is
-- that of their code points. Which of several open alerts of a vehicle is resolved is not fixed by
-- the source; here it is the first.
pub mod SameIds
pub mod SameTrips
pub mod Signatures
pub mod BadTrips
pub mod Blame
pub mod MergeTrips
pub mod SameVerdict
pub mod Keys
pub mod SameServed
pub mod Rejections
pub mod Quarantined
pub mod Commits
pub mod Stored
mod Tests
use fleet_lambda_platform.Base.{
  ℕ, ◌+◌, String, Bool, true, false, ◌&&◌, not, Option, none, some, List, [], ◌∷◌, ◌++◌, map, keep,
  any, elem, concat, present, length, greatest, if◌then◌else◌, eqb, ltb, ◌==◌, string_eq, nat_eq,
  option_eq, pair_eq,
}
use fleet_lambda_platform.Base.Dict.{lookup, insert, contains}
use fleet_lambda_platform.Base.Paths.{codes}
use fleet_lambda_platform.Base.Result.{
  Result, ok, value_error, operational_error, ◌>>=◌, ◌>>◌, raise_if,
}
use fleet_lambda_platform.Base.Sort.{sort_by}
use fleet_lambda_platform.Base.Tables.{distinct, distinct_on, insert_rows}
use fleet_lambda_platform.Common.Archive.{text_le}
use fleet_lambda_platform.Streaming.Serving.{
  Staged, conflicting_copy, signature_eq, Conflict, ConflictKey, conflict_key_eq, VehicleState,
  CompletedTrip, Alert, Serving, day_of, is_idle,
}
use fleet_lambda_platform.Streaming.Serving.Conflicts.{of_event, prior_events, prior_trips}
use fleet_lambda_platform.Streaming.Serving.Windows.{
  window_of, is_discredited, fit_columns, correct_windows,
}
use fleet_lambda_platform.Streaming.Serving.States.{have_status}
use fleet_lambda_platform.Streaming.Serving.Alerts.{is_open, is_overdue, raised, resolve}
use fleet_lambda_platform.Streaming.Serving.Verdict.{
  prior_keys, trip_ids, conflicting_ids, bad_trip_ids, is_refused, first_copies,
}
use fleet_lambda_platform.Streaming.Serving.Merge.{
  kept_trips, kept_states, kept_events, new_metric_events, add_trip, new_keys,
}

-- the rows of stream_conflicts for the copies of one event, by their index
unfoldable pub copy_conflicts : ℕ → ℕ → List Staged → List (ConflictKey × Conflict)
copy_conflicts batch_id index [] = []
copy_conflicts batch_id index (s ∷ copies) =
    (
      record { batch_id = batch_id; event_id = s.item.event_id; reason = conflicting_copy index },
      record {
        dt = day_of s.item.event_ts;
        payload = record {
          trip_id = s.item.trip_id;
          vehicle_id = s.item.vehicle_id;
          fare_cents = some s.item.fare_cents;
          event = some (s.item.event_id, s.item.event_ts, s.item.zone);
        };
      },
    )
    ∷ copy_conflicts batch_id (index + 1) copies

-- (ts, event_id) > (ts', event_id')
abbrev pub is_after : ℕ → String → ℕ → String → Bool
is_after ts id ts' id' =
    if ltb ts' ts then true else if ltb ts ts' then false else not (text_le (codes id) (codes id'))

abbrev pub event_le : Staged → Staged → Bool
event_le a b = not (is_after a.item.event_ts a.item.event_id b.item.event_ts b.item.event_id)

-- old is None or (ts, event_id) > (old[4], old[5])
abbrev pub is_news : Staged → Option VehicleState → Bool
is_news s none = true
is_news s (some old) = is_after s.item.event_ts s.item.event_id old.event_ts old.event_id

-- old[3] if old and old[2] == "idle" else ts
abbrev pub idle_start : ℕ → Option VehicleState → Option ℕ
idle_start ts none = some ts
idle_start ts (some old) = if is_idle old.status then old.idle_since else some ts

abbrev pub next_state : Staged → Option VehicleState → VehicleState
next_state s old = record {
  zone = s.item.zone;
  status = s.item.status;
  idle_since = if is_idle s.item.status then idle_start s.item.event_ts old else none;
  event_ts = s.item.event_ts;
  event_id = s.item.event_id;
  trace_id = s.item.trace_id;
}

-- The dictionaries `states` and `changed` after the loop over the accepted events.
unfoldable pub fold_states :
    List Staged
    → List (String × VehicleState)
    → List (String × VehicleState)
    → List (String × VehicleState)
fold_states [] states changed = changed
fold_states (s ∷ rows) states changed =
    let old = lookup s.item.vehicle_id states in
    let new = next_state s old in
    fold_states rows (if is_news s old then insert s.item.vehicle_id new states else states)
      (if is_news s old then insert s.item.vehicle_id new changed else changed)

-- the dictionary `changed` of the accepted rows, with the known states of their vehicles
unfoldable pub changed_states : List Staged → Serving → List (String × VehicleState)
unfolding fold_states sort_by distinct text_le
changed_states rows db =
    let vehicles = distinct (map (λ s. s.item.vehicle_id) rows) in
    fold_states (sort_by event_le rows) (keep (λ v. elem v.0 vehicles) db.states) []

-- ON CONFLICT(vehicle_id) DO UPDATE
unfoldable pub store_states :
    List (String × VehicleState) → List (String × VehicleState) → List (String × VehicleState)
store_states [] states = states
store_states ((v, new) ∷ changed) states = store_states changed (insert v new states)

-- the dictionary `trips`, and its rows: a null in the primary key is refused
unfoldable pub fold_trips :
    List Staged → List (Option String × Staged) → List (Option String × Staged)
fold_trips [] trips = trips
fold_trips (s ∷ rows) trips =
    fold_trips rows (if s.item.trip_completed then insert s.item.trip_id s trips else trips)

unfoldable pub trip_values : List (Option String × Staged) → Result (List (String × CompletedTrip))
trip_values [] = ok []
trip_values ((t, s) ∷ trips) = trip_values trips >>= λ rest. add_trip t s rest

-- UPDATE rt_alerts ... WHERE alert_id = open_alerts[vid]
abbrev pub resolve_first : String → List Alert → List Alert
resolve_first v [] = []
resolve_first v (a ∷ alerts) =
    let rest = resolve_first v alerts in if is_open v a then resolve a ∷ alerts else a ∷ rest

abbrev pub idle_since_of : Option VehicleState → Option ℕ
idle_since_of none = none
idle_since_of (some s) = s.idle_since

-- the loop over the vehicles to check: `before` are the alerts before the loop
unfoldable pub check_alerts :
    ℕ → Option ℕ → List (String × VehicleState) → List Alert → List String → List Alert → List Alert
check_alerts minutes now states before [] alerts = alerts
check_alerts minutes now states before (v ∷ vehicles) alerts =
    let since = idle_since_of (lookup v states) in
    let here =
      if is_overdue minutes now since
      then (if any (is_open v) before then alerts else raised minutes now since v ∷ alerts)
      else resolve_first v alerts in
    check_alerts minutes now states before vehicles here

module _ (batch_id : ℕ) (events : List Staged) where
  abbrev pub conflicts_of_event : Serving → Staged → List (ConflictKey × Conflict)
  conflicts_of_event db s =
      if is_refused events db s
      then copy_conflicts batch_id 0 (of_event s.item.event_id events)
      else []

  abbrev pub bad_names : Serving → List String
  bad_names db = present (bad_trip_ids events db)

  -- the list `rejected`
  unfoldable pub rejected : Serving → List (ConflictKey × Conflict)
  unfolding copy_conflicts is_refused distinct_on
  rejected db =
      prior_events batch_id
        (keep (λ k. elem k.0 (conflicting_ids events db)) (prior_keys events db))
      ++ (concat (map (conflicts_of_event db) (first_copies events db))
          ++ prior_trips batch_id
              (keep (λ t. elem t.0 (trip_ids events db) && elem t.0 (bad_names db)) db.trips))

  -- the list `accepted`
  unfoldable pub accepted : Serving → List Staged
  unfolding is_refused distinct_on
  accepted db =
      keep (λ s. not (is_refused events db s) && not (contains s.item.event_id db.event_keys))
        (first_copies events db)

  -- `affected`, with the windows of the payloads, which have a zone
  unfoldable pub affected : Serving → List (ℕ × String)
  unfolding distinct is_refused
  affected db = distinct (
      map (λ e. e.1.window)
        (keep (is_discredited (conflicting_ids events db) (bad_names db)) db.metric_events)
      ++ map window_of (keep (λ s. is_refused events db s && not (s.item.zone == "")) events))

  -- the tables after the statements up to the test of `accepted`
  unfoldable pub quarantine : Serving → Serving
  unfolding rejected accepted affected correct_windows insert_rows
  quarantine db =
      let bad = bad_names db in
      let conflicting = conflicting_ids events db in
      let metric_events =
        insert_rows (new_metric_events (accepted db))
          (kept_events conflicting bad db.metric_events) in
      record {
        stage = db.stage;
        event_keys = db.event_keys;
        conflicts = insert_rows (rejected db) db.conflicts;
        metric_events = metric_events;
        metrics = correct_windows (affected db) metric_events db.metrics;
        states = kept_states conflicting bad db.event_keys db.states;
        trips = kept_trips bad db.trips;
        alerts = db.alerts;
      }

  -- the tables after the rest, from those before it
  unfoldable pub serve : ℕ → List Staged → List (String × CompletedTrip) → Serving → Serving
  unfolding changed_states store_states check_alerts insert_rows distinct greatest
  serve idle_alert_minutes rows trips db =
      let vehicles = distinct (map (λ s. s.item.vehicle_id) rows) in
      let states = store_states (changed_states rows db) db.states in
      record {
        stage = db.stage;
        event_keys = insert_rows (new_keys batch_id rows) db.event_keys;
        conflicts = db.conflicts;
        metric_events = db.metric_events;
        metrics = db.metrics;
        states = states;
        trips = insert_rows trips db.trips;
        alerts =
            check_alerts idle_alert_minutes (greatest (map (λ s. s.item.event_ts) rows)) states
              db.alerts vehicles db.alerts;
      }

  unfoldable pub serve_accepted : ℕ → List Staged → Serving → Result Serving
  unfolding serve changed_states have_status fold_trips trip_values sort_by text_le
  serve_accepted idle_alert_minutes [] db = ok db
  serve_accepted idle_alert_minutes (s ∷ rows) db = do
    raise_if (not (have_status (changed_states (s ∷ rows) db))) operational_error
    trips ← trip_values (fold_trips (sort_by event_le (s ∷ rows)) [])
    ok (serve idle_alert_minutes (s ∷ rows) trips db)

  unfoldable pub serve_batch : ℕ → Serving → Result (ℕ × Serving)
  unfolding quarantine fit_columns affected serve_accepted
  serve_batch idle_alert_minutes db = do
    raise_if (ltb 2500 (length events)) (value_error "Serving batch exceeds bounded driver cap")
    raise_if (not (fit_columns (affected db) (quarantine db).metric_events)) operational_error
    served ← serve_accepted idle_alert_minutes (accepted db) (quarantine db)
    ok (length (rejected db), served)

  unfoldable pub bulk_serve : ℕ → Serving → Result (ℕ × Serving)
  unfolding serve_batch
  bulk_serve idle_alert_minutes db =
      if eqb (length events) 0 then ok (0, db) else serve_batch idle_alert_minutes db
