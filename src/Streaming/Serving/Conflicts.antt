-- ===== src/Streaming/Serving/Conflicts.antt =====
-- The first half of `merge_staged` of streaming/staged_sink.py: which events and trips contradict
-- what is known, and what the transaction stores of them in stream_conflicts. A temporary table is a
-- list. An equality test with a null trip is false.
use fleet_lambda_platform.Base.{
  ℕ, String, Bool, false, ◌&&◌, ◌||◌, not, Option, none, some, List, [], ◌∷◌, map, keep, any, elem,
  present, concat, ◌==◌, ltb, string_eq, nat_eq, pair_eq, bool_eq,
}
use fleet_lambda_platform.Base.Dict.{lookup}
use fleet_lambda_platform.Base.Tables.{distinct, count_distinct}
use fleet_lambda_platform.Streaming.Serving.{
  Staged, EventKey, staged_conflict, prior_event_conflict, prior_trip_conflict, Signature,
  signature_eq, Conflict, ConflictKey, CompletedTrip, Serving, day_of,
}
use Prim.Native.String.{◌++◌ as join_texts}

-- WHERE trip_id IN (...): null is in no list
abbrev pub trip_in : Option String → List String → Bool
trip_in none trips = false
trip_in (some t) trips = elem t trips

-- WHERE run_id=%s
abbrev pub of_run : String → List Staged → List Staged
of_run run_id stage = keep (λ s. s.run_id == run_id) stage

-- the rows of one event
abbrev pub of_event : String → List Staged → List Staged
of_event id rows = keep (λ s. s.item.event_id == id) rows

abbrev differs_from : String → Option EventKey → Bool
differs_from print none = false
differs_from print (some k) = not (print == k.fingerprint)

-- what a completed trip's rows must agree on
abbrev pub signature : Staged → Signature
signature s = record {
  vehicle_id = s.item.vehicle_id;
  fare_cents = s.item.fare_cents;
  event_ts = s.item.event_ts;
  zone = s.item.zone;
}

abbrev pub trip_signature : CompletedTrip → Signature
trip_signature t = record {
  vehicle_id = t.vehicle_id;
  fare_cents = t.fare_cents;
  event_ts = t.completed_at;
  zone = t.zone;
}

abbrev pub trips_of : List Staged → List String
trips_of staged = present (map (λ s. s.item.trip_id) staged)

module _ (rows : List Staged) (db : Serving) where
  -- the three queries of stage_conflict_ids, asked of one staged row
  unfoldable pub has_copies : Staged → Bool
  unfolding distinct
  has_copies s = ltb 1 (count_distinct (map (λ r. r.fingerprint) (of_event s.item.event_id rows)))

  unfoldable pub contradicts_key : Staged → Bool
  contradicts_key s = differs_from s.fingerprint (lookup s.item.event_id db.event_keys)

  abbrev pub is_quarantined : String → Bool
  is_quarantined id = any (λ c. c.0.event_id == id) db.conflicts

  abbrev pub is_conflict : Staged → Bool
  is_conflict s = has_copies s || contradicts_key s || is_quarantined s.item.event_id

  -- stage_conflict_ids
  unfoldable pub conflict_ids : List String
  unfolding distinct has_copies contradicts_key
  conflict_ids = distinct (map (λ s. s.item.event_id) (keep is_conflict rows))

  abbrev pub completed : List Staged
  completed = keep (λ s. s.item.trip_completed) rows

  -- the five queries of stage_bad_trips
  unfoldable pub inconsistent_trips : List String
  unfolding distinct
  inconsistent_trips =
      keep
        (λ t.
          ltb 1 (
            count_distinct (map signature (keep (λ s. trip_in s.item.trip_id (t ∷ [])) completed))))
        (trips_of completed)

  abbrev pub contradicts_trip : Staged → Bool
  contradicts_trip s =
      any (λ t. trip_in s.item.trip_id (t.0 ∷ []) && not (signature s == trip_signature t.1))
        db.trips

  module _ (ids : List String) where
    abbrev pub conflicting_rows : List Staged
    conflicting_rows = keep (λ s. elem s.item.event_id ids) rows

    abbrev pub conflicting_keys : List (String × EventKey)
    conflicting_keys = keep (λ k. elem k.0 ids) db.event_keys

    -- payload->>'trip_id' of stream_conflicts, where a staged row has it
    abbrev pub quarantined_trips : List String
    quarantined_trips =
        keep (λ t. elem t (trips_of rows)) (present (map (λ c. c.1.payload.trip_id) db.conflicts))

    abbrev pub bad_queries : List (List String)
    bad_queries =
        inconsistent_trips
        ∷ trips_of (keep contradicts_trip completed)
        ∷ trips_of conflicting_rows
        ∷ present (map (λ k. k.1.trip_id) conflicting_keys)
        ∷ quarantined_trips
        ∷ []

    -- stage_bad_trips
    unfoldable pub bad_trips : List String
    unfolding distinct inconsistent_trips
    bad_trips = distinct (concat bad_queries)

-- a row that goes to stream_conflicts
abbrev pub is_rejected : List String → List String → Staged → Bool
is_rejected ids bad s = elem s.item.event_id ids || trip_in s.item.trip_id bad

-- the rows that the three statements insert into stream_conflicts
abbrev pub staged_conflicts : ℕ → List Staged → List (ConflictKey × Conflict)
staged_conflicts batch_id rows =
    map
      (λ s. (
        record {
          batch_id = batch_id;
          event_id = s.item.event_id;
          reason = staged_conflict s.item.partition s.item.offset;
        },
        record {
          dt = day_of s.item.event_ts;
          payload = record {
            trip_id = s.item.trip_id;
            vehicle_id = s.item.vehicle_id;
            fare_cents = some s.item.fare_cents;
            event = some (s.item.event_id, s.item.event_ts, s.item.zone);
          };
        },
      ))
      rows

abbrev pub prior_events : ℕ → List (String × EventKey) → List (ConflictKey × Conflict)
prior_events batch_id keys =
    map
      (λ k. (
        record { batch_id = batch_id; event_id = k.0; reason = prior_event_conflict },
        record {
          dt = day_of k.1.event_ts;
          payload = record {
            trip_id = k.1.trip_id;
            vehicle_id = k.1.vehicle_id;
            fare_cents = none;
            event = none;
          };
        },
      ))
      keys

abbrev pub prior_trips : ℕ → List (String × CompletedTrip) → List (ConflictKey × Conflict)
prior_trips batch_id trips =
    map
      (λ t. (
        record {
          batch_id = batch_id;
          event_id = join_texts "prior:" t.0;
          reason = prior_trip_conflict;
        },
        record {
          dt = day_of t.1.completed_at;
          payload = record {
            trip_id = some t.0;
            vehicle_id = t.1.vehicle_id;
            fare_cents = some t.1.fare_cents;
            event = none;
          };
        },
      ))
      trips
