-- ===== src/Streaming/Serving/Verdict.antt =====
-- The first half of `bulk_serve` of streaming/sink.py: which events and trips of a batch contradict each
-- other or what is known. A set is a list. An event with the digest that `fingerprint` gives is a
-- `Staged`, of which the run, the position and the time of staging are not read. A trip id that is
-- null or empty counts as none where the source tests its truth.
use fleet_lambda_platform.Base.{
  String, Bool, ◌&&◌, ◌||◌, not, Option, none, some, List, [], ◌∷◌, ◌++◌, map, keep, elem, present,
  if◌then◌else◌, ◌==◌, ltb, string_eq, nat_eq, option_eq,
}
use fleet_lambda_platform.Base.Dict.{lookup}
use fleet_lambda_platform.Base.Tables.{distinct, count_distinct, distinct_on}
use fleet_lambda_platform.Streaming.Serving.{
  Staged, EventKey, Signature, signature_eq, Conflict, ConflictKey, CompletedTrip, Serving,
}
use fleet_lambda_platform.Streaming.Serving.Conflicts.{trip_in, of_event, signature, trip_signature}

-- {... for ... if trip_id}
abbrev pub named : List (Option String) → List String
named trips = keep (λ t. not (t == "")) (present trips)

abbrev pub known_print : Option EventKey → List String
known_print none = []
known_print (some k) = k.fingerprint ∷ []

abbrev pub old_signature : Option CompletedTrip → List Signature
old_signature none = []
old_signature (some t) = trip_signature t ∷ []

module _ (events : List Staged) (db : Serving) where
  unfoldable pub ids : List String
  unfolding distinct
  ids = distinct (map (λ s. s.item.event_id) events)

  -- prior_events
  abbrev pub prior_keys : List (String × EventKey)
  prior_keys = keep (λ k. elem k.0 ids) db.event_keys

  abbrev pub trip_ids : List String
  trip_ids = named (map (λ s. s.item.trip_id) events) ++ named (map (λ k. k.1.trip_id) prior_keys)

  -- old_trips[trip] if trip in old_trips
  abbrev pub old_signatures : Option String → List Signature
  old_signatures none = []
  old_signatures (some t) = if elem t trip_ids then old_signature (lookup t db.trips) else []

  -- the rows of stream_conflicts with an event id or a trip id of the batch
  abbrev pub blocked : List (ConflictKey × Conflict)
  blocked = keep (λ c. elem c.0.event_id ids || trip_in c.1.payload.trip_id trip_ids) db.conflicts

  -- len({fingerprints} | {known}) > 1, of the copies of an event
  unfoldable pub has_two_prints : String → Bool
  unfolding distinct
  has_two_prints id = ltb 1 (
      count_distinct
        (map (λ r. r.fingerprint) (of_event id events) ++ known_print (lookup id db.event_keys)))

  unfoldable pub conflicting_ids : List String
  unfolding has_two_prints ids
  conflicting_ids = keep has_two_prints ids ++ map (λ c. c.0.event_id) blocked

  abbrev pub completed_of : Option String → List Staged
  completed_of trip = keep (λ s. s.item.trip_completed && s.item.trip_id == trip) events

  -- len(signatures[trip] | {old_trips[trip]}) > 1
  unfoldable pub has_two_signatures : Option String → Bool
  unfolding distinct ids
  has_two_signatures trip =
      ltb 1 (count_distinct (map signature (completed_of trip) ++ old_signatures trip))

  abbrev pub completed_trips : List (Option String)
  completed_trips = map (λ s. s.item.trip_id) (keep (λ s. s.item.trip_completed) events)

  abbrev pub trips_in_conflict : List String
  trips_in_conflict =
      named (map (λ c. c.1.payload.trip_id) blocked)
      ++ (named
            (map (λ s. s.item.trip_id) (keep (λ s. elem s.item.event_id conflicting_ids) events))
          ++ named (map (λ k. k.1.trip_id) (keep (λ k. elem k.0 conflicting_ids) prior_keys)))

  unfoldable pub bad_trip_ids : List (Option String)
  unfolding has_two_signatures conflicting_ids
  bad_trip_ids = keep has_two_signatures completed_trips ++ map some trips_in_conflict

  -- event_id in conflicting_ids or item["trip_id"] in bad_trips
  unfoldable pub is_refused : Staged → Bool
  unfolding bad_trip_ids
  is_refused s = elem s.item.event_id conflicting_ids || elem s.item.trip_id bad_trip_ids

  -- copies[0] of each event
  abbrev pub first_copies : List Staged
  first_copies = distinct_on (λ s. s.item.event_id) events
