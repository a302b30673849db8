-- ===== src/Streaming/Serving/Bulk/SameVerdict.antt =====
-- The events that `bulk_serve` of streaming/sink.py refuses and those that `merge_staged` of
-- streaming/staged_sink.py refuses, for the same events on the same tables.
use fleet_lambda_platform.Base.{
  String, false, Option, none, some, List, keep, elem, In, All, All-In, map-In, keep-In, In-append,
  elem-In, ◌≡◌, ◌≢◌, refl, ap, ◌∙◌, inl, inr, Bool-cases, string_eq, nat_eq, option_eq,
}
use fleet_lambda_platform.Base.Dict.{NodupKeys}
use fleet_lambda_platform.Streaming.Serving.{Staged, signature_eq, Serving}
use fleet_lambda_platform.Streaming.Serving.Conflicts.{
  conflict_ids, trip_in, bad_trips, completed, is_rejected,
}
use fleet_lambda_platform.Streaming.Serving.Verdict.{
  completed_trips, has_two_signatures, trips_in_conflict, bad_trip_ids, is_refused,
}
use fleet_lambda_platform.Streaming.Serving.Bulk.SameIds.{same_test, same_ids}
use fleet_lambda_platform.Streaming.Serving.Bulk.SameTrips.{In-trips_of}
use fleet_lambda_platform.Streaming.Serving.Merge.Outcome.{NamesTrip}
use fleet_lambda_platform.Streaming.Serving.Bulk.BadTrips.{bad, bulk-bad}
use fleet_lambda_platform.Streaming.Serving.Bulk.MergeTrips.{merge-bad}

-- What validate_event of common/domain.py and the digest ensure of a batch: a completed row names a
-- trip, and copies of an event with one digest are of one trip. No trip id is empty.
pub record IsBatch (rows : List Staged) : Type 0 where
  pub completed_named : All NamesTrip rows
  pub not_empty : All (λ s. s.item.trip_id ≢ some "") rows
  pub one_trip :
      (s r : Staged)
      → In s rows
      → In r rows
      → s.item.event_id ≡ r.item.event_id
      → s.fingerprint ≡ r.fingerprint
      → s.item.trip_id ≡ r.item.trip_id

module _ (rows : List Staged) (db : Serving) (primary : NodupKeys db.trips)
    (batch : IsBatch rows) where
  none_good : elem none (bad_trip_ids rows db) ≡ false
  unfolding bad_trip_ids
  none_good = elim (Bool-cases (elem none (bad_trip_ids rows db))) [
    | inr q ↦ q
    | inl p ↦
        let first = keep (has_two_signatures rows db) (completed_trips rows db) in
        elim (In-append none first _ (elem-In none _ p)) [
          | inl m ↦
              let (i, _) = keep-In (has_two_signatures rows db) none (completed_trips rows db) m in
              let (s, j, same) =
                map-In (λ (r : Staged). r.item.trip_id) none (completed rows db) i in
              let (k, done) = keep-In (λ (r : Staged). r.item.trip_completed) s rows j in
              let (t, named_s) = All-In NamesTrip s rows batch.completed_named k done in
              cc (same, named_s)
          | inr m ↦ let (t, _, same) = map-In some none (trips_in_conflict rows db) m in cc (same)
        ]
  ]

  trip_verdict :
      (s : Staged)
      → In s rows
      → (o : Option String) → s.item.trip_id ≡ o
      → elem o (bad_trip_ids rows db) ≡ trip_in o (bad rows db)
  trip_verdict s m none named_s = none_good
  trip_verdict s m (some t) named_s =
      same_test _ _ (bulk-bad rows db t (In-trips_of rows db t s rows m named_s)) (
        merge-bad rows db primary t
          (λ empty. All-In _ s rows batch.not_empty m (named_s ∙ ap some empty)))

  -- Where trip ids are unique in completed_trips, the completed events of a batch name their trips, no
  -- trip id is empty, and copies of an event with one digest have one trip: `bulk_serve` refuses an
  -- event of the batch exactly when `merge_staged`, given the same events and tables, sends it to
  -- stream_conflicts.
  pub is_refused-is_rejected :
      (s : Staged)
      → In s rows
      → is_refused rows db s
        ≡ is_rejected (conflict_ids rows db) (bad_trips rows db (conflict_ids rows db)) s
  unfolding is_refused
  is_refused-is_rejected s m = rw (same_ids rows db s m, trip_verdict s m s.item.trip_id refl) refl
