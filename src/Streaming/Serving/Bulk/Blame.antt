-- ===== src/Streaming/Serving/Bulk/Blame.antt =====
-- The trips of a batch that `bulk_serve` of streaming/sink.py takes for bad because of a conflict.
use fleet_lambda_platform.Base.{
  String, Bool, true, ◌||◌, some, List, map, keep, elem, In, In-map, In-keep, append-In_left,
  append-In_right, In-elem, ◌≡◌, ◌≢◌, subst, or_right, string_eq, option_eq, nat_eq,
}
use fleet_lambda_platform.Streaming.Serving.{
  Staged, EventKey, Conflict, ConflictKey, conflict_key_eq, Serving,
}
use fleet_lambda_platform.Streaming.Serving.Conflicts.{trip_in}
use fleet_lambda_platform.Streaming.Serving.Verdict.{
  named, ids, prior_keys, trip_ids, blocked, conflicting_ids, completed_trips, has_two_signatures,
  trips_in_conflict, bad_trip_ids,
}
use fleet_lambda_platform.Streaming.Serving.Bulk.SameTrips.{In-named, In-trip_ids}

module _ (rows : List Staged) (db : Serving) where
  abbrev pub IsBad : String → Type 0
  IsBad t = elem (some t) (bad_trip_ids rows db) ≡ true

  pub conflict-IsBad : (t : String) → In t (trips_in_conflict rows db) → IsBad t
  unfolding bad_trip_ids
  conflict-IsBad t m = In-elem (some t) (bad_trip_ids rows db) (
      append-In_right (some t) (keep (has_two_signatures rows db) (completed_trips rows db)) _
        (In-map some t (trips_in_conflict rows db) m))

  -- the trip that a row of stream_conflicts and a row of the batch name
  pub blocked-IsBad :
      (t : String) (s : Staged) (c : ConflictKey × Conflict)
      → t ≢ ""
      → In s rows
      → s.item.trip_id ≡ some t
      → In c db.conflicts
      → c.1.payload.trip_id ≡ some t
      → IsBad t
  blocked-IsBad t s c ne m named_t i same =
      let asked : elem t (trip_ids rows db) ≡ true =
        In-elem t (trip_ids rows db) (In-trip_ids rows db t s ne m named_t) in
      let selected : ConflictKey × Conflict → Bool =
        λ d. elem d.0.event_id (ids rows db) || trip_in d.1.payload.trip_id (trip_ids rows db) in
      let all = map (λ (d : ConflictKey × Conflict). d.1.payload.trip_id) (blocked rows db) in
      let hit : trip_in c.1.payload.trip_id (trip_ids rows db) ≡ true = rw same asked in
      conflict-IsBad t (
        append-In_left t (named all) _ (
          In-named t all ne (
            subst (λ o. In o all) same
              (In-map (λ (d : ConflictKey × Conflict). d.1.payload.trip_id) c (blocked rows db)
                (In-keep selected c db.conflicts i (or_right _ _ hit))))))

  pub conflicting_row-IsBad :
      (t : String) (s : Staged)
      → t ≢ ""
      → In s rows
      → s.item.trip_id ≡ some t
      → elem s.item.event_id (conflicting_ids rows db) ≡ true
      → IsBad t
  conflicting_row-IsBad t s ne m named_t h =
      let refused = keep (λ (r : Staged). elem r.item.event_id (conflicting_ids rows db)) rows in
      let all = map (λ (r : Staged). r.item.trip_id) refused in
      conflict-IsBad t (
        append-In_right t (named (map (λ c. c.1.payload.trip_id) (blocked rows db))) _ (
          append-In_left t (named all) _ (
            In-named t all ne (
              subst (λ o. In o all) named_t
                (In-map (λ (r : Staged). r.item.trip_id) s refused
                  (In-keep (λ (r : Staged). elem r.item.event_id (conflicting_ids rows db)) s rows m
                    h))))))

  pub conflicting_key-IsBad :
      (t : String) (k : String × EventKey)
      → t ≢ ""
      → In k (keep (λ k. elem k.0 (conflicting_ids rows db)) (prior_keys rows db))
      → k.1.trip_id ≡ some t
      → IsBad t
  conflicting_key-IsBad t k ne m named_t =
      let refused =
        keep (λ (u : String × EventKey). elem u.0 (conflicting_ids rows db)) (prior_keys rows db) in
      let all = map (λ (u : String × EventKey). u.1.trip_id) refused in
      conflict-IsBad t (
        append-In_right t (named (map (λ c. c.1.payload.trip_id) (blocked rows db))) _ (
          append-In_right t
            (named (
              map (λ s. s.item.trip_id)
                (keep (λ s. elem s.item.event_id (conflicting_ids rows db)) rows)))
            _
            (In-named t all ne (
              subst (λ o. In o all) named_t
                (In-map (λ (u : String × EventKey). u.1.trip_id) k refused m)))))
