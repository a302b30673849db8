-- ===== src/Streaming/Serving/Bulk/MergeTrips.antt =====
-- The trips that `merge_staged` of streaming/staged_sink.py takes for bad are bad for `bulk_serve` of
-- streaming/sink.py.
use fleet_lambda_platform.Base.{
  String, true, some, List, map, keep, elem, present, concat, ltb, In, In-map, map-In, In-keep,
  keep-In, append-In_left, present-In, concat-In, elem-In, In-elem, ◌≡◌, ◌≢◌, sym, ◌∙◌, subst, inl,
  inr, Bool-cases, string_eq, nat_eq, option_eq,
}
use fleet_lambda_platform.Base.Dict.{NodupKeys}
use fleet_lambda_platform.Base.Tables.{count_distinct, distinct-In}
use fleet_lambda_platform.Streaming.Serving.{
  Staged, EventKey, signature_eq, Conflict, ConflictKey, Serving,
}
use fleet_lambda_platform.Streaming.Serving.Conflicts.{
  is_conflict, conflict_ids, trips_of, inconsistent_trips, contradicts_trip, conflicting_rows,
  conflicting_keys, quarantined_trips, bad_queries, bad_trips, completed,
}
use fleet_lambda_platform.Streaming.Serving.Verdict.{
  ids, prior_keys, conflicting_ids, completed_trips, has_two_signatures, bad_trip_ids,
}
use fleet_lambda_platform.Streaming.Serving.Bulk.SameIds.{In-ids, same_ids}
use fleet_lambda_platform.Streaming.Serving.Bulk.Signatures.{merge_one, one-agrees}
use fleet_lambda_platform.Streaming.Serving.Bulk.SameTrips.{
  merge_ids, trips_of-In, merge_signatures,
}
use fleet_lambda_platform.Streaming.Serving.Bulk.Blame.{
  blocked-IsBad, conflicting_row-IsBad, conflicting_key-IsBad,
}
use fleet_lambda_platform.Streaming.Serving.Bulk.BadTrips.{bad, conflicting_key}

module _ (rows : List Staged) (db : Serving) where
  module _ (primary : NodupKeys db.trips) (t : String) (ne : t ≢ "") where
    two_signatures :
        (s : Staged)
        → In s (completed rows db)
        → s.item.trip_id ≡ some t
        → has_two_signatures rows db (some t) ≡ true
        → elem (some t) (bad_trip_ids rows db) ≡ true
    unfolding bad_trip_ids
    two_signatures s m named_t two = In-elem (some t) _ (
        append-In_left (some t) (keep (has_two_signatures rows db) (completed_trips rows db)) _ (
          In-keep (has_two_signatures rows db) (some t) (completed_trips rows db)
            (subst (λ o. In o (completed_trips rows db)) named_t
              (In-map (λ (r : Staged). r.item.trip_id) s (completed rows db) m))
            two))

    inconsistent-bulk :
        In t (inconsistent_trips rows db) → elem (some t) (bad_trip_ids rows db) ≡ true
    unfolding inconsistent_trips
    inconsistent-bulk m =
        let (i, p) =
          keep-In (λ u. ltb 1 (count_distinct (merge_signatures rows db u))) t
            (trips_of (completed rows db)) m in
        let (s, j, named_t) = trips_of-In rows db t (completed rows db) i in
        elim (Bool-cases (has_two_signatures rows db (some t))) [
          | inl two ↦ two_signatures s j named_t two
          | inr one ↦ cc (p, merge_one rows db t one)
        ]

    contradicting-bulk :
        In t (trips_of (keep (contradicts_trip rows db) (completed rows db)))
        → elem (some t) (bad_trip_ids rows db) ≡ true
    contradicting-bulk m =
        let (s, i, named_t) =
          trips_of-In rows db t (keep (contradicts_trip rows db) (completed rows db)) m in
        let (j, p) = keep-In (contradicts_trip rows db) s (completed rows db) i in
        let (k, done) = keep-In (λ (r : Staged). r.item.trip_completed) s rows j in
        elim (Bool-cases (has_two_signatures rows db (some t))) [
          | inl two ↦ two_signatures s j named_t two
          | inr one ↦ cc (p, one-agrees rows db t s k done named_t primary ne one)
        ]

    conflicting_row-bulk :
        In t (trips_of (conflicting_rows rows db (merge_ids rows db)))
        → elem (some t) (bad_trip_ids rows db) ≡ true
    conflicting_row-bulk m =
        let (s, i, named_t) =
          trips_of-In rows db t (conflicting_rows rows db (merge_ids rows db)) m in
        let (j, p) = keep-In (λ (r : Staged). elem r.item.event_id (merge_ids rows db)) s rows i in
        conflicting_row-IsBad rows db t s ne j named_t (same_ids rows db s j ∙ p)

    conflicting_key-bulk :
        In t (present (map (λ k. k.1.trip_id) (conflicting_keys rows db (merge_ids rows db))))
        → elem (some t) (bad_trip_ids rows db) ≡ true
    unfolding conflict_ids
    conflicting_key-bulk m =
        let keys = conflicting_keys rows db (merge_ids rows db) in
        let (k, i, same) =
          map-In (λ (u : String × EventKey). u.1.trip_id) (some t) keys
            (present-In t (map (λ (u : String × EventKey). u.1.trip_id) keys) m) in
        let (j, p) =
          keep-In (λ (u : String × EventKey). elem u.0 (merge_ids rows db)) k db.event_keys i in
        let asked =
          In-keep (λ (u : String × EventKey). elem u.0 (ids rows db)) k db.event_keys j
            (merge-ids k.0 p) in
        conflicting_key-IsBad rows db t k ne
          (In-keep (λ (u : String × EventKey). elem u.0 (conflicting_ids rows db)) k
            (prior_keys rows db) asked (conflicting_key rows db k asked ∙ p))
          (sym same)
      where
        merge-ids :
            (id : String) → elem id (merge_ids rows db) ≡ true → elem id (ids rows db) ≡ true
        merge-ids id h =
            let listed = map (λ (r : Staged). r.item.event_id) (keep (is_conflict rows db) rows) in
            let (s, m, same) =
              map-In (λ (r : Staged). r.item.event_id) id (keep (is_conflict rows db) rows)
                (distinct-In id listed (elem-In id (merge_ids rows db) h)) in
            rw same (
              In-elem s.item.event_id (ids rows db)
                (In-ids s rows db (keep-In (is_conflict rows db) s rows m).0))

    quarantined-bulk :
        In t (quarantined_trips rows db (merge_ids rows db))
        → elem (some t) (bad_trip_ids rows db) ≡ true
    quarantined-bulk m =
        let payloads = map (λ (c : ConflictKey × Conflict). c.1.payload.trip_id) db.conflicts in
        let (i, here) = keep-In (λ u. elem u (trips_of rows)) t (present payloads) m in
        let (s, j, named_t) = trips_of-In rows db t rows (elem-In t (trips_of rows) here) in
        let (c, k, same) =
          map-In (λ (c : ConflictKey × Conflict). c.1.payload.trip_id) (some t) db.conflicts
            (present-In t payloads i) in
        blocked-IsBad rows db t s c ne j named_t k (sym same)

    -- Every query of merge_staged finds a trip that is bad for bulk_serve.
    pub merge-bad : elem t (bad rows db) ≡ true → elem (some t) (bad_trip_ids rows db) ≡ true
    unfolding bad_trips
    merge-bad h =
        let all = bad_queries rows db (merge_ids rows db) in
        let (query, m, i) =
          concat-In t all (distinct-In t (concat all) (elem-In t (bad rows db) h)) in
        in_query query m i
      where
        in_query :
            (query : List String)
            → In query (bad_queries rows db (merge_ids rows db))
            → In t query
            → elem (some t) (bad_trip_ids rows db) ≡ true
        in_query query (inl e) i = inconsistent-bulk (rw e at i)
        in_query query (inr (inl e)) i = contradicting-bulk (rw e at i)
        in_query query (inr (inr (inl e))) i = conflicting_row-bulk (rw e at i)
        in_query query (inr (inr (inr (inl e)))) i = conflicting_key-bulk (rw e at i)
        in_query query (inr (inr (inr (inr (inl e))))) i = quarantined-bulk (rw e at i)
        in_query query (inr (inr (inr (inr (inr n))))) i = absurd n
