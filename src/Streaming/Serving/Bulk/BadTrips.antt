-- ===== src/Streaming/Serving/Bulk/BadTrips.antt =====
-- The trips that `bulk_serve` of streaming/sink.py takes for bad, among those of the batch, are bad for
-- `merge_staged` of streaming/staged_sink.py.
use fleet_lambda_platform.Base.{
  String, Bool, true, ◌||◌, some, List, map, keep, elem, present, concat, ltb, In, In-map, map-In,
  In-keep, keep-In, In-append, In-present, In-concat, elem-In, In-elem, ◌≡◌, refl, sym, ◌∙◌, subst,
  inl, inr, Bool-cases, string_eq, nat_eq, option_eq,
}
use fleet_lambda_platform.Base.Tables.{count_distinct, In-distinct}
use fleet_lambda_platform.Streaming.Serving.{
  Staged, EventKey, signature_eq, Conflict, ConflictKey, Serving,
}
use fleet_lambda_platform.Streaming.Serving.Conflicts.{
  trip_in, trips_of, inconsistent_trips, contradicts_trip, conflicting_rows, conflicting_keys,
  quarantined_trips, bad_queries, bad_trips, completed,
}
use fleet_lambda_platform.Streaming.Serving.Verdict.{
  named, ids, prior_keys, trip_ids, blocked, conflicting_ids, completed_trips, has_two_signatures,
  trips_in_conflict, bad_trip_ids,
}
use fleet_lambda_platform.Streaming.Serving.Bulk.SameIds.{ids-In, same_ids}
use fleet_lambda_platform.Streaming.Serving.Bulk.Signatures.{bulk_one}
use fleet_lambda_platform.Streaming.Serving.Bulk.SameTrips.{
  named-In, merge_ids, In-trips_of, merge_signatures,
}

module _ (rows : List Staged) (db : Serving) where
  abbrev pub bad : List String
  bad = bad_trips rows db (merge_ids rows db)

  by_query :
      (t : String) (query : List String)
      → In query (bad_queries rows db (merge_ids rows db))
      → In t query
      → elem t bad ≡ true
  unfolding bad_trips
  by_query t query m n =
      let all = bad_queries rows db (merge_ids rows db) in
      In-elem t bad (In-distinct t (concat all) (In-concat t query all m n))

  pub conflicting_key :
      (k : String × EventKey)
      → In k (prior_keys rows db)
      → elem k.0 (conflicting_ids rows db) ≡ elem k.0 (merge_ids rows db)
  conflicting_key k m =
      let (i, asked) =
        keep-In (λ (u : String × EventKey). elem u.0 (ids rows db)) k db.event_keys m in
      let (s, j, same) = ids-In k.0 rows db (elem-In k.0 (ids rows db) asked) in
      rw same (same_ids rows db s j)

  module _ (t : String) where
    signatures-bad :
        In (some t) (keep (has_two_signatures rows db) (completed_trips rows db))
        → elem t bad ≡ true
    unfolding inconsistent_trips
    signatures-bad m =
        let (i, two) = keep-In (has_two_signatures rows db) (some t) (completed_trips rows db) m in
        let (s, j, named_s) =
          map-In (λ (r : Staged). r.item.trip_id) (some t) (completed rows db) i in
        let (k, done) = keep-In (λ (r : Staged). r.item.trip_completed) s rows j in
        elim (Bool-cases (ltb 1 (count_distinct (merge_signatures rows db t)))) [
          | inl p ↦
              by_query t (inconsistent_trips rows db) (inl refl) (inconsistent s j (sym named_s) p)
          | inr p ↦ elim (Bool-cases (contradicts_trip rows db s)) [
            | inl q ↦
                by_query t (trips_of (keep (contradicts_trip rows db) (completed rows db)))
                  (inr (inl refl))
                  (In-trips_of rows db t s (keep (contradicts_trip rows db) (completed rows db))
                    (In-keep (contradicts_trip rows db) s (completed rows db) j q) (sym named_s))
            | inr q ↦ cc (two, bulk_one rows db t s k done (sym named_s) p q)
          ]
        ]
      where
        inconsistent :
            (s : Staged)
            → In s (completed rows db)
            → s.item.trip_id ≡ some t
            → ltb 1 (count_distinct (merge_signatures rows db t)) ≡ true
            → In t (inconsistent_trips rows db)
        inconsistent s j named_s p =
            In-keep (λ u. ltb 1 (count_distinct (merge_signatures rows db u))) t
              (trips_of (completed rows db)) (In-trips_of rows db t s (completed rows db) j named_s)
              p

    -- A trip of a row that the rows of the batch put in conflict is bad for merge_staged.
    conflict-bad : In t (trips_of rows) → In t (trips_in_conflict rows db) → elem t bad ≡ true
    unfolding conflicting_ids
    conflict-bad here m =
        elim (In-append t (named (map (λ c. c.1.payload.trip_id) (blocked rows db))) _ m) [
          | inl old ↦
              let asked : ConflictKey × Conflict → Bool = λ c.
                elem c.0.event_id (ids rows db) || trip_in c.1.payload.trip_id (trip_ids rows db) in
              let (c, i, same) =
                map-In (λ (c : ConflictKey × Conflict). c.1.payload.trip_id) (some t)
                  (blocked rows db)
                  (named-In t (map (λ c. c.1.payload.trip_id) (blocked rows db)) old) in
              let all = map (λ (c : ConflictKey × Conflict). c.1.payload.trip_id) db.conflicts in
              by_query t (quarantined_trips rows db (merge_ids rows db))
                (inr (inr (inr (inr (inl refl)))))
                (In-keep (λ u. elem u (trips_of rows)) t (present all)
                  (In-present t all (
                    subst (λ o. In o all) (sym same)
                      (In-map (λ (c : ConflictKey × Conflict). c.1.payload.trip_id) c db.conflicts
                        (keep-In asked c db.conflicts i).0)))
                  (In-elem t (trips_of rows) here))
          | inr now ↦ elim (In-append t (named (map (λ s. s.item.trip_id) refused_rows)) _ now) [
            | inl new ↦
                let (s, i, same) =
                  map-In (λ (r : Staged). r.item.trip_id) (some t) refused_rows
                    (named-In t (map (λ r. r.item.trip_id) refused_rows) new) in
                let (j, hit) =
                  keep-In (λ (r : Staged). elem r.item.event_id (conflicting_ids rows db)) s rows
                    i in
                by_query t (trips_of (conflicting_rows rows db (merge_ids rows db)))
                  (inr (inr (inl refl)))
                  (In-trips_of rows db t s (conflicting_rows rows db (merge_ids rows db))
                    (In-keep (λ (r : Staged). elem r.item.event_id (merge_ids rows db)) s rows j
                      (sym (same_ids rows db s j) ∙ hit))
                    (sym same))
            | inr known ↦
                let (k, i, same) =
                  map-In (λ (k : String × EventKey). k.1.trip_id) (some t) refused_keys
                    (named-In t (map (λ k. k.1.trip_id) refused_keys) known) in
                let (j, hit) =
                  keep-In (λ (u : String × EventKey). elem u.0 (conflicting_ids rows db)) k
                    (prior_keys rows db) i in
                let (l, _) =
                  keep-In (λ (u : String × EventKey). elem u.0 (ids rows db)) k db.event_keys j in
                let keys = conflicting_keys rows db (merge_ids rows db) in
                let trips = map (λ (u : String × EventKey). u.1.trip_id) keys in
                by_query t (present trips) (inr (inr (inr (inl refl)))) (
                  In-present t trips (
                    subst (λ o. In o trips) (sym same)
                      (In-map (λ (u : String × EventKey). u.1.trip_id) k keys
                        (In-keep (λ (u : String × EventKey). elem u.0 (merge_ids rows db)) k
                          db.event_keys l (sym (conflicting_key k j) ∙ hit)))))
          ]
        ]
      where
        refused_rows : List Staged
        refused_rows = keep (λ s. elem s.item.event_id (conflicting_ids rows db)) rows

        refused_keys : List (String × EventKey)
        refused_keys = keep (λ k. elem k.0 (conflicting_ids rows db)) (prior_keys rows db)

    pub bulk-bad :
        In t (trips_of rows) → elem (some t) (bad_trip_ids rows db) ≡ true → elem t bad ≡ true
    unfolding bad_trip_ids
    bulk-bad here h =
        let first = keep (has_two_signatures rows db) (completed_trips rows db) in
        elim (In-append (some t) first _ (elem-In (some t) _ h)) [
          | inl two ↦ signatures-bad two
          | inr named_t ↦
              let (u, i, same) = map-In some (some t) (trips_in_conflict rows db) named_t in
              conflict-bad here
                (subst (λ v. In v (trips_in_conflict rows db)) (sym (some_injective same)) i)
        ]
      where
        some_injective : {u v : String} → some u ≡ some v → u ≡ v
        some_injective e = cc (e)
