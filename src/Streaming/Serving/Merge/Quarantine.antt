-- ===== src/Streaming/Serving/Merge/Quarantine.antt =====
-- The trips that stream_conflicts names, and the tables that `merge_staged` of
-- streaming/staged_sink.py keeps free of them.
use fleet_lambda_platform.Base.{
  ℕ, String, Bool, true, false, not, some, List, map, keep, present, In, All, All-In, All_weaken,
  All-of_In, All-map, keep-In, In-keep, In-map, In-present, In-concat, concat, In-elem, elem, ◌≡◌,
  ◌≢◌, refl, subst, inl, inr, arith, string_eq,
}
use fleet_lambda_platform.Base.Tables.{insert_rows, All-insert_rows, In-distinct}
use fleet_lambda_platform.Base.Result.{ok}
use fleet_lambda_platform.Streaming.Serving.{
  Staged, EventKey, Serving, CompletedTrip, MetricEvent, Conflict, ConflictKey, conflict_key_eq,
}
use fleet_lambda_platform.Streaming.Serving.Windows.{is_discredited}
use fleet_lambda_platform.Streaming.Serving.Conflicts.{
  of_run, conflicting_rows, conflicting_keys, quarantined_trips, trips_of, bad_trips, bad_queries,
  is_rejected, staged_conflicts, prior_events, prior_trips,
}
use fleet_lambda_platform.Streaming.Serving.Merge.{
  add_conflicts, kept_trips, kept_events, new_metric_events, merge_staged, commit, trip_rows,
  is_stale,
}
use fleet_lambda_platform.Streaming.Serving.Merge.Outcome.{
  ids, bad, accepted, accepted-In, merge_rows-ok, trip_rows-All,
}

-- No row of stream_conflicts names the trip.
abbrev pub Unnamed : List (ConflictKey × Conflict) → String → Type 0
Unnamed conflicts t = All (λ c. c.1.payload.trip_id ≢ some t) conflicts

-- Neither completed_trips nor rt_zone_metric_events has a row of a trip that a conflict names.
pub record Quarantined (db : Serving) : Type 0 where
  pub trips_unnamed : All (λ t. Unnamed db.conflicts t.0) db.trips
  pub events_unnamed :
      All (λ e. (t : String) → e.1.trip_id ≡ some t → Unnamed db.conflicts t) db.metric_events

not-In : (t : String) (ts : List String) → elem t ts ≡ false → In t ts → ⊥
not-In t ts h m = cc (h, In-elem t ts m)

module _ (rows : List Staged) (db : Serving) where
  row_trip :
      (s : Staged) (t : String) (staged : List Staged)
      → In s staged
      → s.item.trip_id ≡ some t
      → In t (trips_of staged)
  row_trip s t staged m named = In-present t _ (
      subst (λ o. In o (map (λ r. r.item.trip_id) staged)) named
        (In-map (λ r. r.item.trip_id) s staged m))

  -- A trip that one of the five queries selects is bad.
  bad-query :
      (t : String) (query : List String)
      → In query (bad_queries rows db (ids rows db))
      → In t query
      → In t (bad rows db)
  unfolding bad_trips
  bad-query t query m n =
      let all = bad_queries rows db (ids rows db) in
      In-distinct t (concat all) (In-concat t query all m n)

  -- the trip of a row with a conflicting event
  bad-conflicting_rows :
      (s : Staged) (t : String)
      → In s rows
      → elem s.item.event_id (ids rows db) ≡ true
      → s.item.trip_id ≡ some t
      → In t (bad rows db)
  bad-conflicting_rows s t m h named =
      let staged = conflicting_rows rows db (ids rows db) in
      bad-query t (trips_of staged) (inr (inr (inl refl)))
        (row_trip s t staged (In-keep (λ r. elem r.item.event_id (ids rows db)) s rows m h) named)

  -- the trip that the key of a conflicting event names
  bad-conflicting_keys :
      (k : String × EventKey) (t : String)
      → In k (conflicting_keys rows db (ids rows db))
      → k.1.trip_id ≡ some t
      → In t (bad rows db)
  bad-conflicting_keys k t m named =
      let keys = conflicting_keys rows db (ids rows db) in
      let trips = map (λ (r : String × EventKey). r.1.trip_id) keys in
      bad-query t (present trips) (inr (inr (inr (inl refl)))) (
        In-present t trips (
          subst (λ o. In o trips) named (In-map (λ (r : String × EventKey). r.1.trip_id) k keys m)))

  -- a staged trip that a conflict names
  bad-quarantined :
      (c : ConflictKey × Conflict) (t : String)
      → In c db.conflicts
      → c.1.payload.trip_id ≡ some t
      → In t (trips_of rows)
      → In t (bad rows db)
  bad-quarantined c t m named staged =
      let trips = map (λ (r : ConflictKey × Conflict). r.1.payload.trip_id) db.conflicts in
      bad-query t (quarantined_trips rows db (ids rows db)) (inr (inr (inr (inr (inl refl))))) (
        In-keep (λ u. elem u (trips_of rows)) t (present trips)
          (In-present t trips (
            subst (λ o. In o trips) named
              (In-map (λ (r : ConflictKey × Conflict). r.1.payload.trip_id) c db.conflicts m)))
          (In-elem t (trips_of rows) staged))

  module _ (batch_id : ℕ) (t : String) (good : elem t (bad rows db) ≡ false) where
    abbrev rejected : List Staged
    rejected = keep (is_rejected (ids rows db) (bad rows db)) rows

    abbrev removed : List (String × CompletedTrip)
    removed = keep (λ u. elem u.0 (bad rows db)) db.trips

    abbrev IsOther : ConflictKey × Conflict → Type 0
    IsOther c = c.1.payload.trip_id ≢ some t

    Unnamed-staged_conflicts : Unnamed (staged_conflicts batch_id rejected) t
    Unnamed-staged_conflicts = All-map IsOther _ rejected (
        All-of_In _ rejected (λ s m named.
          let (i, hit) = keep-In (is_rejected (ids rows db) (bad rows db)) s rows m in
          let blamed = rw (named, good) at hit in
          not-In t (bad rows db) good (bad-conflicting_rows s t i (ground arith) named)))

    Unnamed-prior_events :
        Unnamed (prior_events batch_id (conflicting_keys rows db (ids rows db))) t
    Unnamed-prior_events = All-map IsOther _ (conflicting_keys rows db (ids rows db)) (
        All-of_In _ (conflicting_keys rows db (ids rows db))
          (λ k m named. not-In t (bad rows db) good (bad-conflicting_keys k t m named)))

    Unnamed-prior_trips : Unnamed (prior_trips batch_id removed) t
    Unnamed-prior_trips = All-map IsOther _ removed (
        All-of_In _ removed (λ u m named.
          let (_, is_bad) =
            keep-In (λ (p : String × CompletedTrip). elem p.0 (bad rows db)) u db.trips m in
          let same : u.0 ≡ t = cc (named) in cc (is_bad, good, same)))

    -- A trip that is not bad is named by no row that the transaction stores.
    Unnamed-add_conflicts :
        Unnamed db.conflicts t
        → Unnamed (add_conflicts batch_id (ids rows db) (bad rows db) rows db) t
    unfolding add_conflicts
    Unnamed-add_conflicts h =
        let keys = conflicting_keys rows db (ids rows db) in
        let first = insert_rows (staged_conflicts batch_id rejected) db.conflicts in
        let second = insert_rows (prior_events batch_id keys) first in
        All-insert_rows IsOther (prior_trips batch_id removed) second Unnamed-prior_trips (
          All-insert_rows IsOther (prior_events batch_id keys) first Unnamed-prior_events (
            All-insert_rows IsOther (staged_conflicts batch_id rejected) db.conflicts
              Unnamed-staged_conflicts h))

  -- An accepted row's trip is not bad, and no conflict has named it.
  accepted-Unnamed :
      (s : Staged) (t : String)
      → In s (accepted rows db)
      → s.item.trip_id ≡ some t
      → (elem t (bad rows db) ≡ false) × Unnamed db.conflicts t
  accepted-Unnamed s t m named =
      let (i, passed) = accepted-In rows db s m in
      let good : elem t (bad rows db) ≡ false = ground (arith, rw named at passed) in
      (
        good,
        All-of_In _ db.conflicts (λ c at blamed.
            not-In t (bad rows db) good
              (bad-quarantined c t at blamed (row_trip s t rows i named))),
      )

module _ (after : String → String → Bool) (minutes : ℕ) (run_id : String) (batch_id : ℕ)
    (stage rows : List Staged) (db : Serving) (q : Quarantined db) where
  abbrev Clean : String → Type 0
  Clean t = Unnamed (add_conflicts batch_id (ids rows db) (bad rows db) rows db) t

  Clean-kept : (t : String) → elem t (bad rows db) ≡ false → Unnamed db.conflicts t → Clean t
  Clean-kept t good h = Unnamed-add_conflicts rows db batch_id t good h

  Clean-accepted :
      (s : Staged) (t : String) → In s (accepted rows db) → s.item.trip_id ≡ some t → Clean t
  Clean-accepted s t m named =
      let (good, h) = accepted-Unnamed rows db s t m named in Clean-kept t good h

  trips-Clean :
      (completed : List (String × CompletedTrip))
      → trip_rows (keep (λ s. s.item.trip_completed) (accepted rows db)) ≡ ok completed
      → All (λ t. Clean t.0) (insert_rows completed (kept_trips (bad rows db) db.trips))
  trips-Clean completed h =
      All-insert_rows (λ (t : String × CompletedTrip). Clean t.0) completed
        (kept_trips (bad rows db) db.trips)
        (All_weaken _ (λ t. Clean t.0) completed
          (λ t (s, m, named).
            Clean-accepted s t.0
              (keep-In (λ (r : Staged). r.item.trip_completed) s (accepted rows db) m).0 named)
          (trip_rows-All (keep (λ s. s.item.trip_completed) (accepted rows db)) completed h))
        (All-of_In _ (kept_trips (bad rows db) db.trips) (λ t m.
          let (i, good) =
            keep-In (λ (u : String × CompletedTrip). not (elem u.0 (bad rows db))) t db.trips m in
          Clean-kept t.0 (ground arith) (
            All-In (λ (u : String × CompletedTrip). Unnamed db.conflicts u.0) t db.trips
              q.trips_unnamed i)))

  abbrev EventClean : String × MetricEvent → Type 0
  EventClean e = (t : String) → e.1.trip_id ≡ some t → Clean t

  events-Clean : All EventClean (
      insert_rows
        (new_metric_events (accepted rows db))
        (kept_events (ids rows db) (bad rows db) db.metric_events))
  events-Clean =
      let kept = kept_events (ids rows db) (bad rows db) db.metric_events in
      All-insert_rows EventClean (new_metric_events (accepted rows db)) kept
        (All-map EventClean _ (accepted rows db)
          (All-of_In _ (accepted rows db) (λ s m t named. Clean-accepted s t m named)))
        (All-of_In _ kept (λ e m t named.
          let (i, good) =
            keep-In
              (λ (u : String × MetricEvent). not (is_discredited (ids rows db) (bad rows db) u)) e
              db.metric_events m in
          let free = rw named at good in
          Clean-kept t (ground arith) (All-In _ e db.metric_events q.events_unnamed i t named)))

  commit-Quarantined :
      (completed : List (String × CompletedTrip))
      → trip_rows (keep (λ s. s.item.trip_completed) (accepted rows db)) ≡ ok completed
      → Quarantined (
          commit after minutes run_id batch_id
            (ids rows db)
            (bad rows db)
            stage
            rows
            (accepted rows db)
            completed
            db)
  unfolding commit
  commit-Quarantined completed h = record {
    trips_unnamed = trips-Clean completed h;
    events_unnamed = events-Clean;
  }

-- When no trip that a row of stream_conflicts names has a row in completed_trips or in
-- rt_zone_metric_events, the same holds after every merge of a staged micro-batch that commits,
-- whatever it stages and whatever it adds to stream_conflicts.
pub merge_staged-Quarantined :
    (after : String → String → Bool) (minutes batch_id now n : ℕ) (run_id : String)
    (db db' : Serving)
    → Quarantined db
    → merge_staged after minutes run_id batch_id now db ≡ ok (n, db')
    → Quarantined db'
unfolding merge_staged
merge_staged-Quarantined after minutes batch_id now n run_id db db' q h =
    let stage = keep (λ s. not (is_stale now s)) db.stage in
    let rows = of_run run_id stage in
    let (completed, done, same) =
      merge_rows-ok rows db after minutes run_id batch_id n stage db' h in
    subst Quarantined same
      (commit-Quarantined after minutes run_id batch_id stage rows db q completed done)
