-- ===== src/Streaming/Serving/Bulk/Quarantined.antt =====
-- The tables that `bulk_serve` of streaming/sink.py keeps free of the trips that stream_conflicts names.
use fleet_lambda_platform.Base.{
  ℕ, String, false, not, ◌&&◌, some, List, [], ◌∷◌, elem, In, All, All-In, All_weaken, All-of_In,
  All-map, keep-In, In-elem, elem-In, In-present, ◌≡◌, ◌≢◌, refl, ap, ◌∙◌, subst, inl, inr,
  Bool-cases, string_eq, option_eq, arith,
}
use fleet_lambda_platform.Base.Dict.{contains}
use fleet_lambda_platform.Base.Result.{ok, ok-injective}
use fleet_lambda_platform.Base.Tables.{insert_rows, All-insert_rows, distinct_on-In}
use fleet_lambda_platform.Streaming.Serving.{
  Staged, MetricEvent, Conflict, ConflictKey, conflict_key_eq, CompletedTrip, Serving,
}
use fleet_lambda_platform.Streaming.Serving.Windows.{is_discredited}
use fleet_lambda_platform.Streaming.Serving.Merge.{kept_trips, kept_events, new_metric_events}
use fleet_lambda_platform.Streaming.Serving.Merge.Quarantine.{Unnamed, Quarantined}
use fleet_lambda_platform.Streaming.Serving.Verdict.{
  conflicting_ids, bad_trip_ids, is_refused, first_copies,
}
use fleet_lambda_platform.Streaming.Serving.Bulk.{
  bad_names, rejected, accepted, quarantine, bulk_serve,
}
use fleet_lambda_platform.Streaming.Serving.Bulk.Rejections.{not-IsBad, rejected-Unnamed}
use fleet_lambda_platform.Streaming.Serving.Bulk.Blame.{blocked-IsBad}
use fleet_lambda_platform.Streaming.Serving.Bulk.Stored.{
  NamedIn, serve_accepted-tables, bulk_serve-ok,
}
use fleet_lambda_platform.Streaming.Serving.Bulk.SameVerdict.{IsBatch}

-- No conflict names a trip that is served, and no trip that is served has an empty id.
pub record Tidy (db : Serving) : Type 0 where
  pub quarantined : Quarantined db
  pub trips_named : All (λ t. t.0 ≢ "") db.trips
  pub events_named : All (λ e. e.1.trip_id ≢ some "") db.metric_events

module _ (batch_id : ℕ) (rows : List Staged) (db : Serving) (batch : IsBatch rows)
    (tidy : Tidy db) where
  abbrev stored : List (ConflictKey × Conflict)
  stored = insert_rows (rejected batch_id rows db) db.conflicts

  -- A trip that a conflict does not name afterwards, nor is it empty.
  abbrev IsClean : String → Type 0
  IsClean t = (t ≢ "") × Unnamed stored t

  kept-IsClean :
      (t : String)
      → t ≢ ""
      → elem (some t) (bad_trip_ids rows db) ≡ false
      → Unnamed db.conflicts t
      → IsClean t
  kept-IsClean t ne good h = (
    ne,
    All-insert_rows (λ c. c.1.payload.trip_id ≢ some t) (rejected batch_id rows db) db.conflicts
        (rejected-Unnamed rows db batch_id batch t ne good) h,
  )

  good_name :
      (t : String)
      → elem t (bad_names batch_id rows db) ≡ false
      → elem (some t) (bad_trip_ids rows db) ≡ false
  good_name t h = elim (Bool-cases (elem (some t) (bad_trip_ids rows db))) [
    | inr q ↦ q
    | inl p ↦
        let there =
          In-elem t (bad_names batch_id rows db)
            (In-present t (bad_trip_ids rows db) (elem-In (some t) (bad_trip_ids rows db) p)) in
        cc (there, h)
  ]

  accepted-IsClean :
      (s : Staged) (t : String)
      → In s (accepted batch_id rows db)
      → s.item.trip_id ≡ some t
      → IsClean t
  unfolding accepted is_refused
  accepted-IsClean s t m named_t =
      let (i, p) =
        keep-In
          (λ (r : Staged).
            not (is_refused rows db r) && not (contains r.item.event_id db.event_keys))
          s (first_copies rows db) m in
      let j = distinct_on-In (λ (r : Staged). r.item.event_id) s rows i in
      let ne : t ≢ "" = λ empty.
        All-In (λ (r : Staged). r.item.trip_id ≢ some "") s rows batch.not_empty j
          (named_t ∙ ap some empty) in
      let good : elem (some t) (bad_trip_ids rows db) ≡ false = ground (arith, rw named_t at p) in
      kept-IsClean t ne good (
        All-of_In _ db.conflicts (λ c k named_c.
          not-IsBad rows db batch_id batch t ne good
            (blocked-IsBad rows db t s c ne j named_t k named_c)))

  abbrev kept : List (String × CompletedTrip)
  kept = kept_trips (bad_names batch_id rows db) db.trips

  trips-AreClean :
      (out : List (String × CompletedTrip))
      → All (NamedIn (accepted batch_id rows db)) out
      → All (λ t. IsClean t.0) (insert_rows out kept)
  trips-AreClean out h =
      All-insert_rows (λ (t : String × CompletedTrip). IsClean t.0) out kept
        (All_weaken (NamedIn (accepted batch_id rows db)) (λ t. IsClean t.0) out
          (λ t (s, m, named_t). accepted-IsClean s t.0 m named_t) h)
        (All-of_In (λ (t : String × CompletedTrip). IsClean t.0) kept
          (λ t m.
            let (i, good) =
              keep-In (λ (u : String × CompletedTrip). not (elem u.0 (bad_names batch_id rows db)))
                t db.trips m in
            kept-IsClean t.0
              (All-In (λ (u : String × CompletedTrip). u.0 ≢ "") t db.trips tidy.trips_named i)
              (good_name t.0 (ground arith))
              (All-In (λ (u : String × CompletedTrip). Unnamed db.conflicts u.0) t db.trips
                tidy.quarantined.trips_unnamed i)))

  abbrev EventIsClean : String × MetricEvent → Type 0
  EventIsClean e = (t : String) → e.1.trip_id ≡ some t → IsClean t

  abbrev events : List (String × MetricEvent)
  events =
      insert_rows (new_metric_events (accepted batch_id rows db))
        (kept_events (conflicting_ids rows db) (bad_names batch_id rows db) db.metric_events)

  events-AreClean : All EventIsClean events
  events-AreClean =
      let old =
        kept_events (conflicting_ids rows db) (bad_names batch_id rows db) db.metric_events in
      All-insert_rows EventIsClean (new_metric_events (accepted batch_id rows db)) old
        (All-map EventIsClean _ (accepted batch_id rows db) (
          All-of_In _ (accepted batch_id rows db)
            (λ s m t named_t. accepted-IsClean s t m named_t)))
        (All-of_In EventIsClean old (λ e m t named_t.
          let (i, fine) =
            keep-In
              (λ (u : String × MetricEvent).
                not (is_discredited (conflicting_ids rows db) (bad_names batch_id rows db) u))
              e db.metric_events m in
          let free = rw named_t at fine in
          kept-IsClean t
            (λ empty.
              All-In (λ (u : String × MetricEvent). u.1.trip_id ≢ some "") e db.metric_events
                tidy.events_named i (named_t ∙ ap some empty))
            (good_name t (ground arith))
            (All-In _ e db.metric_events tidy.quarantined.events_unnamed i t named_t)))

  -- Tables with these rows are tidy.
  tables-Tidy :
      (out : List (String × CompletedTrip)) (d : Serving)
      → All (NamedIn (accepted batch_id rows db)) out
      → d.conflicts ≡ stored
      → d.trips ≡ insert_rows out kept
      → d.metric_events ≡ events
      → Tidy d
  tables-Tidy out d h conflicts trips metric_events = record {
    quarantined = record {
      trips_unnamed =
          rw (conflicts, trips)
            (All_weaken _ (λ t. Unnamed stored t.0) (insert_rows out kept) (λ t c. c.1)
              (trips-AreClean out h));
      events_unnamed =
          rw (conflicts, metric_events)
            (All_weaken EventIsClean (λ e. (t : String) → e.1.trip_id ≡ some t → Unnamed stored t)
              events (λ e c t named_t. (c t named_t).1) events-AreClean);
    };
    trips_named =
        rw trips
          (All_weaken _ (λ t. t.0 ≢ "") (insert_rows out kept) (λ t c. c.0) (trips-AreClean out h));
    events_named = rw metric_events (
        All_weaken EventIsClean (λ e. e.1.trip_id ≢ some "") events
          (λ e c empty. (c "" empty).0 refl) events-AreClean);
  }

-- Copies of an event with one digest being of one trip, no trip id of the batch being empty and its
-- completed events naming their trips: when no trip that stream_conflicts names, nor an empty one, has
-- a row in completed_trips or rt_zone_metric_events, the same holds after each `bulk_serve` that
-- commits.
pub bulk_serve-Tidy :
    (batch_id minutes n : ℕ) (rows : List Staged) (db db' : Serving)
    → IsBatch rows
    → Tidy db
    → bulk_serve batch_id rows minutes db ≡ ok (n, db')
    → Tidy db'
unfolding bulk_serve quarantine
bulk_serve-Tidy batch_id minutes n [] db db' batch tidy h =
    subst Tidy (ap (λ d. d.1) (ok-injective h)) tidy
bulk_serve-Tidy batch_id minutes n (s ∷ rows) db db' batch tidy h =
    let all = s ∷ rows in
    let (out, named_out, conflicts, trips, metric_events) =
      serve_accepted-tables batch_id minutes all (accepted batch_id all db)
        (quarantine batch_id all db) db' (bulk_serve-ok batch_id minutes n s rows db db' h) in
    tables-Tidy batch_id all db batch tidy out db' named_out conflicts trips metric_events
