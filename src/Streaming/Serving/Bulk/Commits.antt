-- ===== src/Streaming/Serving/Bulk/Commits.antt =====
-- When `bulk_serve` of streaming/sink.py commits.
use fleet_lambda_platform.Base.{
  ℕ, ◌≤◌, sum_by, String, Bool, true, false, not, ◌&&◌, Option, some, List, [], ◌∷◌, length,
  if◌then◌else◌, eqb, ltb, In, All, All-In, keep-In, ◌≡◌, refl, inl, inr, Bool-cases, option_eq,
  string_eq, arith,
}
use fleet_lambda_platform.Base.Dict.{lookup, insert, All-insert, contains}
use fleet_lambda_platform.Base.Grouping.{length-sum_by}
use fleet_lambda_platform.Base.Totals.{sum_by-keep, sum_by-distinct_on}
use fleet_lambda_platform.Base.Result.{ok}
use fleet_lambda_platform.Base.Sort.{sort_by, sort_by-In}
use fleet_lambda_platform.Base.Tables.{distinct_on-In}
use fleet_lambda_platform.Streaming.Serving.{Staged, Serving, CompletedTrip, VehicleState}
use fleet_lambda_platform.Streaming.Serving.Windows.{fit_columns}
use fleet_lambda_platform.Streaming.Serving.States.{is_status, have_status}
use fleet_lambda_platform.Streaming.Serving.Merge.{completed_trip}
use fleet_lambda_platform.Streaming.Serving.Merge.Storable.{
  HasStatus, IsServable, HasStatus-is_status, metric_events-fit, have_status-all,
}
use fleet_lambda_platform.Streaming.Serving.Merge.Outcome.{NamesTrip}
use fleet_lambda_platform.Streaming.Serving.Verdict.{is_refused, first_copies, conflicting_ids}
use fleet_lambda_platform.Streaming.Serving.Bulk.{
  is_news, next_state, fold_states, changed_states, affected, bad_names, event_le, fold_trips,
  trip_values, accepted, rejected, quarantine, serve, serve_accepted, serve_batch, bulk_serve,
}

abbrev IsNamed : Option String × Staged → Type 0
IsNamed e = (t : String) × (e.0 ≡ some t)

fold_trips-AreNamed :
    (rows : List Staged) (trips : List (Option String × Staged))
    → ((s : Staged) → In s rows → NamesTrip s)
    → All IsNamed trips
    → All IsNamed (fold_trips rows trips)
unfolding fold_trips
fold_trips-AreNamed [] trips h named = named
fold_trips-AreNamed (s ∷ rows) trips h named =
    fold_trips-AreNamed rows _ (λ r m. h r (inr m))
      (with_trip s.item.trip_completed (h s (inl refl)))
  where
    with_trip :
        (done : Bool)
        → (done ≡ true → (t : String) × (s.item.trip_id ≡ some t))
        → All IsNamed (if done then insert s.item.trip_id s trips else trips)
    with_trip true n = All-insert IsNamed s.item.trip_id s trips (n refl) named
    with_trip false n = named

trip_values-ok :
    (trips : List (Option String × Staged))
    → All IsNamed trips
    → (out : List (String × CompletedTrip)) × (trip_values trips ≡ ok out)
unfolding trip_values
trip_values-ok [] h = ([], refl)
trip_values-ok ((o, s) ∷ trips) ((t, named), rest) =
    let (out, before) = trip_values-ok trips rest in
    ((t, completed_trip s) ∷ out, rw (before, named) refl)

abbrev IsKnown : String × VehicleState → Type 0
IsKnown v = is_status v.1.status ≡ true

fold_states-AreKnown :
    (rows : List Staged) (states changed : List (String × VehicleState))
    → ((s : Staged) → In s rows → HasStatus s)
    → All IsKnown changed
    → All IsKnown (fold_states rows states changed)
unfolding fold_states
fold_states-AreKnown [] states changed h known = known
fold_states-AreKnown (s ∷ rows) states changed h known =
    fold_states-AreKnown rows _ _ (λ r m. h r (inr m))
      (with_state (is_news s (lookup s.item.vehicle_id states)))
  where
    with_state :
        (news : Bool)
        → All IsKnown (
            if news
            then insert s.item.vehicle_id (next_state s (lookup s.item.vehicle_id states)) changed
            else changed)
    with_state true =
        All-insert IsKnown s.item.vehicle_id (next_state s (lookup s.item.vehicle_id states))
          changed (HasStatus-is_status s (h s (inl refl))) known
    with_state false = known

changed_states-HaveStatus :
    (rows : List Staged) (db : Serving)
    → ((s : Staged) → In s rows → HasStatus s)
    → have_status (changed_states rows db) ≡ true
unfolding changed_states
changed_states-HaveStatus rows db h =
    let known =
      fold_states-AreKnown (sort_by event_le rows) _ [] (λ s m. h s (sort_by-In event_le s rows m))
        tt in
    have_status-all (changed_states rows db)
      (λ v m. All-In IsKnown v (changed_states rows db) known m)

module _ (batch_id minutes : ℕ) (events : List Staged) where
  serve_accepted-Commits :
      (rows : List Staged) (db : Serving)
      → ((s : Staged) → In s rows → NamesTrip s)
      → ((s : Staged) → In s rows → HasStatus s)
      → (db' : Serving) × (serve_accepted batch_id events minutes rows db ≡ ok db')
  unfolding serve_accepted
  serve_accepted-Commits [] db h k = (db, refl)
  serve_accepted-Commits (s ∷ rows) db h k =
      let ordered = sort_by event_le (s ∷ rows) in
      let (trips, done) =
        trip_values-ok (fold_trips ordered [])
          (fold_trips-AreNamed ordered [] (λ r m. h r (sort_by-In event_le r (s ∷ rows) m)) tt) in
      (
        serve batch_id events minutes (s ∷ rows) trips db,
        rw (changed_states-HaveStatus (s ∷ rows) db k, done) refl,
      )

  accepted-In : (db : Serving) (s : Staged) → In s (accepted batch_id events db) → In s events
  unfolding accepted
  accepted-In db s m =
      distinct_on-In (λ (r : Staged). r.item.event_id) s events
        (keep-In
          (λ (r : Staged).
            not (is_refused events db r) && not (contains r.item.event_id db.event_keys))
          s (first_copies events db) m).0

  accepted-le :
      (f : Staged → ℕ) (db : Serving) → sum_by f (accepted batch_id events db) ≤ sum_by f events
  unfolding accepted
  accepted-le f db = omega (
    arith,
    sum_by-keep f
        (λ (r : Staged).
          not (is_refused events db r) && not (contains r.item.event_id db.event_keys))
        (first_copies events db),
    sum_by-distinct_on f (λ (r : Staged). r.item.event_id) events,
  )

  -- The windows that the batch corrects fit their columns.
  quarantine-fits :
      (db : Serving)
      → IsServable events db
      → fit_columns (affected batch_id events db) (quarantine batch_id events db).metric_events
        ≡ true
  unfolding quarantine
  quarantine-fits db can =
      let served = accepted batch_id events db in
      metric_events-fit events served db (conflicting_ids events db) (bad_names batch_id events db)
        (affected batch_id events db) can
        (omega (arith, length-sum_by served, length-sum_by events, accepted-le (λ s. 1) db))
        (accepted-le (λ s. s.item.fare_cents) db)

  -- A batch within the cap, whose completed rows name their trips and which can be stored, is served.
  pub bulk_serve-Commits :
      (db : Serving)
      → length events ≤ 2500
      → All NamesTrip events
      → IsServable events db
      → (n : ℕ) × (db' : Serving) × (bulk_serve batch_id events minutes db ≡ ok (n, db'))
  unfolding bulk_serve serve_batch
  bulk_serve-Commits db small named can =
      let (served, done) =
        serve_accepted-Commits (accepted batch_id events db) (quarantine batch_id events db)
          (λ s m. All-In NamesTrip s events named (accepted-In db s m))
          (λ s m. All-In HasStatus s events can.statuses (accepted-In db s m)) in
      let fits : ltb 2500 (length events) ≡ false = ground arith in
      elim (Bool-cases (eqb (length events) 0)) [
        | inl p ↦ (0, db, rw p refl)
        | inr q ↦ (
          length (rejected batch_id events db),
          served,
          rw (q, fits, quarantine-fits db can, done) refl,
        )
      ]
