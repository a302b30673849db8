-- ===== src/Streaming/Serving/Merge/Outcome.antt =====
-- What `merge_staged` of streaming/staged_sink.py has done when its transaction commits.
use fleet_lambda_platform.Base.{
  ℕ, ◌≤◌, String, Bool, true, Option, none, some, List, [], ◌∷◌, In, All, All-In, not, ◌==◌, keep,
  All_weaken, keep-In, map-In, length-keep-le, length, sum_by, arith, ◌≡◌, refl, inl, inr,
  Bool-cases, string_eq,
}
use fleet_lambda_platform.Base.Result.{ok, raise_if, operational_error, >>=-eq-ok, ok-injective}
use fleet_lambda_platform.Base.Tables.{distinct_on, distinct_on-In}
use fleet_lambda_platform.Base.Grouping.{length-sum_by}
use fleet_lambda_platform.Base.Totals.{sum_by-keep, sum_by-distinct_on}
use fleet_lambda_platform.Base.Sort.{sort_by, sort_by-In, sum_by-sort_by}
use fleet_lambda_platform.Streaming.Serving.{Staged, Serving, CompletedTrip, VehicleState}
use fleet_lambda_platform.Streaming.Serving.Conflicts.{of_run, conflict_ids, bad_trips}
use fleet_lambda_platform.Streaming.Serving.Merge.{
  is_accepted, accepted_rows, trip_rows, is_storable, add_trip, completed_trip, commit, merge_rows,
  merge_staged, is_stale, staged_le, kept_states,
}
use fleet_lambda_platform.Streaming.Serving.Windows.{affected_windows}
use fleet_lambda_platform.Streaming.Serving.States.{
  newest_first, state_candidate, state_candidates, have_status,
}
use fleet_lambda_platform.Streaming.Serving.Merge.Storable.{
  HasStatus, IsServable, HasStatus-is_status, metric_events-fit, have_status-all,
}

module _ (rows : List Staged) (db : Serving) where
  abbrev pub ids : List String
  ids = conflict_ids rows db

  abbrev pub bad : List String
  bad = bad_trips rows db ids

  abbrev pub accepted : List Staged
  accepted = accepted_rows ids bad db.event_keys rows

  -- A row that is accepted was staged, and is neither rejected nor known.
  pub accepted-In :
      (s : Staged) → In s accepted → In s rows × (is_accepted ids bad db.event_keys s ≡ true)
  unfolding accepted_rows
  accepted-In s m =
      keep-In (is_accepted ids bad db.event_keys) s rows
        (sort_by-In _ s _ (distinct_on-In (λ r. r.item.event_id) s _ m))

  pub merge_rows-ok :
      (after : String → String → Bool) (minutes : ℕ) (run_id : String) (batch_id n : ℕ)
      (stage : List Staged) (db' : Serving)
      → merge_rows after minutes run_id batch_id stage rows db ≡ ok (n, db')
      → (completed : List (String × CompletedTrip)) × (trip_rows
            (keep (λ s. s.item.trip_completed) accepted)
          ≡ ok completed)
        × (commit after minutes run_id batch_id ids bad stage rows accepted completed db ≡ db')
  unfolding merge_rows
  merge_rows-ok after minutes run_id batch_id n stage db' h =
      let (completed, done, checked) = >>=-eq-ok _ _ h in
      let (_, _, same) =
        >>=-eq-ok (raise_if (not (is_storable after ids bad rows accepted db)) operational_error) _
          checked in
      let pair = ok-injective same in (completed, done, cc (pair))

add_trip-ok :
    (o : Option String) (s : Staged) (rest out : List (String × CompletedTrip))
    → add_trip o s rest ≡ ok out
    → (t : String) × (trip : CompletedTrip) × (o ≡ some t) × (out ≡ (t, trip) ∷ rest)
add_trip-ok none s rest out h = cc
add_trip-ok (some t) s rest out h = (t, completed_trip s, refl, cc (h))

-- Each row of completed_trips is of an accepted row that names its trip.
pub trip_rows-All :
    (rows : List Staged) (out : List (String × CompletedTrip))
    → trip_rows rows ≡ ok out
    → All (λ t. (s : Staged) × In s rows × (s.item.trip_id ≡ some t.0)) out
unfolding trip_rows
trip_rows-All [] out h = rw (← ok-injective h) tt
trip_rows-All (s ∷ rows) out h =
    let (rest, before, added) = >>=-eq-ok _ _ h in
    let (t, trip, named, same) = add_trip-ok s.item.trip_id s rest out added in
    rw same (
      (s, inl refl, named),
      All_weaken _ _ rest (λ e' (r, i, eq). (r, inr i, eq)) (trip_rows-All rows rest before),
    )

-- What the run's rows are removed from holds none of them.
none_of_run :
    (run_id : String) (stage : List Staged)
    → of_run run_id (keep (λ s. not (s.run_id == run_id)) stage) ≡ []
none_of_run run_id [] = refl
none_of_run run_id (s ∷ stage) = elim (Bool-cases (s.run_id == run_id)) [
  | inl p ↦ rw p (none_of_run run_id stage)
  | inr q ↦ rw (q, q) (none_of_run run_id stage)
]

-- A completed trip's row names its trip, which `validate_event` asks of every event.
abbrev pub NamesTrip : Staged → Type 0
NamesTrip s = s.item.trip_completed ≡ true → (t : String) × (s.item.trip_id ≡ some t)

trip_rows-ok :
    (rows : List Staged)
    → ((s : Staged) → In s rows → (t : String) × (s.item.trip_id ≡ some t))
    → (out : List (String × CompletedTrip)) × (trip_rows rows ≡ ok out)
unfolding trip_rows
trip_rows-ok [] h = ([], refl)
trip_rows-ok (s ∷ rows) h =
    let (rest, before) = trip_rows-ok rows (λ r m. h r (inr m)) in
    let (t, named) = h s (inl refl) in ((t, completed_trip s) ∷ rest, rw (before, named) refl)

-- The vehicle states that a merge stores have the statuses of accepted rows.
candidates-HaveStatus :
    (after : String → String → Bool) (accepted : List Staged)
    (states : List (String × VehicleState))
    → ((s : Staged) → In s accepted → HasStatus s)
    → have_status (state_candidates after accepted states) ≡ true
unfolding state_candidates state_candidate
candidates-HaveStatus after accepted states h =
    have_status-all (state_candidates after accepted states) (λ v m.
      let (l, i, same) =
        map-In (state_candidate after accepted states) v
          (distinct_on (λ s. s.item.vehicle_id) (sort_by (newest_first after) accepted)) m in
      let j =
        sort_by-In (newest_first after) l accepted
          (distinct_on-In (λ (s : Staged). s.item.vehicle_id) l _ i) in
      rw same (HasStatus-is_status l (h l j)))

-- Some of the rows that can be stored can be stored.
keep-IsServable :
    (test : Staged → Bool) (rows : List Staged) (db : Serving)
    → IsServable rows db
    → IsServable (keep test rows) db
keep-IsServable test rows db can = record {
  statuses = keep-HaveStatus test rows can.statuses;
  counts = omega (arith, can.counts, length-keep-le test rows);
  fares = omega (arith, can.fares, sum_by-keep (λ (s : Staged). s.item.fare_cents) test rows);
}
  where
    keep-HaveStatus :
        (test : Staged → Bool) (rows : List Staged)
        → All HasStatus rows
        → All HasStatus (keep test rows)
    keep-HaveStatus test [] h = tt
    keep-HaveStatus test (s ∷ rows) (h, k) = elim (Bool-cases (test s)) [
      | inl p ↦ rw p (h, keep-HaveStatus test rows k)
      | inr q ↦ rw q (keep-HaveStatus test rows k)
    ]

accepted-le :
    (f : Staged → ℕ) (rows : List Staged) (db : Serving)
    → sum_by f (accepted rows db) ≤ sum_by f rows
unfolding accepted_rows
accepted-le f rows db =
    let new = is_accepted (ids rows db) (bad rows db) db.event_keys in
    omega (
      arith,
      sum_by-distinct_on f (λ s. s.item.event_id) (sort_by staged_le (keep new rows)),
      sum_by-sort_by staged_le f (keep new rows),
      sum_by-keep f new rows,
    )

rows-AreStorable :
    (after : String → String → Bool) (rows : List Staged) (db : Serving)
    → IsServable rows db
    → is_storable after (ids rows db) (bad rows db) rows (accepted rows db) db ≡ true
unfolding is_storable
rows-AreStorable after rows db can =
    let served = accepted rows db in
    let windows = affected_windows (ids rows db) (bad rows db) rows db.metric_events in
    let few : length served ≤ length rows =
      omega (arith, length-sum_by served, length-sum_by rows, accepted-le (λ s. 1) rows db) in
    rw
      (
        metric_events-fit rows served db (ids rows db) (bad rows db) windows can few
            (accepted-le (λ s. s.item.fare_cents) rows db),
        candidates-HaveStatus after served
            (kept_states (ids rows db) (bad rows db) db.event_keys db.states)
            (λ s m. All-In HasStatus s rows can.statuses (accepted-In rows db s m).0),
      )
      refl

pub merge_rows-Commits :
    (after : String → String → Bool) (minutes : ℕ) (run_id : String) (batch_id : ℕ)
    (stage rows : List Staged) (db : Serving)
    → ((s : Staged) → In s rows → NamesTrip s)
    → IsServable rows db
    → (n : ℕ) × (db' : Serving) × (merge_rows after minutes run_id batch_id stage rows db
        ≡ ok (n, db'))
      × (db'.stage ≡ keep (λ s. not (s.run_id == run_id)) stage)
unfolding merge_rows commit
merge_rows-Commits after minutes run_id batch_id stage rows db named can =
    let (completed, done) =
      trip_rows-ok (keep (λ s. s.item.trip_completed) (accepted rows db)) (λ s m.
        let (i, finished) =
          keep-In (λ (r : Staged). r.item.trip_completed) s (accepted rows db) m in
        named s (accepted-In rows db s i).0 finished) in
    (
      length (ids rows db),
      commit after minutes run_id batch_id (ids rows db) (bad rows db) stage rows (accepted rows db)
          completed db,
      rw (done, rows-AreStorable after rows db can) refl,
      refl,
    )

-- Where every staged row of a completed trip names its trip, every staged row's status is "idle",
-- "enroute" or "on_trip", and the metric events and staged rows together are fewer than 2 ^ 31 and
-- their fares add up to less than 2 ^ 63, the merge of any run commits, and no row of the run is left
-- in the stage.
pub merge_staged-Commits :
    (after : String → String → Bool) (minutes batch_id now : ℕ) (run_id : String) (db : Serving)
    → All NamesTrip db.stage
    → IsServable db.stage db
    → (n : ℕ) × (db' : Serving) × (merge_staged after minutes run_id batch_id now db ≡ ok (n, db'))
      × (of_run run_id db'.stage ≡ [])
unfolding merge_staged
merge_staged-Commits after minutes batch_id now run_id db named can =
    let stage = keep (λ s. not (is_stale now s)) db.stage in
    let (n, db', done, left) =
      merge_rows-Commits after minutes run_id batch_id stage (of_run run_id stage) db
        (λ s m.
          let (i, mine) = keep-In (λ (r : Staged). r.run_id == run_id) s stage m in
          let (j, fresh) = keep-In (λ (r : Staged). not (is_stale now r)) s db.stage i in
          All-In NamesTrip s db.stage named j)
        (keep-IsServable (λ r. r.run_id == run_id) stage db
          (keep-IsServable (λ r. not (is_stale now r)) db.stage db can)) in
    (n, db', done, rw left (none_of_run run_id stage))
