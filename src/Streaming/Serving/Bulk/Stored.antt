-- ===== src/Streaming/Serving/Bulk/Stored.antt =====
-- The rows that `bulk_serve` of streaming/sink.py stores when it commits.
use fleet_lambda_platform.Base.{
  ℕ, String, Bool, true, false, not, Option, none, some, List, [], ◌∷◌, length, eqb, ltb, In, All,
  if◌then◌else◌, ◌≡◌, refl, sym, ap, ◌∙◌, inl, inr, ◌⊎◌, Option-cases, string_eq, option_eq, arith,
}
use fleet_lambda_platform.Base.Dict.{insert, All-insert}
use fleet_lambda_platform.Base.Result.{
  Result, ok, value_error, operational_error, raise_if, ◌>>=◌, >>=-eq-ok, ok-injective,
}
use fleet_lambda_platform.Base.Sort.{sort_by, sort_by-In}
use fleet_lambda_platform.Base.Tables.{insert_rows}
use fleet_lambda_platform.Streaming.Serving.{Staged, conflict_key_eq, CompletedTrip, Serving}
use fleet_lambda_platform.Streaming.Serving.Windows.{fit_columns}
use fleet_lambda_platform.Streaming.Serving.States.{have_status}
use fleet_lambda_platform.Streaming.Serving.Merge.{add_trip}
use fleet_lambda_platform.Streaming.Serving.Bulk.{
  changed_states, affected, event_le, fold_trips, trip_values, rejected, accepted, quarantine,
  serve, serve_accepted, serve_batch, bulk_serve,
}

-- Each entry is a row under its own trip.
abbrev IsOf : List Staged → Option String × Staged → Type 0
IsOf rows e = In e.1 rows × (e.0 ≡ e.1.item.trip_id)

fold_trips-AreOf :
    (rows all : List Staged) (trips : List (Option String × Staged))
    → ((s : Staged) → In s rows → In s all)
    → All (IsOf all) trips
    → All (IsOf all) (fold_trips rows trips)
unfolding fold_trips
fold_trips-AreOf [] all trips f h = h
fold_trips-AreOf (s ∷ rows) all trips f h =
    fold_trips-AreOf rows all _ (λ r m. f r (inr m)) (with_trip s.item.trip_completed)
  where
    with_trip :
        (done : Bool) → All (IsOf all) (if done then insert s.item.trip_id s trips else trips)
    with_trip true = All-insert (IsOf all) s.item.trip_id s trips (f s (inl refl), refl) h
    with_trip false = h

abbrev pub NamedIn : List Staged → String × CompletedTrip → Type 0
NamedIn rows t = (s : Staged) × In s rows × (s.item.trip_id ≡ some t.0)

trip_values-AreNamed :
    (rows : List Staged) (trips : List (Option String × Staged))
    (out : List (String × CompletedTrip))
    → All (IsOf rows) trips
    → trip_values trips ≡ ok out
    → All (NamedIn rows) out
unfolding trip_values
trip_values-AreNamed rows [] out h k = rw (← ok-injective k) tt
trip_values-AreNamed rows ((o, s) ∷ trips) out ((m, same), h) k =
    let (rest, before, added) = >>=-eq-ok (trip_values trips) (λ r. add_trip o s r) k in
    with_trip (Option-cases o) rest (trip_values-AreNamed rows trips rest h before) added
  where
    with_trip :
        (o ≡ none) ⊎ ((t : String) × (o ≡ some t))
        → (rest : List (String × CompletedTrip)) → All (NamedIn rows) rest
        → add_trip o s rest ≡ ok out
        → All (NamedIn rows) out
    with_trip (inl p) rest g added = cc (rw p at added)
    with_trip (inr (t, p)) rest g added =
        let here : add_trip (some t) s rest ≡ ok out = rw p at added in
        rw (← ok-injective here) ((s, m, sym same ∙ p), g)

pub serve_accepted-tables :
    (batch_id minutes : ℕ) (all rows : List Staged) (db d : Serving)
    → serve_accepted batch_id all minutes rows db ≡ ok d
    → (out : List (String × CompletedTrip)) × All (NamedIn rows) out
      × (d.conflicts ≡ db.conflicts)
      × (d.trips ≡ insert_rows out db.trips)
      × (d.metric_events ≡ db.metric_events)
unfolding serve_accepted serve insert_rows
serve_accepted-tables batch_id minutes all [] db d h =
    let same = sym (ok-injective h) in
    ([], tt, ap (λ x. x.conflicts) same, ap (λ x. x.trips) same, ap (λ x. x.metric_events) same)
serve_accepted-tables batch_id minutes all (s ∷ rows) db d h =
    let ordered = sort_by event_le (s ∷ rows) in
    let trips = fold_trips ordered [] in
    let (_, _, checked) =
      >>=-eq-ok (raise_if (not (have_status (changed_states (s ∷ rows) db))) operational_error)
        (λ _. trip_values trips >>= λ t. ok (serve batch_id all minutes (s ∷ rows) t db)) h in
    let (out, done, served) =
      >>=-eq-ok (trip_values trips) (λ t. ok (serve batch_id all minutes (s ∷ rows) t db))
        checked in
    let same = sym (ok-injective served) in
    (
      out,
      trip_values-AreNamed (s ∷ rows) trips out
          (fold_trips-AreOf ordered (s ∷ rows) [] (λ r m. sort_by-In event_le r (s ∷ rows) m) tt)
          done,
      ap (λ x. x.conflicts) same,
      ap (λ x. x.trips) same,
      ap (λ x. x.metric_events) same,
    )

-- A batch of at least one event that is served went through each of its stages.
pub bulk_serve-ok :
    (batch_id minutes n : ℕ) (s : Staged) (rows : List Staged) (db db' : Serving)
    → bulk_serve batch_id (s ∷ rows) minutes db ≡ ok (n, db')
    → serve_accepted batch_id
        (s ∷ rows)
        minutes
        (accepted batch_id (s ∷ rows) db)
        (quarantine batch_id (s ∷ rows) db)
      ≡ ok db'
unfolding bulk_serve serve_batch
bulk_serve-ok batch_id minutes n s rows db db' h =
    let all = s ∷ rows in
    let some_events : eqb (length all) 0 ≡ false = ground arith in
    let rest_of =
      serve_accepted batch_id all minutes (accepted batch_id all db) (quarantine batch_id all db) in
    let give : Serving → Result (ℕ × Serving) =
      λ served. ok (length (rejected batch_id all db), served) in
    let fits =
      raise_if
        (not (fit_columns (affected batch_id all db) (quarantine batch_id all db).metric_events))
        operational_error in
    let (_, _, checked) =
      >>=-eq-ok
        (raise_if (ltb 2500 (length all)) (value_error "Serving batch exceeds bounded driver cap"))
        (λ _. fits >>= λ _. rest_of >>= give) (rw some_events at h) in
    let (_, _, rest) = >>=-eq-ok fits (λ _. rest_of >>= give) checked in
    let (served, done, same) = >>=-eq-ok rest_of give rest in
    done ∙ ap ok (ap (λ d. d.1) (ok-injective same))
