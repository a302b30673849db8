-- ===== src/Streaming/Serving/Bulk/Keys.antt =====
-- The keys that stream_event_keys has after `bulk_serve` of streaming/sink.py.
use fleet_lambda_platform.Base.{
  ℕ, String, true, not, List, [], ◌∷◌, In, In-map, map-In, ◌≡◌, refl, sym, ap, ◌∙◌, subst, inl, inr,
  ◌⊎◌, Option-cases, string_eq,
}
use fleet_lambda_platform.Base.Dict.{lookup, contains, contains-none}
use fleet_lambda_platform.Base.Result.{
  ok, raise_if, operational_error, ◌>>=◌, >>=-eq-ok, ok-injective,
}
use fleet_lambda_platform.Base.Sort.{sort_by}
use fleet_lambda_platform.Base.Tables.{
  distinct_on, insert_rows, insert_rows_kept, insert_rows_there, lookup-insert_rows,
}
use fleet_lambda_platform.Streaming.Serving.{Staged, EventKey, Serving}
use fleet_lambda_platform.Streaming.Serving.Merge.{new_keys}
use fleet_lambda_platform.Streaming.Serving.States.{have_status}
use fleet_lambda_platform.Streaming.Serving.Bulk.Stored.{bulk_serve-ok}
use fleet_lambda_platform.Streaming.Serving.Bulk.{
  changed_states, event_le, fold_trips, trip_values, accepted, quarantine, serve, serve_accepted,
  bulk_serve,
}

-- An event has a key after the insertion when it had one or is inserted.
contains-new_keys :
    (batch_id : ℕ) (id : String) (rows : List Staged) (keys : List (String × EventKey))
    → contains id (insert_rows (new_keys batch_id rows) keys) ≡ true
    → (contains id keys ≡ true) ⊎ ((s : Staged) × In s rows × (s.item.event_id ≡ id))
contains-new_keys batch_id id rows keys h =
    let after = insert_rows (new_keys batch_id rows) keys in
    elim (Option-cases (lookup id after)) [
      | inl p ↦ cc (h, contains-none id after p)
      | inr (k, p) ↦ elim (lookup-insert_rows id k (new_keys batch_id rows) keys p) [
        | inl before ↦ inl (rw (before, contains) refl)
        | inr new ↦ inr (named k new)
      ]
    ]
  where
    named :
        (k : EventKey)
        → In (id, k) (new_keys batch_id rows)
        → (s : Staged) × In s rows × (s.item.event_id ≡ id)
    named k m = let (s, i, same) = map-In _ _ rows m in (s, i, sym (ap (λ e. e.0) same))

new_keys-contains :
    (batch_id : ℕ) (rows : List Staged) (keys : List (String × EventKey)) (s : Staged)
    → In s rows
    → contains s.item.event_id (insert_rows (new_keys batch_id rows) keys) ≡ true
new_keys-contains batch_id rows keys s m =
    let (u, there) =
      insert_rows_there s.item.event_id _ (new_keys batch_id rows) keys (In-map _ s rows m) in
    rw (there, contains) refl

kept-contains :
    (batch_id : ℕ) (id : String) (rows : List Staged) (keys : List (String × EventKey))
    → contains id keys ≡ true
    → contains id (insert_rows (new_keys batch_id rows) keys) ≡ true
kept-contains batch_id id rows keys h = elim (Option-cases (lookup id keys)) [
  | inl p ↦ cc (h, contains-none id keys p)
  | inr (k, p) ↦ rw (insert_rows_kept id k (new_keys batch_id rows) keys p, contains) refl
]

-- When each row of the one list has a row of the same event in the other, so have the keys.
pub more_keys :
    (b c : ℕ) (id : String) (rows others : List Staged) (keys : List (String × EventKey))
    → ((s : Staged) → In s rows → (r : Staged) × In r others × (r.item.event_id ≡ s.item.event_id))
    → contains id (insert_rows (new_keys b rows) keys) ≡ true
    → contains id (insert_rows (new_keys c others) keys) ≡ true
more_keys b c id rows others keys f h = elim (contains-new_keys b id rows keys h) [
  | inl before ↦ kept-contains c id others keys before
  | inr (s, m, same) ↦
      let (r, i, equal) = f s m in
      subst (λ j. contains j (insert_rows (new_keys c others) keys) ≡ true) (equal ∙ same)
        (new_keys-contains c others keys r i)
]

serve_accepted-keys :
    (batch_id minutes : ℕ) (events rows : List Staged) (db db' : Serving)
    → serve_accepted batch_id events minutes rows db ≡ ok db'
    → db'.event_keys ≡ insert_rows (new_keys batch_id rows) db.event_keys
unfolding serve_accepted serve insert_rows
serve_accepted-keys batch_id minutes events [] db db' h =
    ap (λ d. d.event_keys) (sym (ok-injective h))
serve_accepted-keys batch_id minutes events (s ∷ rows) db db' h =
    let trips = trip_values (fold_trips (sort_by event_le (s ∷ rows)) []) in
    let (_, _, checked) =
      >>=-eq-ok (raise_if (not (have_status (changed_states (s ∷ rows) db))) operational_error)
        (λ _. trips >>= λ t. ok (serve batch_id events minutes (s ∷ rows) t db)) h in
    let (_, _, same) =
      >>=-eq-ok trips (λ t. ok (serve batch_id events minutes (s ∷ rows) t db)) checked in
    ap (λ d. d.event_keys) (sym (ok-injective same))

pub bulk_serve-keys :
    (batch_id minutes n : ℕ) (rows : List Staged) (db db' : Serving)
    → bulk_serve batch_id rows minutes db ≡ ok (n, db')
    → db'.event_keys ≡ insert_rows (new_keys batch_id (accepted batch_id rows db)) db.event_keys
unfolding bulk_serve quarantine accepted insert_rows distinct_on
bulk_serve-keys batch_id minutes n [] db db' h = ap (λ d. d.1.event_keys) (sym (ok-injective h))
bulk_serve-keys batch_id minutes n (s ∷ rows) db db' h =
    let events = s ∷ rows in
    serve_accepted-keys batch_id minutes events (accepted batch_id events db)
      (quarantine batch_id events db) db' (bulk_serve-ok batch_id minutes n s rows db db' h)
