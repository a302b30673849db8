-- ===== src/Streaming/Serving/Merge/Accounted.antt =====
-- What `merge_staged` of streaming/staged_sink.py leaves of each staged row, and of what it knew.
use fleet_lambda_platform.Base.{
  ℕ, String, Bool, true, false, not, none, some, List, map, keep, In, In-keep, In-map, map-In,
  In-elem, elem, ◌≡◌, ◌⊎◌, refl, ◌∙◌, subst, inl, inr, arith, Bool-cases, Option-cases, string_eq,
  ◌==◌, eq_self,
}
use fleet_lambda_platform.Base.Dict.{lookup, contains-none}
use fleet_lambda_platform.Base.Tables.{
  insert_rows, insert_rows_kept, insert_rows_there, lookup-insert_rows, In-distinct, In-distinct_on,
  count_distinct-eq,
}
use fleet_lambda_platform.Base.Sort.{In-sort_by}
use fleet_lambda_platform.Base.Result.{ok}
use fleet_lambda_platform.Streaming.Serving.{
  Staged, EventKey, Serving, Conflict, ConflictKey, staged_conflict, conflict_key_eq,
}
use fleet_lambda_platform.Streaming.Serving.Conflicts.{
  of_run, of_event, has_copies, contradicts_key, is_conflict, conflict_ids, is_rejected,
  conflicting_keys, staged_conflicts, prior_events, prior_trips,
}
use fleet_lambda_platform.Streaming.Serving.Merge.{
  add_conflicts, is_accepted, accepted_rows, staged_le, new_keys, merge_staged, commit, is_stale,
}
use fleet_lambda_platform.Streaming.Serving.Merge.Outcome.{
  ids, bad, accepted, accepted-In, merge_rows-ok,
}

-- the row of stream_conflicts that a rejected row becomes
abbrev pub conflict_key : ℕ → Staged → ConflictKey
conflict_key batch_id s = record {
  batch_id = batch_id;
  event_id = s.item.event_id;
  reason = staged_conflict s.item.partition s.item.offset;
}

-- The event is known with the row's fingerprint.
abbrev pub IsServed : Serving → Staged → Type 0
IsServed db s =
    (k : EventKey) × (lookup s.item.event_id db.event_keys ≡ some k)
    × (k.fingerprint ≡ s.fingerprint)

-- The row is recorded as a conflict of its batch.
abbrev pub IsRefused : ℕ → Serving → Staged → Type 0
IsRefused batch_id db s = (c : Conflict) × (lookup (conflict_key batch_id s) db.conflicts ≡ some c)

module _ (rows : List Staged) (db : Serving) (batch_id : ℕ) (key : ConflictKey) (c : Conflict) where
  -- The rows for prior events and prior trips replace no row.
  later_conflicts :
      lookup key (
          insert_rows
            (staged_conflicts batch_id (keep (is_rejected (ids rows db) (bad rows db)) rows))
            db.conflicts)
        ≡ some c
      → lookup key (add_conflicts batch_id (ids rows db) (bad rows db) rows db) ≡ some c
  unfolding add_conflicts
  later_conflicts h =
      let first =
        insert_rows
          (staged_conflicts batch_id (keep (is_rejected (ids rows db) (bad rows db)) rows))
          db.conflicts in
      let events = prior_events batch_id (conflicting_keys rows db (ids rows db)) in
      let trips = prior_trips batch_id (keep (λ t. elem t.0 (bad rows db)) db.trips) in
      insert_rows_kept key c trips (insert_rows events first)
        (insert_rows_kept key c events first h)

  known_conflicts :
      lookup key db.conflicts ≡ some c
      → lookup key (add_conflicts batch_id (ids rows db) (bad rows db) rows db) ≡ some c
  known_conflicts h = later_conflicts (
      insert_rows_kept key c
        (staged_conflicts batch_id (keep (is_rejected (ids rows db) (bad rows db)) rows))
        db.conflicts h)

module _ (rows : List Staged) (db : Serving) (s : Staged) (staged : In s rows) where
  -- A row whose event is not selected passes the three queries.
  not-is_conflict : elem s.item.event_id (ids rows db) ≡ false → is_conflict rows db s ≡ false
  unfolding conflict_ids
  not-is_conflict h = elim (Bool-cases (is_conflict rows db s)) [
    | inr q ↦ q
    | inl p ↦
        let chosen = In-keep (is_conflict rows db) s rows staged p in
        let named =
          In-map (λ (r : Staged). r.item.event_id) s (keep (is_conflict rows db) rows) chosen in
        cc (
          h,
          In-elem s.item.event_id (ids rows db) (
              In-distinct s.item.event_id
                (map (λ (r : Staged). r.item.event_id) (keep (is_conflict rows db) rows)) named),
        )
  ]

  -- Without copies that differ, the rows of the event have one fingerprint.
  same_fingerprint :
      (a : Staged)
      → has_copies rows db s ≡ false
      → In a rows
      → a.item.event_id ≡ s.item.event_id
      → a.fingerprint ≡ s.fingerprint
  unfolding has_copies
  same_fingerprint a h i same =
      let copies = of_event s.item.event_id rows in
      let print : Staged → String = λ r. r.fingerprint in
      let mine =
        In-keep (λ (r : Staged). r.item.event_id == s.item.event_id) s rows staged
          (eq_self s.item.event_id) in
      let other =
        In-keep (λ (r : Staged). r.item.event_id == s.item.event_id) a rows i
          (rw same (eq_self s.item.event_id)) in
      count_distinct-eq a.fingerprint s.fingerprint (map print copies) h
        (In-map print a copies other) (In-map print s copies mine)

  served_known :
      (k : EventKey)
      → lookup s.item.event_id db.event_keys ≡ some k
      → contradicts_key rows db s ≡ false
      → k.fingerprint ≡ s.fingerprint
  unfolding contradicts_key
  served_known k at h = ground (arith, string_eq.beq_iff s.fingerprint k.fingerprint, rw at at h)

  module _ (batch_id : ℕ) where
    abbrev keys_after : List (String × EventKey)
    keys_after = insert_rows (new_keys batch_id (accepted rows db)) db.event_keys

    accepted_there :
        is_accepted (ids rows db) (bad rows db) db.event_keys s ≡ true
        → (a : Staged) × In a (accepted rows db) × (a.item.event_id ≡ s.item.event_id)
    unfolding accepted_rows
    accepted_there h =
        let test = is_accepted (ids rows db) (bad rows db) db.event_keys in
        In-distinct_on (λ (r : Staged). r.item.event_id) s _
          (In-sort_by staged_le s (keep test rows) (In-keep test s rows staged h))

    served_new :
        is_accepted (ids rows db) (bad rows db) db.event_keys s ≡ true
        → lookup s.item.event_id db.event_keys ≡ none
        → has_copies rows db s ≡ false
        → (k : EventKey) × (lookup s.item.event_id keys_after ≡ some k)
          × (k.fingerprint ≡ s.fingerprint)
    served_new h absent single =
        let (a, m, same) = accepted_there h in
        let entry = In-map _ a (accepted rows db) m in
        let (k, at) =
          insert_rows_there a.item.event_id _ (new_keys batch_id (accepted rows db)) db.event_keys
            entry in
        let found : lookup s.item.event_id keys_after ≡ some k = rw (← same) at in
        elim (lookup-insert_rows s.item.event_id k (new_keys batch_id (accepted rows db))
          db.event_keys found) [
            | inl before ↦ cc (absent, before)
            | inr new ↦
                let (b, i, eq) = map-In _ (s.item.event_id, k) (accepted rows db) new in
                let id_same : b.item.event_id ≡ s.item.event_id = cc (eq) in
                let print_same : k.fingerprint ≡ b.fingerprint = cc (eq) in
                (
                  k,
                  found,
                  print_same ∙ same_fingerprint b single (accepted-In rows db b i).0 id_same,
                )
          ]

    refused :
        is_rejected (ids rows db) (bad rows db) s ≡ true
        → (c : Conflict) × (lookup
              (conflict_key batch_id s)
              (add_conflicts batch_id (ids rows db) (bad rows db) rows db)
            ≡ some c)
    refused h =
        let rejected = keep (is_rejected (ids rows db) (bad rows db)) rows in
        let chosen = In-keep (is_rejected (ids rows db) (bad rows db)) s rows staged h in
        let (c, at) =
          insert_rows_there (conflict_key batch_id s) _ (staged_conflicts batch_id rejected)
            db.conflicts (In-map _ s rejected chosen) in
        (c, later_conflicts rows db batch_id (conflict_key batch_id s) c at)

    served :
        is_rejected (ids rows db) (bad rows db) s ≡ false
        → (k : EventKey) × (lookup s.item.event_id keys_after ≡ some k)
          × (k.fingerprint ≡ s.fingerprint)
    served h =
        let clear = not-is_conflict (ground arith) in
        elim (Option-cases (lookup s.item.event_id db.event_keys)) [
          | inr (k, at) ↦ (
            k,
            insert_rows_kept s.item.event_id k (new_keys batch_id (accepted rows db)) db.event_keys
                at,
            served_known k at (ground arith),
          )
          | inl absent ↦
              served_new (rw (h, contains-none s.item.event_id db.event_keys absent) refl) absent
                (ground arith)
        ]

-- After a merge that commits, each row that the run had staged and that was not older than a day is
-- accounted for: either stream_event_keys has its event with its fingerprint, or stream_conflicts
-- has a row for its event, partition and offset in this batch.
pub merge_staged-IsAccounted :
    (after : String → String → Bool) (minutes batch_id now n : ℕ) (run_id : String)
    (db db' : Serving) (s : Staged)
    → In s db.stage
    → is_stale now s ≡ false
    → s.run_id ≡ run_id
    → merge_staged after minutes run_id batch_id now db ≡ ok (n, db')
    → IsServed db' s ⊎ IsRefused batch_id db' s
unfolding merge_staged commit
merge_staged-IsAccounted after minutes batch_id now n run_id db db' s m fresh mine h =
    let stage = keep (λ r. not (is_stale now r)) db.stage in
    let rows = of_run run_id stage in
    let (completed, done, same) =
      merge_rows-ok rows db after minutes run_id batch_id n stage db' h in
    let kept = In-keep (λ r. not (is_stale now r)) s db.stage m (rw fresh) in
    let staged = In-keep (λ r. r.run_id == run_id) s stage kept (rw mine (eq_self run_id)) in
    subst (λ d. IsServed d s ⊎ IsRefused batch_id d s) same
      (elim (Bool-cases (is_rejected (ids rows db) (bad rows db) s)) [
        | inl p ↦ inr (refused rows db s staged batch_id p)
        | inr q ↦ inl (served rows db s staged batch_id q)
      ])

-- A merge that commits forgets nothing: every event of stream_event_keys and every row of
-- stream_conflicts is afterwards what it was before.
pub merge_staged-KeepsHistory :
    (after : String → String → Bool) (minutes batch_id now n : ℕ) (run_id : String)
    (db db' : Serving)
    → merge_staged after minutes run_id batch_id now db ≡ ok (n, db')
    → ((id : String) (k : EventKey)
        → lookup id db.event_keys ≡ some k
        → lookup id db'.event_keys ≡ some k)
      × ((key : ConflictKey) (c : Conflict)
          → lookup key db.conflicts ≡ some c
          → lookup key db'.conflicts ≡ some c)
unfolding merge_staged commit
merge_staged-KeepsHistory after minutes batch_id now n run_id db db' h =
    let stage = keep (λ r. not (is_stale now r)) db.stage in
    let rows = of_run run_id stage in
    let (completed, done, same) =
      merge_rows-ok rows db after minutes run_id batch_id n stage db' h in
    (
      λ id k at.
          subst (λ d. lookup id d.event_keys ≡ some k) same
            (insert_rows_kept id k (new_keys batch_id (accepted rows db)) db.event_keys at),
      λ key c at.
          subst (λ d. lookup key d.conflicts ≡ some c) same
            (known_conflicts rows db batch_id key c at),
    )
