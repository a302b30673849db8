-- ===== src/Streaming/Serving/Bulk/SameServed.antt =====
-- The events that `bulk_serve` of streaming/sink.py serves and those that `merge_staged` of
-- streaming/staged_sink.py serves.
use fleet_lambda_platform.Base.{
  ℕ, ◌≤◌, String, Bool, false, not, ◌&&◌, List, keep, elem, length, append-In_left, In, All-In,
  In-keep, keep-In, In-elem, ◌≡◌, refl, sym, ap, ◌∙◌, subst, inl, inr, Bool-cases, string_eq, arith,
}
use fleet_lambda_platform.Base.Dict.{contains, NodupKeys}
use fleet_lambda_platform.Base.Result.{ok}
use fleet_lambda_platform.Base.Sort.{In-sort_by}
use fleet_lambda_platform.Base.Tables.{count_distinct-eq, distinct_on-In, In-distinct_on}
use fleet_lambda_platform.Streaming.Serving.{Staged, Serving}
use fleet_lambda_platform.Streaming.Serving.Conflicts.{of_run}
use fleet_lambda_platform.Streaming.Serving.Merge.{
  merge_staged, is_stale, is_accepted, accepted_rows, staged_le, commit,
}
use fleet_lambda_platform.Streaming.Serving.Merge.Outcome as Outcome
use fleet_lambda_platform.Streaming.Serving.Verdict.{
  ids, is_refused, first_copies, conflicting_ids, has_two_prints,
}
use fleet_lambda_platform.Streaming.Serving.Bulk.{accepted, bulk_serve}
use fleet_lambda_platform.Streaming.Serving.Bulk.SameIds.{
  same_test, In-ids, all_prints, own_print_there,
}
use fleet_lambda_platform.Streaming.Serving.Merge.Storable.{IsServable}
use fleet_lambda_platform.Streaming.Serving.Bulk.Commits.{bulk_serve-Commits}
use fleet_lambda_platform.Streaming.Serving.Bulk.Keys.{more_keys, bulk_serve-keys}
use fleet_lambda_platform.Streaming.Serving.Bulk.SameVerdict.{IsBatch, is_refused-is_rejected}

module _ (batch_id : ℕ) (rows : List Staged) (db : Serving) where
  abbrev merge_ids : List String
  merge_ids = Outcome.ids rows db

  abbrev merge_bad : List String
  merge_bad = Outcome.bad rows db

  accepted-is_refused :
      (s : Staged)
      → In s (accepted batch_id rows db)
      → In s rows
        × (is_refused rows db s ≡ false)
        × (contains s.item.event_id db.event_keys ≡ false)
  unfolding accepted
  accepted-is_refused s m =
      let (i, p) =
        keep-In
          (λ (r : Staged).
            not (is_refused rows db r) && not (contains r.item.event_id db.event_keys))
          s (first_copies rows db) m in
      (distinct_on-In (λ (r : Staged). r.item.event_id) s rows i, ground arith, ground arith)

  -- Copies of an event that is not in conflict have one digest.
  pub one_digest :
      (s r : Staged)
      → In s rows
      → In r rows
      → r.item.event_id ≡ s.item.event_id
      → elem s.item.event_id (conflicting_ids rows db) ≡ false
      → r.fingerprint ≡ s.fingerprint
  unfolding conflicting_ids has_two_prints
  one_digest s r m n same calm = elim (Bool-cases (has_two_prints rows db s.item.event_id)) [
    | inl two ↦
        let hit = In-elem s.item.event_id (conflicting_ids rows db) (
          append-In_left s.item.event_id (keep (has_two_prints rows db) (ids rows db)) _ (
            In-keep (has_two_prints rows db) s.item.event_id (ids rows db) (In-ids s rows db m)
              two)) in
        cc (hit, calm)
    | inr one ↦
        count_distinct-eq r.fingerprint s.fingerprint (all_prints rows db s.item.event_id) one
          (subst (λ id. In r.fingerprint (all_prints rows db id)) same
            (own_print_there rows db r n))
          (own_print_there rows db s m)
  ]

  module _ (primary : NodupKeys db.trips) (batch : IsBatch rows) where
    bulk-merge :
        (s : Staged)
        → In s (accepted batch_id rows db)
        → (r : Staged) × In r (Outcome.accepted rows db) × (r.item.event_id ≡ s.item.event_id)
    unfolding accepted_rows
    bulk-merge s m =
        let (i, fine, new) = accepted-is_refused s m in
        let good = sym (is_refused-is_rejected rows db primary batch s i) ∙ fine in
        let kept =
          In-keep (is_accepted merge_ids merge_bad db.event_keys) s rows i (rw (good, new) refl) in
        In-distinct_on (λ (r : Staged). r.item.event_id) s _
          (In-sort_by staged_le s (keep (is_accepted merge_ids merge_bad db.event_keys) rows) kept)

    merge-bulk :
        (s : Staged)
        → In s (Outcome.accepted rows db)
        → (r : Staged) × In r (accepted batch_id rows db) × (r.item.event_id ≡ s.item.event_id)
    unfolding accepted is_refused
    merge-bulk s m =
        let (i, p) = Outcome.accepted-In rows db s m in
        let fine : is_refused rows db s ≡ false =
          is_refused-is_rejected rows db primary batch s i ∙ ground arith in
        let new : contains s.item.event_id db.event_keys ≡ false = ground arith in
        let (r, j, same) = In-distinct_on (λ (r : Staged). r.item.event_id) s rows i in
        let k = distinct_on-In (λ (r : Staged). r.item.event_id) r rows j in
        let calm : elem s.item.event_id (conflicting_ids rows db) ≡ false = ground arith in
        let trip = batch.one_trip r s k i same (one_digest s r i k same calm) in
        let fine_r : is_refused rows db r ≡ false = rw (same, trip) fine in
        let new_r : contains r.item.event_id db.event_keys ≡ false = rw same new in
        (
          r,
          In-keep
              (λ (u : Staged).
                not (is_refused rows db u) && not (contains u.item.event_id db.event_keys))
              r (first_copies rows db) j (rw (fine_r, new_r) refl),
          same,
        )

same_keys :
    (after : String → String → Bool) (minutes batch_id now n m : ℕ) (run_id id : String)
    (db bulk merged : Serving)
    → NodupKeys db.trips
    → IsBatch (of_run run_id (keep (λ s. not (is_stale now s)) db.stage))
    → bulk_serve batch_id (of_run run_id (keep (λ s. not (is_stale now s)) db.stage)) minutes db
      ≡ ok (n, bulk)
    → merge_staged after minutes run_id batch_id now db ≡ ok (m, merged)
    → contains id bulk.event_keys ≡ contains id merged.event_keys
unfolding merge_staged commit
same_keys after minutes batch_id now n m run_id id db bulk merged primary batch h k =
    let stage = keep (λ s. not (is_stale now s)) db.stage in
    let rows = of_run run_id stage in
    let (completed, done, same) =
      Outcome.merge_rows-ok rows db after minutes run_id batch_id m stage merged k in
    let in_bulk = bulk_serve-keys batch_id minutes n rows db bulk h in
    let in_merged = ap (λ d. d.event_keys) (sym same) in
    rw (in_bulk, in_merged)
      (same_test _ _
        (more_keys batch_id batch_id id (accepted batch_id rows db) (Outcome.accepted rows db)
          db.event_keys (bulk-merge batch_id rows db primary batch))
        (more_keys batch_id batch_id id (Outcome.accepted rows db) (accepted batch_id rows db)
          db.event_keys (merge-bulk batch_id rows db primary batch)))

-- Where trip ids are unique in completed_trips, let a staged run have at most 2500 rows that are not
-- stale, of which the completed ones name their trips, none has an empty trip id, and copies of an
-- event with one digest have one trip. Let the status of each be "idle", "enroute" or "on_trip", and let
-- them and the metric events together be fewer than 2 ^ 31, with fares that add up to less than 2 ^ 63.
-- Then `bulk_serve`, given these rows, and `merge_staged` of the run both commit, and afterwards
-- stream_event_keys has the same events.
pub bulk_serve-SameKeys :
    (after : String → String → Bool) (minutes batch_id now : ℕ) (run_id : String) (db : Serving)
    → NodupKeys db.trips
    → IsBatch (of_run run_id (keep (λ s. not (is_stale now s)) db.stage))
    → length (of_run run_id (keep (λ s. not (is_stale now s)) db.stage)) ≤ 2500
    → IsServable (of_run run_id (keep (λ s. not (is_stale now s)) db.stage)) db
    → (n : ℕ) × (bulk : Serving) × (m : ℕ) × (merged : Serving) × (bulk_serve batch_id
          (of_run run_id (keep (λ s. not (is_stale now s)) db.stage))
          minutes
          db
        ≡ ok (n, bulk))
      × (merge_staged after minutes run_id batch_id now db ≡ ok (m, merged))
      × ((id : String) → contains id bulk.event_keys ≡ contains id merged.event_keys)
unfolding merge_staged
bulk_serve-SameKeys after minutes batch_id now run_id db primary batch small can =
    let stage = keep (λ s. not (is_stale now s)) db.stage in
    let rows = of_run run_id stage in
    let (n, bulk, done) =
      bulk_serve-Commits batch_id minutes rows db small batch.completed_named can in
    let (m, merged, ended, _) =
      Outcome.merge_rows-Commits after minutes run_id batch_id stage rows db
        (λ s i. All-In Outcome.NamesTrip s rows batch.completed_named i) can in
    (
      n,
      bulk,
      m,
      merged,
      done,
      ended,
      λ id.
          same_keys after minutes batch_id now n m run_id id db bulk merged primary batch done
            ended,
    )
