-- ===== src/Streaming/Serving/Bulk/Rejections.antt =====
-- The trips that `bulk_serve` of streaming/sink.py puts into stream_conflicts are bad.
use fleet_lambda_platform.Base.{
  ℕ, ◌+◌, String, Bool, true, false, some, List, [], ◌∷◌, map, keep, elem, concat, concat-In, In,
  All-of_In, map-In, keep-In, In-append, present-In, In-elem, elem-In, ◌≡◌, ◌≢◌, refl, sym, ap, ◌∙◌,
  subst, inl, inr, Bool-cases, and_right, ◌==◌, string_eq, option_eq, nat_eq,
}
use fleet_lambda_platform.Base.Tables.{distinct_on-In}
use fleet_lambda_platform.Streaming.Serving.{
  Staged, Conflict, ConflictKey, conflict_key_eq, CompletedTrip, Serving,
}
use fleet_lambda_platform.Streaming.Serving.Conflicts.{of_event, prior_events, prior_trips}
use fleet_lambda_platform.Streaming.Serving.Merge.Quarantine.{Unnamed}
use fleet_lambda_platform.Streaming.Serving.Verdict.{
  prior_keys, conflicting_ids, bad_trip_ids, is_refused, first_copies,
}
use fleet_lambda_platform.Streaming.Serving.Bulk.{
  copy_conflicts, conflicts_of_event, bad_names, rejected,
}
use fleet_lambda_platform.Streaming.Serving.Bulk.Blame.{
  IsBad, conflicting_row-IsBad, conflicting_key-IsBad,
}
use fleet_lambda_platform.Streaming.Serving.Bulk.SameServed.{one_digest}
use fleet_lambda_platform.Streaming.Serving.Bulk.SameVerdict.{IsBatch}

module _ (rows : List Staged) (db : Serving) where
  -- A copy of an event that is refused is of a bad trip.
  refused-IsBad :
      (t : String) (s r : Staged)
      → IsBatch rows
      → t ≢ ""
      → In s rows
      → In r rows
      → r.item.event_id ≡ s.item.event_id
      → is_refused rows db s ≡ true
      → r.item.trip_id ≡ some t
      → IsBad rows db t
  unfolding is_refused
  refused-IsBad t s r batch ne m n same h named_t =
      elim (Bool-cases (elem s.item.event_id (conflicting_ids rows db))) [
        | inl p ↦ conflicting_row-IsBad rows db t r ne n named_t (rw same p)
        | inr q ↦
            let trip = batch.one_trip r s n m same (one_digest 0 rows db s r m n same q) in
            let hit = rw q at h in
            subst (λ o. elem o (bad_trip_ids rows db) ≡ true) (sym trip ∙ named_t) hit
      ]

  module _ (batch_id : ℕ) (batch : IsBatch rows) (t : String) (ne : t ≢ "")
      (good : elem (some t) (bad_trip_ids rows db) ≡ false) where
    pub not-IsBad : IsBad rows db t → ⊥
    not-IsBad h = cc (h, good)

    copy-trip :
        (c : ConflictKey × Conflict) (n : ℕ) (copies : List Staged)
        → In c (copy_conflicts batch_id n copies)
        → (r : Staged) × In r copies × (c.1.payload.trip_id ≡ r.item.trip_id)
    unfolding copy_conflicts
    copy-trip c n [] m = absurd m
    copy-trip c n (s ∷ copies) (inl same) = (s, inl refl, ap (λ d. d.1.payload.trip_id) same)
    copy-trip c n (s ∷ copies) (inr m) =
        let (r, i, same) = copy-trip c (n + 1) copies m in (r, inr i, same)

    -- no row of the first two kinds names the trip
    key-other :
        (c : ConflictKey × Conflict)
        → In c (
            prior_events batch_id
              (keep (λ k. elem k.0 (conflicting_ids rows db)) (prior_keys rows db)))
        → c.1.payload.trip_id ≢ some t
    key-other c m named_t =
        let (k, i, same) = map-In _ c _ m in
        not-IsBad (
          conflicting_key-IsBad rows db t k ne i
            (sym (ap (λ d. d.1.payload.trip_id) same) ∙ named_t))

    copy-other :
        (c : ConflictKey × Conflict)
        → In c (concat (map (conflicts_of_event batch_id rows db) (first_copies rows db)))
        → c.1.payload.trip_id ≢ some t
    copy-other c m named_t =
        let (cs, i, j) =
          concat-In c (map (conflicts_of_event batch_id rows db) (first_copies rows db)) m in
        let (s, k, same) =
          map-In (conflicts_of_event batch_id rows db) cs (first_copies rows db) i in
        let l = distinct_on-In (λ (r : Staged). r.item.event_id) s rows k in
        elim (Bool-cases (is_refused rows db s)) [
          | inr q ↦ absurd (rw (same, q) at j)
          | inl p ↦
              let here : In c (copy_conflicts batch_id 0 (of_event s.item.event_id rows)) =
                rw (same, p) at j in
              let (r, n, trip) = copy-trip c 0 (of_event s.item.event_id rows) here in
              let (o, id) = keep-In (λ (u : Staged). u.item.event_id == s.item.event_id) r rows n in
              not-IsBad (
                refused-IsBad t s r batch ne l o
                  ((string_eq.beq_iff r.item.event_id s.item.event_id).0 id) p (sym trip ∙ named_t))
        ]

    trip-other :
        (c : ConflictKey × Conflict) (kept : String × CompletedTrip → Bool)
        → ((u : String × CompletedTrip)
            → kept u ≡ true
            → elem u.0 (bad_names batch_id rows db) ≡ true)
        → In c (prior_trips batch_id (keep kept db.trips))
        → c.1.payload.trip_id ≢ some t
    trip-other c kept only m named_t =
        let (u, i, same) = map-In _ c (keep kept db.trips) m in
        let (_, p) = keep-In kept u db.trips i in
        let is_t : some u.0 ≡ some t = sym (ap (λ d. d.1.payload.trip_id) same) ∙ named_t in
        let bad_u =
          present-In u.0 (bad_trip_ids rows db)
            (elem-In u.0 (bad_names batch_id rows db) (only u p)) in
        not-IsBad (
          subst (λ o. elem o (bad_trip_ids rows db) ≡ true) is_t
            (In-elem (some u.0) (bad_trip_ids rows db) bad_u))

    -- A trip that is not bad is named by no row that is stored.
    pub rejected-Unnamed : Unnamed (rejected batch_id rows db) t
    unfolding rejected
    rejected-Unnamed = All-of_In _ (rejected batch_id rows db) (λ c m.
        elim (In-append c
          (prior_events batch_id
            (keep (λ k. elem k.0 (conflicting_ids rows db)) (prior_keys rows db)))
          _ m) [
            | inl key ↦ key-other c key
            | inr rest ↦
                elim (In-append c
                  (concat (map (conflicts_of_event batch_id rows db) (first_copies rows db))) _
                  rest) [
                    | inl copy ↦ copy-other c copy
                    | inr trip ↦ trip-other c _ (λ u p. and_right _ _ p) trip
                  ]
          ])
