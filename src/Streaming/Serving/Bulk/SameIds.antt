-- ===== src/Streaming/Serving/Bulk/SameIds.antt =====
-- The conflicting events of `bulk_serve` of streaming/sink.py and those of `merge_staged` of
-- streaming/staged_sink.py, for the same events.
use fleet_lambda_platform.Base.{
  not-false→true, String, Bool, true, false, ◌||◌, List, ◌++◌, map, keep, elem, In, All-of_In,
  In-map, map-In, In-keep, keep-In, In-append, append-In_left, append-In_right, any-In, In-any,
  elem-In, In-elem, ◌≡◌, refl, sym, ap, ◌∙◌, subst, inl, inr, Bool-cases, Option-cases, eq_self,
  ◌==◌, string_eq, nat_eq, arith,
}
use fleet_lambda_platform.Base.Dict.{lookup}
use fleet_lambda_platform.Base.Tables.{
  distinct, In-distinct, distinct-In, count_distinct-eq, count_distinct_same,
}
use fleet_lambda_platform.Streaming.Serving.{
  Staged, Conflict, ConflictKey, conflict_key_eq, Serving,
}
use fleet_lambda_platform.Streaming.Serving.Conflicts.{
  of_event, has_copies, contradicts_key, is_quarantined, is_conflict, conflict_ids, trip_in,
}
use fleet_lambda_platform.Streaming.Serving.Verdict.{
  ids, trip_ids, known_print, blocked, has_two_prints, conflicting_ids,
}

-- Two tests that imply each other are the same.
pub same_test : (a b : Bool) → (a ≡ true → b ≡ true) → (b ≡ true → a ≡ true) → a ≡ b
same_test true b f g = sym (f refl)
same_test false true f g = g refl
same_test false false f g = refl

pub In-ids :
    (s : Staged) (rows : List Staged) (db : Serving) → In s rows → In s.item.event_id (ids rows db)
unfolding ids
In-ids s rows db m =
    In-distinct s.item.event_id (map (λ r. r.item.event_id) rows)
      (In-map (λ (r : Staged). r.item.event_id) s rows m)

pub ids-In :
    (id : String) (rows : List Staged) (db : Serving)
    → In id (ids rows db)
    → (s : Staged) × In s rows × (id ≡ s.item.event_id)
unfolding ids
ids-In id rows db m =
    map-In (λ (r : Staged). r.item.event_id) id rows
      (distinct-In id (map (λ r. r.item.event_id) rows) m)

module _ (rows : List Staged) (db : Serving) where
  abbrev pub prints : String → List String
  prints id = map (λ r. r.fingerprint) (of_event id rows)

  abbrev pub all_prints : String → List String
  all_prints id = prints id ++ known_print (lookup id db.event_keys)

  module _ (s : Staged) (m : In s rows) where
    own_print : In s.fingerprint (prints s.item.event_id)
    own_print =
        In-map (λ (r : Staged). r.fingerprint) s (of_event s.item.event_id rows)
          (In-keep (λ (r : Staged). r.item.event_id == s.item.event_id) s rows m
            (eq_self s.item.event_id))

    pub own_print_there : In s.fingerprint (all_prints s.item.event_id)
    own_print_there =
        append-In_left s.fingerprint (prints s.item.event_id)
          (known_print (lookup s.item.event_id db.event_keys)) own_print

    -- Without a second digest, no copy and no key differs.
    one_print :
        has_two_prints rows db s.item.event_id ≡ false
        → (has_copies rows db s ≡ false) × (contradicts_key rows db s ≡ false)
    unfolding has_two_prints has_copies contradicts_key
    one_print h =
        let id = s.item.event_id in
        let all_same : (x : String) → In x (all_prints id) → x ≡ s.fingerprint =
          λ x i. count_distinct-eq x s.fingerprint (all_prints id) h i own_print_there in
        (
          count_distinct_same s.fingerprint (prints id) (
              All-of_In (λ x. x ≡ s.fingerprint) (prints id)
                (λ x i.
                  all_same x
                    (append-In_left x (prints id) (known_print (lookup id db.event_keys)) i))),
          elim (Option-cases (lookup id db.event_keys)) [
            | inl p ↦ rw p refl
            | inr (k, p) ↦
                let known : In k.fingerprint (known_print (lookup id db.event_keys)) =
                  rw p (inl refl) in
                let same : k.fingerprint ≡ s.fingerprint =
                  all_same k.fingerprint (append-In_right k.fingerprint (prints id) _ known) in
                rw (p, same, eq_self s.fingerprint) refl
          ],
        )

    two_prints :
        has_copies rows db s ≡ false
        → contradicts_key rows db s ≡ false
        → has_two_prints rows db s.item.event_id ≡ false
    unfolding has_two_prints has_copies contradicts_key
    two_prints h k =
        let id = s.item.event_id in
        count_distinct_same s.fingerprint (all_prints id) (
          All-of_In (λ x. x ≡ s.fingerprint) (all_prints id)
            (λ x i. elim (In-append x (prints id) (known_print (lookup id db.event_keys)) i) [
              | inl copy ↦ count_distinct-eq x s.fingerprint (prints id) h copy own_print
              | inr known ↦ elim (Option-cases (lookup id db.event_keys)) [
                | inl p ↦ absurd (rw p at known)
                | inr (key, p) ↦ elim (rw p at known) [
                  | inl same ↦
                      same
                      ∙ sym (
                          (string_eq.beq_iff s.fingerprint key.fingerprint).0
                            (not-false→true (s.fingerprint == key.fingerprint) (rw p at k)))
                  | inr nothing ↦ absurd nothing
                ]
              ]
            ]))

  -- A row of stream_conflicts with the id of an event of the batch is selected.
  blocked-In :
      (id : String)
      → In id (ids rows db)
      → is_quarantined rows db id ≡ true
      → In id (map (λ c. c.0.event_id) (blocked rows db))
  blocked-In id i h =
      let named : ConflictKey × Conflict → Bool = λ c. c.0.event_id == id in
      let (c, m, p) = any-In named db.conflicts h in
      let same : c.0.event_id ≡ id = (string_eq.beq_iff c.0.event_id id).0 p in
      let selected : ConflictKey × Conflict → Bool =
        λ d. elem d.0.event_id (ids rows db) || trip_in d.1.payload.trip_id (trip_ids rows db) in
      let here : elem c.0.event_id (ids rows db) ≡ true =
        ap (λ x. elem x (ids rows db)) same ∙ In-elem id (ids rows db) i in
      subst (λ x. In x (map (λ d. d.0.event_id) (blocked rows db))) same
        (In-map (λ (d : ConflictKey × Conflict). d.0.event_id) c (blocked rows db)
          (In-keep selected c db.conflicts m (rw here refl)))

  blocked-is_quarantined :
      (id : String)
      → In id (map (λ c. c.0.event_id) (blocked rows db))
      → is_quarantined rows db id ≡ true
  blocked-is_quarantined id i =
      let (c, m, same) = map-In (λ (d : ConflictKey × Conflict). d.0.event_id) id _ i in
      let selected : ConflictKey × Conflict → Bool =
        λ d. elem d.0.event_id (ids rows db) || trip_in d.1.payload.trip_id (trip_ids rows db) in
      let named : ConflictKey × Conflict → Bool = λ d. d.0.event_id == id in
      In-any named c db.conflicts (keep-In selected c db.conflicts m).0
        (rw same (eq_self c.0.event_id))

  conflicting-conflict_ids :
      (s : Staged)
      → In s rows
      → elem s.item.event_id (conflicting_ids rows db) ≡ true
      → elem s.item.event_id (conflict_ids rows db) ≡ true
  unfolding conflicting_ids conflict_ids
  conflicting-conflict_ids s m h =
      let id = s.item.event_id in
      let is_one : is_conflict rows db s ≡ true =
        elim (In-append id (keep (has_two_prints rows db) (ids rows db)) _ (elem-In id _ h)) [
          | inl two ↦
              let twice = (keep-In (has_two_prints rows db) id (ids rows db) two).1 in
              elim (Bool-cases (has_copies rows db s)) [
                | inl p ↦ rw p refl
                | inr p ↦ elim (Bool-cases (contradicts_key rows db s)) [
                  | inl q ↦ rw (p, q) refl
                  | inr q ↦ cc (two_prints s m p q, twice)
                ]
              ]
          | inr old ↦
              rw (blocked-is_quarantined id old)
                (or_true (has_copies rows db s) (contradicts_key rows db s))
        ] in
      In-elem id _ (
        In-distinct id (map (λ r. r.item.event_id) (keep (is_conflict rows db) rows)) (
          In-map (λ (r : Staged). r.item.event_id) s (keep (is_conflict rows db) rows)
            (In-keep (is_conflict rows db) s rows m is_one)))
    where
      or_true : (a b : Bool) → (a || b || true) ≡ true
      or_true a b = ground arith

  conflict-conflicting_ids :
      (id : String)
      → elem id (conflict_ids rows db) ≡ true
      → elem id (conflicting_ids rows db) ≡ true
  unfolding conflicting_ids conflict_ids
  conflict-conflicting_ids id h =
      let listed = map (λ (r : Staged). r.item.event_id) (keep (is_conflict rows db) rows) in
      let (s, m, same) =
        map-In (λ (r : Staged). r.item.event_id) id (keep (is_conflict rows db) rows)
          (distinct-In id listed (elem-In id (distinct listed) h)) in
      let (i, is_one) = keep-In (is_conflict rows db) s rows m in
      rw same (conflicting_row s i is_one)
    where
      conflicting_row :
          (s : Staged)
          → In s rows
          → is_conflict rows db s ≡ true
          → elem s.item.event_id (conflicting_ids rows db) ≡ true
      conflicting_row s i h = elim (Bool-cases (has_two_prints rows db s.item.event_id)) [
        | inl two ↦ In-elem s.item.event_id _ (
            append-In_left s.item.event_id (keep (has_two_prints rows db) (ids rows db)) _ (
              In-keep (has_two_prints rows db) s.item.event_id (ids rows db) (In-ids s rows db i)
                two))
        | inr one ↦
            let (p, q) = one_print s i one in
            In-elem s.item.event_id _ (
              append-In_right s.item.event_id (keep (has_two_prints rows db) (ids rows db)) _
                (blocked-In s.item.event_id (In-ids s rows db i) (rw (p, q) at h)))
      ]

  -- The same events of the batch are in conflict.
  pub same_ids :
      (s : Staged)
      → In s rows
      → elem s.item.event_id (conflicting_ids rows db) ≡ elem s.item.event_id (conflict_ids rows db)
  same_ids s m =
      same_test _ _ (conflicting-conflict_ids s m) (conflict-conflicting_ids s.item.event_id)
