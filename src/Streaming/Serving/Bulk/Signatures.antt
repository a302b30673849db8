-- ===== src/Streaming/Serving/Bulk/Signatures.antt =====
-- What the signatures of a trip's completed rows say to `bulk_serve` of streaming/sink.py and to
-- `merge_staged` of streaming/staged_sink.py.
use fleet_lambda_platform.Base.{
  String, true, false, not, ◌&&◌, some, List, [], ◌∷◌, ◌++◌, elem, ltb, In, All-of_In, In-append,
  append-In_left, append-In_right, any-In, In-any, In-elem, ◌≡◌, ◌≢◌, refl, sym, ◌∙◌, subst, inl,
  inr, ◌⊎◌, Bool-cases, Option-cases, eq_self, ◌==◌, string_eq, nat_eq, option_eq, arith,
}
use fleet_lambda_platform.Base.Dict.{lookup, lookup-In, In-lookup, NodupKeys}
use fleet_lambda_platform.Base.Tables.{count_distinct, count_distinct-eq, count_distinct_same}
use fleet_lambda_platform.Streaming.Serving.{
  Staged, Signature, signature_eq, conflict_key_eq, CompletedTrip, Serving,
}
use fleet_lambda_platform.Streaming.Serving.Conflicts.{
  trip_in, signature, trip_signature, contradicts_trip,
}
use fleet_lambda_platform.Streaming.Serving.Verdict.{trip_ids, old_signatures, has_two_signatures}
use fleet_lambda_platform.Streaming.Serving.Bulk.SameTrips.{
  In-trip_ids, merge_signatures, bulk_signatures, In-merge_signatures, In-bulk_signatures,
  merge_signatures-In, bulk_signatures-In,
}

module _ (rows : List Staged) (db : Serving) where
  abbrev pub bulk_all : String → List Signature
  bulk_all t = bulk_signatures rows db t ++ old_signatures rows db (some t)

  -- What one signature of a trip's completed rows means for the other program.
  pub merge_one :
      (t : String)
      → has_two_signatures rows db (some t) ≡ false
      → ltb 1 (count_distinct (merge_signatures rows db t)) ≡ false
  unfolding has_two_signatures
  merge_one t h = elim (In-cases (merge_signatures rows db t)) [
    | inl p ↦ rw p refl
    | inr (x, m) ↦ count_distinct_same x (merge_signatures rows db t) (
        All-of_In (λ y. y ≡ x) (merge_signatures rows db t)
          (λ y n.
            count_distinct-eq y x (bulk_all t) h (merge-bulk_all t y n) (merge-bulk_all t x m)))
  ]
    where
      In-cases : (xs : List Signature) → (xs ≡ []) ⊎ ((x : Signature) × In x xs)
      In-cases [] = inl refl
      In-cases (x ∷ xs) = inr (x, inl refl)

      merge-bulk_all :
          (t : String) (x : Signature) → In x (merge_signatures rows db t) → In x (bulk_all t)
      merge-bulk_all t x m =
          let (s, i, done, named_t, same) = merge_signatures-In rows db t x m in
          append-In_left x (bulk_signatures rows db t) (old_signatures rows db (some t)) (
            subst (λ y. In y (bulk_signatures rows db t)) (sym same)
              (In-bulk_signatures rows db t s i done named_t))

  module _ (t : String) (s : Staged) (m : In s rows) (done : s.item.trip_completed ≡ true)
      (named_t : s.item.trip_id ≡ some t) where
    -- The stored trip differs from a row, in the one program and in the other.
    old-contradicts :
        contradicts_trip rows db s ≡ false
        → (x : Signature) → In x (old_signatures rows db (some t))
        → x ≡ signature s
    old-contradicts h x i = elim (Bool-cases (elem t (trip_ids rows db))) [
      | inr q ↦ absurd (rw q at i)
      | inl p ↦ elim (Option-cases (lookup t db.trips)) [
        | inl none_there ↦ absurd (rw (p, none_there) at i)
        | inr (c, there) ↦ elim (rw (p, there) at i) [
          | inr nothing ↦ absurd nothing
          | inl same ↦ elim (Bool-cases (signature s == trip_signature c)) [
            | inl equal ↦
                same ∙ sym ((signature_eq.beq_iff (signature s) (trip_signature c)).0 equal)
            | inr other ↦
                let hit : contradicts_trip rows db s ≡ true =
                  In-any
                    (λ (u : String × CompletedTrip).
                      trip_in s.item.trip_id (u.0 ∷ []) && not (signature s == trip_signature u.1))
                    (t, c) db.trips (lookup-In t c db.trips there)
                    (rw (named_t, eq_self t, other) refl) in
                cc (h, hit)
          ]
        ]
      ]
    ]

    contradicts-old :
        NodupKeys db.trips
        → t ≢ ""
        → contradicts_trip rows db s ≡ true
        → (c : CompletedTrip) × In (trip_signature c) (old_signatures rows db (some t))
          × ((signature s == trip_signature c) ≡ false)
    contradicts-old h ne k =
        let ((u, c), i, p) =
          any-In
            (λ (u : String × CompletedTrip).
              trip_in s.item.trip_id (u.0 ∷ []) && not (signature s == trip_signature u.1))
            db.trips k in
        let hit = rw named_t at p in
        let same : t ≡ u = (string_eq.beq_iff t u).0 (ground arith) in
        let there : lookup t db.trips ≡ some c =
          In-lookup t c db.trips h (subst (λ v. In (v, c) db.trips) (sym same) i) in
        let asked : elem t (trip_ids rows db) ≡ true =
          In-elem t (trip_ids rows db) (In-trip_ids rows db t s ne m named_t) in
        (c, rw (asked, there) (inl refl), ground arith)

    -- Without a second signature no stored trip differs, and the other way round.
    pub bulk_one :
        ltb 1 (count_distinct (merge_signatures rows db t)) ≡ false
        → contradicts_trip rows db s ≡ false
        → has_two_signatures rows db (some t) ≡ false
    unfolding has_two_signatures
    bulk_one h k = count_distinct_same (signature s) (bulk_all t) (
        All-of_In (λ x. x ≡ signature s) (bulk_all t)
          (λ x i.
            elim (In-append x (bulk_signatures rows db t) (old_signatures rows db (some t)) i) [
              | inr old ↦ old-contradicts k x old
              | inl new ↦
                  let (r, j, ended, named_r, same) = bulk_signatures-In rows db t x new in
                  same
                  ∙ count_distinct-eq (signature r) (signature s) (merge_signatures rows db t) h
                      (In-merge_signatures rows db t r j ended named_r)
                      (In-merge_signatures rows db t s m done named_t)
            ]))

    pub one-agrees :
        NodupKeys db.trips
        → t ≢ ""
        → has_two_signatures rows db (some t) ≡ false
        → contradicts_trip rows db s ≡ false
    unfolding has_two_signatures
    one-agrees h ne one = elim (Bool-cases (contradicts_trip rows db s)) [
      | inr q ↦ q
      | inl p ↦
          let (c, i, other) = contradicts-old h ne p in
          let equal : signature s ≡ trip_signature c =
            count_distinct-eq (signature s) (trip_signature c) (bulk_all t) one
              (append-In_left (signature s) (bulk_signatures rows db t)
                (old_signatures rows db (some t)) (In-bulk_signatures rows db t s m done named_t))
              (append-In_right (trip_signature c) (bulk_signatures rows db t)
                (old_signatures rows db (some t)) i) in
          cc (other, (signature_eq.beq_iff (signature s) (trip_signature c)).1 equal)
    ]
