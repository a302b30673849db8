-- ===== src/Streaming/Serving/Bulk/SameTrips.antt =====
-- The trips in conflict of `bulk_serve` of streaming/sink.py and those of `merge_staged` of
-- streaming/staged_sink.py, for the same events.
use fleet_lambda_platform.Base.{
  and_right, String, true, not, ◌&&◌, Option, none, some, List, [], ◌∷◌, map, keep, present, In,
  In-map, map-In, In-keep, keep-In, append-In_left, In-present, present-In, ◌≡◌, ◌≢◌, refl, sym, ap,
  subst, inl, inr, Bool-cases, eq_self, eq-ne, ◌==◌, string_eq, nat_eq, option_eq, arith,
}
use fleet_lambda_platform.Streaming.Serving.{
  Staged, Signature, signature_eq, conflict_key_eq, Serving,
}
use fleet_lambda_platform.Streaming.Serving.Conflicts.{
  conflict_ids, trip_in, signature, trips_of, completed,
}
use fleet_lambda_platform.Streaming.Serving.Verdict.{named, trip_ids, completed_of}

pub In-named :
    (t : String) (trips : List (Option String)) → t ≢ "" → In (some t) trips → In t (named trips)
In-named t trips ne m =
    In-keep (λ u. not (u == "")) t (present trips) (In-present t trips m) (rw (eq-ne t "" ne) refl)

pub named-In : (t : String) (trips : List (Option String)) → In t (named trips) → In (some t) trips
named-In t trips m =
    present-In t trips (keep-In (λ (u : String). not (u == "")) t (present trips) m).0

pub trip_is : (o : Option String) (t : String) → trip_in o (t ∷ []) ≡ true → o ≡ some t
trip_is none t h = cc
trip_is (some u) t h = elim (Bool-cases (u == t)) [
  | inl p ↦ ap some ((string_eq.beq_iff u t).0 p)
  | inr q ↦ cc (rw q at h)
]

pub is_trip : (o : Option String) (t : String) → o ≡ some t → trip_in o (t ∷ []) ≡ true
is_trip o t h = rw (h, eq_self t) refl

module _ (rows : List Staged) (db : Serving) where
  abbrev pub merge_ids : List String
  merge_ids = conflict_ids rows db

  pub trips_of-In :
      (t : String) (staged : List Staged)
      → In t (trips_of staged)
      → (s : Staged) × In s staged × (s.item.trip_id ≡ some t)
  trips_of-In t staged m =
      let (s, i, same) =
        map-In (λ (r : Staged). r.item.trip_id) (some t) staged
          (present-In t (map (λ (r : Staged). r.item.trip_id) staged) m) in
      (s, i, sym same)

  pub In-trips_of :
      (t : String) (s : Staged) (staged : List Staged)
      → In s staged
      → s.item.trip_id ≡ some t
      → In t (trips_of staged)
  In-trips_of t s staged m named_t = In-present t (map (λ (r : Staged). r.item.trip_id) staged) (
      subst (λ o. In o (map (λ (r : Staged). r.item.trip_id) staged)) named_t
        (In-map (λ (r : Staged). r.item.trip_id) s staged m))

  pub In-trip_ids :
      (t : String) (s : Staged)
      → t ≢ ""
      → In s rows
      → s.item.trip_id ≡ some t
      → In t (trip_ids rows db)
  In-trip_ids t s ne m named_t = append-In_left t (named (map (λ r. r.item.trip_id) rows)) _ (
      In-named t (map (λ r. r.item.trip_id) rows) ne (
        subst (λ o. In o (map (λ (r : Staged). r.item.trip_id) rows)) named_t
          (In-map (λ (r : Staged). r.item.trip_id) s rows m)))

  -- the signatures of a trip's completed rows, in both programs
  abbrev pub merge_signatures : String → List Signature
  merge_signatures t =
      map signature (keep (λ s. trip_in s.item.trip_id (t ∷ [])) (completed rows db))

  abbrev pub bulk_signatures : String → List Signature
  bulk_signatures t = map signature (completed_of rows db (some t))

  pub In-merge_signatures :
      (t : String) (s : Staged)
      → In s rows
      → s.item.trip_completed ≡ true
      → s.item.trip_id ≡ some t
      → In (signature s) (merge_signatures t)
  In-merge_signatures t s m done named_t =
      In-map signature s (keep (λ r. trip_in r.item.trip_id (t ∷ [])) (completed rows db)) (
        In-keep (λ (r : Staged). trip_in r.item.trip_id (t ∷ [])) s (completed rows db)
          (In-keep (λ (r : Staged). r.item.trip_completed) s rows m done)
          (is_trip s.item.trip_id t named_t))

  pub In-bulk_signatures :
      (t : String) (s : Staged)
      → In s rows
      → s.item.trip_completed ≡ true
      → s.item.trip_id ≡ some t
      → In (signature s) (bulk_signatures t)
  In-bulk_signatures t s m done named_t = In-map signature s (completed_of rows db (some t)) (
      In-keep (λ (r : Staged). r.item.trip_completed && r.item.trip_id == some t) s rows m
        (rw (done, named_t, eq_self (some t)) refl))

  pub bulk_signatures-In :
      (t : String) (x : Signature)
      → In x (bulk_signatures t)
      → (s : Staged) × In s rows
        × (s.item.trip_completed ≡ true)
        × (s.item.trip_id ≡ some t)
        × (x ≡ signature s)
  bulk_signatures-In t x m =
      let (s, i, same) = map-In signature x (completed_of rows db (some t)) m in
      let (j, p) =
        keep-In (λ (r : Staged). r.item.trip_completed && r.item.trip_id == some t) s rows i in
      (s, j, ground arith, (option_eq.beq_iff s.item.trip_id (some t)).0 (and_right _ _ p), same)

  pub merge_signatures-In :
      (t : String) (x : Signature)
      → In x (merge_signatures t)
      → (s : Staged) × In s rows
        × (s.item.trip_completed ≡ true)
        × (s.item.trip_id ≡ some t)
        × (x ≡ signature s)
  merge_signatures-In t x m =
      let (s, i, same) =
        map-In signature x (keep (λ r. trip_in r.item.trip_id (t ∷ [])) (completed rows db)) m in
      let (j, p) =
        keep-In (λ (r : Staged). trip_in r.item.trip_id (t ∷ [])) s (completed rows db) i in
      let (k, done) = keep-In (λ (r : Staged). r.item.trip_completed) s rows j in
      (s, k, done, trip_is s.item.trip_id t p, same)
