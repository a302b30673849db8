-- ===== src/Streaming/Serving/Merge/Vehicles.antt =====
-- The vehicle states that `merge_staged` of streaming/staged_sink.py leaves.
use fleet_lambda_platform.Base.{
  ℕ, String, Bool, true, false, ◌||◌, not, some, List, [], ◌∷◌, keep, elem, ◌≡◌, ◌⊎◌, refl, ◌∙◌,
  subst, inl, inr, arith, Bool-cases, ◌==◌, string_eq,
}
use fleet_lambda_platform.Base.Dict.{lookup, lookup-insert_self, lookup-insert_ne}
use fleet_lambda_platform.Base.Result.{ok}
use fleet_lambda_platform.Streaming.Serving.{Staged, Serving, VehicleState}
use fleet_lambda_platform.Streaming.Serving.Conflicts.{of_run}
use fleet_lambda_platform.Streaming.Serving.States.{
  is_later, is_newer, upsert_state, upsert_states, state_candidates,
}
use fleet_lambda_platform.Streaming.Serving.Merge.{
  merge_staged, commit, is_stale, kept_states, keys_of_trips,
}
use fleet_lambda_platform.Streaming.Serving.Merge.Outcome.{ids, bad, accepted, merge_rows-ok}

module _ (after : String → String → Bool) where
  -- the same state, or one of a later event
  abbrev pub NotOlder : VehicleState → VehicleState → Type 0
  NotOlder new old =
      (new ≡ old) ⊎ (is_later after new.event_ts new.event_id old.event_ts old.event_id ≡ true)

module _ (after : String → String → Bool)
    (after_trans : (a b c : String) → after a b ≡ true → after b c ≡ true → after a c ≡ true) where
  NotOlder-trans :
      (a b c : VehicleState) → NotOlder after a b → NotOlder after b c → NotOlder after a c
  NotOlder-trans a b c (inl p) h = rw p h
  NotOlder-trans a b c (inr p) (inl q) = inr (rw (← q) p)
  NotOlder-trans a b c (inr p) (inr q) =
      inr (ground (arith, after_trans a.event_id b.event_id c.event_id))

  abbrev Follows : String → VehicleState → List (String × VehicleState) → Type 0
  Follows v old states =
      (new : VehicleState) × (lookup v states ≡ some new) × NotOlder after new old

  upsert_state-Follows :
      (v u : String) (old new : VehicleState) (states : List (String × VehicleState))
      → lookup v states ≡ some old
      → Follows v old (upsert_state after u new states)
  upsert_state-Follows v u old new states h =
      elim (Bool-cases (is_newer after new (lookup u states))) [
        | inr q ↦ rw q (old, h, inl refl)
        | inl p ↦ elim (Bool-cases (v == u)) [
          | inl same ↦
              let eq = (string_eq.beq_iff v u).0 same in
              let later = rw (← eq, h) at p in
              rw p (new, rw eq (lookup-insert_self u new states), inr later)
          | inr other ↦ rw p (
            old,
            lookup-insert_ne v u new states (λ eq. cc (other, (string_eq.beq_iff v u).1 eq)) ∙ h,
            inl refl,
          )
        ]
      ]

  pub upsert_states-Follows :
      (v : String) (old : VehicleState) (rows states : List (String × VehicleState))
      → lookup v states ≡ some old
      → Follows v old (upsert_states after rows states)
  unfolding upsert_states
  upsert_states-Follows v old [] states h = (old, h, inl refl)
  upsert_states-Follows v old ((u, new) ∷ rows) states h =
      let (mid, at, le) = upsert_state-Follows v u old new states h in
      let (final, found, le') =
        upsert_states-Follows v mid rows (upsert_state after u new states) at in
      (final, found, NotOlder-trans final mid old le' le)

lookup-keep :
    (test : String × VehicleState → Bool) (v : String) (old : VehicleState)
    (states : List (String × VehicleState))
    → lookup v states ≡ some old
    → test (v, old) ≡ true
    → lookup v (keep test states) ≡ some old
lookup-keep test v old [] h t = h
lookup-keep test v old ((u, s) ∷ states) h t =
    ground (arith, string_eq.beq_iff v u, lookup-keep test v old states)

-- The state shows an event that the merge discredits: a conflicting one, or one of a bad trip.
abbrev pub IsDiscredited : List Staged → Serving → VehicleState → Type 0
IsDiscredited rows db old =
    (elem old.event_id (ids rows db)
      || elem old.event_id (keys_of_trips (bad rows db) db.event_keys))
    ≡ true

kept_states-lookup :
    (rows : List Staged) (db : Serving) (v : String) (old : VehicleState)
    → lookup v db.states ≡ some old
    → (elem old.event_id (ids rows db)
        || elem old.event_id (keys_of_trips (bad rows db) db.event_keys))
      ≡ false
    → lookup v (kept_states (ids rows db) (bad rows db) db.event_keys db.states) ≡ some old
kept_states-lookup rows db v old at q =
    lookup-keep
      (λ u. not (
        elem u.1.event_id (ids rows db)
        || elem u.1.event_id (keys_of_trips (bad rows db) db.event_keys)))
      v old db.states at (rw q refl)

-- Where the order of texts is transitive, a merge that commits never takes a vehicle back: the
-- vehicle's state shows a discredited event before, or it has a state afterwards, which is the
-- same or shows a later event (by time, then by event id).
pub merge_staged-NotOlder :
    (after : String → String → Bool)
    (after_trans : (a b c : String) → after a b ≡ true → after b c ≡ true → after a c ≡ true)
    (minutes batch_id now n : ℕ) (run_id v : String) (db db' : Serving) (old : VehicleState)
    → lookup v db.states ≡ some old
    → merge_staged after minutes run_id batch_id now db ≡ ok (n, db')
    → IsDiscredited (of_run run_id (keep (λ s. not (is_stale now s)) db.stage)) db old
      ⊎ ((new : VehicleState) × (lookup v db'.states ≡ some new) × NotOlder after new old)
unfolding merge_staged commit
merge_staged-NotOlder after after_trans minutes batch_id now n run_id v db db' old at h =
    let stage = keep (λ s. not (is_stale now s)) db.stage in
    let rows = of_run run_id stage in
    let (completed, done, same) =
      merge_rows-ok rows db after minutes run_id batch_id n stage db' h in
    let known = kept_states (ids rows db) (bad rows db) db.event_keys db.states in
    elim (Bool-cases (
      elem old.event_id (ids rows db)
      || elem old.event_id (keys_of_trips (bad rows db) db.event_keys))) [
        | inl p ↦ inl p
        | inr q ↦ inr (
            subst
              (λ d. (new : VehicleState) × (lookup v d.states ≡ some new) × NotOlder after new old)
              same
              (upsert_states-Follows after after_trans v old
                (state_candidates after (accepted rows db) known) known
                (kept_states-lookup rows db v old at q)))
      ]
