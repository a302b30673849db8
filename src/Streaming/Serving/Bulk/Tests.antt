-- ===== src/Streaming/Serving/Bulk/Tests.antt =====
-- Runs of `bulk_serve` of streaming/sink.py on small tables, and the theorems of its modules there.
use fleet_lambda_platform.Base.{
  ℕ, String, false, Option, [], ◌∷◌, map, ◌≡◌, refl, inl, inr, All, All-In, ap, sym, ◌∙◌, string_eq,
  arith,
}
use fleet_lambda_platform.Base.Dict.{lookup, contains}
use fleet_lambda_platform.Base.Result.{Result, ok, err}
use fleet_lambda_platform.Streaming.Serving.{
  Staged, Serving, conflicting_copy, prior_event_conflict, prior_trip_conflict,
}
use fleet_lambda_platform.Streaming.Serving.Conflicts.{conflict_ids, bad_trips, is_rejected}
use fleet_lambda_platform.Streaming.Serving.Merge.{merge_staged}
use fleet_lambda_platform.Streaming.Serving.Verdict.{is_refused}
use fleet_lambda_platform.Streaming.Serving.Bulk.{bulk_serve}
use fleet_lambda_platform.Streaming.Serving.Bulk.SameVerdict.{IsBatch, is_refused-is_rejected}
use fleet_lambda_platform.Streaming.Serving.Bulk.Quarantined.{Tidy, bulk_serve-Tidy}
use fleet_lambda_platform.Streaming.Serving.Bulk.SameServed.{bulk_serve-SameKeys}
use fleet_lambda_platform.Streaming.Serving.Merge.Storable.{IsServable}
use fleet_lambda_platform.Streaming.Serving.Samples.{before, copy}

abbrev tables_of : Serving → Result (ℕ × Serving) → Serving
tables_of db (ok (_, db')) = db'
tables_of db (err _) = db

abbrev served : Serving
served = tables_of before (bulk_serve 7 before.stage 5 before)

-- The copy, the known event and the known trip go to stream_conflicts; two events are served.
run : bulk_serve 7 before.stage 5 before ≡ ok (3, served)
unfolding bulk_serve
run = refl

known_events : map (λ k. k.0) served.event_keys ≡ "e1" ∷ "e2" ∷ "e3" ∷ "e44" ∷ []
unfolding bulk_serve
known_events = refl

reasons :
    map (λ c. c.0.reason) served.conflicts
    ≡ prior_event_conflict ∷ conflicting_copy 0 ∷ prior_trip_conflict ∷ []
unfolding bulk_serve
reasons = refl

vehicles : map (λ v. v.1.event_id) served.states ≡ "e44" ∷ "e3" ∷ []
unfolding bulk_serve
vehicles = refl

alerts : map (λ a. a.vehicle_id) served.alerts ≡ "v3" ∷ []
unfolding bulk_serve
alerts = refl

nothing : bulk_serve 7 [] 5 before ≡ ok (0, before)
unfolding bulk_serve
nothing = refl

abbrev trip_of_print : String → Option String
trip_of_print print = lookup print (("other", "t1") ∷ ("print4", "t4") ∷ [])

abbrev HasTripOfPrint : Staged → Type 0
HasTripOfPrint s = s.item.trip_id ≡ trip_of_print s.fingerprint

trips_of_prints : All HasTripOfPrint before.stage
trips_of_prints = (refl, (refl, (refl, (refl, tt))))

before-IsBatch : IsBatch before.stage
before-IsBatch = record {
  completed_named = ((λ _. ("t1", refl)), ((λ h. cc), ((λ h. cc), ((λ _. ("t4", refl)), tt))));
  not_empty = ((λ h. cc), ((λ h. cc), ((λ h. cc), ((λ h. cc), tt))));
  one_trip = λ s r m n same digest.
      All-In HasTripOfPrint s before.stage trips_of_prints m
      ∙ (ap trip_of_print digest ∙ sym (All-In HasTripOfPrint r before.stage trips_of_prints n));
}

is_refused-is_rejected_example :
    is_refused before.stage before copy
    ≡ is_rejected
        (conflict_ids before.stage before)
        (bad_trips before.stage before (conflict_ids before.stage before))
        copy
is_refused-is_rejected_example =
    is_refused-is_rejected before.stage before (refl, tt) before-IsBatch copy (inl refl)

before-IsServable : IsServable before.stage before
before-IsServable = record {
  statuses = (inr (inr refl), (inr (inl refl), (inl refl, (inr (inr refl), tt))));
  counts = omega arith;
  fares = omega arith;
}

bulk_serve-SameKeys_example :
    (n : ℕ) × (bulk : Serving) × (m : ℕ) × (merged : Serving) × (bulk_serve 7 before.stage 5 before
      ≡ ok (n, bulk))
    × (merge_staged (λ a b. false) 5 "run" 7 0 before ≡ ok (m, merged))
    × ((id : String) → contains id bulk.event_keys ≡ contains id merged.event_keys)
bulk_serve-SameKeys_example =
    bulk_serve-SameKeys (λ a b. false) 5 7 0 "run" before (refl, tt) before-IsBatch (omega arith)
      before-IsServable

before-Tidy : Tidy before
before-Tidy = record {
  quarantined = record { trips_unnamed = (tt, tt); events_unnamed = ((λ t h. tt), tt) };
  trips_named = ((λ h. cc), tt);
  events_named = ((λ h. cc), tt);
}

bulk_serve-Tidy_example : Tidy served
bulk_serve-Tidy_example =
    bulk_serve-Tidy 7 5 3 before.stage before served before-IsBatch before-Tidy run
