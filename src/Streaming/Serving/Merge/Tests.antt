-- ===== src/Streaming/Serving/Merge/Tests.antt =====
-- A run of `merge_staged` of streaming/staged_sink.py on small tables, and the theorems of its
-- modules at these inputs.
use fleet_lambda_platform.Base.{
  ℕ, ◌*◌, String, Bool, true, none, some, [], ◌∷◌, ◌≡◌, ◌⊎◌, ◌≤◌, refl, inl, inr, ltb, All, keep,
  not, string_eq, nat_eq, pair_eq, map, arith,
}
use fleet_lambda_platform.Base.Dict.{lookup}
use fleet_lambda_platform.Base.Result.{Result, ok, err}
use fleet_lambda_platform.Streaming.Serving.{Serving, ZoneMetric, VehicleState, conflict_key_eq}
use fleet_lambda_platform.Streaming.Serving.Conflicts.{of_run, conflict_ids, bad_trips}
use fleet_lambda_platform.Streaming.Serving.Windows.{metrics_partition, WindowRow}
use fleet_lambda_platform.Streaming.Serving.Merge.{merge_staged, is_stale}
use fleet_lambda_platform.Streaming.Serving.Merge.Outcome.{
  ids, bad, NamesTrip, merge_staged-Commits,
}
use fleet_lambda_platform.Streaming.Serving.Merge.Storable.{IsServable}
use fleet_lambda_platform.Streaming.Serving.Merge.Quarantine.{Quarantined, merge_staged-Quarantined}
use fleet_lambda_platform.Streaming.Serving.Merge.Accounted.{
  IsServed, IsRefused, merge_staged-IsAccounted,
}
use fleet_lambda_platform.Streaming.Serving.Merge.Vehicles.{
  NotOlder, IsDiscredited, merge_staged-NotOlder,
}
use fleet_lambda_platform.Streaming.Serving.Merge.Alerted.{open_count, merge_staged-OneAlert}
use fleet_lambda_platform.Streaming.Serving.Merge.Recounted.{IsAffected, IsTotal}
use fleet_lambda_platform.Streaming.Serving.Merge.Corrected.{metrics_partition-merge_staged}
use Prim.Native.String.{len}
use fleet_lambda_platform.Streaming.Serving.Samples.{minute, again, state, metric_event, before}

-- an order of texts, for the witnesses: the longer comes after
abbrev after : String → String → Bool
after a b = ltb (len b) (len a)

after_trans : (a b c : String) → after a b ≡ true → after b c ≡ true → after a c ≡ true
after_trans a b c h k = ground arith

names_trips : All NamesTrip before.stage
names_trips = ((λ _. ("t1", refl)), ((λ h. cc), ((λ h. cc), ((λ _. ("t4", refl)), tt))))

-- the tables that a merge leaves
abbrev tables_of : Serving → Result (ℕ × Serving) → Serving
tables_of db (ok (_, db')) = db'
tables_of db (err _) = db

abbrev now_merged : Serving
now_merged = tables_of before (merge_staged after 5 "run" 7 0 before)

commits : merge_staged after 5 "run" 7 0 before ≡ ok (1, now_merged)
unfolding merge_staged
commits = refl

known_events : map (λ k. k.0) now_merged.event_keys ≡ "e1" ∷ "e2" ∷ "e3" ∷ "e44" ∷ []
unfolding merge_staged
known_events = refl

no_old_trip : map (λ t. t.0) now_merged.trips ≡ "t4" ∷ []
unfolding merge_staged
no_old_trip = refl

before-IsServable : IsServable before.stage before
before-IsServable = record {
  statuses = (inr (inr refl), (inr (inl refl), (inl refl, (inr (inr refl), tt))));
  counts = omega arith;
  fares = omega arith;
}

merge_staged-Commits_example :
    (n : ℕ) × (db' : Serving) × (merge_staged after 5 "run" 7 0 before ≡ ok (n, db'))
    × (of_run "run" db'.stage ≡ [])
merge_staged-Commits_example =
    merge_staged-Commits after 5 7 0 "run" before names_trips before-IsServable

before-Quarantined : Quarantined before
before-Quarantined = record { trips_unnamed = (tt, tt); events_unnamed = ((λ t h. tt), tt) }

merge_staged-Quarantined_example : Quarantined now_merged
merge_staged-Quarantined_example =
    merge_staged-Quarantined after 5 7 0 1 "run" before now_merged before-Quarantined commits

merge_staged-IsAccounted_example : IsServed now_merged again ⊎ IsRefused 7 now_merged again
merge_staged-IsAccounted_example =
    merge_staged-IsAccounted after 5 7 0 1 "run" before now_merged again (inr (inl refl)) refl refl
      commits

merge_staged-NotOlder_example :
    IsDiscredited
      (of_run "run" (keep (λ s. not (is_stale 0 s)) before.stage))
      before
      (state "e2" "enroute" (3 * minute))
    ⊎ ((new : VehicleState) × (lookup "v2" now_merged.states ≡ some new)
        × NotOlder after new (state "e2" "enroute" (3 * minute)))
merge_staged-NotOlder_example =
    merge_staged-NotOlder after after_trans 5 7 0 1 "run" "v2" before now_merged
      (state "e2" "enroute" (3 * minute)) refl commits

merge_staged-OneAlert_example : open_count "v3" now_merged.alerts ≤ 1
merge_staged-OneAlert_example =
    merge_staged-OneAlert after 5 7 0 1 "run" "v3" before now_merged (omega arith) commits

-- the minute of the retracted event is affected
affected :
    (let rows = of_run "run" (keep (λ s. not (is_stale 0 s)) before.stage) in
      IsAffected (ids rows before) (bad rows before) rows before.metric_events (2 * minute, "z"))
unfolding conflict_ids bad_trips
affected =
    inl ("e1", metric_event (some "t1") "print1" "v1" (2 * minute), inl refl, inl (inl refl), refl)

abbrev spark_row : WindowRow
spark_row = record {
  window = (2 * minute, "z");
  reporting = 9;
  active_vehicles = 9;
  idle_ratio = none;
  trips = 9;
  earnings_cents = 9;
}

metrics_partition-merge_staged_example :
    (m : ZoneMetric) × (lookup
        (2 * minute, "z")
        (metrics_partition (spark_row ∷ []) now_merged.metrics)
      ≡ some m)
    × IsTotal now_merged.metric_events (2 * minute, "z") m
metrics_partition-merge_staged_example =
    metrics_partition-merge_staged after 5 7 0 1 "run" before now_merged (2 * minute, "z")
      (spark_row ∷ []) commits affected
