-- ===== src/Batch/Aggregate/Tests.antt =====
-- An aggregation of batch/spark_reconcile.py over one archive file, and the theorems of its modules
-- at these inputs.
use fleet_lambda_platform.Base.{
  ℕ, ◌/◌, In, String, true, false, Option, some, List, [], ◌∷◌, map, length, ◌≡◌, refl, inl,
}
use fleet_lambda_platform.Base.Int.{pos, ◌-ℤ◌}
use fleet_lambda_platform.Common.Archive.{text_le}
use fleet_lambda_platform.Base.Result.{Result, ok, err}
use fleet_lambda_platform.Common.Domain.{Expense, ReportRow}
use fleet_lambda_platform.Streaming.Serving.{day_length}
use fleet_lambda_platform.Batch.Reconcile.{Output}
use fleet_lambda_platform.Batch.Aggregate.{ArchiveRow, aggregate}
use fleet_lambda_platform.Batch.Aggregate.Totals.{SameTotals, aggregate-SameTotals}
use fleet_lambda_platform.Batch.Aggregate.Withheld.{IsClean, aggregate-IsClean}

-- the contents of an event: here its fare
abbrev to_json : ArchiveRow → String
to_json r = elim r.other_fields [ [] ↦ "" | f ∷ _ ↦ f ]

abbrev row : String → Option String → String → String → ℕ → ArchiveRow
row id trip vehicle contents t = record {
  event_id = id;
  trip_id = trip;
  vehicle_id = vehicle;
  fare_cents = 900;
  trip_completed = true;
  zone = "z";
  event_time = some t;
  other_fields = contents ∷ [];
}

-- Two observations a day: v1 is observed twice and completes a trip each time, v2 has one event with
-- two contents.
abbrev rows : List ArchiveRow
rows =
    row "e1" (some "t1") "v1" "a" 0
    ∷ row "e2" (some "t2") "v1" "b" (day_length / 2)
    ∷ row "e3" (some "t3") "v2" "c" 5
    ∷ row "e3" (some "t3") "v2" "d" 5
    ∷ []

abbrev read : List ℕ → List ArchiveRow
read files = rows

abbrev known : List String
known = "v1" ∷ "v2" ∷ []

abbrev expenses : List Expense
expenses = record { vehicle_id = "v1"; fuel_cents = 100; maintenance_cents = 50 } ∷ []

abbrev run : Result Output
run = aggregate to_json length (day_length / 2, 1) 0 0 known read (1 ∷ []) expenses [] []

abbrev output_of : Result Output → Output
output_of (ok o) = o
output_of (err e) = record { vehicles = []; coverage = []; zones = [] }

abbrev out : Output
out = output_of run

done : run ≡ ok out
unfolding aggregate
done = refl

statuses : map (λ r. r.reconciliation_status) out.vehicles ≡ "complete" ∷ "conflicting_events" ∷ []
unfolding aggregate text_le ◌-ℤ◌
statuses = refl

abbrev v1_row : ReportRow
v1_row = record {
  vehicle_id = "v1";
  trips = 2;
  revenue_cents = 1800;
  cost = some (record { vehicle_id = "v1"; fuel_cents = 100; maintenance_cents = 50 });
  profit_cents = some (pos 1650);
  is_unprofitable = some false;
  reconciliation_status = "complete";
}

first_row : In v1_row out.vehicles
unfolding aggregate text_le ◌-ℤ◌
first_row = inl refl

aggregate-SameTotals_example : SameTotals out
aggregate-SameTotals_example =
    aggregate-SameTotals to_json length (day_length / 2, 1) 0 0 known read 1 [] expenses [] [] out
      (refl, (refl, tt)) done

aggregate-IsClean_example : IsClean to_json [] [] (read (1 ∷ [])) v1_row (pos 1650)
aggregate-IsClean_example =
    aggregate-IsClean to_json length (day_length / 2, 1) 0 0 known read 1 [] expenses [] [] out
      v1_row (pos 1650) done first_row refl
