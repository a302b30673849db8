-- ===== src/Batch/Reconcile/Tests.antt =====
-- Runs of batch/reconcile.py on a ledger of one batch, and the theorems of its modules at these
-- inputs.
use fleet_lambda_platform.Base.{
  ℕ, ◌*◌, String, true, false, none, some, List, [], ◌∷◌, map, All, length, ◌≡◌, ◌≢◌, ◌↔◌, In, refl,
  arith, list_beq, greatest,
}
use fleet_lambda_platform.Base.Result.{ok, err, value_error}
use fleet_lambda_platform.Common.Publication.{Bytes, build_export_manifest}
use fleet_lambda_platform.Common.Archive.{verified_paths}
use fleet_lambda_platform.Streaming.Serving.{day_length}
use fleet_lambda_platform.Batch.Reconcile.{LedgerRow, World, Tools, published, unchanged}
use fleet_lambda_platform.Batch.Reconcile.Day.{run_day}
use fleet_lambda_platform.Batch.Reconcile.Day.Again.{SameReports, run_day_again}
use fleet_lambda_platform.Batch.Reconcile.Day.Failed.{Unpublished, run_day-Unpublished}
use fleet_lambda_platform.Batch.Reconcile.Day.Settled.{IsOver, run_day-IsOver}
use fleet_lambda_platform.Batch.Reconcile.Catchup.{catch_up}
use fleet_lambda_platform.Base.Descending.{Descending}
use fleet_lambda_platform.Batch.Reconcile.Catchup.Dates.{IsReportDate}
use fleet_lambda_platform.Batch.Reconcile.Catchup.Budget.{WithinBudget, catch_up-WithinBudget}

abbrev sha256 : Bytes → String
sha256 bytes = "digest"

nonempty : (b : Bytes) → sha256 b ≢ ""
nonempty b h = cc

abbrev tools : Tools
tools = record {
  sha256 = sha256;
  isoformat = λ day. "2026-03-01";
  fingerprint = λ contents files conflicts. "inputs";
  parse = λ contents. ok (map (λ b. ("vehicle_id", "v1") ∷ []) contents);
  validate =
      λ rows day. (record { vehicle_id = "v1"; fuel_cents = 5; maintenance_cents = 6 } ∷ [], []);
  aggregate = λ paths expenses day events trips. ok (record {
    vehicles =
        record {
          vehicle_id = "v1";
          trips = 0;
          revenue_cents = 0;
          cost = none;
          profit_cents = none;
          is_unprofitable = none;
          reconciliation_status = "incomplete_telemetry";
        }
        ∷ [];
    coverage = ("v1", record { complete = false; observations = 0; conflict = false }) ∷ [];
    zones = [];
  });
  render = λ format day run_id output. ok (length output.vehicles ∷ []);
  threshold = (1, 20);
  mark_failed = λ e. ok tt;
  report_dir = record { absolute = true; parts = "data" ∷ "reports" ∷ [] };
}

-- An archived batch whose newest event is of the third day.
abbrev ledger : List LedgerRow
ledger =
    record {
      batch = record {
        batch_id = 0;
        rows_valid = 0;
        archive_manifest = some (record { version = 1; files = []; rows = 0 });
      };
      max_event_ts = some (3 * day_length);
    }
    ∷ []

abbrev world : List (ℕ × Bytes) → World
world landing = record {
  landing = landing;
  bucket = [];
  conflicts = [];
  runs = [];
  reports = [];
  profits = [];
  zones = [];
  quarantine = [];
  disk = [];
}

abbrev before : World
before = world ((1, 7 ∷ []) ∷ [])

abbrev after_day : World
after_day = (run_day tools 1 100 "run" false ledger before).1

publishes : run_day tools 1 100 "run" false ledger before ≡ (ok published, after_day)
unfolding run_day greatest verified_paths build_export_manifest list_beq
publishes = refl

run_day_again_example :
    (w'' : World) × (run_day tools 1 200 "next" false ledger after_day ≡ (ok unchanged, w''))
    × SameReports after_day w''
run_day_again_example =
    run_day_again tools nonempty 1 100 200 "run" "next" ledger before after_day after_day publishes
      refl refl (refl, refl)

-- an expense file without rows
abbrev empty_file : World
empty_file = world ((1, []) ∷ [])

abbrev after_failure : World
after_failure = (run_day tools 1 100 "run" false ledger empty_file).1

raises :
    run_day tools 1 100 "run" false ledger empty_file
    ≡ (err (value_error "Expense file has no rows"), after_failure)
unfolding run_day greatest verified_paths
raises = refl

run_day-Unpublished_example : Unpublished tools 1 100 "run" empty_file after_failure
run_day-Unpublished_example =
    run_day-Unpublished tools 1 100 "run" false ledger empty_file after_failure
      (value_error "Expense file has no rows") raises

run_day-IsOver_example :
    All (IsOver "run") (run_day tools 1 100 "run" false ledger empty_file).1.runs
run_day-IsOver_example = run_day-IsOver tools (λ e. refl) 1 100 "run" false ledger empty_file tt

catch_up-WithinBudget_example :
    (dates : List ℕ) × Descending dates
    × ((day : ℕ) → In day dates ↔ IsReportDate 1 ledger before day)
    × WithinBudget tools
        (λ day. "run")
        (λ day. false)
        100
        1
        ledger
        dates
        (catch_up tools (λ day. "run") (λ day. false) 100 1 1 ledger before)
catch_up-WithinBudget_example =
    catch_up-WithinBudget tools (λ day. "run") (λ day. false) 100 1 1 ledger before (omega arith)

-- The second day has no expenses, and the first is published all the same.
runs_both :
    (catch_up tools (λ day. "run") (λ day. false) 100 5 1 ledger before).visited ≡ 2 ∷ 1 ∷ []
unfolding catch_up verified_paths build_export_manifest list_beq
runs_both = refl

fails_one : (catch_up tools (λ day. "run") (λ day. false) 100 5 1 ledger before).failed ≡ 2 ∷ []
unfolding catch_up verified_paths build_export_manifest list_beq
fails_one = refl
