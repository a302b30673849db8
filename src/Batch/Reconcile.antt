-- ===== src/Batch/Reconcile.antt =====
-- batch/reconcile.py: the run of one report date, from the ledger of raw batches and the landed
-- expenses to the published exports. A function that may raise is given the state and answers with
-- its result and the state it leaves, also where it raises. A date is its number of days since the
-- epoch, an instant its microseconds.
pub mod Day
pub mod Catchup
mod Tests
use fleet_lambda_platform.Base.{
  ℕ, ◌/◌, String, Bool, Option, List, [], ◌∷◌, if◌then◌else◌, string_eq, nat_eq, option_eq,
}
use fleet_lambda_platform.Base.Paths.{PurePath}
use fleet_lambda_platform.Base.Result.{Result, Exn}
use fleet_lambda_platform.Common.Archive.{Bucket, Batch, ManifestFile}
use fleet_lambda_platform.Common.Publication.{Bytes, Disk, key, ExportManifest}
use fleet_lambda_platform.Common.Domain.{Expense, ReportRow}
use fleet_lambda_platform.Streaming.Serving.{ConflictKey, Conflict}

-- a row of pipeline_batches, with the columns that this module reads
pub record LedgerRow : Type 0 where
  pub batch : Batch
  pub max_event_ts : Option ℕ

-- the column error of pipeline_runs
pub data RunError : Type 0 where
  orphaned : RunError
  raised : Exn → RunError

-- pipeline_runs
pub record Run : Type 0 where
  pub run_id : String
  pub dt : ℕ
  pub stage : String
  pub status : String
  pub rows_in : Option ℕ
  pub rows_out : Option ℕ
  pub error : Option RunError
  pub started_at : ℕ
  pub ended_at : Option ℕ

pub record Coverage : Type 0 where
  pub complete : Bool
  pub observations : ℕ
  pub conflict : Bool

-- daily_report_status, less its key dt
pub record ReportStatus : Type 0 where
  pub run_id : String
  pub input_fingerprint : String
  pub coverage : List (String × Coverage)
  pub export_status : String
  pub version : ℕ
  pub output_sha256 : Option String
  pub export_manifest : Option ExportManifest

-- daily_zone_summary, less its key (dt, zone)
pub record ZoneTotal : Type 0 where
  pub trips : ℕ
  pub revenue_cents : ℕ
  pub vehicles : ℕ

-- a row of the expense file, as csv.DictReader gives it
abbrev pub CsvRow : Type 0
CsvRow = List (String × String)

pub record Rejected : Type 0 where
  pub row_number : ℕ
  pub reason : String
  pub row : CsvRow

-- dq_quarantine; the name of the source file is the date's
pub record Quarantined : Type 0 where
  pub run_id : String
  pub dt : ℕ
  pub item : Rejected

pub record World : Type 0 where
  pub landing : List (ℕ × Bytes)
  pub bucket : Bucket
  pub conflicts : List (ConflictKey × Conflict)
  pub runs : List Run
  pub reports : List (ℕ × ReportStatus)
  pub profits : List (ℕ × ReportRow)
  pub zones : List (ℕ × String × ZoneTotal)
  pub quarantine : List Quarantined
  pub disk : Disk

-- what `aggregate` returns: the rows, the coverage and the zone totals
pub record Output : Type 0 where
  pub vehicles : List ReportRow
  pub coverage : List (String × Coverage)
  pub zones : List (String × ZoneTotal)

-- What this module calls: `validate` is `validate_expenses` of common/domain.py and `aggregate` that
-- of batch/spark_reconcile.py, with the report date and the configured vehicles; `fingerprint` is the
-- digest of the expense file, the archive files of the date and its conflicts, in canonical order;
-- `render` gives the bytes of a report format, `isoformat` a date's text, `parse` the rows of a file.
-- DQ_FAILURE_THRESHOLD is `threshold.0 / threshold.1`.
pub record Tools : Type 0 where
  pub sha256 : Bytes → String
  pub isoformat : ℕ → String
  pub fingerprint : Bytes → List (ℕ × ManifestFile) → List (ConflictKey × Conflict) → String
  pub parse : Bytes → Result (List CsvRow)
  pub validate : List CsvRow → ℕ → List Expense × List Rejected
  pub aggregate :
      List (ℕ × List String) → List Expense → ℕ → List String → List String → Result Output
  pub render : String → ℕ → String → Output → Result Bytes
  pub threshold : ℕ × ℕ
  pub mark_failed : Exn → Result (Unit {0})
  pub report_dir : PurePath

pub data Outcome : Type 0 where
  already_running : Outcome
  waiting : Outcome
  unchanged : Outcome
  published : Outcome

-- UPDATE ... SET ... WHERE ...
unfoldable pub update : (Run → Bool) → (Run → Run) → List Run → List Run
update test change [] = []
update test change (r ∷ runs) = (if test r then change r else r) ∷ update test change runs

abbrev pub with_runs : List Run → World → World
with_runs runs w = record {
  landing = w.landing;
  bucket = w.bucket;
  conflicts = w.conflicts;
  runs = runs;
  reports = w.reports;
  profits = w.profits;
  zones = w.zones;
  quarantine = w.quarantine;
  disk = w.disk;
}

abbrev pub with_status : String → Option ℕ → Option ℕ → Option RunError → Option ℕ → Run → Run
with_status status rows_in rows_out error ended r = record {
  run_id = r.run_id;
  dt = r.dt;
  stage = r.stage;
  status = status;
  rows_in = rows_in;
  rows_out = rows_out;
  error = error;
  started_at = r.started_at;
  ended_at = ended;
}
