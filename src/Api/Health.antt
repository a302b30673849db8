-- ===== src/Api/Health.antt =====
-- api/main.py: the health endpoints. Instants are microseconds since the year 1, dates are days
-- since then. The tables that the queries read are lists; a database that cannot be reached is an
-- exception in their place. The settings NO_DATA_SECONDS and RAW_ARCHIVE_LAG_MINUTES, the digest
-- and the files below the report directory are parameters.
pub mod Pipeline
pub mod Reports
mod Tests
use fleet_lambda_platform.Base.{
  larger, greatest, present, ℕ, zero, suc, ◌+◌, ◌-◌, ◌*◌, ◌/◌, ◌≤◌, max, String, Bool, true, false,
  ◌||◌, ◌&&◌, not, Option, none, some, List, [], ◌∷◌, map, any, keep, length, is_none,
  if◌then◌else◌, eqb, ltb, leb, string_eq, nat_eq, option_eq, ◌==◌,
}
use fleet_lambda_platform.Base.Dict.{lookup, insert, contains}
use fleet_lambda_platform.Base.Int.{ℤ, leb_ℤ, pos}
use fleet_lambda_platform.Base.Paths.{PurePath}
use fleet_lambda_platform.Base.Result.{Result, ok, err, Exn}
use fleet_lambda_platform.Common.Publication.{
  Bytes, Disk, ExportManifest, algorithm_version, manifest_matches,
}

-- Seconds in the columns of `pipeline_status` are counted in microseconds here.
abbrev pub second : ℕ
second = 1000000

-- The columns that `pipeline_status` decides by.
pub record Summary : Type 0 where
  pub last_event_age : Option ℤ
  pub raw_archive_lag : Option ℕ

pub record PipelineStatus : Type 0 where
  pub status : String
  pub healthy : Bool

abbrev at_most : Option ℤ → ℕ → Bool
at_most none limit = false
at_most (some age) limit = leb_ℤ age (pos limit)

abbrev pub lag_within : Option ℕ → ℕ → Bool
lag_within none limit = false
lag_within (some lag) limit = leb lag limit

abbrev pub archive_current : ℕ → Option ℕ → Bool
archive_current lag_minutes lag = lag_within lag (lag_minutes * 60 * second)

abbrev pub fresh : ℕ → Summary → Bool
fresh no_data_seconds summary = at_most summary.last_event_age (no_data_seconds * second)

module _ (no_data_seconds raw_archive_lag_minutes : ℕ) where
  unfoldable pub pipeline_status : Summary → PipelineStatus
  pipeline_status summary =
      let healthy =
        fresh no_data_seconds summary
        && archive_current raw_archive_lag_minutes summary.raw_archive_lag in
      record {
        status =
            if healthy
            then "healthy"
            else if not (fresh no_data_seconds summary)
            then "no_recent_data"
            else "raw_archive_lag";
        healthy = healthy;
      }

  -- the status code and the body
  unfoldable pub health_pipeline : Result Summary → ℕ × PipelineStatus
  unfolding pipeline_status
  health_pipeline (err e) = (503, record { status = "database_unavailable"; healthy = false })
  health_pipeline (ok summary) =
      let status = pipeline_status summary in ((if status.healthy then 200 else 503), status)

-- A row of pipeline_runs.
pub record Run : Type 0 where
  pub dt : ℕ
  pub status : String
  pub started_at : ℕ

-- A row of daily_report_status.
pub record ReportStatus : Type 0 where
  pub dt : ℕ
  pub export_status : String
  pub export_manifest : Option ExportManifest
  pub algorithm_version : ℕ

-- The tables; of pipeline_batches the column max_event_ts, of stream_event_keys the column
-- event_ts.
pub record Tables : Type 0 where
  pub runs : List Run
  pub reports : List ReportStatus
  pub batch_times : List (Option ℕ)
  pub event_times : List ℕ

abbrev pub day_length : ℕ
day_length = 86400000000

-- date '2026-03-01'
abbrev pub first_day : ℕ
first_day = 739675

-- SELECT DISTINCT ON (dt) ... ORDER BY dt, started_at DESC
abbrev pub newest : Run → Option Run → Run
newest r none = r
newest r (some s) = if ltb s.started_at r.started_at then r else s

unfoldable pub latest_runs : List Run → List (ℕ × Run)
latest_runs [] = []
latest_runs (r ∷ rs) = let rest = latest_runs rs in insert r.dt (newest r (lookup r.dt rest)) rest

abbrev pub is_failed : Run → Bool
is_failed r = r.status == "failed"

-- running since more than 20 minutes
abbrev pub is_stalled : ℕ → Run → Bool
is_stalled now r = r.status == "running" && ltb (r.started_at + 20 * 60 * second) now

abbrev pub count_runs : (Run → Bool) → List Run → ℕ
count_runs test runs = length (keep (λ e. test e.1) (latest_runs runs))

abbrev pub is_published : ReportStatus → Bool
is_published r = r.export_status == "published"

-- max(max_event_ts)::date - 1
abbrev pub day_before : Option ℕ → Option ℕ
day_before none = none
day_before (some t) = some (t / day_length - 1)

abbrev pub lag_between : Option ℕ → Option ℕ → Option ℕ
lag_between (some raw) (some live) = some (live - raw)
lag_between _ _ = none

-- the days from `day` on, `n` of them, that have no row
unfoldable pub missing_from : List ReportStatus → ℕ → ℕ → ℕ
missing_from reports day zero = 0
missing_from reports day (suc n) =
    let rest = missing_from reports (day + 1) n in
    if any (λ r. eqb r.dt day) reports then rest else rest + 1

abbrev pub missing_days : List ReportStatus → Option ℕ → ℕ
missing_days reports none = 0
missing_days reports (some expected) = missing_from reports first_day (expected + 1 - first_day)

abbrev pub has_active_run : ℕ → List Run → Option ℕ → Bool
has_active_run now runs none = false
has_active_run now runs (some expected) =
    any
      (λ r. eqb r.dt expected && r.status == "running" && ltb now (r.started_at + 3 * 60 * second))
      runs

-- What the queries of `health_reports` and the checks of the files give.
pub record ReportHealth : Type 0 where
  pub failed_dates : ℕ
  pub stalled_dates : ℕ
  pub pending_exports : ℕ
  pub bad_exports : ℕ
  pub old_versions : ℕ
  pub missing : ℕ
  pub expected : Option ℕ
  pub latest_report : Option ℕ
  pub raw_lag : Option ℕ
  pub active_run : Bool

pub record ReportResponse : Type 0 where
  pub status_code : ℕ
  pub healthy : Bool
  pub status : String
  pub invalid_exports : ℕ
  pub outdated_dates : ℕ
  pub missing_dates : ℕ

-- latest_report is not None and latest_report >= expected
abbrev pub reaches : Option ℕ → Option ℕ → Bool
reaches (some latest) (some expected) = leb expected latest
reaches _ _ = false

-- latest_report == expected - timedelta(days=1)
abbrev pub one_behind : Option ℕ → Option ℕ → Bool
one_behind (some latest) (some expected) = eqb (latest + 1) expected
one_behind _ _ = false

module _ (raw_archive_lag_minutes : ℕ) where
  abbrev pub is_healthy : ReportHealth → Bool
  is_healthy h =
      eqb h.failed_dates 0
      && eqb h.stalled_dates 0
      && eqb h.pending_exports 0
      && eqb h.bad_exports 0
      && eqb h.old_versions 0
      && eqb h.missing 0
      && reaches h.latest_report h.expected
      && archive_current raw_archive_lag_minutes h.raw_lag

  abbrev pub one_date_catchup : ReportHealth → Bool
  one_date_catchup h = eqb h.missing 1 && one_behind h.latest_report h.expected

  abbrev pub is_processing : ReportHealth → Bool
  is_processing h =
      not (is_healthy h)
      && (h.active_run || one_date_catchup h)
      && eqb h.failed_dates 0
      && eqb h.stalled_dates 0
      && eqb h.bad_exports 0
      && eqb h.old_versions 0
      && archive_current raw_archive_lag_minutes h.raw_lag

  unfoldable pub report_response : ReportHealth → ReportResponse
  report_response h =
      if is_processing h
      then record {
        status_code = 200;
        healthy = true;
        status = "processing";
        invalid_exports = 0;
        outdated_dates = 0;
        missing_dates = h.missing;
      }
      else record {
        status_code = if is_healthy h then 200 else 503;
        healthy = is_healthy h;
        status = if is_healthy h then "healthy" else "degraded";
        invalid_exports = h.bad_exports;
        outdated_dates = h.old_versions;
        missing_dates = h.missing;
      }

module _ (sha256 : Bytes → String) (disk : Disk) (root : PurePath) where
  abbrev pub is_bad_export : ReportStatus → Bool
  is_bad_export r = not (manifest_matches sha256 disk root r.export_manifest)

  unfoldable pub report_health : ℕ → Tables → ReportHealth
  unfolding latest_runs missing_from greatest
  report_health now t =
      let raw = greatest (present t.batch_times) in
      let expected = day_before raw in
      let exports = keep is_published t.reports in
      record {
        failed_dates = count_runs is_failed t.runs;
        stalled_dates = count_runs (is_stalled now) t.runs;
        pending_exports = length (keep (λ r. not (is_published r)) t.reports);
        bad_exports = length (keep is_bad_export exports);
        old_versions = length (keep (λ r. not (eqb r.algorithm_version algorithm_version)) exports);
        missing = missing_days t.reports expected;
        expected = expected;
        latest_report = greatest (map (λ r. r.dt) exports);
        raw_lag = lag_between raw (greatest t.event_times);
        active_run = has_active_run now t.runs expected;
      }

module _ (raw_archive_lag_minutes : ℕ) (sha256 : Bytes → String) (disk : Disk)
    (root : PurePath) where
  unfoldable pub health_reports : ℕ → Result Tables → ReportResponse
  unfolding report_health report_response
  health_reports now (err e) = record {
    status_code = 503;
    healthy = false;
    status = "database_unavailable";
    invalid_exports = 0;
    outdated_dates = 0;
    missing_dates = 0;
  }
  health_reports now (ok t) =
      report_response raw_archive_lag_minutes (report_health sha256 disk root now t)
