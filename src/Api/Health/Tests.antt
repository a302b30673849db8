-- ===== src/Api/Health/Tests.antt =====
-- Answers of the health endpoints of api/main.py over small tables, and the theorems of the modules
-- beside at these inputs.
use fleet_lambda_platform.Base.{
  ℕ, ◌+◌, ◌*◌, String, true, false, none, some, List, [], ◌∷◌, ◌≡◌, ◌↔◌, refl, list_beq,
}
use fleet_lambda_platform.Base.Int.{pos}
use fleet_lambda_platform.Base.Paths.{PurePath}
use fleet_lambda_platform.Base.Result.{ok}
use fleet_lambda_platform.Common.Publication.{
  Bytes, Disk, ExportItem, ExportManifest, manifest_matches,
}
use fleet_lambda_platform.Api.Health.{
  Summary, Run, ReportStatus, Tables, day_length, first_day, health_pipeline, health_reports,
}
use fleet_lambda_platform.Api.Health.Pipeline.{IsLive, health_pipeline_iff}
use fleet_lambda_platform.Api.Health.Reports.{IsComplete, health_reports-IsComplete}

abbrev summary : Summary
summary = record { last_event_age = some (pos 2000000); raw_archive_lag = some 60000000 }

health_pipeline_iff_example :
    ((health_pipeline 30 10 (ok summary)).0 ≡ 200) ↔ IsLive 30 10 (ok summary)
health_pipeline_iff_example = health_pipeline_iff 30 10 (ok summary)

abbrev digest : Bytes → String
digest b = "digest"

abbrev root : PurePath
root = record { absolute = true; parts = "reports" ∷ [] }

abbrev item : String → String → String × ExportItem
item f name =
    (f, record { path = record { absolute = false; parts = name ∷ [] }; sha256 = some "digest" })

abbrev manifest : ExportManifest
manifest = record {
  version = some 1;
  files =
      item "json" "d.json"
      ∷ item "csv" "d.csv"
      ∷ item "html" "d.html"
      ∷ item "parquet" "d.parquet"
      ∷ [];
}

abbrev disk : Disk
disk =
    ((true, "reports" ∷ "d.json" ∷ []), 1 ∷ [])
    ∷ ((true, "reports" ∷ "d.csv" ∷ []), 1 ∷ [])
    ∷ ((true, "reports" ∷ "d.html" ∷ []), 1 ∷ [])
    ∷ ((true, "reports" ∷ "d.parquet" ∷ []), 1 ∷ [])
    ∷ []

abbrev report : ReportStatus
report = record {
  dt = first_day;
  export_status = "published";
  export_manifest = some manifest;
  algorithm_version = 4;
}

-- The archive's last event lies in the second day, or some days later.
abbrev tables : ℕ → List Run → Tables
tables days runs = record {
  runs = runs;
  reports = report ∷ [];
  batch_times = none ∷ some ((first_day + days) * day_length + 5) ∷ [];
  event_times = ((first_day + days) * day_length + 7) ∷ [];
}

abbrev run : ℕ → String → Run
run dt status = record { dt = dt; status = status; started_at = 1000 }

is_healthy :
    (health_reports 10 digest disk root 2000 (ok (tables 1 (run first_day "success" ∷ [])))).status
    ≡ "healthy"
unfolding health_reports list_beq manifest_matches
is_healthy = refl

health_reports-IsComplete_example : IsComplete (tables 1 (run first_day "success" ∷ []))
health_reports-IsComplete_example =
    health_reports-IsComplete 10 digest disk root 2000 (tables 1 (run first_day "success" ∷ []))
      is_healthy
