-- ===== src/Dags/Quality/Tests.antt =====
-- A check of airflow/dags/data_quality_dag.py over one archived batch and one report, and the theorems
-- at these inputs.
use fleet_lambda_platform.Base.{
  ℕ, String, true, false, none, some, List, [], ◌∷◌, length, All, ◌≡◌, ◌↔◌, refl, sym, inl, inr,
  ◌∙◌, list_beq,
}
use fleet_lambda_platform.Base.Paths.{PurePath}
use fleet_lambda_platform.Base.Result.{ok}
use fleet_lambda_platform.Common.Archive.{Bytes, Bucket, Batch, Manifest}
use fleet_lambda_platform.Batch.Reconcile.{ReportStatus}
use fleet_lambda_platform.Dags.Quality.{
  Verification, is_changed, check_archive_integrity, check_export_integrity, check_dead_letter_rate,
}
use fleet_lambda_platform.Dags.Quality.Checked.{OneEach, Intact, check_archive_integrity-Intact}
use fleet_lambda_platform.Dags.Quality.Exports.{IsSound, check_export_integrity_iff}

abbrev sha256 : Bytes → String
sha256 [] = "empty"
sha256 (b ∷ bs) = "full"

abbrev fingerprint : Manifest → String
fingerprint m = "manifest"

abbrev bucket : Bucket
bucket = ((0, "dt=2026-03-01" ∷ "a.parquet" ∷ []), 1 ∷ 2 ∷ []) ∷ []

abbrev batch : Batch
batch = record {
  batch_id = 0;
  rows_valid = 2;
  archive_manifest = some (record {
    version = 1;
    files =
        record {
          path = record { absolute = false; parts = "dt=2026-03-01" ∷ "a.parquet" ∷ [] };
          sha256 = "full";
          rows = 2;
        }
        ∷ [];
    rows = 2;
  });
}

one_batch : OneEach (batch ∷ [])
one_batch a b (inl p) (inl q) same = p ∙ sym q
one_batch a b (inl p) (inr n) same = absurd n
one_batch a b (inr m) n same = absurd m

abbrev after_check : List (ℕ × Verification)
after_check = (0, record { manifest_sha256 = "manifest"; verified_at = 9 }) ∷ []

checked :
    check_archive_integrity length sha256 fingerprint bucket 9 (batch ∷ []) []
    ≡ (ok tt, after_check)
unfolding check_archive_integrity list_beq
checked = refl

is_new : is_changed length sha256 fingerprint bucket 9 [] batch ≡ true
unfolding is_changed
is_new = refl

check_archive_integrity-Intact_example :
    Intact sha256 bucket batch
    × (is_changed length sha256 fingerprint bucket 9 after_check batch ≡ false)
check_archive_integrity-Intact_example =
    check_archive_integrity-Intact length sha256 fingerprint bucket 9 (batch ∷ []) [] one_batch
      after_check batch checked (inl refl) is_new

abbrev pending : ℕ × ReportStatus
pending = (
  1,
  record {
    run_id = "run";
    input_fingerprint = "inputs";
    coverage = [];
    export_status = "pending";
    version = 3;
    output_sha256 = none;
    export_manifest = none;
  },
)

abbrev reports_dir : PurePath
reports_dir = record { absolute = true; parts = "data" ∷ "reports" ∷ [] }

check_export_integrity_iff_example :
    (check_export_integrity sha256 [] reports_dir (pending ∷ []) ≡ ok tt)
    ↔ All (IsSound sha256 [] reports_dir) (pending ∷ [])
check_export_integrity_iff_example = check_export_integrity_iff sha256 [] reports_dir (pending ∷ [])

no_spike : check_dead_letter_rate 400000000 (1 ∷ 200000000 ∷ []) ≡ ok tt
unfolding check_dead_letter_rate
no_spike = refl
