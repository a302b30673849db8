-- ===== src/Common/Archive/Tests.antt =====
-- Runs of common/archive.py on a bucket with two files, and the theorems of its modules at these
-- inputs.
use fleet_lambda_platform.Base.{ℕ, String, false, some, [], ◌∷◌, ◌≡◌, refl, All, length, list_beq}
use fleet_lambda_platform.Base.Result.{ok}
use fleet_lambda_platform.Common.Archive.{
  Bytes, Bucket, ManifestFile, Manifest, Batch, build_manifest, verified_paths,
}
use fleet_lambda_platform.Common.Archive.Intact.{
  IsIntact, all_keys, day_keys, verified_paths-IsIntact,
}
use fleet_lambda_platform.Common.Archive.Roundtrip.{build_manifest-verified_paths}

abbrev digest_of : Bytes → String
digest_of [] = "empty"
digest_of (b ∷ bs) = "full"

abbrev bucket : Bucket
bucket =
    ((3, "dt=2026-03-02" ∷ "part-0.parquet" ∷ []), 1 ∷ 2 ∷ [])
    ∷ ((3, "dt=2026-03-01" ∷ "part-0.parquet" ∷ []), 4 ∷ [])
    ∷ ((3, "_SUCCESS" ∷ []), [])
    ∷ []

abbrev file : String → ℕ → ManifestFile
file folder rows = record {
  path = record { absolute = false; parts = folder ∷ "part-0.parquet" ∷ [] };
  sha256 = "full";
  rows = rows;
}

abbrev manifest : Manifest
manifest = record {
  version = 1;
  files = file "dt=2026-03-01" 1 ∷ file "dt=2026-03-02" 2 ∷ [];
  rows = 3;
}

abbrev batch : Batch
batch = record { batch_id = 3; rows_valid = 3; archive_manifest = some manifest }

builds : build_manifest length digest_of bucket 3 3 ≡ ok manifest
unfolding build_manifest
builds = refl

verifies :
    verified_paths digest_of bucket (batch ∷ []) "dt=2026-03-02"
    ≡ ok ((3, "dt=2026-03-02" ∷ "part-0.parquet" ∷ []) ∷ [])
unfolding verified_paths list_beq
verifies = refl

build_manifest-verified_paths_example :
    verified_paths digest_of bucket (batch ∷ []) "dt=2026-03-02"
    ≡ ok (day_keys "dt=2026-03-02" 3 manifest.files)
build_manifest-verified_paths_example =
    build_manifest-verified_paths length digest_of bucket 3 3 "dt=2026-03-02" manifest builds

verified_paths-IsIntact_example :
    All (IsIntact digest_of bucket "dt=2026-03-02") (batch ∷ [])
    × ((3, "dt=2026-03-02" ∷ "part-0.parquet" ∷ []) ∷ [] ≡ all_keys "dt=2026-03-02" (batch ∷ []))
verified_paths-IsIntact_example =
    verified_paths-IsIntact digest_of bucket "dt=2026-03-02" (batch ∷ [])
      ((3, "dt=2026-03-02" ∷ "part-0.parquet" ∷ []) ∷ []) verifies
