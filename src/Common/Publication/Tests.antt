-- ===== src/Common/Publication/Tests.antt =====
-- Runs of common/publication.py on four small report files, and the theorems of its modules at
-- these inputs.
use fleet_lambda_platform.Base.{
  String, true, false, some, elem, string_eq, List, [], ◌∷◌, ◌≡◌, ◌≢◌, ◌↔◌, refl, list_beq,
}
use fleet_lambda_platform.Base.Result.{ok}
use fleet_lambda_platform.Base.Paths.{PurePath}
use fleet_lambda_platform.Common.Publication.{
  Bytes, Disk, ExportItem, ExportManifest, build_export_manifest, manifest_matches,
}
use fleet_lambda_platform.Common.Publication.Verified.{IsPublished, manifest_matches_iff}
use fleet_lambda_platform.Common.Publication.Roundtrip.{
  IsReportPath, build_export_manifest-manifest_matches,
}

-- A digest that tells the empty file from the others.
abbrev digest : Bytes → String
digest [] = "empty"
digest (b ∷ bs) = "full"

abbrev root : PurePath
root = record { absolute = true; parts = "data" ∷ [] }

abbrev report : String → PurePath
report name = record { absolute = true; parts = "data" ∷ "reports" ∷ name ∷ [] }

abbrev paths : List PurePath
paths = report "d.json" ∷ report "d.csv" ∷ report "d.html" ∷ report "d.parquet" ∷ []

abbrev disk : Disk
disk =
    ((true, "data" ∷ "reports" ∷ "d.json" ∷ []), 1 ∷ [])
    ∷ ((true, "data" ∷ "reports" ∷ "d.csv" ∷ []), [])
    ∷ ((true, "data" ∷ "reports" ∷ "d.html" ∷ []), 2 ∷ [])
    ∷ ((true, "data" ∷ "reports" ∷ "d.parquet" ∷ []), 3 ∷ [])
    ∷ []

abbrev item : String → String → String × ExportItem
item f d = (
  f,
  record { path = record { absolute = false; parts = "reports" ∷ d ∷ [] }; sha256 = some "full" },
)

abbrev manifest : ExportManifest
manifest = record {
  version = some 1;
  files =
      item "json" "d.json"
      ∷ (
        "csv",
        record {
          path = record { absolute = false; parts = "reports" ∷ "d.csv" ∷ [] };
          sha256 = some "empty";
        },
      )
      ∷ item "html" "d.html"
      ∷ item "parquet" "d.parquet"
      ∷ [];
}

builds : build_export_manifest digest disk paths root ≡ ok manifest
unfolding build_export_manifest list_beq
builds = refl

manifest_matches_iff_example :
    (manifest_matches digest disk root (some manifest) ≡ true)
    ↔ IsPublished digest disk root (some manifest)
manifest_matches_iff_example = manifest_matches_iff digest disk root (some manifest)

nonempty : (b : Bytes) → digest b ≢ ""
nonempty [] e = cc
nonempty (b ∷ bs) e = cc

is_report :
    (name : String)
    → (elem ".." ("reports" ∷ name ∷ []) ≡ false)
    → IsReportPath digest disk root (report name)
is_report name np = record {
  below = "reports" ∷ name ∷ [];
  is_below = refl;
  is_nonempty = λ e. cc;
  no_parent = np;
}

build_export_manifest-manifest_matches_example :
    manifest_matches digest disk root (some manifest) ≡ true
build_export_manifest-manifest_matches_example =
    build_export_manifest-manifest_matches digest disk root nonempty paths manifest
      (
        is_report "d.json" refl,
        (is_report "d.csv" refl, (is_report "d.html" refl, (is_report "d.parquet" refl, tt))),
      )
      builds
