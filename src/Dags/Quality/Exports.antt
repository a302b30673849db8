-- ===== src/Dags/Quality/Exports.antt =====
-- The check of the exports of airflow/dags/data_quality_dag.py.
use fleet_lambda_platform.Base.{
  ℕ, String, Bool, true, false, not, List, [], ◌∷◌, keep, length, In, All, All-In, All-of_In,
  In-keep, keep-In, keep_none, ◌≡◌, ◌↔◌, refl, arith, ◌==◌, eqb, eqb_iff, string_eq, nat_eq,
  pair_eq, list_eq,
}
use fleet_lambda_platform.Base.Result.{ok}
use fleet_lambda_platform.Base.Paths.{PurePath}
use fleet_lambda_platform.Common.Archive.{Bytes}
use fleet_lambda_platform.Common.Publication.{Disk, algorithm_version, manifest_matches}
use fleet_lambda_platform.Batch.Reconcile.{ReportStatus}
use fleet_lambda_platform.Dags.Quality.{exports, check_export_integrity, raise_unless}

-- The published reports that the check of the exports wants: a manifest that matches the files, and the
-- current algorithm version.
abbrev pub IsSound : (Bytes → String) → Disk → PurePath → ℕ × ReportStatus → Type 0
IsSound sha256 disk report_dir r =
    r.1.export_status ≡ "published"
    → (manifest_matches sha256 disk report_dir r.1.export_manifest ≡ true)
      × (r.1.version ≡ algorithm_version)

none_kept :
    {A : Type 0} (test : A → Bool) (xs : List A)
    → eqb (length (keep test xs)) 0 ≡ true
    → All (λ x. test x ≡ false) xs
none_kept test [] h = tt
none_kept test (x ∷ xs) h = ground (arith, none_kept test xs)

kept_none :
    {A : Type 0} (test : A → Bool) (xs : List A)
    → All (λ x. test x ≡ false) xs
    → eqb (length (keep test xs)) 0 ≡ true
kept_none test xs h = rw (keep_none test xs h) refl

raise_unless-ok : (b : Bool) (message : String) → raise_unless b message ≡ ok tt → b ≡ true
raise_unless-ok true message h = refl
raise_unless-ok false message h = cc

module _ (sha256 : Bytes → String) (disk : Disk) (report_dir : PurePath) where
  abbrev is_corrupt : ℕ × ReportStatus → Bool
  is_corrupt r = not (manifest_matches sha256 disk report_dir r.1.export_manifest)

  abbrev is_outdated : ℕ × ReportStatus → Bool
  is_outdated r = not (eqb r.1.version algorithm_version)

  sound_of :
      (r : ℕ × ReportStatus)
      → is_corrupt r ≡ false
      → is_outdated r ≡ false
      → (manifest_matches sha256 disk report_dir r.1.export_manifest ≡ true)
        × (r.1.version ≡ algorithm_version)
  sound_of r p q = (ground arith, (eqb_iff r.1.version algorithm_version).0 (ground arith))

  -- The check of the exports does not raise exactly when every published report has files that match its
  -- manifest and the current algorithm version.
  pub check_export_integrity_iff :
      (reports : List (ℕ × ReportStatus))
      → (check_export_integrity sha256 disk report_dir reports ≡ ok tt)
        ↔ All (IsSound sha256 disk report_dir) reports
  unfolding check_export_integrity
  check_export_integrity_iff reports =
      let shown = exports reports in
      let published : ℕ × ReportStatus → Bool = λ r. r.1.export_status == "published" in
      (
        λ h.
            let both = raise_unless-ok _ "Export integrity" h in
            let corrupt = none_kept is_corrupt shown (ground arith) in
            let outdated = none_kept is_outdated shown (ground arith) in
            All-of_In _ reports (λ r m status.
              let there = In-keep published r reports m (rw status refl) in
              sound_of r (All-In (λ x. is_corrupt x ≡ false) r shown corrupt there)
                (All-In (λ x. is_outdated x ≡ false) r shown outdated there)),
        λ sound.
            let fine : (r : ℕ × ReportStatus)
                → In r shown
                → (manifest_matches sha256 disk report_dir r.1.export_manifest ≡ true)
                  × (r.1.version ≡ algorithm_version) =
              λ r m.
                let (i, status) = keep-In published r reports m in
                All-In (IsSound sha256 disk report_dir) r reports sound i
                  ((string_eq.beq_iff r.1.export_status "published").0 status) in
            rw
              (
                kept_none is_corrupt shown (All-of_In _ shown (λ r m. rw ((fine r m).0) refl)),
                kept_none is_outdated shown (
                    All-of_In _ shown
                      (λ r m. rw ((eqb_iff r.1.version algorithm_version).1 (fine r m).1) refl)),
              )
              refl,
      )
