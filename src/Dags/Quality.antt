-- ===== src/Dags/Quality.antt =====
-- airflow/dags/data_quality_dag.py: the four checks. A check that fails raises; the verification of the
-- archives also stores what it has verified. `manifest_fingerprint` of common/archive.py, the digest of
-- a manifest's canonical JSON, is a parameter.
pub mod Checked
pub mod Exports
mod Tests
use fleet_lambda_platform.Base.{
  ℕ, ◌+◌, ◌*◌, String, Bool, true, false, ◌&&◌, ◌||◌, not, Option, none, some, List, [], ◌∷◌, keep,
  all, elem, length, take, ◌==◌, if◌then◌else◌, eqb, ltb, leb, string_eq, nat_eq, pair_eq, list_eq,
}
use fleet_lambda_platform.Base.Dict.{lookup, insert, keys}
use fleet_lambda_platform.Base.Sort.{sort_by}
use fleet_lambda_platform.Base.Result.{Result, ok, err, value_error}
use fleet_lambda_platform.Common.Archive.{Bytes, Bucket, Batch, Manifest, ManifestFile, digest}
use fleet_lambda_platform.Common.Publication.{Disk, algorithm_version, manifest_matches}
use fleet_lambda_platform.Base.Paths.{PurePath}
use fleet_lambda_platform.Batch.Reconcile.{Run, Quarantined, ReportStatus}

abbrev pub raise_unless : Bool → String → Result (Unit {0})
raise_unless true message = ok tt
raise_unless false message = err (value_error message)

-- bad_rows / total_rows > DQ_FAILURE_THRESHOLD, which is `threshold.0 / threshold.1`
abbrev pub exceeds : ℕ × ℕ → ℕ → Option ℕ → Bool
exceeds threshold bad none = false
exceeds threshold bad (some total) =
    not (eqb total 0) && ltb (threshold.0 * total) (bad * threshold.1)

abbrev pub bad_rows : List Quarantined → Run → ℕ
bad_rows quarantine r = length (keep (λ q. q.run_id == r.run_id) quarantine)

-- started_at > now() - interval '24 hours' AND rows_in IS NOT NULL; a null total exceeds nothing
abbrev pub is_recent : ℕ → Run → Bool
is_recent now r = ltb now (r.started_at + 86400000000)

unfoldable pub check_quarantine_rate : ℕ × ℕ → ℕ → List Run → List Quarantined → Result (Unit {0})
check_quarantine_rate threshold now runs quarantine =
    raise_unless
      (all (λ r. not (exceeds threshold (bad_rows quarantine r) r.rows_in))
        (keep (is_recent now) runs))
      "DQ quarantine rate exceeded"

-- `received` are the values of the column received_at
unfoldable pub check_dead_letter_rate : ℕ → List ℕ → Result (Unit {0})
check_dead_letter_rate now received =
    raise_unless (leb (length (keep (λ t. ltb now (t + 300000000)) received)) 10)
      "Dead-letter spike"

-- dq_archive_verification, less its key batch_id
pub record Verification : Type 0 where
  pub manifest_sha256 : String
  pub verified_at : ℕ

module _ (num_rows : Bytes → ℕ) (sha256 : Bytes → String) (manifest_fingerprint : Manifest → String)
    (bucket : Bucket) (now : ℕ) where
  abbrev pub differs : Option Verification → String → Bool
  differs none print = true
  differs (some v) print = not (v.manifest_sha256 == print)

  unfoldable pub is_changed : List (ℕ × Verification) → Batch → Bool
  is_changed prior b = elim b.archive_manifest [
    | none ↦ true
    | some m ↦ differs (lookup b.batch_id prior) (manifest_fingerprint m)
  ]

  -- the order by (verified_at, batch_id)
  abbrev pub verified_before : ℕ × Verification → ℕ × Verification → Bool
  verified_before a b =
      ltb a.1.verified_at b.1.verified_at || (eqb a.1.verified_at b.1.verified_at && leb a.0 b.0)

  unfoldable pub sample_ids : List (ℕ × Verification) → List ℕ
  unfolding sort_by
  sample_ids prior = keys (take 25 (sort_by verified_before prior))

  -- a dict of batches by their ids, updated
  unfoldable pub add_batches : List Batch → List (ℕ × Batch) → List (ℕ × Batch)
  add_batches [] found = found
  add_batches (b ∷ batches) found = add_batches batches (insert b.batch_id b found)

  unfoldable pub candidates : List Batch → List (ℕ × Verification) → List (ℕ × Batch)
  unfolding is_changed sample_ids add_batches
  candidates batches prior =
      add_batches (keep (λ b. elem b.batch_id (sample_ids prior)) batches)
        (add_batches (keep (is_changed prior) batches) [])

  abbrev pub is_digest : String → Result String → Bool
  is_digest sha (ok d) = d == sha
  is_digest sha (err _) = false

  -- the loop over a manifest's files, up to the first that does not match
  unfoldable pub all_match : ℕ → List ManifestFile → Bool
  unfolding digest
  all_match batch_id [] = true
  all_match batch_id (f ∷ files) =
      is_digest f.sha256 (digest num_rows sha256 bucket (batch_id, f.path.parts))
      && all_match batch_id files

  unfoldable pub is_intact : Batch → Bool
  unfolding all_match
  is_intact b = elim b.archive_manifest [
    | none ↦ false
    | some m ↦ eqb m.rows b.rows_valid && all_match b.batch_id m.files
  ]

  abbrev pub fingerprint_of : Batch → String
  fingerprint_of b = elim b.archive_manifest [ none ↦ "" | some m ↦ manifest_fingerprint m ]

  unfoldable pub store_verified :
      List (ℕ × Batch) → List (ℕ × Verification) → List (ℕ × Verification)
  store_verified [] prior = prior
  store_verified ((id, b) ∷ found) prior =
      store_verified found
        (insert b.batch_id (record { manifest_sha256 = fingerprint_of b; verified_at = now }) prior)

  unfoldable pub check_archive_integrity :
      List Batch → List (ℕ × Verification) → Result (Unit {0}) × List (ℕ × Verification)
  unfolding candidates is_intact store_verified
  check_archive_integrity batches prior =
      let found = candidates batches prior in
      if all (λ c. is_intact c.1) found
      then (ok tt, store_verified found prior)
      else (err (value_error "Archive integrity failed"), prior)

-- the rows of daily_report_status whose export is published
abbrev pub exports : List (ℕ × ReportStatus) → List (ℕ × ReportStatus)
exports reports = keep (λ r. r.1.export_status == "published") reports

unfoldable pub check_export_integrity :
    (Bytes → String) → Disk → PurePath → List (ℕ × ReportStatus) → Result (Unit {0})
unfolding manifest_matches
check_export_integrity sha256 disk report_dir reports =
    let bad =
      keep (λ r. not (manifest_matches sha256 disk report_dir r.1.export_manifest))
        (exports reports) in
    let old = keep (λ r. not (eqb r.1.version algorithm_version)) (exports reports) in
    raise_unless (eqb (length bad) 0 && eqb (length old) 0) "Export integrity"
