-- ===== src/Common/Archive/Roundtrip.antt =====
-- How `build_manifest` and `verified_paths` of common/archive.py relate.
use fleet_lambda_platform.Base.{
  and_right, ℕ, String, true, false, not, some, List, [], ◌∷◌, All, All-of_In, All-In, sum_by, elem,
  ◌==◌, ◌≡◌, ◌≢◌, refl, ap, arith, inl, inr, Bool-cases, Option-cases, string_eq, nat_eq, list_eq,
  pair_eq, eqb, append-nil,
}
use text.Mathlib.Text.{starts_with}
use fleet_lambda_platform.Base.Dict.{lookup}
use fleet_lambda_platform.Base.Paths.{codes}
use fleet_lambda_platform.Base.Sort.{All-sort_by}
use fleet_lambda_platform.Base.Result.{ok, raise_if, raise_if-ok, >>=-eq-ok, ok-injective}
use fleet_lambda_platform.Common.Archive.{
  Bytes, Bucket, ManifestFile, Manifest, Batch, ends_with, is_data_file, matching, glob, path_le,
  manifest_file, manifest_files, build_manifest, is_damaged, first_part, verified_files,
  checked_manifest, verified_paths,
}
use fleet_lambda_platform.Common.Archive.Intact.{IsStored, day_keys, in_folder}

dots_end : ends_with (codes "..") (codes ".parquet") ≡ false
unfolding ends_with
dots_end = refl

-- neither a folder dt=… nor a name that ends in .parquet is ".."
not_up : (d n : String) → is_data_file (d ∷ n ∷ []) ≡ true → elem ".." (d ∷ n ∷ []) ≡ false
unfolding is_data_file
not_up d n h = elim (Bool-cases (".." == d)) [
  | inl e ↦ cc (rw (← (string_eq.beq_iff ".." d).0 e) at h)
  | inr nd ↦ elim (Bool-cases (".." == n)) [
    | inl e ↦
        let h' = rw (← (string_eq.beq_iff ".." n).0 e) at h in
        cc (dots_end, and_right (starts_with d "dt=") _ h')
    | inr nn ↦ rw (nd, nn)
  ]
]

-- A path that the glob matches is in a folder dt=…, so it does not lead up.
is_data_file-no_parent :
    (path : List String) → is_data_file path ≡ true → (elem ".." path ≡ false) × (path ≢ [])
unfolding is_data_file
is_data_file-no_parent [] h = cc
is_data_file-no_parent (d ∷ []) h = cc
is_data_file-no_parent (d ∷ n ∷ []) h = (not_up d n h, λ e. cc)
is_data_file-no_parent (d ∷ n ∷ p ∷ ps) h = cc

matching-All : (id : ℕ) (bucket : Bucket) → All (λ p. is_data_file p ≡ true) (matching id bucket)
matching-All id [] = tt
matching-All id (((i, p), b) ∷ bucket) = ground (arith, matching-All id bucket)

abbrev IsSafe : ManifestFile → Type 0
IsSafe f = (f.path.absolute ≡ false) × (elem ".." f.path.parts ≡ false) × (f.path.parts ≢ [])

module _ (sha256 : Bytes → String) (bucket : Bucket) (folder : String) where
  stored_sound :
      (id : ℕ) (f : ManifestFile) (b : Bytes)
      → lookup (id, f.path.parts) bucket ≡ some b
      → sha256 b ≡ f.sha256
      → is_damaged sha256 bucket (id, f.path.parts) f.sha256 ≡ false
  unfolding is_damaged
  stored_sound id f b there same =
      rw (there, is_damaged) (ground (arith, string_eq.beq_iff (sha256 b) f.sha256))

  verified_files_of_stored :
      (id : ℕ) (files : List ManifestFile)
      → All IsSafe files
      → All (λ f. in_folder folder f ≡ true → IsStored sha256 bucket id f) files
      → verified_files sha256 bucket id folder files ≡ ok (day_keys folder id files)
  unfolding verified_files first_part
  verified_files_of_stored id [] safe stored = refl
  verified_files_of_stored id (f ∷ files) safe stored =
      let rest = verified_files_of_stored id files safe.1 stored.1 in
      elim (Bool-cases (in_folder folder f)) [
        | inl day ↦
            let (b, there, same) = stored.0 day in
            let sound = stored_sound id f b there same in ground arith
        | inr other ↦ ground arith
      ]

  checked_manifest_of_recorded :
      (batch : Batch) (m : Manifest)
      → batch.archive_manifest ≡ some m
      → m.version ≡ 1
      → m.rows ≡ batch.rows_valid
      → sum_by (λ f. f.rows) m.files ≡ m.rows
      → checked_manifest batch ≡ ok m
  unfolding checked_manifest
  checked_manifest_of_recorded batch m a b c d = ground arith

  -- One batch whose manifest is as recorded, over stored files.
  verified_paths_of_stored :
      (batch : Batch) (m : Manifest)
      → checked_manifest batch ≡ ok m
      → All IsSafe m.files
      → All (IsStored sha256 bucket batch.batch_id) m.files
      → verified_paths sha256 bucket (batch ∷ []) folder
        ≡ ok (day_keys folder batch.batch_id m.files)
  unfolding verified_paths
  verified_paths_of_stored batch m c safe stored = rw c (
      rw
        (verified_files_of_stored batch.batch_id m.files safe
          (All-of_In _ m.files (λ f i _. All-In _ f m.files stored i)))
        (ap ok (append-nil _)))

module _ (num_rows : Bytes → ℕ) (sha256 : Bytes → String) (bucket : Bucket) where
  -- A recorded file: its path was globbed, and an object with the digest is there.
  abbrev Recorded : ℕ → ManifestFile → Type 0
  Recorded id f =
      (f.path.absolute ≡ false) × (is_data_file f.path.parts ≡ true) × IsStored sha256 bucket id f

  Recorded-IsSafe : (id : ℕ) (f : ManifestFile) → Recorded id f → IsSafe f
  Recorded-IsSafe id f (a, d, _) =
      let (up, ne) = is_data_file-no_parent f.path.parts d in (a, up, ne)

  manifest_file-Recorded :
      (id : ℕ) (p : List String) (f : ManifestFile)
      → is_data_file p ≡ true
      → manifest_file num_rows sha256 bucket id p ≡ ok f
      → Recorded id f
  unfolding manifest_file
  manifest_file-Recorded id p f h made = elim (Option-cases (lookup (id, p) bucket)) [
    | inl e ↦ ground arith
    | inr (b, e) ↦ (ground arith, ground arith, (b, ground arith, ground arith))
  ]

  manifest_files-Recorded :
      (id : ℕ) (ps : List (List String)) (files : List ManifestFile)
      → All (λ p. is_data_file p ≡ true) ps
      → manifest_files num_rows sha256 bucket id ps ≡ ok files
      → All (Recorded id) files
  unfolding manifest_files
  manifest_files-Recorded id [] files h made = rw (← ok-injective made) tt
  manifest_files-Recorded id (p ∷ ps) files h made =
      let (f, one, more) = >>=-eq-ok (manifest_file num_rows sha256 bucket id p) _ made in
      let (rest, r, same) = >>=-eq-ok (manifest_files num_rows sha256 bucket id ps) _ more in
      rw (← ok-injective same)
        (manifest_file-Recorded id p f h.0 one, manifest_files-Recorded id ps rest h.1 r)

  -- What `build_manifest` has recorded of a batch, `verified_paths` accepts on the same bucket: it
  -- returns the batch's files of the day.
  pub build_manifest-verified_paths :
      (batch_id rows : ℕ) (folder : String) (m : Manifest)
      → build_manifest num_rows sha256 bucket batch_id rows ≡ ok m
      → verified_paths sha256 bucket
          (record { batch_id = batch_id; rows_valid = rows; archive_manifest = some m } ∷ [])
          folder
        ≡ ok (day_keys folder batch_id m.files)
  unfolding build_manifest glob
  build_manifest-verified_paths id rows folder m h =
      let (files, made, more) =
        >>=-eq-ok (manifest_files num_rows sha256 bucket id (glob bucket id)) _ h in
      let (_, total, same) =
        >>=-eq-ok (raise_if (not (eqb (sum_by (λ f. f.rows) files) rows)) _) _ more in
      let counted = raise_if-ok _ _ _ total in
      let recorded =
        manifest_files-Recorded id (glob bucket id) files
          (All-sort_by path_le _ (matching id bucket) (matching-All id bucket)) made in
      rw (← ok-injective same) (
        verified_paths_of_stored sha256 bucket folder _ _
          (checked_manifest_of_recorded sha256 bucket folder _ _ refl refl refl (ground arith))
          (All-of_In _ files (λ f i. Recorded-IsSafe id f (All-In _ f files recorded i)))
          (All-of_In _ files (λ f i. (All-In _ f files recorded i).2)))
