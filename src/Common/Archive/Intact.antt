-- ===== src/Common/Archive/Intact.antt =====
-- What `verified_paths` of common/archive.py accepts, and what it returns.
use fleet_lambda_platform.Base.{
  ℕ, String, Bool, true, false, ◌||◌, not, none, some, List, [], ◌∷◌, ◌++◌, All, sum_by, map, keep,
  elem, ◌==◌, if◌then◌else◌, ◌≡◌, refl, sym, ap, arith, inl, inr, Bool-cases, Option-cases,
  string_eq, nat_eq, list_eq, pair_eq,
}
use fleet_lambda_platform.Base.Dict.{lookup}
use fleet_lambda_platform.Base.Result.{
  ok, value_error, raise_if, ◌>>◌, raise_if-ok, ◌>>=◌, >>=-eq-ok, ok-injective,
}
use fleet_lambda_platform.Common.Archive.{
  Bytes, Bucket, ManifestFile, Manifest, Batch, is_damaged, first_part, verified_files,
  checked_manifest, verified_paths,
}

module _ (folder : String) where
  -- the file lies in the folder of the day
  abbrev pub in_folder : ManifestFile → Bool
  in_folder f = elim f.path.parts [ [] ↦ false | part ∷ _ ↦ part == folder ]

  -- The keys of the day's files of a batch, in the manifest's order.
  abbrev pub day_keys : ℕ → List ManifestFile → List (ℕ × List String)
  day_keys batch_id files = map (λ f. (batch_id, f.path.parts)) (keep in_folder files)

  abbrev pub manifest_keys : Batch → List (ℕ × List String)
  manifest_keys batch = elim batch.archive_manifest [
    | none ↦ []
    | some m ↦ day_keys batch.batch_id m.files
  ]

  abbrev pub all_keys : List Batch → List (ℕ × List String)
  all_keys [] = []
  all_keys (b ∷ bs) = manifest_keys b ++ all_keys bs

module _ (sha256 : Bytes → String) (bucket : Bucket) where
  -- An object with the committed digest is there.
  abbrev pub IsStored : ℕ → ManifestFile → Type 0
  IsStored batch_id f =
      (bytes : Bytes) × (lookup (batch_id, f.path.parts) bucket ≡ some bytes)
      × (sha256 bytes ≡ f.sha256)

module _ (sha256 : Bytes → String) (bucket : Bucket) (folder : String) where
  -- The manifest is of version 1, counts its rows as the ledger does, names relative paths that
  -- do not lead up, and each of its files of the day is stored unchanged.
  pub record IsIntact (batch : Batch) : Type 0 where
    pub manifest : Manifest
    pub is_recorded : batch.archive_manifest ≡ some manifest
    pub version_one : manifest.version ≡ 1
    pub rows_valid : manifest.rows ≡ batch.rows_valid
    pub rows_total : sum_by (λ f. f.rows) manifest.files ≡ manifest.rows
    pub safe_paths :
        All (λ f. (f.path.absolute ≡ false) × (elem ".." f.path.parts ≡ false)) manifest.files
    pub stored :
        All
          (λ f. in_folder folder f ≡ true → IsStored sha256 bucket batch.batch_id f)
          manifest.files

  not-damaged :
      (batch_id : ℕ) (f : ManifestFile)
      → is_damaged sha256 bucket (batch_id, f.path.parts) f.sha256 ≡ false
      → IsStored sha256 bucket batch_id f
  unfolding is_damaged
  not-damaged batch_id f h = elim (Option-cases (lookup (batch_id, f.path.parts) bucket)) [
    | inl e ↦ ground arith
    | inr (b, e) ↦ (b, e, ground (arith, string_eq.beq_iff (sha256 b) f.sha256))
  ]

  abbrev FilesOk : ℕ → List ManifestFile → List (ℕ × List String) → Type 0
  FilesOk id files keys =
      All (λ f. (f.path.absolute ≡ false) × (elem ".." f.path.parts ≡ false)) files
      × All (λ f. in_folder folder f ≡ true → IsStored sha256 bucket id f) files
      × (keys ≡ day_keys folder id files)

  first_part-in_folder :
      (f : ManifestFile) (first : String)
      → first_part f.path ≡ ok first
      → in_folder folder f ≡ (first == folder)
  unfolding first_part
  first_part-in_folder f first e = ground arith

  -- One file of the manifest, and what the others give.
  FilesOk-cons :
      (id : ℕ) (f : ManifestFile) (first : String) (files : List ManifestFile)
      (keys : List (ℕ × List String))
      → ((ks : List (ℕ × List String))
          → verified_files sha256 bucket id folder files ≡ ok ks
          → FilesOk id files ks)
      → f.path.absolute || elem ".." f.path.parts ≡ false
      → in_folder folder f ≡ (first == folder)
      → (if not (first == folder) then verified_files sha256 bucket id folder files else do
        raise_if
            (is_damaged sha256 bucket (id, f.path.parts) f.sha256)
            (value_error "Missing or changed committed archive")
        output ← verified_files sha256 bucket id folder files
        ok ((id, f.path.parts) ∷ output))
        ≡ ok keys
      → FilesOk id (f ∷ files) keys
  FilesOk-cons id f first files keys ih safe here h = elim (Bool-cases (first == folder)) [
    | inl e ↦
        let (_, sound, more) =
          >>=-eq-ok (raise_if (is_damaged sha256 bucket (id, f.path.parts) f.sha256) _) _
            (rw e at h) in
        let (rest, r, same) = >>=-eq-ok (verified_files sha256 bucket id folder files) _ more in
        let (a, b, c) = ih rest r in
        (
          (ground arith, a),
          (λ _. not-damaged id f (raise_if-ok _ _ _ sound), b),
          rw (← ok-injective same, here, e) (ap (◌∷◌ (id, f.path.parts)) c),
        )
    | inr e ↦
        let (a, b, c) = ih keys (rw e at h) in
        ((ground arith, a), (λ day. cc (day, here, e), b), rw (here, e) c)
  ]

  verified_files-FilesOk :
      (id : ℕ) (files : List ManifestFile) (keys : List (ℕ × List String))
      → verified_files sha256 bucket id folder files ≡ ok keys
      → FilesOk id files keys
  unfolding verified_files
  verified_files-FilesOk id [] keys h = (tt, tt, sym (ok-injective h))
  verified_files-FilesOk id (f ∷ files) keys h =
      let (_, safe, more) =
        >>=-eq-ok (raise_if (f.path.absolute || elem ".." f.path.parts) _) _ h in
      let (first, e, tail) = >>=-eq-ok (first_part f.path) _ more in
      FilesOk-cons id f first files keys (λ ks r. verified_files-FilesOk id files ks r)
        (raise_if-ok _ _ _ safe) (first_part-in_folder f first e) tail

  checked_manifest-recorded :
      (batch : Batch) (m : Manifest)
      → checked_manifest batch ≡ ok m
      → (batch.archive_manifest ≡ some m)
        × (m.version ≡ 1)
        × (m.rows ≡ batch.rows_valid)
        × (sum_by (λ f. f.rows) m.files ≡ m.rows)
  unfolding checked_manifest
  checked_manifest-recorded batch m h = ground arith

  -- A day's paths are returned only if every batch of the ledger has an intact manifest, and they
  -- are then the keys of all the files that the manifests name in the day's folder, in the order
  -- of the ledger and of each manifest.
  pub verified_paths-IsIntact :
      (batches : List Batch) (paths : List (ℕ × List String))
      → verified_paths sha256 bucket batches folder ≡ ok paths
      → All IsIntact batches × (paths ≡ all_keys folder batches)
  unfolding verified_paths
  verified_paths-IsIntact [] paths h = (tt, sym (ok-injective h))
  verified_paths-IsIntact (batch ∷ batches) paths h =
      let (m, c, more) = >>=-eq-ok (checked_manifest batch) _ h in
      let (keys, v, tail) =
        >>=-eq-ok (verified_files sha256 bucket batch.batch_id folder m.files) _ more in
      let (rest, r, same) = >>=-eq-ok (verified_paths sha256 bucket batches folder) _ tail in
      let (recorded, one, valid, total) = checked_manifest-recorded batch m c in
      let (safe, stored, day) = verified_files-FilesOk batch.batch_id m.files keys v in
      let (all_intact, others) = verified_paths-IsIntact batches rest r in
      (
        (
          record {
            manifest = m;
            is_recorded = recorded;
            version_one = one;
            rows_valid = valid;
            rows_total = total;
            safe_paths = safe;
            stored = stored;
          },
          all_intact,
        ),
        rw (← ok-injective same, day, others, recorded) refl,
      )
