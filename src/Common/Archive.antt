-- ===== src/Common/Archive.antt =====
-- common/archive.py: manifests of committed archive batches. The bucket is a table from (batch id,
-- path below the batch's folder) to bytes. The row count in a Parquet file's footer (pyarrow) and
-- the digest `hashlib.sha256(...).hexdigest()` are the parameters `num_rows` and `sha256`.
pub mod Intact
pub mod Roundtrip
mod Tests
use fleet_lambda_platform.Base.{
  ℕ, String, Bool, true, false, ◌||◌, ◌&&◌, not, Option, none, some, List, [], ◌∷◌, ◌++◌, map,
  sum_by, keep, elem, ◌==◌, if◌then◌else◌, eqb, ltb, string_eq, nat_eq, list_eq, pair_eq, list_beq,
}
use fleet_lambda_platform.Base.Dict.{lookup, keys}
use fleet_lambda_platform.Base.Paths.{PurePath, codes}
use fleet_lambda_platform.Base.Sort.{sort_by}
use fleet_lambda_platform.Base.Result.{
  Result, ok, err, value_error, index_error, os_error, ◌>>=◌, ◌>>◌, raise_if,
}
use text.Mathlib.Text.{starts_with}

abbrev pub Bytes : Type 0
Bytes = List ℕ

abbrev pub Bucket : Type 0
Bucket = List ((ℕ × List String) × Bytes)

pub record ManifestFile : Type 0 where
  pub path : PurePath
  pub sha256 : String
  pub rows : ℕ

pub record Manifest : Type 0 where
  pub version : ℕ
  pub files : List ManifestFile
  pub rows : ℕ

-- The columns of pipeline_batches that the archive reads.
pub record Batch : Type 0 where
  pub batch_id : ℕ
  pub rows_valid : ℕ
  pub archive_manifest : Option Manifest

-- fs.open(path).read()
unfoldable pub read_object : Bucket → ℕ × List String → Result Bytes
read_object bucket k = elim (lookup k bucket) [ none ↦ err (os_error "open") | some b ↦ ok b ]

unfoldable pub ends_with : List ℕ → List ℕ → Bool
unfolding list_beq
ends_with [] end = [] == end
ends_with (c ∷ cs) end = (c ∷ cs) == end || ends_with cs end

-- the glob pattern dt=*/*.parquet
unfoldable pub is_data_file : List String → Bool
unfolding ends_with
is_data_file (folder ∷ name ∷ []) =
    starts_with folder "dt=" && ends_with (codes name) (codes ".parquet")
is_data_file _ = false

-- the order of texts by their code points
unfoldable pub text_le : List ℕ → List ℕ → Bool
text_le [] ys = true
text_le (x ∷ xs) [] = false
text_le (x ∷ xs) (y ∷ ys) =
    let rest = text_le xs ys in if ltb x y then true else if eqb x y then rest else false

abbrev pub path_text : List String → List ℕ
path_text [] = []
path_text (p ∷ ps) = codes p ++ b'/' ∷ path_text ps

unfoldable pub path_le : List String → List String → Bool
unfolding text_le
path_le p q = text_le (path_text p) (path_text q)

-- the paths below the batch's folder that the glob matches, sorted
abbrev pub matching : ℕ → Bucket → List (List String)
matching batch_id [] = []
matching batch_id (((id, path), _) ∷ bucket) =
    let rest = matching batch_id bucket in
    if eqb id batch_id && is_data_file path then path ∷ rest else rest

unfoldable pub glob : Bucket → ℕ → List (List String)
unfolding sort_by path_le is_data_file
glob bucket batch_id = sort_by path_le (matching batch_id bucket)

module _ (num_rows : Bytes → ℕ) (sha256 : Bytes → String) where
  unfoldable pub digest : Bucket → ℕ × List String → Result String
  unfolding read_object
  digest bucket k = do b ← read_object bucket k; ok (sha256 b)

  -- the body of the loop of `build_manifest`
  unfoldable pub manifest_file : Bucket → ℕ → List String → Result ManifestFile
  unfolding read_object digest
  manifest_file bucket batch_id path = do
    bytes ← read_object bucket (batch_id, path)
    sha ← digest bucket (batch_id, path)
    ok (record {
      path = record { absolute = false; parts = path };
      sha256 = sha;
      rows = num_rows bytes;
    })

  unfoldable pub manifest_files : Bucket → ℕ → List (List String) → Result (List ManifestFile)
  unfolding manifest_file
  manifest_files bucket batch_id [] = ok []
  manifest_files bucket batch_id (p ∷ ps) = do
    file ← manifest_file bucket batch_id p
    files ← manifest_files bucket batch_id ps
    ok (file ∷ files)

  unfoldable pub build_manifest : Bucket → ℕ → ℕ → Result Manifest
  unfolding glob manifest_files
  build_manifest bucket batch_id expected_rows = do
    files ← manifest_files bucket batch_id (glob bucket batch_id)
    raise_if (not (eqb (sum_by (λ f. f.rows) files) expected_rows))
        (value_error "Archive row count mismatch")
    ok (record { version = 1; files = files; rows = expected_rows })

-- relative.parts[0]
unfoldable pub first_part : PurePath → Result String
first_part p = elim p.parts [ [] ↦ err (index_error "parts") | part ∷ _ ↦ ok part ]

-- the checks of one batch before its files
unfoldable pub checked_manifest : Batch → Result Manifest
checked_manifest batch = elim batch.archive_manifest [
  | none ↦ err (value_error "has no archive manifest; run migration")
  | some m ↦ (do
    raise_if (not (eqb m.version 1) || not (eqb m.rows batch.rows_valid))
        (value_error "Invalid manifest for batch")
    raise_if (not (eqb (sum_by (λ f. f.rows) m.files) m.rows))
        (value_error "Invalid manifest row total for batch")
    ok m)
]

module _ (sha256 : Bytes → String) where
  -- not fs.exists(path) or digest(path, fs) != item["sha256"]
  unfoldable pub is_damaged : Bucket → ℕ × List String → String → Bool
  is_damaged bucket k sha = elim (lookup k bucket) [ none ↦ true | some b ↦ not (sha256 b == sha) ]

  -- the inner loop of `verified_paths`, for the folder f"dt={report_date}"
  unfoldable pub verified_files :
      Bucket → ℕ → String → List ManifestFile → Result (List (ℕ × List String))
  unfolding is_damaged first_part
  verified_files bucket batch_id folder [] = ok []
  verified_files bucket batch_id folder (item ∷ items) =
      let rest = verified_files bucket batch_id folder items in
      let k : ℕ × List String = (batch_id, item.path.parts) in
      do
        raise_if (item.path.absolute || elem ".." item.path.parts)
            (value_error "Unsafe archive manifest path")
        first ← first_part item.path
        if not (first == folder) then rest else do
          raise_if (is_damaged bucket k item.sha256)
              (value_error "Missing or changed committed archive")
          output ← rest
          ok (k ∷ output)

  unfoldable pub verified_paths : Bucket → List Batch → String → Result (List (ℕ × List String))
  unfolding checked_manifest verified_files
  verified_paths bucket [] folder = ok []
  verified_paths bucket (batch ∷ batches) folder = do
    m ← checked_manifest batch
    paths ← verified_files bucket batch.batch_id folder m.files
    rest ← verified_paths bucket batches folder
    ok (paths ++ rest)
