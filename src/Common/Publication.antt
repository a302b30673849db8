-- ===== src/Common/Publication.antt =====
-- common/publication.py: report exports and their digest manifest. Files are a table from paths to
-- bytes; the digest `hashlib.sha256(...).hexdigest()` is the parameter `sha256`.
pub mod Verified
pub mod Roundtrip
mod Tests
use fleet_lambda_platform.Base.{
  ℕ, String, Bool, true, false, ◌||◌, ◌&&◌, not, Option, none, some, List, [], ◌∷◌, map, all, any,
  elem, keep, ◌==◌, if◌then◌else◌, eqb, string_eq, nat_eq, list_eq, bool_eq, pair_eq, option_eq,
}
use fleet_lambda_platform.Base.Dict.{lookup, insert, contains}
use fleet_lambda_platform.Base.Paths.{PurePath, codes, suffix, lstrip_dots, join, strip_parts}
use fleet_lambda_platform.Base.Result.{
  Result, ok, err, value_error, key_error, os_error, ◌>>=◌, ◌>>◌, raise_if,
}

abbrev pub algorithm_version : ℕ
algorithm_version = 4

abbrev pub report_formats : List String
report_formats = "json" ∷ "csv" ∷ "html" ∷ "parquet" ∷ []

abbrev pub Bytes : Type 0
Bytes = List ℕ

-- The readable files below the data directory, by their paths.
abbrev pub Disk : Type 0
Disk = List ((Bool × List String) × Bytes)

abbrev pub key : PurePath → Bool × List String
key p = (p.absolute, p.parts)

-- path.read_bytes()
unfoldable pub read_bytes : Disk → PurePath → Result Bytes
read_bytes disk p = elim (lookup (key p) disk) [ none ↦ err (os_error "read") | some b ↦ ok b ]

pub record ExportItem : Type 0 where
  pub path : PurePath
  pub sha256 : Option String

pub record ExportManifest : Type 0 where
  pub version : Option ℕ
  pub files : List (String × ExportItem)

-- path.relative_to(root)
unfoldable pub relative_to : PurePath → PurePath → Result PurePath
unfolding strip_parts
relative_to root path =
    if path.absolute == root.absolute
    then elim (strip_parts root.parts path.parts) [
      | none ↦ err (value_error "is not in the subpath")
      | some ps ↦ ok (record { absolute = false; parts = ps })
    ]
    else err (value_error "is not in the subpath")

-- {Path(path).suffix.lstrip("."): Path(path) for path in paths}
unfoldable pub by_format : List PurePath → List (List ℕ × PurePath) → List (List ℕ × PurePath)
unfolding suffix lstrip_dots
by_format [] found = found
by_format (p ∷ ps) found = by_format ps (insert (lstrip_dots (suffix p)) p found)

abbrev missing_formats : List (List ℕ × PurePath) → List String
missing_formats found = keep (λ f. not (contains (codes f) found)) report_formats

-- the refusals of one promised path
abbrev pub is_unsafe : String → PurePath → Bool
is_unsafe f relative =
    (relative.parts == [])
    || relative.absolute
    || elem ".." relative.parts
    || not (suffix relative == b'.' ∷ codes f)

module _ (sha256 : Bytes → String) where
  abbrev digest_is : String → Result Bytes → Bool
  digest_is expected (ok b) = sha256 b == expected
  digest_is expected (err _) = false

  unfoldable pub export_matches : Disk → PurePath → Option String → Bool
  unfolding read_bytes
  export_matches disk path none = false
  export_matches disk path (some expected) =
      if expected == "" then false else digest_is expected (read_bytes disk path)

  unfoldable pub export_item : Disk → PurePath → PurePath → Result ExportItem
  unfolding relative_to read_bytes
  export_item disk root path = do
    relative ← relative_to root path
    bytes ← read_bytes disk path
    ok (record { path = relative; sha256 = some (sha256 bytes) })

  -- the loop over REPORT_FORMATS, with by_format[report_format]
  unfoldable pub export_items :
      Disk → PurePath → List (List ℕ × PurePath) → List String → Result (List (String × ExportItem))
  unfolding export_item
  export_items disk root found [] = ok []
  export_items disk root found (f ∷ fs) =
      let rest = export_items disk root found fs in
      elim (lookup (codes f) found) [
        | none ↦ err (key_error "by_format")
        | some path ↦ (do item ← export_item disk root path; items ← rest; ok ((f, item) ∷ items))
      ]

  unfoldable pub build_export_manifest : Disk → List PurePath → PurePath → Result ExportManifest
  unfolding by_format export_items
  build_export_manifest disk paths root = do
    let found = by_format paths []
    raise_if (not (missing_formats found == [])) (value_error "Missing report formats")
    files ← export_items disk root found report_formats
    ok (record { version = some 1; files = files })

  -- one round of the loop over REPORT_FORMATS: false is an early return
  unfoldable pub format_matches : Disk → PurePath → List (String × ExportItem) → String → Bool
  unfolding suffix export_matches
  format_matches disk root files f = elim (lookup f files) [
    | none ↦ false
    | some item ↦
        if is_unsafe f item.path
        then false
        else export_matches disk (join root item.path) item.sha256
  ]

  unfoldable pub manifest_matches : Disk → PurePath → Option ExportManifest → Bool
  unfolding format_matches
  manifest_matches disk root none = false
  manifest_matches disk root (some m) =
      if not (m.version == some 1)
      then false
      else if not (
          all (λ f. contains f m.files) report_formats
          && all (λ e. elem e.0 report_formats) m.files)
      then false
      else all (format_matches disk root m.files) report_formats
