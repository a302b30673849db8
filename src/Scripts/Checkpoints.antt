-- ===== src/Scripts/Checkpoints.antt =====
-- scripts/repair_spark_checkpoints.py: quarantine of the corrupt tail of a Spark metadata log. A
-- checkpoint root is the list of its query directories; a directory of a log is the list of its
-- files, each with the lines of its text, or `none` where the text cannot be read. File names are
-- of ASCII characters. Whether `json.loads` takes a line is the parameter `is_json`.
pub mod Tail
pub mod Repair
mod Tests
use fleet_lambda_platform.Base.{
  ℕ, ◌+◌, ◌*◌, ◌-◌, String, Bool, true, false, ◌&&◌, ◌||◌, not, Option, none, some, List, [], ◌∷◌,
  ◌++◌, map, any, all, keep, elem, ◌==◌, if◌then◌else◌, leb, string_eq, list_eq, nat_eq,
}
use fleet_lambda_platform.Base.Paths.{codes}
use fleet_lambda_platform.Base.Sort.{sort_by}
use fleet_lambda_platform.Base.Result.{Result, ok, err, runtime_error, ◌>>=◌, ◌>>◌, raise_if}
use fleet_lambda_platform.Common.Archive.{text_le}

pub record LogFile : Type 0 where
  pub name : List ℕ
  pub lines : Option (List String)

pub record Query : Type 0 where
  pub name : String
  pub offsets : Option (List LogFile)
  pub commits : Option (List LogFile)

-- The directories of the checkpoint root, if it exists, and what `.repair-backup` holds: stamp,
-- query, log and file.
pub record Checkpoints : Type 0 where
  pub queries : Option (List Query)
  pub backup : List (String × String × String × LogFile)

-- name.isdigit()
abbrev pub is_digits : List ℕ → Bool
is_digits [] = false
is_digits (c ∷ cs) = all (λ d. leb b'0' d && leb d b'9') (c ∷ cs)

-- int(name)
abbrev pub number : ℕ → List ℕ → ℕ
number n [] = n
number n (c ∷ cs) = number (n * 10 + (c - b'0')) cs

abbrev pub file_le : LogFile → LogFile → Bool
file_le a b = leb (number 0 a.name) (number 0 b.name)

abbrev pub query_le : Query → Query → Bool
query_le a b = text_le (codes a.name) (codes b.name)

-- records[invalid.index(True):] and invalid[first:], where `bad` is the test
unfoldable pub from_first : (LogFile → Bool) → List LogFile → List LogFile
from_first bad [] = []
from_first bad (f ∷ fs) = let rest = from_first bad fs in if bad f then f ∷ fs else rest

-- f".{path.name}.crc"
abbrev pub checksum_name : List ℕ → List ℕ
checksum_name name = b'.' ∷ name ++ codes ".crc"

unfoldable pub records : List LogFile → List LogFile
unfolding sort_by
records log_dir = sort_by file_le (keep (λ f. is_digits f.name) log_dir)

module _ (is_json : String → Bool) where
  unfoldable pub valid_lines : List String → Bool
  valid_lines [] = false
  valid_lines (v ∷ []) = false
  valid_lines (v ∷ l ∷ ls) = v == "v1" && all is_json (l ∷ ls)

  unfoldable pub valid_metadata_log : LogFile → Bool
  unfolding valid_lines
  valid_metadata_log f = elim f.lines [ none ↦ false | some ls ↦ valid_lines ls ]

  abbrev pub is_corrupt : LogFile → Bool
  is_corrupt f = not (valid_metadata_log f)

  unfoldable pub invalid_suffix : List LogFile → Result (List LogFile)
  unfolding records from_first valid_metadata_log
  invalid_suffix log_dir =
      let rs = records log_dir in
      if not (any is_corrupt rs) then ok [] else do
        raise_if (not (all is_corrupt (from_first is_corrupt rs)))
            (runtime_error "Internal checkpoint corruption; refusing automatic repair")
        ok (from_first is_corrupt rs)

  -- the body of the loop over ("offsets", "commits"), if log_dir.is_dir()
  unfoldable pub log_repairs : Option (List LogFile) → Result (List LogFile)
  unfolding invalid_suffix
  log_repairs none = ok []
  log_repairs (some log_dir) = invalid_suffix log_dir

  -- the files to move, by query and log
  unfoldable pub query_repairs : List Query → Result (List (String × String × LogFile))
  unfolding log_repairs
  query_repairs [] = ok []
  query_repairs (q ∷ qs) =
      let rest = query_repairs qs in
      if q.name == ".repair-backup" then rest else do
        offsets ← log_repairs q.offsets
        commits ← log_repairs q.commits
        others ← rest
        ok (
            map (λ f. (q.name, "offsets", f)) offsets
            ++ (map (λ f. (q.name, "commits", f)) commits ++ others))

  unfoldable pub planned_repairs : Checkpoints → Result (List (String × String × LogFile))
  unfolding query_repairs
  planned_repairs root = elim root.queries [
    | none ↦ ok []
    | some queries ↦ query_repairs (sort_by query_le queries)
  ]

-- Is the file, or the file whose checksum it is, one that is moved?
abbrev pub is_moved : List (String × String × LogFile) → String → String → LogFile → Bool
is_moved repairs query log f =
    any
      (λ r. r.0 == query && r.1 == log && (r.2.name == f.name || checksum_name r.2.name == f.name))
      repairs

abbrev pub log_left :
    List (String × String × LogFile)
    → String
    → String
    → Option (List LogFile)
    → Option (List LogFile)
log_left repairs query log none = none
log_left repairs query log (some fs) = some (keep (λ f. not (is_moved repairs query log f)) fs)

abbrev pub query_left : List (String × String × LogFile) → Query → Query
query_left repairs q = record q {
  offsets = log_left repairs q.name "offsets" q.offsets;
  commits = log_left repairs q.name "commits" q.commits;
}

abbrev pub log_moved :
    List (String × String × LogFile)
    → String
    → String
    → String
    → Option (List LogFile)
    → List (String × String × String × LogFile)
log_moved repairs stamp query log none = []
log_moved repairs stamp query log (some fs) =
    map (λ f. (stamp, query, log, f)) (keep (is_moved repairs query log) fs)

unfoldable pub all_moved :
    List (String × String × LogFile)
    → String
    → List Query
    → List (String × String × String × LogFile)
all_moved repairs stamp [] = []
all_moved repairs stamp (q ∷ qs) =
    log_moved repairs stamp q.name "offsets" q.offsets
    ++ log_moved repairs stamp q.name "commits" q.commits
    ++ all_moved repairs stamp qs

-- the loop of os.replace over the planned repairs
unfoldable pub move_all : List (String × String × LogFile) → String → Checkpoints → Checkpoints
unfolding all_moved
move_all repairs stamp root = elim root.queries [
  | none ↦ root
  | some queries ↦ record {
    queries = some (map (query_left repairs) queries);
    backup = all_moved repairs stamp queries ++ root.backup;
  }
]

module _ (is_json : String → Bool) where
  -- the root afterwards; `stamp` is the time of the run
  unfoldable pub repair : Bool → String → Checkpoints → Result Checkpoints
  unfolding planned_repairs move_all
  repair apply stamp root = do
    repairs ← planned_repairs is_json root
    ok (if not apply then root else move_all repairs stamp root)
