-- ===== src/Scripts/Restore/Run.antt =====
-- scripts/restore_archive_batch.py: `restore`, from the row of the ledger to the answer. The store is the
-- bucket, its folders quarantine/corrupt-batches/{batch_id}-{token}, and the tables pipeline_batches and
-- dq_archive_verification; the folder repairs/{batch_id}-{token}, which nothing else reads, is the list
-- of its files. A move or a write of an object and the last transaction may raise: `faults` says which
-- does, and what it would have done is then not done. The token is a fresh uuid, `read_legacy` reads a
-- file below DATA_DIR/raw/{batch_id}, and `digests` are the functions of hashlib and pyarrow.
pub mod Folders
pub mod Rollback
pub mod Rebuilt
mod Tests
use fleet_lambda_platform.Base.{
  ℕ, String, Bool, true, false, ◌&&◌, not, Option, none, some, List, [], ◌∷◌, ◌++◌, map, any, all,
  keep, length, if◌then◌else◌, eqb, leb, max, ◌==◌, string_eq, nat_eq, pair_eq, list_eq,
}
use fleet_lambda_platform.Base.Dict.{lookup, insert}
use fleet_lambda_platform.Base.Paths.{PurePath}
use fleet_lambda_platform.Base.Result.{
  Result, Exn, ok, err, value_error, type_error, os_error, raise_if, ◌>>=◌, ◌>>◌,
}
use fleet_lambda_platform.Base.Stateful.{After, ◌>>>◌, unless_raised}
use fleet_lambda_platform.Common.Archive.{Bytes, Bucket, ManifestFile, Manifest, build_manifest}
use fleet_lambda_platform.Common.Domain.{Value, Stamp}
use fleet_lambda_platform.Streaming.Raw.{sim_start}
use fleet_lambda_platform.Streaming.Raw.Ranges.{Details}
use fleet_lambda_platform.Scripts.Recovery.{
  Poll, Recovered, Item, read_retained, date_files, offset_of,
}
use fleet_lambda_platform.Scripts.Restore.{StoredOffsets, source_ranges}

-- The columns of pipeline_batches that this script reads and writes.
pub record LedgerBatch : Type 0 where
  pub batch_id : ℕ
  pub rows_in : ℕ
  pub rows_valid : ℕ
  pub max_event_ts : Option ℕ
  pub archive_manifest : Option Manifest
  pub source_offsets : Option StoredOffsets

abbrev pub Folder : Type 0
Folder = List (List String × Bytes)

pub record Store : Type 0 where
  pub bucket : Bucket
  pub quarantined : List ((ℕ × String) × Folder)
  pub batches : List LedgerBatch
  pub verification : List (ℕ × String)

-- What may raise inside the two try blocks, and in their except clauses.
pub data Operation : Type 0 where
  back_up_root : Operation
  write_object : List String → Operation
  publish_root : Operation
  commit : Operation
  remove_new : Operation
  return_old : Operation

-- The variables of a try block: the store, and `moved_old`.
pub record Work : Type 0 where
  pub store : Store
  pub moved_old : Bool

abbrev pub files_of : ℕ → Bucket → Folder
files_of id [] = []
files_of id (((i, path), b) ∷ bucket) =
    let rest = files_of id bucket in if eqb i id then (path, b) ∷ rest else rest

-- the bucket less the folder of a batch, and with these files in it
abbrev pub without : ℕ → Bucket → Bucket
without id bucket = keep (λ o. not (eqb o.0.0 id)) bucket

abbrev pub placed : ℕ → Folder → Bucket → Bucket
placed id files bucket = map (λ f. ((id, f.0), f.1)) files ++ bucket

-- fs.exists(root)
abbrev pub root_exists : ℕ → Bucket → Bool
root_exists id bucket = any (λ o. eqb o.0.0 id) bucket

abbrev pub find_batch : ℕ → List LedgerBatch → Option LedgerBatch
find_batch id [] = none
find_batch id (b ∷ bs) = let rest = find_batch id bs in if eqb b.batch_id id then some b else rest

abbrev pub or_no_files : Option Manifest → List ManifestFile
or_no_files none = []
or_no_files (some m) = m.files

-- f"{root}/{item['path']}", below the root
abbrev pub object_path : PurePath → List String
object_path p = if p.absolute then "" ∷ p.parts else p.parts

-- SIM_START <= event_time <= batch["max_event_ts"]
abbrev pub within : Option ℕ → ℕ → Result Bool
within none t = if leb sim_start t then err (type_error "'<=' not supported") else ok false
within (some last) t = ok (leb sim_start t && leb t last)

-- max(parse_timestamp(e["event_ts"]) for e in recovered)
abbrev pub newest : List Recovered → Option ℕ
newest [] = none
newest (r ∷ rs) = elim (newest rs) [
  | none ↦ some r.event.event_ts
  | some t ↦ some (max r.event.event_ts t)
]

abbrev pub is_last : Option ℕ → Option ℕ → Bool
is_last (some a) (some b) = eqb a b
is_last a b = false

-- beginnings[tp] > requested["start"] or ends[tp] < requested["end"], for some partition
abbrev pub is_retained : List (ℕ × ℕ) → List (ℕ × ℕ) → List (ℕ × Details) → Bool
is_retained beginnings ends ranges =
    all (λ e. leb (offset_of e.0 beginnings) e.1.start && leb e.1.stop (offset_of e.0 ends)) ranges

abbrev pub set_manifest : ℕ → Manifest → List LedgerBatch → List LedgerBatch
set_manifest id m batches =
    map (λ b. if eqb b.batch_id id then record b { archive_manifest = some m } else b) batches

pub record Tools : Type 0 where
  pub num_rows : Bytes → ℕ
  pub sha256 : Bytes → String
  pub manifest_fingerprint : Manifest → String
  pub write_table : List Item → Bytes
  pub folder : ℕ → String
  pub fromisoformat : Value → Option Stamp

-- What Kafka retains, and what the consumer is given.
pub record Retained : Type 0 where
  pub beginnings : List (ℕ × ℕ)
  pub ends : List (ℕ × ℕ)
  pub polls : List Poll

module _ (tools : Tools) (faults : Operation → Option Exn) (id : ℕ) (token : String) where
  abbrev pub move_out : Work → After Work (Unit {0})
  move_out w =
      let s = w.store in
      (
        ok tt,
        record {
          store = record s {
            bucket = without id s.bucket;
            quarantined = insert (id, token) (files_of id s.bucket) s.quarantined;
          };
          moved_old = true;
        },
      )

  -- if fs.exists(root): fs.mv(root, backup, recursive=True); moved_old = True
  unfoldable pub back_up : Work → After Work (Unit {0})
  back_up w =
      if root_exists id w.store.bucket
      then unless_raised (faults back_up_root) move_out w
      else (ok tt, w)

  -- if fs.exists(root): fs.rm(root, recursive=True), where either call may raise
  abbrev pub remove_root : Work → After Work (Unit {0})
  remove_root w =
      let s = w.store in
      unless_raised (faults remove_new)
        (λ v. (ok tt, record v { store = record s { bucket = without id s.bucket } })) w

  abbrev pub moved_back : Work → Option Folder → Work
  moved_back w none = w
  moved_back w (some files) =
      let s = w.store in
      record w {
        store = record s {
          bucket = placed id files s.bucket;
          quarantined = keep (λ e. not (e.0 == (id, token))) s.quarantined;
        };
      }

  -- if moved_old and fs.exists(backup): fs.mv(backup, root, recursive=True)
  abbrev pub put_back : Work → After Work (Unit {0})
  put_back w =
      if w.moved_old
      then unless_raised (faults return_old)
          (λ v. (ok tt, moved_back v (lookup (id, token) v.store.quarantined))) w
      else (ok tt, w)

  -- the except clause, which may raise itself
  unfoldable pub roll_back : Work → After Work (Unit {0})
  roll_back w = remove_root w >>> λ _ v. put_back v

  abbrev pub raise_again : {A : Type 0} → Exn → After Work (Unit {0}) → After Store A
  raise_again e (ok _, w) = (err e, w.store)
  raise_again e (err x, w) = (err x, w.store)

  abbrev pub guarded : {A : Type 0} → After Work A → After Store A
  guarded (ok a, w) = (ok a, w.store)
  guarded (err e, w) = raise_again e (roll_back w)

  abbrev pub with_bucket : Bucket → Work → Work
  with_bucket bucket w = record {
    store = record {
      bucket = bucket;
      quarantined = w.store.quarantined;
      batches = w.store.batches;
      verification = w.store.verification;
    };
    moved_old = w.moved_old;
  }

  abbrev pub record_verified : Manifest → Work → After Work (Unit {0})
  record_verified m w =
      let s = w.store in
      (
        ok tt,
        record w {
          store = record s {
            verification = insert id (tools.manifest_fingerprint m) s.verification;
          };
        },
      )

  module _ (read_legacy : PurePath → Option Bytes) where
    abbrev pub is_exact : ManifestFile → Bool
    is_exact f = elim (read_legacy f.path) [ none ↦ false | some b ↦ tools.sha256 b == f.sha256 ]

    -- exact_legacy
    unfoldable pub exact_legacy : List ManifestFile → Bool
    exact_legacy [] = false
    exact_legacy (f ∷ fs) = all is_exact (f ∷ fs)

    -- the bytes at their destination, and the check of what `digest` reads back there
    abbrev pub write_copy : ManifestFile → Bytes → Work → After Work (Unit {0})
    write_copy f bytes w = (
      if tools.sha256 bytes == f.sha256
          then ok tt
          else err (value_error "Restored checksum mismatch"),
      with_bucket (insert (id, object_path f.path) bytes w.store.bucket) w,
    )

    unfoldable pub copy_file : ManifestFile → Work → After Work (Unit {0})
    copy_file f w = elim (read_legacy f.path) [
      | none ↦ (err (os_error "open"), w)
      | some bytes ↦
          unless_raised (faults (write_object (object_path f.path))) (write_copy f bytes) w
    ]

    unfoldable pub copy_files : List ManifestFile → Work → After Work (Unit {0})
    unfolding copy_file
    copy_files [] w = (ok tt, w)
    copy_files (f ∷ fs) w = copy_file f w >>> λ _ v. copy_files fs v

    -- the first try block
    unfoldable pub copy_legacy : Manifest → Store → After Store (Unit {0})
    unfolding back_up copy_files roll_back
    copy_legacy m s = guarded (
        back_up (record { store = s; moved_old = false }) >>> λ _ w.
        copy_files m.files w >>> λ _ v. unless_raised (faults commit) (record_verified m) v)

  -- fs.mv(temporary, root, recursive=True)
  abbrev pub publish : Folder → Work → After Work (Unit {0})
  publish files w = (ok tt, with_bucket (placed id files w.store.bucket) w)

  abbrev pub record_manifest : Manifest → Work → After Work (Unit {0})
  record_manifest m w =
      let s = w.store in
      record_verified m (record w { store = record s { batches = set_manifest id m s.batches } })

  unfoldable pub commit_manifest : ℕ → Work → After Work (Unit {0})
  unfolding build_manifest
  commit_manifest rows w =
      (build_manifest tools.num_rows tools.sha256 w.store.bucket id rows, w) >>> λ m v.
      unless_raised (faults commit) (record_manifest m) v

  -- the second try block
  unfoldable pub replace_root : Folder → ℕ → Store → After Store (Unit {0})
  unfolding back_up commit_manifest roll_back
  replace_root files rows s = guarded (
      back_up (record { store = s; moved_old = false }) >>> λ _ w.
      unless_raised (faults publish_root) (publish files) w >>> λ _ v. commit_manifest rows v)

  module _ (retained : Retained) where
    -- the events of the ranges, after the checks of what Kafka retains and of what it gave
    unfoldable pub recover : LedgerBatch → Result (List Recovered)
    unfolding source_ranges read_retained
    recover batch = do
      ranges ← source_ranges batch.rows_in batch.source_offsets
      raise_if (not (is_retained retained.beginnings retained.ends ranges))
          (value_error "Kafka retention does not contain the partition's offsets")
      recovered ←
          read_retained tools.fromisoformat (within batch.max_event_ts)
            (map (λ e. (e.0, e.1.stop)) ranges) retained.polls (map (λ e. (e.0, e.1.start)) ranges)
            []
      raise_if (not (eqb (length recovered) batch.rows_valid))
          (value_error "Reconstructed valid-row count does not match the committed archive")
      raise_if (not (is_last (newest recovered) batch.max_event_ts))
          (value_error "Recovered maximum event time differs from the committed batch")
      ok recovered

    abbrev pub write_temporary : List Recovered → Result Folder
    write_temporary recovered = elim (faults (write_object [])) [
      | some e ↦ err e
      | none ↦ ok (date_files tools.folder tools.write_table "restored.parquet" recovered)
    ]

    unfoldable pub rebuild : LedgerBatch → Store → After Store (Unit {0})
    unfolding recover replace_root date_files
    rebuild batch s = (recover batch, s) >>> λ recovered s.
        (write_temporary recovered, s) >>> λ files s. replace_root files (length recovered) s

    unfoldable pub restore : (PurePath → Option Bytes) → Store → After Store (Unit {0})
    unfolding copy_legacy rebuild exact_legacy
    restore read_legacy s = elim (find_batch id s.batches) [
      | none ↦ (err (value_error "Unknown archive batch"), s)
      | some batch ↦ elim batch.archive_manifest [
        | none ↦ rebuild batch s
        | some m ↦
            if exact_legacy read_legacy m.files
            then copy_legacy read_legacy m s
            else rebuild batch s
      ]
    ]
